-- ===== src/IoBuffer/Rules.antt =====
-- Rules for composed writes and reads of a `CIOBuffer`, and the interface of a type that can be
-- written and read back.
use xhnet.Common.{
  ℕ, ◌+◌, ◌≤◌, ◌<◌, ◌≡◌, sym, ap, ◌∙◌, Bool, List, [], ◌++◌, append_assoc, arith, leb, leb→le,
  leb→lt, length, length-append, drop, drop-append, if◌then◌else◌, inl, inr, Bool-cases,
}
use native.Mathlib.Nat.{add-zero}
use xhnet.IoBuffer.{IoBuffer, Run, ok, overflow, fault, Cmd, pure, and_then, ◌>>=◌, ◌>>◌}
use xhnet.IoBuffer.Queue.{
  IsValid, pending, room, stored, fetched, stored-stored, stored-IsValid, room-stored,
  fetched-IsValid, pending-fetched,
}

-- No access outside the memory, and a valid buffer whether the operation returns or throws.
abbrev pub Safe {ℓ} : {A : Type ℓ} → Run A → Type 0
Safe (ok a b) = IsValid b
Safe (overflow b) = IsValid b
Safe fault = ⊥

abbrev pub Overflows {ℓ} : {A : Type ℓ} → Run A → Type 0
Overflows (ok a b) = ⊥
Overflows (overflow b) = IsValid b
Overflows fault = ⊥

pub record IsSafe {ℓ} {A : Type ℓ} (m : Cmd A) : Type ℓ where
  pub at : (b : IoBuffer) → IsValid b → Safe (m b)

-- On a buffer of the byte order `big`, `m` appends `p` where there is room for it, and otherwise
-- throws.
pub record Appends (big : Bool) (m : Cmd (Unit {0})) (p : List ℕ) : Type 0 where
  pub fits :
      (b : IoBuffer) → IsValid b → b.biged ≡ big → length p ≤ room b → m b ≡ ok tt (stored p b)
  pub full : (b : IoBuffer) → IsValid b → b.biged ≡ big → room b < length p → Overflows (m b)

-- On a buffer of the byte order `big` where `p` is next, `m` takes `p` and returns `a`.
pub record Takes {ℓ} {A : Type ℓ} (big : Bool) (m : Cmd A) (a : A) (p : List ℕ) : Type ℓ where
  pub at :
      (b : IoBuffer) (rest : List ℕ)
      → IsValid b
      → b.biged ≡ big
      → pending b ≡ p ++ rest
      → m b ≡ ok a (fetched (length p) b)

module _ {ℓ κ} {A : Type ℓ} {B : Type κ} where
  and_then-Safe :
      (r : Run A) (f : A → Cmd B) → Safe r → ((a : A) → IsSafe (f a)) → Safe (and_then r f)
  and_then-Safe (ok a b) f s fs = (fs a).at b s
  and_then-Safe (overflow b) f s fs = s
  and_then-Safe fault f s fs = s

  pub IsSafe-bind :
      (m : Cmd A) (f : A → Cmd B) → IsSafe m → ((a : A) → IsSafe (f a)) → IsSafe (m >>= f)
  IsSafe-bind m f s fs = record { at = λ b v. and_then-Safe (m b) f (s.at b v) fs }

pub IsSafe-pure {ℓ} : {A : Type ℓ} (a : A) → IsSafe (pure a)
IsSafe-pure a = record { at = λ b v. v }

pub IsSafe-if {ℓ} :
    {A : Type ℓ} (c : Bool) {m n : Cmd A} → IsSafe m → IsSafe n → IsSafe (if c then m else n)
IsSafe-if c s t = elim (Bool-cases c) [ inl e ↦ rw e s | inr e ↦ rw e t ]

and_then-Overflows :
    (r : Run (Unit {0})) (n : Cmd (Unit {0})) → Overflows r → Overflows (and_then r (λ _. n))
and_then-Overflows (ok a b) n h = absurd h
and_then-Overflows (overflow b) n h = h
and_then-Overflows fault n h = h

pub Appends-then :
    {big : Bool} (m n : Cmd (Unit {0})) {p q : List ℕ}
    → Appends big m p
    → Appends big n q
    → Appends big (m >> n) (p ++ q)
Appends-then m n {p} {q} am an = record {
  fits = λ b v e h. rw (
    am.fits b v e (omega (arith, length-append p q)),
    an.fits (stored p b) (stored-IsValid v p (omega (arith, length-append p q))) e
        (omega (arith, room-stored v p, length-append p q)),
    stored-stored p q b,
  );
  full = λ b v e h. elim (Bool-cases (leb (length p) (room b))) [
    | inl some ↦
        let within : length p ≤ room b = leb→le _ _ some in
        rw (am.fits b v e within) (
          an.full (stored p b) (stored-IsValid v p within) e
            (omega (arith, room-stored v p, length-append p q)))
    | inr none ↦ and_then-Overflows (m b) n (am.full b v e (leb→lt _ _ none))
  ];
}

pub Takes-pure {ℓ} : {A : Type ℓ} {big : Bool} (a : A) → Takes big (pure a) a []
Takes-pure a = record {
  at = λ b rest v e h. ap (λ k. ok a (record b { read = k })) (sym (add-zero b.read));
}

-- After `p` has been taken, what followed it is next.
pub pending-taken :
    {b : IoBuffer} (p rest : List ℕ)
    → IsValid b
    → pending b ≡ p ++ rest
    → IsValid (fetched (length p) b) × (pending (fetched (length p) b) ≡ rest)
pending-taken {b} p rest v h =
    let within : length p ≤ length (pending b) =
      omega (arith, ap (length {A = ℕ}) h, length-append p rest) in
    (
      fetched-IsValid v (length p) within,
      pending-fetched v (length p) within ∙ ap (drop (length p)) h ∙ drop-append p rest,
    )

pub Takes-bind {ℓ κ} :
    {A : Type ℓ} {B : Type κ} {big : Bool} (m : Cmd A) (f : A → Cmd B) {a : A} {c : B}
    {p q : List ℕ}
    → Takes big m a p
    → Takes big (f a) c q
    → Takes big (m >>= f) c (p ++ q)
Takes-bind m f {c = c} {p} {q} tm tf = record {
  at = λ b rest v e h.
      let next = h ∙ append_assoc p q rest in
      let (v', h') = pending-taken p (q ++ rest) v next in
      let sum : b.read + length p + length q ≡ b.read + length (p ++ q) =
        omega (arith, length-append p q) in
      rw (tm.at b (q ++ rest) v e next)
        (tf.at (fetched (length p) b) rest v' e h' ∙ ap (λ k. ok c (record b { read = k })) sum);
}
