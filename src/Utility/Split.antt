-- ===== src/Utility/Split.antt =====
-- `SplitString` cuts a string at its separator: the parts joined are the string, and no part
-- contains the separator.
use xhnet.Common.{
  ℕ, zero, suc, ◌+◌, ◌<◌, ◌≡◌, refl, sym, ap, ◌∙◌, true, false, none, some, List, [], ◌∷◌, ◌++◌,
  append_assoc, arith, ◌==◌, ==_iff, length, take, drop, All, ◌⊎◌, ap₂, subst, inl, inr, Bool-cases,
  Option-cases, length-append,
}
use mathlib.Core.Option.{some-injective, none-ne-some}
use native.Mathlib.Nat.{zero-add, suc-add}
use xhnet.Utility.{is_prefix, find, split_loop, split_string}

abbrev pub join : List ℕ → List ℕ → List (List ℕ) → List ℕ
join spt head [] = head
join spt head (part ∷ rest) = head ++ (spt ++ join spt part rest)

-- The parts of a string: a first one, and the rest.
pub record IsSplit (spt st head : List ℕ) (rest : List (List ℕ)) : Type 0 where
  pub joined : join spt head rest ≡ st
  pub clean : All (λ part. find spt part ≡ none) (head ∷ rest)

is_prefix-append : (p s : List ℕ) → is_prefix p s ≡ true → p ++ drop (length p) s ≡ s
unfolding is_prefix
is_prefix-append [] s h = refl
is_prefix-append (x ∷ p) [] h = absurd (ground arith)
is_prefix-append (x ∷ p) (c ∷ s) h = elim (Bool-cases (x == c)) [
  | inl e ↦ ap₂ (λ y l. y ∷ l) ((==_iff x c).0 e) (is_prefix-append p s ((rw e at h)))
  | inr e ↦ absurd (ground (arith, (rw e at h)))
]

-- What `find` finds is at the start, or one further than in the string without its first byte.
find-cons :
    (p : List ℕ) (c : ℕ) (s : List ℕ) (n : ℕ)
    → find p (c ∷ s) ≡ some n
    → ((is_prefix p (c ∷ s) ≡ true) × (n ≡ 0))
      ⊎ ((is_prefix p (c ∷ s) ≡ false) × ((m : ℕ) × (find p s ≡ some m) × (n ≡ suc m)))
unfolding find
find-cons p c s n h = elim (Bool-cases (is_prefix p (c ∷ s))) [
  | inl e ↦ inl (e, sym (some-injective _ _ ((rw e at h))))
  | inr e ↦ elim (Option-cases (find p s)) [
    | inl missing ↦ absurd (none-ne-some n ((rw (e, missing) at h)))
    | inr (m, found) ↦ inr (e, (m, found, sym (some-injective _ _ ((rw (e, found) at h)))))
  ]
]

find-nil : (p : List ℕ) (n : ℕ) → find p [] ≡ some n → (is_prefix p [] ≡ true) × (n ≡ 0)
unfolding find
find-nil p n h = elim (Bool-cases (is_prefix p [])) [
  | inl e ↦ (e, sym (some-injective _ _ ((rw e at h))))
  | inr e ↦ absurd (none-ne-some n ((rw e at h)))
]

find-append :
    (p s : List ℕ) (n : ℕ) → find p s ≡ some n → take n s ++ (p ++ drop (n + length p) s) ≡ s
find-append p [] n h =
    let (e, start) = find-nil p n h in
    subst (λ k. take k [] ++ (p ++ drop (k + length p) []) ≡ []) (sym start)
      (rw zero-add (is_prefix-append p [] e))
find-append p (c ∷ s) n h = elim (find-cons p c s n h) [
  | inl (e, start) ↦
      subst (λ k. take k (c ∷ s) ++ (p ++ drop (k + length p) (c ∷ s)) ≡ c ∷ s) (sym start)
        (rw zero-add (is_prefix-append p (c ∷ s) e))
  | inr (e, (m, found, further)) ↦
      subst (λ k. take k (c ∷ s) ++ (p ++ drop (k + length p) (c ∷ s)) ≡ c ∷ s) (sym further)
        (rw suc-add (ap (λ l. c ∷ l) (find-append p s m found)))
]

-- A prefix of a part is a prefix of the whole.
is_prefix-take : (p s : List ℕ) (n : ℕ) → is_prefix p s ≡ false → is_prefix p (take n s) ≡ false
unfolding is_prefix
is_prefix-take [] s n h = h
is_prefix-take (x ∷ p) [] zero h = h
is_prefix-take (x ∷ p) [] (suc n) h = h
is_prefix-take (x ∷ p) (c ∷ s) zero h = refl
is_prefix-take (x ∷ p) (c ∷ s) (suc n) h = elim (Bool-cases (x == c)) [
  | inl e ↦ rw e (is_prefix-take p s n ((rw e at h)))
  | inr e ↦ rw e
]

is_prefix-nil : (p : List ℕ) → 0 < length p → is_prefix p [] ≡ false
unfolding is_prefix
is_prefix-nil [] pos = absurd (omega arith)
is_prefix-nil (x ∷ p) pos = refl

find-none : (p : List ℕ) → 0 < length p → find p [] ≡ none
unfolding find
find-none p pos = rw (is_prefix-nil p pos)

-- In front of the first place of `p` there is no place of it.
find-take : (p s : List ℕ) (n : ℕ) → 0 < length p → find p s ≡ some n → find p (take n s) ≡ none
unfolding find
find-take p [] n pos h = absurd (none-ne-some n (sym (find-none p pos) ∙ h))
find-take p (c ∷ s) n pos h = elim (find-cons p c s n h) [
  | inl (e, start) ↦ subst (λ k. find p (take k (c ∷ s)) ≡ none) (sym start) (find-none p pos)
  | inr (e, (m, found, further)) ↦
      subst (λ k. find p (take k (c ∷ s)) ≡ none) (sym further)
        (rw (is_prefix-take p (c ∷ s) (suc m) e, find-take p s m pos found))
]

split_loop_lem :
    (spt : List ℕ) (fuel : ℕ) (out : List (List ℕ)) (st : List ℕ)
    → 0 < length spt
    → length st < fuel
    → (head : List ℕ) × (rest : List (List ℕ)) × (split_loop fuel spt out st
        ≡ some (out ++ (head ∷ rest)))
      × IsSplit spt st head rest
unfolding split_loop
split_loop_lem spt zero out st pos enough = absurd (omega arith)
split_loop_lem spt (suc fuel) out st pos enough = elim (Option-cases (find spt st)) [
  | inl missing ↦
      (st, [], (rw (split_loop, missing)), record { joined = refl; clean = (missing, tt) })
  | inr (n, found) ↦
      let whole = find-append spt st n found in
      let after : List ℕ = drop (n + length spt) st in
      let shorter : length after < fuel = omega (
        arith,
        ap (length {A = ℕ}) whole,
        length-append (take n st) (spt ++ after),
        length-append spt after,
      ) in
      let (head, rest, runs, split) =
        split_loop_lem spt fuel (out ++ (take n st ∷ [])) after pos shorter in
      (
        take n st,
        head ∷ rest,
        rw (split_loop, found) (runs ∙ ap some (append_assoc out (take n st ∷ []) (head ∷ rest))),
        record {
          joined = ap (λ l. take n st ++ (spt ++ l)) split.joined ∙ whole;
          clean = (find-take spt st n pos found, split.clean);
        },
      )
]

-- With a separator that is not empty `SplitString` returns where the fuel is more than the length
-- of the string; the parts joined with the separator are the string, and no part contains it.
pub split_string_lem :
    (fuel : ℕ) (str spt : List ℕ)
    → 0 < length spt
    → length str < fuel
    → (head : List ℕ) × (rest : List (List ℕ)) × (split_string fuel str spt ≡ some (head ∷ rest))
      × IsSplit spt str head rest
unfolding split_string
split_string_lem fuel str spt = split_loop_lem spt fuel [] str

find-empty : (st : List ℕ) → find [] st ≡ some 0
unfolding find is_prefix
find-empty [] = refl
find-empty (c ∷ st) = refl

split_loop-endless :
    (fuel : ℕ) (out : List (List ℕ)) (st : List ℕ) → split_loop fuel [] out st ≡ none
unfolding split_loop
split_loop-endless zero out st = refl
split_loop-endless (suc fuel) out st = rw (split_loop, find-empty st) (split_loop-endless fuel _ st)

-- With an empty separator `SplitString` does not return, whatever the fuel.
pub split_string_endless : (fuel : ℕ) (str : List ℕ) → split_string fuel str [] ≡ none
unfolding split_string
split_string_endless fuel str = split_loop-endless fuel [] str
