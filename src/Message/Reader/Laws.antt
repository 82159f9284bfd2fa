-- ===== src/Message/Reader/Laws.antt =====
-- The pieces in which the bytes arrive make no difference.
use xhnet.Common.{
  Bool, true, false, if◌then◌else◌, ℕ, zero, suc, ◌≤◌, ◌≡◌, refl, sym, ap, ◌∙◌, Option, none, some,
  List, [], ◌∷◌, ◌++◌, arith, ◌==◌, ◌-◌, length-splice, ne→==, length-take, length-drop, ◌⊎◌,
  length, take, drop, inl, inr,
}
use xhnet.IoBuffer.{IoBuffer}
use xhnet.IoBuffer.Queue.{room, stored, stored-stored}
use xhnet.Message.Reader.{
  Reader, Outcome, going, unread, closed_by_peer, failed, out_of_fuel, on_success, and_more, concat,
  receive, at_most, take_in, feed,
}

on_success_ext {ℓ} :
    {S : Type ℓ} (o : Option S) {f g : S → Outcome S}
    → ((s : S) → f s ≡ g s)
    → on_success o f ≡ on_success o g
on_success_ext none h = refl
on_success_ext (some s) h = h s

and_more_ext {ℓ} :
    {S : Type ℓ} (q : List ℕ) (m : Outcome S) {f g : S → Outcome S}
    → ((s : S) → f s ≡ g s)
    → and_more q m f ≡ and_more q m g
and_more_ext q (going s) h = h s
and_more_ext q (unread p s) h = refl
and_more_ext q (closed_by_peer s) h = refl
and_more_ext q failed h = refl
and_more_ext q out_of_fuel h = refl

take-drop : (k : ℕ) (p : List ℕ) → take k p ++ drop k p ≡ p
take-drop zero p = refl
take-drop (suc k) [] = refl
take-drop (suc k) (x ∷ p) = ap (λ l. x ∷ l) (take-drop k p)

Nat-cases : (n : ℕ) → (n ≡ 0) ⊎ ((k : ℕ) × (n ≡ suc k))
Nat-cases zero = inl refl
Nat-cases (suc k) = inr (k, refl)

pred-== : (m n : ℕ) → 1 ≤ m → (m - 1 == n) ≡ (m == suc n)
pred-== m n h = ground arith

-- A byte for which there is no room stops the reading, whatever arrives after it.
more_after_byte {ℓ} :
    {S : Type ℓ} (full : Bool) (s : S) (o : Option S) (q : List ℕ) (f g k : S → Outcome S)
    → ((t : S) → f t ≡ and_more q (g t) k)
    → (if full then closed_by_peer s else on_success o f)
      ≡ and_more q (if full then closed_by_peer s else on_success o g) k
more_after_byte true s o q f g k h = refl
more_after_byte false s none q f g k h = refl
more_after_byte false s (some t) q f g k h = h t

module _ {ℓ} {S : Type ℓ} (r : Reader S) where
  abbrev pub byte_first : (S → Outcome S) → ℕ → List ℕ → List IoBuffer → S → Outcome S
  byte_first more x p [] s = unread (x ∷ p) s
  byte_first more x p (b ∷ bs) s =
      if room b == 0 then closed_by_peer s else on_success (receive r (x ∷ []) b bs s) more

  -- The bytes, one at a time.
  unfoldable pub each_byte : List ℕ → S → Outcome S
  each_byte [] s = going s
  each_byte (x ∷ p) s = byte_first (each_byte p) x p (r.wait s) s

  -- Bytes for which the first buffer has room have the same effect one at a time.
  pub receive-each_byte :
      (x : ℕ) (p rest : List ℕ) (b : IoBuffer) (bs : List IoBuffer) (s : S)
      → r.wait s ≡ b ∷ bs
      → suc (length p) ≤ room b
      → each_byte (x ∷ p ++ rest) s ≡ on_success (receive r (x ∷ p) b bs s) (each_byte rest)
  unfolding each_byte
  receive-each_byte x [] rest b bs s e h = rw (e, ne→== (room b) 0 (λ k. omega (arith, k))) refl
  receive-each_byte x (y ∷ p) rest b bs s e h =
      let b' = stored (x ∷ []) b in
      let s' = r.set_wait (b' ∷ bs) s in
      let space : room b' ≡ room b - 1 = omega (arith, length-splice b.bytes b.write (x ∷ [])) in
      let both : receive r (y ∷ p) b' bs s' ≡ receive r (x ∷ y ∷ p) b bs s =
        rw
          (
            space,
            pred-== (room b) (length (y ∷ p)) (omega arith),
            r.set_wait-set_wait bs (b' ∷ bs) s,
            r.set_wait-set_wait (stored (y ∷ p) b' ∷ bs) (b' ∷ bs) s,
            stored-stored (x ∷ []) (y ∷ p) b,
          )
          refl in
      rw (e, ne→== (room b) 0 (λ k. omega (arith, k)), ne→== (room b) 1 (λ k. omega (arith, k)))
        (receive-each_byte y p rest b' bs s' (r.wait-set_wait (b' ∷ bs) s) (omega (arith, space))
          ∙ ap (λ m. on_success m (each_byte rest)) both)

  byte_first-append :
      (x : ℕ) (p q : List ℕ) (f g k : S → Outcome S) (l : List IoBuffer) (s : S)
      → ((t : S) → f t ≡ and_more q (g t) k)
      → byte_first f x (p ++ q) l s ≡ and_more q (byte_first g x p l s) k
  byte_first-append x p q f g k [] s h = refl
  byte_first-append x p q f g k (b ∷ bs) s h =
      more_after_byte (room b == 0) s (receive r (x ∷ []) b bs s) q f g k h

  each_byte-append :
      (p q : List ℕ) (s : S) → each_byte (p ++ q) s ≡ and_more q (each_byte p s) (each_byte q)
  unfolding each_byte
  each_byte-append [] q s = refl
  each_byte-append (x ∷ p) q s =
      byte_first-append x p q (each_byte (p ++ q)) (each_byte p) (each_byte q) (r.wait s) s
        (each_byte-append p q)

  -- The first read, when the rest reads as its bytes.
  first_read :
      (fuel k x : ℕ) (p : List ℕ) (b : IoBuffer) (bs : List IoBuffer) (s : S)
      → r.wait s ≡ b ∷ bs
      → at_most r (room b) (x ∷ p) ≡ suc k
      → ((t : S) → take_in r fuel (drop k p) t ≡ each_byte (drop k p) t)
      → take_in r (suc fuel) (x ∷ p) s ≡ each_byte (x ∷ p) s
  unfolding take_in
  first_read fuel k x p b bs s e n more =
      let fits : (suc k ≤ room b) × (k ≤ length p) = ground (arith, n) in
      let first =
        receive-each_byte x (take k p) (drop k p) b bs s e (omega (arith, length-take k p)) in
      rw (e, n, ne→== (suc k) 0 (λ q. omega (arith, q)))
        (on_success_ext (receive r (x ∷ take k p) b bs s) more
          ∙ sym first
          ∙ ap (λ l. each_byte (x ∷ l) s) (take-drop k p))

  read-each_byte :
      (fuel x : ℕ) (p : List ℕ) (l : List IoBuffer) (s : S)
      → r.wait s ≡ l
      → ((k : ℕ) (t : S) → take_in r fuel (drop k p) t ≡ each_byte (drop k p) t)
      → take_in r (suc fuel) (x ∷ p) s ≡ each_byte (x ∷ p) s
  unfolding take_in each_byte
  read-each_byte fuel x p [] s e more = rw e refl
  read-each_byte fuel x p (b ∷ bs) s e more = elim (Nat-cases (at_most r (room b) (x ∷ p))) [
    | inl n ↦ let full : room b ≡ 0 = ground (arith, n) in rw (e, n, full) refl
    | inr (k, n) ↦ first_read fuel k x p b bs s e n (more k)
  ]

  -- Enough fuel is the number of the bytes.
  pub take_in-each_byte :
      (fuel : ℕ) (p : List ℕ) (s : S) → length p ≤ fuel → take_in r fuel p s ≡ each_byte p s
  unfolding take_in each_byte
  take_in-each_byte fuel [] s h = refl
  take_in-each_byte zero (x ∷ p) s h = absurd (omega arith)
  take_in-each_byte (suc fuel) (x ∷ p) s h =
      read-each_byte fuel x p (r.wait s) s refl
        (λ k t. take_in-each_byte fuel (drop k p) t (omega (arith, length-drop k p)))

  pub feed-each_byte : (ps : List (List ℕ)) (s : S) → feed r ps s ≡ each_byte (concat ps) s
  unfolding feed each_byte
  feed-each_byte [] s = refl
  feed-each_byte (p ∷ ps) s =
      rw (take_in-each_byte (length p) p s (omega arith), each_byte-append p (concat ps) s)
        (and_more_ext (concat ps) (each_byte p s) (feed-each_byte ps))
