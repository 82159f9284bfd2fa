-- ===== src/Common/Lists.antt =====
-- Lists measured and indexed by native numbers, under the library's names.
use Prim.Native.Nat.{ℕ, zero, suc, ◌+◌, ◌-◌, ◌≤◌, ◌<◌, min}
use mathlib.Core.Path.{◌≡◌, refl, ap}
use mathlib.Core.List.{List, [], ◌∷◌, ◌++◌, reverse, reverse_aux}
use native.Mathlib.Omega.{arith}
use native.Mathlib.Nat.{zero-add, add-zero, suc-add}

module _ {ℓ} {A : Type ℓ} where
  abbrev pub length : List A → ℕ
  length [] = 0
  length (x ∷ xs) = suc (length xs)

  abbrev pub take : ℕ → List A → List A
  take zero xs = []
  take (suc n) [] = []
  take (suc n) (x ∷ xs) = x ∷ take n xs

  abbrev pub drop : ℕ → List A → List A
  drop zero xs = xs
  drop (suc n) [] = []
  drop (suc n) (x ∷ xs) = drop n xs

  -- A block of elements written over a list from position `i` on, as `memcpy` does within bounds.
  abbrev pub splice : List A → ℕ → List A → List A
  splice [] i p = []
  splice (x ∷ xs) zero [] = x ∷ xs
  splice (x ∷ xs) zero (y ∷ p) = y ∷ splice xs zero p
  splice (x ∷ xs) (suc i) p = x ∷ splice xs i p

  abbrev pub All {κ} : (A → Type κ) → List A → Type κ
  All P [] = Unit {κ}
  All P (x ∷ xs) = P x × All P xs

  pub length-append : (xs ys : List A) → length (xs ++ ys) ≡ length xs + length ys
  length-append [] ys = omega arith
  length-append (x ∷ xs) ys = omega (arith, length-append xs ys)

  length-reverse_aux : (xs ys : List A) → length (reverse_aux xs ys) ≡ length xs + length ys
  length-reverse_aux [] ys = omega arith
  length-reverse_aux (x ∷ xs) ys = omega (arith, length-reverse_aux xs (x ∷ ys))

  pub length-reverse : (xs : List A) → length (reverse xs) ≡ length xs
  length-reverse xs = omega (arith, length-reverse_aux xs [])

  pub length-take : (n : ℕ) (xs : List A) → length (take n xs) ≡ min n (length xs)
  length-take zero xs = omega arith
  length-take (suc n) [] = omega arith
  length-take (suc n) (x ∷ xs) = omega (arith, length-take n xs)

  pub length-drop : (n : ℕ) (xs : List A) → length (drop n xs) ≡ length xs - n
  length-drop zero xs = omega arith
  length-drop (suc n) [] = omega arith
  length-drop (suc n) (x ∷ xs) = omega (arith, length-drop n xs)

  pub length-splice : (xs : List A) (i : ℕ) (p : List A) → length (splice xs i p) ≡ length xs
  length-splice [] i p = refl
  length-splice (x ∷ xs) zero [] = refl
  length-splice (x ∷ xs) zero (y ∷ p) = ap suc (length-splice xs zero p)
  length-splice (x ∷ xs) (suc i) p = ap suc (length-splice xs i p)

  pub take-append : (xs ys : List A) → take (length xs) (xs ++ ys) ≡ xs
  take-append [] ys = refl
  take-append (x ∷ xs) ys = ap (λ l. x ∷ l) (take-append xs ys)

  pub drop-append : (xs ys : List A) → drop (length xs) (xs ++ ys) ≡ ys
  drop-append [] ys = refl
  drop-append (x ∷ xs) ys = drop-append xs ys

  pub drop-drop : (n m : ℕ) (xs : List A) → drop n (drop m xs) ≡ drop (m + n) xs
  drop-drop n zero xs = rw zero-add
  drop-drop zero (suc m) [] = rw add-zero
  drop-drop (suc n) (suc m) [] = rw suc-add
  drop-drop n (suc m) (x ∷ xs) = rw suc-add (drop-drop n m xs)

  pub take-take : (k m : ℕ) (xs : List A) → take k (take (k + m) xs) ≡ take k xs
  take-take zero m xs = refl
  take-take (suc k) m [] = rw suc-add
  take-take (suc k) m (x ∷ xs) = rw (suc-add, take-take k m xs)

  pub drop-take : (k m : ℕ) (xs : List A) → drop k (take (k + m) xs) ≡ take m (drop k xs)
  drop-take zero m xs = rw zero-add
  drop-take (suc k) zero [] = rw suc-add
  drop-take (suc k) (suc m) [] = rw suc-add
  drop-take (suc k) m (x ∷ xs) = rw suc-add (drop-take k m xs)

  pub take-splice : (xs p : List A) → length p ≤ length xs → take (length p) (splice xs zero p) ≡ p
  take-splice xs [] h = refl
  take-splice [] (y ∷ p) h = absurd (omega arith)
  take-splice (x ∷ xs) (y ∷ p) h = ap (λ l. y ∷ l) (take-splice xs p (omega arith))

  pub take-splice_after :
      (n : ℕ) (xs p : List A)
      → n + length p ≤ length xs
      → take (n + length p) (splice xs n p) ≡ take n xs ++ p
  take-splice_after zero xs p h = rw zero-add (take-splice xs p (omega arith))
  take-splice_after (suc n) [] p h = absurd (omega arith)
  take-splice_after (suc n) (x ∷ xs) p h =
      rw suc-add (ap (λ l. x ∷ l) (take-splice_after n xs p (omega arith)))

  -- What is read from `r` on, `n` elements and the block written behind them, is those and the block.
  pub slice-splice :
      (r n : ℕ) (xs p : List A)
      → r + n + length p ≤ length xs
      → take (n + length p) (drop r (splice xs (r + n) p)) ≡ take n (drop r xs) ++ p
  slice-splice zero n xs p h = rw zero-add (take-splice_after n xs p (omega arith))
  slice-splice (suc r) n [] p h = absurd (omega arith)
  slice-splice (suc r) n (x ∷ xs) p h = rw suc-add (slice-splice r n xs p (omega arith))

  -- Two blocks written one behind the other are one.
  pub splice-splice :
      (i : ℕ) (xs p q : List A) → splice (splice xs i p) (i + length p) q ≡ splice xs i (p ++ q)
  splice-splice i [] p q = refl
  splice-splice zero (x ∷ xs) [] q = refl
  splice-splice zero (x ∷ xs) (y ∷ p) q = rw (zero-add, ← splice-splice zero xs p q, zero-add)
  splice-splice (suc i) (x ∷ xs) p q = rw suc-add (ap (λ l. x ∷ l) (splice-splice i xs p q))

  pub splice-nil : (xs : List A) (i : ℕ) → splice xs i [] ≡ xs
  splice-nil [] i = refl
  splice-nil (x ∷ xs) zero = refl
  splice-nil (x ∷ xs) (suc i) = ap (λ l. x ∷ l) (splice-nil xs i)

  pub reverse_aux-take-suc :
      (r n : ℕ) (xs acc : List A)
      → r < length xs
      → reverse_aux (take n (drop (r + 1) xs)) (take 1 (drop r xs) ++ acc)
        ≡ reverse_aux (take (suc n) (drop r xs)) acc
  reverse_aux-take-suc r n [] acc h = absurd (omega arith)
  reverse_aux-take-suc zero n (x ∷ xs) acc h = refl
  reverse_aux-take-suc (suc r) n (x ∷ xs) acc h =
      rw suc-add (reverse_aux-take-suc r n xs acc (omega arith))
