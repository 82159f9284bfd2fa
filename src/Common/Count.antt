-- ===== src/Common/Count.antt =====
-- How often a number stands in a list.
use Prim.Native.Nat.{ℕ, ◌+◌, ◌≤◌, ◌<◌}
use mathlib.Core.Path.{◌≡◌, ap}
use mathlib.Core.Logic.{inl, inr}
use mathlib.Core.List.{List, [], ◌∷◌, ◌++◌}
use native.Mathlib.Omega.{arith}
use xhnet.Common.Tests.{◌==◌, ==_iff, if◌then◌else◌, Bool-cases}
use xhnet.Common.Lists.{length}

abbrev pub count : ℕ → List ℕ → ℕ
count a [] = 0
count a (x ∷ xs) = (if a == x then 1 else 0) + count a xs

-- Without its first `a`.
abbrev pub remove : ℕ → List ℕ → List ℕ
remove a [] = []
remove a (x ∷ xs) = let rest = remove a xs in if a == x then xs else x ∷ rest

pub count-remove :
    (a x : ℕ) (l : List ℕ)
    → 0 < count a l
    → count x (remove a l) + (if x == a then 1 else 0) ≡ count x l
count-remove a x [] h = absurd (omega arith)
count-remove a x (y ∷ l) h = elim (Bool-cases (a == y)) [
  | inl e ↦ rw e (omega (arith, ap {B = ℕ} (λ z. if x == z then 1 else 0) ((==_iff a y).0 e)))
  | inr e ↦ rw e (omega (arith, count-remove a x l (omega (arith, (rw e at h)))))
]

pub length-remove : (a : ℕ) (l : List ℕ) → 0 < count a l → length (remove a l) + 1 ≡ length l
length-remove a [] h = absurd (omega arith)
length-remove a (y ∷ l) h = elim (Bool-cases (a == y)) [
  | inl e ↦ rw e (omega arith)
  | inr e ↦ rw e (omega (arith, length-remove a l (omega (arith, (rw e at h)))))
]

pub count-append : (x : ℕ) (k l : List ℕ) → count x (k ++ l) ≡ count x k + count x l
count-append x [] l = omega arith
count-append x (y ∷ k) l = omega (arith, count-append x k l)

pub count_le : (x : ℕ) (l : List ℕ) → count x l ≤ length l
count_le x [] = omega arith
count_le x (y ∷ l) = ground (arith, count_le x l)
