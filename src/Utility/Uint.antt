-- ===== src/Utility/Uint.antt =====
-- `UINTAdd`, `UINTSub`, `GenRandUINT` and `IsDigit` of source/utility/utility.cpp. An `unsigned int`
-- is a number below 2 ^ 32.
use xhnet.Common.{
  ℕ, ◌+◌, ◌-◌, ◌%◌, ◌^◌, ◌≤◌, ◌<◌, ◌≡◌, ◌↔◌, refl, ap, Bool, true, false, ◌||◌, List, [], ◌∷◌,
  arith, ltb, leb, ◌==◌, if◌then◌else◌, All, ne→==, le→ltb, lt→ltb,
}
use native.Mathlib.Nat.{mod-lt}

-- The sum, and the argument `add` afterwards, which is a reference.
unfoldable pub uint_add : ℕ → ℕ → ℕ → ℕ × ℕ
uint_add src add max =
    if leb max src
    then (max, 0)
    else if ltb max add
    then (max, max - src)
    else if ltb (max - add) src
    then (max, max - src)
    else ((src + add) % 2 ^ 32, add)

unfoldable pub uint_sub : ℕ → ℕ → ℕ → ℕ × ℕ
uint_sub src sub max =
    if ltb src sub then (0, src) else if ltb max sub then (0, src) else (src - sub, sub)

-- `value` is what the generator returns.
unfoldable pub gen_rand_uint : ℕ → ℕ → ℕ → ℕ
gen_rand_uint value min max =
    if ltb max min
    then (value % (min - max) + max) % 2 ^ 32
    else if min == max
    then min
    else (value % (max - min) + min) % 2 ^ 32

-- A `char` is signed: a byte from 128 on is below '0'.
unfoldable pub is_digit : List ℕ → Bool
is_digit [] = true
is_digit (c ∷ str) =
    let rest = is_digit str in if (leb 128 c || ltb c 48) || ltb 57 c then false else rest

module _ {src max : ℕ} (within : src ≤ max) (small : max < 2 ^ 32) where
  -- For `src` at most `max`, an `unsigned int`, `UINTAdd` returns the sum if that is at most
  -- `max`, otherwise `max`, and leaves in `add` what it has added.
  pub uint_add_lem :
      (add : ℕ)
      → ((uint_add src add max).0 ≡ (if leb (src + add) max then src + add else max))
        × ((uint_add src add max).0 ≡ src + (uint_add src add max).1)
  unfolding uint_add
  uint_add_lem add = (ground arith, ground arith)

  uint_add_le : (add : ℕ) → (uint_add src add max).0 ≤ max
  unfolding uint_add
  uint_add_le add = ground arith

  -- For `src` at most `max`, an `unsigned int`, `UINTSub` takes away again what `UINTAdd` has
  -- added.
  pub uint_sub-uint_add :
      (add : ℕ)
      → uint_sub (uint_add src add max).0 (uint_add src add max).1 max
        ≡ (src, (uint_add src add max).1)
  unfolding uint_sub
  uint_sub-uint_add add =
      let sum = (uint_add_lem add).1 in
      let at_most : (uint_add src add max).0 ≤ max = uint_add_le add in
      rw
        (
          le→ltb (uint_add src add max).0 (uint_add src add max).1 (omega arith),
          le→ltb max (uint_add src add max).1 (omega arith),
        )
        (ap (λ s. (s, (uint_add src add max).1)) (omega arith))

-- For bounds `min` below `max`, an `unsigned int`, the result of `GenRandUINT` is at least `min`
-- and below `max`, and the same where the bounds are swapped.
pub gen_rand_uint_lem :
    (value min max : ℕ)
    → min < max
    → max < 2 ^ 32
    → (min ≤ gen_rand_uint value min max)
      × (gen_rand_uint value min max < max)
      × (gen_rand_uint value max min ≡ gen_rand_uint value min max)
unfolding gen_rand_uint
gen_rand_uint_lem value min max less small =
    let bound : value % (max - min) < max - min = mod-lt value (omega arith) in
    rw (le→ltb max min (omega arith), lt→ltb min max less, ne→== min max (omega arith))
      (omega arith, omega arith, refl)

-- `IsDigit` holds of the strings of the characters 48 to 57, and of no other.
pub is_digit_iff : (str : List ℕ) → (is_digit str ≡ true) ↔ All (λ c. (48 ≤ c) × (c ≤ 57)) str
unfolding is_digit
is_digit_iff [] = (λ _. tt, λ _. refl)
is_digit_iff (c ∷ str) = ground (arith, is_digit_iff str)
