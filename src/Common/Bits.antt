-- ===== src/Common/Bits.antt =====
-- The two masks of an alignment 2 ^ k: the low `k` bits, and the bits above them up to a width.
use Prim.Native.Nat.{
  ℕ, zero, suc, ◌+◌, ◌-◌, ◌*◌, ◌/◌, ◌%◌, ◌^◌, ◌≤◌, ◌<◌, min, bit_and, digits, bit_and-bitwise,
}
use mathlib.Core.Path.{◌≡◌, refl, ap, ap₂, ◌∙◌}
use native.Mathlib.Omega.{arith}
use native.Mathlib.Nat.{pow-suc, one-le-pow}

abbrev masked : ℕ → ℕ → ℕ → ℕ
masked n a b = digits (λ c. zero) min n a b

-- `r` is the remainder of `a` by 2 ^ k.
pub record IsLow (k a r : ℕ) : Type 0 where
  pub quotient : ℕ
  pub split : a ≡ quotient * 2 ^ k + r
  pub small : r < 2 ^ k

IsLow-zero : (k : ℕ) → IsLow k 0 0
IsLow-zero k = record { quotient = 0; split = omega arith; small = one-le-pow k 2 (omega arith) }

masked-none : (n a : ℕ) → a ≤ n → masked n a 0 ≡ 0
masked-none zero a h = refl
masked-none (suc n) zero h = refl
masked-none (suc n) (suc a) h = omega (arith, masked-none n (suc a / 2) (omega arith))

-- One digit of the mask of the low bits.
masked_step :
    (k n a : ℕ)
    → masked (suc n) (suc a) (2 ^ suc k - 1) ≡ masked n (suc a / 2) (2 ^ k - 1) * 2 + suc a % 2
masked_step k n a =
    let double = pow-suc 2 k in
    let pos = one-le-pow k 2 (omega arith) in
    let half : (2 ^ suc k - 1) / 2 ≡ 2 ^ k - 1 = omega (arith, double, pos) in
    let odd : (2 ^ suc k - 1) % 2 ≡ 1 = omega (arith, double, pos) in
    ap₂ (λ u v. masked n (suc a / 2) u * 2 + min (suc a % 2) v) half odd ∙ omega arith

masked-IsLow : (k n a : ℕ) → a ≤ n → IsLow k a (masked n a (2 ^ k - 1))
masked-IsLow k zero zero h = IsLow-zero k
masked-IsLow k zero (suc a) h = absurd (omega arith)
masked-IsLow k (suc n) zero h = IsLow-zero k
masked-IsLow zero (suc n) (suc a) h = record {
  quotient = suc a;
  split = omega (arith, masked-none (suc n) (suc a) h);
  small = omega (arith, masked-none (suc n) (suc a) h);
}
masked-IsLow (suc k) (suc n) (suc a) h =
    let low = masked-IsLow k n (suc a / 2) (omega arith) in
    record {
      quotient = low.quotient;
      split =
          omega
            (arith, masked_step k n a, low.split, ap (λ (t : ℕ). low.quotient * t) (pow-suc 2 k));
      small = omega (arith, masked_step k n a, low.small, pow-suc 2 k);
    }

-- The mask of the low bits takes the remainder.
pub bit_and-IsLow : (k a : ℕ) → IsLow k a (bit_and a (2 ^ k - 1))
bit_and-IsLow k a = rw (bit_and-bitwise a (2 ^ k - 1)) (masked-IsLow k a a (omega arith))

-- `r` is `a` rounded down to a multiple of 2 ^ k.
pub record IsHigh (k a r : ℕ) : Type 0 where
  pub quotient : ℕ
  pub multiple : r ≡ quotient * 2 ^ k
  pub below : r ≤ a
  pub near : a < r + 2 ^ k

IsHigh-zero : (k : ℕ) → IsHigh k 0 0
IsHigh-zero k = record {
  quotient = 0;
  multiple = omega arith;
  below = omega arith;
  near = omega (arith, one-le-pow k 2 (omega arith));
}

mask_step :
    (k w n a : ℕ)
    → masked (suc n) (suc a) (2 ^ suc k * (2 ^ w - 1))
      ≡ masked n (suc a / 2) (2 ^ k * (2 ^ w - 1)) * 2
mask_step k w n a =
    let double : 2 ^ suc k * (2 ^ w - 1) ≡ 2 ^ k * (2 ^ w - 1) * 2 =
      omega (arith, ap (λ (t : ℕ). t * (2 ^ w - 1)) (pow-suc 2 k)) in
    let half : 2 ^ suc k * (2 ^ w - 1) / 2 ≡ 2 ^ k * (2 ^ w - 1) = omega (arith, double) in
    let even : 2 ^ suc k * (2 ^ w - 1) % 2 ≡ 0 = omega (arith, double) in
    ap₂ (λ u v. masked n (suc a / 2) u * 2 + min (suc a % 2) v) half even ∙ omega arith

eq_of_small : (q m r a : ℕ) → a ≡ q * m + r → a < m → r ≡ a
eq_of_small zero m r a e h = omega arith
eq_of_small (suc q) m r a e h = absurd (omega arith)

masked-IsHigh :
    (k w n a : ℕ) → a ≤ n → a < 2 ^ k * 2 ^ w → IsHigh k a (masked n a (2 ^ k * (2 ^ w - 1)))
masked-IsHigh k w zero zero h s = IsHigh-zero k
masked-IsHigh k w zero (suc a) h s = absurd (omega arith)
masked-IsHigh k w (suc n) zero h s = IsHigh-zero k
masked-IsHigh zero w (suc n) (suc a) h s =
    let low = masked-IsLow w (suc n) (suc a) h in
    let one : 2 ^ 0 * (2 ^ w - 1) ≡ 2 ^ w - 1 = omega arith in
    let same : masked (suc n) (suc a) (2 ^ 0 * (2 ^ w - 1)) ≡ suc a =
      ap (masked (suc n) (suc a)) one
      ∙ eq_of_small low.quotient (2 ^ w) _ (suc a) low.split (omega arith) in
    record {
      quotient = suc a;
      multiple = omega (arith, same);
      below = omega (arith, same);
      near = omega (arith, same);
    }
masked-IsHigh (suc k) w (suc n) (suc a) h s =
    let double = ap (λ (t : ℕ). t * 2 ^ w) (pow-suc 2 k) in
    let high = masked-IsHigh k w n (suc a / 2) (omega arith) (omega (arith, double)) in
    record {
      quotient = high.quotient;
      multiple = omega (
        arith,
        mask_step k w n a,
        high.multiple,
        ap (λ (t : ℕ). high.quotient * t) (pow-suc 2 k),
      );
      below = omega (arith, mask_step k w n a, high.below);
      near = omega (arith, mask_step k w n a, high.near, pow-suc 2 k);
    }

-- The mask of the bits above rounds down.
pub bit_and-IsHigh : (k w a : ℕ) → a < 2 ^ k * 2 ^ w → IsHigh k a (bit_and a (2 ^ k * (2 ^ w - 1)))
bit_and-IsHigh k w a s =
    rw (bit_and-bitwise a (2 ^ k * (2 ^ w - 1))) (masked-IsHigh k w a a (omega arith) s)
