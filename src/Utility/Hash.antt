-- ===== src/Utility/Hash.antt =====
-- `StrHash` reads the bytes of a string as the digits of a number.
use Prim.Native.Nat.{bit_and}
use xhnet.Common.{ℕ, ◌+◌, ◌*◌, ◌%◌, ◌^◌, ◌<◌, ◌≡◌, refl, List, [], ◌∷◌, arith, ne→==, All}
use xhnet.Common.Bits.{IsLow, bit_and-IsLow}
use xhnet.Utility.{extended, hash_loop, str_hash}

-- The number with the digits `s` behind `n`, in base 131.
abbrev pub numeral : ℕ → List ℕ → ℕ
numeral n [] = n
numeral n (c ∷ s) = numeral (n * 131 + extended c) s

hash_loop-numeral :
    (h n : ℕ) (s : List ℕ)
    → All (λ c. 0 < c) s
    → h ≡ n % 2 ^ 32
    → hash_loop h s ≡ numeral n s % 2 ^ 32
unfolding hash_loop
hash_loop-numeral h n [] f e = e
hash_loop-numeral h n (c ∷ s) (pos, f) e = rw (ne→== c 0 (omega arith)) (
    hash_loop-numeral ((h * 131 + extended c) % 2 ^ 32) (n * 131 + extended c) s f
      (omega (arith, e)))

-- The hash of a string without a 0 is its bytes as the digits of a number in base 131, modulo 2 ^
-- 31, where a byte from 128 on stands for the number 256 less, modulo 2 ^ 32.
pub str_hash_lem : (s : List ℕ) → All (λ c. 0 < c) s → str_hash s ≡ numeral 0 s % 2 ^ 31
unfolding str_hash
str_hash_lem s f =
    let low : IsLow 31 (hash_loop 0 s) (bit_and (hash_loop 0 s) 0x7FFFFFFF) =
      bit_and-IsLow 31 (hash_loop 0 s) in
    omega (arith, low.split, low.small, hash_loop-numeral 0 0 s f refl)
