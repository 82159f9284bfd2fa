-- ===== src/Md5/Transform.antt =====
-- `MD5Decode` and `MD5Transform`: one block of 64 bytes, in 64 steps.
use Prim.Native.Nat.{bit_and, bit_or, bit_xor}
use xhnet.Common.{ℕ, zero, suc, ◌+◌, ◌-◌, ◌*◌, ◌/◌, ◌%◌, ◌^◌, List, [], ◌∷◌}

pub record Words : Type 0 where
  pub a : ℕ
  pub b : ℕ
  pub c : ℕ
  pub d : ℕ

abbrev complement : ℕ → ℕ
complement x = 2 ^ 32 - 1 - x

-- The macros F, G, H and I.
pub data Round : Type 0 where
  ff gg hh ii : Round

mix : Round → ℕ → ℕ → ℕ → ℕ
mix ff x y z = bit_or (bit_and x y) (bit_and (complement x) z)
mix gg x y z = bit_or (bit_and x z) (bit_and y (complement z))
mix hh x y z = bit_xor (bit_xor x y) z
mix ii x y z = bit_xor y (bit_or x (complement z))

rotate_left : ℕ → ℕ → ℕ
rotate_left x n = bit_or ((x * 2 ^ n) % 2 ^ 32) (x / 2 ^ (32 - n))

-- A line of `MD5Transform`: the macro, the index of the word, the shift and the constant.
pub data Line : Type 0 where
  op : Round → ℕ → ℕ → ℕ → Line

-- The arguments of the macros rotate from line to line, `a, b, c, d` and then `d, a, b, c`: here the
-- words do, and are back in their places after every fourth line.
step_line : (ℕ → ℕ) → Line → Words → Words
unfolding mix rotate_left
step_line x (op round k s ac) w =
    let sum = (w.a + mix round w.b w.c w.d + x k + ac) % 2 ^ 32 in
    record { a = w.d; b = (rotate_left sum s + w.b) % 2 ^ 32; c = w.b; d = w.c }

abbrev table : List Line
table =
    op ff 0 7 0xd76aa478
    ∷ op ff 1 12 0xe8c7b756
    ∷ op ff 2 17 0x242070db
    ∷ op ff 3 22 0xc1bdceee
    ∷ op ff 4 7 0xf57c0faf
    ∷ op ff 5 12 0x4787c62a
    ∷ op ff 6 17 0xa8304613
    ∷ op ff 7 22 0xfd469501
    ∷ op ff 8 7 0x698098d8
    ∷ op ff 9 12 0x8b44f7af
    ∷ op ff 10 17 0xffff5bb1
    ∷ op ff 11 22 0x895cd7be
    ∷ op ff 12 7 0x6b901122
    ∷ op ff 13 12 0xfd987193
    ∷ op ff 14 17 0xa679438e
    ∷ op ff 15 22 0x49b40821
    ∷ op gg 1 5 0xf61e2562
    ∷ op gg 6 9 0xc040b340
    ∷ op gg 11 14 0x265e5a51
    ∷ op gg 0 20 0xe9b6c7aa
    ∷ op gg 5 5 0xd62f105d
    ∷ op gg 10 9 0x2441453
    ∷ op gg 15 14 0xd8a1e681
    ∷ op gg 4 20 0xe7d3fbc8
    ∷ op gg 9 5 0x21e1cde6
    ∷ op gg 14 9 0xc33707d6
    ∷ op gg 3 14 0xf4d50d87
    ∷ op gg 8 20 0x455a14ed
    ∷ op gg 13 5 0xa9e3e905
    ∷ op gg 2 9 0xfcefa3f8
    ∷ op gg 7 14 0x676f02d9
    ∷ op gg 12 20 0x8d2a4c8a
    ∷ op hh 5 4 0xfffa3942
    ∷ op hh 8 11 0x8771f681
    ∷ op hh 11 16 0x6d9d6122
    ∷ op hh 14 23 0xfde5380c
    ∷ op hh 1 4 0xa4beea44
    ∷ op hh 4 11 0x4bdecfa9
    ∷ op hh 7 16 0xf6bb4b60
    ∷ op hh 10 23 0xbebfbc70
    ∷ op hh 13 4 0x289b7ec6
    ∷ op hh 0 11 0xeaa127fa
    ∷ op hh 3 16 0xd4ef3085
    ∷ op hh 6 23 0x4881d05
    ∷ op hh 9 4 0xd9d4d039
    ∷ op hh 12 11 0xe6db99e5
    ∷ op hh 15 16 0x1fa27cf8
    ∷ op hh 2 23 0xc4ac5665
    ∷ op ii 0 6 0xf4292244
    ∷ op ii 7 10 0x432aff97
    ∷ op ii 14 15 0xab9423a7
    ∷ op ii 5 21 0xfc93a039
    ∷ op ii 12 6 0x655b59c3
    ∷ op ii 3 10 0x8f0ccc92
    ∷ op ii 10 15 0xffeff47d
    ∷ op ii 1 21 0x85845dd1
    ∷ op ii 8 6 0x6fa87e4f
    ∷ op ii 15 10 0xfe2ce6e0
    ∷ op ii 6 15 0xa3014314
    ∷ op ii 13 21 0x4e0811a1
    ∷ op ii 4 6 0xf7537e82
    ∷ op ii 11 10 0xbd3af235
    ∷ op ii 2 15 0x2ad7d2bb
    ∷ op ii 9 21 0xeb86d391
    ∷ []

all_lines : (ℕ → ℕ) → List Line → Words → Words
unfolding step_line
all_lines x [] w = w
all_lines x (l ∷ ls) w = all_lines x ls (step_line x l w)

md5_decode : List ℕ → List ℕ
md5_decode (p ∷ q ∷ r ∷ s ∷ input) =
    bit_or (bit_or (bit_or p (q * 2 ^ 8)) (r * 2 ^ 16)) (s * 2 ^ 24) ∷ md5_decode input
md5_decode _ = []

word_at : List ℕ → ℕ → ℕ
word_at [] i = 0
word_at (w ∷ ws) zero = w
word_at (w ∷ ws) (suc i) = word_at ws i

unfoldable pub transform : Words → List ℕ → Words
unfolding all_lines md5_decode word_at
transform state block =
    let w = all_lines (word_at (md5_decode block)) table state in
    record {
      a = (state.a + w.a) % 2 ^ 32;
      b = (state.b + w.b) % 2 ^ 32;
      c = (state.c + w.c) % 2 ^ 32;
      d = (state.d + w.d) % 2 ^ 32;
    }
