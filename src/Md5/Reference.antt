-- ===== src/Md5/Reference.antt =====
-- MD5 as RFC 1321 describes it: the message is padded whole and hashed block by block.
use xhnet.Common.{
  ℕ, zero, suc, ◌+◌, ◌-◌, ◌*◌, ◌/◌, ◌%◌, ◌≤◌, ◌≡◌, refl, ap, ◌∙◌, List, [], ◌∷◌, ◌++◌, arith, ltb,
  if◌then◌else◌, length, take, drop, drop-drop, length-drop,
}
use native.Mathlib.Nat.{zero-add, suc-add}
use xhnet.Md5.{initial, zero_bytes, md5_encode, words_of}
use xhnet.Md5.Transform.{Words, transform}

-- `n` blocks from the front of a message.
pub hash_blocks : ℕ → Words → List ℕ → Words
hash_blocks zero s m = s
hash_blocks (suc n) s m = hash_blocks n (transform s (take 64 m)) (drop 64 m)

abbrev pub low_bytes : ℕ → ℕ → List ℕ
low_bytes zero v = []
low_bytes (suc w) v = (v % 256) ∷ low_bytes w (v / 256)

-- A bit, and zero_bytes up to 8 bytes in front of the end of a block.
abbrev pub filler : ℕ → List ℕ
filler n = 0x80 ∷ zero_bytes (if ltb (n % 64) 56 then 55 - n % 64 else 119 - n % 64)

-- What RFC 1321 appends to `n` bytes: the filler, and the number of bits in 8 bytes.
unfoldable pub padding : ℕ → List ℕ
padding n = filler n ++ low_bytes 8 (8 * n)

unfoldable pub md5_reference : List ℕ → List ℕ
unfolding hash_blocks
md5_reference m =
    let padded = m ++ padding (length m) in
    md5_encode (words_of (hash_blocks (length padded / 64) initial padded))

pub hash_blocks-zero : (s : Words) (m : List ℕ) → hash_blocks 0 s m ≡ s
unfolding hash_blocks
hash_blocks-zero s m = refl

pub hash_blocks-suc :
    (n : ℕ) (s : Words) (m : List ℕ)
    → hash_blocks (suc n) s m ≡ hash_blocks n (transform s (take 64 m)) (drop 64 m)
unfolding hash_blocks
hash_blocks-suc n s m = refl

pub take_append : (n : ℕ) (x y : List ℕ) → n ≤ length x → take n (x ++ y) ≡ take n x
take_append zero x y h = refl
take_append (suc n) [] y h = absurd (omega arith)
take_append (suc n) (b ∷ x) y h = ap (λ l. b ∷ l) (take_append n x y (omega arith))

pub drop_append : (n : ℕ) (x y : List ℕ) → n ≤ length x → drop n (x ++ y) ≡ drop n x ++ y
drop_append zero x y h = refl
drop_append (suc n) [] y h = absurd (omega arith)
drop_append (suc n) (b ∷ x) y h = drop_append n x y (omega arith)

pub take_all : (n : ℕ) (x : List ℕ) → length x ≤ n → take n x ≡ x
take_all zero [] h = refl
take_all zero (b ∷ x) h = absurd (omega arith)
take_all (suc n) [] h = refl
take_all (suc n) (b ∷ x) h = ap (λ l. b ∷ l) (take_all n x (omega arith))

-- Beyond the end of the first list.
pub take_over : (j : ℕ) (x y : List ℕ) → take (length x + j) (x ++ y) ≡ x ++ take j y
take_over j [] y = rw zero-add
take_over j (b ∷ x) y = rw suc-add (ap (λ l. b ∷ l) (take_over j x y))

pub drop_over : (j : ℕ) (x y : List ℕ) → drop (length x + j) (x ++ y) ≡ drop j y
drop_over j [] y = rw zero-add
drop_over j (b ∷ x) y = rw suc-add (drop_over j x y)

-- What stands behind the blocks does not matter.
pub hash_blocks-append :
    (n : ℕ) (s : Words) (x y : List ℕ)
    → 64 * n ≤ length x
    → hash_blocks n s (x ++ y) ≡ hash_blocks n s x
unfolding hash_blocks
hash_blocks-append zero s x y h = refl
hash_blocks-append (suc n) s x y h =
    rw (take_append 64 x y (omega arith), drop_append 64 x y (omega arith))
      (hash_blocks-append n (transform s (take 64 x)) (drop 64 x) y
        (omega (arith, length-drop 64 x)))

-- Blocks behind blocks.
pub hash_blocks-add :
    (n k : ℕ) (s : Words) (x : List ℕ)
    → hash_blocks (n + k) s x ≡ hash_blocks k (hash_blocks n s x) (drop (64 * n) x)
unfolding hash_blocks
hash_blocks-add zero k s x = rw zero-add
hash_blocks-add (suc n) k s x =
    let further : 64 + 64 * n ≡ 64 * suc n = omega arith in
    rw (suc-add, ← further, ← drop-drop (64 * n) 64 x)
      (hash_blocks-add n k (transform s (take 64 x)) (drop 64 x))

-- One block more.
pub hash_blocks_next :
    (n : ℕ) (s : Words) (x : List ℕ)
    → hash_blocks (n + 1) s x ≡ transform (hash_blocks n s x) (take 64 (drop (64 * n) x))
hash_blocks_next n s x =
    hash_blocks-add n 1 s x
    ∙ hash_blocks-suc 0 (hash_blocks n s x) (drop (64 * n) x)
    ∙ hash_blocks-zero _ _
