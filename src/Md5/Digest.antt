-- ===== src/Md5/Digest.antt =====
-- A message that is taken in any pieces has the digest of RFC 1321.
use xhnet.Common.{
  ℕ, zero, suc, ◌+◌, ◌-◌, ◌*◌, ◌/◌, ◌%◌, ◌^◌, ◌≤◌, ◌<◌, ◌≡◌, refl, sym, ap, ◌∙◌, subst, List, [],
  ◌∷◌, ◌++◌, append-nil, append_assoc, arith, ltb, ltb→lt, ltb→le, Bool-cases, inl, inr,
  if◌then◌else◌, length, take, length-append, All,
}
use xhnet.Md5.{
  Md5Ctx, initial, zero_bytes, padding_bytes, md5_init, md5_update, md5_encode, words_of, md5_final,
}
use xhnet.Md5.Reference.{low_bytes, filler, padding, md5_reference, hash_blocks}
use xhnet.Md5.Update.{IsAbsorbed, index_lem, md5_init-IsAbsorbed, md5_update-IsAbsorbed}

-- `MD5Update` for each piece.
unfoldable pub md5_updates : List (List ℕ) → Md5Ctx → Md5Ctx
md5_updates [] ctx = ctx
md5_updates (p ∷ pieces) ctx = md5_updates pieces (md5_update p ctx)

abbrev pub concat : List (List ℕ) → List ℕ
concat [] = []
concat (p ∷ pieces) = p ++ concat pieces

take-zero_bytes : (k n : ℕ) → k ≤ n → take k (zero_bytes n) ≡ zero_bytes k
take-zero_bytes zero n h = refl
take-zero_bytes (suc k) zero h = absurd (omega arith)
take-zero_bytes (suc k) (suc n) h = ap (λ l. 0 ∷ l) (take-zero_bytes k n (omega arith))

length-zero_bytes : (n : ℕ) → length (zero_bytes n) ≡ n
length-zero_bytes zero = refl
length-zero_bytes (suc n) = ap suc (length-zero_bytes n)

length-filler :
    (n : ℕ) → length (filler n) ≡ (if ltb (n % 64) 56 then 56 - n % 64 else 120 - n % 64)
length-filler n = ground (arith, length-zero_bytes (55 - n % 64), length-zero_bytes (119 - n % 64))

-- A padded message is one of whole blocks.
length-padding : (n : ℕ) → (n + length (padding n)) % 64 ≡ 0
unfolding padding
length-padding n = ground (arith, length-append (filler n) (low_bytes 8 (8 * n)), length-filler n)

taken : (k j : ℕ) → k ≡ suc j → j ≤ 63 → take k padding_bytes ≡ 0x80 ∷ zero_bytes j
taken k j e h = ap (λ i. take i padding_bytes) e ∙ ap (λ l. 0x80 ∷ l) (take-zero_bytes j 63 h)

filler_taken :
    (n : ℕ) → take (if ltb (n % 64) 56 then 56 - n % 64 else 120 - n % 64) padding_bytes ≡ filler n
filler_taken n = elim (Bool-cases (ltb (n % 64) 56)) [
  | inl e ↦ rw e (taken (56 - n % 64) (55 - n % 64) (omega (arith, ltb→lt _ _ e)) (omega arith))
  | inr e ↦ rw e (taken (120 - n % 64) (119 - n % 64) (omega arith) (omega (arith, ltb→le _ _ e)))
]

bits_encoded :
    (n c0 c1 : ℕ)
    → c0 ≡ (8 * n) % 2 ^ 32
    → c1 ≡ (8 * n / 2 ^ 32) % 2 ^ 32
    → md5_encode (c0 ∷ c1 ∷ []) ≡ low_bytes 8 (8 * n)
bits_encoded n c0 c1 e0 e1 = ground arith

-- `MD5Final` takes the filler and the number of bits as two more pieces.
md5_final-updates :
    (ctx : Md5Ctx) (r : ℕ) {front bits : List ℕ}
    → (ctx.count0 / 8) % 64 ≡ r
    → take (if ltb r 56 then 56 - r else 120 - r) padding_bytes ≡ front
    → md5_encode (ctx.count0 ∷ ctx.count1 ∷ []) ≡ bits
    → md5_final ctx ≡ md5_encode (words_of (md5_update bits (md5_update front ctx)).state)
unfolding md5_final
md5_final-updates ctx r e f g = rw (e, f, g)

abbrev digest_of : List ℕ → List ℕ
digest_of x = md5_encode (words_of (hash_blocks (length x / 64) initial x))

md5_reference-digest_of : (m : List ℕ) → md5_reference m ≡ digest_of (m ++ padding (length m))
unfolding md5_reference
md5_reference-digest_of m = refl

whole_message :
    (m : List ℕ) → (m ++ filler (length m)) ++ low_bytes 8 (8 * length m) ≡ m ++ padding (length m)
unfolding padding
whole_message m = append_assoc m (filler (length m)) (low_bytes 8 (8 * length m))

md5_final_lem : {m : List ℕ} {ctx : Md5Ctx} → IsAbsorbed m ctx → md5_final ctx ≡ md5_reference m
md5_final_lem {m} {ctx} a =
    let short : length (filler (length m)) < 2 ^ 32 - 64 =
      ground (arith, length-filler (length m)) in
    let first = md5_update-IsAbsorbed a (filler (length m)) short in
    let second = md5_update-IsAbsorbed first (low_bytes 8 (8 * length m)) (omega arith) in
    md5_final-updates ctx (length m % 64) (index_lem (length m) ctx.count0 a.low)
      (filler_taken (length m)) (bits_encoded (length m) ctx.count0 ctx.count1 a.low a.high)
    ∙ ap (λ s. md5_encode (words_of s)) second.whole
    ∙ ap digest_of (whole_message m)
    ∙ sym (md5_reference-digest_of m)

md5_updates-IsAbsorbed :
    (pieces : List (List ℕ)) {m : List ℕ} {ctx : Md5Ctx}
    → All (λ p. length p < 2 ^ 32 - 64) pieces
    → IsAbsorbed m ctx
    → IsAbsorbed (m ++ concat pieces) (md5_updates pieces ctx)
unfolding md5_updates
md5_updates-IsAbsorbed [] {m} {ctx} short a = subst (λ l. IsAbsorbed l ctx) (sym (append-nil m)) a
md5_updates-IsAbsorbed (p ∷ pieces) {m} {ctx} (s, short) a =
    subst (λ l. IsAbsorbed l (md5_updates pieces (md5_update p ctx)))
      (append_assoc m p (concat pieces))
      (md5_updates-IsAbsorbed pieces short (md5_update-IsAbsorbed a p s))

-- A message that `MD5Update` takes in pieces shorter than 2 ^ 32 - 64 bytes, from `MD5Init` on over
-- a buffer of 64 bytes, has the digest of the whole, padded as in RFC 1321 and hashed block by block
-- with `MD5Transform`, whatever the pieces and the buffer.
pub md5_pieces :
    (buffer : List ℕ) (pieces : List (List ℕ))
    → length buffer ≡ 64
    → All (λ p. length p < 2 ^ 32 - 64) pieces
    → md5_final (md5_updates pieces (md5_init buffer)) ≡ md5_reference (concat pieces)
md5_pieces buffer pieces size short =
    md5_final_lem (md5_updates-IsAbsorbed pieces short (md5_init-IsAbsorbed buffer size))
