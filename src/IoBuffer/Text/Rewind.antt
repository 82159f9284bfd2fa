-- ===== src/IoBuffer/Text/Rewind.antt =====
-- `readcstring` on a string that is next: it stores it, or gives all of it back and throws.
use xhnet.Common.{
  ℕ, ◌+◌, ◌-◌, ◌%◌, ◌^◌, ◌<◌, ◌≡◌, refl, sym, ap, ◌∙◌, subst, Bool, true, false, List, [], ◌∷◌,
  ◌++◌, append_assoc, arith, ltb, leb, le→ltb, lt→leb, le→leb, leb→le, ltb→lt, if◌then◌else◌,
  length, length-append, splice, inl, inr, Bool-cases,
}
use xhnet.IoBuffer.{IoBuffer, ok, overflow, Cmd}
use xhnet.IoBuffer.Queue.{IsValid, pending, fetched}
use xhnet.IoBuffer.Seek.{seek_read_lem}
use xhnet.IoBuffer.Scalar.Laws.{read_scalar-wire}
use xhnet.IoBuffer.Rules.{pending-taken}
use xhnet.IoBuffer.Codec.{read_order-Takes}
use xhnet.IoBuffer.Scalar.{Host, unsigned_char, unsigned_short, unsigned_int}
use xhnet.IoBuffer.Scalar.Wire.{wire, length-wire}
use xhnet.IoBuffer.Text.{read_length, put_back, readcstring}
use xhnet.IoBuffer.Text.Laws.{regroup, length_bytes, text_bytes}

abbrev length_size : ℕ → ℕ
length_size n = if ltb n 0xff then 1 else if ltb n 0xffff then 3 else 7

length-length_bytes : (big : Bool) (n : ℕ) → length (length_bytes big n) ≡ length_size n
length-length_bytes true n = ground arith
length-length_bytes false n = ground arith

put_back-overflow :
    {A : Type 0} (n : ℕ) {b : IoBuffer}
    → IsValid b
    → 0 < n
    → n < 2 ^ 31
    → put_back {A = A} n (fetched n b) ≡ overflow b
unfolding put_back
put_back-overflow n {b} v pos small =
    let back : (b.read + n + (2 ^ 64 - n) % 2 ^ 64) % 2 ^ 64 ≡ b.read =
      omega (arith, v.read_le, v.write_le, v.small) in
    rw (seek_read_lem ((2 ^ 64 - n) % 2 ^ 64) (fetched n b))
      (ap (λ k. overflow (record b { read = k })) back)

next-wire :
    {b : IoBuffer} (big : Bool) (w x : ℕ) (rest : List ℕ)
    → IsValid b
    → pending b ≡ wire big w x ++ rest
    → IsValid (fetched w b) × (pending (fetched w b) ≡ rest)
next-wire {b} big w x rest v e =
    subst (λ n. IsValid (fetched n b) × (pending (fetched n b) ≡ rest)) (length-wire big w x)
      (pending-taken (wire big w x) rest v e)

module _ (h : Host) {A : Type 0} (k : ℕ → ℕ → Cmd A) where
  -- The run up to the continuation: the length is known and its bytes are taken.
  read_length-runs :
      {b : IoBuffer} (n : ℕ) (rest : List ℕ)
      → IsValid b
      → n < 2 ^ 32
      → pending b ≡ length_bytes b.biged n ++ rest
      → read_length h k b ≡ k (length_size n) n (fetched (length_size n) b)
  unfolding read_length
  read_length-runs {b} n rest v small e = elim (Bool-cases (ltb n 0xff)) [
    | inl one ↦
        rw (one, read_scalar-wire v h unsigned_char n rest (ground arith) (rw one at e)) (rw one)
    | inr more ↦ rw more (elim (Bool-cases (ltb n 0xffff)) [
      | inl two ↦
          let e₀ : pending b ≡ wire b.biged 1 0xff ++ (wire b.biged 2 n ++ rest) =
            rw (more, two) at e ∙ append_assoc (wire b.biged 1 0xff) (wire b.biged 2 n) rest in
          let (v₁, e₁) = next-wire b.biged 1 0xff _ v e₀ in
          rw
            (
              two,
              read_scalar-wire v h unsigned_char 0xff _ (omega arith) e₀,
              read_scalar-wire v₁ h unsigned_short n _ (ground arith) e₁,
            )
            (rw two (ap (λ r. k 3 n (record b { read = r })) (omega arith)))
      | inr four ↦
          let w₁ = wire b.biged 1 0xff in
          let w₂ = wire b.biged 2 0xffff in
          let w₄ = wire b.biged 4 n in
          let e₀ : pending b ≡ w₁ ++ (w₂ ++ (w₄ ++ rest)) =
            rw (more, four) at e ∙ sym (regroup w₁ w₂ w₄ rest) in
          let (v₁, e₁) = next-wire b.biged 1 0xff _ v e₀ in
          let (v₂, e₂) = next-wire b.biged 2 0xffff _ v₁ e₁ in
          rw
            (
              four,
              read_scalar-wire v h unsigned_char 0xff _ (omega arith) e₀,
              read_scalar-wire v₁ h unsigned_short 0xffff _ (omega arith) e₁,
              read_scalar-wire v₂ h unsigned_int n _ small e₂,
            )
            (ap (λ r. k 7 n (record b { read = r })) (omega arith))
    ])
  ]

-- The memory of the caller once the string is in it: a 0 in its last byte, and none behind `s`.
abbrev pub stored_text : List ℕ → List ℕ → List ℕ
stored_text out s = splice (splice out (length out - 1) (0 ∷ [])) 0 s

-- On a valid buffer where a string shorter than 2 ^ 32 is next, `readcstring` stores and takes it
-- if it is shorter than `outsize`; otherwise it throws and leaves the buffer as it was.
pub readcstring_lem :
    (h : Host) (out s rest : List ℕ) {b : IoBuffer}
    → IsValid b
    → length s < 2 ^ 32
    → pending b ≡ text_bytes b.biged s ++ rest
    → readcstring h out b ≡ (
        if ltb (length s) (length out)
        then ok (stored_text out s) (fetched (length (text_bytes b.biged s)) b)
        else overflow b)
unfolding readcstring
readcstring_lem h out s rest {b} v small e =
    let n = length s in
    let head : pending b ≡ length_bytes b.biged n ++ (s ++ rest) =
      e ∙ append_assoc (length_bytes b.biged n) s rest in
    let whole : length (text_bytes b.biged s) ≡ length_size n + n =
      omega (arith, length-append (length_bytes b.biged n) s, length-length_bytes b.biged n) in
    let (v', e') =
      subst (λ t. IsValid (fetched t b) × (pending (fetched t b) ≡ s ++ rest))
        (length-length_bytes b.biged n)
        (pending-taken (length_bytes b.biged n) (s ++ rest) v head) in
    elim (Bool-cases (leb (length out) 0)) [
      | inl none ↦ rw (none, le→ltb n (length out) (omega (arith, leb→le _ _ none)))
      | inr some ↦
          rw (some, read_length-runs h _ n (s ++ rest) v small head)
            (elim (Bool-cases (ltb n (length out))) [
              | inl shorter ↦
                  rw
                    (
                      lt→leb (length out) n (ltb→lt _ _ shorter),
                      shorter,
                      (read_order-Takes {big = b.biged} s).at (fetched (length_size n) b) rest v'
                          refl e',
                    )
                    (ap (λ r. ok (stored_text out s) (record b { read = r }))
                      (omega (arith, whole)))
              | inr longer ↦
                  rw (le→leb (length out) n (ground arith), longer)
                    (put_back-overflow (length_size n) v (ground arith) (ground arith))
            ])
    ]
