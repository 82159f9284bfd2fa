-- ===== src/Md5/Update.antt =====
-- `MD5Update` takes a message in pieces.
use xhnet.Common.{
  ℕ, true, false, zero, suc, ◌+◌, ◌-◌, ◌*◌, ◌/◌, ◌%◌, ◌^◌, ◌≤◌, ◌<◌, ◌≡◌, refl, sym, ap, ◌∙◌, List,
  [], ◌++◌, arith, ltb, leb, leb→le, leb→lt, le→leb, lt→leb, if◌then◌else◌, length, take, drop,
  splice, length-append, length-take, length-drop, length-splice, take-splice, take-splice_after,
  drop-drop, inl, inr, Bool-cases,
}
use xhnet.Md5.{Md5Ctx, initial, md5_init, transform_from, md5_update}
use xhnet.Md5.Transform.{Words, transform}
use xhnet.Md5.Reference.{
  hash_blocks, hash_blocks-zero, hash_blocks-suc, hash_blocks-append, hash_blocks-add, drop_append,
  drop_over, take_over, take_all, hash_blocks_next,
}

-- The context after the bytes `m`: their number of bits, the hash of their whole blocks, and the
-- bytes of the last block in the buffer.
pub record IsAbsorbed (m : List ℕ) (ctx : Md5Ctx) : Type 0 where
  pub low : ctx.count0 ≡ (8 * length m) % 2 ^ 32
  pub high : ctx.count1 ≡ (8 * length m / 2 ^ 32) % 2 ^ 32
  pub whole : ctx.state ≡ hash_blocks (length m / 64) initial m
  pub rest : take (length m % 64) ctx.buffer ≡ drop (64 * (length m / 64)) m
  pub size : length ctx.buffer ≡ 64

pub md5_init-IsAbsorbed : (buffer : List ℕ) → length buffer ≡ 64 → IsAbsorbed [] (md5_init buffer)
unfolding md5_init
md5_init-IsAbsorbed buffer h = record {
  low = refl;
  high = refl;
  whole = sym (hash_blocks-zero initial []);
  rest = refl;
  size = h;
}

-- The loop over the whole blocks.
transform_from_lem :
    (fuel i k : ℕ) (state : Words) (input : List ℕ)
    → length input < 2 ^ 32 - 64
    → k < fuel
    → i + 64 * k ≤ length input
    → length input < i + 64 * k + 64
    → transform_from fuel i state input ≡ (hash_blocks k state (drop i input), i + 64 * k)
unfolding transform_from
transform_from_lem zero i k state input short enough low high = absurd (omega arith)
transform_from_lem (suc fuel) i zero state input short enough low high =
    let stop : leb ((i + 64) % 2 ^ 32) (length input) ≡ false = lt→leb _ _ (omega arith) in
    let stay : i ≡ i + 64 * 0 = omega arith in
    rw (transform_from, stop, hash_blocks-zero state (drop i input)) (ap (λ j. (state, j)) stay)
transform_from_lem (suc fuel) i (suc k) state input short enough low high =
    let go : leb ((i + 64) % 2 ^ 32) (length input) ≡ true = le→leb _ _ (omega arith) in
    let next : (i + 64) % 2 ^ 32 ≡ i + 64 = omega arith in
    let sum : i + 64 + 64 * k ≡ i + 64 * suc k = omega arith in
    let block = transform state (take 64 (drop i input)) in
    rw (transform_from, go, next, hash_blocks-suc k state (drop i input), drop-drop 64 i input)
      (transform_from_lem fuel (i + 64) k block input short (omega arith) (omega arith)
          (omega arith)
        ∙ ap (λ j. (hash_blocks k block (drop (i + 64) input), j)) sum)

-- What the update makes of the number of bits.
bits_low : (n l : ℕ) → ((8 * n) % 2 ^ 32 + l * 8 % 2 ^ 32) % 2 ^ 32 ≡ (8 * (n + l)) % 2 ^ 32
bits_low n l = omega arith

bits_high :
    (n l c0 c1 : ℕ)
    → c0 ≡ (8 * n) % 2 ^ 32
    → c1 ≡ (8 * n / 2 ^ 32) % 2 ^ 32
    → (c1 + (if ltb ((c0 + l * 8 % 2 ^ 32) % 2 ^ 32) (l * 8 % 2 ^ 32) then 1 else 0) + l / 2 ^ 29)
        % 2 ^ 32
      ≡ (8 * (n + l) / 2 ^ 32) % 2 ^ 32
bits_high n l c0 c1 e0 e1 = ground arith

-- Where a message of `n` bytes ends in its last block.
pub index_lem : (n c0 : ℕ) → c0 ≡ (8 * n) % 2 ^ 32 → (c0 / 8) % 64 ≡ n % 64
index_lem n c0 e = omega arith

module _ {m : List ℕ} {ctx : Md5Ctx} (a : IsAbsorbed m ctx) (input : List ℕ)
    (short : length input < 2 ^ 32 - 64) where
  low_both : (ctx.count0 + length input * 8 % 2 ^ 32) % 2 ^ 32 ≡ (8 * length (m ++ input)) % 2 ^ 32
  low_both = omega (arith, a.low, length-append m input)

  high_both :
      (ctx.count1
          + (if ltb ((ctx.count0 + length input * 8 % 2 ^ 32) % 2 ^ 32) (length input * 8 % 2 ^ 32)
              then 1
              else 0)
          + length input / 2 ^ 29)
        % 2 ^ 32
      ≡ (8 * length (m ++ input) / 2 ^ 32) % 2 ^ 32
  high_both =
      bits_high (length m) (length input) ctx.count0 ctx.count1 a.low a.high
      ∙ ap (λ k. (8 * k / 2 ^ 32) % 2 ^ 32) (sym (length-append m input))

  blocks_within : 64 * (length m / 64) ≤ length m
  blocks_within = omega arith

  -- The bytes stay within the last block.
  update_within :
      leb (64 - length m % 64) (length input) ≡ false
      → IsAbsorbed (m ++ input) (md5_update input ctx)
  unfolding md5_update
  update_within fits =
      let fewer = leb→lt _ _ fits in
      let same : length (m ++ input) / 64 ≡ length m / 64 = omega (arith, length-append m input) in
      let last : length (m ++ input) % 64 ≡ length m % 64 + length input =
        omega (arith, length-append m input) in
      rw (index_lem (length m) ctx.count0 a.low, fits)
        (record {
          low = low_both;
          high = high_both;
          whole =
              rw same
                (a.whole ∙ sym (hash_blocks-append (length m / 64) initial m input blocks_within));
          rest =
              rw (same, last)
                (take-splice_after (length m % 64) ctx.buffer input (omega (arith, a.size))
                  ∙ ap (λ l. l ++ input) a.rest
                  ∙ sym (drop_append (64 * (length m / 64)) m input blocks_within));
          size = length-splice _ _ _ ∙ a.size;
        })

  -- The bytes fill the last block.
  module _ (fills : 64 - length m % 64 ≤ length input) where
    abbrev part : ℕ
    part = 64 - length m % 64

    abbrev more : ℕ
    more = (length input - part) / 64

    abbrev tail : List ℕ
    tail = drop (64 * (length m / 64)) m

    abbrev block : List ℕ
    block = splice ctx.buffer (length m % 64) (take part input)

    length-tail : length tail ≡ length m % 64
    length-tail = omega (arith, length-drop (64 * (length m / 64)) m)

    length-part : length (take part input) ≡ part
    length-part = omega (arith, length-take part input)

    block-message : block ≡ take 64 (drop (64 * (length m / 64)) (m ++ input))
    block-message =
        let size : length block ≡ 64 = length-splice _ _ _ ∙ a.size in
        let upto : length m % 64 + length (take part input) ≡ 64 = omega (arith, length-part) in
        let over : length tail + part ≡ 64 = omega (arith, length-tail) in
        sym (take_all 64 block (omega (arith, size)))
        ∙ ap (λ k. take k block) (sym upto)
        ∙ take-splice_after (length m % 64) ctx.buffer (take part input)
            (omega (arith, a.size, upto))
        ∙ ap (λ l. l ++ take part input) a.rest
        ∙ sym (take_over part tail input)
        ∙ ap (λ k. take k (tail ++ input)) over
        ∙ ap (take 64) (sym (drop_append (64 * (length m / 64)) m input blocks_within))

    state-block : transform ctx.state block ≡ hash_blocks (length m / 64 + 1) initial (m ++ input)
    state-block =
        ap (λ s. transform s block)
          (a.whole ∙ sym (hash_blocks-append (length m / 64) initial m input blocks_within))
        ∙ ap (transform (hash_blocks (length m / 64) initial (m ++ input))) block-message
        ∙ sym (hash_blocks_next (length m / 64) initial (m ++ input))

    -- What follows the block that was filled.
    drop-part : drop (64 * (length m / 64 + 1)) (m ++ input) ≡ drop part input
    drop-part =
        let further : 64 * (length m / 64) + 64 ≡ 64 * (length m / 64 + 1) = omega arith in
        let over : length tail + part ≡ 64 = omega (arith, length-tail) in
        ap (λ k. drop k (m ++ input)) (sym further)
        ∙ sym (drop-drop 64 (64 * (length m / 64)) (m ++ input))
        ∙ ap (drop 64) (drop_append (64 * (length m / 64)) m input blocks_within)
        ∙ ap (λ k. drop k (tail ++ input)) (sym over)
        ∙ drop_over part tail input

    whole_blocks : length (m ++ input) / 64 ≡ length m / 64 + 1 + more
    whole_blocks = omega (arith, length-append m input)

    loop-ends :
        transform_from (length input) part (transform ctx.state block) input
        ≡ (hash_blocks (length (m ++ input) / 64) initial (m ++ input), part + 64 * more)
    loop-ends =
        rw (state-block, whole_blocks)
          (transform_from_lem (length input) part more
              (hash_blocks (length m / 64 + 1) initial (m ++ input)) input short (omega arith)
              (omega arith) (omega arith)
            ∙ ap (λ s. (s, part + 64 * more))
                (sym (
                  hash_blocks-add (length m / 64 + 1) more initial (m ++ input)
                  ∙ ap (hash_blocks more (hash_blocks (length m / 64 + 1) initial (m ++ input)))
                      drop-part)))

    left-over :
        take (length (m ++ input) % 64) (splice block 0 (drop (part + 64 * more) input))
        ≡ drop (64 * (length (m ++ input) / 64)) (m ++ input)
    left-over =
        let size : length block ≡ 64 = length-splice _ _ _ ∙ a.size in
        let left : length (drop (part + 64 * more) input) ≡ length (m ++ input) % 64 =
          omega (arith, length-drop (part + 64 * more) input, length-append m input) in
        let before : 64 * (length m / 64 + 1) + 64 * more ≡ 64 * (length (m ++ input) / 64) =
          omega (arith, whole_blocks) in
        rw (← left) (take-splice block (drop (part + 64 * more) input) (omega (arith, size, left)))
        ∙ sym (drop-drop (64 * more) part input)
        ∙ ap (drop (64 * more)) (sym drop-part)
        ∙ drop-drop (64 * more) (64 * (length m / 64 + 1)) (m ++ input)
        ∙ ap (λ k. drop k (m ++ input)) before

    update_over : IsAbsorbed (m ++ input) (md5_update input ctx)
    unfolding md5_update
    update_over =
        rw (index_lem (length m) ctx.count0 a.low, le→leb _ _ fills, loop-ends)
          (record {
            low = low_both;
            high = high_both;
            whole = refl;
            rest = left-over;
            size = length-splice _ _ _ ∙ length-splice _ _ _ ∙ a.size;
          })

  pub md5_update-IsAbsorbed : IsAbsorbed (m ++ input) (md5_update input ctx)
  md5_update-IsAbsorbed = elim (Bool-cases (leb (64 - length m % 64) (length input))) [
    | inl over ↦ update_over (leb→le _ _ over)
    | inr within ↦ update_within within
  ]
