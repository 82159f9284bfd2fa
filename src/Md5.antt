-- ===== src/Md5.antt =====
-- MD5, of include/md5/md5.h and source/md5/md5.cpp. An `unsigned int` is a number below 2 ^ 32.
pub mod Transform
pub mod Update
pub mod Reference
pub mod Digest
mod Runs
use xhnet.Common.{
  ℕ, zero, suc, ◌+◌, ◌-◌, ◌*◌, ◌/◌, ◌%◌, ◌^◌, Bool, true, false, List, [], ◌∷◌, ◌++◌, ltb, leb,
  if◌then◌else◌, length, take, drop, splice,
}
use xhnet.Md5.Transform.{Words, transform}

-- `MD5_CTX`: the number of bits so far, low word first, and the bytes of a block that is not whole.
pub record Md5Ctx : Type 0 where
  pub count0 : ℕ
  pub count1 : ℕ
  pub state : Words
  pub buffer : List ℕ

abbrev pub initial : Words
initial = record { a = 0x67452301; b = 0xEFCDAB89; c = 0x98BADCFE; d = 0x10325476 }

-- `buffer` is what stands in the memory, which `MD5Init` leaves as it is.
unfoldable pub md5_init : List ℕ → Md5Ctx
md5_init buffer = record { count0 = 0; count1 = 0; state = initial; buffer = buffer }

-- The loop over the whole blocks of the input from `i` on: the state and the index after it. The
-- index is an `unsigned int`. One turn for each byte is more than enough.
pub transform_from : ℕ → ℕ → Words → List ℕ → Words × ℕ
transform_from zero i state input = (state, i)
transform_from (suc fuel) i state input =
    let rest =
      transform_from fuel ((i + 64) % 2 ^ 32) (transform state (take 64 (drop i input))) input in
    if leb ((i + 64) % 2 ^ 32) (length input) then rest else (state, i)

unfoldable pub md5_update : List ℕ → Md5Ctx → Md5Ctx
unfolding transform_from
md5_update input ctx =
    let inputlen = length input in
    let index = (ctx.count0 / 8) % 64 in
    let partlen = 64 - index in
    let bits = (inputlen * 8) % 2 ^ 32 in
    let count0 = (ctx.count0 + bits) % 2 ^ 32 in
    let carry = if ltb count0 bits then 1 else 0 in
    let count1 = (ctx.count1 + carry + inputlen / 2 ^ 29) % 2 ^ 32 in
    if leb partlen inputlen
    then (let block = splice ctx.buffer index (take partlen input) in
        let (state, i) = transform_from inputlen partlen (transform ctx.state block) input in
        record {
          count0 = count0;
          count1 = count1;
          state = state;
          buffer = splice block 0 (drop i input);
        })
    else record {
      count0 = count0;
      count1 = count1;
      state = ctx.state;
      buffer = splice ctx.buffer index input;
    }

abbrev pub zero_bytes : ℕ → List ℕ
zero_bytes zero = []
zero_bytes (suc n) = 0 ∷ zero_bytes n

abbrev pub padding_bytes : List ℕ
padding_bytes = 0x80 ∷ zero_bytes 63

abbrev pub md5_encode : List ℕ → List ℕ
md5_encode [] = []
md5_encode (w ∷ ws) =
    (w % 256) ∷ (w / 2 ^ 8 % 256) ∷ (w / 2 ^ 16 % 256) ∷ (w / 2 ^ 24 % 256) ∷ md5_encode ws

abbrev pub words_of : Words → List ℕ
words_of w = w.a ∷ w.b ∷ w.c ∷ w.d ∷ []

unfoldable pub md5_final : Md5Ctx → List ℕ
md5_final ctx =
    let index = (ctx.count0 / 8) % 64 in
    let padlen = if ltb index 56 then 56 - index else 120 - index in
    let bits = md5_encode (ctx.count0 ∷ ctx.count1 ∷ []) in
    let padded = md5_update bits (md5_update (take padlen padding_bytes) ctx) in
    md5_encode (words_of padded.state)

-- `GenMd5` of source/utility/utility.cpp, which makes a context and hashes all at once.
unfoldable pub gen_md5 : List ℕ → List ℕ → List ℕ
unfolding md5_init
gen_md5 buffer input = md5_final (md5_update input (md5_init buffer))
