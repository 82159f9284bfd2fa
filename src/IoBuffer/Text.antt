-- ===== src/IoBuffer/Text.antt =====
-- The overloads of `<<` and `>>` of include/net/iobuffer.h for strings, and `readcstring`.
pub mod Laws
pub mod Rewind
use xhnet.Common.{
  ℕ, zero, suc, ◌+◌, ◌-◌, ◌*◌, ◌%◌, ◌^◌, Bool, Option, none, some, List, [], ◌∷◌, ◌++◌, ltb, leb,
  ◌==◌, ◌||◌, if◌then◌else◌, take, splice, length,
}
use xhnet.IoBuffer.{
  Cmd, IoBuffer, Run, overflow, fault, pure, and_then, ◌>>=◌, ◌>>◌, write_order, read_order,
  seek_read,
}
use xhnet.IoBuffer.Scalar.{
  Host, unsigned_char, unsigned_short, unsigned_int, write_scalar, read_scalar,
}

-- `strlen`; `none` where no byte of the memory is 0.
unfoldable pub strlen : List ℕ → Option ℕ
strlen [] = none
strlen (c ∷ s) = if c == 0 then some 0 else elim (strlen s) [ none ↦ none | some n ↦ some (suc n) ]

-- The length is an `int`: its pattern is below 2 ^ 32, and negative from 2 ^ 31 on.
write_length : Host → ℕ → Cmd (Unit {0})
write_length h inlen =
    if ltb inlen 0xff || leb (2 ^ 31) inlen
    then write_scalar h unsigned_char inlen
    else if ltb inlen 0xffff
    then write_scalar h unsigned_char 0xff >> write_scalar h unsigned_short inlen
    else write_scalar h unsigned_char 0xff
      >> (write_scalar h unsigned_short 0xffff >> write_scalar h unsigned_int inlen)

write_counted : Host → List ℕ → Option ℕ → Cmd (Unit {0})
unfolding write_length
write_counted h s none = λ _. fault
write_counted h s (some n) = write_length h (n % 2 ^ 32) >> write_order (take (n % 2 ^ 32) s)

-- `operator<<(const char*)`; the argument is the memory that the pointer shows.
unfoldable pub write_cstring : Host → List ℕ → Cmd (Unit {0})
unfolding write_counted strlen
write_cstring h s = write_counted h s (strlen s)

-- `operator<<(const std::string&)` goes through `c_str`, which ends the characters with a 0.
unfoldable pub write_string : Host → List ℕ → Cmd (Unit {0})
unfolding write_cstring
write_string h s = write_cstring h (s ++ (0 ∷ []))

-- The length in front of a string, and what is to be done with it and the bytes that it took.
read_length : {A : Type 0} → Host → (ℕ → ℕ → Cmd A) → Cmd A
read_length h k = do
  blen ← read_scalar h unsigned_char
  if ltb blen 0xff then k 1 blen else do
    wlen ← read_scalar h unsigned_short
    if ltb wlen 0xffff then k 3 wlen else do dwlen ← read_scalar h unsigned_int; k 7 dwlen

-- `operator>>(std::string&)`
unfoldable pub read_string : Host → Cmd (List ℕ)
unfolding read_length
read_string h = read_length h (λ _ len. read_order len)

-- `operator>>(char*)`: the bytes that it stores from `out` on.
unfoldable pub read_chars : Host → Cmd (List ℕ)
unfolding read_length
read_chars h = read_length h (λ _ len. read_order len)

-- The bytes of the length are given back before the throw.
put_back : {A : Type 0} → ℕ → Cmd A
unfolding seek_read
put_back n = seek_read ((2 ^ 64 - n) % 2 ^ 64) >>= λ _ b. overflow b

-- `readcstring`: `out` is the memory of the caller, of `outsize` bytes, and what it holds after.
unfoldable pub readcstring : Host → List ℕ → Cmd (List ℕ)
unfolding read_length put_back
readcstring h out =
    let outsize = length out in
    if leb outsize 0
    then (λ b. overflow b)
    else read_length h λ taken len.
      if leb outsize len
      then put_back taken
      else read_order len >>= λ p. pure (splice (splice out (outsize - 1) (0 ∷ [])) 0 p)
