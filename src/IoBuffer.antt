-- ===== src/IoBuffer.antt =====
-- `CIOBuffer` of include/net/iobuffer.h: a block of memory with a read and a write pointer.
-- The memory from `m_pbase` to `m_pend` is the list `bytes`. A pointer is its distance from
-- `m_pbase`, a 64-bit number that wraps around; `m_pend` is the number of bytes.
pub mod Queue
pub mod Raw
pub mod Seek
pub mod Scalar
pub mod Rules
pub mod Codec
pub mod Text
pub mod Vector
pub mod RoundTrip
mod Runs
use xhnet.Common.{
  ℕ, zero, suc, ◌+◌, ◌-◌, ◌%◌, ◌^◌, Bool, List, [], ◌∷◌, ◌++◌, reverse, ltb, leb, if◌then◌else◌,
  length, take, drop, splice,
}

pub record IoBuffer : Type 0 where
  pub bytes : List ℕ
  pub read : ℕ
  pub write : ℕ
  pub biged : Bool
  pub tag : ℕ

-- `overflow b` is a thrown `CIOBuffer_Exception::overflow` that leaves the buffer as `b`;
-- `fault` is an access outside the memory, of which the language promises nothing.
pub data Run {ℓ} (A : Type ℓ) : Type ℓ where
  ok : A → IoBuffer → Run A
  overflow : IoBuffer → Run A
  fault : Run A

abbrev pub Cmd {ℓ} : Type ℓ → Type ℓ
Cmd A = IoBuffer → Run A

abbrev pub pure {ℓ} : {A : Type ℓ} → A → Cmd A
pure = ok

module _ {ℓ κ} {A : Type ℓ} {B : Type κ} where
  abbrev pub and_then : Run A → (A → Cmd B) → Run B
  and_then (ok a b) k = k a b
  and_then (overflow b) k = overflow b
  and_then fault k = fault

  infixl 5 ◌>>=◌
  abbrev pub ◌>>=◌ : Cmd A → (A → Cmd B) → Cmd B
  m >>= k = λ b. and_then (m b) k

infixl 5 ◌>>◌
abbrev pub ◌>>◌ {κ} : {B : Type κ} → Cmd (Unit {0}) → Cmd B → Cmd B
m >> n = m >>= λ _. n

-- The constructor over memory of the caller; no constructor sets `m_tag`, so it is an argument.
unfoldable pub on_memory : List ℕ → Bool → ℕ → IoBuffer
on_memory buff biged tag = record { bytes = buff; read = 0; write = 0; biged = biged; tag = tag }

-- The constructor without memory.
unfoldable pub without_memory : Bool → ℕ → IoBuffer
without_memory biged tag = record { bytes = []; read = 0; write = 0; biged = biged; tag = tag }

unfoldable pub attach : List ℕ → IoBuffer → IoBuffer
attach buff b = record b { bytes = buff; read = 0; write = 0 }

unfoldable pub set_tag : ℕ → IoBuffer → IoBuffer
set_tag tag b = record b { tag = tag % 256 }

-- A difference of two pointers, cast to `unsigned int`.
abbrev distance : ℕ → ℕ → ℕ
distance from to = (to + 2 ^ 64 - from) % 2 ^ 32

unfoldable pub size : IoBuffer → ℕ
size b = distance 0 (length b.bytes)

unfoldable pub length_write : IoBuffer → ℕ
length_write b = distance 0 b.write

unfoldable pub avail_write : IoBuffer → ℕ
avail_write b = distance b.write (length b.bytes)

unfoldable pub length_read : IoBuffer → ℕ
length_read b = distance 0 b.read

unfoldable pub avail_read : IoBuffer → ℕ
avail_read b = distance b.read b.write

-- The offset is an `int`, given by its 64-bit pattern. The test `AvailWrite() < 0` is one of an
-- unsigned number.
unfoldable pub seek_write : ℕ → Cmd (Unit {0})
unfolding avail_write
seek_write offset b =
    let b' = record b { write = (b.write + offset) % 2 ^ 64 } in
    if ltb (avail_write b') 0 then overflow b' else ok tt b'

unfoldable pub seek_read : ℕ → Cmd (Unit {0})
unfolding avail_read
seek_read offset b =
    let b' = record b { read = (b.read + offset) % 2 ^ 64 } in
    if ltb (avail_read b') 0 then overflow b' else ok tt b'

-- `memcpy` at the write pointer, and the pointer past it. `p` is the memory that is copied.
pub store : List ℕ → Cmd (Unit {0})
store p b =
    if leb (b.write + length p) (length b.bytes)
    then ok tt (record b { bytes = splice b.bytes b.write p; write = b.write + length p })
    else fault

-- `memcpy` of `len` bytes from the read pointer, and the pointer past them.
pub fetch : ℕ → Cmd (List ℕ)
fetch len b =
    if leb (b.read + len) (length b.bytes)
    then ok (take len (drop b.read b.bytes)) (record b { read = b.read + len })
    else fault

unfoldable pub write_order : List ℕ → Cmd (Unit {0})
unfolding avail_write store
write_order p b = if ltb (avail_write b) (length p) then overflow b else store p b

-- The loop of `write_opposite`: `p` is what it has still to copy, in the order in which it does.
pub write_each : List ℕ → Cmd (Unit {0})
unfolding store
write_each [] = pure tt
write_each (x ∷ p) = store (x ∷ []) >> write_each p

-- The loop tests at its end, so an empty argument makes it read in front of `p`.
unfoldable pub write_opposite : List ℕ → Cmd (Unit {0})
unfolding avail_write write_each
write_opposite p b =
    if ltb (avail_write b) (length p)
    then overflow b
    else elim p [ [] ↦ fault | x ∷ q ↦ write_each (reverse (x ∷ q)) b ]

unfoldable pub read_order : ℕ → Cmd (List ℕ)
unfolding avail_read fetch
read_order len b = if ltb (avail_read b) len then overflow b else fetch len b

-- The loop of `read_opposite` fills `out` from its end: `acc` is the part that it has filled.
pub read_each : ℕ → List ℕ → Cmd (List ℕ)
unfolding fetch
read_each zero acc = pure acc
read_each (suc times) acc = fetch 1 >>= λ x. read_each times (x ++ acc)

unfoldable pub read_opposite : ℕ → Cmd (List ℕ)
unfolding avail_read read_each
read_opposite len b =
    if ltb (avail_read b) len
    then overflow b
    else elim len [ zero ↦ fault | suc n ↦ read_each (suc n) [] b ]
