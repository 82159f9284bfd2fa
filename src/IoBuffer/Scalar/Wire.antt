-- ===== src/IoBuffer/Scalar/Wire.antt =====
-- The bytes that a scalar has on the wire, whatever the machine.
use xhnet.Common.{
  ℕ, zero, suc, ◌*◌, ◌/◌, ◌^◌, ◌<◌, ◌≡◌, refl, Bool, true, false, List, reverse, reverse-reverse,
  arith, if◌then◌else◌, length, length-reverse,
}
use xhnet.IoBuffer.Scalar.{
  Host, Scalar, sizeof, le_bytes, le_value, memory_of, value_of, get_system_endian, beq,
}
use native.Mathlib.Nat.{pow-suc}

-- Most significant byte first in a buffer that is marked big-endian, last otherwise.
abbrev pub wire : Bool → ℕ → ℕ → List ℕ
wire big w v = if big then reverse (le_bytes w v) else le_bytes w v

pub length-le_bytes : (w v : ℕ) → length (le_bytes w v) ≡ w
length-le_bytes zero v = refl
length-le_bytes (suc w) v = omega (arith, length-le_bytes w (v / 256))

pub le_value-le_bytes : (w v : ℕ) → v < 256 ^ w → le_value (le_bytes w v) ≡ v
le_value-le_bytes zero v h = omega arith
le_value-le_bytes (suc w) v h =
    let bound : 256 ^ suc w ≡ 256 ^ w * 256 = pow-suc 256 w in
    omega (arith, le_value-le_bytes w (v / 256) (omega arith))

pub length-wire : (big : Bool) (w v : ℕ) → length (wire big w v) ≡ w
length-wire true w v = omega (arith, length-reverse (le_bytes w v), length-le_bytes w v)
length-wire false w v = length-le_bytes w v

-- The endian test answers for the machine.
pub get_system_endian-big : (h : Host) → get_system_endian h ≡ h.big
unfolding get_system_endian
get_system_endian-big h = ground arith

pub value_of-memory_of : (h : Host) (w v : ℕ) → v < 256 ^ w → value_of h (memory_of h w v) ≡ v
value_of-memory_of h w v b = ground (arith, le_value-le_bytes w v b, reverse-reverse (le_bytes w v))

-- Copied as they lie or turned round, as the test of the two orders says, the bytes of the machine
-- are those on the wire, and back.
module _ (big biged : Bool) (l : List ℕ) where
  pub order-wire :
      beq big biged ≡ true → (if big then reverse l else l) ≡ (if biged then reverse l else l)
  order-wire h = ground arith

  pub opposite-wire :
      beq big biged ≡ false
      → reverse (if big then reverse l else l) ≡ (if biged then reverse l else l)
  opposite-wire h = ground (arith, reverse-reverse l)

  pub opposite-memory :
      beq big biged ≡ false
      → reverse (if biged then reverse l else l) ≡ (if big then reverse l else l)
  opposite-memory h = ground (arith, reverse-reverse l)

pub length-memory_of : (h : Host) (w v : ℕ) → length (memory_of h w v) ≡ w
length-memory_of h w v = length-wire h.big w v

pub sizeof-pos : (h : Host) (t : Scalar) → 0 < sizeof h t
sizeof-pos h t = ground arith
