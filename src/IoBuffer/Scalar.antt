-- ===== src/IoBuffer/Scalar.antt =====
-- The overloads of `<<` and `>>` of include/net/iobuffer.h for one scalar, `Write`, `Read`,
-- `Write_CareED` and `Read_CareED`, and the endian test of include/xhhead.h.
-- A scalar is its bit pattern, below 256 ^ sizeof; a `float` too is only copied.
pub mod Wire
pub mod Laws
use xhnet.Common.{
  ℕ, zero, suc, ◌+◌, ◌*◌, ◌/◌, ◌%◌, Bool, true, false, not, List, [], ◌∷◌, reverse, ◌==◌,
  if◌then◌else◌,
}
use xhnet.IoBuffer.{Cmd, pure, ◌>>=◌, write_order, write_opposite, read_order, read_opposite}

-- The compilers that the build files name differ in the sizes of `long` and `long double`.
pub data Abi : Type 0 where
  windows linux32 linux64 : Abi

-- The machine that runs the code.
pub record Host : Type 0 where
  pub abi : Abi
  pub big : Bool

pub data Scalar : Type 0 where
  char unsigned_char short unsigned_short int unsigned_int long unsigned_long : Scalar
  long_long unsigned_long_long float double long_double bool : Scalar

abbrev long_size : Abi → ℕ
long_size windows = 4
long_size linux32 = 4
long_size linux64 = 8

abbrev long_double_size : Abi → ℕ
long_double_size windows = 8
long_double_size linux32 = 12
long_double_size linux64 = 16

abbrev pub sizeof : Host → Scalar → ℕ
sizeof h char = 1
sizeof h unsigned_char = 1
sizeof h short = 2
sizeof h unsigned_short = 2
sizeof h int = 4
sizeof h unsigned_int = 4
sizeof h long = long_size h.abi
sizeof h unsigned_long = long_size h.abi
sizeof h long_long = 8
sizeof h unsigned_long_long = 8
sizeof h float = 4
sizeof h double = 8
sizeof h long_double = long_double_size h.abi
sizeof h bool = 1

-- The `w` bytes of a number, the lowest first, and the number that bytes stand for.
abbrev pub le_bytes : ℕ → ℕ → List ℕ
le_bytes zero v = []
le_bytes (suc w) v = (v % 256) ∷ le_bytes w (v / 256)

abbrev pub le_value : List ℕ → ℕ
le_value [] = 0
le_value (x ∷ xs) = x + 256 * le_value xs

-- How the machine lays out an object of `w` bytes, and what it reads from memory.
abbrev pub memory_of : Host → ℕ → ℕ → List ℕ
memory_of h w v = if h.big then reverse (le_bytes w v) else le_bytes w v

abbrev pub value_of : Host → List ℕ → ℕ
value_of h p = le_value (if h.big then reverse p else p)

abbrev first_byte : List ℕ → ℕ
first_byte [] = 0
first_byte (x ∷ _) = x

unfoldable pub get_system_endian : Host → Bool
get_system_endian h = first_byte (memory_of h 2 0x1122) == 0x11

abbrev beq : Bool → Bool → Bool
beq true c = c
beq false c = not c

unfoldable pub write_care_ed : Host → List ℕ → Cmd (Unit {0})
unfolding get_system_endian
write_care_ed h p b =
    if beq (get_system_endian h) b.biged then write_order p b else write_opposite p b

unfoldable pub read_care_ed : Host → ℕ → Cmd (List ℕ)
unfolding get_system_endian
read_care_ed h len b =
    if beq (get_system_endian h) b.biged then read_order len b else read_opposite len b

-- One case for each overload: those of one byte do not mind the order.
unfoldable pub write_scalar : Host → Scalar → ℕ → Cmd (Unit {0})
unfolding write_care_ed
write_scalar h char v = write_order (memory_of h 1 v)
write_scalar h unsigned_char v = write_order (memory_of h 1 v)
write_scalar h bool v = write_order (memory_of h 1 v)
write_scalar h t v = write_care_ed h (memory_of h (sizeof h t) v)

unfoldable pub read_scalar : Host → Scalar → Cmd ℕ
unfolding read_care_ed
read_scalar h char = read_order 1 >>= λ p. pure (value_of h p)
read_scalar h unsigned_char = read_order 1 >>= λ p. pure (value_of h p)
read_scalar h bool = read_order 1 >>= λ p. pure (value_of h p)
read_scalar h t = read_care_ed h (sizeof h t) >>= λ p. pure (value_of h p)
