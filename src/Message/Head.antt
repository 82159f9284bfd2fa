-- ===== src/Message/Head.antt =====
-- `CMessageHead_24` of net-qyfh/msgstream.h: the length and the number of a message, in the 6 bytes
-- in front of it.
pub mod Laws
mod Runs
use xhnet.Common.{ℕ, Bool, true, false}
use xhnet.IoBuffer.{IoBuffer, Run, ok, overflow, fault, Cmd, ◌>>=◌, ◌>>◌}
use xhnet.IoBuffer.Scalar.{Host, unsigned_short, unsigned_int, write_scalar, read_scalar}

pub record MessageHead : Type 0 where
  pub msglen : ℕ
  pub msgid : ℕ

abbrev pub head_size : ℕ
head_size = 6

-- Once the length has been read: whether the number is there too, and the head afterwards.
abbrev pub decoded_id : MessageHead → ℕ → Run ℕ → Run (Bool × MessageHead)
decoded_id head len (ok id b) = ok (true, record { msglen = len; msgid = id }) b
decoded_id head len (overflow b) = ok (false, record head { msglen = len }) b
decoded_id head len fault = fault

abbrev pub decoded : Host → MessageHead → Run ℕ → Run (Bool × MessageHead)
decoded h head (ok len b) = decoded_id head len (read_scalar h unsigned_int b)
decoded h head (overflow b) = ok (false, head) b
decoded h head fault = fault

-- The two reads in their `try`. A length that was read before the throw stays in the head.
unfoldable pub decode_header : Host → MessageHead → Cmd (Bool × MessageHead)
decode_header h head b = decoded h head (read_scalar h unsigned_short b)

-- `catch (...)` around a write.
abbrev pub caught : Run (Unit {0}) → Run Bool
caught (ok u b) = ok true b
caught (overflow b) = ok false b
caught fault = fault

unfoldable pub encode_header : Host → MessageHead → Cmd Bool
encode_header h head b =
    caught ((write_scalar h unsigned_short head.msglen >> write_scalar h unsigned_int head.msgid) b)

abbrev pub reset_head : MessageHead → MessageHead
reset_head head = record { msglen = 0; msgid = 0 }
