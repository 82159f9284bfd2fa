-- ===== src/Message/Packet.antt =====
-- The buffers of a connection, of net-qyfh/socketclient.h: `new_iobuffer`, and what `async_send`
-- puts into one. `CTcpSocketServer` has the same functions.
pub mod Laws
use xhnet.Common.{
  ℕ, ◌+◌, ◌%◌, ◌^◌, Bool, true, false, Option, none, some, List, if◌then◌else◌, take, drop,
}
use xhnet.IoBuffer.{
  IoBuffer, Run, ok, overflow, fault, pure, ◌>>=◌, on_memory, avail_read, length_write, write_order,
}
use xhnet.IoBuffer.Scalar.{Host}
use xhnet.Message.Head.{MessageHead, head_size, encode_header}

-- What the pools give at one moment: `memory n` is what stands in the memory for `n` bytes, `object`
-- is whether there is a `CIOBuffer`, and `tag` is what stands in its `m_tag`.
pub record Pools : Type 0 where
  pub memory : ℕ → Option (List ℕ)
  pub object : Bool
  pub tag : ℕ

abbrev pub new_object : Pools → Option (List ℕ) → Option IoBuffer
new_object pools none = none
new_object pools (some buff) = if pools.object then some (on_memory buff false pools.tag) else none

unfoldable pub new_iobuffer : Pools → ℕ → Option IoBuffer
unfolding on_memory
new_iobuffer pools bufflen = new_object pools (pools.memory bufflen)

-- The memory from `GetCurRead` on, of `AvailRead` bytes.
abbrev pub unread_bytes : IoBuffer → List ℕ
unread_bytes b = take (avail_read b) (drop b.read b.bytes)

-- The body behind the head, if that has been written.
abbrev pub add_body : IoBuffer → Run Bool → Run Bool
add_body buffer (ok true b) = (write_order (unread_bytes buffer) >>= λ u. pure true) b
add_body buffer (ok false b) = ok false b
add_body buffer (overflow b) = overflow b
add_body buffer fault = fault

-- The packet in `sendbuff`, and whether it may be sent.
unfoldable pub pack : Host → MessageHead → IoBuffer → IoBuffer → Run Bool
unfolding encode_header write_order avail_read
pack h head buffer sendbuff = add_body buffer (encode_header h head sendbuff)

-- The length that `async_send` asks for. It names the buffer `msg`, which is not declared there.
unfoldable pub send_length : IoBuffer → ℕ
unfolding length_write
send_length buffer = (length_write buffer + head_size) % 2 ^ 32
