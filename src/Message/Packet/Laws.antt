-- ===== src/Message/Packet/Laws.antt =====
-- The packet is the bytes of the head and those of the body, and a new buffer has room for it.
use xhnet.Common.{
  ℕ, ◌+◌, ◌^◌, ◌≤◌, ◌<◌, ◌≡◌, refl, ap, false, true, some, List, ◌++◌, arith, length, take, drop,
  length-append,
}
use xhnet.IoBuffer.{IoBuffer, ok, length_write, avail_read, on_memory}
use xhnet.IoBuffer.Queue.{
  IsValid, pending, room, stored, stored-IsValid, room-stored, stored-stored, length-pending,
}
use xhnet.IoBuffer.Scalar.{Host}
use xhnet.IoBuffer.Codec.{write_order-Appends}
use xhnet.IoBuffer.Scalar.Wire.{wire, length-wire}
use xhnet.Message.Head.{MessageHead, encode_header}
use xhnet.Message.Head.Laws.{head_bytes, head-Appends}
use xhnet.Message.Packet.{Pools, unread_bytes, new_iobuffer, pack, send_length}

-- Pools that never run out: `mem n` is what stands in the memory for `n` bytes.
abbrev pub ample : (ℕ → List ℕ) → ℕ → Pools
ample mem tag = record { memory = λ n. some (mem n); object = true; tag = tag }

-- The buffer that they give.
abbrev pub fresh : (ℕ → List ℕ) → ℕ → ℕ → IoBuffer
fresh mem tag n = record { bytes = mem n; read = 0; write = 0; biged = false; tag = tag }

pub new_iobuffer-ample :
    (mem : ℕ → List ℕ) (tag n : ℕ) → new_iobuffer (ample mem tag) n ≡ some (fresh mem tag n)
unfolding new_iobuffer on_memory
new_iobuffer-ample mem tag n = refl

pub fresh-IsValid :
    (mem : ℕ → List ℕ) (tag n : ℕ) → length (mem n) ≡ n → n < 2 ^ 32 → IsValid (fresh mem tag n)
fresh-IsValid mem tag n long small = record {
  read_le = omega arith;
  write_le = omega arith;
  small = omega (arith, long);
}

pub length-head_bytes : (big : _) (head : MessageHead) → length (head_bytes big head) ≡ 6
length-head_bytes big head = omega (
  arith,
  length-append (wire big 2 head.msglen) (wire big 4 head.msgid),
  length-wire big 2 head.msglen,
  length-wire big 4 head.msgid,
)

pub unread_bytes-pending : {b : IoBuffer} → IsValid b → unread_bytes b ≡ pending b
unfolding avail_read
unread_bytes-pending {b} v =
    ap (λ n. take n (drop b.read b.bytes)) (omega (arith, v.read_le, v.write_le, v.small))

-- The packet, in the length that `async_send` asks for, is the head and the body.
pub pack_lem :
    (h : Host) (head : MessageHead) {buffer b : IoBuffer}
    → IsValid buffer
    → buffer.write + 6 < 2 ^ 32
    → IsValid b
    → b.biged ≡ false
    → room b ≡ send_length buffer
    → pack h head buffer b ≡ ok true (stored (head_bytes false head ++ pending buffer) b)
unfolding pack encode_header send_length length_write
pack_lem h head {buffer} {b} v small v' e r =
    let p = head_bytes false head in
    let body = pending buffer in
    let within : length p ≤ room b = rw r (omega (arith, length-head_bytes false head)) in
    let rest : length body ≤ room (stored p b) =
      rw (room-stored v' p, r) (omega (arith, length-pending v, length-head_bytes false head)) in
    rw
      (
        (head-Appends h false head).fits b v' e within,
        unread_bytes-pending v,
        (write_order-Appends body).fits (stored p b) (stored-IsValid v' p within) e rest,
      )
      (ap (ok true) (stored-stored p body b))
