-- ===== src/IoBuffer/Seek.antt =====
-- `SeekRead` and `SeekWrite` of include/net/iobuffer.h.
use xhnet.Common.{ℕ, ◌+◌, ◌%◌, ◌^◌, ◌≤◌, ◌<◌, ◌≡◌, false, List, arith, ltb, le→ltb, lt→leb, length}
use xhnet.IoBuffer.{IoBuffer, ok, fault, ◌>>◌, seek_read, seek_write, avail_write, write_order}
use xhnet.IoBuffer.Queue.{IsValid, room}

-- The test `Avail… < 0` of an unsigned number.
not-ltb-zero : (n : ℕ) → ltb n 0 ≡ false
not-ltb-zero n = ground arith

pub seek_read_lem :
    (offset : ℕ) (b : IoBuffer)
    → seek_read offset b ≡ ok tt (record b { read = (b.read + offset) % 2 ^ 64 })
unfolding seek_read
seek_read_lem offset b = rw not-ltb-zero

pub seek_write_lem :
    (offset : ℕ) (b : IoBuffer)
    → seek_write offset b ≡ ok tt (record b { write = (b.write + offset) % 2 ^ 64 })
unfolding seek_write
seek_write_lem offset b = rw not-ltb-zero

-- On a valid buffer a `SeekWrite` by more than its room, below 2 ^ 31, does not throw, and a write
-- of fewer than 2 ^ 30 bytes after it leaves the memory.
pub seek_write_past_end :
    (offset : ℕ) (p : List ℕ) {b : IoBuffer}
    → IsValid b
    → room b < offset
    → offset < 2 ^ 31
    → length p < 2 ^ 30
    → (seek_write offset >> write_order p) b ≡ fault
unfolding write_order
seek_write_past_end offset p {b} v past int small =
    let wrap : (b.write + offset) % 2 ^ 64 ≡ b.write + offset =
      omega (arith, v.write_le, v.small) in
    let passes : length p ≤ avail_write (record b { write = b.write + offset }) =
      (unfold avail_write in omega (arith, v.write_le, v.small)) in
    rw (seek_write_lem offset b, wrap, le→ltb _ _ passes)
      (rw (lt→leb (b.write + offset + length p) (length b.bytes) (omega (arith, v.write_le))))
