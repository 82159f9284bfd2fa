-- ===== src/Message/Head/Runs.antt =====
-- Runs of the message head.
use xhnet.Common.{◌≡◌, refl, true, false, [], ◌∷◌, arith}
use xhnet.IoBuffer.{IoBuffer, ok, ◌>>=◌}
use xhnet.IoBuffer.Scalar.{Host, windows, linux64}
use xhnet.IoBuffer.RoundTrip.{passed}
use xhnet.Message.Head.{MessageHead, decode_header, encode_header}
use xhnet.Message.Head.Laws.{head_round_trip}

abbrev unix : Host
unix = record { abi = linux64; big = false }

abbrev other : Host
other = record { abi = windows; big = true }

abbrev old_head : MessageHead
old_head = record { msglen = 9; msgid = 9 }

abbrev some_head : MessageHead
some_head = record { msglen = 300; msgid = 7 }

abbrev empty_buffer : IoBuffer
empty_buffer = record {
  bytes = 0 ∷ 0 ∷ 0 ∷ 0 ∷ 0 ∷ 0 ∷ 0 ∷ [];
  read = 0;
  write = 0;
  biged = false;
  tag = 0;
}

-- The head is cut off after its first four bytes.
abbrev cut_buffer : IoBuffer
cut_buffer = record {
  bytes = 44 ∷ 1 ∷ 7 ∷ 0 ∷ 0 ∷ 0 ∷ [];
  read = 0;
  write = 4;
  biged = false;
  tag = 0;
}

head_round_trip_example :
    (encode_header unix some_head >>= λ done. decode_header other old_head) empty_buffer
    ≡ ok (true, some_head) (passed (44 ∷ 1 ∷ 7 ∷ 0 ∷ 0 ∷ 0 ∷ []) empty_buffer)
head_round_trip_example =
    head_round_trip unix other some_head old_head
      (record { msglen_lt = omega arith; msgid_lt = omega arith })
      (record {
        valid = record { read_le = omega arith; write_le = omega arith; small = omega arith };
        empty = refl;
        enough = omega arith;
      })
