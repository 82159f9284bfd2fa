-- ===== src/IoBuffer/Runs.antt =====
-- Runs of `CIOBuffer` on small buffers, between a 64-bit Linux of the one byte order and a Windows
-- of the other.
use xhnet.Common.{ℕ, ◌≤◌, ◌≡◌, refl, true, false, List, [], ◌∷◌, arith, length, ltb}
use xhnet.IoBuffer.{IoBuffer, ok, overflow, fault, ◌>>◌, on_memory, seek_write, write_order}
use xhnet.IoBuffer.Queue.{IsValid, fetched}
use xhnet.IoBuffer.Seek.{seek_write_past_end}
use xhnet.IoBuffer.Rules.{Safe}
use xhnet.IoBuffer.Codec.{scalar-Codec}
use xhnet.IoBuffer.Scalar.{Host, windows, linux64, short, write_scalar, read_scalar}
use xhnet.IoBuffer.Text.{write_string, read_string, readcstring}
use xhnet.IoBuffer.Text.Laws.{string-Codec}
use xhnet.IoBuffer.Text.Rewind.{readcstring_lem}
use xhnet.IoBuffer.Vector.{write_vector, read_vector, write_map, read_map}
use xhnet.IoBuffer.RoundTrip.{
  IsReady, passed, string_round_trip, vector_round_trip, read_vector-Safe, map_round_trip,
}

abbrev unix : Host
unix = record { abi = linux64; big = false }

abbrev other : Host
other = record { abi = windows; big = true }

abbrev zeros : List ℕ
zeros =
    0 ∷ 0 ∷ 0 ∷ 0 ∷ 0 ∷ 0 ∷ 0 ∷ 0 ∷ 0 ∷ 0 ∷ 0 ∷ 0 ∷ 0 ∷ 0 ∷ 0 ∷ 0 ∷ 0 ∷ 0 ∷ 0 ∷ 0 ∷ 0 ∷ 0 ∷ 0 ∷ 0
    ∷ []

-- A buffer of 24 bytes in network order, and one that holds "hi" and a byte more.
abbrev empty_buffer : IoBuffer
empty_buffer = record { bytes = zeros; read = 0; write = 0; biged = true; tag = 0 }

abbrev hi_buffer : IoBuffer
hi_buffer = record {
  bytes = (2 ∷ 104 ∷ 105 ∷ 9 ∷ 0 ∷ []);
  read = 0;
  write = 4;
  biged = true;
  tag = 0;
}

on_memory-empty : on_memory zeros true 0 ≡ empty_buffer
unfolding on_memory
on_memory-empty = refl

empty-IsValid : IsValid empty_buffer
empty-IsValid = record { read_le = omega arith; write_le = omega arith; small = omega arith }

hi-IsValid : IsValid hi_buffer
hi-IsValid = record { read_le = omega arith; write_le = omega arith; small = omega arith }

empty-IsReady : (p : List ℕ) → length p ≤ 24 → IsReady p empty_buffer
empty-IsReady p h = record { valid = empty-IsValid; empty = refl; enough = h }

string_round_trip_example :
    (write_string unix (104 ∷ 105 ∷ []) >> read_string other) empty_buffer
    ≡ ok (104 ∷ 105 ∷ []) (passed (2 ∷ 104 ∷ 105 ∷ []) empty_buffer)
string_round_trip_example =
    string_round_trip unix other (104 ∷ 105 ∷ []) ((omega arith, (omega arith, tt)), omega arith)
      (empty-IsReady _ (omega arith))

vector_round_trip_example :
    (write_vector unix (write_string unix) ((104 ∷ 105 ∷ []) ∷ [] ∷ [])
        >> read_vector other (read_string other))
      empty_buffer
    ≡ ok ((104 ∷ 105 ∷ []) ∷ [] ∷ []) (passed (0 ∷ 0 ∷ 0 ∷ 2 ∷ 2 ∷ 104 ∷ 105 ∷ 0 ∷ []) empty_buffer)
vector_round_trip_example =
    vector_round_trip (string-Codec unix other) unix other ((104 ∷ 105 ∷ []) ∷ [] ∷ [])
      ((((omega arith, (omega arith, tt)), omega arith), ((tt, omega arith), tt)), omega arith)
      (empty-IsReady _ (omega arith))

read_vector-Safe_example : Safe (read_vector other (read_string other) hi_buffer)
read_vector-Safe_example = read_vector-Safe (string-Codec unix other) unix other hi-IsValid

map_round_trip_example :
    (write_map unix (write_scalar unix short) (write_string unix) ((3, (104 ∷ [])) ∷ (5, []) ∷ [])
        >> read_map ltb other (read_scalar other short) (read_string other))
      empty_buffer
    ≡ ok
        ((3, (104 ∷ [])) ∷ (5, []) ∷ [])
        (passed (0 ∷ 0 ∷ 0 ∷ 2 ∷ 0 ∷ 3 ∷ 1 ∷ 104 ∷ 0 ∷ 5 ∷ 0 ∷ []) empty_buffer)
map_round_trip_example =
    map_round_trip (scalar-Codec unix other short refl) (string-Codec unix other) unix other ltb
      ((3, (104 ∷ [])) ∷ (5, []) ∷ []) (λ a b h. ground arith)
      (
        ((omega arith, ((omega arith, tt), omega arith)), ((omega arith, (tt, omega arith)), tt)),
        omega arith,
      )
      ((refl, tt), (tt, tt)) (empty-IsReady _ (omega arith))

readcstring_lem_example : readcstring other (7 ∷ 7 ∷ []) hi_buffer ≡ overflow hi_buffer
readcstring_lem_example =
    readcstring_lem other (7 ∷ 7 ∷ []) (104 ∷ 105 ∷ []) (9 ∷ []) hi-IsValid (omega arith) refl

-- The characters are followed by what was there before; only the last byte is set to 0.
readcstring_larger :
    readcstring other (7 ∷ 7 ∷ 7 ∷ 7 ∷ []) hi_buffer
    ≡ ok (104 ∷ 105 ∷ 7 ∷ 0 ∷ []) (fetched 3 hi_buffer)
readcstring_larger =
    readcstring_lem other (7 ∷ 7 ∷ 7 ∷ 7 ∷ []) (104 ∷ 105 ∷ []) (9 ∷ []) hi-IsValid (omega arith)
      refl

seek_write_past_end_example : (seek_write 25 >> write_order (1 ∷ [])) empty_buffer ≡ fault
seek_write_past_end_example =
    seek_write_past_end 25 (1 ∷ []) empty-IsValid (omega arith) (omega arith) (omega arith)
