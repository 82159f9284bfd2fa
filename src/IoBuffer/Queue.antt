-- ===== src/IoBuffer/Queue.antt =====
-- The raw operations of `CIOBuffer` as a bounded queue of bytes.
use xhnet.Common.{
  ℕ, ◌+◌, ◌-◌, ◌^◌, ◌≤◌, ◌<◌, ◌≡◌, sym, subst, List, [], ◌∷◌, ◌++◌, arith, length, take, drop,
  splice, length-append, length-take, length-drop, length-splice, drop-drop, drop-take,
  slice-splice, splice-splice, splice-nil,
}
use native.Mathlib.Nat.{add-zero}
use xhnet.IoBuffer.{IoBuffer, ok, avail_write, avail_read, store, write_each}

-- The pointers lie in order within the memory, which an `unsigned int` can measure.
pub record IsValid (b : IoBuffer) : Type 0 where
  pub read_le : b.read ≤ b.write
  pub write_le : b.write ≤ length b.bytes
  pub small : length b.bytes < 2 ^ 32

-- What has been written and not yet read.
abbrev pub pending : IoBuffer → List ℕ
pending b = take (b.write - b.read) (drop b.read b.bytes)

abbrev pub room : IoBuffer → ℕ
room b = length b.bytes - b.write

pub avail_write-room : {b : IoBuffer} → IsValid b → avail_write b ≡ room b
unfolding avail_write
avail_write-room v = omega arith

pub length-pending : {b : IoBuffer} → IsValid b → length (pending b) ≡ b.write - b.read
length-pending {b} v =
    omega (arith, length-take (b.write - b.read) (drop b.read b.bytes), length-drop b.read b.bytes)

pub avail_read-pending : {b : IoBuffer} → IsValid b → avail_read b ≡ length (pending b)
unfolding avail_read
avail_read-pending v = omega (arith, length-pending v)

-- The buffer after `p` has been copied behind what is there, and after `n` bytes have been read.
abbrev pub stored : List ℕ → IoBuffer → IoBuffer
stored p b = record b { bytes = splice b.bytes b.write p; write = b.write + length p }

abbrev pub fetched : ℕ → IoBuffer → IoBuffer
fetched n b = record b { read = b.read + n }

pub stored-nil : (b : IoBuffer) → stored [] b ≡ b
stored-nil b = λ i. record b { bytes = splice-nil b.bytes b.write i; write = add-zero b.write i }

pub stored-stored : (p q : List ℕ) (b : IoBuffer) → stored q (stored p b) ≡ stored (p ++ q) b
stored-stored p q b = λ i. record b { bytes = splice-splice b.write b.bytes p q i; write = sum i }
  where
    sum : b.write + length p + length q ≡ b.write + length (p ++ q)
    sum = omega (arith, length-append p q)

pub store-ok :
    (p : List ℕ) (b : IoBuffer)
    → b.write + length p ≤ length b.bytes
    → store p b ≡ ok tt (stored p b)
unfolding store
store-ok p b h = ground arith

-- Writing byte by byte is one copy.
pub write_each-ok :
    (p : List ℕ) (b : IoBuffer)
    → b.write + length p ≤ length b.bytes
    → write_each p b ≡ ok tt (stored p b)
unfolding write_each
write_each-ok [] b h = rw (stored-nil b)
write_each-ok (x ∷ p) b h = rw (
  store-ok (x ∷ []) b (omega arith),
  write_each-ok p (stored (x ∷ []) b) (omega (arith, length-splice b.bytes b.write (x ∷ []))),
  stored-stored (x ∷ []) p b,
)

module _ {b : IoBuffer} (v : IsValid b) where
  pub stored-IsValid : (p : List ℕ) → length p ≤ room b → IsValid (stored p b)
  stored-IsValid p h = record {
    read_le = omega (arith, v.read_le);
    write_le = omega (arith, v.write_le, length-splice b.bytes b.write p);
    small = omega (arith, v.small, length-splice b.bytes b.write p);
  }

  pub pending-stored : (p : List ℕ) → length p ≤ room b → pending (stored p b) ≡ pending b ++ p
  pending-stored p h =
      let n = b.write - b.read in
      let at : b.write ≡ b.read + n = omega (arith, v.read_le) in
      let upto : b.write + length p - b.read ≡ n + length p = omega (arith, v.read_le) in
      rw upto (
        subst (λ w. take (n + length p) (drop b.read (splice b.bytes w p)) ≡ pending b ++ p)
          (sym at) (slice-splice b.read n b.bytes p (omega (arith, v.read_le, v.write_le))))

  pub room-stored : (p : List ℕ) → room (stored p b) ≡ room b - length p
  room-stored p = omega (arith, length-splice b.bytes b.write p)

  pub fetched-IsValid : (n : ℕ) → n ≤ length (pending b) → IsValid (fetched n b)
  fetched-IsValid n h = record {
    read_le = omega (arith, v.read_le, length-pending v);
    write_le = v.write_le;
    small = v.small;
  }

  pub pending-fetched :
      (n : ℕ) → n ≤ length (pending b) → pending (fetched n b) ≡ drop n (pending b)
  pending-fetched n h =
      let m = b.write - (b.read + n) in
      let split : b.write - b.read ≡ n + m = omega (arith, v.read_le, length-pending v) in
      subst (λ k. take m (drop (b.read + n) b.bytes) ≡ drop n (take k (drop b.read b.bytes)))
        (sym split) (rw (drop-take n m (drop b.read b.bytes), drop-drop n b.read b.bytes))
