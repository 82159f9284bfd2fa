-- ===== src/IoBuffer/Raw.antt =====
-- What the raw operations of `CIOBuffer` do on every branch, in terms of the queue of bytes.
use xhnet.Common.{
  ℕ, zero, suc, ◌+◌, ◌-◌, ◌≤◌, ◌<◌, ◌≡◌, sym, ap, List, [], ◌∷◌, ◌++◌, reverse, reverse_aux, arith,
  leb, if◌then◌else◌, length, take, drop, length-reverse, take-take, reverse_aux-take-suc,
}
use xhnet.IoBuffer.{
  IoBuffer, ok, overflow, fetch, write_order, write_opposite, read_order, read_each, read_opposite,
}
use native.Mathlib.Nat.{add_assoc, add-zero}
use xhnet.IoBuffer.Queue.{
  IsValid, pending, room, stored, fetched, avail_write-room, avail_read-pending, length-pending,
  store-ok, write_each-ok,
}

fetch-ok :
    (n : ℕ) (b : IoBuffer)
    → b.read + n ≤ length b.bytes
    → fetch n b ≡ ok (take n (drop b.read b.bytes)) (fetched n b)
unfolding fetch
fetch-ok n b h = ground arith

fetched-fetched : (n m : ℕ) (b : IoBuffer) → fetched m (fetched n b) ≡ fetched (n + m) b
fetched-fetched n m b = λ i. record b { read = add_assoc b.read n m i }

read_each-ok :
    (n : ℕ) (acc : List ℕ) (b : IoBuffer)
    → b.read + n ≤ length b.bytes
    → read_each n acc b ≡ ok (reverse_aux (take n (drop b.read b.bytes)) acc) (fetched n b)
unfolding read_each
read_each-ok zero acc b h = ap (λ k. ok acc (record b { read = k })) (sym (add-zero b.read))
read_each-ok (suc n) acc b h =
    rw
      (
        fetch-ok 1 b (omega arith),
        read_each-ok n (take 1 (drop b.read b.bytes) ++ acc) (fetched 1 b) (omega arith),
        reverse_aux-take-suc b.read n b.bytes acc (omega arith),
      )
      (ap (λ k. ok (reverse_aux (take (suc n) (drop b.read b.bytes)) acc) (record b { read = k }))
        (omega arith))

module _ {b : IoBuffer} (v : IsValid b) where
  -- `write_order` appends `p` where there is room, and otherwise throws and changes nothing.
  pub write_order_lem :
      (p : List ℕ)
      → write_order p b ≡ (if leb (length p) (room b) then ok tt (stored p b) else overflow b)
  unfolding write_order
  write_order_lem p = ground (arith, v.write_le, avail_write-room v, store-ok p b)

  -- `write_opposite` appends `p` turned round.
  pub write_opposite_lem :
      (p : List ℕ)
      → 0 < length p
      → write_opposite p b
        ≡ (if leb (length p) (room b) then ok tt (stored (reverse p) b) else overflow b)
  unfolding write_opposite
  write_opposite_lem [] h = absurd (omega arith)
  write_opposite_lem (x ∷ p) h = ground (
    arith,
    v.write_le,
    avail_write-room v,
    write_each-ok (reverse (x ∷ p)) b,
    length-reverse (x ∷ p),
  )

  take-pending :
      (n : ℕ) → n ≤ length (pending b) → take n (drop b.read b.bytes) ≡ take n (pending b)
  take-pending n h =
      let m = b.write - b.read - n in
      let split : b.write - b.read ≡ n + m = omega (arith, length-pending v) in
      rw split (sym (take-take n m (drop b.read b.bytes)))

  pub read_order_lem :
      (n : ℕ)
      → read_order n b
        ≡ (if leb n (length (pending b)) then ok (take n (pending b)) (fetched n b) else overflow b)
  unfolding read_order
  read_order_lem n =
      ground
        (arith, v.write_le, avail_read-pending v, length-pending v, fetch-ok n b, take-pending n)

  pub read_opposite_lem :
      (n : ℕ)
      → 0 < n
      → read_opposite n b ≡ (
          if leb n (length (pending b))
          then ok (reverse (take n (pending b))) (fetched n b)
          else overflow b)
  unfolding read_opposite
  read_opposite_lem zero h = absurd (omega arith)
  read_opposite_lem (suc n) h = ground (
    arith,
    v.write_le,
    avail_read-pending v,
    length-pending v,
    read_each-ok (suc n) [] b,
    take-pending (suc n),
  )
