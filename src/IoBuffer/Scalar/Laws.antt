-- ===== src/IoBuffer/Scalar/Laws.antt =====
-- What `<<` and `>>` of one scalar do on every branch.
use xhnet.Common.{
  ℕ, [], ◌∷◌, ◌^◌, ◌<◌, ◌≡◌, le→leb, refl, sym, subst, ap, ap₂, ◌∙◌, length-reverse, Bool, true,
  List, ◌++◌, reverse, reverse-reverse, arith, leb, if◌then◌else◌, length, take, take-append,
  length-append, inl, inr, Bool-cases,
}
use xhnet.IoBuffer.{IoBuffer, Run, ok, overflow, pure, ◌>>=◌, write_order, read_order}
use xhnet.IoBuffer.Queue.{IsValid, pending, room, stored, fetched}
use xhnet.IoBuffer.Raw.{write_order_lem, write_opposite_lem, read_order_lem, read_opposite_lem}
use xhnet.IoBuffer.Scalar.{
  Host, Scalar, char, unsigned_char, bool, sizeof, memory_of, value_of, write_care_ed, read_care_ed,
  write_scalar, read_scalar, le_bytes, beq,
}
use xhnet.IoBuffer.Scalar.Wire.{
  wire, length-wire, get_system_endian-big, order-wire, opposite-wire, le_value-le_bytes,
  length-memory_of, sizeof-pos,
}

-- The outcome of a write of `w` bytes that appends `q`, and of a read of `w` bytes.
abbrev pub written : ℕ → List ℕ → IoBuffer → Run (Unit {0})
written w q b = if leb w (room b) then ok tt (stored q b) else overflow b

abbrev written_as :
    {r : Run (Unit {0})} {w : ℕ} {p q : List ℕ} (b : IoBuffer)
    → length p ≡ w
    → p ≡ q
    → r ≡ written (length p) p b
    → r ≡ written w q b
written_as b n e h = h ∙ ap₂ (λ k l. written k l b) n e

module _ {b : IoBuffer} (v : IsValid b) (h : Host) where
  write_care_ed_lem :
      (w x : ℕ) → 0 < w → write_care_ed h (memory_of h w x) b ≡ written w (wire b.biged w x) b
  unfolding write_care_ed
  write_care_ed_lem w x pos =
      let p = memory_of h w x in
      let n : length p ≡ w = length-memory_of h w x in
      elim (Bool-cases (beq h.big b.biged)) [
        | inl e ↦
            rw (get_system_endian-big h, e)
              (written_as b n (order-wire h.big b.biged (le_bytes w x) e) (write_order_lem v p))
        | inr e ↦
            rw (get_system_endian-big h, e)
              (written_as b (length-reverse p ∙ n) (opposite-wire h.big b.biged (le_bytes w x) e) (
                write_opposite_lem v p (omega (arith, n))
                ∙ ap (λ k. written k (reverse p) b) (sym (length-reverse p))))
      ]

  one_byte : (x : ℕ) → write_order (memory_of h 1 x) b ≡ written 1 (wire b.biged 1 x) b
  one_byte x =
      written_as b (length-memory_of h 1 x) (ground arith) (write_order_lem v (memory_of h 1 x))

  -- On a valid buffer the write of a scalar appends its bytes, in the order of the buffer, where
  -- there is room for them, and otherwise throws and changes nothing.
  pub write_scalar_lem :
      (t : Scalar) (x : ℕ)
      → write_scalar h t x b ≡ written (sizeof h t) (wire b.biged (sizeof h t) x) b
  unfolding write_scalar
  write_scalar_lem char x = one_byte x
  write_scalar_lem unsigned_char x = one_byte x
  write_scalar_lem bool x = one_byte x
  write_scalar_lem t x = write_care_ed_lem (sizeof h t) x (sizeof-pos h t)

-- What `>>` of `w` bytes hands to the machine.
abbrev taken : Host → Bool → List ℕ → List ℕ
taken h biged l = if beq h.big biged then l else reverse l

abbrev pub scalar_of : Host → Bool → List ℕ → ℕ
scalar_of h biged l = value_of h (taken h biged l)

value_of-taken :
    (h : Host) (biged : Bool) (w x : ℕ) → x < 256 ^ w → scalar_of h biged (wire biged w x) ≡ x
value_of-taken h biged w x s =
    ground (arith, le_value-le_bytes w x s, reverse-reverse (le_bytes w x))

-- The outcome of a read of `w` bytes where `l` is pending.
abbrev fetched_from : Host → ℕ → List ℕ → IoBuffer → Run ℕ
fetched_from h w l b =
    if leb w (length l) then ok (scalar_of h b.biged (take w l)) (fetched w b) else overflow b

abbrev pub fetched_scalar : Host → ℕ → IoBuffer → Run ℕ
fetched_scalar h w b = fetched_from h w (pending b) b

reverse-take_one : (l : List ℕ) → reverse (take 1 l) ≡ take 1 l
reverse-take_one [] = refl
reverse-take_one (x ∷ l) = refl

take-wire : (big : Bool) (w x : ℕ) (rest : List ℕ) → take w (wire big w x ++ rest) ≡ wire big w x
take-wire big w x rest =
    subst (λ k. take k (wire big w x ++ rest) ≡ wire big w x) (length-wire big w x)
      (take-append (wire big w x) rest)

fetched_from-wire :
    (h : Host) (w x : ℕ) (rest : List ℕ) (b : IoBuffer)
    → x < 256 ^ w
    → fetched_from h w (wire b.biged w x ++ rest) b ≡ ok x (fetched w b)
fetched_from-wire h w x rest b s =
    let enough : leb w (length (wire b.biged w x ++ rest)) ≡ true =
      le→leb _ _ (omega (arith, length-append (wire b.biged w x) rest, length-wire b.biged w x)) in
    rw (enough, take-wire b.biged w x rest, value_of-taken h b.biged w x s)

module _ {b : IoBuffer} (v : IsValid b) (h : Host) where
  read_care_ed_lem :
      (w : ℕ) → 0 < w → (read_care_ed h w >>= λ p. pure (value_of h p)) b ≡ fetched_scalar h w b
  unfolding read_care_ed
  read_care_ed_lem w pos = elim (Bool-cases (beq h.big b.biged)) [
    | inl e ↦ rw (get_system_endian-big h, e, read_order_lem v w) (ground arith)
    | inr e ↦ rw (get_system_endian-big h, e, read_opposite_lem v w pos) (ground arith)
  ]

  read_byte : (read_order 1 >>= λ p. pure (value_of h p)) b ≡ fetched_scalar h 1 b
  read_byte = rw (read_order_lem v 1) (ground (arith, reverse-take_one (pending b)))

  -- On a valid buffer the read of a scalar takes its bytes, in the order of the buffer, and throws
  -- and changes nothing where there are fewer.
  pub read_scalar_lem : (t : Scalar) → read_scalar h t b ≡ fetched_scalar h (sizeof h t) b
  unfolding read_scalar
  read_scalar_lem char = read_byte
  read_scalar_lem unsigned_char = read_byte
  read_scalar_lem bool = read_byte
  read_scalar_lem t = read_care_ed_lem (sizeof h t) (sizeof-pos h t)

  -- A scalar that is next on the wire is read back, by a machine of any byte order.
  pub read_scalar-wire :
      (t : Scalar) (x : ℕ) (rest : List ℕ)
      → x < 256 ^ sizeof h t
      → pending b ≡ wire b.biged (sizeof h t) x ++ rest
      → read_scalar h t b ≡ ok x (fetched (sizeof h t) b)
  read_scalar-wire t x rest s e =
      read_scalar_lem t
      ∙ ap (λ l. fetched_from h (sizeof h t) l b) e
      ∙ fetched_from-wire h (sizeof h t) x rest b s
