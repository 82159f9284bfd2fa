-- ===== src/Message/Head/Laws.antt =====
-- A head is read back as it was written, and what is read where it is not whole.
use xhnet.Common.{
  ℕ, ◌-◌, ◌^◌, ◌≤◌, ◌<◌, ◌≡◌, refl, sym, ap, ◌∙◌, Bool, true, false, List, [], ◌++◌, append-nil,
  append_assoc, arith, leb, le→leb, leb→le, leb→lt, lt→leb, if◌then◌else◌, length, take,
  length-append, length-drop, inl, inr, Bool-cases,
}
use xhnet.IoBuffer.{IoBuffer, ok, ◌>>=◌, ◌>>◌}
use xhnet.IoBuffer.Queue.{
  IsValid, pending, fetched, stored-IsValid, pending-stored, fetched-IsValid, pending-fetched,
}
use xhnet.IoBuffer.Rules.{Appends, Appends-then, pending-taken}
use xhnet.IoBuffer.Codec.{write_scalar-Appends, read_scalar-Takes}
use xhnet.IoBuffer.Scalar.{Host, unsigned_short, unsigned_int, write_scalar}
use xhnet.IoBuffer.Scalar.Wire.{wire}
use xhnet.IoBuffer.Scalar.Laws.{scalar_of, read_scalar_lem}
use xhnet.IoBuffer.RoundTrip.{IsReady, passed}
use xhnet.Message.Head.{MessageHead, decode_header, encode_header}

-- The numbers fit into their types.
pub record IsHead (head : MessageHead) : Type 0 where
  pub msglen_lt : head.msglen < 256 ^ 2
  pub msgid_lt : head.msgid < 256 ^ 4

abbrev pub head_bytes : Bool → MessageHead → List ℕ
head_bytes big head = wire big 2 head.msglen ++ wire big 4 head.msgid

pub head-Appends :
    (h : Host) (big : Bool) (head : MessageHead)
    → Appends big
        (write_scalar h unsigned_short head.msglen >> write_scalar h unsigned_int head.msgid)
        (head_bytes big head)
head-Appends h big head =
    Appends-then _ _ (write_scalar-Appends h unsigned_short big head.msglen)
      (write_scalar-Appends h unsigned_int big head.msgid)

pub decode_header-next :
    (g : Host) (head old : MessageHead) (rest : List ℕ) {b : IoBuffer}
    → IsHead head
    → IsValid b
    → pending b ≡ head_bytes b.biged head ++ rest
    → decode_header g old b ≡ ok (true, head) (fetched (length (head_bytes b.biged head)) b)
unfolding decode_header
decode_header-next g head old rest {b} f v e =
    let p = wire b.biged 2 head.msglen in
    let q = wire b.biged 4 head.msgid in
    let next = e ∙ append_assoc p q rest in
    let (v', e') = pending-taken p (q ++ rest) v next in
    rw
      (
        (read_scalar-Takes g unsigned_short b.biged head.msglen f.msglen_lt).at b (q ++ rest) v refl
            next,
        (read_scalar-Takes g unsigned_int b.biged head.msgid f.msgid_lt).at (fetched (length p) b)
            rest v' refl e',
      )
      (ap (λ k. ok (true, head) (record b { read = k })) (omega (arith, length-append p q)))

-- A head whose numbers fit their types, written to a valid buffer with nothing to read and room
-- for its bytes, is read back, between any two machines and over any old head.
pub head_round_trip :
    (h g : Host) (head old : MessageHead) {b : IoBuffer}
    → IsHead head
    → IsReady (head_bytes b.biged head) b
    → (encode_header h head >>= λ done. decode_header g old) b
      ≡ ok (true, head) (passed (head_bytes b.biged head) b)
unfolding encode_header
head_round_trip h g head old {b} f r =
    let p = head_bytes b.biged head in
    rw ((head-Appends h b.biged head).fits b r.valid refl r.enough) (
      decode_header-next g head old [] f (stored-IsValid r.valid p r.enough)
        (pending-stored r.valid p r.enough ∙ ap (λ l. l ++ p) r.empty ∙ sym (append-nil p)))

-- On a valid buffer `decode_header` takes 6 bytes and holds where there are 6. With fewer it
-- fails; it takes the first two, if there are two, and they stay in the head.
pub decode_header_lem :
    (h : Host) (old : MessageHead) {b : IoBuffer}
    → IsValid b
    → decode_header h old b ≡ (
        let len = scalar_of h b.biged (take 2 (pending b)) in
        let id = scalar_of h b.biged (take 4 (pending (fetched 2 b))) in
        if leb 6 (length (pending b))
        then ok (true, record { msglen = len; msgid = id }) (fetched 6 b)
        else if leb 2 (length (pending b))
        then ok (false, record old { msglen = len }) (fetched 2 b)
        else ok (false, old) b)
unfolding decode_header
decode_header_lem h old {b} v = elim (Bool-cases (leb 2 (length (pending b)))) [
  | inr less ↦
      rw
        (
          read_scalar_lem v h unsigned_short,
          less,
          lt→leb 6 (length (pending b)) (omega (arith, leb→lt _ _ less)),
        )
        refl
  | inl two ↦
      let within : 2 ≤ length (pending b) = leb→le _ _ two in
      let v' = fetched-IsValid v 2 within in
      let whole : MessageHead = record {
        msglen = scalar_of h b.biged (take 2 (pending b));
        msgid = scalar_of h b.biged (take 4 (pending (fetched 2 b)));
      } in
      let left : length (pending (fetched 2 b)) ≡ length (pending b) - 2 =
        ap (length {A = ℕ}) (pending-fetched v 2 within) ∙ length-drop 2 (pending b) in
      rw (read_scalar_lem v h unsigned_short, two, read_scalar_lem v' h unsigned_int)
        (elim (Bool-cases (leb 6 (length (pending b)))) [
          | inl six ↦
              rw (six, le→leb 4 (length (pending (fetched 2 b))) (omega (arith, leb→le _ _ six)))
                (ap (λ k. ok (true, whole) (record b { read = k })) (omega arith))
          | inr fewer ↦
              rw
                (fewer, lt→leb 4 (length (pending (fetched 2 b))) (omega (arith, leb→lt _ _ fewer)))
                refl
        ])
]
