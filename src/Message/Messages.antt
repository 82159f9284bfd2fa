-- ===== src/Message/Messages.antt =====
-- Messages on the wire: each is its head and then its body.
use xhnet.Common.{
  ℕ, ◌^◌, ◌≤◌, ◌<◌, ◌≡◌, refl, ◌∙◌, true, false, List, [], ◌∷◌, ◌++◌, arith, length, ==_refl,
}
use xhnet.IoBuffer.{IoBuffer, ok}
use xhnet.IoBuffer.Queue.{pending, room, stored, fetched, stored-IsValid, pending-stored}
use xhnet.IoBuffer.Scalar.{Host}
use xhnet.Message.Head.{MessageHead, decode_header}
use xhnet.Message.Head.Laws.{IsHead, head_bytes, decode_header-next}
use xhnet.Message.Packet.Laws.{fresh, fresh-IsValid}
use xhnet.Message.Reader.{Reader, on_success}
use xhnet.Message.Reader.Laws.{each_byte, receive-each_byte}

pub record Message : Type 0 where
  pub head : MessageHead
  pub body : List ℕ

-- The head says how long the body is, and the body is not empty.
pub record IsMessage (m : Message) : Type 0 where
  pub is_head : IsHead m.head
  pub msglen : m.head.msglen ≡ length m.body
  pub some_body : 0 < length m.body

abbrev pub frame : Message → List ℕ
frame m = head_bytes false m.head ++ m.body

abbrev pub frames : List Message → List ℕ
frames [] = []
frames (m ∷ ms) = frame m ++ frames ms

abbrev pub last_head : MessageHead → List Message → MessageHead
last_head head [] = head
last_head head (m ∷ ms) = last_head m.head ms

-- A new buffer of the length of `p` that has been filled with `p`.
abbrev pub filled : (ℕ → List ℕ) → ℕ → List ℕ → IoBuffer
filled mem tag p = stored p (fresh mem tag (length p))

-- The whole of the first buffer arrives.
pub each_byte-whole {ℓ} :
    {S : Type ℓ} (r : Reader S) (p rest : List ℕ) (b : IoBuffer) (bs : List IoBuffer) (s : S)
    → r.wait s ≡ b ∷ bs
    → room b ≡ length p
    → 0 < length p
    → each_byte r (p ++ rest) s
      ≡ on_success (r.on_recv (stored p b) (r.set_wait bs s)) (each_byte r rest)
each_byte-whole r [] rest b bs s e whole h = absurd (omega arith)
each_byte-whole r (x ∷ p) rest b bs s e whole h =
    receive-each_byte r x p rest b bs s e (omega (arith, whole))
    ∙ rw (whole, ==_refl (length (x ∷ p))) refl

-- A buffer that holds a head is read.
pub decode_header-filled :
    (h : Host) (mem : ℕ → List ℕ) (tag : ℕ) (old head : MessageHead)
    → ((n : ℕ) → length (mem n) ≡ n)
    → IsHead head
    → decode_header h old (filled mem tag (head_bytes false head))
      ≡ ok (true, head) (fetched 6 (filled mem tag (head_bytes false head)))
decode_header-filled h mem tag old head long f =
    let p = head_bytes false head in
    let v = fresh-IsValid mem tag 6 (long 6) (omega arith) in
    let enough : length p ≤ room (fresh mem tag 6) = omega (arith, long 6) in
    decode_header-next h head old [] f (stored-IsValid v p enough) (pending-stored v p enough)

pub pending-filled :
    (mem : ℕ → List ℕ) (tag : ℕ) (p : List ℕ)
    → ((n : ℕ) → length (mem n) ≡ n)
    → length p < 2 ^ 32
    → pending (filled mem tag p) ≡ p
pending-filled mem tag p long small =
    pending-stored (fresh-IsValid mem tag (length p) (long (length p)) small) p
      (omega (arith, long (length p)))
