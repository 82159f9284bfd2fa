-- ===== src/Message/Link.antt =====
-- What a client sends, a server at the other end of the connection tells its user.
use mathlib.Core.List.{map}
use xhnet.Common.{
  ℕ, ◌+◌, ◌-◌, ◌^◌, ◌<◌, ◌≡◌, refl, sym, ap, ◌∙◌, true, false, Option, some, List, [], ◌∷◌, ◌++◌,
  arith, length, append-nil, append_assoc, All,
}
use xhnet.IoBuffer.{IoBuffer, length_write}
use xhnet.IoBuffer.Queue.{IsValid, pending, stored, pending-stored, length-pending}
use xhnet.IoBuffer.Scalar.{Host}
use xhnet.Message.Head.{MessageHead}
use xhnet.Message.Head.Laws.{head_bytes}
use xhnet.Message.Packet.{send_length, new_iobuffer}
use xhnet.Message.Packet.Laws.{ample, fresh, fresh-IsValid, pack_lem}
use xhnet.Message.Reader.{and_then, going, concat, feed}
use xhnet.Message.Messages.{Message, IsMessage, frame, frames, filled, pending-filled}
use xhnet.Message.Client.{Client, Action, send_buffer, postin_send, async_send, is_ok}
use xhnet.Message.Server
use xhnet.Message.Server.{Server}
use xhnet.Message.Server.Stream.{reader, ready, tell, tell_all, feed-server}

-- What is given to `Send`.
pub record Sending : Type 0 where
  pub head : MessageHead
  pub buffer : IoBuffer

abbrev pub message_of : Sending → Message
message_of x = record { head = x.head; body = pending x.buffer }

-- The buffer is valid, the head is right, and the length of the packet is an `unsigned int`.
pub record IsSending (x : Sending) : Type 0 where
  pub valid : IsValid x.buffer
  pub message : IsMessage (message_of x)
  pub small : x.buffer.write + 6 < 2 ^ 32

-- The bytes that have been given to `Async_Send`.
abbrev pub sent_of : Action → List ℕ
sent_of (send_buffer b) = pending b
sent_of _ = []

abbrev pub sent_bytes : List Action → List ℕ
sent_bytes [] = []
sent_bytes (a ∷ l) = sent_of a ++ sent_bytes l

sent_bytes-append : (l k : List Action) → sent_bytes (l ++ k) ≡ sent_bytes l ++ sent_bytes k
sent_bytes-append [] k = refl
sent_bytes-append (a ∷ l) k =
    ap (λ t. sent_of a ++ t) (sent_bytes-append l k)
    ∙ sym (append_assoc (sent_of a) (sent_bytes l) (sent_bytes k))

All-messages : (xs : List Sending) → All IsSending xs → All IsMessage (map message_of xs)
All-messages [] f = tt
All-messages (x ∷ xs) f = (f.0.message, All-messages xs f.1)

send_length-lt : (b : IoBuffer) → send_length b < 2 ^ 32
unfolding send_length
send_length-lt b = omega arith

send_length_lem : {b : IoBuffer} → IsValid b → b.write + 6 < 2 ^ 32 → send_length b ≡ b.write + 6
unfolding send_length length_write
send_length_lem v small = omega arith

short : (m : Message) → IsMessage m → length m.body < 2 ^ 32
short m f = omega (arith, f.msglen, f.is_head.msglen_lt)

-- The messages that a server has told its user of.
abbrev pub told_of : Server.Action → List Message
told_of (Server.told_message head b) = record { head = head; body = pending b } ∷ []
told_of _ = []

abbrev pub told_messages : List Server.Action → List Message
told_messages [] = []
told_messages (a ∷ l) = told_of a ++ told_messages l

told_messages-append :
    (l k : List Server.Action) → told_messages (l ++ k) ≡ told_messages l ++ told_messages k
told_messages-append [] k = refl
told_messages-append (a ∷ l) k =
    ap (λ t. told_of a ++ t) (told_messages-append l k)
    ∙ sym (append_assoc (told_of a) (told_messages l) (told_messages k))

told_messages-tell_all :
    (g : Host) (mem : ℕ → List ℕ) (tag : ℕ) (ms : List Message) (s : Server)
    → ((n : ℕ) → length (mem n) ≡ n)
    → All IsMessage ms
    → told_messages (tell_all g mem tag ms s).did ≡ told_messages s.did ++ ms
told_messages-tell_all g mem tag [] s long f = sym (append-nil (told_messages s.did))
told_messages-tell_all g mem tag (m ∷ ms) s long f =
    let a = Server.told_message m.head (filled mem tag m.body) in
    let same : told_messages (a ∷ []) ≡ m ∷ [] = λ i.
      record { head = m.head; body = pending-filled mem tag m.body long (short m f.0) i } ∷ [] in
    told_messages-tell_all g mem tag ms (tell g mem tag m s) long f.1
    ∙ ap (λ l. l ++ ms) (told_messages-append s.did (a ∷ []))
    ∙ append_assoc (told_messages s.did) (told_messages (a ∷ [])) ms
    ∙ ap (λ l. told_messages s.did ++ (l ++ ms)) same

module _ (h : Host) (mem : ℕ → List ℕ) (tag : ℕ) where
  -- The posted functions of accepted calls of `Send`.
  abbrev pub run_sends : List Sending → Client → Option Client
  run_sends [] c = some c
  run_sends (x ∷ xs) c = and_then (postin_send h (ample mem tag) x.head x.buffer c) (run_sends xs)

  abbrev pub packet : Sending → IoBuffer
  packet x =
      stored (head_bytes false x.head ++ pending x.buffer) (fresh mem tag (send_length x.buffer))

  abbrev pub sent_all : List Sending → Client → Client
  sent_all [] c = c
  sent_all (x ∷ xs) c =
      sent_all xs (record c { did = c.did ++ (send_buffer (packet x) ∷ []); holds = c.holds - 1 })

  module _ (long : (n : ℕ) → length (mem n) ≡ n) where
    postin_send_lem :
        (x : Sending) (c : Client)
        → IsSending x
        → is_ok c ≡ true
        → postin_send h (ample mem tag) x.head x.buffer c
          ≡ some (record c { did = c.did ++ (send_buffer (packet x) ∷ []); holds = c.holds - 1 })
    unfolding postin_send async_send is_ok new_iobuffer
    postin_send_lem x c f ok =
        let n = send_length x.buffer in
        let v = fresh-IsValid mem tag n (long n) (send_length-lt x.buffer) in
        rw (ok, pack_lem h x.head f.valid f.small v refl (omega (arith, long n))) refl

    run_sends_lem :
        (xs : List Sending) (c : Client)
        → All IsSending xs
        → is_ok c ≡ true
        → run_sends xs c ≡ some (sent_all xs c)
    unfolding is_ok
    run_sends_lem [] c f ok = refl
    run_sends_lem (x ∷ xs) c f ok = rw (postin_send_lem x c f.0 ok) (
        run_sends_lem xs
          (record c { did = c.did ++ (send_buffer (packet x) ∷ []); holds = c.holds - 1 }) f.1 ok)

    pending-packet : (x : Sending) → IsSending x → pending (packet x) ≡ frame (message_of x)
    pending-packet x f =
        let n = send_length x.buffer in
        let v = fresh-IsValid mem tag n (long n) (send_length-lt x.buffer) in
        pending-stored v (frame (message_of x))
          (omega (arith, long n, send_length_lem f.valid f.small, length-pending f.valid))

    sent_bytes-sent_all :
        (xs : List Sending) (c : Client)
        → All IsSending xs
        → sent_bytes (sent_all xs c).did ≡ sent_bytes c.did ++ frames (map message_of xs)
    sent_bytes-sent_all [] c f = sym (append-nil (sent_bytes c.did))
    sent_bytes-sent_all (x ∷ xs) c f =
        let a = send_buffer (packet x) in
        let rest = frames (map message_of xs) in
        sent_bytes-sent_all xs (record c { did = c.did ++ (a ∷ []); holds = c.holds - 1 }) f.1
        ∙ ap (λ l. l ++ rest) (sent_bytes-append c.did (a ∷ []))
        ∙ append_assoc (sent_bytes c.did) (pending (packet x) ++ []) rest
        ∙ ap (λ l. sent_bytes c.did ++ (l ++ rest))
            (append-nil (pending (packet x)) ∙ pending-packet x f.0)

-- Where the pools of both ends never run out: when the posted functions of `Send` run at a
-- connected client that has sent nothing yet, with valid buffers whose bodies are not empty and
-- whose heads are right, and the bytes that it gives to `Async_Send` arrive, in pieces of any
-- sizes, at a server that is told of its connection and has no buffer waiting, neither end fails,
-- and the server tells its user of these messages, whole and in their order.
pub delivered :
    (h g : Host) (mem mem' : ℕ → List ℕ) (tag tag' : ℕ) (xs : List Sending) (pieces : List (List ℕ))
    (c : Client) (s : Server)
    → ((n : ℕ) → length (mem n) ≡ n)
    → ((n : ℕ) → length (mem' n) ≡ n)
    → All IsSending xs
    → is_ok c ≡ true
    → sent_bytes c.did ≡ []
    → concat pieces ≡ sent_bytes (sent_all h mem tag xs c).did
    → s.busing ≡ true
    → s.wait_recv ≡ []
    → let s' = record s { did = s.did ++ (Server.told_connect ∷ []) } in
      (run_sends h mem tag xs c ≡ some (sent_all h mem tag xs c))
      × (feed (reader g (ample mem' tag')) pieces (Server.on_connect (ample mem' tag') false s)
          ≡ going (ready g mem' tag' (tell_all g mem' tag' (map message_of xs) s')))
      × (told_messages (tell_all g mem' tag' (map message_of xs) s').did
          ≡ told_messages s.did ++ map message_of xs)
delivered h g mem mem' tag tag' xs pieces c s long long' f ok none_sent e busy none_wait = (
  run_sends_lem h mem tag long xs c f ok,
  feed-server g mem' tag' long' (map message_of xs) pieces s (All-messages xs f)
      (e
        ∙ sent_bytes-sent_all h mem tag long xs c f
        ∙ ap (λ l. l ++ frames (map message_of xs)) none_sent)
      busy none_wait,
  told_messages-tell_all g mem' tag' (map message_of xs)
        (record s { did = s.did ++ (Server.told_connect ∷ []) }) long' (All-messages xs f)
      ∙ ap (λ l. l ++ map message_of xs)
          (told_messages-append s.did (Server.told_connect ∷ [])
            ∙ append-nil (told_messages s.did)),
)
