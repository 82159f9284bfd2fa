-- ===== src/Message/Client/Stream.antt =====
-- A client takes the messages out of the bytes that arrive.
use xhnet.Common.{
  ℕ, ◌≡◌, refl, ap, ◌∙◌, true, false, some, List, [], ◌∷◌, ◌++◌, arith, length, append_assoc, All,
}
use xhnet.IoBuffer.Scalar.{Host}
use xhnet.Message.Head.{MessageHead}
use xhnet.Message.Head.Laws.{IsHead, head_bytes}
use xhnet.Message.Packet.{Pools, new_iobuffer}
use xhnet.Message.Packet.Laws.{ample, fresh}
use xhnet.Message.Reader.{Reader, going, on_success, concat, feed}
use xhnet.Message.Reader.Laws.{each_byte, feed-each_byte}
use xhnet.Message.Messages.{
  Message, IsMessage, frame, frames, filled, each_byte-whole, decode_header-filled,
}
use xhnet.Message.Client.{
  Client, scs_conneted, told_connect, told_message, is_ok, async_recv, on_recv, on_connect,
}

-- The client as the reader of its connection, with the pools that it has.
abbrev pub reader : Host → Pools → Reader Client
reader h pools = record {
  wait = λ c. c.wait_recv;
  set_wait = λ l c. record c { wait_recv = l };
  on_recv = on_recv h pools false;
  wait-set_wait = λ l c. refl;
  set_wait-set_wait = λ l m c. refl;
}

module _ (h : Host) (mem : ℕ → List ℕ) (tag : ℕ) where
  -- Connected, and with a buffer for a head.
  abbrev pub ready : Client → Client
  ready c = record c {
    status = scs_conneted;
    busing = true;
    brecvhead = true;
    wait_recv = fresh mem tag 6 ∷ [];
  }

  -- The user has been told of the messages, and the head of the last of them is there.
  abbrev pub tell : Message → Client → Client
  tell m c = record c {
    recvhead = m.head;
    did = c.did ++ (told_message m.head (filled mem tag m.body) ∷ []);
  }

  abbrev pub tell_all : List Message → Client → Client
  tell_all [] c = c
  tell_all (m ∷ ms) c = tell_all ms (tell m c)

  module _ (long : (n : ℕ) → length (mem n) ≡ n) where
    -- The head has arrived, and the client waits for the body.
    on_recv-head :
        (head : MessageHead) (c : Client)
        → IsHead head
        → on_recv h
            (ample mem tag)
            false
            (filled mem tag (head_bytes false head))
            (record (ready c) { wait_recv = [] })
          ≡ some (record (ready c) {
            recvhead = head;
            brecvhead = false;
            wait_recv = fresh mem tag head.msglen ∷ [];
          })
    unfolding on_recv async_recv is_ok new_iobuffer
    on_recv-head head c f = rw (decode_header-filled h mem tag c.recvhead head long f) refl

    each_byte-frame :
        (m : Message) (rest : List ℕ) (c : Client)
        → IsMessage m
        → each_byte (reader h (ample mem tag)) (frame m ++ rest) (ready c)
          ≡ each_byte (reader h (ample mem tag)) rest (ready (tell m c))
    unfolding on_recv async_recv is_ok new_iobuffer
    each_byte-frame m rest c f =
        let r = reader h (ample mem tag) in
        let p = head_bytes false m.head in
        ap (λ l. each_byte r l (ready c)) (append_assoc p m.body rest)
        ∙ each_byte-whole r p (m.body ++ rest) (fresh mem tag 6) [] (ready c) refl
            (omega (arith, long 6)) (omega arith)
        ∙ ap (λ o. on_success o (each_byte r (m.body ++ rest)))
            (on_recv-head m.head c f.is_head
              ∙ ap
                  (λ n. some (record (ready c) {
                    recvhead = m.head;
                    brecvhead = false;
                    wait_recv = fresh mem tag n ∷ [];
                  }))
                  f.msglen)
        ∙ each_byte-whole r m.body rest (fresh mem tag (length m.body)) []
            (record (ready c) {
              recvhead = m.head;
              brecvhead = false;
              wait_recv = fresh mem tag (length m.body) ∷ [];
            })
            refl (omega (arith, long (length m.body))) f.some_body

    each_byte-frames :
        (ms : List Message) (c : Client)
        → All IsMessage ms
        → each_byte (reader h (ample mem tag)) (frames ms) (ready c) ≡ going (ready (tell_all ms c))
    unfolding each_byte
    each_byte-frames [] c f = refl
    each_byte-frames (m ∷ ms) c f =
        each_byte-frame m (frames ms) c f.0 ∙ each_byte-frames ms (tell m c) f.1

    on_connect-ready :
        (c : Client)
        → c.busing ≡ true
        → c.wait_recv ≡ []
        → on_connect (ample mem tag) false c
          ≡ ready (record c { did = c.did ++ (told_connect ∷ []) })
    unfolding on_connect async_recv is_ok new_iobuffer
    on_connect-ready c busy e =
        ap (on_connect (ample mem tag) false) (λ i. record c { busing = busy i; wait_recv = e i })

    -- A client that waits to be connected and has no buffer waiting, with pools that never run out,
    -- is told of its connection; then the bytes of messages that are not empty, with heads that
    -- give their lengths, become a callback for each message, in their order, in whatever pieces
    -- they arrive, and the client waits for the next head.
    pub feed-client :
        (ms : List Message) (pieces : List (List ℕ)) (c : Client)
        → All IsMessage ms
        → concat pieces ≡ frames ms
        → c.busing ≡ true
        → c.wait_recv ≡ []
        → feed (reader h (ample mem tag)) pieces (on_connect (ample mem tag) false c)
          ≡ going (ready (tell_all ms (record c { did = c.did ++ (told_connect ∷ []) })))
    feed-client ms pieces c f e busy none_wait =
        let r = reader h (ample mem tag) in
        let c' = record c { did = c.did ++ (told_connect ∷ []) } in
        rw (on_connect-ready c busy none_wait) (
          feed-each_byte r pieces (ready c')
          ∙ ap (λ p. each_byte r p (ready c')) e
          ∙ each_byte-frames ms c' f)
