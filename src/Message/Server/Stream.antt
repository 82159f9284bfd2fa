-- ===== src/Message/Server/Stream.antt =====
-- A server takes the messages out of the bytes that arrive.
use xhnet.Common.{
  ℕ, ◌≡◌, refl, ap, ◌∙◌, true, false, some, List, [], ◌∷◌, ◌++◌, arith, length, append_assoc, All,
}
use xhnet.IoBuffer.Scalar.{Host}
use xhnet.Message.Head.{MessageHead}
use xhnet.Message.Head.Laws.{IsHead, head_bytes}
use xhnet.Message.Packet.{Pools, new_iobuffer}
use xhnet.Message.Packet.Laws.{ample, fresh}
use xhnet.Message.Reader.{Reader, going, closed_by_peer, on_success, concat, feed}
use xhnet.Message.Reader.Laws.{each_byte, feed-each_byte}
use xhnet.Message.Messages.{
  Message, IsMessage, frame, frames, filled, each_byte-whole, decode_header-filled,
}
use xhnet.Message.Server.{
  Server, sss_established, told_connect, told_message, is_ok, async_recv, on_recv, on_connect,
}

-- The server as the reader of its connection, with the pools that it has.
abbrev pub reader : Host → Pools → Reader Server
reader h pools = record {
  wait = λ s. s.wait_recv;
  set_wait = λ l s. record s { wait_recv = l };
  on_recv = on_recv h pools false;
  wait-set_wait = λ l s. refl;
  set_wait-set_wait = λ l m s. refl;
}

module _ (h : Host) (mem : ℕ → List ℕ) (tag : ℕ) where
  -- Connected, and with a buffer for a head.
  abbrev pub ready : Server → Server
  ready s = record s {
    status = sss_established;
    busing = true;
    brecvhead = true;
    wait_recv = fresh mem tag 6 ∷ [];
  }

  -- The user has been told of the messages, and the head of the last of them is there.
  abbrev pub tell : Message → Server → Server
  tell m s = record s {
    recvhead = m.head;
    did = s.did ++ (told_message m.head (filled mem tag m.body) ∷ []);
  }

  abbrev pub tell_all : List Message → Server → Server
  tell_all [] s = s
  tell_all (m ∷ ms) s = tell_all ms (tell m s)

  module _ (long : (n : ℕ) → length (mem n) ≡ n) where
    -- The head has arrived, and the server waits for the body.
    on_recv-head :
        (head : MessageHead) (s : Server)
        → IsHead head
        → on_recv h
            (ample mem tag)
            false
            (filled mem tag (head_bytes false head))
            (record (ready s) { wait_recv = [] })
          ≡ some (record (ready s) {
            recvhead = head;
            brecvhead = false;
            wait_recv = fresh mem tag head.msglen ∷ [];
          })
    unfolding on_recv async_recv is_ok new_iobuffer
    on_recv-head head s f = rw (decode_header-filled h mem tag s.recvhead head long f) refl

    each_byte-frame :
        (m : Message) (rest : List ℕ) (s : Server)
        → IsMessage m
        → each_byte (reader h (ample mem tag)) (frame m ++ rest) (ready s)
          ≡ each_byte (reader h (ample mem tag)) rest (ready (tell m s))
    unfolding on_recv async_recv is_ok new_iobuffer
    each_byte-frame m rest s f =
        let r = reader h (ample mem tag) in
        let p = head_bytes false m.head in
        ap (λ l. each_byte r l (ready s)) (append_assoc p m.body rest)
        ∙ each_byte-whole r p (m.body ++ rest) (fresh mem tag 6) [] (ready s) refl
            (omega (arith, long 6)) (omega arith)
        ∙ ap (λ o. on_success o (each_byte r (m.body ++ rest)))
            (on_recv-head m.head s f.is_head
              ∙ ap
                  (λ n. some (record (ready s) {
                    recvhead = m.head;
                    brecvhead = false;
                    wait_recv = fresh mem tag n ∷ [];
                  }))
                  f.msglen)
        ∙ each_byte-whole r m.body rest (fresh mem tag (length m.body)) []
            (record (ready s) {
              recvhead = m.head;
              brecvhead = false;
              wait_recv = fresh mem tag (length m.body) ∷ [];
            })
            refl (omega (arith, long (length m.body))) f.some_body

    each_byte-frames :
        (ms : List Message) (s : Server)
        → All IsMessage ms
        → each_byte (reader h (ample mem tag)) (frames ms) (ready s) ≡ going (ready (tell_all ms s))
    unfolding each_byte
    each_byte-frames [] s f = refl
    each_byte-frames (m ∷ ms) s f =
        each_byte-frame m (frames ms) s f.0 ∙ each_byte-frames ms (tell m s) f.1

    on_connect-ready :
        (s : Server)
        → s.busing ≡ true
        → s.wait_recv ≡ []
        → on_connect (ample mem tag) false s
          ≡ ready (record s { did = s.did ++ (told_connect ∷ []) })
    unfolding on_connect async_recv is_ok new_iobuffer
    on_connect-ready s busy e =
        ap (on_connect (ample mem tag) false) (λ i. record s { busing = busy i; wait_recv = e i })

    -- The bytes of messages become a callback for each, in their order.
    pub feed-server :
        (ms : List Message) (pieces : List (List ℕ)) (s : Server)
        → All IsMessage ms
        → concat pieces ≡ frames ms
        → s.busing ≡ true
        → s.wait_recv ≡ []
        → feed (reader h (ample mem tag)) pieces (on_connect (ample mem tag) false s)
          ≡ going (ready (tell_all ms (record s { did = s.did ++ (told_connect ∷ []) })))
    feed-server ms pieces s f e busy none_wait =
        let r = reader h (ample mem tag) in
        let s' = record s { did = s.did ++ (told_connect ∷ []) } in
        rw (on_connect-ready s busy none_wait) (
          feed-each_byte r pieces (ready s')
          ∙ ap (λ p. each_byte r p (ready s')) e
          ∙ each_byte-frames ms s' f)

    -- When a server that has no buffer waiting, with pools that never run out, is told of its
    -- connection, and a head with the length 0 arrives and at least one byte after it, in whatever
    -- pieces, the socket takes the connection for closed by the peer: the server has got the head,
    -- waits for a body in a buffer without room, and has told its user of no message.
    pub feed-empty_message :
        (head : MessageHead) (x : ℕ) (rest : List ℕ) (pieces : List (List ℕ)) (s : Server)
        → IsHead head
        → head.msglen ≡ 0
        → concat pieces ≡ head_bytes false head ++ (x ∷ rest)
        → s.busing ≡ true
        → s.wait_recv ≡ []
        → feed (reader h (ample mem tag)) pieces (on_connect (ample mem tag) false s)
          ≡ closed_by_peer (record s {
            status = sss_established;
            busing = true;
            recvhead = head;
            brecvhead = false;
            wait_recv = fresh mem tag 0 ∷ [];
            did = s.did ++ (told_connect ∷ []);
          })
    unfolding each_byte
    feed-empty_message head x rest pieces s f n e busy none_wait =
        let r = reader h (ample mem tag) in
        let s' = record s { did = s.did ++ (told_connect ∷ []) } in
        rw (on_connect-ready s busy none_wait) (
          feed-each_byte r pieces (ready s')
          ∙ ap (λ p. each_byte r p (ready s')) e
          ∙ each_byte-whole r (head_bytes false head) (x ∷ rest) (fresh mem tag 6) [] (ready s')
              refl (omega (arith, long 6)) (omega arith)
          ∙ ap (λ o. on_success o (each_byte r (x ∷ rest))) (on_recv-head head s' f)
          ∙ rw (n, long 0) refl)
