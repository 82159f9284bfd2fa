-- ===== src/Net/Tcp/Sound.antt =====
-- What holds of a socket at any time: the buffers that wait are those whose call has been accepted
-- and not answered, in their order, and it holds a reference to each.
use xhnet.Common.{
  ℕ, ◌+◌, Bool, true, false, ◌≡◌, refl, ◌∙◌, if◌then◌else◌, ◌⊎◌, inl, inr, List, [], ◌∷◌, count,
  count-append, arith, Option, none, some,
}
use xhnet.Net.Tcp.{Kind, Address, Event, asked_send, asked_recv, Socket, is_null, is_peer}
use xhnet.Net.Tcp.Tallies.{
  add, collect-none, collect-one, asked_send_of, answered_send_of, asked_recv_of, answered_recv_of,
  asked_sends, answered_sends, asked_recvs, answered_recvs, Tallies, Tallies-asked,
}
use xhnet.Net.Tcp.Calls.{
  Call, call_init, call_fini, call_listen, call_connect, call_send, call_recv, call_recv_some,
  use_buffer, User, run_call, run_calls, notify, init, fini, listen, connect, async_send,
  async_recv,
}

-- The buffers `now_send` and `now_recv` are those of a callback that is not over.
pub record IsSound (now_send now_recv : List ℕ) (s : Socket) : Type 0 where
  pub sends : Tallies now_send s.wait_send (answered_sends s.log) (asked_sends s.log)
  pub recvs : Tallies now_recv s.wait_recv (answered_recvs s.log) (asked_recvs s.log)
  pub held : (b : ℕ) → s.held b ≡ count b s.wait_send + count b s.wait_recv
  -- only a peer that is open has buffers that wait, and it has a callback
  pub waiting :
      ((s.wait_send ≡ []) × (s.wait_recv ≡ []))
      ⊎ ((is_null s.status ≡ false) × (is_peer s.kind ≡ true))
  pub called : is_peer s.kind ≡ true → s.has_cb ≡ true

-- What a socket says of an event that is no answer and no request.
abbrev pub IsNeutral : Event → Type 0
IsNeutral e =
    (asked_send_of e ≡ [])
    × (answered_send_of e ≡ [])
    × (asked_recv_of e ≡ [])
    × (answered_recv_of e ≡ [])

-- A change of fields that neither the queues nor the log depend on.
module _ {now_send now_recv : List ℕ} {s t : Socket} where
  pub IsSound-same :
      IsSound now_send now_recv s
      → t.wait_send ≡ s.wait_send
      → t.wait_recv ≡ s.wait_recv
      → t.log ≡ s.log
      → t.held ≡ s.held
      → ((is_null s.status ≡ false) × (is_peer s.kind ≡ true)
          → (is_null t.status ≡ false) × (is_peer t.kind ≡ true))
      → (is_peer t.kind ≡ true → t.has_cb ≡ true)
      → IsSound now_send now_recv t
  IsSound-same h ws wr l d w c = record {
    sends = rw (ws, l) h.sends;
    recvs = rw (wr, l) h.recvs;
    held = λ b. rw (ws, wr, d) (h.held b);
    waiting = elim h.waiting [ inl (e, e') ↦ inl (ws ∙ e, wr ∙ e') | inr o ↦ inr (w o) ];
    called = c;
  }

module _ {now_send now_recv : List ℕ} where
  guarded :
      {s t : Socket} (test : Bool)
      → IsSound now_send now_recv s
      → (test ≡ false → IsSound now_send now_recv t)
      → IsSound now_send now_recv (if◌then◌else◌ {A = Bool × Socket} test (false, s) (true, t)).1
  guarded true h k = h
  guarded false h k = k refl

  init-IsSound :
      (kind : Kind) (io is_server cb : Bool) (s : Socket)
      → IsSound now_send now_recv s
      → IsSound now_send now_recv (init kind io is_server cb s).1
  unfolding init
  init-IsSound kind io is_server cb s h =
      IsSound-same h (ground arith) (ground arith) (ground arith) (ground arith) (ground arith)
        (ground (arith, h.called))

  fini-IsSound : (s : Socket) → IsSound now_send now_recv s → IsSound now_send now_recv (fini s)
  unfolding fini
  fini-IsSound s h =
      IsSound-same h (ground arith) (ground arith) (ground arith) (ground arith) (ground arith)
        (ground (arith, h.called))

  listen-IsSound :
      (a : Address) (s : Socket)
      → IsSound now_send now_recv s
      → IsSound now_send now_recv (listen a s).1
  unfolding listen
  listen-IsSound a s h =
      IsSound-same h (ground arith) (ground arith) (ground arith) (ground arith) (ground arith)
        (ground (arith, h.called))

  connect-IsSound :
      (a : Address) (s : Socket)
      → IsSound now_send now_recv s
      → IsSound now_send now_recv (connect a s).1
  unfolding connect
  connect-IsSound a s h =
      IsSound-same h (ground arith) (ground arith) (ground arith) (ground arith) (ground arith)
        (ground (arith, h.called))

  send-IsSound :
      (b : Option ℕ) (s : Socket)
      → IsSound now_send now_recv s
      → IsSound now_send now_recv (async_send b s).1
  unfolding async_send
  send-IsSound none s h = h
  send-IsSound (some b) s h =
      let e = asked_send b in
      guarded _ h λ accepted. record {
        sends =
            rw
              (collect-none answered_send_of s.log e refl, collect-one asked_send_of s.log e b refl)
              (Tallies-asked b h.sends);
        recvs =
            rw (collect-none answered_recv_of s.log e refl, collect-none asked_recv_of s.log e refl)
              h.recvs;
        held = λ x. ground (arith, h.held x, h.held b, count-append x s.wait_send (b ∷ []));
        waiting = inr (ground arith);
        called = h.called;
      }

  recv-IsSound :
      (tag : ℕ) (b : Option ℕ) (s : Socket)
      → IsSound now_send now_recv s
      → IsSound now_send now_recv (async_recv tag b s).1
  unfolding async_recv
  recv-IsSound tag none s h = h
  recv-IsSound tag (some b) s h =
      let e = asked_recv b in
      guarded _ h λ accepted. record {
        sends =
            rw (collect-none answered_send_of s.log e refl, collect-none asked_send_of s.log e refl)
              h.sends;
        recvs =
            rw
              (collect-none answered_recv_of s.log e refl, collect-one asked_recv_of s.log e b refl)
              (Tallies-asked b h.recvs);
        held = λ x. ground (arith, h.held x, h.held b, count-append x s.wait_recv (b ∷ []));
        waiting = inr (ground arith);
        called = h.called;
      }

  pub run_call-IsSound :
      (c : Call) (s : Socket)
      → IsSound now_send now_recv s
      → IsSound now_send now_recv (run_call c s)
  unfolding run_call
  run_call-IsSound (call_init kind io is_server cb) s h = init-IsSound kind io is_server cb s h
  run_call-IsSound call_fini s h = fini-IsSound s h
  run_call-IsSound (call_listen a) s h = listen-IsSound a s h
  run_call-IsSound (call_connect a) s h = connect-IsSound a s h
  run_call-IsSound (call_send b) s h = send-IsSound b s h
  run_call-IsSound (call_recv b) s h = recv-IsSound 0 b s h
  run_call-IsSound (call_recv_some b) s h = recv-IsSound 1 b s h
  run_call-IsSound (use_buffer b unread unfilled) s h =
      IsSound-same h refl refl refl refl (λ o. o) h.called

  pub run_calls-IsSound :
      (cs : List Call) (s : Socket)
      → IsSound now_send now_recv s
      → IsSound now_send now_recv (run_calls cs s)
  unfolding run_calls
  run_calls-IsSound [] s h = h
  run_calls-IsSound (c ∷ cs) s h = run_calls-IsSound cs (run_call c s) (run_call-IsSound c s h)

  -- A callback that answers no buffer.
  pub notify-IsSound :
      (user : User) (e : Event) (s : Socket)
      → IsNeutral e
      → IsSound now_send now_recv s
      → IsSound now_send now_recv (notify user e s)
  unfolding notify
  notify-IsSound user e s (no_ask, ws, ar, wr) h =
      run_calls-IsSound (user (add s.log e)) (record s { log = add s.log e })
        (record {
          sends =
              rw
                (
                  collect-none answered_send_of s.log e ws,
                  collect-none asked_send_of s.log e no_ask,
                )
                h.sends;
          recvs =
              rw (collect-none answered_recv_of s.log e wr, collect-none asked_recv_of s.log e ar)
                h.recvs;
          held = h.held;
          waiting = h.waiting;
          called = h.called;
        })
