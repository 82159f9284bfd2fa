-- ===== src/Net/Tcp/Answer.antt =====
-- A callback that answers the first buffer of a queue, and the pop after it.
use xhnet.Common.{ℕ, ◌≡◌, refl, ap, inl, inr, List, [], ◌∷◌, count, arith}
use xhnet.Net.Tcp.{on_send, on_recv, Socket, TcpError, tail, pop_send, pop_recv}
use xhnet.Net.Tcp.Tallies.{
  add, collect-none, collect-one, asked_send_of, answered_send_of, asked_recv_of, answered_recv_of,
  Tallies-answered, Tallies-popped,
}
use xhnet.Net.Tcp.Calls.{User, run_calls, notify}
use xhnet.Net.Tcp.Sound.{IsSound, run_calls-IsSound}

pop_send-IsSound : (b : ℕ) (s : Socket) → IsSound (b ∷ []) [] s → IsSound [] [] (pop_send b s)
pop_send-IsSound b s h = record {
  sends = Tallies-popped b h.sends;
  recvs = h.recvs;
  held = λ x. ground (
    arith,
    h.held x,
    h.held b,
    ap (count x) h.sends.queued,
    ap (count b) h.sends.queued,
    ap (λ l. count x (tail l)) h.sends.queued,
  );
  waiting = elim h.waiting [ inl (e, e') ↦ inl (ap tail e, e') | inr o ↦ inr o ];
  called = h.called;
}

pub answer_send-IsSound :
    (user : User) (err : TcpError) (b : ℕ) (bs : List ℕ) (s : Socket)
    → s.wait_send ≡ b ∷ bs
    → IsSound [] [] s
    → IsSound [] [] (pop_send b (notify user (on_send err b) s))
unfolding notify
answer_send-IsSound user err b bs s e h =
    let now = record s { log = add s.log (on_send err b) } in
    let t = run_calls (user now.log) now in
    pop_send-IsSound b t (
      run_calls-IsSound {now_send = b ∷ []} {now_recv = []} (user now.log) now (record {
        sends =
            rw
              (
                collect-one answered_send_of s.log (on_send err b) b refl,
                collect-none asked_send_of s.log (on_send err b) refl,
              )
              (Tallies-answered b bs e h.sends);
        recvs =
            rw
              (
                collect-none answered_recv_of s.log (on_send err b) refl,
                collect-none asked_recv_of s.log (on_send err b) refl,
              )
              h.recvs;
        held = h.held;
        waiting = h.waiting;
        called = h.called;
      }))

pop_recv-IsSound : (b : ℕ) (s : Socket) → IsSound [] (b ∷ []) s → IsSound [] [] (pop_recv b s)
pop_recv-IsSound b s h = record {
  recvs = Tallies-popped b h.recvs;
  sends = h.sends;
  held = λ x. ground (
    arith,
    h.held x,
    h.held b,
    ap (count x) h.recvs.queued,
    ap (count b) h.recvs.queued,
    ap (λ l. count x (tail l)) h.recvs.queued,
  );
  waiting = elim h.waiting [ inl (e, e') ↦ inl (e, ap tail e') | inr o ↦ inr o ];
  called = h.called;
}

pub answer_recv-IsSound :
    (user : User) (err : TcpError) (b : ℕ) (bs : List ℕ) (s : Socket)
    → s.wait_recv ≡ b ∷ bs
    → IsSound [] [] s
    → IsSound [] [] (pop_recv b (notify user (on_recv err b) s))
unfolding notify
answer_recv-IsSound user err b bs s e h =
    let now = record s { log = add s.log (on_recv err b) } in
    let t = run_calls (user now.log) now in
    pop_recv-IsSound b t (
      run_calls-IsSound {now_send = []} {now_recv = b ∷ []} (user now.log) now (record {
        recvs =
            rw
              (
                collect-one answered_recv_of s.log (on_recv err b) b refl,
                collect-none asked_recv_of s.log (on_recv err b) refl,
              )
              (Tallies-answered b bs e h.recvs);
        sends =
            rw
              (
                collect-none answered_send_of s.log (on_recv err b) refl,
                collect-none asked_send_of s.log (on_recv err b) refl,
              )
              h.sends;
        held = h.held;
        waiting = h.waiting;
        called = h.called;
      }))
