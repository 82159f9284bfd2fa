-- ===== src/Net/Tcp/Quiet.antt =====
-- A socket whose status is null refuses what the user asks of it in a callback.
use xhnet.Common.{true, ◌≡◌, refl, sym, ◌∙◌, ap, subst, none, some, List, [], ◌∷◌, ◌++◌, arith}
use xhnet.Net.Tcp.{status_null, Event, Socket}
use xhnet.Net.Tcp.Calls.{
  Call, call_init, call_fini, call_listen, call_connect, call_send, call_recv, call_recv_some,
  use_buffer, User, run_call, run_calls, notify, init, fini, listen, connect, async_send,
  async_recv,
}

-- What a callback leaves as it was: all but the buffers and what waits in the server's queue.
abbrev pub as_before : Socket → Socket → Socket
as_before s t = record s { buffers = t.buffers; posted = t.posted }

pub record IsRefusing (s : Socket) : Type 0 where
  pub is_null : s.status ≡ status_null
  pub has_cb : s.has_cb ≡ true

run_call-as_before :
    (c : Call) (s : Socket) → IsRefusing s → run_call c s ≡ as_before s (run_call c s)
unfolding run_call init fini listen connect async_send async_recv
run_call-as_before (call_init kind io is_server cb) s h = ground arith
run_call-as_before call_fini s h = ground arith
run_call-as_before (call_listen address) s h = ground arith
run_call-as_before (call_connect address) s h = ground arith
run_call-as_before (call_send none) s h = refl
run_call-as_before (call_send (some b)) s h = ground arith
run_call-as_before (call_recv none) s h = refl
run_call-as_before (call_recv (some b)) s h = ground arith
run_call-as_before (call_recv_some none) s h = refl
run_call-as_before (call_recv_some (some b)) s h = ground arith
run_call-as_before (use_buffer b unread unfilled) s h = refl

pub as_before-IsRefusing : (s t : Socket) → t ≡ as_before s t → IsRefusing s → IsRefusing t
as_before-IsRefusing s t e h =
    subst IsRefusing (sym e) (record { is_null = h.is_null; has_cb = h.has_cb })

run_calls-as_before :
    (cs : List Call) (s : Socket) → IsRefusing s → run_calls cs s ≡ as_before s (run_calls cs s)
unfolding run_calls
run_calls-as_before [] s h = refl
run_calls-as_before (c ∷ cs) s h =
    let t = run_call c s in
    let first = run_call-as_before c s h in
    run_calls-as_before cs t (as_before-IsRefusing s t first h)
    ∙ ap (λ x. as_before x (run_calls cs t)) first

-- The callback is all that such a socket adds to what has happened.
pub notify-refusing :
    (user : User) (e : Event) (s : Socket)
    → IsRefusing s
    → notify user e s ≡ as_before (record s { log = s.log ++ (e ∷ []) }) (notify user e s)
unfolding notify
notify-refusing user e s h =
    let t = record s { log = s.log ++ (e ∷ []) } in
    run_calls-as_before (user t.log) t (record { is_null = h.is_null; has_cb = h.has_cb })
