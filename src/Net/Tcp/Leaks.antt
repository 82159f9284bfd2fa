-- ===== src/Net/Tcp/Leaks.antt =====
-- Sockets of the platform that are never closed.
use xhnet.Common.{
  ℕ, Bool, true, false, ◌≡◌, refl, sym, ap, subst, ◌∙◌, if◌then◌else◌, Option, none, some, List, [],
  ◌∷◌, ◌++◌, arith,
}
use xhnet.Net.Tcp.{
  Address, Buffer, Socket, new_socket, type_null, type_accepter, type_connecter, status_null,
  status_connect, post_connect,
}
use xhnet.Net.Tcp.Calls.{
  User, notify_peer, Call, call_init, call_fini, call_listen, call_connect, call_send, call_recv,
  call_recv_some, use_buffer, run_call, init, fini, listen, connect, async_send, async_recv,
}
use xhnet.Net.Tcp.Close.{on_inter_close}
use xhnet.Net.Tcp.Data.{on_inter_send}
use xhnet.Net.Tcp.Open.{
  ListenResult, ConnectResult, connects, real_fini, real_connect, start_peer,
  on_inter_accept_accept,
}
use xhnet.Net.Tcp.Steps.{
  Step, call, run, acceptable, accepted, readable, writable, run_next, step, steps,
}

-- A socket that is finished, and yet has a socket of the platform and stands with the server.
record IsLost (fd : ℕ) (s : Socket) : Type 0 where
  has_handle : s.handle ≡ some fd
  is_registered : s.registered ≡ true
  no_kind : s.kind ≡ type_null
  finished : s.binit ≡ false
  bound : s.has_io ≡ true
  no_read : s.read_event ≡ false
  no_write : s.write_event ≡ false
  nothing_posted : s.posted ≡ []

run_call-IsLost : (fd : ℕ) (c : Call) (s : Socket) → IsLost fd s → IsLost fd (run_call c s)
unfolding run_call init fini listen connect async_send async_recv
run_call-IsLost fd (call_init kind io is_server cb) s h = ground arith
run_call-IsLost fd call_fini s h = ground arith
run_call-IsLost fd (call_listen a) s h = ground arith
run_call-IsLost fd (call_connect a) s h = ground arith
run_call-IsLost fd (call_send none) s h = h
run_call-IsLost fd (call_send (some b)) s h = ground arith
run_call-IsLost fd (call_recv none) s h = h
run_call-IsLost fd (call_recv (some b)) s h = ground arith
run_call-IsLost fd (call_recv_some none) s h = h
run_call-IsLost fd (call_recv_some (some b)) s h = ground arith
run_call-IsLost fd (use_buffer b unread unfilled) s h = ground arith

no_event :
    (fd : ℕ) (test : Bool) {s : Socket} (t : Socket)
    → test ≡ false
    → IsLost fd s
    → IsLost fd (if test then t else s)
no_event fd test t e h = rw (e) h

step-IsLost :
    (user : User) (fd : ℕ) (x : Step) (s : Socket) → IsLost fd s → IsLost fd (step user x s)
unfolding step
step-IsLost user fd (call c) s h = run_call-IsLost fd c s h
step-IsLost user fd (run l c name) s h =
    subst (IsLost fd) (sym (ap (λ ps. run_next user l c name ps s) h.nothing_posted)) h
step-IsLost user fd (acceptable sock peer treat buffers) s h =
    no_event fd s.read_event _ h.no_read h
step-IsLost user fd (accepted sock peer) s h = ground arith
step-IsLost user fd (readable r) s h = no_event fd s.read_event _ h.no_read h
step-IsLost user fd (writable flag rs) s h = no_event fd s.write_event _ h.no_write h

steps-IsLost :
    (user : User) (fd : ℕ) (xs : List Step) (s : Socket) → IsLost fd s → IsLost fd (steps user xs s)
unfolding steps
steps-IsLost user fd [] s h = h
steps-IsLost user fd (x ∷ xs) s h =
    steps-IsLost user fd xs (step user x s) (step-IsLost user fd x s h)

-- In `On_Accept` the user calls `Init_Accepter` and then `Fini`. The server runs `real_fini` first
-- and `on_inter_accept_accept` after it, and the new connection can be written.
abbrev pub finished_in_on_accept :
    ℕ → Address → ListenResult → ConnectResult → Option Address → List Step
finished_in_on_accept fd peer l c name =
    call (call_init type_accepter true true true)
    ∷ call call_fini
    ∷ accepted fd peer
    ∷ run l c name
    ∷ run l c name
    ∷ writable true []
    ∷ []

finished-IsLost :
    (user : User) (fd : ℕ) (peer : Address) (l : ListenResult) (c : ConnectResult)
    (name : Option Address) (buffers : ℕ → Buffer)
    → IsLost fd (steps user (finished_in_on_accept fd peer l c name) (new_socket buffers))
unfolding steps step run_call init fini real_fini on_inter_close on_inter_accept_accept
    on_inter_send notify_peer
finished-IsLost user fd peer l c name buffers = record {
  has_handle = refl;
  is_registered = refl;
  no_kind = refl;
  finished = refl;
  bound = refl;
  no_read = refl;
  no_write = refl;
  nothing_posted = refl;
}

-- A socket whose user calls `Init_Accepter` and then `Fini` in `On_Accept`, and whose connection can
-- be written in time, keeps the socket of the platform open and stays with the server, whatever
-- happens afterwards.
pub finished_in_on_accept_lem :
    (user : User) (fd : ℕ) (peer : Address) (l : ListenResult) (c : ConnectResult)
    (name : Option Address) (buffers : ℕ → Buffer) (xs : List Step)
    → let s =
        steps user xs (steps user (finished_in_on_accept fd peer l c name) (new_socket buffers)) in
      (s.handle ≡ some fd) × (s.registered ≡ true)
finished_in_on_accept_lem user fd peer l c name buffers xs =
    let h = steps-IsLost user fd xs _ (finished-IsLost user fd peer l c name buffers) in
    (h.has_handle, h.is_registered)

connect_accepted :
    (a : Address) (s t : Socket)
    → s.status ≡ status_null
    → s.binit ≡ true
    → s.kind ≡ type_connecter
    → (s.posted ++ (post_connect a ∷ [])) ≡ t.posted
    → connect a s ≡ (true, record s { posted = t.posted })
unfolding connect
connect_accepted a s t st i k p = ground arith

real_connect-connects :
    (user : User) (s : Socket) (a : Address) (fd : ℕ) (name : Option Address)
    → s.binit ≡ true
    → real_connect user a (connects fd name) s
      ≡ start_peer fd name (record s { peer = a; status = status_connect })
unfolding real_connect
real_connect-connects user s a fd name i = ground arith

-- Both functions run.
run_twice :
    (user : User) (s : Socket) (a b : Address) (fd fd' : ℕ) (name name' : Option Address)
    (l : ListenResult)
    → s.binit ≡ true
    → s.posted ≡ post_connect a ∷ post_connect b ∷ []
    → let t =
        steps user (run l (connects fd name) name ∷ run l (connects fd' name') name' ∷ []) s in
      (t.handle ≡ some fd') × (t.closed ≡ s.closed)
unfolding steps step
run_twice user s a b fd fd' name name' l i p =
    let s1 = record s { posted = post_connect b ∷ [] } in
    let e1 =
      ap (λ ps. run_next user l (connects fd name) name ps s) p
      ∙ real_connect-connects user s1 a fd name i in
    let t1 = start_peer fd name (record s1 { peer = a; status = status_connect }) in
    let e =
      ap (λ t. run_next user l (connects fd' name') name' t.posted t) e1
      ∙ real_connect-connects user (record t1 { posted = [] }) b fd' name' i in
    (ap (λ t. t.handle) e, ap (λ t. t.closed) e)

-- For a connecter whose status is null, with nothing in the server's queue, two calls of `Connect`
-- in a row both return true. When both have run with success, the socket is that of the second call,
-- and that of the first has not been closed.
pub connect_twice :
    (user : User) (s : Socket) (a b : Address) (fd fd' : ℕ) (name name' : Option Address)
    (l : ListenResult)
    → s.status ≡ status_null
    → s.binit ≡ true
    → s.kind ≡ type_connecter
    → s.posted ≡ []
    → let first = connect a s in
      let second = connect b first.1 in
      let t =
        steps user
          (run l (connects fd name) name ∷ run l (connects fd' name') name' ∷ [])
          second.1 in
      (first.0 ≡ true) × (second.0 ≡ true) × (t.handle ≡ some fd') × (t.closed ≡ s.closed)
connect_twice user s a b fd fd' name name' l st i k p =
    let s1 = record s { posted = post_connect a ∷ [] } in
    let s2 = record s { posted = post_connect a ∷ post_connect b ∷ [] } in
    let first = connect_accepted a s s1 st i k (ap (λ l. l ++ (post_connect a ∷ [])) p) in
    let second = connect_accepted b s1 s2 st i k refl in
    let both = ap (λ r. connect b r.1) first ∙ second in
    let ran = λ (x : Socket).
      steps user (run l (connects fd name) name ∷ run l (connects fd' name') name' ∷ []) x in
    let t = run_twice user s2 a b fd fd' name name' l i refl in
    (
      ap (λ r. r.0) first,
      ap (λ r. r.0) both,
      ap (λ r. (ran r.1).handle) both ∙ t.0,
      ap (λ r. (ran r.1).closed) both ∙ t.1,
    )
