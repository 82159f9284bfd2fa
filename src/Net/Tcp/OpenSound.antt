-- ===== src/Net/Tcp/OpenSound.antt =====
-- Opening and finishing a socket keeps it sound, and so does every step.
use mathlib.Core.Bool.{true≢false}
use xhnet.Common.{
  ℕ, Bool, true, false, not, ◌&&◌, ◌≡◌, refl, sym, subst, inl, List, [], ◌∷◌, arith, Option,
  if◌then◌else◌,
}
use xhnet.Net.Tcp.{
  type_null, tcp_ok, tcp_close_bylocal, tcp_listenfail_iperr, tcp_listenfail_createerr,
  tcp_listenfail_binderr, tcp_listenfail_listenerr, tcp_connectfail_iperr,
  tcp_connectfail_createerr, tcp_connectfail_connecterr, on_listen, Socket, new_socket, Buffer,
  Address, Reader, no_reader, accept_reader, recv_reader, Post, post_fini, post_listen,
  post_connect, post_accept,
}
use xhnet.Net.Tcp.Calls.{User}
use xhnet.Net.Tcp.Close.{on_inter_close}
use xhnet.Net.Tcp.CloseSound.{on_inter_close-IsSound, on_inter_close-IsDrained}
use xhnet.Net.Tcp.Open.{
  ListenResult, listen_ip_fails, listen_socket_fails, bind_fails, listen_fails, listens,
  ConnectResult, connect_ip_fails, connect_socket_fails, connect_fails, connects, AcceptResult,
  accept_fails, create_fails, accepts, close_fd, listening, connecting, real_listen, real_connect,
  real_fini, forget_callback, start_peer, on_inter_accept_accept, on_inter_listen_accept,
  is_accepter,
}
use xhnet.Net.Tcp.DataSound.{on_inter_recv-IsSound, on_inter_send-IsSound}
use xhnet.Net.Tcp.Steps.{
  Step, call, run, acceptable, accepted, readable, writable, run_post, run_next, read_with, step,
  steps,
}
use xhnet.Net.Tcp.Sound.{IsSound, IsSound-same, notify-IsSound, run_call-IsSound}

abbrev Sound : Socket → Type 0
Sound s = IsSound [] [] s

-- Both branches of a test.
either : (test : Bool) {s t : Socket} → Sound s → Sound t → Sound (if test then s else t)
either true h k = h
either false h k = k

close_fd-IsSound : (fd : ℕ) (s : Socket) → Sound s → Sound (close_fd fd s)
close_fd-IsSound fd s h = IsSound-same h refl refl refl refl (λ o. o) h.called

listening-IsSound :
    (user : User) (r : ListenResult) (s : Socket) → Sound s → Sound (listening user r s)
listening-IsSound user listen_ip_fails s h =
    on_inter_close-IsSound user tcp_listenfail_iperr true s h
listening-IsSound user listen_socket_fails s h =
    on_inter_close-IsSound user tcp_listenfail_createerr true s h
listening-IsSound user (bind_fails fd) s h =
    close_fd-IsSound fd _ (on_inter_close-IsSound user tcp_listenfail_binderr true s h)
listening-IsSound user (listen_fails fd) s h =
    close_fd-IsSound fd _ (on_inter_close-IsSound user tcp_listenfail_listenerr true s h)
listening-IsSound user (listens fd) s h =
    notify-IsSound user (on_listen tcp_ok) _ (refl, refl, refl, refl)
      (IsSound-same h refl refl refl refl (λ o. (refl, o.1)) h.called)

real_listen-IsSound :
    (user : User) (a : Address) (r : ListenResult) (s : Socket)
    → Sound s
    → Sound (real_listen user a r s)
unfolding real_listen
real_listen-IsSound user a r s h =
    either (not s.binit) h
      (listening-IsSound user r _ (IsSound-same h refl refl refl refl (λ o. (refl, o.1)) h.called))

start_peer-IsSound :
    (fd : ℕ) (name : Option Address) (s : Socket) → Sound s → Sound (start_peer fd name s)
start_peer-IsSound fd name s h = IsSound-same h refl refl refl refl (λ o. o) h.called

connecting-IsSound :
    (user : User) (r : ConnectResult) (s : Socket) → Sound s → Sound (connecting user r s)
connecting-IsSound user connect_ip_fails s h =
    on_inter_close-IsSound user tcp_connectfail_iperr true s h
connecting-IsSound user connect_socket_fails s h =
    on_inter_close-IsSound user tcp_connectfail_createerr true s h
connecting-IsSound user (connect_fails fd) s h =
    on_inter_close-IsSound user tcp_connectfail_connecterr true _ (close_fd-IsSound fd s h)
connecting-IsSound user (connects fd name) s h = start_peer-IsSound fd name s h

real_connect-IsSound :
    (user : User) (a : Address) (r : ConnectResult) (s : Socket)
    → Sound s
    → Sound (real_connect user a r s)
unfolding real_connect
real_connect-IsSound user a r s h =
    either (not s.binit) h
      (connecting-IsSound user r _ (IsSound-same h refl refl refl refl (λ o. (refl, o.1)) h.called))

finished-IsSound :
    (s : Socket)
    → Sound s
    → (s.wait_send ≡ []) × (s.wait_recv ≡ [])
    → Sound (record (forget_callback s) { kind = type_null })
finished-IsSound s h d =
    let e : forget_callback s ≡ record s { has_cb = (forget_callback s).has_cb } = ground arith in
    subst (λ x. Sound (record x { kind = type_null })) (sym e)
      (record {
        sends = h.sends;
        recvs = h.recvs;
        held = h.held;
        waiting = inl d;
        called = λ p. absurd (true≢false (sym p));
      })

real_fini-IsSound : (user : User) (s : Socket) → Sound s → Sound (real_fini user s)
unfolding real_fini
real_fini-IsSound user s h =
    let t = record s { binit = false } in
    let k = IsSound-same {t = t} h refl refl refl refl (λ o. o) h.called in
    either (not s.binit) h (
      finished-IsSound (on_inter_close user tcp_close_bylocal false t)
        (on_inter_close-IsSound user tcp_close_bylocal false t k)
        (on_inter_close-IsDrained user tcp_close_bylocal false t k))

on_inter_accept_accept-IsSound :
    (fd : ℕ) (peer : Address) (name : Option Address) (s : Socket)
    → Sound s
    → Sound (on_inter_accept_accept fd peer name s)
unfolding on_inter_accept_accept
on_inter_accept_accept-IsSound fd peer name s h =
    IsSound-same h refl refl refl refl (λ o. (refl, o.1)) h.called

on_inter_listen_accept-IsSound :
    (fd : AcceptResult) (peer : Address) (treat : Socket → Socket) (buffers : ℕ → Buffer)
    (s : Socket)
    → Sound s
    → Sound (on_inter_listen_accept fd peer treat buffers s).0
unfolding on_inter_listen_accept
on_inter_listen_accept-IsSound accept_fails peer treat buffers s h = h
on_inter_listen_accept-IsSound (create_fails fd) peer treat buffers s h = close_fd-IsSound fd s h
on_inter_listen_accept-IsSound (accepts fd) peer treat buffers s h =
    IsSound-same h (ground arith) (ground arith) (ground arith) (ground arith) (ground arith)
      (ground (arith, h.called))

run_post-IsSound :
    (user : User) (l : ListenResult) (c : ConnectResult) (name : Option Address) (p : Post)
    (s : Socket)
    → Sound s
    → Sound (run_post user l c name p s)
run_post-IsSound user l c name post_fini s h = real_fini-IsSound user s h
run_post-IsSound user l c name (post_listen a) s h = real_listen-IsSound user a l s h
run_post-IsSound user l c name (post_connect a) s h = real_connect-IsSound user a c s h
run_post-IsSound user l c name (post_accept fd peer) s h =
    on_inter_accept_accept-IsSound fd peer name s h

run_next-IsSound :
    (user : User) (l : ListenResult) (c : ConnectResult) (name : Option Address) (ps : List Post)
    (s : Socket)
    → Sound s
    → Sound (run_next user l c name ps s)
run_next-IsSound user l c name [] s h = h
run_next-IsSound user l c name (p ∷ ps) s h =
    run_post-IsSound user l c name p _ (IsSound-same h refl refl refl refl (λ o. o) h.called)

read_with-IsSound :
    (r : Reader) (f g : Socket → Socket) (s : Socket)
    → Sound s
    → Sound (f s)
    → Sound (g s)
    → Sound (read_with r f g s)
read_with-IsSound no_reader f g s h k l = h
read_with-IsSound accept_reader f g s h k l = k
read_with-IsSound recv_reader f g s h k l = l

pub step-IsSound : (user : User) (x : Step) (s : Socket) → Sound s → Sound (step user x s)
unfolding step
step-IsSound user (call c) s h = run_call-IsSound c s h
step-IsSound user (run l c name) s h = run_next-IsSound user l c name s.posted s h
step-IsSound user (acceptable fd peer treat buffers) s h =
    either s.read_event
      (read_with-IsSound s.reader _ _ s h (on_inter_listen_accept-IsSound fd peer treat buffers s h)
        h)
      h
step-IsSound user (accepted fd peer) s h =
    either (s.has_io && is_accepter s.kind) (IsSound-same h refl refl refl refl (λ o. o) h.called) h
step-IsSound user (readable r) s h =
    either s.read_event (read_with-IsSound s.reader _ _ s h h (on_inter_recv-IsSound user r s h)) h
step-IsSound user (writable flag rs) s h =
    either s.write_event (on_inter_send-IsSound user flag rs s h) h

new_socket-IsSound : (buffers : ℕ → Buffer) → Sound (new_socket buffers)
new_socket-IsSound buffers = record {
  sends = record { rest = []; queued = refl; all = refl };
  recvs = record { rest = []; queued = refl; all = refl };
  held = λ b. refl;
  waiting = inl (refl, refl);
  called = λ p. absurd (true≢false (sym p));
}

steps-kept : (user : User) (xs : List Step) (s : Socket) → Sound s → Sound (steps user xs s)
unfolding steps
steps-kept user [] s h = h
steps-kept user (x ∷ xs) s h = steps-kept user xs (step user x s) (step-IsSound user x s h)

-- In any run of a new socket, the buffers of the accepted calls of `Async_Send` are, in their order,
-- those that the user has been told of and then those that wait; the same holds of the calls of
-- `Async_Recv` and `Async_RecvSome`; and the socket holds one reference for each that waits.
pub steps-IsSound :
    (user : User) (xs : List Step) (buffers : ℕ → Buffer)
    → IsSound [] [] (steps user xs (new_socket buffers))
steps-IsSound user xs buffers = steps-kept user xs (new_socket buffers) (new_socket-IsSound buffers)
