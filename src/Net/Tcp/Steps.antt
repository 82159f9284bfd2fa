-- ===== src/Net/Tcp/Steps.antt =====
-- The steps of a socket: a call of the user, the next function in the server's queue, and what
-- libevent reports.
use xhnet.Common.{ℕ, Bool, ◌&&◌, Option, List, [], ◌∷◌, if◌then◌else◌}
use xhnet.Net.Tcp.{
  Address, Post, post_fini, post_listen, post_connect, post_accept, Reader, no_reader,
  accept_reader, recv_reader, Buffer, Socket,
}
use xhnet.Net.Tcp.Calls.{Call, User, run_call}
use xhnet.Net.Tcp.Data.{Transfer, on_inter_recv, on_inter_send}
use xhnet.Net.Tcp.Open.{
  ListenResult, ConnectResult, AcceptResult, real_listen, real_connect, real_fini,
  on_inter_listen_accept, on_inter_accept_accept, is_accepter, post_to,
}

-- `run` has what the platform does in the function that is next, `acceptable` what `accept` returns
-- and what the user does with the new socket, `accepted` that a listener has made this socket and
-- posts to it, `readable` and `writable` what `recv` and `send` do.
-- What the user calls of the listener itself in `On_Accept` are steps of their own.
pub data Step : Type 0 where
  call : Call → Step
  run : ListenResult → ConnectResult → Option Address → Step
  acceptable : AcceptResult → Address → (Socket → Socket) → (ℕ → Buffer) → Step
  accepted : ℕ → Address → Step
  readable : Transfer → Step
  writable : Bool → List Transfer → Step

abbrev pub run_post : User → ListenResult → ConnectResult → Option Address → Post → Socket → Socket
run_post user l c name post_fini s = real_fini user s
run_post user l c name (post_listen address) s = real_listen user address l s
run_post user l c name (post_connect address) s = real_connect user address c s
run_post user l c name (post_accept fd peer) s = on_inter_accept_accept fd peer name s

abbrev pub run_next :
    User → ListenResult → ConnectResult → Option Address → List Post → Socket → Socket
run_next user l c name [] s = s
run_next user l c name (p ∷ ps) s = run_post user l c name p (record s { posted = ps })

abbrev pub read_with : Reader → (Socket → Socket) → (Socket → Socket) → Socket → Socket
read_with no_reader accept recv s = s
read_with accept_reader accept recv s = accept s
read_with recv_reader accept recv s = recv s

-- libevent reports only events that are added.
unfoldable pub step : User → Step → Socket → Socket
unfolding run_call real_fini real_listen real_connect on_inter_listen_accept on_inter_accept_accept
    on_inter_recv on_inter_send
step user (call c) s = run_call c s
step user (run l c name) s = run_next user l c name s.posted s
step user (acceptable fd peer treat buffers) s =
    if s.read_event
    then read_with s.reader (λ t. (on_inter_listen_accept fd peer treat buffers t).0) (λ t. t) s
    else s
step user (accepted fd peer) s = if s.has_io && is_accepter s.kind then post_to fd peer s else s
step user (readable r) s =
    if s.read_event then read_with s.reader (λ t. t) (on_inter_recv user r) s else s
step user (writable flag rs) s = if s.write_event then on_inter_send user flag rs s else s

unfoldable pub steps : User → List Step → Socket → Socket
unfolding step
steps user [] s = s
steps user (x ∷ xs) s = steps user xs (step user x s)
