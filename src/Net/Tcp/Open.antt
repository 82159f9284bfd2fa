-- ===== src/Net/Tcp/Open.antt =====
-- `real_listen`, `real_connect`, `real_fini` and the two parts of an accept. What the platform does
-- is an argument of each.
use xhnet.Common.{ℕ, Bool, true, false, ◌&&◌, not, Option, none, some, [], ◌∷◌, ◌++◌, if◌then◌else◌}
use xhnet.Net.Tcp.{
  Kind, type_null, type_accepter, tcp_ok, tcp_listenfail_iperr, tcp_listenfail_createerr,
  tcp_listenfail_binderr, tcp_listenfail_listenerr, tcp_connectfail_iperr,
  tcp_connectfail_createerr, tcp_connectfail_connecterr, tcp_close_bylocal, Address, status_connect,
  status_common, on_listen, post_accept, accept_reader, recv_reader, Buffer, Socket, new_socket,
}
use xhnet.Net.Tcp.Calls.{User, notify}
use xhnet.Net.Tcp.Close.{on_inter_close}

-- How far `real_listen` gets, and the socket that the platform has made.
pub data ListenResult : Type 0 where
  listen_ip_fails listen_socket_fails : ListenResult
  bind_fails listen_fails listens : ℕ → ListenResult

-- The address is the one of `getsockname`, where that succeeds.
pub data ConnectResult : Type 0 where
  connect_ip_fails connect_socket_fails : ConnectResult
  connect_fails : ℕ → ConnectResult
  connects : ℕ → Option Address → ConnectResult

abbrev pub close_fd : ℕ → Socket → Socket
close_fd fd s = record s { closed = s.closed ++ (fd ∷ []) }

abbrev pub listening : User → ListenResult → Socket → Socket
listening user listen_ip_fails s = on_inter_close user tcp_listenfail_iperr true s
listening user listen_socket_fails s = on_inter_close user tcp_listenfail_createerr true s
listening user (bind_fails fd) s = close_fd fd (on_inter_close user tcp_listenfail_binderr true s)
listening user (listen_fails fd) s =
    close_fd fd (on_inter_close user tcp_listenfail_listenerr true s)
listening user (listens fd) s = notify user (on_listen tcp_ok) (record s {
  status = status_common;
  handle = some fd;
  reader = accept_reader;
  read_assigned = true;
  registered = true;
  read_event = true;
})

unfoldable pub real_listen : User → Address → ListenResult → Socket → Socket
unfolding on_inter_close notify
real_listen user address r s =
    if not s.binit
    then s
    else listening user r (record s { local = address; status = status_connect })

abbrev pub or_else : Option Address → Address → Address
or_else none old = old
or_else (some address) old = address

-- What `real_connect` and `on_inter_accept_accept` do with a socket of the platform: assign both
-- events anew, and wait until it can be written.
abbrev pub start_peer : ℕ → Option Address → Socket → Socket
start_peer fd name s = record s {
  handle = some fd;
  local = or_else name s.local;
  reader = recv_reader;
  read_assigned = true;
  write_assigned = true;
  read_event = false;
  registered = true;
  write_event = true;
}

abbrev pub connecting : User → ConnectResult → Socket → Socket
connecting user connect_ip_fails s = on_inter_close user tcp_connectfail_iperr true s
connecting user connect_socket_fails s = on_inter_close user tcp_connectfail_createerr true s
connecting user (connect_fails fd) s =
    on_inter_close user tcp_connectfail_connecterr true (close_fd fd s)
connecting user (connects fd name) s = start_peer fd name s

unfoldable pub real_connect : User → Address → ConnectResult → Socket → Socket
unfolding on_inter_close
real_connect user address r s =
    if not s.binit
    then s
    else connecting user r (record s { peer = address; status = status_connect })

-- What the switch on `m_type` at the end does: release the callback.
abbrev pub forget_callback : Socket → Socket
forget_callback s = elim s.kind [ type_null ↦ s | _ ↦ record s { has_cb = false } ]

unfoldable pub real_fini : User → Socket → Socket
unfolding on_inter_close
real_fini user s =
    let t = on_inter_close user tcp_close_bylocal false (record s { binit = false }) in
    if not s.binit then s else record (forget_callback t) { kind = type_null }

abbrev pub is_accepter : Kind → Bool
is_accepter type_accepter = true
is_accepter _ = false

-- The listener posts the second part of the accept to the new socket.
abbrev pub post_to : ℕ → Address → Socket → Socket
post_to fd peer s = record s { posted = s.posted ++ (post_accept fd peer ∷ []) }

-- Whether `accept` and `CTcpSocket::Create` succeed.
pub data AcceptResult : Type 0 where
  accept_fails : AcceptResult
  create_fails accepts : ℕ → AcceptResult

-- `on_inter_listen_accept`, of which only the sockets that it closes and makes are of interest:
-- what the user does with the new socket in `On_Accept`, and the listener.
unfoldable pub on_inter_listen_accept :
    AcceptResult → Address → (Socket → Socket) → (ℕ → Buffer) → Socket → Socket × Option Socket
on_inter_listen_accept accept_fails peer treat buffers s = (s, none)
on_inter_listen_accept (create_fails fd) peer treat buffers s = (close_fd fd s, none)
on_inter_listen_accept (accepts fd) peer treat buffers s =
    let new = treat (new_socket buffers) in
    if new.has_io && is_accepter new.kind
    then (s, some (post_to fd peer new))
    else (close_fd fd s, some (forget_callback new))

unfoldable pub on_inter_accept_accept : ℕ → Address → Option Address → Socket → Socket
on_inter_accept_accept fd address name s =
    start_peer fd name (record s { status = status_connect; peer = address })
