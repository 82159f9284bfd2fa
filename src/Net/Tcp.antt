-- ===== src/Net/Tcp.antt =====
-- `CTcpSocket` of source/net/impl_tcpsocket.h and source/net/impl_tcpsocket.cpp: its state, and what
-- it tells its user.
pub mod Calls
pub mod Answer
pub mod Tallies
pub mod Close
pub mod CloseSound
pub mod Closing
pub mod Sound
pub mod Drain
pub mod Quiet
pub mod Data
mod Runs
pub mod Settled
pub mod Leaks
pub mod DataSound
pub mod Open
pub mod OpenSound
pub mod Steps
use xhnet.Common.{
  ℕ, ◌+◌, ◌-◌, ◌%◌, ◌^◌, Bool, true, false, Option, none, List, [], ◌∷◌, ◌++◌, ◌==◌, if◌then◌else◌,
}

pub data Kind : Type 0 where
  type_null type_listener type_accepter type_connecter : Kind

pub data Status : Type 0 where
  status_null status_connect status_common : Status

-- `tcpsocket_err` of include/net/tcpsocket.h.
pub data TcpError : Type 0 where
  tcp_ok : TcpError
  tcp_listenfail_iperr tcp_listenfail_createerr tcp_listenfail_binderr : TcpError
  tcp_listenfail_listenerr : TcpError
  tcp_connectfail_iperr tcp_connectfail_createerr tcp_connectfail_connecterr : TcpError
  tcp_connectfail_timeout : TcpError
  tcp_recvfail_closedbypeer tcp_recvfail_recverr tcp_sendfail_senderr : TcpError
  tcp_close_byreset tcp_close_bylocal : TcpError

-- The bytes of an ip, and a port.
pub record Address : Type 0 where
  pub ip : List ℕ
  pub port : ℕ

-- What happens between a socket and its user: the callbacks, and the calls of `Async_Send`,
-- `Async_Recv` and `Async_RecvSome` that return true. A buffer is its number.
pub data Event : Type 0 where
  on_listen on_connect on_close : TcpError → Event
  on_send on_recv : TcpError → ℕ → Event
  asked_send asked_recv : ℕ → Event

-- A function that waits in the server's queue, with the arguments that `std::bind` keeps.
pub data Post : Type 0 where
  post_fini : Post
  post_listen post_connect : Address → Post
  post_accept : ℕ → Address → Post

-- Which callback `m_ev_read` was assigned with.
pub data Reader : Type 0 where
  no_reader accept_reader recv_reader : Reader

-- What a socket uses of a `CIOBuffer`: `AvailRead`, `AvailWrite` and `GetTag`.
pub record Buffer : Type 0 where
  pub unread : ℕ
  pub room : ℕ
  pub tag : ℕ

pub record Socket : Type 0 where
  pub kind : Kind
  pub binit : Bool
  pub status : Status
  -- `m_socket`, and the sockets of the platform that have been closed
  pub handle : Option ℕ
  pub closed : List ℕ
  -- whether `m_io` and the callback are there
  pub has_io : Bool
  pub has_cb : Bool
  pub local : Address
  pub peer : Address
  -- `m_bassign`, and whether the events are added
  pub read_assigned : Bool
  pub write_assigned : Bool
  pub reader : Reader
  pub read_event : Bool
  pub write_event : Bool
  -- whether the server has the socket in its map
  pub registered : Bool
  pub wait_send : List ℕ
  pub wait_recv : List ℕ
  -- the buffers, and how many references to each the socket holds
  pub buffers : ℕ → Buffer
  pub held : ℕ → ℕ
  pub posted : List Post
  pub log : List Event

abbrev pub no_address : Address
no_address = record { ip = []; port = 0 }

-- The constructor.
abbrev pub new_socket : (ℕ → Buffer) → Socket
new_socket buffers = record {
  kind = type_null;
  binit = false;
  status = status_null;
  handle = none;
  closed = [];
  has_io = false;
  has_cb = false;
  local = no_address;
  peer = no_address;
  read_assigned = false;
  write_assigned = false;
  reader = no_reader;
  read_event = false;
  write_event = false;
  registered = false;
  wait_send = [];
  wait_recv = [];
  buffers = buffers;
  held = λ b. 0;
  posted = [];
  log = [];
}

abbrev pub is_null : Status → Bool
is_null status_null = true
is_null _ = false

abbrev pub is_common : Status → Bool
is_common status_common = true
is_common _ = false

abbrev pub is_connect : Status → Bool
is_connect status_connect = true
is_connect _ = false

abbrev pub is_listener : Kind → Bool
is_listener type_listener = true
is_listener _ = false

abbrev pub is_connecter : Kind → Bool
is_connecter type_connecter = true
is_connecter _ = false

-- An accepter or a connecter.
abbrev pub is_peer : Kind → Bool
is_peer type_accepter = true
is_peer type_connecter = true
is_peer _ = false

abbrev pub no_buffers : List ℕ → Bool
no_buffers [] = true
no_buffers (b ∷ bs) = false

abbrev pub tail : List ℕ → List ℕ
tail [] = []
tail (b ∷ bs) = bs

abbrev pub assign_at {ℓ} : {A : Type ℓ} → (ℕ → A) → ℕ → A → ℕ → A
assign_at f b v x = if x == b then v else f x

-- `Retain` and `Release` of a buffer.
abbrev pub hold_buffer : ℕ → Socket → ℕ → ℕ
hold_buffer b s = assign_at s.held b (s.held b + 1)

abbrev pub drop_buffer : ℕ → Socket → ℕ → ℕ
drop_buffer b s = assign_at s.held b (s.held b - 1)

-- `SeekRead` and `SeekWrite`, on numbers that are an `unsigned int`.
abbrev pub less : ℕ → ℕ → ℕ
less n m = (n + 2 ^ 32 - m) % 2 ^ 32

abbrev pub seek_buffer_read : ℕ → ℕ → Socket → Socket
seek_buffer_read b n s =
    let buffer = s.buffers b in
    record s { buffers = assign_at s.buffers b (record buffer { unread = less buffer.unread n }) }

abbrev pub seek_buffer_write : ℕ → ℕ → Socket → Socket
seek_buffer_write b n s =
    let buffer = s.buffers b in
    record s {
      buffers =
          assign_at s.buffers b
            (record buffer { unread = (buffer.unread + n) % 2 ^ 32; room = less buffer.room n });
    }

-- What `pop` and the `Release` after it leave.
abbrev pub pop_send : ℕ → Socket → Socket
pop_send b s = record s { wait_send = tail s.wait_send; held = drop_buffer b s }

abbrev pub pop_recv : ℕ → Socket → Socket
pop_recv b s = record s { wait_recv = tail s.wait_recv; held = drop_buffer b s }

-- The first of a queue, or what is done when there is none.
abbrev pub front {ℓ} : {A : Type ℓ} → List ℕ → A → (ℕ → A) → A
front [] empty first = empty
front (b ∷ bs) empty first = first b
