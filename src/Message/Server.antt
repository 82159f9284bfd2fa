-- ===== src/Message/Server.antt =====
-- `CTcpSocketServer` of net-qyfh/socketserver.h: a connection that a listener has accepted. A call
-- of `Close` or `Send` in a callback only posts, and reads nothing that the callback's caller
-- changes afterwards, so it is a call right after the callback. The user's callbacks, the pools,
-- the timer and `m_io` are there.
pub mod Stream
use xhnet.Common.{
  ℕ, ◌+◌, ◌-◌, Bool, true, false, not, ◌&&◌, ◌||◌, ◌==◌, Option, none, some, List, [], ◌∷◌, ◌++◌,
  if◌then◌else◌, ltb,
}
use xhnet.IoBuffer.{IoBuffer, Run, ok, overflow, fault, length_write}
use xhnet.IoBuffer.Scalar.{Host}
use xhnet.Message.Head.{MessageHead, head_size, decode_header}
use xhnet.Message.Packet.{Pools, new_iobuffer, pack, send_length}

pub data SsStatus : Type 0 where
  sss_closed sss_establishing sss_established : SsStatus

-- What the server does: to a socket, which is its number, to its timer, and the callbacks of its
-- user.
pub data Action : Type 0 where
  init_accepter retain_socket release_socket fini_socket : ℕ → Action
  send_buffer : IoBuffer → Action
  init_timer fini_timer : Action
  wait_timer : ℕ → Action
  told_connect told_close told_timeout : Action
  told_message : MessageHead → IoBuffer → Action

-- A function that waits in the server's queue, with its arguments.
pub data Post : Type 0 where
  post_beconnected : ℕ → Post
  post_close : Post
  post_send : MessageHead → IoBuffer → Post

pub record Server : Type 0 where
  pub socket : Option ℕ
  pub status : SsStatus
  pub busing : Bool
  pub recvhead : MessageHead
  pub brecvhead : Bool
  pub timeout_ms : ℕ
  -- the buffers that it has given to `Async_Recv` and not got back
  pub wait_recv : List IoBuffer
  pub posted : List Post
  -- the references to itself that it has taken with `Retain` and not released
  pub holds : ℕ
  pub did : List Action

abbrev pub is_closed : SsStatus → Bool
is_closed sss_closed = true
is_closed _ = false

abbrev pub is_established : SsStatus → Bool
is_established sss_established = true
is_established _ = false

-- The constructor. No constructor sets the numbers in `m_recvhead`.
unfoldable pub new_server : MessageHead → ℕ → Server
new_server head timeout_ms = record {
  socket = none;
  status = sss_closed;
  busing = false;
  recvhead = head;
  brecvhead = true;
  timeout_ms = if ltb timeout_ms 100 then 100 else timeout_ms;
  wait_recv = [];
  posted = [];
  holds = 0;
  did = [];
}

-- `Retain` and `Post`.
abbrev pub post : Post → Server → Server
post p s = record s { posted = s.posted ++ (p ∷ []); holds = s.holds + 1 }

abbrev pub act : List Action → Server → Server
act l s = record s { did = s.did ++ l }

abbrev pub has : Option ℕ → Bool
has none = false
has (some x) = true

-- The socket may be null.
unfoldable pub be_connected : Option ℕ → Server → Bool × Server
be_connected none s = (false, s)
be_connected (some socket) s =
    if s.busing || not (is_closed s.status)
    then (false, s)
    else if has s.socket
    then (false, s)
    else (
      true,
      act (init_accepter socket ∷ retain_socket socket ∷ []) (post (post_beconnected socket) s),
    )

unfoldable pub close : Server → Server
close s = if not s.busing then s else post post_close s

unfoldable pub is_ok : Server → Bool
is_ok s = s.busing && is_established s.status

-- The buffer may be null.
unfoldable pub send : MessageHead → Option IoBuffer → Server → Bool × Server
unfolding is_ok length_write
send head none s = (false, s)
send head (some msg) s =
    if length_write msg == 0
    then (false, s)
    else if not (is_ok s)
    then (false, s)
    else (true, post (post_send head msg) s)

-- The guard of the posted functions.
abbrev pub release : Server → Server
release s = record s { holds = s.holds - 1 }

unfoldable pub postin_beconnected : ℕ → Server → Server
postin_beconnected socket s =
    if s.busing || not (is_closed s.status)
    then act (release_socket socket ∷ []) (release s)
    else act (init_timer ∷ wait_timer s.timeout_ms ∷ [])
        (release (record s { socket = some socket; busing = true; status = sss_establishing }))

-- `m_socket->Fini()`, if there is a socket.
abbrev pub fini_of : Option ℕ → List Action
fini_of none = []
fini_of (some socket) = fini_socket socket ∷ []

unfoldable pub postin_close : Server → Server
postin_close s = act (fini_of s.socket ++ (fini_timer ∷ [])) (release (record s { busing = false }))

unfoldable pub timeout : Server → Server
unfolding is_ok
timeout s = if is_ok s then act (told_timeout ∷ []) s else s

abbrev pub want : Server → ℕ
want s = if s.brecvhead then head_size else s.recvhead.msglen

abbrev pub give : Server → Option IoBuffer → Server
give s none = s
give s (some buff) = record s { wait_recv = s.wait_recv ++ (buff ∷ []) }

unfoldable pub async_recv : Pools → Server → Server
unfolding is_ok new_iobuffer
async_recv pools s = if is_ok s then give s (new_iobuffer pools (want s)) else s

-- `none` is an exception that leaves the function, or an access outside the memory.
abbrev pub handed : Server → Run Bool → Option Server
handed s (ok true b) = some (act (send_buffer b ∷ []) s)
handed s (ok false b) = some s
handed s (overflow b) = none
handed s fault = none

abbrev pub send_in : Host → MessageHead → IoBuffer → Server → Option IoBuffer → Option Server
send_in h head buffer s none = some s
send_in h head buffer s (some sendbuff) = handed s (pack h head buffer sendbuff)

unfoldable pub async_send : Host → Pools → MessageHead → IoBuffer → Server → Option Server
unfolding is_ok new_iobuffer send_length pack
async_send h pools head buffer s =
    if is_ok s then send_in h head buffer s (new_iobuffer pools (send_length buffer)) else some s

unfoldable pub postin_send : Host → Pools → MessageHead → IoBuffer → Server → Option Server
unfolding async_send
postin_send h pools head buffer s = async_send h pools head buffer (release s)

-- `failed` is whether `errid` is not 0.
unfoldable pub on_connect : Pools → Bool → Server → Server
unfolding async_recv
on_connect pools failed s =
    if failed
    then s
    else async_recv pools (record s {
      status = sss_established;
      did = s.did ++ (told_connect ∷ []);
      brecvhead = true;
    })

-- `m_socket->Fini()` without a test of `m_socket`.
abbrev pub must_fini : Server → Option ℕ → Option Server
must_fini s none = none
must_fini s (some socket) = some (act (fini_socket socket ∷ []) s)

abbrev pub got_head : Pools → Server → Run (Bool × MessageHead) → Option Server
unfolding async_recv
got_head pools s (ok (true, head) b) =
    some (async_recv pools (record s { recvhead = head; brecvhead = false }))
got_head pools s (ok (false, head) b) = must_fini (record s { recvhead = head }) s.socket
got_head pools s (overflow b) = none
got_head pools s fault = none

unfoldable pub on_recv : Host → Pools → Bool → IoBuffer → Server → Option Server
unfolding async_recv decode_header
on_recv h pools failed buffer s =
    if failed
    then some s
    else if s.brecvhead
    then got_head pools s (decode_header h s.recvhead buffer)
    else some (
        async_recv pools
          (record s { did = s.did ++ (told_message s.recvhead buffer ∷ []); brecvhead = true }))

abbrev pub finish_timer : Option Server → Option Server
finish_timer none = none
finish_timer (some s) = some (act (fini_timer ∷ []) s)

unfoldable pub on_close : Server → Option Server
on_close s =
    finish_timer
      (must_fini (record s { status = sss_closed; did = s.did ++ (told_close ∷ []) }) s.socket)

unfoldable pub on_timer : Server → Server
unfolding timeout
on_timer s = timeout s
