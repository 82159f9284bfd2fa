-- ===== src/Message/Client.antt =====
-- `CTcpSocketClient` of net-qyfh/socketclient.h: a client that connects, connects again, and turns
-- what arrives into messages. What it does with its socket, its timers and its user is kept in
-- order. A call of `Connect`, `Close` or `Send` in a callback only posts, and reads nothing that
-- the callback's caller changes afterwards, so it is a call right after the callback. The user's
-- callbacks, the pools, the socket, the timers and `m_io` are there.
pub mod Stream
pub mod Counts
pub mod Steps
use xhnet.Common.{
  ℕ, ◌+◌, ◌-◌, Bool, true, false, not, ◌&&◌, ◌||◌, ◌==◌, Option, none, some, List, [], ◌∷◌, ◌++◌,
  if◌then◌else◌, ltb,
}
use xhnet.IoBuffer.{IoBuffer, Run, ok, overflow, fault, length_write, on_memory}
use xhnet.IoBuffer.Scalar.{Host}
use xhnet.Message.Head.{MessageHead, head_size, decode_header}
use xhnet.Message.Packet.{Pools, new_iobuffer, pack, send_length}

pub data ScStatus : Type 0 where
  scs_closed scs_conneting scs_conneted : ScStatus

pub data Clock : Type 0 where
  reconnect_timer timeout_timer : Clock

-- What the client does: to its socket, to its timers, and the callbacks of its user.
pub data Action : Type 0 where
  init_socket fini_socket : Action
  connect_socket : List ℕ → ℕ → Action
  send_buffer : IoBuffer → Action
  init_timer fini_timer : Clock → Action
  wait_timer : Clock → ℕ → Action
  told_connect told_close told_timeout : Action
  told_message : MessageHead → IoBuffer → Action

-- A function that waits in the server's queue, with its arguments.
pub data Post : Type 0 where
  post_connect : List ℕ → ℕ → Post
  post_close : Post
  post_send : MessageHead → IoBuffer → Post

pub record Client : Type 0 where
  pub host : List ℕ
  pub port : ℕ
  pub status : ScStatus
  pub busing : Bool
  pub recvhead : MessageHead
  pub brecvhead : Bool
  pub timeout_ms : ℕ
  -- `GetTimerID` of the timers
  pub reconnect_id : ℕ
  pub timeout_id : ℕ
  -- the buffers that it has given to `Async_Recv` and not got back
  pub wait_recv : List IoBuffer
  pub posted : List Post
  -- the references to itself that it has taken with `Retain` and not released
  pub holds : ℕ
  pub did : List Action

abbrev pub reconnect_time_ms : ℕ
reconnect_time_ms = 10000

abbrev pub is_closed : ScStatus → Bool
is_closed scs_closed = true
is_closed _ = false

abbrev pub is_conneted : ScStatus → Bool
is_conneted scs_conneted = true
is_conneted _ = false

-- The constructor. No constructor sets `m_port` and the numbers in `m_recvhead`.
unfoldable pub new_client : MessageHead → ℕ → ℕ → ℕ → ℕ → Client
new_client head port reconnect_id timeout_id timeout_ms = record {
  host = [];
  port = port;
  status = scs_closed;
  busing = false;
  recvhead = head;
  brecvhead = true;
  timeout_ms = if ltb timeout_ms 100 then 100 else timeout_ms;
  reconnect_id = reconnect_id;
  timeout_id = timeout_id;
  wait_recv = [];
  posted = [];
  holds = 0;
  did = [];
}

-- `Retain` and `Post`.
abbrev pub post : Post → Client → Client
post p c = record c { posted = c.posted ++ (p ∷ []); holds = c.holds + 1 }

abbrev pub act : List Action → Client → Client
act l c = record c { did = c.did ++ l }

abbrev is_nil : List ℕ → Bool
is_nil [] = true
is_nil (x ∷ xs) = false

unfoldable pub connect : List ℕ → ℕ → Client → Bool × Client
connect host port c =
    if is_nil host || (port == 0)
    then (false, c)
    else if c.busing || not (is_closed c.status)
    then (false, c)
    else (true, post (post_connect host port) c)

unfoldable pub close : Client → Client
close c = if not c.busing then c else post post_close c

unfoldable pub is_ok : Client → Bool
is_ok c = c.busing && is_conneted c.status

-- The buffer may be null.
unfoldable pub send : MessageHead → Option IoBuffer → Client → Bool × Client
unfolding is_ok length_write
send head none c = (false, c)
send head (some msg) c =
    if length_write msg == 0
    then (false, c)
    else if not (is_ok c)
    then (false, c)
    else (true, post (post_send head msg) c)

-- The guard of the posted functions.
abbrev pub release : Client → Client
release c = record c { holds = c.holds - 1 }

-- `ips` is the answer of `Resolve_DNS`.
unfoldable pub postin_connect : List (List ℕ) → List ℕ → ℕ → Client → Client
postin_connect ips host port c =
    if c.busing || not (is_closed c.status) then release c else elim ips [
      | [] ↦ release c
      | ip ∷ rest ↦
          act
            (init_socket
              ∷ connect_socket ip port
              ∷ init_timer reconnect_timer
              ∷ wait_timer reconnect_timer reconnect_time_ms
              ∷ init_timer timeout_timer
              ∷ wait_timer timeout_timer c.timeout_ms
              ∷ [])
            (release (record c { host = host; port = port; busing = true; status = scs_conneting }))
    ]

unfoldable pub postin_close : Client → Client
postin_close c =
    act (fini_socket ∷ fini_timer timeout_timer ∷ fini_timer reconnect_timer ∷ [])
      (release (record c { busing = false }))

unfoldable pub reconnect : List (List ℕ) → Client → Client
reconnect ips c =
    if c.busing && is_closed c.status
    then elim ips [ [] ↦ c | ip ∷ rest ↦ act (connect_socket ip c.port ∷ []) c ]
    else c

unfoldable pub timeout : Client → Client
unfolding is_ok
timeout c = if is_ok c then act (told_timeout ∷ []) c else c

abbrev pub want : Client → ℕ
want c = if c.brecvhead then head_size else c.recvhead.msglen

abbrev pub give : Client → Option IoBuffer → Client
give c none = c
give c (some buff) = record c { wait_recv = c.wait_recv ++ (buff ∷ []) }

unfoldable pub async_recv : Pools → Client → Client
unfolding is_ok new_iobuffer
async_recv pools c = if is_ok c then give c (new_iobuffer pools (want c)) else c

-- `none` is an exception that leaves the function, or an access outside the memory.
abbrev pub handed : Client → Run Bool → Option Client
handed c (ok true b) = some (act (send_buffer b ∷ []) c)
handed c (ok false b) = some c
handed c (overflow b) = none
handed c fault = none

abbrev pub send_in : Host → MessageHead → IoBuffer → Client → Option IoBuffer → Option Client
send_in h head buffer c none = some c
send_in h head buffer c (some sendbuff) = handed c (pack h head buffer sendbuff)

unfoldable pub async_send : Host → Pools → MessageHead → IoBuffer → Client → Option Client
unfolding is_ok new_iobuffer send_length pack
async_send h pools head buffer c =
    if is_ok c then send_in h head buffer c (new_iobuffer pools (send_length buffer)) else some c

unfoldable pub postin_send : Host → Pools → MessageHead → IoBuffer → Client → Option Client
unfolding async_send
postin_send h pools head buffer c = async_send h pools head buffer (release c)

-- A send of an empty buffer makes `CTcpSocket` close the connection. `tag` is what stands in the
-- buffer's `m_tag`, if the pool gives one.
unfoldable pub reset_socket : Option ℕ → Client → Client
unfolding on_memory
reset_socket none c = c
reset_socket (some tag) c = act (send_buffer (on_memory [] false tag) ∷ []) c

-- `failed` is whether `errid` is not 0.
unfoldable pub on_connect : Pools → Bool → Client → Client
unfolding async_recv
on_connect pools failed c =
    if failed
    then c
    else async_recv pools
        (record c { status = scs_conneted; did = c.did ++ (told_connect ∷ []); brecvhead = true })

abbrev pub got_head : Pools → Client → Run (Bool × MessageHead) → Option Client
unfolding async_recv reset_socket
got_head pools c (ok (true, head) b) =
    some (async_recv pools (record c { recvhead = head; brecvhead = false }))
got_head pools c (ok (false, head) b) =
    some
      (reset_socket (if pools.object then some pools.tag else none) (record c { recvhead = head }))
got_head pools c (overflow b) = none
got_head pools c fault = none

unfoldable pub on_recv : Host → Pools → Bool → IoBuffer → Client → Option Client
unfolding async_recv reset_socket decode_header
on_recv h pools failed buffer c =
    if failed
    then some c
    else if c.brecvhead
    then got_head pools c (decode_header h c.recvhead buffer)
    else some (
        async_recv pools
          (record c { did = c.did ++ (told_message c.recvhead buffer ∷ []); brecvhead = true }))

unfoldable pub on_close : Client → Client
on_close c = record c { status = scs_closed; did = c.did ++ (told_close ∷ []) }

unfoldable pub on_timer : List (List ℕ) → ℕ → Client → Client
unfolding reconnect timeout
on_timer ips timerid c =
    if c.reconnect_id == timerid
    then reconnect ips c
    else if c.timeout_id == timerid
    then timeout c
    else c
