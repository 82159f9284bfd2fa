-- ===== src/Net/Tcp/Calls.antt =====
-- What the user calls, from any thread or in a callback, and the callbacks.
use xhnet.Common.{
  ℕ, Bool, true, false, not, ◌&&◌, ◌||◌, Option, none, some, List, [], ◌∷◌, ◌++◌, if◌then◌else◌,
}
use xhnet.Net.Tcp.{
  Kind, Address, Event, asked_send, asked_recv, post_fini, post_listen, post_connect, Socket,
  is_null, is_common, is_listener, is_connecter, is_peer, no_buffers, assign_at, hold_buffer,
}

-- `Init_Listener`, `Init_Accepter` and `Init_Connecter`: whether there is an `io`, whether it is a
-- `CIOServer`, and whether there is a callback.
unfoldable pub init : Kind → Bool → Bool → Bool → Socket → Bool × Socket
init kind io is_server cb s =
    if not io || not cb
    then (false, s)
    else if s.has_io || s.has_cb
    then (false, s)
    else if not (is_null s.status)
    then (false, s)
    else if not is_server
    then (false, s)
    else (true, record s { has_io = true; has_cb = true; kind = kind; binit = true })

unfoldable pub fini : Socket → Socket
fini s =
    if not s.binit
    then s
    else if s.has_io
    then record s { posted = s.posted ++ (post_fini ∷ []) }
    else s

unfoldable pub listen : Address → Socket → Bool × Socket
listen address s =
    if not (is_null s.status) || not s.binit || not (is_listener s.kind)
    then (false, s)
    else (true, record s { posted = s.posted ++ (post_listen address ∷ []) })

unfoldable pub connect : Address → Socket → Bool × Socket
connect address s =
    if not (is_null s.status) || not s.binit || not (is_connecter s.kind)
    then (false, s)
    else (true, record s { posted = s.posted ++ (post_connect address ∷ []) })

-- The buffer may be null.
unfoldable pub async_send : Option ℕ → Socket → Bool × Socket
async_send none s = (false, s)
async_send (some b) s = if not (is_common s.status) || not (is_peer s.kind) then (false, s) else (
  true,
  record s {
    held = hold_buffer b s;
    write_event = no_buffers s.wait_send || s.write_event;
    wait_send = s.wait_send ++ (b ∷ []);
    log = s.log ++ (asked_send b ∷ []);
  },
)

-- `Async_Recv` with the tag 0, and `Async_RecvSome` with the tag 1.
unfoldable pub async_recv : ℕ → Option ℕ → Socket → Bool × Socket
async_recv tag none s = (false, s)
async_recv tag (some b) s =
    let buffer = s.buffers b in
    if not (is_common s.status) || not (is_peer s.kind) then (false, s) else (
      true,
      record s {
        buffers = assign_at s.buffers b (record buffer { tag = tag });
        held = hold_buffer b s;
        read_event = no_buffers s.wait_recv || s.read_event;
        wait_recv = s.wait_recv ++ (b ∷ []);
        log = s.log ++ (asked_recv b ∷ []);
      },
    )

-- What a user does: calls of the socket, and reads and writes of a buffer, which leave it with
-- other numbers.
pub data Call : Type 0 where
  call_init : Kind → Bool → Bool → Bool → Call
  call_fini : Call
  call_listen call_connect : Address → Call
  call_send call_recv call_recv_some : Option ℕ → Call
  use_buffer : ℕ → ℕ → ℕ → Call

unfoldable pub run_call : Call → Socket → Socket
unfolding init fini listen connect async_send async_recv
run_call (call_init kind io is_server cb) s = (init kind io is_server cb s).1
run_call call_fini s = fini s
run_call (call_listen address) s = (listen address s).1
run_call (call_connect address) s = (connect address s).1
run_call (call_send b) s = (async_send b s).1
run_call (call_recv b) s = (async_recv 0 b s).1
run_call (call_recv_some b) s = (async_recv 1 b s).1
run_call (use_buffer b unread unfilled) s = record s {
  buffers =
      assign_at s.buffers b (record { unread = unread; room = unfilled; tag = (s.buffers b).tag });
}

unfoldable pub run_calls : List Call → Socket → Socket
unfolding run_call
run_calls [] s = s
run_calls (c ∷ cs) s = run_calls cs (run_call c s)

-- A user, who chooses the calls in a callback from all that has happened so far.
abbrev pub User : Type 0
User = List Event → List Call

-- A callback, in which the user makes his calls.
unfoldable pub notify : User → Event → Socket → Socket
unfolding run_calls
notify user e s = let log = s.log ++ (e ∷ []) in run_calls (user log) (record s { log = log })

-- The callbacks of an accepter and of a connecter have the same operations.
unfoldable pub notify_peer : User → Event → Socket → Socket
notify_peer user e s = if is_peer s.kind && s.has_cb then notify user e s else s
