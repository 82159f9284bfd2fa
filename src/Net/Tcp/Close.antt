-- ===== src/Net/Tcp/Close.antt =====
-- `on_inter_close`.
use xhnet.Common.{
  ℕ, zero, suc, Bool, false, ◌&&◌, Option, none, some, List, [], ◌∷◌, ◌++◌, if◌then◌else◌, length,
}
use xhnet.Net.Tcp.{
  TcpError, status_null, on_listen, on_connect, on_close, on_send, on_recv, Socket, is_null,
  is_listener, is_peer, pop_send, pop_recv, front,
}
use xhnet.Net.Tcp.Calls.{User, notify}

abbrev pub close_handle : Option ℕ → List ℕ → List ℕ
close_handle none closed = closed
close_handle (some fd) closed = closed ++ (fd ∷ [])

-- The guard of `on_inter_close`, which runs when the function returns.
unfoldable pub finish_close : Socket → Socket
finish_close s =
    let t = record s { closed = close_handle s.handle s.closed; handle = none } in
    if s.has_io
    then record t {
      read_event = if s.read_assigned then false else s.read_event;
      write_event = if s.write_assigned then false else s.write_event;
      read_assigned = false;
      write_assigned = false;
      registered = false;
    }
    else t

-- The loops that tell the user of the buffers that wait. One turn for each is enough, since the
-- user can add none.
unfoldable pub drain_send : User → TcpError → ℕ → Socket → Socket
drain_send user err zero s = s
drain_send user err (suc fuel) s =
    front s.wait_send s λ b. drain_send user err fuel (pop_send b (notify user (on_send err b) s))

unfoldable pub drain_recv : User → TcpError → ℕ → Socket → Socket
drain_recv user err zero s = s
drain_recv user err (suc fuel) s =
    front s.wait_recv s λ b. drain_recv user err fuel (pop_recv b (notify user (on_recv err b) s))

-- The loops that only release what still waits.
unfoldable pub discard_send : List ℕ → Socket → Socket
discard_send [] s = s
discard_send (b ∷ bs) s = discard_send bs (pop_send b s)

unfoldable pub discard_recv : List ℕ → Socket → Socket
discard_recv [] s = s
discard_recv (b ∷ bs) s = discard_recv bs (pop_recv b s)

abbrev pub discard : Socket → Socket
discard s = let t = discard_send s.wait_send s in discard_recv t.wait_recv t

unfoldable pub close_listener : User → TcpError → Bool → Socket → Socket
close_listener user err connecting s =
    notify user (on_close err) (if connecting then notify user (on_listen err) s else s)

unfoldable pub close_peer : User → TcpError → Bool → Socket → Socket
unfolding drain_send drain_recv discard_send discard_recv
close_peer user err connecting s =
    let t = if connecting then notify user (on_connect err) s else s in
    let sent = drain_send user err (length t.wait_send) t in
    let received = drain_recv user err (length sent.wait_recv) sent in
    discard (notify user (on_close err) received)

unfoldable pub on_inter_close : User → TcpError → Bool → Socket → Socket
unfolding finish_close close_listener close_peer
on_inter_close user err connecting s =
    let t = record s { status = status_null } in
    if is_null s.status
    then s
    else if is_listener s.kind && s.has_cb
    then finish_close (close_listener user err connecting t)
    else if is_peer s.kind && s.has_cb
    then finish_close (close_peer user err connecting t)
    else finish_close t
