-- ===== src/Net/Tcp/Data.antt =====
-- `on_inter_recv` and `on_inter_send`, which libevent calls when the socket can be read or written.
use xhnet.Common.{ℕ, Bool, true, false, ◌||◌, List, [], ◌∷◌, ◌==◌, if◌then◌else◌}
use xhnet.Net.Tcp.{
  tcp_ok, tcp_connectfail_timeout, tcp_recvfail_closedbypeer, tcp_recvfail_recverr,
  tcp_sendfail_senderr, tcp_close_byreset, status_common, on_connect, on_send, on_recv, Socket,
  is_connect, no_buffers, seek_buffer_read, seek_buffer_write, pop_send, pop_recv, front,
}
use xhnet.Net.Tcp.Calls.{User, notify_peer}
use xhnet.Net.Tcp.Close.{on_inter_close}

-- What `recv` and `send` of the platform return: a number of bytes, or an error, which may be that
-- the call would block.
pub data Transfer : Type 0 where
  bytes : ℕ → Transfer
  would_block failed : Transfer

abbrev pub stop_reading : Socket → Socket
stop_reading s = if no_buffers s.wait_recv then record s { read_event = false } else s

abbrev pub stop_writing : Socket → Socket
stop_writing s = if no_buffers s.wait_send then record s { write_event = false } else s

-- `On_Recv` for a buffer that is full, or that takes what there is.
unfoldable pub received : User → ℕ → Socket → Socket
unfolding notify_peer
received user b s =
    let buffer = s.buffers b in
    if buffer.tag == 1 || buffer.room == 0
    then stop_reading (pop_recv b (notify_peer user (on_recv tcp_ok b) s))
    else s

abbrev pub recv_into : User → Transfer → ℕ → Socket → Socket
recv_into user (bytes n) b s =
    if n == 0
    then on_inter_close user tcp_recvfail_closedbypeer false s
    else received user b (seek_buffer_write b n s)
recv_into user would_block b s = s
recv_into user failed b s = on_inter_close user tcp_recvfail_recverr false s

unfoldable pub on_inter_recv : User → Transfer → Socket → Socket
unfolding on_inter_close received
on_inter_recv user r s =
    front s.wait_recv (record s { read_event = false }) λ b. recv_into user r b s

-- `On_Send` for a buffer that has been sent.
unfoldable pub sent : User → ℕ → Socket → Socket
unfolding notify_peer
sent user b s =
    if (s.buffers b).unread == 0 then pop_send b (notify_peer user (on_send tcp_ok b) s) else s

abbrev pub send_from : User → Transfer → ℕ → (Socket → Socket) → Socket → Socket
send_from user (bytes n) b more s =
    if n == 0 then stop_writing (sent user b s) else more (sent user b (seek_buffer_read b n s))
send_from user would_block b more s = stop_writing (sent user b s)
send_from user failed b more s = on_inter_close user tcp_sendfail_senderr false s

-- The loop, over what the calls of `send` return; a call after the last would block.
unfoldable pub send_loop : User → List Transfer → Socket → Socket
unfolding on_inter_close sent
send_loop user [] s = front s.wait_send (stop_writing s) λ b.
    if (s.buffers b).unread == 0
    then on_inter_close user tcp_close_byreset false s
    else send_from user would_block b (λ t. t) s
send_loop user (r ∷ rs) s = front s.wait_send (stop_writing s) λ b.
    if (s.buffers b).unread == 0
    then on_inter_close user tcp_close_byreset false s
    else send_from user r b (λ t. send_loop user rs t) s

-- `flag` is whether the socket can be written, and not the time that is over.
unfoldable pub on_inter_send : User → Bool → List Transfer → Socket → Socket
unfolding send_loop notify_peer
on_inter_send user flag rs s =
    if is_connect s.status
    then if flag
      then stop_writing (notify_peer user (on_connect tcp_ok) (record s { status = status_common }))
      else on_inter_close user tcp_connectfail_timeout true s
    else send_loop user rs s
