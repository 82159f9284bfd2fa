-- ===== src/Net/Tcp/Runs.antt =====
-- Runs of a socket, and the theorems at one of them.
use xhnet.Common.{ℕ, true, ◌≡◌, refl, none, some, List, [], ◌∷◌, ◌++◌, ◌+◌, count}
use xhnet.Net.Tcp.{
  Buffer, Socket, new_socket, no_address, tcp_ok, tcp_connectfail_timeout, tcp_close_bylocal,
  type_connecter, on_connect, on_send, on_recv, on_close, asked_send, asked_recv,
}
use xhnet.Net.Tcp.Calls.{
  User, call_init, call_fini, call_connect, call_send, call_recv, run_call, run_calls, notify,
  notify_peer, init, fini, connect, async_send, async_recv,
}
use xhnet.Net.Tcp.Close.{
  on_inter_close, finish_close, close_peer, drain_send, drain_recv, discard_send, discard_recv,
}
use xhnet.Net.Tcp.Closing.{IsClosed, on_inter_close_lem}
use xhnet.Net.Tcp.Data.{bytes, on_inter_send, send_loop, sent}
use xhnet.Net.Tcp.Leaks.{finished_in_on_accept, finished_in_on_accept_lem, connect_twice}
use xhnet.Net.Tcp.Open.{listen_ip_fails, connects, connect_ip_fails, real_connect, real_fini}
use xhnet.Net.Tcp.Settled.{after, steps_tally, steps_settled}
use xhnet.Net.Tcp.Steps.{Step, call, run, writable, step, steps}
use xhnet.Net.Tcp.Tallies.{asked_sends, answered_sends, asked_recvs, answered_recvs}

-- Sends the buffer 1 and asks for the buffer 2 when the connection is there.
abbrev talker : User
talker (on_connect tcp_ok ∷ []) = call_send (some 1) ∷ call_recv (some 2) ∷ []
talker _ = []

abbrev ten_bytes : ℕ → Buffer
ten_bytes b = record { unread = 10; room = 10; tag = 0 }

abbrev opening : List Step
opening =
    call (call_init type_connecter true true true)
    ∷ call (call_connect no_address)
    ∷ run listen_ip_fails (connects 7 none) none
    ∷ writable true []
    ∷ []

abbrev closing : List Step
closing =
    writable true (bytes 4 ∷ bytes 6 ∷ [])
    ∷ call call_fini
    ∷ run listen_ip_fails connect_ip_fails none
    ∷ []

-- The buffer 1 is sent in two pieces, and `Fini` answers the buffer 2.
talk-log :
    (after talker (opening ++ closing) ten_bytes).log
    ≡ on_connect tcp_ok
      ∷ asked_send 1
      ∷ asked_recv 2
      ∷ on_send tcp_ok 1
      ∷ on_recv tcp_close_bylocal 2
      ∷ on_close tcp_close_bylocal
      ∷ []
unfolding steps step run_call run_calls init fini connect async_send async_recv notify notify_peer
    real_connect real_fini on_inter_send send_loop sent on_inter_close finish_close close_peer
    drain_send drain_recv discard_send discard_recv
talk-log = refl

talk-closed : (after talker (opening ++ closing) ten_bytes).closed ≡ 7 ∷ []
unfolding steps step run_call run_calls init fini connect async_send async_recv notify notify_peer
    real_connect real_fini on_inter_send send_loop sent on_inter_close finish_close close_peer
    drain_send drain_recv discard_send discard_recv
talk-closed = refl

abbrev connected : Socket
connected = after talker opening ten_bytes

on_inter_close_lem_example :
    IsClosed tcp_connectfail_timeout true connected
      (on_inter_close talker tcp_connectfail_timeout true connected)
unfolding steps step run_call run_calls init connect async_send async_recv notify notify_peer
    real_connect on_inter_send
on_inter_close_lem_example =
    on_inter_close_lem talker tcp_connectfail_timeout true connected refl refl refl

steps_tally_example :
    (answered_sends connected.log ++ connected.wait_send ≡ asked_sends connected.log)
    × (answered_recvs connected.log ++ connected.wait_recv ≡ asked_recvs connected.log)
    × ((b : ℕ) → connected.held b ≡ count b connected.wait_send + count b connected.wait_recv)
steps_tally_example = steps_tally talker opening ten_bytes

steps_settled_example :
    let s = after talker (opening ++ closing) ten_bytes in
    (answered_sends s.log ≡ asked_sends s.log)
    × (answered_recvs s.log ≡ asked_recvs s.log)
    × ((b : ℕ) → s.held b ≡ 0)
unfolding steps step run_call run_calls init fini connect async_send async_recv notify notify_peer
    real_connect real_fini on_inter_send send_loop sent on_inter_close finish_close close_peer
    drain_send drain_recv discard_send discard_recv
steps_settled_example = steps_settled talker (opening ++ closing) ten_bytes refl

finished_in_on_accept_lem_example :
    let s = steps talker (call call_fini ∷ []) (
      steps talker
        (finished_in_on_accept 7 no_address listen_ip_fails connect_ip_fails none)
        (new_socket ten_bytes)) in
    (s.handle ≡ some 7) × (s.registered ≡ true)
finished_in_on_accept_lem_example =
    finished_in_on_accept_lem talker 7 no_address listen_ip_fails connect_ip_fails none ten_bytes
      (call call_fini ∷ [])

abbrev connecter : Socket
connecter = after talker (call (call_init type_connecter true true true) ∷ []) ten_bytes

connect_twice_example :
    let first = connect no_address connecter in
    let second = connect no_address first.1 in
    let t =
      steps talker
        (run listen_ip_fails (connects 7 none) none
          ∷ run listen_ip_fails (connects 8 none) none
          ∷ [])
        second.1 in
    (first.0 ≡ true) × (second.0 ≡ true) × (t.handle ≡ some 8) × (t.closed ≡ connecter.closed)
unfolding steps step run_call init
connect_twice_example =
    connect_twice talker connecter no_address no_address 7 8 none none listen_ip_fails refl refl
      refl refl
