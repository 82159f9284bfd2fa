-- ===== src/Net/Tcp/DataSound.antt =====
-- Every step keeps a socket sound.
use mathlib.Core.Bool.{true≢false}
use xhnet.Common.{
  ℕ, Bool, true, false, ◌&&◌, ◌||◌, ◌==◌, ◌≡◌, refl, sym, ◌∙◌, ap, ap₂, inl, inr, List, [], ◌∷◌,
  arith, if◌then◌else◌, Bool-cases,
}
use xhnet.Net.Tcp.{
  tcp_ok, tcp_recvfail_closedbypeer, tcp_recvfail_recverr, tcp_sendfail_senderr, tcp_close_byreset,
  tcp_connectfail_timeout, Event, on_connect, Socket, is_peer, seek_buffer_read, seek_buffer_write,
  is_connect, front, no_buffers,
}
use xhnet.Net.Tcp.Calls.{User, notify_peer}
use xhnet.Net.Tcp.Close.{on_inter_close}
use xhnet.Net.Tcp.CloseSound.{on_inter_close-IsSound}
use xhnet.Net.Tcp.Data.{
  Transfer, bytes, would_block, failed, stop_reading, stop_writing, received, sent, recv_into,
  send_from, send_loop, on_inter_recv, on_inter_send,
}
use xhnet.Net.Tcp.Answer.{answer_send-IsSound, answer_recv-IsSound}
use xhnet.Net.Tcp.Sound.{IsSound, IsSound-same, IsNeutral, notify-IsSound}

abbrev Sound : Socket → Type 0
Sound s = IsSound [] [] s

-- A queue is empty, or it has a first buffer.
front-Sound :
    (l : List ℕ) {none_left : Socket} {first : ℕ → Socket}
    → Sound none_left
    → ((b : ℕ) (bs : List ℕ) → l ≡ b ∷ bs → Sound (first b))
    → Sound (front l none_left first)
front-Sound [] h k = h
front-Sound (b ∷ bs) h k = k b bs refl

and_false : (b : Bool) → (b && false) ≡ false
and_false true = refl
and_false false = refl

IsSound-peer :
    (s : Socket)
    → (no_buffers s.wait_send && no_buffers s.wait_recv) ≡ false
    → Sound s
    → (is_peer s.kind && s.has_cb) ≡ true
IsSound-peer s e h = elim h.waiting [
  | inl (e0, e1) ↦ absurd (true≢false (sym (ap₂ (λ v w. no_buffers v && no_buffers w) e0 e1) ∙ e))
  | inr (o, p) ↦ rw (p) (h.called p)
]

stop_reading-IsSound : (s : Socket) → Sound s → Sound (stop_reading s)
stop_reading-IsSound s h =
    IsSound-same h (ground arith) (ground arith) (ground arith) (ground arith) (ground arith)
      (ground (arith, h.called))

stop_writing-IsSound : (s : Socket) → Sound s → Sound (stop_writing s)
stop_writing-IsSound s h =
    IsSound-same h (ground arith) (ground arith) (ground arith) (ground arith) (ground arith)
      (ground (arith, h.called))

sent-IsSound :
    (user : User) (b : ℕ) (bs : List ℕ) (s : Socket)
    → s.wait_send ≡ b ∷ bs
    → Sound s
    → Sound (sent user b s)
unfolding sent notify_peer
sent-IsSound user b bs s e h = elim (Bool-cases ((s.buffers b).unread == 0)) [
  | inl e' ↦
      rw (e', IsSound-peer s (ap (λ l. no_buffers l && no_buffers s.wait_recv) e) h)
        (answer_send-IsSound user tcp_ok b bs s e h)
  | inr e' ↦ rw (e') h
]

received-IsSound :
    (user : User) (b : ℕ) (bs : List ℕ) (s : Socket)
    → s.wait_recv ≡ b ∷ bs
    → Sound s
    → Sound (received user b s)
unfolding received notify_peer
received-IsSound user b bs s e h =
    elim (Bool-cases ((s.buffers b).tag == 1 || (s.buffers b).room == 0)) [
      | inl e' ↦
          rw
            (
              e',
              IsSound-peer s
                  (ap (λ l. no_buffers s.wait_send && no_buffers l) e
                    ∙ and_false (no_buffers s.wait_send))
                  h,
            )
            (stop_reading-IsSound _ (answer_recv-IsSound user tcp_ok b bs s e h))
      | inr e' ↦ rw (e') h
    ]

recv_into-IsSound :
    (user : User) (r : Transfer) (b : ℕ) (bs : List ℕ) (s : Socket)
    → s.wait_recv ≡ b ∷ bs
    → Sound s
    → Sound (recv_into user r b s)
recv_into-IsSound user (bytes n) b bs s e h = elim (Bool-cases (n == 0)) [
  | inl e' ↦ rw (e') (on_inter_close-IsSound user tcp_recvfail_closedbypeer false s h)
  | inr e' ↦ rw (e') (
      received-IsSound user b bs (seek_buffer_write b n s) e
        (IsSound-same h refl refl refl refl (λ o. o) h.called))
]
recv_into-IsSound user would_block b bs s e h = h
recv_into-IsSound user failed b bs s e h =
    on_inter_close-IsSound user tcp_recvfail_recverr false s h

pub on_inter_recv-IsSound :
    (user : User) (r : Transfer) (s : Socket) → Sound s → Sound (on_inter_recv user r s)
unfolding on_inter_recv
on_inter_recv-IsSound user r s h =
    front-Sound s.wait_recv (IsSound-same h refl refl refl refl (λ o. o) h.called)
      λ b bs e. recv_into-IsSound user r b bs s e h

send_from-IsSound :
    (user : User) (r : Transfer) (b : ℕ) (bs : List ℕ) (more : Socket → Socket) (s : Socket)
    → ((t : Socket) → Sound t → Sound (more t))
    → s.wait_send ≡ b ∷ bs
    → Sound s
    → Sound (send_from user r b more s)
send_from-IsSound user (bytes n) b bs more s k e h = elim (Bool-cases (n == 0)) [
  | inl e' ↦ rw (e') (stop_writing-IsSound _ (sent-IsSound user b bs s e h))
  | inr e' ↦ rw (e') (
      k _ (
        sent-IsSound user b bs (seek_buffer_read b n s) e
          (IsSound-same h refl refl refl refl (λ o. o) h.called)))
]
send_from-IsSound user would_block b bs more s k e h =
    stop_writing-IsSound _ (sent-IsSound user b bs s e h)
send_from-IsSound user failed b bs more s k e h =
    on_inter_close-IsSound user tcp_sendfail_senderr false s h

-- One turn of the loop, where `more` is the rest of it.
send_turn-IsSound :
    (user : User) (r : Transfer) (more : Socket → Socket) (s : Socket)
    → ((t : Socket) → Sound t → Sound (more t))
    → Sound s
    → Sound (
        front s.wait_send (stop_writing s) λ b.
          if (s.buffers b).unread == 0
          then on_inter_close user tcp_close_byreset false s
          else send_from user r b more s)
send_turn-IsSound user r more s k h = front-Sound s.wait_send (stop_writing-IsSound s h) λ b bs e.
    elim (Bool-cases ((s.buffers b).unread == 0)) [
      | inl e' ↦ rw (e') (on_inter_close-IsSound user tcp_close_byreset false s h)
      | inr e' ↦ rw (e') (send_from-IsSound user r b bs more s k e h)
    ]

send_loop-IsSound :
    (user : User) (rs : List Transfer) (s : Socket) → Sound s → Sound (send_loop user rs s)
unfolding send_loop
send_loop-IsSound user [] s h = send_turn-IsSound user would_block (λ t. t) s (λ t k. k) h
send_loop-IsSound user (r ∷ rs) s h =
    send_turn-IsSound user r (λ t. send_loop user rs t) s (λ t k. send_loop-IsSound user rs t k) h

notify_peer-IsSound :
    (user : User) (e : Event) (s : Socket) → IsNeutral e → Sound s → Sound (notify_peer user e s)
unfolding notify_peer
notify_peer-IsSound user e s n h = elim (Bool-cases (is_peer s.kind && s.has_cb)) [
  | inl e' ↦ rw (e') (notify-IsSound user e s n h)
  | inr e' ↦ rw (e') h
]

pub on_inter_send-IsSound :
    (user : User) (flag : Bool) (rs : List Transfer) (s : Socket)
    → Sound s
    → Sound (on_inter_send user flag rs s)
unfolding on_inter_send
on_inter_send-IsSound user flag rs s h = elim (Bool-cases (is_connect s.status)) [
  | inl e ↦ rw (e) (elim (Bool-cases flag) [
    | inl e' ↦ rw (e') (
        stop_writing-IsSound _ (
          notify_peer-IsSound user (on_connect tcp_ok) _ (refl, refl, refl, refl)
            (IsSound-same h refl refl refl refl (λ o. (refl, o.1)) h.called)))
    | inr e' ↦ rw (e') (on_inter_close-IsSound user tcp_connectfail_timeout true s h)
  ])
  | inr e ↦ rw (e) (send_loop-IsSound user rs s h)
]
