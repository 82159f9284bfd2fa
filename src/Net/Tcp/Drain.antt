-- ===== src/Net/Tcp/Drain.antt =====
-- The loops of `on_inter_close` over the buffers that wait.
use xhnet.Common.{
  ℕ, ◌-◌, Bool, true, false, ◌≡◌, refl, sym, ◌∙◌, ap, ap₂, subst, List, [], ◌∷◌, ◌++◌, length,
  append-nil, append_assoc, if◌then◌else◌,
}
use mathlib.Core.List.{map}
use xhnet.Net.Tcp.{
  TcpError, Event, on_send, on_recv, on_close, on_connect, Socket, assign_at, pop_send, pop_recv,
  tail, front, drop_buffer,
}
use xhnet.Net.Tcp.Calls.{User, notify}
use xhnet.Net.Tcp.Close.{drain_send, drain_recv, close_peer, discard, discard_send, discard_recv}
use xhnet.Net.Tcp.Quiet.{IsRefusing, notify-refusing}

abbrev pub release_all : List ℕ → (ℕ → ℕ) → ℕ → ℕ
release_all [] held = held
release_all (b ∷ bs) held = release_all bs (assign_at held b (held b - 1))

-- The socket when the user has been told of `bs`, and `t` is how he has left it.
abbrev pub answer_send : TcpError → List ℕ → Socket → Socket → Socket
answer_send err bs s t = record s {
  log = s.log ++ map (on_send err) bs;
  wait_send = [];
  held = release_all bs s.held;
  buffers = t.buffers;
  posted = t.posted;
}

abbrev pub answer_recv : TcpError → List ℕ → Socket → Socket → Socket
answer_recv err bs s t = record s {
  log = s.log ++ map (on_recv err) bs;
  wait_recv = [];
  held = release_all bs s.held;
  buffers = t.buffers;
  posted = t.posted;
}

pub drain_send-refusing :
    (user : User) (err : TcpError) (bs : List ℕ) (s : Socket)
    → IsRefusing s
    → s.wait_send ≡ bs
    → drain_send user err (length bs) s ≡ answer_send err bs s (drain_send user err (length bs) s)
unfolding drain_send
drain_send-refusing user err [] s h e =
    ap₂ {B = List Event} (λ w l. record s { wait_send = w; log = l }) e (sym (append-nil s.log))
drain_send-refusing user err (b ∷ bs) s h e =
    let t = notify user (on_send err b) s in
    let first = notify-refusing user (on_send err b) s h in
    let popped =
      ap (pop_send b) first
      ∙ ap
          (λ w. record s {
            wait_send = tail w;
            log = s.log ++ (on_send err b ∷ []);
            held = drop_buffer b s;
            buffers = t.buffers;
            posted = t.posted;
          })
          e in
    let rest = drain_send user err (length bs) (pop_send b t) in
    let opened =
      ap
        (λ w.
          front w s
            λ b'. drain_send user err (length bs) (pop_send b' (notify user (on_send err b') s)))
        e in
    opened
    ∙ drain_send-refusing user err bs (pop_send b t)
        (subst IsRefusing (sym popped) (record { is_null = h.is_null; has_cb = h.has_cb }))
        (ap (λ x. x.wait_send) popped)
    ∙ ap (λ x. answer_send err bs x rest) popped
    ∙ ap {B = Socket} (λ l. record (answer_send err (b ∷ bs) s rest) { log = l })
        (append_assoc s.log (on_send err b ∷ []) (map (on_send err) bs))
    ∙ ap (answer_send err (b ∷ bs) s) (sym opened)

pub drain_recv-refusing :
    (user : User) (err : TcpError) (bs : List ℕ) (s : Socket)
    → IsRefusing s
    → s.wait_recv ≡ bs
    → drain_recv user err (length bs) s ≡ answer_recv err bs s (drain_recv user err (length bs) s)
unfolding drain_recv
drain_recv-refusing user err [] s h e =
    ap₂ {B = List Event} (λ w l. record s { wait_recv = w; log = l }) e (sym (append-nil s.log))
drain_recv-refusing user err (b ∷ bs) s h e =
    let t = notify user (on_recv err b) s in
    let first = notify-refusing user (on_recv err b) s h in
    let popped =
      ap (pop_recv b) first
      ∙ ap
          (λ w. record s {
            wait_recv = tail w;
            log = s.log ++ (on_recv err b ∷ []);
            held = drop_buffer b s;
            buffers = t.buffers;
            posted = t.posted;
          })
          e in
    let rest = drain_recv user err (length bs) (pop_recv b t) in
    let opened =
      ap
        (λ w.
          front w s
            λ b'. drain_recv user err (length bs) (pop_recv b' (notify user (on_recv err b') s)))
        e in
    opened
    ∙ drain_recv-refusing user err bs (pop_recv b t)
        (subst IsRefusing (sym popped) (record { is_null = h.is_null; has_cb = h.has_cb }))
        (ap (λ x. x.wait_recv) popped)
    ∙ ap (λ x. answer_recv err bs x rest) popped
    ∙ ap {B = Socket} (λ l. record (answer_recv err (b ∷ bs) s rest) { log = l })
        (append_assoc s.log (on_recv err b ∷ []) (map (on_recv err) bs))
    ∙ ap (answer_recv err (b ∷ bs) s) (sym opened)

abbrev pub connect_event : TcpError → Bool → List Event
connect_event err true = on_connect err ∷ []
connect_event err false = []

-- All that the user is told when an accepter or a connecter closes.
abbrev pub close_events : TcpError → Bool → Socket → List Event
close_events err connecting s =
    connect_event err connecting
    ++ (map (on_send err) s.wait_send ++ (map (on_recv err) s.wait_recv ++ (on_close err ∷ [])))

abbrev pub answer_all : TcpError → Bool → Socket → Socket → Socket
answer_all err connecting s t = record s {
  log = s.log ++ close_events err connecting s;
  wait_send = [];
  wait_recv = [];
  held = release_all s.wait_recv (release_all s.wait_send s.held);
  buffers = t.buffers;
  posted = t.posted;
}

regroup :
    {A : Type 0} (l a b c d : List A) → (((l ++ a) ++ b) ++ c) ++ d ≡ l ++ (a ++ (b ++ (c ++ d)))
regroup l a b c d =
    append_assoc ((l ++ a) ++ b) c d
    ∙ append_assoc (l ++ a) b (c ++ d)
    ∙ append_assoc l a (b ++ (c ++ d))

abbrev with_connect : User → TcpError → Bool → Socket → Socket
with_connect user err connecting s = if connecting then notify user (on_connect err) s else s

abbrev told : List Event → Socket → Socket → Socket
told es s t = record s { log = s.log ++ es; buffers = t.buffers; posted = t.posted }

with_connect-refusing :
    (user : User) (err : TcpError) (connecting : Bool) (s : Socket)
    → IsRefusing s
    → with_connect user err connecting s
      ≡ told (connect_event err connecting) s (with_connect user err connecting s)
with_connect-refusing user err true s h = notify-refusing user (on_connect err) s h
with_connect-refusing user err false s h =
    ap {B = Socket} (λ l. record s { log = l }) (sym (append-nil s.log))

IsRefusing-told : {s t : Socket} → t ≡ s → IsRefusing s → IsRefusing t
IsRefusing-told e h = subst IsRefusing (sym e) h

discard-nothing : (s : Socket) → s.wait_send ≡ [] → s.wait_recv ≡ [] → discard s ≡ s
unfolding discard_send discard_recv
discard-nothing s e e' =
    ap (λ w. let t = discard_send w s in discard_recv t.wait_recv t) e
    ∙ ap (λ w. discard_recv w s) e'

pub close_peer-refusing :
    (user : User) (err : TcpError) (connecting : Bool) (s : Socket)
    → IsRefusing s
    → close_peer user err connecting s
      ≡ answer_all err connecting s (close_peer user err connecting s)
unfolding close_peer discard_send discard_recv
close_peer-refusing user err connecting s h =
    let t = with_connect user err connecting s in
    let sent = drain_send user err (length t.wait_send) t in
    let received = drain_recv user err (length sent.wait_recv) sent in
    let last = notify user (on_close err) received in
    let e0 = with_connect-refusing user err connecting s h in
    let r0 = IsRefusing-told e0 (record { is_null = h.is_null; has_cb = h.has_cb }) in
    let e1 =
      drain_send-refusing user err t.wait_send t r0 refl
      ∙ ap (λ x. answer_send err x.wait_send x sent) e0 in
    let r1 = IsRefusing-told e1 (record { is_null = h.is_null; has_cb = h.has_cb }) in
    let e2 =
      drain_recv-refusing user err sent.wait_recv sent r1 refl
      ∙ ap (λ x. answer_recv err x.wait_recv x received) e1 in
    let r2 = IsRefusing-told e2 (record { is_null = h.is_null; has_cb = h.has_cb }) in
    let e3 =
      notify-refusing user (on_close err) received r2
      ∙ ap (λ x. told (on_close err ∷ []) x last) e2 in
    let none_left = discard-nothing last (ap (λ x. x.wait_send) e3) (ap (λ x. x.wait_recv) e3) in
    none_left
    ∙ e3
    ∙ ap {B = Socket} (λ l. record (answer_all err connecting s last) { log = l })
        (regroup s.log (connect_event err connecting) (map (on_send err) s.wait_send)
          (map (on_recv err) s.wait_recv) (on_close err ∷ []))
    ∙ ap (answer_all err connecting s) (sym none_left)
