-- ===== src/Net/Tcp/CloseSound.antt =====
-- `on_inter_close` answers every buffer that waits.
use mathlib.Core.List.{map}
use xhnet.Common.{
  ℕ, ◌-◌, Bool, true, false, ◌≡◌, refl, sym, ◌∙◌, ap, subst, ◌⊎◌, inl, inr, List, [], ◌∷◌, ◌++◌,
  count, append-nil, arith,
}
use xhnet.Net.Tcp.{
  TcpError, Event, on_send, on_recv, on_connect, on_close, on_listen, status_null, Socket, is_null,
  is_peer, assign_at,
}
use xhnet.Net.Tcp.Calls.{User, notify}
use xhnet.Net.Tcp.Quiet.{IsRefusing, notify-refusing}
use xhnet.Net.Tcp.Close.{close_listener, finish_close, on_inter_close}
use xhnet.Net.Tcp.Drain.{close_events, release_all}
use xhnet.Net.Tcp.Closing.{IsClosed, on_inter_close_lem}
use xhnet.Net.Tcp.Tallies.{
  collect, collect-append, asked_send_of, answered_send_of, asked_recv_of, answered_recv_of,
  Tallies,
}
use xhnet.Net.Tcp.Sound.{IsSound, IsSound-same, notify-IsSound}

count-release_all :
    (bs : List ℕ) (held : ℕ → ℕ) (x : ℕ) → release_all bs held x ≡ held x - count x bs
count-release_all [] held x = omega arith
count-release_all (b ∷ bs) held x =
    ground (arith, count-release_all bs (assign_at held b (held b - 1)) x)

collect-map_all :
    (f : Event → List ℕ) (e : ℕ → Event) (bs : List ℕ)
    → ((b : ℕ) → f (e b) ≡ b ∷ [])
    → collect f (map e bs) ≡ bs
collect-map_all f e [] h = refl
collect-map_all f e (b ∷ bs) h = rw (h b) (ap (λ l. b ∷ l) (collect-map_all f e bs h))

collect-map_none :
    (f : Event → List ℕ) (e : ℕ → Event) (bs : List ℕ)
    → ((b : ℕ) → f (e b) ≡ [])
    → collect f (map e bs) ≡ []
collect-map_none f e [] h = refl
collect-map_none f e (b ∷ bs) h = rw (h b) (collect-map_none f e bs h)

-- What a selection of events sees of the events of a close.
collect-close_events :
    (f : Event → List ℕ) (err : TcpError) (connecting : Bool) (s : Socket)
    → f (on_connect err) ≡ []
    → f (on_close err) ≡ []
    → collect f (close_events err connecting s)
      ≡ collect f (map (on_send err) s.wait_send) ++ collect f (map (on_recv err) s.wait_recv)
collect-close_events f err true s c d =
    rw
      (
        c,
        collect-append f (map (on_send err) s.wait_send)
            (map (on_recv err) s.wait_recv ++ (on_close err ∷ [])),
        collect-append f (map (on_recv err) s.wait_recv) (on_close err ∷ []),
        d,
        append-nil,
      )
      refl
collect-close_events f err false s c d =
    rw
      (
        collect-append f (map (on_send err) s.wait_send)
            (map (on_recv err) s.wait_recv ++ (on_close err ∷ [])),
        collect-append f (map (on_recv err) s.wait_recv) (on_close err ∷ []),
        d,
        append-nil,
      )
      refl

Tallies-closed :
    {queue answered asked : List ℕ}
    → Tallies [] queue answered asked
    → Tallies [] [] (answered ++ queue) (asked ++ [])
Tallies-closed {queue = queue} {answered = answered} {asked = asked} h = record {
  rest = [];
  queued = refl;
  all =
      append-nil (answered ++ queue)
      ∙ ap (λ l. answered ++ l) h.queued
      ∙ h.all
      ∙ sym (append-nil asked);
}

IsClosed-IsSound :
    (err : TcpError) (connecting : Bool) (s t : Socket)
    → IsSound [] [] s
    → s.has_cb ≡ true
    → IsClosed err connecting s t
    → IsSound [] [] t
IsClosed-IsSound err connecting s t h c k =
    let seen = λ (f : Event → List ℕ) (e : f (on_connect err) ≡ []) (e' : f (on_close err) ≡ []).
      ap (collect f) k.told
      ∙ collect-append f s.log (close_events err connecting s)
      ∙ ap (λ l. collect f s.log ++ l) (collect-close_events f err connecting s e e') in
    record {
      sends =
          rw
            (
              k.no_send,
              seen answered_send_of refl refl,
              seen asked_send_of refl refl,
              collect-map_all answered_send_of (on_send err) s.wait_send (λ b. refl),
              collect-map_none answered_send_of (on_recv err) s.wait_recv (λ b. refl),
              collect-map_none asked_send_of (on_send err) s.wait_send (λ b. refl),
              collect-map_none asked_send_of (on_recv err) s.wait_recv (λ b. refl),
              append-nil s.wait_send,
            )
            (Tallies-closed h.sends);
      recvs =
          rw
            (
              k.no_recv,
              seen answered_recv_of refl refl,
              seen asked_recv_of refl refl,
              collect-map_none answered_recv_of (on_send err) s.wait_send (λ b. refl),
              collect-map_all answered_recv_of (on_recv err) s.wait_recv (λ b. refl),
              collect-map_none asked_recv_of (on_send err) s.wait_send (λ b. refl),
              collect-map_none asked_recv_of (on_recv err) s.wait_recv (λ b. refl),
            )
            (Tallies-closed h.recvs);
      held = λ b.
          rw (k.no_send, k.no_recv, k.references)
            (omega (
              arith,
              h.held b,
              count-release_all s.wait_send s.held b,
              count-release_all s.wait_recv (release_all s.wait_send s.held) b,
            ));
      waiting = inl (k.no_send, k.no_recv);
      called = λ p. k.callback_kept ∙ c;
    }

finish_close-IsSound : (s : Socket) → IsSound [] [] s → IsSound [] [] (finish_close s)
unfolding finish_close
finish_close-IsSound s h =
    IsSound-same h (ground arith) (ground arith) (ground arith) (ground arith) (ground arith)
      (ground (arith, h.called))

with_status_null :
    (s : Socket)
    → IsSound [] [] s
    → is_peer s.kind ≡ false
    → IsSound [] [] (record s { status = status_null })
with_status_null s h p = IsSound-same h refl refl refl refl (ground arith) h.called

close_listener-IsSound :
    (user : User) (err : TcpError) (connecting : Bool) (s : Socket)
    → IsSound [] [] s
    → IsSound [] [] (close_listener user err connecting s)
unfolding close_listener
close_listener-IsSound user err true s h =
    notify-IsSound user (on_close err) _ (refl, refl, refl, refl)
      (notify-IsSound user (on_listen err) s (refl, refl, refl, refl) h)
close_listener-IsSound user err false s h =
    notify-IsSound user (on_close err) s (refl, refl, refl, refl) h

-- The ways through `on_inter_close`.
on_inter_close-cases :
    (user : User) (err : TcpError) (connecting : Bool) (s : Socket)
    → let t = record s { status = status_null } in
      ((on_inter_close user err connecting s ≡ s) × (is_null s.status ≡ true))
      ⊎ ((is_null s.status ≡ false) × (is_peer s.kind ≡ true) × (s.has_cb ≡ true))
      ⊎ ((on_inter_close user err connecting s ≡ finish_close t)
          × ((is_peer s.kind ≡ false) ⊎ (s.has_cb ≡ false)))
      ⊎ ((on_inter_close user err connecting s
            ≡ finish_close (close_listener user err connecting t))
          × (is_peer s.kind ≡ false)
          × (s.has_cb ≡ true))
unfolding on_inter_close
on_inter_close-cases user err connecting s = ground arith

pub on_inter_close-IsSound :
    (user : User) (err : TcpError) (connecting : Bool) (s : Socket)
    → IsSound [] [] s
    → IsSound [] [] (on_inter_close user err connecting s)
on_inter_close-IsSound user err connecting s h =
    let t = record s { status = status_null } in
    elim (on_inter_close-cases user err connecting s) [
      | inl (e, n) ↦ subst (IsSound [] []) (sym e) h
      | inr (inl (o, p, c)) ↦
          IsClosed-IsSound err connecting s _ h c (on_inter_close_lem user err connecting s o p c)
      | inr (inr (inl (e, p))) ↦
          subst (IsSound [] []) (sym e)
            (finish_close-IsSound t (with_status_null s h (ground (arith, h.called))))
      | inr (inr (inr (e, p, c))) ↦ subst (IsSound [] []) (sym e) (
          finish_close-IsSound _
            (close_listener-IsSound user err connecting t (with_status_null s h p)))
    ]

close_listener-queues :
    (user : User) (err : TcpError) (connecting : Bool) (s : Socket)
    → IsRefusing s
    → ((close_listener user err connecting s).wait_send ≡ s.wait_send)
      × ((close_listener user err connecting s).wait_recv ≡ s.wait_recv)
unfolding close_listener
close_listener-queues user err false s h =
    let e = notify-refusing user (on_close err) s h in
    (ap (λ x. x.wait_send) e, ap (λ x. x.wait_recv) e)
close_listener-queues user err true s h =
    let e = notify-refusing user (on_listen err) s h in
    let first = notify user (on_listen err) s in
    let r = subst IsRefusing (sym e) (record { is_null = h.is_null; has_cb = h.has_cb }) in
    let e' = notify-refusing user (on_close err) first r in
    (
      ap (λ x. x.wait_send) e' ∙ ap (λ x. x.wait_send) e,
      ap (λ x. x.wait_recv) e' ∙ ap (λ x. x.wait_recv) e,
    )

abbrev pub IsDrained : Socket → Type 0
IsDrained s = (s.wait_send ≡ []) × (s.wait_recv ≡ [])

pub IsSound-IsDrained :
    (s : Socket)
    → IsSound [] [] s
    → (is_null s.status ≡ true) ⊎ (is_peer s.kind ≡ false)
    → IsDrained s
IsSound-IsDrained s h n = ground (arith, h.waiting)

finish_close-queues :
    (s : Socket)
    → ((finish_close s).wait_send ≡ s.wait_send) × ((finish_close s).wait_recv ≡ s.wait_recv)
unfolding finish_close
finish_close-queues s = ground arith

-- Whatever the kind of the socket, nothing waits after a close.
pub on_inter_close-IsDrained :
    (user : User) (err : TcpError) (connecting : Bool) (s : Socket)
    → IsSound [] [] s
    → IsDrained (on_inter_close user err connecting s)
on_inter_close-IsDrained user err connecting s h =
    let t = record s { status = status_null } in
    elim (on_inter_close-cases user err connecting s) [
      | inl (e, n) ↦ subst IsDrained (sym e) (IsSound-IsDrained s h (inl n))
      | inr (inl (o, p, c)) ↦
          let k = on_inter_close_lem user err connecting s o p c in (k.no_send, k.no_recv)
      | inr (inr (inl (e, p))) ↦
          let d = IsSound-IsDrained s h (inr (ground (arith, h.called))) in
          let q = finish_close-queues t in subst IsDrained (sym e) (q.0 ∙ d.0, q.1 ∙ d.1)
      | inr (inr (inr (e, p, c))) ↦
          let d = IsSound-IsDrained s h (inr p) in
          let l = close_listener user err connecting t in
          let q = finish_close-queues l in
          let r =
            close_listener-queues user err connecting t (record { is_null = refl; has_cb = c }) in
          subst IsDrained (sym e) (q.0 ∙ r.0 ∙ d.0, q.1 ∙ r.1 ∙ d.1)
    ]
