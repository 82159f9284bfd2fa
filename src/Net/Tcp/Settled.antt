-- ===== src/Net/Tcp/Settled.antt =====
-- What the soundness of a socket means for its user.
use xhnet.Common.{ℕ, ◌+◌, true, ◌≡◌, sym, ◌∙◌, ap, ap₂, inl, List, [], ◌++◌, count, append-nil}
use xhnet.Net.Tcp.{Socket, new_socket, Buffer, is_null}
use xhnet.Net.Tcp.Calls.{User}
use xhnet.Net.Tcp.CloseSound.{IsSound-IsDrained}
use xhnet.Net.Tcp.Tallies.{Tallies, asked_sends, answered_sends, asked_recvs, answered_recvs}
use xhnet.Net.Tcp.Steps.{Step, steps}
use xhnet.Net.Tcp.OpenSound.{steps-IsSound}

Tallies-waiting :
    {queue answered asked : List ℕ} → Tallies [] queue answered asked → answered ++ queue ≡ asked
Tallies-waiting {answered = answered} h = ap (λ l. answered ++ l) h.queued ∙ h.all

abbrev pub after : User → List Step → (ℕ → Buffer) → Socket
after user xs buffers = steps user xs (new_socket buffers)

-- In any run of a new socket, the buffers of the accepted calls of `Async_Send` are, in their order,
-- those that `On_Send` has told the user of and then those that wait; the same holds of the calls of
-- `Async_Recv` and `Async_RecvSome`; and the socket holds one reference to a buffer for each time
-- that it waits.
pub steps_tally :
    (user : User) (xs : List Step) (buffers : ℕ → Buffer)
    → let s = after user xs buffers in
      (answered_sends s.log ++ s.wait_send ≡ asked_sends s.log)
      × (answered_recvs s.log ++ s.wait_recv ≡ asked_recvs s.log)
      × ((b : ℕ) → s.held b ≡ count b s.wait_send + count b s.wait_recv)
steps_tally user xs buffers =
    let h = steps-IsSound user xs buffers in
    (Tallies-waiting h.sends, Tallies-waiting h.recvs, h.held)

-- In any run of a new socket, whenever its status is null, as it is after a close, each accepted
-- call of `Async_Send`, `Async_Recv` and `Async_RecvSome` has been answered once, in the order of the
-- calls, and the socket holds no reference to a buffer.
pub steps_settled :
    (user : User) (xs : List Step) (buffers : ℕ → Buffer)
    → let s = after user xs buffers in
      is_null s.status ≡ true
      → (answered_sends s.log ≡ asked_sends s.log)
        × (answered_recvs s.log ≡ asked_recvs s.log)
        × ((b : ℕ) → s.held b ≡ 0)
steps_settled user xs buffers n =
    let s = after user xs buffers in
    let h = steps-IsSound user xs buffers in
    let d = IsSound-IsDrained s h (inl n) in
    (
      sym (append-nil (answered_sends s.log))
          ∙ ap (λ l. answered_sends s.log ++ l) (sym d.0)
          ∙ Tallies-waiting h.sends,
      sym (append-nil (answered_recvs s.log))
          ∙ ap (λ l. answered_recvs s.log ++ l) (sym d.1)
          ∙ Tallies-waiting h.recvs,
      λ b. h.held b ∙ ap₂ (λ v w. count b v + count b w) d.0 d.1,
    )
