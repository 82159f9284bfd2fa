-- ===== src/Net/Timer/Finish.antt =====
-- The end of a timer.
use mathlib.Core.Bool.{false≢true}
use xhnet.Common.{
  ℕ, zero, suc, ◌≤◌, ◌<◌, ◌≡◌, refl, sym, List, [], ◌∷◌, ◌++◌, arith, length, append-nil, inl, inr,
  subst,
}
use xhnet.Net.Timer.{
  Timer, post_real_fini, call_fini, Told, TimerUser, TimerStep, calls, runs, fires, run_call,
  fini_timer, timer_step, timer_steps,
}
use xhnet.Net.Timer.Posted.{fini_within, fini_within-last}
use xhnet.Net.Timer.Ended.{IsEnded, IsEnded-steps}
use xhnet.Net.Timer.Finishing.{
  IsLive, IsFinishing, IsFinishing-fires, IsFinishing-calls, IsFinishing-posted, IsFinishing-other,
  fires-end, is_clock_null-live,
}

-- How many of the steps run a posted function.
abbrev pub runs_of : List TimerStep → ℕ
runs_of [] = 0
runs_of (calls c ∷ ys) = runs_of ys
runs_of (runs ∷ ys) = suc (runs_of ys)
runs_of (fires ∷ ys) = runs_of ys

module _ (user : TimerUser) (before : List Told) where
  finishing-ends :
      (xs : List TimerStep) (k : ℕ) (t : Timer)
      → IsFinishing before k t
      → k ≤ runs_of xs
      → IsEnded before (timer_steps user (xs ++ (fires ∷ [])) t)
  unfolding timer_steps fini_within
  finishing-ends [] zero t f h = elim f.due [
    | inl q ↦ fires-end user before 0 t f q
    | inr d ↦ absurd (false≢true d)
  ]
  finishing-ends [] (suc k) t f h = absurd (omega arith)
  finishing-ends (calls c ∷ xs) k t f h =
      finishing-ends xs k (timer_step user (calls c) t) (IsFinishing-calls user before k t c f) h
  finishing-ends (runs ∷ xs) zero t f h = elim f.due [
    | inl q ↦
        let more = IsFinishing-other user before 0 1 t t.posted f (λ d. absurd (false≢true d)) in
        finishing-ends xs 0 (timer_step user runs t)
          (IsFinishing-posted user before 0 t t.posted more refl) (omega arith)
    | inr d ↦ absurd (false≢true d)
  ]
  finishing-ends (runs ∷ xs) (suc k) t f h =
      finishing-ends xs k (timer_step user runs t)
        (IsFinishing-posted user before k t t.posted f refl) (omega arith)
  finishing-ends (fires ∷ xs) k t f h = elim (IsFinishing-fires user before k t t.clock f refl) [
    | inl g ↦ finishing-ends xs k (timer_step user fires t) g h
    | inr g ↦ IsEnded-steps user before (xs ++ (fires ∷ [])) (timer_step user fires t) g
  ]

fini_timer-live :
    (t : Timer)
    → IsLive t
    → run_call call_fini t ≡ record t { posted = t.posted ++ (post_real_fini ∷ []) }
unfolding run_call fini_timer
fini_timer-live t f = rw (is_clock_null-live t.clock f.live, f.has_io) refl

-- After `Fini` a timer that has a callback and whose event is added ends: with any user, and
-- whatever is called, run and fired meanwhile, when more posted functions have run than were posted
-- before `Fini` and the event fires after that, the user has been told `timer_end`, once since then
-- and as the last, and the timer has no callback and no event and is gone from the server.
pub fini-ends :
    (user : TimerUser) (xs : List TimerStep) (t : Timer)
    → IsLive t
    → length t.posted < runs_of xs
    → IsEnded t.log (timer_steps user (calls call_fini ∷ xs ++ (fires ∷ [])) t)
unfolding timer_steps timer_step
fini-ends user xs t f h =
    let u = record t { posted = t.posted ++ (post_real_fini ∷ []) } in
    let finishing : IsFinishing t.log (runs_of xs) u = record {
      live = record {
        live = f.live;
        has_io = f.has_io;
        has_cb = f.has_cb;
        event_added = f.event_added;
      };
      due = inr (fini_within-last (runs_of xs) t.posted h);
      told = [];
      told-no_end = refl;
      log = sym (append-nil t.log);
    } in
    subst (λ v. IsEnded t.log (timer_steps user (xs ++ (fires ∷ [])) v)) (sym (fini_timer-live t f))
      (finishing-ends user t.log xs (runs_of xs) u finishing (omega arith))
