-- ===== src/Net/Timer/Ended.antt =====
-- A timer that has ended.
use mathlib.Core.Bool.{false≢true}
use xhnet.Common.{Bool, true, false, ◌≡◌, sym, ◌∙◌, List, [], ◌∷◌, ◌++◌, if◌then◌else◌, ap}
use xhnet.Net.Timer.{
  clock_null, timer_ok, timer_begin, timer_end, Timer, TimerPost, post_real_fini, post_real_wait,
  Told, TimerUser, TimerStep, calls, runs, fires, real_fini, real_wait, run_next, timer_real_fini,
  is_clock_init, timer_step, timer_steps,
}
use xhnet.Net.Timer.Posted.{run_call-posted}

abbrev pub no_end : List Told → Bool
no_end [] = true
no_end (timer_end ∷ l) = false
no_end (_ ∷ l) = no_end l

pub no_end-append : (l k : List Told) → no_end l ≡ true → no_end k ≡ true → no_end (l ++ k) ≡ true
no_end-append [] k h g = g
no_end-append (timer_ok ∷ l) k h g = no_end-append l k h g
no_end-append (timer_begin ∷ l) k h g = no_end-append l k h g
no_end-append (timer_end ∷ l) k h g = absurd (false≢true h)

-- The user has been told of the end once, after `before` and whatever the timer told before its end,
-- and the timer has no callback and no event and is gone from the server.
pub record IsEnded (before : List Told) (t : Timer) : Type 0 where
  pub clock : t.clock ≡ clock_null
  pub has_io : t.has_io ≡ true
  pub has_cb : t.has_cb ≡ false
  pub event_added : t.event_added ≡ false
  pub registered : t.registered ≡ false
  pub told : List Told
  pub told-no_end : no_end told ≡ true
  pub log : t.log ≡ before ++ (told ++ (timer_end ∷ []))

module _ (user : TimerUser) (before : List Told) where
  -- An ended timer with other functions posted, of which each does nothing.
  pub IsEnded-other :
      (t : Timer) (ps : List TimerPost)
      → IsEnded before t
      → IsEnded before (record t { posted = ps })
  IsEnded-other t ps f = record {
    clock = f.clock;
    has_io = f.has_io;
    has_cb = f.has_cb;
    event_added = f.event_added;
    registered = f.registered;
    told = f.told;
    told-no_end = f.told-no_end;
    log = f.log;
  }

  pub IsEnded-next :
      (ps : List TimerPost) (t : Timer) → IsEnded before t → IsEnded before (run_next ps t)
  unfolding real_fini real_wait
  IsEnded-next [] t f = f
  IsEnded-next (post_real_fini ∷ ps) t f =
      let stays : timer_real_fini t.clock ≡ t.clock = ap timer_real_fini f.clock ∙ sym f.clock in
      rw stays (IsEnded-other t ps f)
  IsEnded-next (post_real_wait ms ∷ ps) t f = rw (ap is_clock_init f.clock) (IsEnded-other t ps f)

  pub IsEnded-unless :
      (test : Bool) (t u : Timer)
      → test ≡ false
      → IsEnded before u
      → IsEnded before (if test then t else u)
  IsEnded-unless true t u e f = absurd (false≢true (sym e))
  IsEnded-unless false t u e f = f

  pub IsEnded-step :
      (x : TimerStep) (t : Timer) → IsEnded before t → IsEnded before (timer_step user x t)
  unfolding timer_step
  IsEnded-step (calls c) t f =
      let posted = run_call-posted c t f.has_io in
      rw posted.1 (IsEnded-other t (t.posted ++ posted.0) f)
  IsEnded-step runs t f = IsEnded-next t.posted t f
  IsEnded-step fires t f = IsEnded-unless t.event_added _ t f.event_added f

  pub IsEnded-steps :
      (xs : List TimerStep) (t : Timer) → IsEnded before t → IsEnded before (timer_steps user xs t)
  unfolding timer_steps
  IsEnded-steps [] t f = f
  IsEnded-steps (x ∷ xs) t f = IsEnded-steps xs (timer_step user x t) (IsEnded-step x t f)
