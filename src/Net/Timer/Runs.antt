-- ===== src/Net/Timer/Runs.antt =====
-- The life of a timer, and the theorems at one.
use xhnet.Common.{true, ◌≡◌, refl, List, [], ◌∷◌, ◌++◌, arith}
use xhnet.Net.Timer.{
  clock_begin, Timer, post_real_wait, timer_ok, timer_begin, timer_end, TimerUser, TimerStep, calls,
  runs, fires, call_init, call_fini, call_wait, new_timer, init_timer, fini_timer, async_wait,
  run_call, run_calls, on_timer, real_fini, real_wait, timer_clock, timer_step, timer_steps,
}
use xhnet.Net.Timer.Protocol.{is_protocol}
use xhnet.Net.Timer.Timely.{timer_steps-protocol}
use xhnet.Net.Timer.Ended.{IsEnded}
use xhnet.Net.Timer.Finish.{fini-ends}

-- Ends the timer when it has been told `timer_ok` once.
abbrev once : TimerUser
once (timer_begin ∷ timer_ok ∷ []) = call_fini ∷ []
once _ = []

abbrev life : List TimerStep
life =
    calls (call_init true true true)
    ∷ calls (call_wait 20)
    ∷ runs
    ∷ fires
    ∷ fires
    ∷ runs
    ∷ fires
    ∷ fires
    ∷ []

life-log : (timer_steps once life new_timer).log ≡ timer_begin ∷ timer_ok ∷ timer_end ∷ []
unfolding timer_steps timer_step run_call run_calls init_timer fini_timer async_wait on_timer
    real_fini real_wait timer_clock
life-log = refl

timer_steps-protocol_example : is_protocol (timer_steps once life new_timer).log ≡ true
timer_steps-protocol_example = timer_steps-protocol once life

-- Waits for its first event, and the call of `Async_Wait` that did nothing is posted.
abbrev waiting : Timer
waiting = record {
  clock = clock_begin;
  has_io = true;
  has_cb = true;
  ms = 20;
  event_added = true;
  registered = true;
  posted = post_real_wait 30 ∷ [];
  log = [];
}

abbrev some_steps : List TimerStep
some_steps = runs ∷ fires ∷ calls (call_wait 5) ∷ fires ∷ runs ∷ []

some_steps-log :
    (timer_steps once (calls call_fini ∷ some_steps ++ (fires ∷ [])) waiting).log
    ≡ timer_begin ∷ timer_ok ∷ timer_end ∷ []
unfolding timer_steps timer_step run_call run_calls init_timer fini_timer async_wait on_timer
    real_fini real_wait timer_clock
some_steps-log = refl

fini-ends_example :
    IsEnded [] (timer_steps once (calls call_fini ∷ some_steps ++ (fires ∷ [])) waiting)
fini-ends_example =
    fini-ends once some_steps waiting
      (record { live = refl; has_io = refl; has_cb = refl; event_added = refl }) (omega arith)
