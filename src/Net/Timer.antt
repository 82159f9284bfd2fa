-- ===== src/Net/Timer.antt =====
-- `CTimer` of source/net/impl_timer.h and source/net/impl_timer.cpp.
pub mod Protocol
pub mod Timely
pub mod Posted
pub mod Ended
pub mod Finishing
pub mod Finish
mod Runs
use xhnet.Common.{ℕ, Bool, true, false, not, ◌||◌, List, [], ◌∷◌, ◌++◌, if◌then◌else◌}

-- `m_status`.
pub data Clock : Type 0 where
  clock_null clock_init clock_begin clock_common clock_end : Clock

-- `timer_err` of include/net/timer.h, which `On_Timer` tells the user.
pub data Told : Type 0 where
  timer_ok timer_begin timer_end : Told

pub data TimerPost : Type 0 where
  post_real_fini : TimerPost
  post_real_wait : ℕ → TimerPost

pub record Timer : Type 0 where
  pub clock : Clock
  pub has_io : Bool
  pub has_cb : Bool
  pub ms : ℕ
  -- whether the event is added, and whether the server has the timer in its map
  pub event_added : Bool
  pub registered : Bool
  pub posted : List TimerPost
  pub log : List Told

abbrev pub new_timer : Timer
new_timer = record {
  clock = clock_null;
  has_io = false;
  has_cb = false;
  ms = 0;
  event_added = false;
  registered = false;
  posted = [];
  log = [];
}

abbrev pub is_clock_null : Clock → Bool
is_clock_null clock_null = true
is_clock_null _ = false

abbrev pub is_clock_init : Clock → Bool
is_clock_init clock_init = true
is_clock_init _ = false

-- What the user calls: `Init` with an `io` that may be null or no `CIOServer`, and a callback that may
-- be null, `Fini`, and `Async_Wait`.
pub data TimerCall : Type 0 where
  call_init : Bool → Bool → Bool → TimerCall
  call_fini : TimerCall
  call_wait : ℕ → TimerCall

unfoldable pub init_timer : Bool → Bool → Bool → Timer → Bool × Timer
init_timer io is_server cb t =
    if not io || not cb
    then (false, t)
    else if t.has_io || t.has_cb
    then (false, t)
    else if not (is_clock_null t.clock)
    then (false, t)
    else if not is_server
    then (false, t)
    else (true, record t { has_io = true; has_cb = true; clock = clock_init })

abbrev pub post_if_io : TimerPost → Timer → Timer
post_if_io p t = if t.has_io then record t { posted = t.posted ++ (p ∷ []) } else t

unfoldable pub fini_timer : Timer → Timer
fini_timer t = if is_clock_null t.clock then t else post_if_io post_real_fini t

unfoldable pub async_wait : ℕ → Timer → Bool × Timer
async_wait ms t =
    if not (is_clock_init t.clock) then (false, t) else (true, post_if_io (post_real_wait ms) t)

unfoldable pub run_call : TimerCall → Timer → Timer
unfolding init_timer fini_timer async_wait
run_call (call_init io is_server cb) t = (init_timer io is_server cb t).1
run_call call_fini t = fini_timer t
run_call (call_wait ms) t = (async_wait ms t).1

unfoldable pub run_calls : List TimerCall → Timer → Timer
unfolding run_call
run_calls [] t = t
run_calls (c ∷ cs) t = run_calls cs (run_call c t)

-- The calls in `On_Timer`, from all that the user has been told.
abbrev pub TimerUser : Type 0
TimerUser = List Told → List TimerCall

unfoldable pub on_timer : TimerUser → Told → Timer → Timer
unfolding run_calls
on_timer user e t = let log = t.log ++ (e ∷ []) in run_calls (user log) (record t { log = log })

-- What `real_fini` and `real_wait` do to the status.
abbrev pub timer_real_fini : Clock → Clock
timer_real_fini clock_null = clock_null
timer_real_fini _ = clock_end

abbrev pub timer_real_wait : Clock → Clock
timer_real_wait clock_init = clock_begin
timer_real_wait c = c

unfoldable pub real_fini : Timer → Timer
real_fini t = record t { clock = timer_real_fini t.clock }

unfoldable pub real_wait : ℕ → Timer → Timer
real_wait ms t = if not (is_clock_init t.clock) then t else record t {
  clock = timer_real_wait t.clock;
  ms = ms;
  registered = true;
  event_added = true;
}

unfoldable pub timer_clock : TimerUser → Timer → Timer
unfolding on_timer
timer_clock user t = elim t.clock [
  | clock_begin ↦ record (on_timer user timer_begin t) { clock = clock_common; event_added = true }
  | clock_end ↦ record (on_timer user timer_end t) {
    clock = clock_null;
    has_cb = false;
    event_added = false;
    registered = false;
  }
  | _ ↦ record (on_timer user timer_ok t) { event_added = true }
]

-- A call of the user, the next posted function, and the event, which libevent removes as it reports
-- it.
pub data TimerStep : Type 0 where
  calls : TimerCall → TimerStep
  runs fires : TimerStep

abbrev pub run_post : TimerPost → Timer → Timer
run_post post_real_fini t = real_fini t
run_post (post_real_wait ms) t = real_wait ms t

abbrev pub run_next : List TimerPost → Timer → Timer
run_next [] t = t
run_next (p ∷ ps) t = run_post p (record t { posted = ps })

unfoldable pub timer_step : TimerUser → TimerStep → Timer → Timer
unfolding run_call real_fini real_wait timer_clock
timer_step user (calls c) t = run_call c t
timer_step user runs t = run_next t.posted t
timer_step user fires t =
    if t.event_added then timer_clock user (record t { event_added = false }) else t

unfoldable pub timer_steps : TimerUser → List TimerStep → Timer → Timer
unfolding timer_step
timer_steps user [] t = t
timer_steps user (x ∷ xs) t = timer_steps user xs (timer_step user x t)
