-- ===== src/Net/Timer/Protocol.antt =====
-- What a timer tells its user, and in which order.
use mathlib.Core.Bool.{false≢true}
use xhnet.Common.{Bool, true, false, ◌≡◌, refl, ◌∙◌, ap, List, [], ◌∷◌, ◌++◌, arith}
use xhnet.Net.Timer.{
  Told, timer_ok, timer_begin, timer_end, Timer, TimerCall, call_init, call_fini, call_wait,
  TimerUser, run_call, run_calls, init_timer, fini_timer, async_wait, on_timer,
}

-- `timer_ok` any number of times, and then perhaps `timer_end`.
abbrev pub rest_of_protocol : List Told → Bool
rest_of_protocol [] = true
rest_of_protocol (timer_ok ∷ l) = rest_of_protocol l
rest_of_protocol (timer_end ∷ []) = true
rest_of_protocol _ = false

-- Nothing, or `timer_end` alone, or first `timer_begin`.
abbrev pub is_protocol : List Told → Bool
is_protocol [] = true
is_protocol (timer_begin ∷ l) = rest_of_protocol l
is_protocol (timer_end ∷ []) = true
is_protocol _ = false

unfoldable pub all_ok : List Told → Bool
all_ok [] = true
all_ok (timer_ok ∷ l) = all_ok l
all_ok _ = false

unfoldable pub is_begun : List Told → Bool
unfolding all_ok
is_begun (timer_begin ∷ l) = all_ok l
is_begun _ = false

pub all_ok-ok : (l : List Told) → all_ok l ≡ true → all_ok (l ++ (timer_ok ∷ [])) ≡ true
unfolding all_ok
all_ok-ok [] h = refl
all_ok-ok (timer_ok ∷ l) h = all_ok-ok l h
all_ok-ok (timer_begin ∷ l) h = h
all_ok-ok (timer_end ∷ l) h = h

pub all_ok-end : (l : List Told) → all_ok l ≡ true → rest_of_protocol (l ++ (timer_end ∷ [])) ≡ true
unfolding all_ok
all_ok-end [] h = refl
all_ok-end (timer_ok ∷ l) h = all_ok-end l h
all_ok-end (timer_begin ∷ l) h = absurd (false≢true h)
all_ok-end (timer_end ∷ l) h = absurd (false≢true h)

pub all_ok-rest : (l : List Told) → all_ok l ≡ true → rest_of_protocol l ≡ true
unfolding all_ok
all_ok-rest [] h = refl
all_ok-rest (timer_ok ∷ l) h = all_ok-rest l h
all_ok-rest (timer_begin ∷ l) h = absurd (false≢true h)
all_ok-rest (timer_end ∷ l) h = absurd (false≢true h)

-- What a call leaves as it was in a timer that has been initialised.
as_before : Timer → Timer → Timer
as_before t u = record t { posted = u.posted }

run_call-as_before :
    (c : TimerCall) (t : Timer)
    → t.has_io ≡ true
    → run_call c t ≡ record t { posted = (run_call c t).posted }
unfolding run_call init_timer fini_timer async_wait
run_call-as_before (call_init io is_server cb) t h = ground arith
run_call-as_before call_fini t h = ground arith
run_call-as_before (call_wait ms) t h = ground arith

run_calls-as_before :
    (cs : List TimerCall) (t : Timer)
    → t.has_io ≡ true
    → run_calls cs t ≡ as_before t (run_calls cs t)
unfolding run_calls as_before
run_calls-as_before [] t h = refl
run_calls-as_before (c ∷ cs) t h =
    let u = run_call c t in
    let e = run_call-as_before c t h in
    run_calls-as_before cs u (ap (λ x. x.has_io) e ∙ h) ∙ ap (λ x. as_before x (run_calls cs u)) e

-- A callback only adds to what the user has been told and to what is posted.
pub on_timer-told :
    (user : TimerUser) (e : Told) (t : Timer)
    → t.has_io ≡ true
    → on_timer user e t ≡ record t { log = t.log ++ (e ∷ []); posted = (on_timer user e t).posted }
unfolding on_timer as_before
on_timer-told user e t h =
    let log = t.log ++ (e ∷ []) in run_calls-as_before (user log) (record t { log = log }) h

pub is_begun-ok : (log : List Told) → is_begun log ≡ true → is_begun (log ++ (timer_ok ∷ [])) ≡ true
unfolding is_begun
is_begun-ok [] h = h
is_begun-ok (timer_begin ∷ l) h = all_ok-ok l h
is_begun-ok (timer_ok ∷ l) h = h
is_begun-ok (timer_end ∷ l) h = h

pub is_begun-end :
    (log : List Told) → is_begun log ≡ true → is_protocol (log ++ (timer_end ∷ [])) ≡ true
unfolding is_begun
is_begun-end [] h = absurd (false≢true h)
is_begun-end (timer_begin ∷ l) h = all_ok-end l h
is_begun-end (timer_ok ∷ l) h = absurd (false≢true h)
is_begun-end (timer_end ∷ l) h = absurd (false≢true h)

pub is_begun-protocol : (log : List Told) → is_begun log ≡ true → is_protocol log ≡ true
unfolding is_begun
is_begun-protocol [] h = refl
is_begun-protocol (timer_begin ∷ l) h = all_ok-rest l h
is_begun-protocol (timer_ok ∷ l) h = absurd (false≢true h)
is_begun-protocol (timer_end ∷ l) h = absurd (false≢true h)
