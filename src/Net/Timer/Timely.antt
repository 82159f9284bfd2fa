-- ===== src/Net/Timer/Timely.antt =====
-- Every step keeps a timer to its protocol.
use mathlib.Core.Bool.{true≢false}
use xhnet.Common.{
  Bool, true, false, not, ◌||◌, ◌≡◌, refl, sym, ◌∙◌, ap, subst, List, [], ◌∷◌, ◌++◌, if◌then◌else◌,
  ◌⊎◌, inl, inr, Bool-cases,
}
use xhnet.Net.Timer.Protocol.{
  is_protocol, is_begun, all_ok, is_begun-ok, is_begun-end, is_begun-protocol, on_timer-told,
}
use xhnet.Net.Timer.{
  Clock, clock_null, clock_init, clock_begin, clock_common, clock_end, Told, timer_ok, timer_begin,
  timer_end, Timer, TimerCall, call_init, call_fini, call_wait, TimerUser, is_clock_null,
  is_clock_init, post_if_io, timer_real_fini, timer_real_wait, TimerStep, calls, runs, fires,
  TimerPost, post_real_fini, post_real_wait, run_call, init_timer, fini_timer, async_wait, on_timer,
  real_fini, real_wait, timer_clock, run_post, run_next, timer_step, timer_steps, new_timer,
}

-- What a timer has told with each status, from whether it has an event and a server.
abbrev Stage : Clock → Bool → Bool → List Told → Type 0
Stage clock_null event io log =
    (event ≡ false) × ((log ≡ []) ⊎ ((io ≡ true) × (is_protocol log ≡ true)))
Stage clock_init event io log = (event ≡ false) × (io ≡ true) × (log ≡ [])
Stage clock_begin event io log = (io ≡ true) × (log ≡ [])
Stage clock_common event io log = (io ≡ true) × (is_begun log ≡ true)
Stage clock_end event io log = (io ≡ true) × ((log ≡ []) ⊎ (is_begun log ≡ true))

abbrev IsTimely : Timer → Type 0
IsTimely t = Stage t.clock t.event_added t.has_io t.log

choose :
    (test : Bool) (t u : Timer)
    → IsTimely t
    → (test ≡ false → IsTimely u)
    → IsTimely (if test then t else u)
choose true t u h k = h
choose false t u h k = k refl

choose_result :
    (test : Bool) (t : Timer) (r : Bool × Timer)
    → IsTimely t
    → (test ≡ false → IsTimely r.1)
    → IsTimely (if◌then◌else◌ {A = Bool × Timer} test (false, t) r).1
choose_result true t r h k = h
choose_result false t r h k = k refl

-- Before `Init`.
Stage-uninitialised :
    (k : Clock) (event io : Bool) (log : List Told)
    → Stage k event io log
    → io ≡ false
    → (event ≡ false) × (log ≡ [])
Stage-uninitialised clock_null event io log (e, inl l) n = (e, l)
Stage-uninitialised clock_null event io log (e, inr (i, p)) n = absurd (true≢false (sym i ∙ n))
Stage-uninitialised clock_init event io log (e, i, l) n = (e, l)
Stage-uninitialised clock_begin event io log (i, l) n = absurd (true≢false (sym i ∙ n))
Stage-uninitialised clock_common event io log (i, l) n = absurd (true≢false (sym i ∙ n))
Stage-uninitialised clock_end event io log (i, l) n = absurd (true≢false (sym i ∙ n))

or_first : (a b : Bool) → (a || b) ≡ false → a ≡ false
or_first true b e = e
or_first false b e = refl

post_if_io-IsTimely : (p : TimerPost) (t : Timer) → IsTimely t → IsTimely (post_if_io p t)
post_if_io-IsTimely p t h = choose t.has_io (record t { posted = t.posted ++ (p ∷ []) }) t h λ e. h

run_call-IsTimely : (c : TimerCall) (t : Timer) → IsTimely t → IsTimely (run_call c t)
unfolding run_call init_timer fini_timer async_wait
run_call-IsTimely (call_init io is_server cb) t h = choose_result (not io || not cb) t _ h λ e0.
    choose_result (t.has_io || t.has_cb) t _ h λ e1.
      choose_result (not (is_clock_null t.clock)) t _ h λ e2.
        choose_result (not is_server) t _ h λ e3.
          let n =
            Stage-uninitialised t.clock t.event_added t.has_io t.log h
              (or_first t.has_io t.has_cb e1) in
          (n.0, refl, n.1)
run_call-IsTimely call_fini t h =
    choose (is_clock_null t.clock) t _ h λ e. post_if_io-IsTimely post_real_fini t h
run_call-IsTimely (call_wait ms) t h =
    choose_result (not (is_clock_init t.clock)) t _ h
      λ e. post_if_io-IsTimely (post_real_wait ms) t h

timer_real_fini-Stage :
    (k : Clock) (event io : Bool) (log : List Told)
    → Stage k event io log
    → Stage (timer_real_fini k) event io log
timer_real_fini-Stage clock_null event io log h = h
timer_real_fini-Stage clock_init event io log (e, i, l) = (i, inl l)
timer_real_fini-Stage clock_begin event io log (i, l) = (i, inl l)
timer_real_fini-Stage clock_common event io log (i, l) = (i, inr l)
timer_real_fini-Stage clock_end event io log h = h

timer_real_wait-Stage :
    (k : Clock) (event io : Bool) (log : List Told)
    → not (is_clock_init k) ≡ false
    → Stage k event io log
    → Stage (timer_real_wait k) true io log
timer_real_wait-Stage clock_init event io log e (_, i, l) = (i, l)
timer_real_wait-Stage clock_null event io log e h = absurd (true≢false e)
timer_real_wait-Stage clock_begin event io log e h = absurd (true≢false e)
timer_real_wait-Stage clock_common event io log e h = absurd (true≢false e)
timer_real_wait-Stage clock_end event io log e h = absurd (true≢false e)

run_post-IsTimely : (p : TimerPost) (t : Timer) → IsTimely t → IsTimely (run_post p t)
unfolding real_fini real_wait
run_post-IsTimely post_real_fini t h = timer_real_fini-Stage t.clock t.event_added t.has_io t.log h
run_post-IsTimely (post_real_wait ms) t h =
    choose (not (is_clock_init t.clock)) t _ h
      λ e. timer_real_wait-Stage t.clock t.event_added t.has_io t.log e h

run_next-IsTimely : (ps : List TimerPost) (t : Timer) → IsTimely t → IsTimely (run_next ps t)
run_next-IsTimely [] t h = h
run_next-IsTimely (p ∷ ps) t h = run_post-IsTimely p (record t { posted = ps }) h

ended :
    (log : List Told)
    → (log ≡ []) ⊎ (is_begun log ≡ true)
    → is_protocol (log ++ (timer_end ∷ [])) ≡ true
ended log (inl l) = ap (λ x. is_protocol (x ++ (timer_end ∷ []))) l
ended log (inr b) = is_begun-end log b

-- The event, which is added.
timer_clock-IsTimely :
    (user : TimerUser) (t : Timer)
    → t.event_added ≡ true
    → IsTimely t
    → IsTimely (timer_clock user (record t { event_added = false }))
unfolding timer_clock is_begun all_ok
timer_clock-IsTimely user t v h =
    let u = record t { event_added = false } in
    let told = λ (e : Told) (i : t.has_io ≡ true). on_timer-told user e u i in
    elim t.clock
        as (λ k.
          t.clock ≡ k
          → Stage k t.event_added t.has_io t.log
          → IsTimely (elim k [
            | clock_begin ↦ record (on_timer user timer_begin u) {
              clock = clock_common;
              event_added = true;
            }
            | clock_end ↦ record (on_timer user timer_end u) {
              clock = clock_null;
              has_cb = false;
              event_added = false;
              registered = false;
            }
            | _ ↦ record (on_timer user timer_ok u) { event_added = true }
          ])) [
            | clock_null ↦ λ q s. absurd (true≢false (sym v ∙ s.0))
            | clock_init ↦ λ q s. absurd (true≢false (sym v ∙ s.0))
            | clock_begin ↦ λ q (i, l).
                subst (λ x. Stage clock_common true x.has_io x.log) (sym (told timer_begin i))
                  (i, ap (λ x. is_begun (x ++ (timer_begin ∷ []))) l)
            | clock_common ↦ λ q (i, b).
                subst IsTimely
                  (sym (ap {A = Timer} (λ x. record x { event_added = true }) (told timer_ok i)))
                  (subst (λ k. Stage k true t.has_io (t.log ++ (timer_ok ∷ []))) (sym q)
                    (i, is_begun-ok t.log b))
            | clock_end ↦ λ q (i, b).
                subst (λ x. Stage clock_null false x.has_io x.log) (sym (told timer_end i))
                  (refl, inr (i, ended t.log b))
          ]
      refl h

timer_step-IsTimely :
    (user : TimerUser) (x : TimerStep) (t : Timer) → IsTimely t → IsTimely (timer_step user x t)
unfolding timer_step
timer_step-IsTimely user (calls c) t h = run_call-IsTimely c t h
timer_step-IsTimely user runs t h = run_next-IsTimely t.posted t h
timer_step-IsTimely user fires t h = elim (Bool-cases t.event_added) [
  | inl v ↦
      subst IsTimely
        (sym (ap (λ b. if b then timer_clock user (record t { event_added = false }) else t) v))
        (timer_clock-IsTimely user t v h)
  | inr v ↦
      subst IsTimely
        (sym (ap (λ b. if b then timer_clock user (record t { event_added = false }) else t) v)) h
]

timer_steps-IsTimely :
    (user : TimerUser) (xs : List TimerStep) (t : Timer)
    → IsTimely t
    → IsTimely (timer_steps user xs t)
unfolding timer_steps
timer_steps-IsTimely user [] t h = h
timer_steps-IsTimely user (x ∷ xs) t h =
    timer_steps-IsTimely user xs (timer_step user x t) (timer_step-IsTimely user x t h)

Stage-protocol :
    (k : Clock) (event io : Bool) (log : List Told) → Stage k event io log → is_protocol log ≡ true
Stage-protocol clock_null event io log (e, inl l) = ap is_protocol l
Stage-protocol clock_null event io log (e, inr (i, p)) = p
Stage-protocol clock_init event io log (e, i, l) = ap is_protocol l
Stage-protocol clock_begin event io log (i, l) = ap is_protocol l
Stage-protocol clock_common event io log (i, b) = is_begun-protocol log b
Stage-protocol clock_end event io log (i, inl l) = ap is_protocol l
Stage-protocol clock_end event io log (i, inr b) = is_begun-protocol log b

-- In any run of a new timer, whatever its user calls, he is told nothing, or `timer_end` alone, or
-- first `timer_begin`, then any number of times `timer_ok`, and perhaps last `timer_end`, after which
-- he is told nothing more.
pub timer_steps-protocol :
    (user : TimerUser) (xs : List TimerStep)
    → is_protocol (timer_steps user xs new_timer).log ≡ true
timer_steps-protocol user xs =
    let t = timer_steps user xs new_timer in
    Stage-protocol t.clock t.event_added t.has_io t.log
      (timer_steps-IsTimely user xs new_timer (refl, inl refl))
