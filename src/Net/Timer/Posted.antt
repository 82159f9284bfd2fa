-- ===== src/Net/Timer/Posted.antt =====
-- What is posted to a timer, and in which order.
use mathlib.Core.Bool.{false≢true}
use xhnet.Common.{
  ℕ, zero, suc, ◌<◌, Bool, true, false, ◌≡◌, refl, ◌∙◌, List, [], ◌∷◌, ◌++◌, arith, length,
  append_assoc, append-nil, inl, inr, Bool-cases, ap,
}
use xhnet.Net.Timer.{
  Timer, TimerPost, post_real_fini, post_real_wait, TimerCall, call_init, call_fini, call_wait,
  Told, TimerUser, run_call, run_calls, init_timer, fini_timer, async_wait, on_timer, is_clock_null,
  is_clock_init,
}

-- `real_fini` is among the first posted functions.
unfoldable pub fini_within : ℕ → List TimerPost → Bool
fini_within zero ps = false
fini_within (suc k) [] = false
fini_within (suc k) (post_real_fini ∷ ps) = true
fini_within (suc k) (post_real_wait ms ∷ ps) = fini_within k ps

pub fini_within-append :
    (k : ℕ) (ps qs : List TimerPost) → fini_within k ps ≡ true → fini_within k (ps ++ qs) ≡ true
unfolding fini_within
fini_within-append zero ps qs h = absurd (false≢true h)
fini_within-append (suc k) [] qs h = absurd (false≢true h)
fini_within-append (suc k) (post_real_fini ∷ ps) qs h = refl
fini_within-append (suc k) (post_real_wait ms ∷ ps) qs h = fini_within-append k ps qs h

pub fini_within-last :
    (k : ℕ) (ps : List TimerPost)
    → length ps < k
    → fini_within k (ps ++ (post_real_fini ∷ [])) ≡ true
unfolding fini_within
fini_within-last zero ps h = absurd (omega arith)
fini_within-last (suc k) [] h = refl
fini_within-last (suc k) (post_real_fini ∷ ps) h = refl
fini_within-last (suc k) (post_real_wait ms ∷ ps) h = fini_within-last k ps (omega arith)

pub run_call-posted :
    (c : TimerCall) (t : Timer)
    → t.has_io ≡ true
    → (l : List TimerPost) × (run_call c t ≡ record t { posted = t.posted ++ l })
unfolding run_call init_timer fini_timer async_wait
run_call-posted (call_init io is_server cb) t h = ([], rw (append-nil t.posted) (ground (arith, h)))
run_call-posted call_fini t h = elim (Bool-cases (is_clock_null t.clock)) [
  | inl e ↦ ([], rw (append-nil t.posted, e) refl)
  | inr e ↦ (post_real_fini ∷ [], rw (e, h) refl)
]
run_call-posted (call_wait ms) t h = elim (Bool-cases (is_clock_init t.clock)) [
  | inl e ↦ (post_real_wait ms ∷ [], ground (arith, e, h))
  | inr e ↦ ([], rw (append-nil t.posted) (ground (arith, e, h)))
]

pub run_calls-posted :
    (cs : List TimerCall) (t : Timer)
    → t.has_io ≡ true
    → (l : List TimerPost) × (run_calls cs t ≡ record t { posted = t.posted ++ l })
unfolding run_calls
run_calls-posted [] t h = ([], rw (append-nil t.posted) refl)
run_calls-posted (c ∷ cs) t h =
    let one = run_call-posted c t h in
    let u = record t { posted = t.posted ++ one.0 } in
    let more = run_calls-posted cs u h in
    (
      one.0 ++ more.0,
      ap (run_calls cs) one.1
          ∙ more.1
          ∙ ap (λ p. record t { posted = p }) (append_assoc t.posted one.0 more.0),
    )

-- A callback adds to what the user has been told, and what it calls is posted after the others.
pub on_timer-posted :
    (user : TimerUser) (e : Told) (t : Timer)
    → t.has_io ≡ true
    → (l : List TimerPost) × (on_timer user e t
        ≡ record t { log = t.log ++ (e ∷ []); posted = t.posted ++ l })
unfolding on_timer
on_timer-posted user e t h =
    let log = t.log ++ (e ∷ []) in run_calls-posted (user log) (record t { log = log }) h
