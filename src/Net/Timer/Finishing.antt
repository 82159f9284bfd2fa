-- ===== src/Net/Timer/Finishing.antt =====
-- A timer that is to end.
use mathlib.Core.Bool.{false≢true}
use xhnet.Common.{
  ℕ, suc, Bool, true, false, ◌≡◌, refl, sym, ◌∙◌, List, [], ◌∷◌, ◌++◌, append_assoc, ◌⊎◌, inl, inr,
  ap,
}
use xhnet.Net.Timer.{
  Clock, clock_null, clock_init, clock_begin, clock_common, clock_end, timer_ok, timer_begin,
  timer_end, Timer, TimerPost, post_real_fini, post_real_wait, TimerCall, Told, TimerUser, calls,
  fires, real_fini, real_wait, run_next, timer_real_fini, is_clock_null, is_clock_init, timer_clock,
  timer_step,
}
use xhnet.Net.Timer.Posted.{fini_within, fini_within-append, run_call-posted, on_timer-posted}
use xhnet.Net.Timer.Ended.{no_end, no_end-append, IsEnded}

-- The event of the timer has been added by `real_wait`.
abbrev pub is_live : Clock → Bool
is_live clock_null = false
is_live clock_init = false
is_live _ = true

is_end : Clock → Bool
is_end clock_end = true
is_end _ = false

-- A timer of a server, with its callback, whose event is added.
pub record IsLive (t : Timer) : Type 0 where
  pub live : is_live t.clock ≡ true
  pub has_io : t.has_io ≡ true
  pub has_cb : t.has_cb ≡ true
  pub event_added : t.event_added ≡ true

-- `real_fini` of a timer whose event is added.
pub timer_real_fini-live : (c : Clock) → is_live c ≡ true → timer_real_fini c ≡ clock_end
timer_real_fini-live clock_null h = absurd (false≢true h)
timer_real_fini-live clock_init h = absurd (false≢true h)
timer_real_fini-live clock_begin h = refl
timer_real_fini-live clock_common h = refl
timer_real_fini-live clock_end h = refl

pub is_clock_init-live : (c : Clock) → is_live c ≡ true → is_clock_init c ≡ false
is_clock_init-live clock_null h = refl
is_clock_init-live clock_init h = absurd (false≢true h)
is_clock_init-live clock_begin h = refl
is_clock_init-live clock_common h = refl
is_clock_init-live clock_end h = refl

pub is_clock_null-live : (c : Clock) → is_live c ≡ true → is_clock_null c ≡ false
is_clock_null-live clock_null h = absurd (false≢true h)
is_clock_null-live clock_init h = refl
is_clock_null-live clock_begin h = refl
is_clock_null-live clock_common h = refl
is_clock_null-live clock_end h = refl

-- A timer that ends with the next event, or with the one after some posted functions have run.
pub record IsFinishing (before : List Told) (k : ℕ) (t : Timer) : Type 0 where
  pub live : IsLive t
  pub due : (t.clock ≡ clock_end) ⊎ (fini_within k t.posted ≡ true)
  pub told : List Told
  pub told-no_end : no_end told ≡ true
  pub log : t.log ≡ before ++ told

module _ (user : TimerUser) (before : List Told) where
  -- A callback that is not the last one.
  pub IsFinishing-told :
      (k : ℕ) (t : Timer) (e : Told) (c : Clock) (l : List TimerPost)
      → IsFinishing before k t
      → no_end (e ∷ []) ≡ true
      → is_live c ≡ true
      → ¬ (t.clock ≡ clock_end)
      → IsFinishing before k (record t {
        clock = c;
        event_added = true;
        log = t.log ++ (e ∷ []);
        posted = t.posted ++ l;
      })
  IsFinishing-told k t e c l f more live on = record {
    live = record {
      live = live;
      has_io = f.live.has_io;
      has_cb = f.live.has_cb;
      event_added = refl;
    };
    due = elim f.due [ inl q ↦ absurd (on q) | inr d ↦ inr (fini_within-append k t.posted l d) ];
    told = f.told ++ (e ∷ []);
    told-no_end = no_end-append f.told (e ∷ []) f.told-no_end more;
    log = ap (λ x. x ++ (e ∷ [])) f.log ∙ append_assoc before f.told (e ∷ []);
  }

  pub fires-begin :
      (k : ℕ) (t : Timer)
      → IsFinishing before k t
      → t.clock ≡ clock_begin
      → IsFinishing before k (timer_step user fires t)
  unfolding timer_step timer_clock is_end
  fires-begin k t f b =
      let told =
        on_timer-posted user timer_begin (record t { event_added = false }) f.live.has_io in
      rw (f.live.event_added, b, told.1)
        (IsFinishing-told k t timer_begin clock_common told.0 f refl refl
          (λ q. false≢true (ap is_end (sym b ∙ q))))

  pub fires-common :
      (k : ℕ) (t : Timer)
      → IsFinishing before k t
      → t.clock ≡ clock_common
      → IsFinishing before k (timer_step user fires t)
  unfolding timer_step timer_clock is_end
  fires-common k t f b =
      let told = on_timer-posted user timer_ok (record t { event_added = false }) f.live.has_io in
      rw (f.live.event_added, b, told.1)
        (IsFinishing-told k t timer_ok t.clock told.0 f refl f.live.live
          (λ q. false≢true (ap is_end (sym b ∙ q))))

  -- The event of a timer that `real_fini` has ended.
  pub fires-end :
      (k : ℕ) (t : Timer)
      → IsFinishing before k t
      → t.clock ≡ clock_end
      → IsEnded before (timer_step user fires t)
  unfolding timer_step timer_clock
  fires-end k t f b =
      let told = on_timer-posted user timer_end (record t { event_added = false }) f.live.has_io in
      rw (f.live.event_added, b, told.1)
        (record {
          clock = refl;
          has_io = f.live.has_io;
          has_cb = refl;
          event_added = refl;
          registered = refl;
          told = f.told;
          told-no_end = f.told-no_end;
          log = ap (λ x. x ++ (timer_end ∷ [])) f.log ∙ append_assoc before f.told (timer_end ∷ []);
        })

  pub IsFinishing-fires :
      (k : ℕ) (t : Timer) (c : Clock)
      → IsFinishing before k t
      → t.clock ≡ c
      → IsFinishing before k (timer_step user fires t) ⊎ IsEnded before (timer_step user fires t)
  IsFinishing-fires k t clock_null f e = absurd (false≢true (sym (ap is_live e) ∙ f.live.live))
  IsFinishing-fires k t clock_init f e = absurd (false≢true (sym (ap is_live e) ∙ f.live.live))
  IsFinishing-fires k t clock_begin f e = inl (fires-begin k t f e)
  IsFinishing-fires k t clock_common f e = inl (fires-common k t f e)
  IsFinishing-fires k t clock_end f e = inr (fires-end k t f e)

  -- Other functions are posted, or some of them have run.
  pub IsFinishing-other :
      (k j : ℕ) (t : Timer) (ps : List TimerPost)
      → IsFinishing before k t
      → (fini_within k t.posted ≡ true → fini_within j ps ≡ true)
      → IsFinishing before j (record t { posted = ps })
  IsFinishing-other k j t ps f more = record {
    live = record {
      live = f.live.live;
      has_io = f.live.has_io;
      has_cb = f.live.has_cb;
      event_added = f.live.event_added;
    };
    due = elim f.due [ inl q ↦ inl q | inr d ↦ inr (more d) ];
    told = f.told;
    told-no_end = f.told-no_end;
    log = f.log;
  }

  pub IsFinishing-calls :
      (k : ℕ) (t : Timer) (c : TimerCall)
      → IsFinishing before k t
      → IsFinishing before k (timer_step user (calls c) t)
  unfolding timer_step
  IsFinishing-calls k t c f =
      let posted = run_call-posted c t f.live.has_io in
      rw posted.1
        (IsFinishing-other k k t (t.posted ++ posted.0) f (fini_within-append k t.posted posted.0))

  pub IsFinishing-posted :
      (k : ℕ) (t : Timer) (ps : List TimerPost)
      → IsFinishing before (suc k) t
      → t.posted ≡ ps
      → IsFinishing before k (run_next ps t)
  unfolding real_fini real_wait fini_within
  IsFinishing-posted k t [] f e =
      IsFinishing-other (suc k) k t t.posted f
        (λ d. absurd (false≢true (sym (ap (fini_within (suc k)) e) ∙ d)))
  IsFinishing-posted k t (post_real_fini ∷ ps) f e =
      let ends = timer_real_fini-live t.clock f.live.live in
      record {
        live = record {
          live = ap is_live ends;
          has_io = f.live.has_io;
          has_cb = f.live.has_cb;
          event_added = f.live.event_added;
        };
        due = inl ends;
        told = f.told;
        told-no_end = f.told-no_end;
        log = f.log;
      }
  IsFinishing-posted k t (post_real_wait ms ∷ ps) f e =
      rw (is_clock_init-live t.clock f.live.live)
        (IsFinishing-other (suc k) k t ps f (λ d. sym (ap (fini_within (suc k)) e) ∙ d))
