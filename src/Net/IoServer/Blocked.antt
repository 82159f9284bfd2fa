-- ===== src/Net/IoServer/Blocked.antt =====
-- A function that throws stays at the front of its queue, with all that waits behind it.
use xhnet.Common.{
  ℕ, Bool, true, false, not, ◌||◌, ◌≡◌, refl, sym, ◌∙◌, ap, subst, List, [], ◌∷◌, ◌++◌,
  if◌then◌else◌, append_assoc, ◌⊎◌, inl, inr,
}
use xhnet.Net.Timer.{clock_null, clock_begin, clock_common, clock_end}
use xhnet.Net.IoServer.{
  Task, task, fini_server, fini_timer, wait_timer, Server, World, post, post_all, fini, timer_fini,
  run, drain, finis, round, is_busy, real_post, tick, Step, asks, ends, starts, ticks, step, steps,
}

abbrev pub Throws : World → ℕ → Type 0
Throws w n = (ran : List Task) (members : List ℕ) → (w.effect ran members n).throws ≡ true

-- A queue that begins with `l`.
pub record Begins (l queue : List Task) : Type 0 where
  pub more : List Task
  pub begins : queue ≡ l ++ more

-- One of the two queues begins with the functions `l`.
abbrev pub Waits : List Task → Server → Type 0
Waits l s = Begins l s.current ⊎ Begins l s.other

post-Begins :
    (t : Task) (l : List Task) (s : Server) → Begins l s.current → Begins l (post t s).current
unfolding post
post-Begins t l s h = record {
  more = h.more ++ (t ∷ []);
  begins = ap (λ q. q ++ (t ∷ [])) h.begins ∙ append_assoc l h.more (t ∷ []);
}

post_all-Begins :
    (ts l : List Task) (s : Server) → Begins l s.current → Begins l (post_all ts s).current
unfolding post_all
post_all-Begins [] l s h = h
post_all-Begins (t ∷ ts) l s h = post_all-Begins ts l (post t s) (post-Begins t l s h)

post_all-other : (ts : List Task) (s : Server) → (post_all ts s).other ≡ s.other
unfolding post_all post
post_all-other [] s = refl
post_all-other (t ∷ ts) s = post_all-other ts (post t s)

-- Both branches of a test.
either : (P : Server → Type 0) (test : Bool) (s t : Server) → P s → P t → P (if test then s else t)
either P true s t h k = h
either P false s t h k = k

run-Begins :
    (w : World) (t : Task) (l : List Task) (s : Server)
    → Begins l s.current
    → Begins l (run w t s).1.current
unfolding run
run-Begins w (task n) l s h = post_all-Begins (w.effect s.ran s.members n).posts l s h
run-Begins w fini_server l s h =
    either (λ x. Begins l x.current) (not s.binit || not s.running) s (record s { binit = false }) h
      h
run-Begins w fini_timer l s h = h
run-Begins w wait_timer l s h = h

drain-Begins :
    (w : World) (ts l : List Task) (s : Server)
    → Begins l s.current
    → Begins l (drain w ts s).current
unfolding drain
drain-Begins w [] l s h = h
drain-Begins w (t ∷ ts) l s h =
    let s' = (run w t s).1 in
    let k = run-Begins w t l s h in
    either (λ x. Begins l x.current) (run w t s).0 _ _ k
      (drain-Begins w ts l (record s' { ran = s'.ran ++ (t ∷ []) }) k)

drain-front :
    (w : World) (n : ℕ) (ts : List Task) (s : Server)
    → Throws w n
    → (drain w (task n ∷ ts) s).other ≡ task n ∷ ts
unfolding drain run
drain-front w n ts s c =
    let s' = (run w (task n) s).1 in
    ap {B = List Task}
      (λ b.
        (if b
          then record s' { other = task n ∷ ts }
          else drain w ts (record s' { ran = s'.ran ++ (task n ∷ []) })).other)
      (c s.ran s.members)

-- The loop over a queue that begins with such a function leaves it as it was.
drain-front-Begins :
    (w : World) (n : ℕ) (l ts : List Task) (s : Server)
    → Throws w n
    → Begins (task n ∷ l) ts
    → Begins (task n ∷ l) (drain w ts s).other
drain-front-Begins w n l ts s c h =
    subst (λ q. Begins (task n ∷ l) (drain w q s).other) (sym h.begins)
      (record { more = h.more; begins = drain-front w n (l ++ h.more) s c })

post-Waits : (t : Task) (l : List Task) (s : Server) → Waits l s → Waits l (post t s)
unfolding post
post-Waits t l s (inl h) = inl (post-Begins t l s h)
post-Waits t l s (inr h) = inr h

post_all-Waits : (ts l : List Task) (s : Server) → Waits l s → Waits l (post_all ts s)
unfolding post_all
post_all-Waits [] l s h = h
post_all-Waits (t ∷ ts) l s h = post_all-Waits ts l (post t s) (post-Waits t l s h)

round-Waits :
    (w : World) (n : ℕ) (l : List Task) (s : Server)
    → Throws w n
    → Waits (task n ∷ l) s
    → Waits (task n ∷ l) (round w s)
unfolding round
round-Waits w n l s c h =
    let t = if s.binit then s else post_all (finis w s.members) s in
    let swapped = record t { current = t.other; has_post = false } in
    let k =
      either (Waits (task n ∷ l)) s.binit s (post_all (finis w s.members) s) h
        (post_all-Waits (finis w s.members) (task n ∷ l) s h) in
    elim k [
      | inl e ↦ inr (drain-front-Begins w n l t.current swapped c e)
      | inr e ↦ inl (drain-Begins w t.current (task n ∷ l) swapped e)
    ]

timer_fini-Waits : (l : List Task) (s : Server) → Waits l s → Waits l (timer_fini s)
unfolding timer_fini
timer_fini-Waits l s h =
    elim s.clock as (λ k. Waits l (elim k [ clock_null ↦ s | _ ↦ post fini_timer s ])) [
      | clock_null ↦ h
      | _ ↦ post-Waits fini_timer l s h
    ]

module _ (w : World) (n : ℕ) (l : List Task) (c : Throws w n) where
  real_post-Waits :
      (finished : Bool) (s : Server)
      → Waits (task n ∷ l) s
      → Waits (task n ∷ l) (real_post w finished s)
  unfolding real_post
  real_post-Waits finished s h =
      either (Waits (task n ∷ l)) finished (record s { running = false }) _ h
        (either (Waits (task n ∷ l)) (not (is_busy s)) _ _ (timer_fini-Waits (task n ∷ l) s h)
          (round-Waits w n l s c h))

  step-Waits : (x : Step) (s : Server) → Waits (task n ∷ l) s → Waits (task n ∷ l) (step w x s)
  unfolding step fini tick
  step-Waits (asks t) s h = post-Waits t (task n ∷ l) s h
  step-Waits ends s h =
      either (Waits (task n ∷ l)) (not s.binit || not s.running) s _ h
        (post-Waits fini_server (task n ∷ l) s h)
  step-Waits starts s h =
      either (Waits (task n ∷ l)) (not s.binit || not s.running) s _ h (real_post-Waits false s h)
  step-Waits ticks s h =
      elim s.clock
        as (λ k. Waits (task n ∷ l) (elim k [
          | clock_begin ↦ record (real_post w false s) { clock = clock_common }
          | clock_end ↦ record (real_post w true s) { clock = clock_null }
          | clock_common ↦ real_post w false s
          | _ ↦ s
        ])) [
          | clock_begin ↦ real_post-Waits false s h
          | clock_end ↦ real_post-Waits true s h
          | clock_common ↦ real_post-Waits false s h
          | _ ↦ h
        ]

  -- Where a function that always throws is first in one of the two queues, it is first in one of them
  -- after any steps, and what waits behind it still waits there in the same order.
  pub steps-Waits :
      (xs : List Step) (s : Server) → Waits (task n ∷ l) s → Waits (task n ∷ l) (steps w xs s)
  unfolding steps
  steps-Waits [] s h = h
  steps-Waits (x ∷ xs) s h = steps-Waits xs (step w x s) (step-Waits x s h)
