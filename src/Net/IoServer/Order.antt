-- ===== src/Net/IoServer/Order.antt =====
-- Functions that do not throw run once, in the order in which they were posted.
use xhnet.Common.{
  ℕ, Bool, true, false, not, ◌||◌, ◌≡◌, refl, sym, ◌∙◌, ap, ap₂, subst, List, [], ◌∷◌, ◌++◌,
  if◌then◌else◌, append-nil, append_assoc,
}
use xhnet.Net.Timer.{clock_null, clock_begin, clock_common, clock_end}
use xhnet.Net.IoServer.{
  Task, task, fini_server, fini_timer, wait_timer, Server, World, post, post_all, fini, timer_fini,
  run, drain, finis, round, is_busy, real_post, tick, Step, asks, ends, starts, ticks, step, steps,
  new_server, init,
}

abbrev pub IsCalm : World → Type 0
IsCalm w = (ran : List Task) (members : List ℕ) (n : ℕ) → (w.effect ran members n).throws ≡ false

-- The functions that have been posted are those that have run, then `rest`, then the queue.
abbrev Ordered : List Task → Server → Type 0
Ordered rest s = s.ran ++ (rest ++ s.current) ≡ s.posted

either :
    (test : Bool) (rest : List Task) (s t : Server)
    → Ordered rest s
    → Ordered rest t
    → Ordered rest (if test then s else t)
either true rest s t h k = h
either false rest s t h k = k

post-Ordered : (t : Task) (rest : List Task) (s : Server) → Ordered rest s → Ordered rest (post t s)
unfolding post
post-Ordered t rest s h =
    ap (λ l. s.ran ++ l) (sym (append_assoc rest s.current (t ∷ [])))
    ∙ sym (append_assoc s.ran (rest ++ s.current) (t ∷ []))
    ∙ ap (λ l. l ++ (t ∷ [])) h

post_all-Ordered :
    (ts rest : List Task) (s : Server) → Ordered rest s → Ordered rest (post_all ts s)
unfolding post_all
post_all-Ordered [] rest s h = h
post_all-Ordered (t ∷ ts) rest s h = post_all-Ordered ts rest (post t s) (post-Ordered t rest s h)

run-Ordered :
    (w : World) (t : Task) (rest : List Task) (s : Server)
    → Ordered rest s
    → Ordered rest (run w t s).1
unfolding run
run-Ordered w (task n) rest s h = post_all-Ordered (w.effect s.ran s.members n).posts rest s h
run-Ordered w fini_server rest s h =
    either (not s.binit || not s.running) rest s (record s { binit = false }) h h
run-Ordered w fini_timer rest s h = h
run-Ordered w wait_timer rest s h = h

run_calm : (w : World) (t : Task) (s : Server) → IsCalm w → (run w t s).0 ≡ false
unfolding run
run_calm w (task n) s c = c s.ran s.members n
run_calm w fini_server s c = refl
run_calm w fini_timer s c = refl
run_calm w wait_timer s c = refl

-- The loop, when the first function does not throw.
drain-next :
    (w : World) (t : Task) (ts : List Task) (s : Server)
    → IsCalm w
    → let s' = (run w t s).1 in
      drain w (t ∷ ts) s ≡ drain w ts (record s' { ran = s'.ran ++ (t ∷ []) })
unfolding drain
drain-next w t ts s c =
    let s' = (run w t s).1 in
    ap
      (λ b.
        if b
        then record s' { other = t ∷ ts }
        else drain w ts (record s' { ran = s'.ran ++ (t ∷ []) }))
      (run_calm w t s c)

drain-Ordered :
    (w : World) (ts : List Task) (s : Server) → IsCalm w → Ordered ts s → Ordered [] (drain w ts s)
unfolding drain
drain-Ordered w [] s c h = h
drain-Ordered w (t ∷ ts) s c h =
    let s' = (run w t s).1 in
    let k = run-Ordered w t (t ∷ ts) s h in
    subst (Ordered []) (sym (drain-next w t ts s c)) (
      drain-Ordered w ts (record s' { ran = s'.ran ++ (t ∷ []) }) c
        (append_assoc s'.ran (t ∷ []) (ts ++ s'.current) ∙ k))

drain-other : (w : World) (ts : List Task) (s : Server) → IsCalm w → (drain w ts s).other ≡ []
unfolding drain
drain-other w [] s c = refl
drain-other w (t ∷ ts) s c =
    let s' = (run w t s).1 in
    ap (λ x. x.other) (drain-next w t ts s c)
    ∙ drain-other w ts (record s' { ran = s'.ran ++ (t ∷ []) }) c

pub record IsOrdered (s : Server) : Type 0 where
  pub in_order : s.ran ++ s.current ≡ s.posted
  pub one_queue : s.other ≡ []

IsOrdered-post_all : (ts : List Task) (s : Server) → IsOrdered s → IsOrdered (post_all ts s)
unfolding post_all post
IsOrdered-post_all [] s h = h
IsOrdered-post_all (t ∷ ts) s h =
    IsOrdered-post_all ts (post t s)
      (record { in_order = post-Ordered t [] s h.in_order; one_queue = h.one_queue })

choose :
    (test : Bool) {s t : Server} → IsOrdered s → IsOrdered t → IsOrdered (if test then s else t)
choose true h k = h
choose false h k = k

round-IsOrdered : (w : World) (s : Server) → IsCalm w → IsOrdered s → IsOrdered (round w s)
unfolding round
round-IsOrdered w s c h =
    let t = if s.binit then s else post_all (finis w s.members) s in
    let k = choose s.binit h (IsOrdered-post_all (finis w s.members) s h) in
    let swapped = record t { current = t.other; has_post = false } in
    let e =
      ap (λ l. t.ran ++ (t.current ++ l)) k.one_queue
      ∙ ap (λ l. t.ran ++ l) (append-nil t.current)
      ∙ k.in_order in
    record {
      in_order = drain-Ordered w t.current swapped c e;
      one_queue = drain-other w t.current swapped c;
    }

post-IsOrdered : (t : Task) (s : Server) → IsOrdered s → IsOrdered (post t s)
unfolding post
post-IsOrdered t s h = record { in_order = post-Ordered t [] s h.in_order; one_queue = h.one_queue }

same :
    {s t : Server}
    → IsOrdered s
    → t.ran ≡ s.ran
    → t.current ≡ s.current
    → t.posted ≡ s.posted
    → t.other ≡ s.other
    → IsOrdered t
same h r c p o = record {
  in_order = ap₂ (λ x y. x ++ y) r c ∙ h.in_order ∙ sym p;
  one_queue = o ∙ h.one_queue;
}

timer_fini-IsOrdered : (s : Server) → IsOrdered s → IsOrdered (timer_fini s)
unfolding timer_fini
timer_fini-IsOrdered s h =
    elim s.clock as (λ k. IsOrdered (elim k [ clock_null ↦ s | _ ↦ post fini_timer s ])) [
      | clock_null ↦ h
      | _ ↦ post-IsOrdered fini_timer s h
    ]

real_post-IsOrdered :
    (w : World) (finished : Bool) (s : Server)
    → IsCalm w
    → IsOrdered s
    → IsOrdered (real_post w finished s)
unfolding real_post
real_post-IsOrdered w finished s c h =
    choose finished (same h refl refl refl refl)
      (choose (not (is_busy s)) (timer_fini-IsOrdered s h) (round-IsOrdered w s c h))

tick-IsOrdered : (w : World) (s : Server) → IsCalm w → IsOrdered s → IsOrdered (tick w s)
unfolding tick
tick-IsOrdered w s c h =
    elim s.clock
      as (λ k. IsOrdered (elim k [
        | clock_begin ↦ record (real_post w false s) { clock = clock_common }
        | clock_end ↦ record (real_post w true s) { clock = clock_null }
        | clock_common ↦ real_post w false s
        | _ ↦ s
      ])) [
        | clock_begin ↦ same (real_post-IsOrdered w false s c h) refl refl refl refl
        | clock_end ↦ same (real_post-IsOrdered w true s c h) refl refl refl refl
        | clock_common ↦ real_post-IsOrdered w false s c h
        | _ ↦ h
      ]

step-IsOrdered :
    (w : World) (x : Step) (s : Server) → IsCalm w → IsOrdered s → IsOrdered (step w x s)
unfolding step fini
step-IsOrdered w (asks t) s c h = post-IsOrdered t s h
step-IsOrdered w ends s c h =
    choose (not s.binit || not s.running) h (post-IsOrdered fini_server s h)
step-IsOrdered w starts s c h =
    choose (not s.binit || not s.running) h (real_post-IsOrdered w false s c h)
step-IsOrdered w ticks s c h = tick-IsOrdered w s c h

-- Where no function throws, in any run of a new server, also before and after its end, the functions
-- that have been posted are those that have run and then those that wait in one queue, in the order
-- of the posts.
pub steps-IsOrdered :
    (w : World) (xs : List Step) → IsCalm w → IsOrdered (steps w xs (init new_server).1)
unfolding init post steps
steps-IsOrdered w xs c =
    from w xs (init new_server).1 c (record { in_order = refl; one_queue = refl })
  where
    from :
        (w : World) (xs : List Step) (s : Server)
        → IsCalm w
        → IsOrdered s
        → IsOrdered (steps w xs s)
    from w [] s c h = h
    from w (x ∷ xs) s c h = from w xs (step w x s) c (step-IsOrdered w x s c h)
