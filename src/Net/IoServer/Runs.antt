-- ===== src/Net/IoServer/Runs.antt =====
-- Runs of a server, and the theorems at them.
use xhnet.Common.{true, false, ◌≡◌, refl, [], ◌∷◌, ◌==◌, if◌then◌else◌, inl}
use xhnet.Net.IoServer.{
  task, fini_server, fini_timer, wait_timer, Server, World, asks, ends, starts, ticks, new_server,
  init, fini, post, post_all, steps, step, tick, real_post, round, run, drain, timer_fini,
}
use xhnet.Net.IoServer.Order.{IsOrdered, steps-IsOrdered}
use xhnet.Net.IoServer.Blocked.{Waits, steps-Waits}
use xhnet.Net.IoServer.End.{quiet, quiet-ends}

-- The function 1 posts the function 2, and nothing throws.
abbrev chain : World
chain = record {
  effect = λ ran members n. record {
    throws = false;
    posts = if n == 1 then task 2 ∷ [] else [];
    members = members;
  };
  posts_fini = λ m. [];
}

abbrev silent : World
silent = record {
  effect = λ ran members n. record { throws = false; posts = []; members = members };
  posts_fini = λ m. [];
}

-- The function 1 throws.
abbrev throwing : World
throwing = record {
  effect = λ ran members n. record { throws = n == 1; posts = []; members = members };
  posts_fini = λ m. [];
}

-- The whole life of a server: what is posted in a round runs in the next.
life :
    let s =
      steps chain
        (asks (task 1) ∷ asks (task 3) ∷ starts ∷ ends ∷ ticks ∷ ticks ∷ ticks ∷ ticks ∷ [])
        (init new_server).1 in
    (s.running ≡ false)
    × (s.ran ≡ wait_timer ∷ task 1 ∷ task 3 ∷ task 2 ∷ fini_server ∷ fini_timer ∷ [])
unfolding init post steps step fini tick real_post round drain run post_all timer_fini
life = (refl, refl)

-- The function 3 never runs.
throwing-ran :
    (steps throwing
      (asks (task 1) ∷ asks (task 3) ∷ starts ∷ ticks ∷ ticks ∷ ticks ∷ [])
      (init new_server).1).ran
    ≡ wait_timer ∷ []
unfolding init post steps step tick real_post round drain run post_all
throwing-ran = refl

steps-IsOrdered_example :
    IsOrdered (steps chain (asks (task 1) ∷ starts ∷ ticks ∷ []) (init new_server).1)
steps-IsOrdered_example =
    steps-IsOrdered chain (asks (task 1) ∷ starts ∷ ticks ∷ []) (λ ran members n. refl)

abbrev two_wait : Server
two_wait = quiet (1 ∷ 3 ∷ []) true (task 1 ∷ task 3 ∷ []) []

steps-Waits_example :
    Waits (task 1 ∷ task 3 ∷ []) (steps throwing (ticks ∷ ends ∷ ticks ∷ ticks ∷ []) two_wait)
steps-Waits_example =
    steps-Waits throwing 1 (task 3 ∷ []) (λ ran members. refl) (ticks ∷ ends ∷ ticks ∷ ticks ∷ [])
      two_wait (inl (record { more = []; begins = refl }))

quiet-ends_example :
    let s = tick silent (tick silent (tick silent (tick silent (fini two_wait)))) in
    (s.running ≡ false) × (s.ran ≡ task 1 ∷ task 3 ∷ fini_server ∷ fini_timer ∷ [])
quiet-ends_example =
    quiet-ends silent (1 ∷ 3 ∷ []) true (task 1 ∷ task 3 ∷ []) [] (λ ran members n. refl)
