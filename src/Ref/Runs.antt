-- ===== src/Ref/Runs.antt =====
-- A run of a program with one object and two pointers to it.
use xhnet.Common.{◌≡◌, refl, true, false, some, [], ◌∷◌, arith, inr, ◌==◌, ◌||◌, ◌+◌, not}
use xhnet.Ref.{
  World, create, construct, drop_hold, destroy, assign, copy_assign, step, assign_at, new_object,
  retain, release, retain_pointer, release_pointer,
}
use xhnet.Ref.Pointers.{
  IsCounted, references, may_create, may_construct, may_drop, step_lem, Runs, here, after,
  Runs-live, copy_assign_lem,
}

abbrev nothing : World
nothing = record { heap = record { live = λ x. false; ref = λ x. 0 }; pointers = []; owned = [] }

nothing-IsCounted : IsCounted nothing
nothing-IsCounted = record {
  counts = record { live = λ p ne. refl; ref = λ p ne pos. absurd (omega arith) };
}

abbrev created : World
created = record {
  heap = record {
    live = assign_at nothing.heap.live 64 true;
    ref = assign_at nothing.heap.ref 64 1;
  };
  pointers = [];
  owned = 64 ∷ [];
}

abbrev shared : World
shared = record {
  heap = record { live = created.heap.live; ref = assign_at created.heap.ref 64 2 };
  pointers = 64 ∷ [];
  owned = 64 ∷ [];
}

abbrev dropped : World
dropped = record {
  heap = record { live = created.heap.live; ref = assign_at shared.heap.ref 64 1 };
  pointers = 64 ∷ [];
  owned = [];
}

dropped-Runs : Runs nothing dropped
unfolding step release retain_pointer retain new_object
dropped-Runs =
    after (drop_hold 64)
      (after (construct 64)
        (after (create 64) here (may_create 64 (omega arith) refl) (omega arith) refl)
        (may_construct 64 (inr (omega arith))) (omega arith) refl)
      (may_drop 64 (omega arith) (omega arith)) (omega arith) refl

step_lem_example : (w' : World) × (step (create 64) nothing ≡ some w') × IsCounted w'
step_lem_example =
    step_lem (create 64) nothing-IsCounted (may_create 64 (omega arith) refl) (omega arith)

Runs-live_example :
    (dropped.heap.live 64 ≡ not (references dropped 64 == 0))
    × (dropped.heap.ref 64 ≡ references dropped 64)
Runs-live_example = Runs-live 64 nothing-IsCounted dropped-Runs (omega arith)

-- When the last pointer is set to null, the object is gone.
assign-null :
    step (assign 0 0) dropped
    ≡ some (record {
      heap = record {
        live = assign_at created.heap.live 64 false;
        ref = assign_at dropped.heap.ref 64 0;
      };
      pointers = 0 ∷ [];
      owned = [];
    })
unfolding step release release_pointer retain_pointer
assign-null = refl

-- Two objects with a pointer each.
abbrev two : World
two = record {
  heap = record { live = λ x. (x == 64) || (x == 128); ref = λ x. 1 };
  pointers = 64 ∷ 128 ∷ [];
  owned = [];
}

two-IsCounted : IsCounted two
two-IsCounted = record {
  counts = record { live = λ p ne. ground arith; ref = λ p ne pos. ground (arith, pos) };
}

-- The first pointer is assigned the second, and the second is destroyed.
abbrev both_second : World
both_second = record two { pointers = 128 ∷ 128 ∷ [] }

copy_assign_lem_example :
    (v : World) × (step (copy_assign 0 1) two ≡ some v)
    × (v.heap.ref 64 ≡ references v 64 + 1)
    × (v.heap.ref 128 + 1 ≡ references v 128)
    × (v.heap.live 64 ≡ true)
copy_assign_lem_example =
    copy_assign_lem 0 1 two-IsCounted (omega arith) (omega arith) (λ q. omega (arith, q))
      (λ q. omega (arith, q)) (λ q. omega (arith, q))

-- The object is gone, and a pointer still holds it.
destroy-gone :
    step (destroy 1) both_second
    ≡ some (record {
      heap = record {
        live = assign_at both_second.heap.live 128 false;
        ref = assign_at both_second.heap.ref 128 0;
      };
      pointers = 128 ∷ [];
      owned = [];
    })
unfolding step release release_pointer
destroy-gone = refl
