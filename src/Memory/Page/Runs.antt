-- ===== src/Memory/Page/Runs.antt =====
-- Runs of a page of `CMPage` with six blocks.
use xhnet.Common.{count, subst, ℕ, ◌+◌, ◌≤◌, ◌≡◌, refl, [], ◌∷◌, arith}
use xhnet.Memory.Page.{
  calc_aligned_size, is_contains_pointer, isaligned, Page, allocate, free, freeblock, getaligned,
  update,
}
use xhnet.Memory.Page.Layout.{IsAlignment, IsRequest, IsLaidOut, Multiple, made, made-IsLaidOut}
use xhnet.Memory.Page.Blocks.{all_blocks}
use xhnet.Memory.Page.Pool.{World, take, give, Reach, here, then_step, IsSound, Reach-IsSound}
use xhnet.Memory.Page.Client.{made-IsSound, allocate_distinct}

abbrev garbage : ℕ → ℕ
garbage a = 7

-- `malloc` returns 4099, and the first block stands at 4104.
abbrev six : Page
six = record {
  memory = 4099;
  block = 4104;
  freeblock_head = 4104;
  freeblock_num = 6;
  allblock_num = 6;
  page_size = 65536;
  align_size = 8;
  block_size = 10000;
  next = update garbage 4104 0;
}

eight-IsAlignment : IsAlignment 8
eight-IsAlignment = record { log = 3; rest = 61; power = refl; within = refl }

six-IsRequest : IsRequest 4099 10000 8
six-IsRequest = record {
  power = eight-IsAlignment;
  some_byte = omega arith;
  size_lt = omega arith;
  alignment_lt = omega arith;
  allocated = omega arith;
  below = omega arith;
}

made-six : made 4099 garbage 10000 8 ≡ six
unfolding getaligned calc_aligned_size
made-six = refl

six-blocks : all_blocks six ≡ 4104 ∷ 14104 ∷ 24104 ∷ 34104 ∷ 44104 ∷ 54104 ∷ []
six-blocks = refl

six-IsLaidOut : IsLaidOut six
six-IsLaidOut = subst IsLaidOut made-six (made-IsLaidOut garbage six-IsRequest)

abbrev start : World
start = record { page = six; held = [] }

start-IsSound : IsSound start
start-IsSound =
    subst (λ p. IsSound (record { page = p; held = [] })) made-six
      (made-IsSound garbage six-IsRequest)

-- The page and what the client holds after two blocks have been taken and the first given back.
abbrev after_take : World
after_take = record {
  page = record six { freeblock_num = 5; freeblock_head = 14104; next = update six.next 14104 0 };
  held = 4104 ∷ [];
}

abbrev after_both : World
after_both = record {
  page = record after_take.page {
    freeblock_num = 4;
    freeblock_head = 24104;
    next = update after_take.page.next 24104 0;
  };
  held = 14104 ∷ 4104 ∷ [];
}

abbrev after_give : World
after_give = record {
  page = record after_both.page {
    freeblock_num = 5;
    freeblock_head = 4104;
    next = update after_both.page.next 4104 24104;
  };
  held = 14104 ∷ [];
}

both-Reach : Reach start after_both
unfolding allocate
both-Reach =
    then_step (then_step here (take start 4104 after_take.page refl (omega arith)))
      (take after_take 14104 after_both.page refl (omega arith))

give-Reach : Reach start after_give
unfolding free freeblock is_contains_pointer isaligned
give-Reach = then_step both-Reach (give after_both 4104 after_give.page (omega arith) refl)

Reach-IsSound_example : IsSound after_give
Reach-IsSound_example = Reach-IsSound start-IsSound give-Reach

allocate_distinct_example :
    (count (allocate after_give.page).0 (14104 ∷ []) ≡ 0)
    × Multiple 8 (allocate after_give.page).0
    × (4099 ≤ (allocate after_give.page).0)
    × ((allocate after_give.page).0 + 10000 ≤ 4099 + 65536)
allocate_distinct_example = allocate_distinct start-IsSound give-Reach (omega arith)

-- The page with a single block, and the client that holds it.
abbrev one : Page
one = record {
  memory = 4096;
  block = 4096;
  freeblock_head = 4096;
  freeblock_num = 1;
  allblock_num = 1;
  page_size = 80000;
  align_size = 1;
  block_size = 80000;
  next = update garbage 4096 0;
}

abbrev one_start : World
one_start = record { page = one; held = [] }

made-one : made 4096 garbage 80000 1 ≡ one
unfolding getaligned calc_aligned_size
made-one = refl

one-IsSound : IsSound one_start
one-IsSound =
    subst (λ p. IsSound (record { page = p; held = [] })) made-one
      (made-IsSound garbage (record {
        power = record { log = 0; rest = 64; power = refl; within = refl };
        some_byte = omega arith;
        size_lt = omega arith;
        alignment_lt = omega arith;
        allocated = omega arith;
        below = omega arith;
      }))

abbrev one_taken : World
one_taken = record { page = record one { freeblock_num = 0; freeblock_head = 0 }; held = 4096 ∷ [] }

one-Reach : Reach one_start one_taken
unfolding allocate
one-Reach = then_step here (take one_start 4096 one_taken.page refl (omega arith))
