-- ===== src/Memory/Manager/Runs.antt =====
-- Runs of a manager of pages with six blocks each.
use xhnet.Common.{ℕ, ◌<◌, ◌≡◌, refl, some, List, [], ◌∷◌, arith, count}
use xhnet.Memory.Page.{
  Page, update, getaligned, calc_aligned_size, new_page, create, isaligned, is_empty, is_intact,
  allocate, free, freeblock, is_contains_pointer,
}
use xhnet.Memory.Page.Layout.{IsAlignment}
use xhnet.Memory.Manager.{
  Manager, assign_at, new_manager, allocate_from_page, free_to_page, get_mem_stat,
}
use xhnet.Memory.Manager.Sound.{IsSound, IsBusy, mine}
use xhnet.Memory.Manager.Picks.{IsNew}
use xhnet.Memory.Manager.Frees.{free_to_page-Frees}
use xhnet.Memory.Manager.Calls.{
  Allocates, Frees, with_block, without_block, allocate_from_page-Allocates,
}
use xhnet.Memory.Manager.Reach.{
  Reach, here, then_step, take, give, new_world, runs-IsSound, get_mem_stat-used,
}

abbrev garbage : ℕ → ℕ
garbage a = 7

-- `malloc` returns 4099, and the first block stands at 4104.
abbrev six : Page
six = record {
  memory = 4099;
  block = 4104;
  freeblock_head = 4104;
  freeblock_num = 6;
  allblock_num = 6;
  page_size = 65536;
  align_size = 8;
  block_size = 10000;
  next = update garbage 4104 0;
}

abbrev five : Page
five = record six { freeblock_num = 5; freeblock_head = 14104; next = update six.next 14104 0 }

abbrev no_pages : ℕ → Page
no_pages x = six

abbrev first : Manager
first = record {
  block_size = 10000;
  align_size = 8;
  recycle_size = 50;
  all_pages = [];
  free_pages = [];
  using_pages = [];
  cur_allocpage = 0;
  pages = no_pages;
}

-- The page object stands at 1.
abbrev one_taken : Manager
one_taken = record first {
  all_pages = 1 ∷ [];
  using_pages = 1 ∷ [];
  cur_allocpage = 1;
  pages = assign_at (assign_at no_pages 1 six) 1 five;
}

abbrev none_held : ℕ → List ℕ
none_held x = []

abbrev one_held : ℕ → List ℕ
one_held = with_block 1 4104 none_held

eight-IsAlignment : IsAlignment 8
eight-IsAlignment = record { log = 3; rest = 61; power = refl; within = refl }

first-IsNew : IsNew first 1 4099
unfolding calc_aligned_size
first-IsNew = record {
  address = λ q. omega (arith, q);
  unused = refl;
  request = record {
    power = eight-IsAlignment;
    some_byte = omega arith;
    size_lt = omega arith;
    alignment_lt = omega arith;
    allocated = omega arith;
    below = omega arith;
  };
  whole = refl;
}

first-taken :
    allocate_from_page 1 4099 garbage first
    ≡ some (record { block = 4104; page = 1; manager = one_taken })
unfolding allocate_from_page new_page create calc_aligned_size getaligned isaligned is_empty
    allocate
first-taken = refl

first-new : new_manager 10000 8 50 [] no_pages ≡ first
unfolding new_manager calc_aligned_size
first-new = refl

abbrev given_back : Manager
given_back = record one_taken {
  pages = assign_at one_taken.pages 1 (record five {
    freeblock_num = 6;
    freeblock_head = 4104;
    next = update five.next 4104 14104;
  });
}

one-Reach :
    Reach (new_world 10000 8 50 [] no_pages) (record { manager = one_taken; held = one_held })
unfolding new_manager calc_aligned_size allocate_from_page new_page create getaligned isaligned
    is_empty allocate
one-Reach =
    then_step here (
      take 1 4099 garbage (record { block = 4104; page = 1; manager = one_taken }) first-IsNew refl)

given-Reach :
    Reach
      (new_world 10000 8 50 [] no_pages)
      (record { manager = given_back; held = without_block 1 4104 one_held })
unfolding free_to_page free freeblock is_contains_pointer isaligned is_intact
given-Reach = then_step one-Reach (give 1 4104 given_back (omega arith) refl)

runs-IsSound_example :
    IsSound given_back (without_block 1 4104 one_held)
    × IsBusy given_back (without_block 1 4104 one_held)
runs-IsSound_example = runs-IsSound 10000 8 50 [] no_pages (λ x. omega arith) refl given-Reach

first-IsSound : IsSound first none_held × IsBusy first none_held
unfolding new_manager calc_aligned_size
first-IsSound = runs-IsSound 10000 8 50 [] no_pages (λ x. omega arith) refl here

one-IsSound : IsSound one_taken one_held × IsBusy one_taken one_held
one-IsSound = runs-IsSound 10000 8 50 [] no_pages (λ x. omega arith) refl one-Reach

allocate_from_page-Allocates_example : Allocates none_held (allocate_from_page 1 4099 garbage first)
allocate_from_page-Allocates_example =
    allocate_from_page-Allocates none_held 1 4099 garbage first-IsSound.0 first-IsSound.1
      first-IsNew

free_to_page-Frees_example : Frees (without_block 1 4104 one_held) (free_to_page 4104 1 one_taken)
free_to_page-Frees_example = free_to_page-Frees one-IsSound.0 one-IsSound.1 1 4104 (omega arith)

one-own : (x : ℕ) → 0 < count x one_taken.all_pages → 0 < mine one_taken x
one-own x h = omega (arith, h)

get_mem_stat-used_example :
    (get_mem_stat one_taken (record { all = 0; used = 5; free = 0 })).used ≡ 10005
get_mem_stat-used_example =
    get_mem_stat-used one-IsSound.0 (record { all = 0; used = 5; free = 0 }) one-own
