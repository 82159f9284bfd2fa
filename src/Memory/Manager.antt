-- ===== src/Memory/Manager.antt =====
-- `CSameSizeMPageMgr`, `CPageList` and `CPageSet` of include/memory/mpagemgr.h and
-- source/memory/mpagemgr.cpp: the pages of blocks of one size. A page object is its address, and 0
-- is the null pointer; `std::set` keeps the addresses in their order.
pub mod Sound
pub mod Picks
pub mod Current
pub mod Calls
pub mod Frees
pub mod Reach
mod Runs
use xhnet.Common.{
  ℕ, ◌+◌, ◌-◌, ◌*◌, ◌%◌, ◌^◌, Bool, true, false, not, ◌&&◌, Option, none, some, List, [], ◌∷◌, ◌++◌,
  ◌==◌, ltb, leb, if◌then◌else◌, remove, length,
}
use xhnet.Memory.Page.{
  Page, calc_aligned_size, new_page, reset, is_empty, is_intact, allocate, free, ulong_mod,
}

pub record Manager : Type 0 where
  pub block_size : ℕ
  pub align_size : ℕ
  pub recycle_size : ℕ
  -- what `m_all_pages` points to
  pub all_pages : List ℕ
  pub free_pages : List ℕ
  pub using_pages : List ℕ
  pub cur_allocpage : ℕ
  -- the page objects
  pub pages : ℕ → Page

-- The constructor, and `Set_AllPages`.
unfoldable pub new_manager : ℕ → ℕ → ℕ → List ℕ → (ℕ → Page) → Manager
new_manager block_size align_size recycle_size all_pages pages = record {
  block_size = calc_aligned_size block_size align_size;
  align_size = align_size;
  recycle_size = recycle_size;
  all_pages = all_pages;
  free_pages = [];
  using_pages = [];
  cur_allocpage = 0;
  pages = pages;
}

-- `CPageSet::Insert`.
abbrev pub insert : ℕ → List ℕ → List ℕ
insert x [] = x ∷ []
insert x (y ∷ l) =
    let rest = insert x l in if x == y then y ∷ l else if ltb x y then x ∷ y ∷ l else y ∷ rest

-- `CPageList::Find` and `CPageSet::Find`.
abbrev pub find : (ℕ → Bool) → List ℕ → ℕ
find fun [] = 0
find fun (x ∷ l) = let rest = find fun l in if fun x then x else rest

abbrev pub assign_at {ℓ} : {A : Type ℓ} → (ℕ → A) → ℕ → A → ℕ → A
assign_at f p v x = if x == p then v else f x

-- The page becomes the current one, and one that is used.
abbrev pub using : ℕ → Page → Manager → Manager
using x p m = record m {
  cur_allocpage = x;
  using_pages = insert x m.using_pages;
  pages = assign_at m.pages x p;
}

-- `none` is a crash, or the failed assertion that `Reset` succeeds.
abbrev pub reused : ℕ → Option (Bool × Page) → Manager → Option Manager
reused x none m = none
reused x (some (false, p)) m = none
reused x (some (true, p)) m = some (using x p m)

abbrev pub added : ℕ → Option Page → Manager → Option Manager
added x none m = none
added x (some p) m = some (record (using x p m) { all_pages = insert x m.all_pages })

-- A page from the free ones, or a new one: `x` is the address that `new` returns, and `fresh` and
-- `garbage` are what the memory of a page is.
abbrev pub pick_free : ℕ → ℕ → (ℕ → ℕ) → List ℕ → Manager → Option Manager
unfolding new_page reset
pick_free x fresh garbage [] m = added x (new_page fresh garbage m.block_size m.align_size) m
pick_free x fresh garbage (y ∷ l) m =
    reused y (reset fresh garbage m.block_size m.align_size (m.pages y))
      (record m { free_pages = l })

abbrev pub pick_page : ℕ → ℕ → (ℕ → ℕ) → Manager → Option Manager
unfolding is_empty pick_free
pick_page x fresh garbage m =
    let y = find (λ z. not (z == 0) && not (is_empty (m.pages z))) m.using_pages in
    if y == 0
    then pick_free x fresh garbage m.free_pages m
    else some (record m { cur_allocpage = y })

-- The current page, unless it has no free block left.
abbrev pub drop_empty : Manager → Manager
unfolding is_empty
drop_empty m =
    if not (m.cur_allocpage == 0) && is_empty (m.pages m.cur_allocpage)
    then record m { cur_allocpage = 0 }
    else m

abbrev pub choose_page : ℕ → ℕ → (ℕ → ℕ) → Manager → Option Manager
unfolding pick_page
choose_page x fresh garbage m = if m.cur_allocpage == 0 then pick_page x fresh garbage m else some m

abbrev pub current_page : ℕ → ℕ → (ℕ → ℕ) → Manager → Option Manager
unfolding drop_empty choose_page
current_page x fresh garbage m = choose_page x fresh garbage (drop_empty m)

-- A block, its page, and the manager afterwards.
pub record Allocated : Type 0 where
  pub block : ℕ
  pub page : ℕ
  pub manager : Manager

abbrev pub take_block : Option Manager → Option Allocated
unfolding allocate
take_block none = none
take_block (some m) =
    let r = allocate (m.pages m.cur_allocpage) in
    some (record {
      block = r.0;
      page = m.cur_allocpage;
      manager = record m { pages = assign_at m.pages m.cur_allocpage r.1 };
    })

unfoldable pub allocate_from_page : ℕ → ℕ → (ℕ → ℕ) → Manager → Option Allocated
unfolding current_page take_block
allocate_from_page x fresh garbage m = take_block (current_page x fresh garbage m)

-- A page without a used block that is not the current one: it is kept or deleted.
abbrev pub recycle : ℕ → Manager → Manager
recycle page m =
    let unused = record m { using_pages = remove page m.using_pages } in
    if leb m.recycle_size (length m.free_pages)
    then record unused { all_pages = remove page m.all_pages }
    else record unused { free_pages = m.free_pages ++ (page ∷ []) }

abbrev pub freed_block : ℕ → Option Page → Manager → Option Manager
unfolding is_intact
freed_block page none m = none
freed_block page (some p) m =
    let m' = record m { pages = assign_at m.pages page p } in
    if not (is_intact p)
    then some m'
    else if m.cur_allocpage == page
    then some m'
    else some (recycle page m')

-- `none` is a failed assertion.
unfoldable pub free_to_page : ℕ → ℕ → Manager → Option Manager
unfolding free freed_block
free_to_page block page m =
    if page == 0 then none else freed_block page (free (m.pages page) block) m

-- The sums of `GetMemStat`, over the pages: all bytes, the used ones, and the free ones.
pub record MemStat : Type 0 where
  pub all : ℕ
  pub used : ℕ
  pub free : ℕ

abbrev pub add_page : Page → MemStat → MemStat
add_page p s = record {
  all = (s.all + p.page_size) % ulong_mod;
  used =
      (s.used
        + (p.allblock_num + ulong_mod - p.freeblock_num) % ulong_mod * p.block_size % ulong_mod)
      % ulong_mod;
  free = (s.free + p.freeblock_num * p.block_size % ulong_mod) % ulong_mod;
}

abbrev pub sum_pages : (ℕ → Page) → List ℕ → MemStat → MemStat
sum_pages pages [] s = s
sum_pages pages (x ∷ l) s = sum_pages pages l (if x == 0 then s else add_page (pages x) s)

-- What is added to the numbers of the caller.
unfoldable pub get_mem_stat : Manager → MemStat → MemStat
get_mem_stat m s =
    let mine = sum_pages m.pages m.all_pages (record { all = 0; used = 0; free = 0 }) in
    record {
      all = (s.all + mine.all) % ulong_mod;
      used = (s.used + mine.used) % ulong_mod;
      free = (s.free + mine.free) % ulong_mod;
    }
