-- ===== src/Memory/Manager/Calls.antt =====
-- `AllocateFromPage` and `FreeToPage` keep the manager sound.
use xhnet.Common.{
  ℕ, ◌+◌, ◌≤◌, ◌<◌, ◌≡◌, ◌≢◌, refl, ◌∙◌, Option, none, some, List, ◌∷◌, arith, ==_refl, length,
  count, remove,
}
use xhnet.Memory.Page.{Page, is_empty, allocate}
use xhnet.Memory.Page.Pool.{here, take-IsSound}
use xhnet.Memory.Page.Client.{allocate_distinct}
use xhnet.Memory.Manager.{Manager, Allocated, assign_at, take_block, allocate_from_page}
use xhnet.Memory.Manager.Sound.{IsSound, IsBusy, each_page, set_page-IsSound}
use xhnet.Memory.Manager.Current.{current_page-Picked}
use xhnet.Memory.Manager.Picks.{IsNew, Picked, ne-of-==}

-- What is held after `block` of the page `x` has been handed out, and after it has been given back.
abbrev pub with_block : ℕ → ℕ → (ℕ → List ℕ) → ℕ → List ℕ
with_block x block held = assign_at held x (block ∷ held x)

abbrev pub without_block : ℕ → ℕ → (ℕ → List ℕ) → ℕ → List ℕ
without_block x block held = assign_at held x (remove block (held x))

-- A block that was not held before, from a page of the manager.
pub record IsAllocated (held : ℕ → List ℕ) (r : Allocated) : Type 0 where
  pub nonnull : r.block ≢ 0
  pub not_held : count r.block (held r.page) ≡ 0
  pub used : 0 < count r.page r.manager.using_pages
  pub sound : IsSound r.manager (with_block r.page r.block held)
  pub busy : IsBusy r.manager (with_block r.page r.block held)
  pub start : (r.manager.pages r.page).memory ≤ r.block
  pub extent :
      r.block + r.manager.block_size
      ≤ (r.manager.pages r.page).memory + (r.manager.pages r.page).page_size

abbrev pub Allocates : (ℕ → List ℕ) → Option Allocated → Type 0
Allocates held none = ⊥
Allocates held (some r) = IsAllocated held r

abbrev pub Frees : (ℕ → List ℕ) → Option Manager → Type 0
Frees held none = ⊥
Frees held (some m) = IsSound m held × IsBusy m held

allocate-sizes :
    (p : Page)
    → ((allocate p).1.block_size ≡ p.block_size)
      × ((allocate p).1.align_size ≡ p.align_size)
      × ((allocate p).1.memory ≡ p.memory)
      × ((allocate p).1.page_size ≡ p.page_size)
unfolding allocate
allocate-sizes p = ground arith

module _ (held : ℕ → List ℕ) where
  take_block-IsAllocated : (o : Option Manager) → Picked held o → Allocates held (take_block o)
  unfolding take_block is_empty
  take_block-IsAllocated none h = absurd h
  take_block-IsAllocated (some m) h =
      let c = m.cur_allocpage in
      let p = m.pages c in
      let s = h.sound in
      let used = s.current h.current in
      let sound = s.page c (omega (arith, used)) in
      let some_free : p.freeblock_num ≢ 0 = ne-of-== _ 0 h.some_free in
      let (fresh, multiple, above, below) =
        allocate_distinct sound here (omega (arith, sound.number, some_free)) in
      let ne : (allocate p).0 ≢ 0 = λ q. omega (arith, q, above, sound.laid.nonnull) in
      let (size, alignment, memory, bytes) = allocate-sizes p in
      let own = s.size c (omega (arith, used)) in
      record {
        nonnull = ne;
        not_held = fresh;
        used = used;
        sound =
            set_page-IsSound s c (allocate p).1 ((allocate p).0 ∷ held c) (omega (arith, used))
              (take-IsSound sound (allocate p).0 (allocate p).1 refl ne) (size ∙ own)
              (alignment ∙ s.alignment c (omega (arith, used)))
              (λ f. absurd (omega (arith, used, f, s.known c, s.once c)));
        busy = record {
          busy =
              each_page (λ x l. 0 < count x m.using_pages → x ≢ c → 0 < length l) held c
                ((allocate p).0 ∷ held c) (λ x ne. h.busy.busy x) (λ f k. omega arith);
        };
        start = rw (==_refl c) (omega (arith, memory, above));
        extent = rw (==_refl c) (omega (arith, memory, bytes, below, own));
      }

  -- For a sound manager, where of the pages in use only the current one may have no block that is
  -- held, with blocks whose size is rounded up, and for an address and memory of a new page,
  -- `AllocateFromPage` succeeds with a block that the client does not hold. It lies within the
  -- memory of its page, which is in use, and the manager stays such a one, with the block held.
  pub allocate_from_page-Allocates :
      {m : Manager} (x fresh : ℕ) (garbage : ℕ → ℕ)
      → IsSound m held
      → IsBusy m held
      → IsNew m x fresh
      → Allocates held (allocate_from_page x fresh garbage m)
  unfolding allocate_from_page
  allocate_from_page-Allocates x fresh garbage s b f =
      take_block-IsAllocated _ (current_page-Picked x fresh garbage s b f)
