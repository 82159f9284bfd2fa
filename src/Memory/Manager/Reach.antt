-- ===== src/Memory/Manager/Reach.antt =====
-- The runs of a client of a manager.
use xhnet.Common.{
  ℕ, ◌+◌, ◌-◌, ◌*◌, ◌%◌, ◌≤◌, ◌<◌, ◌≡◌, ◌≢◌, refl, sym, ap, subst, ◌∙◌, some, List, [], ◌∷◌, arith,
  ◌==◌, ==_iff, ==_refl, if◌then◌else◌, inl, inr, Bool-cases, length, count, ne→==,
}
use xhnet.Memory.Page.{Page, ulong_mod}
use xhnet.Memory.Page.Pool.{scribble-IsSound}
use xhnet.Memory.Page.Blocks.{all_blocks}
use xhnet.Memory.Manager.{
  Manager, Allocated, MemStat, new_manager, assign_at, allocate_from_page, free_to_page,
  get_mem_stat, sum_pages, add_page,
}
use xhnet.Memory.Manager.Sound.{IsSound, IsBusy, mine, set_page-IsSound}
use xhnet.Memory.Manager.Picks.{IsNew}
use xhnet.Memory.Manager.Frees.{free_to_page-Frees}
use xhnet.Memory.Manager.Calls.{
  IsAllocated, Allocates, Frees, with_block, without_block, allocate_from_page-Allocates,
}

-- The manager and the blocks that its client holds.
pub record World : Type 0 where
  pub manager : Manager
  pub held : ℕ → List ℕ

-- The client takes a block, gives back one that it holds, or writes to blocks that it holds.
pub data Step (w : World) : World → Type 0 where
  take :
      (x fresh : ℕ) (garbage : ℕ → ℕ) (r : Allocated)
      → IsNew w.manager x fresh
      → allocate_from_page x fresh garbage w.manager ≡ some r
      → Step w (record { manager = r.manager; held = with_block r.page r.block w.held })
  give :
      (page block : ℕ) (m : Manager)
      → 0 < count block (w.held page)
      → free_to_page block page w.manager ≡ some m
      → Step w (record { manager = m; held = without_block page block w.held })
  scribble :
      (x : ℕ) (next : ℕ → ℕ)
      → 0 < mine w.manager x
      → ((a : ℕ)
          → 0 < count a (all_blocks (w.manager.pages x))
          → count a (w.held x) ≡ 0
          → next a ≡ (w.manager.pages x).next a)
      → Step w (record w {
        manager = record w.manager {
          pages = assign_at w.manager.pages x (record (w.manager.pages x) { next = next });
        };
      })

pub data Reach (w : World) : World → Type 0 where
  here : Reach w w
  then_step : {u v : World} → Reach w u → Step u v → Reach w v

abbrev pub Holds : World → Type 0
Holds w = IsSound w.manager w.held × IsBusy w.manager w.held

assign_at-own {ℓ} : {A : Type ℓ} (f : ℕ → A) (x y : ℕ) → assign_at f x (f x) y ≡ f y
assign_at-own f x y = elim (Bool-cases (y == x)) [
  | inl e ↦ rw e (ap f (sym ((==_iff y x).0 e)))
  | inr e ↦ rw e refl
]

Step-Holds : {w v : World} → Step w v → Holds w → Holds v
Step-Holds {w} (take x fresh garbage r new e) (s, b) =
    let a : IsAllocated w.held r =
      subst (Allocates w.held) e (allocate_from_page-Allocates w.held x fresh garbage s b new) in
    (a.sound, a.busy)
Step-Holds {w} (give page block m h e) (s, b) =
    subst (Frees (without_block page block w.held)) e (free_to_page-Frees s b page block h)
Step-Holds {w} (scribble x next h same) (s, b) =
    let p = record (w.manager.pages x) { next = next } in
    let m = record w.manager { pages = assign_at w.manager.pages x p } in
    (
      subst (IsSound m) (λ i y. assign_at-own w.held x y i)
          (set_page-IsSound s x p (w.held x) h (scribble-IsSound (s.page x h) next same)
            (s.size x h) (s.alignment x h) (s.idle x)),
      record { busy = b.busy },
    )

-- A new manager among the pages of others.
abbrev pub new_world : ℕ → ℕ → ℕ → List ℕ → (ℕ → Page) → World
new_world block_size align_size recycle_size all_pages pages = record {
  manager = new_manager block_size align_size recycle_size all_pages pages;
  held = λ x. [];
}

new_world-Holds :
    (block_size align_size recycle_size : ℕ) (all_pages : List ℕ) (pages : ℕ → Page)
    → ((x : ℕ) → count x all_pages ≤ 1)
    → count 0 all_pages ≡ 0
    → Holds (new_world block_size align_size recycle_size all_pages pages)
unfolding new_manager
new_world-Holds block_size align_size recycle_size all_pages pages once null = (
  record {
    known = λ x. omega arith;
    once = once;
    null = null;
    page = λ x h. absurd (omega (arith, h));
    size = λ x h. absurd (omega (arith, h));
    alignment = λ x h. absurd (omega (arith, h));
    idle = λ x h. refl;
    outside = λ x h. refl;
    current = λ ne. absurd (ne refl);
    bounded = omega arith;
  },
  record { busy = λ x h. absurd (omega (arith, h)) },
)

Reach-Holds : {w v : World} → Reach w v → Holds w → Holds v
Reach-Holds here h = h
Reach-Holds (then_step r t) h = Step-Holds t (Reach-Holds r h)

-- From a new manager, whose set of all pages has no page twice and no null pointer, every run of a
-- client, which takes blocks, gives back blocks that it holds and writes to them, leads to a sound
-- manager, where at most `recycle_size` pages are kept for later and of the pages in use only the
-- current one may have no block that is held.
pub runs-IsSound :
    (block_size align_size recycle_size : ℕ) (all_pages : List ℕ) (pages : ℕ → Page) {w : World}
    → ((x : ℕ) → count x all_pages ≤ 1)
    → count 0 all_pages ≡ 0
    → Reach (new_world block_size align_size recycle_size all_pages pages) w
    → IsSound w.manager w.held × IsBusy w.manager w.held
runs-IsSound block_size align_size recycle_size all_pages pages once null r =
    Reach-Holds r (new_world-Holds block_size align_size recycle_size all_pages pages once null)

-- The bytes of the blocks that are held, of the pages in a list.
abbrev pub held_bytes : (ℕ → List ℕ) → ℕ → List ℕ → ℕ
held_bytes held size [] = 0
held_bytes held size (x ∷ l) = length (held x) * size + held_bytes held size l

le_mul : (a k : ℕ) → 1 ≤ k → a ≤ k * a
le_mul a k h = grind arith

mod_right : (a b : ℕ) → (a + b % ulong_mod) % ulong_mod ≡ (a + b) % ulong_mod
mod_right a b = omega arith

mod_left : (a b c : ℕ) → ((a + b) % ulong_mod + c) % ulong_mod ≡ (a + (b + c)) % ulong_mod
mod_left a b c = omega arith

module _ {m : Manager} {held : ℕ → List ℕ} (s : IsSound m held) where
  add_page-used :
      (x : ℕ) (t : MemStat)
      → 0 < mine m x
      → (add_page (m.pages x) t).used ≡ (t.used + length (held x) * m.block_size) % ulong_mod
  add_page-used x t h =
      let p = m.pages x in
      let sound = s.page x h in
      let used : (p.allblock_num + ulong_mod - p.freeblock_num) % ulong_mod ≡ length (held x) =
        omega (
          arith,
          sound.number,
          sound.laid.room,
          sound.laid.extent,
          sound.laid.within,
          le_mul p.allblock_num p.block_size (omega (arith, sound.laid.room)),
        ) in
      rw (used, s.size x h) (mod_right t.used (length (held x) * m.block_size))

  sum_pages-used :
      (l : List ℕ) (t : MemStat)
      → ((x : ℕ) → 0 < count x l → (x ≢ 0) × (0 < mine m x))
      → t.used < ulong_mod
      → (sum_pages m.pages l t).used ≡ (t.used + held_bytes held m.block_size l) % ulong_mod
  sum_pages-used [] t h small = omega (arith, small)
  sum_pages-used (x ∷ l) t h small =
      let (ne, is_mine) = h x (rw (==_refl x) (omega arith)) in
      let t' = add_page (m.pages x) t in
      let first = add_page-used x t is_mine in
      ap (λ c. (sum_pages m.pages l (if c then t else t')).used) (ne→== x 0 ne)
      ∙ (sum_pages-used l t' (λ y k. h y (omega (arith, k))) (omega (arith, first))
          ∙ ap (λ n. (n + held_bytes held m.block_size l) % ulong_mod) first
          ∙ mod_left t.used (length (held x) * m.block_size) (held_bytes held m.block_size l))

  -- For a sound manager to which all the pages in the set belong, `GetMemStat` adds to `used` the
  -- bytes of the blocks that are held, modulo 2 ^ 64.
  pub get_mem_stat-used :
      (t : MemStat)
      → ((x : ℕ) → 0 < count x m.all_pages → 0 < mine m x)
      → (get_mem_stat m t).used ≡ (t.used + held_bytes held m.block_size m.all_pages) % ulong_mod
  unfolding get_mem_stat
  get_mem_stat-used t own =
      let hb = held_bytes held m.block_size m.all_pages in
      let zero_stat : MemStat = record { all = 0; used = 0; free = 0 } in
      ap (λ n. (t.used + n) % ulong_mod)
        (sum_pages-used m.all_pages zero_stat
          (λ x k. (λ q. omega (arith, s.known 0, s.null, own x k, ap (mine m) q), own x k))
          (omega arith))
      ∙ omega arith
