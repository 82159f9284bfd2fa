-- ===== src/Memory/Page/Pool.antt =====
-- A page and a client: what the client holds, and what it may do with it.
use xhnet.Common.{
  count, remove, count-remove, length-remove, ℕ, suc, ◌+◌, ◌-◌, ◌<◌, ◌≡◌, ◌≢◌, sym, ap, subst, ◌∙◌,
  List, ◌∷◌, some, arith, ◌==◌, if◌then◌else◌, inl, inr, Bool-cases, length,
}
use mathlib.Core.Option.{some-injective}
use xhnet.Memory.Page.{Page, allocate, freeblock, free}
use xhnet.Memory.Page.FreeList.{
  free_blocks, popped, allocate_lem, free_blocks-popped, free_blocks-freeblock, linked-frame,
}
use xhnet.Memory.Page.Layout.{IsLaidOut}
use xhnet.Memory.Page.Blocks.{all_blocks, count-all_blocks, count-all_blocks_null, free-accepts}

pub record World : Type 0 where
  pub page : Page
  pub held : List ℕ

-- The client takes a block, gives back one that it holds, or writes to the blocks that it holds,
-- which leaves what stands in the others as it is.
pub data Step : World → World → Type 0 where
  take :
      (w : World) (a : ℕ) (p : Page)
      → allocate w.page ≡ (a, p)
      → a ≢ 0
      → Step w (record { page = p; held = a ∷ w.held })
  give :
      (w : World) (a : ℕ) (p : Page)
      → 0 < count a w.held
      → free w.page a ≡ some p
      → Step w (record { page = p; held = remove a w.held })
  scribble :
      (w : World) (next : ℕ → ℕ)
      → ((x : ℕ) → 0 < count x (all_blocks w.page) → count x w.held ≡ 0 → next x ≡ w.page.next x)
      → Step w (record w { page = record w.page { next = next } })

pub data Reach (w : World) : World → Type 0 where
  here : Reach w w
  then_step : {u v : World} → Reach w u → Step u v → Reach w v

-- Every block of the page is free or held, once.
pub record IsSound (w : World) : Type 0 where
  pub laid : IsLaidOut w.page
  pub shared : (x : ℕ) → count x (free_blocks w.page) + count x w.held ≡ count x (all_blocks w.page)
  pub number : w.page.freeblock_num + length w.held ≡ w.page.allblock_num

-- The layout says nothing of the free list.
pub IsLaidOut-list :
    {p : Page} (n head : ℕ) (next : ℕ → ℕ)
    → IsLaidOut p
    → IsLaidOut (record p { freeblock_num = n; freeblock_head = head; next = next })
IsLaidOut-list n head next l = record {
  alignment = l.alignment;
  aligned = l.aligned;
  size_aligned = l.size_aligned;
  room = l.room;
  some_block = l.some_block;
  nonnull = l.nonnull;
  start = l.start;
  slack = l.slack;
  extent = l.extent;
  within = l.within;
}

-- What `Allocate` returns, when it is not null, is the head of a list with free blocks.
allocated :
    (q : Page) (a : ℕ) (p : Page)
    → allocate q ≡ (a, p)
    → a ≢ 0
    → (q.freeblock_num ≡ suc (q.freeblock_num - 1))
      × (a ≡ q.freeblock_head)
      × (p ≡ popped q (q.freeblock_num - 1))
allocated q a p e ne = elim (Bool-cases (q.freeblock_num == 0)) [
  | inl none_free ↦
      let none_left : allocate q ≡ (0, q) = allocate_lem q ∙ (rw none_free) in
      absurd (ne (ap (λ (r : ℕ × Page). r.0) (sym e ∙ none_left)))
  | inr some_left ↦
      let taken : allocate q ≡ (q.freeblock_head, popped q (q.freeblock_num - 1)) =
        allocate_lem q ∙ (rw some_left) in
      (
        ground arith,
        ap (λ (r : ℕ × Page). r.0) (sym e ∙ taken),
        ap (λ (r : ℕ × Page). r.1) (sym e ∙ taken),
      )
]

module _ {w : World} (s : IsSound w) where
  pub take-IsSound :
      (a : ℕ) (p : Page)
      → allocate w.page ≡ (a, p)
      → a ≢ 0
      → IsSound (record { page = p; held = a ∷ w.held })
  take-IsSound a p e ne =
      let (left, head, after) = allocated w.page a p e ne in
      let n : ℕ = w.page.freeblock_num - 1 in
      let split = free_blocks-popped w.page n left in
      subst (λ q. IsSound (record { page = q; held = a ∷ w.held })) (sym after)
        (record {
          laid = IsLaidOut-list _ _ _ s.laid;
          shared = λ x. omega (
            arith,
            s.shared x,
            ap (count x) split,
            ap {B = ℕ} (λ z. if x == z then 1 else 0) head,
          );
          number = omega (arith, s.number, left);
        })

  -- What is held is a block of the page, and not free.
  pub held-block : (a : ℕ) → 0 < count a w.held → 0 < count a (all_blocks w.page)
  held-block a h = omega (arith, s.shared a)

  pub give-IsSound :
      (a : ℕ) (p : Page)
      → 0 < count a w.held
      → free w.page a ≡ some p
      → IsSound (record { page = p; held = remove a w.held })
  unfolding freeblock
  give-IsSound a p h e =
      let member = held-block a h in
      let once = count-all_blocks s.laid in
      let pushed =
        free_blocks-freeblock w.page a (omega (arith, s.shared a, once a))
          (omega (arith, s.shared 0, count-all_blocks_null s.laid)) in
      let after : freeblock w.page a ≡ p =
        some-injective _ _ (sym (free-accepts s.laid a member) ∙ e) in
      subst (λ q. IsSound (record { page = q; held = remove a w.held })) after
        (record {
          laid = IsLaidOut-list _ _ _ s.laid;
          shared = λ x. omega (arith, s.shared x, ap (count x) pushed, count-remove a x w.held h);
          number = omega (arith, s.number, length-remove a w.held h);
        })

  pub scribble-IsSound :
      (next : ℕ → ℕ)
      → ((x : ℕ) → 0 < count x (all_blocks w.page) → count x w.held ≡ 0 → next x ≡ w.page.next x)
      → IsSound (record w { page = record w.page { next = next } })
  scribble-IsSound next same =
      let list =
        linked-frame w.page.next next w.page.block_size w.page.freeblock_num w.page.freeblock_head
          (λ x h.
            same x (omega (arith, s.shared x))
              (omega (arith, s.shared x, count-all_blocks s.laid x))) in
      record {
        laid = IsLaidOut-list _ _ _ s.laid;
        shared = λ x. omega (arith, s.shared x, ap (count x) list);
        number = s.number;
      }

pub Step-IsSound : {w v : World} → Step w v → IsSound w → IsSound v
Step-IsSound (take w a p e ne) s = take-IsSound s a p e ne
Step-IsSound (give w a p h e) s = give-IsSound s a p h e
Step-IsSound (scribble w next same) s = scribble-IsSound s next same

-- From a laid out page and a client where every block is free or held, once, every run of the
-- client, which takes blocks, gives back blocks that it holds and writes to them, leads to such a
-- page and client.
pub Reach-IsSound : {w v : World} → IsSound w → Reach w v → IsSound v
Reach-IsSound s here = s
Reach-IsSound s (then_step r t) = Step-IsSound t (Reach-IsSound s r)
