-- ===== src/Memory/Page/Client.antt =====
-- What a client of a page may count on, from the constructor on, and what `Clear` does.
use xhnet.Common.{
  count, not, ◌&&◌, ℕ, zero, suc, ◌+◌, ◌-◌, ◌≤◌, ◌<◌, ◌≡◌, ◌≢◌, refl, ap, ◌∙◌, true, false, List,
  [], ◌∷◌, some, arith, ◌==◌, ==_iff, ==_refl, ne→==, if◌then◌else◌, inl, inr, Bool-cases, length,
}
use xhnet.Memory.Page.{Page, reset, is_intact, update, clear, is_empty, allocate, freeblock, free}
use xhnet.Memory.Page.FreeList.{
  adjacent, linked, free_blocks, popped, allocate_lem, free_blocks-popped,
}
use xhnet.Memory.Page.Layout.{
  made, made-IsLaidOut, create_lem, IsRequest, Multiple-isaligned, IsLaidOut, Multiple,
}
use xhnet.Memory.Page.Blocks.{all_blocks, count-all_blocks, block_within, free-accepts}
use xhnet.Memory.Page.Pool.{World, Reach, IsSound, Reach-IsSound, held-block, IsLaidOut-list}

-- A page with all its blocks free and a client that holds none.
pub initial-IsSound :
    {p : Page}
    → IsLaidOut p
    → free_blocks p ≡ all_blocks p
    → p.freeblock_num ≡ p.allblock_num
    → IsSound (record { page = p; held = [] })
initial-IsSound laid all number = record {
  laid = laid;
  shared = λ x. omega (arith, ap (count x) all);
  number = omega (arith, number);
}

-- A list that starts at a null `next` is of the blocks that lie behind it.
linked-fresh : (next : ℕ → ℕ) (size n a : ℕ) → linked (update next a 0) size n a ≡ adjacent size n a
linked-fresh next size zero a = refl
linked-fresh next size (suc n) a = rw (==_refl a)

-- A new page and a client that holds none of its blocks.
pub made-IsSound :
    {fresh size alignment : ℕ} (garbage : ℕ → ℕ)
    → IsRequest fresh size alignment
    → IsSound (record { page = made fresh garbage size alignment; held = [] })
made-IsSound {fresh} {size} {alignment} garbage r =
    let p = made fresh garbage size alignment in
    initial-IsSound (made-IsLaidOut garbage r)
      (linked-fresh garbage p.block_size p.freeblock_num p.block) refl

-- `Clear` of a laid out page succeeds and leaves it laid out, with all its blocks free, or with
-- none free where none was.
pub clear_lem :
    {p : Page}
    → IsLaidOut p
    → (q : Page) × (clear p ≡ some q)
      × IsLaidOut q
      × (free_blocks q ≡ (if p.freeblock_num == 0 then [] else all_blocks p))
unfolding clear is_empty
clear_lem {p} laid = elim (Bool-cases (p.freeblock_num == 0)) [
  | inl e ↦ (
    p,
    (rw e),
    laid,
    rw e (ap (λ n. linked p.next p.block_size n p.freeblock_head) ((==_iff p.freeblock_num 0).0 e)),
  )
  | inr e ↦ (
    record p {
      freeblock_num = p.allblock_num;
      freeblock_head = p.block;
      next = update p.next p.block 0;
    },
    (rw (e, Multiple-isaligned laid.alignment p.block laid.aligned)),
    IsLaidOut-list _ _ _ laid,
    rw e (linked-fresh p.next p.block_size p.allblock_num p.block),
  )
]

-- For such a size, alignment and memory, `Reset` of a page with memory refuses a page with a block
-- in use and keeps one of the same sizes; any other page becomes a new one in new memory.
pub reset_lem :
    {fresh size alignment : ℕ} (garbage : ℕ → ℕ)
    → IsRequest fresh size alignment
    → (p : Page) → p.memory ≢ 0
    → reset fresh garbage size alignment p ≡ (
        if not (p.freeblock_num == p.allblock_num)
        then some (false, p)
        else if p.block_size == size && p.align_size == alignment
        then some (true, p)
        else some (true, made fresh garbage size alignment))
unfolding reset is_intact
reset_lem garbage r p ne =
    let renewed = create_lem garbage r p (rw (ne→== p.memory 0 ne)) in rw renewed

head_counted : (a : ℕ) (l : List ℕ) → 0 < count a (a ∷ l)
head_counted a l = rw (==_refl a) (omega arith)

module _ {w v : World} (s : IsSound w) (r : Reach w v) where
  -- After any run of a client from a sound start, while it holds fewer blocks than the page has,
  -- `Allocate` returns a block that it does not hold: aligned, and with all its bytes in the
  -- memory of the page.
  pub allocate_distinct :
      length v.held < v.page.allblock_num
      → (count (allocate v.page).0 v.held ≡ 0)
        × Multiple v.page.align_size (allocate v.page).0
        × (v.page.memory ≤ (allocate v.page).0)
        × ((allocate v.page).0 + v.page.block_size ≤ v.page.memory + v.page.page_size)
  allocate_distinct free_left =
      let t = Reach-IsSound s r in
      let left : v.page.freeblock_num ≡ suc (v.page.freeblock_num - 1) = omega (arith, t.number) in
      let taken : allocate v.page
          ≡ (v.page.freeblock_head, popped v.page (v.page.freeblock_num - 1)) =
        allocate_lem v.page ∙ (rw (ne→== v.page.freeblock_num 0 (omega arith))) in
      let head : (allocate v.page).0 ≡ v.page.freeblock_head = ap (λ (q : ℕ × Page). q.0) taken in
      let split = free_blocks-popped v.page (v.page.freeblock_num - 1) left in
      let is_free : 0 < count v.page.freeblock_head (free_blocks v.page) = omega (
        arith,
        ap (count v.page.freeblock_head) split,
        head_counted v.page.freeblock_head (free_blocks (popped v.page (v.page.freeblock_num - 1))),
      ) in
      let member : 0 < count v.page.freeblock_head (all_blocks v.page) =
        omega (arith, t.shared v.page.freeblock_head) in
      let once = count-all_blocks t.laid v.page.freeblock_head in
      let (multiple, above, below) = block_within t.laid v.page.freeblock_head member in
      rw head (omega (arith, t.shared v.page.freeblock_head), multiple, above, below)

  -- After any run of a client from a sound start, when it holds as many blocks as the page has,
  -- `Allocate` returns null and changes nothing.
  pub allocate_exhausted : length v.held ≡ v.page.allblock_num → allocate v.page ≡ (0, v.page)
  allocate_exhausted all_held =
      let t = Reach-IsSound s r in
      allocate_lem v.page ∙ (rw ((==_iff v.page.freeblock_num 0).1 (omega (arith, t.number))))

  -- After any run of a client from a sound start `Free` accepts every block that it holds.
  pub free_held : (a : ℕ) → 0 < count a v.held → free v.page a ≡ some (freeblock v.page a)
  free_held a h = let t = Reach-IsSound s r in free-accepts t.laid a (held-block t a h)
