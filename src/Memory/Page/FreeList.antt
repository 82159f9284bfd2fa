-- ===== src/Memory/Page/FreeList.antt =====
-- The free blocks of a page as a stack: `Allocate` pops it and `Free` pushes on it.
use xhnet.Common.{
  count, ℕ, zero, suc, ◌+◌, ◌-◌, ◌%◌, ◌<◌, ◌≡◌, refl, ap, ◌∙◌, Bool, true, false, List, [], ◌∷◌,
  arith, ltb, ◌==◌, ==_iff, ==_refl, subst, if◌then◌else◌, length, inl, inr, Bool-cases,
}
use native.Mathlib.Numerals.{add-one}
use xhnet.Memory.Page.{Page, update, ulong_mod, allocate, freeblock}

-- `n` blocks that lie one behind the other from `a` on.
abbrev pub adjacent : ℕ → ℕ → ℕ → List ℕ
adjacent size zero a = []
adjacent size (suc n) a = a ∷ adjacent size n ((a + size) % ulong_mod)

-- The `n` blocks of the list at `a`. Where a `next` is null, those that follow in memory are meant,
-- which have never been allocated. The `next` of the last block is not part of the list.
abbrev pub linked : (ℕ → ℕ) → ℕ → ℕ → ℕ → List ℕ
linked next size zero a = []
linked next size (suc n) a =
    a
    ∷ (if next a == 0
        then adjacent size n ((a + size) % ulong_mod)
        else linked next size n (next a))

abbrev pub free_blocks : Page → List ℕ
free_blocks p = linked p.next p.block_size p.freeblock_num p.freeblock_head

length-adjacent : (size n a : ℕ) → length (adjacent size n a) ≡ n
length-adjacent size zero a = refl
length-adjacent size (suc n) a = ap suc (length-adjacent size n _)

pub length-linked : (next : ℕ → ℕ) (size n a : ℕ) → length (linked next size n a) ≡ n
length-linked next size zero a = refl
length-linked next size (suc n) a =
    ground
      (arith, length-adjacent size n ((a + size) % ulong_mod), length-linked next size n (next a))

-- A list is the same where the blocks of it hold the same pointers.
pub linked-frame :
    (next next' : ℕ → ℕ) (size n a : ℕ)
    → ((x : ℕ) → 0 < count x (linked next size n a) → next' x ≡ next x)
    → linked next' size n a ≡ linked next size n a
linked-frame next next' size zero a same = refl
linked-frame next next' size (suc n) a same =
    rw (same a (ground arith)) (elim (Bool-cases (next a == 0)) [
      | inl fresh ↦ rw fresh
      | inr used ↦ rw used (
          ap (λ l. a ∷ l)
            (linked-frame next next' size n (next a) (λ x h. same x (rw used (omega arith)))))
    ])

-- The page after `Allocate` has handed out the head, with `n` blocks left.
abbrev pub popped : Page → ℕ → Page
popped p n =
    let beyond = (p.freeblock_head + p.block_size) % ulong_mod in
    let fresh = p.next p.freeblock_head == 0 in
    record p {
      freeblock_num = n;
      freeblock_head = if n == 0 then 0 else if fresh then beyond else p.next p.freeblock_head;
      next = if n == 0 then p.next else if fresh then update p.next beyond 0 else p.next;
    }

-- With no free block `Allocate` returns null and changes nothing, otherwise it pops the head.
pub allocate_lem :
    (p : Page)
    → allocate p ≡ (
        if p.freeblock_num == 0 then (0, p) else (p.freeblock_head, popped p (p.freeblock_num - 1)))
unfolding allocate
allocate_lem p = elim (Bool-cases (p.freeblock_num == 0)) [
  | inl e ↦ rw e
  | inr e ↦ rw e (elim (Bool-cases (p.freeblock_num - 1 == 0)) [
    | inl last ↦ rw last
    | inr more ↦ rw more (elim (Bool-cases (p.next p.freeblock_head == 0)) [
      | inl fresh ↦ rw fresh
      | inr used ↦ rw used
    ])
  ])
]

linked-popped :
    (next : ℕ → ℕ) (size n a : ℕ) (last fresh : Bool)
    → (n == 0) ≡ last
    → (next a == 0) ≡ fresh
    → linked next size (suc n) a
      ≡ a
        ∷ linked
            (if last then next else if fresh then update next ((a + size) % ulong_mod) 0 else next)
            size
            n
            (if last then 0 else if fresh then (a + size) % ulong_mod else next a)
linked-popped next size zero a last fresh l f = ground arith
linked-popped next size (suc n) a true fresh l f = absurd (ground arith)
linked-popped next size (suc n) a false true l f = rw (f, ==_refl ((a + size) % ulong_mod))
linked-popped next size (suc n) a false false l f = rw f

-- Popping removes the first of the free blocks.
pub free_blocks-popped :
    (p : Page) (n : ℕ)
    → p.freeblock_num ≡ suc n
    → free_blocks p ≡ p.freeblock_head ∷ free_blocks (popped p n)
free_blocks-popped p n e =
    ap (λ k. linked p.next p.block_size k p.freeblock_head) e
    ∙ linked-popped p.next p.block_size n p.freeblock_head _ _ refl refl

linked-push :
    (next : ℕ → ℕ) (size n head a : ℕ)
    → count a (linked next size n head) ≡ 0
    → count 0 (linked next size n head) ≡ 0
    → linked (if ltb 0 n then update next a head else next) size (n + 1) a
      ≡ a ∷ linked next size n head
linked-push next size zero head a out nonnull = ground arith
linked-push next size (suc n) head a out nonnull =
    let held : ltb 0 (suc n) ≡ true = ground arith in
    let nonzero : (head == 0) ≡ false = ground arith in
    rw (held, add-one (suc n), ==_refl a, nonzero)
      (ap (λ l. a ∷ l)
        (linked-frame next (update next a head) size (suc n) head (λ x h. apart x h)))
  where
    apart : (x : ℕ) → 0 < count x (linked next size (suc n) head) → update next a head x ≡ next x
    apart x h = elim (Bool-cases (x == a)) [
      | inl e ↦
          let same : x ≡ a = (==_iff x a).0 e in
          absurd
            (omega (arith, out, subst (λ y. 0 < count y (linked next size (suc n) head)) same h))
      | inr e ↦ rw e
    ]

-- Where no free block is null, `freeblock` of a block that is not free puts it in front of the
-- list of the free blocks.
pub free_blocks-freeblock :
    (p : Page) (a : ℕ)
    → count a (free_blocks p) ≡ 0
    → count 0 (free_blocks p) ≡ 0
    → free_blocks (freeblock p a) ≡ a ∷ free_blocks p
unfolding freeblock
free_blocks-freeblock p a out nonnull =
    linked-push p.next p.block_size p.freeblock_num p.freeblock_head a out nonnull
