-- ===== src/Memory/Page/Blocks.antt =====
-- The blocks of a page: distinct, aligned, within the memory, and accepted by `Free`.
use xhnet.Common.{
  count, ℕ, zero, suc, ◌+◌, ◌*◌, ◌%◌, ◌≤◌, ◌<◌, ◌≡◌, refl, ap, subst, true, false, List, some,
  arith, leb, ltb, ◌==◌, ==_iff, ne→==, le→leb, lt→ltb, ltb→lt, ltb→le, inl, inr, Bool-cases,
}
use xhnet.Memory.Page.{Page, ulong_mod, is_contains_pointer, freeblock, free}
use xhnet.Memory.Page.FreeList.{adjacent}
use xhnet.Memory.Page.Layout.{IsLaidOut, Multiple, Multiple-isaligned}

abbrev pub all_blocks : Page → List ℕ
all_blocks p = adjacent p.block_size p.allblock_num p.block

mul_mono : (i j s : ℕ) → i ≤ j → i * s ≤ j * s
mul_mono i j s h = grind arith

-- The `n` blocks from `a` on end within the address space.
module _ (size : ℕ) where
  wrap_suc : (n a : ℕ) → a + size * suc n < ulong_mod → (a + size) % ulong_mod ≡ a + size
  wrap_suc n a h = omega arith

  adjacent-below : (n a x : ℕ) → a + size * n < ulong_mod → x < a → count x (adjacent size n a) ≡ 0
  adjacent-below zero a x h lt = refl
  adjacent-below (suc n) a x h lt =
      rw (wrap_suc n a h, ne→== x a (omega arith))
        (omega (arith, adjacent-below n (a + size) x (omega arith) (omega arith)))

  count-adjacent :
      (n a x : ℕ) → 0 < size → a + size * n < ulong_mod → count x (adjacent size n a) ≤ 1
  count-adjacent zero a x pos h = omega arith
  count-adjacent (suc n) a x pos h = rw (wrap_suc n a h) (elim (Bool-cases (x == a)) [
    | inl e ↦ rw e (
        omega
          (arith, adjacent-below n (a + size) x (omega arith) (omega (arith, (==_iff x a).0 e))))
    | inr e ↦ rw e (omega (arith, count-adjacent n (a + size) x pos (omega arith)))
  ])

  adjacent-member :
      (n a x : ℕ)
      → a + size * n < ulong_mod
      → 0 < count x (adjacent size n a)
      → (i : ℕ) × (i < n) × (x ≡ a + i * size)
  adjacent-member zero a x h m = absurd (omega arith)
  adjacent-member (suc n) a x h m = elim (Bool-cases (x == a)) [
    | inl e ↦ (0, omega arith, omega (arith, (==_iff x a).0 e))
    | inr e ↦
        let m' : 0 < count x (adjacent size n ((a + size) % ulong_mod)) =
          omega (arith, (rw e at m)) in
        let (i, lt, at) =
          adjacent-member n (a + size) x (omega arith)
            (subst (λ b. 0 < count x (adjacent size n b)) (wrap_suc n a h) m') in
        (suc i, omega arith, omega arith)
  ]

mul_bound : (i n s : ℕ) → i < n → i * s + s ≤ s * n
mul_bound i n s h = grind arith

no_overlap : (i j s b x y : ℕ) → x ≡ b + i * s → y ≡ b + j * s → x < y → x + s ≤ y
no_overlap i j s b x y ex ey h = elim (Bool-cases (ltb i j)) [
  | inl lt ↦ omega (arith, mul_bound i j s (ltb→lt _ _ lt))
  | inr ge ↦ absurd (omega (arith, mul_mono j i s (ltb→le _ _ ge)))
]

module _ {p : Page} (laid : IsLaidOut p) where
  all_within : p.block + p.block_size * p.allblock_num < ulong_mod
  all_within = omega (arith, laid.extent, laid.within)

  pub count-all_blocks : (x : ℕ) → count x (all_blocks p) ≤ 1
  count-all_blocks x =
      count-adjacent p.block_size p.allblock_num p.block x (omega (arith, laid.room)) all_within

  pub count-all_blocks_null : count 0 (all_blocks p) ≡ 0
  count-all_blocks_null =
      adjacent-below p.block_size p.allblock_num p.block 0 all_within
        (omega (arith, laid.nonnull, laid.start))

  module _ (x : ℕ) (member : 0 < count x (all_blocks p)) where
    place : (i : ℕ) × (i < p.allblock_num) × (x ≡ p.block + i * p.block_size)
    place = adjacent-member p.block_size p.allblock_num p.block x all_within member

    -- The block and all its bytes lie in the memory of the page, aligned.
    pub block_within :
        Multiple p.align_size x × (p.memory ≤ x) × (x + p.block_size ≤ p.memory + p.page_size)
    block_within =
        let (i, lt, at) = place in
        let (qb, eb) = laid.aligned in
        let (qs, es) = laid.size_aligned in
        let scaled = ap (λ (t : ℕ). i * t) es in
        let inside = mul_bound i p.allblock_num p.block_size lt in
        (
          (qb + i * qs, omega (arith, at, eb, scaled)),
          omega (arith, laid.start, at),
          omega (arith, laid.extent, at, inside),
        )

    pub free-accepts : free p x ≡ some (freeblock p x)
    unfolding free
    free-accepts =
        let (i, lt, at) = place in
        let (multiple, above, below) = block_within in
        let inside = mul_bound i p.allblock_num p.block_size lt in
        let nonnull : (x == 0) ≡ false = ne→== _ _ (omega (arith, laid.nonnull, above)) in
        let from : leb p.memory x ≡ true = le→leb _ _ above in
        let upto : ltb x ((p.memory + p.block_size * p.allblock_num) % ulong_mod) ≡ true =
          lt→ltb _ _ (omega (arith, all_within, laid.start, laid.slack, at, inside)) in
        let contained : is_contains_pointer p x ≡ true =
          (unfold is_contains_pointer in rw (from, upto)) in
        rw (nonnull, contained, Multiple-isaligned laid.alignment x multiple)

  -- Of two blocks of a laid out page the lower one ends before the higher one begins.
  pub blocks_apart :
      (x y : ℕ)
      → 0 < count x (all_blocks p)
      → 0 < count y (all_blocks p)
      → x < y
      → x + p.block_size ≤ y
  blocks_apart x y mx my =
      let (i, li, ex) = place x mx in
      let (j, lj, ey) = place y my in no_overlap i j p.block_size p.block x y ex ey
