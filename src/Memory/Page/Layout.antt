-- ===== src/Memory/Page/Layout.antt =====
-- Where the blocks of a page lie: aligned, and within the memory that `malloc` returned.
use Prim.Native.Nat.{bit_and}
use xhnet.Common.{
  ℕ, zero, suc, ◌+◌, ◌-◌, ◌*◌, ◌/◌, ◌%◌, ◌^◌, ◌≤◌, ◌<◌, ◌≡◌, sym, ap, subst, ◌∙◌, true, false, not,
  ◌||◌, some, arith, ltb, ◌==◌, if◌then◌else◌, inl, inr, Bool-cases, ltb→lt, ltb→le, le→ltb, ne→==,
}
use xhnet.Common.Bits.{IsLow, IsHigh, bit_and-IsLow, bit_and-IsHigh}
use native.Mathlib.Nat.{one-le-pow, pow-suc, mod-lt, div-add-mod', div-add-mod}
use xhnet.Memory.Page.{
  Page, update, ulong_mod, default_pagesize, pointer_size, isaligned, getaligned, calc_aligned_size,
  create, new_page, blank,
}

-- A power of two that a word holds.
pub record IsAlignment (alignment : ℕ) : Type 0 where
  pub log : ℕ
  pub rest : ℕ
  pub power : alignment ≡ 2 ^ log
  pub within : 2 ^ log * 2 ^ rest ≡ ulong_mod

abbrev pub Multiple : ℕ → ℕ → Type 0
Multiple d x = (q : ℕ) × (x ≡ q * d)

zero_remainder : (q q' m r : ℕ) → q * m ≡ q' * m + r → r < m → r ≡ 0
zero_remainder zero q' m r e h = omega arith
zero_remainder (suc q) zero m r e h = absurd (omega arith)
zero_remainder (suc q) (suc q') m r e h = zero_remainder q q' m r (omega arith) h

mul_pred : (a b : ℕ) → 0 < b → a * (b - 1) + a ≡ a * b
mul_pred a zero h = absurd (omega arith)
mul_pred a (suc b) h = let e : suc b - 1 ≡ b = omega arith in rw e (omega arith)

le_of_multiple : (q d x : ℕ) → x ≡ q * d → 0 < x → d ≤ x
le_of_multiple zero d x e h = absurd (omega arith)
le_of_multiple (suc q) d x e h = omega arith

-- An alignment below the size of a pointer divides it.
pointer-Multiple : (log : ℕ) → 2 ^ log < pointer_size → Multiple (2 ^ log) pointer_size
pointer-Multiple zero h = (8, omega arith)
pointer-Multiple (suc zero) h = (4, omega arith)
pointer-Multiple (suc (suc zero)) h = (2, omega arith)
pointer-Multiple (suc (suc (suc k))) h = absurd (
    omega (
      arith,
      pow-suc 2 (suc (suc k)),
      pow-suc 2 (suc k),
      pow-suc 2 k,
      one-le-pow k 2 (omega arith),
    ))

-- The size rounded up to the alignment.
abbrev rounded : ℕ → ℕ → ℕ
rounded size alignment =
    let diff = size % alignment in
    if diff == 0 then size else (size + (alignment - diff)) % ulong_mod

rounded_lem :
    (size alignment : ℕ)
    → 0 < alignment
    → size + alignment < ulong_mod
    → Multiple alignment (rounded size alignment)
      × (size ≤ rounded size alignment)
      × (rounded size alignment < size + alignment)
rounded_lem size alignment pos fit =
    let q : ℕ = size / alignment in
    let split : q * alignment + size % alignment ≡ size = div-add-mod' size alignment in
    let small : size % alignment < alignment = mod-lt size pos in
    elim (Bool-cases (size % alignment == 0)) [
      | inl even ↦ rw even ((q, ground arith), omega arith, omega arith)
      | inr odd ↦ rw odd ((suc q, omega arith), omega arith, ground arith)
    ]

module _ {alignment : ℕ} (al : IsAlignment alignment) where
  pub alignment-pos : 0 < alignment
  alignment-pos = omega (arith, al.power, one-le-pow al.log 2 (omega arith))

  pub Multiple-isaligned : (a : ℕ) → Multiple alignment a → isaligned a alignment ≡ true
  unfolding isaligned
  Multiple-isaligned a (q, e) =
      let low : IsLow al.log a (bit_and a (alignment - 1)) =
        subst (λ m. IsLow al.log a (bit_and a (m - 1))) (sym al.power) (bit_and-IsLow al.log a) in
      let scaled = ap (λ (m : ℕ). q * m) al.power in
      let clear : bit_and a (alignment - 1) ≡ 0 =
        zero_remainder q low.quotient (2 ^ al.log) _ (omega (arith, e, scaled, low.split))
          low.small in
      rw clear

  -- `getaligned` is the first multiple of the alignment from `a` on.
  pub getaligned_lem :
      (a : ℕ)
      → a + alignment ≤ ulong_mod
      → Multiple alignment (getaligned a alignment)
        × (a ≤ getaligned a alignment)
        × (getaligned a alignment < a + alignment)
  unfolding getaligned
  getaligned_lem a fit =
      let pos = alignment-pos in
      let m : ulong_mod - 1 - (alignment - 1) ≡ 2 ^ al.log * (2 ^ al.rest - 1) = omega (
        arith,
        al.within,
        al.power,
        mul_pred (2 ^ al.log) (2 ^ al.rest) (one-le-pow al.rest 2 (omega arith)),
      ) in
      let x : ℕ = (a + (alignment - 1)) % ulong_mod in
      let high : IsHigh al.log x (bit_and x (ulong_mod - 1 - (alignment - 1))) =
        rw m (bit_and-IsHigh al.log al.rest x (omega (arith, al.within))) in
      (
        (high.quotient, high.multiple ∙ ap (λ (t : ℕ). high.quotient * t) (sym al.power)),
        omega (arith, high.near, al.power, pos),
        omega (arith, high.below, pos),
      )

  -- The size of a block is a multiple of the alignment that holds the object and a pointer.
  pub calc_aligned_size_lem :
      (size : ℕ)
      → 0 < size
      → size + alignment < ulong_mod
      → Multiple alignment (calc_aligned_size size alignment)
        × (size ≤ calc_aligned_size size alignment)
        × (pointer_size ≤ calc_aligned_size size alignment)
        × (calc_aligned_size size alignment < size + alignment + pointer_size)
  unfolding calc_aligned_size
  calc_aligned_size_lem size pos fit =
      let (multiple, above, below) = rounded_lem size alignment alignment-pos fit in
      elim (Bool-cases (ltb (rounded size alignment) pointer_size)) [
        | inl less ↦ rw less (
          subst (λ d. Multiple d pointer_size) (sym al.power)
              (pointer-Multiple al.log (
                omega (
                  arith,
                  al.power,
                  ltb→lt _ _ less,
                  le_of_multiple _ _ _ multiple.1 (omega arith),
                ))),
          omega (arith, ltb→lt _ _ less),
          omega arith,
          omega arith,
        )
        | inr more ↦ rw more (multiple, above, ground arith, omega arith)
      ]

-- Where a page and its blocks lie. Every block starts early enough to pass the test of `Free`.
pub record IsLaidOut (p : Page) : Type 0 where
  pub alignment : IsAlignment p.align_size
  pub aligned : Multiple p.align_size p.block
  pub size_aligned : Multiple p.align_size p.block_size
  pub room : pointer_size ≤ p.block_size
  pub some_block : 0 < p.allblock_num
  pub nonnull : 0 < p.memory
  pub start : p.memory ≤ p.block
  pub slack : p.block < p.memory + p.block_size
  pub extent : p.block + p.block_size * p.allblock_num ≤ p.memory + p.page_size
  pub within : p.memory + p.page_size < ulong_mod

-- What the program asks for: an object of `size` bytes and its alignment, neither beyond 4 GB, in
-- memory that the machine has.
pub record IsRequest (fresh size alignment : ℕ) : Type 0 where
  pub power : IsAlignment alignment
  pub some_byte : 0 < size
  pub size_lt : size < 2 ^ 32
  pub alignment_lt : alignment < 2 ^ 32
  pub allocated : 0 < fresh
  pub below : fresh < 2 ^ 63

-- The page that `create` makes of new memory.
abbrev page_bytes : ℕ → ℕ → ℕ
page_bytes size alignment =
    let needed = (size + (alignment - 1)) % ulong_mod in
    if ltb default_pagesize needed then needed else default_pagesize

abbrev page_blocks : ℕ → ℕ → ℕ
page_blocks size alignment =
    let needed = (size + (alignment - 1)) % ulong_mod in
    if ltb default_pagesize needed then 1 else (default_pagesize - (alignment - 1)) / size

abbrev pub made : ℕ → (ℕ → ℕ) → ℕ → ℕ → Page
made fresh garbage size alignment =
    let block = getaligned fresh alignment in
    let blocks = page_blocks (calc_aligned_size size alignment) alignment in
    record {
      memory = fresh;
      block = block;
      freeblock_head = block;
      freeblock_num = blocks;
      allblock_num = blocks;
      page_size = page_bytes (calc_aligned_size size alignment) alignment;
      align_size = alignment;
      block_size = calc_aligned_size size alignment;
      next = update garbage block 0;
    }

pos_quotient : (q s r x : ℕ) → s * q + r ≡ x → r < s → s ≤ x → 0 < q
pos_quotient zero s r x e h l = absurd (omega arith)
pos_quotient (suc q) s r x e h l = omega arith

page_extent :
    (size alignment : ℕ)
    → 0 < size
    → 0 < alignment
    → size + alignment < ulong_mod
    → (0 < page_blocks size alignment)
      × (size * page_blocks size alignment + (alignment - 1) ≤ page_bytes size alignment)
      × (page_bytes size alignment ≤ default_pagesize + size + alignment)
page_extent size alignment ps pa fit =
    let space : ℕ = default_pagesize - (alignment - 1) in
    let split : size * (space / size) + space % size ≡ space = div-add-mod space size in
    let small : space % size < size = mod-lt space ps in
    elim (Bool-cases (ltb default_pagesize ((size + (alignment - 1)) % ulong_mod))) [
      | inl big ↦ rw big (omega arith, omega arith, omega arith)
      | inr fits ↦ rw fits (
        pos_quotient _ _ _ _ split small (omega (arith, ltb→le _ _ fits)),
        omega (arith, ltb→le _ _ fits),
        omega arith,
      )
    ]

module _ {fresh size alignment : ℕ} (garbage : ℕ → ℕ) (r : IsRequest fresh size alignment) where
  pub made-IsLaidOut : IsLaidOut (made fresh garbage size alignment)
  made-IsLaidOut =
      let al = r.power in
      let (sm, ss, sp, sb) =
        calc_aligned_size_lem al size r.some_byte (omega (arith, r.size_lt, r.alignment_lt)) in
      let (bm, bl, bh) = getaligned_lem al fresh (omega (arith, r.below, r.alignment_lt)) in
      let pos = alignment-pos al in
      let bs : ℕ = calc_aligned_size size alignment in
      let (pb, pe, pt) =
        page_extent bs alignment (omega arith) pos (omega (arith, r.size_lt, r.alignment_lt)) in
      record {
        alignment = al;
        aligned = bm;
        size_aligned = sm;
        room = sp;
        some_block = pb;
        nonnull = r.allocated;
        start = bl;
        slack = omega (arith, le_of_multiple _ _ _ sm.1 (omega arith));
        extent = omega arith;
        within = omega (arith, r.below, r.size_lt, r.alignment_lt);
      }

  made-isaligned : isaligned (getaligned fresh alignment) alignment ≡ true
  made-isaligned = Multiple-isaligned r.power _ made-IsLaidOut.aligned

  -- `create` asks `malloc` for new memory whenever there is a page already, or its size differs.
  pub create_lem :
      (p : Page)
      → (not (p.memory == 0)
          || not (p.page_size == page_bytes (calc_aligned_size size alignment) alignment))
        ≡ true
      → create fresh garbage size alignment p ≡ some (made fresh garbage size alignment)
  unfolding create
  create_lem p renew =
      let some_align : (alignment == 0) ≡ false =
        ne→== _ _ (omega (arith, alignment-pos r.power)) in
      let some_memory : (fresh == 0) ≡ false = ne→== _ _ (omega (arith, r.allocated)) in
      rw (renew, some_align, some_memory, made-isaligned)

  -- For a positive size and a power of two as the alignment, both below 2 ^ 32, and memory from
  -- `malloc` below 2 ^ 63, the constructor makes a page of that memory, and it is laid out.
  pub new_page-IsLaidOut :
      (new_page fresh garbage size alignment ≡ some (made fresh garbage size alignment))
      × IsLaidOut (made fresh garbage size alignment)
  unfolding new_page
  new_page-IsLaidOut =
      let some_size : ltb size 1 ≡ false = le→ltb _ _ r.some_byte in
      let some_align : ltb alignment 1 ≡ false = le→ltb _ _ (alignment-pos r.power) in
      (rw (some_size, some_align) (create_lem blank (ground arith)), made-IsLaidOut)
