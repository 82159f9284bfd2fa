-- ===== src/Memory/Page.antt =====
-- `CMPage` of include/memory/mpage.h and source/memory/mpage.cpp: one block of memory from
-- `malloc`, cut into blocks of one size, with its free blocks in a list through the blocks.
-- An address is a number, and 0 is the null pointer. `next a` is the pointer that stands in the
-- first bytes of the block at `a`. `unsigned long` and pointers have 64 bits.
pub mod FreeList
pub mod Layout
pub mod Blocks
pub mod Pool
pub mod Client
mod Runs
use Prim.Native.Nat.{bit_and}
use xhnet.Common.{
  count, remove, count-remove, length-remove, ℕ, ◌+◌, ◌-◌, ◌*◌, ◌/◌, ◌%◌, ◌^◌, Bool, true, false,
  not, ◌&&◌, ◌||◌, Option, none, some, ltb, leb, ◌==◌, if◌then◌else◌,
}

pub record Page : Type 0 where
  pub memory : ℕ
  pub block : ℕ
  pub freeblock_head : ℕ
  pub freeblock_num : ℕ
  pub allblock_num : ℕ
  pub page_size : ℕ
  pub align_size : ℕ
  pub block_size : ℕ
  pub next : ℕ → ℕ

abbrev pub default_pagesize : ℕ
default_pagesize = 64 * 1024

abbrev pub pointer_size : ℕ
pointer_size = 8

abbrev pub ulong_mod : ℕ
ulong_mod = 2 ^ 64

-- `*a = v` for a pointer `v`.
abbrev pub update : (ℕ → ℕ) → ℕ → ℕ → ℕ → ℕ
update next a v x = if x == a then v else next x

-- `a + alignment - 1` with the low bits cleared.
unfoldable pub getaligned : ℕ → ℕ → ℕ
getaligned a alignment =
    bit_and ((a + (alignment - 1)) % ulong_mod) (ulong_mod - 1 - (alignment - 1))

unfoldable pub isaligned : ℕ → ℕ → Bool
isaligned a alignment = bit_and a (alignment - 1) == 0

-- The caller has seen to it that `align_size` is not 0.
unfoldable pub calc_aligned_size : ℕ → ℕ → ℕ
calc_aligned_size block_size align_size =
    let diff = block_size % align_size in
    let aligned =
      if diff == 0 then block_size else (block_size + (align_size - diff)) % ulong_mod in
    if ltb aligned pointer_size then pointer_size else aligned

unfoldable pub calc_page_size : ℕ → ℕ → ℕ
calc_page_size block_size align_size =
    let needed = (calc_aligned_size block_size align_size + (align_size - 1)) % ulong_mod in
    if ltb default_pagesize needed then needed else default_pagesize

-- `fresh` is what `malloc` returns and `garbage` what stands in that memory. `none` is a crash: a
-- division by an alignment of 0, a write through the null pointer that `malloc` returned, or the
-- failed assertion "memory not aligned".
unfoldable pub create : (fresh : ℕ) (garbage : ℕ → ℕ) → ℕ → ℕ → Page → Option Page
create fresh garbage block_size align_size p =
    let size = calc_aligned_size block_size align_size in
    let filled = align_size - 1 in
    let needed = (size + filled) % ulong_mod in
    let pages = if ltb default_pagesize needed then needed else default_pagesize in
    let blocks = if ltb default_pagesize needed then 1 else (default_pagesize - filled) / size in
    let renew = not (p.memory == 0) || not (p.page_size == pages) in
    let memory = if renew then fresh else p.memory in
    let block = getaligned memory align_size in
    if align_size == 0 || (memory == 0 || not (isaligned block align_size))
    then none
    else some (record {
      memory = memory;
      block = block;
      freeblock_head = block;
      freeblock_num = blocks;
      allblock_num = blocks;
      page_size = pages;
      align_size = align_size;
      block_size = size;
      next = update (if renew then garbage else p.next) block 0;
    })

abbrev blank : Page
blank = record {
  memory = 0;
  block = 0;
  freeblock_head = 0;
  freeblock_num = 0;
  allblock_num = 0;
  page_size = 0;
  align_size = 0;
  block_size = 0;
  next = λ _. 0;
}

-- The constructor.
unfoldable pub new_page : (fresh : ℕ) (garbage : ℕ → ℕ) → ℕ → ℕ → Option Page
new_page fresh garbage block_size align_size =
    create fresh garbage (if ltb block_size 1 then 1 else block_size)
      (if ltb align_size 1 then 1 else align_size) blank

-- No block is free.
unfoldable pub is_empty : Page → Bool
is_empty p = p.freeblock_num == 0

-- Every block is free.
unfoldable pub is_intact : Page → Bool
is_intact p = p.freeblock_num == p.allblock_num

unfoldable pub reset : (fresh : ℕ) (garbage : ℕ → ℕ) → ℕ → ℕ → Page → Option (Bool × Page)
unfolding is_intact
reset fresh garbage block_size align_size p =
    if not (is_intact p)
    then some (false, p)
    else if p.block_size == block_size && p.align_size == align_size
    then some (true, p)
    else elim (create fresh garbage block_size align_size p) [
      | none ↦ none
      | some p' ↦ some (true, p')
    ]

-- `none` is the failed assertion "memory not aligned".
unfoldable pub clear : Page → Option Page
unfolding is_empty
clear p =
    if is_empty p
    then some p
    else if isaligned p.block p.align_size
    then some (record p {
      freeblock_num = p.allblock_num;
      freeblock_head = p.block;
      next = update p.next p.block 0;
    })
    else none

-- `allocateblock`: the block that it returns, 0 for none.
unfoldable pub allocate : Page → ℕ × Page
allocate p =
    let rest = p.freeblock_num - 1 in
    let head = p.freeblock_head in
    let beyond = (head + p.block_size) % ulong_mod in
    if p.freeblock_num == 0
    then (0, p)
    else if rest == 0
    then (head, record p { freeblock_num = rest; freeblock_head = 0 })
    else if p.next head == 0
    then (
      head,
      record p { freeblock_num = rest; freeblock_head = beyond; next = update p.next beyond 0 },
    )
    else (head, record p { freeblock_num = rest; freeblock_head = p.next head })

unfoldable pub is_contains_pointer : Page → ℕ → Bool
is_contains_pointer p a =
    leb p.memory a && ltb a ((p.memory + p.block_size * p.allblock_num) % ulong_mod)

-- The block in front of the free list; without one its `next` is left as it is.
unfoldable pub freeblock : Page → ℕ → Page
freeblock p a = record p {
  freeblock_num = p.freeblock_num + 1;
  freeblock_head = a;
  next = if ltb 0 p.freeblock_num then update p.next a p.freeblock_head else p.next;
}

-- `none` is the failed assertion "object not allocated from this pool".
unfoldable pub free : Page → ℕ → Option Page
free p a =
    if a == 0
    then some p
    else if is_contains_pointer p a && isaligned a p.align_size
    then some (freeblock p a)
    else none
