-- ===== src/Memory/Manager/Sound.antt =====
-- What holds between the calls of a manager: its pages are sound, and the client's blocks are
-- accounted for.
use mathlib.Core.Bool.{true≢false}
use xhnet.Common.{
  ℕ, ◌+◌, ◌≤◌, ◌<◌, ◌≡◌, ◌≢◌, refl, sym, subst, ◌∙◌, Bool, true, false, List, [], ◌∷◌, arith, ◌==◌,
  ==_iff, ==_refl, ne→==, if◌then◌else◌, inl, inr, Bool-cases, length, count, count_le,
}
use xhnet.Memory.Page.{Page}
use xhnet.Memory.Page.Pool
use xhnet.Memory.Manager.{Manager, insert, find, assign_at}

-- The page `x` and the blocks of it that the client holds.
abbrev pub HoldsSoundly : Page → List ℕ → Type 0
HoldsSoundly p l = Pool.IsSound (record { page = p; held = l })

-- How often a page stands in the two lists of the manager.
abbrev pub mine : Manager → ℕ → ℕ
mine m x = count x m.using_pages + count x m.free_pages

-- `held x` are the blocks of the page `x` that the client holds.
pub record IsSound (m : Manager) (held : ℕ → List ℕ) : Type 0 where
  pub known : (x : ℕ) → mine m x ≤ count x m.all_pages
  pub once : (x : ℕ) → count x m.all_pages ≤ 1
  pub null : count 0 m.all_pages ≡ 0
  pub page : (x : ℕ) → 0 < mine m x → HoldsSoundly (m.pages x) (held x)
  pub size : (x : ℕ) → 0 < mine m x → (m.pages x).block_size ≡ m.block_size
  pub alignment : (x : ℕ) → 0 < mine m x → (m.pages x).align_size ≡ m.align_size
  pub idle : (x : ℕ) → 0 < count x m.free_pages → length (held x) ≡ 0
  pub outside : (x : ℕ) → mine m x ≡ 0 → length (held x) ≡ 0
  pub current : m.cur_allocpage ≢ 0 → 0 < count m.cur_allocpage m.using_pages
  pub bounded : length m.free_pages ≤ m.recycle_size

-- Of the pages in use, only the current one may have no block that is held.
pub record IsBusy (m : Manager) (held : ℕ → List ℕ) : Type 0 where
  pub busy : (x : ℕ) → 0 < count x m.using_pages → x ≢ m.cur_allocpage → 0 < length (held x)

abbrev pub one : ℕ → ℕ → ℕ
one y x = if x == y then 1 else 0

pub one_same : (y : ℕ) → one y y ≡ 1
one_same y = rw (==_refl y) refl

pub one_other : (x y : ℕ) → x ≢ y → one y x ≡ 0
one_other x y h = rw (ne→== x y h) refl

pub length_nil : (l : List ℕ) → length l ≡ 0 → l ≡ []
length_nil [] h = refl
length_nil (x ∷ l) h = absurd (omega (arith, h))

pub count-insert :
    (x y : ℕ) (l : List ℕ) → count y l ≡ 0 → count x (insert y l) ≡ count x l + one y x
count-insert x y [] h = omega arith
count-insert x y (z ∷ l) h = ground (arith, count-insert x y l)

pub either {ℓ} :
    {A : Type ℓ} (P : A → Type 0) (test : Bool) (x y : A)
    → (test ≡ true → P x)
    → (test ≡ false → P y)
    → P (if test then x else y)
either P true x y h k = h refl
either P false x y h k = k refl

abbrev Passes : (ℕ → Bool) → List ℕ → ℕ → Type 0
Passes fun l y = y ≢ 0 → (0 < count y l) × (fun y ≡ true)

-- What `find` finds is in the list and passes the test.
pub find-Passes : (fun : ℕ → Bool) (l : List ℕ) → Passes fun l (find fun l)
find-Passes fun [] = λ ne. absurd (ne refl)
find-Passes fun (x ∷ l) =
    either (Passes fun (x ∷ l)) (fun x) x (find fun l) (λ e ne. (rw (==_refl x) (omega arith), e))
      (λ e ne. let (c, t) = find-Passes fun l ne in (omega (arith, c), t))

pub assign_at-other {ℓ} :
    {A : Type ℓ} (f : ℕ → A) (x y : ℕ) (v : A) → y ≢ x → assign_at f x v y ≡ f y
assign_at-other f x y v h = rw (ne→== y x h) refl

pub assign_at-same {ℓ} : {A : Type ℓ} (f : ℕ → A) (x : ℕ) (v : A) → assign_at f x v x ≡ v
assign_at-same f x v = rw (==_refl x) refl

-- A property of all pages, when one has changed.
pub each_page {ℓ} :
    {A : Type ℓ} (P : ℕ → A → Type 0) (f : ℕ → A) (x : ℕ) (v : A)
    → ((y : ℕ) → y ≢ x → P y (f y))
    → P x v
    → (y : ℕ) → P y (assign_at f x v y)
each_page P f x v others this y = elim (Bool-cases (y == x)) [
  | inl e ↦ rw e (subst (λ k. P k v) (sym ((==_iff y x).0 e)) this)
  | inr e ↦ rw e (others y (λ q. true≢false (sym ((==_iff y x).1 q) ∙ e)))
]

module _ {m : Manager} {held : ℕ → List ℕ} (s : IsSound m held) where
  -- A page and its blocks change.
  pub set_page-IsSound :
      (y : ℕ) (p : Page) (l : List ℕ)
      → 0 < mine m y
      → HoldsSoundly p l
      → p.block_size ≡ m.block_size
      → p.align_size ≡ m.align_size
      → (0 < count y m.free_pages → length l ≡ 0)
      → IsSound (record m { pages = assign_at m.pages y p }) (assign_at held y l)
  set_page-IsSound y p l h sound sz al free = record {
    known = s.known;
    once = s.once;
    null = s.null;
    page = λ x. elim (Bool-cases (x == y)) [ inl e ↦ rw e (λ k. sound) | inr e ↦ rw e (s.page x) ];
    size =
        each_page (λ x q. 0 < mine m x → q.block_size ≡ m.block_size) m.pages y p (λ x ne. s.size x)
          (λ k. sz);
    alignment =
        each_page (λ x q. 0 < mine m x → q.align_size ≡ m.align_size) m.pages y p
          (λ x ne. s.alignment x) (λ k. al);
    idle =
        each_page (λ x q. 0 < count x m.free_pages → length q ≡ 0) held y l (λ x ne. s.idle x) free;
    outside =
        each_page (λ x q. mine m x ≡ 0 → length q ≡ 0) held y l (λ x ne. s.outside x)
          (λ k. absurd (omega (arith, h, k)));
    current = s.current;
    bounded = s.bounded;
  }

  -- A page of which a block is held is one of the manager's.
  pub mine-held : (x b : ℕ) → 0 < count b (held x) → 0 < mine m x
  mine-held x b h = elim (Bool-cases (mine m x == 0)) [
    | inl e ↦ absurd (omega (arith, s.outside x ((==_iff (mine m x) 0).0 e), count_le b (held x)))
    | inr e ↦ ground arith
  ]
