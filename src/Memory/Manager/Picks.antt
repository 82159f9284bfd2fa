-- ===== src/Memory/Manager/Picks.antt =====
-- The page from which a manager takes a block.
use mathlib.Core.Bool.{true≢false}
use xhnet.Common.{
  ℕ, ◌+◌, ◌≤◌, ◌<◌, ◌≡◌, ◌≢◌, refl, sym, ap, subst, ◌∙◌, Bool, true, false, not, ◌&&◌, Option, none,
  some, List, [], ◌∷◌, arith, ◌==◌, ==_iff, ==_refl, ne→==, inl, inr, Bool-cases, length, count,
}
use xhnet.Memory.Page.{Page, is_empty, calc_aligned_size, reset, is_intact}
use xhnet.Memory.Page.Layout.{IsRequest, made, new_page-IsLaidOut}
use xhnet.Memory.Page.Client.{made-IsSound}
use xhnet.Memory.Manager.{Manager, insert, find, pick_page, pick_free, using}
use xhnet.Memory.Manager.Sound.{
  one, one_same, one_other, length_nil, IsSound, IsBusy, HoldsSoundly, mine, count-insert,
  find-Passes, each_page,
}

-- What `new` and `malloc` return for a new page: an object that is not among the pages, and memory.
pub record IsNew (m : Manager) (x fresh : ℕ) : Type 0 where
  pub address : x ≢ 0
  pub unused : count x m.all_pages ≡ 0
  pub request : IsRequest fresh m.block_size m.align_size
  pub whole : calc_aligned_size m.block_size m.align_size ≡ m.block_size

-- The manager has a current page with a free block.
pub record IsPicked (held : ℕ → List ℕ) (m : Manager) : Type 0 where
  pub sound : IsSound m held
  pub busy : IsBusy m held
  pub current : m.cur_allocpage ≢ 0
  pub some_free : is_empty (m.pages m.cur_allocpage) ≡ false

abbrev pub Picked : (ℕ → List ℕ) → Option Manager → Type 0
Picked held none = ⊥
Picked held (some m) = IsPicked held m

pub ne-of-== : (x y : ℕ) → (x == y) ≡ false → x ≢ y
ne-of-== x y e q = true≢false (sym ((==_iff x y).1 q) ∙ e)

second : (a b : Bool) → (a && not b) ≡ true → b ≡ false
second true false h = refl
second true true h = absurd (true≢false (sym h))
second false b h = absurd (true≢false (sym h))

module _ {m : Manager} {held : ℕ → List ℕ} (s : IsSound m held) (b : IsBusy m held) where
  -- Another page in use becomes the current one.
  pub change_current-IsSound :
      (y : ℕ) → (y ≢ 0 → 0 < count y m.using_pages) → IsSound (record m { cur_allocpage = y }) held
  change_current-IsSound y h = record {
    known = s.known;
    once = s.once;
    null = s.null;
    page = s.page;
    size = s.size;
    alignment = s.alignment;
    idle = s.idle;
    outside = s.outside;
    current = h;
    bounded = s.bounded;
  }

  pub full-held :
      (x : ℕ) → 0 < count x m.using_pages → is_empty (m.pages x) ≡ true → 0 < length (held x)
  unfolding is_empty
  full-held x h e =
      let p = s.page x (omega (arith, h)) in
      omega (arith, p.number, p.laid.some_block, (==_iff _ 0).0 e)

  -- A page with all its blocks free becomes a used page and the current one.
  use_page-IsPicked :
      (y : ℕ) (p : Page) (l all : List ℕ)
      → y ≢ 0
      → count y m.using_pages ≡ 0
      → length (held y) ≡ 0
      → HoldsSoundly p (held y)
      → p.block_size ≡ m.block_size
      → p.align_size ≡ m.align_size
      → ((x : ℕ) → count x m.using_pages + one y x + count x l ≤ count x all)
      → ((x : ℕ) → count x all ≤ 1)
      → count 0 all ≡ 0
      → ((x : ℕ) → x ≢ y → count x l ≡ count x m.free_pages)
      → length l ≤ m.recycle_size
      → m.cur_allocpage ≡ 0
      → IsPicked held (record (using y p m) { free_pages = l; all_pages = all })
  unfolding is_empty
  use_page-IsPicked y p l all ne unused idle sound sz al known once null same bounded c =
      let counted : (x : ℕ) → count x (insert y m.using_pages) ≡ count x m.using_pages + one y x =
        λ x. count-insert x y m.using_pages unused in
      let here : 0 < count y (insert y m.using_pages) = omega (arith, counted y, one_same y) in
      let still : (x : ℕ) → x ≢ y → count x (insert y m.using_pages) + count x l ≡ mine m x =
        λ x q. omega (arith, counted x, same x q, one_other x y q) in
      let by_page : (P : ℕ → Type 0) → ((x : ℕ) → x ≢ y → P x) → P y → (x : ℕ) → P x =
        λ P others this x. elim (Bool-cases (x == y)) [
          | inl e ↦ subst P (sym ((==_iff x y).0 e)) this
          | inr e ↦ others x (ne-of-== x y e)
        ] in
      let free_left : p.freeblock_num ≢ 0 =
        λ q. omega (arith, sound.number, sound.laid.some_block, idle, q) in
      record {
        sound = record {
          known = λ x. omega (arith, known x, counted x);
          once = once;
          null = null;
          page =
              each_page
                (λ x q. 0 < count x (insert y m.using_pages) + count x l → HoldsSoundly q (held x))
                m.pages y p (λ x q h. s.page x (omega (arith, still x q, h))) (λ h. sound);
          size =
              each_page
                (λ x q.
                  0 < count x (insert y m.using_pages) + count x l → q.block_size ≡ m.block_size)
                m.pages y p (λ x q h. s.size x (omega (arith, still x q, h))) (λ h. sz);
          alignment =
              each_page
                (λ x q.
                  0 < count x (insert y m.using_pages) + count x l → q.align_size ≡ m.align_size)
                m.pages y p (λ x q h. s.alignment x (omega (arith, still x q, h))) (λ h. al);
          idle =
              by_page (λ x. 0 < count x l → length (held x) ≡ 0)
                (λ x q h. s.idle x (omega (arith, same x q, h))) (λ h. idle);
          outside =
              by_page (λ x. count x (insert y m.using_pages) + count x l ≡ 0 → length (held x) ≡ 0)
                (λ x q h. s.outside x (omega (arith, still x q, h))) (λ h. idle);
          current = λ k. here;
          bounded = bounded;
        };
        busy = record {
          busy = λ x h q. b.busy x (omega (arith, still x q, same x q, h)) (λ k. omega (
            arith,
            s.known 0,
            s.null,
            h,
            still x q,
            same x q,
            ap (λ z. count z m.using_pages) (k ∙ c),
          ));
        };
        current = ne;
        some_free = rw (==_refl y) (ne→== p.freeblock_num 0 free_left);
      }

  use_free-IsPicked :
      (y : ℕ) (l : List ℕ)
      → m.free_pages ≡ y ∷ l
      → m.cur_allocpage ≡ 0
      → IsPicked held (using y (m.pages y) (record m { free_pages = l }))
  use_free-IsPicked y l e c =
      let all : (x : ℕ) → count x m.free_pages ≡ one y x + count x l = λ x. ap (count x) e in
      let free : 0 < count y m.free_pages = omega (arith, all y, one_same y) in
      let is_mine : 0 < mine m y = omega (arith, free) in
      use_page-IsPicked y (m.pages y) l m.all_pages
        (λ q. omega (arith, s.known 0, s.null, free, ap (λ z. count z m.free_pages) q))
        (omega (arith, s.known y, s.once y, free)) (s.idle y free) (s.page y is_mine)
        (s.size y is_mine) (s.alignment y is_mine) (λ x. omega (arith, s.known x, all x)) s.once
        s.null (λ x q. omega (arith, all x, one_other x y q))
        (omega (arith, s.bounded, ap (length {A = ℕ}) e)) c

  use_new-IsPicked :
      (x fresh : ℕ) (garbage : ℕ → ℕ)
      → IsNew m x fresh
      → m.cur_allocpage ≡ 0
      → IsPicked held (record (using x (made fresh garbage m.block_size m.align_size) m) {
        all_pages = insert x m.all_pages;
      })
  use_new-IsPicked x fresh garbage f c =
      let p = made fresh garbage m.block_size m.align_size in
      let none_held = s.outside x (omega (arith, s.known x, f.unused)) in
      let counted : (y : ℕ) → count y (insert x m.all_pages) ≡ count y m.all_pages + one x y =
        λ y. count-insert y x m.all_pages f.unused in
      use_page-IsPicked x p m.free_pages (insert x m.all_pages) f.address
        (omega (arith, s.known x, f.unused)) none_held
        (subst (HoldsSoundly p) (sym (length_nil (held x) none_held))
          (made-IsSound garbage f.request))
        f.whole refl (λ y. omega (arith, s.known y, counted y))
        (λ y. elim (Bool-cases (y == x)) [
          | inl e ↦
              let at = (==_iff y x).0 e in
              omega (
                arith,
                counted y,
                f.unused,
                ap (λ z. count z m.all_pages) at,
                one_same x,
                ap (one x) at,
              )
          | inr e ↦ omega (arith, counted y, s.once y, one_other y x (ne-of-== y x e))
        ])
        (omega (arith, counted 0, s.null, one_other 0 x (λ q. f.address (sym q)))) (λ y q. refl)
        s.bounded c

  -- `Reset` keeps a page whose blocks are all free and have the size already.
  reset-kept :
      (fresh : ℕ) (garbage : ℕ → ℕ) (y : ℕ)
      → 0 < count y m.free_pages
      → reset fresh garbage m.block_size m.align_size (m.pages y) ≡ some (true, m.pages y)
  unfolding reset is_intact
  reset-kept fresh garbage y free =
      let is_mine : 0 < mine m y = omega (arith, free) in
      let all_free : (m.pages y).freeblock_num ≡ (m.pages y).allblock_num =
        omega (arith, (s.page y is_mine).number, s.idle y free) in
      rw
        (
          (==_iff _ _).1 all_free,
          (==_iff _ _).1 (s.size y is_mine),
          (==_iff _ _).1 (s.alignment y is_mine),
        )
        refl

  pick_free-Picked :
      (x fresh : ℕ) (garbage : ℕ → ℕ) (l : List ℕ)
      → IsNew m x fresh
      → m.free_pages ≡ l
      → m.cur_allocpage ≡ 0
      → Picked held (pick_free x fresh garbage l m)
  unfolding pick_free
  pick_free-Picked x fresh garbage [] f e c =
      rw ((new_page-IsLaidOut garbage f.request).0) (use_new-IsPicked x fresh garbage f c)
  pick_free-Picked x fresh garbage (y ∷ l) f e c =
      let free : 0 < count y m.free_pages = omega (arith, ap (count y) e, one_same y) in
      rw (reset-kept fresh garbage y free) (use_free-IsPicked y l e c)

  pub pick_page-Picked :
      (x fresh : ℕ) (garbage : ℕ → ℕ)
      → IsNew m x fresh
      → m.cur_allocpage ≡ 0
      → Picked held (pick_page x fresh garbage m)
  unfolding pick_page is_empty
  pick_page-Picked x fresh garbage f c =
      let fun : ℕ → Bool = λ z. not (z == 0) && not (is_empty (m.pages z)) in
      let y = find fun m.using_pages in
      elim (Bool-cases (y == 0)) [
        | inl e ↦ rw e (pick_free-Picked x fresh garbage m.free_pages f refl c)
        | inr e ↦
            let (h, t) = find-Passes fun m.using_pages (ne-of-== y 0 e) in
            rw e (record {
              sound = change_current-IsSound y (λ k. h);
              busy = record {
                busy = λ z k q. b.busy z k (λ w.
                    omega (arith, s.known 0, s.null, k, ap (λ t. count t m.using_pages) (w ∙ c)));
              };
              current = ne-of-== y 0 e;
              some_free = second (not (y == 0)) (is_empty (m.pages y)) t;
            })
      ]
