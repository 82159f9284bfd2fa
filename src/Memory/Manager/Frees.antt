-- ===== src/Memory/Manager/Frees.antt =====
-- `FreeToPage` keeps the manager sound.
use xhnet.Common.{
  ℕ, ◌+◌, ◌<◌, ◌≡◌, ◌≢◌, refl, sym, ap, ◌∙◌, some, List, [], ◌∷◌, ◌++◌, arith, ◌==◌, ==_iff,
  ==_refl, ne→==, inl, inr, Bool-cases, length, count, remove, count-remove, count-append,
  length-append, leb, leb→lt, count_le,
}
use xhnet.Memory.Page.{is_intact, freeblock}
use xhnet.Memory.Page.Pool.{here, give-IsSound}
use xhnet.Memory.Page.Client.{free_held}
use xhnet.Memory.Manager.{Manager, assign_at, recycle, freed_block, free_to_page}
use xhnet.Memory.Manager.Sound.{
  one, one_same, one_other, either, IsSound, IsBusy, mine, each_page, set_page-IsSound, mine-held,
}
use xhnet.Memory.Manager.Picks.{ne-of-==}
use xhnet.Memory.Manager.Calls.{Frees, without_block}

module _ (held : ℕ → List ℕ) where
  module _ {m : Manager} (s : IsSound m held) (y : ℕ) (used : 0 < count y m.using_pages)
      (no_block : length (held y) ≡ 0) (other : y ≢ m.cur_allocpage) where
    delete-IsSound :
        IsSound
          (record m { using_pages = remove y m.using_pages; all_pages = remove y m.all_pages })
          held
    delete-IsSound =
        let u : (x : ℕ) → count x (remove y m.using_pages) + one y x ≡ count x m.using_pages =
          λ x. count-remove y x m.using_pages used in
        let a : (x : ℕ) → count x (remove y m.all_pages) + one y x ≡ count x m.all_pages =
          λ x. count-remove y x m.all_pages (omega (arith, used, s.known y)) in
        record {
          known = λ x. omega (arith, u x, a x, s.known x);
          once = λ x. omega (arith, a x, s.once x);
          null = omega (arith, a 0, s.null);
          page = λ x h. s.page x (omega (arith, u x, h));
          size = λ x h. s.size x (omega (arith, u x, h));
          alignment = λ x h. s.alignment x (omega (arith, u x, h));
          idle = s.idle;
          outside = λ x h. elim (Bool-cases (x == y)) [
            | inl e ↦ ap (λ z. length (held z)) ((==_iff x y).0 e) ∙ no_block
            | inr e ↦ s.outside x (omega (arith, u x, h, one_other x y (ne-of-== x y e)))
          ];
          current = λ ne. omega (
            arith,
            u m.cur_allocpage,
            s.current ne,
            one_other m.cur_allocpage y (λ q. other (sym q)),
          );
          bounded = s.bounded;
        }

    keep-IsSound :
        length m.free_pages < m.recycle_size
        → IsSound
            (record m {
              using_pages = remove y m.using_pages;
              free_pages = m.free_pages ++ (y ∷ []);
            })
            held
    keep-IsSound short =
        let u : (x : ℕ) → count x (remove y m.using_pages) + one y x ≡ count x m.using_pages =
          λ x. count-remove y x m.using_pages used in
        let f : (x : ℕ) → count x (m.free_pages ++ (y ∷ [])) ≡ count x m.free_pages + one y x =
          λ x. omega (arith, count-append x m.free_pages (y ∷ [])) in
        record {
          known = λ x. omega (arith, u x, f x, s.known x);
          once = s.once;
          null = s.null;
          page = λ x h. s.page x (omega (arith, u x, f x, h));
          size = λ x h. s.size x (omega (arith, u x, f x, h));
          alignment = λ x h. s.alignment x (omega (arith, u x, f x, h));
          idle = λ x h. elim (Bool-cases (x == y)) [
            | inl e ↦ ap (λ z. length (held z)) ((==_iff x y).0 e) ∙ no_block
            | inr e ↦ s.idle x (omega (arith, f x, h, one_other x y (ne-of-== x y e)))
          ];
          outside = λ x h. s.outside x (omega (arith, u x, f x, h));
          current = λ ne. omega (
            arith,
            u m.cur_allocpage,
            s.current ne,
            one_other m.cur_allocpage y (λ q. other (sym q)),
          );
          bounded = omega (arith, length-append m.free_pages (y ∷ []), short);
        }

    recycle-Frees :
        ((x : ℕ) → 0 < count x m.using_pages → x ≢ m.cur_allocpage → x ≢ y → 0 < length (held x))
        → Frees held (some (recycle y m))
    recycle-Frees b =
        let u : (x : ℕ) → count x (remove y m.using_pages) + one y x ≡ count x m.using_pages =
          λ x. count-remove y x m.using_pages used in
        let busy : (x : ℕ)
            → 0 < count x (remove y m.using_pages)
            → x ≢ m.cur_allocpage
            → 0 < length (held x) =
          λ x h q. b x (omega (arith, u x, h)) q (λ e. omega (
            arith,
            u y,
            one_same y,
            s.known y,
            s.once y,
            h,
            ap (λ z. count z (remove y m.using_pages)) e,
          )) in
        either (λ t. IsSound t held × IsBusy t held) (leb m.recycle_size (length m.free_pages))
          (record m { using_pages = remove y m.using_pages; all_pages = remove y m.all_pages })
          (record m { using_pages = remove y m.using_pages; free_pages = m.free_pages ++ (y ∷ []) })
          (λ e. (delete-IsSound, record { busy = busy }))
          (λ e. (keep-IsSound (leb→lt _ _ e), record { busy = busy }))

module _ {m : Manager} {held : ℕ → List ℕ} (s : IsSound m held) (b : IsBusy m held) (y block : ℕ)
    (h : 0 < count block (held y)) where
  -- The page after it has taken the block back.
  after_free-IsSound :
      IsSound
        (record m { pages = assign_at m.pages y (freeblock (m.pages y) block) })
        (without_block y block held)
  unfolding freeblock
  after_free-IsSound =
      let is_mine = mine-held s y block h in
      let sound = s.page y is_mine in
      set_page-IsSound s y (freeblock (m.pages y) block) (remove block (held y)) is_mine
        (give-IsSound sound block _ h (free_held sound here block h)) (s.size y is_mine)
        (s.alignment y is_mine)
        (λ f. absurd (omega (arith, s.idle y f, h, count_le block (held y))))

  used-held : 0 < count y m.using_pages
  used-held = elim (Bool-cases (count y m.using_pages == 0)) [
    | inl e ↦ absurd (
        omega (
          arith,
          s.idle y (omega (arith, mine-held s y block h, (==_iff _ 0).0 e)),
          h,
          count_le block (held y),
        ))
    | inr e ↦ ground arith
  ]

  busy-others :
      (x : ℕ)
      → 0 < count x m.using_pages
      → x ≢ m.cur_allocpage
      → x ≢ y
      → 0 < length (without_block y block held x)
  busy-others =
      each_page (λ x l. 0 < count x m.using_pages → x ≢ m.cur_allocpage → x ≢ y → 0 < length l) held
        y (remove block (held y)) (λ x ne f k q. b.busy x f k) (λ f k q. absurd (q refl))

  freed_block-Frees :
      Frees (without_block y block held) (freed_block y (some (freeblock (m.pages y) block)) m)
  unfolding is_intact
  freed_block-Frees =
      let p = freeblock (m.pages y) block in
      let m' = record m { pages = assign_at m.pages y p } in
      let after = after_free-IsSound in
      let number : p.freeblock_num + length (remove block (held y)) ≡ p.allblock_num =
        rw (==_refl y) at (after.page y (mine-held s y block h)).number in
      let busy : ((y ≢ m.cur_allocpage) → 0 < length (remove block (held y)))
          → IsBusy m' (without_block y block held) =
        λ k. record {
          busy =
              each_page (λ x l. 0 < count x m.using_pages → x ≢ m.cur_allocpage → 0 < length l) held
                y (remove block (held y)) (λ x ne. b.busy x) (λ f. k);
        } in
      elim (Bool-cases (is_intact p)) [
        | inr used_left ↦
            rw used_left (after, busy (λ k. omega (arith, number, ne-of-== _ _ used_left)))
        | inl intact ↦ elim (Bool-cases (m.cur_allocpage == y)) [
          | inl is_current ↦
              rw (intact, is_current)
                (after, busy (λ k. absurd (k (sym ((==_iff _ _).0 is_current)))))
          | inr other ↦
              let no_block : length (without_block y block held y) ≡ 0 =
                rw (==_refl y) (omega (arith, number, (==_iff _ _).0 intact)) in
              rw (intact, other)
                (recycle-Frees (without_block y block held) after y used-held no_block
                  (λ k. ne-of-== _ _ other (sym k)) busy-others)
        ]
      ]

  -- For a sound manager, where of the pages in use only the current one may have no block that is
  -- held, `FreeToPage` of a block that the client holds succeeds, and the manager stays such a one,
  -- with the block given back.
  pub free_to_page-Frees : Frees (without_block y block held) (free_to_page block y m)
  unfolding free_to_page
  free_to_page-Frees =
      let is_mine = mine-held s y block h in
      let ne : y ≢ 0 = λ q. omega (arith, s.known 0, s.null, is_mine, ap (mine m) q) in
      rw (ne→== y 0 ne, free_held (s.page y is_mine) here block h) freed_block-Frees
