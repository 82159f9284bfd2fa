-- ===== src/Memory/Manager/Current.antt =====
-- The current page of a manager when it takes a block.
use mathlib.Core.Bool.{true≢false}
use xhnet.Common.{
  ℕ, ◌<◌, ◌≡◌, ◌≢◌, refl, sym, subst, Bool, true, false, not, ◌&&◌, some, List, ◌==◌, ==_iff, ne→==,
  inl, inr, Bool-cases, length,
}
use xhnet.Memory.Page.{is_empty}
use xhnet.Memory.Manager.{Manager, drop_empty, pick_page, choose_page, current_page}
use xhnet.Memory.Manager.Sound.{either, IsSound, IsBusy}
use xhnet.Memory.Manager.Picks.{
  IsNew, Picked, ne-of-==, change_current-IsSound, full-held, pick_page-Picked,
}

-- A manager whose current page, if it has one, has a free block.
record IsDropped (held : ℕ → List ℕ) (x fresh : ℕ) (m : Manager) : Type 0 where
  sound : IsSound m held
  busy : IsBusy m held
  news : IsNew m x fresh
  some_free : m.cur_allocpage ≢ 0 → is_empty (m.pages m.cur_allocpage) ≡ false

both : (a b : Bool) → (not a && b) ≡ true → (a ≡ false) × (b ≡ true)
both true b h = absurd (true≢false (sym h))
both false b h = (refl, h)

neither : (a b : Bool) → (not a && b) ≡ false → a ≡ false → b ≡ false
neither true b h e = absurd (true≢false e)
neither false b h e = h

drop_empty-IsDropped :
    {m : Manager} {held : ℕ → List ℕ} (x fresh : ℕ)
    → IsSound m held
    → IsBusy m held
    → IsNew m x fresh
    → IsDropped held x fresh (drop_empty m)
unfolding drop_empty
drop_empty-IsDropped {m} {held} x fresh s b f =
    let cur = m.cur_allocpage in
    either (IsDropped held x fresh) (not (cur == 0) && is_empty (m.pages cur))
      (record m { cur_allocpage = 0 }) m
      (λ e.
        let (some_page, full) = both (cur == 0) (is_empty (m.pages cur)) e in
        let used = s.current (ne-of-== cur 0 some_page) in
        record {
          sound = change_current-IsSound s b 0 (λ q. absurd (q refl));
          busy = record {
            busy = λ y h q. elim (Bool-cases (y == cur)) [
              | inl e' ↦
                  subst (λ z. 0 < length (held z)) (sym ((==_iff y cur).0 e'))
                    (full-held s b cur used full)
              | inr e' ↦ b.busy y h (ne-of-== y cur e')
            ];
          };
          news = record {
            address = f.address;
            unused = f.unused;
            request = f.request;
            whole = f.whole;
          };
          some_free = λ q. absurd (q refl);
        })
      (λ e. record {
        sound = s;
        busy = b;
        news = f;
        some_free = λ q. neither (cur == 0) (is_empty (m.pages cur)) e (ne→== cur 0 q);
      })

choose_page-Picked :
    {m : Manager} {held : ℕ → List ℕ} (x fresh : ℕ) (garbage : ℕ → ℕ)
    → IsDropped held x fresh m
    → Picked held (choose_page x fresh garbage m)
unfolding choose_page
choose_page-Picked {m} {held} x fresh garbage d =
    either (Picked held) (m.cur_allocpage == 0) (pick_page x fresh garbage m) (some m)
      (λ e. pick_page-Picked d.sound d.busy x fresh garbage d.news ((==_iff _ 0).0 e))
      (λ e.
        let ne = ne-of-== _ 0 e in
        record { sound = d.sound; busy = d.busy; current = ne; some_free = d.some_free ne })

pub current_page-Picked :
    {m : Manager} {held : ℕ → List ℕ} (x fresh : ℕ) (garbage : ℕ → ℕ)
    → IsSound m held
    → IsBusy m held
    → IsNew m x fresh
    → Picked held (current_page x fresh garbage m)
unfolding current_page
current_page-Picked x fresh garbage s b f =
    choose_page-Picked x fresh garbage (drop_empty-IsDropped x fresh s b f)
