-- ===== src/Utility/Dates.antt =====
-- The dates of source/utility/utility.cpp. `time_t` is a 64-bit number; `mktime` and `localtime`
-- of the C library are parameters.
use xhnet.Common.{
  ℕ, ◌+◌, ◌-◌, ◌*◌, ◌%◌, ◌^◌, ◌≤◌, ◌≡◌, ap, Bool, false, ◌&&◌, ◌||◌, not, arith, ltb, leb, le→leb,
  ◌==◌, if◌then◌else◌,
}

pub record Tm : Type 0 where
  pub sec : ℕ
  pub min : ℕ
  pub hour : ℕ
  pub mday : ℕ
  pub mon : ℕ
  pub year : ℕ
  pub wday : ℕ
  pub yday : ℕ

abbrev pub minus : ℕ → ℕ → ℕ
minus a b = (a + (2 ^ 64 - b)) % 2 ^ 64

abbrev seconds_of_day : Tm → ℕ
seconds_of_day t = t.hour * 3600 + t.min * 60 + t.sec

-- `mktime` does not read the days of the week and of the year.
pub record IsCalendar (mktime : Tm → ℕ) : Type 0 where
  pub ignores : (t : Tm) (w y : ℕ) → mktime (record t { wday = w; yday = y }) ≡ mktime t

module _ (mktime : Tm → ℕ) where
  unfoldable pub get_0h0m0s : Tm → ℕ
  get_0h0m0s t = mktime (record t { hour = 0; min = 0; sec = 0 })

  unfoldable pub get_sunday_0h0m0s : Tm → ℕ
  get_sunday_0h0m0s t = minus (mktime t) (t.wday * 86400 + seconds_of_day t)

  unfoldable pub get_first_mday_0h0m0s : Tm → ℕ
  get_first_mday_0h0m0s t = minus (mktime t) ((t.mday - 1) * 86400 + seconds_of_day t)

  unfoldable pub get_last_mday_23h59m59s : Tm → ℕ
  get_last_mday_23h59m59s t =
      let first = record t { mday = 1; hour = 0; min = 0; sec = 0 } in
      minus
        (if leb 11 t.mon
          then mktime (record first { mon = 0; yday = t.yday + 1 })
          else mktime (record first { mon = t.mon + 1 }))
        1

  unfoldable pub get_first_yday_0h0m0s : Tm → ℕ
  get_first_yday_0h0m0s t = minus (mktime t) (t.yday * 86400 + seconds_of_day t)

  unfoldable pub get_last_yday_23h59m59s : Tm → ℕ
  get_last_yday_23h59m59s t =
      minus (mktime (record t { yday = t.yday + 1; mon = 0; mday = 1; hour = 0; min = 0; sec = 0 }))
        1

  -- Where `mktime` does not read the days of the week and of the year, then for a time in December
  -- both `GetLastYDay_23H59M59S` and `GetLastMDay_23H59M59S` are the second before the year
  -- begins.
  pub get_last_yday_lem :
      IsCalendar mktime
      → (t : Tm) → 11 ≤ t.mon
      → (get_last_yday_23h59m59s t ≡ minus (get_0h0m0s (record t { mon = 0; mday = 1 })) 1)
        × (get_last_mday_23h59m59s t ≡ get_last_yday_23h59m59s t)
  unfolding get_last_yday_23h59m59s get_last_mday_23h59m59s get_0h0m0s
  get_last_yday_lem c t december =
      let start : Tm = record t { mon = 0; mday = 1; hour = 0; min = 0; sec = 0 } in
      (ap (λ s. minus s 1) (c.ignores start t.wday (t.yday + 1)), rw (le→leb 11 t.mon december))

module _ (localtime : ℕ → Tm) where
  unfoldable pub is_same_day : ℕ → ℕ → Bool
  is_same_day l r = (localtime l).yday == (localtime r).yday

  unfoldable pub is_big_day : ℕ → ℕ → Bool
  is_big_day l r =
      let a = localtime l in
      let b = localtime r in ((a.year == b.year) && ltb b.yday a.yday) || ltb b.year a.year

  unfoldable pub is_small_day : ℕ → ℕ → Bool
  is_small_day l r =
      let a = localtime l in
      let b = localtime r in ((a.year == b.year) && ltb a.yday b.yday) || ltb a.year b.year

  -- Of two times one is on a smaller day or on a bigger one, never both, or both are on the same
  -- day of the same year; `IsSmallDay` is `IsBigDay` the other way round.
  pub day_order :
      (l r : ℕ)
      → (is_small_day l r ≡ is_big_day r l)
        × ((is_small_day l r && is_big_day l r) ≡ false)
        × (not (is_small_day l r || is_big_day l r)
            ≡ (is_same_day l r && ((localtime l).year == (localtime r).year)))
  unfolding is_small_day is_big_day is_same_day
  day_order l r = (ground arith, ground arith, ground arith)
