-- ===== src/Utility/Runs.antt =====
-- Runs of `SplitString` and `StrHash`.
use xhnet.Common.{◌/◌, ℕ, ◌+◌, ◌*◌, ◌-◌, ◌%◌, ◌^◌, ◌≡◌, refl, none, some, List, [], ◌∷◌, arith}
use xhnet.Utility.{is_prefix, find, split_loop, split_string, str_hash}
use xhnet.Utility.Split.{IsSplit, split_string_lem, split_string_endless}
use xhnet.Utility.Hash.{str_hash_lem}
use xhnet.Utility.Uint.{uint_add, uint_add_lem}
use xhnet.Utility.Dates.{
  Tm, IsCalendar, minus, get_0h0m0s, get_last_mday_23h59m59s, get_last_yday_23h59m59s,
  get_last_yday_lem,
}

-- "a--b-" at "--" is "a" and "b-".
dashes :
    split_string 6 (97 ∷ 45 ∷ 45 ∷ 98 ∷ 45 ∷ []) (45 ∷ 45 ∷ [])
    ≡ some ((97 ∷ []) ∷ (98 ∷ 45 ∷ []) ∷ [])
unfolding split_string split_loop find is_prefix
dashes = refl

split_string_lem_example :
    (head : List ℕ) × (rest : List (List ℕ)) × (split_string 6
        (97 ∷ 45 ∷ 45 ∷ 98 ∷ 45 ∷ [])
        (45 ∷ 45 ∷ [])
      ≡ some (head ∷ rest))
    × IsSplit (45 ∷ 45 ∷ []) (97 ∷ 45 ∷ 45 ∷ 98 ∷ 45 ∷ []) head rest
split_string_lem_example =
    split_string_lem 6 (97 ∷ 45 ∷ 45 ∷ 98 ∷ 45 ∷ []) (45 ∷ 45 ∷ []) (omega arith) (omega arith)

split_string_endless_example : split_string 3 (97 ∷ []) [] ≡ none
split_string_endless_example = split_string_endless 3 (97 ∷ [])

str_hash_lem_example : str_hash (97 ∷ 200 ∷ []) ≡ (97 * 131 + (200 + (2 ^ 32 - 256))) % 2 ^ 31
str_hash_lem_example = str_hash_lem (97 ∷ 200 ∷ []) (omega arith, (omega arith, tt))

uint_add_lem_example :
    ((uint_add 250 9 255).0 ≡ 255) × ((uint_add 250 9 255).0 ≡ 250 + (uint_add 250 9 255).1)
uint_add_lem_example = uint_add_lem (omega arith) (omega arith) 9

-- A calendar of months of 31 days, and its first of December 2026.
abbrev calendar : Tm → ℕ
calendar t = ((((t.year * 12 + t.mon) * 31 + t.mday) * 24 + t.hour) * 60 + t.min) * 60 + t.sec

calendar-IsCalendar : IsCalendar calendar
calendar-IsCalendar = record { ignores = λ t w y. refl }

abbrev in_december : Tm
in_december = record {
  sec = 1;
  min = 2;
  hour = 3;
  mday = 4;
  mon = 11;
  year = 126;
  wday = 5;
  yday = 338;
}

get_last_yday_lem_example :
    (get_last_yday_23h59m59s calendar in_december
      ≡ minus (get_0h0m0s calendar (record in_december { mon = 0; mday = 1 })) 1)
    × (get_last_mday_23h59m59s calendar in_december ≡ get_last_yday_23h59m59s calendar in_december)
get_last_yday_lem_example = get_last_yday_lem calendar calendar-IsCalendar in_december (omega arith)

-- Days of 100 seconds, and years of 300 days.
abbrev clock : ℕ → Tm
clock s = record in_december { year = s / 30000; yday = s / 100 % 300 }
