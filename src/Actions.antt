-- ===== src/Actions.antt =====
-- `CActionStat` and `CActionRecord` of include/log/actionstat.h and source/log/actionstat.cpp: how
-- often each action was done, and how long it took. The names are compared with the `<` of
-- `std::string`, which is the parameter `less`.
pub mod Totals
mod Runs
use xhnet.Common.{ℕ, ◌+◌, ◌%◌, ◌^◌, Bool, ◌||◌, Option, none, some, List, [], ◌∷◌, if◌then◌else◌}

-- A `time_t` is its 64-bit pattern.
pub record ActionRecord : Type 0 where
  pub totaltime : ℕ
  pub totalcnt : ℕ

-- The constructor of `CActionRecord`, and what `AddAction` does to a record.
abbrev pub new_record : ℕ → ActionRecord
new_record time = record { totaltime = time; totalcnt = 1 }

abbrev pub bump : ℕ → ActionRecord → ActionRecord
bump time r = record {
  totaltime = (r.totaltime + time) % 2 ^ 64;
  totalcnt = (r.totalcnt + 1) % 2 ^ 32;
}

pub record Entry {ℓ} (A : Type ℓ) : Type ℓ where
  pub action : A
  pub stat : ActionRecord

-- An action that ends, with the time since it was entered.
pub record OneAction {ℓ} (A : Type ℓ) : Type ℓ where
  pub name : A
  pub time : ℕ

module _ {ℓ} {A : Type ℓ} (less : A → A → Bool) where
  -- `std::map` keeps the names in their order.
  unfoldable pub add_action : OneAction A → List (Entry A) → List (Entry A)
  add_action a [] = record { action = a.name; stat = new_record a.time } ∷ []
  add_action a (e ∷ l) =
      let rest = add_action a l in
      if less a.name e.action
      then record { action = a.name; stat = new_record a.time } ∷ e ∷ l
      else if less e.action a.name
      then e ∷ rest
      else record e { stat = bump a.time e.stat } ∷ l

  -- `find`, as the record that it finds.
  unfoldable pub find_action : A → List (Entry A) → Option ActionRecord
  find_action q [] = none
  find_action q (e ∷ l) =
      let rest = find_action q l in if less q e.action || less e.action q then rest else some e.stat

  -- The actions, one after the other.
  unfoldable pub add_actions : List (OneAction A) → List (Entry A) → List (Entry A)
  unfolding add_action
  add_actions [] l = l
  add_actions (a ∷ acts) l = add_actions acts (add_action a l)
