-- ===== src/Actions/Runs.antt =====
-- Runs of the statistics of actions, whose names are numbers here.
use xhnet.Common.{ℕ, ◌≡◌, some, List, [], ◌∷◌, arith, ltb, ltb→lt, ltb→le, lt→ltb, le→ltb}
use xhnet.Actions.{OneAction, find_action, add_actions}
use xhnet.Actions.Totals.{IsOrder, add_actions-totals}

ltb-IsOrder : IsOrder ltb
ltb-IsOrder = record {
  irreflexive = λ a. le→ltb a a (omega arith);
  transitive = λ a b c h k. lt→ltb a c (omega (arith, ltb→lt a b h, ltb→lt b c k));
  connected = λ a b h k. omega (arith, ltb→le a b h, ltb→le b a k);
}

abbrev some_actions : List (OneAction ℕ)
some_actions =
    record { name = 7; time = 20 }
    ∷ record { name = 3; time = 1 }
    ∷ record { name = 7; time = 5 }
    ∷ []

add_actions-totals_example :
    find_action ltb 7 (add_actions ltb some_actions [])
    ≡ some (record { totaltime = 25; totalcnt = 2 })
add_actions-totals_example =
    add_actions-totals ltb ltb-IsOrder 7 some_actions
      (omega arith, (omega arith, (omega arith, tt)))
