-- ===== src/Actions/Totals.antt =====
-- The statistics are the totals of the actions.
use mathlib.Core.Bool.{true≢false}
use native.Mathlib.Nat.{zero-add}
use xhnet.Common.{
  ℕ, ◌+◌, ◌%◌, ◌^◌, ◌<◌, ◌==◌, ne→==, ◌≡◌, refl, ap, subst, ◌∙◌, Bool, true, false, ◌||◌, Option,
  none, some, List, [], ◌∷◌, arith, if◌then◌else◌, inl, inr, Bool-cases, All,
}
use xhnet.Actions.{
  ActionRecord, Entry, OneAction, new_record, bump, add_action, find_action, add_actions,
}

-- A strict order in which every two names can be compared.
pub record IsOrder {ℓ} {A : Type ℓ} (less : A → A → Bool) : Type ℓ where
  pub irreflexive : (a : A) → less a a ≡ false
  pub transitive : (a b c : A) → less a b ≡ true → less b c ≡ true → less a c ≡ true
  pub connected : (a b : A) → less a b ≡ false → less b a ≡ false → a ≡ b

-- What becomes of a record, if there is one.
abbrev pub bumped : ℕ → Option ActionRecord → Option ActionRecord
bumped time none = some (new_record time)
bumped time (some r) = some (bump time r)

same_record :
    {t t' n n' : ℕ}
    → t ≡ t'
    → n ≡ n'
    → ◌≡◌ {A = ActionRecord}
        (record { totaltime = t; totalcnt = n })
        (record { totaltime = t'; totalcnt = n' })
same_record p q = λ i. record { totaltime = p i; totalcnt = q i }

module _ {ℓ} {A : Type ℓ} (less : A → A → Bool) where
  abbrev IsAbove : A → Entry A → Type 0
  IsAbove a e = less a e.action ≡ true

  -- The names stand in their order.
  abbrev pub IsSorted : List (Entry A) → Type 0
  IsSorted [] = Unit
  IsSorted (e ∷ l) = All (IsAbove e.action) l × IsSorted l

  abbrev pub is_other : A → A → Bool
  is_other q k = less q k || less k q

  -- The totals of the actions with the name `q`, from `r` on.
  abbrev pub tally : A → List (OneAction A) → Option ActionRecord → Option ActionRecord
  tally q [] r = r
  tally q (a ∷ acts) r = tally q acts (if is_other q a.name then r else bumped a.time r)

  -- How many of the actions have the name `q`, and how long they took together.
  abbrev pub number_of : A → List (OneAction A) → ℕ
  number_of q [] = 0
  number_of q (a ∷ acts) = (if is_other q a.name then 0 else 1) + number_of q acts

  abbrev pub time_of : A → List (OneAction A) → ℕ
  time_of q [] = 0
  time_of q (a ∷ acts) = (if is_other q a.name then 0 else a.time) + time_of q acts

  abbrev totals : A → List (OneAction A) → ActionRecord → ActionRecord
  totals q acts r = record {
    totaltime = (r.totaltime + time_of q acts) % 2 ^ 64;
    totalcnt = (r.totalcnt + number_of q acts) % 2 ^ 32;
  }

  tally-some :
      (q : A) (acts : List (OneAction A)) (r : ActionRecord)
      → r.totaltime < 2 ^ 64
      → r.totalcnt < 2 ^ 32
      → tally q acts (some r) ≡ some (totals q acts r)
  tally-some q [] r t n = ap some (same_record (omega (arith, t)) (omega (arith, n)))
  tally-some q (a ∷ acts) r t n = elim (Bool-cases (is_other q a.name)) [
    | inl e ↦ rw e (tally-some q acts r t n ∙ ap some (same_record (omega arith) (omega arith)))
    | inr e ↦ rw e (
        tally-some q acts (bump a.time r) (omega arith) (omega arith)
        ∙ ap some (same_record (omega arith) (omega arith)))
  ]

  tally-none :
      (q : A) (acts : List (OneAction A))
      → All (λ a. OneAction.time a < 2 ^ 64) acts
      → tally q acts none ≡ (
          if number_of q acts == 0
          then none
          else some (record {
            totaltime = time_of q acts % 2 ^ 64;
            totalcnt = number_of q acts % 2 ^ 32;
          }))
  tally-none q [] h = refl
  tally-none q (a ∷ acts) h = elim (Bool-cases (is_other q a.name)) [
    | inl e ↦ rw (e, zero-add, zero-add) (tally-none q acts h.1)
    | inr e ↦
        rw (e, ne→== (1 + number_of q acts) 0 (λ k. omega (arith, k)))
          (tally-some q acts (new_record a.time) h.0 (omega arith)
            ∙ ap some (same_record (omega arith) (omega arith)))
  ]

  find_action-absent :
      (k : A) (l : List (Entry A)) → All (IsAbove k) l → find_action less k l ≡ none
  unfolding find_action
  find_action-absent k [] h = refl
  find_action-absent k (e ∷ l) h = rw (h.0) (find_action-absent k l h.1)

  module _ (o : IsOrder less) where
    same_name : (q k : A) → is_other q k ≡ false → k ≡ q
    same_name q k h = elim (Bool-cases (less q k)) [
      | inl e ↦ absurd (true≢false (rw e at h))
      | inr e ↦ o.connected k q (rw e at h) e
    ]

    All-IsAbove :
        (a b : A) (l : List (Entry A)) → less a b ≡ true → All (IsAbove b) l → All (IsAbove a) l
    All-IsAbove a b [] lt h = tt
    All-IsAbove a b (e ∷ l) lt h = (o.transitive a b e.action lt h.0, All-IsAbove a b l lt h.1)

    add_action-IsAbove :
        (b : A) (a : OneAction A) (l : List (Entry A))
        → less b a.name ≡ true
        → All (IsAbove b) l
        → All (IsAbove b) (add_action less a l)
    unfolding add_action
    add_action-IsAbove b a [] lt h = (lt, tt)
    add_action-IsAbove b a (e ∷ l) lt h = elim (Bool-cases (less a.name e.action)) [
      | inl before ↦ rw before (lt, h)
      | inr not_before ↦ elim (Bool-cases (less e.action a.name)) [
        | inl after ↦ rw (not_before, after) (h.0, add_action-IsAbove b a l lt h.1)
        | inr same ↦ rw (not_before, same) h
      ]
    ]

    add_action-IsSorted :
        (a : OneAction A) (l : List (Entry A)) → IsSorted l → IsSorted (add_action less a l)
    unfolding add_action
    add_action-IsSorted a [] s = (tt, tt)
    add_action-IsSorted a (e ∷ l) s = elim (Bool-cases (less a.name e.action)) [
      | inl before ↦ rw before ((before, All-IsAbove a.name e.action l before s.0), s)
      | inr not_before ↦ elim (Bool-cases (less e.action a.name)) [
        | inl after ↦
            rw (not_before, after)
              (add_action-IsAbove e.action a l after s.0, add_action-IsSorted a l s.1)
        | inr same ↦ rw (not_before, same) s
      ]
    ]

    -- A name in front of the first.
    before_first :
        (q : A) (a : OneAction A) (e : Entry A) (l : List (Entry A))
        → IsSorted (e ∷ l)
        → less a.name e.action ≡ true
        → (if is_other q a.name then find_action less q (e ∷ l) else some (new_record a.time)) ≡ (
            if is_other q a.name
            then find_action less q (e ∷ l)
            else bumped a.time (find_action less q (e ∷ l)))
    before_first q a e l s before = elim (Bool-cases (is_other q a.name)) [
      | inl other ↦ rw other refl
      | inr same ↦
          let eq : a.name ≡ q = same_name q a.name same in
          let none_there : find_action less q (e ∷ l) ≡ none =
            subst (λ k. find_action less k (e ∷ l) ≡ none) eq
              (find_action-absent a.name (e ∷ l)
                (before, All-IsAbove a.name e.action l before s.0)) in
          rw (same, none_there) refl
    ]

    find_action-add_action :
        (q : A) (a : OneAction A) (l : List (Entry A))
        → IsSorted l
        → find_action less q (add_action less a l) ≡ (
            if is_other q a.name
            then find_action less q l
            else bumped a.time (find_action less q l))
    unfolding add_action find_action
    find_action-add_action q a [] s = refl
    find_action-add_action q a (e ∷ l) s = elim (Bool-cases (less a.name e.action)) [
      | inl before ↦ rw before (before_first q a e l s before)
      | inr not_before ↦ elim (Bool-cases (less e.action a.name)) [
        | inl after ↦
            rw (not_before, after)
              (elim (Bool-cases (is_other q e.action)) [
                | inl other ↦ rw other (find_action-add_action q a l s.1)
                | inr here ↦
                    let eq : e.action ≡ q = same_name q e.action here in
                    let apart : less q a.name ≡ true = subst (λ k. less k a.name ≡ true) eq after in
                    rw (here, apart) refl
              ])
        | inr same ↦
            rw (not_before, same)
              (rw (ap (is_other q) (o.connected a.name e.action not_before same))
                (elim (Bool-cases (is_other q e.action)) [
                  | inl other ↦ rw other refl
                  | inr here ↦ rw here refl
                ]))
      ]
    ]

    add_actions-tally :
        (q : A) (acts : List (OneAction A)) (l : List (Entry A))
        → IsSorted l
        → find_action less q (add_actions less acts l) ≡ tally q acts (find_action less q l)
    unfolding add_actions
    add_actions-tally q [] l s = refl
    add_actions-tally q (a ∷ acts) l s =
        add_actions-tally q acts (add_action less a l) (add_action-IsSorted a l s)
        ∙ ap (tally q acts) (find_action-add_action q a l s)

    -- For names in a strict order in which every two can be compared, and times below 2 ^ 64: after
    -- `AddAction` of each of some actions, from no record on, a name that none of them has is not
    -- found, and for any other name the record has the sum of their times, modulo 2 ^ 64, and their
    -- number, modulo 2 ^ 32.
    pub add_actions-totals :
        (q : A) (acts : List (OneAction A))
        → All (λ a. OneAction.time a < 2 ^ 64) acts
        → find_action less q (add_actions less acts []) ≡ (
            if number_of q acts == 0
            then none
            else some (record {
              totaltime = time_of q acts % 2 ^ 64;
              totalcnt = number_of q acts % 2 ^ 32;
            }))
    unfolding find_action
    add_actions-totals q acts h = add_actions-tally q acts [] tt ∙ tally-none q acts h
