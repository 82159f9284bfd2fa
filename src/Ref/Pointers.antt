-- ===== src/Ref/Pointers.antt =====
-- Every operation on references succeeds, and keeps the counts those of the references.
use xhnet.Common.{
  ℕ, zero, suc, ◌+◌, ◌^◌, ◌≤◌, ◌<◌, ◌≡◌, ◌≢◌, refl, sym, ◌∙◌, subst, not, some, List, [], ◌∷◌, ◌++◌,
  arith, true, ne→==, ◌==◌, ==_iff, if◌then◌else◌, length, count, remove, count-remove,
  count-append, count_le, ◌⊎◌, inl, inr, Bool-cases,
}
use mathlib.Core.Option.{some-injective}
use xhnet.Ref.{
  World, Op, create, hold, drop_hold, construct, destroy, construct_null, assign, copy_assign, at,
  set, erase, step, new_object,
}
use xhnet.Ref.Counts.{
  HasCounts, HasCounts-ext, one, new_object-HasCounts, retain-HasCounts, release-HasCounts,
  retain_pointer-HasCounts, release_pointer-HasCounts,
}

abbrev pub references : World → ℕ → ℕ
references w x = count x w.pointers + count x w.owned

abbrev total : World → ℕ
total w = length w.pointers + length w.owned

-- An object exists as long as there is a reference to it, and its count is their number.
pub record IsCounted (w : World) : Type 0 where
  pub counts : HasCounts w.heap (references w)

-- What the program may do: make an object where there is none, refer to objects that it can reach,
-- and drop what it holds, but not assign one pointer to another. An `unsigned int` can count the
-- references.
pub data Allowed (w : World) : Op → Type 0 where
  may_create : (p : ℕ) → p ≢ 0 → references w p ≡ 0 → Allowed w (create p)
  may_hold : (p : ℕ) → p ≢ 0 → 0 < references w p → Allowed w (hold p)
  may_drop : (p : ℕ) → p ≢ 0 → 0 < count p w.owned → Allowed w (drop_hold p)
  may_construct : (p : ℕ) → (p ≡ 0) ⊎ (0 < references w p) → Allowed w (construct p)
  may_construct_null : Allowed w construct_null
  may_destroy : (i : ℕ) → i < length w.pointers → Allowed w (destroy i)
  may_assign :
      (i p : ℕ) → i < length w.pointers → (p ≡ 0) ⊎ (0 < references w p) → Allowed w (assign i p)

count-erase :
    (x i : ℕ) (l : List ℕ) → i < length l → count x (erase i l) + one (at i l) x ≡ count x l
count-erase x i [] h = absurd (omega arith)
count-erase x zero (y ∷ l) h = omega arith
count-erase x (suc i) (y ∷ l) h = omega (arith, count-erase x i l (omega arith))

count-set :
    (x i p : ℕ) (l : List ℕ)
    → i < length l
    → count x (set i p l) + one (at i l) x ≡ count x l + one p x
count-set x i p [] h = absurd (omega arith)
count-set x zero p (y ∷ l) h = omega arith
count-set x (suc i) p (y ∷ l) h = omega (arith, count-set x i p l (omega arith))

one_le : (p x : ℕ) → one p x ≤ 1
one_le p x = ground arith

one_same : (p : ℕ) → one p p ≡ 1
one_same p = ground arith

abbrev Succeeds : Op → World → Type 0
Succeeds op w = (w' : World) × (step op w ≡ some w') × IsCounted w'

module _ {w : World} (c : IsCounted w) (few : total w + 1 < 2 ^ 32) where
  fits : (p : ℕ) → references w p + 1 < 2 ^ 32
  fits p = omega (arith, count_le p w.pointers, count_le p w.owned)

  step-create : (p : ℕ) → p ≢ 0 → references w p ≡ 0 → Succeeds (create p) w
  unfolding step
  step-create p ne unused = (
    record w { heap = new_object p w.heap; owned = p ∷ w.owned },
    refl,
    record {
      counts = HasCounts-ext (λ x nx. omega arith) (new_object-HasCounts p c.counts unused);
    },
  )

  step-hold : (p : ℕ) → p ≢ 0 → 0 < references w p → Succeeds (hold p) w
  unfolding step
  step-hold p ne held =
      let (h, e, c') = retain-HasCounts p c.counts ne held (fits p) in
      (
        record w { heap = h; owned = p ∷ w.owned },
        (rw e),
        record { counts = HasCounts-ext (λ x nx. omega arith) c' },
      )

  step-drop_hold : (p : ℕ) → p ≢ 0 → 0 < count p w.owned → Succeeds (drop_hold p) w
  unfolding step
  step-drop_hold p ne held =
      let left : ℕ → ℕ = λ x. count x w.pointers + count x (remove p w.owned) in
      let split : HasCounts w.heap (λ x. left x + one p x) =
        HasCounts-ext (λ x nx. omega (arith, count-remove p x w.owned held)) c.counts in
      let (h, e, c') =
        release-HasCounts p split ne (omega (arith, fits p, count-remove p p w.owned held)) in
      (record w { heap = h; owned = remove p w.owned }, (rw e), record { counts = c' })

  step-construct : (p : ℕ) → (p ≡ 0) ⊎ (0 < references w p) → Succeeds (construct p) w
  unfolding step
  step-construct p known =
      let (h, e, c') = retain_pointer-HasCounts p c.counts known (fits p) in
      (
        record w { heap = h; pointers = w.pointers ++ (p ∷ []) },
        (rw e),
        record {
          counts = HasCounts-ext (λ x nx. omega (arith, count-append x w.pointers (p ∷ []))) c';
        },
      )

  step-construct_null : Succeeds construct_null w
  unfolding step
  step-construct_null = (
    record w { pointers = w.pointers ++ (0 ∷ []) },
    refl,
    record {
      counts = HasCounts-ext (λ x nx. ground (arith, count-append x w.pointers (0 ∷ []))) c.counts;
    },
  )

  step-destroy : (i : ℕ) → i < length w.pointers → Succeeds (destroy i) w
  unfolding step
  step-destroy i within =
      let p = at i w.pointers in
      let left : ℕ → ℕ = λ x. count x (erase i w.pointers) + count x w.owned in
      let split : HasCounts w.heap (λ x. left x + one p x) =
        HasCounts-ext (λ x nx. omega (arith, count-erase x i w.pointers within)) c.counts in
      let (h, e, c') =
        release_pointer-HasCounts p split
          (omega (arith, fits p, count-erase p i w.pointers within)) in
      (record w { heap = h; pointers = erase i w.pointers }, (rw e), record { counts = c' })

  step-assign :
      (i p : ℕ) → i < length w.pointers → (p ≡ 0) ⊎ (0 < references w p) → Succeeds (assign i p) w
  unfolding step
  step-assign i p within known = elim (Bool-cases (at i w.pointers == p)) [
    | inl same ↦ (w, (rw same), c)
    | inr other ↦
        let old = at i w.pointers in
        let (h, e, c') = retain_pointer-HasCounts p c.counts known (fits p) in
        let left : ℕ → ℕ = λ x. count x (set i p w.pointers) + count x w.owned in
        let split : HasCounts h (λ x. left x + one old x) =
          HasCounts-ext (λ x nx. omega (arith, count-set x i p w.pointers within)) c' in
        let (h', e', c'') = release_pointer-HasCounts old split (
          omega (
            arith,
            count_le old w.pointers,
            count_le old w.owned,
            count-set old i p w.pointers within,
            one_le p old,
            one_same old,
          )) in
        (
          record w { heap = h'; pointers = set i p w.pointers },
          (rw (other, e, e')),
          record { counts = c'' },
        )
  ]

-- Where the counts are right and fewer than 2 ^ 32 - 1 references exist, an operation of a program
-- that makes objects where there is none, refers to objects that it can reach, by `Retain`, a new
-- pointer or the assignment of a plain pointer, and drops references that it holds, but does not
-- assign one pointer to another, succeeds, without an access to an object that is gone or a failed
-- assertion, and the counts are right after it.
pub step_lem :
    {w : World} (op : Op)
    → IsCounted w
    → Allowed w op
    → length w.pointers + length w.owned + 1 < 2 ^ 32
    → (w' : World) × (step op w ≡ some w') × IsCounted w'
step_lem op c (may_create p ne unused) few = step-create c few p ne unused
step_lem op c (may_hold p ne held) few = step-hold c few p ne held
step_lem op c (may_drop p ne held) few = step-drop_hold c few p ne held
step_lem op c (may_construct p known) few = step-construct c few p known
step_lem op c may_construct_null few = step-construct_null c few
step_lem op c (may_destroy i within) few = step-destroy c few i within
step_lem op c (may_assign i p within known) few = step-assign c few i p within known

-- A run of allowed operations.
pub data Runs (w : World) : World → Type 0 where
  here : Runs w w
  after :
      {u v : World} (op : Op)
      → Runs w u
      → Allowed u op
      → length u.pointers + length u.owned + 1 < 2 ^ 32
      → step op u ≡ some v
      → Runs w v

Runs-IsCounted : {w v : World} → IsCounted w → Runs w v → IsCounted v
Runs-IsCounted c here = c
Runs-IsCounted c (after op r allowed few e) =
    let (v', e', c') = step_lem op (Runs-IsCounted c r) allowed few in
    subst IsCounted (some-injective _ _ (sym e' ∙ e)) c'

-- From a world whose counts are right, after any run of a program that makes objects where there is
-- none, refers to objects that it can reach, by `Retain`, a new pointer or the assignment of a
-- plain pointer, and drops references that it holds, but does not assign one pointer to another,
-- with fewer than 2 ^ 32 - 1 references before each operation, an object exists exactly when a
-- pointer or the program refers to it, and while it exists its count is the number of these
-- references.
pub Runs-live :
    {w v : World} (p : ℕ)
    → IsCounted w
    → Runs w v
    → p ≢ 0
    → (v.heap.live p ≡ not (references v p == 0))
      × ((if v.heap.live p then v.heap.ref p else 0) ≡ references v p)
Runs-live {w} {v} p c r ne =
    let counts = (Runs-IsCounted c r).counts in
    let known = counts.live p ne in
    (
      known,
      elim (Bool-cases (references v p == 0)) [
        | inl none_left ↦ rw (known, none_left) (sym ((==_iff (references v p) 0).0 none_left))
        | inr some_left ↦ rw (known, some_left) (counts.ref p ne (ground arith))
      ],
    )

count_within : (j : ℕ) (l : List ℕ) → j < length l → 0 < count (at j l) l
count_within j [] h = absurd (omega arith)
count_within zero (y ∷ l) h = omega (arith, one_same y)
count_within (suc j) (y ∷ l) h = omega (arith, count_within j l (omega arith))

one_other : (p x : ℕ) → x ≢ p → one p x ≡ 0
one_other p x ne = rw (ne→== x p ne) refl

-- Where the counts are right and two pointers hold different objects, the assignment of one pointer
-- to the other succeeds, and the counts are wrong after it: the count of the object that the first
-- has held is one more than its references, so that it still exists, and that of the object of the
-- second is one less than its references.
pub copy_assign_lem :
    {w : World} (i j : ℕ)
    → IsCounted w
    → i < length w.pointers
    → j < length w.pointers
    → at i w.pointers ≢ at j w.pointers
    → at i w.pointers ≢ 0
    → at j w.pointers ≢ 0
    → (v : World) × (step (copy_assign i j) w ≡ some v)
      × (v.heap.ref (at i w.pointers) ≡ references v (at i w.pointers) + 1)
      × (v.heap.ref (at j w.pointers) + 1 ≡ references v (at j w.pointers))
      × (v.heap.live (at i w.pointers) ≡ true)
unfolding step
copy_assign_lem {w} i j c hi hj ne old_some new_some =
    let old = at i w.pointers in
    let new = at j w.pointers in
    let had : 0 < references w old = omega (arith, count_within i w.pointers hi) in
    let has : 0 < references w new = omega (arith, count_within j w.pointers hj) in
    (
      record w { pointers = set i new w.pointers },
      refl,
      omega (
        arith,
        c.counts.ref old old_some had,
        count-set old i new w.pointers hi,
        one_same old,
        one_other new old ne,
      ),
      omega (
        arith,
        c.counts.ref new new_some has,
        count-set new i new w.pointers hi,
        one_same new,
        one_other old new (λ q. ne (sym q)),
      ),
      c.counts.live old old_some
          ∙ (rw (ne→== (references w old) 0 (λ q. omega (arith, had, q))) refl),
    )
