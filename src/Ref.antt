-- ===== src/Ref.antt =====
-- `CPPRef` and `CPPRefPtr` of include/ref/cppref.h: counted objects and the pointers that hold
-- references to them. An object is its address, and 0 is the null pointer. The count is atomic, and
-- each operation on it is one step.
pub mod Counts
pub mod Pointers
mod Runs
use xhnet.Common.{
  ℕ, zero, suc, ◌+◌, ◌-◌, ◌%◌, ◌^◌, Bool, true, false, not, ◌||◌, Option, none, some, List, [], ◌∷◌,
  ◌++◌, ◌==◌, if◌then◌else◌, remove,
}

-- `m_ref` of each object, and whether it still exists. An object with a destroy callback is the
-- callback's from the call of it on, and no longer one that may be referenced.
pub record Heap : Type 0 where
  pub live : ℕ → Bool
  pub ref : ℕ → ℕ

abbrev pub assign_at {ℓ} : {A : Type ℓ} → (ℕ → A) → ℕ → A → ℕ → A
assign_at f p v x = if x == p then v else f x

-- The constructor of `CPPRef`, for an object that `new` has placed at `p`.
unfoldable pub new_object : ℕ → Heap → Heap
new_object p h = record { live = assign_at h.live p true; ref = assign_at h.ref p 1 }

-- `none` is an access to an object that is gone, or the failed assertion of a count of 0.
unfoldable pub retain : ℕ → Heap → Option Heap
retain p h =
    if not (h.live p) || (h.ref p == 0)
    then none
    else some (record h { ref = assign_at h.ref p ((h.ref p + 1) % 2 ^ 32) })

-- The last reference deletes the object.
unfoldable pub release : ℕ → Heap → Option Heap
release p h =
    let ref = assign_at h.ref p ((h.ref p + (2 ^ 32 - 1)) % 2 ^ 32) in
    if not (h.live p)
    then none
    else some
        (record { live = if h.ref p == 1 then assign_at h.live p false else h.live; ref = ref })

-- `if (_p) _p->Retain()` and `if (_p) _p->Release()`.
unfoldable pub retain_pointer : ℕ → Heap → Option Heap
unfolding retain
retain_pointer p h = if p == 0 then some h else retain p h

unfoldable pub release_pointer : ℕ → Heap → Option Heap
unfolding release
release_pointer p h = if p == 0 then some h else release p h

-- The objects, what the pointers hold, and the references that the program holds without one:
-- those of `new` and of calls of `Retain`.
pub record World : Type 0 where
  pub heap : Heap
  pub pointers : List ℕ
  pub owned : List ℕ

-- What the program does with references. `construct p` makes a pointer from a plain one or as the
-- copy of one that holds `p`. `assign i p` is the `operator=` of a plain pointer. `copy_assign i j`
-- assigns the pointer `j` to the pointer `i`: since a template is never the copy assignment, this is
-- not the `operator=` of the class but the implicit one, which copies `_p`.
pub data Op : Type 0 where
  create hold drop_hold construct destroy : ℕ → Op
  construct_null : Op
  assign copy_assign : ℕ → ℕ → Op

abbrev pub at : ℕ → List ℕ → ℕ
at i [] = 0
at zero (x ∷ l) = x
at (suc i) (x ∷ l) = at i l

abbrev pub set : ℕ → ℕ → List ℕ → List ℕ
set i p [] = []
set zero p (x ∷ l) = p ∷ l
set (suc i) p (x ∷ l) = x ∷ set i p l

abbrev pub erase : ℕ → List ℕ → List ℕ
erase i [] = []
erase zero (x ∷ l) = l
erase (suc i) (x ∷ l) = x ∷ erase i l

abbrev pub with_heap : Option Heap → (Heap → Option World) → Option World
with_heap none k = none
with_heap (some h) k = k h

unfoldable pub step : Op → World → Option World
unfolding new_object retain release retain_pointer release_pointer
step (create p) w = some (record w { heap = new_object p w.heap; owned = p ∷ w.owned })
step (hold p) w = with_heap (retain p w.heap) λ h. some (record w { heap = h; owned = p ∷ w.owned })
step (drop_hold p) w =
    with_heap (release p w.heap) λ h. some (record w { heap = h; owned = remove p w.owned })
step (construct p) w =
    with_heap (retain_pointer p w.heap)
      λ h. some (record w { heap = h; pointers = w.pointers ++ (p ∷ []) })
step construct_null w = some (record w { pointers = w.pointers ++ (0 ∷ []) })
step (destroy i) w =
    with_heap (release_pointer (at i w.pointers) w.heap)
      λ h. some (record w { heap = h; pointers = erase i w.pointers })
step (assign i p) w =
    if at i w.pointers == p
    then some w
    else with_heap (retain_pointer p w.heap) λ h.
      with_heap (release_pointer (at i w.pointers) h)
        λ h'. some (record w { heap = h'; pointers = set i p w.pointers })
step (copy_assign i j) w = some (record w { pointers = set i (at j w.pointers) w.pointers })
