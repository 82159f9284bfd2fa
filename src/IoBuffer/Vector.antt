-- ===== src/IoBuffer/Vector.antt =====
-- The overloads of `<<` and `>>` of include/net/iobuffer.h for `std::vector`, `std::set` and
-- `std::map`. A set is the list of its elements and a map that of its pairs, in the order of the
-- keys, which is the order of their iterators; `less` is the order of the keys.
pub mod Laws
pub mod Ordered
use xhnet.Common.{ℕ, zero, suc, ◌%◌, ◌^◌, Bool, List, [], ◌∷◌, ◌++◌, if◌then◌else◌, length}
use xhnet.IoBuffer.{Cmd, pure, ◌>>=◌, ◌>>◌}
use xhnet.IoBuffer.Scalar.{Host, unsigned_int, write_scalar, read_scalar}

module _ {A : Type 0} where
  -- The loop over the elements, the number of them in front.
  pub write_all : (A → Cmd (Unit {0})) → List A → Cmd (Unit {0})
  write_all put [] = pure tt
  write_all put (x ∷ xs) = put x >> write_all put xs

  pub write_sized : Host → (A → Cmd (Unit {0})) → List A → Cmd (Unit {0})
  unfolding write_all
  write_sized h put xs = write_scalar h unsigned_int (length xs % 2 ^ 32) >> write_all put xs

  -- The loop that reads `n` elements and puts each into `out`.
  pub read_all : {C : Type 0} → (C → A → C) → Cmd A → ℕ → C → Cmd C
  read_all insert get zero out = pure out
  read_all insert get (suc n) out = get >>= λ t. read_all insert get n (insert out t)

  pub read_sized : {C : Type 0} → Host → (C → A → C) → Cmd A → C → Cmd C
  unfolding read_all
  read_sized h insert get out = read_scalar h unsigned_int >>= λ lth. read_all insert get lth out

  abbrev pub push_back : List A → A → List A
  push_back out t = out ++ (t ∷ [])

  unfoldable pub write_vector : Host → (A → Cmd (Unit {0})) → List A → Cmd (Unit {0})
  unfolding write_sized
  write_vector h put xs = write_sized h put xs

  unfoldable pub read_vector : Host → Cmd A → Cmd (List A)
  unfolding read_sized
  read_vector h get = read_sized h push_back get []

  module _ (less : A → A → Bool) where
    -- `std::set::insert`: an element that is there stays.
    pub insert_set : List A → A → List A
    insert_set [] t = t ∷ []
    insert_set (x ∷ xs) t =
        let rest = insert_set xs t in
        if less t x then t ∷ x ∷ xs else if less x t then x ∷ rest else x ∷ xs

    unfoldable pub read_set : Host → Cmd A → Cmd (List A)
    unfolding read_sized insert_set
    read_set h get = read_sized h insert_set get []

  unfoldable pub write_set : Host → (A → Cmd (Unit {0})) → List A → Cmd (Unit {0})
  unfolding write_sized
  write_set h put xs = write_sized h put xs

module _ {K V : Type 0} where
  abbrev pub write_pair : (K → Cmd (Unit {0})) → (V → Cmd (Unit {0})) → K × V → Cmd (Unit {0})
  write_pair put_key put_value (k, v) = put_key k >> put_value v

  abbrev pub read_pair : Cmd K → Cmd V → Cmd (K × V)
  read_pair get_key get_value = get_key >>= λ k. get_value >>= λ v. pure (k, v)

  -- `std::map::insert` looks at the keys alone, so it is the insertion of a set of pairs.
  abbrev pub less_key : (K → K → Bool) → K × V → K × V → Bool
  less_key less (j, v) (k, w) = less j k

  unfoldable pub write_map :
      Host → (K → Cmd (Unit {0})) → (V → Cmd (Unit {0})) → List (K × V) → Cmd (Unit {0})
  unfolding write_sized
  write_map h put_key put_value m = write_sized h (write_pair put_key put_value) m

  unfoldable pub read_map : (K → K → Bool) → Host → Cmd K → Cmd V → Cmd (List (K × V))
  unfolding read_sized insert_set
  read_map less h get_key get_value =
      read_sized h (insert_set (less_key less)) (read_pair get_key get_value) []
