-- ===== src/IoBuffer/Vector/Ordered.antt =====
-- Sets and maps, whose elements are read back in the order in which they were written.
use xhnet.Common.{
  ℕ, ◌≡◌, refl, sym, subst, ap, ◌∙◌, Bool, true, false, List, [], ◌∷◌, ◌++◌, append-nil,
  append_assoc, All,
}
use xhnet.IoBuffer.{Cmd, pure, ◌>>=◌}
use xhnet.IoBuffer.Rules.{Takes, Appends-then, Takes-bind, Takes-pure, IsSafe-bind, IsSafe-pure}
use xhnet.IoBuffer.Codec.{Codec}
use xhnet.IoBuffer.Scalar.{Host}
use xhnet.IoBuffer.Vector.{
  read_sized, insert_set, write_set, read_set, write_pair, read_pair, less_key, write_map, read_map,
}
use xhnet.IoBuffer.Vector.Laws.{
  FitsAll, sized_bytes, inserted, write_sized-Appends, read_sized-Takes, read_sized-IsSafe,
}

-- No two keys come before each other.
abbrev pub IsAsymmetric : {A : Type 0} → (A → A → Bool) → Type 0
IsAsymmetric {A} less = (a b : A) → less a b ≡ true → less b a ≡ false

-- Every element comes before all that follow it, as in a `std::set`.
abbrev pub IsOrdered : {A : Type 0} → (A → A → Bool) → List A → Type 0
IsOrdered less [] = Unit
IsOrdered less (x ∷ xs) = All (λ y. less x y ≡ true) xs × IsOrdered less xs

module _ {A : Type 0} (less : A → A → Bool) (asym : IsAsymmetric less) where
  All-at : (P : A → Type 0) (out : List A) (x : A) (xs : List A) → All P (out ++ (x ∷ xs)) → P x
  All-at P [] x xs h = h.0
  All-at P (y ∷ out) x xs h = All-at P out x xs h.1

  IsOrdered-before :
      (out : List A) (x : A) (xs : List A)
      → IsOrdered less (out ++ (x ∷ xs))
      → All (λ y. less y x ≡ true) out
  IsOrdered-before [] x xs h = tt
  IsOrdered-before (y ∷ out) x xs (hy, ho) =
      (All-at (λ z. less y z ≡ true) out x xs hy, IsOrdered-before out x xs ho)

  insert_set-last :
      (out : List A) (t : A)
      → All (λ y. less y t ≡ true) out
      → insert_set less out t ≡ out ++ (t ∷ [])
  unfolding insert_set
  insert_set-last [] t h = refl
  insert_set-last (x ∷ out) t (hx, ho) =
      rw (asym x t hx, hx) (ap (λ l. x ∷ l) (insert_set-last out t ho))

  inserted-insert_set :
      (out xs : List A) → IsOrdered less (out ++ xs) → inserted (insert_set less) out xs ≡ out ++ xs
  unfolding inserted
  inserted-insert_set out [] h = sym (append-nil out)
  inserted-insert_set out (x ∷ xs) h =
      let regroup = append_assoc out (x ∷ []) xs in
      rw (insert_set-last out x (IsOrdered-before out x xs h)) (
        inserted-insert_set (out ++ (x ∷ [])) xs (subst (IsOrdered less) (sym regroup) h) ∙ regroup)

  module _ {Fits : A → Type 0} {encoding : Bool → A → List ℕ} {put : A → Cmd (Unit {0})}
      {get : Cmd A} (c : Codec Fits encoding put get) (h g : Host) where
    -- A set of elements that are read back is read back.
    pub set-Codec :
        Codec
          (λ xs. FitsAll Fits xs × IsOrdered less xs)
          (sized_bytes encoding)
          (write_set h put)
          (read_set less g get)
    unfolding write_set read_set
    set-Codec = record {
      appends = λ big xs f. write_sized-Appends c h g big xs f.0;
      takes = λ big xs f.
          subst
            (λ a. Takes big (read_sized g (insert_set less) get []) a (sized_bytes encoding big xs))
            (inserted-insert_set [] xs f.1)
            (read_sized-Takes c h g (insert_set less) big xs [] f.0);
      safe = read_sized-IsSafe c h g (insert_set less) [];
    }

module _ {K V : Type 0} where
  abbrev pub pair_bytes : (Bool → K → List ℕ) → (Bool → V → List ℕ) → Bool → K × V → List ℕ
  pair_bytes key value big (k, v) = key big k ++ value big v

  abbrev pub FitsPair : (K → Type 0) → (V → Type 0) → K × V → Type 0
  FitsPair key value (k, v) = key k × value v

module _ {K V : Type 0} {FitsK : K → Type 0} {FitsV : V → Type 0} {encK : Bool → K → List ℕ}
    {encV : Bool → V → List ℕ} {putK : K → Cmd (Unit {0})} {putV : V → Cmd (Unit {0})}
    {getK : Cmd K} {getV : Cmd V} (ck : Codec FitsK encK putK getK)
    (cv : Codec FitsV encV putV getV) where
  pair-Codec :
      Codec
        (FitsPair FitsK FitsV)
        (pair_bytes encK encV)
        (write_pair putK putV)
        (read_pair getK getV)
  pair-Codec = record {
    appends = λ big (k, v) (fk, fv). Appends-then _ _ (ck.appends big k fk) (cv.appends big v fv);
    takes = λ big (k, v) (fk, fv). Takes-bind _ _ (ck.takes big k fk) (
        subst (Takes big (getV >>= λ w. pure (k, w)) (k, v)) (append-nil (encV big v))
          (Takes-bind _ _ (cv.takes big v fv) (Takes-pure (k, v))));
    safe = IsSafe-bind _ _ ck.safe λ k. IsSafe-bind _ _ cv.safe λ v. IsSafe-pure (k, v);
  }

  -- A map whose keys and values are read back is read back.
  pub map-Codec :
      (less : K → K → Bool)
      → IsAsymmetric less
      → (h g : Host)
      → Codec
          (λ m. FitsAll (FitsPair FitsK FitsV) m × IsOrdered (less_key less) m)
          (sized_bytes (pair_bytes encK encV))
          (write_map h putK putV)
          (read_map less g getK getV)
  unfolding write_map read_map
  map-Codec less asym h g =
      unfold write_set read_set in set-Codec (less_key less) (λ p q. asym p.0 q.0) pair-Codec h g
