-- ===== src/IoBuffer/Vector/Laws.antt =====
-- Containers are read back as they were written, given that their elements are.
use xhnet.Common.{
  ℕ, zero, suc, ◌%◌, ◌^◌, ◌<◌, ◌≡◌, sym, subst, ap, ◌∙◌, Bool, List, [], ◌∷◌, ◌++◌, append-nil,
  append_assoc, arith, length, All,
}
use xhnet.IoBuffer.Queue.{stored-nil}
use xhnet.IoBuffer.{Cmd, ok, pure}
use xhnet.IoBuffer.Rules.{
  IsSafe, Appends, Takes, Appends-then, Takes-bind, Takes-pure, IsSafe-bind, IsSafe-pure,
}
use xhnet.IoBuffer.Codec.{Codec, write_scalar-Appends, read_scalar-Takes, read_scalar-IsSafe}
use xhnet.IoBuffer.Scalar.{Host, unsigned_int}
use xhnet.IoBuffer.Scalar.Wire.{wire}
use xhnet.IoBuffer.Vector.{
  write_all, write_sized, read_all, read_sized, push_back, write_vector, read_vector,
}

pure-Appends : {big : Bool} → Appends big (pure tt) []
pure-Appends = record {
  fits = λ b v e h. ap (ok tt) (sym (stored-nil b));
  full = λ b v e h. absurd (omega arith);
}

module _ {A : Type 0} where
  abbrev pub FitsAll : (A → Type 0) → List A → Type 0
  FitsAll Fits xs = All Fits xs × (length xs < 2 ^ 32)

  abbrev pub all_bytes : (Bool → A → List ℕ) → Bool → List A → List ℕ
  all_bytes encoding big [] = []
  all_bytes encoding big (x ∷ xs) = encoding big x ++ all_bytes encoding big xs

  -- The number of elements in 4 bytes, and the elements.
  abbrev pub sized_bytes : (Bool → A → List ℕ) → Bool → List A → List ℕ
  sized_bytes encoding big xs = wire big 4 (length xs) ++ all_bytes encoding big xs

  -- What the loop of insertions makes of `out`.
  unfoldable pub inserted : {C : Type 0} → (C → A → C) → C → List A → C
  inserted insert out [] = out
  inserted insert out (x ∷ xs) = inserted insert (insert out x) xs

  module _ {Fits : A → Type 0} {encoding : Bool → A → List ℕ} {put : A → Cmd (Unit {0})}
      {get : Cmd A} (c : Codec Fits encoding put get) (h g : Host) where
    write_all-Appends :
        (big : Bool) (xs : List A)
        → All Fits xs
        → Appends big (write_all put xs) (all_bytes encoding big xs)
    unfolding write_all
    write_all-Appends big [] f = pure-Appends
    write_all-Appends big (x ∷ xs) (fx, fs) =
        Appends-then _ _ (c.appends big x fx) (write_all-Appends big xs fs)

    pub write_sized-Appends :
        (big : Bool) (xs : List A)
        → FitsAll Fits xs
        → Appends big (write_sized h put xs) (sized_bytes encoding big xs)
    unfolding write_sized
    write_sized-Appends big xs (fs, small) =
        let wrap : length xs % 2 ^ 32 ≡ length xs = omega arith in
        rw wrap (
          Appends-then _ _ (write_scalar-Appends h unsigned_int big (length xs))
            (write_all-Appends big xs fs))

    module _ {C : Type 0} (insert : C → A → C) where
      read_all-Takes :
          (big : Bool) (xs : List A) (out : C)
          → All Fits xs
          → Takes big
              (read_all insert get (length xs) out)
              (inserted insert out xs)
              (all_bytes encoding big xs)
      unfolding read_all inserted
      read_all-Takes big [] out f = Takes-pure out
      read_all-Takes big (x ∷ xs) out (fx, fs) =
          Takes-bind _ _ (c.takes big x fx) (read_all-Takes big xs (insert out x) fs)

      pub read_sized-Takes :
          (big : Bool) (xs : List A) (out : C)
          → FitsAll Fits xs
          → Takes big
              (read_sized g insert get out)
              (inserted insert out xs)
              (sized_bytes encoding big xs)
      unfolding read_sized
      read_sized-Takes big xs out (fs, small) =
          Takes-bind _ _ (read_scalar-Takes g unsigned_int big (length xs) (omega arith))
            (read_all-Takes big xs out fs)

      read_all-IsSafe : (n : ℕ) (out : C) → IsSafe (read_all insert get n out)
      unfolding read_all
      read_all-IsSafe zero out = IsSafe-pure out
      read_all-IsSafe (suc n) out = IsSafe-bind get _ c.safe λ t. read_all-IsSafe n (insert out t)

      pub read_sized-IsSafe : (out : C) → IsSafe (read_sized g insert get out)
      unfolding read_sized
      read_sized-IsSafe out =
          IsSafe-bind _ _ (read_scalar-IsSafe g unsigned_int) λ n. read_all-IsSafe n out

    inserted-push_back : (out xs : List A) → inserted push_back out xs ≡ out ++ xs
    unfolding inserted
    inserted-push_back out [] = sym (append-nil out)
    inserted-push_back out (x ∷ xs) =
        inserted-push_back (push_back out x) xs ∙ append_assoc out (x ∷ []) xs

    -- A vector of elements that are read back is read back, by any machine.
    pub vector-Codec :
        Codec (FitsAll Fits) (sized_bytes encoding) (write_vector h put) (read_vector g get)
    unfolding write_vector read_vector
    vector-Codec = record {
      appends = λ big xs f. write_sized-Appends big xs f;
      takes = λ big xs f.
          subst (λ a. Takes big (read_sized g push_back get []) a (sized_bytes encoding big xs))
            (inserted-push_back [] xs) (read_sized-Takes push_back big xs [] f);
      safe = read_sized-IsSafe push_back [];
    }
