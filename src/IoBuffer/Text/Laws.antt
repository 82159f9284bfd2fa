-- ===== src/IoBuffer/Text/Laws.antt =====
-- Strings are read back as they were written, and no input makes a read of a string leave the
-- memory.
use xhnet.Common.{
  ℕ, ◌%◌, ◌^◌, ◌<◌, ◌≡◌, refl, sym, subst, Bool, false, some, List, [], ◌∷◌, ◌++◌, append_assoc,
  arith, ltb, lt→leb, if◌then◌else◌, length, All, take-append, inl, inr, Bool-cases,
}
use xhnet.IoBuffer.{Cmd, read_order}
use xhnet.IoBuffer.Rules.{IsSafe, Appends, Takes, Appends-then, Takes-bind, IsSafe-bind, IsSafe-if}
use xhnet.IoBuffer.Codec.{
  Codec, write_order-Appends, read_order-IsSafe, read_order-Takes, write_scalar-Appends,
  read_scalar-Takes, read_scalar-IsSafe,
}
use xhnet.IoBuffer.Scalar.{Host, unsigned_char, unsigned_short, unsigned_int, read_scalar}
use xhnet.IoBuffer.Scalar.Wire.{wire}
use xhnet.IoBuffer.Text.{strlen, write_length, write_string, read_length, read_string}

-- A string that C can hold: no character is 0, and an `int` counts them.
abbrev pub IsText : List ℕ → Type 0
IsText s = All (λ c. 0 < c) s × (length s < 2 ^ 31)

-- The length takes 1, 3 or 7 bytes.
abbrev pub length_bytes : Bool → ℕ → List ℕ
length_bytes big n =
    if ltb n 0xff
    then wire big 1 n
    else if ltb n 0xffff
    then wire big 1 0xff ++ wire big 2 n
    else wire big 1 0xff ++ (wire big 2 0xffff ++ wire big 4 n)

abbrev pub text_bytes : Bool → List ℕ → List ℕ
text_bytes big s = length_bytes big (length s) ++ s

strlen_lem : (s : List ℕ) → All (λ c. 0 < c) s → strlen (s ++ (0 ∷ [])) ≡ some (length s)
unfolding strlen
strlen_lem [] h = refl
strlen_lem (c ∷ s) h = ground (arith, strlen_lem s)

pub regroup : (p q r s : List ℕ) → p ++ (q ++ (r ++ s)) ≡ (p ++ (q ++ r)) ++ s
regroup p q r s = simp append_assoc

module _ (h : Host) (big : Bool) where
  write_length-Appends : (n : ℕ) → n < 2 ^ 31 → Appends big (write_length h n) (length_bytes big n)
  unfolding write_length
  write_length-Appends n small = rw (lt→leb (2 ^ 31) n small) (elim (Bool-cases (ltb n 0xff)) [
    | inl one ↦ rw one (write_scalar-Appends h unsigned_char big n)
    | inr more ↦ rw more (elim (Bool-cases (ltb n 0xffff)) [
      | inl two ↦ rw two (
          Appends-then _ _ (write_scalar-Appends h unsigned_char big 0xff)
            (write_scalar-Appends h unsigned_short big n))
      | inr four ↦ rw four (
          Appends-then _ _ (write_scalar-Appends h unsigned_char big 0xff) (
            Appends-then _ _ (write_scalar-Appends h unsigned_short big 0xffff)
              (write_scalar-Appends h unsigned_int big n)))
    ])
  ])

  write_string-Appends : (s : List ℕ) → IsText s → Appends big (write_string h s) (text_bytes big s)
  unfolding write_string
  write_string-Appends s (chars, small) =
      let wrap : length s % 2 ^ 32 ≡ length s = omega arith in
      rw (strlen_lem s chars, wrap, take-append s (0 ∷ []))
        (Appends-then _ _ (write_length-Appends (length s) small) (write_order-Appends s))

  module _ {A : Type 0} (k : ℕ → ℕ → Cmd A) where
    read_length-Takes :
        (n : ℕ) {a : A} {p : List ℕ}
        → n < 2 ^ 32
        → ((taken : ℕ) → Takes big (k taken n) a p)
        → Takes big (read_length h k) a (length_bytes big n ++ p)
    unfolding read_length
    read_length-Takes n {a} {p} small tk = elim (Bool-cases (ltb n 0xff)) [
      | inl one ↦ rw one (Takes-bind _ _ (first n (ground arith)) (rw one (tk 1)))
      | inr more ↦ rw more (elim (Bool-cases (ltb n 0xffff)) [
        | inl two ↦ rw two (
            subst (Takes big (read_length h k) a) (sym (append_assoc mark (wire big 2 n) p)) (
              Takes-bind _ _ (first 0xff (omega arith))
                (Takes-bind _ _ (second n (ground arith)) (rw two (tk 3)))))
        | inr four ↦ rw four (
            subst (Takes big (read_length h k) a)
              (regroup mark (wire big 2 0xffff) (wire big 4 n) p)
              (Takes-bind _ _ (first 0xff (omega arith)) (
                Takes-bind _ _ (second 0xffff (omega arith))
                  (Takes-bind _ _ (third n small) (tk 7)))))
      ])
    ]
      where
        mark : List ℕ
        mark = wire big 1 0xff

        first : (x : ℕ) → x < 256 ^ 1 → Takes big (read_scalar h unsigned_char) x (wire big 1 x)
        first = read_scalar-Takes h unsigned_char big

        second : (x : ℕ) → x < 256 ^ 2 → Takes big (read_scalar h unsigned_short) x (wire big 2 x)
        second = read_scalar-Takes h unsigned_short big

        third : (x : ℕ) → x < 256 ^ 4 → Takes big (read_scalar h unsigned_int) x (wire big 4 x)
        third = read_scalar-Takes h unsigned_int big

    read_length-IsSafe : ((taken n : ℕ) → IsSafe (k taken n)) → IsSafe (read_length h k)
    unfolding read_length
    read_length-IsSafe sk = IsSafe-bind _ _ (read_scalar-IsSafe h unsigned_char) λ blen.
        IsSafe-if (ltb blen 0xff) (sk 1 blen) (
          IsSafe-bind _ _ (read_scalar-IsSafe h unsigned_short) λ wlen.
            IsSafe-if (ltb wlen 0xffff) (sk 3 wlen)
              (IsSafe-bind _ _ (read_scalar-IsSafe h unsigned_int) (sk 7)))

  read_string-Takes :
      (s : List ℕ) → length s < 2 ^ 32 → Takes big (read_string h) s (text_bytes big s)
  unfolding read_string
  read_string-Takes s small =
      read_length-Takes (λ _ len. read_order len) (length s) small λ _. read_order-Takes s

pub read_string-IsSafe : (h : Host) → IsSafe (read_string h)
unfolding read_string
read_string-IsSafe h = read_length-IsSafe h false (λ _ len. read_order len) λ _. read_order-IsSafe

-- A string that one machine writes and another reads.
pub string-Codec : (h g : Host) → Codec IsText text_bytes (write_string h) (read_string g)
string-Codec h g = record {
  appends = λ big s t. write_string-Appends h big s t;
  takes = λ big s t. read_string-Takes g big s (omega (arith, t.1));
  safe = read_string-IsSafe g;
}
