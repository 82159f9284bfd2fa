-- ===== src/IoBuffer/Codec.antt =====
-- A type with a `<<` and a `>>`: the interface on which the container overloads of
-- include/net/iobuffer.h stand, and the scalars as an instance of it.
use xhnet.Common.{
  ℕ, ◌^◌, ◌≤◌, ◌<◌, ◌≡◌, sym, ap, ◌∙◌, subst, Bool, List, ◌++◌, arith, leb, le→leb, lt→leb, leb→le,
  length, length-append, take-append, inl, inr, Bool-cases, take,
}
use xhnet.IoBuffer.{ok, Cmd, write_order, read_order}
use xhnet.IoBuffer.Queue.{pending, room, stored, fetched, fetched-IsValid}
use xhnet.IoBuffer.Raw.{write_order_lem, read_order_lem}
use xhnet.IoBuffer.Rules.{IsSafe, Appends, Takes}
use xhnet.IoBuffer.Scalar.{Host, Scalar, sizeof, write_scalar, read_scalar}
use xhnet.IoBuffer.Scalar.Wire.{wire, length-wire}
use xhnet.IoBuffer.Scalar.Laws.{write_scalar_lem, read_scalar_lem, read_scalar-wire}

-- `encoding` is the bytes of a value on the wire, `Fits` the values that can be told apart there.
pub record Codec {ℓ} {A : Type ℓ} (Fits : A → Type 0) (encoding : Bool → A → List ℕ)
    (put : A → Cmd (Unit {0})) (get : Cmd A) : Type ℓ where
  pub appends : (big : Bool) (a : A) → Fits a → Appends big (put a) (encoding big a)
  pub takes : (big : Bool) (a : A) → Fits a → Takes big get a (encoding big a)
  pub safe : IsSafe get

-- The bytes `p` are written whole.
pub write_order-Appends : {big : Bool} (p : List ℕ) → Appends big (write_order p) p
write_order-Appends p = record {
  fits = λ b v e h. write_order_lem v p ∙ (rw (le→leb _ _ h));
  full = λ b v e h. rw (write_order_lem v p, lt→leb _ _ h) v;
}

pub read_order-IsSafe : (n : ℕ) → IsSafe (read_order n)
read_order-IsSafe n = record {
  at = λ b v. rw (read_order_lem v n) (elim (Bool-cases (leb n (length (pending b)))) [
    | inl e ↦ rw e (fetched-IsValid v n (leb→le _ _ e))
    | inr e ↦ rw e v
  ]);
}

pub read_order-Takes : {big : Bool} (p : List ℕ) → Takes big (read_order (length p)) p p
read_order-Takes p = record {
  at = λ b rest v e h.
      let within : length p ≤ length (pending b) =
        omega (arith, ap (length {A = ℕ}) h, length-append p rest) in
      read_order_lem v (length p)
      ∙ rw (le→leb _ _ within)
          (ap (λ l. ok l (fetched (length p) b)) (ap (take (length p)) h ∙ take-append p rest));
}

module _ (h : Host) (t : Scalar) where
  pub write_scalar-Appends :
      (big : Bool) (x : ℕ) → Appends big (write_scalar h t x) (wire big (sizeof h t) x)
  write_scalar-Appends big x = record {
    fits = λ b v e fit.
        let n : sizeof h t ≤ room b = omega (arith, length-wire big (sizeof h t) x) in
        subst (λ k. write_scalar h t x b ≡ ok tt (stored (wire k (sizeof h t) x) b)) e
          (write_scalar_lem v h t x ∙ rw (le→leb _ _ n));
    full = λ b v e fit.
        let n : room b < sizeof h t = omega (arith, length-wire big (sizeof h t) x) in
        rw (write_scalar_lem v h t x, lt→leb _ _ n) v;
  }

  pub read_scalar-Takes :
      (big : Bool) (x : ℕ)
      → x < 256 ^ sizeof h t
      → Takes big (read_scalar h t) x (wire big (sizeof h t) x)
  read_scalar-Takes big x s = record {
    at = λ b rest v e next.
        read_scalar-wire v h t x rest s (next ∙ ap (λ k. wire k (sizeof h t) x ++ rest) (sym e))
        ∙ ap (λ k. ok x (fetched k b)) (sym (length-wire big (sizeof h t) x));
  }

  pub read_scalar-IsSafe : IsSafe (read_scalar h t)
  read_scalar-IsSafe = record {
    at = λ b v.
        rw (read_scalar_lem v h t) (elim (Bool-cases (leb (sizeof h t) (length (pending b)))) [
          | inl e ↦ rw e (fetched-IsValid v _ (leb→le _ _ e))
          | inr e ↦ rw e v
        ]);
  }

-- A scalar that one machine writes and another reads, where both give it the same size.
pub scalar-Codec :
    (h g : Host) (t : Scalar)
    → sizeof h t ≡ sizeof g t
    → Codec
        (λ x. x < 256 ^ sizeof h t)
        (λ big x. wire big (sizeof h t) x)
        (write_scalar h t)
        (read_scalar g t)
scalar-Codec h g t same = record {
  appends = λ big x s. write_scalar-Appends h t big x;
  takes = λ big x s.
      subst (λ n. Takes big (read_scalar g t) x (wire big n x)) (sym same)
        (read_scalar-Takes g t big x (rw same at s));
  safe = read_scalar-IsSafe g t;
}
