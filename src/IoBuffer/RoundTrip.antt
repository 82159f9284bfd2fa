-- ===== src/IoBuffer/RoundTrip.antt =====
-- What is written to an empty queue is read back, by the overloads of `<<` and `>>` of
-- include/net/iobuffer.h, and a read of any input stays in the memory.
use xhnet.Common.{
  ℕ, ◌^◌, ◌≤◌, ◌<◌, ◌≡◌, refl, sym, ap, ◌∙◌, Bool, List, [], ◌++◌, append-nil, length,
}
use xhnet.IoBuffer.{IoBuffer, ok, Cmd, ◌>>◌}
use xhnet.IoBuffer.Queue.{IsValid, pending, room, stored, fetched, stored-IsValid, pending-stored}
use xhnet.IoBuffer.Rules.{Safe}
use xhnet.IoBuffer.Codec.{Codec, scalar-Codec}
use xhnet.IoBuffer.Scalar.{Host, Scalar, sizeof, write_scalar, read_scalar}
use xhnet.IoBuffer.Scalar.Wire.{wire}
use xhnet.IoBuffer.Text.{write_string, read_string}
use xhnet.IoBuffer.Text.Laws.{IsText, text_bytes, read_string-IsSafe, string-Codec}
use xhnet.IoBuffer.Vector.{
  write_vector, read_vector, write_set, read_set, write_map, read_map, less_key,
}
use xhnet.IoBuffer.Vector.Laws.{FitsAll, sized_bytes, vector-Codec}
use xhnet.IoBuffer.Vector.Ordered.{
  IsAsymmetric, IsOrdered, FitsPair, pair_bytes, set-Codec, map-Codec,
}

-- The buffer after `p` has been written and read again.
abbrev pub passed : List ℕ → IoBuffer → IoBuffer
passed p b = fetched (length p) (stored p b)

-- A buffer with nothing to read and room for `p`.
pub record IsReady (p : List ℕ) (b : IoBuffer) : Type 0 where
  pub valid : IsValid b
  pub empty : pending b ≡ []
  pub enough : length p ≤ room b

module _ {ℓ} {A : Type ℓ} {Fits : A → Type 0} {encoding : Bool → A → List ℕ}
    {put : A → Cmd (Unit {0})} {get : Cmd A} (c : Codec Fits encoding put get) where
  round_trip :
      (a : A) {b : IoBuffer}
      → Fits a
      → IsReady (encoding b.biged a) b
      → (put a >> get) b ≡ ok a (passed (encoding b.biged a) b)
  round_trip a {b} f r =
      let p = encoding b.biged a in
      let next : pending (stored p b) ≡ p ++ [] =
        pending-stored r.valid p r.enough ∙ ap (λ l. l ++ p) r.empty ∙ sym (append-nil p) in
      rw ((c.appends b.biged a f).fits b r.valid refl r.enough)
        ((c.takes b.biged a f).at (stored p b) [] (stored-IsValid r.valid p r.enough) refl next)

-- A scalar that fits its type, written to a valid buffer with nothing to read and room for it, is
-- read back, between any two machines that give its type the same size.
pub scalar_round_trip :
    (h g : Host) (t : Scalar) (x : ℕ) {b : IoBuffer}
    → sizeof h t ≡ sizeof g t
    → x < 256 ^ sizeof h t
    → IsReady (wire b.biged (sizeof h t) x) b
    → (write_scalar h t x >> read_scalar g t) b ≡ ok x (passed (wire b.biged (sizeof h t) x) b)
scalar_round_trip h g t x same = round_trip (scalar-Codec h g t same) x

-- A string without a 0 and shorter than 2 ^ 31, written to a valid buffer with nothing to read and
-- room for its bytes, is read back, between any two machines.
pub string_round_trip :
    (h g : Host) (s : List ℕ) {b : IoBuffer}
    → IsText s
    → IsReady (text_bytes b.biged s) b
    → (write_string h s >> read_string g) b ≡ ok s (passed (text_bytes b.biged s) b)
string_round_trip h g = round_trip (string-Codec h g)

-- On a valid buffer, whatever its bytes, a read of a string stays in the memory and leaves a valid
-- buffer, also when it throws.
pub read_string-Safe : (h : Host) {b : IoBuffer} → IsValid b → Safe (read_string h b)
read_string-Safe h {b} = (read_string-IsSafe h).at b

module _ {A : Type 0} {Fits : A → Type 0} {encoding : Bool → A → List ℕ} {put : A → Cmd (Unit {0})}
    {get : Cmd A} (c : Codec Fits encoding put get) (h g : Host) where
  -- A vector of fewer than 2 ^ 32 elements that pass between two machines, written to a valid
  -- buffer with nothing to read and room for its bytes, is read back.
  pub vector_round_trip :
      (xs : List A) {b : IoBuffer}
      → FitsAll Fits xs
      → IsReady (sized_bytes encoding b.biged xs) b
      → (write_vector h put xs >> read_vector g get) b
        ≡ ok xs (passed (sized_bytes encoding b.biged xs) b)
  vector_round_trip = round_trip (vector-Codec c h g)

  -- On a valid buffer, whatever its bytes, a read of a vector of elements that pass between two
  -- machines stays in the memory and leaves a valid buffer, also when it throws.
  pub read_vector-Safe : {b : IoBuffer} → IsValid b → Safe (read_vector g get b)
  read_vector-Safe {b} = (vector-Codec c h g).safe.at b

  -- A set of fewer than 2 ^ 32 elements that pass between two machines, in an asymmetric order,
  -- written to a valid buffer with nothing to read and room for its bytes, is read back.
  pub set_round_trip :
      (less : A → A → Bool) (xs : List A) {b : IoBuffer}
      → IsAsymmetric less
      → FitsAll Fits xs
      → IsOrdered less xs
      → IsReady (sized_bytes encoding b.biged xs) b
      → (write_set h put xs >> read_set less g get) b
        ≡ ok xs (passed (sized_bytes encoding b.biged xs) b)
  set_round_trip less xs asym f o = round_trip (set-Codec less asym c h g) xs (f, o)

module _ {K V : Type 0} {FitsK : K → Type 0} {FitsV : V → Type 0} {encK : Bool → K → List ℕ}
    {encV : Bool → V → List ℕ} {putK : K → Cmd (Unit {0})} {putV : V → Cmd (Unit {0})}
    {getK : Cmd K} {getV : Cmd V} (ck : Codec FitsK encK putK getK)
    (cv : Codec FitsV encV putV getV) (h g : Host) where
  -- A map of fewer than 2 ^ 32 entries, whose keys and values pass between two machines and whose
  -- keys are in an asymmetric order, written to a valid buffer with nothing to read and room for
  -- its bytes, is read back.
  pub map_round_trip :
      (less : K → K → Bool) (m : List (K × V)) {b : IoBuffer}
      → IsAsymmetric less
      → FitsAll (FitsPair FitsK FitsV) m
      → IsOrdered (less_key less) m
      → IsReady (sized_bytes (pair_bytes encK encV) b.biged m) b
      → (write_map h putK putV m >> read_map less g getK getV) b
        ≡ ok m (passed (sized_bytes (pair_bytes encK encV) b.biged m) b)
  map_round_trip less m asym f o = round_trip (map-Codec ck cv less asym h g) m (f, o)
