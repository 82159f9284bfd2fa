-- ===== src/Utility.antt =====
-- `SplitString` and `StrHash` of source/utility/utility.cpp. A string is the list of its bytes.
pub mod Split
pub mod Hash
pub mod Uint
pub mod Dates
mod Runs
use Prim.Native.Nat.{bit_and}
use xhnet.Common.{
  ℕ, zero, suc, ◌+◌, ◌-◌, ◌*◌, ◌%◌, ◌^◌, Bool, true, false, ◌&&◌, Option, none, some, List, [], ◌∷◌,
  ◌++◌, ltb, ◌==◌, if◌then◌else◌, length, take, drop,
}

pub is_prefix : List ℕ → List ℕ → Bool
is_prefix [] s = true
is_prefix (x ∷ p) [] = false
is_prefix (x ∷ p) (c ∷ s) = (x == c) && is_prefix p s

-- `std::string::find`: where `p` first stands in a string, `none` for `npos`.
pub find : List ℕ → List ℕ → Option ℕ
unfolding is_prefix
find p [] = if is_prefix p [] then some 0 else none
find p (c ∷ s) =
    let rest = find p s in
    if is_prefix p (c ∷ s) then some 0 else elim rest [ none ↦ none | some n ↦ some (suc n) ]

-- The loop, on fuel: `out` is the list so far and `st` what is left of the string. The last test,
-- `st.length() >= 0`, always holds.
pub split_loop : ℕ → List ℕ → List (List ℕ) → List ℕ → Option (List (List ℕ))
unfolding find
split_loop zero spt out st = none
split_loop (suc fuel) spt out st = elim (find spt st) [
  | none ↦ some (out ++ (st ∷ []))
  | some pos ↦ split_loop fuel spt (out ++ (take pos st ∷ [])) (drop (pos + length spt) st)
]

unfoldable pub split_string : ℕ → List ℕ → List ℕ → Option (List (List ℕ))
unfolding split_loop
split_string fuel str spt = split_loop fuel spt [] str

-- A `char` is signed, and becomes an `unsigned int` in the sum.
abbrev pub extended : ℕ → ℕ
extended c = if ltb c 128 then c else c + (2 ^ 32 - 256)

-- The loop over the string, which ends at a 0.
pub hash_loop : ℕ → List ℕ → ℕ
hash_loop hash [] = hash
hash_loop hash (c ∷ str) =
    let rest = hash_loop ((hash * 131 + extended c) % 2 ^ 32) str in if c == 0 then hash else rest

unfoldable pub str_hash : List ℕ → ℕ
unfolding hash_loop
str_hash str = bit_and (hash_loop 0 str) 0x7FFFFFFF
