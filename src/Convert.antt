-- ===== src/Convert.antt =====
-- mongo/convert.rs: reading a value at a dotted path, and the base64 of binary values.
pub mod Scalars
pub mod Columns
pub mod Rows
pub mod Types
pub mod Buildable
pub mod Failures
pub mod Digits
pub mod Printed
pub mod Toy
mod Tests
use auger.Base.{
  ℕ, zero, suc, ◌+◌, ◌*◌, ◌/◌, ◌%◌, ◌^◌, Bool, true, false, List, [], ◌∷◌, Option, none, some, ◌≡◌,
  refl, Text, codes, if◌then◌else◌, ◌==◌, get_elem?, length, arith, ◌>>=◌,
}
use auger.Bson.{Bson, Document, get}

abbrev put_char : ℕ → List Text → List Text
put_char c [] = (c ∷ []) ∷ []
put_char c (p ∷ ps) = (c ∷ p) ∷ ps

-- `path.split('.')`, which is never empty.
unfoldable pub split_path : Text → List Text
split_path [] = [] ∷ []
split_path (c ∷ s) = let rest = split_path s in if c == b'.' then [] ∷ rest else put_char c rest

unfoldable pub walk : Bson → List Text → Option Bson
walk current [] = some current
walk (Bson.document inner) (part ∷ parts) = elim (get inner part) [
  | none ↦ none
  | some v ↦ walk v parts
]
walk current (part ∷ parts) = none

unfoldable pub lookup_path : Document → Text → Option Bson
unfolding split_path walk
lookup_path doc path = elim (split_path path) [
  | [] ↦ none
  | first ∷ parts ↦ get doc first >>= λ v. walk v parts
]

-- `is_null`
unfoldable pub is_null : Option Bson → Bool
is_null none = true
is_null (some Bson.null) = true
is_null (some Bson.undefined) = true
is_null (some v) = false

abbrev pub alphabet : Text
alphabet = codes "ABCDEFGHIJKLMNOPQRSTUVWXYZabcdefghijklmnopqrstuvwxyz0123456789+/"

-- The index is below 64, as `& 63` leaves it.
unfoldable pub letter : ℕ → ℕ
letter n = elim (get_elem? alphabet (n % 64)) [ none ↦ 0 | some c ↦ c ]

-- The three bytes of a chunk; disjoint bits, so that `|` is addition.
abbrev pub chunk : ℕ → ℕ → ℕ → ℕ
chunk a b c = a * 2 ^ 16 + b * 2 ^ 8 + c

unfoldable pub encode : List ℕ → Text
unfolding letter
encode [] = []
encode (a ∷ []) =
    let n = chunk a 0 0 in letter (n / 2 ^ 18) ∷ letter (n / 2 ^ 12) ∷ b'=' ∷ b'=' ∷ []
encode (a ∷ b ∷ []) =
    let n = chunk a b 0 in
    letter (n / 2 ^ 18) ∷ letter (n / 2 ^ 12) ∷ letter (n / 2 ^ 6) ∷ b'=' ∷ []
encode (a ∷ b ∷ c ∷ rest) =
    let n = chunk a b c in
    let more = encode rest in
    letter (n / 2 ^ 18) ∷ letter (n / 2 ^ 12) ∷ letter (n / 2 ^ 6) ∷ letter n ∷ more

-- Base64 has four characters for each three bytes, the last ones padded: the capacity that is reserved is
-- the length.
pub length-encode : (bytes : List ℕ) → length (encode bytes) ≡ (length bytes + 2) / 3 * 4
unfolding encode
length-encode [] = refl
length-encode (a ∷ []) = refl
length-encode (a ∷ b ∷ []) = refl
length-encode (a ∷ b ∷ c ∷ rest) = omega (arith, length-encode rest)
