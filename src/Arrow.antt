-- ===== src/Arrow.antt =====
-- Arrow's types, fields and schemas, as the crate `arrow` hands them to the gateway. Metadata is an
-- association list; `get_meta` and `with_meta` are `HashMap::get` and `HashMap::insert`.
pub mod Array
use auger.Base.{ℕ, Text, List, [], ◌∷◌, Option, none, some, Bool, if◌then◌else◌, text_eq, ◌≡◌, refl}
use auger.Base.{arith, text_eq_iff}
use auger.Base.Int.{ℤ}

pub data TimeUnit : Type 0 where
  second millisecond microsecond nanosecond : TimeUnit

abbrev pub Meta : Type 0
Meta = List (Text × Text)

mutual
  pub data DataType : Type 0 where
    null boolean : DataType
    int8 int16 int32 int64 uint8 uint16 uint32 uint64 : DataType
    float16 float32 float64 : DataType
    utf8 large_utf8 utf8_view : DataType
    binary large_binary binary_view : DataType
    date32 date64 : DataType
    timestamp : TimeUnit → Option Text → DataType
    decimal128 decimal256 : ℕ → ℤ → DataType
    struct : Fields → DataType
    list : Field → DataType
    other : ℕ → DataType

  pub data Field : Type 0 where
    field : Text → DataType → Bool → List (Text × Text) → Field

  pub data Fields : Type 0 where
    nil : Fields
    cons : Field → Fields → Fields

abbrev pub name_of : Field → Text
name_of (field n t b m) = n

abbrev pub data_type : Field → DataType
data_type (field n t b m) = t

abbrev pub is_nullable : Field → Bool
is_nullable (field n t b m) = b

abbrev pub metadata : Field → Meta
metadata (field n t b m) = m

abbrev pub fields_of : List Field → Fields
fields_of [] = nil
fields_of (f ∷ fs) = cons f (fields_of fs)

abbrev pub field_list : Fields → List Field
field_list nil = []
field_list (cons f fs) = f ∷ field_list fs

-- A schema is its fields; schema-level metadata is empty throughout the program.
abbrev pub Schema : Type 0
Schema = List Field

unfoldable pub get_meta : Meta → Text → Option Text
get_meta [] k = none
get_meta ((j, v) ∷ m) k = if text_eq j k then some v else get_meta m k

unfoldable pub with_meta : Meta → Text → Text → Meta
with_meta [] k v = (k, v) ∷ []
with_meta ((j, w) ∷ m) k v = if text_eq j k then (k, v) ∷ m else (j, w) ∷ with_meta m k v

pub get_meta-with_meta :
    (m : Meta) (k j v : Text)
    → get_meta (with_meta m k v) j ≡ (if text_eq k j then some v else get_meta m j)
unfolding get_meta with_meta
get_meta-with_meta [] k j v = refl
get_meta-with_meta ((i, w) ∷ m) k j v =
    ground (arith, text_eq_iff k j, text_eq_iff i k, text_eq_iff i j, get_meta-with_meta m k j v)

-- `schema.field_with_name(name)` and `fields.find(name)`: the first field of that name.
unfoldable pub find : List Field → Text → Option Field
find [] k = none
find (f ∷ fs) k = if text_eq (name_of f) k then some f else find fs k
