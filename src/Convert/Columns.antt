-- ===== src/Convert/Columns.antt =====
-- mongo/convert.rs: columns, which are built one at a time from the values of all documents.
use auger.Base.{
  ℕ, ◌+◌, ◌^◌, Bool, true, false, List, [], ◌∷◌, ◌++◌, map, Option, none, some, Text, codes,
  if◌then◌else◌, ltb, length, ◌≡◌,
}
use auger.Base.Int.{ℤ}
use auger.Base.Results.{ok, err, ◌>>=◌, ok_injective, err-ne-ok}
use auger.Errors.{DataFusionError, Result}
use auger.Bson.{Bson, Document, get, item_list}
use auger.Arrow.{DataType, TimeUnit, Field, Fields, field, name_of, Schema}
use auger.Arrow.Array.{Array, Columns, Checks}
use auger.Infer.Tag.{BsonTag, tag_of, field_path}
use auger.Convert.{lookup_path, is_null}
use auger.Convert.Scalars.{
  Values, as_boolean, as_i32, as_i64, as_f64, as_bytes, as_millis, as_decimal, render_text,
}

-- What the loop over the rows of a list column gathers; `offsets` without the 0 it starts from.
pub record Gathered : Type 0 where
  pub flat : List (Option Bson)
  pub offsets : List ℕ
  pub valid : List Bool

-- The elements of one row: a scalar stands for a list of itself.
unfoldable pub row_items : Option Bson → List (Option Bson)
unfolding is_null
row_items (some (Bson.array xs)) = map some (item_list xs)
row_items v = if is_null v then [] else v ∷ []

unfoldable pub is_list_row : Option Bson → Bool
unfolding is_null
is_list_row (some (Bson.array xs)) = true
is_list_row v = if is_null v then false else true

abbrev pub too_long : Text
too_long = codes "array column exceeds 2^31 elements in a single batch"

abbrev pub add_row : Option Bson → ℕ → Gathered → Gathered
add_row v offset g = record {
  flat = row_items v ++ g.flat;
  offsets = offset ∷ g.offsets;
  valid = is_list_row v ∷ g.valid;
}

-- `len` is the length of what is flat so far; an offset is of type `i32`.
unfoldable pub gather : ℕ → List (Option Bson) → Result Gathered
unfolding row_items is_list_row
gather len [] = ok (record { flat = []; offsets = []; valid = [] })
gather len (v ∷ vs) =
    let offset = len + length (row_items v) in
    let rest = gather offset vs in
    if ltb offset (2 ^ 31)
    then (rest >>= λ g. ok (add_row v offset g))
    else err (DataFusionError.execution too_long)

-- The values of a child, row by row.
unfoldable pub child_of : Text → Option Bson → Option Bson
child_of name (some (Bson.document d)) = get d name
child_of name _ = none

unfoldable pub is_document : Option Bson → Bool
is_document (some (Bson.document d)) = true
is_document _ = false

abbrev pub no_fields : Text → Text
no_fields name = codes "struct column " ++ (name ++ codes " has no fields")

-- The bytes of a text in UTF-8.
abbrev char_len : ℕ → ℕ
char_len c = if ltb c 128 then 1 else if ltb c 2048 then 2 else if ltb c 65536 then 3 else 4

abbrev pub text_len : Text → ℕ
text_len [] = 0
text_len (c ∷ s) = char_len c + text_len s

abbrev pub total_len {ℓ} : {A : Type ℓ} → (A → ℕ) → List (Option A) → ℕ
total_len len [] = 0
total_len len (none ∷ vs) = total_len len vs
total_len len (some v ∷ vs) = len v + total_len len vs

abbrev pub overflow : Text
overflow = codes "byte array offset overflow"

abbrev pub mismatch : Text
mismatch = codes "StructArray::new or ListArray::new"

-- An array that the crate `arrow` panics on instead, where it does not fit.
unfoldable pub expect : Text → Bool → Array → Result Array
expect message true a = ok a
expect message false a = err (DataFusionError.panicked message)

pub expect-eq-ok :
    (message : Text) (fits : Bool) (b : Array) {a : Array} → expect message fits b ≡ ok a → b ≡ a
unfolding expect
expect-eq-ok message true b e = ok_injective e
expect-eq-ok message false b e = absurd (err-ne-ok e)

-- The offsets of texts and of binary values are of type `i32`.
unfoldable pub strings_of : List (Option Text) → Result Array
unfolding expect
strings_of vs = expect overflow (ltb (total_len text_len vs) (2 ^ 31)) (Array.strings vs)

unfoldable pub binaries_of : List (Option (List ℕ)) → Result Array
unfolding expect
binaries_of vs = expect overflow (ltb (total_len length vs) (2 ^ 31)) (Array.binaries vs)

module _ (vals : Values) where
  unfoldable pub text_row : BsonTag → Option Bson → Option Text
  unfolding is_null render_text
  text_row tag none = none
  text_row tag (some v) = if is_null (some v) then none else render_text vals v tag

  module _ (checks : Checks) where
    open checks use {decimal_type, struct_fits, list_fits}

    -- `with_precision_and_scale` refuses a precision or a scale that Arrow does not have.
    abbrev pub decimal_column : ℕ → ℤ → List (Option Bson) → Result Array
    decimal_column p s vs =
        if decimal_type p s
        then ok (Array.decimals p s (map (λ v. as_decimal vals v s) vs))
        else err (DataFusionError.arrow_error (codes "decimal"))

    unfoldable mutual
      unfolding as_boolean as_i32 as_i64 as_f64 as_bytes as_millis as_decimal text_row gather
          child_of is_document expect strings_of binaries_of

      pub build_array : Field → List (Option Bson) → Result Array
      build_array (field name DataType.boolean n m) vs =
          ok (Array.booleans (map (as_boolean vals) vs))
      build_array (field name DataType.int32 n m) vs = ok (Array.int32s (map (as_i32 vals) vs))
      build_array (field name DataType.int64 n m) vs = ok (Array.int64s (map (as_i64 vals) vs))
      build_array (field name DataType.float64 n m) vs = ok (Array.float64s (map (as_f64 vals) vs))
      build_array (field name DataType.utf8 n m) vs =
          strings_of (map (text_row (tag_of (field name DataType.utf8 n m))) vs)
      build_array (field name DataType.binary n m) vs = binaries_of (map (as_bytes vals) vs)
      build_array (field name (DataType.timestamp TimeUnit.millisecond tz) n m) vs =
          ok (Array.timestamps tz (map (as_millis vals) vs))
      build_array (field name (DataType.decimal128 p s) n m) vs = decimal_column p s vs
      build_array (field name (DataType.struct children) n m) vs =
          build_children children vs >>= λ columns. struct_column name children columns vs
      build_array (field name (DataType.list item) n m) vs = gather 0 vs >>= λ g.
          build_array item g.flat >>= λ child.
          expect mismatch (list_fits item (0 ∷ g.offsets) child g.valid)
            (Array.lists item (0 ∷ g.offsets) child g.valid)
      build_array (field name ty n m) vs = err (DataFusionError.no_decoder ty)

      pub build_children : Fields → List (Option Bson) → Result Columns
      build_children Fields.nil vs = ok Columns.nil
      build_children (Fields.cons f fs) vs = build_array f (map (child_of (name_of f)) vs) >>= λ a.
          build_children fs vs >>= λ c. ok (Columns.cons a c)

      -- A struct without fields is refused, after its children are built.
      pub struct_column : Text → Fields → Columns → List (Option Bson) → Result Array
      struct_column name Fields.nil columns vs = err (DataFusionError.internal (no_fields name))
      struct_column name (Fields.cons f fs) columns vs =
          expect mismatch (struct_fits (Fields.cons f fs) columns (map is_document vs))
            (Array.structs (Fields.cons f fs) columns (map is_document vs))

    unfoldable pub columns_of : Schema → List Document → Result (List Array)
    unfolding lookup_path field_path build_array
    columns_of [] docs = ok []
    columns_of (f ∷ fs) docs = build_array f (map (λ d. lookup_path d (field_path f)) docs) >>= λ a.
        columns_of fs docs >>= λ columns. ok (a ∷ columns)

    -- `RecordBatch::try_new_with_options`, of a schema, its columns and a number of rows.
    module _ {Batch : Type 0} (try_new : Schema → List Array → ℕ → Result Batch) where
      unfoldable pub documents_to_batch : Schema → List Document → Result Batch
      unfolding columns_of
      documents_to_batch schema docs =
          columns_of schema docs >>= λ columns. try_new schema columns (length docs)
