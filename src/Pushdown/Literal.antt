-- ===== src/Pushdown/Literal.antt =====
-- mongo/pushdown.rs: literals in the BSON representation that a column stores.
use auger.Base.{
  ℕ, suc, ◌-◌, ◌*◌, ◌/◌, ◌^◌, Bool, true, false, List, Option, none, some, Text, if◌then◌else◌, ltb,
  then_some,
}
use auger.Base.Int.{ℤ, pos, negsuc, fits_signed}
use auger.Arrow.{DataType}
use auger.Bson.{Bson}
use auger.Infer.Tag.{BsonTag}
use auger.Pushdown.Expr.{ScalarValue}

-- What the crates and the machine provide: equality of Arrow types, parsing of an ObjectId, and
-- conversions into a 64-bit float's bit pattern.
pub record Libs : Type 0 where
  pub data_type_eq : DataType → DataType → Bool
  pub parse_oid : Text → Option (List ℕ)
  pub i64_to_f64 : ℤ → ℕ
  pub f32_to_f64 : ℕ → ℕ

-- `ScalarValue::is_null`
unfoldable pub is_null : ScalarValue → Bool
is_null ScalarValue.null = true
is_null (ScalarValue.boolean none) = true
is_null (ScalarValue.int8 none) = true
is_null (ScalarValue.int16 none) = true
is_null (ScalarValue.int32 none) = true
is_null (ScalarValue.int64 none) = true
is_null (ScalarValue.uint8 none) = true
is_null (ScalarValue.uint16 none) = true
is_null (ScalarValue.uint32 none) = true
is_null (ScalarValue.uint64 none) = true
is_null (ScalarValue.float32 none) = true
is_null (ScalarValue.float64 none) = true
is_null (ScalarValue.utf8 none) = true
is_null (ScalarValue.large_utf8 none) = true
is_null (ScalarValue.timestamp_second none tz) = true
is_null (ScalarValue.timestamp_millisecond none tz) = true
is_null (ScalarValue.timestamp_microsecond none tz) = true
is_null (ScalarValue.timestamp_nanosecond none tz) = true
is_null (ScalarValue.date32 none) = true
is_null (ScalarValue.date64 none) = true
is_null (ScalarValue.decimal128 none) = true
is_null (ScalarValue.decimal256 none) = true
is_null (ScalarValue.other n b) = b
is_null _ = false

-- `v.div_euclid(d)` for a positive `d`: rounded down.
abbrev pub div_euclid : ℤ → ℕ → ℤ
div_euclid (pos n) d = pos (n / d)
div_euclid (negsuc n) d = negsuc (n / d)

-- `v * k` for a positive `k`, and `checked_mul` on i64.
abbrev pub times : ℤ → ℕ → ℤ
times (pos n) k = pos (n * k)
times (negsuc n) k = negsuc (suc n * k - 1)

abbrev pub checked_mul : ℤ → ℕ → Option ℤ
checked_mul v k = then_some (fits_signed 63 (times v k)) (times v k)

module _ (lib : Libs) where
  open lib use {parse_oid, i64_to_f64, f32_to_f64}

  unfoldable pub int_literal : ℤ → BsonTag → Bson
  int_literal v BsonTag.int32 = if fits_signed 31 v then Bson.int32 v else Bson.int64 v
  int_literal v BsonTag.double = Bson.double (i64_to_f64 v)
  int_literal v _ = Bson.int64 v

  -- Text against an ObjectId column becomes an ObjectId.
  unfoldable pub text_literal : Text → BsonTag → Option Bson
  text_literal s BsonTag.object_id = elim (parse_oid s) [
    | none ↦ none
    | some oid ↦ some (Bson.object_id oid)
  ]
  text_literal s _ = some (Bson.string s)

  -- `scalar_to_bson`; the guard `is_null` is the clause for a missing value.
  unfoldable pub scalar_value : ScalarValue → BsonTag → Option Bson
  unfolding int_literal text_literal
  scalar_value (ScalarValue.utf8 (some s)) tag = text_literal s tag
  scalar_value (ScalarValue.large_utf8 (some s)) tag = text_literal s tag
  scalar_value (ScalarValue.boolean (some b)) tag = some (Bson.boolean b)
  scalar_value (ScalarValue.int8 (some v)) tag = some (int_literal v tag)
  scalar_value (ScalarValue.int16 (some v)) tag = some (int_literal v tag)
  scalar_value (ScalarValue.int32 (some v)) tag = some (int_literal v tag)
  scalar_value (ScalarValue.int64 (some v)) tag = some (int_literal v tag)
  scalar_value (ScalarValue.uint8 (some v)) tag = some (int_literal (pos v) tag)
  scalar_value (ScalarValue.uint16 (some v)) tag = some (int_literal (pos v) tag)
  scalar_value (ScalarValue.uint32 (some v)) tag = some (int_literal (pos v) tag)
  scalar_value (ScalarValue.uint64 (some v)) tag =
      then_some (ltb v (2 ^ 63)) (int_literal (pos v) tag)
  scalar_value (ScalarValue.float32 (some v)) tag = some (Bson.double (f32_to_f64 v))
  scalar_value (ScalarValue.float64 (some v)) tag = some (Bson.double v)
  scalar_value (ScalarValue.timestamp_millisecond (some ms) tz) tag = some (Bson.date_time ms)
  scalar_value (ScalarValue.timestamp_microsecond (some us) tz) tag =
      some (Bson.date_time (div_euclid us 1000))
  scalar_value (ScalarValue.timestamp_nanosecond (some ns) tz) tag =
      some (Bson.date_time (div_euclid ns 1000000))
  scalar_value (ScalarValue.timestamp_second (some s) tz) tag = elim (checked_mul s 1000) [
    | none ↦ none
    | some ms ↦ some (Bson.date_time ms)
  ]
  scalar_value (ScalarValue.date32 (some days)) tag = elim (checked_mul days 86400000) [
    | none ↦ none
    | some ms ↦ some (Bson.date_time ms)
  ]
  scalar_value (ScalarValue.date64 (some ms)) tag = some (Bson.date_time ms)
  scalar_value _ tag = none

  unfoldable pub scalar_to_bson : ScalarValue → BsonTag → Option Bson
  unfolding is_null scalar_value
  scalar_to_bson scalar tag = if is_null scalar then none else scalar_value scalar tag
