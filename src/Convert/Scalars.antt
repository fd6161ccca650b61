-- ===== src/Convert/Scalars.antt =====
-- mongo/convert.rs: the coercion of one value to the type of its column. A 64-bit float is its bit
-- pattern, and what the code asks of floats and of the crate `bson` is a parameter.
use auger.Base.{
  ℕ, ◌+◌, ◌-◌, ◌*◌, ◌/◌, ◌^◌, Bool, true, false, ◌&&◌, ◌||◌, List, [], ◌∷◌, ◌++◌, map, Option, none,
  some, ◌≡◌, Text, codes, if◌then◌else◌, ◌==◌, ltb, length, all, text_eq, then_some, is_ascii_digit,
  ascii_lower, ◌>>=◌,
}
use auger.Base.Int.{ℤ, pos, negsuc, pos_part, sub_ℕ, fits_signed, wrap_i32, ◌+ℤ◌}
use auger.Whitespace.{trim}
use auger.Decimal.{show_ℤ}
use auger.Bson.{Bson}
use auger.Infer.Tag.{BsonTag}
use auger.Convert.{encode}

pub record Values : Type 0 where
  -- `v.fract() == 0.0 && v.is_finite()`
  pub is_integral : ℕ → Bool
  -- `as i64`, which saturates, and `as f64`
  pub f64_to_i64 : ℕ → ℤ
  pub i64_to_f64 : ℤ → ℕ
  -- `to_string` and `parse` of `f64`
  pub show_f64 : ℕ → Text
  pub parse_f64 : Text → Option ℕ
  -- of `Decimal128`, `ObjectId`, `DateTime` and `Bson`
  pub show_decimal : List ℕ → Text
  pub to_hex : List ℕ → Text
  pub rfc3339 : ℤ → Option Text
  pub extjson : Bson → Text
  pub f64_to_i64-fits : (v : ℕ) → fits_signed 63 (f64_to_i64 v) ≡ true

abbrev pub of_bool : Bool → ℤ
of_bool true = pos 1
of_bool false = pos 0

-- `i128` arithmetic on what is never negative.
abbrev pub checked : ℕ → Option ℕ
checked n = then_some (ltb n (2 ^ 127)) n

abbrev pub clamp_scale : ℤ → ℕ
clamp_scale = pos_part

abbrev pub times : ℤ → ℕ → ℤ
times (pos n) k = pos (n * k)
times (negsuc n) k = sub_ℕ 0 ((n + 1) * k)

-- The factor is `10.checked_pow(scale.max(0))`.
unfoldable pub scale_int : ℤ → ℤ → Option ℤ
scale_int v scale = do
  factor ← checked (10 ^ clamp_scale scale)
  then_some (fits_signed 127 (times v factor)) (times v factor)

abbrev pub value : ℕ → Text → ℕ
value acc [] = acc
value acc (b ∷ s) = value (acc * 10 + (b - b'0')) s

-- `value = value.checked_mul(10)?.checked_add(digit)?` over the bytes.
unfoldable pub accumulate : ℕ → Text → Option ℕ
accumulate acc [] = some acc
accumulate acc (b ∷ s) = do
  shifted ← checked (acc * 10)
  next ← checked (shifted + (b - b'0'))
  accumulate next s

-- The text before the first mark and the text behind it, if there is a mark.
unfoldable pub split_once : (ℕ → Bool) → Text → Text × Option Text
split_once is_mark [] = ([], none)
split_once is_mark (c ∷ s) =
    let (before, behind) = split_once is_mark s in
    if is_mark c then ([], some s) else (c ∷ before, behind)

-- `str::parse::<i32>`: a sign and at least one digit, within range.
unfoldable pub parse_digits : Bool → Text → Option ℤ
parse_digits negative [] = none
parse_digits negative (c ∷ s) =
    let v = if negative then sub_ℕ 0 (value 0 (c ∷ s)) else pos (value 0 (c ∷ s)) in
    then_some (all is_ascii_digit (c ∷ s) && fits_signed 31 v) v

unfoldable pub parse_i32 : Text → Option ℤ
unfolding parse_digits
parse_i32 [] = none
parse_i32 (c ∷ s) =
    if c == b'-'
    then parse_digits true s
    else if c == b'+'
    then parse_digits false s
    else parse_digits false (c ∷ s)

unfoldable pub eq_ignore_ascii_case : Text → Text → Bool
eq_ignore_ascii_case a b = text_eq (map ascii_lower a) (map ascii_lower b)

-- The sign and the digits of a mantissa.
unfoldable pub split_sign : Text → Bool × Text
split_sign [] = (false, [])
split_sign (c ∷ s) =
    if c == b'-' then (true, s) else if c == b'+' then (false, s) else (false, c ∷ s)

-- Multiplication by a power of ten, or division that drops the tail.
unfoldable pub shift_by : ℕ → ℤ → Option ℕ
shift_by v (pos k) = do power ← checked (10 ^ k); checked (v * power)
shift_by v (negsuc k) = do power ← checked (10 ^ (k + 1)); some (v / power)

abbrev pub signed : Bool → ℕ → ℤ
signed negative v = if negative then sub_ℕ 0 v else pos v

abbrev pub or_empty : Option Text → Text
or_empty none = []
or_empty (some s) = s

-- A mantissa with its exponent, at a scale; the sum of the exponents is of type `i32`.
unfoldable pub parse_mantissa : Text → ℤ → ℤ → Option ℤ
unfolding split_sign eq_ignore_ascii_case split_once accumulate shift_by
parse_mantissa mantissa exponent scale =
    let (negative, digits) = split_sign mantissa in
    let (int_part, behind) = split_once (λ c. c == b'.') digits in
    let frac_part = or_empty behind in
    let shift = wrap_i32 (wrap_i32 (scale +ℤ exponent) +ℤ sub_ℕ 0 (length frac_part)) in
    if eq_ignore_ascii_case digits (codes "infinity") || eq_ignore_ascii_case digits (codes "inf")
    then none
    else if all is_ascii_digit int_part && all is_ascii_digit frac_part
    then (do
      v ← accumulate 0 (int_part ++ frac_part)
      shifted ← shift_by v shift
      some (signed negative shifted))
    else none

unfoldable pub parse_exponent : Option Text → Option ℤ
unfolding parse_i32
parse_exponent none = some (pos 0)
parse_exponent (some s) = parse_i32 s

unfoldable pub parse_decimal : Text → ℤ → Option ℤ
unfolding parse_mantissa parse_exponent
parse_decimal text scale =
    let t = trim text in
    let (mantissa, behind) = split_once (λ c. c == b'e' || c == b'E') t in
    if text_eq t [] || eq_ignore_ascii_case t (codes "nan")
    then none
    else parse_exponent behind >>= λ exponent. parse_mantissa mantissa exponent scale

module _ (vals : Values) where
  open vals use {
    is_integral, f64_to_i64, i64_to_f64, show_f64, parse_f64, show_decimal, to_hex, rfc3339,
    extjson,
  }

  unfoldable pub as_i64 : Option Bson → Option ℤ
  as_i64 (some (Bson.int32 v)) = some v
  as_i64 (some (Bson.int64 v)) = some v
  as_i64 (some (Bson.double v)) = then_some (is_integral v) (f64_to_i64 v)
  as_i64 (some (Bson.boolean b)) = some (of_bool b)
  as_i64 _ = none

  unfoldable pub as_i32 : Option Bson → Option ℤ
  unfolding as_i64
  as_i32 v = as_i64 v >>= λ i. then_some (fits_signed 31 i) i

  unfoldable pub as_f64 : Option Bson → Option ℕ
  as_f64 (some (Bson.double v)) = some v
  as_f64 (some (Bson.int32 v)) = some (i64_to_f64 v)
  as_f64 (some (Bson.int64 v)) = some (i64_to_f64 v)
  as_f64 (some (Bson.decimal128 d)) = parse_f64 (show_decimal d)
  as_f64 _ = none

  -- `ts.time` counts seconds in 32 bits, and `checked_mul` is on `i64`.
  unfoldable pub as_millis : Option Bson → Option ℤ
  as_millis (some (Bson.date_time ms)) = some ms
  as_millis (some (Bson.timestamp time increment)) =
      then_some (fits_signed 63 (pos (time * 1000))) (pos (time * 1000))
  as_millis (some (Bson.int64 v)) = some v
  as_millis _ = none

  unfoldable pub as_decimal : Option Bson → ℤ → Option ℤ
  unfolding parse_decimal scale_int
  as_decimal (some (Bson.decimal128 d)) scale = parse_decimal (show_decimal d) scale
  as_decimal (some (Bson.int32 v)) scale = scale_int v scale
  as_decimal (some (Bson.int64 v)) scale = scale_int v scale
  as_decimal (some (Bson.double v)) scale = parse_decimal (show_f64 v) scale
  as_decimal (some (Bson.string s)) scale = parse_decimal s scale
  as_decimal _ scale = none

  unfoldable pub as_boolean : Option Bson → Option Bool
  as_boolean (some (Bson.boolean b)) = some b
  as_boolean _ = none

  unfoldable pub as_bytes : Option Bson → Option (List ℕ)
  as_bytes (some (Bson.binary b)) = some b
  as_bytes _ = none

  abbrev pub show_bool : Bool → Text
  show_bool true = codes "true"
  show_bool false = codes "false"

  unfoldable pub render_text : Bson → BsonTag → Option Text
  unfolding show_ℤ
  render_text (Bson.string s) tag = some s
  render_text (Bson.symbol s) tag = some s
  render_text (Bson.object_id oid) tag = some (to_hex oid)
  render_text (Bson.boolean b) tag = some (show_bool b)
  render_text (Bson.int32 v) tag = some (show_ℤ v)
  render_text (Bson.int64 v) tag = some (show_ℤ v)
  render_text (Bson.double v) tag = some (show_f64 v)
  render_text (Bson.decimal128 d) tag = some (show_decimal d)
  render_text (Bson.date_time ms) tag = elim (rfc3339 ms) [
    | none ↦ some (show_ℤ ms)
    | some t ↦ some t
  ]
  render_text (Bson.binary b) tag = some (encode b)
  render_text other tag = some (extjson other)
