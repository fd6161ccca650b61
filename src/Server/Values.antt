-- ===== src/Server/Values.antt =====
-- server/encode.rs: the values of a batch, as they are handed to the wire encoder and as JSON. What the
-- code asks of floats, dates and decimals is a parameter, and so is the encoder of the crate pgwire.
use auger.Base.{
  ℕ, zero, suc, ◌+◌, ◌-◌, Bool, true, false, List, [], ◌∷◌, ◌++◌, map, Option, none, some, Text,
  codes, if◌then◌else◌, get_elem?, ◌>>=◌,
}
use auger.Base.Int.{ℤ, pos_part}
use auger.Base.Results
use auger.Base.Results.{Result, ok, err}
use auger.Decimal.{show_ℤ}
use auger.Arrow.{Fields, name_of, data_type, Schema}
use auger.Arrow.Array.{Array, Columns}
use auger.Server.Encode.{PgType, pg_type_of, quote_json, hex}

pub record FieldInfo : Type 0 where
  pub name : Text
  pub pg_type : PgType
  pub format : ℕ

-- `format_for` is `Format::format_for` of the crate pgwire.
unfoldable pub field_infos : (ℕ → ℕ) → ℕ → Schema → List FieldInfo
unfolding pg_type_of
field_infos format_for idx [] = []
field_infos format_for idx (f ∷ fs) =
    record { name = name_of f; pg_type = pg_type_of (data_type f); format = format_for idx }
    ∷ field_infos format_for (idx + 1) fs

pub record Display : Type 0 where
  -- `is_finite` and `to_string` of `f64`
  pub is_finite : ℕ → Bool
  pub show_f64 : ℕ → Text
  -- `from_timestamp_millis`, where it is in range, and its `to_rfc3339`
  pub has_date : ℤ → Bool
  pub rfc3339 : ℤ → Text
  -- `Decimal::try_from_i128_with_scale`, where it fits, and `value_as_string`
  pub fits_decimal : ℤ → ℕ → Bool
  pub show_decimal : ℤ → ℤ → Text

-- What `encode_field` is given.
pub data Sent : Type 0 where
  null : Sent
  boolean : Bool → Sent
  int32 int64 : ℤ → Sent
  float64 : ℕ → Sent
  text : Text → Sent
  bytes : List ℕ → Sent
  date_time : ℤ → Sent
  decimal : ℤ → ℕ → Sent

-- `array.value(row)`, where it is not null.
abbrev pub value_at {ℓ} : {A : Type ℓ} → List (Option A) → ℕ → Option A
value_at r row = get_elem? r row >>= λ v. v

abbrev pub is_valid : List Bool → ℕ → Bool
is_valid valid row = elim (get_elem? valid row) [ none ↦ false | some b ↦ b ]

abbrev pub offset_at : List ℕ → ℕ → ℕ
offset_at offsets row = elim (get_elem? offsets row) [ none ↦ 0 | some n ↦ n ]

-- `start..start + count`
abbrev pub range : ℕ → ℕ → List ℕ
range start zero = []
range start (suc count) = start ∷ range (start + 1) count

-- `parts.join(",")`
abbrev pub join : List Text → Text
join [] = []
join (t ∷ []) = t
join (t ∷ u ∷ ts) = t ++ (b',' ∷ join (u ∷ ts))

abbrev pub or_null {ℓ} : {A : Type ℓ} → (A → Text) → Option A → Text
or_null f none = codes "null"
or_null f (some a) = f a

abbrev pub or_sent {ℓ} : {A : Type ℓ} → (A → Sent) → Option A → Sent
or_sent f none = null
or_sent f (some a) = f a

abbrev pub show_bool : Bool → Text
show_bool true = codes "true"
show_bool false = codes "false"

module _ (display : Display) where
  open display use {is_finite, show_f64, has_date, rfc3339, fits_decimal, show_decimal}

  unfoldable mutual
    unfolding quote_json hex show_ℤ

    pub value_to_json : Array → ℕ → Text
    value_to_json (Array.booleans r) row = or_null show_bool (value_at r row)
    value_to_json (Array.int32s r) row = or_null show_ℤ (value_at r row)
    value_to_json (Array.int64s r) row = or_null show_ℤ (value_at r row)
    value_to_json (Array.float64s r) row =
        or_null (λ v. if is_finite v then show_f64 v else codes "null") (value_at r row)
    value_to_json (Array.strings r) row = or_null quote_json (value_at r row)
    value_to_json (Array.string_views r) row = or_null quote_json (value_at r row)
    value_to_json (Array.large_strings r) row = or_null quote_json (value_at r row)
    value_to_json (Array.timestamps tz r) row =
        or_null (λ v. if has_date v then quote_json (rfc3339 v) else show_ℤ v) (value_at r row)
    value_to_json (Array.decimals p s r) row = or_null (λ v. show_decimal v s) (value_at r row)
    value_to_json (Array.binaries r) row = or_null (λ v. quote_json (hex v)) (value_at r row)
    value_to_json (Array.structs fs columns valid) row =
        if is_valid valid row
        then b'{' ∷ (join (members_to_json fs columns row) ++ codes "}")
        else codes "null"
    value_to_json (Array.lists f offsets child valid) row =
        let start = offset_at offsets row in
        let count = offset_at offsets (row + 1) - start in
        if is_valid valid row
        then b'[' ∷ (join (map (λ i. value_to_json child i) (range start count)) ++ codes "]")
        else codes "null"
    value_to_json (Array.others t r) row = or_null quote_json (value_at r row)

    pub members_to_json : Fields → Columns → ℕ → List Text
    members_to_json (Fields.cons f fs) (Columns.cons a columns) row =
        (quote_json (name_of f) ++ (b':' ∷ value_to_json a row)) ∷ members_to_json fs columns row
    members_to_json _ _ row = []

  abbrev pub json_if_valid : List Bool → ℕ → Text → Sent
  json_if_valid valid row json = if is_valid valid row then text json else null

  -- `encode_value`, up to the encoder.
  unfoldable pub sent : Array → ℕ → Sent
  unfolding value_to_json show_ℤ
  sent (Array.booleans r) row = or_sent boolean (value_at r row)
  sent (Array.int32s r) row = or_sent int32 (value_at r row)
  sent (Array.int64s r) row = or_sent int64 (value_at r row)
  sent (Array.float64s r) row = or_sent float64 (value_at r row)
  sent (Array.strings r) row = or_sent text (value_at r row)
  sent (Array.string_views r) row = or_sent text (value_at r row)
  sent (Array.large_strings r) row = or_sent text (value_at r row)
  sent (Array.binaries r) row = or_sent bytes (value_at r row)
  sent (Array.timestamps tz r) row =
      or_sent (λ v. if has_date v then date_time v else text (show_ℤ v)) (value_at r row)
  sent (Array.decimals p s r) row =
      or_sent
        (λ v.
          if fits_decimal v (pos_part s) then decimal v (pos_part s) else text (show_decimal v s))
        (value_at r row)
  sent (Array.structs fs columns valid) row =
      json_if_valid valid row (value_to_json (Array.structs fs columns valid) row)
  sent (Array.lists f offsets child valid) row =
      json_if_valid valid row (value_to_json (Array.lists f offsets child valid) row)
  sent (Array.others t r) row =
      or_sent (λ v. text (value_to_json (Array.others t r) row)) (value_at r row)

pub record RecordBatch : Type 0 where
  pub columns : List Array
  pub num_rows : ℕ

-- `encode_field` takes the fields, the place of the value among them and the value.
module _ {E : Type 0} (display : Display)
    (encode_field : List FieldInfo → ℕ → Sent → Result E (List ℕ)) where
  unfoldable pub encode_row : List FieldInfo → ℕ → List Array → ℕ → Result E (List (List ℕ))
  unfolding sent
  encode_row fields place [] row = ok []
  encode_row fields place (a ∷ columns) row =
      Results.and_then
        (λ v. Results.and_then (λ vs. ok (v ∷ vs)) (encode_row fields (place + 1) columns row))
        (encode_field fields place (sent display a row))

  unfoldable pub encode_rows :
      List FieldInfo → List Array → List ℕ → Result E (List (List (List ℕ)))
  unfolding encode_row
  encode_rows fields columns [] = ok []
  encode_rows fields columns (row ∷ rows) =
      Results.and_then (λ r. Results.and_then (λ rs. ok (r ∷ rs)) (encode_rows fields columns rows))
        (encode_row fields 0 columns row)

  unfoldable pub encode_batch : RecordBatch → List FieldInfo → Result E (List (List (List ℕ)))
  unfolding encode_rows
  encode_batch batch fields = encode_rows fields batch.columns (range 0 batch.num_rows)
