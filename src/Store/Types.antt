-- ===== src/Store/Types.antt =====
-- catalog/store.rs: Arrow types in the catalog's own form, and back.
use auger.Base.{ℕ, Bool, List, Option, none, some, Text, ◌>>=◌}
use auger.Base.Int.{ℤ}
use auger.Arrow.{DataType, TimeUnit, Field, Fields, field}

mutual
  pub data StoredType : Type 0 where
    boolean int32 int64 float64 utf8 binary : StoredType
    decimal : ℕ → ℤ → StoredType
    timestamp_ms : Option Text → StoredType
    struct : StoredFields → StoredType
    list : StoredField → StoredType

  -- name, type, nullable, metadata
  pub data StoredField : Type 0 where
    stored : Text → StoredType → Bool → List (Text × Text) → StoredField

  pub data StoredFields : Type 0 where
    nil : StoredFields
    cons : StoredField → StoredFields → StoredFields

unfoldable mutual
  pub type_from_arrow : DataType → Option StoredType
  type_from_arrow DataType.boolean = some StoredType.boolean
  type_from_arrow DataType.int32 = some StoredType.int32
  type_from_arrow DataType.int64 = some StoredType.int64
  type_from_arrow DataType.float64 = some StoredType.float64
  type_from_arrow DataType.utf8 = some StoredType.utf8
  type_from_arrow DataType.binary = some StoredType.binary
  type_from_arrow (DataType.decimal128 p s) = some (StoredType.decimal p s)
  type_from_arrow (DataType.timestamp TimeUnit.millisecond tz) = some (StoredType.timestamp_ms tz)
  type_from_arrow (DataType.struct fs) =
      fields_from_arrow fs >>= λ out. some (StoredType.struct out)
  type_from_arrow (DataType.list item) = field_from_arrow item >>= λ out. some (StoredType.list out)
  type_from_arrow _ = none

  pub field_from_arrow : Field → Option StoredField
  field_from_arrow (field name ty nullable meta) =
      type_from_arrow ty >>= λ out. some (stored name out nullable meta)

  pub fields_from_arrow : Fields → Option StoredFields
  fields_from_arrow Fields.nil = some StoredFields.nil
  fields_from_arrow (Fields.cons f fs) =
      field_from_arrow f >>= λ g. fields_from_arrow fs >>= λ gs. some (StoredFields.cons g gs)

unfoldable mutual
  pub type_to_arrow : StoredType → DataType
  type_to_arrow StoredType.boolean = DataType.boolean
  type_to_arrow StoredType.int32 = DataType.int32
  type_to_arrow StoredType.int64 = DataType.int64
  type_to_arrow StoredType.float64 = DataType.float64
  type_to_arrow StoredType.utf8 = DataType.utf8
  type_to_arrow StoredType.binary = DataType.binary
  type_to_arrow (StoredType.decimal p s) = DataType.decimal128 p s
  type_to_arrow (StoredType.timestamp_ms tz) = DataType.timestamp TimeUnit.millisecond tz
  type_to_arrow (StoredType.struct fs) = DataType.struct (fields_to_arrow fs)
  type_to_arrow (StoredType.list item) = DataType.list (field_to_arrow item)

  pub field_to_arrow : StoredField → Field
  field_to_arrow (stored name ty nullable meta) = field name (type_to_arrow ty) nullable meta

  pub fields_to_arrow : StoredFields → Fields
  fields_to_arrow StoredFields.nil = Fields.nil
  fields_to_arrow (StoredFields.cons f fs) = Fields.cons (field_to_arrow f) (fields_to_arrow fs)
