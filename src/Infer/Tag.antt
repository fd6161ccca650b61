-- ===== src/Infer/Tag.antt =====
-- catalog/infer.rs: the BSON provenance of a column, and what is read back off a field's metadata.
use auger.Base.{Bool, false, none, some, ◌≡◌, refl, Text, codes, if◌then◌else◌, text_eq}
use auger.Arrow.{Field, metadata, name_of, get_meta}

abbrev pub meta_bson : Text
meta_bson = codes "auger.bson"

abbrev pub meta_path : Text
meta_path = codes "auger.path"

abbrev pub meta_freq : Text
meta_freq = codes "auger.freq"

abbrev pub meta_mixed : Text
meta_mixed = codes "auger.mixed"

pub data BsonTag : Type 0 where
  bool int32 int64 double decimal string object_id date_time timestamp binary document array json :
      BsonTag
  unknown : BsonTag

unfoldable pub as_str : BsonTag → Text
as_str bool = codes "bool"
as_str int32 = codes "int32"
as_str int64 = codes "int64"
as_str double = codes "double"
as_str decimal = codes "decimal"
as_str string = codes "string"
as_str object_id = codes "objectId"
as_str date_time = codes "date"
as_str timestamp = codes "timestamp"
as_str binary = codes "binary"
as_str document = codes "document"
as_str array = codes "array"
as_str json = codes "json"
as_str unknown = codes "unknown"

unfoldable pub parse : Text → BsonTag
parse s =
    if text_eq s (codes "bool")
    then bool
    else if text_eq s (codes "int32")
    then int32
    else if text_eq s (codes "int64")
    then int64
    else if text_eq s (codes "double")
    then double
    else if text_eq s (codes "decimal")
    then decimal
    else if text_eq s (codes "string")
    then string
    else if text_eq s (codes "objectId")
    then object_id
    else if text_eq s (codes "date")
    then date_time
    else if text_eq s (codes "timestamp")
    then timestamp
    else if text_eq s (codes "binary")
    then binary
    else if text_eq s (codes "document")
    then document
    else if text_eq s (codes "array")
    then array
    else if text_eq s (codes "json")
    then json
    else unknown

-- `BsonTag::of`
unfoldable pub tag_of : Field → BsonTag
unfolding parse
tag_of f = elim (get_meta (metadata f) meta_bson) [ none ↦ unknown | some s ↦ parse s ]

unfoldable pub field_is_mixed : Field → Bool
field_is_mixed f = elim (get_meta (metadata f) meta_mixed) [
  | none ↦ false
  | some s ↦ text_eq s (codes "true")
]

unfoldable pub field_path : Field → Text
field_path f = elim (get_meta (metadata f) meta_path) [ none ↦ name_of f | some p ↦ p ]

pub parse-as_str : (t : BsonTag) → parse (as_str t) ≡ t
unfolding parse as_str text_eq
parse-as_str bool = refl
parse-as_str _ = refl
