-- ===== src/Infer/Schema.antt =====
-- catalog/infer.rs: the Arrow type of a shape, the field of a slot, and the schema of a sample.
use auger.Base.{
  ℕ, ◌+◌, max, Bool, true, false, not, ◌&&◌, ◌||◌, List, [], ◌∷◌, ◌++◌, some, Text, codes,
  if◌then◌else◌, ltb, text_eq, ◌==◌,
}
use auger.Base.Int.{pos}
use auger.Arrow.{DataType, TimeUnit, Field, Fields, field, Meta, Schema, with_meta}
use auger.Infer.Tag.{BsonTag, as_str, meta_bson, meta_path, meta_freq, meta_mixed}
use auger.Infer.Shape.{Shape, FieldShape, slot, Slots, text_lt}
use auger.Infer.Observe.{Sampler}

-- Division of counters as 64-bit floats, and `format!("{freq:.6}")`.
pub record Floats : Type 0 where
  pub divide : ℕ → ℕ → ℕ
  pub format_6 : ℕ → Text

abbrev pub utc_millis : DataType
utc_millis = DataType.timestamp TimeUnit.millisecond (some (codes "UTC"))

abbrev pub is_empty_map : Slots → Bool
is_empty_map Slots.nil = true
is_empty_map (Slots.cons k f l) = false

-- `children.values().map(|c| c.present).max().unwrap_or(0)`
abbrev pub max_present : Slots → ℕ
max_present Slots.nil = 0
max_present (Slots.cons k (slot s p n m) l) = max p (max_present l)

-- `names.sort_by_key(|n| (n != "_id", n))`: which name comes first.
unfoldable pub name_before : Text → Text → Bool
unfolding text_lt
name_before a b =
    let id_a = text_eq a (codes "_id") in
    let id_b = text_eq b (codes "_id") in
    if id_a then not id_b || text_lt a b else not id_b && text_lt a b

unfoldable pub insert_sorted :
    Text → FieldShape → List (Text × FieldShape) → List (Text × FieldShape)
unfolding name_before
insert_sorted k f [] = (k, f) ∷ []
insert_sorted k f ((j, g) ∷ l) =
    let rest = insert_sorted k f l in if name_before j k then (j, g) ∷ rest else (k, f) ∷ (j, g) ∷ l

unfoldable pub sort_names : Slots → List (Text × FieldShape)
unfolding insert_sorted
sort_names Slots.nil = []
sort_names (Slots.cons k f l) = insert_sorted k f (sort_names l)

module _ (floats : Floats) where
  unfoldable pub build_meta : BsonTag → Text → ℕ → Bool → ℕ → Meta
  build_meta tag path present mixed parent_count =
      let freq = if parent_count == 0 then 0 else floats.divide present parent_count in
      let meta =
        with_meta (with_meta (with_meta [] meta_bson (as_str tag)) meta_path path) meta_freq
          (floats.format_6 freq) in
      if mixed then with_meta meta meta_mixed (codes "true") else meta

  unfoldable mutual
    unfolding build_meta

    -- The arguments `depth` and `max_depth` of the source.
    pub arrow_type : Shape → Text → ℕ → ℕ → DataType × BsonTag
    arrow_type Shape.unknown path depth max_depth = (DataType.utf8, BsonTag.unknown)
    arrow_type Shape.bool path depth max_depth = (DataType.boolean, BsonTag.bool)
    arrow_type Shape.int32 path depth max_depth = (DataType.int32, BsonTag.int32)
    arrow_type Shape.int64 path depth max_depth = (DataType.int64, BsonTag.int64)
    arrow_type Shape.double path depth max_depth = (DataType.float64, BsonTag.double)
    arrow_type Shape.decimal path depth max_depth =
        (DataType.decimal128 38 (pos 10), BsonTag.decimal)
    arrow_type Shape.utf8 path depth max_depth = (DataType.utf8, BsonTag.string)
    arrow_type Shape.object_id path depth max_depth = (DataType.utf8, BsonTag.object_id)
    arrow_type Shape.date_time path depth max_depth = (utc_millis, BsonTag.date_time)
    arrow_type Shape.bson_timestamp path depth max_depth = (utc_millis, BsonTag.timestamp)
    arrow_type Shape.binary path depth max_depth = (DataType.binary, BsonTag.binary)
    arrow_type Shape.json path depth max_depth = (DataType.utf8, BsonTag.json)
    arrow_type (Shape.document children) path depth max_depth =
        let inner = build_fields children path (max_present children) (depth + 1) max_depth in
        if ltb depth max_depth && not (is_empty_map children)
        then (DataType.struct inner, BsonTag.document)
        else (DataType.utf8, BsonTag.json)
    arrow_type (Shape.array inner) path depth max_depth =
        let (item_type, item_tag) = arrow_type inner path (depth + 1) max_depth in
        let item = field (codes "item") item_type true (with_meta [] meta_bson (as_str item_tag)) in
        if ltb depth max_depth
        then (DataType.list item, BsonTag.array)
        else (DataType.utf8, BsonTag.json)

    pub build_field : Text → Text → FieldShape → ℕ → ℕ → ℕ → Field
    build_field name path (slot shape present nulls mixed) parent_count depth max_depth =
        let (ty, tag) = arrow_type shape path depth max_depth in
        field name ty (not (text_eq path (codes "_id")))
          (build_meta tag path present mixed parent_count)

    -- The children of a document, each at its dotted path.
    pub build_fields : Slots → Text → ℕ → ℕ → ℕ → Fields
    build_fields Slots.nil path total depth max_depth = Fields.nil
    build_fields (Slots.cons k v l) path total depth max_depth =
        Fields.cons (build_field k (path ++ (b'.' ∷ k)) v total depth max_depth)
          (build_fields l path total depth max_depth)

  unfoldable pub root_fields : List (Text × FieldShape) → ℕ → ℕ → Schema
  unfolding build_field
  root_fields [] docs_seen max_depth = []
  root_fields ((k, f) ∷ l) docs_seen max_depth =
      build_field k k f docs_seen 0 max_depth ∷ root_fields l docs_seen max_depth

  unfoldable pub finish : Sampler → ℕ → Schema
  unfolding sort_names root_fields
  finish s max_depth = root_fields (sort_names s.root) s.docs_seen max_depth
