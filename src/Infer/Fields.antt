-- ===== src/Infer/Fields.antt =====
-- catalog/infer.rs: what pushdown reads back off an inferred field, how deep its type nests, and that
-- the catalog store can keep it.
use auger.Base.{ℕ, Bool, true, false, ◌≡◌, ap, Text, text_eq}
use auger.Arrow.{DataType, get_meta, with_meta}
use auger.Infer.Tag.{BsonTag, tag_of, field_is_mixed, field_path, parse-as_str}
use auger.Infer.Shape.{Shape, slot}
use auger.Infer.Schema.{Floats, arrow_type, build_meta, build_field}
use auger.Pushdown.Column.{ColumnRef, column_ref_of}

module _ (floats : Floats) where
  -- The column that pushdown sees in an inferred field is the one the sampler saw: its path, the tag
  -- of its shape, its type and whether values were coerced.
  pub column_ref_of-build_field :
      (name path : Text) (shape : Shape) (present nulls parent depth max_depth : ℕ) (mixed : Bool)
      → column_ref_of
          (build_field floats name path (slot shape present nulls mixed) parent depth max_depth)
        ≡ record {
          path = path;
          tag = (arrow_type floats shape path depth max_depth).1;
          ty = (arrow_type floats shape path depth max_depth).0;
          mixed = mixed;
        }
  unfolding column_ref_of build_field build_meta tag_of field_path field_is_mixed get_meta with_meta
      text_eq
  column_ref_of-build_field name path shape present nulls parent depth max_depth true =
      ap (λ t. seen t (arrow_type floats shape path depth max_depth).0 true)
        (parse-as_str (arrow_type floats shape path depth max_depth).1)
    where
      seen : BsonTag → DataType → Bool → ColumnRef
      seen tag ty mixed = record { path = path; tag = tag; ty = ty; mixed = mixed }
  column_ref_of-build_field name path shape present nulls parent depth max_depth false =
      ap (λ t. seen t (arrow_type floats shape path depth max_depth).0 false)
        (parse-as_str (arrow_type floats shape path depth max_depth).1)
    where
      seen : BsonTag → DataType → Bool → ColumnRef
      seen tag ty mixed = record { path = path; tag = tag; ty = ty; mixed = mixed }
