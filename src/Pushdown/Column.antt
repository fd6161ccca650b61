-- ===== src/Pushdown/Column.antt =====
-- mongo/pushdown.rs: columns and literals resolved against the inferred schema.
use auger.Base.{
  Bool, true, ◌||◌, List, [], ◌∷◌, ◌++◌, Option, none, some, Text, codes, if◌then◌else◌, ◌>>=◌,
  then_some, text_eq,
}
use auger.Arrow.{DataType, Field, field_list, name_of, data_type, Schema, find}
use auger.Bson.{Bson}
use auger.Infer.Tag.{BsonTag, tag_of, field_is_mixed, field_path}
use auger.Pushdown.Expr.{ScalarValue, Expr, Exprs}
use auger.Pushdown.Literal.{Libs, scalar_to_bson}

pub record ColumnRef : Type 0 where
  pub path : Text
  pub tag : BsonTag
  pub ty : DataType
  pub mixed : Bool

unfoldable pub column_ref_of : Field → ColumnRef
unfolding field_path tag_of field_is_mixed
column_ref_of f = record {
  path = field_path f;
  tag = tag_of f;
  ty = data_type f;
  mixed = field_is_mixed f;
}

-- A child of a struct column: its own recorded path, or one composed from the parent's.
unfoldable pub child_ref : ColumnRef → Field → ColumnRef
unfolding column_ref_of
child_ref parent child =
    let c = column_ref_of child in
    record c {
      path =
          if text_eq c.path (name_of child) then parent.path ++ (b'.' ∷ name_of child) else c.path;
      mixed = c.mixed || parent.mixed;
    }

unfoldable pub get_field : ColumnRef → DataType → Text → Option ColumnRef
unfolding child_ref
get_field parent (DataType.struct children) key = elim (find (field_list children) key) [
  | none ↦ none
  | some child ↦ some (child_ref parent child)
]
get_field parent _ key = none

module _ (lib : Libs) (schema : Schema) where
  open lib use {data_type_eq}

  unfoldable pub resolve_column : Expr → Option ColumnRef
  unfolding column_ref_of get_field
  resolve_column (Expr.column name) = elim (find schema name) [
    | none ↦ none
    | some f ↦ some (column_ref_of f)
  ]
  resolve_column (Expr.alias e n) = resolve_column e
  resolve_column (Expr.cast e to) =
      resolve_column e >>= λ inner. then_some (data_type_eq to inner.ty) inner
  resolve_column
        (Expr.scalar_function f
          (Exprs.cons base (Exprs.cons (Expr.literal (ScalarValue.utf8 (some key))) Exprs.nil))) =
      let parent = resolve_column base in
      if text_eq f (codes "get_field") then (parent >>= λ p. get_field p p.ty key) else none
  resolve_column _ = none

unfoldable pub literal_of : Libs → Expr → ColumnRef → Option Bson
unfolding scalar_to_bson
literal_of lib (Expr.literal scalar) c = scalar_to_bson lib scalar c.tag
literal_of lib _ c = none

unfoldable pub is_literal : Expr → Bool
is_literal (Expr.literal s) = true
is_literal _ = auger.Base.false
