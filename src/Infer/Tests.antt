-- ===== src/Infer/Tests.antt =====
-- Examples for catalog/infer.rs: tests and witnesses.
use auger.Base.{◌≤◌, all, leb, ◌/◌, true, false, List, [], ◌∷◌, some, ◌≡◌, refl, codes, traverse}
use auger.Base.Int.{pos}
use auger.Arrow.{DataType}
use auger.Bson.{Bson, nil, cons, Document, doc1, entry, end}
use auger.Infer.Tag.{BsonTag}
use auger.Infer.Shape.{Shape, slot, unify, shape_eq, join_arms, size}
use auger.Infer.Observe.{new, observe_all}
use auger.Infer.Schema.{Floats, arrow_type, build_field, finish}
use auger.Infer.Fields.{column_ref_of-build_field}
use auger.Infer.Join.{list_depth, list_depth-unify, is_honest, is_honest-unify}
use auger.Infer.Kept.{nesting_field, nesting-finish, finish-kept}
use auger.Pushdown.Column.{column_ref_of}
use auger.Store.Types.{StoredField, field_from_arrow}

abbrev floats : Floats
floats = record { divide = λ a b. a / b; format_6 = λ f. codes "0.000000" }

column_ref_of-build_field_example :
    column_ref_of (build_field floats (codes "n") (codes "a.n") (slot Shape.int64 3 1 true) 4 1 4)
    ≡ record { path = codes "a.n"; tag = BsonTag.int64; ty = DataType.int64; mixed = true }
unfolding arrow_type
column_ref_of-build_field_example =
    column_ref_of-build_field floats (codes "n") (codes "a.n") Shape.int64 3 1 4 1 4 true

-- An array of numbers and one of texts, and a single value beside an array.
abbrev numbers : Shape
numbers = Shape.array Shape.int32

list_depth-unify_example : list_depth (unify numbers (Shape.array Shape.int64) false).0 ≤ 1
list_depth-unify_example = list_depth-unify numbers (Shape.array Shape.int64) false

is_honest-unify_example :
    is_honest (unify Shape.int32 Shape.utf8 false) Shape.int32 Shape.utf8 false ≡ true
is_honest-unify_example = is_honest-unify Shape.int32 Shape.utf8 false

-- The order of joins shows.
unify-grouping :
    ((unify (unify Shape.int32 Shape.utf8 false).0 (Shape.array Shape.bool) false).0 ≡ Shape.json)
    × ((unify Shape.int32 (unify Shape.utf8 (Shape.array Shape.bool) false).0 false).0
        ≡ Shape.array Shape.json)
unfolding unify shape_eq join_arms size
unify-grouping = (refl, refl)

abbrev samples : List Document
samples =
    entry (codes "n") (Bson.int32 (pos 1)) (entry (codes "_id") (Bson.int32 (pos 7)) end)
    ∷ doc1 (codes "n") (Bson.array (cons (Bson.string (codes "a")) nil))
    ∷ []

finish-kept_example :
    (out : List StoredField) × (traverse field_from_arrow
        (finish floats (observe_all new samples) 4)
      ≡ some out)
finish-kept_example = finish-kept floats (observe_all new samples) 4

nesting-finish_example :
    all (λ f. leb (nesting_field f) 1) (finish floats (observe_all new samples) 1) ≡ true
nesting-finish_example = nesting-finish floats (observe_all new samples) 1
