-- ===== src/Convert/Tests.antt =====
-- Examples for mongo/convert.rs: tests and witnesses.
use auger.Base.{
  All, arith, [], ◌∷◌, some, none, ◌≡◌, ◌⊎◌, ◌/◌, refl, codes, text_eq, List, ℕ, map, true, false,
}
use auger.Base.Int.{pos, negsuc}
use auger.Base.Results.{ok, err}
use auger.Errors.{DataFusionError, Result}
use auger.Bson.{Bson, doc1, doc2, get, Document, nil, cons}
use auger.Arrow.{DataType, Field, Fields, field, data_type, get_meta, Schema}
use auger.Arrow.Array.{Array, Columns, rows, array_type, IsWellTyped}
use auger.Infer.Observe.{new, observe_all}
use auger.Infer.Schema.{Floats, finish}
use auger.Convert.{encode, lookup_path}
use auger.Convert.Toy.{vals, checks}
use auger.Decimal.{show_ℤ}
use auger.Convert.Scalars.{parse_decimal, scale_int}
use auger.Convert.Printed.{parse_decimal-show_ℤ}
use auger.Convert.Columns.{columns_of, documents_to_batch, expect}
use auger.Convert.Rows.{column, documents_to_batch-rows}
use auger.Convert.Types.{array_types-columns_of}
use auger.Convert.Failures.{IsFull, columns_of-finish}

abbrev bytes : List ℕ
bytes = b'M' ∷ b'a' ∷ b'n' ∷ b'M' ∷ []

bytes-encode : encode bytes ≡ codes "TWFuTQ=="
unfolding encode
bytes-encode = refl

nested-lookup_path :
    lookup_path
      (doc1 (codes "a") (Bson.document (doc1 (codes "b") (Bson.int32 (pos 3)))))
      (codes "a.b")
    ≡ some (Bson.int32 (pos 3))
unfolding lookup_path get text_eq
nested-lookup_path = refl

-- A list of numbers, which a document may also hold as a number by itself.
abbrev item : Field
item = field (codes "item") DataType.int32 true []

abbrev flag : Field
flag = field (codes "c") DataType.boolean true []

abbrev schema : Schema
schema =
    field (codes "a") (DataType.list item) true []
    ∷ field (codes "b") (DataType.struct (Fields.cons flag Fields.nil)) true []
    ∷ []

abbrev docs : List Document
docs =
    doc2 (codes "a") (Bson.array (cons (Bson.int32 (pos 1)) (cons (Bson.int32 (pos 2)) nil)))
      (codes "b") (Bson.document (doc1 (codes "c") (Bson.boolean true)))
    ∷ doc1 (codes "a") (Bson.int32 (pos 3))
    ∷ []

abbrev columns : List Array
columns =
    Array.lists item (0 ∷ 2 ∷ 3 ∷ [])
      (Array.int32s (some (pos 1) ∷ some (pos 2) ∷ some (pos 3) ∷ [])) (true ∷ true ∷ [])
    ∷ Array.structs (Fields.cons flag Fields.nil)
        (Columns.cons (Array.booleans (some true ∷ none ∷ [])) Columns.nil) (true ∷ false ∷ [])
    ∷ []

docs-columns_of : columns_of vals checks schema docs ≡ ok columns
unfolding columns_of expect get_meta get text_eq
docs-columns_of = refl

-- A batch is its columns.
docs-documents_to_batch :
    documents_to_batch vals checks (λ schema columns n. ok columns) schema docs ≡ ok columns
unfolding documents_to_batch columns_of expect get_meta get text_eq
docs-documents_to_batch = refl

abbrev succeed : List Array → Result (List Array)
succeed cs = ok cs

documents_to_batch-rows_example :
    (cs : List Array) × (succeed cs ≡ ok columns) × (map rows cs ≡ map (column vals docs) schema)
documents_to_batch-rows_example =
    documents_to_batch-rows vals checks (λ schema columns n. ok columns) schema docs columns
      docs-documents_to_batch

array_types-columns_of_example :
    (map array_type columns ≡ map data_type schema) × All IsWellTyped columns
array_types-columns_of_example = array_types-columns_of vals checks schema docs docs-columns_of

abbrev floats : Floats
floats = record { divide = λ a b. a / b; format_6 = λ f. codes "0.000000" }

abbrev sampled : Schema
sampled = finish floats (observe_all new docs) 4

columns_of-finish_example :
    ((cs : List Array) × (columns_of vals checks sampled docs ≡ ok cs))
    ⊎ ((e : DataFusionError) × (columns_of vals checks sampled docs ≡ err e) × IsFull e)
columns_of-finish_example = columns_of-finish vals checks floats (observe_all new docs) 4 docs refl

parse_decimal-show_ℤ_example :
    parse_decimal (show_ℤ (negsuc 1233)) (pos 2) ≡ scale_int (negsuc 1233) (pos 2)
parse_decimal-show_ℤ_example = parse_decimal-show_ℤ (negsuc 1233) 2 refl (omega arith)
