-- ===== src/Exec/Tests.antt =====
-- Examples for mongo/exec.rs and mongo/convert.rs: tests and witnesses.
use auger.Base.{ℕ, List, [], ◌∷◌, map, none, some, ◌≡◌, refl, true, codes, Text, length, arith}
use auger.Base.Int.{pos}
use auger.Base.Results
use auger.Base.Results.{ok, err}
use auger.Errors.{Result}
use auger.Bson.{Bson, Document, doc1}
use auger.Arrow.{Schema}
use auger.Config.{default_mongo}
use auger.Decimal.{show_ℕ}
use auger.Pipeline.{MongoPlan}
use auger.Bson.Ordered
use auger.Convert.Columns.{documents_to_batch}
use auger.Convert.Toy.{vals, checks}
use auger.Driver.{Event, received, failed, Aggregate}
use auger.Exec.{MongoExec, stream, execute, fmt_as, DisplayFormatType}
use auger.Exec.Stream.{Delivers, stream-Delivers}
use auger.Exec.Complete.{Converts, execute_complete, concat, IsSplit}

abbrev plan : MongoPlan
plan = record {
  filter = none;
  partition = none;
  projection = codes "a" ∷ [];
  sort = [];
  skip = none;
  limit = some (pos 3);
}

abbrev exec : MongoExec
exec = record {
  config = default_mongo;
  database = codes "shop";
  collection = codes "orders";
  schema = [];
  plans = plan ∷ [];
  batch_size = 2;
  stats = record { doc_count = 3; avg_doc_size = 10; total_size = 30; indexed_paths = [] };
  estimated_rows = 3;
  explain_pipeline = true;
}

abbrev docs : List Document
docs =
    doc1 (codes "a") (Bson.int32 (pos 1))
    ∷ doc1 (codes "a") (Bson.int32 (pos 2))
    ∷ doc1 (codes "a") (Bson.int32 (pos 3))
    ∷ []

-- A batch is its number of rows.
abbrev convert : Schema → List Document → Result ℕ
convert = documents_to_batch vals checks (λ schema columns n. ok n)

abbrev make : List Document → ℕ
make ds = length ds

abbrev aggregate : Aggregate → Results.Result Text (List Event)
aggregate a = ok (map received docs)

total : Converts convert [] 2 make docs
unfolding documents_to_batch
total before part after e within = refl

default-fmt_as :
    fmt_as Ordered.docs (λ d. []) exec DisplayFormatType.default
    ≡ codes "MongoExec: shop.orders, partitions=1, pushed=[$limit, $project(1)]"
unfolding fmt_as show_ℕ
default-fmt_as = refl

abbrev broken_cursor : List Event
broken_cursor = received (doc1 (codes "a") Bson.null) ∷ failed (codes "network") ∷ []

stream-Delivers_example : Delivers convert [] 2 broken_cursor (stream convert 3 [] 2 broken_cursor)
stream-Delivers_example = stream-Delivers convert [] 2 3 broken_cursor (omega arith) (omega arith)

execute_complete_example :
    (parts : List (List Document)) × (execute convert Ordered.docs aggregate exec 0
      ≡ ok (map (λ p. ok (make p)) parts))
    × (concat parts ≡ docs)
    × IsSplit 2 parts
execute_complete_example =
    execute_complete convert Ordered.docs aggregate exec 0 plan docs make refl refl total
