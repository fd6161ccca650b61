-- ===== src/Client/Toy.antt =====
-- A driver with one database and one collection of two documents. It serves the examples only.
use auger.Base.{List, [], ◌∷◌, none, ◌≡◌, refl, codes, ◌/◌}
use auger.Base.Int.{pos}
use auger.Base.Results.{ok, err}
use auger.Bson.{Bson, doc1}
use auger.Arrow.{Schema}
use auger.Config.{MongoConfig, default_mongo, default_catalog}
use auger.Driver.{Driver, Event, received}
use auger.Infer.Schema.{Floats, finish}
use auger.Client.{Numbers, infer_schema, sampled, random_pass, recent_pass, drain_into}

abbrev pub cursor : List Event
cursor =
    received (doc1 (codes "_id") (Bson.int32 (pos 1)))
    ∷ received (doc1 (codes "_id") (Bson.int32 (pos 2)))
    ∷ []

abbrev pub driver : Driver
driver = record {
  with_options = λ uri timeout app. ok tt;
  ping = ok tt;
  list_database_names = ok (codes "shop" ∷ codes "admin" ∷ []);
  list_collection_names = λ db. ok (codes "orders" ∷ codes "system.views" ∷ codes "tmp_1" ∷ []);
  aggregate = λ a. ok cursor;
  estimated_document_count = λ db c. ok 2;
  list_indexes = λ db c. ok (ok (codes "_id" ∷ []) ∷ []);
}

-- A driver that lists, and whose aggregations fail.
abbrev pub broken_driver : Driver
broken_driver = record driver { aggregate = λ a. err (codes "network") }

abbrev pub cfg : MongoConfig
cfg = record default_mongo { exclude_collections = codes "tmp_*" ∷ [] }

-- A quarter of the sample is recent.
abbrev pub numbers : Numbers
numbers = record { share = λ total bias. total / 4; f64_to_u64 = λ v. none; new_oid = [] }

abbrev pub floats : Floats
floats = record { divide = λ a b. a / b; format_6 = λ f. codes "0.000000" }

-- The schema of its collection.
abbrev pub inferred : Schema
inferred =
    finish floats
      (sampled numbers (
        random_pass driver cfg numbers (codes "shop") (codes "orders") 750
          (recent_pass driver cfg numbers (codes "shop") (codes "orders") 250).0))
      4

pub orders-infer_schema :
    infer_schema driver cfg numbers floats (codes "shop") (codes "orders") default_catalog
    ≡ ok inferred
unfolding infer_schema recent_pass drain_into
orders-infer_schema = refl
