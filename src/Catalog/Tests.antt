-- ===== src/Catalog/Tests.antt =====
-- Examples for catalog/provider.rs: tests and witnesses.
use auger.Base.{true, [], ◌∷◌, none, some, ◌≡◌, refl, Text, codes, text_eq}
use auger.Base.Results.{ok, err}
use auger.Config.{Config, default_config}
use auger.Store.{CachedTable, CatalogStore, StoredCatalog, get_fresh, key}
use auger.Store.Toy.{serde}
use auger.Client.{infer_schema}
use auger.Client.Toy.{driver, broken_driver, cfg, numbers, floats, inferred, orders-infer_schema}
use auger.Catalog.{MongoCatalog, registered, schema, register_schema, entry_of, table, inferring}
use auger.Catalog.Frozen.{schema-register_schema, entry_of-frozen, table-fails}

abbrev store : CatalogStore StoredCatalog
store = record { path = none; tables = []; file = none }

-- Schemas that are registered are texts.
abbrev empty : MongoCatalog StoredCatalog Text
empty = record {
  databases = codes "shop" ∷ [];
  listings = (codes "shop", codes "orders" ∷ []) ∷ [];
  extra = [];
  store = store;
}

schema-register_schema_example :
    schema (register_schema empty (codes "shop") (codes "views")).1 (codes "shop")
    ≡ some (registered (codes "views"))
unfolding text_eq
schema-register_schema_example =
    schema-register_schema empty (codes "shop") (codes "shop") (codes "views")

abbrev config : Config
config = record default_config { mongo = cfg }

missing-get_fresh : get_fresh 5 store (key (codes "shop") (codes "orders")) 3600 ≡ none
unfolding get_fresh
missing-get_fresh = refl

entry_of-frozen_example :
    (e : CachedTable) × ((entry_of driver config numbers floats serde 5 true empty
        (codes "shop")
        (codes "orders")).0
      ≡ ok e)
    × (e.schema ≡ inferred)
    × (entry_of broken_driver config numbers floats serde 90 true
          (entry_of driver config numbers floats serde 5 true empty
            (codes "shop")
            (codes "orders")).1
          (codes "shop")
          (codes "orders")
        ≡ (
          ok e,
          (entry_of driver config numbers floats serde 5 true empty
              (codes "shop")
              (codes "orders")).1,
        ))
entry_of-frozen_example =
    entry_of-frozen Text driver config numbers floats serde broken_driver 5 90 true true empty
      (codes "shop") (codes "orders") inferred missing-get_fresh orders-infer_schema refl

network-table :
    (table broken_driver config numbers floats serde 5 true empty (codes "shop") (codes "orders")).0
    ≡ err (inferring (codes "shop.orders") (codes "network"))
unfolding table get_fresh text_eq infer_schema key
network-table = refl

table-fails_example :
    (table broken_driver config numbers floats serde 5 true empty
      (codes "shop")
      (codes "orders")).1.store
    ≡ store
table-fails_example =
    table-fails Text broken_driver config numbers floats serde 5 true empty (codes "shop")
      (codes "orders") (inferring (codes "shop.orders") (codes "network")) network-table
