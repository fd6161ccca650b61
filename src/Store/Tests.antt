-- ===== src/Store/Tests.antt =====
-- Examples for catalog/store.rs: tests and witnesses.
use auger.Base.{map, true, false, [], ◌∷◌, none, some, ◌≡◌, ◌↔◌, refl, codes, In}
use auger.Base.Int.{pos}
use auger.Arrow.{DataType, field, Schema}
use auger.Store.Types.{StoredType, stored, field_from_arrow, field_to_arrow}
use auger.Store.{
  CachedTable, CollectionStats, CatalogStore, StoredCatalog, stored_tables, persist, new, put, get,
  get_fresh, key, known_tables,
}
use auger.Store.Toy.{serde}
use auger.Store.RoundTrip.{IsStorable, get-new-persist, schema_to_arrow-from_arrow}
use auger.Store.Lookup.{get_fresh-put, known_tables_iff}

abbrev stats : CollectionStats
stats = record { doc_count = 3; avg_doc_size = 10; total_size = 30; indexed_paths = [] }

abbrev columns : Schema
columns = field (codes "_id") DataType.utf8 false ((codes "auger.path", codes "_id") ∷ []) ∷ []

abbrev table : CachedTable
table = record { schema = columns; stats = stats; inferred_at = 50 }

abbrev store : CatalogStore StoredCatalog
store = record { path = some (codes "c.json"); tables = (codes "db.t", table) ∷ []; file = none }

abbrev catalog : StoredCatalog
catalog = record { version = 1; tables = stored_tables store.tables }

store-IsStorable : IsStorable store.tables
unfolding field_from_arrow
store-IsStorable = ((_, refl), tt)

schema_to_arrow-from_arrow_example :
    map field_to_arrow (stored (codes "a") (StoredType.decimal 38 (pos 10)) true [] ∷ [])
    ≡ field (codes "a") (DataType.decimal128 38 (pos 10)) true [] ∷ []
unfolding field_from_arrow
schema_to_arrow-from_arrow_example =
    schema_to_arrow-from_arrow (field (codes "a") (DataType.decimal128 38 (pos 10)) true [] ∷ [])
      refl

get-new-persist_example :
    get (new serde (some (codes "c.json")) (persist serde true store).file) (codes "db.t")
    ≡ get store (codes "db.t")
get-new-persist_example =
    get-new-persist serde store (codes "c.json") catalog (codes "db.t") refl refl store-IsStorable

get_fresh-put_example :
    get_fresh 100 (put serde 60 true store (codes "db.u") columns stats).1 (codes "db.u") 30 ≡ none
get_fresh-put_example = get_fresh-put serde 60 100 30 true store (codes "db.u") columns stats

known_tables_iff_example :
    In (codes "t") (known_tables store (codes "db"))
    ↔ ((t : CachedTable) × (get store (key (codes "db") (codes "t")) ≡ some t))
known_tables_iff_example = known_tables_iff store (codes "db") (codes "t")
