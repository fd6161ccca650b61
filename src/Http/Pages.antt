-- ===== src/Http/Pages.antt =====
-- http/mod.rs: what the pages of health, of the catalog and of one table show. Floats of the configuration are
-- printed as they are kept, and the clock is a parameter.
use auger.Base.{
  ℕ, ◌+◌, Bool, true, false, List, [], ◌∷◌, ◌++◌, map, Option, none, some, Text, codes, length,
}
use auger.Base.Int.{ℤ, pos}
use auger.Base.Results.{Result, ok, err, ◌>>=◌, map_err}
use auger.Arrow.{DataType, Field, Fields, field, name_of, is_nullable}
use auger.Config.{Config, AuthMode}
use auger.Driver.{Driver}
use auger.Infer.Tag.{tag_of, as_str, field_is_mixed, field_path}
use auger.Client.{collections, redact}
use auger.Store.{CachedTable, CatalogStore, Serde, key, known_tables, get_fresh, put}
use auger.Store
use auger.Catalog.{MongoCatalog}
use auger.Http.{ApiError, api_error}

-- `serde_json::Value`
mutual
  pub data Value : Type 0 where
    null : Value
    boolean : Bool → Value
    number : ℤ → Value
    string : Text → Value
    array : Values → Value
    object : Members → Value

  pub data Values : Type 0 where
    nil : Values
    cons : Value → Values → Values

  pub data Members : Type 0 where
    end : Members
    member : Text → Value → Members → Members

abbrev pub count : ℕ → Value
count n = number (pos n)

abbrev pub values : List Value → Values
values [] = nil
values (v ∷ vs) = cons v (values vs)

abbrev pub members : List (Text × Value) → Members
members [] = end
members ((k, v) ∷ ms) = member k v (members ms)

abbrev pub json : List (Text × Value) → Value
json ms = object (members ms)

abbrev pub or_null {ℓ} : {A : Type ℓ} → (A → Value) → Option A → Value
or_null f none = null
or_null f (some a) = f a

abbrev pub field_object : Text → Field → Values → Value
field_object type_text f children = json (
    (codes "name", string (name_of f))
    ∷ (codes "path", string (field_path f))
    ∷ (codes "type", string type_text)
    ∷ (codes "bson", string (as_str (tag_of f)))
    ∷ (codes "mixed", boolean (field_is_mixed f))
    ∷ (codes "nullable", boolean (is_nullable f))
    ∷ (codes "children", array children)
    ∷ [])

-- `show_type` prints a type as the crate `arrow` does.
module _ (show_type : DataType → Text) where
  unfoldable mutual
    unfolding field_path tag_of as_str field_is_mixed

    pub field_json : Field → Value
    field_json (field name (DataType.struct fs) n m) =
        field_object (show_type (DataType.struct fs)) (field name (DataType.struct fs) n m)
          (children_json fs)
    field_json (field name (DataType.list item) n m) =
        field_object (show_type (DataType.list item)) (field name (DataType.list item) n m)
          (cons (field_json item) nil)
    field_json (field name ty n m) = field_object (show_type ty) (field name ty n m) nil

    pub children_json : Fields → Values
    children_json Fields.nil = nil
    children_json (Fields.cons f fs) = cons (field_json f) (children_json fs)

  unfoldable pub table_json : Text → Text → CachedTable → Value
  unfolding field_json
  table_json db table entry = json (
      (codes "db", string db)
      ∷ (codes "table", string table)
      ∷ (codes "inferred_at", count entry.inferred_at)
      ∷ (
        codes "stats",
        json (
            (codes "doc_count", count entry.stats.doc_count)
            ∷ (codes "avg_doc_size", count entry.stats.avg_doc_size)
            ∷ (codes "total_size", count entry.stats.total_size)
            ∷ (codes "indexed_paths", array (values (map string entry.stats.indexed_paths)))
            ∷ []),
      )
      ∷ (codes "columns", array (values (map field_json entry.schema)))
      ∷ [])

abbrev pub auth_text : AuthMode → Text
auth_text AuthMode.trust = codes "trust"
auth_text AuthMode.md5 = codes "md5"
auth_text AuthMode.scram = codes "scram"

abbrev pub sum : List ℕ → ℕ
sum [] = 0
sum (n ∷ ns) = n + sum ns

abbrev pub is_ok {ℓ} : {E A : Type ℓ} → Result E A → Bool
is_ok (ok a) = true
is_ok (err e) = false

abbrev pub error_of : Result Text (Unit {0}) → Value
error_of (ok a) = null
error_of (err e) = string e

abbrev pub listing : Text → Text → ApiError
listing db e = api_error 502 (codes "listing " ++ (db ++ (codes ": " ++ e)))

module _ {Json S : Type 0} (driver : Driver) (config : Config) where
  -- The version is that of the package, and the time since the start is in seconds.
  unfoldable pub health : Text → ℕ → (ℕ → Value) → MongoCatalog Json S → Value
  unfolding redact
  health version uptime show_f64 c = json (
      (codes "ok", boolean (is_ok driver.ping))
      ∷ (codes "version", string version)
      ∷ (codes "uptime_secs", count uptime)
      ∷ (
        codes "mongo",
        json (
            (codes "uri", string (redact config.mongo.uri))
            ∷ (codes "reachable", boolean (is_ok driver.ping))
            ∷ (codes "error", error_of driver.ping)
            ∷ []),
      )
      ∷ (
        codes "sql",
        json (
            (codes "listen", string config.server.listen)
            ∷ (codes "auth", string (auth_text config.server.auth))
            ∷ (codes "query_enabled", boolean config.server.http_query)
            ∷ []),
      )
      ∷ (
        codes "catalog",
        json (
            (codes "sample_size", number config.catalog.sample_size)
            ∷ (codes "recent_bias", show_f64 config.catalog.recent_bias)
            ∷ (codes "max_depth", count config.catalog.max_depth)
            ∷ (codes "rare_field_threshold", show_f64 config.catalog.rare_field_threshold)
            ∷ (codes "refresh_interval_secs", count config.catalog.refresh_interval_secs)
            ∷ (
              codes "cached_tables",
              count (sum (map (λ db. length (known_tables c.store db)) c.databases)),
            )
            ∷ []),
      )
      ∷ [])

  -- What is shown of a collection: only what the store has of it.
  unfoldable pub listed : MongoCatalog Json S → Text → Text → Value
  listed c db name =
      let cached = Store.get c.store (key db name) in
      json (
        (codes "name", string name)
        ∷ (codes "inferred", boolean (elim cached [ none ↦ false | some t ↦ true ]))
        ∷ (codes "columns", or_null (λ (t : CachedTable). count (length t.schema)) cached)
        ∷ (codes "doc_count", or_null (λ (t : CachedTable). count t.stats.doc_count) cached)
        ∷ (codes "inferred_at", or_null (λ (t : CachedTable). count t.inferred_at) cached)
        ∷ [])

  unfoldable pub list_databases : MongoCatalog Json S → List Text → Result ApiError (List Value)
  unfolding listed collections
  list_databases c [] = ok []
  list_databases c (db ∷ dbs) =
      map_err (listing db) (collections driver config.mongo db) >>= λ names.
      list_databases c dbs >>= λ rest. ok (
        json (
          (codes "name", string db)
          ∷ (codes "tables", array (values (map (listed c db) names)))
          ∷ [])
        ∷ rest)

  unfoldable pub catalog : MongoCatalog Json S → Result ApiError Value
  unfolding list_databases
  catalog c = list_databases c c.databases >>= λ dbs.
      ok (json ((codes "databases", array (values dbs)) ∷ []))
