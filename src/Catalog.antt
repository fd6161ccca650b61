-- ===== src/Catalog.antt =====
-- catalog/provider.rs: the schemas of the SQL catalog, and how a table is resolved. The lock on the
-- shared listings is taken to be unpoisoned; a state is what the locks guard and what the store holds.
pub mod Frozen
mod Tests
use auger.Base.{
  ℕ, Bool, true, false, List, [], ◌∷◌, ◌++◌, map, Option, none, some, Text, codes, if◌then◌else◌,
  text_eq, any,
}
use auger.Base.Results
use auger.Base.Results.{ok, err, ◌>>=◌}
use auger.Errors.{DataFusionError, Result}
use auger.Arrow.{Schema}
use auger.Config.{Config}
use auger.Driver.{Driver}
use auger.Infer.Schema.{Floats}
use auger.Client
use auger.Client.{Numbers, collections, infer_schema, stats}
use auger.Store.{
  Map, lookup, insert, CatalogStore, CachedTable, CollectionStats, Serde, key, known_tables,
  get_fresh, put,
}

-- What a table is made of, besides the connection.
pub record MongoTable : Type 0 where
  pub database : Text
  pub collection : Text
  pub schema : Schema
  pub stats : CollectionStats
  pub config : Config

-- A schema of the catalog: a database, or one that was registered.
pub data SchemaProvider (S : Type 0) : Type 0 where
  registered : S → SchemaProvider S
  database : Text → SchemaProvider S

pub record MongoCatalog (Json S : Type 0) : Type 0 where
  pub databases : List Text
  pub listings : Map (List Text)
  pub extra : Map S
  pub store : CatalogStore Json

-- In some order, as a hash map has it.
abbrev pub keys {ℓ} : {A : Type ℓ} → Map A → List Text
keys [] = []
keys ((k, a) ∷ m) = k ∷ keys m

-- The loop of `new` over the databases: a listing that fails is left out.
unfoldable pub list_all : Driver → Config → List Text → Map (List Text) → Map (List Text)
unfolding insert collections
list_all driver config [] listings = listings
list_all driver config (db ∷ dbs) listings = elim (collections driver config.mongo db) [
  | ok names ↦ list_all driver config dbs (insert listings db names)
  | err e ↦ list_all driver config dbs listings
]

-- `names.iter().any(|n| n == name)`
abbrev pub contains : List Text → Text → Bool
contains names name = any (λ n. text_eq n name) names

module _ {Json S : Type 0} where
  unfoldable pub new :
      Driver → Config → CatalogStore Json → Results.Result Text (MongoCatalog Json S)
  unfolding list_all
  new driver config store = Client.databases driver config.mongo >>= λ names. ok (record {
    databases = names;
    listings = list_all driver config names [];
    extra = [];
    store = store;
  })

  unfoldable pub schema_names : MongoCatalog Json S → List Text
  schema_names c = c.databases ++ keys c.extra

  -- Registered schemas win.
  unfoldable pub schema : MongoCatalog Json S → Text → Option (SchemaProvider S)
  schema c name = elim (lookup c.extra name) [
    | some found ↦ some (registered found)
    | none ↦ if contains c.databases name then some (database name) else none
  ]

  -- The schema that the name had, and the catalog afterwards.
  unfoldable pub register_schema : MongoCatalog Json S → Text → S → Option S × MongoCatalog Json S
  register_schema c name s = (lookup c.extra name, record c { extra = insert c.extra name s })

  unfoldable pub cached_names : MongoCatalog Json S → Text → List Text
  cached_names c db = elim (lookup c.listings db) [
    | some names ↦ names
    | none ↦ known_tables c.store db
  ]

  unfoldable pub table_exist : MongoCatalog Json S → Text → Text → Bool
  unfolding cached_names
  table_exist c db name = contains (cached_names c db) name

  module _ (driver : Driver) (config : Config) where
    unfoldable pub refresh : MongoCatalog Json S → Text → List Text × MongoCatalog Json S
    unfolding cached_names
    refresh c db = elim (collections driver config.mongo db) [
      | ok names ↦ (names, record c { listings = insert c.listings db names })
      | err e ↦ (cached_names c db, c)
    ]

    -- Whether a table is there, with a new listing on a miss.
    unfoldable pub resolve : MongoCatalog Json S → Text → Text → Bool × MongoCatalog Json S
    unfolding refresh table_exist
    resolve c db name =
        let (names, refreshed) = refresh c db in
        if table_exist c db name then (true, c) else (contains names name, refreshed)

abbrev pub inferring : Text → Text → DataFusionError
inferring k e = DataFusionError.external (codes "inferring schema for " ++ (k ++ (codes ": " ++ e)))

abbrev pub table_of : Config → Text → Text → CachedTable → MongoTable
table_of config db name entry = record {
  database = db;
  collection = name;
  schema = entry.schema;
  stats = entry.stats;
  config = config;
}

abbrev pub found : Config → Text → Text → Result CachedTable → Result (Option MongoTable)
found config db name (ok entry) = ok (some (table_of config db name entry))
found config db name (err e) = err e

module _ {S : Type 0} (driver : Driver) (config : Config) (numbers : Numbers) (floats : Floats)
    (serde : Serde) (now : ℕ) (writes : Bool) where
  open serde use {Json}

  -- The entry of a collection: from the store while it is fresh, or else by sampling, and then put.
  unfoldable pub entry_of :
      MongoCatalog Json S → Text → Text → Result CachedTable × MongoCatalog Json S
  entry_of c db name =
      let k = key db name in
      elim (get_fresh now c.store k config.catalog.refresh_interval_secs) [
        | some cached ↦ (ok cached, c)
        | none ↦ elim (infer_schema driver config.mongo numbers floats db name config.catalog) [
          | err e ↦ (err (inferring k e), c)
          | ok inferred ↦
              let (entry, store) =
                put serde now writes c.store k inferred
                  (stats driver config.mongo numbers db name) in
              (ok entry, record c { store = store })
        ]
      ]

  unfoldable pub table :
      MongoCatalog Json S → Text → Text → Result (Option MongoTable) × MongoCatalog Json S
  unfolding resolve entry_of
  table c db name =
      let (there_is, c') = resolve driver config c db name in
      let (entry, c'') = entry_of c' db name in
      if there_is then (found config db name entry, c'') else (ok none, c')
