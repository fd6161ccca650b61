-- ===== src/Store.antt =====
-- catalog/store.rs: the catalog of frozen schemas and the form in which it is kept on disk.
pub mod Types
pub mod RoundTrip
pub mod Lookup
pub mod Toy
mod Tests
use auger.Base.{
  ℕ, ◌+◌, ◌-◌, Bool, true, false, List, [], ◌∷◌, ◌++◌, map, Option, none, some, ◌≡◌, Text, codes,
  if◌then◌else◌, ◌==◌, leb, text_eq, ◌>>=◌, then_some, traverse,
}
use auger.Arrow.{Schema}
use auger.Store.Types.{StoredField, field_from_arrow, field_to_arrow}

pub record CollectionStats : Type 0 where
  pub doc_count : ℕ
  pub avg_doc_size : ℕ
  pub total_size : ℕ
  pub indexed_paths : List Text

pub record CachedTable : Type 0 where
  pub schema : Schema
  pub stats : CollectionStats
  pub inferred_at : ℕ

pub record StoredTable : Type 0 where
  pub fields : List StoredField
  pub stats : CollectionStats
  pub inferred_at : ℕ

abbrev pub Map {ℓ} : Type ℓ → Type ℓ
Map A = List (Text × A)

pub record StoredCatalog : Type 0 where
  pub version : ℕ
  pub tables : Map StoredTable

abbrev pub catalog_version : ℕ
catalog_version = 1

-- `HashMap::get` and `HashMap::insert`
unfoldable pub lookup {ℓ} : {A : Type ℓ} → Map A → Text → Option A
lookup [] k = none
lookup ((j, a) ∷ m) k = if text_eq j k then some a else lookup m k

unfoldable pub insert {ℓ} : {A : Type ℓ} → Map A → Text → A → Map A
insert [] k a = (k, a) ∷ []
insert ((j, b) ∷ m) k a = if text_eq j k then (k, a) ∷ m else (j, b) ∷ insert m k a

-- `serde_json`: what it writes it reads back.
pub record Serde : Type 1 where
  pub Json : Type 0
  pub to_string : StoredCatalog → Option Json
  pub from_str : Json → Option StoredCatalog
  pub from_str-to_string :
      (c : StoredCatalog) (t : Json) → to_string c ≡ some t → from_str t ≡ some c

-- The store, and what the file at its path holds.
pub record CatalogStore (Json : Type 0) : Type 0 where
  pub path : Option Text
  pub tables : Map CachedTable
  pub file : Option Json

-- The loop of `persist`: a table that has no stored form is skipped.
unfoldable pub stored_tables : Map CachedTable → Map StoredTable
unfolding field_from_arrow
stored_tables [] = []
stored_tables ((k, v) ∷ rest) = elim (traverse field_from_arrow v.schema) [
  | none ↦ stored_tables rest
  | some fields ↦
      (k, record { fields = fields; stats = v.stats; inferred_at = v.inferred_at })
      ∷ stored_tables rest
]

-- The loop of `load_from`; the order in which a map is walked is not determined.
unfoldable pub loaded_tables : Map StoredTable → Map CachedTable → Map CachedTable
unfolding insert field_to_arrow
loaded_tables [] tables = tables
loaded_tables ((k, t) ∷ rest) tables =
    insert (loaded_tables rest tables) k (record {
      schema = map field_to_arrow t.fields;
      stats = t.stats;
      inferred_at = t.inferred_at;
    })

-- `format!("{db}.{collection}")`
unfoldable pub key : Text → Text → Text
key db collection = db ++ (b'.' ∷ collection)

-- `k.strip_prefix(&prefix)`
unfoldable pub strip_prefix : Text → Text → Option Text
strip_prefix k [] = some k
strip_prefix [] (y ∷ p) = none
strip_prefix (x ∷ k) (y ∷ p) = if x == y then strip_prefix k p else none

unfoldable pub known : Map CachedTable → Text → List Text
unfolding strip_prefix
known [] prefix = []
known ((k, t) ∷ m) prefix =
    let rest = known m prefix in elim (strip_prefix k prefix) [ none ↦ rest | some c ↦ c ∷ rest ]

unfoldable pub known_tables : {J : Type 0} → CatalogStore J → Text → List Text
unfolding known
known_tables s db = known s.tables (db ++ (b'.' ∷ []))

unfoldable pub get : {J : Type 0} → CatalogStore J → Text → Option CachedTable
unfolding lookup
get s k = lookup s.tables k

-- `now` is the clock; a stamp in the future counts as age 0, as `saturating_sub` has it.
unfoldable pub get_fresh : {J : Type 0} → ℕ → CatalogStore J → Text → ℕ → Option CachedTable
unfolding get
get_fresh now s k max_age_secs = do
  entry ← get s k
  if max_age_secs == 0
      then some entry
      else then_some (leb (now - entry.inferred_at) max_age_secs) entry

-- The end of `persist`: no path, or nothing to write, and a write that fails leaves the old file, since
-- the new one goes to a sibling that is renamed.
unfoldable pub write_file :
    {J : Type 0} → Option Text → Option J → Bool → CatalogStore J → CatalogStore J
write_file (some p) (some json) true s = record {
  path = s.path;
  tables = s.tables;
  file = some json;
}
write_file _ _ _ s = s

module _ (serde : Serde) where
  open serde use {Json, to_string, from_str}

  unfoldable pub persist : Bool → CatalogStore Json → CatalogStore Json
  unfolding stored_tables write_file
  persist writes s =
      write_file s.path
        (to_string (record { version = catalog_version; tables = stored_tables s.tables })) writes s

  unfoldable pub load_from : CatalogStore Json → CatalogStore Json
  unfolding loaded_tables
  load_from s = elim s.file [
    | none ↦ s
    | some raw ↦ elim (from_str raw) [
      | none ↦ s
      | some stored ↦
          if stored.version == catalog_version
          then record {
            path = s.path;
            tables = loaded_tables stored.tables s.tables;
            file = s.file;
          }
          else s
    ]
  ]

  unfoldable pub new : Option Text → Option Json → CatalogStore Json
  unfolding load_from
  new path file =
      let store : CatalogStore Json = record { path = path; tables = []; file = file } in
      elim path as (λ p. CatalogStore Json) [ none ↦ store | some p ↦ load_from store ]

  unfoldable pub put :
      ℕ
      → Bool
      → CatalogStore Json
      → Text
      → Schema
      → CollectionStats
      → CachedTable × CatalogStore Json
  unfolding insert persist
  put now writes s k schema stats =
      let entry : CachedTable = record { schema = schema; stats = stats; inferred_at = now } in
      (
        entry,
        persist writes (record { path = s.path; tables = insert s.tables k entry; file = s.file }),
      )
