-- ===== src/Client.antt =====
-- mongo/client.rs: the connection, the listings, the sampling of a collection and its statistics.
pub mod Toy
mod Tests
pub mod Exposed
pub mod Sampling
use auger.Base.{
  ℕ, ◌+◌, ◌-◌, ◌*◌, ◌%◌, ◌^◌, min, max, Bool, true, false, not, List, [], ◌∷◌, ◌++◌, Option, none,
  some, ◌≡◌, Text, codes, if◌then◌else◌, ltb, leb, text_eq, starts_with, any, filter,
}
use auger.Base.Int.{ℤ, pos, negsuc, pos_part, fits_signed}
use auger.Base.Results.{Result, ok, err, ◌>>=◌, map_err}
use auger.Bson.{Bson, Document, doc1, get, object_id, int32, int64, document, end, entry}
use auger.Arrow.{Schema}
use auger.Config.{MongoConfig, CatalogConfig}
use auger.Driver.{Event, received, failed, Aggregate, Driver}
use auger.Infer.Observe.{Sampler, observe, is_empty}
use auger.Infer.Observe
use auger.Infer.Schema.{Floats, finish}
use auger.Store.{CollectionStats}

abbrev pub system_databases : List Text
system_databases = codes "admin" ∷ codes "local" ∷ codes "config" ∷ []

-- `pattern.strip_suffix('*')`
unfoldable pub strip_star : Text → Option Text
strip_star [] = none
strip_star (c ∷ []) = if text_eq (c ∷ []) (codes "*") then some [] else none
strip_star (c ∷ d ∷ s) = elim (strip_star (d ∷ s)) [ none ↦ none | some t ↦ some (c ∷ t) ]

unfoldable pub matches_prefix : Text → Text → Bool
unfolding strip_star
matches_prefix pattern name = elim (strip_star pattern) [
  | none ↦ text_eq pattern name
  | some prefix ↦ starts_with name prefix
]

-- `s.split_once(mark)`: the texts before and behind the first place where the mark stands.
unfoldable pub split_once : Text → Text → Option (Text × Text)
split_once mark [] = none
split_once mark (c ∷ s) =
    if starts_with (c ∷ s) mark
    then some ([], behind mark (c ∷ s))
    else elim (split_once mark s) [ none ↦ none | some (a, b) ↦ some (c ∷ a, b) ]
  where
    behind : Text → Text → Text
    behind [] s = s
    behind (m ∷ ms) [] = []
    behind (m ∷ ms) (x ∷ s) = behind ms s

unfoldable pub redact : Text → Text
unfolding split_once
redact uri = elim (split_once (codes "://") uri) [
  | none ↦ uri
  | some (scheme, rest) ↦ elim (split_once (codes "@") rest) [
    | none ↦ uri
    | some (creds, host) ↦ scheme ++ (codes "://***@" ++ host)
  ]
]

unfoldable pub max_time : MongoConfig → Option ℕ
max_time cfg = if ltb 0 cfg.server_timeout_secs then some cfg.server_timeout_secs else none

-- What the code asks of 64-bit floats and of the crate `bson`.
pub record Numbers : Type 0 where
  -- `((total as f64) * bias.clamp(0.0, 1.0)) as i64`
  pub share : ℕ → ℕ → ℕ
  -- `v as u64`, where `v >= 0.0`
  pub f64_to_u64 : ℕ → Option ℕ
  -- `ObjectId::new()`
  pub new_oid : List ℕ

-- `as u64` of an `i64`.
abbrev pub to_u64 : ℤ → ℕ
to_u64 (pos n) = n
to_u64 (negsuc n) = 2 ^ 64 - 1 - n

abbrev pub or_zero : Option ℕ → ℕ
or_zero none = 0
or_zero (some n) = n

-- `get_i64(key)`, or else `get_i32(key)`, or else 0.
unfoldable pub read_count : Document → Text → ℤ
read_count d key = elim (get d key) [
  | some (Bson.int64 v) ↦ v
  | some (Bson.int32 v) ↦ v
  | _ ↦ pos 0
]

abbrev pub system_prefix : Text
system_prefix = codes "system."

-- The pipelines that sample a collection.
abbrev pub recent_pipeline : ℕ → List Document
recent_pipeline n =
    doc1 (codes "$sort") (document (doc1 (codes "_id") (int32 (negsuc 0))))
    ∷ doc1 (codes "$limit") (int64 (pos n))
    ∷ []

abbrev pub random_pipeline : ℕ → List Document
random_pipeline n = doc1 (codes "$sample") (document (doc1 (codes "size") (int64 (pos n)))) ∷ []

abbrev pub ids_pipeline : ℕ → List Document
ids_pipeline n =
    doc1 (codes "$sample") (document (doc1 (codes "size") (int64 (pos n))))
    ∷ doc1 (codes "$project") (document (doc1 (codes "_id") (int32 (pos 1))))
    ∷ doc1 (codes "$sort") (document (doc1 (codes "_id") (int32 (pos 1))))
    ∷ []

abbrev pub stats_pipeline : List Document
stats_pipeline =
    doc1 (codes "$collStats") (document (doc1 (codes "storageStats") (document end))) ∷ []

abbrev pub plain : Text → Text → List Document → Aggregate
plain db collection pipeline = record {
  database = db;
  collection = collection;
  pipeline = pipeline;
  batch_size = none;
  allow_disk_use = none;
  max_time = none;
}

-- The loop of `drain_into`: what the sampler has seen, and whether the cursor came to its end.
unfoldable pub observe_events : Sampler → List Event → Sampler × Result Text (Unit {0})
observe_events s [] = (s, ok tt)
observe_events s (received d ∷ events) = observe_events (observe s d) events
observe_events s (failed e ∷ events) = (s, err e)

-- The loop of `sample_ids`.
unfoldable pub collect_ids : List Event → Result Text (List Bson)
collect_ids [] = ok []
collect_ids (failed e ∷ events) = err e
collect_ids (received d ∷ events) = collect_ids events >>= λ ids. elim (get d (codes "_id")) [
  | none ↦ ok ids
  | some id ↦ ok (id ∷ ids)
]

-- The loop over the indexes, which an error ends.
unfoldable pub index_keys : List (Result Text (List Text)) → List Text
index_keys [] = []
index_keys (ok keys ∷ rest) = keys ++ index_keys rest
index_keys (err e ∷ rest) = []

abbrev pub no_stats : CollectionStats
no_stats = record { doc_count = 0; avg_doc_size = 0; total_size = 0; indexed_paths = [] }

-- The document of `$collStats`, where the first event is one.
unfoldable pub first_document : List Event → Option Document
first_document (received d ∷ events) = some d
first_document _ = none

abbrev pub or_estimate : Result Text ℕ → CollectionStats
or_estimate (ok n) = record no_stats { doc_count = n }
or_estimate (err e) = no_stats

abbrev pub with_indexes :
    Result Text (List (Result Text (List Text))) → CollectionStats → CollectionStats
with_indexes (ok cursor) s = record s { indexed_paths = index_keys cursor }
with_indexes (err e) s = s

abbrev pub sample_total : CatalogConfig → ℕ
sample_total c = max (pos_part c.sample_size) 1

module _ (numbers : Numbers) where
  open numbers use {f64_to_u64, new_oid}

  unfoldable pub read_number : Document → Text → Option ℕ
  read_number d key = elim (get d key) [
    | some (Bson.int32 (pos n)) ↦ some n
    | some (Bson.int64 (pos n)) ↦ some n
    | some (Bson.double v) ↦ f64_to_u64 v
    | _ ↦ none
  ]

  unfoldable pub storage_stats : Option Document → CollectionStats
  unfolding read_number read_count
  storage_stats none = no_stats
  storage_stats (some d) = elim (get d (codes "storageStats")) [
    | some (Bson.document storage) ↦ record {
      doc_count = to_u64 (read_count storage (codes "count"));
      avg_doc_size = or_zero (read_number storage (codes "avgObjSize"));
      total_size = or_zero (read_number storage (codes "size"));
      indexed_paths = [];
    }
    | _ ↦ no_stats
  ]

  abbrev pub placeholder : Sampler
  placeholder = observe Observe.new (doc1 (codes "_id") (object_id new_oid))

  abbrev pub sampled : Sampler → Sampler
  sampled s = if is_empty s then placeholder else s

-- The connection is the driver and its configuration.
module _ (driver : Driver) (cfg : MongoConfig) where
  open driver use {
    with_options, ping, list_database_names, list_collection_names, aggregate,
    estimated_document_count, list_indexes,
  }

  unfoldable pub connect : Result Text MongoConfig
  unfolding redact
  connect = do
    created ← with_options cfg.uri cfg.connect_timeout_secs (codes "auger")
    answered ←
        map_err (λ e. codes "cannot reach MongoDB at " ++ (redact cfg.uri ++ (codes ": " ++ e)))
          ping
    ok cfg

  unfoldable pub databases : Result Text (List Text)
  databases = elim cfg.databases [
    | [] ↦ list_database_names >>= λ names.
        ok (filter (λ n. not (any (text_eq n) system_databases)) names)
    | d ∷ ds ↦ ok (d ∷ ds)
  ]

  unfoldable pub collections : Text → Result Text (List Text)
  unfolding matches_prefix
  collections db = list_collection_names db >>= λ names. ok (
      filter (λ n. not (any (λ p. matches_prefix p n) cfg.exclude_collections))
        (filter (λ n. not (starts_with n system_prefix)) names))

  unfoldable pub drain_into :
      Text → Text → List Document → Sampler → Sampler × Result Text (Unit {0})
  unfolding observe_events max_time
  drain_into db collection pipeline s =
      elim (aggregate (record {
        database = db;
        collection = collection;
        pipeline = pipeline;
        batch_size = some cfg.cursor_batch_size;
        allow_disk_use = none;
        max_time = max_time cfg;
      })) [ err e ↦ (s, err e) | ok cursor ↦ observe_events s cursor ]

  module _ (numbers : Numbers) where
    open numbers use {share}

    unfoldable pub stats : Text → Text → CollectionStats
    unfolding storage_stats index_keys first_document
    stats db collection =
        let counted : CollectionStats =
          elim (aggregate (plain db collection stats_pipeline)) as (λ r. CollectionStats) [
            | ok cursor ↦ storage_stats numbers (first_document cursor)
            | err e ↦ or_estimate (estimated_document_count db collection)
          ] in
        with_indexes (list_indexes db collection) counted

    -- At most 10,000 ids, which the driver sorts.
    unfoldable pub sample_ids : Text → Text → ℕ → Result Text (List Bson)
    unfolding collect_ids
    sample_ids db collection partitions =
        if leb partitions 1
        then ok []
        else aggregate (plain db collection (ids_pipeline (min (partitions * 64) 10000)))
          >>= collect_ids

    -- The pass over the newest documents, whose failure is an error.
    unfoldable pub recent_pass : Text → Text → ℕ → Sampler × Result Text (Unit {0})
    unfolding drain_into
    recent_pass db collection recent =
        if ltb 0 recent
        then drain_into db collection (recent_pipeline recent) Observe.new
        else (Observe.new, ok tt)

    -- The pass over random documents, whose failure is not; what it has seen until then counts.
    unfoldable pub random_pass : Text → Text → ℕ → Sampler → Sampler
    unfolding drain_into
    random_pass db collection random s =
        if ltb 0 random then (drain_into db collection (random_pipeline random) s).0 else s

    unfoldable pub infer_schema : Floats → Text → Text → CatalogConfig → Result Text Schema
    unfolding recent_pass random_pass
    infer_schema floats db collection c =
        let total = sample_total c in
        let recent = share total c.recent_bias in
        let random = total - recent in
        let (s, passed) = recent_pass db collection recent in
        passed >>= λ done.
        ok (finish floats (sampled numbers (random_pass db collection random s)) c.max_depth)
