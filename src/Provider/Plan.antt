-- ===== src/Provider/Plan.antt =====
-- mongo/provider.rs: the estimates of a table, and the operator that `scan` returns.
use auger.Base.{ℕ, ◌/◌, min, max, Bool, true, false, List, Option, none, some, if◌then◌else◌, ltb}
use auger.Arrow.{Schema}
use auger.Bson.{Bson}
use auger.Pipeline.{MongoPlan}
use auger.Pushdown.Expr.{Expr}
use auger.Pushdown.Literal.{Libs}
use auger.Pushdown.Translate.{combine}
use auger.Store.{CollectionStats}
use auger.Catalog.{MongoTable}
use auger.Exec.{MongoExec, Statistics, inexact, absent}
use auger.Provider.{scan, translated, project_schema}

-- A fifth of the documents where a filter is sent, and at least one.
unfoldable pub estimate_rows : CollectionStats → Bool → Option ℕ → ℕ
estimate_rows stats filtered limit =
    let base = stats.doc_count in
    let after_filter = if filtered then max (base / 5) 1 else base in
    elim limit [ none ↦ after_filter | some l ↦ min after_filter l ]

unfoldable pub statistics : CollectionStats → Statistics
statistics stats = record {
  num_rows = inexact stats.doc_count;
  total_byte_size = if ltb 0 stats.total_size then inexact stats.total_size else absent;
}

abbrev pub is_some {ℓ} : {A : Type ℓ} → Option A → Bool
is_some none = false
is_some (some a) = true

abbrev pub exec_of : Libs → MongoTable → Schema → List MongoPlan → List Expr → Option ℕ → MongoExec
exec_of lib t projected plans filters limit = record {
  config = t.config.mongo;
  database = t.database;
  collection = t.collection;
  schema = projected;
  plans = plans;
  batch_size = t.config.server.batch_size;
  stats = t.stats;
  estimated_rows =
      estimate_rows t.stats (is_some (combine (translated lib t.schema t.config.pushdown filters)))
        limit;
  explain_pipeline = t.config.pushdown.explain_pipeline;
}

unfoldable pub scan_exec :
    Libs
    → MongoTable
    → Option ℕ
    → (Bson → Bson → Bool)
    → Option (List Bson)
    → Option (List ℕ)
    → List Expr
    → Option ℕ
    → Option MongoExec
unfolding scan estimate_rows project_schema translated
scan_exec lib t available same sample_ids projection filters limit =
    elim (project_schema t.schema projection) [
      | none ↦ none
      | some projected ↦
          elim (scan lib t.schema t.config.pushdown available t.stats.doc_count same sample_ids
            projection filters limit) [
              | none ↦ none
              | some plans ↦ some (exec_of lib t projected plans filters limit)
            ]
    ]
