-- ===== src/Exec.antt =====
-- mongo/exec.rs: the operator that runs one pipeline for each partition and turns its cursor into a
-- stream of batches. A cursor is what it yields, in order.

pub mod Stream
mod Tests
pub mod Complete
use auger.Base.{
  ℕ, zero, suc, ◌*◌, ◌/◌, min, max, Bool, true, false, not, ◌&&◌, List, [], ◌∷◌, ◌++◌, map, Option,
  none, some, Text, codes, if◌then◌else◌, ltb, leb, length, get_elem?, ◌^◌, ◌-◌,
}
use auger.Base.Results
use auger.Base.Results.{ok, err, ◌>>=◌, ok_or}
use auger.Errors.{DataFusionError, Result}
use auger.Decimal.{show_ℕ}
use auger.Bson.{Document}
use auger.Arrow.{Schema}
use auger.Config.{MongoConfig}
use auger.Driver.{Event, received, failed, Aggregate}
use auger.Store.{CollectionStats}
use auger.Pipeline.{MongoPlan, to_pipeline}
use auger.Bson.{Insertion}

-- The fields of `MongoExec`; the connection is the client's configuration.
pub record MongoExec : Type 0 where
  pub config : MongoConfig
  pub database : Text
  pub collection : Text
  pub schema : Schema
  pub plans : List MongoPlan
  pub batch_size : ℕ
  pub stats : CollectionStats
  pub estimated_rows : ℕ
  pub explain_pipeline : Bool

-- `Partitioning::UnknownPartitioning(plans.len().max(1))`
unfoldable pub partition_count : MongoExec → ℕ
partition_count e = max (length e.plans) 1

pub data Precision : Type 0 where
  inexact : ℕ → Precision
  absent : Precision

pub record Statistics : Type 0 where
  pub num_rows : Precision
  pub total_byte_size : Precision

-- `saturating_mul` on `usize`.
abbrev pub saturating_mul : ℕ → ℕ → ℕ
saturating_mul a b = min (a * b) (2 ^ 64 - 1)

unfoldable pub statistics_of : MongoExec → Statistics
statistics_of e = record {
  num_rows = inexact e.estimated_rows;
  total_byte_size =
      if ltb 0 e.stats.avg_doc_size
      then inexact (saturating_mul e.estimated_rows e.stats.avg_doc_size)
      else absent;
}

unfoldable pub partition_statistics : MongoExec → Option ℕ → Statistics
unfolding statistics_of
partition_statistics e none = statistics_of e
partition_statistics e (some partition) = record {
  num_rows = inexact (e.estimated_rows / max (length e.plans) 1);
  total_byte_size = (statistics_of e).total_byte_size;
}

pub data DisplayFormatType : Type 0 where
  default verbose tree_render : DisplayFormatType

-- `parts.join(", ")`
abbrev pub join_comma : List Text → Text
join_comma [] = []
join_comma (t ∷ []) = t
join_comma (t ∷ u ∷ ts) = t ++ (codes ", " ++ join_comma (u ∷ ts))

abbrev pub when : Bool → Text → List Text
when true t = t ∷ []
when false t = []

abbrev pub is_some {ℓ} : {A : Type ℓ} → Option A → Bool
is_some none = false
is_some (some a) = true

abbrev pub is_empty {ℓ} : {A : Type ℓ} → List A → Bool
is_empty [] = true
is_empty (x ∷ xs) = false

-- What was pushed to the server.
unfoldable pub pushed : MongoPlan → List Text
pushed p =
    when (is_some p.filter) (codes "$match")
    ++ (when (not (is_empty p.sort)) (codes "$sort")
        ++ (when (is_some p.limit) (codes "$limit")
            ++ when (not (is_empty p.projection))
                (codes "$project(" ++ (show_ℕ (length p.projection) ++ codes ")"))))

abbrev pub bracketed : Text → List Text → Text
bracketed label parts = codes ", " ++ (label ++ (codes "=[" ++ (join_comma parts ++ codes "]")))

unfoldable pub show_pushed : Option MongoPlan → Text
unfolding pushed
show_pushed none = []
show_pushed (some p) = if is_empty (pushed p) then [] else bracketed (codes "pushed") (pushed p)

-- The loop that accumulates one batch: what it has gathered, and the cursor after it.
unfoldable pub fill : ℕ → List Event → Result (List Document × List Event)
fill zero cursor = ok ([], cursor)
fill (suc n) [] = ok ([], [])
fill (suc n) (received d ∷ cursor) = fill n cursor >>= λ (docs, rest). ok (d ∷ docs, rest)
fill (suc n) (failed e ∷ cursor) = err (DataFusionError.external e)

module _ (docs : Insertion) where
  module _ (show_document : Document → Text) where
    unfoldable pub show_pipeline : Option MongoPlan → Text
    unfolding to_pipeline
    show_pipeline none = []
    show_pipeline (some p) = bracketed (codes "pipeline") (map show_document (to_pipeline docs p))

    unfoldable pub fmt_as : MongoExec → DisplayFormatType → Text
    unfolding show_pushed show_pipeline
    fmt_as e t =
        let plan = get_elem? e.plans 0 in
        let head =
          codes "MongoExec: "
          ++ (e.database
              ++ (b'.' ∷ (e.collection ++ (codes ", partitions=" ++ show_ℕ (length e.plans))))) in
        elim t [
          | default ↦ head ++ show_pushed plan
          | _ ↦ head ++ (if e.explain_pipeline then show_pipeline plan else [])
        ]

  unfoldable pub aggregate_of : MongoExec → MongoPlan → Aggregate
  unfolding to_pipeline
  aggregate_of e plan = record {
    database = e.database;
    collection = e.collection;
    pipeline = to_pipeline docs plan;
    batch_size = some e.config.cursor_batch_size;
    allow_disk_use = some e.config.allow_disk_use;
    max_time =
        if ltb 0 e.config.server_timeout_secs then some e.config.server_timeout_secs else none;
  }

abbrev pub no_partition : ℕ → ℕ → DataFusionError
no_partition plans partition = DataFusionError.internal (
    codes "MongoExec has "
    ++ (show_ℕ plans ++ (codes " partitions but " ++ (show_ℕ partition ++ codes " was requested"))))

-- A leaf takes no children.
unfoldable pub with_new_children : {Plan : Type 0} → MongoExec → List Plan → Result MongoExec
with_new_children e [] = ok e
with_new_children e (c ∷ cs) =
    err (DataFusionError.internal (codes "MongoExec is a leaf and takes no children"))

module _ {Batch : Type 0} (convert : Schema → List Document → Result Batch) where
  -- What is polled of the stream: its end, an error, which ends it, or a batch and the cursor after it.
  pub data Poll : Type 0 where
    finished : Poll
    broken : DataFusionError → Poll
    yielded : Batch → List Event → Poll

  abbrev pub convert_filled : Schema → List Document × List Event → Poll
  convert_filled schema ([], rest) = finished
  convert_filled schema (d ∷ ds, rest) = elim (convert schema (d ∷ ds)) [
    | ok b ↦ yielded b rest
    | err e ↦ broken e
  ]

  -- One round of `try_unfold`.
  unfoldable pub poll : Schema → ℕ → List Event → Poll
  unfolding fill
  poll schema batch_size cursor = elim (fill batch_size cursor) [
    | ok filled ↦ convert_filled schema filled
    | err e ↦ broken e
  ]

  -- The stream of a cursor. Each batch takes an event, so that one round more than there are events is
  -- enough.
  unfoldable pub stream : ℕ → Schema → ℕ → List Event → List (Result Batch)
  unfolding poll
  stream zero schema batch_size cursor = []
  stream (suc fuel) schema batch_size cursor = elim (poll schema batch_size cursor) [
    | finished ↦ []
    | broken e ↦ err e ∷ []
    | yielded b rest ↦ ok b ∷ stream fuel schema batch_size rest
  ]

  module _ (docs : Insertion) (aggregate : Aggregate → Results.Result Text (List Event)) where
    -- The cursor is opened when the stream is first polled; a failure to open it is the one item.
    unfoldable pub open_stream : MongoExec → MongoPlan → List (Result Batch)
    unfolding stream aggregate_of
    open_stream e plan = elim (aggregate (aggregate_of docs e plan)) [
      | err reason ↦ err (DataFusionError.external reason) ∷ []
      | ok cursor ↦ stream (suc (length cursor)) e.schema (max e.batch_size 1) cursor
    ]

    unfoldable pub execute : MongoExec → ℕ → Result (List (Result Batch))
    unfolding open_stream
    execute e partition =
        ok_or (get_elem? e.plans partition) (no_partition (length e.plans) partition) >>= λ plan.
        ok (open_stream e plan)
