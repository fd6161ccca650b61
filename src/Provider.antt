-- ===== src/Provider.antt =====
-- mongo/provider.rs: what is claimed of a filter, and the plans of a scan. With it `project_schema` of
-- mongo/convert.rs.
pub mod Scan
pub mod Plan
mod Tests
use auger.Base.{
  ℕ, ◌+◌, min, max, Bool, true, false, not, ◌&&◌, List, [], ◌∷◌, map, Option, none, some, Text,
  if◌then◌else◌, ◌==◌, ltb, leb, traverse, get_elem?,
}
use auger.Base.Int.{ℤ, pos, fits_signed}
use auger.Config.{PushdownConfig, effective_parallelism}
use auger.Arrow.{Schema}
use auger.Bson.{Bson, Document}
use auger.Infer.Tag.{field_path}
use auger.Pipeline.{MongoPlan, partition_bounds}
use auger.Pushdown.Expr.{Expr}
use auger.Pushdown.Literal.{Libs}
use auger.Pushdown.Translate.{Translated, translate, combine}

-- `none` for a projection index out of range, which is an error there.
unfoldable pub project_schema : Schema → Option (List ℕ) → Option Schema
project_schema schema none = some schema
project_schema schema (some indices) = traverse (λ i. get_elem? schema i) indices

pub data FilterPushDown : Type 0 where
  exact inexact unsupported : FilterPushDown

unfoldable pub support_of : Option Translated → FilterPushDown
support_of none = unsupported
support_of (some t) = if t.exact then exact else inexact

unfoldable pub filter_map {ℓ κ} : {A : Type ℓ} {B : Type κ} → (A → Option B) → List A → List B
filter_map f [] = []
filter_map f (x ∷ xs) = let rest = filter_map f xs in elim (f x) [ none ↦ rest | some y ↦ y ∷ rest ]

unfoldable pub scan_paths : Option (List ℕ) → Schema → List Text
scan_paths none projected = []
scan_paths (some indices) projected = map field_path projected

-- `sample_ids` is the driver's sample, and `none` where it failed; `same` the equality of `Bson`.
unfoldable pub scan_partitions :
    (Bson → Bson → Bool) → Option (List Bson) → ℕ → List (Option Document)
scan_partitions same sample_ids want =
    if ltb 1 want
    then elim sample_ids [ none ↦ none ∷ [] | some ids ↦ partition_bounds same ids want ]
    else none ∷ []

-- The limit that a plan carries: `i64::try_from`, and only where limits are pushed.
unfoldable pub limit_of : PushdownConfig → Option ℕ → Option ℤ
limit_of config none = none
limit_of config (some l) = if config.limits && fits_signed 63 (pos l) then some (pos l) else none

unfoldable pub plan_of :
    PushdownConfig → Option Document → List Text → Option ℕ → Option Document → MongoPlan
unfolding limit_of
plan_of config filter paths limit partition = record {
  filter = filter;
  partition = partition;
  projection = paths;
  sort = [];
  skip = none;
  limit = limit_of config limit;
}

abbrev pub want_partitions : PushdownConfig → Option ℕ → ℕ → Option ℕ → ℕ
want_partitions config available doc_count none = effective_parallelism config available doc_count
want_partitions config available doc_count (some l) = 1

module _ (lib : Libs) (schema : Schema) where
  unfoldable pub supports_filters_pushdown : List Expr → List FilterPushDown
  unfolding support_of
  supports_filters_pushdown filters = map (λ f. support_of (translate lib schema f)) filters

  -- The filters that are sent.
  unfoldable pub translated : PushdownConfig → List Expr → List Translated
  unfolding filter_map
  translated config filters =
      if config.filters then filter_map (translate lib schema) filters else []

  -- The plans of `scan`, or `none` where the projection is an error.
  unfoldable pub scan :
      PushdownConfig
      → Option ℕ
      → ℕ
      → (Bson → Bson → Bool)
      → Option (List Bson)
      → Option (List ℕ)
      → List Expr
      → Option ℕ
      → Option (List MongoPlan)
  unfolding project_schema translated scan_paths scan_partitions plan_of effective_parallelism
  scan config available doc_count same sample_ids projection filters limit =
      elim (project_schema schema projection) [
        | none ↦ none
        | some projected ↦ some (
            map
              (plan_of config (combine (translated config filters))
                (scan_paths projection projected) limit)
              (scan_partitions same sample_ids (want_partitions config available doc_count limit)))
      ]
