-- ===== src/Provider/Tests.antt =====
-- Examples for mongo/provider.rs: tests and witnesses.
use auger.Base.{
  Bool, true, false, ◌&&◌, List, [], ◌∷◌, map, none, some, ◌≡◌, refl, ◌∙◌, codes, all, arith,
  if◌then◌else◌,
}
use auger.Base.Int.{pos}
use auger.Arrow.{DataType, field, Schema}
use auger.Bson.{Bson, int32}
use auger.Pipeline.{MongoPlan}
use auger.Infer.Tag.{meta_bson, meta_path}
use auger.Pipeline.Toy.{server, matches, all_of-documents, ids, same, ids-IsSorted, ids-IsUniform}
use auger.Pushdown.Toy.{lib}
use auger.Pushdown.Expr.{Expr, Operator, ScalarValue}
use auger.Pushdown.Translate.{Translated, combine}
use auger.Config.{PushdownConfig, default_pushdown}
use auger.Provider.{scan, translated, scan_partitions, plan_of, want_partitions}
use auger.Provider.Scan.{
  ScanServer, times_returned, IsSortedSample, IsUniformSample, scan-returns_once,
}

&&-true : (b : Bool) → (b && true) ≡ b
&&-true b = ground arith

scan_server : ScanServer
unfolding matches server
scan_server = record {
  Row = Bson;
  id = λ x. x;
  matches = matches;
  ids = server;
  matches-and = λ ds x. &&-true _ ∙ all_of-documents ds x;
  matches-id_range = λ lo hi d x h. refl;
}

abbrev schema : Schema
schema =
    field (codes "_id") DataType.int32 false
      ((meta_bson, codes "int32") ∷ (meta_path, codes "_id") ∷ [])
    ∷ []

-- `_id >= 15`
abbrev filters : List Expr
filters =
    Expr.binary (Expr.column (codes "_id")) Operator.gt_eq
      (Expr.literal (ScalarValue.int32 (some (pos 15))))
    ∷ []

abbrev config : PushdownConfig
config = record default_pushdown { scan_parallelism = 3; parallel_scan_min_docs = 10 }

abbrev plans : List MongoPlan
plans =
    map (plan_of config (combine (translated lib schema config filters)) [] none)
      (scan_partitions same (some ids) (want_partitions config none 100 none))

row : scan_server.Row
unfolding scan_server
row = int32 (pos 20)

sample-IsSortedSample : IsSortedSample scan_server same (some ids)
unfolding scan_server
sample-IsSortedSample = ids-IsSorted

sample-IsUniformSample : IsUniformSample scan_server same row (some ids)
unfolding scan_server row
sample-IsUniformSample = ids-IsUniform 20

plans-scan : scan lib schema config none 100 same (some ids) none filters none ≡ some plans
unfolding scan
plans-scan = refl

scan-returns_once_example : times_returned scan_server plans row ≡ (
    if all
      (λ (t : Translated). scan_server.matches t.filter row)
      (translated lib schema config filters)
    then 1
    else 0)
scan-returns_once_example =
    scan-returns_once scan_server lib schema config none 100 same (some ids) none filters none plans
      row plans-scan sample-IsSortedSample sample-IsUniformSample
