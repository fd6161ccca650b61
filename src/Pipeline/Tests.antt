-- ===== src/Pipeline/Tests.antt =====
-- Examples for mongo/pipeline.rs: a concrete document store and `_id` order, tests and witnesses.
use auger.Base.{
  starts_with, true, false, List, [], ◌∷◌, map, none, some, ◌≡◌, ◌⊎◌, refl, Text, codes, In, here,
  text_eq,
}
use auger.Base.Int.{pos}
use auger.Bson.{int32, doc1, get}
use auger.Bson.Ordered.{docs, insert}
use auger.Pipeline.{
  MongoPlan, SortDir, to_pipeline, projection_doc, partition_bounds, is_strict_prefix, kept,
}
use auger.Pipeline.Ranges.{times_read}
use auger.Pipeline.Toy.{server, ids, same, ids-IsSorted, ids-IsUniform}
use auger.Pipeline.Cover.{partition_bounds-reads_once}
use auger.Pipeline.Stages.{first_key, to_pipeline-first_key}
use auger.Pipeline.Projection.{projection_doc-get, projection_doc-covers, projection_doc-antichain}

partition_bounds-reads_once_example :
    times_read server (partition_bounds same ids 3) (int32 (pos 20)) ≡ 1
partition_bounds-reads_once_example =
    partition_bounds-reads_once server same ids 3 (int32 (pos 20)) ids-IsSorted (ids-IsUniform 20)

abbrev plan : MongoPlan
plan = record {
  filter = some (doc1 (codes "age") (int32 (pos 3)));
  partition = none;
  projection = codes "a" ∷ [];
  sort = (codes "a", SortDir.desc) ∷ [];
  skip = some (pos 0);
  limit = some (pos 0);
}

to_pipeline-first_key_example :
    map first_key (to_pipeline docs plan)
    ≡ codes "$match" ∷ codes "$sort" ∷ codes "$limit" ∷ codes "$project" ∷ []
to_pipeline-first_key_example = to_pipeline-first_key docs plan

abbrev paths : List Text
paths = codes "a.b" ∷ codes "a" ∷ codes "ab" ∷ []

projection_doc-get_example : get (projection_doc docs paths) (codes "_id") ≡ some (int32 (pos 0))
unfolding kept is_strict_prefix text_eq starts_with
projection_doc-get_example = projection_doc-get docs paths (codes "_id")

projection_doc-covers_example :
    (q : Text) × (get (projection_doc docs paths) q ≡ some (int32 (pos 1)))
    × ((q ≡ codes "a.b") ⊎ (is_strict_prefix q (codes "a.b") ≡ true))
projection_doc-covers_example = projection_doc-covers docs paths (codes "a.b") (here refl)

projection_doc-antichain_example :
    In (codes "a") paths × (is_strict_prefix (codes "ab") (codes "a") ≡ false)
unfolding projection_doc kept is_strict_prefix get insert text_eq starts_with
projection_doc-antichain_example =
    projection_doc-antichain docs paths (codes "a") (codes "ab") refl refl
