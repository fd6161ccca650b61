-- ===== src/Provider/Scan.antt =====
-- mongo/provider.rs, `scan`: the plans of a scan together return each row that the pushed filters accept
-- once.
use auger.Base.{
  ℕ, ◌+◌, Bool, true, ◌&&◌, List, [], ◌∷◌, map, Option, none, some, ◌≡◌, refl, sym, ◌∙◌, ap, ap₂,
  Text, if◌then◌else◌, ltb, leb, length, all, arith, Bool-cases, Option-cases, inl, inr, ◌||◌,
}
use auger.Bson.{Bson, Document}
use auger.Pipeline.{MongoPlan, match_both, match_stage, id_range, ranges, partition_bounds}
use auger.Pipeline.Ranges.{IdServer, accepts, times_read}
use auger.Pipeline.Cover.{IsSorted, IsUniform, partition_bounds-reads_once}
use auger.Pushdown.Translate.{Translated, and_doc, combine}
use auger.Arrow.{Schema}
use auger.Pushdown.Expr.{Expr}
use auger.Pushdown.Literal.{Libs}
use auger.Config.{PushdownConfig}
use auger.Provider.{
  scan_partitions, plan_of, project_schema, scan, scan_paths, translated, want_partitions,
}

-- A server whose documents have an `_id`: `$and` is conjunction, and a range of `_id` looks at the
-- `_id` only.
pub record ScanServer : Type 1 where
  pub Row : Type 0
  pub id : Row → Bson
  pub matches : Document → Row → Bool
  pub ids : IdServer
  pub matches-and :
      (ds : List Document) (r : Row) → matches (and_doc ds) r ≡ all (λ d. matches d r) ds
  pub matches-id_range :
      (lo hi : Option Bson) (d : Document) (r : Row)
      → id_range lo hi ≡ some d
      → matches d r ≡ ids.matches d (id r)

module _ (s : ScanServer) where
  open s use {Row, id, matches, ids, matches-and, matches-id_range}

  abbrev pub returns : Option Document → Row → Bool
  returns none r = true
  returns (some d) r = matches d r

  -- How many of the partitions, or of the plans, return a row.
  abbrev pub times_in : List (Option Document) → Row → ℕ
  times_in [] r = 0
  times_in (p ∷ ps) r = (if returns p r then 1 else 0) + times_in ps r

  abbrev pub times_returned : List MongoPlan → Row → ℕ
  times_returned [] r = 0
  times_returned (p ∷ ps) r = (if returns (match_stage p) r then 1 else 0) + times_returned ps r

  returns-match_both :
      (f p : Option Document) (r : Row) → returns (match_both f p) r ≡ (returns f r && returns p r)
  unfolding match_both
  returns-match_both none none r = refl
  returns-match_both (some f) none r = ground arith
  returns-match_both none (some p) r = refl
  returns-match_both (some f) (some p) r = matches-and (f ∷ p ∷ []) r ∙ ground arith

  returns-combine :
      (ts : List Translated) (r : Row)
      → returns (combine ts) r ≡ all (λ (t : Translated). matches t.filter r) ts
  unfolding combine
  returns-combine [] r = refl
  returns-combine (t ∷ []) r = ground arith
  returns-combine (t ∷ u ∷ ts) r =
      matches-and (map (λ (t : Translated). t.filter) (t ∷ u ∷ ts)) r ∙ all-map (t ∷ u ∷ ts)
    where
      all-map :
          (ts : List Translated)
          → all (λ d. matches d r) (map (λ (t : Translated). t.filter) ts)
            ≡ all (λ (t : Translated). matches t.filter r) ts
      all-map [] = refl
      all-map (t ∷ ts) = ap (◌&&◌ (matches t.filter r)) (all-map ts)

  returns-id_range :
      (lo hi : Option Bson) (r : Row)
      → returns (id_range lo hi) r ≡ accepts ids (id_range lo hi) (id r)
  returns-id_range lo hi r = elim (Option-cases (id_range lo hi)) [
    | inl e ↦ rw e refl
    | inr (d, e) ↦ rw e (matches-id_range lo hi d r e)
  ]

  times_in-ranges :
      (prev : Option Bson) (cs : List Bson) (r : Row)
      → times_in (ranges prev cs) r ≡ times_read ids (ranges prev cs) (id r)
  unfolding ranges
  times_in-ranges prev [] r = ap (λ b. (if b then 1 else 0) + 0) (returns-id_range prev none r)
  times_in-ranges prev (c ∷ cs) r =
      ap₂ (λ b n. (if b then 1 else 0) + n) (returns-id_range prev (some c) r)
        (times_in-ranges (some c) cs r)

  times_in-partition_bounds :
      (same : Bson → Bson → Bool) (sample : List Bson) (n : ℕ) (r : Row)
      → times_in (partition_bounds same sample n) r
        ≡ times_read ids (partition_bounds same sample n) (id r)
  unfolding partition_bounds
  times_in-partition_bounds same sample n r = elim (Bool-cases (leb n 1 || ltb (length sample) 2)) [
    | inl e ↦ rw e refl
    | inr e ↦ rw e (times_in-ranges none _ r)
  ]

  times_returned-map :
      (config : PushdownConfig) (filter : Option Document) (paths : List Text) (limit : Option ℕ)
      (ps : List (Option Document)) (r : Row)
      → times_returned (map (plan_of config filter paths limit) ps) r
        ≡ (if returns filter r then times_in ps r else 0)
  unfolding plan_of match_stage
  times_returned-map config filter paths limit [] r = ground arith
  times_returned-map config filter paths limit (p ∷ ps) r =
      ground
        (arith, returns-match_both filter p r, times_returned-map config filter paths limit ps r)

  -- The sample, where there is one, is sorted.
  abbrev pub IsSortedSample : (Bson → Bson → Bool) → Option (List Bson) → Type 0
  IsSortedSample same none = Unit
  IsSortedSample same (some sample) = IsSorted ids same sample

  -- The sample, where there is one, is in the bracket of the row's `_id`.
  abbrev pub IsUniformSample : (Bson → Bson → Bool) → Row → Option (List Bson) → Type 0
  IsUniformSample same r none = Unit
  IsUniformSample same r (some sample) = IsUniform ids same sample (id r)

  times_in-scan_partitions :
      (same : Bson → Bson → Bool) (sample : Option (List Bson)) (want : ℕ) (r : Row)
      → IsSortedSample same sample
      → IsUniformSample same r sample
      → times_in (scan_partitions same sample want) r ≡ 1
  unfolding scan_partitions
  times_in-scan_partitions same sample want r sorted uniform = elim (Bool-cases (ltb 1 want)) [
    | inl e ↦ rw e (sampled sample sorted uniform)
    | inr e ↦ rw e refl
  ]
    where
      sampled :
          (sample : Option (List Bson))
          → IsSortedSample same sample
          → IsUniformSample same r sample
          → times_in
              (elim sample [ none ↦ none ∷ [] | some ids ↦ partition_bounds same ids want ])
              r
            ≡ 1
      sampled none h u = refl
      sampled (some xs) h u =
          times_in-partition_bounds same xs want r
          ∙ partition_bounds-reads_once ids same xs want (id r) h u

  module _ (lib : Libs) (schema : Schema) where
    -- Among the plans of a scan there is exactly one whose `$match` stage accepts a row that all of the
    -- translated filters accept, and none that accepts another row: whatever the projection, the limit,
    -- the parallelism and the sample of `_id`, which is sorted and of the bracket of BSON types of the
    -- row's `_id`, or has failed. With filters switched off, every such row is accepted once.
    pub scan-returns_once :
        (config : PushdownConfig) (available : Option ℕ) (doc_count : ℕ) (same : Bson → Bson → Bool)
        (sample : Option (List Bson)) (projection : Option (List ℕ)) (filters : List Expr)
        (limit : Option ℕ) (plans : List MongoPlan) (r : Row)
        → scan lib schema config available doc_count same sample projection filters limit
          ≡ some plans
        → IsSortedSample same sample
        → IsUniformSample same r sample
        → times_returned plans r ≡ (
            if all (λ (t : Translated). matches t.filter r) (translated lib schema config filters)
            then 1
            else 0)
    unfolding scan
    scan-returns_once config available doc_count same sample projection filters limit plans r h
          sorted uniform =
        planned (project_schema schema projection) h
      where
        want : ℕ
        want = want_partitions config available doc_count limit

        filter : Option Document
        filter = combine (translated lib schema config filters)

        planned :
            (o : Option Schema)
            → elim o [
              | none ↦ none
              | some projected ↦ some (
                  map
                    (plan_of config filter (scan_paths projection projected) limit)
                    (scan_partitions same sample want))
            ]
              ≡ some plans
            → times_returned plans r ≡ (
                if all
                  (λ (t : Translated). matches t.filter r)
                  (translated lib schema config filters)
                then 1
                else 0)
        planned none h = absurd cc
        planned (some projected) h =
            let e : map (plan_of config filter (scan_paths projection projected) limit)
                  (scan_partitions same sample want)
                ≡ plans =
              cc in
            ap (λ ps. times_returned ps r) (sym e)
            ∙ times_returned-map config filter (scan_paths projection projected) limit
                (scan_partitions same sample want) r
            ∙ ap₂ (λ b n. if b then n else 0)
                (returns-combine (translated lib schema config filters) r)
                (times_in-scan_partitions same sample want r sorted uniform)
