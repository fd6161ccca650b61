-- ===== src/Pipeline.antt =====
-- mongo/pipeline.rs: the aggregation pipeline of a scan, its projection, and the `_id` ranges that
-- split it.
pub mod Ranges
pub mod Cover
pub mod Stages
pub mod Projection
pub mod Toy
mod Tests
use auger.Base.{
  ℕ, zero, suc, ◌+◌, ◌*◌, ◌/◌, ◌-◌, min, Bool, true, false, not, ◌&&◌, ◌||◌, List, [], ◌∷◌, ◌++◌,
  map, Option, none, some, Text, codes, if◌then◌else◌, ltb, leb, ◌==◌, length, get_elem?, any,
  starts_with, text_eq, ◌>>=◌,
}
use auger.Base.Int.{ℤ, pos, negsuc, ltb_ℤ}
use auger.Bson.{
  Bson, int32, int64, document, Document, end, entry, doc1, documents, array, Insertion,
}

pub data SortDir : Type 0 where
  asc desc : SortDir

unfoldable pub as_i32 : SortDir → ℤ
as_i32 asc = pos 1
as_i32 desc = negsuc 0

pub record MongoPlan : Type 0 where
  pub filter : Option Document
  pub partition : Option Document
  pub projection : List Text
  pub sort : List (Text × SortDir)
  pub skip : Option ℤ
  pub limit : Option ℤ

unfoldable pub match_both : Option Document → Option Document → Option Document
match_both none none = none
match_both (some f) none = some f
match_both none (some p) = some p
match_both (some f) (some p) = some (doc1 (codes "$and") (array (documents (f ∷ p ∷ []))))

unfoldable pub match_stage : MongoPlan → Option Document
unfolding match_both
match_stage p = match_both p.filter p.partition

-- `path.len() > prefix.len() && path.starts_with(prefix) && path[prefix.len()] == '.'`
unfoldable pub is_strict_prefix : Text → Text → Bool
is_strict_prefix prefix path =
    ltb (length prefix) (length path)
    && starts_with path prefix
    && elim (get_elem? path (length prefix)) [ none ↦ false | some c ↦ c == b'.' ]

-- The loop of `projection_doc` that drops a path with a shorter one in the request.
unfoldable pub kept : List Text → List Text → List Text
kept paths [] = []
kept paths (path ∷ rest) =
    if any (λ other. is_strict_prefix other path) paths
    then kept paths rest
    else path ∷ kept paths rest

abbrev pub is_id : Text → Bool
is_id path = text_eq path (codes "_id") || starts_with path (codes "_id.")

module _ (docs : Insertion) where
  open docs use {insert}

  -- The loop over the kept paths: the projection so far, and `wants_id`.
  pub project_onto : Document → Bool → List Text → Document × Bool
  project_onto d wants [] = (d, wants)
  project_onto d wants (p ∷ ps) =
      project_onto (insert d p (int32 (pos 1))) (if is_id p then true else wants) ps

  unfoldable pub projection_doc : List Text → Document
  unfolding project_onto kept is_strict_prefix
  projection_doc paths =
      let (d, wants) = project_onto end false (kept paths paths) in
      if not wants then insert d (codes "_id") (int32 (pos 0)) else d

  pub sort_doc : Document → List (Text × SortDir) → Document
  sort_doc d [] = d
  sort_doc d ((path, dir) ∷ rest) = sort_doc (insert d path (int32 (as_i32 dir))) rest

  unfoldable pub match_stages : MongoPlan → List Document
  unfolding match_stage
  match_stages p = elim (match_stage p) [
    | none ↦ []
    | some m ↦ doc1 (codes "$match") (document m) ∷ []
  ]

  unfoldable pub sort_stages : List (Text × SortDir) → List Document
  unfolding sort_doc as_i32
  sort_stages [] = []
  sort_stages (k ∷ ks) = doc1 (codes "$sort") (document (sort_doc end (k ∷ ks))) ∷ []

  unfoldable pub skip_stages : Option ℤ → List Document
  skip_stages none = []
  skip_stages (some s) = if ltb_ℤ (pos 0) s then doc1 (codes "$skip") (int64 s) ∷ [] else []

  unfoldable pub limit_stages : Option ℤ → List Document
  limit_stages none = []
  limit_stages (some l) = if not (ltb_ℤ l (pos 0)) then doc1 (codes "$limit") (int64 l) ∷ [] else []

  unfoldable pub project_stages : List Text → List Document
  unfolding projection_doc
  project_stages [] = []
  project_stages (p ∷ ps) = doc1 (codes "$project") (document (projection_doc (p ∷ ps))) ∷ []

  -- The stages in the order in which `to_pipeline` pushes them.
  unfoldable pub to_pipeline : MongoPlan → List Document
  unfolding match_stages sort_stages skip_stages limit_stages project_stages
  to_pipeline p =
      match_stages p
      ++ (sort_stages p.sort
          ++ (skip_stages p.skip ++ (limit_stages p.limit ++ project_stages p.projection)))

abbrev pub bound_if : Text → Option Bson → Document → Document
bound_if op none d = d
bound_if op (some b) d = entry op b d

abbrev is_end : Document → Bool
is_end end = true
is_end (entry k v d) = false

-- `{_id: {$gte: lo, $lt: hi}}`, with the ends that are given.
unfoldable pub id_range : Option Bson → Option Bson → Option Document
id_range lo hi =
    let bounds = bound_if (codes "$gte") lo (bound_if (codes "$lt") hi end) in
    if not (is_end bounds) then some (doc1 (codes "_id") (document bounds)) else none

-- `cuts.last().is_none_or(|last| *last != candidate)`, with the equality of `Bson`.
abbrev pub is_new : (Bson → Bson → Bool) → Option Bson → Bson → Bool
is_new same none candidate = true
is_new same (some last) candidate = not (same last candidate)

-- The loop `for i in 1..n`: `k` rounds are left, the next index is `i`, and `last` is the last cut.
-- An index out of range, where Rust panics, ends the list; `cuts-in_range` shows that it is not met.
unfoldable pub cuts : (Bson → Bson → Bool) → List Bson → ℕ → ℕ → ℕ → Option Bson → List Bson
cuts same ids n zero i last = []
cuts same ids n (suc k) i last = elim (get_elem? ids (i * length ids / n)) [
  | none ↦ []
  | some c ↦
      if is_new same last c
      then c ∷ cuts same ids n k (i + 1) (some c)
      else cuts same ids n k (i + 1) last
]

unfoldable pub ranges : Option Bson → List Bson → List (Option Document)
unfolding id_range
ranges prev [] = id_range prev none ∷ []
ranges prev (c ∷ cs) = id_range prev (some c) ∷ ranges (some c) cs

unfoldable pub partition_bounds : (Bson → Bson → Bool) → List Bson → ℕ → List (Option Document)
unfolding cuts ranges
partition_bounds same sorted_ids n =
    if leb n 1 || ltb (length sorted_ids) 2
    then none ∷ []
    else let parts = min n (length sorted_ids) in
      ranges none (cuts same sorted_ids parts (parts - 1) 1 none)
