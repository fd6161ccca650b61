-- ===== src/Pipeline/Stages.antt =====
-- mongo/pipeline.rs, `to_pipeline`: which stages a plan renders to, and in which order.
use auger.Base.{
  Bool, true, false, not, ◌||◌, List, [], ◌∷◌, ◌++◌, map, Option, none, some, ◌≡◌, refl, arith,
  Text, codes, ap₂, ◌∙◌,
}
use auger.Base.Int.{ℤ, pos, negsuc, ltb_ℤ}
use auger.Bson.{Document, end, entry, Insertion}
use auger.Pipeline.{
  MongoPlan, SortDir, match_both, match_stages, sort_stages, skip_stages, limit_stages,
  project_stages, to_pipeline,
}

abbrev pub first_key : Document → Text
first_key end = []
first_key (entry k v d) = k

abbrev pub only_if : Bool → Text → List Text
only_if true k = k ∷ []
only_if false k = []

abbrev pub given {ℓ} : {A : Type ℓ} → Option A → Bool
given none = false
given (some a) = true

abbrev pub some_of {ℓ} : {A : Type ℓ} → List A → Bool
some_of [] = false
some_of (x ∷ xs) = true

abbrev pub positive : Option ℤ → Bool
positive none = false
positive (some s) = ltb_ℤ (pos 0) s

abbrev pub not_negative : Option ℤ → Bool
not_negative none = false
not_negative (some l) = not (ltb_ℤ l (pos 0))

map-append_of {ℓ κ} :
    {A : Type ℓ} {B : Type κ} (f : A → B) (xs ys : List A) → map f (xs ++ ys) ≡ map f xs ++ map f ys
map-append_of f [] ys = refl
map-append_of f (x ∷ xs) ys = ap₂ ◌∷◌ refl (map-append_of f xs ys)

module _ (docs : Insertion) where
  match_stages-first_key :
      (p : MongoPlan)
      → map first_key (match_stages docs p)
        ≡ only_if (given p.filter || given p.partition) (codes "$match")
  unfolding match_stages
  match_stages-first_key p = go p.filter p.partition
    where
      go :
          (f q : Option Document)
          → map first_key (elim (match_both f q) [
            | none ↦ []
            | some m ↦ entry (codes "$match") (auger.Bson.document m) end ∷ []
          ])
            ≡ only_if (given f || given q) (codes "$match")
      go none none = refl
      go none (some _) = refl
      go (some _) none = refl
      go (some _) (some _) = refl

  sort_stages-first_key :
      (ks : List (Text × SortDir))
      → map first_key (sort_stages docs ks) ≡ only_if (some_of ks) (codes "$sort")
  unfolding sort_stages
  sort_stages-first_key [] = refl
  sort_stages-first_key (k ∷ ks) = refl

  skip_stages-first_key :
      (s : Option ℤ) → map first_key (skip_stages docs s) ≡ only_if (positive s) (codes "$skip")
  unfolding skip_stages
  skip_stages-first_key none = refl
  skip_stages-first_key (some (pos n)) = ground arith
  skip_stages-first_key (some (negsuc n)) = ground arith

  limit_stages-first_key :
      (l : Option ℤ)
      → map first_key (limit_stages docs l) ≡ only_if (not_negative l) (codes "$limit")
  unfolding limit_stages
  limit_stages-first_key none = refl
  limit_stages-first_key (some (pos n)) = ground arith
  limit_stages-first_key (some (negsuc n)) = ground arith

  project_stages-first_key :
      (ps : List Text)
      → map first_key (project_stages docs ps) ≡ only_if (some_of ps) (codes "$project")
  unfolding project_stages
  project_stages-first_key [] = refl
  project_stages-first_key (p ∷ ps) = refl

  -- The stages of a pipeline are `$match`, `$sort`, `$skip`, `$limit`, `$project`, in this order and
  -- each at most once: `$match` when there is a predicate or a partition bound, `$sort` when there
  -- are keys, `$skip` when it is positive, `$limit` when it is not negative (so `LIMIT 0` is
  -- pushed), `$project` when paths are asked for.
  pub to_pipeline-first_key :
      (p : MongoPlan)
      → map first_key (to_pipeline docs p)
        ≡ only_if (given p.filter || given p.partition) (codes "$match")
          ++ (only_if (some_of p.sort) (codes "$sort")
              ++ (only_if (positive p.skip) (codes "$skip")
                  ++ (only_if (not_negative p.limit) (codes "$limit")
                      ++ only_if (some_of p.projection) (codes "$project"))))
  unfolding to_pipeline
  to_pipeline-first_key p =
      map-append_of first_key (match_stages docs p) _
      ∙ ap₂ ◌++◌ (match_stages-first_key p) (
          map-append_of first_key (sort_stages docs p.sort) _
          ∙ ap₂ ◌++◌ (sort_stages-first_key p.sort) (
              map-append_of first_key (skip_stages docs p.skip) _
              ∙ ap₂ ◌++◌ (skip_stages-first_key p.skip) (
                  map-append_of first_key (limit_stages docs p.limit) _
                  ∙ ap₂ ◌++◌ (limit_stages-first_key p.limit)
                      (project_stages-first_key p.projection))))
