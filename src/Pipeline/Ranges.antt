-- ===== src/Pipeline/Ranges.antt =====
-- mongo/pipeline.rs: consecutive `_id` ranges, against what the server does with a range.
use auger.Base.{
  ℕ, ◌+◌, Bool, true, false, not, ◌&&◌, List, [], ◌∷◌, Option, none, some, ◌≡◌, refl, arith, codes,
  if◌then◌else◌, All,
}
use auger.Bson.{Bson, document, Document, doc1, doc2}
use auger.Pipeline.{id_range, ranges}

-- The server's order of `_id` values (a strict weak order: numbers of different widths can be
-- equal in it), and the documented meaning of `$gte` and `$lt` on `_id`, which only compare values of
-- one bracket of BSON types: nothing is said of a bound of another bracket.
pub record IdServer : Type 0 where
  pub bracket : Bson → ℕ
  pub lt : Bson → Bson → Bool
  pub matches : Document → Bson → Bool
  pub lt_irrefl : (x : Bson) → lt x x ≡ false
  pub lt-le_trans : (x p c : Bson) → lt x p ≡ true → lt c p ≡ false → lt x c ≡ true
  pub matches-gte :
      (a x : Bson)
      → bracket x ≡ bracket a
      → matches (doc1 (codes "_id") (document (doc1 (codes "$gte") a))) x ≡ not (lt x a)
  pub matches-lt :
      (b x : Bson)
      → bracket x ≡ bracket b
      → matches (doc1 (codes "_id") (document (doc1 (codes "$lt") b))) x ≡ lt x b
  pub matches-gte_lt :
      (a b x : Bson)
      → bracket x ≡ bracket a
      → bracket x ≡ bracket b
      → matches (doc1 (codes "_id") (document (doc2 (codes "$gte") a (codes "$lt") b))) x
        ≡ (not (lt x a) && lt x b)

module _ (server : IdServer) where
  open server use {bracket, lt, matches, lt-le_trans, matches-gte, matches-lt, matches-gte_lt}

  -- A partition without a bound reads every document.
  abbrev pub accepts : Option Document → Bson → Bool
  accepts none x = true
  accepts (some d) x = matches d x

  -- How many of the partitions return the document whose `_id` is `x`.
  abbrev pub times_read : List (Option Document) → Bson → ℕ
  times_read [] x = 0
  times_read (p ∷ ps) x = (if accepts p x then 1 else 0) + times_read ps x

  abbrev pub below : Option Bson → Bson → Bool
  below none x = false
  below (some p) x = lt x p

  -- Each cut is at or above the one before it.
  abbrev pub IsRising : Option Bson → List Bson → Type 0
  IsRising prev [] = Unit
  IsRising none (c ∷ cs) = IsRising (some c) cs
  IsRising (some p) (c ∷ cs) = (lt c p ≡ false) × IsRising (some c) cs

  -- The bound, if there is one, is of the bracket of `x`.
  abbrev pub IsBeside : Bson → Option Bson → Type 0
  IsBeside x none = Unit
  IsBeside x (some p) = bracket x ≡ bracket p

  accepts-id_range :
      (prev : Option Bson) (c x : Bson)
      → IsBeside x prev
      → bracket x ≡ bracket c
      → accepts (id_range prev (some c)) x ≡ (not (below prev x) && lt x c)
  unfolding id_range
  accepts-id_range none c x i j = matches-lt c x j
  accepts-id_range (some p) c x i j = matches-gte_lt p c x i j

  accepts-id_range_last :
      (prev : Option Bson) (x : Bson)
      → IsBeside x prev
      → accepts (id_range prev none) x ≡ not (below prev x)
  unfolding id_range
  accepts-id_range_last none x i = refl
  accepts-id_range_last (some p) x i = matches-gte p x i

  below_next :
      (prev : Option Bson) (c : Bson) (cs : List Bson) (x : Bson)
      → IsRising prev (c ∷ cs)
      → below prev x ≡ true
      → lt x c ≡ true
  below_next none c cs x r h = cc
  below_next (some p) c cs x r h = lt-le_trans x p c h r.0

  IsRising-next :
      (prev : Option Bson) (c : Bson) (cs : List Bson)
      → IsRising prev (c ∷ cs)
      → IsRising (some c) cs
  IsRising-next none c cs r = r
  IsRising-next (some p) c cs r = r.1

  -- Beside bounds of its own bracket, a document below the first one is in no range, any other is in
  -- exactly one.
  pub times_read-ranges :
      (prev : Option Bson) (cs : List Bson) (x : Bson)
      → IsBeside x prev
      → All (λ c. bracket x ≡ bracket c) cs
      → IsRising prev cs
      → times_read (ranges prev cs) x ≡ (if below prev x then 0 else 1)
  unfolding ranges
  times_read-ranges prev [] x i js r = rw (accepts-id_range_last prev x i) (ground arith)
  times_read-ranges prev (c ∷ cs) x i (j, js) r = ground (
    arith,
    accepts-id_range prev c x i j,
    below_next prev c cs x r,
    times_read-ranges (some c) cs x j js (IsRising-next prev c cs r),
  )
