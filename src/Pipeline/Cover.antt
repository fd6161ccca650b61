-- ===== src/Pipeline/Cover.antt =====
-- mongo/pipeline.rs, `partition_bounds`: the cut points rise, are taken in range, and split a scan.
use native.Mathlib.Nat.{le-div_iff_mul-le, div-lt_iff_lt-mul, div-mul-le_self}
use auger.Base.{
  ℕ, zero, suc, ◌+◌, ◌-◌, ◌*◌, ◌/◌, ◌≤◌, ◌<◌, min, max, Bool, false, ◌||◌, List, [], ◌∷◌, Option,
  none, some, ◌≡◌, refl, arith, Bool-cases, inl, inr, length, get_elem?, leb, ltb, Option-cases,
  All,
}
use auger.Bson.{Bson}
use auger.Pipeline.{is_new, cuts, ranges, partition_bounds}
use auger.Pipeline.Ranges.{IdServer, times_read, IsRising, times_read-ranges}

get_elem?-some {ℓ} :
    {A : Type ℓ} (xs : List A) (i : ℕ) → i < length xs → (a : A) × (get_elem? xs i ≡ some a)
get_elem?-some [] i h = elim h [ ]
get_elem?-some (x ∷ xs) zero h = (x, refl)
get_elem?-some (x ∷ xs) (suc i) h = get_elem?-some xs i (omega arith)

-- The index of the `i`-th cut lies in the sample, and does not fall as `i` grows.
index_in_range : (i n len : ℕ) → i < n → 0 < len → i * len / n < len
index_in_range i n len h p = (div-lt_iff_lt-mul (omega arith)).1 (grind arith)

index_mono : (i n len : ℕ) → 0 < n → i * len / n ≤ (i + 1) * len / n
index_mono i n len h = (le-div_iff_mul-le h).1 (grind (arith, div-mul-le_self (i * len) n))

module _ (same : Bson → Bson → Bool) (ids : List Bson) (n : ℕ) where
  -- Every round of the loop finds its candidate: the indexing does not panic.
  pub cuts-in_range :
      (i : ℕ) → i < n → 0 < length ids → (c : Bson) × (get_elem? ids (i * length ids / n) ≡ some c)
  cuts-in_range i h p = get_elem?-some ids _ (index_in_range i n (length ids) h p)

  length-cuts : (k i : ℕ) (last : Option Bson) → length (cuts same ids n k i last) ≤ k
  unfolding cuts
  length-cuts zero i last = omega arith
  length-cuts (suc k) i last = elim (Option-cases (get_elem? ids (i * length ids / n))) [
    | inl e ↦ rw (e, cuts) (omega arith)
    | inr (c, e) ↦
        rw (e, cuts) (ground (arith, length-cuts k (i + 1) (some c), length-cuts k (i + 1) last))
  ]

length-ranges : (prev : Option Bson) (cs : List Bson) → length (ranges prev cs) ≡ length cs + 1
unfolding ranges
length-ranges prev [] = refl
length-ranges prev (c ∷ cs) = omega (arith, length-ranges (some c) cs)

module _ (server : IdServer) (same : Bson → Bson → Bool) (ids : List Bson) where
  open server use {bracket, lt, lt_irrefl, lt-le_trans}

  -- The sample is sorted: no value stands before a smaller one.
  abbrev pub IsSorted : Type 0
  IsSorted =
      (i j : ℕ) (a b : Bson)
      → i ≤ j
      → get_elem? ids i ≡ some a
      → get_elem? ids j ≡ some b
      → lt b a ≡ false

  -- The last cut is a sampled value at or before the next index.
  abbrev IsBefore : Option Bson → ℕ → Type 0
  IsBefore none j = Unit
  IsBefore (some p) j = (i : ℕ) × (get_elem? ids i ≡ some p) × (i ≤ j)

  IsRising-cons :
      (last : Option Bson) (j : ℕ) (c : Bson) (cs : List Bson)
      → IsSorted
      → IsBefore last j
      → get_elem? ids j ≡ some c
      → IsRising server (some c) cs
      → IsRising server last (c ∷ cs)
  IsRising-cons none j c cs s b e r = r
  IsRising-cons (some p) j c cs s (i, at, le) e r = (s i j p c le at e, r)

  IsBefore-mono : (last : Option Bson) (j k : ℕ) → j ≤ k → IsBefore last j → IsBefore last k
  IsBefore-mono none j k h b = tt
  IsBefore-mono (some p) j k h (i, at, le) = (i, at, omega arith)

  cuts-IsRising :
      (n k i : ℕ) (last : Option Bson)
      → 0 < n
      → IsSorted
      → IsBefore last (i * length ids / n)
      → IsRising server last (cuts same ids n k i last)
  unfolding cuts
  cuts-IsRising n zero i none p s b = tt
  cuts-IsRising n zero i (some x) p s b = tt
  cuts-IsRising n (suc k) i last p s b =
      let step = index_mono i n (length ids) p in
      elim (Option-cases (get_elem? ids (i * length ids / n))) [
        | inl e ↦
            rw (e, cuts) (elim last as (λ l. IsRising server l []) [ none ↦ tt | some x ↦ tt ])
        | inr (c, e) ↦
            rw (e, cuts)
              (elim (Bool-cases (is_new same last c)) [
                | inl new ↦ rw (new) (
                    IsRising-cons last _ c _ s b e
                      (cuts-IsRising n k (i + 1) (some c) p s (_, e, step)))
                | inr old ↦
                    rw old (cuts-IsRising n k (i + 1) last p s (IsBefore-mono last _ _ step b))
              ])
      ]

  -- Every sampled value is in the bracket of `x`.
  abbrev pub IsUniform : Bson → Type 0
  IsUniform x = (i : ℕ) (a : Bson) → get_elem? ids i ≡ some a → bracket x ≡ bracket a

  cuts-All :
      (x : Bson) (n k i : ℕ) (last : Option Bson)
      → IsUniform x
      → All (λ c. bracket x ≡ bracket c) (cuts same ids n k i last)
  unfolding cuts
  cuts-All x n zero i last u = tt
  cuts-All x n (suc k) i last u = elim (Option-cases (get_elem? ids (i * length ids / n))) [
    | inl e ↦ rw (e, cuts) tt
    | inr (c, e) ↦
        rw (e, cuts)
          (elim (Bool-cases (is_new same last c)) [
            | inl new ↦ rw (new) (u _ c e, cuts-All x n k (i + 1) (some c) u)
            | inr old ↦ rw (old) (cuts-All x n k (i + 1) last u)
          ])
  ]

  -- A document whose `_id` is in the same bracket of BSON types as all of the sampled ones is read by
  -- exactly one partition: the ranges do not overlap and leave no gap, also outside the sampled span,
  -- for every sorted sample and every requested number of parts.
  pub partition_bounds-reads_once :
      (n : ℕ) (x : Bson)
      → IsSorted
      → IsUniform x
      → times_read server (partition_bounds same ids n) x ≡ 1
  unfolding partition_bounds
  partition_bounds-reads_once n x s u = elim (Bool-cases (leb n 1 || ltb (length ids) 2)) [
    | inl whole ↦ rw whole (omega arith)
    | inr split ↦ rw split (
        times_read-ranges server none _ x tt
          (cuts-All x (min n (length ids)) (min n (length ids) - 1) 1 none u)
          (cuts-IsRising (min n (length ids)) (min n (length ids) - 1) 1 none (ground arith) s tt))
  ]

-- The scan is split into at least one part, and never into more than were asked for or than there
-- are sampled values (one part when fewer than two are wanted or sampled).
pub length-partition_bounds :
    (same : Bson → Bson → Bool) (ids : List Bson) (n : ℕ)
    → (1 ≤ length (partition_bounds same ids n))
      × (length (partition_bounds same ids n) ≤ max 1 (min n (length ids)))
unfolding partition_bounds
length-partition_bounds same ids n = elim (Bool-cases (leb n 1 || ltb (length ids) 2)) [
  | inl whole ↦ rw whole (omega arith, omega arith)
  | inr split ↦ rw split (
      let parts = min n (length ids) in
      let few = length-cuts same ids parts (parts - 1) 1 none in
      let count = length-ranges none (cuts same ids parts (parts - 1) 1 none) in
      (omega (arith), ground arith))
]
