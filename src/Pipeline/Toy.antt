-- ===== src/Pipeline/Toy.antt =====
-- A small server over values of `_id`, which orders the numbers and reads `$and`, `$gte` and `$lt`. It
-- serves the examples only.
use auger.Base.{
  zero, suc, ◌*◌, get_elem?, sym, some, ℕ, ◌+◌, Bool, true, false, not, ◌&&◌, List, [], ◌∷◌, ◌≡◌,
  refl, ap, all, arith, Text, codes, if◌then◌else◌, ltb, text_eq,
}
use auger.Base.Int.{pos}
use auger.Bson.{int32, Bson, Items, nil, cons, Document, end, entry, documents}
use auger.Pipeline.Ranges.{IdServer}
use auger.Pipeline.Cover.{IsSorted, IsUniform}

unfoldable pub rank : Bson → ℕ
rank (Bson.int32 (pos n)) = n + 1
rank v = 0

unfoldable pub bracket : Bson → ℕ
bracket (Bson.int32 n) = 1
bracket v = 0

abbrev pub lt : Bson → Bson → Bool
lt a b = ltb (rank a) (rank b)

unfoldable pub bounds : Document → Bson → Bool
bounds end x = true
bounds (entry op v d) x =
    (if text_eq op (codes "$gte")
      then not (lt x v)
      else if text_eq op (codes "$lt")
      then lt x v
      else false)
    && bounds d x

unfoldable mutual
  unfolding bounds

  pub matches : Document → Bson → Bool
  matches end x = true
  matches (entry k v rest) x = clause k v x && matches rest x

  pub clause : Text → Bson → Bson → Bool
  clause k (Bson.document d) x = text_eq k (codes "_id") && bounds d x
  clause k (Bson.array ds) x = text_eq k (codes "$and") && all_of ds x
  clause k v x = false

  pub all_of : Items → Bson → Bool
  all_of nil x = true
  all_of (cons v ds) x = branch v x && all_of ds x

  pub branch : Bson → Bson → Bool
  branch (Bson.document d) x = matches d x
  branch v x = false

pub all_of-documents :
    (ds : List Document) (x : Bson) → all_of (documents ds) x ≡ all (λ d. matches d x) ds
unfolding matches
all_of-documents [] x = refl
all_of-documents (d ∷ ds) x = ap (◌&&◌ (matches d x)) (all_of-documents ds x)

pub &&-true : (b : Bool) → ((b && true) && true) ≡ b
&&-true b = ground arith

pub &&-true2 : (b c : Bool) → ((b && (c && true)) && true) ≡ (b && c)
&&-true2 b c = ground arith

unfoldable pub server : IdServer
unfolding matches bounds text_eq rank
server = record {
  bracket = bracket;
  lt = lt;
  matches = matches;
  lt_irrefl = λ x. ground arith;
  lt-le_trans = λ x p c h k. ground arith;
  matches-gte = λ a x i. &&-true _;
  matches-lt = λ b x i. &&-true _;
  matches-gte_lt = λ a b x i j. &&-true2 (not (lt x a)) (lt x b);
}

-- Sampled ids, and the equality of such values.
abbrev pub ids : List Bson
ids = int32 (pos 10) ∷ int32 (pos 20) ∷ int32 (pos 30) ∷ int32 (pos 40) ∷ []

unfoldable pub same : Bson → Bson → Bool
same a b = not (lt a b) && not (lt b a)

rank-ids : (i : ℕ) (a : Bson) → get_elem? ids i ≡ some a → rank a ≡ 10 * i + 11
unfolding rank
rank-ids zero a h = let e : int32 (pos 10) ≡ a = cc in ap rank (sym e)
rank-ids (suc zero) a h = let e : int32 (pos 20) ≡ a = cc in ap rank (sym e)
rank-ids (suc (suc zero)) a h = let e : int32 (pos 30) ≡ a = cc in ap rank (sym e)
rank-ids (suc (suc (suc zero))) a h = let e : int32 (pos 40) ≡ a = cc in ap rank (sym e)
rank-ids (suc (suc (suc (suc i)))) a h = absurd cc

pub ids-IsSorted : IsSorted server same ids
unfolding server
ids-IsSorted i j a b le ha hb = ground (arith, rank-ids i a ha, rank-ids j b hb)

pub ids-IsUniform : (n : ℕ) → IsUniform server same ids (int32 (pos n))
unfolding server bracket
ids-IsUniform n zero a h = let e : int32 (pos 10) ≡ a = cc in ap bracket e
ids-IsUniform n (suc zero) a h = let e : int32 (pos 20) ≡ a = cc in ap bracket e
ids-IsUniform n (suc (suc zero)) a h = let e : int32 (pos 30) ≡ a = cc in ap bracket e
ids-IsUniform n (suc (suc (suc zero))) a h = let e : int32 (pos 40) ≡ a = cc in ap bracket e
ids-IsUniform n (suc (suc (suc (suc i)))) a h = absurd cc
