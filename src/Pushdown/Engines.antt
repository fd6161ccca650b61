-- ===== src/Pushdown/Engines.antt =====
-- The two engines that mongo/pushdown.rs stands between: how the server reads a filter document and
-- how DataFusion reads a predicate, as far as the translation relies on them, and what it means
-- that the stored documents conform to the frozen schema.
use auger.Base.{
  Bool, true, false, not, ◌&&◌, List, [], ◌∷◌, Option, none, some, ◌≡◌, Text, codes, if◌then◌else◌,
  ◌==◌, all, any, Ordering,
}
use auger.Base.Int.{ℤ}
use auger.Arrow.{Schema}
use auger.Bson.{Bson, Document, doc1, doc2, items}
use auger.Infer.Tag.{BsonTag}
use auger.Pushdown.Expr.{Operator, ScalarValue, Expr, Exprs, expr_list}
use auger.Pushdown.Literal.{Libs}
use auger.Pushdown.Column.{ColumnRef, resolve_column}
use auger.Pushdown.Translate.{test_doc, and_doc, or_doc, nor_doc, not_null_doc, require_bool}

-- SQL's three truth values.
pub data Tri : Type 0 where
  holds fails unknown : Tri

abbrev pub of_bool : Bool → Tri
of_bool true = holds
of_bool false = fails

abbrev pub is_holds : Tri → Bool
is_holds holds = true
is_holds _ = false

abbrev pub is_fails : Tri → Bool
is_fails fails = true
is_fails _ = false

abbrev pub is_known : Tri → Bool
is_known unknown = false
is_known _ = true

abbrev pub not3 : Tri → Tri
not3 holds = fails
not3 fails = holds
not3 unknown = unknown

abbrev pub and3 : Tri → Tri → Tri
and3 fails y = fails
and3 holds y = y
and3 unknown fails = fails
and3 unknown y = unknown

abbrev pub or3 : Tri → Tri → Tri
or3 holds y = holds
or3 fails y = y
or3 unknown holds = holds
or3 unknown y = unknown

abbrev pub any3 {ℓ} : {A : Type ℓ} → (A → Tri) → List A → Tri
any3 p [] = fails
any3 p (x ∷ xs) = or3 (p x) (any3 p xs)

abbrev pub neg3 : Bool → Tri → Tri
neg3 true t = not3 t
neg3 false t = t

-- What a comparison says of an order between its two sides.
abbrev pub passes : Operator → Ordering → Bool
passes Operator.eq Ordering.eq = true
passes Operator.not_eq Ordering.lt = true
passes Operator.not_eq Ordering.gt = true
passes Operator.lt Ordering.lt = true
passes Operator.lt_eq Ordering.lt = true
passes Operator.lt_eq Ordering.eq = true
passes Operator.gt Ordering.gt = true
passes Operator.gt_eq Ordering.gt = true
passes Operator.gt_eq Ordering.eq = true
passes _ _ = false

abbrev pub passes3 : Operator → Option Ordering → Tri
passes3 op none = unknown
passes3 op (some o) = of_bool (passes op o)

abbrev pub holds_at : Operator → Option Ordering → Bool
holds_at op none = false
holds_at op (some o) = passes op o

abbrev pub swap : Option Ordering → Option Ordering
swap none = none
swap (some Ordering.lt) = some Ordering.gt
swap (some Ordering.eq) = some Ordering.eq
swap (some Ordering.gt) = some Ordering.lt

abbrev pub given : Option Ordering → Bool
given none = false
given (some o) = true

-- A field path, not an operator: it does not begin with a dollar sign.
abbrev pub is_plain : Text → Bool
is_plain [] = true
is_plain (c ∷ p) = not (c == b'$')

-- The values that literals become; null and undefined are not among them.
abbrev pub is_comparable : Bson → Bool
is_comparable Bson.null = false
is_comparable Bson.undefined = false
is_comparable _ = true

abbrev pub IsComparison : Operator → Type 0
IsComparison Operator.and = ⊥
IsComparison Operator.or = ⊥
IsComparison (Operator.other n) = ⊥
IsComparison _ = Unit

-- The server. `order p v r` is how the value at path `p` of the stored document compares with `v`,
-- and is `none` where the field is missing, null or of another BSON type family.
pub record Server : Type 1 where
  pub Row : Type 0
  pub matches : Document → Row → Bool
  pub is_missing : Text → Row → Bool
  pub order : Text → Bson → Row → Option Ordering
  -- Integers are compared by value, whatever their width.
  pub order-int32 :
      (p : Text) (n : ℤ) (r : Row) → order p (Bson.int32 n) r ≡ order p (Bson.int64 n) r
  pub matches-and :
      (ds : List Document) (r : Row) → matches (and_doc ds) r ≡ all (λ d. matches d r) ds
  pub matches-or :
      (ds : List Document) (r : Row) → matches (or_doc ds) r ≡ any (λ d. matches d r) ds
  pub matches-nor :
      (ds : List Document) (r : Row) → matches (nor_doc ds) r ≡ not (any (λ d. matches d r) ds)
  pub matches-null :
      (p : Text) (r : Row) → is_plain p ≡ true → matches (doc1 p Bson.null) r ≡ is_missing p r
  pub matches-ne_null :
      (p : Text) (r : Row) → is_plain p ≡ true → matches (not_null_doc p) r ≡ not (is_missing p r)
  pub matches-bool :
      (p : Text) (b : Bool) (r : Row)
      → is_plain p ≡ true
      → matches (doc1 p (Bson.boolean b)) r ≡ holds_at Operator.eq (order p (Bson.boolean b) r)
  pub matches-eq :
      (p : Text) (v : Bson) (r : Row)
      → is_plain p ≡ true
      → is_comparable v ≡ true
      → matches (test_doc p (codes "$eq") v) r ≡ holds_at Operator.eq (order p v r)
  pub matches-ne :
      (p : Text) (v : Bson) (r : Row)
      → is_plain p ≡ true
      → is_comparable v ≡ true
      → matches (test_doc p (codes "$ne") v) r ≡ not (holds_at Operator.eq (order p v r))
  pub matches-lt :
      (p : Text) (v : Bson) (r : Row)
      → is_plain p ≡ true
      → is_comparable v ≡ true
      → matches (test_doc p (codes "$lt") v) r ≡ holds_at Operator.lt (order p v r)
  pub matches-lte :
      (p : Text) (v : Bson) (r : Row)
      → is_plain p ≡ true
      → is_comparable v ≡ true
      → matches (test_doc p (codes "$lte") v) r ≡ holds_at Operator.lt_eq (order p v r)
  pub matches-gt :
      (p : Text) (v : Bson) (r : Row)
      → is_plain p ≡ true
      → is_comparable v ≡ true
      → matches (test_doc p (codes "$gt") v) r ≡ holds_at Operator.gt (order p v r)
  pub matches-gte :
      (p : Text) (v : Bson) (r : Row)
      → is_plain p ≡ true
      → is_comparable v ≡ true
      → matches (test_doc p (codes "$gte") v) r ≡ holds_at Operator.gt_eq (order p v r)
  pub matches-range :
      (p : Text) (lo hi : Bson) (r : Row)
      → is_plain p ≡ true
      → is_comparable lo ≡ true
      → is_comparable hi ≡ true
      → matches (doc1 p (Bson.document (doc2 (codes "$gte") lo (codes "$lte") hi))) r
        ≡ (holds_at Operator.gt_eq (order p lo r) && holds_at Operator.lt_eq (order p hi r))
  pub matches-in :
      (p : Text) (vs : List Bson) (r : Row)
      → is_plain p ≡ true
      → all is_comparable vs ≡ true
      → matches (test_doc p (codes "$in") (Bson.array (items vs))) r
        ≡ any (λ v. holds_at Operator.eq (order p v r)) vs
  pub matches-nin :
      (p : Text) (vs : List Bson) (r : Row)
      → is_plain p ≡ true
      → all is_comparable vs ≡ true
      → matches (test_doc p (codes "$nin") (Bson.array (items vs))) r
        ≡ not (any (λ v. holds_at Operator.eq (order p v r)) vs)

-- DataFusion over the same rows: the truth value of a predicate, and how two expressions compare.
pub record Sql (Row : Type 0) : Type 0 where
  pub truth : Expr → Row → Tri
  pub compare : Expr → Expr → Row → Option Ordering
  pub is_null : Expr → Row → Bool
  pub truth-and :
      (a b : Expr) (r : Row) → truth (Expr.binary a Operator.and b) r ≡ and3 (truth a r) (truth b r)
  pub truth-or :
      (a b : Expr) (r : Row) → truth (Expr.binary a Operator.or b) r ≡ or3 (truth a r) (truth b r)
  pub truth-not : (a : Expr) (r : Row) → truth (Expr.not a) r ≡ not3 (truth a r)
  pub truth-compare :
      (a b : Expr) (op : Operator) (r : Row)
      → IsComparison op
      → truth (Expr.binary a op b) r ≡ passes3 op (compare a b r)
  pub compare-swap : (a b : Expr) (r : Row) → compare b a r ≡ swap (compare a b r)
  pub truth-is_null : (a : Expr) (r : Row) → truth (Expr.is_null a) r ≡ of_bool (is_null a r)
  pub truth-is_not_null :
      (a : Expr) (r : Row) → truth (Expr.is_not_null a) r ≡ of_bool (not (is_null a r))
  pub truth-is_true :
      (a : Expr) (r : Row) → truth (Expr.is_true a) r ≡ of_bool (is_holds (truth a r))
  pub truth-is_false :
      (a : Expr) (r : Row) → truth (Expr.is_false a) r ≡ of_bool (is_fails (truth a r))
  pub truth-is_not_true :
      (a : Expr) (r : Row) → truth (Expr.is_not_true a) r ≡ of_bool (not (is_holds (truth a r)))
  pub truth-is_not_false :
      (a : Expr) (r : Row) → truth (Expr.is_not_false a) r ≡ of_bool (not (is_fails (truth a r)))
  pub truth-between :
      (a lo hi : Expr) (n : Bool) (r : Row)
      → truth (Expr.between a n lo hi) r
        ≡ neg3 n (
            and3
              (passes3 Operator.gt_eq (compare a lo r))
              (passes3 Operator.lt_eq (compare a hi r)))
  pub truth-in_list :
      (a : Expr) (xs : Exprs) (n : Bool) (r : Row)
      → truth (Expr.in_list a xs n) r
        ≡ neg3 n (any3 (λ x. passes3 Operator.eq (compare a x r)) (expr_list xs))
  pub truth-alias : (a : Expr) (n : Text) (r : Row) → truth (Expr.alias a n) r ≡ truth a r

-- The value that SQL compares with what a column of this provenance holds, for the literals that the
-- planner leaves at the column's own type and that lose nothing on the way: flags, integers, texts and
-- milliseconds. It is written without regard to how the gateway encodes a literal.
unfoldable pub meaning : BsonTag → ScalarValue → Option Bson
meaning BsonTag.bool (ScalarValue.boolean (some b)) = some (Bson.boolean b)
meaning BsonTag.int32 (ScalarValue.int32 (some n)) = some (Bson.int64 n)
meaning BsonTag.int64 (ScalarValue.int64 (some n)) = some (Bson.int64 n)
meaning BsonTag.string (ScalarValue.utf8 (some t)) = some (Bson.string t)
meaning BsonTag.date_time (ScalarValue.timestamp_millisecond (some ms) tz) =
    some (Bson.date_time ms)
meaning _ v = none

unfoldable pub denoted : BsonTag → Expr → Option Bson
unfolding meaning
denoted tag (Expr.literal v) = meaning tag v
denoted tag _ = none

-- The literal is one of those values for the column.
unfoldable pub is_typed : Libs → Schema → Expr → Expr → Bool
is_typed lib schema e l = elim (resolve_column lib schema e) [
  | none ↦ false
  | some c ↦ elim (denoted c.tag l) [ none ↦ false | some v ↦ true ]
]

-- The stored documents conform to the schema: the value of a column that is resolved to a path is what
-- is stored at that path, so that SQL and the server compare it alike with one and the same value. How
-- a literal is translated is not assumed. For a column whose values were coerced across type families
-- nothing is said of comparisons.
pub record Conforms (lib : Libs) (schema : Schema) (s : Server) (q : Sql s.Row) : Type 0 where
  pub plain :
      (e : Expr) (c : ColumnRef) → resolve_column lib schema e ≡ some c → is_plain c.path ≡ true
  pub null_agrees :
      (e : Expr) (c : ColumnRef) (r : s.Row)
      → resolve_column lib schema e ≡ some c
      → q.is_null e r ≡ s.is_missing c.path r
  pub order_agrees :
      (e l : Expr) (c : ColumnRef) (v : Bson) (r : s.Row)
      → resolve_column lib schema e ≡ some c
      → c.mixed ≡ false
      → denoted c.tag l ≡ some v
      → (q.compare e l r ≡ s.order c.path v r)
        × (given (s.order c.path v r) ≡ not (s.is_missing c.path r))
  pub bool_agrees :
      (e : Expr) (c : ColumnRef) (r : s.Row)
      → resolve_column lib schema e ≡ some c
      → require_bool c ≡ some tt
      → (q.truth e r ≡ (
          if s.is_missing c.path r
          then unknown
          else of_bool (holds_at Operator.eq (s.order c.path (Bson.boolean true) r))))
        × (holds_at Operator.eq (s.order c.path (Bson.boolean false) r) ≡ is_fails (q.truth e r))
        × (holds_at Operator.eq (s.order c.path (Bson.boolean true) r) ≡ is_holds (q.truth e r))
