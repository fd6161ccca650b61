-- ===== src/Pushdown/Leaves.antt =====
-- mongo/pushdown.rs: the filters of single comparisons accept the rows that the predicate holds for.
use auger.Base.{
  Bool, true, false, not, ◌&&◌, List, [], ◌∷◌, Option, none, some, ◌≡◌, refl, sym, ◌∙◌, ap, ◌⊎◌,
  Text, codes, if◌then◌else◌, all, arith, Ordering, >>=-eq-some3, subst, Bool-cases, inl, inr,
  traverse, traverse-cons,
}
use auger.Arrow.{Schema}
use auger.Bson.{Bson, Document}
use auger.Infer.Tag.{BsonTag}
use auger.Pushdown.Expr.{Operator, ScalarValue, Expr, Exprs}
use auger.Pushdown.Literal.{Libs, is_null, scalar_value, scalar_to_bson}
use auger.Pushdown.Column.{ColumnRef, resolve_column, literal_of, is_literal}
use auger.Pushdown.Translate.{
  Translated, test_doc, not_null_doc, test_filter, exclude_null, flip, mongo_op, is_not_eq,
  translate_test, translate_compare,
}
use auger.Pushdown.Typed.{compare-order}
use auger.Pushdown.Engines.{
  Tri, is_holds, passes3, holds_at, swap, given, is_plain, is_known, is_typed, is_comparable,
  IsComparison, Server, Sql, Conforms,
}

-- The mirrored operator says of the mirrored order what the operator says of the order.
passes3-flip : (op : Operator) (o : Option Ordering) → passes3 (flip op) (swap o) ≡ passes3 op o
unfolding flip
passes3-flip Operator.eq o = ground arith
passes3-flip _ o = ground arith

IsComparison-flip : (op : Operator) → IsComparison op → IsComparison (flip op)
unfolding flip
IsComparison-flip Operator.eq i = tt
IsComparison-flip Operator.and i = i
IsComparison-flip Operator.or i = i
IsComparison-flip (Operator.other n) i = i
IsComparison-flip _ i = tt

abbrev pub pair_typed : Libs → Schema → Expr → Expr → Bool
pair_typed lib schema a b =
    if is_literal b then is_typed lib schema a b else is_typed lib schema b a

abbrev pub IsNonempty : Exprs → Type 0
IsNonempty Exprs.nil = ⊥
IsNonempty (Exprs.cons x xs) = Unit

scalar_value-comparable :
    (lib : Libs) (s : ScalarValue) (tag : BsonTag) {v : Bson}
    → scalar_value lib s tag ≡ some v
    → is_comparable v ≡ true
unfolding scalar_value
scalar_value-comparable lib (ScalarValue.boolean o) tag h = ground arith
scalar_value-comparable lib _ tag h = ground arith

-- A literal is never pushed as null.
pub literal_of-comparable :
    (lib : Libs) (l : Expr) (c : ColumnRef) {v : Bson}
    → literal_of lib l c ≡ some v
    → is_comparable v ≡ true
unfolding literal_of scalar_to_bson
literal_of-comparable lib (Expr.literal s) c h = elim (Bool-cases (is_null s)) [
  | inl e ↦ absurd (none_some (rw e at h))
  | inr e ↦ scalar_value-comparable lib s c.tag (rw e at h)
]
  where
    none_some : {v : Bson} → none ≡ some v → ⊥
    none_some k = cc
literal_of-comparable lib _ c h = cc

pub exact-mixed : (c : ColumnRef) → not c.mixed ≡ true → c.mixed ≡ false
exact-mixed c k = ground arith

pub literals-comparable :
    (lib : Libs) (c : ColumnRef) (xs : List Expr) {vs : List Bson}
    → traverse (λ x. literal_of lib x c) xs ≡ some vs
    → all is_comparable vs ≡ true
literals-comparable lib c [] h = ground arith
literals-comparable lib c (x ∷ xs) h =
    let (y, ys, ex, exs, e) = traverse-cons (λ l. literal_of lib l c) x xs h in
    rw e (ground (arith, literal_of-comparable lib x c ex, literals-comparable lib c xs exs))

module _ (lib : Libs) (schema : Schema) (s : Server) (q : Sql s.Row)
    (conforms : Conforms lib schema s q) where
  open s use {Row, matches, is_missing, order}
  open q use {truth, compare}
  open conforms use {plain, null_agrees, bool_agrees}

  -- The server's reading of a comparison that `mongo_op` names: as SQL's, but for `$ne`, which
  -- also accepts a missing field.
  abbrev server_passes : Operator → Option Ordering → Bool
  server_passes Operator.not_eq o = not (holds_at Operator.eq o)
  server_passes op o = holds_at op o

  matches-mongo_op :
      (op : Operator) (name p : Text) (v : Bson) (r : Row)
      → mongo_op op ≡ some name
      → is_plain p ≡ true
      → is_comparable v ≡ true
      → matches (test_doc p name v) r ≡ server_passes op (order p v r)
  unfolding mongo_op
  matches-mongo_op Operator.eq name p v r h pl co =
      let e : codes "$eq" ≡ name = cc in rw (← e) (s.matches-eq p v r pl co)
  matches-mongo_op Operator.not_eq name p v r h pl co =
      let e : codes "$ne" ≡ name = cc in rw (← e) (s.matches-ne p v r pl co)
  matches-mongo_op Operator.lt name p v r h pl co =
      let e : codes "$lt" ≡ name = cc in rw (← e) (s.matches-lt p v r pl co)
  matches-mongo_op Operator.lt_eq name p v r h pl co =
      let e : codes "$lte" ≡ name = cc in rw (← e) (s.matches-lte p v r pl co)
  matches-mongo_op Operator.gt name p v r h pl co =
      let e : codes "$gt" ≡ name = cc in rw (← e) (s.matches-gt p v r pl co)
  matches-mongo_op Operator.gt_eq name p v r h pl co =
      let e : codes "$gte" ≡ name = cc in rw (← e) (s.matches-gte p v r pl co)
  matches-mongo_op _ name p v r h pl co = absurd cc

  pub matches-exclude_null :
      (p : Text) (d : Document) (r : Row)
      → is_plain p ≡ true
      → matches (exclude_null p d) r ≡ (matches d r && not (is_missing p r))
  unfolding exclude_null
  matches-exclude_null p d r pl =
      s.matches-and (d ∷ not_null_doc p ∷ []) r ∙ ground (arith, s.matches-ne_null p r pl)

  -- A filter on one column, at one row, beside the truth value of the predicate: it accepts the row
  -- when the predicate holds, and the predicate is unknown exactly where the column is missing.
  pub record Leaf (col : Expr) (t : Tri) (f : Document) (r : Row) : Type 0 where
    pub c : ColumnRef
    pub resolved : resolve_column lib schema col ≡ some c
    pub accepts : matches f r ≡ is_holds t
    pub known : is_known t ≡ not (is_missing c.path r)

  test-accepts :
      (op : Operator) (o : Option Ordering) (missing : Bool)
      → IsComparison op
      → given o ≡ not missing
      → (if is_not_eq op then server_passes op o && not missing else server_passes op o)
        ≡ is_holds (passes3 op o)
  test-accepts Operator.eq o missing i h = ground arith
  test-accepts _ o missing i h = ground arith

  passes3-known : (op : Operator) (o : Option Ordering) → is_known (passes3 op o) ≡ given o
  passes3-known op none = refl
  passes3-known op (some o) = ground arith

  matches-test_filter :
      (p name : Text) (op : Operator) (v : Bson) (r : Row)
      → mongo_op op ≡ some name
      → is_plain p ≡ true
      → is_comparable v ≡ true
      → matches (test_filter p op name v) r ≡ (
          if is_not_eq op
          then server_passes op (order p v r) && not (is_missing p r)
          else server_passes op (order p v r))
  unfolding test_filter
  matches-test_filter p name op v r en pl co = ground (
    arith,
    matches-mongo_op op name p v r en pl co,
    matches-exclude_null p (test_doc p name v) r pl,
  )

  test-Leaf :
      (e l : Expr) (op : Operator) (r : Row) (c : ColumnRef) (v : Bson) (name : Text)
      → resolve_column lib schema e ≡ some c
      → literal_of lib l c ≡ some v
      → mongo_op op ≡ some name
      → c.mixed ≡ false
      → IsComparison op
      → is_typed lib schema e l ≡ true
      → Leaf e (passes3 op (compare e l r)) (test_filter c.path op name v) r
  test-Leaf e l op r c v name ec ev en m i ty =
      let (same, seen) = compare-order lib schema s q conforms e l c v r ec m ev ty in
      record {
        c = c;
        resolved = ec;
        accepts =
            matches-test_filter c.path name op v r en (plain e c ec)
              (literal_of-comparable lib l c ev)
            ∙ test-accepts op (order c.path v r) (is_missing c.path r) i seen
            ∙ ap (λ o. is_holds (passes3 op o)) (sym same);
        known = passes3-known op (compare e l r) ∙ ap given same ∙ seen;
      }

  pub translate_test-Leaf :
      (e : Expr) (op : Operator) (l : Expr) {t : Translated} (r : Row)
      → translate_test lib schema e op l ≡ some t
      → t.exact ≡ true
      → IsComparison op
      → is_typed lib schema e l ≡ true
      → Leaf e (passes3 op (compare e l r)) t.filter r
  unfolding translate_test
  translate_test-Leaf e op l {t} r h x i ty =
      let (c, v, name, ec, ev, en, et) =
        >>=-eq-some3 (resolve_column lib schema e) (λ c. literal_of lib l c) (λ _ _. mongo_op op)
          (λ c v name. record { filter = test_filter c.path op name v; exact = not c.mixed }) h in
      subst (λ (u : Translated). Leaf e (passes3 op (compare e l r)) u.filter r) et
        (test-Leaf e l op r c v name ec ev en
          (exact-mixed c (ap (λ (u : Translated). u.exact) et ∙ x)) i ty)

  -- A comparison reads one column, the other side being a literal.
  pub translate_compare-Leaf :
      (a : Expr) (op : Operator) (b : Expr) {t : Translated} (r : Row)
      → translate_compare lib schema a op b ≡ some t
      → t.exact ≡ true
      → IsComparison op
      → pair_typed lib schema a b ≡ true
      → ((is_literal b ≡ true) × Leaf a (truth (Expr.binary a op b) r) t.filter r)
        ⊎ ((is_literal a ≡ true) × Leaf b (truth (Expr.binary a op b) r) t.filter r)
  unfolding translate_compare
  translate_compare-Leaf a op b {t} r h x i ty =
      elim (Bool-cases (not (is_literal a) && is_literal b)) [
        | inl here ↦ inl (
          ground arith,
          rw (q.truth-compare a b op r i)
              (translate_test-Leaf a op b r (rw here at h) x i (ground arith)),
        )
        | inr away ↦ elim (Bool-cases (is_literal a && not (is_literal b))) [
          | inl there ↦ inr (
            ground arith,
            rw
                (
                  q.truth-compare a b op r i,
                  ← passes3-flip op (compare a b r),
                  ← q.compare-swap a b r,
                )
                (translate_test-Leaf b (flip op) a r (rw (away, there) at h) x
                  (IsComparison-flip op i) (ground arith)),
          )
          | inr neither ↦ absurd (none_some (rw (away, neither) at h))
        ]
      ]
    where
      none_some : none ≡ some t → ⊥
      none_some k = cc
