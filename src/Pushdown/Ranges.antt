-- ===== src/Pushdown/Ranges.antt =====
-- mongo/pushdown.rs: the filters of ranges accept the rows that the predicate holds for.
use auger.Base.{
  Bool, true, false, not, ◌&&◌, ◌||◌, [], ◌∷◌, Option, none, some, ◌≡◌, sym, ◌∙◌, ap, ap₂, Text,
  codes, if◌then◌else◌, arith, Ordering, >>=-eq-some3, subst,
}
use auger.Arrow.{Schema}
use auger.Bson.{Bson}
use auger.Pushdown.Expr.{Operator, Expr}
use auger.Pushdown.Literal.{Libs}
use auger.Pushdown.Column.{ColumnRef, resolve_column, literal_of}
use auger.Pushdown.Translate.{Translated, test_doc, or_doc, range_filter, translate_between}
use auger.Pushdown.Typed.{compare-order}
use auger.Pushdown.Engines.{
  Tri, is_holds, and3, neg3, passes3, holds_at, given, is_plain, is_known, is_typed, is_comparable,
  Server, Sql, Conforms,
}
use auger.Pushdown.Leaves.{Leaf, literal_of-comparable, exact-mixed, matches-exclude_null}

module _ (lib : Libs) (schema : Schema) (s : Server) (q : Sql s.Row)
    (conforms : Conforms lib schema s q) where
  open s use {Row, matches, is_missing, order}
  open q use {truth, compare}
  open conforms use {plain, null_agrees, bool_agrees}

  matches-range_filter :
      (p : Text) (n : Bool) (lo hi : Bson) (r : Row)
      → is_plain p ≡ true
      → is_comparable lo ≡ true
      → is_comparable hi ≡ true
      → matches (range_filter p n lo hi) r ≡ (
          if n
          then (holds_at Operator.lt (order p lo r) || holds_at Operator.gt (order p hi r))
            && not (is_missing p r)
          else holds_at Operator.gt_eq (order p lo r) && holds_at Operator.lt_eq (order p hi r))
  unfolding range_filter
  matches-range_filter p false lo hi r pl cl ch = s.matches-range p lo hi r pl cl ch
  matches-range_filter p true lo hi r pl cl ch =
      let below = test_doc p (codes "$lt") lo in
      let above = test_doc p (codes "$gt") hi in
      matches-exclude_null lib schema s q conforms p (or_doc (below ∷ above ∷ [])) r pl
      ∙ ground (
        arith,
        s.matches-or (below ∷ above ∷ []) r,
        s.matches-lt p lo r pl cl,
        s.matches-gt p hi r pl ch,
      )

  range-accepts :
      (n missing : Bool) (lo hi : Option Ordering)
      → given lo ≡ not missing
      → given hi ≡ not missing
      → (if n
          then (holds_at Operator.lt lo || holds_at Operator.gt hi) && not missing
          else holds_at Operator.gt_eq lo && holds_at Operator.lt_eq hi)
        ≡ is_holds (neg3 n (and3 (passes3 Operator.gt_eq lo) (passes3 Operator.lt_eq hi)))
  range-accepts n missing none hi l h = ground arith
  range-accepts n missing (some lo) none l h = ground arith
  range-accepts n missing (some lo) (some hi) l h = ground arith

  range-known :
      (n missing : Bool) (lo hi : Option Ordering)
      → given lo ≡ not missing
      → given hi ≡ not missing
      → is_known (neg3 n (and3 (passes3 Operator.gt_eq lo) (passes3 Operator.lt_eq hi)))
        ≡ not missing
  range-known n missing none hi l h = ground arith
  range-known n missing (some lo) none l h = ground arith
  range-known n missing (some lo) (some hi) l h = ground arith

  pub translate_between-Leaf :
      (e : Expr) (n : Bool) (low high : Expr) {t : Translated} (r : Row)
      → translate_between lib schema e n low high ≡ some t
      → t.exact ≡ true
      → is_typed lib schema e low ≡ true
      → is_typed lib schema e high ≡ true
      → Leaf lib schema s q conforms e (truth (Expr.between e n low high) r) t.filter r
  unfolding translate_between
  translate_between-Leaf e n low high {t} r h x tl th =
      let (c, lo, hi, ec, el, eh, et) =
        >>=-eq-some3 (resolve_column lib schema e) (λ c. literal_of lib low c)
          (λ c _. literal_of lib high c)
          (λ c lo hi. record { filter = range_filter c.path n lo hi; exact = not c.mixed }) h in
      rw (q.truth-between e low high n r) (
        subst
          (λ (u : Translated).
            Leaf lib schema s q conforms e (verdict (compare e low r) (compare e high r)) u.filter
              r)
          et (finish c lo hi ec el eh (exact-mixed c (ap (λ (u : Translated). u.exact) et ∙ x))))
    where
      verdict : Option Ordering → Option Ordering → Tri
      verdict lo hi = neg3 n (and3 (passes3 Operator.gt_eq lo) (passes3 Operator.lt_eq hi))

      finish :
          (c : ColumnRef) (lo hi : Bson)
          → resolve_column lib schema e ≡ some c
          → literal_of lib low c ≡ some lo
          → literal_of lib high c ≡ some hi
          → c.mixed ≡ false
          → Leaf lib schema s q conforms e
              (verdict (compare e low r) (compare e high r))
              (range_filter c.path n lo hi)
              r
      finish c lo hi ec el eh m =
          let (same_lo, seen_lo) = compare-order lib schema s q conforms e low c lo r ec m el tl in
          let (same_hi, seen_hi) = compare-order lib schema s q conforms e high c hi r ec m eh th in
          record {
            c = c;
            resolved = ec;
            accepts =
                matches-range_filter c.path n lo hi r (plain e c ec)
                  (literal_of-comparable lib low c el) (literal_of-comparable lib high c eh)
                ∙ range-accepts n (is_missing c.path r) _ _ seen_lo seen_hi
                ∙ ap₂ (λ a b. is_holds (verdict a b)) (sym same_lo) (sym same_hi);
            known =
                ap₂ (λ a b. is_known (verdict a b)) same_lo same_hi
                ∙ range-known n (is_missing c.path r) _ _ seen_lo seen_hi;
          }
