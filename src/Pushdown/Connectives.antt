-- ===== src/Pushdown/Connectives.antt =====
-- mongo/pushdown.rs: the guards of `null_guards`, for the connectives and for single comparisons.
use auger.Base.{
  Bool, true, false, not, List, some, ◌≡◌, refl, sym, ◌∙◌, Text, arith, >>=-eq-some, >>=-eq-some3,
  ◌>>=◌,
}
use auger.Arrow.{Schema}
use auger.Bson.{Bson, Document}
use auger.Pushdown.Expr.{Operator, Expr, Exprs}
use auger.Pushdown.Literal.{Libs}
use auger.Pushdown.Column.{ColumnRef, resolve_column, literal_of, is_literal}
use auger.Pushdown.Translate.{
  Translated, exactly, not_null_doc, and_doc, or_doc, nor_doc, conjoin, disjoin, negate,
  collect_guards, null_guards, require_bool, range_filter, bool_or_null, translate_between,
  translate_binary, translate,
}
use auger.Pushdown.Engines.{
  Tri, holds, fails, of_bool, is_known, not3, and3, or3, IsComparison, Server, Sql, Conforms,
}
use auger.Pushdown.Leaves.{pair_typed, translate_compare-Leaf}
use auger.Pushdown.Ranges.{translate_between-Leaf}
use auger.Pushdown.Members.{translate_in_list-Leaf, bool_test-BoolLeaf}
use auger.Pushdown.Guards.{
  collect_guards-literal, IsVisible, IsSafe, conjoin-exact, disjoin-exact, negate-exact,
}
use auger.Pushdown.Facts.{
  reads, GuardFact, exact-GuardFact, Leaf-GuardFact, compare-GuardFact, BoolLeaf-reads,
}

literal_of-is_literal :
    (lib : Libs) (l : Expr) (c : ColumnRef) {v : Bson}
    → literal_of lib l c ≡ some v
    → is_literal l ≡ true
unfolding literal_of is_literal
literal_of-is_literal lib (Expr.literal s) c h = refl
literal_of-is_literal lib _ c h = absurd cc

between-literals :
    (lib : Libs) (schema : Schema) (e : Expr) (n : Bool) (low high : Expr) {t : Translated}
    → translate_between lib schema e n low high ≡ some t
    → (is_literal low ≡ true) × (is_literal high ≡ true)
unfolding translate_between
between-literals lib schema e n low high h =
    let (c, lo, hi, ec, el, eh, et) =
      >>=-eq-some3 (resolve_column lib schema e) (λ c. literal_of lib low c)
        (λ c _. literal_of lib high c)
        (λ c lo hi. record { filter = range_filter c.path n lo hi; exact = not c.mixed }) h in
    (literal_of-is_literal lib low c el, literal_of-is_literal lib high c eh)

module _ (lib : Libs) (schema : Schema) (s : Server) (q : Sql s.Row)
    (conforms : Conforms lib schema s q) where
  open s use {Row, matches, is_missing}
  open q use {truth}
  open conforms use {plain, null_agrees}

  abbrev pub Fact : Expr → List Document → List Document → Row → Type 0
  Fact e out gs r = GuardFact lib schema s q conforms e out gs r

  abbrev pub HasFact : Expr → Type 0
  HasFact e =
      (out gs : List Document) (t : Translated) (r : Row)
      → IsSafe lib schema e
      → collect_guards lib schema e out ≡ some gs
      → translate lib schema e ≡ some t
      → t.exact ≡ true
      → Fact e out gs r

  pub and-Fact : (a b : Expr) → HasFact a → HasFact b → HasFact (Expr.binary a Operator.and b)
  unfolding collect_guards translate
  and-Fact a b fa fb out gs t r safe hg ht x =
      let (g, ha, hb) =
        >>=-eq-some (collect_guards lib schema a out) (collect_guards lib schema b) hg in
      let (u, v, eu, ev, xu, xv, e) = conjoin-exact _ _ ht x in
      let l = fa out g u r safe.0 ha eu xu in
      let k = fb g gs v r safe.1 hb ev xv in
      let sql = q.truth-and a b r in
      record {
        seen = λ h.
            let (hg', kb) = k.seen h in
            let (ho, ka) = l.seen hg' in (ho, rw sql (both (truth a r) (truth b r) ka kb));
        kept = λ c.
            elim c
              as (λ c.
                IsVisible c (Expr.binary a Operator.and b)
                → truth (Expr.binary a Operator.and b) r ≡ of_bool c
                → reads lib schema s q conforms out r ≡ true
                → reads lib schema s q conforms gs r ≡ true) [
                  | true ↦ λ vis tr h.
                      let (ta, tb) = halves (truth a r) (truth b r) (rw sql at tr) in
                      k.kept true vis.1 tb (l.kept true vis.0 ta h)
                  | false ↦ λ vis tr h. absurd vis
                ];
      }
    where
      both : (x y : Tri) → is_known x ≡ true → is_known y ≡ true → is_known (and3 x y) ≡ true
      both x y h k = ground arith

      halves : (x y : Tri) → and3 x y ≡ holds → (x ≡ holds) × (y ≡ holds)
      halves x y h = ground arith

  pub or-Fact : (a b : Expr) → HasFact a → HasFact b → HasFact (Expr.binary a Operator.or b)
  unfolding collect_guards translate
  or-Fact a b fa fb out gs t r safe hg ht x =
      let (g, ha, hb) =
        >>=-eq-some (collect_guards lib schema a out) (collect_guards lib schema b) hg in
      let (u, v, eu, ev, xu, xv, e) = disjoin-exact _ _ ht x in
      let l = fa out g u r safe.0 ha eu xu in
      let k = fb g gs v r safe.1 hb ev xv in
      let sql = q.truth-or a b r in
      record {
        seen = λ h.
            let (hg', kb) = k.seen h in
            let (ho, ka) = l.seen hg' in (ho, rw sql (both (truth a r) (truth b r) ka kb));
        kept = λ c.
            elim c
              as (λ c.
                IsVisible c (Expr.binary a Operator.or b)
                → truth (Expr.binary a Operator.or b) r ≡ of_bool c
                → reads lib schema s q conforms out r ≡ true
                → reads lib schema s q conforms gs r ≡ true) [
                  | true ↦ λ vis tr h. absurd vis
                  | false ↦ λ vis tr h.
                      let (ta, tb) = halves (truth a r) (truth b r) (rw sql at tr) in
                      k.kept false vis.1 tb (l.kept false vis.0 ta h)
                ];
      }
    where
      both : (x y : Tri) → is_known x ≡ true → is_known y ≡ true → is_known (or3 x y) ≡ true
      both x y h k = ground arith

      halves : (x y : Tri) → or3 x y ≡ fails → (x ≡ fails) × (y ≡ fails)
      halves x y h = ground arith

  pub not-Fact : (a : Expr) → HasFact a → HasFact (Expr.not a)
  unfolding collect_guards translate
  not-Fact a fa out gs t r safe hg ht x =
      let (u, ds, eu, ed, xu, e) = negate-exact _ _ ht x in
      let l = fa out gs u r safe.0 hg eu xu in
      let sql = q.truth-not a r in
      record {
        seen = λ h. let (ho, ka) = l.seen h in (ho, rw sql (flipped (truth a r) ka));
        kept = λ c.
            elim c
              as (λ c.
                IsVisible c (Expr.not a)
                → truth (Expr.not a) r ≡ of_bool c
                → reads lib schema s q conforms out r ≡ true
                → reads lib schema s q conforms gs r ≡ true) [
                  | true ↦ λ vis tr h. l.kept false vis (was_false (truth a r) (rw sql at tr)) h
                  | false ↦ λ vis tr h. l.kept true vis (was_true (truth a r) (rw sql at tr)) h
                ];
      }
    where
      flipped : (x : Tri) → is_known x ≡ true → is_known (not3 x) ≡ true
      flipped x h = ground arith

      was_false : (x : Tri) → not3 x ≡ holds → x ≡ fails
      was_false x h = ground arith

      was_true : (x : Tri) → not3 x ≡ fails → x ≡ holds
      was_true x h = ground arith

  pub compare-Fact :
      (a : Expr) (op : Operator) (b : Expr) (out gs : List Document) (t : Translated) (r : Row)
      → IsComparison op
      → pair_typed lib schema a b ≡ true
      → collect_guards lib schema (Expr.binary a op b) out ≡ some gs
      → auger.Pushdown.Translate.translate_compare lib schema a op b ≡ some t
      → t.exact ≡ true
      → Fact (Expr.binary a op b) out gs r
  unfolding collect_guards
  compare-Fact a op b out gs t r i ty hg ht x =
      compare-GuardFact lib schema s q conforms a op b out r
        (translate_compare-Leaf lib schema s q conforms a op b r ht x i ty) hg

  pub between-Fact : (e : Expr) (n : Bool) (low high : Expr) → HasFact (Expr.between e n low high)
  unfolding collect_guards translate
  between-Fact e n low high out gs t r safe hg ht x =
      let (g, he, h1) =
        >>=-eq-some (collect_guards lib schema e out)
          (λ g. collect_guards lib schema low g >>= collect_guards lib schema high) hg in
      let (g', hl, hh) =
        >>=-eq-some (collect_guards lib schema low g) (collect_guards lib schema high) h1 in
      let (ll, lh) = between-literals lib schema e n low high ht in
      let same =
        collect_guards-literal lib schema high g' hh lh
        ∙ collect_guards-literal lib schema low g hl ll in
      Leaf-GuardFact lib schema s q conforms (Expr.between e n low high) e out r
        (translate_between-Leaf lib schema s q conforms e n low high r ht x safe.0 safe.1)
        (rw same he)

  pub list-Fact : (e : Expr) (xs : Exprs) (n : Bool) → HasFact (Expr.in_list e xs n)
  unfolding collect_guards translate
  list-Fact e xs n out gs t r safe hg ht x =
      Leaf-GuardFact lib schema s q conforms (Expr.in_list e xs n) e out r
        (translate_in_list-Leaf lib schema s q conforms e xs n r ht x safe.0 safe.1) hg

  pub column-Fact : (n : Text) → HasFact (Expr.column n)
  unfolding translate
  column-Fact n out gs t r safe hg ht x =
      exact-GuardFact lib schema s q conforms (Expr.column n) out gs r (
        BoolLeaf-reads lib schema s q conforms (Expr.column n) true out r
          (bool_test-BoolLeaf lib schema s q conforms (Expr.column n) true r ht) hg)

  pub alias-Fact : (e : Expr) (n : Text) → HasFact e → HasFact (Expr.alias e n)
  unfolding collect_guards translate
  alias-Fact e n fact out gs t r safe hg ht x =
      let f = fact out gs t r safe hg ht x in
      let same = q.truth-alias e n r in
      record {
        seen = λ h. let (ho, k) = f.seen h in (ho, rw same k);
        kept = λ b v tr h. f.kept b v (sym same ∙ tr) h;
      }
