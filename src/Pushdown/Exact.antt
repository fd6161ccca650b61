-- ===== src/Pushdown/Exact.antt =====
-- mongo/pushdown.rs, `translate`: an exact translation accepts precisely the rows of the predicate.
use auger.Base.{
  Bool, true, false, not, ◌&&◌, ◌||◌, [], ◌∷◌, some, ◌≡◌, refl, sym, ◌∙◌, ap, ap₂, arith,
  >>=-eq-some, inl, inr,
}
use auger.Arrow.{Schema}
use auger.Bson.{Bson, Document, doc1}
use auger.Pushdown.Expr.{Operator, Expr}
use auger.Pushdown.Literal.{Libs}
use auger.Pushdown.Column.{ColumnRef, resolve_column}
use auger.Pushdown.Translate.{Translated, exactly, not_null_doc, nor_doc, null_guards, translate}
use auger.Pushdown.Engines.{
  Tri, holds, fails, unknown, of_bool, is_holds, is_known, not3, and3, or3, Server, Sql, Conforms,
}
use auger.Pushdown.Leaves.{translate_compare-Leaf}
use auger.Pushdown.Ranges.{translate_between-Leaf}
use auger.Pushdown.Members.{translate_in_list-Leaf, bool_test-BoolLeaf, bool_or_null_lem}
use auger.Pushdown.Guards.{IsSafe, conjoin-exact, disjoin-exact, negate-exact}
use auger.Pushdown.Facts.{reads}
use auger.Pushdown.Connectives.{
  HasFact, and-Fact, or-Fact, not-Fact, compare-Fact, between-Fact, list-Fact, column-Fact,
  alias-Fact,
}
use auger.Pushdown.Truths.{
  is_true-Fact, is_false-Fact, is_not_true-Fact, is_not_false-Fact, is_null-Fact, is_not_null-Fact,
}

module _ (lib : Libs) (schema : Schema) (s : Server) (q : Sql s.Row)
    (conforms : Conforms lib schema s q) where
  open s use {Row, matches, is_missing}
  open q use {truth}
  open conforms use {plain, null_agrees}

  fact : (e : Expr) → HasFact lib schema s q conforms e
  unfolding translate
  fact (Expr.binary a Operator.and b) = and-Fact lib schema s q conforms a b (fact a) (fact b)
  fact (Expr.binary a Operator.or b) = or-Fact lib schema s q conforms a b (fact a) (fact b)
  fact (Expr.binary a (Operator.other n) b) = λ out gs t r safe hg ht x. absurd cc
  fact (Expr.binary a op b) = λ out gs t r safe hg ht x.
      compare-Fact lib schema s q conforms a op b out gs t r tt safe hg ht x
  fact (Expr.not e) = not-Fact lib schema s q conforms e (fact e)
  fact (Expr.is_null e) = is_null-Fact lib schema s q conforms e
  fact (Expr.is_not_null e) = is_not_null-Fact lib schema s q conforms e
  fact (Expr.is_true e) = is_true-Fact lib schema s q conforms e
  fact (Expr.is_false e) = is_false-Fact lib schema s q conforms e
  fact (Expr.is_not_true e) = is_not_true-Fact lib schema s q conforms e
  fact (Expr.is_not_false e) = is_not_false-Fact lib schema s q conforms e
  fact (Expr.between e n lo hi) = between-Fact lib schema s q conforms e n lo hi
  fact (Expr.in_list e xs n) = list-Fact lib schema s q conforms e xs n
  fact (Expr.like n e p esc ci) = λ out gs t r safe hg ht x. absurd safe
  fact (Expr.similar_to n e p esc ci) = λ out gs t r safe hg ht x. absurd cc
  fact (Expr.column n) = column-Fact lib schema s q conforms n
  fact (Expr.alias e n) = alias-Fact lib schema s q conforms e n (fact e)
  fact _ = λ out gs t r safe hg ht x. absurd cc

  negated :
      (m k : Bool) (t : Tri)
      → m ≡ is_holds t
      → (k ≡ true → is_known t ≡ true)
      → (t ≡ fails → k ≡ true)
      → (not (m || false) && k) ≡ is_holds (not3 t)
  negated m true holds e h f = ground arith
  negated m true fails e h f = ground arith
  negated m true unknown e h f = absurd (ground (arith, h refl))
  negated m false holds e h f = ground arith
  negated m false fails e h f = absurd (ground (arith, f refl))
  negated m false unknown e h f = ground arith

  and-holds : (x y : Tri) → (is_holds x && (is_holds y && true)) ≡ is_holds (and3 x y)
  and-holds x y = ground arith

  or-holds : (x y : Tri) → (is_holds x || (is_holds y || false)) ≡ is_holds (or3 x y)
  or-holds x y = ground arith

  is_holds-of_bool : (b : Bool) → b ≡ is_holds (of_bool b)
  is_holds-of_bool true = refl
  is_holds-of_bool false = refl

  some_filter :
      (c : ColumnRef) (f : ColumnRef → Document) {t : Translated} (r : Row) (b : Bool)
      → some (exactly (f c)) ≡ some t
      → matches (f c) r ≡ b
      → matches t.filter r ≡ b
  some_filter c f {t} r b h k = let e : f c ≡ t.filter = ground arith in rw (← e) k

  -- An exact translation accepts precisely the rows for which the predicate is TRUE, where the value
  -- of a column in SQL is what is stored at the path that its field records (`Conforms`), and the
  -- server reads filters as documented (`Server`): for every predicate whose NOTs stand over predicates
  -- that are FALSE only where their columns are present, whose IN lists are not empty, which has no
  -- LIKE, and whose literals are flags, 32-bit or 64-bit integers, texts or milliseconds against a
  -- column of that very type (`is_typed`). Literals that the gateway converts, such as a text against
  -- an ObjectId column or microseconds, are not covered.
  pub translate-exact :
      (e : Expr) {t : Translated} (r : Row)
      → IsSafe lib schema e
      → translate lib schema e ≡ some t
      → t.exact ≡ true
      → matches t.filter r ≡ is_holds (truth e r)
  unfolding translate
  translate-exact (Expr.binary a Operator.and b) r safe ht x =
      let (u, v, eu, ev, xu, xv, e) = conjoin-exact _ _ ht x in
      let ia = translate-exact a r safe.0 eu xu in
      let ib = translate-exact b r safe.1 ev xv in
      ap (λ f. matches f r) (sym e)
      ∙ s.matches-and (u.filter ∷ v.filter ∷ []) r
      ∙ ap₂ (λ m n. m && (n && true)) ia ib
      ∙ and-holds (truth a r) (truth b r)
      ∙ ap is_holds (sym (q.truth-and a b r))
  translate-exact (Expr.binary a Operator.or b) r safe ht x =
      let (u, v, eu, ev, xu, xv, e) = disjoin-exact _ _ ht x in
      let ia = translate-exact a r safe.0 eu xu in
      let ib = translate-exact b r safe.1 ev xv in
      ap (λ f. matches f r) (sym e)
      ∙ s.matches-or (u.filter ∷ v.filter ∷ []) r
      ∙ ap₂ (λ m n. m || (n || false)) ia ib
      ∙ or-holds (truth a r) (truth b r)
      ∙ ap is_holds (sym (q.truth-or a b r))
  translate-exact (Expr.binary a (Operator.other n) b) r safe ht x = absurd cc
  translate-exact (Expr.binary a op b) r safe ht x =
      elim (translate_compare-Leaf lib schema s q conforms a op b r ht x tt safe) [
        | inl (lit, leaf) ↦ leaf.accepts
        | inr (lit, leaf) ↦ leaf.accepts
      ]
  translate-exact (Expr.not e) r safe ht x =
      let (u, gs, eu, eg, xu, ef) = negate-exact _ _ ht x in
      let ie = translate-exact e r safe.0 eu xu in
      let f = fact e [] gs u r safe.0 (unfold null_guards in eg) eu xu in
      ap (λ f. matches f r) (sym ef)
      ∙ s.matches-and (nor_doc (u.filter ∷ []) ∷ gs) r
      ∙ ap (λ b. b && reads lib schema s q conforms gs r) (s.matches-nor (u.filter ∷ []) r)
      ∙ negated (matches u.filter r) (reads lib schema s q conforms gs r) (truth e r) ie
          (λ k. (f.seen k).1) (λ k. f.kept false safe.1 k refl)
      ∙ ap is_holds (sym (q.truth-not e r))
  translate-exact (Expr.is_null e) r safe ht x =
      let (c, ec, et) = >>=-eq-some (resolve_column lib schema e) _ ht in
      some_filter c (λ c. doc1 c.path Bson.null) r _ et
        (s.matches-null c.path r (plain e c ec)
          ∙ sym (null_agrees e c r ec)
          ∙ is_holds-of_bool _
          ∙ ap is_holds (sym (q.truth-is_null e r)))
  translate-exact (Expr.is_not_null e) r safe ht x =
      let (c, ec, et) = >>=-eq-some (resolve_column lib schema e) _ ht in
      some_filter c (λ c. not_null_doc c.path) r _ et
        (s.matches-ne_null c.path r (plain e c ec)
          ∙ ap not (sym (null_agrees e c r ec))
          ∙ is_holds-of_bool _
          ∙ ap is_holds (sym (q.truth-is_not_null e r)))
  translate-exact (Expr.is_true e) r safe ht x =
      (bool_test-BoolLeaf lib schema s q conforms e true r ht).accepts
      ∙ is_holds-of_bool _
      ∙ ap is_holds (sym (q.truth-is_true e r))
  translate-exact (Expr.is_false e) r safe ht x =
      (bool_test-BoolLeaf lib schema s q conforms e false r ht).accepts
      ∙ is_holds-of_bool _
      ∙ ap is_holds (sym (q.truth-is_false e r))
  translate-exact (Expr.is_not_true e) r safe ht x =
      bool_or_null_lem lib schema s q conforms e false r ht
      ∙ is_holds-of_bool _
      ∙ ap is_holds (sym (q.truth-is_not_true e r))
  translate-exact (Expr.is_not_false e) r safe ht x =
      bool_or_null_lem lib schema s q conforms e true r ht
      ∙ is_holds-of_bool _
      ∙ ap is_holds (sym (q.truth-is_not_false e r))
  translate-exact (Expr.between e n lo hi) r safe ht x =
      (translate_between-Leaf lib schema s q conforms e n lo hi r ht x safe.0 safe.1).accepts
  translate-exact (Expr.in_list e xs n) r safe ht x =
      (translate_in_list-Leaf lib schema s q conforms e xs n r ht x safe.0 safe.1).accepts
  translate-exact (Expr.like n e p esc ci) r safe ht x = absurd safe
  translate-exact (Expr.similar_to n e p esc ci) r safe ht x = absurd cc
  translate-exact (Expr.column n) r safe ht x =
      (bool_test-BoolLeaf lib schema s q conforms (Expr.column n) true r ht).accepts
  translate-exact (Expr.alias e n) r safe ht x =
      translate-exact e r safe ht x ∙ ap is_holds (sym (q.truth-alias e n r))
  translate-exact _ r safe ht x = absurd cc
