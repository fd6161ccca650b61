-- ===== src/Pushdown/Truths.antt =====
-- mongo/pushdown.rs: the guards of `null_guards`, for tests of truth and of null.
use auger.Base.{
  Bool, true, false, not, ◌&&◌, List, [], ◌∷◌, some, ◌≡◌, sym, ◌∙◌, ap, arith, >>=-eq-some,
  >>=-eq-some2,
}
use auger.Arrow.{Schema}
use auger.Bson.{Bson, Document, doc1}
use auger.Pushdown.Expr.{Expr}
use auger.Pushdown.Literal.{Libs}
use auger.Pushdown.Column.{resolve_column}
use auger.Pushdown.Translate.{
  Translated, exactly, or_doc, collect_guards, require_bool, bool_or_null, translate,
}
use auger.Pushdown.Engines.{
  Tri, holds, fails, of_bool, is_holds, is_fails, is_known, Server, Sql, Conforms,
}
use auger.Pushdown.Members.{bool_test-BoolLeaf, missing-known}
use auger.Pushdown.Guards.{IsVisible}
use auger.Pushdown.Facts.{reads, column-reads, total-GuardFact, BoolLeaf-reads, null-reads}
use auger.Pushdown.Connectives.{HasFact}

module _ (lib : Libs) (schema : Schema) (s : Server) (q : Sql s.Row)
    (conforms : Conforms lib schema s q) where
  open s use {Row, matches, is_missing}
  open q use {truth}
  open conforms use {plain, null_agrees}

  or_null-reads :
      (e : Expr) (want : Bool) (out : List Document) (r : Row) {t : Translated} {gs : List Document}
      → bool_or_null lib schema e want ≡ some t
      → collect_guards lib schema e out ≡ some gs
      → reads lib schema s q conforms gs r
        ≡ (reads lib schema s q conforms out r && is_known (truth e r))
  unfolding bool_or_null
  or_null-reads e want out r h k =
      let (c, unit, ec, eb, et) =
        >>=-eq-some2 (resolve_column lib schema e) (λ c. require_bool c)
          (λ c _. exactly (or_doc (doc1 c.path (Bson.boolean want) ∷ doc1 c.path Bson.null ∷ [])))
          h in
      column-reads lib schema s q conforms e out c r k ec
      ∙ ap (λ b. reads lib schema s q conforms out r && b)
          (sym (missing-known lib schema s q conforms e c r ec eb))

  known_is : (t : Tri) (b : Bool) → t ≡ of_bool b → is_known t ≡ true
  known_is t true h = rw h
  known_is t false h = rw h

  holds_known : (t : Tri) → of_bool (is_holds t) ≡ holds → is_known t ≡ true
  holds_known t h = ground arith

  fails_known : (t : Tri) → of_bool (is_fails t) ≡ holds → is_known t ≡ true
  fails_known t h = ground arith

  not_holds_known : (t : Tri) → of_bool (not (is_holds t)) ≡ fails → is_known t ≡ true
  not_holds_known t h = ground arith

  not_fails_known : (t : Tri) → of_bool (not (is_fails t)) ≡ fails → is_known t ≡ true
  not_fails_known t h = ground arith

  pub is_true-Fact : (e : Expr) → HasFact lib schema s q conforms (Expr.is_true e)
  unfolding collect_guards translate
  is_true-Fact e out gs t r safe hg ht x =
      total-GuardFact lib schema s q conforms (Expr.is_true e) out gs r (is_known (truth e r))
        (BoolLeaf-reads lib schema s q conforms e true out r
          (bool_test-BoolLeaf lib schema s q conforms e true r ht) hg)
        (known_is _ _ (q.truth-is_true e r))
        (λ b.
          elim b
            as (λ b.
              IsVisible b (Expr.is_true e)
              → truth (Expr.is_true e) r ≡ of_bool b
              → is_known (truth e r) ≡ true) [
                | true ↦ λ v tr. holds_known (truth e r) (sym (q.truth-is_true e r) ∙ tr)
                | false ↦ λ v tr. absurd v
              ])

  pub is_false-Fact : (e : Expr) → HasFact lib schema s q conforms (Expr.is_false e)
  unfolding collect_guards translate
  is_false-Fact e out gs t r safe hg ht x =
      total-GuardFact lib schema s q conforms (Expr.is_false e) out gs r (is_known (truth e r))
        (BoolLeaf-reads lib schema s q conforms e false out r
          (bool_test-BoolLeaf lib schema s q conforms e false r ht) hg)
        (known_is _ _ (q.truth-is_false e r))
        (λ b.
          elim b
            as (λ b.
              IsVisible b (Expr.is_false e)
              → truth (Expr.is_false e) r ≡ of_bool b
              → is_known (truth e r) ≡ true) [
                | true ↦ λ v tr. fails_known (truth e r) (sym (q.truth-is_false e r) ∙ tr)
                | false ↦ λ v tr. absurd v
              ])

  pub is_not_true-Fact : (e : Expr) → HasFact lib schema s q conforms (Expr.is_not_true e)
  unfolding collect_guards translate
  is_not_true-Fact e out gs t r safe hg ht x =
      total-GuardFact lib schema s q conforms (Expr.is_not_true e) out gs r (is_known (truth e r))
        (or_null-reads e false out r ht hg) (known_is _ _ (q.truth-is_not_true e r))
        (λ b.
          elim b
            as (λ b.
              IsVisible b (Expr.is_not_true e)
              → truth (Expr.is_not_true e) r ≡ of_bool b
              → is_known (truth e r) ≡ true) [
                | false ↦ λ v tr. not_holds_known (truth e r) (sym (q.truth-is_not_true e r) ∙ tr)
                | true ↦ λ v tr. absurd v
              ])

  pub is_not_false-Fact : (e : Expr) → HasFact lib schema s q conforms (Expr.is_not_false e)
  unfolding collect_guards translate
  is_not_false-Fact e out gs t r safe hg ht x =
      total-GuardFact lib schema s q conforms (Expr.is_not_false e) out gs r (is_known (truth e r))
        (or_null-reads e true out r ht hg) (known_is _ _ (q.truth-is_not_false e r))
        (λ b.
          elim b
            as (λ b.
              IsVisible b (Expr.is_not_false e)
              → truth (Expr.is_not_false e) r ≡ of_bool b
              → is_known (truth e r) ≡ true) [
                | false ↦ λ v tr. not_fails_known (truth e r) (sym (q.truth-is_not_false e r) ∙ tr)
                | true ↦ λ v tr. absurd v
              ])

  fails_not : (b : Bool) → of_bool b ≡ fails → not b ≡ true
  fails_not b h = ground arith

  holds_not : (b : Bool) → of_bool (not b) ≡ holds → not b ≡ true
  holds_not b h = ground arith

  pub is_null-Fact : (e : Expr) → HasFact lib schema s q conforms (Expr.is_null e)
  unfolding collect_guards translate
  is_null-Fact e out gs t r safe hg ht x =
      let (c, ec, et) = >>=-eq-some (resolve_column lib schema e) _ ht in
      total-GuardFact lib schema s q conforms (Expr.is_null e) out gs r (not (q.is_null e r))
        (null-reads lib schema s q conforms e out c r hg ec) (known_is _ _ (q.truth-is_null e r))
        (λ b.
          elim b
            as (λ b.
              IsVisible b (Expr.is_null e)
              → truth (Expr.is_null e) r ≡ of_bool b
              → not (q.is_null e r) ≡ true) [
                | false ↦ λ v tr. fails_not (q.is_null e r) (sym (q.truth-is_null e r) ∙ tr)
                | true ↦ λ v tr. absurd v
              ])

  pub is_not_null-Fact : (e : Expr) → HasFact lib schema s q conforms (Expr.is_not_null e)
  unfolding collect_guards translate
  is_not_null-Fact e out gs t r safe hg ht x =
      let (c, ec, et) = >>=-eq-some (resolve_column lib schema e) _ ht in
      total-GuardFact lib schema s q conforms (Expr.is_not_null e) out gs r (not (q.is_null e r))
        (null-reads lib schema s q conforms e out c r hg ec)
        (known_is _ _ (q.truth-is_not_null e r))
        (λ b.
          elim b
            as (λ b.
              IsVisible b (Expr.is_not_null e)
              → truth (Expr.is_not_null e) r ≡ of_bool b
              → not (q.is_null e r) ≡ true) [
                | true ↦ λ v tr. holds_not (q.is_null e r) (sym (q.truth-is_not_null e r) ∙ tr)
                | false ↦ λ v tr. absurd v
              ])
