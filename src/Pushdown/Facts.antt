-- ===== src/Pushdown/Facts.antt =====
-- mongo/pushdown.rs: what the guards of `null_guards` say of a predicate at a row.
use auger.Base.{
  Bool, true, false, not, ◌&&◌, List, [], ◌∷◌, some, ◌≡◌, sym, ◌∙◌, ap, all, arith, >>=-eq-some,
  ◌>>=◌, ◌⊎◌, inl, inr,
}
use auger.Arrow.{Schema}
use auger.Bson.{Document}
use auger.Pushdown.Expr.{Operator, Expr}
use auger.Pushdown.Literal.{Libs}
use auger.Pushdown.Column.{ColumnRef, resolve_column, is_literal}
use auger.Pushdown.Translate.{not_null_doc, collect_guards}
use auger.Pushdown.Engines.{Tri, of_bool, is_known, Server, Sql, Conforms}
use auger.Pushdown.Leaves.{Leaf}
use auger.Pushdown.Members.{BoolLeaf}
use auger.Pushdown.Guards.{all-append, collect_guards-column, collect_guards-literal, IsVisible}

module _ (lib : Libs) (schema : Schema) (s : Server) (q : Sql s.Row)
    (conforms : Conforms lib schema s q) where
  open s use {Row, matches, is_missing}
  open q use {truth}
  open conforms use {plain, null_agrees}

  abbrev pub reads : List Document → Row → Bool
  reads gs r = all (λ d. matches d r) gs

  -- The guards of a predicate, collected behind others: where they accept a row the predicate is
  -- known, and where the predicate is visibly TRUE or FALSE they accept the row.
  pub record GuardFact (e : Expr) (out gs : List Document) (r : Row) : Type 0 where
    pub seen : reads gs r ≡ true → (reads out r ≡ true) × (is_known (truth e r) ≡ true)
    pub kept :
        (b : Bool) → IsVisible b e → truth e r ≡ of_bool b → reads out r ≡ true → reads gs r ≡ true

  pub column-reads :
      (e : Expr) (out : List Document) (c : ColumnRef) (r : Row) {gs : List Document}
      → collect_guards lib schema e out ≡ some gs
      → resolve_column lib schema e ≡ some c
      → reads gs r ≡ (reads out r && not (is_missing c.path r))
  column-reads e out c r h ec = rw (collect_guards-column lib schema e out c h ec) (
      all-append (λ d. matches d r) out (not_null_doc c.path ∷ [])
      ∙ ground (arith, s.matches-ne_null c.path r (plain e c ec)))

  known_of_bool : (t : Tri) (b : Bool) → t ≡ of_bool b → is_known t ≡ true
  known_of_bool t true h = rw h
  known_of_bool t false h = rw h

  -- A predicate that is known exactly where its guards accept.
  pub exact-GuardFact :
      (e : Expr) (out gs : List Document) (r : Row)
      → reads gs r ≡ (reads out r && is_known (truth e r))
      → GuardFact e out gs r
  exact-GuardFact e out gs r h = record {
    seen = λ k. (ground arith, ground arith);
    kept = λ b v t k. h ∙ ground (arith, known_of_bool (truth e r) b t);
  }

  -- A predicate that is always known.
  pub total-GuardFact :
      (e : Expr) (out gs : List Document) (r : Row) (k : Bool)
      → reads gs r ≡ (reads out r && k)
      → is_known (truth e r) ≡ true
      → ((b : Bool) → IsVisible b e → truth e r ≡ of_bool b → k ≡ true)
      → GuardFact e out gs r
  total-GuardFact e out gs r k h known visible = record {
    seen = λ a. (ground arith, known);
    kept = λ b v t a. h ∙ ground (arith, visible b v t);
  }

  pub Leaf-GuardFact :
      (e col : Expr) (out : List Document) (r : Row) {f : Document} {gs : List Document}
      → Leaf lib schema s q conforms col (truth e r) f r
      → collect_guards lib schema col out ≡ some gs
      → GuardFact e out gs r
  Leaf-GuardFact e col out r {gs} leaf h =
      exact-GuardFact e out gs r (
        column-reads col out leaf.c r h leaf.resolved ∙ ap (λ b. reads out r && b) (sym leaf.known))

  -- A comparison with a literal, whose own guards are none.
  pub compare-GuardFact :
      (a : Expr) (op : Operator) (b : Expr) (out : List Document) (r : Row) {f : Document}
      {gs : List Document}
      → ((is_literal b ≡ true) × Leaf lib schema s q conforms a (truth (Expr.binary a op b) r) f r)
        ⊎ ((is_literal a ≡ true)
            × Leaf lib schema s q conforms b (truth (Expr.binary a op b) r) f r)
      → (collect_guards lib schema a out >>= collect_guards lib schema b) ≡ some gs
      → GuardFact (Expr.binary a op b) out gs r
  compare-GuardFact a op b out r {gs} (inl (lit, leaf)) h =
      let (g, ha, hb) =
        >>=-eq-some (collect_guards lib schema a out) (collect_guards lib schema b) h in
      rw (collect_guards-literal lib schema b g hb lit)
        (Leaf-GuardFact (Expr.binary a op b) a out r leaf ha)
  compare-GuardFact a op b out r {gs} (inr (lit, leaf)) h =
      let (g, ha, hb) =
        >>=-eq-some (collect_guards lib schema a out) (collect_guards lib schema b) h in
      let same = collect_guards-literal lib schema a out ha lit in
      Leaf-GuardFact (Expr.binary a op b) b out r leaf (rw same at hb)

  pub BoolLeaf-reads :
      (e : Expr) (want : Bool) (out : List Document) (r : Row) {f : Document} {gs : List Document}
      → BoolLeaf lib schema s q conforms e want f r
      → collect_guards lib schema e out ≡ some gs
      → reads gs r ≡ (reads out r && is_known (truth e r))
  BoolLeaf-reads e want out r leaf h =
      column-reads e out leaf.c r h leaf.resolved ∙ ap (λ b. reads out r && b) (sym leaf.known)

  pub null-reads :
      (e : Expr) (out : List Document) (c : ColumnRef) (r : Row) {gs : List Document}
      → collect_guards lib schema e out ≡ some gs
      → resolve_column lib schema e ≡ some c
      → reads gs r ≡ (reads out r && not (q.is_null e r))
  null-reads e out c r h ec =
      column-reads e out c r h ec ∙ ap (λ b. reads out r && not b) (sym (null_agrees e c r ec))
