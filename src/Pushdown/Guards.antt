-- ===== src/Pushdown/Guards.antt =====
-- mongo/pushdown.rs, `null_guards`: what the guards of a negated predicate say of its columns.
use auger.Base.{
  Bool, true, false, ◌&&◌, List, [], ◌∷◌, ◌++◌, Option, none, some, ◌≡◌, refl, all, arith, ◌>>=◌,
}
use auger.Arrow.{Schema}
use auger.Bson.{Document}
use auger.Pushdown.Expr.{Operator, Expr, expr_list}
use auger.Pushdown.Literal.{Libs}
use auger.Pushdown.Column.{ColumnRef, resolve_column, is_literal}
use auger.Pushdown.Translate.{
  Translated, not_null_doc, and_doc, or_doc, nor_doc, conjoin, disjoin, negate, collect_guards,
}
use auger.Pushdown.Engines.{is_typed}
use auger.Pushdown.Leaves.{IsNonempty, pair_typed}

pub all-append {ℓ} :
    {A : Type ℓ} (p : A → Bool) (xs ys : List A) → all p (xs ++ ys) ≡ (all p xs && all p ys)
all-append p [] ys = refl
all-append p (x ∷ xs) ys = ground (arith, all-append p xs ys)

guard_of :
    (out : List Document) (m : Option ColumnRef) {c : ColumnRef} {gs : List Document}
    → (m >>= λ d. some (out ++ not_null_doc d.path ∷ [])) ≡ some gs
    → m ≡ some c
    → gs ≡ out ++ not_null_doc c.path ∷ []
guard_of out none h k = absurd cc
guard_of out (some d) h k = cc

-- `IsVisible b e`: wherever `e` is TRUE (for `b` true) or FALSE (for `b` false), no column of `e` is
-- NULL. A conjunction can be FALSE beside a NULL, and `IS NOT NULL` is FALSE because of one.
abbrev pub IsVisible : Bool → Expr → Type 0
IsVisible true (Expr.binary l Operator.and r) = IsVisible true l × IsVisible true r
IsVisible false (Expr.binary l Operator.and r) = ⊥
IsVisible true (Expr.binary l Operator.or r) = ⊥
IsVisible false (Expr.binary l Operator.or r) = IsVisible false l × IsVisible false r
IsVisible b (Expr.binary l (Operator.other n) r) = ⊥
IsVisible b (Expr.binary l op r) = Unit
IsVisible true (Expr.not e) = IsVisible false e
IsVisible false (Expr.not e) = IsVisible true e
IsVisible false (Expr.is_null e) = Unit
IsVisible true (Expr.is_not_null e) = Unit
IsVisible true (Expr.is_true e) = Unit
IsVisible true (Expr.is_false e) = Unit
IsVisible false (Expr.is_not_true e) = Unit
IsVisible false (Expr.is_not_false e) = Unit
IsVisible b (Expr.between e n lo hi) = Unit
IsVisible b (Expr.in_list e xs n) = Unit
IsVisible b (Expr.column n) = Unit
IsVisible b (Expr.alias e n) = IsVisible b e
IsVisible b _ = ⊥

module _ (lib : Libs) (schema : Schema) where
  -- Every NOT stands over a predicate that is FALSE only where its columns are present, literals have
  -- the type of the column and lose nothing when they are sent (`is_typed`), IN lists are not empty, and there is no LIKE.
  abbrev pub IsSafe : Expr → Type 0
  IsSafe (Expr.binary l Operator.and r) = IsSafe l × IsSafe r
  IsSafe (Expr.binary l Operator.or r) = IsSafe l × IsSafe r
  IsSafe (Expr.binary l op r) = pair_typed lib schema l r ≡ true
  IsSafe (Expr.not e) = IsSafe e × IsVisible false e
  IsSafe (Expr.between e n lo hi) =
      (is_typed lib schema e lo ≡ true) × (is_typed lib schema e hi ≡ true)
  IsSafe (Expr.in_list e xs n) =
      IsNonempty xs × (all (λ x. is_typed lib schema e x) (expr_list xs) ≡ true)
  IsSafe (Expr.like n e p esc ci) = ⊥
  IsSafe (Expr.alias e n) = IsSafe e
  IsSafe _ = Unit

-- What a conjunction, a disjunction and a negation that are exact are made of.
pub conjoin-exact :
    (l r : Option Translated) {t : Translated}
    → conjoin l r ≡ some t
    → t.exact ≡ true
    → (a : Translated) × (b : Translated) × (l ≡ some a)
      × (r ≡ some b)
      × (a.exact ≡ true)
      × (b.exact ≡ true)
      × (and_doc (a.filter ∷ b.filter ∷ []) ≡ t.filter)
unfolding conjoin
conjoin-exact (some a) (some b) h x = (a, b, refl, refl, ground arith, ground arith, ground arith)
conjoin-exact (some a) none h x = absurd (ground arith)
conjoin-exact none (some b) h x = absurd (ground arith)
conjoin-exact none none h x = absurd cc

pub disjoin-exact :
    (l r : Option Translated) {t : Translated}
    → disjoin l r ≡ some t
    → t.exact ≡ true
    → (a : Translated) × (b : Translated) × (l ≡ some a)
      × (r ≡ some b)
      × (a.exact ≡ true)
      × (b.exact ≡ true)
      × (or_doc (a.filter ∷ b.filter ∷ []) ≡ t.filter)
unfolding disjoin
disjoin-exact (some a) (some b) h x = (a, b, refl, refl, ground arith, ground arith, ground arith)
disjoin-exact (some a) none h x = absurd cc
disjoin-exact none r h x = absurd cc

pub negate-exact :
    (m : Option Translated) (g : Option (List Document)) {t : Translated}
    → negate m g ≡ some t
    → t.exact ≡ true
    → (a : Translated) × (gs : List Document) × (m ≡ some a)
      × (g ≡ some gs)
      × (a.exact ≡ true)
      × (and_doc (nor_doc (a.filter ∷ []) ∷ gs) ≡ t.filter)
unfolding negate
negate-exact (some a) (some gs) h x = (a, gs, refl, refl, ground arith, ground arith)
negate-exact (some a) none h x = absurd cc
negate-exact none g h x = absurd cc

module _ (lib : Libs) (schema : Schema) where
  -- An expression that names a column has the guard of that column.
  pub collect_guards-column :
      (e : Expr) (out : List Document) (c : ColumnRef) {gs : List Document}
      → collect_guards lib schema e out ≡ some gs
      → resolve_column lib schema e ≡ some c
      → gs ≡ out ++ not_null_doc c.path ∷ []
  unfolding collect_guards resolve_column
  collect_guards-column (Expr.column n) out c h k =
      guard_of out (resolve_column lib schema (Expr.column n)) h k
  collect_guards-column (Expr.alias e n) out c h k = collect_guards-column e out c h k
  collect_guards-column (Expr.scalar_function f args) out c h k =
      guard_of out (resolve_column lib schema (Expr.scalar_function f args)) h k
  collect_guards-column _ out c h k = absurd cc

  pub collect_guards-literal :
      (e : Expr) (out : List Document) {gs : List Document}
      → collect_guards lib schema e out ≡ some gs
      → is_literal e ≡ true
      → gs ≡ out
  unfolding collect_guards is_literal
  collect_guards-literal (Expr.literal s) out h k = cc
  collect_guards-literal _ out h k = absurd cc
