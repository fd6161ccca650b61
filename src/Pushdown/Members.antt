-- ===== src/Pushdown/Members.antt =====
-- mongo/pushdown.rs: the filters of IN lists and of boolean columns accept the rows that the
-- predicate holds for.
use auger.Base.{
  Bool, true, false, not, ◌&&◌, ◌||◌, List, [], ◌∷◌, Option, none, some, ◌≡◌, refl, sym, ◌∙◌, ap,
  ap₂, subst, Text, All, map, if◌then◌else◌, all, any, arith, Ordering, >>=-eq-some2, traverse,
  traverse-cons,
}
use auger.Arrow.{Schema}
use auger.Bson.{Bson, Document, doc1}
use auger.Pushdown.Expr.{Operator, Expr, Exprs, expr_list}
use auger.Pushdown.Literal.{Libs}
use auger.Pushdown.Column.{ColumnRef, resolve_column, literal_of}
use auger.Pushdown.Translate.{
  Translated, exactly, or_doc, require_bool, list_filter, bool_test, bool_or_null,
  translate_in_list,
}
use auger.Pushdown.Typed.{compare-order}
use auger.Pushdown.Engines.{
  Tri, unknown, of_bool, is_holds, is_fails, is_known, is_typed, or3, any3, neg3, passes3, holds_at,
  given, is_plain, is_comparable, Server, Sql, Conforms,
}
use auger.Pushdown.Leaves.{IsNonempty, exact-mixed, literals-comparable, matches-exclude_null, Leaf}

abbrev one_of3 : List (Option Ordering) → Tri
one_of3 os = any3 (λ o. passes3 Operator.eq o) os

abbrev one_of : List (Option Ordering) → Bool
one_of os = any (λ o. holds_at Operator.eq o) os

-- Where the column is present every comparison is known, where it is missing none is.
one_of-present :
    (os : List (Option Ordering)) → All (λ o. given o ≡ true) os → one_of3 os ≡ of_bool (one_of os)
one_of-present [] h = refl
one_of-present (none ∷ os) h = absurd (ground arith)
one_of-present (some o ∷ os) h = ground (arith, one_of-present os h.1)

one_of-missing :
    (o : Option Ordering) (os : List (Option Ordering))
    → All (λ o. given o ≡ false) (o ∷ os)
    → (one_of3 (o ∷ os) ≡ unknown) × (one_of (o ∷ os) ≡ false)
one_of-missing (some o) os h = absurd (ground arith)
one_of-missing none [] h = (refl, refl)
one_of-missing none (o ∷ os) h = ground (arith, one_of-missing o os h.1)

any3-map {ℓ} :
    {A : Type ℓ} (f : A → Option Ordering) (xs : List A)
    → any3 (λ x. passes3 Operator.eq (f x)) xs ≡ one_of3 (map f xs)
any3-map f [] = refl
any3-map f (x ∷ xs) = ap (or3 (passes3 Operator.eq (f x))) (any3-map f xs)

any-map {ℓ} :
    {A : Type ℓ} (f : A → Option Ordering) (xs : List A)
    → any (λ x. holds_at Operator.eq (f x)) xs ≡ one_of (map f xs)
any-map f [] = refl
any-map f (x ∷ xs) = ap (◌||◌ (holds_at Operator.eq (f x))) (any-map f xs)

-- The verdict of a list of comparisons with one column, and of its filter.
list-verdict :
    (n missing : Bool) (o : Option Ordering) (os : List (Option Ordering))
    → All (λ o. given o ≡ not missing) (o ∷ os)
    → ((if n then not (one_of (o ∷ os)) && not missing else one_of (o ∷ os))
        ≡ is_holds (neg3 n (one_of3 (o ∷ os))))
      × (is_known (neg3 n (one_of3 (o ∷ os))) ≡ not missing)
list-verdict n true o os h =
    let (a, b) = one_of-missing o os h in rw (a, b) (ground arith, ground arith)
list-verdict n false o os h = let a = one_of-present (o ∷ os) h in rw a (split n (one_of (o ∷ os)))
  where
    split :
        (n b : Bool)
        → ((if n then not b && true else b) ≡ is_holds (neg3 n (of_bool b)))
          × (is_known (neg3 n (of_bool b)) ≡ true)
    split n b = (ground arith, ground arith)

module _ (lib : Libs) (schema : Schema) (s : Server) (q : Sql s.Row)
    (conforms : Conforms lib schema s q) where
  open s use {Row, matches, is_missing, order}
  open q use {truth, compare}
  open conforms use {plain, bool_agrees}

  orders :
      (e : Expr) (c : ColumnRef) (r : Row) (xs : List Expr) {vs : List Bson}
      → resolve_column lib schema e ≡ some c
      → c.mixed ≡ false
      → traverse (λ x. literal_of lib x c) xs ≡ some vs
      → all (λ x. is_typed lib schema e x) xs ≡ true
      → (map (λ x. compare e x r) xs ≡ map (λ v. order c.path v r) vs)
        × All (λ o. given o ≡ not (is_missing c.path r)) (map (λ x. compare e x r) xs)
  orders e c r [] {vs} ec m h ty = let k : [] ≡ vs = cc in rw (← k) (refl, tt)
  orders e c r (x ∷ xs) ec m h ty =
      let (y, ys, ex, exs, ev) = traverse-cons (λ l. literal_of lib l c) x xs h in
      let (same, seen) = compare-order lib schema s q conforms e x c y r ec m ex (ground arith) in
      let (rest, all_seen) = orders e c r xs ec m exs (ground arith) in
      rw ev (ap₂ ◌∷◌ same rest, (ap given same ∙ seen, all_seen))

  matches-list_filter :
      (p : Text) (n : Bool) (vs : List Bson) (r : Row)
      → is_plain p ≡ true
      → all is_comparable vs ≡ true
      → matches (list_filter p n vs) r ≡ (
          if n
          then not (any (λ v. holds_at Operator.eq (order p v r)) vs) && not (is_missing p r)
          else any (λ v. holds_at Operator.eq (order p v r)) vs)
  unfolding list_filter
  matches-list_filter p false vs r pl cs = s.matches-in p vs r pl cs
  matches-list_filter p true vs r pl cs =
      matches-exclude_null lib schema s q conforms p _ r pl
      ∙ ap (λ b. b && not (is_missing p r)) (s.matches-nin p vs r pl cs)

  list-Leaf :
      (e : Expr) (n : Bool) (x : Expr) (xs : List Expr) (r : Row) (c : ColumnRef) (vs : List Bson)
      → resolve_column lib schema e ≡ some c
      → traverse (λ l. literal_of lib l c) (x ∷ xs) ≡ some vs
      → c.mixed ≡ false
      → all (λ y. is_typed lib schema e y) (x ∷ xs) ≡ true
      → Leaf lib schema s q conforms e
          (neg3 n (any3 (λ l. passes3 Operator.eq (compare e l r)) (x ∷ xs)))
          (list_filter c.path n vs)
          r
  list-Leaf e n x xs r c vs ec ev m ty =
      let (same, seen) = orders e c r (x ∷ xs) ec m ev ty in
      let verdict = list-verdict n (is_missing c.path r) _ _ seen in
      let flat = any3-map (λ l. compare e l r) (x ∷ xs) in
      record {
        c = c;
        resolved = ec;
        accepts =
            matches-list_filter c.path n vs r (plain e c ec) (literals-comparable lib c (x ∷ xs) ev)
            ∙ ap (λ b. if n then not b && not (is_missing c.path r) else b)
                (any-map (λ v. order c.path v r) vs ∙ ap one_of (sym same))
            ∙ verdict.0
            ∙ ap (λ t. is_holds (neg3 n t)) (sym flat);
        known = ap (λ t. is_known (neg3 n t)) flat ∙ verdict.1;
      }

  pub translate_in_list-Leaf :
      (e : Expr) (xs : Exprs) (n : Bool) {t : Translated} (r : Row)
      → translate_in_list lib schema e xs n ≡ some t
      → t.exact ≡ true
      → IsNonempty xs
      → all (λ x. is_typed lib schema e x) (expr_list xs) ≡ true
      → Leaf lib schema s q conforms e (truth (Expr.in_list e xs n) r) t.filter r
  unfolding translate_in_list
  translate_in_list-Leaf e Exprs.nil n r h x ne ty = absurd ne
  translate_in_list-Leaf e (Exprs.cons y ys) n {t} r h x ne ty =
      let (c, vs, ec, ev, et) =
        >>=-eq-some2 (resolve_column lib schema e)
          (λ c. traverse (λ l. literal_of lib l c) (y ∷ expr_list ys))
          (λ c vs. record { filter = list_filter c.path n vs; exact = not c.mixed }) h in
      rw (q.truth-in_list e (Exprs.cons y ys) n r) (
        subst
          (λ (u : Translated).
            Leaf lib schema s q conforms e
              (neg3 n (any3 (λ l. passes3 Operator.eq (compare e l r)) (y ∷ expr_list ys))) u.filter
              r)
          et
          (list-Leaf e n y (expr_list ys) r c vs ec ev
            (exact-mixed c (ap (λ (u : Translated). u.exact) et ∙ x)) ty))

  -- What the filter of a boolean column says of the column as a predicate.
  pub record BoolLeaf (e : Expr) (want : Bool) (f : Document) (r : Row) : Type 0 where
    pub c : ColumnRef
    pub resolved : resolve_column lib schema e ≡ some c
    pub accepts : matches f r ≡ (if want then is_holds (truth e r) else is_fails (truth e r))
    pub known : is_known (truth e r) ≡ not (is_missing c.path r)

  bool-known :
      (t : Tri) (missing b : Bool)
      → t ≡ (if missing then unknown else of_bool b)
      → is_known t ≡ not missing
  bool-known t missing b h = ground arith

  pub missing-known :
      (e : Expr) (c : ColumnRef) (r : Row)
      → resolve_column lib schema e ≡ some c
      → require_bool c ≡ some tt
      → is_known (truth e r) ≡ not (is_missing c.path r)
  missing-known e c r ec eb = bool-known _ _ _ (bool_agrees e c r ec eb).0

  value-accepts :
      (e : Expr) (want : Bool) (c : ColumnRef) (r : Row)
      → resolve_column lib schema e ≡ some c
      → require_bool c ≡ some tt
      → matches (doc1 c.path (Bson.boolean want)) r
        ≡ (if want then is_holds (truth e r) else is_fails (truth e r))
  value-accepts e true c r ec eb =
      s.matches-bool c.path true r (plain e c ec) ∙ (bool_agrees e c r ec eb).2
  value-accepts e false c r ec eb =
      s.matches-bool c.path false r (plain e c ec) ∙ (bool_agrees e c r ec eb).1

  pub bool_test-BoolLeaf :
      (e : Expr) (want : Bool) {t : Translated} (r : Row)
      → bool_test lib schema e want ≡ some t
      → BoolLeaf e want t.filter r
  unfolding bool_test
  bool_test-BoolLeaf e want {t} r h =
      let (c, unit, ec, eb, et) =
        >>=-eq-some2 (resolve_column lib schema e) (λ c. require_bool c)
          (λ c _. record { filter = doc1 c.path (Bson.boolean want); exact = not c.mixed }) h in
      subst (λ (u : Translated). BoolLeaf e want u.filter r) et
        (record {
          c = c;
          resolved = ec;
          accepts = value-accepts e want c r ec eb;
          known = missing-known e c r ec eb;
        })

  -- `IS NOT TRUE` and `IS NOT FALSE` also accept the rows where the column is missing.
  pub bool_or_null_lem :
      (e : Expr) (want : Bool) {t : Translated} (r : Row)
      → bool_or_null lib schema e want ≡ some t
      → matches t.filter r ≡ not (if want then is_fails (truth e r) else is_holds (truth e r))
  unfolding bool_or_null
  bool_or_null_lem e want {t} r h =
      let (c, unit, ec, eb, et) =
        >>=-eq-some2 (resolve_column lib schema e) (λ c. require_bool c)
          (λ c _. exactly (or_doc (doc1 c.path (Bson.boolean want) ∷ doc1 c.path Bson.null ∷ [])))
          h in
      subst
        (λ (u : Translated).
          matches u.filter r ≡ not (if want then is_fails (truth e r) else is_holds (truth e r)))
        et
        (s.matches-or (doc1 c.path (Bson.boolean want) ∷ doc1 c.path Bson.null ∷ []) r
          ∙ either (matches (doc1 c.path (Bson.boolean want)) r) (matches (doc1 c.path Bson.null) r)
              (is_missing c.path r) want (truth e r) (value-accepts e want c r ec eb)
              (s.matches-null c.path r (plain e c ec)) (missing-known e c r ec eb))
    where
      either :
          (a b missing want : Bool) (t : Tri)
          → a ≡ (if want then is_holds t else is_fails t)
          → b ≡ missing
          → is_known t ≡ not missing
          → (a || (b || false)) ≡ not (if want then is_fails t else is_holds t)
      either a b missing want t ea eb' k = ground arith
