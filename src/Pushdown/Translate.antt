-- ===== src/Pushdown/Translate.antt =====
-- mongo/pushdown.rs: the translation of a predicate, its guards against NULL, and `combine`.
use auger.Base.{
  ℕ, Bool, true, false, not, ◌&&◌, List, [], ◌∷◌, ◌++◌, map, Option, none, some, Text, codes,
  if◌then◌else◌, ◌>>=◌, ◌>>◌, then_some, traverse,
}
use auger.Arrow.{DataType, Schema}
use auger.Bson.{Bson, Document, doc1, doc2, documents, items}
use auger.Pushdown.Expr.{Operator, ScalarValue, Expr, Exprs, expr_list}
use auger.Pushdown.Literal.{Libs}
use auger.Pushdown.Column.{ColumnRef, resolve_column, literal_of, is_literal}
use auger.Pushdown.Like.{like_to_regex}

pub record Translated : Type 0 where
  pub filter : Document
  pub exact : Bool

-- `Translated::exact` and `with_exactness`
abbrev pub exactly : Document → Translated
exactly f = record { filter = f; exact = true }

abbrev pub with_exactness : Bool → Translated → Translated
with_exactness b t = record { filter = t.filter; exact = t.exact && b }

-- `{path: {op: v}}`, `{$and: [..]}`, `{$or: [..]}`, `{$nor: [..]}`
abbrev pub test_doc : Text → Text → Bson → Document
test_doc path op v = doc1 path (Bson.document (doc1 op v))

abbrev pub and_doc : List Document → Document
and_doc ds = doc1 (codes "$and") (Bson.array (documents ds))

abbrev pub or_doc : List Document → Document
or_doc ds = doc1 (codes "$or") (Bson.array (documents ds))

abbrev pub nor_doc : List Document → Document
nor_doc ds = doc1 (codes "$nor") (Bson.array (documents ds))

abbrev pub not_null_doc : Text → Document
not_null_doc path = test_doc path (codes "$ne") Bson.null

unfoldable pub exclude_null : Text → Document → Document
exclude_null path inner = and_doc (inner ∷ not_null_doc path ∷ [])

unfoldable pub flip : Operator → Operator
flip Operator.lt = Operator.gt
flip Operator.lt_eq = Operator.gt_eq
flip Operator.gt = Operator.lt
flip Operator.gt_eq = Operator.lt_eq
flip op = op

-- The name of a comparison; the arm `unreachable!` of the source is `none`.
unfoldable pub mongo_op : Operator → Option Text
mongo_op Operator.eq = some (codes "$eq")
mongo_op Operator.not_eq = some (codes "$ne")
mongo_op Operator.lt = some (codes "$lt")
mongo_op Operator.lt_eq = some (codes "$lte")
mongo_op Operator.gt = some (codes "$gt")
mongo_op Operator.gt_eq = some (codes "$gte")
mongo_op _ = none

abbrev pub is_not_eq : Operator → Bool
is_not_eq Operator.not_eq = true
is_not_eq _ = false

unfoldable pub require_bool : ColumnRef → Option (Unit {0})
require_bool c = elim c.ty [ DataType.boolean ↦ some tt | _ ↦ none ]

abbrev pub is_text : DataType → Bool
is_text DataType.utf8 = true
is_text DataType.large_utf8 = true
is_text _ = false

abbrev pub pattern_of : Expr → Option Text
pattern_of (Expr.literal (ScalarValue.utf8 p)) = p
pattern_of (Expr.literal (ScalarValue.large_utf8 p)) = p
pattern_of _ = none

-- The `(Some, Some)`, `(Some, None)` and `(None, Some)` arms of a conjunction.
unfoldable pub conjoin : Option Translated → Option Translated → Option Translated
conjoin (some a) (some b) =
    some (record { filter = and_doc (a.filter ∷ b.filter ∷ []); exact = a.exact && b.exact })
conjoin (some a) none = some (with_exactness false a)
conjoin none (some b) = some (with_exactness false b)
conjoin none none = none

unfoldable pub disjoin : Option Translated → Option Translated → Option Translated
disjoin (some a) (some b) =
    some (record { filter = or_doc (a.filter ∷ b.filter ∷ []); exact = a.exact && b.exact })
disjoin _ _ = none

-- `doc! { &c.path: { "$gte": lo, "$lte": hi } }` or its negation.
unfoldable pub range_filter : Text → Bool → Bson → Bson → Document
unfolding exclude_null
range_filter path negated lo hi =
    if negated
    then exclude_null path
        (or_doc (test_doc path (codes "$lt") lo ∷ test_doc path (codes "$gt") hi ∷ []))
    else doc1 path (Bson.document (doc2 (codes "$gte") lo (codes "$lte") hi))

unfoldable pub list_filter : Text → Bool → List Bson → Document
unfolding exclude_null
list_filter path negated values =
    if negated
    then exclude_null path (test_doc path (codes "$nin") (Bson.array (items values)))
    else test_doc path (codes "$in") (Bson.array (items values))

unfoldable pub like_filter : Text → Bool → Text → Text → Document
unfolding exclude_null
like_filter path negated regex options =
    let matcher =
      doc2 (codes "$regex") (Bson.string regex) (codes "$options") (Bson.string options) in
    if negated
    then exclude_null path (test_doc path (codes "$not") (Bson.document matcher))
    else doc1 path (Bson.document matcher)

-- The filter of one comparison.
unfoldable pub test_filter : Text → Operator → Text → Bson → Document
unfolding exclude_null
test_filter path op name value =
    let base = test_doc path name value in if is_not_eq op then exclude_null path base else base

-- The arm `Expr::Not`, given the translation and the guards of the inner expression.
unfoldable pub negate : Option Translated → Option (List Document) → Option Translated
negate (some t) (some guards) =
    some (record { filter = and_doc (nor_doc (t.filter ∷ []) ∷ guards); exact = t.exact })
negate _ _ = none

module _ (lib : Libs) (schema : Schema) where
  -- The guards pushed so far, followed by those of an expression.
  unfoldable pub collect_guards : Expr → List Document → Option (List Document)
  unfolding resolve_column
  collect_guards (Expr.column n) out =
      resolve_column lib schema (Expr.column n) >>= λ c. some (out ++ not_null_doc c.path ∷ [])
  collect_guards (Expr.scalar_function f args) out =
      resolve_column lib schema (Expr.scalar_function f args) >>= λ c.
      some (out ++ not_null_doc c.path ∷ [])
  collect_guards (Expr.literal s) out = some out
  collect_guards (Expr.binary l op r) out = collect_guards l out >>= collect_guards r
  collect_guards (Expr.not e) out = collect_guards e out
  collect_guards (Expr.is_null e) out = collect_guards e out
  collect_guards (Expr.is_not_null e) out = collect_guards e out
  collect_guards (Expr.is_true e) out = collect_guards e out
  collect_guards (Expr.is_false e) out = collect_guards e out
  collect_guards (Expr.is_not_true e) out = collect_guards e out
  collect_guards (Expr.is_not_false e) out = collect_guards e out
  collect_guards (Expr.between e n lo hi) out =
      collect_guards e out >>= λ out'. collect_guards lo out' >>= collect_guards hi
  collect_guards (Expr.in_list e list n) out = collect_guards e out
  collect_guards (Expr.like n e p esc ci) out = collect_guards e out
  collect_guards (Expr.alias e n) out = collect_guards e out
  collect_guards _ out = none

  unfoldable pub null_guards : Expr → Option (List Document)
  unfolding collect_guards
  null_guards e = collect_guards e []

  unfoldable pub bool_test : Expr → Bool → Option Translated
  unfolding resolve_column require_bool
  bool_test e want = do
    c ← resolve_column lib schema e
    require_bool c
    some (record { filter = doc1 c.path (Bson.boolean want); exact = not c.mixed })

  -- `IS NOT TRUE` and `IS NOT FALSE`: the other value, or NULL.
  unfoldable pub bool_or_null : Expr → Bool → Option Translated
  unfolding resolve_column require_bool
  bool_or_null e want = do
    c ← resolve_column lib schema e
    require_bool c
    some (exactly (or_doc (doc1 c.path (Bson.boolean want) ∷ doc1 c.path Bson.null ∷ [])))

  -- A comparison of a column with a literal, after the operator was flipped if need be.
  unfoldable pub translate_test : Expr → Operator → Expr → Option Translated
  unfolding resolve_column literal_of mongo_op test_filter
  translate_test column_expr op literal_expr = do
    c ← resolve_column lib schema column_expr
    value ← literal_of lib literal_expr c
    name ← mongo_op op
    some (record { filter = test_filter c.path op name value; exact = not c.mixed })

  unfoldable pub translate_compare : Expr → Operator → Expr → Option Translated
  unfolding translate_test is_literal flip
  translate_compare left op right =
      if not (is_literal left) && is_literal right
      then translate_test left op right
      else if is_literal left && not (is_literal right)
      then translate_test right (flip op) left
      else none

  -- `translate_binary`, given the translations of both sides.
  unfoldable pub translate_binary :
      Expr → Operator → Expr → Option Translated → Option Translated → Option Translated
  unfolding conjoin disjoin translate_compare
  translate_binary left Operator.and right l r = conjoin l r
  translate_binary left Operator.or right l r = disjoin l r
  translate_binary left (Operator.other n) right l r = none
  translate_binary left op right l r = translate_compare left op right

  unfoldable pub translate_between : Expr → Bool → Expr → Expr → Option Translated
  unfolding resolve_column literal_of range_filter
  translate_between e negated low high = do
    c ← resolve_column lib schema e
    lo ← literal_of lib low c
    hi ← literal_of lib high c
    some (record { filter = range_filter c.path negated lo hi; exact = not c.mixed })

  unfoldable pub translate_in_list : Expr → Exprs → Bool → Option Translated
  unfolding resolve_column literal_of list_filter
  translate_in_list e list negated = do
    c ← resolve_column lib schema e
    values ← traverse (λ x. literal_of lib x c) (expr_list list)
    some (record { filter = list_filter c.path negated values; exact = not c.mixed })

  unfoldable pub translate_like : Bool → Expr → Expr → Option ℕ → Bool → Bool → Option Translated
  unfolding resolve_column like_to_regex like_filter
  translate_like negated e p escape case_insensitive is_similar_to =
      if is_similar_to then none else (do
        c ← resolve_column lib schema e
        then_some (is_text c.ty) tt
        pattern' ← pattern_of p
        regex ← like_to_regex pattern' escape
        let options = if case_insensitive then codes "is" else codes "s"
        some (record { filter = like_filter c.path negated regex options; exact = not c.mixed }))

  unfoldable pub translate : Expr → Option Translated
  unfolding translate_binary negate null_guards bool_test bool_or_null translate_between
      translate_in_list translate_like
  translate (Expr.binary l op r) = translate_binary l op r (translate l) (translate r)
  translate (Expr.not e) = negate (translate e) (null_guards e)
  translate (Expr.is_null e) =
      resolve_column lib schema e >>= λ c. some (exactly (doc1 c.path Bson.null))
  translate (Expr.is_not_null e) =
      resolve_column lib schema e >>= λ c. some (exactly (not_null_doc c.path))
  translate (Expr.is_true e) = bool_test e true
  translate (Expr.is_false e) = bool_test e false
  translate (Expr.is_not_true e) = bool_or_null e false
  translate (Expr.is_not_false e) = bool_or_null e true
  translate (Expr.between e n lo hi) = translate_between e n lo hi
  translate (Expr.in_list e list n) = translate_in_list e list n
  translate (Expr.like n e p esc ci) = translate_like n e p esc ci false
  translate (Expr.similar_to n e p esc ci) = translate_like n e p esc ci true
  translate (Expr.column n) = bool_test (Expr.column n) true
  translate (Expr.alias e n) = translate e
  translate _ = none

-- One `$match` document for all the predicates that were translated.
unfoldable pub combine : List Translated → Option Document
combine [] = none
combine (t ∷ []) = some t.filter
combine (t ∷ u ∷ ts) = some (and_doc (map (λ (x : Translated). x.filter) (t ∷ u ∷ ts)))
