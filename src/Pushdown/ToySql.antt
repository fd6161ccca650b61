-- ===== src/Pushdown/ToySql.antt =====
-- A small SQL engine beside the server of Toy, which conforms to it.
use auger.Base.{
  ℕ, Bool, true, false, not, Option, none, some, ◌≡◌, refl, sym, ◌∙◌, ap, Text, codes,
  if◌then◌else◌, arith, Ordering, text_eq, Bool-cases, inl, inr, ◌⊎◌, >>=-eq-some, then_some,
}
use auger.Base.Int.{ℤ}
use auger.Arrow.{find, get_meta}
use auger.Bson.{Bson}
use auger.Infer.Tag.{BsonTag}
use auger.Pushdown.Expr.{Operator, ScalarValue, Expr, Exprs, expr_list}
use auger.Pushdown.Column.{ColumnRef, column_ref_of, get_field, resolve_column, is_literal}
use auger.Pushdown.Translate.{require_bool}
use auger.Pushdown.Engines.{
  Tri, unknown, of_bool, is_holds, is_fails, not3, and3, or3, any3, neg3, passes3, holds_at, swap,
  given, is_plain, IsComparison, denoted, Sql, Conforms,
}
use auger.Pushdown.Toy.{
  age_field, active_field, Person, lib, people, server, age_ref, active_ref, is_missing, order,
  age_order, flag_order,
}

stored : Option ColumnRef → (Text → Person → Bool) → Person → Bool
stored none f r = false
stored (some c) f r = f c.path r

literal_order : Expr → Expr → Person → Option Ordering
unfolding resolve_column denoted
literal_order e l r = elim (resolve_column lib people e) [
  | none ↦ none
  | some c ↦ elim (denoted c.tag l) [ none ↦ none | some v ↦ order c.path v r ]
]

sided : Bool → Bool → Option Ordering → Option Ordering → Option Ordering
sided false true o o' = o
sided true false o o' = swap o'
sided _ _ o o' = none

compare : Expr → Expr → Person → Option Ordering
unfolding literal_order sided is_literal
compare a b r = sided (is_literal a) (is_literal b) (literal_order a b r) (literal_order b a r)

flag : Option ColumnRef → Person → Tri
flag none r = unknown
flag (some c) r =
    if is_missing c.path r
    then unknown
    else of_bool (holds_at Operator.eq (order c.path (Bson.boolean true) r))

truth : Expr → Person → Tri
unfolding compare flag resolve_column is_missing order stored
truth (Expr.binary a Operator.and b) r = and3 (truth a r) (truth b r)
truth (Expr.binary a Operator.or b) r = or3 (truth a r) (truth b r)
truth (Expr.binary a op b) r = passes3 op (compare a b r)
truth (Expr.not a) r = not3 (truth a r)
truth (Expr.is_null a) r = of_bool (stored (resolve_column lib people a) is_missing r)
truth (Expr.is_not_null a) r = of_bool (not (stored (resolve_column lib people a) is_missing r))
truth (Expr.is_true a) r = of_bool (is_holds (truth a r))
truth (Expr.is_false a) r = of_bool (is_fails (truth a r))
truth (Expr.is_not_true a) r = of_bool (not (is_holds (truth a r)))
truth (Expr.is_not_false a) r = of_bool (not (is_fails (truth a r)))
truth (Expr.between a n lo hi) r =
    neg3 n
      (and3 (passes3 Operator.gt_eq (compare a lo r)) (passes3 Operator.lt_eq (compare a hi r)))
truth (Expr.in_list a xs n) r =
    neg3 n (any3 (λ x. passes3 Operator.eq (compare a x r)) (expr_list xs))
truth (Expr.alias e n) r = truth e r
truth e r = flag (resolve_column lib people e) r

swap-sided : (x y : Bool) (o o' : Option Ordering) → sided y x o' o ≡ swap (sided x y o o')
unfolding sided
swap-sided true true o o' = refl
swap-sided true false o o' = twice o'
  where
    twice : (o : Option Ordering) → o ≡ swap (swap o)
    twice o = ground arith
swap-sided false true o o' = refl
swap-sided false false o o' = refl

truth-compare :
    (a b : Expr) (op : Operator) (r : Person)
    → IsComparison op
    → truth (Expr.binary a op b) r ≡ passes3 op (compare a b r)
unfolding truth
truth-compare a b Operator.and r i = absurd i
truth-compare a b Operator.or r i = absurd i
truth-compare a b _ r i = refl

pub sql : Sql server.Row
unfolding server truth compare
sql = record {
  truth = truth;
  compare = compare;
  is_null = λ e r. stored (resolve_column lib people e) is_missing r;
  truth-and = λ a b r. refl;
  truth-or = λ a b r. refl;
  truth-not = λ a r. refl;
  truth-compare = truth-compare;
  compare-swap = λ a b r. swap-sided (is_literal a) (is_literal b) _ _;
  truth-is_null = λ a r. refl;
  truth-is_not_null = λ a r. refl;
  truth-is_true = λ a r. refl;
  truth-is_false = λ a r. refl;
  truth-is_not_true = λ a r. refl;
  truth-is_not_false = λ a r. refl;
  truth-between = λ a lo hi n r. refl;
  truth-in_list = λ a xs n r. refl;
  truth-alias = λ a n r. refl;
}

abbrev IsKnown : ColumnRef → Type 0
IsKnown c = (c ≡ age_ref) ⊎ (c ≡ active_ref)

column_ref_of-age : column_ref_of age_field ≡ age_ref
unfolding column_ref_of get_meta text_eq
column_ref_of-age = refl

column_ref_of-active : column_ref_of active_field ≡ active_ref
unfolding column_ref_of get_meta text_eq
column_ref_of-active = refl

IsKnown-field :
    (x y : Bool) (c : ColumnRef)
    → elim (if x then some age_field else if y then some active_field else none) [
      | none ↦ none
      | some f ↦ some (column_ref_of f)
    ]
      ≡ some c
    → IsKnown c
IsKnown-field true y c h =
    let k : column_ref_of age_field ≡ c = cc in inl (sym k ∙ column_ref_of-age)
IsKnown-field false true c h =
    let k : column_ref_of active_field ≡ c = cc in inr (sym k ∙ column_ref_of-active)
IsKnown-field false false c h = absurd cc

no_child : (p : ColumnRef) (key : Text) → IsKnown p → get_field p p.ty key ≡ none
unfolding get_field
no_child p key (inl e) = rw e
no_child p key (inr e) = rw e

IsKnown-column : (e : Expr) (c : ColumnRef) → resolve_column lib people e ≡ some c → IsKnown c
unfolding resolve_column find
IsKnown-column (Expr.column n) c h =
    IsKnown-field (text_eq (codes "age") n) (text_eq (codes "active") n) c h
IsKnown-column (Expr.alias e n) c h = IsKnown-column e c h
IsKnown-column (Expr.cast e to) c h =
    let (p, ep, hp) =
      >>=-eq-some (resolve_column lib people e) (λ inner. then_some false inner) h in
    absurd cc
IsKnown-column
      (Expr.scalar_function f
        (Exprs.cons base (Exprs.cons (Expr.literal (ScalarValue.utf8 (some key))) Exprs.nil)))
      c h =
    elim (Bool-cases (text_eq f (codes "get_field"))) [
      | inl e ↦
          let (p, ep, hp) =
            >>=-eq-some (resolve_column lib people base) (λ p. get_field p p.ty key) (rw e at h) in
          absurd (none_some (sym (no_child p key (IsKnown-column base p ep)) ∙ hp))
      | inr e ↦ absurd (none_some (rw e at h))
    ]
  where
    none_some : none ≡ some c → ⊥
    none_some k = cc
IsKnown-column _ c h = absurd cc

not-literal :
    (e : Expr) (c : ColumnRef) → resolve_column lib people e ≡ some c → is_literal e ≡ false
unfolding resolve_column is_literal
not-literal (Expr.literal v) c h = absurd cc
not-literal _ c h = refl

denoted-literal :
    (l : Expr) (tag : BsonTag) (v : Bson) → denoted tag l ≡ some v → is_literal l ≡ true
unfolding denoted is_literal
denoted-literal (Expr.literal v) tag w h = refl
denoted-literal _ tag w h = absurd cc

order-given :
    (c : ColumnRef) (l : Expr) (v : Bson) (r : Person)
    → IsKnown c
    → denoted c.tag l ≡ some v
    → given (order c.path v r) ≡ not (is_missing c.path r)
unfolding order is_missing text_eq denoted
order-given c l v (a, b) (inl e) t = rw e (age_given a l v (rw e at t))
  where
    some_given :
        (a : Option ℕ) (n : ℤ) (v : Bson)
        → some (Bson.int64 n) ≡ some v
        → given (elim a [ none ↦ none | some n ↦ age_order n v ])
          ≡ not (elim a [ none ↦ true | some n ↦ false ])
    some_given none n v t = refl
    some_given (some a) n v t = let e : Bson.int64 n ≡ v = cc in rw (← e) refl

    age_given :
        (a : Option ℕ) (l : Expr) (v : Bson)
        → denoted BsonTag.int32 l ≡ some v
        → given (elim a [ none ↦ none | some n ↦ age_order n v ])
          ≡ not (elim a [ none ↦ true | some n ↦ false ])
    age_given a (Expr.literal (ScalarValue.int32 (some n))) v t = some_given a n v t
    age_given a _ v t = absurd cc
order-given c l v (a, b) (inr e) t = rw e (flag_given b l v (rw e at t))
  where
    some_given :
        (b : Option Bool) (f : Bool) (v : Bson)
        → some (Bson.boolean f) ≡ some v
        → given (elim b [ none ↦ none | some n ↦ flag_order n v ])
          ≡ not (elim b [ none ↦ true | some n ↦ false ])
    some_given none f v t = refl
    some_given (some true) true v t = let e : Bson.boolean true ≡ v = cc in rw (← e) refl
    some_given (some true) false v t = let e : Bson.boolean false ≡ v = cc in rw (← e) refl
    some_given (some false) true v t = let e : Bson.boolean true ≡ v = cc in rw (← e) refl
    some_given (some false) false v t = let e : Bson.boolean false ≡ v = cc in rw (← e) refl

    flag_given :
        (b : Option Bool) (l : Expr) (v : Bson)
        → denoted BsonTag.bool l ≡ some v
        → given (elim b [ none ↦ none | some n ↦ flag_order n v ])
          ≡ not (elim b [ none ↦ true | some n ↦ false ])
    flag_given b (Expr.literal (ScalarValue.boolean (some f))) v t = some_given b f v t
    flag_given b _ v t = absurd cc

compare-order :
    (e l : Expr) (c : ColumnRef) (v : Bson) (r : Person)
    → resolve_column lib people e ≡ some c
    → denoted c.tag l ≡ some v
    → compare e l r ≡ order c.path v r
unfolding compare literal_order sided
compare-order e l c v r ec ev =
    rw (not-literal e c ec, denoted-literal l c.tag v ev) (rw (ec, ev, literal_order, sided))

plain_path : (c : ColumnRef) → IsKnown c → is_plain c.path ≡ true
plain_path c (inl e) = rw e
plain_path c (inr e) = rw e

truth-flag :
    (e : Expr) (c : ColumnRef) (r : Person)
    → resolve_column lib people e ≡ some c
    → truth e r ≡ flag (some c) r
unfolding resolve_column truth
truth-flag (Expr.alias e n) c r h = truth-flag e c r h
truth-flag (Expr.column n) c r h = rw h
truth-flag (Expr.cast e to) c r h = rw h
truth-flag (Expr.scalar_function f xs) c r h = rw h
truth-flag _ c r h = absurd cc

is_bool : (c : ColumnRef) → IsKnown c → require_bool c ≡ some tt → c ≡ active_ref
unfolding require_bool
is_bool c (inr e) b = e
is_bool c (inl e) b = absurd (no_value (sym (ap require_bool e) ∙ b))
  where
    no_value : require_bool age_ref ≡ some tt → ⊥
    no_value k = cc

flag-agrees :
    (r : Person)
    → (flag (some active_ref) r ≡ flag (some active_ref) r)
      × (holds_at Operator.eq (order (codes "active") (Bson.boolean false) r)
          ≡ is_fails (flag (some active_ref) r))
      × (holds_at Operator.eq (order (codes "active") (Bson.boolean true) r)
          ≡ is_holds (flag (some active_ref) r))
unfolding flag order is_missing text_eq flag_order
flag-agrees (a, none) = (refl, refl, refl)
flag-agrees (a, some true) = (refl, refl, refl)
flag-agrees (a, some false) = (refl, refl, refl)

pub conforms : Conforms lib people server sql
unfolding server sql stored
conforms = record {
  plain = λ e c h. plain_path c (IsKnown-column e c h);
  null_agrees = λ e c r h. null_agrees e c r h;
  order_agrees = λ e l c v r ec m ev.
      (compare-order e l c v r ec ev, order-given c l v r (IsKnown-column e c ec) ev);
  bool_agrees =
      λ e c r h b. rw (truth-flag e c r h, is_bool c (IsKnown-column e c h) b) (flag-agrees r);
}
  where
    null_agrees :
        (e : Expr) (c : ColumnRef) (r : Person)
        → resolve_column lib people e ≡ some c
        → stored (resolve_column lib people e) is_missing r ≡ is_missing c.path r
    null_agrees e c r h = rw h
