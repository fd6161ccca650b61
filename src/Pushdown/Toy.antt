-- ===== src/Pushdown/Toy.antt =====
-- A small server and a small SQL engine over documents with an `age` and a flag `active`, which meet
-- the assumptions of Engines. They serve the examples only.
use auger.Base.{
  ℕ, Bool, true, false, not, ◌&&◌, ◌||◌, List, [], ◌∷◌, Option, none, some, ◌≡◌, refl, ◌∙◌, ap,
  Text, codes, if◌then◌else◌, all, any, arith, Ordering, compare, text_eq,
}
use auger.Base.Int.{ℤ, pos, negsuc}
use auger.Arrow.{DataType, Field, field, Schema}
use auger.Bson.{Bson, Items, nil, cons, Document, end, entry, documents, items}
use auger.Infer.Tag.{BsonTag, meta_bson, meta_path}
use auger.Pushdown.Expr.{Operator}
use auger.Pushdown.Literal.{Libs}
use auger.Pushdown.Column.{ColumnRef}
use auger.Pushdown.Engines.{holds_at, is_comparable, Server}

abbrev pub Person : Type 0
Person = Option ℕ × Option Bool

abbrev pub lib : Libs
lib = record {
  data_type_eq = λ a b. false;
  parse_oid = λ t. none;
  i64_to_f64 = λ n. 0;
  f32_to_f64 = λ n. n;
}

abbrev pub age_field : Field
age_field =
    field (codes "age") DataType.int32 true
      ((meta_bson, codes "int32") ∷ (meta_path, codes "age") ∷ [])

abbrev pub active_field : Field
active_field =
    field (codes "active") DataType.boolean true
      ((meta_bson, codes "bool") ∷ (meta_path, codes "active") ∷ [])

abbrev pub people : Schema
people = age_field ∷ active_field ∷ []

abbrev pub age_ref : ColumnRef
age_ref = record { path = codes "age"; tag = BsonTag.int32; ty = DataType.int32; mixed = false }

abbrev pub active_ref : ColumnRef
active_ref = record {
  path = codes "active";
  tag = BsonTag.bool;
  ty = DataType.boolean;
  mixed = false;
}

unfoldable pub is_missing : Text → Person → Bool
is_missing p (a, b) =
    if text_eq p (codes "age")
    then elim a [ none ↦ true | some n ↦ false ]
    else if text_eq p (codes "active")
    then elim b [ none ↦ true | some n ↦ false ]
    else true

unfoldable pub compare_ℤ : ℕ → ℤ → Ordering
compare_ℤ a (pos n) = compare a n
compare_ℤ a (negsuc n) = Ordering.gt

unfoldable pub age_order : ℕ → Bson → Option Ordering
age_order a (Bson.int32 n) = some (compare_ℤ a n)
age_order a (Bson.int64 n) = some (compare_ℤ a n)
age_order a (Bson.double d) = some (compare a d)
age_order a v = none

unfoldable pub flag_order : Bool → Bson → Option Ordering
flag_order true (Bson.boolean true) = some Ordering.eq
flag_order true (Bson.boolean false) = some Ordering.gt
flag_order false (Bson.boolean true) = some Ordering.lt
flag_order false (Bson.boolean false) = some Ordering.eq
flag_order b v = none

unfoldable pub order : Text → Bson → Person → Option Ordering
unfolding age_order flag_order compare_ℤ
order p v (a, b) =
    if text_eq p (codes "age")
    then elim a [ none ↦ none | some n ↦ age_order n v ]
    else if text_eq p (codes "active")
    then elim b [ none ↦ none | some f ↦ flag_order f v ]
    else none

unfoldable pub one_of : Text → Items → Person → Bool
one_of p nil r = false
one_of p (cons v vs) r = holds_at Operator.eq (order p v r) || one_of p vs r

unfoldable pub equals : Text → Bson → Person → Bool
equals p Bson.null r = is_missing p r
equals p v r = holds_at Operator.eq (order p v r)

unfoldable pub member : Text → Bson → Person → Bool
member p (Bson.array vs) r = one_of p vs r
member p v r = false

unfoldable pub test : Text → Text → Bson → Person → Bool
unfolding equals member one_of
test p op v r =
    if text_eq op (codes "$eq")
    then equals p v r
    else if text_eq op (codes "$ne")
    then not (equals p v r)
    else if text_eq op (codes "$lt")
    then holds_at Operator.lt (order p v r)
    else if text_eq op (codes "$lte")
    then holds_at Operator.lt_eq (order p v r)
    else if text_eq op (codes "$gt")
    then holds_at Operator.gt (order p v r)
    else if text_eq op (codes "$gte")
    then holds_at Operator.gt_eq (order p v r)
    else if text_eq op (codes "$in")
    then member p v r
    else if text_eq op (codes "$nin")
    then not (member p v r)
    else false

unfoldable pub tests : Text → Document → Person → Bool
unfolding test
tests p end r = true
tests p (entry op v d) r = test p op v r && tests p d r

unfoldable mutual
  pub matches : Document → Person → Bool
  matches end r = true
  matches (entry k v d) r = clause k v r && matches d r

  pub clause : Text → Bson → Person → Bool
  clause k (Bson.array xs) r =
      if text_eq k (codes "$and")
      then all_of xs r
      else if text_eq k (codes "$or")
      then any_of xs r
      else if text_eq k (codes "$nor")
      then not (any_of xs r)
      else false
  clause k (Bson.document d) r = tests k d r
  clause k v r = equals k v r

  pub all_of : Items → Person → Bool
  all_of nil r = true
  all_of (cons v xs) r = branch v r && all_of xs r

  pub any_of : Items → Person → Bool
  any_of nil r = false
  any_of (cons v xs) r = branch v r || any_of xs r

  pub branch : Bson → Person → Bool
  branch (Bson.document d) r = matches d r
  branch v r = false

pub all_of-documents :
    (ds : List Document) (r : Person) → all_of (documents ds) r ≡ all (λ d. matches d r) ds
unfolding matches
all_of-documents [] r = refl
all_of-documents (d ∷ ds) r = ap (◌&&◌ (matches d r)) (all_of-documents ds r)

pub any_of-documents :
    (ds : List Document) (r : Person) → any_of (documents ds) r ≡ any (λ d. matches d r) ds
unfolding matches
any_of-documents [] r = refl
any_of-documents (d ∷ ds) r = ap (◌||◌ (matches d r)) (any_of-documents ds r)

pub one_of-items :
    (p : Text) (vs : List Bson) (r : Person)
    → one_of p (items vs) r ≡ any (λ v. holds_at Operator.eq (order p v r)) vs
unfolding one_of
one_of-items p [] r = refl
one_of-items p (v ∷ vs) r = ap (◌||◌ (holds_at Operator.eq (order p v r))) (one_of-items p vs r)

pub &&-true : (b : Bool) → (b && true) ≡ b
&&-true b = ground arith

pub &&-true2 : (b : Bool) → (b && true && true) ≡ b
&&-true2 b = ground arith

pub equals-comparable :
    (p : Text) (v : Bson) (r : Person)
    → is_comparable v ≡ true
    → equals p v r ≡ holds_at Operator.eq (order p v r)
unfolding equals
equals-comparable p Bson.null r h = absurd cc
equals-comparable p _ r h = refl

pub order-int32 :
    (p : Text) (n : ℤ) (r : Person) → order p (Bson.int32 n) r ≡ order p (Bson.int64 n) r
unfolding order
order-int32 p n (none, none) = refl
order-int32 p n (none, some true) = refl
order-int32 p n (none, some false) = refl
order-int32 p n (some a, none) = refl
order-int32 p n (some a, some true) = refl
order-int32 p n (some a, some false) = refl

unfoldable pub server : Server
unfolding matches tests test text_eq equals
server = record {
  Row = Person;
  matches = matches;
  is_missing = is_missing;
  order = order;
  order-int32 = order-int32;
  matches-and = λ ds r. &&-true _ ∙ all_of-documents ds r;
  matches-or = λ ds r. &&-true _ ∙ any_of-documents ds r;
  matches-nor = λ ds r. &&-true _ ∙ ap not (any_of-documents ds r);
  matches-null = λ p r h. &&-true _;
  matches-ne_null = λ p r h. &&-true2 _;
  matches-bool = λ p b r h. &&-true _;
  matches-eq = λ p v r h c. &&-true2 _ ∙ equals-comparable p v r c;
  matches-ne = λ p v r h c. &&-true2 _ ∙ ap not (equals-comparable p v r c);
  matches-lt = λ p v r h c. &&-true2 _;
  matches-lte = λ p v r h c. &&-true2 _;
  matches-gt = λ p v r h c. &&-true2 _;
  matches-gte = λ p v r h c. &&-true2 _;
  matches-range = λ p lo hi r h c d. &&-true _ ∙ ap (◌&&◌ _) (&&-true _);
  matches-in = λ p vs r h c. &&-true2 _ ∙ one_of-items p vs r;
  matches-nin = λ p vs r h c. &&-true2 _ ∙ ap not (one_of-items p vs r);
}
