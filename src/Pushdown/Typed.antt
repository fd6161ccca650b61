-- ===== src/Pushdown/Typed.antt =====
-- mongo/pushdown.rs, `scalar_to_bson`: a literal is encoded as a value that the server compares as SQL
-- compares the literal.
use auger.Base.{
  true, false, not, some, ◌≡◌, refl, sym, ◌∙◌, ap, Text, Option-cases, inl, inr, Bool-cases,
}
use auger.Base.Int.{ℤ, fits_signed}
use auger.Arrow.{Schema}
use auger.Bson.{Bson}
use auger.Infer.Tag.{BsonTag}
use auger.Pushdown.Expr.{ScalarValue, Expr}
use auger.Pushdown.Literal.{Libs, int_literal, scalar_to_bson}
use auger.Pushdown.Column.{ColumnRef, resolve_column, literal_of}
use auger.Pushdown.Engines.{given, meaning, denoted, is_typed, Server, Sql, Conforms}

some_injective {ℓ} : {A : Type ℓ} {a b : A} → some a ≡ some b → a ≡ b
some_injective h = cc

module _ (lib : Libs) (s : Server) where
  open s use {Row, order, order-int32}

  order-int_literal :
      (n : ℤ) (p : Text) (r : Row)
      → order p (int_literal lib n BsonTag.int32) r ≡ order p (Bson.int64 n) r
  unfolding int_literal
  order-int_literal n p r = elim (Bool-cases (fits_signed 31 n)) [
    | inl fits ↦ rw (fits) (order-int32 p n r)
    | inr large ↦ rw (large) refl
  ]

  -- Where SQL compares a column with `w`, its literal is sent as a value that compares as `w` does.
  pub order-scalar_to_bson :
      (tag : BsonTag) (v : ScalarValue) {x w : Bson} (p : Text) (r : Row)
      → scalar_to_bson lib v tag ≡ some x
      → meaning tag v ≡ some w
      → order p x r ≡ order p w r
  unfolding scalar_to_bson meaning
  order-scalar_to_bson BsonTag.bool (ScalarValue.boolean (some b)) p r h k =
      ap (λ y. order p y r) (some_injective (sym h ∙ k))
  order-scalar_to_bson BsonTag.int32 (ScalarValue.int32 (some n)) p r h k =
      ap (λ y. order p y r) (sym (some_injective h))
      ∙ order-int_literal n p r
      ∙ ap (λ y. order p y r) (some_injective k)
  order-scalar_to_bson BsonTag.int64 (ScalarValue.int64 (some n)) p r h k =
      ap (λ y. order p y r) (some_injective (sym h ∙ k))
  order-scalar_to_bson BsonTag.string (ScalarValue.utf8 (some t)) p r h k =
      ap (λ y. order p y r) (some_injective (sym h ∙ k))
  order-scalar_to_bson BsonTag.date_time (ScalarValue.timestamp_millisecond (some ms) tz) p r h k =
      ap (λ y. order p y r) (some_injective (sym h ∙ k))
  order-scalar_to_bson _ v p r h k = absurd cc

  order-literal_of :
      (l : Expr) (c : ColumnRef) {x w : Bson} (r : Row)
      → literal_of lib l c ≡ some x
      → denoted c.tag l ≡ some w
      → order c.path x r ≡ order c.path w r
  unfolding literal_of denoted
  order-literal_of (Expr.literal v) c r h k = order-scalar_to_bson c.tag v c.path r h k
  order-literal_of _ c r h k = absurd cc

denoted_if_typed :
    (lib : Libs) (schema : Schema) (e l : Expr) (c : ColumnRef)
    → resolve_column lib schema e ≡ some c
    → is_typed lib schema e l ≡ true
    → (w : Bson) × (denoted c.tag l ≡ some w)
unfolding is_typed
denoted_if_typed lib schema e l c ec ty = elim (Option-cases (denoted c.tag l)) [
  | inl missing ↦ absurd (false_true (rw (ec, missing, is_typed) at ty))
  | inr found ↦ found
]
  where
    false_true : false ≡ true → ⊥
    false_true k = cc

-- The filter's literal is compared by the server as the predicate's literal is by SQL.
pub compare-order :
    (lib : Libs) (schema : Schema) (s : Server) (q : Sql s.Row) (conforms : Conforms lib schema s q)
    (e l : Expr) (c : ColumnRef) (v : Bson) (r : s.Row)
    → resolve_column lib schema e ≡ some c
    → c.mixed ≡ false
    → literal_of lib l c ≡ some v
    → is_typed lib schema e l ≡ true
    → (q.compare e l r ≡ s.order c.path v r)
      × (given (s.order c.path v r) ≡ not (s.is_missing c.path r))
compare-order lib schema s q conforms e l c v r ec m ev ty =
    let (w, ew) = denoted_if_typed lib schema e l c ec ty in
    let (same, seen) = conforms.order_agrees e l c w r ec m ew in
    let alike = order-literal_of lib s l c r ev ew in (same ∙ sym alike, ap given alike ∙ seen)
