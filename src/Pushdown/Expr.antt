-- ===== src/Pushdown/Expr.antt =====
-- The expressions and literals that DataFusion hands to mongo/pushdown.rs. `other` stands for the
-- variants that the source has no arm for.
use auger.Base.{ℕ, Text, Bool, List, [], ◌∷◌, Option}
use auger.Base.Int.{ℤ}
use auger.Arrow.{DataType}

pub data Operator : Type 0 where
  eq not_eq lt lt_eq gt gt_eq and or : Operator
  other : ℕ → Operator

-- Floats are bit patterns. `other` carries whether the value is NULL.
pub data ScalarValue : Type 0 where
  null : ScalarValue
  boolean : Option Bool → ScalarValue
  int8 int16 int32 int64 : Option ℤ → ScalarValue
  uint8 uint16 uint32 uint64 : Option ℕ → ScalarValue
  float32 float64 : Option ℕ → ScalarValue
  utf8 large_utf8 : Option Text → ScalarValue
  timestamp_second timestamp_millisecond timestamp_microsecond timestamp_nanosecond :
      Option ℤ → Option Text → ScalarValue
  date32 date64 : Option ℤ → ScalarValue
  decimal128 decimal256 : Option ℤ → ScalarValue
  other : ℕ → Bool → ScalarValue

mutual
  pub data Expr : Type 0 where
    literal : ScalarValue → Expr
    column : Text → Expr
    alias : Expr → Text → Expr
    cast : Expr → DataType → Expr
    scalar_function : Text → Exprs → Expr
    binary : Expr → Operator → Expr → Expr
    not : Expr → Expr
    is_null is_not_null is_true is_false is_not_true is_not_false : Expr → Expr
    -- expr, negated, low, high
    between : Expr → Bool → Expr → Expr → Expr
    -- expr, list, negated
    in_list : Expr → Exprs → Bool → Expr
    -- negated, expr, pattern, escape_char, case_insensitive
    like similar_to : Bool → Expr → Expr → Option ℕ → Bool → Expr
    other : ℕ → Expr

  pub data Exprs : Type 0 where
    nil : Exprs
    cons : Expr → Exprs → Exprs

abbrev pub expr_list : Exprs → List Expr
expr_list nil = []
expr_list (cons e es) = e ∷ expr_list es
