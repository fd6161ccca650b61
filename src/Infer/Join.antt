-- ===== src/Infer/Join.antt =====
-- catalog/infer.rs, `unify`: what a join keeps of its two sides.
use auger.Base.{
  ℕ, zero, suc, ◌+◌, ◌≤◌, max, Bool, true, not, ◌&&◌, ◌||◌, ◌≡◌, refl, arith, Bool-cases, inl, inr,
  ◌==◌,
}
use auger.Infer.Fuel.{size_pos}
use auger.Infer.Shape.{Shape, size, Join, join_arms, join, unify, shape_eq}

-- The number of arrays around the elements.
abbrev pub list_depth : Shape → ℕ
list_depth (Shape.array a) = suc (list_depth a)
list_depth _ = 0

abbrev IsShallow : Join → Type 0
IsShallow rec =
    (a b : Shape) (m : Bool) → list_depth (rec a b m).0 ≤ max (list_depth a) (list_depth b)

list_depth-join_arms :
    (rec : Join)
    → IsShallow rec
    → (a b : Shape) (m : Bool)
    → list_depth (join_arms rec a b m).0 ≤ max (list_depth a) (list_depth b)
unfolding join_arms
list_depth-join_arms rec i (Shape.array a) (Shape.array b) m = omega (arith, i a b m)
list_depth-join_arms rec i (Shape.array a) Shape.unknown m = omega arith
list_depth-join_arms rec i Shape.unknown b m = omega arith
list_depth-join_arms rec i (Shape.array a) Shape.json m = omega arith
list_depth-join_arms rec i Shape.json (Shape.array b) m = omega arith
list_depth-join_arms rec i Shape.json _ m = omega arith
list_depth-join_arms rec i (Shape.array a) other m = omega (arith, i a other m)
list_depth-join_arms rec i other (Shape.array b) m = omega (arith, i b other m)
list_depth-join_arms rec i _ _ m = omega arith

list_depth-join : (k : ℕ) → IsShallow (join k)
unfolding join
list_depth-join zero a b m = omega arith
list_depth-join (suc k) a b m = elim (Bool-cases (shape_eq a b)) [
  | inl e ↦ rw (e, join) (omega arith)
  | inr e ↦ rw (e, join) (list_depth-join_arms (join k) (list_depth-join k) a b m)
]

-- A join nests arrays no deeper than the deeper of its sides: however many documents are merged, no
-- level is added.
pub list_depth-unify :
    (a b : Shape) (m : Bool) → list_depth (unify a b m).0 ≤ max (list_depth a) (list_depth b)
unfolding unify
list_depth-unify a b m = list_depth-join (size a + size b) a b m

-- The BSON families that a shape without structure can stand for.
abbrev pub family : Shape → ℕ
family Shape.unknown = 0
family Shape.bool = 1
family Shape.int32 = 2
family Shape.int64 = 2
family Shape.double = 2
family Shape.decimal = 2
family Shape.utf8 = 3
family Shape.object_id = 4
family Shape.date_time = 5
family Shape.bson_timestamp = 5
family Shape.binary = 6
family Shape.json = 7
family (Shape.document l) = 8
family (Shape.array a) = 9

-- A join that is not flagged is of the family of each of its sides, where that is known, unless it is
-- an array, which takes single values in.
abbrev pub holds_family : Shape → Shape → Bool
holds_family whole part = family whole == 9 || family part == 0 || family part == family whole

abbrev pub is_honest : Shape × Bool → Shape → Shape → Bool → Bool
is_honest r a b m = r.1 || (not m && (holds_family r.0 a && holds_family r.0 b))

abbrev IsHonest : Join → ℕ → Type 0
IsHonest rec h = (a b : Shape) (m : Bool) → size a + size b ≤ h → is_honest (rec a b m) a b m ≡ true

honest_self : (b : Shape) (m : Bool) → is_honest (b, m) b b m ≡ true
honest_self b m = ground arith

honest_unknown : (b : Shape) (m : Bool) → is_honest (b, m) Shape.unknown b m ≡ true
honest_unknown b m = ground arith

IsHonest-join_arms :
    (rec : Join) (h : ℕ)
    → IsHonest rec h
    → (a b : Shape) (m : Bool) → size a + size b ≤ suc h
    → is_honest (join_arms rec a b m) a b m ≡ true
unfolding join_arms size
IsHonest-join_arms rec h i (Shape.array a) (Shape.array b) m le =
    ground (arith, i a b m (omega arith))
IsHonest-join_arms rec h i (Shape.array a) Shape.unknown m le = ground arith
IsHonest-join_arms rec h i Shape.unknown b m le = honest_unknown b m
IsHonest-join_arms rec h i (Shape.array a) Shape.json m le = ground arith
IsHonest-join_arms rec h i Shape.json (Shape.array b) m le = ground arith
IsHonest-join_arms rec h i Shape.json _ m le = ground arith
IsHonest-join_arms rec h i (Shape.array a) other m le = ground (arith, i a other m (omega arith))
IsHonest-join_arms rec h i other (Shape.array b) m le = ground (arith, i b other m (omega arith))
IsHonest-join_arms rec h i _ _ m le = ground arith

family-shape_eq : (a b : Shape) → shape_eq a b ≡ true → family a ≡ family b
unfolding shape_eq
family-shape_eq Shape.unknown Shape.unknown h = refl
family-shape_eq (Shape.array a) (Shape.array b) h = refl
family-shape_eq (Shape.document a) (Shape.document b) h = refl
family-shape_eq _ _ h = ground arith

honest_equal : (a b : Shape) (m : Bool) → family a ≡ family b → is_honest (a, m) a b m ≡ true
honest_equal a b m h = ground arith

IsHonest-join : (k : ℕ) → IsHonest (join k) k
unfolding join
IsHonest-join zero a b m le = absurd (omega (arith, size_pos a))
IsHonest-join (suc k) a b m le = elim (Bool-cases (shape_eq a b)) [
  | inl e ↦ rw (e, join) (honest_equal a b m (family-shape_eq a b e))
  | inr e ↦ rw (e, join) (IsHonest-join_arms (join k) k (IsHonest-join k) a b m le)
]

-- A join is flagged as mixed unless it is of the BSON family of each of its sides: a side that was
-- only seen as null fits every family, and an array takes single values in. The flag is never
-- taken back.
pub is_honest-unify : (a b : Shape) (m : Bool) → is_honest (unify a b m) a b m ≡ true
unfolding unify
is_honest-unify a b m = IsHonest-join (size a + size b) a b m (omega arith)
