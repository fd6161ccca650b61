-- ===== src/Infer/Shape.antt =====
-- catalog/infer.rs: shapes, the slots of a document's keys, and `unify`. A `BTreeMap` is the list of its
-- entries in the order of their keys.
use auger.Base.{
  ℕ, zero, suc, ◌+◌, Bool, true, false, ◌&&◌, ◌||◌, [], ◌∷◌, Text, if◌then◌else◌, ◌==◌, ltb,
  text_eq,
}

mutual
  pub data Shape : Type 0 where
    unknown bool int32 int64 double decimal utf8 object_id date_time bson_timestamp binary : Shape
    document : Slots → Shape
    array : Shape → Shape
    json : Shape

  -- shape, present, nulls, mixed
  pub data FieldShape : Type 0 where
    slot : Shape → ℕ → ℕ → Bool → FieldShape

  pub data Slots : Type 0 where
    nil : Slots
    cons : Text → FieldShape → Slots → Slots

-- `FieldShape::empty`
abbrev pub empty : FieldShape
empty = slot unknown 0 0 false

unfoldable pub text_lt : Text → Text → Bool
text_lt a [] = false
text_lt [] (y ∷ b) = true
text_lt (x ∷ a) (y ∷ b) = ltb x y || (x == y && text_lt a b)

abbrev pub bool_eq : Bool → Bool → Bool
bool_eq true b = b
bool_eq false true = false
bool_eq false false = true

-- The derived equality of shapes.
unfoldable mutual
  pub shape_eq : Shape → Shape → Bool
  shape_eq unknown unknown = true
  shape_eq bool bool = true
  shape_eq int32 int32 = true
  shape_eq int64 int64 = true
  shape_eq double double = true
  shape_eq decimal decimal = true
  shape_eq utf8 utf8 = true
  shape_eq object_id object_id = true
  shape_eq date_time date_time = true
  shape_eq bson_timestamp bson_timestamp = true
  shape_eq binary binary = true
  shape_eq json json = true
  shape_eq (document l) (document r) = slots_eq l r
  shape_eq (array a) (array b) = shape_eq a b
  shape_eq _ _ = false

  pub slot_eq : FieldShape → FieldShape → Bool
  slot_eq (slot s p n m) (slot s' p' n' m') = shape_eq s s' && p == p' && n == n' && bool_eq m m'

  pub slots_eq : Slots → Slots → Bool
  slots_eq nil nil = true
  slots_eq (cons k f l) (cons j g r) = text_eq k j && slot_eq f g && slots_eq l r
  slots_eq _ _ = false

-- The number of nodes of a shape, which bounds the recursion of `unify`.
unfoldable mutual
  pub size : Shape → ℕ
  size (document l) = suc (size_slots l)
  size (array a) = suc (size a)
  size _ = 1

  pub size_slot : FieldShape → ℕ
  size_slot (slot s p n m) = size s

  pub size_slots : Slots → ℕ
  size_slots nil = 0
  size_slots (cons k f l) = size_slot f + size_slots l

abbrev pub Join : Type 0
Join = Shape → Shape → Bool → Shape × Bool

unfoldable pub join_slots : Join → FieldShape → FieldShape → FieldShape
join_slots rec (slot s p n m) (slot s' p' n' m') =
    let (joined, mixed) = rec s s' (m || m') in slot joined (p + p') (n + n') mixed

-- One entry of the right map: joined with the slot of that key, or put where the key belongs.
unfoldable pub merge_one : Join → Slots → Text → FieldShape → Slots
unfolding text_lt join_slots
merge_one rec nil key rv = cons key rv nil
merge_one rec (cons j lv l) key rv =
    let rest = merge_one rec l key rv in
    if text_eq j key
    then cons j (join_slots rec lv rv) l
    else if text_lt key j
    then cons key rv (cons j lv l)
    else cons j lv rest

-- The loop over the right map's entries.
unfoldable pub merge : Join → Slots → Slots → Slots
unfolding merge_one
merge rec l nil = l
merge rec l (cons key rv r) = merge rec (merge_one rec l key rv) r

-- The arms of the match, in the order of the source; `rec` is the recursive call.
unfoldable pub join_arms : Join → Shape → Shape → Bool → Shape × Bool
unfolding merge
join_arms rec unknown other m = (other, m)
join_arms rec other unknown m = (other, m)
join_arms rec json other m = (json, true)
join_arms rec other json m = (json, true)
join_arms rec int32 int64 m = (int64, m)
join_arms rec int64 int32 m = (int64, m)
join_arms rec int32 double m = (double, m)
join_arms rec double int32 m = (double, m)
join_arms rec int64 double m = (double, m)
join_arms rec double int64 m = (double, m)
join_arms rec decimal int32 m = (decimal, m)
join_arms rec decimal int64 m = (decimal, m)
join_arms rec decimal double m = (decimal, m)
join_arms rec int32 decimal m = (decimal, m)
join_arms rec int64 decimal m = (decimal, m)
join_arms rec double decimal m = (decimal, m)
join_arms rec object_id utf8 m = (utf8, true)
join_arms rec utf8 object_id m = (utf8, true)
join_arms rec date_time bson_timestamp m = (date_time, m)
join_arms rec bson_timestamp date_time m = (date_time, m)
join_arms rec (array a) (array b) m = let (s, m') = rec a b m in (array s, m')
join_arms rec (array inner) other m = let (s, m') = rec inner other m in (array s, m')
join_arms rec other (array inner) m = let (s, m') = rec inner other m in (array s, m')
join_arms rec (document l) (document r) m = (document (merge rec l r), m)
join_arms rec a b m = (json, true)

-- The function with fuel, which `size` bounds.
unfoldable pub join : ℕ → Shape → Shape → Bool → Shape × Bool
unfolding shape_eq join_arms
join zero a b m = (a, m)
join (suc k) a b m = elim (shape_eq a b) [ true ↦ (a, m) | false ↦ join_arms (join k) a b m ]

-- `unify(a, b, &mut mixed)`
unfoldable pub unify : Shape → Shape → Bool → Shape × Bool
unfolding join size
unify a b mixed = join (size a + size b) a b mixed
