-- ===== src/Convert/Buildable.antt =====
-- mongo/convert.rs with catalog/infer.rs: the types that can be built, among them those that are inferred.
use auger.Base.{
  ℕ, ◌+◌, Bool, true, false, not, ◌&&◌, List, [], ◌∷◌, ◌++◌, ◌≡◌, refl, Text, codes, text_eq, ltb,
  arith, Bool-cases, all, inl, inr, &&-eq-true,
}
use auger.Base.Int.{pos}
use auger.Arrow.{DataType, TimeUnit, Field, Fields, field, field_list, is_nullable}
use auger.Arrow.Array.{Checks}
use auger.Infer.Shape.{Shape, FieldShape, slot, Slots}
use auger.Infer.Schema.{Floats, arrow_type, build_field, build_fields, max_present, root_fields}

pub &&-both : {a b : Bool} → a ≡ true → b ≡ true → (a && b) ≡ true
&&-both h k = ground arith

pub false-ne-true : ¬ (false ≡ true)
false-ne-true h = cc

-- What the gateway can build: no other types, no struct without fields, and inside a struct or a list
-- only fields that may be null.
module _ (checks : Checks) where
  unfoldable mutual
    pub is_buildable : DataType → Bool
    is_buildable DataType.boolean = true
    is_buildable DataType.int32 = true
    is_buildable DataType.int64 = true
    is_buildable DataType.float64 = true
    is_buildable DataType.utf8 = true
    is_buildable DataType.binary = true
    is_buildable (DataType.timestamp TimeUnit.millisecond tz) = true
    is_buildable (DataType.decimal128 p s) = checks.decimal_type p s
    is_buildable (DataType.struct (Fields.cons f fs)) = is_buildable_child f && are_buildable fs
    is_buildable (DataType.list f) = is_buildable_child f
    is_buildable _ = false

    pub is_buildable_field : Field → Bool
    is_buildable_field (field name ty n m) = is_buildable ty

    pub is_buildable_child : Field → Bool
    is_buildable_child (field name ty n m) = n && is_buildable ty

    pub are_buildable : Fields → Bool
    are_buildable Fields.nil = true
    are_buildable (Fields.cons f fs) = is_buildable_child f && are_buildable fs

  pub child_parts :
      (f : Field)
      → is_buildable_child f ≡ true
      → (is_nullable f ≡ true) × (is_buildable_field f ≡ true)
  unfolding is_buildable
  child_parts (field name ty n m) b = &&-eq-true n (is_buildable ty) b

  pub all_nullable :
      (fs : Fields) → are_buildable fs ≡ true → all is_nullable (field_list fs) ≡ true
  unfolding is_buildable
  all_nullable Fields.nil b = refl
  all_nullable (Fields.cons f fs) b =
      let (own, others) = &&-eq-true (is_buildable_child f) (are_buildable fs) b in
      &&-both (child_parts f own).0 (all_nullable fs others)

module _ (checks : Checks) where
  -- Only a path at the root is `_id`, the one that may not be null.
  inner_path : (path k : Text) → not (text_eq (path ++ (b'.' ∷ k)) (codes "_id")) ≡ true
  unfolding text_eq
  inner_path [] k = refl
  inner_path (x ∷ []) k = ground arith
  inner_path (x ∷ y ∷ []) k = ground arith
  inner_path (x ∷ y ∷ z ∷ path) k = longer x y z path
    where
      longer :
          (x y z : ℕ) (path : Text)
          → not (text_eq (x ∷ y ∷ z ∷ (path ++ (b'.' ∷ k))) (codes "_id")) ≡ true
      longer x y z [] = ground arith
      longer x y z (w ∷ path) = ground arith

  module _ (floats : Floats) (known : checks.decimal_type 38 (pos 10) ≡ true) where
    mutual
      unfolding arrow_type is_buildable

      is_buildable-arrow_type :
          (shape : Shape) (path : Text) (depth max_depth : ℕ)
          → is_buildable checks (arrow_type floats shape path depth max_depth).0 ≡ true
      is_buildable-arrow_type (Shape.document Slots.nil) path depth max_depth = ground arith
      is_buildable-arrow_type (Shape.document (Slots.cons k (slot shape p n m) l)) path depth
            max_depth =
          let i =
            is_buildable-build_fields (Slots.cons k (slot shape p n m) l) path
              (max_present (Slots.cons k (slot shape p n m) l)) (depth + 1) max_depth in
          elim (Bool-cases (ltb depth max_depth)) [ inl room ↦ rw room i | inr full ↦ rw full refl ]
      is_buildable-arrow_type (Shape.array inner) path depth max_depth =
          let i = is_buildable-arrow_type inner path (depth + 1) max_depth in
          elim (Bool-cases (ltb depth max_depth)) [ inl room ↦ rw room i | inr full ↦ rw full refl ]
      is_buildable-arrow_type Shape.decimal path depth max_depth = known
      is_buildable-arrow_type _ path depth max_depth = refl

      is_buildable-build_fields :
          (l : Slots) (path : Text) (total depth max_depth : ℕ)
          → are_buildable checks (build_fields floats l path total depth max_depth) ≡ true
      is_buildable-build_fields Slots.nil path total depth max_depth = refl
      is_buildable-build_fields (Slots.cons k (slot shape p n m) l) path total depth max_depth =
          &&-both
            (&&-both (inner_path path k)
              (is_buildable-arrow_type shape (path ++ (b'.' ∷ k)) depth max_depth))
            (is_buildable-build_fields l path total depth max_depth)

    pub is_buildable-root_fields :
        (l : List (Text × FieldShape)) (seen max_depth : ℕ)
        → all (is_buildable_field checks) (root_fields floats l seen max_depth) ≡ true
    unfolding root_fields build_field is_buildable
    is_buildable-root_fields [] seen max_depth = refl
    is_buildable-root_fields ((k, slot shape p n m) ∷ l) seen max_depth =
        &&-both (is_buildable-arrow_type shape k 0 max_depth)
          (is_buildable-root_fields l seen max_depth)
