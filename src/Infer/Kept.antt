-- ===== src/Infer/Kept.antt =====
-- catalog/infer.rs with catalog/store.rs: an inferred schema nests no deeper than it may, and all of it
-- has a form on disk.
use auger.Base.{
  ℕ, suc, ◌+◌, ◌-◌, ◌≤◌, max, Bool, true, not, ◌&&◌, List, [], ◌∷◌, ◌++◌, some, ◌≡◌, refl, Text,
  codes, ltb, leb, all, arith, Bool-cases, inl, inr, traverse,
}
use auger.Arrow.{DataType, Field, Fields, field, with_meta}
use auger.Infer.Tag.{meta_bson, as_str}
use auger.Infer.Shape.{Shape, FieldShape, slot, Slots}
use auger.Infer.Observe.{Sampler}
use auger.Infer.Schema.{
  Floats, arrow_type, build_field, build_fields, max_present, is_empty_map, root_fields, sort_names,
  finish,
}
use auger.Store.Types.{
  StoredType, StoredField, StoredFields, stored, type_from_arrow, field_from_arrow,
  fields_from_arrow,
}

-- How many structs and lists stand around one another in a type.
mutual
  pub nesting : DataType → ℕ
  nesting (DataType.struct fs) = suc (nesting_fields fs)
  nesting (DataType.list f) = suc (nesting_field f)
  nesting _ = 0

  pub nesting_field : Field → ℕ
  nesting_field (field name ty nullable meta) = nesting ty

  pub nesting_fields : Fields → ℕ
  nesting_fields Fields.nil = 0
  nesting_fields (Fields.cons f fs) = max (nesting_field f) (nesting_fields fs)

room_left :
    (n depth max_depth : ℕ)
    → ltb depth max_depth ≡ true
    → n ≤ max_depth - (depth + 1)
    → suc n ≤ max_depth - depth
room_left n depth max_depth room h = ground arith

-- What has a form on disk.
abbrev IsKeptType : DataType → Type 0
IsKeptType t = (s : StoredType) × (type_from_arrow t ≡ some s)

abbrev IsKeptField : Field → Type 0
IsKeptField f = (s : StoredField) × (field_from_arrow f ≡ some s)

field-IsKeptField :
    (name : Text) (ty : DataType) (nullable : Bool) (meta : List (Text × Text))
    → IsKeptType ty
    → IsKeptField (field name ty nullable meta)
unfolding type_from_arrow
field-IsKeptField name ty nullable meta (s, e) = (stored name s nullable meta, rw (e) refl)

list-IsKeptType : (f : Field) → IsKeptField f → IsKeptType (DataType.list f)
unfolding type_from_arrow
list-IsKeptType f (s, e) = (StoredType.list s, rw e refl)

le→leb : (a b : ℕ) → a ≤ b → leb a b ≡ true
le→leb a b h = ground arith

&&-both : {a b : Bool} → a ≡ true → b ≡ true → (a && b) ≡ true
&&-both h k = ground arith

cons-kept :
    (f : Field) (fs : Fields)
    → IsKeptField f
    → ((s : StoredFields) × (fields_from_arrow fs ≡ some s))
    → (s : StoredFields) × (fields_from_arrow (Fields.cons f fs) ≡ some s)
unfolding type_from_arrow
cons-kept f fs (s, e) (t, h) = (StoredFields.cons s t, rw (e, h) refl)

traverse-kept :
    (f : Field) (fs : List Field)
    → IsKeptField f
    → ((s : List StoredField) × (traverse field_from_arrow fs ≡ some s))
    → (s : List StoredField) × (traverse field_from_arrow (f ∷ fs) ≡ some s)
traverse-kept f fs (s, e) (t, h) = (s ∷ t, rw (e, traverse) (rw h refl))

module _ (floats : Floats) where
  mutual
    unfolding arrow_type nesting

    pub nesting-arrow_type :
        (shape : Shape) (path : Text) (depth max_depth : ℕ)
        → nesting (arrow_type floats shape path depth max_depth).0 ≤ max_depth - depth
    nesting-arrow_type (Shape.document l) path depth max_depth =
        let i = nesting-build_fields l path (max_present l) (depth + 1) max_depth in
        elim (Bool-cases (ltb depth max_depth)) [
          | inl room ↦ elim (Bool-cases (is_empty_map l)) [
            | inl e ↦ rw (room, e) (omega arith)
            | inr e ↦ rw (room, e) (room_left _ depth max_depth room i)
          ]
          | inr full ↦ rw full (omega arith)
        ]
    nesting-arrow_type (Shape.array inner) path depth max_depth =
        let i = nesting-arrow_type inner path (depth + 1) max_depth in
        elim (Bool-cases (ltb depth max_depth)) [
          | inl room ↦ rw room (room_left _ depth max_depth room i)
          | inr full ↦ rw full (omega arith)
        ]
    nesting-arrow_type _ path depth max_depth = omega arith

    nesting-build_fields :
        (l : Slots) (path : Text) (total depth max_depth : ℕ)
        → nesting_fields (build_fields floats l path total depth max_depth) ≤ max_depth - depth
    nesting-build_fields Slots.nil path total depth max_depth = omega arith
    nesting-build_fields (Slots.cons k (slot shape p n m) l) path total depth max_depth = omega (
      arith,
      nesting-arrow_type shape (path ++ (b'.' ∷ k)) depth max_depth,
      nesting-build_fields l path total depth max_depth,
    )

  abbrev item_of : Shape → Text → ℕ → ℕ → Field
  item_of inner path depth max_depth =
      let ty = arrow_type floats inner path (depth + 1) max_depth in
      field (codes "item") ty.0 true (with_meta [] meta_bson (as_str ty.1))

  item-IsKeptField :
      (inner : Shape) (path : Text) (depth max_depth : ℕ)
      → IsKeptType (arrow_type floats inner path (depth + 1) max_depth).0
      → IsKeptField (item_of inner path depth max_depth)
  item-IsKeptField inner path depth max_depth i = field-IsKeptField (codes "item") _ true _ i

  build_field-IsKeptField :
      (name path : Text) (shape : Shape) (p n total depth max_depth : ℕ) (m : Bool)
      → IsKeptType (arrow_type floats shape path depth max_depth).0
      → IsKeptField (build_field floats name path (slot shape p n m) total depth max_depth)
  unfolding build_field
  build_field-IsKeptField name path shape p n total depth max_depth m i =
      field-IsKeptField name _ _ _ i

  mutual
    unfolding arrow_type type_from_arrow

    pub type_from_arrow-arrow_type :
        (shape : Shape) (path : Text) (depth max_depth : ℕ)
        → (s : StoredType) × (type_from_arrow (arrow_type floats shape path depth max_depth).0
            ≡ some s)
    type_from_arrow-arrow_type (Shape.document l) path depth max_depth =
        let (s, e) = fields_from_arrow-build_fields l path (max_present l) (depth + 1) max_depth in
        elim (Bool-cases (ltb depth max_depth && not (is_empty_map l))) [
          | inl room ↦ rw room (StoredType.struct s, rw (e, type_from_arrow) refl)
          | inr full ↦ rw full (StoredType.utf8, refl)
        ]
    type_from_arrow-arrow_type (Shape.array inner) path depth max_depth =
        let i = type_from_arrow-arrow_type inner path (depth + 1) max_depth in
        elim (Bool-cases (ltb depth max_depth)) [
          | inl room ↦ rw room (
              list-IsKeptType (item_of inner path depth max_depth)
                (item-IsKeptField inner path depth max_depth i))
          | inr full ↦ rw full (StoredType.utf8, refl)
        ]
    type_from_arrow-arrow_type _ path depth max_depth = (_, refl)

    fields_from_arrow-build_fields :
        (l : Slots) (path : Text) (total depth max_depth : ℕ)
        → (s : StoredFields) × (fields_from_arrow (build_fields floats l path total depth max_depth)
            ≡ some s)
    fields_from_arrow-build_fields Slots.nil path total depth max_depth = (_, refl)
    fields_from_arrow-build_fields (Slots.cons k (slot shape p n m) l) path total depth max_depth =
        cons-kept
          (build_field floats k (path ++ (b'.' ∷ k)) (slot shape p n m) total depth max_depth)
          (build_fields floats l path total depth max_depth)
          (build_field-IsKeptField k (path ++ (b'.' ∷ k)) shape p n total depth max_depth m
            (type_from_arrow-arrow_type shape (path ++ (b'.' ∷ k)) depth max_depth))
          (fields_from_arrow-build_fields l path total depth max_depth)

  root_fields-kept :
      (l : List (Text × FieldShape)) (seen max_depth : ℕ)
      → (s : List StoredField) × (traverse field_from_arrow (root_fields floats l seen max_depth)
          ≡ some s)
  unfolding root_fields build_field type_from_arrow
  root_fields-kept [] seen max_depth = ([], refl)
  root_fields-kept ((k, slot shape p n m) ∷ l) seen max_depth =
      traverse-kept (build_field floats k k (slot shape p n m) seen 0 max_depth)
        (root_fields floats l seen max_depth)
        (build_field-IsKeptField k k shape p n seen 0 max_depth m
          (type_from_arrow-arrow_type shape k 0 max_depth))
        (root_fields-kept l seen max_depth)

  -- Every schema that the sampler gives can be persisted: `persist` skips none of them.
  pub finish-kept :
      (s : Sampler) (max_depth : ℕ)
      → (out : List StoredField) × (traverse field_from_arrow (finish floats s max_depth)
          ≡ some out)
  unfolding finish
  finish-kept s max_depth = root_fields-kept (sort_names s.root) s.docs_seen max_depth

  root_fields-nesting :
      (l : List (Text × FieldShape)) (seen max_depth : ℕ)
      → all (λ f. leb (nesting_field f) max_depth) (root_fields floats l seen max_depth) ≡ true
  unfolding root_fields build_field nesting
  root_fields-nesting [] seen max_depth = refl
  root_fields-nesting ((k, slot shape p n m) ∷ l) seen max_depth =
      &&-both (le→leb _ max_depth (omega (arith, nesting-arrow_type shape k 0 max_depth)))
        (root_fields-nesting l seen max_depth)

  -- No column of an inferred schema nests structs and lists deeper than the limit, whatever the sampled
  -- documents hold.
  pub nesting-finish :
      (s : Sampler) (max_depth : ℕ)
      → all (λ f. leb (nesting_field f) max_depth) (finish floats s max_depth) ≡ true
  unfolding finish
  nesting-finish s max_depth = root_fields-nesting (sort_names s.root) s.docs_seen max_depth
