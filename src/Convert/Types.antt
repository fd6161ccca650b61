-- ===== src/Convert/Types.antt =====
-- mongo/convert.rs: the types and the lengths of the arrays that `build_array` builds, at every depth.
use auger.Base.{
  List, [], ◌∷◌, map, Option, ◌≡◌, refl, ◌∙◌, ap, ap₂, subst, length, length-map, Bool-cases, inl,
  inr, All,
}
use auger.Base.Results.{ok, >>=-eq-ok, ok_injective, err-ne-ok}
use auger.Errors.{Result}
use auger.Bson.{Bson, Document}
use auger.Arrow.{DataType, TimeUnit, Field, Fields, field, name_of, data_type, Schema, field_list}
use auger.Arrow.Array.{
  Array, Columns, Checks, array_type, array_len, column_list, IsWellTyped, AreWellTyped,
}
use auger.Infer.Tag.{field_path}
use auger.Convert.{lookup_path}
use auger.Convert.Scalars.{Values}
use auger.Convert.Columns.{
  gather, child_of, is_document, build_array, build_children, columns_of, expect-eq-ok, strings_of,
  binaries_of,
}
use auger.Convert.Rows.{gather-valid}

-- What is known of an array that is built for the values of a field.
abbrev pub IsSound : Field → List (Option Bson) → Array → Type 0
IsSound f vs a = (array_type a ≡ data_type f) × (array_len a ≡ length vs) × IsWellTyped a

abbrev pub AreSound : Fields → List (Option Bson) → Columns → Type 0
AreSound fs vs c =
    (map array_type (column_list c) ≡ map data_type (field_list fs))
    × All (λ a. array_len a ≡ length vs) (column_list c)
    × AreWellTyped c

module _ (vals : Values) (checks : Checks) where
  abbrev Build : Field → List (Option Bson) → Result Array
  Build = build_array vals checks

  mutual
    unfolding build_array strings_of binaries_of IsWellTyped

    pub build-IsSound :
        (f : Field) (vs : List (Option Bson)) {a : Array} → Build f vs ≡ ok a → IsSound f vs a
    build-IsSound (field name DataType.boolean n m) vs e =
        subst (IsSound (field name DataType.boolean n m) vs) (ok_injective e)
          (refl, length-map _ vs, tt)
    build-IsSound (field name DataType.int32 n m) vs e =
        subst (IsSound (field name DataType.int32 n m) vs) (ok_injective e)
          (refl, length-map _ vs, tt)
    build-IsSound (field name DataType.int64 n m) vs e =
        subst (IsSound (field name DataType.int64 n m) vs) (ok_injective e)
          (refl, length-map _ vs, tt)
    build-IsSound (field name DataType.float64 n m) vs e =
        subst (IsSound (field name DataType.float64 n m) vs) (ok_injective e)
          (refl, length-map _ vs, tt)
    build-IsSound (field name DataType.utf8 n m) vs e =
        subst (IsSound (field name DataType.utf8 n m) vs) (expect-eq-ok _ _ _ e)
          (refl, length-map _ vs, tt)
    build-IsSound (field name DataType.binary n m) vs e =
        subst (IsSound (field name DataType.binary n m) vs) (expect-eq-ok _ _ _ e)
          (refl, length-map _ vs, tt)
    build-IsSound (field name (DataType.timestamp TimeUnit.millisecond tz) n m) vs e =
        subst (IsSound (field name (DataType.timestamp TimeUnit.millisecond tz) n m) vs)
          (ok_injective e) (refl, length-map _ vs, tt)
    build-IsSound (field name (DataType.decimal128 p s) n m) vs e =
        elim (Bool-cases (checks.decimal_type p s)) [
          | inl known ↦
              subst (IsSound (field name (DataType.decimal128 p s) n m) vs)
                (ok_injective (rw known at e)) (refl, length-map _ vs, tt)
          | inr unknown ↦ absurd (err-ne-ok (rw unknown at e))
        ]
    build-IsSound (field name (DataType.struct Fields.nil) n m) vs e = absurd (err-ne-ok e)
    build-IsSound (field name (DataType.struct (Fields.cons f fs)) n m) vs e =
        let (c, ec, h) = >>=-eq-ok (build_children vals checks (Fields.cons f fs) vs) _ e in
        let (types, lens, typed) = build_children-AreSound (Fields.cons f fs) vs ec in
        subst (IsSound (field name (DataType.struct (Fields.cons f fs)) n m) vs)
          (expect-eq-ok _ _ _ h) (refl, length-map is_document vs, (types, typed))
    build-IsSound (field name (DataType.list item) n m) vs e =
        let (g, eg, h) = >>=-eq-ok (gather 0 vs) _ e in
        let (child, ec, h') = >>=-eq-ok (Build item g.flat) _ h in
        let (type, len, typed) = build-IsSound item g.flat ec in
        subst (IsSound (field name (DataType.list item) n m) vs) (expect-eq-ok _ _ _ h')
          (refl, ap length (gather-valid vs 0 eg) ∙ length-map _ vs, (type, typed))
    build-IsSound (field name ty n m) vs e = absurd (err-ne-ok e)

    pub build_children-AreSound :
        (fs : Fields) (vs : List (Option Bson)) {c : Columns}
        → build_children vals checks fs vs ≡ ok c
        → AreSound fs vs c
    build_children-AreSound Fields.nil vs e =
        subst (AreSound Fields.nil vs) (ok_injective e) (refl, tt, tt)
    build_children-AreSound (Fields.cons f fs) vs e =
        let own = map (child_of (name_of f)) vs in
        let (a, ea, h) = >>=-eq-ok (Build f own) _ e in
        let (c, ec, h') = >>=-eq-ok (build_children vals checks fs vs) _ h in
        let (type, len, typed) = build-IsSound f own ea in
        let (types, lens, all_typed) = build_children-AreSound fs vs ec in
        subst (AreSound (Fields.cons f fs) vs) (ok_injective h')
          (ap₂ ◌∷◌ type types, (len ∙ length-map _ vs, lens), (typed, all_typed))

  -- The columns of a batch have the types that the schema declares, one for each field, in its order,
  -- and so have the arrays inside them, at every depth: the children of a struct have the types of its
  -- fields, and the elements of a list the type of its item.
  pub array_types-columns_of :
      (schema : Schema) (docs : List Document) {cs : List Array}
      → columns_of vals checks schema docs ≡ ok cs
      → (map array_type cs ≡ map data_type schema) × All IsWellTyped cs
  unfolding columns_of
  array_types-columns_of [] docs e =
      subst (λ cs. (map array_type cs ≡ map data_type []) × All IsWellTyped cs) (ok_injective e)
        (refl, tt)
  array_types-columns_of (f ∷ fs) docs e =
      let (a, ea, h) = >>=-eq-ok (Build f (map (λ d. lookup_path d (field_path f)) docs)) _ e in
      let (cs, ec, h') = >>=-eq-ok (columns_of vals checks fs docs) _ h in
      let (type, len, typed) = build-IsSound f _ ea in
      let (types, all_typed) = array_types-columns_of fs docs ec in
      subst (λ cs. (map array_type cs ≡ map data_type (f ∷ fs)) × All IsWellTyped cs)
        (ok_injective h') (ap₂ ◌∷◌ type types, (typed, all_typed))
