-- ===== src/Convert/Failures.antt =====
-- mongo/convert.rs: how building the columns of a batch can fail.
use auger.Base.{
  ℕ, suc, ◌+◌, ◌^◌, Bool, true, false, List, [], ◌∷◌, ◌++◌, map, Option, ◌≡◌, refl, sym, ◌∙◌, ap,
  subst, Text, ltb, length, length-map, length-append, arith, Bool-cases, all, All, inl, inr, ◌⊎◌,
  &&-eq-true,
}
use auger.Base.Int.{pos}
use auger.Base.Results.{ok, err, >>=-eq-err, Result-cases, ok_injective, ok-ne-err, err_injective}
use auger.Errors.{DataFusionError, Result}
use auger.Bson.{Bson, Document}
use auger.Arrow.{DataType, TimeUnit, Field, Fields, field, name_of, Schema}
use auger.Arrow.Array.{Array, Checks, IsWithin, array_len, column_list}
use auger.Infer.Tag.{field_path}
use auger.Infer.Observe.{Sampler}
use auger.Infer.Schema.{Floats, sort_names, finish}
use auger.Convert.{lookup_path}
use auger.Convert.Scalars.{Values}
use auger.Convert.Columns.{
  Gathered, row_items, is_list_row, is_document, gather, child_of, build_array, build_children,
  columns_of, too_long, overflow, mismatch, expect, strings_of, binaries_of,
}
use auger.Convert.Rows.{gather-cons, gather-valid}
use auger.Convert.Types.{build-IsSound, build_children-AreSound}
use auger.Convert.Buildable.{
  false-ne-true, child_parts, all_nullable, is_buildable, is_buildable_field, is_buildable_child,
  are_buildable, is_buildable-root_fields,
}

expect-eq-err :
    (message : Text) (fits : Bool) (b : Array) {e : DataFusionError}
    → expect message fits b ≡ err e
    → (fits ≡ false) × (e ≡ DataFusionError.panicked message)
unfolding expect
expect-eq-err message true b h = absurd (ok-ne-err h)
expect-eq-err message false b h = (refl, sym (err_injective h))

-- What is gathered has an offset for each row, and the offsets stay within what is flat.
gather-IsWithin :
    (vs : List (Option Bson)) (len : ℕ) {g : Gathered}
    → gather len vs ≡ ok g
    → (length g.offsets ≡ length vs) × IsWithin len g.offsets (len + length g.flat)
unfolding gather
gather-IsWithin [] len e =
    subst (λ (g : Gathered). (length g.offsets ≡ 0) × IsWithin len g.offsets (len + length g.flat))
      (ok_injective e) (refl, omega arith)
gather-IsWithin (v ∷ vs) len e =
    let (h, eh, eg, fits) = gather-cons len v vs e in
    let (same, within) = gather-IsWithin vs (len + length (row_items v)) eh in
    let total : len + length (row_items v) + length h.flat ≡ len + length (row_items v ++ h.flat) =
      omega (arith, length-append (row_items v) h.flat) in
    subst
      (λ (g : Gathered).
        (length g.offsets ≡ suc (length vs)) × IsWithin len g.offsets (len + length g.flat))
      (sym eg)
      (
        ap suc same,
        (omega arith, subst (IsWithin (len + length (row_items v)) h.offsets) total within),
      )

-- A list column with too many elements, or a column of texts or binary values with too many bytes.
abbrev pub IsFull : DataFusionError → Type 0
IsFull e = (e ≡ DataFusionError.execution too_long) ⊎ (e ≡ DataFusionError.panicked overflow)

module _ (vals : Values) (checks : Checks) where
  abbrev Build : Field → List (Option Bson) → Result Array
  Build = build_array vals checks

  overflow-IsFull :
      (fits : Bool) (b : Array) {e : DataFusionError} → expect overflow fits b ≡ err e → IsFull e
  overflow-IsFull fits b h = inr (expect-eq-err overflow fits b h).1

  fitting :
      (fits : Bool) (b : Array) {e : DataFusionError}
      → fits ≡ true
      → ¬ (expect mismatch fits b ≡ err e)
  fitting fits b fit h = false-ne-true (sym (expect-eq-err mismatch fits b h).0 ∙ fit)

  gather-IsFull :
      (vs : List (Option Bson)) (len : ℕ) {e : DataFusionError} → gather len vs ≡ err e → IsFull e
  unfolding gather
  gather-IsFull [] len h = absurd (ok-ne-err h)
  gather-IsFull (v ∷ vs) len h = elim (Bool-cases (ltb (len + length (row_items v)) (2 ^ 31))) [
    | inl fits ↦ elim (>>=-eq-err (gather (len + length (row_items v)) vs) _ (rw fits at h)) [
      | inl k ↦ gather-IsFull vs _ k
      | inr (g, eg, k) ↦ absurd (ok-ne-err k)
    ]
    | inr long ↦ inl (sym (err_injective (rw long at h)))
  ]

  mutual
    unfolding build_array is_buildable strings_of binaries_of

    build-IsFull :
        (f : Field) (vs : List (Option Bson)) {e : DataFusionError}
        → is_buildable_field checks f ≡ true
        → Build f vs ≡ err e
        → IsFull e
    build-IsFull (field name (DataType.decimal128 p s) n m) vs known h =
        absurd (ok-ne-err (rw known at h))
    build-IsFull (field name (DataType.struct (Fields.cons f fs)) n m) vs b h =
        elim (>>=-eq-err (build_children vals checks (Fields.cons f fs) vs) _ h) [
          | inl k ↦ build_children-IsFull (Fields.cons f fs) vs b k
          | inr (c, ec, k) ↦
              let (types, lens, typed) =
                build_children-AreSound vals checks (Fields.cons f fs) vs ec in
              absurd (
                fitting _ _
                  (checks.struct_fits-typed (Fields.cons f fs) c (map is_document vs) types
                    (subst (λ n. All (λ a. array_len a ≡ n) (column_list c))
                      (sym (length-map is_document vs)) lens)
                    (all_nullable checks (Fields.cons f fs) b))
                  k)
        ]
    build-IsFull (field name (DataType.list item) n m) vs b h =
        elim (>>=-eq-err (gather 0 vs) _ h) [
          | inl k ↦ gather-IsFull vs 0 k
          | inr (g, eg, k) ↦ elim (>>=-eq-err (Build item g.flat) _ k) [
            | inl k' ↦ build-IsFull item g.flat (child_parts checks item b).1 k'
            | inr (c, ec, k') ↦
                let (type, len, typed) = build-IsSound vals checks item g.flat ec in
                let (same, within) = gather-IsWithin vs 0 eg in
                let size : 0 + length g.flat ≡ array_len c = omega (arith, len) in
                absurd (
                  fitting _ _
                    (checks.list_fits-typed item g.offsets c g.valid type
                      (child_parts checks item b).0
                      (same
                        ∙ sym (length-map is_list_row vs)
                        ∙ ap length (sym (gather-valid vs 0 eg)))
                      (subst (IsWithin 0 g.offsets) size within))
                    k')
          ]
        ]
    build-IsFull (field name DataType.boolean n m) vs b h = absurd (ok-ne-err h)
    build-IsFull (field name DataType.int32 n m) vs b h = absurd (ok-ne-err h)
    build-IsFull (field name DataType.int64 n m) vs b h = absurd (ok-ne-err h)
    build-IsFull (field name DataType.float64 n m) vs b h = absurd (ok-ne-err h)
    build-IsFull (field name DataType.utf8 n m) vs b h = overflow-IsFull _ _ h
    build-IsFull (field name DataType.binary n m) vs b h = overflow-IsFull _ _ h
    build-IsFull (field name (DataType.timestamp TimeUnit.millisecond tz) n m) vs b h =
        absurd (ok-ne-err h)
    build-IsFull (field name ty n m) vs b h = absurd (false-ne-true b)

    build_children-IsFull :
        (fs : Fields) (vs : List (Option Bson)) {e : DataFusionError}
        → are_buildable checks fs ≡ true
        → build_children vals checks fs vs ≡ err e
        → IsFull e
    build_children-IsFull Fields.nil vs b h = absurd (ok-ne-err h)
    build_children-IsFull (Fields.cons f fs) vs b h =
        let (own, others) = &&-eq-true (is_buildable_child checks f) _ b in
        elim (>>=-eq-err (Build f (map (child_of (name_of f)) vs)) _ h) [
          | inl k ↦ build-IsFull f _ (child_parts checks f own).1 k
          | inr (a, ea, k) ↦ elim (>>=-eq-err (build_children vals checks fs vs) _ k) [
            | inl k' ↦ build_children-IsFull fs vs others k'
            | inr (c, ec, k') ↦ absurd (ok-ne-err k')
          ]
        ]

  columns_of-IsFull :
      (schema : Schema) (docs : List Document) {e : DataFusionError}
      → all (is_buildable_field checks) schema ≡ true
      → columns_of vals checks schema docs ≡ err e
      → IsFull e
  unfolding columns_of
  columns_of-IsFull [] docs b h = absurd (ok-ne-err h)
  columns_of-IsFull (f ∷ fs) docs b h =
      let (own, others) = &&-eq-true (is_buildable_field checks f) _ b in
      elim (>>=-eq-err (Build f (map (λ d. lookup_path d (field_path f)) docs)) _ h) [
        | inl k ↦ build-IsFull f _ own k
        | inr (a, ea, k) ↦ elim (>>=-eq-err (columns_of vals checks fs docs) _ k) [
          | inl k' ↦ columns_of-IsFull fs docs others k'
          | inr (c, ec, k') ↦ absurd (ok-ne-err k')
        ]
      ]

  -- Under a schema that sampling gave, the columns of a batch are built, whatever the documents hold,
  -- or a list column gets 2^31 elements or more, which is an error, or a column of texts or binary
  -- values 2^31 bytes or more, on which Arrow panics. Nothing else fails it: no value that does not fit
  -- its column, no type, no empty struct, and no struct or list whose parts do not fit. `checks` accepts
  -- the one decimal type that inference gives.
  pub columns_of-finish :
      (floats : Floats) (s : Sampler) (max_depth : ℕ) (docs : List Document)
      → checks.decimal_type 38 (pos 10) ≡ true
      → ((cs : List Array) × (columns_of vals checks (finish floats s max_depth) docs ≡ ok cs))
        ⊎ ((e : DataFusionError) × (columns_of vals checks (finish floats s max_depth) docs ≡ err e)
            × IsFull e)
  unfolding finish
  columns_of-finish floats s max_depth docs known =
      elim (Result-cases (columns_of vals checks (finish floats s max_depth) docs)) [
        | inl built ↦ inl built
        | inr (e, h) ↦ inr (
          e,
          h,
          columns_of-IsFull (finish floats s max_depth) docs
              (is_buildable-root_fields checks floats known (sort_names s.root) s.docs_seen
                max_depth)
              h,
        )
      ]
