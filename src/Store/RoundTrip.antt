-- ===== src/Store/RoundTrip.antt =====
-- catalog/store.rs: a type, a field and a whole catalog come back from their stored forms.
use auger.Base.{
  true, List, [], ◌∷◌, map, some, ◌≡◌, refl, sym, ◌∙◌, ap, ap₂, Text, >>=-eq-some, >>=-eq-some2,
  traverse, traverse-cons, text_eq, if◌then◌else◌,
}
use auger.Arrow.{DataType, TimeUnit, Field, Fields, field, Schema}
use auger.Store.Types.{
  StoredType, StoredField, StoredFields, stored, type_from_arrow, field_from_arrow,
  fields_from_arrow, type_to_arrow, field_to_arrow, fields_to_arrow,
}
use auger.Store.Lookup.{lookup-insert}
use auger.Store.{
  get, Map, CachedTable, StoredTable, CatalogStore, Serde, write_file, lookup, stored_tables,
  loaded_tables, persist, load_from, new, catalog_version,
}

-- What a chain of fallible steps that ends in `some` was given.
stored_as {ℓ} : {A : Type ℓ} (f : A → DataType) (a : A) {b : A} → some a ≡ some b → f b ≡ f a
stored_as f a {b} h = let e : a ≡ b = cc in ap f (sym e)

mutual
  unfolding type_from_arrow type_to_arrow

  type_to_arrow-from_arrow :
      (t : DataType) {s : StoredType} → type_from_arrow t ≡ some s → type_to_arrow s ≡ t
  type_to_arrow-from_arrow DataType.boolean h = stored_as type_to_arrow StoredType.boolean h
  type_to_arrow-from_arrow DataType.int32 h = stored_as type_to_arrow StoredType.int32 h
  type_to_arrow-from_arrow DataType.int64 h = stored_as type_to_arrow StoredType.int64 h
  type_to_arrow-from_arrow DataType.float64 h = stored_as type_to_arrow StoredType.float64 h
  type_to_arrow-from_arrow DataType.utf8 h = stored_as type_to_arrow StoredType.utf8 h
  type_to_arrow-from_arrow DataType.binary h = stored_as type_to_arrow StoredType.binary h
  type_to_arrow-from_arrow (DataType.decimal128 p x) h =
      stored_as type_to_arrow (StoredType.decimal p x) h
  type_to_arrow-from_arrow (DataType.timestamp TimeUnit.millisecond tz) h =
      stored_as type_to_arrow (StoredType.timestamp_ms tz) h
  type_to_arrow-from_arrow (DataType.struct fs) h =
      let (out, eo, e) = >>=-eq-some (fields_from_arrow fs) _ h in
      stored_as type_to_arrow (StoredType.struct out) e
      ∙ ap DataType.struct (fields_to_arrow-from_arrow fs eo)
  type_to_arrow-from_arrow (DataType.list item) h =
      let (out, eo, e) = >>=-eq-some (field_from_arrow item) _ h in
      stored_as type_to_arrow (StoredType.list out) e
      ∙ ap DataType.list (field_to_arrow-from_arrow item eo)
  type_to_arrow-from_arrow _ h = absurd cc

  pub field_to_arrow-from_arrow :
      (f : Field) {s : StoredField} → field_from_arrow f ≡ some s → field_to_arrow s ≡ f
  field_to_arrow-from_arrow (field name ty nullable meta) {s} h =
      let (t, et, e) = >>=-eq-some (type_from_arrow ty) _ h in
      let k : stored name t nullable meta ≡ s = cc in
      ap field_to_arrow (sym k)
      ∙ ap (λ t. field name t nullable meta) (type_to_arrow-from_arrow ty et)

  fields_to_arrow-from_arrow :
      (fs : Fields) {s : StoredFields} → fields_from_arrow fs ≡ some s → fields_to_arrow s ≡ fs
  fields_to_arrow-from_arrow Fields.nil {s} h =
      let e : StoredFields.nil ≡ s = cc in ap fields_to_arrow (sym e)
  fields_to_arrow-from_arrow (Fields.cons f fs) {s} h =
      let (g, gs, ef, efs, e) =
        >>=-eq-some2 (field_from_arrow f) (λ _. fields_from_arrow fs) StoredFields.cons h in
      ap fields_to_arrow (sym e)
      ∙ ap₂ Fields.cons (field_to_arrow-from_arrow f ef) (fields_to_arrow-from_arrow fs efs)

-- A schema that has a stored form is read back from it unchanged, its fields' metadata included.
pub schema_to_arrow-from_arrow :
    (fs : Schema) {s : List StoredField}
    → traverse field_from_arrow fs ≡ some s
    → map field_to_arrow s ≡ fs
schema_to_arrow-from_arrow [] {s} h = let e : [] ≡ s = cc in ap (map field_to_arrow) (sym e)
schema_to_arrow-from_arrow (f ∷ fs) h =
    let (y, ys, ey, eys, e) = traverse-cons field_from_arrow f fs h in
    ap (map field_to_arrow) e
    ∙ ap₂ ◌∷◌ (field_to_arrow-from_arrow f ey) (schema_to_arrow-from_arrow fs eys)

-- Every schema of the map has a stored form.
abbrev pub IsStorable : Map CachedTable → Type 0
IsStorable [] = Unit
IsStorable ((k, v) ∷ rest) =
    ((s : List StoredField) × (traverse field_from_arrow v.schema ≡ some s)) × IsStorable rest

lookup-loaded :
    (m : Map CachedTable) (k : Text)
    → IsStorable m
    → lookup (loaded_tables (stored_tables m) []) k ≡ lookup m k
unfolding stored_tables loaded_tables lookup
lookup-loaded [] k h = refl
lookup-loaded ((j, v) ∷ rest) k ((s, e), h) =
    rw (e, stored_tables, schema_to_arrow-from_arrow v.schema e)
      (lookup-insert (loaded_tables (stored_tables rest) []) j k _
        ∙ ap (λ r. if text_eq j k then some v else r) (lookup-loaded rest k h))

module _ (serde : Serde) where
  persist-file :
      (s : CatalogStore serde.Json) (p : Text) (json : serde.Json)
      → s.path ≡ some p
      → serde.to_string (record { version = catalog_version; tables = stored_tables s.tables })
        ≡ some json
      → (persist serde true s).file ≡ some json
  unfolding persist write_file
  persist-file s p json hp hj = ap₂ (λ q t. (write_file q t true s).file) hp hj

  loaded-get :
      (p : Text) (json : serde.Json) (m : Map StoredTable) (k : Text)
      → serde.from_str json ≡ some (record { version = catalog_version; tables = m })
      → get (new serde (some p) (some json)) k ≡ lookup (loaded_tables m []) k
  unfolding new load_from get
  loaded-get p json m k h = rw (h, load_from) refl

  -- A store that is opened on the file that a store has written answers every lookup as that one did:
  -- where all its schemas have a stored form, and the catalog is written.
  pub get-new-persist :
      (s : CatalogStore serde.Json) (p : Text) (json : serde.Json) (k : Text)
      → s.path ≡ some p
      → serde.to_string (record { version = catalog_version; tables = stored_tables s.tables })
        ≡ some json
      → IsStorable s.tables
      → get (new serde (some p) (persist serde true s).file) k ≡ get s k
  unfolding get lookup
  get-new-persist s p json k hp hj h =
      rw (persist-file s p json hp hj)
        (loaded-get p json _ k (serde.from_str-to_string _ json hj) ∙ lookup-loaded s.tables k h)
