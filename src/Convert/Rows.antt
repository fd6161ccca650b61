-- ===== src/Convert/Rows.antt =====
-- mongo/convert.rs: what the rows of a column are, value by value, against the columns that
-- `build_array` builds from all values at once.
use auger.Base.{
  ℕ, ◌+◌, ◌-◌, Bool, true, List, [], ◌∷◌, ◌++◌, map, Option, ◌≡◌, refl, sym, ◌∙◌, ap, ap₂, Text,
  if◌then◌else◌, ltb, length, take, drop, replicate, length-map, arith, Bool-cases, inl, inr, ◌^◌,
}
use auger.Base.Results.{ok, >>=-eq-ok, IsOk, ok_injective, err-ne-ok}
use auger.Errors.{DataFusionError, Result}
use auger.Bson.{Bson, Document}
use auger.Arrow.{DataType, TimeUnit, Field, Fields, field, name_of, Schema}
use auger.Arrow.Array.{
  Array, Checks, Columns, Cell, Cells, cells, cell_of, rows, struct_rows, zip_cons, if_valid,
  slices,
}
use auger.Infer.Tag.{tag_of, field_path}
use auger.Convert.{lookup_path}
use auger.Convert.Scalars.{
  Values, as_boolean, as_i32, as_i64, as_f64, as_bytes, as_millis, as_decimal,
}
use auger.Convert.Columns.{
  Gathered, row_items, is_list_row, gather, add_row, child_of, is_document, text_row, build_array,
  build_children, struct_column, columns_of, documents_to_batch, expect, expect-eq-ok, strings_of,
  binaries_of,
}

module _ (vals : Values) where
  -- One value in a column of a field, whatever the other rows are.
  unfoldable mutual
    pub cell : Field → Option Bson → Cell
    cell (field name DataType.boolean n m) v = cell_of Cell.boolean (as_boolean vals v)
    cell (field name DataType.int32 n m) v = cell_of Cell.int (as_i32 vals v)
    cell (field name DataType.int64 n m) v = cell_of Cell.int (as_i64 vals v)
    cell (field name DataType.float64 n m) v = cell_of Cell.float (as_f64 vals v)
    cell (field name DataType.utf8 n m) v =
        cell_of Cell.text (text_row vals (tag_of (field name DataType.utf8 n m)) v)
    cell (field name DataType.binary n m) v = cell_of Cell.bytes (as_bytes vals v)
    cell (field name (DataType.timestamp TimeUnit.millisecond tz) n m) v =
        cell_of Cell.int (as_millis vals v)
    cell (field name (DataType.decimal128 p s) n m) v = cell_of Cell.int (as_decimal vals v s)
    cell (field name (DataType.struct children) n m) v =
        if is_document v then Cell.struct (child_cells children v) else Cell.null
    cell (field name (DataType.list item) n m) v =
        if is_list_row v
        then Cell.list (cells (map (λ w. cell item w) (row_items v)))
        else Cell.null
    cell (field name ty n m) v = Cell.null

    pub child_cells : Fields → Option Bson → Cells
    child_cells Fields.nil v = Cells.nil
    child_cells (Fields.cons f fs) v =
        Cells.cons (cell f (child_of (name_of f) v)) (child_cells fs v)

-- A field's column of the documents, row by row.
abbrev pub column : Values → List Document → Field → List Cell
column vals docs f = map (λ d. cell vals f (lookup_path d (field_path f))) docs

map-map {ℓ} :
    {A B C : Type ℓ} (g : B → C) (f : A → B) (xs : List A)
    → map g (map f xs) ≡ map (λ x. g (f x)) xs
map-map g f [] = refl
map-map g f (x ∷ xs) = ap (◌∷◌ (g (f x))) (map-map g f xs)

if_valid-map {ℓ} :
    {A : Type ℓ} (p : A → Bool) (g : A → Cell) (xs : List A)
    → if_valid (map p xs) (map g xs) ≡ map (λ x. if p x then g x else Cell.null) xs
if_valid-map p g [] = refl
if_valid-map p g (x ∷ xs) = elim (Bool-cases (p x)) [
  | inl e ↦ rw e (ap (◌∷◌ (g x)) (if_valid-map p g xs))
  | inr e ↦ rw e (ap (◌∷◌ Cell.null) (if_valid-map p g xs))
]

zip_cons-map {ℓ} :
    {A : Type ℓ} (g : A → Cell) (h : A → Cells) (xs : List A)
    → zip_cons (map g xs) (map h xs) ≡ map (λ x. Cells.cons (g x) (h x)) xs
zip_cons-map g h [] = refl
zip_cons-map g h (x ∷ xs) = ap (◌∷◌ (Cells.cons (g x) (h x))) (zip_cons-map g h xs)

replicate-map {ℓ κ} :
    {A : Type ℓ} {B : Type κ} (b : B) (xs : List A) → replicate (length xs) b ≡ map (λ x. b) xs
replicate-map b [] = refl
replicate-map b (x ∷ xs) = ap (◌∷◌ b) (replicate-map b xs)

take-append : {A : Type 0} (xs ys : List A) → take (length xs) (xs ++ ys) ≡ xs
take-append [] ys = refl
take-append (x ∷ xs) ys = ap (◌∷◌ x) (take-append xs ys)

drop-append : {A : Type 0} (xs ys : List A) → drop (length xs) (xs ++ ys) ≡ ys
drop-append [] ys = refl
drop-append (x ∷ xs) ys = drop-append xs ys

map-append : {A B : Type 0} (f : A → B) (xs ys : List A) → map f (xs ++ ys) ≡ map f xs ++ map f ys
map-append f [] ys = refl
map-append f (x ∷ xs) ys = ap (◌∷◌ (f x)) (map-append f xs ys)

-- What a row adds to what is gathered.
pub gather-cons :
    (len : ℕ) (v : Option Bson) (vs : List (Option Bson)) {g : Gathered}
    → gather len (v ∷ vs) ≡ ok g
    → (h : Gathered) × (gather (len + length (row_items v)) vs ≡ ok h)
      × (g ≡ add_row v (len + length (row_items v)) h)
      × (ltb (len + length (row_items v)) (2 ^ 31) ≡ true)
unfolding gather
gather-cons len v vs e = elim (Bool-cases (ltb (len + length (row_items v)) (2 ^ 31))) [
  | inl fits ↦
      let (h, eh, eg) = >>=-eq-ok (gather (len + length (row_items v)) vs) _ (rw fits at e) in
      (h, eh, cc, fits)
  | inr long ↦ cc
]

pub gather-valid :
    (vs : List (Option Bson)) (len : ℕ) {g : Gathered}
    → gather len vs ≡ ok g
    → g.valid ≡ map is_list_row vs
unfolding gather
gather-valid [] len e = cc
gather-valid (v ∷ vs) len e =
    let (h, eh, eg, fits) = gather-cons len v vs e in
    ap (λ (g : Gathered). g.valid) eg ∙ ap (◌∷◌ (is_list_row v)) (gather-valid vs _ eh)

abbrev of_gathered : (Option Bson → Cell) → ℕ → Gathered → List Cell
of_gathered f len g = slices len g.offsets (map f g.flat)

-- The offsets cut what is flat into the elements of each row.
slices-gather :
    (f : Option Bson → Cell) (vs : List (Option Bson)) (len : ℕ) {g : Gathered}
    → gather len vs ≡ ok g
    → slices len g.offsets (map f g.flat) ≡ map (λ v. Cell.list (cells (map f (row_items v)))) vs
unfolding gather slices
slices-gather f [] len e = ap (of_gathered f len) (sym (ok_injective e))
slices-gather f (v ∷ vs) len e =
    let (h, eh, eg, fits) = gather-cons len v vs e in
    let own = map f (row_items v) in
    let gap : len + length (row_items v) - len ≡ length own =
      omega (arith, length-map f (row_items v)) in
    let split : map f (row_items v ++ h.flat) ≡ own ++ map f h.flat = map-append f _ _ in
    ap (of_gathered f len) eg
    ∙ ap₂
        (λ n xs.
          Cell.list (cells (take n xs)) ∷ slices (len + length (row_items v)) h.offsets (drop n xs))
        gap split
    ∙ ap₂ (λ xs ys. Cell.list (cells xs) ∷ slices (len + length (row_items v)) h.offsets ys)
        (take-append own _) (drop-append own _)
    ∙ ap (◌∷◌ (Cell.list (cells own))) (slices-gather f vs _ eh)

module _ (vals : Values) (checks : Checks) where
  abbrev Build : Field → List (Option Bson) → Result Array
  Build = build_array vals checks

  of_column :
      {b a : Array} {r : List Cell} → IsOk {E = DataFusionError} (ok b) a → rows b ≡ r → rows a ≡ r
  of_column e h = ap rows (sym (ok_injective e)) ∙ h

  of_expected :
      (message : Text) (fits : Bool) (b : Array) {a : Array} {r : List Cell}
      → expect message fits b ≡ ok a
      → rows b ≡ r
      → rows a ≡ r
  of_expected message fits b e h = ap rows (sym (expect-eq-ok message fits b e)) ∙ h

  mutual
    unfolding build_array cell rows strings_of binaries_of

    rows-build :
        (f : Field) (vs : List (Option Bson)) {a : Array}
        → Build f vs ≡ ok a
        → rows a ≡ map (cell vals f) vs
    rows-build (field name DataType.boolean n m) vs e = of_column e (map-map _ _ vs)
    rows-build (field name DataType.int32 n m) vs e = of_column e (map-map _ _ vs)
    rows-build (field name DataType.int64 n m) vs e = of_column e (map-map _ _ vs)
    rows-build (field name DataType.float64 n m) vs e = of_column e (map-map _ _ vs)
    rows-build (field name DataType.utf8 n m) vs e = of_expected _ _ _ e (map-map _ _ vs)
    rows-build (field name DataType.binary n m) vs e = of_expected _ _ _ e (map-map _ _ vs)
    rows-build (field name (DataType.timestamp TimeUnit.millisecond tz) n m) vs e =
        of_column e (map-map _ _ vs)
    rows-build (field name (DataType.decimal128 p s) n m) vs e =
        elim (Bool-cases (checks.decimal_type p s)) [
          | inl known ↦ of_column (rw known at e) (map-map _ _ vs)
          | inr unknown ↦ absurd (err-ne-ok (rw unknown at e))
        ]
    rows-build (field name (DataType.struct children) n m) vs e =
        let (c, ec, es) = >>=-eq-ok (build_children vals checks children vs) _ e in
        struct_rows-column name children c vs es (rows-build_children children vs ec)
    rows-build (field name (DataType.list item) n m) vs e =
        let (g, eg, h) = >>=-eq-ok (gather 0 vs) _ e in
        let (child, ec, h') = >>=-eq-ok (Build item g.flat) _ h in
        of_expected _ _ _ h' (
          ap₂ (λ bs cs. if_valid bs (slices 0 g.offsets cs)) (gather-valid vs 0 eg)
            (rows-build item g.flat ec)
          ∙ ap (if_valid (map is_list_row vs)) (slices-gather (cell vals item) vs 0 eg)
          ∙ if_valid-map is_list_row _ vs)
    rows-build (field name ty n m) vs e = absurd (err-ne-ok e)

    rows-build_children :
        (fs : Fields) (vs : List (Option Bson)) {c : Columns}
        → build_children vals checks fs vs ≡ ok c
        → struct_rows (length vs) c ≡ map (child_cells vals fs) vs
    rows-build_children Fields.nil vs e =
        ap (struct_rows (length vs)) (sym (ok_injective e)) ∙ replicate-map Cells.nil vs
    rows-build_children (Fields.cons f fs) vs e =
        let own = map (child_of (name_of f)) vs in
        let (a, ea, h) = >>=-eq-ok (Build f own) _ e in
        let (c, ec, h') = >>=-eq-ok (build_children vals checks fs vs) _ h in
        ap (struct_rows (length vs)) (sym (ok_injective h'))
        ∙ ap₂ zip_cons (rows-build f own ea ∙ map-map _ _ vs) (rows-build_children fs vs ec)
        ∙ zip_cons-map _ _ vs

    struct_rows-column :
        (name : Text) (fs : Fields) (c : Columns) (vs : List (Option Bson)) {a : Array}
        → struct_column vals checks name fs c vs ≡ ok a
        → struct_rows (length vs) c ≡ map (child_cells vals fs) vs
        → rows a
          ≡ map (λ v. if is_document v then Cell.struct (child_cells vals fs v) else Cell.null) vs
    struct_rows-column name Fields.nil c vs e h = absurd (err-ne-ok e)
    struct_rows-column name (Fields.cons f fs) c vs e h = of_expected _ _ _ e (
        ap (λ n. if_valid (map is_document vs) (map Cell.struct (struct_rows n c)))
          (length-map is_document vs)
        ∙ ap (λ r. if_valid (map is_document vs) (map Cell.struct r)) h
        ∙ ap (if_valid (map is_document vs)) (map-map Cell.struct _ vs)
        ∙ if_valid-map is_document _ vs)

  -- A column that is built has a row for each value, and the row of a value is its conversion by
  -- itself: it does not depend on the other values, and no row is lost, moved or shared, in structs
  -- and lists either.
  pub rows-build_array :
      (f : Field) (vs : List (Option Bson)) {a : Array}
      → Build f vs ≡ ok a
      → rows a ≡ map (cell vals f) vs
  rows-build_array = rows-build

  rows-columns_of :
      (schema : Schema) (docs : List Document) {cs : List Array}
      → columns_of vals checks schema docs ≡ ok cs
      → map rows cs ≡ map (column vals docs) schema
  unfolding columns_of
  rows-columns_of [] docs e = ap (map rows) (sym (ok_injective e))
  rows-columns_of (f ∷ fs) docs e =
      let (a, ea, h) = >>=-eq-ok (Build f (map (λ d. lookup_path d (field_path f)) docs)) _ e in
      let (cs, ec, h') = >>=-eq-ok (columns_of vals checks fs docs) _ h in
      ap (map rows) (sym (ok_injective h'))
      ∙ ap₂ ◌∷◌ (rows-build f _ ea ∙ map-map (cell vals f) _ docs) (rows-columns_of fs docs ec)

  module _ {Batch : Type 0} (try_new : Schema → List Array → ℕ → Result Batch) where
    -- A batch that is built is made of one column for each field of the schema, in its order, and each
    -- column holds for each document, in their order, the value at the field's path, converted by
    -- itself; the batch is told the number of documents.
    pub documents_to_batch-rows :
        (schema : Schema) (docs : List Document) (b : Batch)
        → documents_to_batch vals checks try_new schema docs ≡ ok b
        → (cs : List Array) × (try_new schema cs (length docs) ≡ ok b)
          × (map rows cs ≡ map (column vals docs) schema)
    unfolding documents_to_batch
    documents_to_batch-rows schema docs b e =
        let (cs, ec, h) = >>=-eq-ok (columns_of vals checks schema docs) _ e in
        (cs, h, rows-columns_of schema docs ec)
