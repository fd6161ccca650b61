-- ===== src/Arrow/Array.antt =====
-- Arrow's arrays, as the crate `arrow` hands them to the gateway, and the rows that they hold. A missing
-- entry is NULL; a list array has the offsets of its rows in its child.
use auger.Base.{
  ℕ, ◌-◌, Bool, true, false, List, [], ◌∷◌, map, Option, none, some, Text, take, drop, length,
  replicate, ◌≤◌, ◌≡◌, All, all,
}
use auger.Base.Int.{ℤ}
use auger.Arrow.{DataType, TimeUnit, Field, Fields, field_list, data_type, is_nullable}

mutual
  pub data Array : Type 0 where
    booleans : List (Option Bool) → Array
    int32s int64s : List (Option ℤ) → Array
    float64s : List (Option ℕ) → Array
    strings string_views large_strings : List (Option Text) → Array
    binaries : List (Option (List ℕ)) → Array
    timestamps : Option Text → List (Option ℤ) → Array
    decimals : ℕ → ℤ → List (Option ℤ) → Array
    structs : Fields → Columns → List Bool → Array
    lists : Field → List ℕ → Array → List Bool → Array
    -- Of any other type, each row as `{:?}` prints it.
    others : DataType → List (Option Text) → Array

  pub data Columns : Type 0 where
    nil : Columns
    cons : Array → Columns → Columns

abbrev pub column_list : Columns → List Array
column_list nil = []
column_list (cons a c) = a ∷ column_list c

-- The type that an array carries.
abbrev pub array_type : Array → DataType
array_type (booleans r) = DataType.boolean
array_type (int32s r) = DataType.int32
array_type (int64s r) = DataType.int64
array_type (float64s r) = DataType.float64
array_type (strings r) = DataType.utf8
array_type (string_views r) = DataType.utf8_view
array_type (large_strings r) = DataType.large_utf8
array_type (binaries r) = DataType.binary
array_type (timestamps tz r) = DataType.timestamp TimeUnit.millisecond tz
array_type (decimals p s r) = DataType.decimal128 p s
array_type (structs fs c valid) = DataType.struct fs
array_type (lists f offsets child valid) = DataType.list f
array_type (others t r) = t

-- One row of an array, read back.
mutual
  pub data Cell : Type 0 where
    null : Cell
    boolean : Bool → Cell
    int : ℤ → Cell
    float : ℕ → Cell
    text : Text → Cell
    bytes : List ℕ → Cell
    struct : Cells → Cell
    list : Cells → Cell

  pub data Cells : Type 0 where
    nil : Cells
    cons : Cell → Cells → Cells

abbrev pub cells : List Cell → Cells
cells [] = nil
cells (x ∷ xs) = cons x (cells xs)

abbrev pub cell_of {ℓ} : {A : Type ℓ} → (A → Cell) → Option A → Cell
cell_of f none = null
cell_of f (some a) = f a

-- A column of structs: each row takes a cell of every child.
abbrev pub zip_cons : List Cell → List Cells → List Cells
zip_cons (x ∷ xs) (y ∷ ys) = cons x y ∷ zip_cons xs ys
zip_cons _ _ = []

abbrev pub if_valid : List Bool → List Cell → List Cell
if_valid (true ∷ bs) (x ∷ xs) = x ∷ if_valid bs xs
if_valid (false ∷ bs) (x ∷ xs) = null ∷ if_valid bs xs
if_valid _ _ = []

-- The rows of a list array: each runs from one offset to the next.
unfoldable pub slices : ℕ → List ℕ → List Cell → List Cell
slices start [] child = []
slices start (o ∷ os) child =
    Cell.list (cells (take (o - start) child)) ∷ slices o os (drop (o - start) child)

abbrev pub rows_of_offsets : List ℕ → List Cell → List Cell
rows_of_offsets [] child = []
rows_of_offsets (o ∷ os) child = slices o os (drop o child)

-- The rows of an array.
unfoldable mutual
  unfolding slices

  pub rows : Array → List Cell
  rows (booleans r) = map (cell_of Cell.boolean) r
  rows (int32s r) = map (cell_of Cell.int) r
  rows (int64s r) = map (cell_of Cell.int) r
  rows (float64s r) = map (cell_of Cell.float) r
  rows (strings r) = map (cell_of Cell.text) r
  rows (string_views r) = map (cell_of Cell.text) r
  rows (large_strings r) = map (cell_of Cell.text) r
  rows (binaries r) = map (cell_of Cell.bytes) r
  rows (timestamps tz r) = map (cell_of Cell.int) r
  rows (decimals p s r) = map (cell_of Cell.int) r
  rows (structs fs c valid) = if_valid valid (map Cell.struct (struct_rows (length valid) c))
  rows (others t r) = map (cell_of Cell.text) r
  rows (lists f offsets child valid) = if_valid valid (rows_of_offsets offsets (rows child))

  pub struct_rows : ℕ → Columns → List Cells
  struct_rows n nil = replicate n Cells.nil
  struct_rows n (cons a c) = zip_cons (rows a) (struct_rows n c)

abbrev pub array_len : Array → ℕ
array_len (booleans r) = length r
array_len (int32s r) = length r
array_len (int64s r) = length r
array_len (float64s r) = length r
array_len (strings r) = length r
array_len (string_views r) = length r
array_len (large_strings r) = length r
array_len (binaries r) = length r
array_len (timestamps tz r) = length r
array_len (decimals p s r) = length r
array_len (structs fs c valid) = length valid
array_len (lists f offsets child valid) = length valid
array_len (others t r) = length r

-- Offsets that do not fall, from `start` on, and end within `n` elements.
abbrev pub IsWithin : ℕ → List ℕ → ℕ → Type 0
IsWithin start [] n = start ≤ n
IsWithin start (o ∷ os) n = (start ≤ o) × IsWithin o os n

-- What the constructors of the crate `arrow` check: the precision and scale of decimals, which are
-- refused with an error, and the parts of a struct and of a list, which panic. They accept children
-- of the declared types and lengths, for fields that may be null.
pub record Checks : Type 0 where
  pub decimal_type : ℕ → ℤ → Bool
  pub struct_fits : Fields → Columns → List Bool → Bool
  pub list_fits : Field → List ℕ → Array → List Bool → Bool
  pub struct_fits-typed :
      (fs : Fields) (c : Columns) (valid : List Bool)
      → map array_type (column_list c) ≡ map data_type (field_list fs)
      → All (λ a. array_len a ≡ length valid) (column_list c)
      → all is_nullable (field_list fs) ≡ true
      → struct_fits fs c valid ≡ true
  pub list_fits-typed :
      (item : Field) (offsets : List ℕ) (child : Array) (valid : List Bool)
      → array_type child ≡ data_type item
      → is_nullable item ≡ true
      → length offsets ≡ length valid
      → IsWithin 0 offsets (array_len child)
      → list_fits item (0 ∷ offsets) child valid ≡ true

-- The children of every struct and list have the types that are declared.
unfoldable mutual
  pub IsWellTyped : Array → Type 0
  IsWellTyped (structs fs c valid) =
      (map array_type (column_list c) ≡ map data_type (field_list fs)) × AreWellTyped c
  IsWellTyped (lists f offsets child valid) = (array_type child ≡ data_type f) × IsWellTyped child
  IsWellTyped a = Unit

  pub AreWellTyped : Columns → Type 0
  AreWellTyped nil = Unit
  AreWellTyped (cons a c) = IsWellTyped a × AreWellTyped c
