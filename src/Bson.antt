-- ===== src/Bson.antt =====
-- BSON values, as the crate `bson` hands them to mongo/*.rs and catalog/infer.rs, and documents as
-- ordered fields. A double is its IEEE 754 bit pattern; an ObjectId, a Decimal128 and the bytes of
-- a binary are their bytes; a date is its milliseconds.
pub mod Ordered
use auger.Base.{ℕ, Text, List, [], ◌∷◌, Option, none, some, ◌≡◌, Bool, false, if◌then◌else◌}
use auger.Base.{text_eq}
use auger.Base.Int.{ℤ}

mutual
  pub data Bson : Type 0 where
    double : ℕ → Bson
    string : Text → Bson
    array : Items → Bson
    document : Document → Bson
    boolean : Bool → Bson
    null : Bson
    regular_expression : Text → Text → Bson
    java_script_code : Text → Bson
    java_script_code_with_scope : Text → Document → Bson
    int32 : ℤ → Bson
    int64 : ℤ → Bson
    timestamp : ℕ → ℕ → Bson
    binary : List ℕ → Bson
    object_id : List ℕ → Bson
    date_time : ℤ → Bson
    symbol : Text → Bson
    decimal128 : List ℕ → Bson
    undefined : Bson
    max_key : Bson
    min_key : Bson
    db_pointer : Text → List ℕ → Bson

  pub data Items : Type 0 where
    nil : Items
    cons : Bson → Items → Items

  pub data Document : Type 0 where
    end : Document
    entry : Text → Bson → Document → Document

-- `Vec<Bson>` into the elements of an array value, and back.
abbrev pub items : List Bson → Items
items [] = nil
items (x ∷ xs) = cons x (items xs)

abbrev pub item_list : Items → List Bson
item_list nil = []
item_list (cons x xs) = x ∷ item_list xs

-- The documents of a list as array elements, as `doc! { "$and": [...] }` writes them.
abbrev pub documents : List Document → Items
documents [] = nil
documents (d ∷ ds) = cons (document d) (documents ds)

-- `doc! { key: value }` and `doc! { key: value, key': value' }`, with distinct keys.
abbrev pub doc1 : Text → Bson → Document
doc1 k v = entry k v end

abbrev pub doc2 : Text → Bson → Text → Bson → Document
doc2 k v k' v' = entry k v (entry k' v' end)

-- The value at a key, as `Document::get` reads an ordered document.
unfoldable pub get : Document → Text → Option Bson
get end k = none
get (entry j v d) k = if text_eq j k then some v else get d k

-- What the crate's `Document` does beyond literals: `insert` writes a key and leaves the others.
pub record Insertion : Type 0 where
  pub insert : Document → Text → Bson → Document
  pub get-insert_self : (d : Document) (k : Text) (v : Bson) → get (insert d k v) k ≡ some v
  pub get-insert_ne :
      (d : Document) (k j : Text) (v : Bson) → text_eq k j ≡ false → get (insert d k v) j ≡ get d j
