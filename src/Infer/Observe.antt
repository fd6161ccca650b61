-- ===== src/Infer/Observe.antt =====
-- catalog/infer.rs: the shape of one value, and the sampler that joins the shapes of many documents.
use auger.Base.{ℕ, ◌+◌, Bool, true, false, List, [], ◌∷◌, Text, if◌then◌else◌, text_eq}
use auger.Bson.{Bson, Items, Document, nil, cons, end, entry}
use auger.Infer.Shape.{Shape, FieldShape, slot, Slots, empty, text_lt, unify}

-- Writing one key of a map: `f` of the slot that is there, or of an empty one, where the key belongs.
unfoldable pub upsert : (FieldShape → FieldShape) → Slots → Text → Slots
unfolding text_lt
upsert f Slots.nil key = Slots.cons key (f empty) Slots.nil
upsert f (Slots.cons j g l) key =
    let rest = upsert f l key in
    if text_eq j key
    then Slots.cons j (f g) l
    else if text_lt key j
    then Slots.cons key (f empty) (Slots.cons j g l)
    else Slots.cons j g rest

abbrev pub is_nothing : Bson → Bool
is_nothing Bson.null = true
is_nothing Bson.undefined = true
is_nothing _ = false

-- `observe_value`, given the shape of the value.
unfoldable pub observe_shape : FieldShape → Bool → Shape → FieldShape
unfolding unify
observe_shape (slot s present nulls mixed) nothing shape =
    if nothing
    then slot s (present + 1) (nulls + 1) mixed
    else (let (joined, mixed') = unify s shape mixed in slot joined (present + 1) nulls mixed')

unfoldable mutual
  unfolding observe_shape upsert unify

  pub shape_of : Bson → Shape
  shape_of (Bson.boolean b) = Shape.bool
  shape_of (Bson.int32 n) = Shape.int32
  shape_of (Bson.int64 n) = Shape.int64
  shape_of (Bson.double d) = Shape.double
  shape_of (Bson.decimal128 d) = Shape.decimal
  shape_of (Bson.string t) = Shape.utf8
  shape_of (Bson.symbol t) = Shape.utf8
  shape_of (Bson.object_id o) = Shape.object_id
  shape_of (Bson.date_time ms) = Shape.date_time
  shape_of (Bson.timestamp t i) = Shape.bson_timestamp
  shape_of (Bson.binary bytes) = Shape.binary
  shape_of Bson.null = Shape.unknown
  shape_of Bson.undefined = Shape.unknown
  shape_of (Bson.document d) = Shape.document (fields_of_document Slots.nil d)
  shape_of (Bson.array vs) = Shape.array (elements Shape.unknown false vs)
  shape_of _ = Shape.json

  -- The loop over an embedded document: a key is inserted with a slot that has seen it once.
  pub fields_of_document : Slots → Document → Slots
  fields_of_document l end = l
  fields_of_document l (entry k v d) =
      fields_of_document (upsert (λ old. observe_shape empty (is_nothing v) (shape_of v)) l k) d

  -- The loop over an array's items; its flag is not kept.
  pub elements : Shape → Bool → Items → Shape
  elements elem mixed nil = elem
  elements elem mixed (cons v vs) =
      let (joined, mixed') = unify elem (shape_of v) mixed in elements joined mixed' vs

unfoldable pub observe_value : FieldShape → Bson → FieldShape
unfolding observe_shape shape_of
observe_value f v = observe_shape f (is_nothing v) (shape_of v)

pub record Sampler : Type 0 where
  pub root : Slots
  pub docs_seen : ℕ

-- `Sampler::new`
abbrev pub new : Sampler
new = record { root = Slots.nil; docs_seen = 0 }

unfoldable pub observe_fields : Slots → Document → Slots
unfolding upsert observe_value
observe_fields l end = l
observe_fields l (entry k v d) = observe_fields (upsert (λ f. observe_value f v) l k) d

unfoldable pub observe : Sampler → Document → Sampler
unfolding observe_fields
observe s d = record { root = observe_fields s.root d; docs_seen = s.docs_seen + 1 }

unfoldable pub is_empty : Sampler → Bool
is_empty s = elim s.root [ Slots.nil ↦ true | Slots.cons k f l ↦ false ]

-- A stream of sampled documents.
unfoldable pub observe_all : Sampler → List Document → Sampler
unfolding observe
observe_all s [] = s
observe_all s (d ∷ ds) = observe_all (observe s d) ds
