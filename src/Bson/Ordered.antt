-- ===== src/Bson/Ordered.antt =====
-- A concrete store of ordered documents, which serves the examples.
use auger.Base.{
  false, some, ◌≡◌, refl, ap, Text, if◌then◌else◌, text_eq, text_eq_iff, Bool-cases, inl, inr,
  text_eq_refl,
}
use auger.Bson.{Bson, Document, end, entry, Insertion, get}

-- An ordered document: a key that is there keeps its place.
unfoldable pub insert : Document → Text → Bson → Document
insert end k v = entry k v end
insert (entry j w d) k v = if text_eq j k then entry j v d else entry j w (insert d k v)

pub get-insert_self : (d : Document) (k : Text) (v : Bson) → get (insert d k v) k ≡ some v
unfolding get insert
get-insert_self end k v = rw (text_eq_refl k) refl
get-insert_self (entry j w d) k v = elim (Bool-cases (text_eq j k)) [
  | inl e ↦ rw e (rw e refl)
  | inr e ↦ rw e (rw e (get-insert_self d k v))
]

pub get-insert_ne :
    (d : Document) (k j : Text) (v : Bson) → text_eq k j ≡ false → get (insert d k v) j ≡ get d j
unfolding get insert
get-insert_ne end k j v h = rw h refl
get-insert_ne (entry i w d) k j v h = elim (Bool-cases (text_eq i k)) [
  | inl e ↦ let s = (text_eq_iff i k).0 e in rw e (rw (s, h) refl)
  | inr e ↦ rw e (ap (λ r. if text_eq i j then some w else r) (get-insert_ne d k j v h))
]

abbrev pub docs : Insertion
docs = record { insert = insert; get-insert_self = get-insert_self; get-insert_ne = get-insert_ne }
