-- ===== src/Store/Lookup.antt =====
-- catalog/store.rs: what is found under a key, how long it is fresh, and which tables a database has.
use auger.Base.{
  ℕ, ◌-◌, Bool, true, false, [], ◌∷◌, ◌++◌, Option, none, some, ◌≡◌, ◌↔◌, refl, sym, ◌∙◌, ap, Text,
  if◌then◌else◌, ◌==◌, leb, text_eq, text_eq_iff, arith, Bool-cases, inl, inr, then_some,
  text_eq_refl, append_assoc, In, here, there,
}
use auger.Arrow.{Schema}
use auger.Store.{
  Map, CachedTable, CollectionStats, CatalogStore, Serde, lookup, insert, persist, put, write_file,
  get, get_fresh, key, strip_prefix, known, known_tables,
}

pub lookup-insert {ℓ} :
    {A : Type ℓ} (m : Map A) (k j : Text) (a : A)
    → lookup (insert m k a) j ≡ (if text_eq k j then some a else lookup m j)
unfolding lookup insert
lookup-insert [] k j a = refl
lookup-insert ((i, b) ∷ m) k j a =
    ground (arith, text_eq_iff k j, text_eq_iff i k, text_eq_iff i j, lookup-insert m k j a)

write_file-tables :
    {J : Type 0} (p : Option Text) (json : Option J) (w : Bool) (s : CatalogStore J)
    → (write_file p json w s).tables ≡ s.tables
unfolding write_file
write_file-tables (some p) (some json) true s = refl
write_file-tables _ _ _ s = refl

persist-tables :
    (serde : Serde) (w : Bool) (s : CatalogStore serde.Json) → (persist serde w s).tables ≡ s.tables
unfolding persist
persist-tables serde w s = write_file-tables s.path _ w s

module _ (serde : Serde) where
  -- After `put`, its key holds the new entry, stamped with the time, and every other key what it held.
  pub get-put :
      (now : ℕ) (writes : Bool) (s : CatalogStore serde.Json) (k j : Text) (schema : Schema)
      (stats : CollectionStats)
      → get (put serde now writes s k schema stats).1 j
        ≡ (if text_eq k j then some (put serde now writes s k schema stats).0 else get s j)
  unfolding get put
  get-put now writes s k j schema stats =
      ap (λ m. lookup m j) (persist-tables serde writes _) ∙ lookup-insert s.tables k j _

  -- An entry is served for as long as its age does not exceed the limit, for ever under the limit 0.
  pub get_fresh-put :
      (now later max_age : ℕ) (writes : Bool) (s : CatalogStore serde.Json) (k : Text)
      (schema : Schema) (stats : CollectionStats)
      → get_fresh later (put serde now writes s k schema stats).1 k max_age ≡ (
          if max_age == 0
          then some (put serde now writes s k schema stats).0
          else then_some (leb (later - now) max_age) (put serde now writes s k schema stats).0)
  unfolding get_fresh put
  get_fresh-put now later max_age writes s k schema stats =
      rw (get-put now writes s k k schema stats, text_eq_refl k) refl

strip_prefix_iff : (k p c : Text) → (strip_prefix k p ≡ some c) ↔ (k ≡ p ++ c)
unfolding strip_prefix
strip_prefix_iff k [] c = ground arith
strip_prefix_iff [] (y ∷ p) c = ground arith
strip_prefix_iff (x ∷ k) (y ∷ p) c = ground (arith, strip_prefix_iff k p c)

true-false : true ≡ false → ⊥
true-false h = cc

known-In :
    (m : Map CachedTable) (p c : Text)
    → In c (known m p)
    → (t : CachedTable) × (lookup m (p ++ c) ≡ some t)
unfolding known lookup
known-In [] p c i = elim i [ ]
known-In ((j, t) ∷ m) p c i = elim (Bool-cases (text_eq j (p ++ c))) [
  | inl same ↦ (t, rw same refl)
  | inr other ↦ rw other (known-In m p c (later other (strip_prefix j p) refl i))
]
  where
    later :
        text_eq j (p ++ c) ≡ false
        → (o : Option Text) → strip_prefix j p ≡ o
        → In c (elim o [ none ↦ known m p | some c ↦ c ∷ known m p ])
        → In c (known m p)
    later f none e i = i
    later f (some d) e (here s) =
        let k : j ≡ p ++ c = (strip_prefix_iff j p c).0 (e ∙ ap some s) in
        absurd (true-false (sym ((text_eq_iff j (p ++ c)).1 k) ∙ f))
    later f (some d) e (there i) = i

In-known :
    (m : Map CachedTable) (p c : Text) (t : CachedTable)
    → lookup m (p ++ c) ≡ some t
    → In c (known m p)
unfolding known lookup
In-known [] p c t h = absurd cc
In-known ((j, u) ∷ m) p c t h = elim (Bool-cases (text_eq j (p ++ c))) [
  | inl same ↦
      let e = (strip_prefix_iff j p c).1 ((text_eq_iff j (p ++ c)).0 same) in
      rw (e, known) (here refl)
  | inr other ↦ kept (strip_prefix j p) (In-known m p c t (rw other at h))
]
  where
    kept :
        (o : Option Text)
        → In c (known m p)
        → In c (elim o [ none ↦ known m p | some c ↦ c ∷ known m p ])
    kept none i = i
    kept (some d) i = there i

-- The tables that are listed for a database are those that a lookup under their key finds.
pub known_tables_iff :
    {J : Type 0} (s : CatalogStore J) (db c : Text)
    → In c (known_tables s db) ↔ ((t : CachedTable) × (get s (key db c) ≡ some t))
unfolding known_tables get key
known_tables_iff s db c =
    let e : (db ++ (b'.' ∷ [])) ++ c ≡ db ++ (b'.' ∷ c) = append_assoc db (b'.' ∷ []) c in
    (
      λ i. let (t, h) = known-In s.tables _ c i in (t, ap (lookup s.tables) (sym e) ∙ h),
      λ (t, h). In-known s.tables _ c t (ap (lookup s.tables) e ∙ h),
    )
