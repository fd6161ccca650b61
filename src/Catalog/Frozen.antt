-- ===== src/Catalog/Frozen.antt =====
-- catalog/provider.rs: schemas that are registered, tables whose schema is frozen, and what a failure
-- leaves behind.
use auger.Base.{
  ℕ, ◌-◌, Bool, true, ◌||◌, none, some, ◌≡◌, refl, ◌∙◌, ap, Text, if◌then◌else◌, ◌==◌, leb, text_eq,
  then_some, arith, Bool-cases, inl, inr,
}
use auger.Base.Results.{ok, err, Result-cases, ok-ne-err, err-ne-ok}
use auger.Errors.{DataFusionError, Result}
use auger.Config.{Config}
use auger.Driver.{Driver}
use auger.Infer.Schema.{Floats}
use auger.Client.{Numbers, infer_schema, stats}
use auger.Arrow.{Schema}
use auger.Base.Results
use auger.Store.{CatalogStore, CachedTable, Serde, key, get_fresh, put}
use auger.Store.Lookup.{lookup-insert, get_fresh-put}
use auger.Catalog.{
  MongoCatalog, registered, schema, register_schema, entry_of, table, resolve, refresh, found,
}

-- A schema that is registered is found under its name, whether or not a database has the same name, and
-- every other name finds what it found before.
pub schema-register_schema :
    {Json S : Type 0} (c : MongoCatalog Json S) (name other : Text) (s : S)
    → schema (register_schema c name s).1 other
      ≡ (if text_eq name other then some (registered s) else schema c other)
unfolding schema register_schema
schema-register_schema c name other s =
    rw (lookup-insert c.extra name other s, schema) (ground arith)

-- A fresh entry is served as it is, by any state of the server.
entry_of-fresh :
    {S : Type 0} (driver : Driver) (config : Config) (numbers : Numbers) (floats : Floats)
    (serde : Serde) (now : ℕ) (writes : Bool) (c : MongoCatalog serde.Json S) (db name : Text)
    (e : CachedTable)
    → get_fresh now c.store (key db name) config.catalog.refresh_interval_secs ≡ some e
    → entry_of driver config numbers floats serde now writes c db name ≡ (ok e, c)
unfolding entry_of
entry_of-fresh driver config numbers floats serde now writes c db name e fresh =
    rw (fresh, entry_of) refl

module _ (S : Type 0) (driver : Driver) (config : Config) (numbers : Numbers) (floats : Floats)
    (serde : Serde) where
  abbrev Catalog : Type 0
  Catalog = MongoCatalog serde.Json S

  abbrev Entry : ℕ → Bool → Catalog → Text → Text → Result CachedTable × Catalog
  Entry now writes = entry_of driver config numbers floats serde now writes

  abbrev ttl : ℕ
  ttl = config.catalog.refresh_interval_secs

  sample : Text → Text → Results.Result Text Schema
  sample db name = infer_schema driver config.mongo numbers floats db name config.catalog

  abbrev putting : ℕ → Bool → Catalog → Text → Text → Schema → CachedTable × CatalogStore serde.Json
  putting now writes c db name s =
      put serde now writes c.store (key db name) s (stats driver config.mongo numbers db name)

  -- What an entry that is not fresh is replaced by.
  entry_of-stale :
      (now : ℕ) (writes : Bool) (c : Catalog) (db name : Text) (s : Schema)
      → get_fresh now c.store (key db name) ttl ≡ none
      → sample db name ≡ ok s
      → Entry now writes c db name ≡ (
        ok (putting now writes c db name s).0,
        record c { store = (putting now writes c db name s).1 },
      )
  unfolding entry_of sample
  entry_of-stale now writes c db name s stale h = rw (stale, entry_of) (rw (h) refl)

  fresh_if_young :
      (age : ℕ) (e : CachedTable)
      → ((ttl == 0) || leb age ttl) ≡ true
      → (if ttl == 0 then some e else then_some (leb age ttl) e) ≡ some e
  fresh_if_young age e young = ground arith

  -- A table that has just been sampled keeps its schema and its statistics for as long as its age does
  -- not exceed the refresh interval, for ever if that is 0, whatever the driver, and so the server behind
  -- it, answers by then (`driver'`); serving it changes nothing.
  pub entry_of-frozen :
      (driver' : Driver) (now later : ℕ) (writes writes' : Bool) (c : Catalog) (db name : Text)
      (s : Schema)
      → get_fresh now c.store (key db name) ttl ≡ none
      → infer_schema driver config.mongo numbers floats db name config.catalog ≡ ok s
      → ((ttl == 0) || leb (later - now) ttl) ≡ true
      → (e : CachedTable) × ((Entry now writes c db name).0 ≡ ok e)
        × (e.schema ≡ s)
        × (entry_of driver' config numbers floats serde later writes'
              (Entry now writes c db name).1
              db
              name
            ≡ (ok e, (Entry now writes c db name).1))
  unfolding sample put
  entry_of-frozen driver' now later writes writes' c db name s stale h young =
      let (e, store) = putting now writes c db name s in
      (
        e,
        ap (λ r. r.0) (entry_of-stale now writes c db name s stale h),
        refl,
        rw (entry_of-stale now writes c db name s stale h) (
            entry_of-fresh driver' config numbers floats serde later writes'
              (record c { store = store }) db name e
              (get_fresh-put serde now later ttl writes c.store (key db name) s _
                ∙ fresh_if_young (later - now) e young)),
      )

  entry_of-fails :
      (now : ℕ) (writes : Bool) (c : Catalog) (db name : Text) (e : DataFusionError)
      → (Entry now writes c db name).0 ≡ err e
      → (Entry now writes c db name).1 ≡ c
  unfolding entry_of
  entry_of-fails now writes c db name e h = ground arith

  resolve-store :
      (c : Catalog) (db name : Text) → (resolve driver config c db name).1.store ≡ c.store
  unfolding resolve refresh
  resolve-store c db name = ground arith

  found-err :
      (db name : Text) (r : Result CachedTable) (e : DataFusionError)
      → found config db name r ≡ err e
      → r ≡ err e
  found-err db name (ok entry) e h = absurd (ok-ne-err h)
  found-err db name (err d) e h = cc

  -- Where resolving a table is an error, the store, and with it every other table, is as it was.
  pub table-fails :
      (now : ℕ) (writes : Bool) (c : Catalog) (db name : Text) (e : DataFusionError)
      → (table driver config numbers floats serde now writes c db name).0 ≡ err e
      → (table driver config numbers floats serde now writes c db name).1.store ≡ c.store
  unfolding table
  table-fails now writes c db name e h = elim (Bool-cases (resolve driver config c db name).0) [
    | inl there_is ↦
        let c' = (resolve driver config c db name).1 in
        let k = found-err db name (Entry now writes c' db name).0 e (rw there_is at h) in
        rw (there_is) (
          ap (λ (m : Catalog). m.store) (entry_of-fails now writes c' db name e k)
          ∙ resolve-store c db name)
    | inr nowhere ↦ rw (nowhere) (resolve-store c db name)
  ]
