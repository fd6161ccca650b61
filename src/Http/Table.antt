-- ===== src/Http/Table.antt =====
-- http/mod.rs, `table`: the entry that is shown of a table, against the one that `entry_of` of
-- catalog/provider.rs gives a query.
use auger.Base.{
  ℕ, Bool, true, false, not, Option, none, some, ◌≡◌, refl, Text, codes, ◌++◌, if◌then◌else◌,
  Option-cases, ◌⊎◌, inl, inr,
}
use auger.Base.Results.{Result, ok, err, Result-cases}
use auger.Arrow.{DataType}
use auger.Config.{Config}
use auger.Driver.{Driver}
use auger.Infer.Schema.{Floats}
use auger.Client.{Numbers, infer_schema, stats}
use auger.Store.{CachedTable, Serde, key, get_fresh, put}
use auger.Catalog.{MongoCatalog, contains, entry_of, inferring}
use auger.Http.{ApiError, api_error}
use auger.Http.Pages.{Value, table_json}

abbrev pub no_database : Text → ApiError
no_database db = api_error 404 (codes "no such database: " ++ db)

abbrev pub bad_gateway : Text → Text → ApiError
bad_gateway k e = api_error 502 (codes "inferring " ++ (k ++ (codes ": " ++ e)))

-- `if q.refresh { None } else { entry }`
abbrev pub unless {ℓ} : {A : Type ℓ} → Bool → Option A → Option A
unless true entry = none
unless false entry = entry

abbrev pub page :
    (DataType → Text) → Text → Text → Result ApiError CachedTable → Result ApiError Value
page show_type db name (ok entry) = ok (table_json show_type db name entry)
page show_type db name (err e) = err e

module _ {S : Type 0} (driver : Driver) (config : Config) (numbers : Numbers) (floats : Floats)
    (serde : Serde) (now : ℕ) (writes : Bool) where
  open serde use {Json}

  unfoldable pub shown_entry :
      Bool → MongoCatalog Json S → Text → Text → Result ApiError CachedTable × MongoCatalog Json S
  shown_entry refresh c db name =
      let k = key db name in
      elim (unless refresh (get_fresh now c.store k config.catalog.refresh_interval_secs)) [
        | some entry ↦ (ok entry, c)
        | none ↦ elim (infer_schema driver config.mongo numbers floats db name config.catalog) [
          | err e ↦ (err (bad_gateway k e), c)
          | ok inferred ↦
              let (entry, store) =
                put serde now writes c.store k inferred
                  (stats driver config.mongo numbers db name) in
              (ok entry, record c { store = store })
        ]
      ]

  unfoldable pub table :
      (DataType → Text)
      → Bool
      → MongoCatalog Json S
      → Text
      → Text
      → Result ApiError Value × MongoCatalog Json S
  unfolding shown_entry table_json
  table show_type refresh c db name =
      let (entry, c') = shown_entry refresh c db name in
      if not (contains c.databases db)
      then (err (no_database db), c)
      else (page show_type db name entry, c')

module _ (S : Type 0) (driver : Driver) (config : Config) (numbers : Numbers) (floats : Floats)
    (serde : Serde) (now : ℕ) (writes : Bool) where
  -- Without a refresh, the page shows the very entry that a query on a collection which is found is
  -- planned with (`entry_of`), fails where that entry cannot be had, with a text of its own, and leaves
  -- the same catalog behind. Whether the collection is listed is not looked at here.
  pub shown_entry-entry_of :
      (c : MongoCatalog serde.Json S) (db name : Text)
      → ((e : CachedTable) × (shown_entry driver config numbers floats serde now writes false c db
              name
            ≡ (ok e, (entry_of driver config numbers floats serde now writes c db name).1))
          × ((entry_of driver config numbers floats serde now writes c db name).0 ≡ ok e))
        ⊎ ((e : Text) × (shown_entry driver config numbers floats serde now writes false c db name
              ≡ (err (bad_gateway (key db name) e), c))
            × (entry_of driver config numbers floats serde now writes c db name
                ≡ (err (inferring (key db name) e), c)))
  unfolding shown_entry entry_of
  shown_entry-entry_of c db name =
      elim (Option-cases
        (get_fresh now c.store (key db name) config.catalog.refresh_interval_secs)) [
          | inr (e, fresh) ↦
              inl (e, rw (fresh, shown_entry, entry_of) refl, rw (fresh, entry_of) refl)
          | inl stale ↦
              elim (Result-cases
                (infer_schema driver config.mongo numbers floats db name config.catalog)) [
                  | inl (s, h) ↦ inl (
                    (put serde now writes c.store (key db name) s
                        (stats driver config.mongo numbers db name)).0,
                    rw (stale, shown_entry, entry_of) (rw (h) refl),
                    rw (stale, entry_of) (rw (h) refl),
                  )
                  | inr (e, h) ↦
                      inr (
                        e,
                        rw (stale, shown_entry) (rw (h) refl),
                        rw (stale, entry_of) (rw (h) refl),
                      )
                ]
        ]
