-- ===== src/Http/Tests.antt =====
-- Examples for http/mod.rs: tests and witnesses.
use auger.Base.{
  ℕ, ◌≤◌, min, true, false, [], ◌∷◌, Option, none, some, ◌≡◌, ◌⊎◌, refl, Text, codes, take, ltb,
  text_eq, ascii_upper, if◌then◌else◌,
}
use auger.Base.Results.{ok, err}
use auger.Config.{Config, default_config}
use auger.Whitespace.{trim}
use auger.Store.{CachedTable, StoredCatalog, key}
use auger.Store.Toy.{serde}
use auger.Client.Toy.{driver, cfg, numbers, floats}
use auger.Catalog.{MongoCatalog, entry_of, inferring}
use auger.Http.{
  QueryResponse, Outcome, failed, has_semicolon, gate, query, response, cap_of, batches,
  strip_semicolon, head_of, bad_request,
}
use auger.Http.Gate.{IsSafe, query-IsSafe}
use auger.Http.Rows.{response-rows, all_rows}
use auger.Http.Table.{shown_entry, shown_entry-entry_of, bad_gateway}
use auger.Http.Toy.{run, console, req, three, rows_1, rows_2}

passed-gate : gate true (codes " select 1; ") ≡ ok (codes "select 1")
unfolding gate trim strip_semicolon head_of text_eq ascii_upper
passed-gate = refl

two-gate : gate true (codes "select 1; drop") ≡ err (bad_request (codes "one statement at a time"))
unfolding gate trim strip_semicolon head_of text_eq ascii_upper
two-gate = refl

-- An engine that gives everything away when it gets two statements.
abbrev exploited : Text → Option ℕ → ℕ → Outcome
exploited sql limit timeout = if has_semicolon sql then failed (codes "secret") else batches three

exploited-safe :
    (sql : Text) (limit : Option ℕ) (timeout : ℕ)
    → IsSafe sql
    → run sql limit timeout ≡ exploited sql limit timeout
exploited-safe sql limit timeout safe = rw (safe.single) refl

query-IsSafe_example : query run console req ≡ query exploited console req
query-IsSafe_example = query-IsSafe run exploited console req exploited-safe

response-rows_example :
    (r : QueryResponse) × (response (cap_of (some 2)) 30 (batches three) ≡ ok r)
    × (r.rows ≡ take (cap_of (some 2)) (all_rows (rows_1 ∷ rows_2 ∷ [])))
    × (r.truncated ≡ ltb (cap_of (some 2)) 3)
    × (r.row_count ≡ min (cap_of (some 2)) 3)
    × (1 ≤ cap_of (some 2))
    × (cap_of (some 2) ≤ 10000)
response-rows_example = response-rows (some 2) 30 three (rows_1 ∷ rows_2 ∷ []) (refl, (refl, tt))

abbrev config : Config
config = record default_config { mongo = cfg }

abbrev empty : MongoCatalog StoredCatalog Text
empty = record {
  databases = codes "shop" ∷ [];
  listings = [];
  extra = [];
  store = record { path = none; tables = []; file = none };
}

shown_entry-entry_of_example :
    ((e : CachedTable) × (shown_entry driver config numbers floats serde 5 true false empty
          (codes "shop")
          (codes "orders")
        ≡ (
          ok e,
          (entry_of driver config numbers floats serde 5 true empty
              (codes "shop")
              (codes "orders")).1,
        ))
      × ((entry_of driver config numbers floats serde 5 true empty
            (codes "shop")
            (codes "orders")).0
          ≡ ok e))
    ⊎ ((e : Text) × (shown_entry driver config numbers floats serde 5 true false empty
            (codes "shop")
            (codes "orders")
          ≡ (err (bad_gateway (key (codes "shop") (codes "orders")) e), empty))
        × (entry_of driver config numbers floats serde 5 true empty (codes "shop") (codes "orders")
            ≡ (err (inferring (key (codes "shop") (codes "orders")) e), empty)))
shown_entry-entry_of_example =
    shown_entry-entry_of Text driver config numbers floats serde 5 true empty (codes "shop")
      (codes "orders")
