-- ===== src/Http/Gate.antt =====
-- http/mod.rs, `query`: which statements reach the engine.
use auger.Base.{
  ℕ, ◌+◌, Bool, true, false, not, [], Option, none, some, ◌≡◌, ◌↔◌, refl, sym, ap, subst, Text,
  text_eq, if◌then◌else◌, inl, inr,
}
use auger.Base.Results.{ok, err, Result-cases, err-ne-ok, ok_injective}
use auger.Config.{ServerConfig}
use auger.Whitespace.{trim}
use auger.Http.{
  ApiError, QueryRequest, Outcome, gate, query, strip_semicolon, has_semicolon, is_read_only,
  cap_of, is_bounded, timeout_of, response,
}

-- A statement that may be run: not empty, a single one, and one that reads.
pub record IsSafe (sql : Text) : Type 0 where
  pub some_text : text_eq sql [] ≡ false
  pub single : has_semicolon sql ≡ false
  pub reads : is_read_only sql ≡ true

-- The tests of the gate, in their order.
choice_iff :
    (enabled empty many reads : Bool) (e1 e2 e3 e4 : ApiError) (s sql : Text)
    → ((if not enabled
          then err e1
          else if empty
          then err e2
          else if many
          then err e3
          else if reads
          then ok s
          else err e4)
        ≡ ok sql)
      ↔ ((enabled ≡ true) × (empty ≡ false) × (many ≡ false) × (reads ≡ true) × (sql ≡ s))
choice_iff false b c d e1 e2 e3 e4 s sql = (λ h. absurd (err-ne-ok h), λ (a, x, y, z, e). absurd cc)
choice_iff true true c d e1 e2 e3 e4 s sql =
    (λ h. absurd (err-ne-ok h), λ (a, x, y, z, e). absurd cc)
choice_iff true false true d e1 e2 e3 e4 s sql =
    (λ h. absurd (err-ne-ok h), λ (a, x, y, z, e). absurd cc)
choice_iff true false false false e1 e2 e3 e4 s sql =
    (λ h. absurd (err-ne-ok h), λ (a, x, y, z, e). absurd cc)
choice_iff true false false true e1 e2 e3 e4 s sql =
    (λ h. (refl, refl, refl, refl, sym (ok_injective h)), λ (a, b, c, d, e). ap ok (sym e))

-- The gate lets a statement through exactly if the console is enabled and the statement, without the
-- blanks around it and one semicolon at its end, is safe; and it is that which is run.
gate_iff :
    (enabled : Bool) (text sql : Text)
    → (gate enabled text ≡ ok sql)
      ↔ ((enabled ≡ true) × (sql ≡ trim (strip_semicolon (trim text))) × IsSafe sql)
unfolding gate
gate_iff enabled text sql =
    let s = trim (strip_semicolon (trim text)) in
    let (to, from) =
      choice_iff enabled (text_eq s []) (has_semicolon s) (is_read_only s) _ _ _ _ s sql in
    (
      λ h.
          let (on, some_text, single, reads, same) = to h in
          let safe : IsSafe s = record { some_text = some_text; single = single; reads = reads } in
          (on, same, subst IsSafe (sym same) safe),
      λ (on, same, safe).
          let safe' : IsSafe s = subst IsSafe same safe in
          from (on, safe'.some_text, safe'.single, safe'.reads, same),
    )

-- Whatever is asked, the engine is only ever given safe statements: two engines that agree on those
-- cannot be told apart.
pub query-IsSafe :
    (run run' : Text → Option ℕ → ℕ → Outcome) (config : ServerConfig) (req : QueryRequest)
    → ((sql : Text) (limit : Option ℕ) (timeout : ℕ)
        → IsSafe sql
        → run sql limit timeout ≡ run' sql limit timeout)
    → query run config req ≡ query run' config req
unfolding query
query-IsSafe run run' config req agree = elim (Result-cases (gate config.http_query req.sql)) [
  | inl (sql, passed) ↦
      let (enabled, same, safe) = (gate_iff config.http_query req.sql sql).0 passed in
      rw (passed) (
        ap (response (cap_of req.limit) (timeout_of config)) (
          agree sql (if is_bounded sql then some (cap_of req.limit + 1) else none)
            (timeout_of config) safe))
  | inr (e, refused) ↦ rw (refused) refl
]
