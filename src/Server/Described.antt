-- ===== src/Server/Described.antt =====
-- server/mod.rs: what the extended protocol says of a portal before and after it runs.
use auger.Base.{ℕ, Bool-cases, inl, inr, List, [], Option, none, some, ◌≡◌, sym, ◌∙◌, ap, Text, ltb}
use auger.Base.Results.{Result, ok, err, >>=-eq-ok, ok_injective, err-ne-ok, map_err}
use auger.Config.{ServerConfig}
use auger.Server.Compat.{Intercepted, tag, rewritten, intercept}
use auger.Server.Values.{FieldInfo, field_infos}
use auger.Server.Handler.{
  Engine, ErrorInfo, Response, execution, rows_of, empty_query, run, run_sql, describe,
  describe_sql, do_describe_portal, do_query_portal, planning_error, execution_error,
}

-- The columns that a response announces.
abbrev pub fields_of : Response → List FieldInfo
fields_of (execution t) = []
fields_of (rows_of fields rows) = fields
fields_of empty_query = []

map_err-eq-ok :
    {A : Type 0} (f : Text → ErrorInfo) (r : Result Text A) {a : A} → map_err f r ≡ ok a → r ≡ ok a
map_err-eq-ok f (ok x) h = ap ok (ok_injective h)
map_err-eq-ok f (err e) h = absurd (err-ne-ok h)

module _ (engine : Engine) (config : ServerConfig) where
  open engine use {Plan, sql, create_logical_plan, schema, is_alphanumeric}

  -- `ctx.sql` plans a statement as `create_logical_plan` does, as far as its columns go.
  abbrev pub PlansAlike : Type 0
  PlansAlike =
      (text : Text) (p p' : Plan)
      → create_logical_plan text ≡ ok p
      → sql text ≡ ok p'
      → schema p ≡ schema p'

  fields_of-run_sql :
      PlansAlike
      → (format_for : ℕ → ℕ) (text : Text) {r : Response} {fields : List FieldInfo}
      → describe_sql engine config format_for text ≡ ok fields
      → run_sql engine config format_for text ≡ ok r
      → fields_of r ≡ fields
  unfolding run_sql describe_sql
  fields_of-run_sql alike format_for text d h =
      let (p, ep, ef) = >>=-eq-ok (map_err planning_error (create_logical_plan text)) _ d in
      let (p', ep', h') = >>=-eq-ok (map_err planning_error (sql text)) _ h in
      let (stream, es, er) = >>=-eq-ok (map_err execution_error (engine.execute_stream p')) _ h' in
      ap fields_of (sym (ok_injective er))
      ∙ ap (field_infos format_for 0) (
          sym (
            alike text p p' (map_err-eq-ok planning_error _ ep)
              (map_err-eq-ok planning_error _ ep')))
      ∙ ok_injective ef

  fields_of-run :
      PlansAlike
      → (format_for : ℕ → ℕ) (text : Text) {r : Response} {fields : List FieldInfo}
      → describe engine config format_for text ≡ ok fields
      → run engine config format_for text ≡ ok r
      → fields_of r ≡ fields
  unfolding run describe
  fields_of-run alike format_for text {r} {fields} = go (intercept is_alphanumeric text)
    where
      go :
          (i : Option Intercepted)
          → (elim i [
            | some (tag t) ↦ ok []
            | some (rewritten s) ↦ describe_sql engine config format_for s
            | none ↦ describe_sql engine config format_for text
          ])
            ≡ ok fields
          → (elim i [
            | some (tag t) ↦ ok (execution t)
            | some (rewritten s) ↦ run_sql engine config format_for s
            | none ↦ run_sql engine config format_for text
          ])
            ≡ ok r
          → fields_of r ≡ fields
      go none d h = fields_of-run_sql alike format_for text d h
      go (some (tag t)) d h = ap fields_of (sym (ok_injective h)) ∙ ok_injective d
      go (some (rewritten s)) d h = fields_of-run_sql alike format_for s d h

  -- If the engine gives a statement the same columns whether it is described or run, then the
  -- columns that a response to a portal announces are those that the description of this portal
  -- announced, when neither fails.
  pub fields_of-do_query_portal :
      PlansAlike
      → (statement : Text) (parameters : ℕ) (format_for : ℕ → ℕ) {r : Response}
        {fields : List FieldInfo}
      → do_describe_portal engine config statement format_for ≡ ok fields
      → do_query_portal engine config statement parameters format_for ≡ ok r
      → fields_of r ≡ fields
  unfolding do_describe_portal do_query_portal
  fields_of-do_query_portal alike statement parameters format_for d h =
      elim (Bool-cases (ltb 0 parameters)) [
        | inl bound ↦ absurd (err-ne-ok (rw (bound) at h))
        | inr unbound ↦ fields_of-run alike format_for statement d (rw (unbound) at h)
      ]
