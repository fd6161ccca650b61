-- ===== src/Server/Handler.antt =====
-- server/mod.rs: what a client's message is answered with. The engine and the wire encoder are
-- parameters; a stream of batches comes with the time at which each is handled.
use auger.Base.{
  ℕ, ◌+◌, Bool, false, ◌&&◌, List, [], ◌∷◌, ◌++◌, map, Option, none, some, Text, codes,
  if◌then◌else◌, ltb,
}
use auger.Base.Results.{Result, ok, err, ◌>>=◌, map_err}
use auger.Arrow.{Schema}
use auger.Config.{ServerConfig, AuthMode}
use auger.Store.{lookup}
use auger.Server.Compat.{tag, rewritten, intercept, contains}
use auger.Server.Split.{split_statements}
use auger.Server.Values.{FieldInfo, field_infos, Display, Sent, RecordBatch, encode_batch}

pub record ErrorInfo : Type 0 where
  pub severity : Text
  pub code : Text
  pub message : Text

abbrev pub error : Text → Text → ErrorInfo
error code message = record { severity = codes "ERROR"; code = code; message = message }

-- 42P01 for a table that is not found, 42601 for anything else.
unfoldable pub planning_error : Text → ErrorInfo
unfolding contains
planning_error message =
    if contains message (codes "table") && contains message (codes "not found")
    then error (codes "42P01") message
    else error (codes "42601") message

abbrev pub execution_error : Text → ErrorInfo
execution_error message = error (codes "58000") message

abbrev pub canceled : ErrorInfo
canceled = error (codes "57014") (codes "canceled: statement timeout exceeded")

abbrev pub no_parameters : ErrorInfo
no_parameters =
    error (codes "0A000")
      (codes "bound parameters are not supported yet; send the statement with literals")

abbrev pub Row : Type 0
Row = List (List ℕ)

pub data Response : Type 0 where
  execution : Text → Response
  rows_of : List FieldInfo → List (Result ErrorInfo Row) → Response
  empty_query : Response

-- A batch, or the error of the engine, and when it is handled.
abbrev pub Timed : Type 0
Timed = ℕ × Result Text RecordBatch

pub record Engine : Type 1 where
  pub Plan : Type 0
  -- `ctx.sql`, and the plan of a statement that is only described
  pub sql : Text → Result Text Plan
  pub create_logical_plan : Text → Result Text Plan
  pub schema : Plan → Schema
  pub execute_stream : Plan → Result Text (List Timed)
  pub encode_field : List FieldInfo → ℕ → Sent → Result ErrorInfo (List ℕ)
  pub display : Display
  pub is_alphanumeric : ℕ → Bool
  -- When the statement starts to stream.
  pub started : ℕ

abbrev pub is_late : Option ℕ → ℕ → Bool
is_late none now = false
is_late (some deadline) now = ltb deadline now

-- The passwords of `md5` and `scram`; `hash` is `hash_md5_password`.
abbrev pub failed_for : Text → ErrorInfo
failed_for user = record {
  severity = codes "FATAL";
  code = codes "28P01";
  message = codes "password authentication failed for user \"" ++ (user ++ codes "\"");
}

abbrev pub or_empty : Option Text → Text
or_empty none = []
or_empty (some u) = u

abbrev pub salt : List ℕ
salt = 0 ∷ 0 ∷ 0 ∷ 0 ∷ []

unfoldable pub get_password :
    (Text → Text → List ℕ → Text) → ServerConfig → Option Text → Result ErrorInfo (List ℕ × Text)
unfolding lookup
get_password hash config login =
    let user = or_empty login in
    elim (lookup config.users user) [
      | none ↦ err (failed_for user)
      | some password ↦ ok (salt, hash user password salt)
    ]

pub data StartupVariant : Type 0 where
  trust md5 : StartupVariant

unfoldable pub startup_handler : ServerConfig → StartupVariant
startup_handler config = elim config.auth [
  | AuthMode.trust ↦ StartupVariant.trust
  | AuthMode.md5 ↦ StartupVariant.md5
  | AuthMode.scram ↦ StartupVariant.md5
]

abbrev pub or_empty_query : List Response → List Response
or_empty_query [] = empty_query ∷ []
or_empty_query (r ∷ rs) = r ∷ rs

abbrev pub or_unknown {ℓ} : {T : Type ℓ} → T → Option T → T
or_unknown unknown none = unknown
or_unknown unknown (some t) = t

module _ (engine : Engine) (config : ServerConfig) where
  open engine use {
    Plan, sql, create_logical_plan, schema, execute_stream, encode_field, display, is_alphanumeric,
    started,
  }

  abbrev pub encoded : List FieldInfo → Result Text RecordBatch → List (Result ErrorInfo Row)
  encoded fields (err e) = err (execution_error e) ∷ []
  encoded fields (ok batch) = elim (encode_batch display encode_field batch fields) [
    | ok rows ↦ map ok rows
    | err e ↦ err e ∷ []
  ]

  abbrev pub deadline : Option ℕ
  deadline =
      if ltb 0 config.statement_timeout_secs
      then some (started + config.statement_timeout_secs)
      else none

  -- What one batch gives, and the rows of all of them.
  unfoldable pub rows_of_batch : List FieldInfo → Timed → List (Result ErrorInfo Row)
  unfolding encode_batch
  rows_of_batch fields (now, result) =
      if is_late deadline now then err canceled ∷ [] else encoded fields result

  unfoldable pub to_row_stream : List FieldInfo → List Timed → List (Result ErrorInfo Row)
  unfolding rows_of_batch
  to_row_stream fields [] = []
  to_row_stream fields (b ∷ bs) = rows_of_batch fields b ++ to_row_stream fields bs

  unfoldable pub run_sql : (ℕ → ℕ) → Text → Result ErrorInfo Response
  unfolding to_row_stream planning_error field_infos
  run_sql format_for text = map_err planning_error (sql text) >>= λ plan.
      let fields = field_infos format_for 0 (schema plan) in
      map_err execution_error (execute_stream plan) >>= λ stream.
      ok (rows_of fields (to_row_stream fields stream))

  unfoldable pub run : (ℕ → ℕ) → Text → Result ErrorInfo Response
  unfolding intercept run_sql
  run format_for text = elim (intercept is_alphanumeric text) [
    | some (tag t) ↦ ok (execution t)
    | some (rewritten r) ↦ run_sql format_for r
    | none ↦ run_sql format_for text
  ]

  unfoldable pub describe_sql : (ℕ → ℕ) → Text → Result ErrorInfo (List FieldInfo)
  unfolding planning_error field_infos
  describe_sql format_for text = map_err planning_error (create_logical_plan text) >>= λ plan.
      ok (field_infos format_for 0 (schema plan))

  unfoldable pub describe : (ℕ → ℕ) → Text → Result ErrorInfo (List FieldInfo)
  unfolding intercept describe_sql
  describe format_for text = elim (intercept is_alphanumeric text) [
    | some (tag t) ↦ ok []
    | some (rewritten r) ↦ describe_sql format_for r
    | none ↦ describe_sql format_for text
  ]

  -- The loop of the simple protocol, which the first error ends; every column is text.
  unfoldable pub run_all : List Text → Result ErrorInfo (List Response)
  unfolding run
  run_all [] = ok []
  run_all (s ∷ ss) = run (λ i. 0) s >>= λ r. run_all ss >>= λ rs. ok (r ∷ rs)

  unfoldable pub do_query : Text → Result ErrorInfo (List Response)
  unfolding run_all split_statements
  do_query query = run_all (split_statements query) >>= λ rs. ok (or_empty_query rs)

  -- A portal of the extended protocol: a statement, how many parameters are bound, and its formats.
  unfoldable pub do_query_portal : Text → ℕ → (ℕ → ℕ) → Result ErrorInfo Response
  unfolding run
  do_query_portal statement parameters format_for =
      if ltb 0 parameters then err no_parameters else run format_for statement

  -- The types of a statement's parameters, of which an unknown one is announced as UNKNOWN, and the
  -- columns in binary.
  unfoldable pub do_describe_statement :
      {T : Type 0} → T → Text → List (Option T) → Result ErrorInfo (List T × List FieldInfo)
  unfolding describe
  do_describe_statement unknown statement parameter_types =
      describe (λ i. 1) statement >>= λ fields.
      ok (map (or_unknown unknown) parameter_types, fields)

  unfoldable pub do_describe_portal : Text → (ℕ → ℕ) → Result ErrorInfo (List FieldInfo)
  unfolding describe
  do_describe_portal statement format_for = describe format_for statement
