-- ===== src/Http.antt =====
-- http/mod.rs: the query console of the status page. The engine that runs the statement is a parameter;
-- the time that a response reports is left out.
pub mod Pages
pub mod Table
pub mod Toy
mod Tests
pub mod Gate
pub mod Rows
use auger.Base.{
  ℕ, zero, suc, ◌+◌, ◌-◌, min, max, Bool, true, false, not, ◌||◌, List, [], ◌∷◌, ◌++◌, map, Option,
  none, some, Text, codes, if◌then◌else◌, ◌==◌, text_eq, any, length, ascii_upper,
}
use auger.Base.Results.{Result, ok, err, ◌>>=◌, map_err}
use auger.Whitespace.{trim, trim_start, is_whitespace}
use auger.Decimal.{show_ℕ}
use auger.Config.{ServerConfig}

-- A status and what the browser is told.
pub data ApiError : Type 0 where
  api_error : ℕ → Text → ApiError

abbrev pub bad_request : Text → ApiError
bad_request t = api_error 400 t

pub record QueryRequest : Type 0 where
  pub sql : Text
  pub limit : Option ℕ

abbrev pub default_rows : ℕ
default_rows = 1000

abbrev pub max_rows : ℕ
max_rows = 10000

abbrev pub fallback_timeout_secs : ℕ
fallback_timeout_secs = 30

-- `text.strip_suffix(';').unwrap_or(text)`
unfoldable pub strip_semicolon : Text → Text
strip_semicolon [] = []
strip_semicolon (c ∷ []) = if c == b';' then [] else c ∷ []
strip_semicolon (c ∷ d ∷ s) = c ∷ strip_semicolon (d ∷ s)

unfoldable pub word : Text → Text
word [] = []
word (c ∷ s) = if is_whitespace c then [] else c ∷ word s

-- `split_whitespace().next().unwrap_or("").to_ascii_uppercase()`
unfoldable pub head_of : Text → Text
unfolding word
head_of sql = map ascii_upper (word (trim_start sql))

abbrev pub read_only_heads : List Text
read_only_heads =
    codes "SELECT"
    ∷ codes "WITH"
    ∷ codes "EXPLAIN"
    ∷ codes "SHOW"
    ∷ codes "DESCRIBE"
    ∷ codes "DESC"
    ∷ []

abbrev pub is_read_only : Text → Bool
is_read_only sql = any (text_eq (head_of sql)) read_only_heads

abbrev pub has_semicolon : Text → Bool
has_semicolon s = any (λ c. c == b';') s

abbrev pub not_allowed : Text → Text
not_allowed head = codes "only read-only statements are allowed here (got `" ++ (head ++ codes "`)")

abbrev pub disabled : Text
disabled = codes "query console is disabled; set server.http_query = true to enable it"

-- The statement that is run, or why none is.
unfoldable pub gate : Bool → Text → Result ApiError Text
unfolding head_of strip_semicolon
gate enabled text =
    let sql = trim (strip_semicolon (trim text)) in
    if not enabled
    then err (api_error 403 disabled)
    else if text_eq sql []
    then err (bad_request (codes "empty query"))
    else if has_semicolon sql
    then err (bad_request (codes "one statement at a time"))
    else if is_read_only sql
    then ok sql
    else err (bad_request (not_allowed (head_of sql)))

-- `limit.unwrap_or(DEFAULT_ROWS).clamp(1, MAX_ROWS)`
unfoldable pub cap_of : Option ℕ → ℕ
cap_of none = max 1 (min default_rows max_rows)
cap_of (some n) = max 1 (min n max_rows)

unfoldable pub timeout_of : ServerConfig → ℕ
timeout_of config =
    if config.statement_timeout_secs == 0
    then fallback_timeout_secs
    else config.statement_timeout_secs

unfoldable pub is_bounded : Text → Bool
unfolding head_of
is_bounded sql = any (text_eq (head_of sql)) (codes "SELECT" ∷ codes "WITH" ∷ [])

-- A batch: the names and types of its columns, and its rows as texts, which may fail to be formatted.
pub record Batch : Type 0 where
  pub columns : List Text
  pub types : List Text
  pub rows : Result Text (List (List Text))

pub data Outcome : Type 0 where
  timed_out : Outcome
  failed : Text → Outcome
  batches : List Batch → Outcome

pub record QueryResponse : Type 0 where
  pub columns : List Text
  pub types : List Text
  pub rows : List (List Text)
  pub row_count : ℕ
  pub truncated : Bool

-- The inner loop: the rows of a batch that there is room for, and whether one was left over.
unfoldable pub push_rows : ℕ → List (List Text) → List (List Text) × Bool
push_rows room [] = ([], false)
push_rows zero (r ∷ rs) = ([], true)
push_rows (suc room) (r ∷ rs) = let (taken, more) = push_rows room rs in (r ∷ taken, more)

abbrev pub internal : Text → ApiError
internal e = api_error 500 e

-- The loop over the batches, which the first row left over ends.
unfoldable pub collect_rows : ℕ → List Batch → Result ApiError (List (List Text) × Bool)
unfolding push_rows
collect_rows room [] = ok ([], false)
collect_rows room (b ∷ bs) = map_err internal b.rows >>= λ rs.
    let (taken, more) = push_rows room rs in
    let rest = collect_rows (room - length taken) bs in
    if more then ok (taken, true) else (rest >>= λ (others, cut). ok (taken ++ others, cut))

abbrev pub first_columns : List Batch → List Text
first_columns [] = []
first_columns (b ∷ bs) = b.columns

abbrev pub first_types : List Batch → List Text
first_types [] = []
first_types (b ∷ bs) = b.types

abbrev pub respond : List Batch → List (List Text) × Bool → QueryResponse
respond bs (rows, truncated) = record {
  columns = first_columns bs;
  types = first_types bs;
  rows = rows;
  row_count = length rows;
  truncated = truncated;
}

abbrev pub exceeded : ℕ → Text
exceeded timeout = codes "query exceeded " ++ (show_ℕ timeout ++ codes "s")

unfoldable pub response : ℕ → ℕ → Outcome → Result ApiError QueryResponse
unfolding collect_rows
response cap timeout timed_out = err (api_error 504 (exceeded timeout))
response cap timeout (failed e) = err (bad_request e)
response cap timeout (batches bs) = collect_rows cap bs >>= λ r. ok (respond bs r)

-- `run` executes a statement, its rows limited where a limit is given, within a time.
unfoldable pub query :
    (Text → Option ℕ → ℕ → Outcome) → ServerConfig → QueryRequest → Result ApiError QueryResponse
unfolding gate cap_of timeout_of is_bounded response
query run config req = gate config.http_query req.sql >>= λ sql.
    let cap = cap_of req.limit in
    let limit = if is_bounded sql then some (cap + 1) else none in
    response cap (timeout_of config) (run sql limit (timeout_of config))
