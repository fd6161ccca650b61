-- ===== src/Server/Sessions.antt =====
-- Examples for the handlers of server/mod.rs: tests and witnesses.
use auger.Base.{
  true, List, [], ◌∷◌, ◌++◌, map, none, some, ◌≡◌, ◌⊎◌, refl, Text, codes, length,
  is_ascii_alphanumeric, arith, text_eq, ascii_upper, starts_with,
}
use auger.Base.Int.{pos}
use auger.Base.Results.{ok, err}
use auger.Decimal.{show_ℕ}
use auger.Whitespace.{trim}
use auger.Arrow.{DataType, Fields, field}
use auger.Arrow.Array.{Array, Columns}
use auger.Config.{ServerConfig, default_server}
use auger.Server.Split.{split_statements}
use auger.Server.Values.{Display, FieldInfo, RecordBatch, value_to_json}
use auger.Server.Handler.{
  Engine, ErrorInfo, Response, Timed, do_query, or_empty_query, to_row_stream, canceled, rows_of,
  do_describe_portal, do_query_portal,
}
use auger.Server.Encode.{PgType}
use auger.Server.Compat.{intercept}
use auger.Server.Described.{fields_of, fields_of-do_query_portal}
use auger.Server.Answers.{
  Answered, Run, do_query-answers, all_rows, in_time, late, to_row_stream-deadline,
}

abbrev display : Display
display = record {
  is_finite = λ v. true;
  show_f64 = show_ℕ;
  has_date = λ v. true;
  rfc3339 = λ v. [];
  fits_decimal = λ v s. true;
  show_decimal = λ v s. [];
}

abbrev nested : Array
nested =
    Array.structs (Fields.cons (field (codes "n") DataType.int32 true []) Fields.nil)
      (Columns.cons
        (Array.lists (field (codes "item") DataType.int32 true []) (0 ∷ 2 ∷ 3 ∷ [])
          (Array.int32s (some (pos 1) ∷ some (pos 2) ∷ none ∷ [])) (true ∷ true ∷ []))
        Columns.nil)
      (true ∷ true ∷ [])

first-value_to_json : value_to_json display nested 0 ≡ codes "{\"n\":[1,2]}"
unfolding value_to_json show_ℕ
first-value_to_json = refl

second-value_to_json : value_to_json display nested 1 ≡ codes "{\"n\":[null]}"
unfolding value_to_json show_ℕ
second-value_to_json = refl

abbrev batch : RecordBatch
batch = record { columns = Array.int32s (some (pos 7) ∷ []) ∷ []; num_rows = 1 }

abbrev stream : List Timed
stream = (10, ok batch) ∷ (20, ok batch) ∷ []

abbrev engine : Engine
engine = record {
  Plan = Unit;
  sql = λ t. ok tt;
  create_logical_plan = λ t. ok tt;
  schema = λ p. [];
  execute_stream = λ p. ok stream;
  encode_field = λ fields place s. ok [];
  display = display;
  is_alphanumeric = is_ascii_alphanumeric;
  started = 5;
}

-- The deadline is at 15.
abbrev config : ServerConfig
config = record default_server { statement_timeout_secs = 10 }

abbrev message : Text
message = codes "BEGIN; SELECT 1"

do_query-answers_example :
    ((rs : List Response) × (do_query engine config message ≡ ok (or_empty_query rs))
      × (length rs ≡ length (split_statements message)))
    ⊎ ((e : ErrorInfo) × (before : List Text) × (s : Text) × (behind : List Text) × (do_query engine
            config message
          ≡ err e)
        × (split_statements message ≡ before ++ (s ∷ behind))
        × Answered engine config before
        × (Run engine config s ≡ err e))
do_query-answers_example = do_query-answers engine config message

to_row_stream-deadline_example :
    to_row_stream engine config [] stream
    ≡ all_rows engine config [] (in_time engine config stream)
      ++ map (λ b. err canceled) (late engine config stream)
to_row_stream-deadline_example =
    to_row_stream-deadline engine config 5 [] stream (omega arith, (omega arith, tt))

-- Every statement has one column of integers.
abbrev counting : Engine
counting = record engine { schema = λ p. field (codes "n") DataType.int32 true [] ∷ [] }

abbrev count_fields : List FieldInfo
count_fields = record { name = codes "n"; pg_type = PgType.int4; format = 1 } ∷ []

-- A row of the first batch, and the end at the deadline.
abbrev counted : Response
counted = rows_of count_fields (ok ([] ∷ []) ∷ err canceled ∷ [])

count-do_describe_portal :
    do_describe_portal counting config (codes "SELECT n FROM t") (λ i. 1) ≡ ok count_fields
unfolding do_describe_portal intercept text_eq ascii_upper trim starts_with
count-do_describe_portal = refl

count-do_query_portal :
    do_query_portal counting config (codes "SELECT n FROM t") 0 (λ i. 1) ≡ ok counted
unfolding do_query_portal intercept text_eq ascii_upper trim starts_with
count-do_query_portal = refl

fields_of-do_query_portal_example : fields_of counted ≡ count_fields
fields_of-do_query_portal_example =
    fields_of-do_query_portal counting config (λ text p p' h k. refl) (codes "SELECT n FROM t") 0
      (λ i. 1) count-do_describe_portal count-do_query_portal
