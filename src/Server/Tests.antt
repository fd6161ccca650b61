-- ===== src/Server/Tests.antt =====
-- Examples for server/mod.rs and server/encode.rs: tests and witnesses.
use auger.Server.Compat.{Intercepted, intercept, qualify_bare_pg_catalog, strip_pg_catalog_prefix}
use auger.Server.Rewrites.{IsQualified, qualify_bare_pg_catalog-IsQualified}
use auger.Server.Stripping.{IsStripped, strip_pg_catalog_prefix-IsStripped}
use auger.Base.{
  text_eq, starts_with, ascii_lower, ascii_upper, is_ascii_alphanumeric, false, [], ◌∷◌, some, ◌≡◌,
  refl, Text, codes,
}
use auger.Whitespace.{trim, is_whitespace}
use auger.Server.Split.{
  split_statements, pieces, statements, glue, split_statements-pieces, glue-pieces,
}
use auger.Server.Encode.{quote_json}
use auger.Server.Json.{unquote, unquote-quote_json}

abbrev message : Text
message = codes "SET a = ';''b'; SELECT 1 ;"

message-statements : split_statements message ≡ codes "SET a = ';''b'" ∷ codes "SELECT 1" ∷ []
unfolding split_statements trim
message-statements = refl

split_statements-pieces_example : split_statements message ≡ statements (pieces message false false)
split_statements-pieces_example = split_statements-pieces message

glue-pieces_example : glue (pieces message false false) ≡ message
glue-pieces_example = glue-pieces message false false

unquote-quote_json_example :
    unquote (quote_json (b'"' ∷ 10 ∷ 1 ∷ b'a' ∷ [])) ≡ some (b'"' ∷ 10 ∷ 1 ∷ b'a' ∷ [])
unquote-quote_json_example = unquote-quote_json (b'"' ∷ 10 ∷ 1 ∷ b'a' ∷ [])

-- The ASCII part is enough here.
abbrev query : Text
query = codes "SELECT pg_catalog.f(x) FROM pg_type t WHERE a = 'pg_type'"

query-qualify :
    qualify_bare_pg_catalog query
    ≡ codes "SELECT pg_catalog.f(x) FROM pg_catalog.pg_type t WHERE a = 'pg_type'"
unfolding qualify_bare_pg_catalog text_eq ascii_lower
query-qualify = refl

query-strip :
    strip_pg_catalog_prefix is_ascii_alphanumeric query
    ≡ codes "SELECT f(x) FROM pg_type t WHERE a = 'pg_type'"
unfolding strip_pg_catalog_prefix starts_with ascii_lower is_whitespace
query-strip = refl

begin-intercept :
    intercept is_ascii_alphanumeric (codes " begin; ") ≡ some (Intercepted.tag (codes "BEGIN"))
unfolding intercept text_eq ascii_upper trim
begin-intercept = refl

qualify_bare_pg_catalog-IsQualified_example :
    IsQualified false b' ' query (qualify_bare_pg_catalog query)
qualify_bare_pg_catalog-IsQualified_example = qualify_bare_pg_catalog-IsQualified query

strip_pg_catalog_prefix-IsStripped_example :
    IsStripped is_ascii_alphanumeric query (strip_pg_catalog_prefix is_ascii_alphanumeric query)
strip_pg_catalog_prefix-IsStripped_example =
    strip_pg_catalog_prefix-IsStripped is_ascii_alphanumeric query
