-- ===== src/Server/Encode.antt =====
-- server/encode.rs: the PostgreSQL type of a column, JSON strings and hexadecimal bytes.
use auger.Base.{ℕ, ◌+◌, ◌/◌, ◌%◌, List, [], ◌∷◌, ◌++◌, none, some, Text, if◌then◌else◌, ◌==◌, ltb}
use auger.Arrow.{DataType}

-- The types of the crate `postgres-types` that are used.
pub data PgType : Type 0 where
  bool int2 int4 int8 float4 float8 numeric bytea date timestamptz timestamp text : PgType

unfoldable pub pg_type_of : DataType → PgType
pg_type_of DataType.boolean = PgType.bool
pg_type_of DataType.int8 = PgType.int2
pg_type_of DataType.int16 = PgType.int2
pg_type_of DataType.int32 = PgType.int4
pg_type_of DataType.uint8 = PgType.int4
pg_type_of DataType.uint16 = PgType.int4
pg_type_of DataType.int64 = PgType.int8
pg_type_of DataType.uint32 = PgType.int8
pg_type_of DataType.uint64 = PgType.int8
pg_type_of DataType.float16 = PgType.float4
pg_type_of DataType.float32 = PgType.float4
pg_type_of DataType.float64 = PgType.float8
pg_type_of (DataType.decimal128 p s) = PgType.numeric
pg_type_of (DataType.decimal256 p s) = PgType.numeric
pg_type_of DataType.binary = PgType.bytea
pg_type_of DataType.large_binary = PgType.bytea
pg_type_of DataType.binary_view = PgType.bytea
pg_type_of DataType.date32 = PgType.date
pg_type_of DataType.date64 = PgType.date
pg_type_of (DataType.timestamp u (some tz)) = PgType.timestamptz
pg_type_of (DataType.timestamp u none) = PgType.timestamp
pg_type_of _ = PgType.text

-- A digit of `{:x}`.
unfoldable pub hex_digit : ℕ → ℕ
hex_digit n = if ltb n 10 then b'0' + n else 87 + n

-- `{b:02x}` of a byte
unfoldable pub hex_byte : ℕ → Text
unfolding hex_digit
hex_byte b = hex_digit (b / 16) ∷ hex_digit (b % 16) ∷ []

unfoldable pub hex : List ℕ → Text
unfolding hex_byte
hex [] = []
hex (b ∷ bytes) = hex_byte b ++ hex bytes

-- One character of `quote_json`'s loop.
unfoldable pub escape : ℕ → Text
unfolding hex_byte
escape ch =
    if ch == b'"'
    then b'\\' ∷ b'"' ∷ []
    else if ch == b'\\'
    then b'\\' ∷ b'\\' ∷ []
    else if ch == 10
    then b'\\' ∷ b'n' ∷ []
    else if ch == 13
    then b'\\' ∷ b'r' ∷ []
    else if ch == 9
    then b'\\' ∷ b't' ∷ []
    else if ltb ch 32
    then b'\\' ∷ b'u' ∷ b'0' ∷ b'0' ∷ hex_byte ch
    else ch ∷ []

unfoldable pub escape_all : Text → Text
unfolding escape
escape_all [] = []
escape_all (ch ∷ s) = escape ch ++ escape_all s

unfoldable pub quote_json : Text → Text
unfolding escape_all
quote_json s = b'"' ∷ (escape_all s ++ b'"' ∷ [])
