-- ===== src/Server/Compat.antt =====
-- server/compat.rs: session statements that are answered without the engine, and the qualification of
-- catalog relations. Bytes beyond ASCII are copied through, so code points stand for them.
use Prim.Native.Nat.{bit_xor}
use auger.Base.{
  ℕ, zero, suc, ◌-◌, ◌*◌, ◌%◌, ◌^◌, Bool, true, false, not, ◌&&◌, ◌||◌, List, [], ◌∷◌, ◌++◌, map,
  Option, none, some, Text, codes, if◌then◌else◌, ◌==◌, text_eq, starts_with, ascii_upper,
  ascii_lower, is_ascii_alphabetic, is_ascii_alphanumeric, any, length, drop,
}
use auger.Whitespace.{is_whitespace, trim, trim_start, trim_end_matches}

pub data Intercepted : Type 0 where
  tag : Text → Intercepted
  rewritten : Text → Intercepted

abbrev pub is_semicolon : ℕ → Bool
is_semicolon c = c == b';'

unfoldable pub take_while : (ℕ → Bool) → Text → Text
take_while p [] = []
take_while p (c ∷ s) = let rest = take_while p s in if p c then c ∷ rest else []

unfoldable pub drop_while : (ℕ → Bool) → Text → Text
drop_while p [] = []
drop_while p (c ∷ s) = let rest = drop_while p s in if p c then rest else c ∷ s

-- `str::contains`
unfoldable pub contains : Text → Text → Bool
contains [] p = starts_with [] p
contains (c ∷ s) p = starts_with (c ∷ s) p || contains s p

-- `split_whitespace().next().unwrap_or("")`
unfoldable pub first_word : Text → Text
unfolding take_while trim_start
first_word s = take_while (λ c. not (is_whitespace c)) (trim_start s)

-- `splitn(2, char::is_whitespace).nth(1).unwrap_or("")`
unfoldable pub second_part : Text → Text
unfolding drop_while
second_part s = drop 1 (drop_while (λ c. not (is_whitespace c)) s)

abbrev pub server_version : Text
server_version = codes "16.6"

-- The column and the value of a variable.
unfoldable pub show_default : Text → Text × Text
show_default arg =
    if text_eq arg (codes "transaction isolation level")
    then (codes "transaction_isolation", codes "read committed")
    else if text_eq arg (codes "server_version")
    then (codes "server_version", server_version)
    else if text_eq arg (codes "server_encoding")
    then (codes "server_encoding", codes "UTF8")
    else if text_eq arg (codes "client_encoding")
    then (codes "client_encoding", codes "UTF8")
    else if text_eq arg (codes "standard_conforming_strings")
    then (codes "standard_conforming_strings", codes "on")
    else if text_eq arg (codes "timezone") || text_eq arg (codes "time zone")
    then (codes "TimeZone", codes "UTC")
    else if text_eq arg (codes "datestyle")
    then (codes "DateStyle", codes "ISO, MDY")
    else if text_eq arg (codes "search_path")
    then (codes "search_path", codes "\"$user\", public")
    else if text_eq arg (codes "is_superuser")
    then (codes "is_superuser", codes "off")
    else (codes "value", [])

unfoldable pub rewrite_show : Text → Intercepted
unfolding second_part trim show_default
rewrite_show sql =
    let arg = map ascii_lower (trim (trim_end_matches is_semicolon (trim (second_part sql)))) in
    let (col, val) = show_default arg in
    rewritten (codes "SELECT '" ++ (val ++ (codes "' AS \"" ++ (col ++ codes "\""))))

abbrev pub pg_catalog_relations : List Text
pg_catalog_relations =
    codes "pg_namespace"
    ∷ codes "pg_class"
    ∷ codes "pg_attribute"
    ∷ codes "pg_type"
    ∷ codes "pg_index"
    ∷ codes "pg_roles"
    ∷ []

abbrev pub is_ident : ℕ → Bool
is_ident c = is_ascii_alphanumeric c || c == b'_'

abbrev pub is_relation : Text → Bool
is_relation ident =
    any (λ r. text_eq (map ascii_lower r) (map ascii_lower ident)) pg_catalog_relations

-- The loop: how many characters of an identifier are still to be copied, whether the scan is inside a
-- literal, and the character before.
unfoldable pub qualify_from : Text → ℕ → Bool → ℕ → Text
unfolding take_while
qualify_from [] left in_quote prev = []
qualify_from (c ∷ s) (suc k) in_quote prev = c ∷ qualify_from s k in_quote c
qualify_from (c ∷ s) zero in_quote prev =
    let ident = take_while is_ident (c ∷ s) in
    let closed = qualify_from s 0 (not (c == b'\'')) c in
    let opened = qualify_from s 0 true c in
    let word = qualify_from s (length ident - 1) false c in
    let other = qualify_from s 0 false c in
    if in_quote
    then c ∷ closed
    else if c == b'\''
    then c ∷ opened
    else if (is_ascii_alphabetic c || c == b'_') && not (prev == b'.' || is_ident prev)
    then (if is_relation ident then codes "pg_catalog." else []) ++ (c ∷ word)
    else c ∷ other

unfoldable pub qualify_bare_pg_catalog : Text → Text
unfolding qualify_from
qualify_bare_pg_catalog sql = qualify_from sql 0 false b' '

-- `char::is_alphanumeric`, beyond ASCII, is the standard library's.
module _ (is_alphanumeric : ℕ → Bool) where
  -- Whether an open parenthesis follows the identifier.
  unfoldable pub is_call : Text → Bool
  unfolding drop_while trim_start
  is_call s =
      starts_with (trim_start (drop_while (λ c. is_alphanumeric c || c == b'_') s)) (codes "(")

  -- The loop over the occurrences of the qualifier: how many of its characters are left, and whether they
  -- are kept.
  unfoldable pub strip_from : Text → ℕ → Bool → Text
  unfolding is_call
  strip_from [] left keep = []
  strip_from (c ∷ s) (suc k) keep =
      let rest = strip_from s k keep in if keep then c ∷ rest else rest
  strip_from (c ∷ s) zero keep =
      let lower = map ascii_lower (c ∷ s) in
      let dropped = strip_from s 10 false in
      let kept = strip_from s 10 true in
      let other = strip_from s 0 true in
      if starts_with lower (codes "pg_catalog.")
      then (if is_call (drop 11 lower) then dropped else c ∷ kept)
      else c ∷ other

  unfoldable pub strip_pg_catalog_prefix : Text → Text
  unfolding strip_from
  strip_pg_catalog_prefix sql = strip_from sql 0 true

  -- The arm for statements that are queries.
  unfoldable pub rewrite_query : Text → Text → Option Intercepted
  unfolding contains strip_pg_catalog_prefix qualify_bare_pg_catalog
  rewrite_query trimmed upper =
      let stripped =
        if contains upper (codes "PG_CATALOG.") then strip_pg_catalog_prefix trimmed else trimmed in
      let sql = qualify_bare_pg_catalog stripped in
      if not (contains upper (codes "PG_"))
      then none
      else if not (text_eq sql trimmed)
      then some (rewritten sql)
      else none

  abbrev is_one_of : Text → List Text → Bool
  is_one_of word words = any (text_eq word) words

  unfoldable pub intercept : Text → Option Intercepted
  unfolding trim first_word rewrite_show rewrite_query
  intercept sql =
      let trimmed = trim (trim_end_matches is_semicolon (trim sql)) in
      let upper = map ascii_upper trimmed in
      let first = first_word upper in
      if text_eq trimmed []
      then some (tag (codes "EMPTY"))
      else if text_eq first (codes "SET")
      then some (tag (codes "SET"))
      else if text_eq first (codes "RESET")
      then some (tag (codes "RESET"))
      else if text_eq first (codes "DISCARD")
      then some (tag (codes "DISCARD ALL"))
      else if text_eq first (codes "LISTEN")
      then some (tag (codes "LISTEN"))
      else if text_eq first (codes "UNLISTEN")
      then some (tag (codes "UNLISTEN"))
      else if text_eq first (codes "SHOW")
      then some (rewrite_show trimmed)
      else if is_one_of first (codes "BEGIN" ∷ codes "START" ∷ [])
      then some (tag (codes "BEGIN"))
      else if is_one_of first (codes "COMMIT" ∷ codes "END" ∷ [])
      then some (tag (codes "COMMIT"))
      else if is_one_of first (codes "ROLLBACK" ∷ codes "ABORT" ∷ [])
      then some (tag (codes "ROLLBACK"))
      else if text_eq first (codes "SAVEPOINT")
      then some (tag (codes "SAVEPOINT"))
      else if text_eq first (codes "RELEASE")
      then some (tag (codes "RELEASE"))
      else if is_one_of first (
          codes "INSERT"
          ∷ codes "UPDATE"
          ∷ codes "DELETE"
          ∷ codes "MERGE"
          ∷ codes "TRUNCATE"
          ∷ codes "DROP"
          ∷ codes "ALTER"
          ∷ codes "GRANT"
          ∷ codes "REVOKE"
          ∷ [])
      then none
      else rewrite_query trimmed upper

-- One byte of the FNV-1a loop, in 32 bits.
unfoldable pub fnv_step : ℕ → ℕ → ℕ
fnv_step hash byte = bit_xor hash byte * 16777619 % 2 ^ 32

unfoldable pub fnv_hash : ℕ → Text → ℕ
unfolding fnv_step
fnv_hash hash [] = hash
fnv_hash hash (byte ∷ name) = fnv_hash (fnv_step hash byte) name

unfoldable pub fnv_oid : Text → ℕ
unfolding fnv_hash
fnv_oid name = fnv_hash 2166136261 name % 2 ^ 31
