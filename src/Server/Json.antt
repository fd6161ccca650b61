-- ===== src/Server/Json.antt =====
-- server/encode.rs: what a reader of JSON strings and of hexadecimal makes of the text that is sent.
use auger.Base.{
  ℕ, zero, suc, ◌+◌, ◌*◌, ◌-◌, ◌/◌, ◌%◌, ◌<◌, true, ◌&&◌, List, [], ◌∷◌, ◌++◌, append_assoc, Option,
  none, some, ◌≡◌, refl, ◌∙◌, ap, Text, if◌then◌else◌, ◌==◌, ltb, leb, arith, Bool-cases, inl, inr,
  ◌>>=◌, all,
}
use auger.Server.Encode.{hex_digit, hex_byte, hex, escape, escape_all, quote_json}

unfoldable pub digit : ℕ → Option ℕ
digit c =
    if leb b'0' c && leb c b'9'
    then some (c - b'0')
    else if leb b'a' c && leb c b'f'
    then some (c - 87)
    else none

-- A reader of JSON strings, by RFC 8259: after a character, after a backslash, or in the digits of
-- a `\u`, with how many are left and the value so far.
pub data Reading : Type 0 where
  plain escaped : Reading
  digits : ℕ → ℕ → Reading

abbrev pub after : ℕ → Option Text → Option Text
after c none = none
after c (some s) = some (c ∷ s)

unfoldable pub read : Reading → Text → Option Text
unfolding digit
read r [] = none
read plain (c ∷ s) =
    let rest = read plain s in
    let inside = read escaped s in
    if c == b'"'
    then elim s [ [] ↦ some [] | x ∷ t ↦ none ]
    else if c == b'\\'
    then inside
    else if ltb c 32
    then none
    else after c rest
read escaped (c ∷ s) =
    let rest = read plain s in
    let code = read (digits 4 0) s in
    if c == b'"'
    then after b'"' rest
    else if c == b'\\'
    then after b'\\' rest
    else if c == b'/'
    then after b'/' rest
    else if c == b'b'
    then after 8 rest
    else if c == b'f'
    then after 12 rest
    else if c == b'n'
    then after 10 rest
    else if c == b'r'
    then after 13 rest
    else if c == b't'
    then after 9 rest
    else if c == b'u'
    then code
    else none
read (digits zero v) (c ∷ s) = none
read (digits (suc zero) v) (c ∷ s) =
    let rest = read plain s in digit c >>= λ x. after (16 * v + x) rest
read (digits (suc (suc k)) v) (c ∷ s) = digit c >>= λ x. read (digits (suc k) (16 * v + x)) s

abbrev pub unquote : Text → Option Text
unquote [] = none
unquote (c ∷ s) = if c == b'"' then read plain s else none

digit-hex_digit : (n : ℕ) → n < 16 → digit (hex_digit n) ≡ some n
unfolding digit hex_digit
digit-hex_digit n h = ground arith

read-hex_byte :
    (c : ℕ) (s : Text) → c < 256 → read (digits 2 0) (hex_byte c ++ s) ≡ after c (read plain s)
unfolding read hex_byte
read-hex_byte c s h =
    let hi : c / 16 < 16 = omega arith in
    let lo : c % 16 < 16 = omega arith in
    let e : 16 * (0 + c / 16) + c % 16 ≡ c = omega arith in
    rw (digit-hex_digit (c / 16) hi, digit-hex_digit (c % 16) lo)
      (ap (λ x. after x (read plain s)) e)

read-escape : (c : ℕ) (s : Text) → read plain (escape c ++ s) ≡ after c (read plain s)
unfolding read escape
read-escape c s = elim (Bool-cases (c == b'"')) [
  | inl e ↦ let k : c ≡ b'"' = ground arith in rw k refl
  | inr e1 ↦ elim (Bool-cases (c == b'\\')) [
    | inl e ↦ let k : c ≡ b'\\' = ground arith in rw k refl
    | inr e2 ↦ elim (Bool-cases (c == 10)) [
      | inl e ↦ let k : c ≡ 10 = ground arith in rw k refl
      | inr e3 ↦ elim (Bool-cases (c == 13)) [
        | inl e ↦ let k : c ≡ 13 = ground arith in rw k refl
        | inr e4 ↦ elim (Bool-cases (c == 9)) [
          | inl e ↦ let k : c ≡ 9 = ground arith in rw k refl
          | inr e5 ↦ elim (Bool-cases (ltb c 32)) [
            | inl e ↦ rw (e1, e2, e3, e4, e5, e, escape) (read-hex_byte c s (ground arith))
            | inr e6 ↦ rw (e1, e2, e3, e4, e5, e6, escape) (rw (e1, e2, e6) refl)
          ]
        ]
      ]
    ]
  ]
]

read-escape_all : (s : Text) → read plain (escape_all s ++ b'"' ∷ []) ≡ some s
unfolding escape_all read
read-escape_all [] = refl
read-escape_all (c ∷ s) =
    ap (read plain) (append_assoc (escape c) (escape_all s) (b'"' ∷ []))
    ∙ read-escape c (escape_all s ++ b'"' ∷ [])
    ∙ ap (after c) (read-escape_all s)

-- A JSON reader gets back from `quote_json` the text that went in, control characters, quotes and
-- backslashes included.
pub unquote-quote_json : (s : Text) → unquote (quote_json s) ≡ some s
unfolding quote_json
unquote-quote_json s = read-escape_all s

-- The bytes that a text of hexadecimal digits stands for.
unfoldable pub unhex : Text → Option (List ℕ)
unfolding digit
unhex [] = some []
unhex (a ∷ []) = none
unhex (a ∷ b ∷ s) =
    let rest = unhex s in
    digit a >>= λ x. digit b >>= λ y. rest >>= λ bytes. some ((16 * x + y) ∷ bytes)

-- The hexadecimal rendering of bytes determines them.
pub unhex-hex :
    (bytes : List ℕ) → all (λ b. ltb b 256) bytes ≡ true → unhex (hex bytes) ≡ some bytes
unfolding unhex hex hex_byte
unhex-hex [] h = refl
unhex-hex (b ∷ bytes) h =
    let small : b < 256 = ground arith in
    let hi : b / 16 < 16 = omega arith in
    let lo : b % 16 < 16 = omega arith in
    let e : 16 * (b / 16) + b % 16 ≡ b = omega arith in
    rw (digit-hex_digit (b / 16) hi, digit-hex_digit (b % 16) lo, unhex-hex bytes (ground arith))
      (ap (λ x. some (x ∷ bytes)) e)
