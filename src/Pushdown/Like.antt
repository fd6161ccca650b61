-- ===== src/Pushdown/Like.antt =====
-- mongo/pushdown.rs: LIKE patterns as anchored regular expressions.
use auger.Base.{ℕ, Bool, false, ◌||◌, [], ◌∷◌, ◌++◌, Option, none, some, Text, if◌then◌else◌, ◌==◌}

-- The characters that `push_escaped` puts a backslash before.
unfoldable pub is_special : ℕ → Bool
is_special c =
    c == b'.'
    || c == b'^'
    || c == b'$'
    || c == b'*'
    || c == b'+'
    || c == b'?'
    || c == b'('
    || c == b')'
    || c == b'['
    || c == b']'
    || c == b'{'
    || c == b'}'
    || c == b'|'
    || c == b'\\'
    || c == b'/'

unfoldable pub escaped : ℕ → Text
unfolding is_special
escaped c = if is_special c then b'\\' ∷ c ∷ [] else c ∷ []

unfoldable pub push_escaped : Text → ℕ → Text
unfolding escaped
push_escaped out c = out ++ escaped c

abbrev pub is_escape : Option ℕ → ℕ → Bool
is_escape none c = false
is_escape (some e) c = c == e

-- What the loop pushes for a character that is not the escape.
unfoldable pub push_char : Text → ℕ → Text
unfolding push_escaped
push_char out c =
    if c == b'%'
    then out ++ b'.' ∷ b'*' ∷ []
    else if c == b'_'
    then out ++ b'.' ∷ []
    else push_escaped out c

-- The loop of `like_to_regex`, over the characters that are left. `none` is the early return
-- where the pattern ends in the escape character.
unfoldable pub convert : Option ℕ → Text → Text → Option Text
unfolding push_char push_escaped
convert escape out [] = some out
convert escape out (c ∷ []) = if is_escape escape c then none else some (push_char out c)
convert escape out (c ∷ d ∷ rest) =
    let skipped = convert escape (push_escaped out d) rest in
    let onward = convert escape (push_char out c) (d ∷ rest) in
    if is_escape escape c then skipped else onward

unfoldable pub like_to_regex : Text → Option ℕ → Option Text
unfolding convert
like_to_regex pattern escape = elim (convert escape (b'^' ∷ []) pattern) [
  | none ↦ none
  | some out ↦ some (out ++ b'$' ∷ [])
]
