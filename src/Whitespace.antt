-- ===== src/Whitespace.antt =====
-- `char::is_whitespace` and `str::trim`, as server/mod.rs and server/compat.rs use them.
use auger.Base.{ℕ, Bool, ◌||◌, ◌&&◌, [], ◌∷◌, Text, if◌then◌else◌, ◌==◌, leb}

-- Unicode's White_Space.
unfoldable pub is_whitespace : ℕ → Bool
is_whitespace c =
    (leb 9 c && leb c 13)
    || c == 32
    || c == 133
    || c == 160
    || c == 5760
    || (leb 8192 c && leb c 8202)
    || c == 8232
    || c == 8233
    || c == 8239
    || c == 8287
    || c == 12288

unfoldable pub trim_start : Text → Text
unfolding is_whitespace
trim_start [] = []
trim_start (c ∷ s) = if is_whitespace c then trim_start s else c ∷ s

-- The text without the run of characters at its end for which `p` holds.
unfoldable pub trim_end_matches : (ℕ → Bool) → Text → Text
trim_end_matches p [] = []
trim_end_matches p (c ∷ s) = elim (trim_end_matches p s) [
  | [] ↦ if p c then [] else c ∷ []
  | x ∷ r ↦ c ∷ x ∷ r
]

unfoldable pub trim : Text → Text
unfolding trim_start trim_end_matches
trim s = trim_end_matches is_whitespace (trim_start s)
