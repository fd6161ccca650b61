-- ===== src/Decimal.antt =====
-- Integers in decimal, as `to_string` and `format!` print them.
use auger.Base.{ℕ, zero, suc, ◌+◌, ◌/◌, ◌%◌, [], ◌∷◌, Text, codes, ltb, true, false, ◌≡◌, refl}
use auger.Base.Int.{ℤ, pos, negsuc}

-- The digits of `n` before a text; each round divides by ten, so that `n` rounds are enough.
unfoldable pub digits : ℕ → ℕ → Text → Text
digits zero n out = (b'0' + n % 10) ∷ out
digits (suc fuel) n out = elim (ltb n 10) [
  | true ↦ (b'0' + n % 10) ∷ out
  | false ↦ digits fuel (n / 10) ((b'0' + n % 10) ∷ out)
]

unfoldable pub show_ℕ : ℕ → Text
unfolding digits
show_ℕ n = digits n n []

unfoldable pub show_ℤ : ℤ → Text
unfolding show_ℕ
show_ℤ (pos n) = show_ℕ n
show_ℤ (negsuc n) = b'-' ∷ show_ℕ (suc n)

negative-show_ℤ : show_ℤ (negsuc 1233) ≡ codes "-1234"
unfolding show_ℤ
negative-show_ℤ = refl
