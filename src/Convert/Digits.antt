-- ===== src/Convert/Digits.antt =====
-- mongo/convert.rs: the digits that a printed integer is made of, and what parse_decimal sees in them.
use auger.Base.{
  ℕ, zero, suc, ◌+◌, ◌-◌, ◌*◌, ◌/◌, ◌%◌, ◌^◌, ◌≤◌, ◌<◌, true, false, ◌||◌, [], ◌∷◌, some, ◌≡◌, refl,
  sym, ◌∙◌, ap, subst, Text, ◌==◌, ltb, all, All, text_eq, is_ascii_digit, ascii_lower, arith,
  Bool-cases, inl, inr, lt→ltb,
}
use auger.Whitespace.{trim, trim_start, trim_end_matches, is_whitespace}
use auger.Decimal.{digits, show_ℕ}
use auger.Convert.Scalars.{value, accumulate, eq_ignore_ascii_case}

abbrev pub IsDigit : ℕ → Type 0
IsDigit c = (b'0' ≤ c) × (c ≤ b'9')

add-IsDigit : (n : ℕ) → IsDigit (b'0' + n % 10)
add-IsDigit n = (omega arith, omega arith)

-- One step of the printing loop: below 10 the last digit is the first of the text.
digits-small :
    (fuel n : ℕ) (out : Text) → ltb n 10 ≡ true → digits (suc fuel) n out ≡ (b'0' + n % 10) ∷ out
unfolding digits
digits-small fuel n out small = rw (small, digits) refl

digits-large :
    (fuel n : ℕ) (out : Text)
    → ltb n 10 ≡ false
    → digits (suc fuel) n out ≡ digits fuel (n / 10) ((b'0' + n % 10) ∷ out)
unfolding digits
digits-large fuel n out large = rw (large, digits) refl

-- The digits of a number are digits, of which there is at least one.
digits-IsDigit : (fuel n : ℕ) (out : Text) → All IsDigit out → All IsDigit (digits fuel n out)
unfolding digits
digits-IsDigit zero n out h = (add-IsDigit n, h)
digits-IsDigit (suc fuel) n out h = elim (Bool-cases (ltb n 10)) [
  | inl small ↦ subst (All IsDigit) (sym (digits-small fuel n out small)) (add-IsDigit n, h)
  | inr large ↦
      subst (All IsDigit) (sym (digits-large fuel n out large))
        (digits-IsDigit fuel (n / 10) ((b'0' + n % 10) ∷ out) (add-IsDigit n, h))
]

digits-cons : (fuel n : ℕ) (out : Text) → (c : ℕ) × (s : Text) × (digits fuel n out ≡ c ∷ s)
unfolding digits
digits-cons zero n out = (_, _, refl)
digits-cons (suc fuel) n out = elim (Bool-cases (ltb n 10)) [
  | inl small ↦ (_, _, digits-small fuel n out small)
  | inr large ↦
      let (c, s, e) = digits-cons fuel (n / 10) ((b'0' + n % 10) ∷ out) in
      (c, s, digits-large fuel n out large ∙ e)
]

last_digit : (n : ℕ) → n / 10 * 10 + (b'0' + n % 10 - b'0') ≡ n
last_digit n = omega arith

value-digits : (fuel n : ℕ) (out : Text) → n ≤ fuel → value 0 (digits fuel n out) ≡ value n out
unfolding digits
value-digits zero n out h = ap (λ k. value k out) (omega arith)
value-digits (suc fuel) n out h = elim (Bool-cases (ltb n 10)) [
  | inl small ↦ ap (value 0) (digits-small fuel n out small) ∙ ap (λ k. value k out) (ground arith)
  | inr large ↦
      ap (value 0) (digits-large fuel n out large)
      ∙ value-digits fuel (n / 10) ((b'0' + n % 10) ∷ out) (omega arith)
      ∙ ap (λ k. value k out) (last_digit n)
]

le-value : (acc : ℕ) (s : Text) → acc ≤ value acc s
le-value acc [] = omega arith
le-value acc (b ∷ s) = omega (arith, le-value (acc * 10 + (b - b'0')) s)

pub accumulate-value :
    (acc : ℕ) (s : Text) → value acc s < 2 ^ 127 → accumulate acc s ≡ some (value acc s)
unfolding accumulate
accumulate-value acc [] h = refl
accumulate-value acc (b ∷ s) h =
    let next = acc * 10 + (b - b'0') in
    let le = le-value next s in
    rw (lt→ltb (acc * 10) (2 ^ 127) (omega (arith, le, h)))
      (rw (lt→ltb next (2 ^ 127) (omega (arith, le, h))) (accumulate-value next s h))

-- The characters of a printed integer: a sign or a digit, of which none is a space or a letter.
abbrev pub IsPlain : ℕ → Type 0
IsPlain c = (b'-' ≤ c) × (c ≤ b'9')

pub digit-IsPlain : (c : ℕ) → IsDigit c → IsPlain c
digit-IsPlain c (low, high) = (omega (arith, low), high)

not_space : (c : ℕ) → IsPlain c → is_whitespace c ≡ false
unfolding is_whitespace
not_space c h = ground arith

trim_end-plain : (s : Text) → All IsPlain s → trim_end_matches is_whitespace s ≡ s
unfolding trim_end_matches
trim_end-plain [] h = refl
trim_end-plain (c ∷ []) (d, h) = rw (not_space c d) refl
trim_end-plain (c ∷ e ∷ s) (d, h) = rw (trim_end-plain (e ∷ s) h) refl

pub trim-plain : (s : Text) → All IsPlain s → trim s ≡ s
unfolding trim trim_start
trim-plain [] h = trim_end-plain [] h
trim-plain (c ∷ s) (d, h) = rw (not_space c d) (trim_end-plain (c ∷ s) (d, h))

pub all_digits : (s : Text) → All IsDigit s → all is_ascii_digit s ≡ true
all_digits [] h = refl
all_digits (c ∷ s) (d, h) = ground (arith, all_digits s h)

not_letter : (c d : ℕ) → IsPlain c → b'A' ≤ d → (c == d) ≡ false
not_letter c d h letter = ground arith

plain-lower : (c : ℕ) → IsPlain c → ascii_lower c ≡ c
unfolding ascii_lower
plain-lower c h = ground arith

pub not_word :
    (c d : ℕ) (s w : Text)
    → IsPlain c
    → b'a' ≤ ascii_lower d
    → eq_ignore_ascii_case (c ∷ s) (d ∷ w) ≡ false
unfolding eq_ignore_ascii_case text_eq
not_word c d s w h letter = rw (plain-lower c h, not_letter c (ascii_lower d) h (omega arith)) refl

pub no_exponent : (c : ℕ) → IsPlain c → ((c == b'e') || (c == b'E')) ≡ false
no_exponent c h = ground arith

pub no_point : (c : ℕ) → IsDigit c → (c == b'.') ≡ false
no_point c h = ground arith

-- The digits of `n` and what is computed of them.
pub shown :
    (n : ℕ)
    → (c : ℕ) × (s : Text) × (show_ℕ n ≡ c ∷ s) × All IsDigit (c ∷ s) × (value 0 (c ∷ s) ≡ n)
unfolding show_ℕ
shown n =
    let (c, s, e) = digits-cons n n [] in
    (
      c,
      s,
      e,
      subst (All IsDigit) e (digits-IsDigit n n [] tt),
      ap (value 0) (sym e) ∙ value-digits n n [] (omega arith),
    )
