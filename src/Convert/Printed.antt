-- ===== src/Convert/Printed.antt =====
-- mongo/convert.rs: an integer that is printed in decimal and read back for a decimal column.
use auger.Base.{
  ℕ, zero, suc, ◌+◌, ◌*◌, ◌^◌, ◌≤◌, ◌<◌, Bool, true, false, ◌||◌, [], ◌∷◌, none, some, ◌≡◌, ◌≢◌,
  refl, sym, ◌∙◌, ap, subst, Text, codes, ◌==◌, ltb, All, text_eq, then_some, ascii_lower, ◌>>=◌,
  arith, Bool-cases, inl, inr, append-nil, ltb→lt,
}
use native.Mathlib.Nat.{pow-suc}
use auger.Base.Int.{ℤ, pos, negsuc, sub_ℕ, fits_signed, wrap_i32, ◌+ℤ◌}
use auger.Decimal.{show_ℕ, show_ℤ}
use auger.Convert.Scalars.{
  value, split_once, split_sign, shift_by, parse_mantissa, parse_exponent, parse_decimal, scale_int,
  checked, signed, or_empty,
}
use auger.Convert.Digits.{
  IsDigit, accumulate-value, IsPlain, digit-IsPlain, trim-plain, all_digits, not_word, no_exponent,
  no_point, shown,
}

split_once-none :
    (mark : ℕ → Bool) (s : Text) → All (λ c. mark c ≡ false) s → split_once mark s ≡ (s, none)
unfolding split_once
split_once-none mark [] h = refl
split_once-none mark (c ∷ s) (e, h) = rw (e, split_once-none mark s h) refl

All-map : {P Q : ℕ → Type 0} (f : (c : ℕ) → P c → Q c) (s : Text) → All P s → All Q s
All-map f [] h = tt
All-map f (c ∷ s) (p, h) = (f c p, All-map f s h)

shift-pos : (k : ℕ) → k < 2 ^ 31 → wrap_i32 (wrap_i32 (pos k +ℤ pos 0) +ℤ sub_ℕ 0 0) ≡ pos k
shift-pos k h = ground arith

-- A text of signs and digits is all mantissa.
parse_decimal-plain :
    (c : ℕ) (s : Text) (scale : ℤ)
    → All IsPlain (c ∷ s)
    → parse_decimal (c ∷ s) scale ≡ parse_mantissa (c ∷ s) (pos 0) scale
unfolding parse_decimal parse_exponent text_eq ascii_lower
parse_decimal-plain c s scale (d, h) =
    rw
      (
        trim-plain (c ∷ s) (d, h),
        split_once-none (λ x. (x == b'e') || (x == b'E')) (c ∷ s)
            (All-map no_exponent (c ∷ s) (d, h)),
        not_word c b'n' s (codes "an") d (omega arith),
      )
      refl

-- A mantissa of digits only is their value, times the power of ten.
parse_mantissa-digits :
    (t : Text) (negative : Bool) (c : ℕ) (s : Text) (k : ℕ)
    → split_sign t ≡ (negative, c ∷ s)
    → All IsDigit (c ∷ s)
    → value 0 (c ∷ s) < 2 ^ 127
    → k < 2 ^ 31
    → parse_mantissa t (pos 0) (pos k)
      ≡ (shift_by (value 0 (c ∷ s)) (pos k) >>= λ v. some (signed negative v))
unfolding parse_mantissa ascii_lower
parse_mantissa-digits t negative c s k split h small scale =
    rw
      (
        split,
        split_once-none (λ x. x == b'.') (c ∷ s) (All-map no_point (c ∷ s) h),
        not_word c b'i' s (codes "nfinity") (digit-IsPlain c h.0) (omega arith),
        not_word c b'i' s (codes "nf") (digit-IsPlain c h.0) (omega arith),
        all_digits (c ∷ s) h,
        or_empty,
        append-nil s,
        accumulate-value 0 (c ∷ s) small,
        shift-pos k scale,
      )
      refl

times_ten : (n p : ℕ) → n * (p * 10) ≡ n * p * 10
times_ten n p = omega arith

-- The least 128-bit integer is no multiple of ten, so that no scaled 64-bit integer reaches it.
not_least : (n k : ℕ) → n ≤ 2 ^ 63 → n * 10 ^ k ≢ 2 ^ 127
not_least n zero h e = omega (arith, h, e)
not_least n (suc k) h e =
    omega (arith, sym (times_ten n (10 ^ k)) ∙ ap (λ p. n * p) (sym (pow-suc 10 k)) ∙ e)

shift-positive :
    (n k : ℕ) → (shift_by n (pos k) >>= λ v. some (signed false v)) ≡ scale_int (pos n) (pos k)
unfolding shift_by scale_int
shift-positive n k = elim (Bool-cases (ltb (10 ^ k) (2 ^ 127))) [
  | inl fits ↦ rw (fits) (elim (Bool-cases (ltb (n * 10 ^ k) (2 ^ 127))) [
    | inl small ↦ rw (small) refl
    | inr large ↦ rw (large) refl
  ])
  | inr over ↦ rw (over) refl
]

-- `then_some` of the 128-bit test, for a negated number that is not the least one.
checked_negative :
    (m : ℕ)
    → m ≢ 2 ^ 127
    → (checked m >>= λ v. some (signed true v))
      ≡ then_some (fits_signed 127 (sub_ℕ 0 m)) (sub_ℕ 0 m)
checked_negative zero h = refl
checked_negative (suc m) h = ground arith

shift-negative :
    (n k : ℕ)
    → n + 1 ≤ 2 ^ 63
    → (shift_by (n + 1) (pos k) >>= λ v. some (signed true v)) ≡ scale_int (negsuc n) (pos k)
unfolding shift_by scale_int
shift-negative n k h = elim (Bool-cases (ltb (10 ^ k) (2 ^ 127))) [
  | inl fits ↦ rw (fits) (checked_negative ((n + 1) * 10 ^ k) (not_least (n + 1) k h))
  | inr over ↦ rw (over) refl
]

-- The magnitude of a printed integer, read back.
parse_mantissa-show_ℕ :
    (t : Text) (negative : Bool) (n k : ℕ)
    → split_sign t ≡ (negative, show_ℕ n)
    → n < 2 ^ 127
    → k < 2 ^ 31
    → parse_mantissa t (pos 0) (pos k) ≡ (shift_by n (pos k) >>= λ v. some (signed negative v))
parse_mantissa-show_ℕ t negative n k split small scale =
    let (c, s, e, h, v) = shown n in
    let read =
      parse_mantissa-digits t negative c s k (split ∙ ap (λ d. (negative, d)) e) h
        (subst (λ m. m < 2 ^ 127) (sym v) small) scale in
    read ∙ ap (λ m. shift_by m (pos k) >>= λ r. some (signed negative r)) v

split_sign-digits : (c : ℕ) (s : Text) → IsDigit c → split_sign (c ∷ s) ≡ (false, c ∷ s)
unfolding split_sign
split_sign-digits c s h = ground arith

split_sign-minus : (s : Text) → split_sign (b'-' ∷ s) ≡ (true, s)
unfolding split_sign
split_sign-minus s = refl

parse_decimal-minus :
    (n k : ℕ)
    → n < 2 ^ 127
    → k < 2 ^ 31
    → parse_decimal (b'-' ∷ show_ℕ n) (pos k) ≡ (shift_by n (pos k) >>= λ v. some (signed true v))
parse_decimal-minus n k small scale =
    let (c, s, e, h, _) = shown n in
    let plain = subst (All IsPlain) (sym e) (All-map digit-IsPlain (c ∷ s) h) in
    parse_decimal-plain b'-' (show_ℕ n) (pos k) ((omega arith, omega arith), plain)
    ∙ parse_mantissa-show_ℕ (b'-' ∷ show_ℕ n) true n k (split_sign-minus (show_ℕ n)) small scale

-- An integer of 64 bits that is printed in decimal and read back at a scale gives what the same
-- integer gives unprinted: its multiple of the power of ten, or none where 128 bits do not hold it.
pub parse_decimal-show_ℤ :
    (v : ℤ) (k : ℕ)
    → fits_signed 63 v ≡ true
    → k < 2 ^ 31
    → parse_decimal (show_ℤ v) (pos k) ≡ scale_int v (pos k)
unfolding show_ℤ
parse_decimal-show_ℤ (pos n) k fits scale =
    let (c, s, e, h, _) = shown n in
    ap (λ t. parse_decimal t (pos k)) e
    ∙ parse_decimal-plain c s (pos k) (All-map digit-IsPlain (c ∷ s) h)
    ∙ parse_mantissa-show_ℕ (c ∷ s) false n k
        (split_sign-digits c s h.0 ∙ ap (λ d. (false, d)) (sym e))
        (omega (arith, ltb→lt n (2 ^ 63) fits)) scale
    ∙ shift-positive n k
parse_decimal-show_ℤ (negsuc n) k fits scale =
    let n_fits = ltb→lt n (2 ^ 63) fits in
    parse_decimal-minus (suc n) k (omega (arith, n_fits)) scale
    ∙ ap (λ m. shift_by m (pos k) >>= λ v. some (signed true v)) (omega arith)
    ∙ shift-negative n k (omega (arith, n_fits))
