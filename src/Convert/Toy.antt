-- ===== src/Convert/Toy.antt =====
-- Floats without a fraction, and texts for what the crate `bson` prints. They serve the examples only.
use auger.Base.{true, none, refl, codes}
use auger.Base.Int.{pos}
use auger.Decimal.{show_ℕ}
use auger.Arrow.Array.{Checks}
use auger.Convert.Scalars.{Values}

abbrev pub vals : Values
vals = record {
  is_integral = λ v. true;
  f64_to_i64 = λ v. pos 0;
  i64_to_f64 = λ v. 0;
  show_f64 = show_ℕ;
  parse_f64 = λ t. none;
  show_decimal = λ b. codes "1.5";
  to_hex = λ b. b;
  rfc3339 = λ t. none;
  extjson = λ v. codes "{}";
  f64_to_i64-fits = λ v. refl;
}

-- Every precision and scale is accepted, and so is every struct and every list.
abbrev pub checks : Checks
checks = record {
  decimal_type = λ p s. true;
  struct_fits = λ fs c valid. true;
  list_fits = λ item offsets child valid. true;
  struct_fits-typed = λ fs c valid types lens nullable. refl;
  list_fits-typed = λ item offsets child valid type nullable len within. refl;
}
