-- ===== src/Base/Results.antt =====
-- Rust's `Result`, its `?`, and iteration that stops at the first error.
use mathlib.Core.Path.{◌≡◌, refl}
use mathlib.Core.Logic.{◌⊎◌, inl, inr}
use mathlib.Core.Option.{Option, none, some}

pub data Result {ℓ} (E A : Type ℓ) : Type ℓ where
  ok : A → Result E A
  err : E → Result E A

-- `result.and_then(next)`
abbrev pub and_then {ℓ} : {E A B : Type ℓ} → (A → Result E B) → Result E A → Result E B
and_then next (err e) = err e
and_then next (ok a) = next a

-- Rust's `?`.
infixl 5 ◌>>=◌
abbrev pub ◌>>=◌ {ℓ} : {E A B : Type ℓ} → Result E A → (A → Result E B) → Result E B
r >>= next = and_then next r

-- `option.ok_or(e)`
abbrev pub ok_or {ℓ} : {E A : Type ℓ} → Option A → E → Result E A
ok_or none e = err e
ok_or (some a) e = ok a

-- `result.map_err(f)`
abbrev pub map_err {ℓ} : {D E A : Type ℓ} → (D → E) → Result D A → Result E A
map_err f (ok a) = ok a
map_err f (err d) = err (f d)

-- How a chain has succeeded: both of its steps have.
pub >>=-eq-ok {ℓ} :
    {E A B : Type ℓ} {z : B} (r : Result E A) (next : A → Result E B)
    → and_then next r ≡ ok z
    → (y : A) × (r ≡ ok y) × (next y ≡ ok z)
>>=-eq-ok (err e) next h = cc
>>=-eq-ok (ok y) next h = (y, refl, h)

-- How it has failed: its first step has, or its second.
pub >>=-eq-err {ℓ} :
    {E A B : Type ℓ} {e : E} (r : Result E A) (next : A → Result E B)
    → and_then next r ≡ err e
    → (r ≡ err e) ⊎ ((y : A) × (r ≡ ok y) × (next y ≡ err e))
>>=-eq-err (err d) next h = inl cc
>>=-eq-err (ok y) next h = inr (y, refl, h)

pub Result-cases {ℓ} :
    {E A : Type ℓ} (m : Result E A) → ((a : A) × (m ≡ ok a)) ⊎ ((e : E) × (m ≡ err e))
Result-cases (ok a) = inl (a, refl)
Result-cases (err e) = inr (e, refl)

abbrev pub IsOk {ℓ} : {E A : Type ℓ} → Result E A → A → Type ℓ
IsOk r a = r ≡ ok a

pub ok_injective {ℓ} : {E A : Type ℓ} {a b : A} → IsOk {E = E} (ok a) b → a ≡ b
ok_injective h = cc

abbrev pub IsErr {ℓ} : {E A : Type ℓ} → Result E A → E → Type ℓ
IsErr r e = r ≡ err e

pub err_injective {ℓ} : {E A : Type ℓ} {d e : E} → IsErr {A = A} (err d) e → d ≡ e
err_injective h = cc

pub err-ne-ok {ℓ} : {E A : Type ℓ} {d : E} {a : A} → ¬ (err d ≡ ok a)
err-ne-ok h = cc

pub ok-ne-err {ℓ} : {E A : Type ℓ} {d : E} {a : A} → ¬ (ok a ≡ err d)
ok-ne-err h = cc
