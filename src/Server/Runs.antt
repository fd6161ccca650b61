-- ===== src/Server/Runs.antt =====
-- server/compat.rs: the runs of characters that `take_while`, `drop_while` and `trim_start` find.
use auger.Base.{
  ℕ, zero, suc, Bool, true, [], ◌∷◌, ◌++◌, map, Text, ◌==◌, ==_iff, ◌≡◌, refl, ap, ap₂, Bool-cases,
  inl, inr, All, take, drop, length, starts_with, &&-eq-true,
}
use auger.Whitespace.{is_whitespace, trim_start}
use auger.Server.Compat.{take_while, drop_while}

-- The text is a run of characters with `p`, and a rest that does not begin with one.
abbrev pub IsRun : (ℕ → Bool) → Text → Text → Text → Type 0
IsRun p s run rest = (s ≡ run ++ rest) × All (λ c. p c ≡ true) run

pub take_while-IsRun : (p : ℕ → Bool) (s : Text) → IsRun p s (take_while p s) (drop_while p s)
unfolding take_while drop_while
take_while-IsRun p [] = (refl, tt)
take_while-IsRun p (c ∷ s) =
    let (e, h) = take_while-IsRun p s in
    elim (Bool-cases (p c)) [
      | inl yes_run ↦ rw (yes_run) (ap (◌∷◌ c) e, (yes_run, h))
      | inr no_run ↦ rw (no_run) (refl, tt)
    ]

pub trim_start-IsRun : (s : Text) → (blanks : Text) × IsRun is_whitespace s blanks (trim_start s)
unfolding trim_start
trim_start-IsRun [] = ([], (refl, tt))
trim_start-IsRun (c ∷ s) =
    let (blanks, (e, h)) = trim_start-IsRun s in
    elim (Bool-cases (is_whitespace c)) [
      | inl blank ↦ rw (blank) (c ∷ blanks, (ap (◌∷◌ c) e, (blank, h)))
      | inr solid ↦ rw (solid) ([], (refl, tt))
    ]

pub starts_with-split : (s p : Text) → starts_with s p ≡ true → s ≡ p ++ drop (length p) s
unfolding starts_with
starts_with-split s [] h = refl
starts_with-split [] (y ∷ p) h = absurd cc
starts_with-split (x ∷ s) (y ∷ p) h =
    let (own, others) = &&-eq-true (x == y) (starts_with s p) h in
    ap₂ ◌∷◌ ((==_iff x y).0 own) (starts_with-split s p others)

pub map-drop : (f : ℕ → ℕ) (n : ℕ) (s : Text) → map f (drop n s) ≡ drop n (map f s)
map-drop f zero s = refl
map-drop f (suc n) [] = refl
map-drop f (suc n) (c ∷ s) = map-drop f n s

pub map-take : (f : ℕ → ℕ) (n : ℕ) (s : Text) → map f (take n s) ≡ take n (map f s)
map-take f zero s = refl
map-take f (suc n) [] = refl
map-take f (suc n) (c ∷ s) = ap (◌∷◌ (f c)) (map-take f n s)

pub take-own : (p s : Text) → take (length p) (p ++ s) ≡ p
take-own [] s = refl
take-own (c ∷ p) s = ap (◌∷◌ c) (take-own p s)

pub take-drop : (n : ℕ) (s : Text) → take n s ++ drop n s ≡ s
take-drop zero s = refl
take-drop (suc n) [] = refl
take-drop (suc n) (c ∷ s) = ap (◌∷◌ c) (take-drop n s)
