-- ===== src/Base/Lists.antt =====
-- Lists measured and indexed by native numbers, under the library's names.
use Prim.Native.Nat.{ℕ, zero, suc, ◌+◌}
use mathlib.Core.Path.{◌≡◌, refl, ap, sym, ◌∙◌}
use mathlib.Core.Logic.{◌⊎◌, inl, inr}
use mathlib.Core.Bool.{Bool, true, false, ◌&&◌, ◌||◌}
use mathlib.Core.List.{List, [], ◌∷◌, ◌++◌, map}
use mathlib.Core.Option.{Option, none, some}
use native.Mathlib.Omega.{arith}
use auger.Base.Tests.{if◌then◌else◌}

module _ {ℓ} {A : Type ℓ} where
  abbrev pub length : List A → ℕ
  length [] = 0
  length (x ∷ xs) = suc (length xs)

  abbrev pub get_elem? : List A → ℕ → Option A
  get_elem? [] i = none
  get_elem? (x ∷ xs) zero = some x
  get_elem? (x ∷ xs) (suc i) = get_elem? xs i

  pub length-append : (xs ys : List A) → length (xs ++ ys) ≡ length xs + length ys
  length-append [] ys = omega arith
  length-append (x ∷ xs) ys = omega (arith, length-append xs ys)

  abbrev pub take : ℕ → List A → List A
  take zero xs = []
  take (suc n) [] = []
  take (suc n) (x ∷ xs) = x ∷ take n xs

  abbrev pub drop : ℕ → List A → List A
  drop zero xs = xs
  drop (suc n) [] = []
  drop (suc n) (x ∷ xs) = drop n xs

  abbrev pub replicate : ℕ → A → List A
  replicate zero a = []
  replicate (suc n) a = a ∷ replicate n a

  abbrev pub any : (A → Bool) → List A → Bool
  any p [] = false
  any p (x ∷ xs) = p x || any p xs

  abbrev pub all : (A → Bool) → List A → Bool
  all p [] = true
  all p (x ∷ xs) = p x && all p xs

  -- A predicate that holds of every element; it computes to nested pairs.
  abbrev pub All {κ} : (A → Type κ) → List A → Type κ
  All P [] = Unit
  All P (x ∷ xs) = P x × All P xs

  -- The element at hand at a place in the list.
  pub data In (a : A) : List A → Type ℓ where
    here : {x : A} {xs : List A} → x ≡ a → In a (x ∷ xs)
    there : {x : A} {xs : List A} → In a xs → In a (x ∷ xs)

both_some {ℓ} :
    {B : Type ℓ} (o : Option B) (os : Option (List B)) {zs : List B}
    → elim o [ none ↦ none | some y ↦ elim os [ none ↦ none | some ys ↦ some (y ∷ ys) ] ] ≡ some zs
    → (y : B) × (ys : List B) × (o ≡ some y) × (os ≡ some ys) × (zs ≡ y ∷ ys)
both_some none os h = absurd cc
both_some (some y) none h = absurd cc
both_some (some y) (some ys) h = (y, ys, refl, refl, cc)

module _ {ℓ κ} {A : Type ℓ} {B : Type κ} where
  pub length-map : (f : A → B) (xs : List A) → length (map f xs) ≡ length xs
  length-map f [] = refl
  length-map f (x ∷ xs) = ap suc (length-map f xs)

  -- `iter().map(f).collect::<Option<Vec<_>>>()`: the first failure is the result.
  abbrev pub traverse : (A → Option B) → List A → Option (List B)
  traverse f [] = some []
  traverse f (x ∷ xs) = elim (f x) [
    | none ↦ none
    | some y ↦ elim (traverse f xs) [ none ↦ none | some ys ↦ some (y ∷ ys) ]
  ]

  -- What a successful traversal of a longer list is made of.
  pub traverse-cons :
      (f : A → Option B) (x : A) (xs : List A) {zs : List B}
      → traverse f (x ∷ xs) ≡ some zs
      → (y : B) × (ys : List B) × (f x ≡ some y) × (traverse f xs ≡ some ys) × (zs ≡ y ∷ ys)
  traverse-cons f x xs h = both_some (f x) (traverse f xs) h

module _ {ℓ} {A : Type ℓ} where
  -- `iter().filter(p)`
  abbrev pub filter : (A → Bool) → List A → List A
  filter p [] = []
  filter p (x ∷ xs) = let rest = filter p xs in if p x then x ∷ rest else rest

  In-if :
      {x a : A} {xs : List A} (b : Bool)
      → In a (if b then x ∷ xs else xs)
      → (x ≡ a) × (b ≡ true) ⊎ In a xs
  In-if true (here s) = inl (s, refl)
  In-if true (there j) = inr j
  In-if false j = inr j

  -- An element is kept exactly if the test holds of it.
  pub In-filter : (p : A → Bool) (xs : List A) {a : A} → In a (filter p xs) → In a xs × (p a ≡ true)
  In-filter p [] i = elim i [ ]
  In-filter p (x ∷ xs) i = elim (In-if (p x) i) [
    | inl (s, e) ↦ (here s, ap p (sym s) ∙ e)
    | inr j ↦ let (k, h) = In-filter p xs j in (there k, h)
  ]

  In-then : (x : A) {a : A} {xs : List A} (b : Bool) → In a xs → In a (if b then x ∷ xs else xs)
  In-then x true i = there i
  In-then x false i = i

  pub filter-In : (p : A → Bool) (xs : List A) {a : A} → In a xs → p a ≡ true → In a (filter p xs)
  filter-In p [] i h = elim i [ ]
  filter-In p (x ∷ xs) (here s) h = rw (ap p s ∙ h) (here s)
  filter-In p (x ∷ xs) (there j) h = In-then x (p x) (filter-In p xs j h)
