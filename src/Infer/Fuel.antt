-- ===== src/Infer/Fuel.antt =====
-- catalog/infer.rs, `unify`: the fuel that its model runs on is enough.
use auger.Base.{
  ℕ, zero, suc, ◌+◌, ◌-◌, ◌≤◌, Bool, ◌||◌, ◌≡◌, refl, ◌∙◌, ap, ap₂, Text, if◌then◌else◌, arith,
  Bool-cases, inl, inr, text_eq,
}
use auger.Infer.Shape.{
  Shape, FieldShape, slot, Slots, size, size_slot, size_slots, Join, join_slots, merge_one, merge,
  join_arms, join, unify, shape_eq, text_lt,
}

pub size_pos : (s : Shape) → 1 ≤ size s
unfolding size
size_pos Shape.unknown = omega arith
size_pos _ = omega arith

-- A join is no larger than its two sides together.
abbrev IsBounded : Join → Type 0
IsBounded rec = (a b : Shape) (m : Bool) → size (rec a b m).0 ≤ size a + size b

module _ (rec : Join) (bounded : IsBounded rec) where
  size-join_slots : (f g : FieldShape) → size_slot (join_slots rec f g) ≤ size_slot f + size_slot g
  unfolding size join_slots
  size-join_slots (slot s p n m) (slot s' p' n' m') = bounded s s' (m || m')

  size-merge_one :
      (l : Slots) (key : Text) (rv : FieldShape)
      → size_slots (merge_one rec l key rv) ≤ size_slots l + size_slot rv
  unfolding size merge_one
  size-merge_one Slots.nil key rv = omega arith
  size-merge_one (Slots.cons j lv l) key rv =
      let one = size-join_slots lv rv in
      let rest = size-merge_one l key rv in
      elim (Bool-cases (text_eq j key)) [
        | inl e ↦ rw e (omega arith)
        | inr e ↦ elim (Bool-cases (text_lt key j)) [
          | inl f ↦ rw (e, f) (omega arith)
          | inr f ↦ rw (e, f) (omega arith)
        ]
      ]

  size-merge : (l r : Slots) → size_slots (merge rec l r) ≤ size_slots l + size_slots r
  unfolding size merge
  size-merge l Slots.nil = omega arith
  size-merge l (Slots.cons key rv r) =
      omega (arith, size-merge (merge_one rec l key rv) r, size-merge_one l key rv)

  size-join_arms : (a b : Shape) (m : Bool) → size (join_arms rec a b m).0 ≤ size a + size b
  unfolding size join_arms
  size-join_arms (Shape.array a) (Shape.array b) m = omega (arith, bounded a b m)
  size-join_arms (Shape.array a) Shape.unknown m = omega arith
  size-join_arms Shape.unknown b m = omega arith
  size-join_arms (Shape.array a) Shape.json m = omega arith
  size-join_arms Shape.json (Shape.array b) m = omega arith
  size-join_arms Shape.json _ m = omega arith
  size-join_arms (Shape.array a) other m = omega (arith, bounded a other m)
  size-join_arms other (Shape.array b) m = omega (arith, bounded b other m)
  size-join_arms (Shape.document l) (Shape.document r) m = omega (arith, size-merge l r)
  size-join_arms _ _ m = omega arith

size-join : (k : ℕ) → IsBounded (join k)
unfolding join
size-join zero a b m = omega arith
size-join (suc k) a b m = elim (Bool-cases (shape_eq a b)) [
  | inl e ↦ rw (e, join) (omega arith)
  | inr e ↦ rw (e, join) (size-join_arms (join k) (size-join k) a b m)
]

-- Two functions that agree on shapes of `h` nodes together.
abbrev Agree : Join → Join → ℕ → Type 0
Agree rec rec' h = (a b : Shape) (m : Bool) → size a + size b ≤ h → rec a b m ≡ rec' a b m

module _ (rec rec' : Join) (bounded : IsBounded rec') (h : ℕ) (agree : Agree rec rec' h) where
  join_slots-agree :
      (f g : FieldShape) → size_slot f + size_slot g ≤ h → join_slots rec f g ≡ join_slots rec' f g
  unfolding size join_slots
  join_slots-agree (slot s p n m) (slot s' p' n' m') le =
      ap (λ (x : Shape × Bool). slot x.0 (p + p') (n + n') x.1) (agree s s' (m || m') le)

  merge_one-agree :
      (l : Slots) (key : Text) (rv : FieldShape)
      → size_slots l + size_slot rv ≤ h
      → merge_one rec l key rv ≡ merge_one rec' l key rv
  unfolding size merge_one
  merge_one-agree Slots.nil key rv le = refl
  merge_one-agree (Slots.cons j lv l) key rv le =
      ap₂
        (λ both rest.
          if text_eq j key
          then Slots.cons j both l
          else if text_lt key j
          then Slots.cons key rv (Slots.cons j lv l)
          else Slots.cons j lv rest)
        (join_slots-agree lv rv (omega arith)) (merge_one-agree l key rv (omega arith))

  merge-agree : (l r : Slots) → size_slots l + size_slots r ≤ h → merge rec l r ≡ merge rec' l r
  unfolding size merge
  merge-agree l Slots.nil le = refl
  merge-agree l (Slots.cons key rv r) le =
      ap (λ x. merge rec x r) (merge_one-agree l key rv (omega arith))
      ∙ merge-agree (merge_one rec' l key rv) r
          (omega (arith, size-merge_one rec' bounded l key rv))

  join_arms-agree :
      (a b : Shape) (m : Bool)
      → size a + size b ≤ suc h
      → join_arms rec a b m ≡ join_arms rec' a b m
  unfolding size join_arms
  join_arms-agree (Shape.array a) (Shape.array b) m le =
      ap (λ (x : Shape × Bool). (Shape.array x.0, x.1)) (agree a b m (omega arith))
  join_arms-agree (Shape.array a) Shape.unknown m le = refl
  join_arms-agree Shape.unknown b m le = refl
  join_arms-agree (Shape.array a) Shape.json m le = refl
  join_arms-agree Shape.json (Shape.array b) m le = refl
  join_arms-agree Shape.json _ m le = refl
  join_arms-agree (Shape.array a) other m le =
      ap (λ (x : Shape × Bool). (Shape.array x.0, x.1)) (agree a other m (omega arith))
  join_arms-agree other (Shape.array b) m le =
      ap (λ (x : Shape × Bool). (Shape.array x.0, x.1)) (agree b other m (omega arith))
  join_arms-agree (Shape.document l) (Shape.document r) m le =
      ap (λ x. (Shape.document x, m)) (merge-agree l r (omega arith))
  join_arms-agree _ _ m le = refl

join-agree :
    (k k' : ℕ) (a b : Shape) (m : Bool)
    → size a + size b ≤ k
    → size a + size b ≤ k'
    → join k a b m ≡ join k' a b m
unfolding join
join-agree zero k' a b m le le' = absurd (omega (arith, size_pos a))
join-agree (suc k) zero a b m le le' = absurd (omega (arith, size_pos a))
join-agree (suc k) (suc k') a b m le le' = elim (Bool-cases (shape_eq a b)) [
  | inl e ↦ rw (e, join) refl
  | inr e ↦
      let h = size a + size b - 1 in
      rw (e, join)
        (join_arms-agree (join k) (join k') (size-join k') h
          (λ x y n small.
            join-agree k k' x y n (omega (arith, size_pos a)) (omega (arith, size_pos a)))
          a b m (omega arith))
]

-- The function with fuel satisfies the equation by which the source defines it, with itself as the
-- recursive call: the fuel never runs out.
unify-join_arms :
    (a b : Shape) (m : Bool)
    → unify a b m ≡ (if shape_eq a b then (a, m) else join_arms unify a b m)
unfolding unify join
unify-join_arms a b m =
    let h = size a + size b - 1 in
    let step =
      join-agree (size a + size b) (suc h) a b m (omega arith) (omega (arith, size_pos a)) in
    elim (Bool-cases (shape_eq a b)) [
      | inl e ↦ step ∙ rw (e, join) refl
      | inr e ↦
          step
          ∙ rw (e, join)
              (join_arms-agree (join h) unify (λ x y n. size-join (size x + size y) x y n) h
                (λ x y n small. join-agree h (size x + size y) x y n small (omega arith)) a b m
                (omega (arith, size_pos a)))
    ]
