-- ===== src/Pipeline/Projection.antt =====
-- mongo/pipeline.rs, `projection_doc`: what a `$project` document asks for.
use auger.Base.{
  ℕ, suc, ◌<◌, Bool, true, false, not, ◌&&◌, ◌||◌, List, [], ◌∷◌, none, some, ◌≡◌, ◌⊎◌, inl, inr,
  refl, sym, ◌∙◌, arith, zero, ◌++◌, append_assoc, ltb, ◌==◌, length-append, Text, codes,
  if◌then◌else◌, Bool-cases, length, get_elem?, any, In, here, there, starts_with, text_eq,
  text_eq_iff,
}
use auger.Base.Int.{pos}
use auger.Bson.{Bson, int32, Document, end, Insertion, get}
use auger.Pipeline.{is_strict_prefix, kept, is_id, project_onto, projection_doc}

any-eq-false {ℓ} :
    {A : Type ℓ} (p : A → Bool) (xs : List A) {a : A} → any p xs ≡ false → In a xs → p a ≡ false
any-eq-false p [] h m = elim m [ ]
any-eq-false p (x ∷ xs) h (here e) = rw (← e) (ground arith)
any-eq-false p (x ∷ xs) h (there m) = any-eq-false p xs (ground arith) m

any-eq-true {ℓ} :
    {A : Type ℓ} (p : A → Bool) (xs : List A) → any p xs ≡ true → (a : A) × In a xs × (p a ≡ true)
any-eq-true p [] h = cc
any-eq-true p (x ∷ xs) h = elim (Bool-cases (p x)) [
  | inl e ↦ (x, here refl, e)
  | inr e ↦ let (a, m, pa) = any-eq-true p xs (ground arith) in (a, there m, pa)
]

-- A path that survives the loop is a requested one with no shorter one in the request.
abbrev IsKept : List Text → List Text → Text → Type 0
IsKept paths rest a = In a rest × (any (λ other. is_strict_prefix other a) paths ≡ false)

IsKept-cons :
    (paths rest : List Text) (p : Text) {a : Text}
    → any (λ other. is_strict_prefix other p) paths ≡ false
    → (In a (kept paths rest) → IsKept paths rest a)
    → In a (p ∷ kept paths rest)
    → IsKept paths (p ∷ rest) a
IsKept-cons paths rest p keep ih (here e) = (here e, rw (← e) keep)
IsKept-cons paths rest p keep ih (there m) = (there (ih m).0, (ih m).1)

kept-IsKept : (paths rest : List Text) {a : Text} → In a (kept paths rest) → IsKept paths rest a
unfolding kept
kept-IsKept paths [] m = elim m [ ]
kept-IsKept paths (p ∷ rest) m = elim (Bool-cases (any (λ other. is_strict_prefix other p) paths)) [
  | inl drop ↦ let (i, k) = kept-IsKept paths rest (rw drop at m) in (there i, k)
  | inr keep ↦ IsKept-cons paths rest p keep (kept-IsKept paths rest) (rw keep at m)
]

kept-In :
    (paths rest : List Text) {a : Text}
    → In a rest
    → any (λ other. is_strict_prefix other a) paths ≡ false
    → In a (kept paths rest)
unfolding kept
kept-In paths [] m k = elim m [ ]
kept-In paths (p ∷ rest) (here e) k = rw (e, k) (here refl)
kept-In paths (p ∷ rest) {a} (there m) k =
    elim (Bool-cases (any (λ other. is_strict_prefix other p) paths)) [
      | inl drop ↦ rw drop (kept-In paths rest m k)
      | inr keep ↦ rw keep (there (kept-In paths rest m k))
    ]

starts_with-split : (s p : Text) → starts_with s p ≡ true → (r : Text) × (s ≡ p ++ r)
unfolding starts_with
starts_with-split s [] h = (s, refl)
starts_with-split [] (y ∷ p) h = cc
starts_with-split (x ∷ s) (y ∷ p) h =
    let (r, e) = starts_with-split s p (ground arith) in (r, ground arith)

starts_with-append : (p r : Text) → starts_with (p ++ r) p ≡ true
unfolding starts_with
starts_with-append [] [] = refl
starts_with-append [] (x ∷ r) = refl
starts_with-append (y ∷ p) r = ground (arith, starts_with-append p r)

get_elem?-append : (p r : Text) → get_elem? (p ++ r) (length p) ≡ get_elem? r 0
get_elem?-append [] r = refl
get_elem?-append (x ∷ p) r = get_elem?-append p r

-- The byte-level test of the code says that `path` goes on behind `prefix` with a dot.
is_strict_prefix-split :
    (prefix path : Text)
    → is_strict_prefix prefix path ≡ true
    → (r : Text) × (path ≡ prefix ++ (b'.' ∷ r))
unfolding is_strict_prefix
is_strict_prefix-split q p h =
    let (r, e) = starts_with-split p q (ground arith) in dotted r e (rw (e, get_elem?-append) at h)
  where
    dotted :
        (r : Text)
        → p ≡ q ++ r
        → (ltb (length q) (length (q ++ r))
            && starts_with (q ++ r) q
            && elim (get_elem? r 0) [ none ↦ false | some c ↦ c == b'.' ])
          ≡ true
        → (r : Text) × (p ≡ q ++ (b'.' ∷ r))
    dotted [] e k = ground arith
    dotted (c ∷ r) e k = (r, ground arith)

is_strict_prefix-append : (q r : Text) → is_strict_prefix q (q ++ (b'.' ∷ r)) ≡ true
unfolding is_strict_prefix
is_strict_prefix-append q r =
    rw (starts_with-append q (b'.' ∷ r), get_elem?-append q (b'.' ∷ r))
      (ground (arith, length-append q (b'.' ∷ r)))

is_strict_prefix_trans :
    (a b c : Text)
    → is_strict_prefix a b ≡ true
    → is_strict_prefix b c ≡ true
    → is_strict_prefix a c ≡ true
is_strict_prefix_trans a b c h k =
    let (r, e) = is_strict_prefix-split a b h in
    let (s, f) = is_strict_prefix-split b c k in
    rw (f, e) (rw append_assoc (is_strict_prefix-append a (r ++ (b'.' ∷ s))))

is_strict_prefix-length : (a b : Text) → is_strict_prefix a b ≡ true → length a < length b
unfolding is_strict_prefix
is_strict_prefix-length a b h = ground arith

abbrev Covered : List Text → Text → Type 0
Covered paths p = (q : Text) × In q (kept paths paths) × ((q ≡ p) ⊎ (is_strict_prefix q p ≡ true))

kept-Covered : (paths : List Text) (k : ℕ) (p : Text) → length p < k → In p paths → Covered paths p
kept-Covered paths zero p h m = elim h [ ]
kept-Covered paths (suc k) p h m =
    elim (Bool-cases (any (λ other. is_strict_prefix other p) paths)) [
      | inl shorter ↦
          let (q, mq, sq) = any-eq-true (λ other. is_strict_prefix other p) paths shorter in
          let (r, mr, e) =
            kept-Covered paths k q (omega (arith, is_strict_prefix-length q p sq)) mq in
          (
            r,
            mr,
            inr (elim e [
              | inl same ↦ rw same sq
              | inr prefix ↦ is_strict_prefix_trans r q p prefix sq
            ]),
          )
      | inr alone ↦ (p, kept-In paths paths m alone, inl refl)
    ]

abbrev member : Text → List Text → Bool
member k ps = any (λ p. text_eq p k) ps

member-In : (k : Text) (ps : List Text) → member k ps ≡ true → In k ps
member-In k [] h = cc
member-In k (p ∷ ps) h = elim (Bool-cases (text_eq p k)) [
  | inl e ↦ here ((text_eq_iff p k).0 e)
  | inr e ↦ there (member-In k ps (ground arith))
]

In-member : {k : Text} {ps : List Text} → In k ps → member k ps ≡ true
In-member {k} (here {x} {xs} e) = ground (arith, (text_eq_iff x k).1 e)
In-member (there m) = ground (arith, In-member m)

module _ (docs : Insertion) where
  open docs use {insert, get-insert_self, get-insert_ne}

  get-insert :
      (d : Document) (k j : Text) (v : Bson)
      → get (insert d k v) j ≡ (if text_eq k j then some v else get d j)
  get-insert d k j v = elim (Bool-cases (text_eq k j)) [
    | inl e ↦ rw (e, ← (text_eq_iff k j).0 e) (get-insert_self d k v)
    | inr e ↦ rw e (get-insert_ne d k j v e)
  ]

  project_onto-get :
      (d : Document) (w : Bool) (ps : List Text) (k : Text)
      → get (project_onto docs d w ps).0 k ≡ (if member k ps then some (int32 (pos 1)) else get d k)
  unfolding project_onto
  project_onto-get d w [] k = refl
  project_onto-get d w (p ∷ ps) k =
      project_onto-get (insert d p (int32 (pos 1))) _ ps k
      ∙ ground (arith, get-insert d p k (int32 (pos 1)))

  project_onto-wants :
      (d : Document) (w : Bool) (ps : List Text)
      → (project_onto docs d w ps).1 ≡ (w || any (λ p. is_id p) ps)
  unfolding project_onto
  project_onto-wants d w [] = ground arith
  project_onto-wants d w (p ∷ ps) =
      ground
        (arith, project_onto-wants (insert d p (int32 (pos 1))) (if is_id p then true else w) ps)

  project_onto-wants_end :
      (ps : List Text) → (project_onto docs end false ps).1 ≡ any (λ p. is_id p) ps
  project_onto-wants_end ps = project_onto-wants end false ps

  -- A kept `_id` is wanted.
  not-member-id :
      (ps : List Text) (k : Text)
      → any (λ p. is_id p) ps ≡ false
      → text_eq (codes "_id") k ≡ true
      → member k ps ≡ false
  not-member-id ps k none_wanted e = elim (Bool-cases (member k ps)) [
    | inr out ↦ out
    | inl inside ↦
        let is = any-eq-false (λ p. is_id p) ps none_wanted (member-In k ps inside) in
        let same = sym ((text_eq_iff (codes "_id") k).0 e) in
        ground (arith, (text_eq_iff k (codes "_id")).1 same)
  ]

  -- What a `$project` document says at every key: 1 for each path that is kept, `_id: 0` when no
  -- kept path is `_id` or lies below it, and nothing else.
  pub projection_doc-get :
      (paths : List Text) (k : Text)
      → get (projection_doc docs paths) k ≡ (
          if member k (kept paths paths)
          then some (int32 (pos 1))
          else if not (any (λ p. is_id p) (kept paths paths)) && text_eq (codes "_id") k
          then some (int32 (pos 0))
          else none)
  unfolding projection_doc get
  projection_doc-get paths k =
      let ps = kept paths paths in
      elim (Bool-cases (any (λ p. is_id p) ps)) [
        | inl wanted ↦ rw (project_onto-wants_end ps, wanted) (project_onto-get end false ps k)
        | inr unwanted ↦
            rw (project_onto-wants_end ps, unwanted)
              (get-insert (project_onto docs end false ps).0 (codes "_id") k (int32 (pos 0))
                ∙ ground (arith, project_onto-get end false ps k, not-member-id ps k unwanted))
      ]

  -- Every requested path is asked for, by itself or by a shorter path that contains it.
  pub projection_doc-covers :
      (paths : List Text) (p : Text)
      → In p paths
      → (q : Text) × (get (projection_doc docs paths) q ≡ some (int32 (pos 1)))
        × ((q ≡ p) ⊎ (is_strict_prefix q p ≡ true))
  projection_doc-covers paths p m =
      let (q, inside, e) = kept-Covered paths (suc (length p)) p (omega arith) m in
      (q, rw (projection_doc-get, In-member inside), e)

  -- No two paths of a projection contain one another, and each of them was requested.
  pub projection_doc-antichain :
      (paths : List Text) (p q : Text)
      → get (projection_doc docs paths) p ≡ some (int32 (pos 1))
      → get (projection_doc docs paths) q ≡ some (int32 (pos 1))
      → In p paths × (is_strict_prefix q p ≡ false)
  projection_doc-antichain paths p q hp hq =
      let kp = kept-IsKept paths paths (member-In p _ (shown p hp)) in
      let kq = kept-IsKept paths paths (member-In q _ (shown q hq)) in
      (kp.0, any-eq-false (λ other. is_strict_prefix other p) paths kp.1 kq.0)
    where
      shown :
          (k : Text)
          → get (projection_doc docs paths) k ≡ some (int32 (pos 1))
          → member k (kept paths paths) ≡ true
      shown k h = ground (arith, projection_doc-get paths k)
