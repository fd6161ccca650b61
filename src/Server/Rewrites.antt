-- ===== src/Server/Rewrites.antt =====
-- server/compat.rs: what `qualify_bare_pg_catalog` puts into a query, and the range of object ids.
use auger.Base.{
  ℕ, zero, suc, ◌-◌, ◌+◌, ◌^◌, ◌<◌, Bool, true, false, not, ◌&&◌, ◌||◌, List, [], ◌∷◌, ◌++◌, map,
  Text, codes, ◌==◌, ==_iff, arith, ◌≡◌, refl, sym, ◌∙◌, ap, subst, Bool-cases, inl, inr, ◌⊎◌, All,
  In, any, take, length, text_eq, text_eq_iff, ascii_lower, is_ascii_alphabetic,
}
use auger.Server.Compat.{
  qualify_from, qualify_bare_pg_catalog, fnv_oid, is_ident, is_relation, take_while, drop_while,
}
use auger.Server.Runs.{take_while-IsRun, take-own}

abbrev pub IsEnd : Text → Type 0
IsEnd [] = Unit
IsEnd (c ∷ s) = is_ident c ≡ false

drop_while-IsEnd : (s : Text) → IsEnd (drop_while is_ident s)
unfolding drop_while
drop_while-IsEnd [] = tt
drop_while-IsEnd (c ∷ s) = elim (Bool-cases (is_ident c)) [
  | inl own ↦ rw (own) (drop_while-IsEnd s)
  | inr other ↦ rw (other) other
]

-- The text begins with the name of an emulated relation, in whatever case, as a whole word.
abbrev pub BeginsRelation : Text → Type 0
BeginsRelation s =
    (word : Text) × (rest : Text) × (s ≡ word ++ rest)
    × All (λ c. is_ident c ≡ true) word
    × IsEnd rest
    × In (map ascii_lower word) (
        codes "pg_namespace"
        ∷ codes "pg_class"
        ∷ codes "pg_attribute"
        ∷ codes "pg_type"
        ∷ codes "pg_index"
        ∷ codes "pg_roles"
        ∷ [])

-- A word behind this character is not attached to a name or a qualifier.
abbrev pub IsBare : ℕ → Type 0
IsBare prev = ((prev == b'.') ≡ false) × (is_ident prev ≡ false)

-- The second text is the first with `pg_catalog.` put in front of some words, seen from a place inside or
-- outside a literal and behind a character: outside literals, in front of each bare word that is an
-- emulated relation, and nowhere else.
pub data IsQualified : Bool → ℕ → Text → Text → Type 0 where
  done : {quoted : Bool} {prev : ℕ} → IsQualified quoted prev [] []
  quote :
      {quoted : Bool} {prev : ℕ} {s t : Text}
      → IsQualified (not quoted) b'\'' s t
      → IsQualified quoted prev (b'\'' ∷ s) (b'\'' ∷ t)
  copy :
      {quoted : Bool} {prev c : ℕ} {s t : Text}
      → (c == b'\'') ≡ false
      → (quoted ≡ false → IsBare prev → ¬ BeginsRelation (c ∷ s))
      → IsQualified quoted c s t
      → IsQualified quoted prev (c ∷ s) (c ∷ t)
  insert :
      {prev c : ℕ} {s t : Text}
      → IsBare prev
      → BeginsRelation (c ∷ s)
      → IsQualified false c s t
      → IsQualified false prev (c ∷ s) (codes "pg_catalog." ++ (c ∷ t))

relation-In :
    (word : Text)
    → is_relation word ≡ true
    → In (map ascii_lower word) (
        codes "pg_namespace"
        ∷ codes "pg_class"
        ∷ codes "pg_attribute"
        ∷ codes "pg_type"
        ∷ codes "pg_index"
        ∷ codes "pg_roles"
        ∷ [])
unfolding ascii_lower
relation-In word h = any-In (map ascii_lower word) _ h
  where
    any-In : (w : Text) (rs : List Text) → any (λ r. text_eq r w) rs ≡ true → In w rs
    any-In w [] h = absurd cc
    any-In w (r ∷ rs) h = elim (Bool-cases (text_eq r w)) [
      | inl e ↦ In.here ((text_eq_iff r w).0 e)
      | inr e ↦ In.there (any-In w rs (rw (e) at h))
    ]

ident-not_quote : (c : ℕ) → is_ident c ≡ true → (c == b'\'') ≡ false
ident-not_quote c h = ground arith

word_start :
    (c prev : ℕ)
    → ((is_ascii_alphabetic c || c == b'_') && not (prev == b'.' || is_ident prev)) ≡ true
    → (is_ident c ≡ true) × ((prev == b'.') ≡ false) × (is_ident prev ≡ false)
word_start c prev h = (ground arith, ground arith, ground arith)

-- The rest of a word is a run of its characters.
rest_of_word :
    (c : ℕ) (s : Text)
    → is_ident c ≡ true
    → All (λ x. is_ident x ≡ true) (take (length (take_while is_ident (c ∷ s)) - 1) s)
unfolding take_while
rest_of_word c s own =
    let (e, h) = take_while-IsRun is_ident s in
    let rest = take_while is_ident s in
    let run : take (length rest) s ≡ rest =
      ap (take (length rest)) e ∙ take-own rest (drop_while is_ident s) in
    let short : length rest + 1 - 1 ≡ length rest = omega arith in
    rw (own) (
      subst (λ n. All (λ x. is_ident x ≡ true) (take n s)) (word_len (length rest))
        (subst (All (λ x. is_ident x ≡ true)) (sym run) h))
  where
    word_len : (n : ℕ) → n ≡ suc n - 1
    word_len n = omega arith

begins :
    (c : ℕ) (s : Text) → is_relation (take_while is_ident (c ∷ s)) ≡ true → BeginsRelation (c ∷ s)
begins c s h =
    let (e, own) = take_while-IsRun is_ident (c ∷ s) in
    (
      take_while is_ident (c ∷ s),
      drop_while is_ident (c ∷ s),
      e,
      own,
      drop_while-IsEnd (c ∷ s),
      relation-In (take_while is_ident (c ∷ s)) h,
    )

take_while-word :
    (word rest : Text)
    → All (λ c. is_ident c ≡ true) word
    → IsEnd rest
    → take_while is_ident (word ++ rest) ≡ word
unfolding take_while
take_while-word [] [] own e = refl
take_while-word [] (c ∷ s) own e = rw (e) refl
take_while-word (c ∷ word) rest (own, others) e = rw (own, take_while-word word rest others e) refl

In-any : (w : Text) (rs : List Text) → In w rs → any (λ r. text_eq r w) rs ≡ true
In-any w [] i = elim i [ ]
In-any w (r ∷ rs) (In.here e) = rw ((text_eq_iff r w).1 e) refl
In-any w (r ∷ rs) (In.there i) = ground (arith, In-any w rs i)

-- Which relation a text begins with is decided by its first word.
begins-known : (s : Text) → BeginsRelation s → is_relation (take_while is_ident s) ≡ true
unfolding ascii_lower
begins-known s (word, rest, e, own, end, i) =
    ap (λ t. is_relation (take_while is_ident t)) e
    ∙ ap is_relation (take_while-word word rest own end)
    ∙ In-any (map ascii_lower word) _ i

false-true : ¬ (false ≡ true)
false-true k = cc

nothing-known : ¬ (is_relation [] ≡ true)
unfolding text_eq ascii_lower
nothing-known h = cc

first_letter :
    (c : ℕ) (word : Text) → is_relation (c ∷ word) ≡ true → (b'p' == ascii_lower c) ≡ true
unfolding text_eq ascii_lower
first_letter c word h = elim (Bool-cases (b'p' == ascii_lower c)) [
  | inl e ↦ e
  | inr e ↦ absurd (false-true (rw (e) at h))
]

letter : (c : ℕ) → (b'p' == ascii_lower c) ≡ true → (is_ascii_alphabetic c || c == b'_') ≡ true
unfolding ascii_lower
letter c h = ground arith

-- A relation begins with a letter.
begins-letter :
    (c : ℕ) (s : Text) → BeginsRelation (c ∷ s) → (is_ascii_alphabetic c || c == b'_') ≡ true
unfolding take_while
begins-letter c s b =
    let known = begins-known (c ∷ s) b in
    elim (Bool-cases (is_ident c)) [
      | inl own ↦ letter c (first_letter c (take_while is_ident s) (rw (own) at known))
      | inr other ↦ absurd (nothing-known (rw (other) at known))
    ]

no_start :
    (c prev : ℕ) (s : Text)
    → ((is_ascii_alphabetic c || c == b'_') && not (prev == b'.' || is_ident prev)) ≡ false
    → IsBare prev
    → ¬ BeginsRelation (c ∷ s)
no_start c prev s h (dot, joined) b =
    let start = begins-letter c s b in false-true (sym h ∙ both _ _ _ start dot joined)
  where
    both : (a d j : Bool) → a ≡ true → d ≡ false → j ≡ false → (a && not (d || j)) ≡ true
    both a d j h k l = ground arith

quote-IsQualified :
    (quoted : Bool) (prev c : ℕ) (s t : Text)
    → (c == b'\'') ≡ true
    → IsQualified (not quoted) c s t
    → IsQualified quoted prev (c ∷ s) (c ∷ t)
quote-IsQualified quoted prev c s t e i =
    let same : b'\'' ≡ c = sym ((==_iff c b'\'').0 e) in
    subst (λ x. IsQualified (not quoted) x s t → IsQualified quoted prev (x ∷ s) (x ∷ t)) same
      (λ j. IsQualified.quote j) i

qualify_from-IsQualified :
    (s : Text) (left : ℕ) (quoted : Bool) (prev : ℕ)
    → All (λ c. is_ident c ≡ true) (take left s)
    → (left ≡ 0) ⊎ (is_ident prev ≡ true)
    → IsQualified quoted prev s (qualify_from s left quoted prev)
unfolding qualify_from
qualify_from-IsQualified [] left quoted prev h w = IsQualified.done
qualify_from-IsQualified (c ∷ s) (suc k) quoted prev (own, h) w =
    IsQualified.copy (ident-not_quote c own) (λ outside bare b. attached w bare)
      (qualify_from-IsQualified s k quoted c h (inr own))
  where
    attached : (suc k ≡ 0) ⊎ (is_ident prev ≡ true) → ¬ IsBare prev
    attached (inl e) bare = omega (arith, e)
    attached (inr e) (dot, joined) = false-true (sym joined ∙ e)
qualify_from-IsQualified (c ∷ s) zero true prev h w =
    let inside = qualify_from-IsQualified s 0 true c tt (inl refl) in
    let outside = qualify_from-IsQualified s 0 false c tt (inl refl) in
    elim (Bool-cases (c == b'\'')) [
      | inl e ↦ rw (e) (quote-IsQualified true prev c s _ e outside)
      | inr e ↦ rw (e) (IsQualified.copy e (λ outside. absurd (false-true (sym outside))) inside)
    ]
qualify_from-IsQualified (c ∷ s) zero false prev h w =
    let inside = qualify_from-IsQualified s 0 true c tt (inl refl) in
    let outside = qualify_from-IsQualified s 0 false c tt (inl refl) in
    let word = qualify_from-IsQualified s (length (take_while is_ident (c ∷ s)) - 1) false c in
    elim (Bool-cases (c == b'\'')) [
      | inl e ↦ rw (e) (quote-IsQualified false prev c s _ e inside)
      | inr e ↦
          elim (Bool-cases
            ((is_ascii_alphabetic c || c == b'_') && not (prev == b'.' || is_ident prev))) [
              | inl starts ↦
                  let (own, dot, joined) = word_start c prev starts in
                  elim (Bool-cases (is_relation (take_while is_ident (c ∷ s)))) [
                    | inl known ↦
                        rw (e, starts, known)
                          (IsQualified.insert (dot, joined) (begins c s known)
                            (word (rest_of_word c s own) (inr own)))
                    | inr unknown ↦
                        rw (e, starts, unknown)
                          (IsQualified.copy e
                            (λ outside bare b. false-true (sym unknown ∙ begins-known (c ∷ s) b))
                            (word (rest_of_word c s own) (inr own)))
                  ]
              | inr other ↦
                  rw (e, other)
                    (IsQualified.copy e (λ o bare. no_start c prev s other bare) outside)
            ]
    ]

-- Qualifying the catalog relations of a query puts `pg_catalog.` in front of every whole word outside
-- literals that is one of the emulated relations and does not stand behind a dot, and puts in nothing
-- else; every character of the query is still there, in its order.
pub qualify_bare_pg_catalog-IsQualified :
    (sql : Text) → IsQualified false b' ' sql (qualify_bare_pg_catalog sql)
unfolding qualify_bare_pg_catalog
qualify_bare_pg_catalog-IsQualified sql = qualify_from-IsQualified sql 0 false b' ' tt (inl refl)

-- An object id is not negative as a signed 32-bit number.
pub fnv_oid_bound : (name : Text) → fnv_oid name < 2 ^ 31
unfolding fnv_oid
fnv_oid_bound name = omega arith
