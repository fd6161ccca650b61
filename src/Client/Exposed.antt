-- ===== src/Client/Exposed.antt =====
-- mongo/client.rs: which databases and collections are exposed, and what a connection string gives away.
use auger.Base.{
  ℕ, Bool, true, false, not, ◌||◌, List, [], ◌∷◌, ◌++◌, none, some, ◌≡◌, ◌≢◌, ◌↔◌, ◌⊎◌, inl, inr,
  refl, sym, ◌∙◌, ap, ap₂, Text, codes, text_eq, text_eq_iff, starts_with, any, all, All, filter,
  In, In-filter, filter-In, arith, ◌==◌, ==_iff, ==_refl, &&-eq-true, Bool-cases, Option-cases,
}
use auger.Base.Results.{ok}
use auger.Config.{MongoConfig}
use auger.Driver.{Driver}
use auger.Client.{
  system_databases, system_prefix, matches_prefix, databases, collections, redact, split_once,
  strip_star,
}

not-eq-true : (b : Bool) → not b ≡ true → b ≡ false
not-eq-true b h = ground arith

not-eq-false : (b : Bool) → b ≡ false → not b ≡ true
not-eq-false b h = ground arith

some_injective : {a b : Text} → some a ≡ some b → a ≡ b
some_injective h = cc

starts_with_iff : (s p : Text) → (starts_with s p ≡ true) ↔ ((rest : Text) × (s ≡ p ++ rest))
unfolding starts_with
starts_with_iff s p = (to s p, λ (rest, e). rw (e) (from p rest))
  where
    to : (s p : Text) → starts_with s p ≡ true → (rest : Text) × (s ≡ p ++ rest)
    to s [] h = (s, refl)
    to [] (y ∷ p) h = absurd cc
    to (x ∷ s) (y ∷ p) h =
        let (own, others) = &&-eq-true (x == y) (starts_with s p) h in
        let (rest, e) = to s p others in (rest, ap₂ ◌∷◌ ((==_iff x y).0 own) e)

    from : (p rest : Text) → starts_with (p ++ rest) p ≡ true
    from [] rest = refl
    from (x ∷ p) rest = rw (==_refl x, from p rest) refl

-- A pattern that ends in a star, and one that does not.
strip_star-some : (p prefix : Text) → strip_star p ≡ some prefix → p ≡ prefix ++ codes "*"
unfolding strip_star text_eq
strip_star-some [] prefix h = absurd cc
strip_star-some (c ∷ []) prefix h = elim (Bool-cases (c == b'*')) [
  | inl star ↦
      let e : [] ≡ prefix = some_injective (rw star at h) in rw (← e, (==_iff c b'*').0 star) refl
  | inr other ↦ absurd (none_some (rw other at h))
]
  where
    none_some : none ≡ some prefix → ⊥
    none_some k = cc
strip_star-some (c ∷ d ∷ p) prefix h = elim (Option-cases (strip_star (d ∷ p))) [
  | inl e ↦ absurd (none_some (rw (e, strip_star) at h))
  | inr (t, e) ↦
      let k : c ∷ t ≡ prefix = some_injective (rw (e, strip_star) at h) in
      ap (◌∷◌ c) (strip_star-some (d ∷ p) t e) ∙ ap (λ u. u ++ codes "*") k
]
  where
    none_some : none ≡ some prefix → ⊥
    none_some k = cc

strip_star-append : (prefix : Text) → strip_star (prefix ++ codes "*") ≡ some prefix
unfolding strip_star text_eq
strip_star-append [] = refl
strip_star-append (c ∷ []) = refl
strip_star-append (c ∷ d ∷ prefix) = rw (strip_star-append (d ∷ prefix)) refl

-- A name that a pattern stands for: the pattern itself, or, where it ends in a star, any name that begins
-- with what is before the star.
abbrev pub Matches : Text → Text → Type 0
Matches p n =
    (p ≡ n) ⊎ ((prefix : Text) × (rest : Text) × (p ≡ prefix ++ codes "*") × (n ≡ prefix ++ rest))

matches_prefix_iff : (p n : Text) → (matches_prefix p n ≡ true) ↔ Matches p n
unfolding matches_prefix
matches_prefix_iff p n = elim (Option-cases (strip_star p)) [
  | inl plain ↦ (
    λ h. inl ((text_eq_iff p n).0 (rw (plain, matches_prefix) at h)),
    λ m. elim m [
      | inl e ↦ rw (plain, matches_prefix) ((text_eq_iff p n).1 e)
      | inr (prefix, rest, e, f) ↦
          absurd (none_some (sym plain ∙ ap strip_star e ∙ strip_star-append prefix))
    ],
  )
  | inr (prefix, starred) ↦ (
    λ h.
        let (rest, e) = (starts_with_iff n prefix).0 (rw (starred, matches_prefix) at h) in
        inr (prefix, rest, strip_star-some p prefix starred, e),
    λ m. elim m [
      | inl e ↦
          rw (starred, matches_prefix)
            ((starts_with_iff n prefix).1 (codes "*", sym e ∙ strip_star-some p prefix starred))
      | inr (prefix', rest, e, f) ↦
          let same : prefix ≡ prefix' =
            some_injective (sym starred ∙ ap strip_star e ∙ strip_star-append prefix') in
          rw (starred, matches_prefix)
            ((starts_with_iff n prefix).1 (rest, f ∙ ap (λ t. t ++ rest) (sym same)))
    ],
  )
]
  where
    none_some : {t : Text} → none ≡ some t → ⊥
    none_some k = cc

any_none :
    (n : Text) (ps : List Text)
    → (any (λ p. matches_prefix p n) ps ≡ false) ↔ All (λ p. ¬ Matches p n) ps
any_none n [] = (λ h. tt, λ h. refl)
any_none n (p ∷ ps) = elim (Bool-cases (matches_prefix p n)) [
  | inl e ↦ (
    λ h. absurd (true_false (rw (e) at h)),
    λ (own, others). absurd (own ((matches_prefix_iff p n).0 e)),
  )
  | inr e ↦ (
    λ h. (
      λ m. absurd (true_false (sym ((matches_prefix_iff p n).1 m) ∙ e)),
      (any_none n ps).0 (rw (e) at h),
    ),
    λ (own, others). rw (e) ((any_none n ps).1 others),
  )
]
  where
    true_false : true ≡ false → ⊥
    true_false k = cc

-- A Boolean test against the statement that it decides.
false_iff {ℓ} : {P : Type ℓ} {b : Bool} → (b ≡ true) ↔ P → (b ≡ false) ↔ (¬ P)
false_iff {b = true} (to, from) = (λ h. absurd cc, λ n. absurd (n (to refl)))
false_iff {b = false} (to, from) = (λ h p. absurd (false_true (from p)), λ n. refl)
  where
    false_true : false ≡ true → ⊥
    false_true k = cc

module _ (driver : Driver) (cfg : MongoConfig) where
  -- Of the collections that the server lists, those are exposed that neither begin with `system.` nor
  -- are named by an exclusion pattern, by its text or, if the pattern ends in a star, by what is before
  -- the star; and no others.
  pub collections_iff :
      (db : Text) (names : List Text) (n : Text)
      → driver.list_collection_names db ≡ ok names
      → (out : List Text) × (collections driver cfg db ≡ ok out)
        × (In n out ↔ (
            In n names
            × (¬ ((rest : Text) × (n ≡ codes "system." ++ rest)))
            × All (λ p. ¬ Matches p n) cfg.exclude_collections))
  unfolding collections
  collections_iff db names n e = (
    filter shown (filter own names),
    rw (e) refl,
    (
      λ i.
          let (j, visible) = In-filter shown (filter own names) i in
          let (k, mine) = In-filter own names j in
          (
            k,
            (false_iff (starts_with_iff n system_prefix)).0 (not-eq-true _ mine),
            (any_none n cfg.exclude_collections).0 (not-eq-true _ visible),
          ),
      λ (i, mine, visible).
          filter-In shown (filter own names)
            (filter-In own names i
              (not-eq-false _ ((false_iff (starts_with_iff n system_prefix)).1 mine)))
            (not-eq-false _ ((any_none n cfg.exclude_collections).1 visible)),
    ),
  )
    where
      own : Text → Bool
      own m = not (starts_with m system_prefix)

      shown : Text → Bool
      shown m = not (any (λ p. matches_prefix p m) cfg.exclude_collections)

  three :
      (a b c : Bool) → (a || (b || (c || false))) ≡ false → (a ≡ false) × (b ≡ false) × (c ≡ false)
  three a b c h = (ground arith, ground arith, ground arith)

  three_back :
      (a b c : Bool) → a ≡ false → b ≡ false → c ≡ false → (a || (b || (c || false))) ≡ false
  three_back a b c h k l = ground arith

  -- Where no databases are configured, one of the server's is exposed exactly if it is none of `admin`,
  -- `local` and `config`.
  pub databases_iff :
      (names : List Text) (n : Text)
      → cfg.databases ≡ []
      → driver.list_database_names ≡ ok names
      → (out : List Text) × (databases driver cfg ≡ ok out)
        × (In n out
            ↔ (In n names × (n ≢ codes "admin") × (n ≢ codes "local") × (n ≢ codes "config")))
  unfolding databases
  databases_iff names n none_configured e = (
    filter exposed names,
    rw (none_configured, e) refl,
    (
      λ i.
          let (j, h) = In-filter exposed names i in
          let (x, y, z) = three _ _ _ (not-eq-true _ h) in
          (
            j,
            (false_iff (text_eq_iff n (codes "admin"))).0 x,
            (false_iff (text_eq_iff n (codes "local"))).0 y,
            (false_iff (text_eq_iff n (codes "config"))).0 z,
          ),
      λ (i, x, y, z). filter-In exposed names i (
          not-eq-false _ (
            three_back _ _ _ ((false_iff (text_eq_iff n (codes "admin"))).1 x)
              ((false_iff (text_eq_iff n (codes "local"))).1 y)
              ((false_iff (text_eq_iff n (codes "config"))).1 z))),
    ),
  )
    where
      exposed : Text → Bool
      exposed m = not (any (text_eq m) system_databases)

-- A text without a character.
abbrev pub lacks : ℕ → Text → Bool
lacks c s = all (λ x. not (x == c)) s

split_once-scheme :
    (scheme rest : Text)
    → lacks b':' scheme ≡ true
    → split_once (codes "://") (scheme ++ (codes "://" ++ rest)) ≡ some (scheme, rest)
unfolding split_once starts_with
split_once-scheme [] rest h = refl
split_once-scheme (c ∷ scheme) rest h =
    let (own, others) = &&-eq-true (not (c == b':')) _ h in
    rw (not-eq-true _ own, split_once-scheme scheme rest others) refl

split_once-at :
    (creds host : Text)
    → lacks b'@' creds ≡ true
    → split_once (codes "@") (creds ++ (b'@' ∷ host)) ≡ some (creds, host)
unfolding split_once starts_with
split_once-at [] host h = refl
split_once-at (c ∷ creds) host h =
    let (own, others) = &&-eq-true (not (c == b'@')) _ h in
    rw (not-eq-true _ own, split_once-at creds host others) refl

-- The credentials of a connection string leave no trace in what is logged, where they hold no `@`: the
-- text is the same for all credentials.
pub redact-credentials :
    (scheme creds host : Text)
    → lacks b':' scheme ≡ true
    → lacks b'@' creds ≡ true
    → redact (scheme ++ (codes "://" ++ (creds ++ (b'@' ∷ host))))
      ≡ scheme ++ (codes "://***@" ++ host)
unfolding redact
redact-credentials scheme creds host h k =
    rw (split_once-scheme scheme (creds ++ (b'@' ∷ host)) h, redact)
      (rw (split_once-at creds host k) refl)
