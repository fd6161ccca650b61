-- ===== src/Server/Stripping.antt =====
-- server/compat.rs: what `strip_pg_catalog_prefix` takes out of a query.
use auger.Base.{
  ℕ, zero, suc, Bool, true, false, ◌||◌, [], ◌∷◌, ◌++◌, map, Text, codes, ◌==◌, ◌≡◌, sym, ◌∙◌, ap,
  subst, Bool-cases, inl, inr, All, take, drop, starts_with, ascii_lower,
}
use auger.Whitespace.{is_whitespace, trim_start}
use auger.Server.Compat.{strip_from, strip_pg_catalog_prefix, take_while, drop_while, is_call}
use auger.Server.Runs.{
  take_while-IsRun, trim_start-IsRun, starts_with-split, map-drop, map-take, take-own, take-drop,
}

-- A name of letters, digits and underscores, blanks, and an open parenthesis.
abbrev pub IsCall : (ℕ → Bool) → Text → Type 0
IsCall is_alphanumeric s =
    (name : Text) × (blanks : Text) × (rest : Text) × (s ≡ name ++ (blanks ++ (b'(' ∷ rest)))
    × All (λ c. (is_alphanumeric c || c == b'_') ≡ true) name
    × All (λ c. is_whitespace c ≡ true) blanks

-- The second text is the first without some of its `pg_catalog.` that stand before a call, in whatever
-- case they are written.
pub data IsStripped (is_alphanumeric : ℕ → Bool) : Text → Text → Type 0 where
  done : IsStripped is_alphanumeric [] []
  keep :
      {c : ℕ} {s t : Text}
      → IsStripped is_alphanumeric s t
      → IsStripped is_alphanumeric (c ∷ s) (c ∷ t)
  cut :
      (qualifier : Text) {s t : Text}
      → map ascii_lower qualifier ≡ codes "pg_catalog."
      → IsCall is_alphanumeric (map ascii_lower s)
      → IsStripped is_alphanumeric s t
      → IsStripped is_alphanumeric (qualifier ++ s) t

module _ (is_alphanumeric : ℕ → Bool) where
  abbrev Strip : Text → ℕ → Bool → Text
  Strip = strip_from is_alphanumeric

  is_call-IsCall : (s : Text) → is_call is_alphanumeric s ≡ true → IsCall is_alphanumeric s
  unfolding is_call
  is_call-IsCall s h =
      let name = take_while (λ c. is_alphanumeric c || c == b'_') s in
      let (e, own) = take_while-IsRun (λ c. is_alphanumeric c || c == b'_') s in
      let behind = drop_while (λ c. is_alphanumeric c || c == b'_') s in
      let (blanks, (f, white)) = trim_start-IsRun behind in
      let open_at = starts_with-split (trim_start behind) (codes "(") h in
      (
        name,
        blanks,
        drop 1 (trim_start behind),
        e ∙ ap (λ t. name ++ t) (f ∙ ap (λ t. blanks ++ t) open_at),
        own,
        white,
      )

  -- A qualifier in front of a call is left out with what follows it.
  cut-IsStripped :
      (c : ℕ) (s t : Text)
      → starts_with (map ascii_lower (c ∷ s)) (codes "pg_catalog.") ≡ true
      → is_call is_alphanumeric (drop 11 (map ascii_lower (c ∷ s))) ≡ true
      → IsStripped is_alphanumeric (drop 10 s) t
      → IsStripped is_alphanumeric (c ∷ s) t
  cut-IsStripped c s t starts call i =
      let lower = map ascii_lower (c ∷ s) in
      let whole = starts_with-split lower (codes "pg_catalog.") starts in
      let named : map ascii_lower (take 11 (c ∷ s)) ≡ codes "pg_catalog." =
        map-take ascii_lower 11 (c ∷ s)
        ∙ ap (take 11) whole
        ∙ take-own (codes "pg_catalog.") (drop 11 lower) in
      let called : IsCall is_alphanumeric (map ascii_lower (drop 10 s)) =
        subst (IsCall is_alphanumeric) (sym (map-drop ascii_lower 10 s))
          (is_call-IsCall (drop 11 lower) call) in
      subst (λ u. IsStripped is_alphanumeric u t) (take-drop 11 (c ∷ s))
        (IsStripped.cut (take 11 (c ∷ s)) named called i)

  strip_from-IsStripped :
      (c : ℕ) (s : Text) (b : Bool)
      → IsStripped is_alphanumeric (drop 10 s) (Strip s 10 false)
      → IsStripped is_alphanumeric s (Strip s 10 true)
      → IsStripped is_alphanumeric s (Strip s 0 true)
      → IsStripped is_alphanumeric (c ∷ s) (Strip (c ∷ s) 0 b)
  unfolding strip_from
  strip_from-IsStripped c s b dropped kept other =
      elim (Bool-cases (starts_with (map ascii_lower (c ∷ s)) (codes "pg_catalog."))) [
        | inl starts ↦
            elim (Bool-cases (is_call is_alphanumeric (drop 11 (map ascii_lower (c ∷ s))))) [
              | inl call ↦ rw (starts, call) (cut-IsStripped c s _ starts call dropped)
              | inr plain ↦ rw (starts, plain) (IsStripped.keep kept)
            ]
        | inr elsewhere ↦ rw (elsewhere) (IsStripped.keep other)
      ]

  mutual
    unfolding strip_from

    kept-IsStripped : (s : Text) (left : ℕ) → IsStripped is_alphanumeric s (Strip s left true)
    kept-IsStripped [] left = IsStripped.done
    kept-IsStripped (c ∷ s) (suc k) = IsStripped.keep (kept-IsStripped s k)
    kept-IsStripped (c ∷ s) zero =
        strip_from-IsStripped c s true (dropped-IsStripped s 10) (kept-IsStripped s 10)
          (kept-IsStripped s 0)

    dropped-IsStripped :
        (s : Text) (left : ℕ) → IsStripped is_alphanumeric (drop left s) (Strip s left false)
    dropped-IsStripped [] zero = IsStripped.done
    dropped-IsStripped [] (suc k) = IsStripped.done
    dropped-IsStripped (c ∷ s) (suc k) = dropped-IsStripped s k
    dropped-IsStripped (c ∷ s) zero =
        strip_from-IsStripped c s false (dropped-IsStripped s 10) (kept-IsStripped s 10)
          (kept-IsStripped s 0)

  -- Stripping the qualifier of catalog functions takes nothing out of a query but `pg_catalog.`, in any
  -- case, and that only where a name and an open parenthesis follow; everything else stays, in its
  -- order, and nothing is put in.
  pub strip_pg_catalog_prefix-IsStripped :
      (sql : Text) → IsStripped is_alphanumeric sql (strip_pg_catalog_prefix is_alphanumeric sql)
  unfolding strip_pg_catalog_prefix
  strip_pg_catalog_prefix-IsStripped sql = kept-IsStripped sql 0
