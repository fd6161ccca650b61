-- ===== src/Server/Answers.antt =====
-- server/mod.rs: when the statements of a message fail, what the engine is given, and what a deadline does.
use auger.Base.{
  ℕ, suc, ◌≤◌, append_assoc, true, List, [], ◌∷◌, ◌++◌, map, Option, none, some, ◌≡◌, ◌⊎◌, refl,
  sym, ◌∙◌, ap, ap₂, Text, length, All, arith, Bool-cases, inl, inr, if◌then◌else◌,
}
use auger.Base.Results.{
  Result, ok, err, >>=-eq-ok, >>=-eq-err, Result-cases, ok_injective, ok-ne-err,
}
use auger.Config.{ServerConfig}
use auger.Server.Split.{split_statements}
use auger.Server.Values.{FieldInfo}
use auger.Server.Handler.{
  Engine, ErrorInfo, Response, run, run_all, do_query, or_empty_query, Timed, Row, is_late,
  deadline, rows_of_batch, to_row_stream, encoded, canceled,
}

later : (d : Option ℕ) (t u : ℕ) → t ≤ u → is_late d t ≡ true → is_late d u ≡ true
later none t u le h = h
later (some d) t u le h = ground arith

module _ (engine : Engine) (config : ServerConfig) where
  abbrev pub Run : Text → Result ErrorInfo Response
  Run = run engine config (λ i. 0)

  abbrev pub Answered : List Text → Type 0
  Answered ss = All (λ s. (r : Response) × (Run s ≡ ok r)) ss

  run_all-fails :
      (ss : List Text) (e : ErrorInfo)
      → run_all engine config ss ≡ err e
      → (before : List Text) × (s : Text) × (behind : List Text) × (ss ≡ before ++ (s ∷ behind))
        × Answered before
        × (Run s ≡ err e)
  unfolding run_all
  run_all-fails [] e h = absurd (ok-ne-err h)
  run_all-fails (s ∷ ss) e h = elim (>>=-eq-err (Run s) _ h) [
    | inl k ↦ ([], s, ss, refl, tt, k)
    | inr (r, er, k) ↦ elim (>>=-eq-err (run_all engine config ss) _ k) [
      | inl k' ↦
          let (before, t, behind, parts, answered, et) = run_all-fails ss e k' in
          (s ∷ before, t, behind, ap (◌∷◌ s) parts, ((r, er), answered), et)
      | inr (rs, ers, k') ↦ absurd (ok-ne-err k')
    ]
  ]

  length-run_all :
      (ss : List Text) (rs : List Response)
      → run_all engine config ss ≡ ok rs
      → length rs ≡ length ss
  unfolding run_all
  length-run_all [] rs h = ap length (sym (ok_injective h))
  length-run_all (s ∷ ss) rs h =
      let (r, er, k) = >>=-eq-ok (Run s) _ h in
      let (rs', ers, k') = >>=-eq-ok (run_all engine config ss) _ k in
      ap length (sym (ok_injective k')) ∙ ap suc (length-run_all ss rs' ers)

  -- A message of the simple protocol is answered, with one response for each of its statements (or a
  -- single one for a message without statements), or it fails as one of its statements does, the first
  -- that fails: all those before it have run.
  pub do_query-answers :
      (query : Text)
      → ((rs : List Response) × (do_query engine config query ≡ ok (or_empty_query rs))
          × (length rs ≡ length (split_statements query)))
        ⊎ ((e : ErrorInfo) × (before : List Text) × (s : Text) × (behind : List Text) × (do_query
                engine config query
              ≡ err e)
            × (split_statements query ≡ before ++ (s ∷ behind))
            × Answered before
            × (Run s ≡ err e))
  unfolding do_query
  do_query-answers query = elim (Result-cases (run_all engine config (split_statements query))) [
    | inl (rs, h) ↦ inl (rs, rw (h) refl, length-run_all (split_statements query) rs h)
    | inr (e, h) ↦
        let (before, s, behind, parts, answered, failed) =
          run_all-fails (split_statements query) e h in
        inr (e, before, s, behind, rw (h) refl, parts, answered, failed)
  ]

  -- The batches that are handled in time, and those from the first late one on.
  abbrev pub in_time : List Timed → List Timed
  in_time [] = []
  in_time (b ∷ bs) = if is_late (deadline engine config) b.0 then [] else b ∷ in_time bs

  abbrev pub late : List Timed → List Timed
  late [] = []
  late (b ∷ bs) = if is_late (deadline engine config) b.0 then b ∷ bs else late bs

  -- Time does not run backwards.
  abbrev pub IsOrdered : ℕ → List Timed → Type 0
  IsOrdered t [] = Unit
  IsOrdered t (b ∷ bs) = (t ≤ b.0) × IsOrdered b.0 bs

  abbrev pub all_rows : List FieldInfo → List Timed → List (Result ErrorInfo Row)
  all_rows fields [] = []
  all_rows fields (b ∷ bs) = encoded engine config fields b.1 ++ all_rows fields bs

  rows_of_batch-late :
      (fields : List FieldInfo) (b : Timed)
      → is_late (deadline engine config) b.0 ≡ true
      → rows_of_batch engine config fields b ≡ err canceled ∷ []
  unfolding rows_of_batch
  rows_of_batch-late fields b h = rw (h) refl

  all_late :
      (t : ℕ) (fields : List FieldInfo) (bs : List Timed)
      → is_late (deadline engine config) t ≡ true
      → IsOrdered t bs
      → to_row_stream engine config fields bs ≡ map (λ b. err canceled) bs
  unfolding to_row_stream
  all_late t fields [] h o = refl
  all_late t fields (b ∷ bs) h (le, o) =
      let h' = later (deadline engine config) t b.0 le h in
      ap₂ ◌++◌ (rows_of_batch-late fields b h') (all_late b.0 fields bs h' o)

  -- Under a statement timeout the rows of a query are those of the batches that are handled by the
  -- deadline, and each batch behind them, if there is one, gives the error of a canceled query: no row
  -- follows that error.
  pub to_row_stream-deadline :
      (t : ℕ) (fields : List FieldInfo) (bs : List Timed)
      → IsOrdered t bs
      → to_row_stream engine config fields bs
        ≡ all_rows fields (in_time bs) ++ map (λ b. err canceled) (late bs)
  unfolding to_row_stream
  to_row_stream-deadline t fields [] o = refl
  to_row_stream-deadline t fields (b ∷ bs) (le, o) =
      elim (Bool-cases (is_late (deadline engine config) b.0)) [
        | inl over ↦
            rw (over, in_time, late) (ap (◌∷◌ (err canceled)) (all_late b.0 fields bs over o))
        | inr early ↦
            rw (early, in_time, late)
              (ap (◌++◌ (encoded engine config fields b.1)) (to_row_stream-deadline b.0 fields bs o)
                ∙ sym (append_assoc (encoded engine config fields b.1) _ _))
      ]
