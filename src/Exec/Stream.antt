-- ===== src/Exec/Stream.antt =====
-- mongo/exec.rs, `execute`: what a stream delivers of a cursor, and that it delivers all of it.
use auger.Base.{
  ℕ, zero, suc, ◌+◌, ◌<◌, ◌≤◌, List, [], ◌∷◌, ◌++◌, map, ◌≡◌, refl, sym, ◌∙◌, ap, subst, Text,
  length, length-append, length-map, arith, inl, inr,
}
use auger.Base.Results.{
  ok, err, >>=-eq-ok, >>=-eq-err, Result-cases, ok_injective, err-ne-ok, ok-ne-err, err_injective,
}
use auger.Errors.{DataFusionError, Result}
use auger.Bson.{Document}
use auger.Arrow.{Schema}
use auger.Driver.{Event, received, failed}
use auger.Exec.{fill, Poll, finished, broken, yielded, convert_filled, poll, stream}

-- How the loop that accumulates a batch ends well: it stops short of its size only at the end of the
-- cursor.
record IsFill (n : ℕ) (cursor : List Event) (p : List Document × List Event) : Type 0 where
  pub parts : cursor ≡ map received p.0 ++ p.1
  pub within : length p.0 ≤ n
  pub ended : length p.0 < n → p.1 ≡ []

fill-IsFill :
    (n : ℕ) (cursor : List Event) {p : List Document × List Event}
    → fill n cursor ≡ ok p
    → IsFill n cursor p
unfolding fill
fill-IsFill zero cursor e =
    subst (IsFill 0 cursor) (ok_injective e)
      (record { parts = refl; within = omega arith; ended = λ h. absurd (omega arith) })
fill-IsFill (suc n) [] e =
    subst (IsFill (suc n) []) (ok_injective e)
      (record { parts = refl; within = omega arith; ended = λ h. refl })
fill-IsFill (suc n) (received d ∷ cursor) e =
    let (p, ep, h) = >>=-eq-ok (fill n cursor) _ e in
    let i = fill-IsFill n cursor ep in
    subst (IsFill (suc n) (received d ∷ cursor)) (ok_injective h) (record {
      parts = ap (◌∷◌ (received d)) i.parts;
      within = omega (arith, i.within);
      ended = λ lt. i.ended (omega (arith, lt));
    })
fill-IsFill (suc n) (failed t ∷ cursor) e = absurd (err-ne-ok e)

-- How it ends badly: at an error of the cursor, before the batch is full.
IsBroken : ℕ → List Event → DataFusionError → Type 0
IsBroken n cursor e =
    (ds : List Document) × (t : Text) × (rest : List Event) × (cursor
      ≡ map received ds ++ (failed t ∷ rest))
    × (length ds < n)
    × (e ≡ DataFusionError.external t)

fill-IsBroken :
    (n : ℕ) (cursor : List Event) {e : DataFusionError}
    → fill n cursor ≡ err e
    → IsBroken n cursor e
unfolding fill IsBroken
fill-IsBroken zero cursor h = absurd (ok-ne-err h)
fill-IsBroken (suc n) [] h = absurd (ok-ne-err h)
fill-IsBroken (suc n) (received d ∷ cursor) h = elim (>>=-eq-err (fill n cursor) _ h) [
  | inl k ↦
      let (ds, t, rest, parts, lt, e) = fill-IsBroken n cursor k in
      (d ∷ ds, t, rest, ap (◌∷◌ (received d)) parts, omega (arith, lt), e)
  | inr (p, ep, k) ↦ absurd (ok-ne-err k)
]
fill-IsBroken (suc n) (failed t ∷ cursor) h =
    ([], t, cursor, refl, omega arith, sym (err_injective h))

module _ {Batch : Type 0} (convert : Schema → List Document → Result Batch) (schema : Schema)
    (size : ℕ) where
  -- A batch's documents: some, no more than the size, and fewer only at the end of the cursor.
  pub record IsPart (cursor : List Event) (ds : List Document) (rest : List Event) : Type 0 where
    pub parts : cursor ≡ map received ds ++ rest
    pub some_document : 0 < length ds
    pub within : length ds ≤ size
    pub ended : length ds < size → rest ≡ []

  -- What may be delivered of a cursor.
  pub data Delivers : List Event → List (Result Batch) → Type 0 where
    over : Delivers [] []
    lost :
        {cursor : List Event} (ds : List Document) (t : Text) (rest : List Event)
        → cursor ≡ map received ds ++ (failed t ∷ rest)
        → length ds < size
        → Delivers cursor (err (DataFusionError.external t) ∷ [])
    refused :
        {cursor : List Event} (ds : List Document) (rest : List Event) {e : DataFusionError}
        → IsPart cursor ds rest
        → convert schema ds ≡ err e
        → Delivers cursor (err e ∷ [])
    batch :
        {cursor : List Event} (ds : List Document) (rest : List Event) {b : Batch}
        {more : List (Result Batch)}
        → IsPart cursor ds rest
        → convert schema ds ≡ ok b
        → Delivers rest more
        → Delivers cursor (ok b ∷ more)

  length-parts :
      {cursor : List Event} (ds : List Document) (rest : List Event)
      → cursor ≡ map received ds ++ rest
      → length cursor ≡ length ds + length rest
  length-parts ds rest h =
      ap length h
      ∙ length-append (map received ds) rest
      ∙ ap (λ n. n + length rest) (length-map received ds)

  abbrev after : ℕ → Poll convert → List (Result Batch)
  after fuel finished = []
  after fuel (broken e) = err e ∷ []
  after fuel (yielded b rest) = ok b ∷ stream convert fuel schema size rest

  stream-step :
      (fuel : ℕ) (cursor : List Event)
      → stream convert (suc fuel) schema size cursor ≡ after fuel (poll convert schema size cursor)
  unfolding stream
  stream-step fuel cursor = refl

  interrupted :
      (cursor : List Event) {e : DataFusionError}
      → IsBroken size cursor e
      → Delivers cursor (err e ∷ [])
  unfolding IsBroken
  interrupted cursor (ds, t, rest, parts, lt, e) = rw e (lost ds t rest parts lt)

  -- `next` is what is delivered of a shorter cursor.
  filled :
      (fuel : ℕ) (cursor : List Event) (p : List Document × List Event)
      → IsFill size cursor p
      → 0 < size
      → ((rest : List Event)
          → length rest < length cursor
          → Delivers rest (stream convert fuel schema size rest))
      → Delivers cursor (after fuel (convert_filled convert schema p))
  filled fuel cursor ([], rest) i pos next = rw (i.parts ∙ i.ended pos) over
  filled fuel cursor (d ∷ ds, rest) i pos next =
      let part : IsPart cursor (d ∷ ds) rest = record {
        parts = i.parts;
        some_document = omega arith;
        within = i.within;
        ended = i.ended;
      } in
      elim (Result-cases (convert schema (d ∷ ds))) [
        | inl (b, eb) ↦
            rw (eb, after)
              (batch (d ∷ ds) rest part eb
                (next rest (omega (arith, length-parts (d ∷ ds) rest i.parts))))
        | inr (e, ee) ↦ rw (ee, after) (refused (d ∷ ds) rest part ee)
      ]

  -- Whatever the cursor yields, the stream delivers it in batches of documents, in the order of the
  -- cursor, each converted as a whole, neither empty nor larger than the batch size, and only the last
  -- one smaller. It ends with the cursor, or with the first error of the cursor, which is delivered
  -- itself and takes the documents of the batch that it interrupts with it, or with the first batch
  -- that cannot be converted. The fuel is one round more than there are events.
  pub stream-Delivers :
      (fuel : ℕ) (cursor : List Event)
      → 0 < size
      → length cursor < fuel
      → Delivers cursor (stream convert fuel schema size cursor)
  unfolding poll
  stream-Delivers zero cursor pos lt = absurd (omega (arith, lt))
  stream-Delivers (suc fuel) cursor pos lt =
      rw (stream-step fuel cursor) (elim (Result-cases (fill size cursor)) [
        | inl (p, ep) ↦
            rw (ep, after)
              (filled fuel cursor p (fill-IsFill size cursor ep) pos
                (λ rest shorter. stream-Delivers fuel rest pos (omega (arith, lt, shorter))))
        | inr (e, ee) ↦ rw (ee, after) (interrupted cursor (fill-IsBroken size cursor ee))
      ])
