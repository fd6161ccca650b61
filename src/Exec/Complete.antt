-- ===== src/Exec/Complete.antt =====
-- mongo/exec.rs, `execute`: a cursor that does not fail is delivered whole, and the estimates that the
-- partitions share.
use auger.Base.{
  ℕ, suc, ◌<◌, ◌≤◌, max, List, [], ◌∷◌, ◌++◌, map, some, append_assoc, ◌≡◌, refl, sym, ◌∙◌, ap, ap₂,
  Text, length, get_elem?, arith,
}
use auger.Base.Results
use auger.Base.Results.{ok, err, ◌>>=◌, err-ne-ok}
use auger.Errors.{Result}
use auger.Bson.{Document, Insertion}
use auger.Arrow.{Schema}
use auger.Pipeline.{MongoPlan}
use auger.Driver.{Event, received, failed, Aggregate}
use auger.Exec.{MongoExec, aggregate_of, open_stream, execute}
use auger.Exec.Stream.{Delivers, over, lost, refused, batch, stream-Delivers}

abbrev pub concat {ℓ} : {A : Type ℓ} → List (List A) → List A
concat [] = []
concat (p ∷ ps) = p ++ concat ps

-- Parts of at most `size` elements, none empty, and only the last one smaller.
abbrev pub IsSplit : ℕ → List (List Document) → Type 0
IsSplit size [] = Unit
IsSplit size (p ∷ ps) =
    (0 < length p) × (length p ≤ size) × (length p < size → ps ≡ []) × IsSplit size ps

split_received :
    (ds docs : List Document) (rest : List Event)
    → map received docs ≡ map received ds ++ rest
    → (more : List Document) × (docs ≡ ds ++ more) × (rest ≡ map received more)
split_received [] docs rest h = (docs, refl, sym h)
split_received (d ∷ ds) [] rest h = absurd cc
split_received (d ∷ ds) (x ∷ docs) rest h =
    let (more, eq, es) = split_received ds docs rest cc in (more, cc, es)

none_failed :
    (docs : List Document) (t : Text) (rest : List Event) → ¬ (failed t ∷ rest ≡ map received docs)
none_failed [] t rest h = cc
none_failed (x ∷ docs) t rest h = cc

none_left : (docs : List Document) → map received docs ≡ [] → docs ≡ []
none_left [] h = refl
none_left (x ∷ docs) h = absurd cc

concat-nil : (size : ℕ) (ps : List (List Document)) → IsSplit size ps → concat ps ≡ [] → ps ≡ []
concat-nil size [] i h = refl
concat-nil size ([] ∷ ps) (some_document, within, last, rest) h =
    absurd (omega (arith, some_document))
concat-nil size ((d ∷ p) ∷ ps) i h = absurd cc

module _ {Batch : Type 0} (convert : Schema → List Document → Result Batch) where
  -- The conversion of each run of consecutive documents that fits a batch does not fail.
  abbrev pub Converts : Schema → ℕ → (List Document → Batch) → List Document → Type 0
  Converts schema size make docs =
      (before part after : List Document)
      → docs ≡ before ++ (part ++ after)
      → length part ≤ size
      → convert schema part ≡ ok (make part)

  Converts-behind :
      (schema : Schema) (size : ℕ) (make : List Document → Batch) (docs ds more : List Document)
      → docs ≡ ds ++ more
      → Converts schema size make docs
      → Converts schema size make more
  Converts-behind schema size make docs ds more eq total before part after e within =
      total (ds ++ before) part after
        (eq ∙ ap (◌++◌ ds) e ∙ sym (append_assoc ds before (part ++ after))) within

  module _ (schema : Schema) (size : ℕ) (make : List Document → Batch) where
    IsWhole : List Document → List (Result Batch) → Type 0
    IsWhole docs items =
        (parts : List (List Document)) × (items ≡ map (λ p. ok (make p)) parts)
        × (concat parts ≡ docs)
        × IsSplit size parts

    Delivers-IsWhole :
        {cursor : List Event} {items : List (Result Batch)} (docs : List Document)
        → Delivers convert schema size cursor items
        → cursor ≡ map received docs
        → Converts schema size make docs
        → IsWhole docs items
    unfolding IsWhole
    Delivers-IsWhole [] over h total = ([], refl, refl, tt)
    Delivers-IsWhole (x ∷ docs) over h total = absurd cc
    Delivers-IsWhole docs (lost ds t rest parts lt) h total =
        let (more, eq, es) = split_received ds docs (failed t ∷ rest) (sym h ∙ parts) in
        absurd (none_failed more t rest es)
    Delivers-IsWhole docs (refused ds rest part e) h total =
        let (more, eq, es) = split_received ds docs rest (sym h ∙ part.parts) in
        absurd (err-ne-ok (sym e ∙ total [] ds more eq part.within))
    Delivers-IsWhole docs (batch ds rest part e next) h total =
        let (more, eq, es) = split_received ds docs rest (sym h ∙ part.parts) in
        let (parts, ei, ec, split) =
          Delivers-IsWhole more next es (Converts-behind schema size make docs ds more eq total) in
        (
          ds ∷ parts,
          ap₂ (λ r rs. r ∷ rs) (sym e ∙ total [] ds more eq part.within) ei,
          ap (◌++◌ ds) ec ∙ sym eq,
          (
            part.some_document,
            part.within,
            (λ short.
                concat-nil size parts split (ec ∙ none_left more (sym es ∙ part.ended short))),
            split,
          ),
        )

  module _ (docs : Insertion) (aggregate : Aggregate → Results.Result Text (List Event)) where
    -- Where a partition's cursor yields documents and no error, and the conversion of no run of
    -- consecutive ones of them that is at most a batch long (1 document if the batch size is 0) fails,
    -- the stream of the partition ends, after batches that hold all of the documents, in their order:
    -- none is empty, none is larger than the batch size (1 if that is 0), and only the last is smaller.
    pub execute_complete :
        (e : MongoExec) (partition : ℕ) (plan : MongoPlan) (ds : List Document)
        (make : List Document → Batch)
        → get_elem? e.plans partition ≡ some plan
        → aggregate (aggregate_of docs e plan) ≡ ok (map received ds)
        → Converts e.schema (max e.batch_size 1) make ds
        → (parts : List (List Document)) × (execute convert docs aggregate e partition
            ≡ ok (map (λ p. ok (make p)) parts))
          × (concat parts ≡ ds)
          × IsSplit (max e.batch_size 1) parts
    unfolding execute open_stream IsWhole
    execute_complete e partition plan ds make found opened total =
        let size = max e.batch_size 1 in
        let (parts, ei, ec, split) =
          Delivers-IsWhole e.schema size make ds
            (stream-Delivers convert e.schema size (suc (length (map received ds)))
              (map received ds) (omega arith) (omega arith))
            refl total in
        (parts, rw (found) (ap ok (rw (opened, open_stream) ei)), ec, split)
