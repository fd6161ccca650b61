-- ===== src/Server/Split.antt =====
-- server/mod.rs, `split_statements`: the statements of one message of the simple query protocol.
use auger.Base.{
  ℕ, Bool, true, false, not, ◌&&◌, List, [], ◌∷◌, ◌++◌, append-nil, append_assoc, ◌≡◌, refl, sym,
  ◌∙◌, ap, Text, if◌then◌else◌, ◌==◌, arith, Bool-cases, inl, inr,
}
use auger.Whitespace.{trim}

abbrev is_blank : Text → Bool
is_blank [] = true
is_blank (c ∷ s) = false

-- `if !current.trim().is_empty() { out.push(current.trim().to_string()) }`
unfoldable pub push_statement : Text → List Text → List Text
unfolding trim
push_statement current out = if is_blank (trim current) then out else trim current ∷ out

abbrev pub is_quote : Text → Bool
is_quote [] = false
is_quote (c ∷ s) = c == b'\''

-- The loop, with the statement so far and the two quotation flags: the statements that follow.
unfoldable pub split_from : Text → Text → Bool → Bool → List Text
unfolding push_statement
split_from [] current in_single in_double = push_statement current []
split_from (ch ∷ []) current in_single in_double =
    if ch == b';' && (not in_single && not in_double)
    then push_statement current (push_statement [] [])
    else push_statement (current ++ ch ∷ []) []
split_from (ch ∷ next ∷ rest) current in_single in_double =
    let skipped = split_from rest (current ++ ch ∷ next ∷ []) in_single in_double in
    let single = split_from (next ∷ rest) (current ++ ch ∷ []) (not in_single) in_double in
    let double = split_from (next ∷ rest) (current ++ ch ∷ []) in_single (not in_double) in
    let cut = split_from (next ∷ rest) [] in_single in_double in
    let pushed = split_from (next ∷ rest) (current ++ ch ∷ []) in_single in_double in
    if ch == b'\'' && not in_double
    then (if in_single && next == b'\'' then skipped else single)
    else if ch == b'"' && not in_single
    then double
    else if ch == b';' && (not in_single && not in_double)
    then push_statement current cut
    else pushed

unfoldable pub split_statements : Text → List Text
unfolding split_from
split_statements sql = split_from sql [] false false

-- The text cut at every semicolon that stands outside quotes, where each quote switches.
abbrev put_first : Text → List Text → List Text
put_first s [] = s ∷ []
put_first s (p ∷ ps) = (s ++ p) ∷ ps

abbrev pub pieces : Text → Bool → Bool → List Text
pieces [] in_single in_double = [] ∷ []
pieces (ch ∷ s) in_single in_double =
    let cut = pieces s in_single in_double in
    let inside =
      pieces s (if ch == b'\'' && not in_double then not in_single else in_single)
        (if ch == b'"' && not in_single then not in_double else in_double) in
    if ch == b';' && (not in_single && not in_double) then [] ∷ cut else put_first (ch ∷ []) inside

-- The pieces with semicolons between them.
abbrev pub glue : List Text → Text
glue [] = []
glue (p ∷ []) = p
glue (p ∷ q ∷ ps) = p ++ (b';' ∷ glue (q ∷ ps))

abbrev pub statements : List Text → List Text
statements [] = []
statements (p ∷ ps) = push_statement p (statements ps)

put_first-append :
    (s t : Text) (ps : List Text) → put_first s (put_first t ps) ≡ put_first (s ++ t) ps
put_first-append s t [] = refl
put_first-append s t (p ∷ ps) = ap (λ x. x ∷ ps) (sym (append_assoc s t p))

pushed_on :
    (cur : Text) (ch : ℕ) (ps : List Text)
    → statements (put_first (cur ++ ch ∷ []) ps)
      ≡ statements (put_first cur (put_first (ch ∷ []) ps))
pushed_on cur ch ps = ap statements (sym (put_first-append cur (ch ∷ []) ps))

pushed_two :
    (cur : Text) (ch next : ℕ) (ps : List Text)
    → statements (put_first (cur ++ ch ∷ next ∷ []) ps)
      ≡ statements (put_first cur (put_first (ch ∷ []) (put_first (next ∷ []) ps)))
pushed_two cur ch next ps = ap statements (
    sym (put_first-append cur (ch ∷ next ∷ []) ps)
    ∙ ap (put_first cur) (sym (put_first-append (ch ∷ []) (next ∷ []) ps)))

cut_off :
    (cur : Text) (ps : List Text)
    → push_statement cur (statements ps) ≡ statements (put_first cur ([] ∷ ps))
cut_off cur ps = ap (λ c. push_statement c (statements ps)) (sym (append-nil cur))

put_first-nil :
    (ps : List Text) (s : Text) (i d : Bool) → put_first [] (pieces s i d) ≡ pieces s i d
put_first-nil ps [] i d = refl
put_first-nil ps (ch ∷ s) i d = elim (Bool-cases (ch == b';' && (not i && not d))) [
  | inl e ↦ rw e refl
  | inr e ↦ rw e (put_first-append [] (ch ∷ []) _)
]

pieces_two :
    (ch next : ℕ) (rest : Text) (i d : Bool)
    → (ch == b'\'' && not d) ≡ true
    → (i && next == b'\'') ≡ true
    → pieces (ch ∷ next ∷ rest) i d ≡ put_first (ch ∷ []) (put_first (next ∷ []) (pieces rest i d))
pieces_two ch next rest i true q two = absurd (ground arith)
pieces_two ch next rest false false q two = absurd cc
pieces_two ch next rest true false q two =
    let a : ch ≡ b'\'' = ground arith in let b : next ≡ b'\'' = ground arith in rw (a, b) refl

split_two :
    (ch next : ℕ) (rest cur : Text) (i d : Bool)
    → (ch == b'\'' && not d) ≡ true
    → (i && next == b'\'') ≡ true
    → split_from (ch ∷ next ∷ rest) cur i d ≡ split_from rest (cur ++ ch ∷ next ∷ []) i d
unfolding split_from
split_two ch next rest cur i d q two = rw (q, two, split_from) refl

split_from-pieces :
    (s cur : Text) (i d : Bool) → split_from s cur i d ≡ statements (put_first cur (pieces s i d))
unfolding split_from
split_from-pieces [] cur i d = cut_off cur []
split_from-pieces (ch ∷ []) cur i d = elim (Bool-cases (ch == b';' && (not i && not d))) [
  | inl e ↦ rw (e, split_from) (cut_off cur ([] ∷ []))
  | inr e ↦ rw (e, split_from) refl
]
split_from-pieces (ch ∷ next ∷ rest) cur i d = elim (Bool-cases (ch == b'\'' && not d)) [
  | inl q ↦
      let dq : (ch == b'"' && not i) ≡ false = ground arith in
      let sc : (ch == b';' && (not i && not d)) ≡ false = ground arith in
      elim (Bool-cases (i && next == b'\'')) [
        | inl two ↦
            split_two ch next rest cur i d q two
            ∙ split_from-pieces rest (cur ++ ch ∷ next ∷ []) i d
            ∙ pushed_two cur ch next _
            ∙ ap (λ ps. statements (put_first cur ps)) (sym (pieces_two ch next rest i d q two))
        | inr one ↦
            rw (q, dq, sc, one, split_from)
              (split_from-pieces (next ∷ rest) (cur ++ ch ∷ []) (not i) d ∙ pushed_on cur ch _)
      ]
  | inr q ↦ elim (Bool-cases (ch == b'"' && not i)) [
    | inl dq ↦
        let sc : (ch == b';' && (not i && not d)) ≡ false = ground arith in
        rw (q, dq, sc, split_from)
          (split_from-pieces (next ∷ rest) (cur ++ ch ∷ []) i (not d) ∙ pushed_on cur ch _)
    | inr dq ↦ elim (Bool-cases (ch == b';' && (not i && not d))) [
      | inl sc ↦
          rw (q, dq, sc, split_from)
            (ap (push_statement cur) (
                split_from-pieces (next ∷ rest) [] i d
                ∙ ap statements (put_first-nil [] (next ∷ rest) i d))
              ∙ cut_off cur (pieces (next ∷ rest) i d))
      | inr sc ↦
          rw (q, dq, sc, split_from)
            (split_from-pieces (next ∷ rest) (cur ++ ch ∷ []) i d ∙ pushed_on cur ch _)
    ]
  ]
]

-- The statements of a message are its pieces between the semicolons that stand outside quotes, trimmed,
-- without the blank ones: a doubled quote inside a literal changes nothing.
pub split_statements-pieces :
    (sql : Text) → split_statements sql ≡ statements (pieces sql false false)
unfolding split_statements
split_statements-pieces sql =
    split_from-pieces sql [] false false ∙ ap statements (put_first-nil [] sql false false)

glue-put_first :
    (c : ℕ) (s : Text) (i d : Bool)
    → glue (put_first (c ∷ []) (pieces s i d)) ≡ c ∷ glue (pieces s i d)
glue-put_first c s i d = first (pieces s i d)
  where
    first : (ps : List Text) → glue (put_first (c ∷ []) ps) ≡ c ∷ glue ps
    first [] = refl
    first (p ∷ []) = refl
    first (p ∷ q ∷ ps) = refl

glue-cut : (s : Text) (i d : Bool) → glue ([] ∷ pieces s i d) ≡ b';' ∷ glue (pieces s i d)
glue-cut [] i d = refl
glue-cut (ch ∷ s) i d = elim (Bool-cases (ch == b';' && (not i && not d))) [
  | inl e ↦ rw e refl
  | inr e ↦ rw e (led (pieces s _ _))
]
  where
    led :
        (ps : List Text) → glue ([] ∷ put_first (ch ∷ []) ps) ≡ b';' ∷ glue (put_first (ch ∷ []) ps)
    led [] = refl
    led (p ∷ ps) = refl

-- Nothing of a message is lost or moved: its pieces with semicolons between them are the message.
pub glue-pieces : (s : Text) (i d : Bool) → glue (pieces s i d) ≡ s
glue-pieces [] i d = refl
glue-pieces (ch ∷ s) i d = elim (Bool-cases (ch == b';' && (not i && not d))) [
  | inl e ↦
      let c : b';' ≡ ch = ground arith in
      rw e (glue-cut s i d ∙ ap (◌∷◌ (b';')) (glue-pieces s i d) ∙ ap (λ c. c ∷ s) c)
  | inr e ↦ rw e (glue-put_first ch s _ _ ∙ ap (◌∷◌ ch) (glue-pieces s _ _))
]
