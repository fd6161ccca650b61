-- ===== src/Http/Rows.antt =====
-- http/mod.rs, `query`: the rows of a response, and when they are truncated.
use auger.Base.{
  ℕ, zero, suc, ◌-◌, ◌≤◌, ◌<◌, min, List, [], ◌∷◌, ◌++◌, Option, none, some, ◌≡◌, refl, sym, ◌∙◌,
  ap, ap₂, Text, length, length-append, ltb→lt, take, arith, ltb, Bool-cases, inl, inr,
}
use auger.Base.Results.{ok}
use auger.Http.{Batch, push_rows, collect_rows, cap_of, response, batches, QueryResponse, respond}

-- All rows of the batches, where each can be formatted.
abbrev pub all_rows : List (List (List Text)) → List (List Text)
all_rows [] = []
all_rows (rs ∷ rest) = rs ++ all_rows rest

ltb-suc : (a b : ℕ) → ltb a b ≡ ltb (suc a) (suc b)
ltb-suc a b = ground arith

push_rows-take :
    (room : ℕ) (rs : List (List Text)) → push_rows room rs ≡ (take room rs, ltb room (length rs))
unfolding push_rows
push_rows-take zero [] = refl
push_rows-take (suc room) [] = ap (λ b. ([], b)) (ground arith)
push_rows-take zero (r ∷ rs) = ap (λ b. ([], b)) (ground arith)
push_rows-take (suc room) (r ∷ rs) =
    rw (push_rows-take room rs) (ap (λ b. (r ∷ take room rs, b)) (ltb-suc room (length rs)))

module _ {A : Type 0} where
  take-more : (n : ℕ) (xs ys : List A) → n < length xs → take n (xs ++ ys) ≡ take n xs
  take-more zero xs ys h = refl
  take-more (suc n) [] ys h = absurd (omega (arith, h))
  take-more (suc n) (x ∷ xs) ys h = ap (◌∷◌ x) (take-more n xs ys (omega (arith, h)))

  take_nil : (n : ℕ) → take {A = A} n [] ≡ []
  take_nil zero = refl
  take_nil (suc n) = refl

  take_all : (n : ℕ) (xs : List A) → length xs ≤ n → take n xs ≡ xs
  take_all n [] h = take_nil n
  take_all zero (x ∷ xs) h = absurd (omega (arith, h))
  take_all (suc n) (x ∷ xs) h = ap (◌∷◌ x) (take_all n xs (omega (arith, h)))

  take-fewer :
      (n : ℕ) (xs ys : List A) → length xs ≤ n → take n (xs ++ ys) ≡ xs ++ take (n - length xs) ys
  take-fewer n [] ys h = ap (λ k. take k ys) (omega arith)
  take-fewer zero (x ∷ xs) ys h = absurd (omega (arith, h))
  take-fewer (suc n) (x ∷ xs) ys h =
      ap (◌∷◌ x) (take-fewer n xs ys (omega (arith, h)) ∙ ap (λ k. xs ++ take k ys) (omega arith))

cap_of_bounds : (limit : Option ℕ) → (1 ≤ cap_of limit) × (cap_of limit ≤ 10000)
unfolding cap_of
cap_of_bounds none = (omega arith, omega arith)
cap_of_bounds (some n) = (omega arith, omega arith)

length-take : {A : Type 0} (n : ℕ) (xs : List A) → length (take n xs) ≡ min n (length xs)
length-take zero xs = omega arith
length-take (suc n) [] = omega arith
length-take (suc n) (x ∷ xs) = omega (arith, length-take n xs)

-- The batches whose rows can be formatted, with these rows.
abbrev pub AreRows : List Batch → List (List (List Text)) → Type 0
AreRows [] [] = Unit
AreRows (b ∷ bs) (rs ∷ rest) = (b.rows ≡ ok rs) × AreRows bs rest
AreRows _ _ = ⊥

collect_rows-take :
    (room : ℕ) (bs : List Batch) (contents : List (List (List Text)))
    → AreRows bs contents
    → collect_rows room bs
      ≡ ok (take room (all_rows contents), ltb room (length (all_rows contents)))
unfolding collect_rows
collect_rows-take room [] [] h = ap ok (ap₂ (λ rs b. (rs, b)) (sym (take_nil room)) (ground arith))
collect_rows-take room [] (rs ∷ rest) h = elim h [ ]
collect_rows-take room (b ∷ bs) [] h = elim h [ ]
collect_rows-take room (b ∷ bs) (rs ∷ rest) (e, h) =
    let total = length-append rs (all_rows rest) in
    elim (Bool-cases (ltb room (length rs))) [
      | inl more ↦ rw (e) (
          rw (push_rows-take room rs) (
            rw (more) (
              ap ok (
                ap₂ (λ xs b. (xs, b)) (sym (take-more room rs (all_rows rest) (ltb→lt _ _ more)))
                  (ground (arith, total))))))
      | inr all ↦
          let fits : length rs ≤ room = ground arith in
          let rest_taken = collect_rows-take (room - length (take room rs)) bs rest h in
          rw (e) (
            rw (push_rows-take room rs) (
              rw (all) (
                rw (rest_taken) (
                  ap ok (
                    ap₂ (λ xs b. (xs, b))
                      (ap₂ (λ xs k. xs ++ take (room - length k) (all_rows rest))
                          (take_all room rs fits) (take_all room rs fits)
                        ∙ sym (take-fewer room rs (all_rows rest) fits))
                      (ap (λ k. ltb (room - length k) (length (all_rows rest)))
                          (take_all room rs fits)
                        ∙ ground (arith, total)))))))
    ]

-- Where the rows of the batches can be formatted, a response holds the first of them, as many as the
-- limit asks for, at least one and at most 10,000, and says that it is truncated exactly if there are
-- more.
pub response-rows :
    (limit : Option ℕ) (timeout : ℕ) (bs : List Batch) (contents : List (List (List Text)))
    → AreRows bs contents
    → (r : QueryResponse) × (response (cap_of limit) timeout (batches bs) ≡ ok r)
      × (r.rows ≡ take (cap_of limit) (all_rows contents))
      × (r.truncated ≡ ltb (cap_of limit) (length (all_rows contents)))
      × (r.row_count ≡ min (cap_of limit) (length (all_rows contents)))
      × (1 ≤ cap_of limit)
      × (cap_of limit ≤ 10000)
unfolding response
response-rows limit timeout bs contents h =
    let cap = cap_of limit in
    (
      respond bs (take cap (all_rows contents), ltb cap (length (all_rows contents))),
      rw (collect_rows-take cap bs contents h) refl,
      refl,
      refl,
      length-take cap (all_rows contents),
      (cap_of_bounds limit).0,
      (cap_of_bounds limit).1,
    )
