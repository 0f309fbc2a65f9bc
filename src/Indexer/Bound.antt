-- ===== src/Indexer/Bound.antt =====
-- The placeholders of buildBatchInsertSql against the parameters of flattenRows.
use accensa_app.Prelude.{
  append_assoc, ◌≡◌, refl, ap, ap₂, subst, length-append, ℕ, suc, ◌+◌, ◌*◌, List, [], ◌∷◌, ◌++◌,
  Option, some, length, map, arith, get_elem?,
}
use accensa_app.Indexer.{PaymentRow}
use accensa_app.Indexer.Batch.{
  Param, number, word, decimal, flatten_rows, tuple_placeholders, tuples_from, batch_placeholders,
  bound,
}

-- The columns of a row in the order of the statement: merchant_id, tx_hash, ledger, payer, amount,
-- asset, ts.
abbrev pub columns : PaymentRow → List (Option Param)
columns r =
    some (number r.merchant_id)
    ∷ some (word r.tx_hash)
    ∷ some (number r.ledger)
    ∷ some (word r.payer)
    ∷ some (decimal r.amount)
    ∷ some (word r.asset)
    ∷ some (word r.ts)
    ∷ []

get_elem?-after {ℓ} :
    {A : Type ℓ} (xs ys : List A) (i : ℕ) → get_elem? (xs ++ ys) (length xs + i) ≡ get_elem? ys i
get_elem?-after [] ys i = ap (get_elem? ys) (omega arith)
get_elem?-after (x ∷ xs) ys i =
    let e : suc (length xs) + i ≡ suc (length xs + i) = omega arith in
    rw e (get_elem?-after xs ys i)

bound-at :
    (ps ys : List Param) (n k i : ℕ)
    → length ps ≡ n
    → i ≡ n + suc k
    → bound (ps ++ ys) i ≡ get_elem? ys k
bound-at ps ys n k i h e =
    let at : i ≡ suc (length ps + k) = omega arith in rw at (get_elem?-after ps ys k)

-- The parameters of a row follow those of the rows before it.
bound-row :
    (ps : List Param) (i : ℕ) (r : PaymentRow) (rs : List PaymentRow)
    → length ps ≡ i * 7
    → map (bound (ps ++ flatten_rows (r ∷ rs))) (tuple_placeholders i) ≡ columns r
unfolding flatten_rows
bound-row ps i r rs h =
    let ys = flatten_rows (r ∷ rs) in
    rw
      (
        bound-at ps ys (i * 7) 0 (i * 7 + 1) h (omega arith),
        bound-at ps ys (i * 7) 1 (i * 7 + 2) h (omega arith),
        bound-at ps ys (i * 7) 2 (i * 7 + 3) h (omega arith),
        bound-at ps ys (i * 7) 3 (i * 7 + 4) h (omega arith),
        bound-at ps ys (i * 7) 4 (i * 7 + 5) h (omega arith),
        bound-at ps ys (i * 7) 5 (i * 7 + 6) h (omega arith),
        bound-at ps ys (i * 7) 6 (i * 7 + 7) h (omega arith),
      )
      refl

bound-rows :
    (ps : List Param) (i : ℕ) (rows : List PaymentRow)
    → length ps ≡ i * 7
    → map (map (bound (ps ++ flatten_rows rows))) (tuples_from i (length rows)) ≡ map columns rows
unfolding tuples_from flatten_rows
bound-rows ps i [] h = refl
bound-rows ps i (r ∷ rs) h =
    let front = flatten_rows (r ∷ []) in
    let longer : length (ps ++ front) ≡ suc i * 7 = omega (arith, length-append ps front) in
    let rest = bound-rows (ps ++ front) (suc i) rs longer in
    ap₂ (λ x. λ xs. x ∷ xs) (bound-row ps i r rs h)
      (subst (λ qs. map (map (bound qs)) (tuples_from (suc i) (length rs)) ≡ map columns rs)
        (append_assoc ps front (flatten_rows rs)) rest)

-- Each placeholder of the statement for so many rows is bound to the column it stands for: the tuple of
-- each row to that row's values, in the order of the columns.
pub batch_placeholders-columns :
    (rows : List PaymentRow)
    → map (map (bound (flatten_rows rows))) (batch_placeholders (length rows)) ≡ map columns rows
unfolding batch_placeholders
batch_placeholders-columns rows = bound-rows [] 0 rows (omega arith)
