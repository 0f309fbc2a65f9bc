-- ===== src/Indexer/Batch.antt =====
-- insert-payments.ts: chunkRows, the placeholders of buildBatchInsertSql and flattenRows.
use accensa_app.Prelude.{
  ℕ, zero, suc, ◌+◌, ◌*◌, String, List, [], ◌∷◌, Option, none, length, take, get_elem?,
}
use accensa_app.Money.{Text}
use accensa_app.Indexer.{PaymentRow}

abbrev pub payments_batch_size : ℕ
payments_batch_size = 100

-- `slice` from an index on.
abbrev pub drop {ℓ} : {A : Type ℓ} → ℕ → List A → List A
drop zero xs = xs
drop (suc n) [] = []
drop (suc n) (x ∷ xs) = drop n xs

-- The loop of `chunkRows` on what is left from `i` on, with a bound on its rounds.
unfoldable pub chunks_within {ℓ} : {A : Type ℓ} → ℕ → List A → ℕ → List (List A)
chunks_within zero rows size = []
chunks_within (suc fuel) [] size = []
chunks_within (suc fuel) (r ∷ rows) size =
    take size (r ∷ rows) ∷ chunks_within fuel (drop size (r ∷ rows)) size

-- `chunkRows`, for a size that is not 0, for which the loop does not end.
unfoldable pub chunk_rows {ℓ} : {A : Type ℓ} → List A → ℕ → List (List A)
unfolding chunks_within
chunk_rows rows size = chunks_within (length rows) rows size

-- A value that a placeholder is bound to.
pub data Param : Type 0 where
  number : ℕ → Param
  word : String → Param
  decimal : Text → Param

-- `flattenRows`
unfoldable pub flatten_rows : List PaymentRow → List Param
flatten_rows [] = []
flatten_rows (r ∷ rs) =
    number r.merchant_id
    ∷ word r.tx_hash
    ∷ number r.ledger
    ∷ word r.payer
    ∷ decimal r.amount
    ∷ word r.asset
    ∷ word r.ts
    ∷ flatten_rows rs

-- The numbers of the placeholders in the tuple for the row `i`.
abbrev pub tuple_placeholders : ℕ → List ℕ
tuple_placeholders i =
    let base = i * 7 in
    (base + 1) ∷ (base + 2) ∷ (base + 3) ∷ (base + 4) ∷ (base + 5) ∷ (base + 6) ∷ (base + 7) ∷ []

-- The tuples of `buildBatchInsertSql`, from the row `i` on.
unfoldable pub tuples_from : ℕ → ℕ → List (List ℕ)
tuples_from i zero = []
tuples_from i (suc count) = tuple_placeholders i ∷ tuples_from (suc i) count

unfoldable pub batch_placeholders : ℕ → List (List ℕ)
unfolding tuples_from
batch_placeholders row_count = tuples_from 0 row_count

-- The parameter of a placeholder, which counts from 1.
abbrev pub bound : List Param → ℕ → Option Param
bound params zero = none
bound params (suc i) = get_elem? params i
