-- ===== src/Indexer/Twice.antt =====
-- Two rows with the same key in one chunk of insertPaymentRows.
use accensa_app.Prelude.{
  String, all, ◌≡◌, refl, ap, ◌≤◌, ℕ, zero, suc, Bool, true, false, List, [], ◌∷◌, ◌++◌, Option,
  none, some, Bool-cases, inl, inr, arith, length, take, eq_refl,
}
use accensa_app.Money.{Text}
use accensa_app.Indexer.{PaymentRow, Payment, Db}
use accensa_app.Indexer.Table.{
  upsert, upsert_all, is_written, written_with, insert_checked, fits, insert_statement,
}
use accensa_app.Indexer.Batch.{drop, chunks_within, chunk_rows, payments_batch_size}
use accensa_app.Indexer.Queries.{
  Query, query, answered, transaction, ended, began, after, insert_chunk, insert_chunks,
  insert_payment_rows,
}
use accensa_app.Indexer.Chunks.{insert_payment_rows-none}

written_with-keeps :
    (x r : PaymentRow) (out : Option Payment) (written : List PaymentRow)
    → is_written x written ≡ true
    → is_written x (written_with r out written) ≡ true
unfolding is_written
written_with-keeps x r none written h = h
written_with-keeps x r (some p) written h = ground arith

-- A row that conflicts with one the statement has written.
insert_statement-clash :
    (written before : List PaymentRow) (x : PaymentRow) (later : List PaymentRow)
    (table : List Payment)
    → is_written x written ≡ true
    → insert_statement written (before ++ x ∷ later) table ≡ none
unfolding insert_statement
insert_statement-clash written [] x later table h = rw h refl
insert_statement-clash written (b ∷ before) x later table h =
    elim (Bool-cases (is_written b written)) [
      | inl twice ↦ rw twice refl
      | inr fresh ↦
          rw
            (
              fresh,
              insert_statement-clash (written_with b (upsert b table).0 written) before x later
                  (upsert b table).1 (written_with-keeps x b (upsert b table).0 written h),
            )
            refl
    ]

pub insert_statement-twice :
    (written first : List PaymentRow) (r : PaymentRow) (mid : List PaymentRow) (x : PaymentRow)
    (later : List PaymentRow) (table : List Payment) (p : Payment)
    → (upsert r (upsert_all first table).1).0 ≡ some p
    → x.merchant_id ≡ r.merchant_id
    → x.tx_hash ≡ r.tx_hash
    → insert_statement written (first ++ r ∷ (mid ++ x ∷ later)) table ≡ none
unfolding insert_statement upsert_all is_written
insert_statement-twice written [] r mid x later table p writes merchants hashes =
    elim (Bool-cases (is_written r written)) [
      | inl twice ↦ rw twice refl
      | inr fresh ↦
          let mine : is_written x (r ∷ written) ≡ true =
            rw (merchants, hashes) (ground (arith, eq_refl r.tx_hash)) in
          rw (fresh, writes, insert_statement-clash (r ∷ written) mid x later _ mine) refl
    ]
insert_statement-twice written (a ∷ first) r mid x later table p writes merchants hashes =
    elim (Bool-cases (is_written a written)) [
      | inl twice ↦ rw twice refl
      | inr fresh ↦
          rw
            (
              fresh,
              insert_statement-twice (written_with a (upsert a table).0 written) first r mid x later
                  (upsert a table).1 p writes merchants hashes,
            )
            refl
    ]

take_all {ℓ} : {A : Type ℓ} (n : ℕ) (xs : List A) → length xs ≤ n → take n xs ≡ xs
take_all zero [] h = refl
take_all zero (x ∷ xs) h = absurd (omega arith)
take_all (suc n) [] h = refl
take_all (suc n) (x ∷ xs) h = ap (λ ys. x ∷ ys) (take_all n xs (omega arith))

drop_all {ℓ} : {A : Type ℓ} (n : ℕ) (xs : List A) → length xs ≤ n → drop n xs ≡ []
drop_all zero [] h = refl
drop_all zero (x ∷ xs) h = absurd (omega arith)
drop_all (suc n) [] h = refl
drop_all (suc n) (x ∷ xs) h = drop_all n xs (omega arith)

no_chunks {ℓ} : {A : Type ℓ} (fuel size : ℕ) → chunks_within {A = A} fuel [] size ≡ []
unfolding chunks_within
no_chunks zero size = refl
no_chunks (suc fuel) size = refl

-- Rows that fit in one chunk are one.
one_chunk {ℓ} :
    {A : Type ℓ} (r : A) (rows : List A) (size : ℕ)
    → length (r ∷ rows) ≤ size
    → chunk_rows (r ∷ rows) size ≡ (r ∷ rows) ∷ []
unfolding chunk_rows chunks_within
one_chunk r rows size h =
    rw (take_all size (r ∷ rows) h, drop_all size (r ∷ rows) h, no_chunks (length rows) size) refl

chunks_of_one {ℓ} :
    {A : Type ℓ} (first : List A) (r : A) (rest : List A) (size : ℕ)
    → length (first ++ r ∷ rest) ≤ size
    → chunk_rows (first ++ r ∷ rest) size ≡ (first ++ r ∷ rest) ∷ []
chunks_of_one [] r rest size h = one_chunk r rest size h
chunks_of_one (a ∷ first) r rest size h = one_chunk a (first ++ r ∷ rest) size h

after-none :
    {N A B : Type 0} (f : A → Query N B) (r : Option A × (Db × N))
    → r.0 ≡ none
    → (after f r).0 ≡ none
after-none f (none, w) h = refl
after-none f (some a, w) h = absurd (cc)

answered_refused :
    {N A : Type 0} (f : Db → Option (A × Db)) (db : Db) (r : Bool × N)
    → f db ≡ none
    → (answered f db r).0 ≡ none
answered_refused f db (true, n) h = refl
answered_refused f db (false, n) h = rw h refl

ended_refused :
    {N A : Type 0} (down : N → Bool × N) (before : Db) (r : Option A × (Db × N))
    → r.0 ≡ none
    → (ended down before r).0 ≡ none
ended_refused down before (none, (db, n)) h = refl
ended_refused down before (some a, (db, n)) h = absurd (cc)

began_refused :
    {N A : Type 0} (down : N → Bool × N) (body : Query N A) (db : Db) (r : Bool × N)
    → ((n : N) → (body (db, n)).0 ≡ none)
    → (began down body db r).0 ≡ none
began_refused down body db (true, n) h = refl
began_refused down body db (false, n) h = ended_refused down db (body (db, n)) (h n)

insert_checked-none :
    (casts : Text → String → Bool) (rows : List PaymentRow) (table : List Payment)
    → insert_statement [] rows table ≡ none
    → insert_checked casts rows table ≡ none
unfolding insert_checked
insert_checked-none casts rows table h = elim (Bool-cases (all (fits casts) rows)) [
  | inl fit ↦ rw fit h
  | inr bad ↦ rw bad refl
]

module _ {N : Type 0} (down : N → Bool × N) (casts : Text → String → Bool) where
  chunk-twice :
      (chunk : List PaymentRow) (db : Db) (n : N)
      → insert_statement [] chunk db.payments ≡ none
      → (insert_chunks down casts (chunk ∷ []) [] (db, n)).0 ≡ none
  unfolding insert_chunks query
  chunk-twice chunk db n h = after-none _ (answered (insert_chunk casts chunk) db (down n)) (
      answered_refused (insert_chunk casts chunk) db (down n)
        (rw (insert_checked-none casts chunk db.payments h) refl))

  -- If a chunk has two rows of one merchant and transaction, and the first of them writes a payment,
  -- then inserting rows that are this one chunk throws, and leaves the database as it was.
  pub insert_payment_rows-twice :
      (first : List PaymentRow) (r : PaymentRow) (mid : List PaymentRow) (x : PaymentRow)
      (later : List PaymentRow) (w : Db × N) (p : Payment)
      → length (first ++ r ∷ (mid ++ x ∷ later)) ≤ payments_batch_size
      → (upsert r (upsert_all first w.0.payments).1).0 ≡ some p
      → x.merchant_id ≡ r.merchant_id
      → x.tx_hash ≡ r.tx_hash
      → ((insert_payment_rows down casts (first ++ r ∷ (mid ++ x ∷ later)) w).0 ≡ none)
        × ((insert_payment_rows down casts (first ++ r ∷ (mid ++ x ∷ later)) w).1.0 ≡ w.0)
  unfolding insert_payment_rows transaction
  insert_payment_rows-twice first r mid x later (db, n) p fits writes merchants hashes =
      let rows = first ++ r ∷ (mid ++ x ∷ later) in
      let refused : (n' : N)
          → (insert_chunks down casts (chunk_rows rows payments_batch_size) [] (db, n')).0 ≡ none =
        λ n'. rw (chunks_of_one first r (mid ++ x ∷ later) payments_batch_size fits) (
          chunk-twice rows db n' (
            insert_statement-twice [] first r mid x later db.payments p writes merchants hashes)) in
      let throws : (insert_payment_rows down casts rows (db, n)).0 ≡ none =
        began_refused down (insert_chunks down casts (chunk_rows rows payments_batch_size) []) db
          (down n) refused in
      (throws, insert_payment_rows-none down casts rows (db, n) throws)
