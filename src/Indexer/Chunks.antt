-- ===== src/Indexer/Chunks.antt =====
-- The chunks of chunkRows, and the inserts of them against the rows one at a time.
use accensa_app.Prelude.{
  append_assoc, ◌≡◌, refl, sym, subst, ◌∙◌, ◌≤◌, ap, ℕ, zero, suc, ◌-◌, Bool, String, all,
  Bool-cases, inl, inr, List, [], ◌∷◌, ◌++◌, Option, none, some, length, take, arith,
}
use accensa_app.Money.{Text}
use accensa_app.Indexer.{PaymentRow, Payment, Db}
use accensa_app.Indexer.Table.{upsert_all, insert_statement, insert_checked, fits}
use accensa_app.Indexer.Batch.{drop, chunks_within, chunk_rows, payments_batch_size}
use accensa_app.Indexer.Queries.{
  Query, query, stored, insert_chunk, insert_chunks, insert_payment_rows,
}
use accensa_app.Indexer.Steps.{bind_ok, query_ok, transaction_ok, transaction-none}
use accensa_app.Indexer.Upserts.{upsert_all-append, insert_statement-upsert_all}

abbrev pub join {ℓ} : {A : Type ℓ} → List (List A) → List A
join [] = []
join (xs ∷ xss) = xs ++ join xss

take-drop {ℓ} : {A : Type ℓ} (n : ℕ) (xs : List A) → take n xs ++ drop n xs ≡ xs
take-drop zero xs = refl
take-drop (suc n) [] = refl
take-drop (suc n) (x ∷ xs) = ap (λ ys. x ∷ ys) (take-drop n xs)

append-[] {ℓ} : {A : Type ℓ} (xs : List A) → xs ++ [] ≡ xs
append-[] [] = refl
append-[] (x ∷ xs) = ap (λ ys. x ∷ ys) (append-[] xs)

length-drop {ℓ} : {A : Type ℓ} (n : ℕ) (xs : List A) → length (drop n xs) ≡ length xs - n
length-drop zero xs = omega arith
length-drop (suc n) [] = omega arith
length-drop (suc n) (x ∷ xs) = omega (arith, length-drop n xs)

join-chunks_within {ℓ} :
    {A : Type ℓ} (fuel : ℕ) (rows : List A) (size : ℕ)
    → 1 ≤ size
    → length rows ≤ fuel
    → join (chunks_within fuel rows size) ≡ rows
unfolding chunks_within
join-chunks_within zero [] size h k = refl
join-chunks_within zero (r ∷ rows) size h k = absurd (omega arith)
join-chunks_within (suc fuel) [] size h k = refl
join-chunks_within (suc fuel) (r ∷ rows) size h k =
    rw
      (join-chunks_within fuel (drop size (r ∷ rows)) size h
        (omega (arith, length-drop size (r ∷ rows))))
      (take-drop size (r ∷ rows))

-- The chunks of a size above 0 have the rows, in their order.
pub join-chunk_rows {ℓ} :
    {A : Type ℓ} (rows : List A) (size : ℕ) → 1 ≤ size → join (chunk_rows rows size) ≡ rows
unfolding chunk_rows
join-chunk_rows rows size h = join-chunks_within (length rows) rows size h (omega arith)

-- What the rows one at a time make of a database.
abbrev pub upserted : List PaymentRow → Db → Db
upserted rows db = record db { payments = (upsert_all rows db.payments).1 }

stored_ok :
    (r : Option (List Payment × List Payment)) (db : Db) (x : List Payment × Db)
    → stored r db ≡ some x
    → (y : List Payment × List Payment) × ((r ≡ some y) × (x ≡ (y.0, record db { payments = y.1 })))
stored_ok none db x h = absurd (cc)
stored_ok (some (ps, table)) db x h = ((ps, table), (refl, (cc)))

insert_checked_ok :
    (casts : Text → String → Bool) (rows : List PaymentRow) (table : List Payment)
    (y : List Payment × List Payment)
    → insert_checked casts rows table ≡ some y
    → insert_statement [] rows table ≡ some y
unfolding insert_checked
insert_checked_ok casts rows table y h = elim (Bool-cases (all (fits casts) rows)) [
  | inl fit ↦ rw fit at h
  | inr bad ↦ let refused : none ≡ some y = rw bad at h in absurd (cc)
]

insert_chunk_ok :
    (casts : Text → String → Bool) (chunk : List PaymentRow) (db : Db) (x : List Payment × Db)
    → insert_chunk casts chunk db ≡ some x
    → x ≡ ((upsert_all chunk db.payments).0, upserted chunk db)
insert_chunk_ok casts chunk db x h =
    let (y, (got, same)) = stored_ok (insert_checked casts chunk db.payments) db x h in
    let written = insert_checked_ok casts chunk db.payments y got in
    rw (same, insert_statement-upsert_all [] chunk db.payments y written) refl

-- The rows of a chunk, and then the rest of them.
upserted-append :
    (chunk rest : List PaymentRow) (payments more out : List Payment) (db next last : Db)
    → more ≡ (upsert_all chunk db.payments).0
    → next ≡ upserted chunk db
    → out ≡ payments ++ more ++ (upsert_all rest next.payments).0
    → last ≡ upserted rest next
    → (out ≡ payments ++ (upsert_all (chunk ++ rest) db.payments).0)
      × (last ≡ upserted (chunk ++ rest) db)
upserted-append chunk rest payments more out db next last returned table h k =
    rw (upsert_all-append chunk rest db.payments, h, k, table, returned)
      (
        append_assoc payments (upsert_all chunk db.payments).0
            (upsert_all rest (upsert_all chunk db.payments).1).0,
        refl,
      )

module _ {N : Type 0} (down : N → Bool × N) (casts : Text → String → Bool) where
  insert_chunks-upsert_all :
      (chunks : List (List PaymentRow)) (payments out : List Payment) (w : Db × N)
      → (insert_chunks down casts chunks payments w).0 ≡ some out
      → (out ≡ payments ++ (upsert_all (join chunks) w.0.payments).0)
        × ((insert_chunks down casts chunks payments w).1.0 ≡ upserted (join chunks) w.0)
  unfolding insert_chunks upsert_all
  insert_chunks-upsert_all [] payments out w h =
      let same : payments ≡ out = cc in (rw (append-[] payments) (sym same), refl)
  insert_chunks-upsert_all (chunk ∷ chunks) payments out w h =
      let go : List Payment → Query N (List Payment) =
        λ more. insert_chunks down casts chunks (payments ++ more) in
      let (more, (got, runs)) = bind_ok (query down (insert_chunk casts chunk)) go w out h in
      let w' = (query down (insert_chunk casts chunk) w).1 in
      let first =
        insert_chunk_ok casts chunk w.0 _ (query_ok down (insert_chunk casts chunk) w more got) in
      let (returned, table) =
        insert_chunks-upsert_all chunks (payments ++ more) out w'
          (subst (λ r. r.0 ≡ some out) runs h) in
      upserted-append chunk (join chunks) payments more out w.0 w'.0 _ (ap (λ p. p.0) first)
        (ap (λ p. p.1) first) returned (ap (λ r. r.1.0) runs ∙ table)

  -- An insert of rows in chunks that succeeds returns the payments, and leaves the table, that the
  -- rows give one at a time.
  pub insert_payment_rows-upsert_all :
      (rows : List PaymentRow) (w : Db × N) (payments : List Payment)
      → (insert_payment_rows down casts rows w).0 ≡ some payments
      → (payments ≡ (upsert_all rows w.0.payments).0)
        × ((insert_payment_rows down casts rows w).1.0 ≡ upserted rows w.0)
  unfolding insert_payment_rows
  insert_payment_rows-upsert_all rows w payments h =
      let chunks = chunk_rows rows payments_batch_size in
      let (n, (got, same)) =
        transaction_ok down (insert_chunks down casts chunks []) w payments h in
      let (returned, table) = insert_chunks-upsert_all chunks [] payments (w.0, n) got in
      let whole : join chunks ≡ rows = join-chunk_rows rows payments_batch_size (omega arith) in
      (
        subst (λ xs. payments ≡ (upsert_all xs w.0.payments).0) whole returned,
        same
            ∙ subst (λ xs. (insert_chunks down casts chunks [] (w.0, n)).1.0 ≡ upserted xs w.0)
                whole table,
      )

  -- An insert that throws leaves the database as it was.
  pub insert_payment_rows-none :
      (rows : List PaymentRow) (w : Db × N)
      → (insert_payment_rows down casts rows w).0 ≡ none
      → (insert_payment_rows down casts rows w).1.0 ≡ w.0
  unfolding insert_payment_rows
  insert_payment_rows-none rows w h =
      transaction-none down (insert_chunks down casts (chunk_rows rows payments_batch_size) []) w h
