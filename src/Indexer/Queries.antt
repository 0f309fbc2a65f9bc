-- ===== src/Indexer/Queries.antt =====
-- The queries of lib/db.ts and the transactions of insert-payments.ts and app/api/sync/route.ts, as steps
-- of the database and the rest of the world. `down` says whether the next query fails for the
-- connection; a failed COMMIT is taken to have committed nothing. One sync of a merchant runs at a
-- time, for which the code takes an advisory lock; a query for a lock is counted with the statement
-- after it.
use accensa_app.Prelude.{ℕ, String, Bool, true, false, List, [], ◌∷◌, ◌++◌, Option, none, some, ltb}
use accensa_app.Money.{Text}
use accensa_app.Indexer.{PaymentRow, Payment, SyncState, Db}
use accensa_app.Indexer.Table.{
  insert_checked, Settlement, update_reported, insert_reported, delete_above, find_state, ledger_of,
  set_state,
}
use accensa_app.Indexer.Batch.{payments_batch_size, chunk_rows}

-- What a query or a transaction comes to, none where it throws, with the database and the world.
abbrev pub Query : Type 0 → Type 0 → Type 0
Query N A = Db × N → Option A × (Db × N)

-- `await`: what follows runs on the result, and an error is passed on.
abbrev pub after : {N A B : Type 0} → (A → Query N B) → Option A × (Db × N) → Option B × (Db × N)
after f (none, w) = (none, w)
after f (some a, w) = f a w

infixl 5 ◌>>=◌ ◌>>◌
unfoldable pub ◌>>=◌ : {N A B : Type 0} → Query N A → (A → Query N B) → Query N B
◌>>=◌ m f w = after f (m w)

abbrev pub ◌>>◌ : {N B : Type 0} → Query N (Unit {0}) → Query N B → Query N B
m >> k = m >>= λ _. k

abbrev pub done : {N A : Type 0} → A → Query N A
done a w = (some a, w)

-- A COMMIT's end: the work where it went well, and the database before it otherwise.
abbrev pub commit_or : {N A : Type 0} → Db → A → Bool × N → Db → Option A × (Db × N)
commit_or before a (true, n) db = (none, (before, n))
commit_or before a (false, n) db = (some a, (db, n))

-- The outcome of a transaction's body: a ROLLBACK where it threw, and a COMMIT otherwise.
abbrev pub ended : {N A : Type 0} → (N → Bool × N) → Db → Option A × (Db × N) → Option A × (Db × N)
ended down before (none, (db, n)) = (none, (before, n))
ended down before (some a, (db, n)) = commit_or before a (down n) db

abbrev pub began : {N A : Type 0} → (N → Bool × N) → Query N A → Db → Bool × N → Option A × (Db × N)
began down body db (true, n) = (none, (db, n))
began down body db (false, n) = ended down db (body (db, n))

-- A statement, by what it makes of the database: none where PostgreSQL refuses it.
abbrev pub applied : {N A : Type 0} → Option (A × Db) → Db → N → Option A × (Db × N)
applied none db n = (none, (db, n))
applied (some (a, db')) db n = (some a, (db', n))

abbrev pub answered : {N A : Type 0} → (Db → Option (A × Db)) → Db → Bool × N → Option A × (Db × N)
answered f db (true, n) = (none, (db, n))
answered f db (false, n) = applied (f db) db n

abbrev pub stored : Option (List Payment × List Payment) → Db → Option (List Payment × Db)
stored none db = none
stored (some (payments, table)) db = some (payments, record db { payments = table })

abbrev pub insert_chunk : (Text → String → Bool) → List PaymentRow → Db → Option (List Payment × Db)
insert_chunk casts chunk db = stored (insert_checked casts chunk db.payments) db

abbrev pub report_update : Settlement → Db → Option (ℕ × Db)
report_update s db =
    let (count, table) = update_reported s db.payments in
    some (count, record db { payments = table })

abbrev pub report_insert : Settlement → Db → Option (Unit {0} × Db)
report_insert s db = some (tt, record db { payments = insert_reported s db.payments })

abbrev pub move_cursor : Bool → ℕ → ℕ → ℕ → Db → Option (Unit {0} × Db)
move_cursor forward_only m n now db =
    some (tt, record db { sync_states = set_state forward_only m n now db.sync_states })

abbrev pub purge : ℕ → ℕ → Db → Option (ℕ × Db)
purge m n db =
    let (purged, table) = delete_above m n db.payments in
    some (purged, record db { payments = table })

module _ {N : Type 0} (down : N → Bool × N) where
  unfoldable pub query : {A : Type 0} → (Db → Option (A × Db)) → Query N A
  query f (db, n) = answered f db (down n)

  -- `BEGIN`, the body, and `COMMIT`, or `ROLLBACK` where the body throws.
  unfoldable pub transaction : {A : Type 0} → Query N A → Query N A
  transaction body (db, n) = began down body db (down n)

  -- `getSyncState`
  unfoldable pub get_sync_state : ℕ → Query N (Option SyncState)
  unfolding query find_state
  get_sync_state m = query (λ db. some (find_state m db.sync_states, db))

  -- `getLastSyncedLedger`
  unfoldable pub get_last_synced_ledger : ℕ → Query N (Option ℕ)
  unfolding query find_state
  get_last_synced_ledger m = query (λ db. some (ledger_of (find_state m db.sync_states), db))

  abbrev pub stage_unless : Settlement → Bool → Query N Bool
  stage_unless s true = done true
  stage_unless s false = do query (report_insert s); done false

  -- `recordSettlement`, whose `reportedAt` is the caller's or the present time: whether it matched a
  -- payment.
  unfoldable pub record_settlement : Settlement → Query N Bool
  unfolding query update_reported insert_reported ◌>>=◌
  record_settlement s = do count ← query (report_update s); stage_unless s (ltb 0 count)

  module _ (db_time : N → ℕ) where
    -- The upsert of a cursor, with the present time.
    unfoldable pub set_cursor : Bool → ℕ → ℕ → Query N (Unit {0})
    unfolding query set_state
    set_cursor forward_only m n (db, w) = query (move_cursor forward_only m n (db_time w)) (db, w)

    -- `setLastSyncedLedger`
    unfoldable pub set_last_synced_ledger : ℕ → ℕ → Query N (Unit {0})
    unfolding set_cursor
    set_last_synced_ledger m n = set_cursor true m n

    -- `rollbackSyncToLedger`: the number of rows purged.
    unfoldable pub rollback_sync_to_ledger : ℕ → ℕ → Query N ℕ
    unfolding transaction query delete_above set_cursor ◌>>=◌
    rollback_sync_to_ledger m n =
        transaction (do purged ← query (purge m n); set_cursor false m n; done purged)

  -- The inserts, with what PostgreSQL reads.
  module _ (casts : Text → String → Bool) where
    -- The loop over the chunks, with the rows returned so far.
    unfoldable pub insert_chunks : List (List PaymentRow) → List Payment → Query N (List Payment)
    unfolding query insert_checked ◌>>=◌
    insert_chunks [] payments = done payments
    insert_chunks (chunk ∷ chunks) payments = do
      more ← query (insert_chunk casts chunk)
      insert_chunks chunks (payments ++ more)

    -- `insertPaymentRows`
    unfoldable pub insert_payment_rows : List PaymentRow → Query N (List Payment)
    unfolding transaction insert_chunks chunk_rows
    insert_payment_rows rows = transaction (insert_chunks (chunk_rows rows payments_batch_size) [])

    -- `insertPaymentsInTransaction`
    unfoldable pub insert_payments_in_transaction :
        (N → ℕ) → ℕ → List PaymentRow → ℕ → Query N (List Payment)
    unfolding transaction insert_chunks chunk_rows set_last_synced_ledger ◌>>=◌
    insert_payments_in_transaction db_time m rows swept_through = transaction (do
      payments ← insert_chunks (chunk_rows rows payments_batch_size) []
      set_last_synced_ledger db_time m swept_through
      done payments)
