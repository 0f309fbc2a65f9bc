-- ===== src/Indexer/Sync.antt =====
-- runSync of app/api/sync/route.ts as a whole, against the events on the chain.
use accensa_app.Prelude.{
  ◌≡◌, refl, sym, subst, ◌∙◌, ap, ◌≤◌, ℕ, zero, suc, List, Option, none, some, Bool-cases, inl, inr,
  ltb, arith,
}
use accensa_app.Pager.{RawEvent, Request}
use accensa_app.Pager.Drain.{IsHonest}
use accensa_app.Indexer.{SyncState, Db, Merchant}
use accensa_app.Indexer.Table.{find_state, ledger_of}
use accensa_app.Indexer.Queries.{get_last_synced_ledger, get_sync_state, rollback_sync_to_ledger}
use accensa_app.Indexer.Window.{Services}
use accensa_app.Indexer.Run.{
  sync_now, run_sync, resume, resume_at, rolled_back, read_head, cool, cooldown_remaining,
  updated_at_of, wait_or_sync,
}
use accensa_app.Indexer.Steps.{read_db, read_ok}
use accensa_app.Indexer.Progress.{cursor_of}
use accensa_app.Indexer.Coverage.{Covers, IsReached, Reports, Good}
use accensa_app.Indexer.Covered.{sync_from-Good}
use accensa_app.Indexer.Rollback.{rollback-kept}

-- The latest ledger is not below the cursor.
abbrev pub IsAhead : Option ℕ → ℕ → Type 0
IsAhead none latest = Unit
IsAhead (some c) latest = c ≤ latest

module _ {N : Type 0} (S : Services N) where
  -- The world in which a sync asks for the latest ledger, if it gets there.
  abbrev pub asked_at : ℕ → Merchant → Db × N → N
  asked_at zero merchant w = w.1
  asked_at (suc ms) merchant w = (S.clock (get_sync_state S.down merchant.id w).1.1).1

  -- If the service then names a latest ledger, this is not below the cursor, and each of the wanted
  -- ledgers is one that the cursor is past or that a sync to the latest ledger starts before.
  abbrev pub HeadReaches : (ℕ → Type 0) → Merchant → Db → N → Type 0
  HeadReaches wanted merchant db n =
      (latest l : ℕ)
      → (S.get_latest_ledger n).0 ≡ some latest
      → wanted l
      → IsReached (cursor_of merchant.id db) latest l × IsAhead (cursor_of merchant.id db) latest

  pub get_last_synced_ledger_db :
      (m : ℕ) (db : Db) (n : N) → (get_last_synced_ledger S.down m (db, n)).1.0 ≡ db
  unfolding get_last_synced_ledger
  get_last_synced_ledger_db m db n =
      read_db (λ d. ledger_of (find_state m d.sync_states)) S.down (db, n)

  get_last_synced_ledger_ok :
      (m : ℕ) (db : Db) (n : N) (cursor : Option ℕ)
      → (get_last_synced_ledger S.down m (db, n)).0 ≡ some cursor
      → cursor ≡ cursor_of m db
  unfolding get_last_synced_ledger
  get_last_synced_ledger_ok m db n cursor h =
      read_ok (λ d. ledger_of (find_state m d.sync_states)) S.down (db, n) cursor h

  pub get_sync_state_db : (m : ℕ) (w : Db × N) → (get_sync_state S.down m w).1.0 ≡ w.0
  unfolding get_sync_state
  get_sync_state_db m w = read_db (λ d. find_state m d.sync_states) S.down w

module _ {N : Type 0} (S : Services N) (merchant : Merchant) (chain : ℕ → List RawEvent)
    (left : Request → List RawEvent) (honest : IsHonest S.get_events chain left)
    (wanted : ℕ → Type 0) (fuel : ℕ) where
  rolled_back-Reports :
      (latest : ℕ) (r : Option ℕ × (Db × N))
      → ((purged : ℕ) → r.0 ≡ some purged → cursor_of merchant.id r.1.0 ≡ some latest)
      → Reports S.native_of merchant chain (rolled_back S fuel merchant latest r)
  rolled_back-Reports latest (none, w) at = tt
  rolled_back-Reports latest (some purged, (db, n)) at =
      (sync_from-Good S merchant chain left honest (λ l. ⊥) fuel latest (some latest) (some purged)
        db n (at purged refl) (λ l no. elim no [ ]) (λ c l e at' no. elim no [ ])).1

  resume-Good :
      (latest : ℕ) (cursor : Option ℕ) (w : Db × N)
      → cursor_of merchant.id w.0 ≡ cursor
      → ((l : ℕ) → wanted l → IsReached cursor latest l × IsAhead cursor latest)
      → Covers S.native_of merchant chain wanted w.0
      → Good S.native_of merchant chain wanted (resume S fuel merchant latest cursor w)
  resume-Good latest none (db, n) at reached covers =
      sync_from-Good S merchant chain left honest wanted fuel latest none none db n at
        (λ l want. (reached l want).0) covers
  resume-Good latest (some c) (db, n) at reached covers = elim (Bool-cases (ltb latest c)) [
    | inr steady ↦ rw steady (
        sync_from-Good S merchant chain left honest wanted fuel latest (some c) none db n at
          (λ l want. (reached l want).0) covers)
    | inl behind ↦ rw behind (
      λ c' l e at' want. absurd (let ahead = (reached l want).1 in ground arith),
      rolled_back-Reports latest
          (rollback_sync_to_ledger S.down S.db_time merchant.id latest (db, n))
          (λ purged got. elim (rollback-kept S.down S.db_time merchant.id latest (db, n)) [
            | inl (none', _) ↦ let clash : none ≡ some purged = sym none' ∙ got in absurd (cc)
            | inr (k, (_, (_, (_, at')))) ↦ at'
          ]),
    )
  ]

  resume_at-Good :
      (latest : ℕ) (db : Db) (r : Option (Option ℕ) × (Db × N))
      → r.1.0 ≡ db
      → ((cursor : Option ℕ) → r.0 ≡ some cursor → cursor ≡ cursor_of merchant.id db)
      → ((l : ℕ)
          → wanted l
          → IsReached (cursor_of merchant.id db) latest l
            × IsAhead (cursor_of merchant.id db) latest)
      → Covers S.native_of merchant chain wanted db
      → Good S.native_of merchant chain wanted (resume_at S fuel merchant latest r)
  resume_at-Good latest db (none, w) same at reached covers =
      (subst (Covers S.native_of merchant chain wanted) (sym same) covers, tt)
  resume_at-Good latest db (some cursor, w) same at reached covers =
      let now : cursor ≡ cursor_of merchant.id db = at cursor refl in
      resume-Good latest cursor w (ap (cursor_of merchant.id) same ∙ sym now)
        (λ l want. subst (λ o. IsReached o latest l × IsAhead o latest) (sym now) (reached l want))
        (subst (Covers S.native_of merchant chain wanted) (sym same) covers)

  read_head-Good :
      (db : Db) (r : Option ℕ × N)
      → ((latest l : ℕ)
          → r.0 ≡ some latest
          → wanted l
          → IsReached (cursor_of merchant.id db) latest l
            × IsAhead (cursor_of merchant.id db) latest)
      → Covers S.native_of merchant chain wanted db
      → Good S.native_of merchant chain wanted (read_head S fuel merchant r db)
  read_head-Good db (none, n) reached covers = (covers, tt)
  read_head-Good db (some latest, n) reached covers =
      resume_at-Good latest db (get_last_synced_ledger S.down merchant.id (db, n))
        (get_last_synced_ledger_db S merchant.id db n)
        (get_last_synced_ledger_ok S merchant.id db n) (λ l want. reached latest l refl want) covers

  sync_now-Good :
      (w : Db × N)
      → HeadReaches S wanted merchant w.0 w.1
      → Covers S.native_of merchant chain wanted w.0
      → Good S.native_of merchant chain wanted (sync_now S fuel merchant w)
  unfolding sync_now
  sync_now-Good (db, n) reached covers = read_head-Good db (S.get_latest_ledger n) reached covers

  wait_or_sync-Good :
      (ms : ℕ) (w : Db × N)
      → HeadReaches S wanted merchant w.0 w.1
      → Covers S.native_of merchant chain wanted w.0
      → Good S.native_of merchant chain wanted (wait_or_sync S fuel merchant ms w)
  wait_or_sync-Good zero w reached covers = sync_now-Good w reached covers
  wait_or_sync-Good (suc ms) w reached covers = (covers, tt)

  cool-Good :
      (cooldown_ms : ℕ) (db : Db) (r : Option (Option SyncState) × (Db × N))
      → r.1.0 ≡ db
      → HeadReaches S wanted merchant db (S.clock r.1.1).1
      → Covers S.native_of merchant chain wanted db
      → Good S.native_of merchant chain wanted (cool S fuel merchant cooldown_ms r)
  cool-Good cooldown_ms db (none, w) same reached covers =
      (subst (Covers S.native_of merchant chain wanted) (sym same) covers, tt)
  cool-Good cooldown_ms db (some state, (db', n)) same reached covers =
      wait_or_sync-Good (cooldown_remaining (updated_at_of state) cooldown_ms (S.clock n).0)
        (db', (S.clock n).1)
        (subst (λ d. HeadReaches S wanted merchant d (S.clock n).1) (sym same) reached)
        (subst (Covers S.native_of merchant chain wanted) (sym same) covers)

  run_sync-Good :
      (cooldown_ms : ℕ) (w : Db × N)
      → HeadReaches S wanted merchant w.0 (asked_at S cooldown_ms merchant w)
      → Covers S.native_of merchant chain wanted w.0
      → Good S.native_of merchant chain wanted (run_sync S fuel merchant cooldown_ms w)
  unfolding run_sync
  run_sync-Good zero w reached covers = sync_now-Good w reached covers
  run_sync-Good (suc ms) w reached covers =
      cool-Good (suc ms) w.0 (get_sync_state S.down merchant.id w)
        (get_sync_state_db S merchant.id w) reached covers

-- If the service names a head that is not below the cursor when the sync asks for it, and the sync
-- then starts before each of the wanted ledgers that the cursor is not past, then the cursor is past
-- no wanted ledger with an unpaid event after the sync, if it was not before.
pub run_sync-Covers :
    {N : Type 0} (S : Services N) (merchant : Merchant) (chain : ℕ → List RawEvent)
    (left : Request → List RawEvent) (honest : IsHonest S.get_events chain left)
    (wanted : ℕ → Type 0) (fuel cooldown_ms : ℕ) (w : Db × N)
    → HeadReaches S wanted merchant w.0 (asked_at S cooldown_ms merchant w)
    → Covers S.native_of merchant chain wanted w.0
    → Covers S.native_of merchant chain wanted (run_sync S fuel merchant cooldown_ms w).1.0
run_sync-Covers S merchant chain left honest wanted fuel cooldown_ms w reached covers =
    (run_sync-Good S merchant chain left honest wanted fuel cooldown_ms w reached covers).0

-- If the event service serves whole windows, short pages end one, and a cursor leads to what its page
-- lacks, then when a sync ends with a report, the table has, for each event of the ledgers from
-- `startLedger` to `syncedTo` that decodes to a transfer to the merchant, a row of the merchant with
-- the transaction of the event and with a ledger. This says nothing of the row's amount, and a second
-- transfer of a transaction has the row of the first.
pub run_sync-Reports :
    {N : Type 0} (S : Services N) (merchant : Merchant) (chain : ℕ → List RawEvent)
    (left : Request → List RawEvent) (honest : IsHonest S.get_events chain left)
    (fuel cooldown_ms : ℕ) (w : Db × N)
    → Reports S.native_of merchant chain (run_sync S fuel merchant cooldown_ms w)
run_sync-Reports S merchant chain left honest fuel cooldown_ms w =
    (run_sync-Good S merchant chain left honest (λ l. ⊥) fuel cooldown_ms w
      (λ latest l got no. elim no [ ]) (λ c l e at no. elim no [ ])).1
