-- ===== src/Indexer/Invariants.antt =====
-- What runSync keeps of the database, from what its upserts, its cursor and its rollback keep.
use accensa_app.Prelude.{
  sym, subst, ℕ, zero, suc, Bool, true, false, List, ◌-◌, ◌+◌, Option, none, some, Bool-cases,
  Option-cases, inl, inr, ltb,
}
use accensa_app.Pager.{RawEvent, Result, ok, window_fetch, consumer_failed, stuck, SweepResult}
use accensa_app.Pager.Consumed.{IsKept, Keeps, sweep_ledger_range-Keeps, parallel_sweep-Keeps}
use accensa_app.Indexer.{SyncState, Db, Merchant}
use accensa_app.Indexer.Table.{delete_above, set_state}
use accensa_app.Indexer.Queries.{
  get_last_synced_ledger, get_sync_state, rollback_sync_to_ledger, set_last_synced_ledger,
}
use accensa_app.Indexer.Window.{
  Services, World, on_events, fetch_page, within_budget, sweep, parallel_sync_threshold,
}
use accensa_app.Indexer.Run.{
  swept, sync_from, sync_now, run_sync, resume, resume_at, rolled_back, read_head, cool,
  wait_or_sync, cooldown_remaining, updated_at_of, start_ledger_of, paging_budget_ms, report_of,
}
use accensa_app.Indexer.Chunks.{upserted}
use accensa_app.Indexer.Consumer.{rows_of, on_events-true, on_events-false}
use accensa_app.Indexer.Coverage.{set_last_synced_ledger_cases, cursor_moved_db}
use accensa_app.Indexer.Rollback.{rollback_ok, rollback-none}
use accensa_app.Indexer.Sync.{get_last_synced_ledger_db, get_sync_state_db}

module _ {N : Type 0} (S : Services N) (merchant : Merchant) (P : Db → Type 0)
    (upserts : (es : List RawEvent) (db : Db) → P db → P (upserted (rows_of S merchant es) db))
    (moves : (forward_only : Bool) (n now : ℕ) (db : Db)
      → P db
      → P (record db { sync_states = set_state forward_only merchant.id n now db.sync_states }))
    (purges : (n : ℕ) (db : Db)
      → P db
      → P (record db { payments = (delete_above merchant.id n db.payments).1 })) where
  sweep-keep :
      (fuel deadline start_ledger latest : ℕ) (w : World N)
      → P w.db
      → Keeps (λ es v. P v.db) (sweep S fuel merchant deadline start_ledger latest w)
  unfolding sweep fetch_page within_budget
  sweep-keep fuel deadline start_ledger latest w h =
      let kept : IsKept (fetch_page S) (within_budget S deadline) (on_events S merchant)
          (λ es v. P v.db) =
        record {
          fetches = λ r es v p. p;
          asks = λ es v p. p;
          takes = λ es more v p got.
              subst P (sym (on_events-true S merchant more v got)) (upserts more v.db p);
          throws = λ es more v p got. subst P (sym (on_events-false S merchant more v got)) p;
        } in
      elim (Bool-cases (ltb parallel_sync_threshold (latest - start_ledger + 1))) [
        | inl far ↦ rw far (
            parallel_sweep-Keeps (fetch_page S) (within_budget S deadline) (on_events S merchant) _
              kept S.locale_le fuel start_ledger latest none none w h)
        | inr near ↦ rw near (
            sweep_ledger_range-Keeps (fetch_page S) (within_budget S deadline)
              (on_events S merchant) _ kept S.locale_le fuel start_ledger latest none w h)
      ]

  moved-keep :
      (latest : ℕ) (cursor purged : Option ℕ) (s : SweepResult) (w : World N)
      → P w.db
      → P (swept S merchant latest cursor purged (ok s, w)).1.0
  moved-keep latest cursor purged s w h =
      let n = s.next_ledger - 1 in
      let q = set_last_synced_ledger S.down S.db_time merchant.id n (w.db, w.net) in
      subst (λ r. P r.0) (sym (cursor_moved_db (report_of latest cursor purged s w) q))
        (elim (set_last_synced_ledger_cases S merchant.id n (w.db, w.net)) [
          | inl stays ↦ subst P (sym stays) h
          | inr goes ↦ subst P (sym goes) (moves true n (S.db_time w.net) w.db h)
        ])

  swept-keep :
      (latest : ℕ) (cursor purged : Option ℕ) (r : Result SweepResult × World N)
      → Keeps (λ es v. P v.db) r
      → P (swept S merchant latest cursor purged r).1.0
  swept-keep latest cursor purged (ok s, w) h = moved-keep latest cursor purged s w h
  swept-keep latest cursor purged (window_fetch a b, w) (es, h) = h
  swept-keep latest cursor purged (consumer_failed, w) (es, h) = h
  swept-keep latest cursor purged (stuck, w) (es, h) = h

  sync_from-keep :
      (fuel latest : ℕ) (cursor purged : Option ℕ) (db : Db) (n : N)
      → P db
      → P (sync_from S fuel merchant latest cursor purged db n).1.0
  unfolding sync_from
  sync_from-keep fuel latest cursor purged db n h =
      let start = start_ledger_of cursor latest in
      elim (Bool-cases (ltb latest start)) [
        | inl early ↦ rw early h
        | inr late ↦
            let w : World N = record { db = db; net = (S.clock n).1; decoded = 0; inserted = 0 } in
            rw late (
              swept-keep latest cursor purged
                (sweep S fuel merchant ((S.clock n).0 + paging_budget_ms) start latest w)
                (sweep-keep fuel _ start latest w h))
      ]

  rollback-keep :
      (latest : ℕ) (w : Db × N)
      → P w.0
      → P (rollback_sync_to_ledger S.down S.db_time merchant.id latest w).1.0
  rollback-keep latest w h =
      let r = rollback_sync_to_ledger S.down S.db_time merchant.id latest w in
      elim (Option-cases r.0) [
        | inl none' ↦ subst P (sym (rollback-none S.down S.db_time merchant.id latest w none')) h
        | inr (purged, got) ↦
            let (now, (count, after)) =
              rollback_ok S.down S.db_time merchant.id latest purged w got in
            subst P (sym after) (moves false latest now _ (purges latest w.0 h))
      ]

  rolled_back-keep :
      (fuel latest : ℕ) (r : Option ℕ × (Db × N))
      → P r.1.0
      → P (rolled_back S fuel merchant latest r).1.0
  rolled_back-keep fuel latest (none, w) h = h
  rolled_back-keep fuel latest (some purged, (db, n)) h =
      sync_from-keep fuel latest (some latest) (some purged) db n h

  resume-keep :
      (fuel latest : ℕ) (cursor : Option ℕ) (w : Db × N)
      → P w.0
      → P (resume S fuel merchant latest cursor w).1.0
  resume-keep fuel latest none (db, n) h = sync_from-keep fuel latest none none db n h
  resume-keep fuel latest (some c) (db, n) h = elim (Bool-cases (ltb latest c)) [
    | inl behind ↦ rw behind (rolled_back-keep fuel latest _ (rollback-keep latest (db, n) h))
    | inr steady ↦ rw steady (sync_from-keep fuel latest (some c) none db n h)
  ]

  resume_at-keep :
      (fuel latest : ℕ) (r : Option (Option ℕ) × (Db × N))
      → P r.1.0
      → P (resume_at S fuel merchant latest r).1.0
  resume_at-keep fuel latest (none, w) h = h
  resume_at-keep fuel latest (some cursor, w) h = resume-keep fuel latest cursor w h

  read_head-keep :
      (fuel : ℕ) (r : Option ℕ × N) (db : Db) → P db → P (read_head S fuel merchant r db).1.0
  read_head-keep fuel (none, n) db h = h
  read_head-keep fuel (some latest, n) db h =
      resume_at-keep fuel latest (get_last_synced_ledger S.down merchant.id (db, n))
        (subst P (sym (get_last_synced_ledger_db S merchant.id db n)) h)

  sync_now-keep : (fuel : ℕ) (w : Db × N) → P w.0 → P (sync_now S fuel merchant w).1.0
  unfolding sync_now
  sync_now-keep fuel (db, n) h = read_head-keep fuel (S.get_latest_ledger n) db h

  wait_or_sync-keep : (fuel ms : ℕ) (w : Db × N) → P w.0 → P (wait_or_sync S fuel merchant ms w).1.0
  wait_or_sync-keep fuel zero w h = sync_now-keep fuel w h
  wait_or_sync-keep fuel (suc ms) w h = h

  cool-keep :
      (fuel cooldown_ms : ℕ) (r : Option (Option SyncState) × (Db × N))
      → P r.1.0
      → P (cool S fuel merchant cooldown_ms r).1.0
  cool-keep fuel cooldown_ms (none, w) h = h
  cool-keep fuel cooldown_ms (some state, (db, n)) h =
      wait_or_sync-keep fuel (cooldown_remaining (updated_at_of state) cooldown_ms (S.clock n).0)
        (db, (S.clock n).1) h

  -- A property of the database that the writes of a sync keep.
  pub run_sync-keep :
      (fuel cooldown_ms : ℕ) (w : Db × N) → P w.0 → P (run_sync S fuel merchant cooldown_ms w).1.0
  unfolding run_sync
  run_sync-keep fuel zero w h = sync_now-keep fuel w h
  run_sync-keep fuel (suc ms) w h =
      cool-keep fuel (suc ms) (get_sync_state S.down merchant.id w)
        (subst P (sym (get_sync_state_db S merchant.id w)) h)
