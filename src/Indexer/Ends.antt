-- ===== src/Indexer/Ends.antt =====
-- The end of runSync, within a bound on its pages.
use accensa_app.Prelude.{
  ◌≤◌, ◌<◌, ◌-◌, ◌+◌, ◌*◌, ℕ, zero, suc, List, Option, none, some, Bool-cases, inl, inr, ltb, arith,
}
use accensa_app.Pager.{RawEvent, Result, ok, window_fetch, consumer_failed, stuck, SweepResult}
use accensa_app.Pager.Ends.{IsTimed, Ended, sweep_ledger_range-Ended}
use accensa_app.Pager.ParallelEnds.{parallel_sweep-Ended}
use accensa_app.Indexer.{SyncState, Db, Merchant}
use accensa_app.Indexer.Queries.{get_sync_state, set_last_synced_ledger}
use accensa_app.Indexer.Window.{
  Services, World, on_events, fetch_page, within_budget, sweep, parallel_sync_threshold,
}
use accensa_app.Indexer.Run.{
  Outcome, synced, failed, cooldown, unfinished, window_failed, Report, swept, cursor_moved,
  sync_from, sync_now, run_sync, resume, resume_at, rolled_back, read_head, cool, wait_or_sync,
  cooldown_remaining, updated_at_of, start_ledger_of, paging_budget_ms, report_of,
}
use accensa_app.Indexer.Times.{IsTimely, on_events-later}

-- The sync has ended: with a report, in the cooldown or by throwing.
abbrev pub HasEnded : Outcome → Type 0
HasEnded (cooldown ms) = Unit
HasEnded (synced report) = Unit
HasEnded (window_failed from to) = Unit
HasEnded failed = Unit
HasEnded unfinished = ⊥

cursor_moved-HasEnded :
    {N : Type 0} (report : Report) (r : Option (Unit {0}) × (Db × N))
    → HasEnded (cursor_moved report r).0
cursor_moved-HasEnded report (none, w) = tt
cursor_moved-HasEnded report (some x, w) = tt

module _ {N : Type 0} (S : Services N) (time : N → ℕ) (timely : IsTimely S time)
    (merchant : Merchant) (fuel : ℕ) (enough : paging_budget_ms * 1_000_000 < fuel) where
  timed :
      (deadline : ℕ)
      → IsTimed (fetch_page S) (within_budget S deadline) (λ w. deadline * 1_000_000 - time w.net)
  unfolding fetch_page within_budget
  timed deadline = record {
    fetches = λ r w. let d = timely.events r w.net in omega arith;
    keeps = λ w. let d = timely.ticks w.net in omega arith;
    spends = λ r w go.
        let n = (S.get_events r w.net).1 in
        let d = timely.events r w.net in
        let k = timely.ticks n in
        let e = timely.reads n in let soon : (S.clock n).0 < deadline = ground arith in omega arith;
  }

  lasting :
      (deadline : ℕ) (es : List RawEvent) (w : World N)
      → deadline * 1_000_000 - time (on_events S merchant es w).1.net
        ≤ deadline * 1_000_000 - time w.net
  lasting deadline es w =
      let d = on_events-later S time timely (time w.net) merchant es w (omega arith) in omega arith

  sweep-Ended :
      (deadline start_ledger latest : ℕ) (w : World N)
      → deadline * 1_000_000 - time w.net < fuel
      → Ended
          (λ v. deadline * 1_000_000 - time v.net)
          (deadline * 1_000_000 - time w.net)
          (sweep S fuel merchant deadline start_ledger latest w)
  unfolding sweep
  sweep-Ended deadline start_ledger latest w h =
      elim (Bool-cases (ltb parallel_sync_threshold (latest - start_ledger + 1))) [
        | inl far ↦ rw far (
            parallel_sweep-Ended (fetch_page S) (within_budget S deadline)
              (λ v. deadline * 1_000_000 - time v.net) (timed deadline) (on_events S merchant)
              (lasting deadline) S.locale_le fuel start_ledger latest none none w h)
        | inr near ↦ rw near (
            sweep_ledger_range-Ended (fetch_page S) (within_budget S deadline)
              (λ v. deadline * 1_000_000 - time v.net) (timed deadline) (on_events S merchant)
              (lasting deadline) S.locale_le fuel start_ledger latest none w h)
      ]

  swept-HasEnded :
      (budget : World N → ℕ) (n latest : ℕ) (cursor purged : Option ℕ)
      (r : Result SweepResult × World N)
      → Ended budget n r
      → HasEnded (swept S merchant latest cursor purged r).0
  swept-HasEnded budget n latest cursor purged (ok s, w) e =
      cursor_moved-HasEnded (report_of latest cursor purged s w)
        (set_last_synced_ledger S.down S.db_time merchant.id (s.next_ledger - 1) (w.db, w.net))
  swept-HasEnded budget n latest cursor purged (window_fetch a b, w) e = tt
  swept-HasEnded budget n latest cursor purged (consumer_failed, w) e = tt
  swept-HasEnded budget n latest cursor purged (stuck, w) e = e

  sync_from-HasEnded :
      (latest : ℕ) (cursor purged : Option ℕ) (db : Db) (n : N)
      → HasEnded (sync_from S fuel merchant latest cursor purged db n).0
  unfolding sync_from
  sync_from-HasEnded latest cursor purged db n =
      let start = start_ledger_of cursor latest in
      elim (Bool-cases (ltb latest start)) [
        | inl early ↦ rw early tt
        | inr late ↦
            let w : World N = record { db = db; net = (S.clock n).1; decoded = 0; inserted = 0 } in
            let deadline = (S.clock n).0 + paging_budget_ms in
            let start_at = timely.reached n in
            rw late (
              swept-HasEnded (λ v. deadline * 1_000_000 - time v.net)
                (deadline * 1_000_000 - time w.net) latest cursor purged
                (sweep S fuel merchant deadline start latest w)
                (sweep-Ended deadline start latest w (omega arith)))
      ]

  rolled_back-HasEnded :
      (latest : ℕ) (r : Option ℕ × (Db × N)) → HasEnded (rolled_back S fuel merchant latest r).0
  rolled_back-HasEnded latest (none, w) = tt
  rolled_back-HasEnded latest (some purged, (db, n)) =
      sync_from-HasEnded latest (some latest) (some purged) db n

  resume-HasEnded :
      (latest : ℕ) (cursor : Option ℕ) (w : Db × N)
      → HasEnded (resume S fuel merchant latest cursor w).0
  resume-HasEnded latest none (db, n) = sync_from-HasEnded latest none none db n
  resume-HasEnded latest (some c) (db, n) = elim (Bool-cases (ltb latest c)) [
    | inl behind ↦ rw behind (rolled_back-HasEnded latest _)
    | inr steady ↦ rw steady (sync_from-HasEnded latest (some c) none db n)
  ]

  resume_at-HasEnded :
      (latest : ℕ) (r : Option (Option ℕ) × (Db × N))
      → HasEnded (resume_at S fuel merchant latest r).0
  resume_at-HasEnded latest (none, w) = tt
  resume_at-HasEnded latest (some cursor, w) = resume-HasEnded latest cursor w

  read_head-HasEnded : (r : Option ℕ × N) (db : Db) → HasEnded (read_head S fuel merchant r db).0
  read_head-HasEnded (none, n) db = tt
  read_head-HasEnded (some latest, n) db = resume_at-HasEnded latest _

  sync_now-HasEnded : (w : Db × N) → HasEnded (sync_now S fuel merchant w).0
  unfolding sync_now
  sync_now-HasEnded (db, n) = read_head-HasEnded (S.get_latest_ledger n) db

  wait_or_sync-HasEnded : (ms : ℕ) (w : Db × N) → HasEnded (wait_or_sync S fuel merchant ms w).0
  wait_or_sync-HasEnded zero w = sync_now-HasEnded w
  wait_or_sync-HasEnded (suc ms) w = tt

  cool-HasEnded :
      (cooldown_ms : ℕ) (r : Option (Option SyncState) × (Db × N))
      → HasEnded (cool S fuel merchant cooldown_ms r).0
  cool-HasEnded cooldown_ms (none, w) = tt
  cool-HasEnded cooldown_ms (some state, (db, n)) =
      wait_or_sync-HasEnded (cooldown_remaining (updated_at_of state) cooldown_ms (S.clock n).0)
        (db, (S.clock n).1)

  -- If no service turns the time back, a request for events takes at least a nanosecond, and Date.now()
  -- tells the time in milliseconds, then a sync ends: within as many pages of a window as its time
  -- budget has nanoseconds, it reports, answers the cooldown or throws.
  pub run_sync-HasEnded :
      (cooldown_ms : ℕ) (w : Db × N) → HasEnded (run_sync S fuel merchant cooldown_ms w).0
  unfolding run_sync
  run_sync-HasEnded zero w = sync_now-HasEnded w
  run_sync-HasEnded (suc ms) w = cool-HasEnded (suc ms) (get_sync_state S.down merchant.id w)
