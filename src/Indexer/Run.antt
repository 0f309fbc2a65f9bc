-- ===== src/Indexer/Run.antt =====
-- runSync of app/api/sync/route.ts; `ensureSchema` is taken to have run.
use accensa_app.Prelude.{
  ℕ, zero, suc, ◌+◌, ◌-◌, Bool, true, Option, none, some, ltb, leb, max, if◌then◌else◌,
}
use accensa_app.Pager.{Result, ok, window_fetch, consumer_failed, stuck, SweepResult}
use accensa_app.Indexer.{SyncState, Db, Merchant}
use accensa_app.Indexer.Queries.{
  set_last_synced_ledger, rollback_sync_to_ledger, get_sync_state, get_last_synced_ledger,
}
use accensa_app.Indexer.Window.{Services, World, sweep}

abbrev pub cold_start_lookback : ℕ
cold_start_lookback = 2000

abbrev pub max_lookback : ℕ
max_lookback = 100000

abbrev pub paging_budget_ms : ℕ
paging_budget_ms = 40000

-- `cooldownRemaining`, with the time of the last sync: none where there is none, or none that can be
-- read.
unfoldable pub cooldown_remaining : Option ℕ → ℕ → ℕ → ℕ
cooldown_remaining none cooldown_ms now = 0
cooldown_remaining (some updated) cooldown_ms now =
    if ltb now updated
    then 0
    else (if leb cooldown_ms (now - updated) then 0 else cooldown_ms - (now - updated))

-- `resumeFrom`, where it is above 0; the start is at least 1 anyway.
abbrev pub resume_from : Option ℕ → ℕ → ℕ
resume_from (some cursor) latest = cursor + 1
resume_from none latest = latest - cold_start_lookback

-- `startLedger`
abbrev pub start_ledger_of : Option ℕ → ℕ → ℕ
start_ledger_of cursor latest = max (max (resume_from cursor latest) (latest - max_lookback)) 1

-- `skippedLedgers`
abbrev pub skipped_of : Option ℕ → ℕ → ℕ
skipped_of cursor latest = latest - max_lookback - resume_from cursor latest

pub record Report : Type 0 where
  pub latest_ledger : ℕ
  pub start_ledger : ℕ
  pub synced_to : ℕ
  pub skipped_ledgers : ℕ
  pub drained : Bool
  pub pages : ℕ
  pub windows : ℕ
  pub scanned : ℕ
  pub decoded : ℕ
  pub inserted : ℕ
  pub purged : Option ℕ

-- How a sync ends: in a cooldown, with a report, or by throwing; `unfinished` stands for a sweep
-- that has not ended.
pub data Outcome : Type 0 where
  cooldown : ℕ → Outcome
  synced : Report → Outcome
  window_failed : ℕ → ℕ → Outcome
  failed : Outcome
  unfinished : Outcome

abbrev pub report_of : {N : Type 0} → ℕ → Option ℕ → Option ℕ → SweepResult → World N → Report
report_of latest cursor purged s w = record {
  latest_ledger = latest;
  start_ledger = start_ledger_of cursor latest;
  synced_to = s.next_ledger - 1;
  skipped_ledgers = skipped_of cursor latest;
  drained = s.complete;
  pages = s.pages;
  windows = s.windows;
  scanned = s.scanned;
  decoded = w.decoded;
  inserted = w.inserted;
  purged = purged;
}

-- The end of a sync: the cursor moves once the sweep is over.
abbrev pub cursor_moved : {N : Type 0} → Report → Option (Unit {0}) × (Db × N) → Outcome × (Db × N)
cursor_moved report (none, w) = (failed, w)
cursor_moved report (some _, w) = (synced report, w)

abbrev pub updated_at_of : Option SyncState → Option ℕ
updated_at_of none = none
updated_at_of (some s) = some s.updated_at

module _ {N : Type 0} (S : Services N) where
  abbrev pub swept :
      Merchant → ℕ → Option ℕ → Option ℕ → Result SweepResult × World N → Outcome × (Db × N)
  swept merchant latest cursor purged (stuck, w) = (unfinished, (w.db, w.net))
  swept merchant latest cursor purged (window_fetch from to, w) =
      (window_failed from to, (w.db, w.net))
  swept merchant latest cursor purged (consumer_failed, w) = (failed, (w.db, w.net))
  swept merchant latest cursor purged (ok s, w) =
      cursor_moved (report_of latest cursor purged s w)
        (set_last_synced_ledger S.down S.db_time merchant.id (s.next_ledger - 1) (w.db, w.net))

  -- From `startLedger` on, with the cursor that a rollback has corrected.
  unfoldable pub sync_from : ℕ → Merchant → ℕ → Option ℕ → Option ℕ → Db → N → Outcome × (Db × N)
  unfolding sweep set_last_synced_ledger
  sync_from fuel merchant latest cursor purged db n =
      let start_ledger = start_ledger_of cursor latest in
      if ltb latest start_ledger
      then (
        synced (record {
          latest_ledger = latest;
          start_ledger = start_ledger;
          synced_to = start_ledger - 1;
          skipped_ledgers = skipped_of cursor latest;
          drained = true;
          pages = 0;
          windows = 0;
          scanned = 0;
          decoded = 0;
          inserted = 0;
          purged = purged;
        }),
        (db, n),
      )
      else let (now, n') = S.clock n in
        swept merchant latest cursor purged (
          sweep S fuel merchant (now + paging_budget_ms) start_ledger latest
            (record { db = db; net = n'; decoded = 0; inserted = 0 }))

  abbrev pub rolled_back : ℕ → Merchant → ℕ → Option ℕ × (Db × N) → Outcome × (Db × N)
  rolled_back fuel merchant latest (none, w) = (failed, w)
  rolled_back fuel merchant latest (some purged, (db, n)) =
      sync_from fuel merchant latest (some latest) (some purged) db n

  abbrev pub resume : ℕ → Merchant → ℕ → Option ℕ → Db × N → Outcome × (Db × N)
  resume fuel merchant latest none (db, n) = sync_from fuel merchant latest none none db n
  resume fuel merchant latest (some cursor) (db, n) =
      if ltb latest cursor
      then rolled_back fuel merchant latest
          (rollback_sync_to_ledger S.down S.db_time merchant.id latest (db, n))
      else sync_from fuel merchant latest (some cursor) none db n

  abbrev pub resume_at : ℕ → Merchant → ℕ → Option (Option ℕ) × (Db × N) → Outcome × (Db × N)
  resume_at fuel merchant latest (none, w) = (failed, w)
  resume_at fuel merchant latest (some cursor, w) = resume fuel merchant latest cursor w

  abbrev pub read_head : ℕ → Merchant → Option ℕ × N → Db → Outcome × (Db × N)
  read_head fuel merchant (none, n) db = (failed, (db, n))
  read_head fuel merchant (some latest, n) db =
      resume_at fuel merchant latest (get_last_synced_ledger S.down merchant.id (db, n))

  -- The body after the cooldown.
  unfoldable pub sync_now : ℕ → Merchant → Db × N → Outcome × (Db × N)
  unfolding sync_from rollback_sync_to_ledger get_last_synced_ledger
  sync_now fuel merchant (db, n) = read_head fuel merchant (S.get_latest_ledger n) db

  abbrev pub wait_or_sync : ℕ → Merchant → ℕ → Db × N → Outcome × (Db × N)
  wait_or_sync fuel merchant zero w = sync_now fuel merchant w
  wait_or_sync fuel merchant (suc ms) w = (cooldown (suc ms), w)

  abbrev pub cool : ℕ → Merchant → ℕ → Option (Option SyncState) × (Db × N) → Outcome × (Db × N)
  cool fuel merchant cooldown_ms (none, w) = (failed, w)
  cool fuel merchant cooldown_ms (some state, (db, n)) =
      let (now, n') = S.clock n in
      wait_or_sync fuel merchant (cooldown_remaining (updated_at_of state) cooldown_ms now) (db, n')

  -- `runSync`, with the cooldown, 0 for none.
  unfoldable pub run_sync : ℕ → Merchant → ℕ → Db × N → Outcome × (Db × N)
  unfolding sync_now get_sync_state cooldown_remaining
  run_sync fuel merchant zero w = sync_now fuel merchant w
  run_sync fuel merchant (suc ms) w =
      cool fuel merchant (suc ms) (get_sync_state S.down merchant.id w)
