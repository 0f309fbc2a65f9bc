-- ===== src/Indexer/Histories.antt =====
-- What syncs and reported settlements, in any order, make of the database.
use accensa_app.Prelude.{◌≡◌, subst, ℕ, Bool, true, false, List, [], ◌∷◌, ltb}
use accensa_app.Indexer.{Db, Merchant}
use accensa_app.Indexer.Table.{Settlement, update_reported, insert_reported}
use accensa_app.Indexer.Queries.{
  query, report_update, report_insert, record_settlement, done, stage_unless,
}
use accensa_app.Indexer.Window.{Services}
use accensa_app.Indexer.Run.{run_sync}
use accensa_app.Indexer.Steps.{bind-keep, query-keep}

-- A call that changes the database: a sync of a merchant, or a report, however the world answers.
pub data Call (N : Type 0) : Type 0 where
  sync : ℕ → Merchant → ℕ → N → Call N
  report : Settlement → N → Call N

module _ {N : Type 0} (S : Services N) where
  abbrev pub run_call : Call N → Db → Db
  run_call (sync fuel merchant cooldown_ms n) db =
      (run_sync S fuel merchant cooldown_ms (db, n)).1.0
  run_call (report s n) db = (record_settlement S.down s (db, n)).1.0

  -- The calls, one after another.
  unfoldable pub run_calls : List (Call N) → Db → Db
  unfolding run_sync record_settlement
  run_calls [] db = db
  run_calls (c ∷ cs) db = run_calls cs (run_call c db)

  module _ (P : Db → Type 0) (s : Settlement)
      (updates : (db : Db) → P db → P (record db { payments = (update_reported s db.payments).1 }))
      (inserts : (db : Db)
        → P db
        → P (record db { payments = insert_reported s db.payments })) where
    stage_unless-keep : (b : Bool) (w : Db × N) → P w.0 → P (stage_unless S.down s b w).1.0
    stage_unless-keep true w h = h
    stage_unless-keep false w h =
        bind-keep P (query S.down (report_insert s)) (λ _. done false) w
          (query-keep P S.down (report_insert s) w h (λ x got.
            let inserted : (tt, record (w.0) { payments = insert_reported s w.0.payments }) ≡ x =
              cc in
            subst (λ y. P y.1) inserted (inserts w.0 h)))
          (λ a w' k. k)

    -- A property of the database that both statements of a report keep.
    pub record_settlement-keep : (w : Db × N) → P w.0 → P (record_settlement S.down s w).1.0
    unfolding record_settlement
    record_settlement-keep w h =
        bind-keep P (query S.down (report_update s)) (λ count. stage_unless S.down s (ltb 0 count))
          w
          (query-keep P S.down (report_update s) w h (λ x got.
            let updated : (
              (update_reported s w.0.payments).0,
              record (w.0) { payments = (update_reported s w.0.payments).1 },
            )
                ≡ x =
              cc in
            subst (λ y. P y.1) updated (updates w.0 h)))
          (λ count w' k. stage_unless-keep (ltb 0 count) w' k)
