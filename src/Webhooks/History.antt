-- ===== src/Webhooks/History.antt =====
-- Histories of the delivery tables.
use accensa_app.Prelude.{ℕ, String, Bool, Option, List, [], ◌∷◌, arith}
use accensa_app.Webhooks.{Db, Delivery}
use accensa_app.Webhooks.Repository.{enqueue, requeue_failed}
use accensa_app.Webhooks.Deliver.{Turn, deliver_due}
use accensa_app.Webhooks.Attempts.{AllBounded, deliver_due-Bounded, update_where-Bounded}

pub data Call : Type 0 where
  enqueues : ℕ → String → String → String → ℕ → Call
  delivers : Bool → ℕ → ℕ → ℕ → (Delivery → Turn) → Call
  requeues : (String → Bool) → ℕ → ℕ → Call

module _ (date_parse : String → Option ℕ) (jitter : ℕ → ℕ) where
  pub step : Call → Db → Db
  step (enqueues id tx_hash url body now) db = enqueue id tx_hash url body now db
  step (delivers signed now started budget turn) db =
      (deliver_due date_parse jitter signed now started budget turn db).1
  step (requeues owned now id) db = (requeue_failed owned now id db).1

  pub run : List Call → Db → Db
  run [] db = db
  run (c ∷ cs) db = run cs (step c db)

  enqueue-Bounded :
      (id : ℕ) (tx_hash url body : String) (now : ℕ) (db : Db)
      → AllBounded db.deliveries
      → AllBounded (enqueue id tx_hash url body now db).deliveries
  unfolding enqueue
  enqueue-Bounded id tx_hash url body now db v = ground arith

  requeue_failed-Bounded :
      (owned : String → Bool) (now id : ℕ) (db : Db)
      → AllBounded db.deliveries
      → AllBounded (requeue_failed owned now id db).1.deliveries
  unfolding requeue_failed
  requeue_failed-Bounded owned now id db v =
      update_where-Bounded id _ _ db.deliveries (λ d t b. omega arith) v

  -- If every delivery counts at most eight attempts since it was created or last requeued, and fewer
  -- while it is pending or under way, then that still holds after any sequence of enqueueing, delivery
  -- runs and requeueing, which starts the count again.
  pub run-Bounded :
      (cs : List Call) (db : Db) → AllBounded db.deliveries → AllBounded (run cs db).deliveries
  unfolding run step
  run-Bounded [] db v = v
  run-Bounded (enqueues id tx_hash url body now ∷ cs) db v =
      run-Bounded cs _ (enqueue-Bounded id tx_hash url body now db v)
  run-Bounded (delivers signed now started budget turn ∷ cs) db v =
      run-Bounded cs _ (deliver_due-Bounded date_parse jitter signed now started budget turn db v)
  run-Bounded (requeues owned now id ∷ cs) db v =
      run-Bounded cs _ (requeue_failed-Bounded owned now id db v)
