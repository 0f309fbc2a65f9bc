-- ===== src/Webhooks/Deliver.antt =====
-- delivery.ts: `recordAttempt` and `deliverDue`. The statements that claim rows are taken to succeed;
-- those that record an attempt or requeue a row may fail, and the loop goes on.
use accensa_app.Prelude.{
  ℕ, ◌+◌, String, Bool, true, false, ◌&&◌, not, List, [], ◌∷◌, Option, none, some, leb, ltb,
  if◌then◌else◌, length,
}
use accensa_app.Webhooks.{DeliveryStatus, pending, dead_letter, Delivery, Db, Outcome}
use accensa_app.Webhooks.RetryPolicy.{should_retry, next_retry_at}
use accensa_app.Webhooks.Repository.{reset_stale, fetch_due, claim, requeue_unsent, persist_attempt}

-- `statusCode !== null && statusCode >= 200 && statusCode < 300`
abbrev pub is_ok : Option ℕ → Bool
is_ok none = false
is_ok (some s) = leb 200 s && ltb s 300

-- What the world answers while one claimed row is handled: the clock at the test of the deadline,
-- the HTTP attempt, the clock when it is recorded, and which statements succeed: the one that requeues
-- the row, and the INSERT and the UPDATE that record an attempt.
pub record Turn : Type 0 where
  pub checked : ℕ
  pub outcome : Outcome
  pub recorded : ℕ
  pub requeues : Bool
  pub inserts : Bool
  pub updates : Bool

pub record Counts : Type 0 where
  pub delivered : ℕ
  pub failed : ℕ
  pub retried : ℕ

pub record Summary : Type 0 where
  pub attempted : ℕ
  pub delivered : ℕ
  pub failed : ℕ
  pub retried : ℕ

abbrev pub unsigned : String
unsigned = "WEBHOOK_SIGNING_KEY is not configured; refusing to send an unsigned payload"

abbrev pub count : DeliveryStatus → Counts → Counts
count DeliveryStatus.delivered c = record c { delivered = c.delivered + 1 }
count DeliveryStatus.failed c = record c { failed = c.failed + 1 }
count DeliveryStatus.dead_letter c = record c { failed = c.failed + 1 }
count _ c = record c { retried = c.retried + 1 }

abbrev pub count_failed : Counts → Counts
count_failed c = record c { failed = c.failed + 1 }

-- The counting of an attempt, none where recording it throws.
abbrev pub count_recorded : Option DeliveryStatus → Counts → Counts
count_recorded none c = count_failed c
count_recorded (some status) c = count status c

abbrev pub status_of : Option ℕ → Option ℕ → DeliveryStatus
status_of code next =
    if is_ok code
    then DeliveryStatus.delivered
    else elim next [ none ↦ dead_letter | some at ↦ pending ]

-- The attempt that is recorded where there is no key to sign with.
abbrev pub refused : Outcome
refused = record {
  status_code = none;
  error = some unsigned;
  retry_after = none;
  transport_error = true;
  duration_ms = 0;
}

-- The rows of the list that could be claimed.
unfoldable pub claim_rows : ℕ → List Delivery → Db → List Delivery × Db
unfolding claim
claim_rows now [] db = ([], db)
claim_rows now (row ∷ rows) db =
    let (won, db') = claim now row.id db in
    let (claimed, last) = claim_rows now rows db' in (if won then row ∷ claimed else claimed, last)

module _ (date_parse : String → Option ℕ) (jitter : ℕ → ℕ) where
  -- When the row is tried again, if it is.
  unfoldable pub next_attempt : ℕ → ℕ → ℕ → Outcome → Option ℕ
  unfolding should_retry next_retry_at
  next_attempt number created now o =
      if not (is_ok o.status_code) && should_retry o.status_code o.transport_error
      then next_retry_at date_parse jitter number created now o.retry_after
      else none

  -- `recordAttempt`, none where it throws.
  unfoldable pub record_attempt :
      Bool → Bool → ℕ → ℕ → ℕ → ℕ → Outcome → Db → Option DeliveryStatus × Db
  unfolding next_attempt persist_attempt
  record_attempt inserts updates id number created now o db =
      let next = next_attempt number created now o in
      let status = status_of o.status_code next in
      let (done, db') =
        persist_attempt inserts updates now
          (record {
            delivery_id = id;
            attempt_number = number;
            status_code = o.status_code;
            error = o.error;
            duration_ms = o.duration_ms;
          })
          status next db in
      (if done then some status else none, db')

  -- One round of the loop over the claimed rows.
  unfoldable pub deliver_row : Bool → ℕ → Turn → Delivery → Counts × Db → Counts × Db
  unfolding record_attempt requeue_unsent
  deliver_row signed deadline turn row (c, db) =
      if leb deadline turn.checked
      then (c, requeue_unsent turn.requeues turn.checked row.id db)
      else (if signed
          then (let (status, db') =
                record_attempt turn.inserts turn.updates row.id (row.attempts + 1) row.created_at
                  turn.recorded turn.outcome db in
              (count_recorded status c, db'))
          else (let (status, db') =
                record_attempt turn.inserts turn.updates row.id (row.attempts + 1) row.created_at
                  turn.recorded refused db in
              (count_failed c, db')))

  unfoldable pub deliver_rows :
      Bool → ℕ → (Delivery → Turn) → List Delivery → Counts × Db → Counts × Db
  unfolding deliver_row
  deliver_rows signed deadline turn [] s = s
  deliver_rows signed deadline turn (row ∷ rows) s =
      deliver_rows signed deadline turn rows (deliver_row signed deadline (turn row) row s)

  -- `deliverDue`: `now` is the option, `started` the clock at the start.
  unfoldable pub deliver_due : Bool → ℕ → ℕ → ℕ → (Delivery → Turn) → Db → Summary × Db
  unfolding reset_stale fetch_due claim_rows deliver_rows
  deliver_due signed now started budget turn db =
      let fresh = reset_stale started db in
      let (claimed, taken) = claim_rows started (fetch_due now fresh) fresh in
      let (c, last) =
        deliver_rows signed (started + budget) turn claimed
          (record { delivered = 0; failed = 0; retried = 0 }, taken) in
      (
        record {
          attempted = length claimed;
          delivered = c.delivered;
          failed = c.failed;
          retried = c.retried;
        },
        last,
      )
