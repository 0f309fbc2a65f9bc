-- ===== src/Webhooks/Repository.antt =====
-- repository.ts: the statements on the deliveries and their attempts. `now` is the database's clock.
use accensa_app.Prelude.{
  ℕ, ◌+◌, String, Bool, true, false, ◌&&◌, ◌||◌, List, [], ◌∷◌, map, Option, none, some, leb, ltb,
  ◌==◌, if◌then◌else◌, str_eq,
}
use accensa_app.Webhooks.{
  DeliveryStatus, pending, delivering, delivered, is_pending, is_delivering, is_ended, Delivery,
  Attempt, Db,
}

unfoldable pub is_enqueued : String → String → List Delivery → Bool
is_enqueued tx_hash url [] = false
is_enqueued tx_hash url (d ∷ ds) =
    (str_eq d.payment_tx_hash tx_hash && str_eq d.url url) || is_enqueued tx_hash url ds

-- `enqueueWebhookDelivery`; `id` is the next value of the key's sequence, `body` the canonical payload.
unfoldable pub enqueue : ℕ → String → String → String → ℕ → Db → Db
unfolding is_enqueued
enqueue id tx_hash url body now db =
    if is_enqueued tx_hash url db.deliveries then db else record db {
      deliveries =
          record {
            id = id;
            payment_tx_hash = tx_hash;
            url = url;
            payload = body;
            status = pending;
            attempts = 0;
            last_status_code = none;
            last_error = none;
            next_retry_at = some now;
            delivered_at = none;
            created_at = now;
            updated_at = now;
          }
          ∷ db.deliveries;
    }

abbrev pub reset_row : ℕ → Delivery → Delivery
reset_row now d =
    if is_delivering d.status && ltb (d.updated_at + 60000) now
    then record d { status = pending; updated_at = now }
    else d

-- `resetStaleDelivering`
unfoldable pub reset_stale : ℕ → Db → Db
reset_stale now db = record db { deliveries = map (reset_row now) db.deliveries }

abbrev pub is_past : ℕ → Option ℕ → Bool
is_past now none = true
is_past now (some at) = leb at now

abbrev pub is_due : ℕ → Delivery → Bool
is_due now d = is_pending d.status && is_past now d.next_retry_at

-- `ORDER BY next_retry_at NULLS FIRST, id ASC`, where `before` is the order of the ids.
abbrev time_before : Bool → Option ℕ → Option ℕ → Bool
time_before before none none = before
time_before before none (some t) = true
time_before before (some s) none = false
time_before before (some s) (some t) = ltb s t || (s == t && before)

unfoldable pub retry_before : Delivery → Delivery → Bool
retry_before d e = time_before (leb d.id e.id) d.next_retry_at e.next_retry_at

unfoldable pub insert_due : Delivery → List Delivery → List Delivery
unfolding retry_before
insert_due d [] = d ∷ []
insert_due d (e ∷ ds) = if retry_before d e then d ∷ e ∷ ds else e ∷ insert_due d ds

unfoldable pub due_rows : ℕ → List Delivery → List Delivery
unfolding insert_due
due_rows now [] = []
due_rows now (d ∷ ds) =
    let rest = due_rows now ds in if is_due now d then insert_due d rest else rest

unfoldable pub take_rows : ℕ → List Delivery → List Delivery
take_rows n [] = []
take_rows ℕ.zero (d ∷ ds) = []
take_rows (ℕ.suc n) (d ∷ ds) = d ∷ take_rows n ds

-- `fetchDueDeliveries`
unfoldable pub fetch_due : ℕ → Db → List Delivery
unfolding due_rows take_rows
fetch_due now db = take_rows 50 (due_rows now db.deliveries)

-- An UPDATE of the rows with the id that pass the test.
unfoldable pub update_where :
    ℕ → (Delivery → Bool) → (Delivery → Delivery) → List Delivery → List Delivery
update_where id test write [] = []
update_where id test write (d ∷ ds) =
    (if d.id == id && test d then write d else d) ∷ update_where id test write ds

-- Whether such an UPDATE finds a row.
unfoldable pub any_where : ℕ → (Delivery → Bool) → List Delivery → Bool
any_where id test [] = false
any_where id test (d ∷ ds) = (d.id == id && test d) || any_where id test ds

abbrev pub has_status : (DeliveryStatus → Bool) → Delivery → Bool
has_status p d = p d.status

-- `claimDelivery`
unfoldable pub claim : ℕ → ℕ → Db → Bool × Db
unfolding update_where any_where
claim now id db = (
  any_where id (has_status is_pending) db.deliveries,
  record db {
    deliveries =
        update_where id (has_status is_pending)
          (λ d. record d { status = delivering; updated_at = now }) db.deliveries;
  },
)

-- `requeueUnsent`
unfoldable pub requeue_unsent : Bool → ℕ → ℕ → Db → Db
unfolding update_where
requeue_unsent false now id db = db
requeue_unsent true now id db = record db {
  deliveries =
      update_where id (has_status is_delivering)
        (λ d. record d { status = pending; updated_at = now }) db.deliveries;
}

abbrev is_delivered : DeliveryStatus → Bool
is_delivered delivered = true
is_delivered _ = false

abbrev pub attempted_row :
    ℕ → ℕ → Option ℕ → Option String → DeliveryStatus → Option ℕ → Delivery → Delivery
attempted_row now number status_code error status next d = record d {
  status = status;
  attempts = number;
  last_status_code = status_code;
  last_error = error;
  next_retry_at = next;
  delivered_at = if is_delivered status then some now else d.delivered_at;
  updated_at = now;
}

-- `persistAttempt`, whose INSERT and UPDATE are not in a transaction: whether each of them succeeds,
-- and false where it throws.
unfoldable pub persist_attempt :
    Bool → Bool → ℕ → Attempt → DeliveryStatus → Option ℕ → Db → Bool × Db
unfolding update_where
persist_attempt false updates now a status next db = (false, db)
persist_attempt true false now a status next db = (false, record db { attempts = a ∷ db.attempts })
persist_attempt true true now a status next db = (
  true,
  record {
    deliveries =
        update_where a.delivery_id (λ d. true)
          (attempted_row now a.attempt_number a.status_code a.error status next) db.deliveries;
    attempts = a ∷ db.attempts;
  },
)

-- `requeueFailedDelivery`; `owned` says which payments are the merchant's.
unfoldable pub requeue_failed : (String → Bool) → ℕ → ℕ → Db → Bool × Db
unfolding update_where any_where
requeue_failed owned now id db = (
  any_where id (λ d. is_ended d.status && owned d.payment_tx_hash) db.deliveries,
  record db {
    deliveries =
        update_where id (λ d. is_ended d.status && owned d.payment_tx_hash)
          (λ d. record d {
            status = pending;
            attempts = 0;
            next_retry_at = some now;
            updated_at = now;
          })
          db.deliveries;
  },
)

-- `pendingDue`; without a merchant every payment counts as owned.
unfoldable pub pending_due : (String → Bool) → ℕ → List Delivery → ℕ
pending_due owned now [] = 0
pending_due owned now (d ∷ ds) =
    (if is_due now d && owned d.payment_tx_hash then 1 else 0) + pending_due owned now ds
