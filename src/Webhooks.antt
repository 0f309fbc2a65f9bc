-- ===== src/Webhooks.antt =====
-- apps/web/src/lib/webhooks: the types and constants, and the two tables of deliveries.
pub mod RetryPolicy
pub mod Repository
pub mod Deliver
pub mod Schedule
pub mod Attempts
pub mod Settled
pub mod Counted
pub mod Views
pub mod History
mod Tests
use accensa_app.Prelude.{ℕ, ◌*◌, String, Bool, true, false, List, Option}

abbrev pub max_attempts : ℕ
max_attempts = 8

abbrev pub delivery_window_ms : ℕ
delivery_window_ms = 24 * 60 * 60 * 1000

abbrev pub max_backoff_ms : ℕ
max_backoff_ms = 60 * 60 * 1000

pub data DeliveryStatus : Type 0 where
  pending delivering delivered failed dead_letter : DeliveryStatus

abbrev pub is_pending : DeliveryStatus → Bool
is_pending pending = true
is_pending _ = false

abbrev pub is_delivering : DeliveryStatus → Bool
is_delivering delivering = true
is_delivering _ = false

abbrev pub is_ended : DeliveryStatus → Bool
is_ended failed = true
is_ended dead_letter = true
is_ended _ = false

-- A row of `webhook_deliveries`. Times are in milliseconds.
pub record Delivery : Type 0 where
  pub id : ℕ
  pub payment_tx_hash : String
  pub url : String
  pub payload : String
  pub status : DeliveryStatus
  pub attempts : ℕ
  pub last_status_code : Option ℕ
  pub last_error : Option String
  pub next_retry_at : Option ℕ
  pub delivered_at : Option ℕ
  pub created_at : ℕ
  pub updated_at : ℕ

-- A row of `webhook_attempts`.
pub record Attempt : Type 0 where
  pub delivery_id : ℕ
  pub attempt_number : ℕ
  pub status_code : Option ℕ
  pub error : Option String
  pub duration_ms : ℕ

pub record Db : Type 0 where
  pub deliveries : List Delivery
  pub attempts : List Attempt

-- What one signed HTTP attempt reports.
pub record Outcome : Type 0 where
  pub status_code : Option ℕ
  pub error : Option String
  pub retry_after : Option String
  pub transport_error : Bool
  pub duration_ms : ℕ
