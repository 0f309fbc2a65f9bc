-- ===== src/Indexer.antt =====
-- The indexer, apps/web: src/lib/insert-payments.ts, src/lib/stellar-events.ts, the payments and sync_state
-- tables of src/lib/db.ts, and runSync of src/app/api/sync/route.ts. A column's text is a String,
-- and a time is in milliseconds.
pub mod Decode
pub mod Table
pub mod Batch
pub mod Queries
pub mod Window
pub mod Run
pub mod Steps
pub mod Upserts
pub mod Chunks
pub mod Consumer
pub mod Progress
pub mod Coverage
pub mod Covered
pub mod Rollback
pub mod Sync
pub mod Twice
pub mod Inserts
pub mod Bound
pub mod Exact
pub mod Invariants
pub mod Keys
pub mod Histories
pub mod Tenants
pub mod Always
pub mod Times
pub mod Ends
mod Tests
use accensa_app.Prelude.{ℕ, String, List, Option}
use accensa_app.Prelude.Int.{ℤ}
use accensa_app.Money.{Text}

pub record TransferEvent : Type 0 where
  pub tx_hash : String
  pub ledger : ℕ
  pub ledger_closed_at : String
  pub from : String
  pub to : String
  pub asset : String
  pub stroops : ℤ
  pub amount : Text

pub record PaymentRow : Type 0 where
  pub merchant_id : ℕ
  pub tx_hash : String
  pub ledger : ℕ
  pub payer : String
  pub amount : Text
  pub asset : String
  pub ts : String

-- A row of `payments`, whose key is (merchant_id, tx_hash).
pub record Payment : Type 0 where
  pub merchant_id : ℕ
  pub tx_hash : String
  pub ledger : Option ℕ
  pub payer : Option String
  pub amount : Option Text
  pub asset : Option String
  pub ts : Option String
  pub route : Option String
  pub method : Option String
  pub request_id : Option String
  pub hook_reported_at : Option ℕ

-- A row of `sync_state`, whose key is merchant_id.
pub record SyncState : Type 0 where
  pub merchant_id : ℕ
  pub last_ledger : ℕ
  pub updated_at : ℕ

pub record Db : Type 0 where
  pub payments : List Payment
  pub sync_states : List SyncState

pub record Merchant : Type 0 where
  pub id : ℕ
  pub address : String
  pub webhook_url : Option String
