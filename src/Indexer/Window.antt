-- ===== src/Indexer/Window.antt =====
-- The consumer of a sync's windows and the sweep over them: the part of runSync in app/api/sync/route.ts
-- from `fetchPage` to `sweepFn`. The RPC calls, the clock, the webhook's POST and the queueing of chat
-- notifications are steps of the world.
use accensa_app.Prelude.{
  ℕ, zero, suc, ◌+◌, ◌-◌, String, Bool, true, false, ◌&&◌, ◌||◌, List, [], ◌∷◌, Option, none, some,
  length, ltb, leb, if◌then◌else◌,
}
use accensa_app.Prelude.Text.{is_empty}
use accensa_app.Money.{Text}
use accensa_app.Pager.{
  RawEvent, EventPage, Request, Result, SweepResult, sweep_ledger_range, ledger_window,
}
use accensa_app.Pager.Parallel.{parallel_sweep_ledger_range}
use accensa_app.Indexer.{PaymentRow, Payment, Db, Merchant}
use accensa_app.Indexer.Decode.{Native, events_to_payment_rows}
use accensa_app.Indexer.Queries.{insert_payment_rows}

abbrev pub parallel_sync_threshold : ℕ
parallel_sync_threshold = ledger_window

-- What a sync depends on outside the database. `down` says whether the next query fails, `casts` which
-- amounts and close times PostgreSQL reads, `db_time` is `now()` of a statement, `clock` is `Date.now()`, `get_latest_ledger` and `get_events` are the
-- calls of `rpc`, none where they throw, and `post` is one attempt at the webhook, with its status.
pub record Services (N : Type 0) : Type 0 where
  pub down : N → Bool × N
  pub casts : Text → String → Bool
  pub db_time : N → ℕ
  pub clock : N → ℕ × N
  pub get_latest_ledger : N → Option ℕ × N
  pub get_events : Request → N → Option EventPage × N
  pub native_of : String → Option Native
  pub locale_le : String → String → Bool
  pub enqueue_chat : List Payment → N → N
  pub post : Payment → N → Option ℕ × N

-- The world of a sweep: the database, what is outside it, and the counts of the consumer.
pub record World (N : Type 0) : Type 0 where
  pub db : Db
  pub net : N
  pub decoded : ℕ
  pub inserted : ℕ

-- `webhookRes.ok || webhookRes.status < 500`
abbrev pub is_settled : Option ℕ → Bool
is_settled none = false
is_settled (some status) = (leb 200 status && ltb status 300) || ltb status 500

module _ {N : Type 0} (S : Services N) where
  -- The attempts at one webhook.
  unfoldable pub send_webhook : ℕ → Payment → N → N
  send_webhook zero p n = n
  send_webhook (suc tries) p n =
      let (status, n') = S.post p n in
      let rest = send_webhook tries p n' in if is_settled status then n' else rest

  unfoldable pub send_webhooks : List Payment → N → N
  unfolding send_webhook
  send_webhooks [] n = n
  send_webhooks (p ∷ ps) n = send_webhooks ps (send_webhook 3 p n)

  -- `if (webhookUrl)`
  abbrev pub notify : Option String → List Payment → N → N
  notify none ps n = n
  notify (some url) ps n = if is_empty url then n else send_webhooks ps n

  -- The end of the consumer, after the insert of its window.
  abbrev pub consumed : Merchant → World N → Option (List Payment) × (Db × N) → Bool × World N
  consumed merchant w (none, (db, n)) = (false, record w { db = db; net = n })
  consumed merchant w (some payments, (db, n)) = (
    true,
    record w {
      db = db;
      net = notify merchant.webhook_url payments (S.enqueue_chat payments n);
      inserted = w.inserted + length payments;
    },
  )

  abbrev pub consume_rows : Merchant → List PaymentRow → World N → Bool × World N
  consume_rows merchant [] w = (true, w)
  consume_rows merchant (r ∷ rs) w =
      consumed merchant w (insert_payment_rows S.down S.casts (r ∷ rs) (w.db, w.net))

  -- `onEvents`
  unfoldable pub on_events : Merchant → List RawEvent → World N → Bool × World N
  unfolding events_to_payment_rows insert_payment_rows send_webhooks
  on_events merchant events w =
      let (rows, decoded) = events_to_payment_rows S.native_of merchant events in
      consume_rows merchant rows (record w { decoded = w.decoded + decoded })

  unfoldable pub fetch_page : Request → World N → Option EventPage × World N
  fetch_page r w = let (page, n) = S.get_events r w.net in (page, record w { net = n })

  unfoldable pub within_budget : ℕ → World N → Bool × World N
  within_budget deadline w =
      let (now, n) = S.clock w.net in (ltb now deadline, record w { net = n })

  -- `sweepFn` on the ledgers up to the latest, with a bound on the pages of a window.
  unfoldable pub sweep : ℕ → Merchant → ℕ → ℕ → ℕ → World N → Result SweepResult × World N
  unfolding on_events fetch_page within_budget sweep_ledger_range parallel_sweep_ledger_range
  sweep fuel merchant deadline start_ledger latest w =
      if ltb parallel_sync_threshold (latest - start_ledger + 1)
      then parallel_sweep_ledger_range fetch_page (within_budget deadline) (on_events merchant)
          S.locale_le fuel start_ledger latest none none w
      else sweep_ledger_range fetch_page (within_budget deadline) (on_events merchant) S.locale_le
          fuel start_ledger latest none w
