-- ===== src/Webhooks/Tests.antt =====
-- Two deliveries, and the theorems at them.
use accensa_app.Prelude.{
  ℕ, ◌≡◌, refl, String, true, false, List, [], ◌∷◌, Option, none, some, arith, map, if◌then◌else◌,
  ◌==◌,
}
use accensa_app.Webhooks.{DeliveryStatus, pending, delivered, dead_letter, Delivery, Db, Outcome}
use accensa_app.Webhooks.RetryPolicy.{backoff_ms, next_retry_at, parse_retry_after, or_zero}
use accensa_app.Webhooks.Repository.{reset_stale}
use accensa_app.Webhooks.Deliver.{Turn, deliver_due}
use accensa_app.Webhooks.Schedule.{IsScheduled, next_retry_at-IsScheduled}
use accensa_app.Webhooks.Attempts.{AllBounded}
use accensa_app.Webhooks.Settled.{Settled, deliver_due-Settled}
use accensa_app.Webhooks.History.{Call, enqueues, delivers, requeues, run, run-Bounded}

abbrev no_date : String → Option ℕ
no_date text = none

abbrev no_jitter : ℕ → ℕ
no_jitter n = 0

abbrev first : Delivery
first = record {
  id = 1;
  payment_tx_hash = "aa";
  url = "https://shop.example/hook";
  payload = "{}";
  status = pending;
  attempts = 7;
  last_status_code = some 503;
  last_error = none;
  next_retry_at = some 90;
  delivered_at = none;
  created_at = 10;
  updated_at = 20;
}

abbrev second : Delivery
second = record first { id = 2; attempts = 0; next_retry_at = none }

abbrev two_due : Db
two_due = record { deliveries = first ∷ second ∷ []; attempts = [] }

abbrev answer : ℕ → Outcome
answer code = record {
  status_code = some code;
  error = none;
  retry_after = none;
  transport_error = false;
  duration_ms = 5;
}

-- The first delivery is answered 503 and the second 200.
abbrev turns : Delivery → Turn
turns d = record {
  checked = 101;
  outcome = answer (if d.attempts == 0 then 200 else 503);
  recorded = 102;
  requeues = true;
  inserts = true;
  updates = true;
}

abbrev statuses : Db → List DeliveryStatus
statuses db = map (λ d. d.status) db.deliveries

two_due-statuses :
    statuses (deliver_due no_date no_jitter true 100 100 8000 turns two_due).1
    ≡ dead_letter ∷ delivered ∷ []
unfolding deliver_due
two_due-statuses = refl

scheduled : next_retry_at no_date no_jitter 2 1000 5000 (some " 7 ") ≡ some 12000
unfolding next_retry_at
scheduled = refl

next_retry_at-IsScheduled_example :
    IsScheduled 2 1000 5000
      (backoff_ms no_jitter 2)
      (or_zero (parse_retry_after no_date (some " 7 ") 5000))
      12000
next_retry_at-IsScheduled_example =
    next_retry_at-IsScheduled no_date no_jitter 2 1000 5000 (some " 7 ") 12000 scheduled

two_due-AllBounded : AllBounded two_due.deliveries
two_due-AllBounded = ground arith

abbrev calls : List Call
calls =
    enqueues 3 "bb" "https://shop.example/hook" "{}" 95
    ∷ delivers true 100 100 8000 turns
    ∷ requeues (λ tx. true) 300 1
    ∷ []

run-Bounded_example : AllBounded (run no_date no_jitter calls two_due).deliveries
run-Bounded_example = run-Bounded no_date no_jitter calls two_due two_due-AllBounded

two_due-Settled : Settled (reset_stale 100 two_due).deliveries
unfolding reset_stale
two_due-Settled = ground arith

deliver_due-Settled_example :
    Settled (deliver_due no_date no_jitter true 100 100 8000 turns two_due).1.deliveries
deliver_due-Settled_example =
    deliver_due-Settled no_date no_jitter true 100 100 8000 turns two_due
      (λ d. record { requeued = refl; inserted = refl; updated = refl }) two_due-Settled
