-- ===== src/Indexer/Tests.antt =====
-- A sync of eight ledgers, the fifth of which has a transfer to the merchant.
use accensa_app.Prelude.{
  ◌≡◌, refl, sym, subst, ◌≤◌, ℕ, suc, String, Bool, true, false, ◌&&◌, List, [], ◌∷◌, ◌⊎◌, Option,
  none, some, inl, inr, arith, leb, ◌==◌, if◌then◌else◌, length, str_eq, ◌+◌, ◌/◌, ◌∙◌, Bool-cases,
}
use accensa_app.Prelude.Int.{pos}
use accensa_app.Prelude.Text.{codes}
use accensa_app.Indexer.Progress.{cursor_of}
use accensa_app.Indexer.Batch.{chunk_rows, payments_batch_size}
use accensa_app.Pager.{RawEvent, EventPage, Request, window, following, Value}
use accensa_app.Pager.Members.{IsIn}
use accensa_app.Pager.Drain.{IsHonest}
use accensa_app.Indexer.{TransferEvent, PaymentRow, Db, Merchant}
use accensa_app.Indexer.Decode.{Native, native_text, native_integer, decode_transfer_event}
use accensa_app.Indexer.Table.{
  fits, is_written, Settlement, inserted, upsert, upsert_all, find_state, ledger_of,
}
use accensa_app.Indexer.Window.{Services}
use accensa_app.Indexer.Run.{run_sync}
use accensa_app.Indexer.Queries.{record_settlement, insert_payment_rows, rollback_sync_to_ledger}
use accensa_app.Indexer.Chunks.{upserted}
use accensa_app.Indexer.Inserts.{
  IsDistinct, insert_payment_rows-Reference, insert_payment_rows-some,
}
use accensa_app.Prelude.{All, all}
use accensa_app.Money.{Text}
use accensa_app.Indexer.Rollback.{kept, rollback-kept}
use accensa_app.Indexer.Coverage.{Covers, Reports, IsReached}
use accensa_app.Indexer.Sync.{IsAhead, run_sync-Reports}
use accensa_app.Indexer.Twice.{insert_payment_rows-twice}
use accensa_app.Indexer.Histories.{Call, sync, report, run_call, run_calls}
use accensa_app.Indexer.Always.{Reaches, run_calls-Covers}
use accensa_app.Indexer.Exact.{IsExact, decode_transfer_event-IsExact}
use accensa_app.Indexer.Tenants.{payments_of, run_sync-others}
use accensa_app.Indexer.Times.{IsTimely}
use accensa_app.Indexer.Ends.{HasEnded, run_sync-HasEnded}

abbrev payment_event : RawEvent
payment_event = record {
  id = some "1";
  tx_hash = some "h";
  ledger = some 5;
  ledger_closed_at = some "2025-01-01T00:00:00Z";
  contract_id = none;
  topic = some ("t" ∷ "p" ∷ "m" ∷ []);
  value = some (Value.text "v");
}

abbrev native_of : String → Option Native
native_of s =
    if str_eq s "t"
    then some (native_text "transfer")
    else (if str_eq s "v" then some (native_integer (pos 15000000)) else some (native_text s))

abbrev has_fifth : ℕ → ℕ → Bool
has_fifth from to = leb from 5 && leb 5 to

abbrev chain : ℕ → List RawEvent
chain l = if l == 5 then payment_event ∷ [] else []

abbrev left : Request → List RawEvent
left (window from to) = if has_fifth from to then payment_event ∷ [] else []
left (following c) = []

abbrev page_of : Request → EventPage
page_of r = record { events = left r; cursor = none }

-- A world that is the time, with a ledger at each.
abbrev services : Services ℕ
services = record {
  down = λ n. (false, n);
  casts = λ amount ts. true;
  db_time = λ n. n;
  clock = λ n. (n, suc n);
  get_latest_ledger = λ n. (some (suc n), n);
  get_events = λ r n. (some (page_of r), n);
  native_of = native_of;
  locale_le = λ s t. true;
  enqueue_chat = λ ps n. n;
  post = λ p n. (some 200, n);
}

abbrev merchant : Merchant
merchant = record { id = 1; address = "m"; webhook_url = some "https://shop.example/hook" }

abbrev empty : Db
empty = record { payments = []; sync_states = [] }

-- The first sync inserts the payment and moves the cursor to the head; the next one finds nothing new.
first_sync : length (run_sync services 3 merchant 0 (empty, 7)).1.0.payments ≡ 1
unfolding run_sync
first_sync = refl

first_cursor :
    ledger_of (find_state 1 (run_sync services 3 merchant 0 (empty, 7)).1.0.sync_states) ≡ some 8
unfolding run_sync find_state
first_cursor = refl

chain-left :
    (l : ℕ) (from to : ℕ) (e : RawEvent)
    → from ≤ l
    → l ≤ to
    → IsIn e (chain l)
    → IsIn e (left (window from to))
chain-left l from to e h k has = elim (Bool-cases (l == 5)) [
  | inr other ↦ absurd (subst (λ f. IsIn e (if f then payment_event ∷ [] else [])) other has)
  | inl fifth ↦
      let within : has_fifth from to ≡ true = ground arith in
      rw within (subst (λ f. IsIn e (if f then payment_event ∷ [] else [])) fifth has)
]

same_page : (r : Request) (page : EventPage) → some (page_of r) ≡ some page → page_of r ≡ page
same_page r page e = cc

honest : IsHonest services.get_events chain left
honest = record {
  windows = λ from to l e h k has. chain-left l from to e h k has;
  short = λ r w page got h e has. subst (λ p. IsIn e p.events) (same_page r page got) has;
  last = λ r w page got h e has. subst (λ p. IsIn e p.events) (same_page r page got) has;
  next = λ r w page c got h e has. inl (subst (λ p. IsIn e p.events) (same_page r page got) has);
}

no_cursor : cursor_of 1 empty ≡ none
unfolding find_state
no_cursor = refl

first_covered : Covers native_of merchant chain (λ l. 1 ≤ l) empty
first_covered c l e at = let clash : none ≡ some c = sym no_cursor ∙ at in absurd (cc)

run_sync-Reports_example :
    Reports native_of merchant chain (run_sync services 3 merchant 0 (empty, 7))
run_sync-Reports_example = run_sync-Reports services merchant chain left honest 3 0 (empty, 7)

abbrev paid_row : String → ℕ → PaymentRow
paid_row hash ledger = record {
  merchant_id = 1;
  tx_hash = hash;
  ledger = ledger;
  payer = "p";
  amount = codes "1.5000000";
  asset = "native";
  ts = "2025-01-01T00:00:00Z";
}

abbrev full : Db
full = record {
  payments = inserted (paid_row "a" 3) ∷ inserted (paid_row "b" 9) ∷ [];
  sync_states = (record { merchant_id = 1; last_ledger = 9; updated_at = 0 }) ∷ [];
}

abbrev any_cast : Text → String → Bool
any_cast amount ts = true

-- Any amount, with a time that is not empty.
abbrev dated : Text → String → Bool
dated amount ts = leb 1 (length (codes ts))

abbrev never_down : ℕ → Bool × ℕ
never_down n = (false, n)

two_inserted :
    (insert_payment_rows never_down any_cast (paid_row "a" 3 ∷ paid_row "c" 4 ∷ []) (full, 0)).0
    ≡ some (inserted (paid_row "c" 4) ∷ [])
unfolding insert_payment_rows
two_inserted = refl

first_writes :
    (upsert (paid_row "h" 5) (upsert_all [] empty.payments).1).0 ≡ some (inserted (paid_row "h" 5))
unfolding upsert upsert_all
first_writes = refl

insert_payment_rows-twice_example :
    ((insert_payment_rows never_down any_cast (paid_row "h" 5 ∷ paid_row "h" 5 ∷ []) (empty, 0)).0
      ≡ none)
    × ((insert_payment_rows never_down any_cast
          (paid_row "h" 5 ∷ paid_row "h" 5 ∷ [])
          (empty, 0)).1.0
        ≡ empty)
insert_payment_rows-twice_example =
    insert_payment_rows-twice never_down any_cast [] (paid_row "h" 5) [] (paid_row "h" 5) []
      (empty, 0) (inserted (paid_row "h" 5)) (omega arith) first_writes refl refl

rollback_purges : (rollback_sync_to_ledger never_down (λ n. n) 1 5 (full, 0)).0 ≡ some 1
unfolding rollback_sync_to_ledger
rollback_purges = refl

rollback-kept_example :
    (((rollback_sync_to_ledger never_down (λ n. n) 1 5 (full, 0)).0 ≡ none)
      × ((rollback_sync_to_ledger never_down (λ n. n) 1 5 (full, 0)).1.0 ≡ full))
    ⊎ ((purged : ℕ) × (((rollback_sync_to_ledger never_down (λ n. n) 1 5 (full, 0)).0 ≡ some purged)
          × ((purged + length (kept 1 5 full.payments) ≡ 2)
              × (((rollback_sync_to_ledger never_down (λ n. n) 1 5 (full, 0)).1.0.payments
                    ≡ kept 1 5 full.payments)
                  × (ledger_of (
                        find_state 1
                          (rollback_sync_to_ledger never_down
                            (λ n. n)
                            1
                            5
                            (full, 0)).1.0.sync_states)
                      ≡ some 5)))))
rollback-kept_example = rollback-kept never_down (λ n. n) 1 5 (full, 0)

abbrev decoded_event : TransferEvent
decoded_event = record {
  tx_hash = "h";
  ledger = 5;
  ledger_closed_at = "2025-01-01T00:00:00Z";
  from = "p";
  to = "m";
  asset = "native";
  stroops = pos 15000000;
  amount = codes "1.5000000";
}

event_decodes : decode_transfer_event native_of payment_event ≡ some decoded_event
unfolding decode_transfer_event
event_decodes = refl

decode_transfer_event-IsExact_example : IsExact decoded_event
decode_transfer_event-IsExact_example =
    decode_transfer_event-IsExact native_of payment_event decoded_event event_decodes

abbrev early_report : Settlement
early_report = record {
  merchant_id = 1;
  tx_hash = "h";
  route = "/api/article";
  method = "GET";
  request_id = none;
  payer = none;
  reported_at = 3;
}

abbrev calls : List (Call ℕ)
calls = report early_report 2 ∷ sync 3 merchant 0 7 ∷ sync 3 merchant 0 20 ∷ []

-- The report stages the payment, and the first sync fills it in.
calls_payments : length (run_calls services calls empty).payments ≡ 1
unfolding run_calls
calls_payments = refl

abbrev other_row : PaymentRow
other_row = record (paid_row "x" 9) { merchant_id = 2 }

abbrev shared : Db
shared = record {
  payments = inserted other_row ∷ inserted (paid_row "b" 9) ∷ [];
  sync_states =
      (record { merchant_id = 2; last_ledger = 9; updated_at = 0 })
      ∷ (record { merchant_id = 1; last_ledger = 9; updated_at = 0 })
      ∷ [];
}

run_sync-others_example :
    (payments_of 2 (run_sync services 3 merchant 0 (shared, 7)).1.0.payments
      ≡ payments_of 2 shared.payments)
    × (find_state 2 (run_sync services 3 merchant 0 (shared, 7)).1.0.sync_states
        ≡ find_state 2 shared.sync_states)
run_sync-others_example = run_sync-others services merchant 2 (omega arith) 3 0 (shared, 7)

-- A world that is the time in nanoseconds, of which a request for events takes a thousand.
abbrev timed_services : Services ℕ
timed_services = record services {
  clock = λ n. (n / 1_000_000, n);
  get_events = λ r n. (some (page_of r), n + 1000);
}

timely : IsTimely timed_services (λ n. n)
timely = record {
  down = λ n. omega arith;
  events = λ r n. omega arith;
  chat = λ ps n. omega arith;
  post = λ p n. omega arith;
  ticks = λ n. omega arith;
  reached = λ n. omega arith;
  reads = λ n. omega arith;
}

run_sync-HasEnded_example :
    HasEnded (run_sync timed_services 50_000_000_000 merchant 60000 (empty, 7)).0
run_sync-HasEnded_example =
    run_sync-HasEnded timed_services (λ n. n) timely merchant 50_000_000_000 (omega arith) 60000
      (empty, 7)

insert_payment_rows-Reference_example :
    (((insert_payment_rows never_down any_cast (paid_row "c" 4 ∷ []) (full, 0)).0 ≡ none)
      × ((insert_payment_rows never_down any_cast (paid_row "c" 4 ∷ []) (full, 0)).1.0 ≡ full))
    ⊎ (((insert_payment_rows never_down any_cast (paid_row "c" 4 ∷ []) (full, 0)).0
          ≡ some (upsert_all (paid_row "c" 4 ∷ []) full.payments).0)
        × ((insert_payment_rows never_down any_cast (paid_row "c" 4 ∷ []) (full, 0)).1.0
            ≡ upserted (paid_row "c" 4 ∷ []) full))
insert_payment_rows-Reference_example =
    insert_payment_rows-Reference never_down any_cast (paid_row "c" 4 ∷ []) (full, 0)

two-IsDistinct :
    All IsDistinct (chunk_rows (paid_row "a" 3 ∷ paid_row "c" 4 ∷ []) payments_batch_size)
unfolding chunk_rows is_written
two-IsDistinct = ((refl, (refl, tt)), tt)

two_fit : all (fits dated) (paid_row "a" 3 ∷ paid_row "c" 4 ∷ []) ≡ true
unfolding fits
two_fit = refl

-- An asset of a code of 12 characters, which the ledger allows, and its issuer.
abbrev long_asset : PaymentRow
long_asset = record (paid_row "a" 3) {
  asset = "ABCDEFGHIJKL:GA5ZSEJYB37JRC5AVCIA5MOP4RHTM335X2KGX3IHOJAPP5RE34K4KZVN";
}

long_asset_throws :
    (insert_payment_rows never_down dated (long_asset ∷ paid_row "c" 4 ∷ []) (empty, 0)).0 ≡ none
unfolding insert_payment_rows
long_asset_throws = refl

insert_payment_rows-some_example :
    ((insert_payment_rows never_down dated (paid_row "a" 3 ∷ paid_row "c" 4 ∷ []) (full, 0)).0
      ≡ some (upsert_all (paid_row "a" 3 ∷ paid_row "c" 4 ∷ []) full.payments).0)
    × ((insert_payment_rows never_down dated (paid_row "a" 3 ∷ paid_row "c" 4 ∷ []) (full, 0)).1.0
        ≡ upserted (paid_row "a" 3 ∷ paid_row "c" 4 ∷ []) full)
insert_payment_rows-some_example =
    insert_payment_rows-some never_down dated (paid_row "a" 3 ∷ paid_row "c" 4 ∷ []) (full, 0)
      (λ n. refl) two_fit two-IsDistinct

abbrev after_report : Db
after_report = run_call services (report early_report 2) empty

abbrev after_sync : Db
after_sync = run_call services (sync 3 merchant 0 7) after_report

report_cursor : cursor_of 1 after_report ≡ none
unfolding record_settlement find_state
report_cursor = refl

sync_cursor : cursor_of 1 after_sync ≡ some 8
unfolding record_settlement run_sync find_state
sync_cursor = refl

first_head : (latest : ℕ) → (services.get_latest_ledger 7).0 ≡ some latest → 8 ≡ latest
first_head latest h = cc

second_head : (latest : ℕ) → (services.get_latest_ledger 20).0 ≡ some latest → 21 ≡ latest
second_head latest h = cc

later-IsReached :
    (latest l : ℕ) → 21 ≡ latest → IsReached (some 8) latest l × IsAhead (some 8) latest
later-IsReached latest l is = elim (Bool-cases (leb l 8)) [
  | inl past ↦ (inl (ground arith), omega arith)
  | inr new ↦ (inr (ground arith), omega arith)
]

calls_reach : Reaches services merchant chain left honest (λ l. 1 ≤ l) calls empty
calls_reach = (
  inl (
    refl,
    λ latest l got from.
        subst (λ o. IsReached o latest l × IsAhead o latest) (sym report_cursor)
          (subst (λ n. IsReached none n l × IsAhead none n) (first_head latest got) (from, tt)),
  ),
  (
    inl (
      refl,
      λ latest l got from.
          subst (λ o. IsReached o latest l × IsAhead o latest) (sym sync_cursor)
            (later-IsReached latest l (second_head latest got)),
    ),
    tt,
  ),
)

run_calls-Covers_example :
    Covers native_of merchant chain (λ l. 1 ≤ l) (run_calls services calls empty)
run_calls-Covers_example =
    run_calls-Covers services merchant chain left honest (λ l. 1 ≤ l) calls empty calls_reach
      first_covered
