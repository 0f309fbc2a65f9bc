-- ===== src/Pager.antt =====
-- apps/web/src/lib/event-pager.ts: drainEvents and sweepLedgerRange.
pub mod Members
pub mod Drain
pub mod Coverage
pub mod Ends
pub mod Parallel
pub mod Batches
pub mod Consumed
pub mod ParallelEnds
mod Tests
use accensa_app.Prelude.{
  ℕ, zero, suc, ◌+◌, ◌-◌, String, Bool, true, false, ◌||◌, ◌&&◌, List, [], ◌∷◌, ◌++◌, Option, none,
  some, length, leb, ltb, ◌==◌, if◌then◌else◌, min,
}
use accensa_app.Prelude.Text.{is_empty}

abbrev pub events_page_limit : ℕ
events_page_limit = 200

abbrev pub ledger_window : ℕ
ledger_window = 10000

-- The value of an event, as text or in an object.
pub data Value : Type 0 where
  text : String → Value
  object : Option String → Value

pub record RawEvent : Type 0 where
  pub id : Option String
  pub tx_hash : Option String
  pub ledger : Option ℕ
  pub ledger_closed_at : Option String
  pub contract_id : Option String
  pub topic : Option (List String)
  pub value : Option Value

pub record EventPage : Type 0 where
  pub events : List RawEvent
  pub cursor : Option String

-- What one call of `fetchPage` asks for: a window of ledgers, or what follows a cursor.
pub data Request : Type 0 where
  window : ℕ → ℕ → Request
  following : String → Request

-- `window_fetch` is a LedgerWindowFetchError, `consumer_failed` what `onEvents` throws, and `stuck`
-- stands for a loop that has not ended.
pub data Result (A : Type 0) : Type 0 where
  ok : A → Result A
  window_fetch : ℕ → ℕ → Result A
  consumer_failed : Result A
  stuck : Result A

pub record DrainResult : Type 0 where
  pub events : List RawEvent
  pub drained : Bool
  pub pages : ℕ

-- `next_ledger` is `sweptThrough + 1`. `events` is all that is emitted, in order: the result's events
-- without a consumer, and otherwise what the consumer was called with.
pub record SweepResult : Type 0 where
  pub events : List RawEvent
  pub scanned : ℕ
  pub next_ledger : ℕ
  pub complete : Bool
  pub pages : ℕ
  pub windows : ℕ

-- `page.events[page.events.length - 1]?.id`
unfoldable pub last_id : List RawEvent → Option String
last_id [] = none
last_id (e ∷ []) = e.id
last_id (e ∷ f ∷ es) = last_id (f ∷ es)

abbrev pub or_else : Option String → Option String → Option String
or_else none d = d
or_else (some s) d = some s

abbrev pub truthy : Option String → Option String
truthy none = none
truthy (some s) = if is_empty s then none else some s

-- The cursor of the next page, if the loop goes on.
unfoldable pub next_cursor : EventPage → Option String
unfolding last_id
next_cursor page = truthy (or_else page.cursor (last_id page.events))

-- `positiveInteger`
abbrev pub positive_integer : Option ℕ → ℕ → ℕ
positive_integer none fallback = fallback
positive_integer (some zero) fallback = fallback
positive_integer (some (suc n)) fallback = suc n

abbrev or_zero : Option ℕ → ℕ
or_zero none = 0
or_zero (some n) = n

abbrev or_blank : Option String → String
or_blank none = ""
or_blank (some s) = s

module _ (locale_le : String → String → Bool) where
  -- The comparison of `orderEvents` is at most 0; `locale_le` says so of localeCompare.
  unfoldable pub event_le : RawEvent → RawEvent → Bool
  event_le a b =
      ltb (or_zero a.ledger) (or_zero b.ledger)
      || (or_zero a.ledger == or_zero b.ledger && locale_le (or_blank a.id) (or_blank b.id))

  unfoldable pub insert_event : RawEvent → List RawEvent → List RawEvent
  unfolding event_le
  insert_event e [] = e ∷ []
  insert_event e (f ∷ es) = if event_le e f then e ∷ f ∷ es else f ∷ insert_event e es

  -- `orderEvents`
  unfoldable pub order_events : List RawEvent → List RawEvent
  unfolding insert_event
  order_events [] = []
  order_events (e ∷ es) = insert_event e (order_events es)

-- The effect of `emit` with the counts of a window.
abbrev pub emit : (String → String → Bool) → SweepResult → DrainResult → SweepResult
emit locale_le s d = record s {
  events = s.events ++ order_events locale_le d.events;
  scanned = s.scanned + length d.events;
  pages = s.pages + d.pages;
  windows = s.windows + 1;
}

abbrev pub unswept : ℕ → SweepResult
unswept start_ledger = record {
  events = [];
  scanned = 0;
  next_ledger = start_ledger;
  complete = false;
  pages = 0;
  windows = 0;
}

-- `fetchPage`, none where it throws, `withinBudget`, and `onEvents`, false where it throws, are steps
-- of the world. Without a consumer, `consume` is the step that keeps the world and succeeds.
module _ {W : Type 0} (fetch_page : Request → W → Option EventPage × W)
    (within_budget : W → Bool × W) where
  -- The loop of `drainEvents`, with the events and pages so far and a bound on its rounds.
  unfoldable pub drain_rounds : ℕ → ℕ → ℕ → Request → List RawEvent → ℕ → W → Result DrainResult × W
  unfolding next_cursor
  drain_rounds zero from to request events pages w = (stuck, w)
  drain_rounds (suc fuel) from to request events pages w =
      let (answer, w') = fetch_page request w in
      elim answer [
        | none ↦ (window_fetch from to, w')
        | some page ↦
            let all = events ++ page.events in
            let done : DrainResult = record { events = all; drained = true; pages = pages + 1 } in
            if ltb (length page.events) events_page_limit
            then (ok done, w')
            else elim (next_cursor page) [
              | none ↦ (ok done, w')
              | some c ↦
                  let (go, w'') = within_budget w' in
                  elim go [
                    | false ↦ (ok (record done { drained = false }), w'')
                    | true ↦ drain_rounds fuel from to (following c) all (pages + 1) w''
                  ]
            ]
      ]

  -- `drainEvents`
  unfoldable pub drain_events : ℕ → ℕ → ℕ → W → Result DrainResult × W
  unfolding drain_rounds
  drain_events fuel from to w = drain_rounds fuel from to (window from to) [] 0 w

  module _ (consume : List RawEvent → W → Bool × W) (locale_le : String → String → Bool)
      (fuel end_ledger size : ℕ) where
    -- The loop of `sweepLedgerRange`, with a bound on its rounds.
    unfoldable pub sweep_rounds : ℕ → SweepResult → W → Result SweepResult × W
    unfolding drain_events order_events
    sweep_rounds zero s w = (stuck, w)
    sweep_rounds (suc n) s w = elim (leb s.next_ledger end_ledger) [
      | false ↦ (ok (record s { complete = true }), w)
      | true ↦
          let (go, w') = within_budget w in
          elim go [
            | false ↦ (ok s, w')
            | true ↦
                let to = min (s.next_ledger + size - 1) end_ledger in
                let (answer, w'') = drain_events fuel s.next_ledger to w' in
                elim answer [
                  | stuck ↦ (stuck, w'')
                  | window_fetch a b ↦ (window_fetch a b, w'')
                  | consumer_failed ↦ (consumer_failed, w'')
                  | ok d ↦
                      let (taken, w''') = consume (order_events locale_le d.events) w'' in
                      elim taken [
                        | false ↦ (consumer_failed, w''')
                        | true ↦ elim d.drained [
                          | false ↦ (ok (emit locale_le s d), w''')
                          | true ↦
                              sweep_rounds n (record (emit locale_le s d) { next_ledger = to + 1 })
                                w'''
                        ]
                      ]
                ]
          ]
    ]

  -- `sweepLedgerRange`
  unfoldable pub sweep_ledger_range :
      (List RawEvent → W → Bool × W)
      → (String → String → Bool)
      → ℕ
      → ℕ
      → ℕ
      → Option ℕ
      → W
      → Result SweepResult × W
  unfolding sweep_rounds
  sweep_ledger_range consume locale_le fuel start_ledger end_ledger window_size w =
      sweep_rounds consume locale_le fuel end_ledger (positive_integer window_size ledger_window)
        (suc (end_ledger + 1 - start_ledger)) (unswept start_ledger) w
