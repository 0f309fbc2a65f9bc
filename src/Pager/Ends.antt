-- ===== src/Pager/Ends.antt =====
-- The rounds of drainEvents and sweepLedgerRange, against a budget that runs out.
use accensa_app.Prelude.{
  ℕ, zero, suc, ◌+◌, ◌-◌, ◌≤◌, ◌<◌, ◌≡◌, String, Bool, true, List, [], ◌++◌, Option, none, some,
  leb, ltb, length, Bool-cases, Option-cases, inl, inr, arith, min,
}
use accensa_app.Pager.Drain.{result_cases}
use accensa_app.Pager.{
  RawEvent, EventPage, Request, window, following, Result, ok, window_fetch, consumer_failed, stuck,
  order_events, SweepResult, next_cursor, events_page_limit, drain_rounds, drain_events, unswept,
  sweep_rounds, sweep_ledger_range, positive_integer, ledger_window,
}

-- What is left of a budget, of which a page uses some up where it holds out after the page.
pub record IsTimed {W : Type 0} (fetch_page : Request → W → Option EventPage × W)
    (within_budget : W → Bool × W) (budget : W → ℕ) : Type 0 where
  pub fetches : (r : Request) (w : W) → budget (fetch_page r w).1 ≤ budget w
  pub keeps : (w : W) → budget (within_budget w).1 ≤ budget w
  pub spends :
      (r : Request) (w : W)
      → (within_budget (fetch_page r w).1).0 ≡ true
      → budget (within_budget (fetch_page r w).1).1 < budget w

-- The loop has ended within its rounds, and there is no more budget than before.
abbrev pub Ended : {A W : Type 0} → (W → ℕ) → ℕ → Result A × W → Type 0
Ended budget n (ok x, w) = budget w ≤ n
Ended budget n (window_fetch from to, w) = budget w ≤ n
Ended budget n (consumer_failed, w) = budget w ≤ n
Ended budget n (stuck, w) = ⊥

pub Ended-weaken :
    {A W : Type 0} (budget : W → ℕ) (m n : ℕ) (r : Result A × W)
    → m ≤ n
    → Ended budget m r
    → Ended budget n r
Ended-weaken budget m n (ok x, w) h e = omega arith
Ended-weaken budget m n (window_fetch from to, w) h e = omega arith
Ended-weaken budget m n (consumer_failed, w) h e = omega arith
Ended-weaken budget m n (stuck, w) h e = e

pub Ended-le :
    {A W : Type 0} (budget : W → ℕ) (n : ℕ) (r : Result A × W) → Ended budget n r → budget r.1 ≤ n
Ended-le budget n (ok x, w) e = e
Ended-le budget n (window_fetch from to, w) e = e
Ended-le budget n (consumer_failed, w) e = e
Ended-le budget n (stuck, w) e = elim e [ ]

pub positive_integer-pos : (n : Option ℕ) → 1 ≤ positive_integer n ledger_window
positive_integer-pos none = omega arith
positive_integer-pos (some zero) = omega arith
positive_integer-pos (some (suc n)) = omega arith

pub stuck-Ended :
    {A W : Type 0} (budget : W → ℕ) (n : ℕ) (r : Result A × W) → r.0 ≡ stuck → Ended budget n r → ⊥
stuck-Ended budget n (ok x, w) s e = cc
stuck-Ended budget n (window_fetch from to, w) s e = cc
stuck-Ended budget n (consumer_failed, w) s e = cc
stuck-Ended budget n (stuck, w) s e = e

module _ {W : Type 0} (fetch_page : Request → W → Option EventPage × W)
    (within_budget : W → Bool × W) (budget : W → ℕ)
    (timed : IsTimed fetch_page within_budget budget) where
  pub drain_rounds-Ended :
      (fuel from to : ℕ) (r : Request) (events : List RawEvent) (pages : ℕ) (w : W)
      → budget w < fuel
      → Ended budget
          (budget w)
          (drain_rounds fetch_page within_budget fuel from to r events pages w)
  unfolding drain_rounds
  drain_rounds-Ended (suc fuel) from to r events pages w h =
      let less = timed.fetches r w in
      let w' = (fetch_page r w).1 in
      elim (Option-cases (fetch_page r w).0) [
        | inl none' ↦ rw (drain_rounds, none') less
        | inr (page, got) ↦ elim (Bool-cases (ltb (length page.events) events_page_limit)) [
          | inl short ↦ rw (drain_rounds, got, short) less
          | inr long ↦ elim (Option-cases (next_cursor page)) [
            | inl last ↦ rw (drain_rounds, got, long, last) less
            | inr (c, more) ↦ elim (Bool-cases (within_budget w').0) [
              | inr over ↦ rw (drain_rounds, got, long, more, over) (omega (arith, timed.keeps w'))
              | inl go ↦
                  let spent = timed.spends r w go in
                  rw (drain_rounds, got, long, more, go)
                    (Ended-weaken budget (budget (within_budget w').1) (budget w) _ (omega arith) (
                      drain_rounds-Ended fuel from to (following c) (events ++ page.events)
                        (pages + 1) (within_budget w').1 (omega arith)))
            ]
          ]
        ]
      ]
  drain_rounds-Ended zero from to r events pages w h = absurd (omega arith)

  module _ (consume : List RawEvent → W → Bool × W)
      (lasting : (es : List RawEvent) (w : W) → budget (consume es w).1 ≤ budget w)
      (locale_le : String → String → Bool) (fuel end_ledger size : ℕ) (positive : 1 ≤ size) where
    sweep_rounds-Ended :
        (n : ℕ) (s : SweepResult) (w : W)
        → budget w < fuel
        → end_ledger + 1 - s.next_ledger < n
        → Ended budget
            (budget w)
            (sweep_rounds fetch_page within_budget consume locale_le fuel end_ledger size n s w)
    unfolding sweep_rounds drain_events
    sweep_rounds-Ended zero s w h k = absurd (omega arith)
    sweep_rounds-Ended (suc n) s w h k = elim (Bool-cases (leb s.next_ledger end_ledger)) [
      | inr done ↦ rw (sweep_rounds, done) (omega arith)
      | inl more ↦ elim (Bool-cases (within_budget w).0) [
        | inr over ↦ rw (sweep_rounds, more, over) (timed.keeps w)
        | inl go ↦
            let w' = (within_budget w).1 in
            let spent = timed.keeps w in
            let to = min (s.next_ledger + size - 1) end_ledger in
            let drain = drain_events fetch_page within_budget fuel s.next_ledger to w' in
            let ended : Ended budget (budget w') drain =
              drain_rounds-Ended fuel s.next_ledger to (window s.next_ledger to) [] 0 w'
                (omega arith) in
            let least = Ended-le budget (budget w') drain ended in
            elim (result_cases drain.0) [
              | inr (inr (inr none')) ↦ absurd (stuck-Ended budget (budget w') drain none' ended)
              | inr (inr (inl thrown)) ↦ rw (sweep_rounds, more, go, thrown) (omega arith)
              | inr (inl (a, b, bad)) ↦ rw (sweep_rounds, more, go, bad) (omega arith)
              | inl (d, got) ↦
                  let taking = consume (order_events locale_le d.events) drain.1 in
                  let lasts = lasting (order_events locale_le d.events) drain.1 in
                  elim (Bool-cases taking.0) [
                    | inr threw ↦ rw (sweep_rounds, more, go, got, threw) (omega arith)
                    | inl taken ↦ elim (Bool-cases d.drained) [
                      | inr half ↦ rw (sweep_rounds, more, go, got, taken, half) (omega arith)
                      | inl all ↦
                          rw (sweep_rounds, more, go, got, taken, all)
                            (Ended-weaken budget (budget taking.1) (budget w) _ (omega arith)
                              (sweep_rounds-Ended n _ taking.1 (omega arith) (ground arith)))
                    ]
                  ]
            ]
      ]
    ]

  -- If a page uses some of the budget up where this holds out after it, and neither fetching nor the
  -- consumer gives any back, then a sweep ends, in a result or an error, within the rounds for its
  -- range and as many pages of a window as the budget allows.
  pub sweep_ledger_range-Ended :
      (consume : List RawEvent → W → Bool × W)
      (lasting : (es : List RawEvent) (w : W) → budget (consume es w).1 ≤ budget w)
      (locale_le : String → String → Bool) (fuel start_ledger end_ledger : ℕ)
      (window_size : Option ℕ) (w : W)
      → budget w < fuel
      → Ended budget (budget w) (
          sweep_ledger_range fetch_page within_budget consume locale_le fuel start_ledger end_ledger
            window_size w)
  unfolding sweep_ledger_range
  sweep_ledger_range-Ended consume lasting locale_le fuel start_ledger end_ledger window_size w h =
      sweep_rounds-Ended consume lasting locale_le fuel end_ledger
        (positive_integer window_size ledger_window) (positive_integer-pos window_size)
        (suc (end_ledger + 1 - start_ledger)) (unswept start_ledger) w h (omega arith)
