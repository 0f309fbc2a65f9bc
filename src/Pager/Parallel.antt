-- ===== src/Pager/Parallel.antt =====
-- event-pager.ts: parallelSweepLedgerRange. The windows of a batch are fetched one after another; how the
-- fetches of two windows interleave is left out.
use accensa_app.Prelude.{
  ℕ, zero, suc, ◌+◌, ◌-◌, String, Bool, true, false, List, [], ◌∷◌, Option, leb, ltb, min,
}
use accensa_app.Pager.{
  RawEvent, EventPage, Request, Result, ok, window_fetch, consumer_failed, stuck, DrainResult,
  SweepResult, drain_events, order_events, emit, unswept, positive_integer, ledger_window,
}

abbrev pub parallel_concurrency : ℕ
parallel_concurrency = 10

-- The loop over the results of a batch, each with the last ledger of its window; true if one was not
-- drained.
unfoldable pub commit_batch :
    {W : Type 0}
    → (List RawEvent → W → Bool × W)
    → (String → String → Bool)
    → List (ℕ × DrainResult)
    → SweepResult
    → W
    → Result (Bool × SweepResult) × W
unfolding order_events
commit_batch consume locale_le [] s w = (ok (false, s), w)
commit_batch consume locale_le ((to, d) ∷ rest) s w =
    let (taken, w') = consume (order_events locale_le d.events) w in
    elim taken [
      | false ↦ (consumer_failed, w')
      | true ↦ elim d.drained [
        | false ↦ (ok (true, record (emit locale_le s d) { windows = s.windows }), w')
        | true ↦
            commit_batch consume locale_le rest
              (record (emit locale_le s d) { next_ledger = to + 1 }) w'
      ]
    ]

abbrev pub add_result :
    ℕ → DrainResult → Result (List (ℕ × DrainResult)) → Result (List (ℕ × DrainResult))
add_result to d (ok rest) = ok ((to, d) ∷ rest)
add_result to d (window_fetch a b) = window_fetch a b
add_result to d consumer_failed = consumer_failed
add_result to d stuck = stuck

module _ {W : Type 0} (fetch_page : Request → W → Option EventPage × W)
    (within_budget : W → Bool × W) (fuel end_ledger size : ℕ) where
  -- A batch of at most so many windows from a ledger on, and what each fetch returns.
  unfoldable pub fetch_batch : ℕ → ℕ → W → Result (List (ℕ × DrainResult)) × W
  unfolding drain_events
  fetch_batch zero from w = (ok [], w)
  fetch_batch (suc n) from w = elim (leb from end_ledger) [
    | false ↦ (ok [], w)
    | true ↦
        let to = min (from + size - 1) end_ledger in
        let (answer, w') = drain_events fetch_page within_budget fuel from to w in
        elim answer [
          | stuck ↦ (stuck, w')
          | window_fetch a b ↦ (window_fetch a b, w')
          | consumer_failed ↦ (consumer_failed, w')
          | ok d ↦ let (rest, last) = fetch_batch n (to + 1) w' in (add_result to d rest, last)
        ]
  ]

  -- The loop over the batches; `nextWindowStart` is the ledger after `sweptThrough` in each round.
  unfoldable pub parallel_rounds :
      (List RawEvent → W → Bool × W)
      → (String → String → Bool)
      → ℕ
      → ℕ
      → SweepResult
      → W
      → Result SweepResult × W
  unfolding fetch_batch commit_batch
  parallel_rounds consume locale_le batch zero s w = (stuck, w)
  parallel_rounds consume locale_le batch (suc n) s w = elim (leb s.next_ledger end_ledger) [
    | false ↦ (ok (record s { complete = ltb end_ledger s.next_ledger }), w)
    | true ↦
        let (go, w') = within_budget w in
        elim go [
          | false ↦ (ok s, w')
          | true ↦
              let (answer, w'') = fetch_batch batch s.next_ledger w' in
              elim answer [
                | stuck ↦ (stuck, w'')
                | window_fetch a b ↦ (window_fetch a b, w'')
                | consumer_failed ↦ (consumer_failed, w'')
                | ok results ↦
                    let (committed, w''') = commit_batch consume locale_le results s w'' in
                    elim committed [
                      | stuck ↦ (stuck, w''')
                      | window_fetch a b ↦ (window_fetch a b, w''')
                      | consumer_failed ↦ (consumer_failed, w''')
                      | ok (true, t) ↦
                          (ok (record t { complete = ltb end_ledger t.next_ledger }), w''')
                      | ok (false, t) ↦ parallel_rounds consume locale_le batch n t w'''
                    ]
              ]
        ]
  ]

-- `parallelSweepLedgerRange`
unfoldable pub parallel_sweep_ledger_range :
    {W : Type 0}
    → (Request → W → Option EventPage × W)
    → (W → Bool × W)
    → (List RawEvent → W → Bool × W)
    → (String → String → Bool)
    → ℕ
    → ℕ
    → ℕ
    → Option ℕ
    → Option ℕ
    → W
    → Result SweepResult × W
unfolding parallel_rounds
parallel_sweep_ledger_range fetch_page within_budget consume locale_le fuel start_ledger end_ledger
      window_size concurrency w =
    parallel_rounds fetch_page within_budget fuel end_ledger
      (positive_integer window_size ledger_window) consume locale_le
      (positive_integer concurrency parallel_concurrency) (suc (end_ledger + 1 - start_ledger))
      (unswept start_ledger) w
