-- ===== src/Pager/Consumed.antt =====
-- What the consumer of a sweep has been given, related to the world that its calls leave.
use accensa_app.Prelude.{
  ℕ, zero, suc, ◌+◌, ◌-◌, ◌≡◌, subst, String, Bool, true, false, List, [], ◌∷◌, ◌++◌, Option, leb,
  ltb, length, Bool-cases, Option-cases, inl, inr, min,
}
use accensa_app.Pager.{
  RawEvent, EventPage, Request, window, following, Result, ok, window_fetch, consumer_failed, stuck,
  DrainResult, SweepResult, events_page_limit, next_cursor, drain_rounds, drain_events,
  order_events, unswept, sweep_rounds, sweep_ledger_range, positive_integer, ledger_window,
}
use accensa_app.Pager.Drain.{result_cases}
use accensa_app.Pager.Parallel.{
  parallel_concurrency, commit_batch, fetch_batch, parallel_rounds, parallel_sweep_ledger_range,
}

-- A relation between the events that were taken and the world, which each step of a sweep keeps.
pub record IsKept {W : Type 0} (fetch_page : Request → W → Option EventPage × W)
    (within_budget : W → Bool × W) (consume : List RawEvent → W → Bool × W)
    (R : List RawEvent → W → Type 0) : Type 0 where
  pub fetches : (r : Request) (es : List RawEvent) (w : W) → R es w → R es (fetch_page r w).1
  pub asks : (es : List RawEvent) (w : W) → R es w → R es (within_budget w).1
  pub takes :
      (es more : List RawEvent) (w : W)
      → R es w
      → (consume more w).0 ≡ true
      → R (es ++ more) (consume more w).1
  pub throws :
      (es more : List RawEvent) (w : W)
      → R es w
      → (consume more w).0 ≡ false
      → R es (consume more w).1

-- The relation at the end of a sweep: of what it emitted, or, if it throws, of what was taken.
abbrev pub Keeps : {W : Type 0} → (List RawEvent → W → Type 0) → Result SweepResult × W → Type 0
Keeps R (ok s, w) = R s.events w
Keeps R (window_fetch from to, w) = (es : List RawEvent) × R es w
Keeps R (consumer_failed, w) = (es : List RawEvent) × R es w
Keeps R (stuck, w) = (es : List RawEvent) × R es w

abbrev KeepsBatch :
    {W : Type 0} → (List RawEvent → W → Type 0) → Result (Bool × SweepResult) × W → Type 0
KeepsBatch R (ok (over, s), w) = R s.events w
KeepsBatch R (window_fetch from to, w) = (es : List RawEvent) × R es w
KeepsBatch R (consumer_failed, w) = (es : List RawEvent) × R es w
KeepsBatch R (stuck, w) = (es : List RawEvent) × R es w

module _ {W : Type 0} (fetch_page : Request → W → Option EventPage × W)
    (within_budget : W → Bool × W) (consume : List RawEvent → W → Bool × W)
    (R : List RawEvent → W → Type 0) (kept : IsKept fetch_page within_budget consume R)
    (locale_le : String → String → Bool) (fuel : ℕ) where
  drain_rounds-keep :
      (n from to : ℕ) (r : Request) (events : List RawEvent) (pages : ℕ) (es : List RawEvent)
      (w : W)
      → R es w
      → R es (drain_rounds fetch_page within_budget n from to r events pages w).1
  unfolding drain_rounds
  drain_rounds-keep zero from to r events pages es w h = h
  drain_rounds-keep (suc n) from to r events pages es w h =
      let w' = (fetch_page r w).1 in
      let h' = kept.fetches r es w h in
      elim (Option-cases (fetch_page r w).0) [
        | inl none' ↦ rw (drain_rounds, none') h'
        | inr (page, got) ↦ elim (Bool-cases (ltb (length page.events) events_page_limit)) [
          | inl short ↦ rw (drain_rounds, got, short) h'
          | inr long ↦ elim (Option-cases (next_cursor page)) [
            | inl last ↦ rw (drain_rounds, got, long, last) h'
            | inr (c, more) ↦ elim (Bool-cases (within_budget w').0) [
              | inr over ↦ rw (drain_rounds, got, long, more, over) (kept.asks es w' h')
              | inl go ↦
                  rw (drain_rounds, got, long, more, go)
                    (drain_rounds-keep n from to (following c) (events ++ page.events) (pages + 1)
                      es (within_budget w').1 (kept.asks es w' h'))
            ]
          ]
        ]
      ]

  drain_events-keep :
      (from to : ℕ) (es : List RawEvent) (w : W)
      → R es w
      → R es (drain_events fetch_page within_budget fuel from to w).1
  unfolding drain_events
  drain_events-keep from to es w h = drain_rounds-keep fuel from to (window from to) [] 0 es w h

  module _ (end_ledger size : ℕ) where
    sweep_rounds-Keeps :
        (n : ℕ) (s : SweepResult) (w : W)
        → R s.events w
        → Keeps R
            (sweep_rounds fetch_page within_budget consume locale_le fuel end_ledger size n s w)
    unfolding sweep_rounds
    sweep_rounds-Keeps zero s w h = (s.events, h)
    sweep_rounds-Keeps (suc n) s w h = elim (Bool-cases (leb s.next_ledger end_ledger)) [
      | inr done ↦ rw (sweep_rounds, done) h
      | inl more ↦
          let w' = (within_budget w).1 in
          let h' = kept.asks s.events w h in
          elim (Bool-cases (within_budget w).0) [
            | inr over ↦ rw (sweep_rounds, more, over) h'
            | inl go ↦
                let to = min (s.next_ledger + size - 1) end_ledger in
                let drain = drain_events fetch_page within_budget fuel s.next_ledger to w' in
                let h'' = drain_events-keep s.next_ledger to s.events w' h' in
                elim (result_cases drain.0) [
                  | inr (inr (inr none')) ↦ rw (sweep_rounds, more, go, none') (s.events, h'')
                  | inr (inr (inl thrown)) ↦ rw (sweep_rounds, more, go, thrown) (s.events, h'')
                  | inr (inl (a, b, bad)) ↦ rw (sweep_rounds, more, go, bad) (s.events, h'')
                  | inl (d, got) ↦
                      let given = order_events locale_le d.events in
                      elim (Bool-cases (consume given drain.1).0) [
                        | inr threw ↦
                            rw (sweep_rounds, more, go, got, threw)
                              (s.events, kept.throws s.events given drain.1 h'' threw)
                        | inl taken ↦
                            let next = kept.takes s.events given drain.1 h'' taken in
                            elim (Bool-cases d.drained) [
                              | inr half ↦ rw (sweep_rounds, more, go, got, taken, half) next
                              | inl all ↦
                                  rw (sweep_rounds, more, go, got, taken, all)
                                    (sweep_rounds-Keeps n _ (consume given drain.1).1 next)
                            ]
                      ]
                ]
          ]
    ]

    fetch_batch-keep :
        (n from : ℕ) (es : List RawEvent) (w : W)
        → R es w
        → R es (fetch_batch fetch_page within_budget fuel end_ledger size n from w).1
    unfolding fetch_batch
    fetch_batch-keep zero from es w h = h
    fetch_batch-keep (suc n) from es w h = elim (Bool-cases (leb from end_ledger)) [
      | inr done ↦ rw (fetch_batch, done) h
      | inl more ↦
          let to = min (from + size - 1) end_ledger in
          let drain = drain_events fetch_page within_budget fuel from to w in
          let h' = drain_events-keep from to es w h in
          elim (result_cases drain.0) [
            | inr (inr (inr none')) ↦ rw (fetch_batch, more, none') h'
            | inr (inr (inl thrown)) ↦ rw (fetch_batch, more, thrown) h'
            | inr (inl (a, b, bad)) ↦ rw (fetch_batch, more, bad) h'
            | inl (d, got) ↦ rw (fetch_batch, more, got) (fetch_batch-keep n (to + 1) es drain.1 h')
          ]
    ]

    commit_batch-Keeps :
        (ds : List (ℕ × DrainResult)) (s : SweepResult) (w : W)
        → R s.events w
        → KeepsBatch R (commit_batch consume locale_le ds s w)
    unfolding commit_batch
    commit_batch-Keeps [] s w h = h
    commit_batch-Keeps ((to, d) ∷ ds) s w h =
        let given = order_events locale_le d.events in
        elim (Bool-cases (consume given w).0) [
          | inr threw ↦ rw (commit_batch, threw) (s.events, kept.throws s.events given w h threw)
          | inl taken ↦
              let next = kept.takes s.events given w h taken in
              elim (Bool-cases d.drained) [
                | inr half ↦ rw (commit_batch, taken, half) next
                | inl all ↦
                    rw (commit_batch, taken, all) (commit_batch-Keeps ds _ (consume given w).1 next)
              ]
        ]

    parallel_rounds-Keeps :
        (batch n : ℕ) (s : SweepResult) (w : W)
        → R s.events w
        → Keeps R (
            parallel_rounds fetch_page within_budget fuel end_ledger size consume locale_le batch n
              s w)
    unfolding parallel_rounds
    parallel_rounds-Keeps batch zero s w h = (s.events, h)
    parallel_rounds-Keeps batch (suc n) s w h = elim (Bool-cases (leb s.next_ledger end_ledger)) [
      | inr done ↦ rw (parallel_rounds, done) h
      | inl more ↦
          let w' = (within_budget w).1 in
          let h' = kept.asks s.events w h in
          elim (Bool-cases (within_budget w).0) [
            | inr over ↦ rw (parallel_rounds, more, over) h'
            | inl go ↦
                let fetched =
                  fetch_batch fetch_page within_budget fuel end_ledger size batch s.next_ledger
                    w' in
                let h'' = fetch_batch-keep batch s.next_ledger s.events w' h' in
                elim (result_cases fetched.0) [
                  | inr (inr (inr none')) ↦ rw (parallel_rounds, more, go, none') (s.events, h'')
                  | inr (inr (inl thrown)) ↦ rw (parallel_rounds, more, go, thrown) (s.events, h'')
                  | inr (inl (a, b, bad)) ↦ rw (parallel_rounds, more, go, bad) (s.events, h'')
                  | inl (ds, got) ↦
                      let commit = commit_batch consume locale_le ds s fetched.1 in
                      let all : KeepsBatch R commit = commit_batch-Keeps ds s fetched.1 h'' in
                      let seen : (r : Result (Bool × SweepResult))
                          → commit.0 ≡ r
                          → KeepsBatch R (r, commit.1) =
                        λ r same. subst (λ r. KeepsBatch R (r, commit.1)) same all in
                      elim (result_cases commit.0) [
                        | inr (inr (inr none')) ↦
                            rw (parallel_rounds, more, go, got, none') (seen stuck none')
                        | inr (inr (inl thrown)) ↦
                            rw (parallel_rounds, more, go, got, thrown)
                              (seen consumer_failed thrown)
                        | inr (inl (a, b, bad)) ↦
                            rw (parallel_rounds, more, go, got, bad) (seen (window_fetch a b) bad)
                        | inl ((true, t), known) ↦
                            rw (parallel_rounds, more, go, got, known) (seen (ok (true, t)) known)
                        | inl ((false, t), known) ↦
                            rw (parallel_rounds, more, go, got, known)
                              (parallel_rounds-Keeps batch n t commit.1
                                (seen (ok (false, t)) known))
                      ]
                ]
          ]
    ]

  pub sweep_ledger_range-Keeps :
      (start_ledger end_ledger : ℕ) (window_size : Option ℕ) (w : W)
      → R [] w
      → Keeps R (
          sweep_ledger_range fetch_page within_budget consume locale_le fuel start_ledger end_ledger
            window_size w)
  unfolding sweep_ledger_range
  sweep_ledger_range-Keeps start_ledger end_ledger window_size w h =
      sweep_rounds-Keeps end_ledger (positive_integer window_size ledger_window)
        (suc (end_ledger + 1 - start_ledger)) (unswept start_ledger) w h

  pub parallel_sweep-Keeps :
      (start_ledger end_ledger : ℕ) (window_size concurrency : Option ℕ) (w : W)
      → R [] w
      → Keeps R (
          parallel_sweep_ledger_range fetch_page within_budget consume locale_le fuel start_ledger
            end_ledger window_size concurrency w)
  unfolding parallel_sweep_ledger_range
  parallel_sweep-Keeps start_ledger end_ledger window_size concurrency w h =
      parallel_rounds-Keeps end_ledger (positive_integer window_size ledger_window)
        (positive_integer concurrency parallel_concurrency) (suc (end_ledger + 1 - start_ledger))
        (unswept start_ledger) w h
