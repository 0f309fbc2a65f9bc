-- ===== src/Pager/Batches.antt =====
-- What a parallel sweep has read of the ledgers, against the events on the chain.
use accensa_app.Prelude.{
  ℕ, zero, suc, ◌+◌, ◌-◌, ◌≡◌, refl, subst, String, Bool, true, false, List, [], ◌∷◌, Option, leb,
  ltb, Bool-cases, inl, inr, arith, min,
}
use accensa_app.Pager.{
  RawEvent, EventPage, Request, window, Result, ok, window_fetch, consumer_failed, stuck,
  order_events, DrainResult, SweepResult, drain_events, emit, unswept, positive_integer,
  ledger_window,
}
use accensa_app.Pager.Members.{IsIn}
use accensa_app.Pager.Drain.{IsHonest, result_cases}
use accensa_app.Pager.Coverage.{IsSwept, Sweeps, emit-IsSwept, read-IsSwept, drained-reads}
use accensa_app.Pager.Parallel.{
  parallel_concurrency, commit_batch, add_result, fetch_batch, parallel_rounds,
  parallel_sweep_ledger_range,
}

-- Windows one after another from a ledger on; each that was drained has what its request covers.
abbrev Reading : (Request → List RawEvent) → ℕ → List (ℕ × DrainResult) → Type 0
Reading left from [] = Unit
Reading left from ((to, d) ∷ rest) =
    (d.drained ≡ true → (e : RawEvent) → IsIn e (left (window from to)) → IsIn e d.events)
    × Reading left (to + 1) rest

abbrev ReadingIf : (Request → List RawEvent) → ℕ → Result (List (ℕ × DrainResult)) → Type 0
ReadingIf left from (ok ds) = Reading left from ds
ReadingIf left from (window_fetch a b) = Unit
ReadingIf left from consumer_failed = Unit
ReadingIf left from stuck = Unit

add_result-ReadingIf :
    (left : Request → List RawEvent) (from to : ℕ) (d : DrainResult)
    (rest : Result (List (ℕ × DrainResult)))
    → (d.drained ≡ true → (e : RawEvent) → IsIn e (left (window from to)) → IsIn e d.events)
    → ReadingIf left (to + 1) rest
    → ReadingIf left from (add_result to d rest)
add_result-ReadingIf left from to d (ok ds) h v = (h, v)
add_result-ReadingIf left from to d (window_fetch a b) h v = tt
add_result-ReadingIf left from to d consumer_failed h v = tt
add_result-ReadingIf left from to d stuck h v = tt

module _ {W : Type 0} (fetch_page : Request → W → Option EventPage × W)
    (within_budget : W → Bool × W) (consume : List RawEvent → W → Bool × W)
    (chain : ℕ → List RawEvent) (left : Request → List RawEvent)
    (honest : IsHonest fetch_page chain left) (locale_le : String → String → Bool)
    (fuel start_ledger end_ledger : ℕ) where
  fetch_batch-ReadingIf :
      (size n from : ℕ) (w : W)
      → ReadingIf left from (fetch_batch fetch_page within_budget fuel end_ledger size n from w).0
  unfolding fetch_batch
  fetch_batch-ReadingIf size zero from w = tt
  fetch_batch-ReadingIf size (suc n) from w = elim (Bool-cases (leb from end_ledger)) [
    | inr done ↦ rw (fetch_batch, done) tt
    | inl more ↦
        let to = min (from + size - 1) end_ledger in
        let drain = drain_events fetch_page within_budget fuel from to w in
        elim (result_cases drain.0) [
          | inr (inr (inr none')) ↦ rw (fetch_batch, more, none') tt
          | inr (inr (inl thrown)) ↦ rw (fetch_batch, more, thrown) tt
          | inr (inl (a, b, bad)) ↦ rw (fetch_batch, more, bad) tt
          | inl (d, got) ↦
              rw (fetch_batch, more, got)
                (add_result-ReadingIf left from to d _
                  (drained-reads fetch_page within_budget consume chain left honest locale_le fuel
                    start_ledger end_ledger from to w d got)
                  (fetch_batch-ReadingIf size n (to + 1) drain.1))
        ]
  ]

  -- What is true of a batch that is committed.
  abbrev Committed : Result (Bool × SweepResult) → Type 0
  Committed (ok (over, t)) = (t.complete ≡ false) × IsSwept chain start_ledger end_ledger t
  Committed (window_fetch a b) = Unit
  Committed consumer_failed = Unit
  Committed stuck = Unit

  commit_batch-Committed :
      (ds : List (ℕ × DrainResult)) (s : SweepResult) (w : W)
      → Reading left s.next_ledger ds
      → s.complete ≡ false
      → IsSwept chain start_ledger end_ledger s
      → Committed (commit_batch consume locale_le ds s w).0
  unfolding commit_batch
  commit_batch-Committed [] s w reads run v = (run, v)
  commit_batch-Committed ((to, d) ∷ ds) s w (first, rest) run v =
      let taking = consume (order_events locale_le d.events) w in
      elim (Bool-cases taking.0) [
        | inr threw ↦ rw (commit_batch, threw) tt
        | inl taken ↦ elim (Bool-cases d.drained) [
          | inr half ↦
              let swept =
                emit-IsSwept fetch_page within_budget consume chain left honest locale_le fuel
                  start_ledger end_ledger s d run v in
              rw (commit_batch, taken, half)
                (run, record { covers = swept.covers; reaches = swept.reaches })
          | inl all ↦
              rw (commit_batch, taken, all)
                (commit_batch-Committed ds (record (emit locale_le s d) { next_ledger = to + 1 })
                  taking.1 rest run
                  (read-IsSwept fetch_page within_budget consume chain left honest locale_le fuel
                    start_ledger end_ledger s d to (first all) run v))
        ]
      ]

  finished-IsSwept :
      (s : SweepResult)
      → IsSwept chain start_ledger end_ledger s
      → IsSwept chain start_ledger end_ledger (record s { complete = ltb end_ledger s.next_ledger })
  finished-IsSwept s v = record { covers = v.covers; reaches = λ p. ground arith }

  parallel_rounds-Sweeps :
      (size batch n : ℕ) (s : SweepResult) (w : W)
      → s.complete ≡ false
      → IsSwept chain start_ledger end_ledger s
      → Sweeps chain start_ledger end_ledger
          (parallel_rounds fetch_page within_budget fuel end_ledger size consume locale_le batch n s
            w).0
  unfolding parallel_rounds
  parallel_rounds-Sweeps size batch zero s w run v = tt
  parallel_rounds-Sweeps size batch (suc n) s w run v =
      elim (Bool-cases (leb s.next_ledger end_ledger)) [
        | inr done ↦ rw (parallel_rounds, done) (finished-IsSwept s v)
        | inl more ↦ elim (Bool-cases (within_budget w).0) [
          | inr over ↦ rw (parallel_rounds, more, over) v
          | inl go ↦
              let w' = (within_budget w).1 in
              let fetched =
                fetch_batch fetch_page within_budget fuel end_ledger size batch s.next_ledger w' in
              let reads : ReadingIf left s.next_ledger fetched.0 =
                fetch_batch-ReadingIf size batch s.next_ledger w' in
              elim (result_cases fetched.0) [
                | inr (inr (inr none')) ↦ rw (parallel_rounds, more, go, none') tt
                | inr (inr (inl thrown)) ↦ rw (parallel_rounds, more, go, thrown) tt
                | inr (inl (a, b, bad)) ↦ rw (parallel_rounds, more, go, bad) tt
                | inl (ds, got) ↦
                    let read : Reading left s.next_ledger ds =
                      subst (ReadingIf left s.next_ledger) got reads in
                    let commit = commit_batch consume locale_le ds s fetched.1 in
                    let all : Committed commit.0 =
                      commit_batch-Committed ds s fetched.1 read run v in
                    elim (result_cases commit.0) [
                      | inr (inr (inr none')) ↦ rw (parallel_rounds, more, go, got, none') tt
                      | inr (inr (inl thrown)) ↦ rw (parallel_rounds, more, go, got, thrown) tt
                      | inr (inl (a, b, bad)) ↦ rw (parallel_rounds, more, go, got, bad) tt
                      | inl ((true, t), kept) ↦
                          rw (parallel_rounds, more, go, got, kept)
                            (finished-IsSwept t (subst Committed kept all).1)
                      | inl ((false, t), kept) ↦
                          rw (parallel_rounds, more, go, got, kept)
                            (parallel_rounds-Sweeps size batch n t commit.1
                              (subst Committed kept all).0 (subst Committed kept all).1)
                    ]
              ]
        ]
      ]

  -- Under the same conditions on the event service, a parallel sweep that returns has emitted every
  -- event of each ledger from the start up to the ledger it says is swept; a complete one has swept
  -- the whole range.
  pub parallel_sweep-Sweeps :
      (window_size concurrency : Option ℕ) (w : W)
      → Sweeps chain start_ledger end_ledger
          (parallel_sweep_ledger_range fetch_page within_budget consume locale_le fuel start_ledger
            end_ledger window_size concurrency w).0
  unfolding parallel_sweep_ledger_range
  parallel_sweep-Sweeps window_size concurrency w =
      parallel_rounds-Sweeps (positive_integer window_size ledger_window)
        (positive_integer concurrency parallel_concurrency) (suc (end_ledger + 1 - start_ledger))
        (unswept start_ledger) w refl
        (record {
          covers = λ l e from below has. absurd (omega arith);
          reaches = λ done. absurd (ground arith);
        })
