-- ===== src/Pager/ParallelEnds.antt =====
-- The rounds of parallelSweepLedgerRange, against a budget that runs out.
use accensa_app.Prelude.{
  ℕ, zero, suc, ◌+◌, ◌-◌, ◌≤◌, ◌<◌, ◌≡◌, subst, String, Bool, true, false, List, [], ◌∷◌, Option,
  none, some, leb, Bool-cases, inl, inr, arith, min,
}
use accensa_app.Pager.Drain.{result_cases}
use accensa_app.Pager.{
  RawEvent, EventPage, Request, window, Result, ok, window_fetch, consumer_failed, stuck,
  DrainResult, SweepResult, order_events, emit, drain_events, unswept, positive_integer,
  ledger_window,
}
use accensa_app.Pager.Parallel.{
  parallel_concurrency, commit_batch, add_result, fetch_batch, parallel_rounds,
  parallel_sweep_ledger_range,
}
use accensa_app.Pager.Ends.{
  IsTimed, Ended, Ended-weaken, Ended-le, stuck-Ended, positive_integer-pos, drain_rounds-Ended,
}

-- Windows that start at a ledger and do not go back.
abbrev Rising : ℕ → List (ℕ × DrainResult) → Type 0
Rising from [] = Unit
Rising from ((to, d) ∷ rest) = (from ≤ to) × Rising (to + 1) rest

-- A batch whose fetches have ended, with at least one window where it is not empty.
abbrev EndedBatch : {W : Type 0} → (W → ℕ) → ℕ → ℕ → Result (List (ℕ × DrainResult)) × W → Type 0
EndedBatch budget n from (ok ds, w) = (budget w ≤ n) × Rising from ds
EndedBatch budget n from (window_fetch a b, w) = budget w ≤ n
EndedBatch budget n from (consumer_failed, w) = budget w ≤ n
EndedBatch budget n from (stuck, w) = ⊥

add_result-EndedBatch :
    {W : Type 0} (budget : W → ℕ) (n m from to : ℕ) (d : DrainResult)
    (r : Result (List (ℕ × DrainResult)) × W)
    → m ≤ n
    → from ≤ to
    → EndedBatch budget m (to + 1) r
    → EndedBatch budget n from (add_result to d r.0, r.1)
add_result-EndedBatch budget n m from to d (ok ds, w) h k (e, rising) = (omega arith, (k, rising))
add_result-EndedBatch budget n m from to d (window_fetch a b, w) h k e = omega arith
add_result-EndedBatch budget n m from to d (consumer_failed, w) h k e = omega arith
add_result-EndedBatch budget n m from to d (stuck, w) h k e = e

-- The committed windows bring the next ledger on.
abbrev Advanced : ℕ → Result (Bool × SweepResult) → Type 0
Advanced from (ok (over, t)) = from ≤ t.next_ledger
Advanced from (window_fetch a b) = Unit
Advanced from consumer_failed = Unit
Advanced from stuck = ⊥

Advanced-weaken : (m n : ℕ) (r : Result (Bool × SweepResult)) → m ≤ n → Advanced n r → Advanced m r
Advanced-weaken m n (ok (over, t)) h k = omega arith
Advanced-weaken m n (window_fetch a b) h k = tt
Advanced-weaken m n consumer_failed h k = tt
Advanced-weaken m n stuck h k = k

-- The batch is not empty.
abbrev Filled : Result (List (ℕ × DrainResult)) → Type 0
Filled (ok []) = ⊥
Filled (ok (x ∷ xs)) = Unit
Filled (window_fetch a b) = Unit
Filled consumer_failed = Unit
Filled stuck = Unit

add_result-Filled :
    (to : ℕ) (d : DrainResult) (r : Result (List (ℕ × DrainResult))) → Filled (add_result to d r)
add_result-Filled to d (ok ds) = tt
add_result-Filled to d (window_fetch a b) = tt
add_result-Filled to d consumer_failed = tt
add_result-Filled to d stuck = tt

-- A batch that was drained brings the next ledger past the one before.
abbrev Moves : ℕ → Result (Bool × SweepResult) → Type 0
Moves from (ok (false, t)) = from < t.next_ledger
Moves from (ok (true, t)) = Unit
Moves from (window_fetch a b) = Unit
Moves from consumer_failed = Unit
Moves from stuck = ⊥

Advanced-Moves : (m n : ℕ) (r : Result (Bool × SweepResult)) → m < n → Advanced n r → Moves m r
Advanced-Moves m n (ok (false, t)) h k = omega arith
Advanced-Moves m n (ok (true, t)) h k = tt
Advanced-Moves m n (window_fetch a b) h k = tt
Advanced-Moves m n consumer_failed h k = tt
Advanced-Moves m n stuck h k = k

module _ {W : Type 0} (fetch_page : Request → W → Option EventPage × W)
    (within_budget : W → Bool × W) (budget : W → ℕ)
    (timed : IsTimed fetch_page within_budget budget) (consume : List RawEvent → W → Bool × W)
    (lasting : (es : List RawEvent) (w : W) → budget (consume es w).1 ≤ budget w)
    (locale_le : String → String → Bool) (fuel end_ledger size : ℕ) (positive : 1 ≤ size) where
  fetch_batch-EndedBatch :
      (n from : ℕ) (w : W)
      → budget w < fuel
      → EndedBatch budget
          (budget w)
          from
          (fetch_batch fetch_page within_budget fuel end_ledger size n from w)
  unfolding fetch_batch drain_events
  fetch_batch-EndedBatch zero from w h = (omega arith, tt)
  fetch_batch-EndedBatch (suc n) from w h = elim (Bool-cases (leb from end_ledger)) [
    | inr done ↦ rw (fetch_batch, done) (omega arith, tt)
    | inl more ↦
        let to = min (from + size - 1) end_ledger in
        let drain = drain_events fetch_page within_budget fuel from to w in
        let ended : Ended budget (budget w) drain =
          drain_rounds-Ended fetch_page within_budget budget timed fuel from to (window from to) []
            0 w h in
        let least = Ended-le budget (budget w) drain ended in
        elim (result_cases drain.0) [
          | inr (inr (inr none')) ↦ absurd (stuck-Ended budget (budget w) drain none' ended)
          | inr (inr (inl thrown)) ↦ rw (fetch_batch, more, thrown) least
          | inr (inl (a, b, bad)) ↦ rw (fetch_batch, more, bad) least
          | inl (d, got) ↦
              rw (fetch_batch, more, got)
                (add_result-EndedBatch budget (budget w) (budget drain.1) from to d _ least
                  (ground arith) (fetch_batch-EndedBatch n (to + 1) drain.1 (omega arith)))
        ]
  ]

  commit_batch-lasts :
      (ds : List (ℕ × DrainResult)) (s : SweepResult) (w : W)
      → budget (commit_batch consume locale_le ds s w).1 ≤ budget w
  unfolding commit_batch
  commit_batch-lasts [] s w = omega arith
  commit_batch-lasts ((to, d) ∷ ds) s w =
      let given = order_events locale_le d.events in
      let lasts = lasting given w in
      elim (Bool-cases (consume given w).0) [
        | inr threw ↦ rw (commit_batch, threw) lasts
        | inl taken ↦ elim (Bool-cases d.drained) [
          | inr half ↦ rw (commit_batch, taken, half) lasts
          | inl all ↦
              rw (commit_batch, taken, all)
                (omega (
                  arith,
                  commit_batch-lasts ds (record (emit locale_le s d) { next_ledger = to + 1 })
                      (consume given w).1,
                ))
        ]
      ]

  commit_batch-Advanced :
      (ds : List (ℕ × DrainResult)) (s : SweepResult) (w : W)
      → Rising s.next_ledger ds
      → Advanced s.next_ledger (commit_batch consume locale_le ds s w).0
  unfolding commit_batch
  commit_batch-Advanced [] s w rising = omega arith
  commit_batch-Advanced ((to, d) ∷ ds) s w (first, rest) =
      let given = order_events locale_le d.events in
      elim (Bool-cases (consume given w).0) [
        | inr threw ↦ rw (commit_batch, threw) tt
        | inl taken ↦ elim (Bool-cases d.drained) [
          | inr half ↦ rw (commit_batch, taken, half) (omega arith)
          | inl all ↦
              rw (commit_batch, taken, all)
                (Advanced-weaken s.next_ledger (to + 1) _ (omega arith) (
                  commit_batch-Advanced ds (record (emit locale_le s d) { next_ledger = to + 1 })
                    (consume given w).1 rest))
        ]
      ]

  commit_batch-Moves :
      (ds : List (ℕ × DrainResult)) (s : SweepResult) (w : W)
      → Rising s.next_ledger ds
      → Filled (ok ds)
      → Moves s.next_ledger (commit_batch consume locale_le ds s w).0
  unfolding commit_batch
  commit_batch-Moves [] s w rising filled = absurd filled
  commit_batch-Moves ((to, d) ∷ ds) s w (first, rest) filled =
      let given = order_events locale_le d.events in
      elim (Bool-cases (consume given w).0) [
        | inr threw ↦ rw (commit_batch, threw) tt
        | inl taken ↦ elim (Bool-cases d.drained) [
          | inr half ↦ rw (commit_batch, taken, half) tt
          | inl all ↦
              rw (commit_batch, taken, all)
                (Advanced-Moves s.next_ledger (to + 1) _ (omega arith) (
                  commit_batch-Advanced ds (record (emit locale_le s d) { next_ledger = to + 1 })
                    (consume given w).1 rest))
        ]
      ]

  fetch_batch-Filled :
      (n from : ℕ) (w : W)
      → leb from end_ledger ≡ true
      → Filled (fetch_batch fetch_page within_budget fuel end_ledger size (suc n) from w).0
  unfolding fetch_batch
  fetch_batch-Filled n from w more =
      let to = min (from + size - 1) end_ledger in
      let drain = drain_events fetch_page within_budget fuel from to w in
      elim (result_cases drain.0) [
        | inr (inr (inr none')) ↦ rw (fetch_batch, more, none') tt
        | inr (inr (inl thrown)) ↦ rw (fetch_batch, more, thrown) tt
        | inr (inl (a, b, bad)) ↦ rw (fetch_batch, more, bad) tt
        | inl (d, got) ↦ rw (fetch_batch, more, got) (add_result-Filled to d _)
      ]

  parallel_rounds-Ended :
      (batch n : ℕ) (s : SweepResult) (w : W)
      → budget w < fuel
      → end_ledger + 1 - s.next_ledger < n
      → Ended budget (budget w) (
          parallel_rounds fetch_page within_budget fuel end_ledger size consume locale_le
            (suc batch)
            n
            s
            w)
  unfolding parallel_rounds
  parallel_rounds-Ended batch zero s w h k = absurd (omega arith)
  parallel_rounds-Ended batch (suc n) s w h k = elim (Bool-cases (leb s.next_ledger end_ledger)) [
    | inr done ↦ rw (parallel_rounds, done) (omega arith)
    | inl more ↦ elim (Bool-cases (within_budget w).0) [
      | inr over ↦ rw (parallel_rounds, more, over) (timed.keeps w)
      | inl go ↦
          let w' = (within_budget w).1 in
          let spent = timed.keeps w in
          let fetched =
            fetch_batch fetch_page within_budget fuel end_ledger size (suc batch) s.next_ledger
              w' in
          let ended : EndedBatch budget (budget w') s.next_ledger fetched =
            fetch_batch-EndedBatch (suc batch) s.next_ledger w' (omega arith) in
          let filled : Filled fetched.0 = fetch_batch-Filled batch s.next_ledger w' more in
          let seen : (r : Result (List (ℕ × DrainResult)))
              → fetched.0 ≡ r
              → EndedBatch budget (budget w') s.next_ledger (r, fetched.1) × Filled r =
            λ r same.
              subst (λ r. EndedBatch budget (budget w') s.next_ledger (r, fetched.1) × Filled r)
                same (ended, filled) in
          elim (result_cases fetched.0) [
            | inr (inr (inr none')) ↦ absurd (seen stuck none').0
            | inr (inr (inl thrown)) ↦
                let e = (seen consumer_failed thrown).0 in
                rw (parallel_rounds, more, go, thrown) (omega arith)
            | inr (inl (a, b, bad)) ↦
                let e = (seen (window_fetch a b) bad).0 in
                rw (parallel_rounds, more, go, bad) (omega arith)
            | inl (ds, got) ↦
                let ((e, rising), full) = seen (ok ds) got in
                let commit = commit_batch consume locale_le ds s fetched.1 in
                let lasts = commit_batch-lasts ds s fetched.1 in
                let moves : Moves s.next_ledger commit.0 =
                  commit_batch-Moves ds s fetched.1 rising full in
                elim (result_cases commit.0) [
                  | inr (inr (inr none')) ↦ absurd (subst (Moves s.next_ledger) none' moves)
                  | inr (inr (inl thrown)) ↦
                      rw (parallel_rounds, more, go, got, thrown) (omega arith)
                  | inr (inl (a, b, bad)) ↦ rw (parallel_rounds, more, go, got, bad) (omega arith)
                  | inl ((true, t), known) ↦
                      rw (parallel_rounds, more, go, got, known) (omega arith)
                  | inl ((false, t), known) ↦
                      let further : s.next_ledger < t.next_ledger =
                        subst (Moves s.next_ledger) known moves in
                      rw (parallel_rounds, more, go, got, known)
                        (Ended-weaken budget (budget commit.1) (budget w) _ (omega arith)
                          (parallel_rounds-Ended batch n t commit.1 (omega arith) (ground arith)))
                ]
          ]
    ]
  ]

  -- A parallel sweep with the windows and batches of at least one ends, too.
  pub parallel_rounds-Ended_pos :
      (batch n : ℕ) (s : SweepResult) (w : W)
      → 1 ≤ batch
      → budget w < fuel
      → end_ledger + 1 - s.next_ledger < n
      → Ended budget (budget w) (
          parallel_rounds fetch_page within_budget fuel end_ledger size consume locale_le batch n s
            w)
  parallel_rounds-Ended_pos zero n s w some_batch h k = absurd (omega arith)
  parallel_rounds-Ended_pos (suc batch) n s w some_batch h k = parallel_rounds-Ended batch n s w h k

batch_size-pos : (n : Option ℕ) → 1 ≤ positive_integer n parallel_concurrency
batch_size-pos none = omega arith
batch_size-pos (some zero) = omega arith
batch_size-pos (some (suc n)) = omega arith

-- Under the conditions of the sequential sweep, a parallel one ends within its rounds, too.
pub parallel_sweep-Ended :
    {W : Type 0} (fetch_page : Request → W → Option EventPage × W) (within_budget : W → Bool × W)
    (budget : W → ℕ) (timed : IsTimed fetch_page within_budget budget)
    (consume : List RawEvent → W → Bool × W)
    (lasting : (es : List RawEvent) (w : W) → budget (consume es w).1 ≤ budget w)
    (locale_le : String → String → Bool) (fuel start_ledger end_ledger : ℕ)
    (window_size concurrency : Option ℕ) (w : W)
    → budget w < fuel
    → Ended budget (budget w) (
        parallel_sweep_ledger_range fetch_page within_budget consume locale_le fuel start_ledger
          end_ledger window_size concurrency w)
unfolding parallel_sweep_ledger_range
parallel_sweep-Ended fetch_page within_budget budget timed consume lasting locale_le fuel
      start_ledger end_ledger window_size concurrency w h =
    parallel_rounds-Ended_pos fetch_page within_budget budget timed consume lasting locale_le fuel
      end_ledger (positive_integer window_size ledger_window) (positive_integer-pos window_size)
      (positive_integer concurrency parallel_concurrency) (suc (end_ledger + 1 - start_ledger))
      (unswept start_ledger) w (batch_size-pos concurrency) h (omega arith)
