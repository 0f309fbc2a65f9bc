-- ===== src/Pager/Coverage.antt =====
-- What a sequential sweep has read of the ledgers, against the events on the chain.
use accensa_app.Prelude.{
  ℕ, zero, suc, ◌+◌, ◌-◌, ◌≤◌, ◌<◌, ◌≡◌, refl, subst, String, Bool, true, false, List, Option, leb,
  Bool-cases, inl, inr, arith, min,
}
use accensa_app.Pager.{
  RawEvent, EventPage, Request, window, Result, ok, window_fetch, consumer_failed, stuck,
  order_events, DrainResult, SweepResult, drain_events, emit, unswept, sweep_rounds,
  sweep_ledger_range, positive_integer, ledger_window,
}
use accensa_app.Pager.Members.{IsIn, IsIn-append, append-IsIn, order_events-IsIn}
use accensa_app.Pager.Drain.{IsHonest, Reads, drain_events-Reads, result_cases}

-- What a sweep that returns has emitted of the chain, from the ledger `start_ledger`.
pub record IsSwept (chain : ℕ → List RawEvent) (start_ledger end_ledger : ℕ) (s : SweepResult)
    : Type 0 where
  pub covers :
      (l : ℕ) (e : RawEvent)
      → start_ledger ≤ l
      → l < s.next_ledger
      → IsIn e (chain l)
      → IsIn e s.events
  pub reaches : s.complete ≡ true → end_ledger < s.next_ledger

abbrev pub Sweeps : (ℕ → List RawEvent) → ℕ → ℕ → Result SweepResult → Type 0
Sweeps chain start_ledger end_ledger (ok s) = IsSwept chain start_ledger end_ledger s
Sweeps chain start_ledger end_ledger (window_fetch from to) = Unit
Sweeps chain start_ledger end_ledger consumer_failed = Unit
Sweeps chain start_ledger end_ledger stuck = Unit

module _ {W : Type 0} (fetch_page : Request → W → Option EventPage × W)
    (within_budget : W → Bool × W) (consume : List RawEvent → W → Bool × W)
    (chain : ℕ → List RawEvent) (left : Request → List RawEvent)
    (honest : IsHonest fetch_page chain left) (locale_le : String → String → Bool)
    (fuel start_ledger end_ledger : ℕ) where
  pub emit-IsSwept :
      (s : SweepResult) (d : DrainResult)
      → s.complete ≡ false
      → IsSwept chain start_ledger end_ledger s
      → IsSwept chain start_ledger end_ledger (emit locale_le s d)
  emit-IsSwept s d run v = record {
    covers = λ l e from below has. IsIn-append e s.events _ (v.covers l e from below has);
    reaches = λ done. absurd (ground arith);
  }

  pub read-IsSwept :
      (s : SweepResult) (d : DrainResult) (to : ℕ)
      → ((e : RawEvent) → IsIn e (left (window s.next_ledger to)) → IsIn e d.events)
      → s.complete ≡ false
      → IsSwept chain start_ledger end_ledger s
      → IsSwept chain start_ledger end_ledger (record (emit locale_le s d) { next_ledger = to + 1 })
  read-IsSwept s d to reads run v = record {
    covers = λ l x from below has. elim (Bool-cases (leb s.next_ledger l)) [
      | inr old ↦ IsIn-append x s.events _ (v.covers l x from (ground arith) has)
      | inl new ↦ append-IsIn x s.events _ (
          order_events-IsIn x locale_le d.events
            (reads x (honest.windows s.next_ledger to l x (ground arith) (omega arith) has)))
    ];
    reaches = λ done. absurd (ground arith);
  }

  -- A window that was drained has read what its request covers.
  pub drained-reads :
      (from to : ℕ) (w : W) (d : DrainResult)
      → (drain_events fetch_page within_budget fuel from to w).0 ≡ ok d
      → d.drained ≡ true
      → (e : RawEvent) → IsIn e (left (window from to))
      → IsIn e d.events
  drained-reads from to w d got drained e has =
      let reads : Reads e (ok d) =
        subst (Reads e) got
          (drain_events-Reads fetch_page within_budget chain left honest from to e fuel w has) in
      reads drained

  sweep_rounds-Sweeps :
      (size n : ℕ) (s : SweepResult) (w : W)
      → s.complete ≡ false
      → IsSwept chain start_ledger end_ledger s
      → Sweeps chain start_ledger end_ledger
          (sweep_rounds fetch_page within_budget consume locale_le fuel end_ledger size n s w).0
  unfolding sweep_rounds
  sweep_rounds-Sweeps size zero s w run v = tt
  sweep_rounds-Sweeps size (suc n) s w run v = elim (Bool-cases (leb s.next_ledger end_ledger)) [
    | inr done ↦ rw (sweep_rounds, done) (record { covers = v.covers; reaches = λ _. ground arith })
    | inl more ↦ elim (Bool-cases (within_budget w).0) [
      | inr over ↦ rw (sweep_rounds, more, over) v
      | inl go ↦
          let to = min (s.next_ledger + size - 1) end_ledger in
          let drain =
            drain_events fetch_page within_budget fuel s.next_ledger to (within_budget w).1 in
          elim (result_cases drain.0) [
            | inr (inr (inr none')) ↦ rw (sweep_rounds, more, go, none') tt
            | inr (inr (inl thrown)) ↦ rw (sweep_rounds, more, go, thrown) tt
            | inr (inl (a, b, bad)) ↦ rw (sweep_rounds, more, go, bad) tt
            | inl (d, got) ↦
                let taking = consume (order_events locale_le d.events) drain.1 in
                elim (Bool-cases taking.0) [
                  | inr threw ↦ rw (sweep_rounds, more, go, got, threw) tt
                  | inl taken ↦ elim (Bool-cases d.drained) [
                    | inr half ↦
                        rw (sweep_rounds, more, go, got, taken, half) (emit-IsSwept s d run v)
                    | inl all ↦
                        rw (sweep_rounds, more, go, got, taken, all)
                          (sweep_rounds-Sweeps size n _ taking.1 run (
                            read-IsSwept s d to
                              (drained-reads s.next_ledger to (within_budget w).1 d got all) run v))
                  ]
                ]
          ]
    ]
  ]

  -- If the event service serves whole windows, short pages end one, and a cursor leads to what its
  -- page lacks, then a sweep that returns has emitted every event of each ledger from the start up to
  -- the ledger it says is swept; a complete sweep has swept the whole range.
  pub sweep_ledger_range-Sweeps :
      (window_size : Option ℕ) (w : W)
      → Sweeps chain start_ledger end_ledger
          (sweep_ledger_range fetch_page within_budget consume locale_le fuel start_ledger
            end_ledger window_size w).0
  unfolding sweep_ledger_range
  sweep_ledger_range-Sweeps window_size w =
      sweep_rounds-Sweeps (positive_integer window_size ledger_window)
        (suc (end_ledger + 1 - start_ledger)) (unswept start_ledger) w refl
        (record {
          covers = λ l e from below has. absurd (omega arith);
          reaches = λ done. absurd (ground arith);
        })
