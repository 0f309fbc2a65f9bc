-- ===== src/Pager/Tests.antt =====
-- A sweep of ten ledgers, the fifth of which takes two pages.
use accensa_app.Prelude.{
  ℕ, zero, suc, ◌<◌, ◌≡◌, refl, sym, subst, String, Bool, true, false, ◌&&◌, List, [], ◌∷◌, ◌++◌,
  ◌⊎◌, inl, inr, Option, none, some, arith, leb, ◌==◌, length, if◌then◌else◌, Bool-cases,
}
use accensa_app.Pager.{
  RawEvent, EventPage, Request, window, following, Result, ok, SweepResult, next_cursor,
  sweep_ledger_range, events_page_limit,
}
use accensa_app.Pager.Members.{IsIn, IsIn-split}
use accensa_app.Pager.Drain.{IsHonest}
use accensa_app.Pager.Coverage.{Sweeps, sweep_ledger_range-Sweeps}
use accensa_app.Pager.Parallel.{parallel_sweep_ledger_range}
use accensa_app.Pager.Batches.{parallel_sweep-Sweeps}
use accensa_app.Pager.Ends.{IsTimed}

abbrev event : String → RawEvent
event id = record {
  id = some id;
  tx_hash = none;
  ledger = some 5;
  ledger_closed_at = none;
  contract_id = none;
  topic = none;
  value = none;
}

abbrev copies : ℕ → RawEvent → List RawEvent
copies zero e = []
copies (suc n) e = e ∷ copies n e

abbrev front : List RawEvent
front = copies 200 (event "1")

abbrev back : List RawEvent
back = copies 3 (event "2")

abbrev chain : ℕ → List RawEvent
chain l = if l == 5 then front ++ back else []

abbrev has_fifth : ℕ → ℕ → Bool
has_fifth from to = leb from 5 && leb 5 to

abbrev fifth_left : Bool → List RawEvent
fifth_left true = front ++ back
fifth_left false = []

abbrev left : Request → List RawEvent
left (window from to) = fifth_left (has_fifth from to)
left (following c) = back

abbrev fifth_page : Bool → EventPage
fifth_page true = record { events = front; cursor = some "1" }
fifth_page false = record { events = []; cursor = none }

abbrev page_of : Request → EventPage
page_of (window from to) = fifth_page (has_fifth from to)
page_of (following c) = record { events = back; cursor = none }

abbrev fetch_page : Request → ℕ → Option EventPage × ℕ
fetch_page r n = (some (page_of r), n)

abbrev within_budget : ℕ → Bool × ℕ
within_budget zero = (false, zero)
within_budget (suc n) = (true, n)

-- No consumer: the events are in the result.
abbrev unconsumed : List RawEvent → ℕ → Bool × ℕ
unconsumed es n = (true, n)

abbrev text_le : String → String → Bool
text_le s t = true

abbrev is_complete : Result SweepResult → Bool
is_complete (ok s) = s.complete && (s.scanned == 203 && s.pages == 3)
is_complete _ = false

sweep_complete :
    is_complete (sweep_ledger_range fetch_page within_budget unconsumed text_le 9 1 10 (some 6) 8).0
    ≡ true
unfolding sweep_ledger_range
sweep_complete = refl

chain-left :
    (l : ℕ) (b : Bool) (e : RawEvent)
    → (l == 5 ≡ true → b ≡ true)
    → IsIn e (chain l)
    → IsIn e (fifth_left b)
chain-left l b e h has = elim (Bool-cases (l == 5)) [
  | inr other ↦ absurd (subst (λ f. IsIn e (if f then front ++ back else [])) other has)
  | inl fifth ↦
      subst (λ b. IsIn e (fifth_left b)) (sym (h fifth))
        (subst (λ f. IsIn e (if f then front ++ back else [])) fifth has)
]

front-cursor : next_cursor (fifth_page true) ≡ some "1"
unfolding next_cursor
front-cursor = refl

fifth_page-short :
    (b : Bool) (e : RawEvent)
    → length (fifth_page b).events < events_page_limit
    → IsIn e (fifth_left b)
    → IsIn e (fifth_page b).events
fifth_page-short true e h has = absurd (omega arith)
fifth_page-short false e h has = has

fifth_page-last :
    (b : Bool) (e : RawEvent)
    → next_cursor (fifth_page b) ≡ none
    → IsIn e (fifth_left b)
    → IsIn e (fifth_page b).events
fifth_page-last true e h has = absurd (cc front-cursor)
fifth_page-last false e h has = has

fifth_page-next :
    (b : Bool) (e : RawEvent) → IsIn e (fifth_left b) → IsIn e (fifth_page b).events ⊎ IsIn e back
fifth_page-next true e has = IsIn-split e front back has
fifth_page-next false e has = inl has

page_of-short :
    (r : Request) (e : RawEvent)
    → length (page_of r).events < events_page_limit
    → IsIn e (left r)
    → IsIn e (page_of r).events
page_of-short (window from to) e h has = fifth_page-short (has_fifth from to) e h has
page_of-short (following c) e h has = has

page_of-last :
    (r : Request) (e : RawEvent)
    → next_cursor (page_of r) ≡ none
    → IsIn e (left r)
    → IsIn e (page_of r).events
page_of-last (window from to) e h has = fifth_page-last (has_fifth from to) e h has
page_of-last (following c) e h has = has

page_of-next :
    (r : Request) (e : RawEvent) → IsIn e (left r) → IsIn e (page_of r).events ⊎ IsIn e back
page_of-next (window from to) e has = fifth_page-next (has_fifth from to) e has
page_of-next (following c) e has = inl has

same_page :
    (r : Request) (w : ℕ) (page : EventPage) → (fetch_page r w).0 ≡ some page → page_of r ≡ page
same_page r w page e = cc

honest : IsHonest fetch_page chain left
honest = record {
  windows = λ from to l e h k has. chain-left l (has_fifth from to) e (λ fifth. ground arith) has;
  short = λ r w page got h e has.
      let same = same_page r w page got in
      subst (λ p. IsIn e p.events) same
        (page_of-short r e (subst (λ p. length p.events < events_page_limit) (sym same) h) has);
  last = λ r w page got h e has.
      let same = same_page r w page got in
      subst (λ p. IsIn e p.events) same
        (page_of-last r e (subst (λ p. next_cursor p ≡ none) (sym same) h) has);
  next = λ r w page c got h e has.
      let same = same_page r w page got in
      subst (λ p. IsIn e p.events ⊎ IsIn e back) same (page_of-next r e has);
}

timed : IsTimed fetch_page within_budget (λ n. n)
timed = record {
  fetches = λ r w. omega arith;
  keeps = λ w. ground arith;
  spends = λ w go. ground arith;
}

sweep_ledger_range-Sweeps_example :
    Sweeps chain 1 10
      (sweep_ledger_range fetch_page within_budget unconsumed text_le 9 1 10 (some 6) 8).0
sweep_ledger_range-Sweeps_example =
    sweep_ledger_range-Sweeps fetch_page within_budget unconsumed chain left honest text_le 9 1 10
      (some 6) 8

parallel_complete :
    is_complete
      (parallel_sweep_ledger_range fetch_page within_budget unconsumed text_le 9 1 10
        (some 6)
        none
        8).0
    ≡ true
unfolding parallel_sweep_ledger_range
parallel_complete = refl

parallel_sweep-Sweeps_example :
    Sweeps chain 1 10
      (parallel_sweep_ledger_range fetch_page within_budget unconsumed text_le 9 1 10
        (some 6)
        none
        8).0
parallel_sweep-Sweeps_example =
    parallel_sweep-Sweeps fetch_page within_budget unconsumed chain left honest text_le 9 1 10
      (some 6) none 8
