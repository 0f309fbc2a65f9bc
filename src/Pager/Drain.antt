-- ===== src/Pager/Drain.antt =====
-- What drainEvents has read of a window, and what the event service is taken to do.
use accensa_app.Prelude.{
  ℕ, zero, suc, ◌+◌, ◌≤◌, ◌<◌, ◌≡◌, refl, String, Bool, true, List, [], ◌++◌, ◌⊎◌, Option, none,
  some, length, ltb, Bool-cases, Option-cases, inl, inr, arith,
}
use accensa_app.Pager.{
  RawEvent, EventPage, Request, window, following, Result, ok, window_fetch, consumer_failed, stuck,
  DrainResult, events_page_limit, next_cursor, drain_rounds, drain_events,
}
use accensa_app.Pager.Members.{IsIn, IsIn-append, append-IsIn}

-- What the service documents. `chain` has the events of each ledger, and `left` says which events a
-- request has still to deliver.
pub record IsHonest {W : Type 0} (fetch_page : Request → W → Option EventPage × W)
    (chain : ℕ → List RawEvent) (left : Request → List RawEvent) : Type 0 where
  -- A window has the events of its ledgers.
  pub windows :
      (from to l : ℕ) (e : RawEvent)
      → from ≤ l
      → l ≤ to
      → IsIn e (chain l)
      → IsIn e (left (window from to))
  -- A page that is short of the limit has all that is left.
  pub short :
      (r : Request) (w : W) (page : EventPage)
      → (fetch_page r w).0 ≡ some page
      → length page.events < events_page_limit
      → (e : RawEvent) → IsIn e (left r)
      → IsIn e page.events
  -- Without a cursor to go on from, too.
  pub last :
      (r : Request) (w : W) (page : EventPage)
      → (fetch_page r w).0 ≡ some page
      → next_cursor page ≡ none
      → (e : RawEvent) → IsIn e (left r)
      → IsIn e page.events
  -- What a page lacks follows its cursor.
  pub next :
      (r : Request) (w : W) (page : EventPage) (cursor : String)
      → (fetch_page r w).0 ≡ some page
      → next_cursor page ≡ some cursor
      → (e : RawEvent) → IsIn e (left r)
      → IsIn e page.events ⊎ IsIn e (left (following cursor))

-- A tagged view of a result.
pub result_cases :
    {A : Type 0} (r : Result A)
    → ((d : A) × (r ≡ ok d))
      ⊎ ((from : ℕ) × (to : ℕ) × (r ≡ window_fetch from to))
      ⊎ (r ≡ consumer_failed)
      ⊎ (r ≡ stuck)
result_cases (ok d) = inl (d, refl)
result_cases (window_fetch from to) = inr (inl (from, to, refl))
result_cases consumer_failed = inr (inr (inl refl))
result_cases stuck = inr (inr (inr refl))

-- If the result is a window that was drained, the event is among its events.
abbrev pub Reads : RawEvent → Result DrainResult → Type 0
Reads e (ok d) = d.drained ≡ true → IsIn e d.events
Reads e (window_fetch from to) = Unit
Reads e consumer_failed = Unit
Reads e stuck = Unit

module _ {W : Type 0} (fetch_page : Request → W → Option EventPage × W)
    (within_budget : W → Bool × W) (chain : ℕ → List RawEvent) (left : Request → List RawEvent)
    (honest : IsHonest fetch_page chain left) (from to : ℕ) (e : RawEvent) where
  drain_rounds-Reads :
      (fuel : ℕ) (r : Request) (events : List RawEvent) (pages : ℕ) (w : W)
      → IsIn e events ⊎ IsIn e (left r)
      → Reads e (drain_rounds fetch_page within_budget fuel from to r events pages w).0
  unfolding drain_rounds
  drain_rounds-Reads zero r events pages w h = tt
  drain_rounds-Reads (suc fuel) r events pages w h = elim (Option-cases (fetch_page r w).0) [
    | inl none' ↦ rw (drain_rounds, none') tt
    | inr (page, got) ↦
        let full : IsIn e page.events → IsIn e (events ++ page.events) =
          append-IsIn e events page.events in
        let known : IsIn e events → IsIn e (events ++ page.events) =
          IsIn-append e events page.events in
        elim (Bool-cases (ltb (length page.events) events_page_limit)) [
          | inl short ↦
              rw (drain_rounds, got, short)
                (λ _. elim h [
                  | inl old ↦ known old
                  | inr new ↦ full (honest.short r w page got (ground arith) e new)
                ])
          | inr long ↦ elim (Option-cases (next_cursor page)) [
            | inl last ↦
                rw (drain_rounds, got, long, last)
                  (λ _. elim h [
                    | inl old ↦ known old
                    | inr new ↦ full (honest.last r w page got last e new)
                  ])
            | inr (c, more) ↦ elim (Bool-cases (within_budget (fetch_page r w).1).0) [
              | inr over ↦ rw (drain_rounds, got, long, more, over) (λ d. absurd (ground arith))
              | inl go ↦
                  rw (drain_rounds, got, long, more, go)
                    (drain_rounds-Reads fuel (following c) (events ++ page.events) (pages + 1)
                      (within_budget (fetch_page r w).1).1
                      (elim h [
                        | inl old ↦ inl (known old)
                        | inr new ↦ elim (honest.next r w page c got more e new) [
                          | inl here ↦ inl (full here)
                          | inr later ↦ inr later
                        ]
                      ]))
            ]
          ]
        ]
  ]

  pub drain_events-Reads :
      (fuel : ℕ) (w : W)
      → IsIn e (left (window from to))
      → Reads e (drain_events fetch_page within_budget fuel from to w).0
  unfolding drain_events
  drain_events-Reads fuel w h = drain_rounds-Reads fuel (window from to) [] 0 w (inr h)
