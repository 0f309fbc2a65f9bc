-- ===== src/Retrying/Outcome.antt =====
-- How a retried fetch ends.
use accensa_app.Prelude.{
  ℕ, zero, suc, ◌+◌, ◌≤◌, ◌≡◌, refl, String, Bool, true, false, ◌⊎◌, Option, Bool-cases, inl, inr,
  arith,
}
use accensa_app.Retrying.{
  Response, Answer, responds, aborts, breaks, Failure, http_error, abort_error, network_error,
  Result, ok, throw, RetryOptions, is_ok, is_transient, attempts_from, fetch_with_retry, delay_ms,
}

-- Only a 2xx response is returned, only another is thrown, and before a transient one is thrown, or
-- a network error, all the `rounds` are used up.
abbrev pub IsOutcome : (Response → Bool) → ℕ → ℕ → Result → Type 0
IsOutcome transient rounds used (ok r) = is_ok r ≡ true
IsOutcome transient rounds used (throw (http_error r)) =
    (is_ok r ≡ false) × ((transient r ≡ false) ⊎ (used ≡ rounds))
IsOutcome transient rounds used (throw abort_error) = Unit
IsOutcome transient rounds used (throw (network_error message)) = used ≡ rounds

IsOutcome-suc :
    (transient : Response → Bool) (rounds used used' : ℕ) (r : Result)
    → used' ≡ suc used
    → IsOutcome transient rounds used r
    → IsOutcome transient (suc rounds) used' r
IsOutcome-suc transient rounds used used' (ok r) e h = h
IsOutcome-suc transient rounds used used' (throw (http_error r)) e (h, k) =
    (h, elim k [ inl final ↦ inl final | inr last ↦ inr (omega arith) ])
IsOutcome-suc transient rounds used used' (throw abort_error) e h = tt
IsOutcome-suc transient rounds used used' (throw (network_error message)) e h = omega arith

answer_cases :
    (a : Answer)
    → (a ≡ aborts) ⊎ ((m : String) × (a ≡ breaks m)) ⊎ ((r : Response) × (a ≡ responds r))
answer_cases aborts = inl refl
answer_cases (breaks m) = inr (inl (m, refl))
answer_cases (responds r) = inr (inr (r, refl))

module _ (seconds date_parse : String → Option ℕ) {W : Type 0} (fetch_impl : W → Answer × W)
    (clock : W → ℕ) (wait : ℕ → Failure → ℕ → W → W) (o : RetryOptions) (calls : W → ℕ)
    (fetches : (w : W) → calls (fetch_impl w).1 ≡ suc (calls w))
    (waits : (n : ℕ) (e : Failure) (ms : ℕ) (w : W) → calls (wait n e ms w) ≡ calls w) where
  -- What is claimed of an attempt with so many retries left.
  abbrev pub Bound : ℕ → W → Result × W → Type 0
  Bound left w end_ =
      (used : ℕ) × (calls end_.1 ≡ calls w + used)
      × (used ≤ suc left)
      × IsOutcome (is_transient o) (suc left) used end_.0

  again-Bound :
      (left n ms : ℕ) (e : Failure) (w : W) (end_ : Result × W)
      → Bound left (wait n e ms (fetch_impl w).1) end_
      → Bound (suc left) w end_
  again-Bound left n ms e w end_ (used, counted, within, outcome) =
      let one = fetches w in
      let same = waits n e ms (fetch_impl w).1 in
      (
        suc used,
        omega arith,
        omega arith,
        IsOutcome-suc (is_transient o) (suc left) used (suc used) end_.0 refl outcome,
      )

  attempts_from-Bound :
      (left attempt : ℕ) (w : W)
      → Bound left w (attempts_from seconds date_parse fetch_impl clock wait o left attempt w)
  unfolding attempts_from
  attempts_from-Bound zero attempt w =
      let one = fetches w in
      elim (answer_cases (fetch_impl w).0) [
        | inl stopped ↦ rw (attempts_from, stopped) (1, omega arith, omega arith, tt)
        | inr (inl (m, broken)) ↦ rw (attempts_from, broken) (1, omega arith, omega arith, refl)
        | inr (inr (r, got)) ↦ elim (Bool-cases (is_ok r)) [
          | inl good ↦ rw (attempts_from, got, good) (1, omega arith, omega arith, good)
          | inr bad ↦ rw (attempts_from, got, bad) (1, omega arith, omega arith, (bad, inr refl))
        ]
      ]
  attempts_from-Bound (suc left) attempt w =
      let one = fetches w in
      let w' = (fetch_impl w).1 in
      let ms = λ (e : Failure). delay_ms seconds date_parse o attempt (clock w') e in
      let more : (e : Failure)
          → Bound (suc left) w (
              attempts_from seconds date_parse fetch_impl clock wait o left (attempt + 1)
                (wait (attempt + 1) e (ms e) w')) =
        λ e.
          again-Bound left (attempt + 1) (ms e) e w _
            (attempts_from-Bound left (attempt + 1) (wait (attempt + 1) e (ms e) w')) in
      elim (answer_cases (fetch_impl w).0) [
        | inl stopped ↦ rw (attempts_from, stopped) (1, omega arith, omega arith, tt)
        | inr (inl (m, broken)) ↦ rw (attempts_from, broken) (more (network_error m))
        | inr (inr (r, got)) ↦ elim (Bool-cases (is_ok r)) [
          | inl good ↦ rw (attempts_from, got, good) (1, omega arith, omega arith, good)
          | inr bad ↦ elim (Bool-cases (is_transient o r)) [
            | inl again ↦ rw (attempts_from, got, bad, again) (more (http_error r))
            | inr final ↦
                rw (attempts_from, got, bad, final) (1, omega arith, omega arith, (bad, inl final))
          ]
        ]
      ]

  -- If every fetch is counted and waiting is not, then `fetchWithRetry` fetches at most once more than
  -- it may retry. It returns only a 2xx response and throws only another; before it throws a
  -- transient one or a network error it has used up its retries.
  pub fetch_with_retry-Bound :
      (w : W)
      → Bound o.max_retries w (fetch_with_retry seconds date_parse fetch_impl clock wait o w)
  unfolding fetch_with_retry
  fetch_with_retry-Bound w = attempts_from-Bound o.max_retries 0 w
