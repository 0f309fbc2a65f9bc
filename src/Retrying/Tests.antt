-- ===== src/Retrying/Tests.antt =====
-- A server that answers 503 and 429 before it answers 200. The world is the number of calls.
use accensa_app.Prelude.{ℕ, zero, suc, ◌+◌, ◌≤◌, ◌≡◌, refl, String, true, Option, none, some}
use accensa_app.Retrying.{
  Response, Answer, responds, Failure, http_error, ok, throw, RetryOptions, default_options,
  is_transient, fetch_with_retry,
}
use accensa_app.Retrying.Outcome.{IsOutcome, fetch_with_retry-Bound}

abbrev status : ℕ → Response
status n = record { status = n; status_text = ""; retry_after = some "7" }

abbrev server : ℕ → Answer × ℕ
server zero = (responds (status 503), 1)
server (suc zero) = (responds (status 429), 2)
server (suc (suc n)) = (responds (status 200), suc (suc (suc n)))

server-calls : (w : ℕ) → (server w).1 ≡ suc w
server-calls zero = refl
server-calls (suc zero) = refl
server-calls (suc (suc n)) = refl

abbrev no_text : String → Option ℕ
no_text s = none

abbrev at_once : ℕ → Failure → ℕ → ℕ → ℕ
at_once n e ms w = w

abbrev limits : RetryOptions
limits = record default_options { retry_on_429 = true }

third_time :
    fetch_with_retry no_text no_text server (λ w. 0) at_once limits 0 ≡ (ok (status 200), 3)
unfolding fetch_with_retry
third_time = refl

second_time :
    fetch_with_retry no_text no_text server (λ w. 0) at_once default_options 0
    ≡ (throw (http_error (status 429)), 2)
unfolding fetch_with_retry
second_time = refl

fetch_with_retry-Bound_example :
    let end_ = fetch_with_retry no_text no_text server (λ w. 0) at_once limits 0 in
    (used : ℕ) × (end_.1 ≡ 0 + used) × (used ≤ 4) × IsOutcome (is_transient limits) 4 used end_.0
fetch_with_retry-Bound_example =
    fetch_with_retry-Bound no_text no_text server (λ w. 0) at_once limits (λ w. w) server-calls
      (λ n e ms w. refl) 0
