-- ===== src/Retrying.antt =====
-- packages/sdk/retry.ts.
pub mod Outcome
mod Tests
use accensa_app.Prelude.{
  ℕ, zero, suc, ◌+◌, ◌-◌, ◌*◌, ◌^◌, String, Bool, true, false, not, ◌&&◌, ◌||◌, Option, none, some,
  leb, ltb, ◌==◌, if◌then◌else◌,
}
use accensa_app.Prelude.Text.{is_empty}

pub record Response : Type 0 where
  pub status : ℕ
  pub status_text : String
  pub retry_after : Option String

-- What `fetchImpl` does: it answers, or throws an AbortError or another error.
pub data Answer : Type 0 where
  responds : Response → Answer
  aborts : Answer
  breaks : String → Answer

-- What is thrown: an HttpError, the AbortError, or the network's error.
pub data Failure : Type 0 where
  http_error : Response → Failure
  abort_error : Failure
  network_error : String → Failure

pub data Result : Type 0 where
  ok : Response → Result
  throw : Failure → Result

pub record RetryOptions : Type 0 where
  pub max_retries : ℕ
  pub base_delay_ms : ℕ
  pub is_retryable_status : ℕ → Bool
  pub retry_on_429 : Bool

abbrev pub is_retryable_status_default : ℕ → Bool
is_retryable_status_default status = leb 500 status && leb status 599

abbrev pub default_options : RetryOptions
default_options = record {
  max_retries = 3;
  base_delay_ms = 200;
  is_retryable_status = is_retryable_status_default;
  retry_on_429 = false;
}

-- `response.ok`
abbrev pub is_ok : Response → Bool
is_ok r = leb 200 r.status && leb r.status 299

-- Whether the loop goes on after the response, if attempts are left.
abbrev pub is_transient : RetryOptions → Response → Bool
is_transient o r = (o.retry_on_429 && r.status == 429) || o.is_retryable_status r.status

abbrev or_else : Option ℕ → ℕ → ℕ
or_else none d = d
or_else (some n) d = n

-- `seconds` is the number of milliseconds in a header that is a finite number of seconds, not negative,
-- and `date_parse` is Date.parse, none for NaN.
module _ (seconds date_parse : String → Option ℕ) where
  -- `retryAfterMs`
  unfoldable pub retry_after_ms : ℕ → Response → Option ℕ
  retry_after_ms now r = elim r.retry_after [
    | none ↦ none
    | some header ↦ if is_empty header then none else elim (seconds header) [
      | some ms ↦ some ms
      | none ↦ elim (date_parse header) [ none ↦ none | some date ↦ some (date - now) ]
    ]
  ]

  unfoldable pub delay_ms : RetryOptions → ℕ → ℕ → Failure → ℕ
  unfolding retry_after_ms
  delay_ms o attempt now (http_error r) =
      if r.status == 429
      then or_else (retry_after_ms now r) (o.base_delay_ms * 2 ^ attempt)
      else o.base_delay_ms * 2 ^ attempt
  delay_ms o attempt now _ = o.base_delay_ms * 2 ^ attempt

  -- `fetchImpl`, the clock, and `onRetry` with the delay after it, as steps of the world.
  module _ {W : Type 0} (fetch_impl : W → Answer × W) (clock : W → ℕ)
      (wait : ℕ → Failure → ℕ → W → W) (o : RetryOptions) where
    -- The loop at an attempt, with the number of retries that are left.
    unfoldable pub attempts_from : ℕ → ℕ → W → Result × W
    unfolding delay_ms
    attempts_from zero attempt w =
        let (answer, w') = fetch_impl w in
        elim answer [
          | aborts ↦ (throw abort_error, w')
          | breaks message ↦ (throw (network_error message), w')
          | responds r ↦ if is_ok r then (ok r, w') else (throw (http_error r), w')
        ]
    attempts_from (suc left) attempt w =
        let (answer, w') = fetch_impl w in
        let again : Failure → W = λ e. wait (attempt + 1) e (delay_ms o attempt (clock w') e) w' in
        elim answer [
          | aborts ↦ (throw abort_error, w')
          | breaks message ↦ attempts_from left (attempt + 1) (again (network_error message))
          | responds r ↦ elim (is_ok r) [
            | true ↦ (ok r, w')
            | false ↦ elim (is_transient o r) [
              | false ↦ (throw (http_error r), w')
              | true ↦ attempts_from left (attempt + 1) (again (http_error r))
            ]
          ]
        ]

    -- `fetchWithRetry`
    unfoldable pub fetch_with_retry : W → Result × W
    unfolding attempts_from
    fetch_with_retry w = attempts_from o.max_retries 0 w
