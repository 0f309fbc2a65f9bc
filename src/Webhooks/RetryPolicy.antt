-- ===== src/Webhooks/RetryPolicy.antt =====
-- retry-policy.ts. `date_parse` is `Date.parse`, none for NaN and 0 for a time before 1970, which the
-- maximum with the backoff treats alike. `jitter` is `floor(random() * exp * 0.25)`.
use accensa_app.Prelude.{
  ℕ, ◌+◌, ◌-◌, ◌*◌, ◌^◌, String, Bool, true, false, ◌&&◌, ◌||◌, Option, none, some, leb, ◌==◌,
  if◌then◌else◌, all, min, max,
}
use accensa_app.Prelude.Text.{codes, trim, is_empty, is_digit}
use accensa_app.Prelude.Decimal.{number_from}
use accensa_app.Webhooks.{max_attempts, delivery_window_ms, max_backoff_ms}

unfoldable pub should_retry : Option ℕ → Bool → Bool
should_retry status true = true
should_retry none false = true
should_retry (some s) false = s == 429 || (leb 500 s && leb s 599)

unfoldable pub parse_retry_after : (String → Option ℕ) → Option String → ℕ → Option ℕ
unfolding number_from trim
parse_retry_after date_parse none now = none
parse_retry_after date_parse (some header) now =
    let trimmed = trim header in
    if is_empty trimmed
    then none
    else (if all is_digit (codes trimmed)
        then some (now + number_from 0 (codes trimmed) * 1000)
        else date_parse trimmed)

-- `Math.min(1000 * 2 ** Math.max(0, attempt - 1), MAX_BACKOFF_MS)`
unfoldable pub backoff_base : ℕ → ℕ
backoff_base attempt = min (1000 * 2 ^ (attempt - 1)) max_backoff_ms

unfoldable pub backoff_ms : (ℕ → ℕ) → ℕ → ℕ
unfolding backoff_base
backoff_ms jitter attempt = backoff_base attempt + jitter (backoff_base attempt)

abbrev pub or_zero : Option ℕ → ℕ
or_zero none = 0
or_zero (some n) = n

abbrev pub within_window : ℕ → ℕ → Option ℕ
within_window created at = if leb delivery_window_ms (at - created) then none else some at

-- Differences of times stop at 0 here: a time before the creation is inside the window either way.
unfoldable pub next_retry_at : (String → Option ℕ) → (ℕ → ℕ) → ℕ → ℕ → ℕ → Option String → Option ℕ
unfolding parse_retry_after backoff_ms
next_retry_at date_parse jitter attempt created now header =
    if leb delivery_window_ms (now - created) || leb max_attempts attempt
    then none
    else within_window created
        (max (or_zero (parse_retry_after date_parse header now)) (now + backoff_ms jitter attempt))
