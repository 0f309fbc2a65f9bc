-- ===== src/Webhooks/Schedule.antt =====
-- When a delivery is tried again.
use native.Mathlib.Nat.{pow-suc}
use accensa_app.Prelude.{
  ℕ, zero, suc, ◌+◌, ◌-◌, ◌^◌, ◌≤◌, ◌<◌, ◌≡◌, String, ◌||◌, Option, some, arith, leb, Bool-cases,
  inl, inr, max,
}
use accensa_app.Webhooks.{max_attempts, delivery_window_ms, max_backoff_ms}
use accensa_app.Webhooks.RetryPolicy.{
  backoff_base, backoff_ms, next_retry_at, parse_retry_after, or_zero, within_window,
}

two_pow_pos : (n : ℕ) → 1 ≤ 2 ^ n
two_pow_pos zero = omega arith
two_pow_pos (suc n) = omega (arith, two_pow_pos n, pow-suc 2 n)

two_pow_mono : (m n : ℕ) → m ≤ n → 2 ^ m ≤ 2 ^ n
two_pow_mono m zero h = let e : m ≡ 0 = omega arith in rw e (omega arith)
two_pow_mono zero (suc n) h = omega (arith, two_pow_pos (suc n))
two_pow_mono (suc m) (suc n) h =
    omega (arith, two_pow_mono m n (omega arith), pow-suc 2 m, pow-suc 2 n)

-- Without the jitter the wait is between a second and an hour, and no later attempt waits less.
pub backoff_base_bounds :
    (m n : ℕ)
    → m ≤ n
    → (1000 ≤ backoff_base m)
      × (backoff_base m ≤ backoff_base n)
      × (backoff_base n ≤ max_backoff_ms)
unfolding backoff_base
backoff_base_bounds m n h =
    let p = two_pow_pos (m - 1) in
    let q = two_pow_mono (m - 1) (n - 1) (omega arith) in (omega arith, omega arith, omega arith)

-- Each bound that a next attempt meets.
pub record IsScheduled (attempt created now wait header at : ℕ) : Type 0 where
  pub waits : now + wait ≤ at
  pub honours : header ≤ at
  pub window : at < created + delivery_window_ms
  pub attempts_left : attempt < max_attempts

within_window-some :
    (created x at : ℕ)
    → within_window created x ≡ some at
    → (x ≡ at) × (x < created + delivery_window_ms)
within_window-some created x at e = elim (Bool-cases (leb delivery_window_ms (x - created))) [
  | inl late ↦ absurd (ground arith)
  | inr soon ↦ (ground arith, ground arith)
]

-- A next attempt is only scheduled while attempts are left, at least the backoff after now, no
-- earlier than the server's Retry-After, and within the delivery window of the creation.
pub next_retry_at-IsScheduled :
    (date_parse : String → Option ℕ) (jitter : ℕ → ℕ) (attempt created now : ℕ)
    (header : Option String) (at : ℕ)
    → next_retry_at date_parse jitter attempt created now header ≡ some at
    → IsScheduled attempt created now
        (backoff_ms jitter attempt)
        (or_zero (parse_retry_after date_parse header now))
        at
unfolding next_retry_at
next_retry_at-IsScheduled date_parse jitter attempt created now header at e =
    elim (Bool-cases (leb delivery_window_ms (now - created) || leb max_attempts attempt)) [
      | inl over ↦ absurd (ground arith)
      | inr fine ↦
          let (same, soon) =
            within_window-some created
              (max (or_zero (parse_retry_after date_parse header now))
                (now + backoff_ms jitter attempt))
              at (ground arith) in
          record {
            waits = omega arith;
            honours = omega arith;
            window = omega arith;
            attempts_left = ground arith;
          }
    ]
