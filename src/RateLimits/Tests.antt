-- ===== src/RateLimits/Tests.antt =====
-- Attempts at two merchants, and the theorems at them.
use accensa_app.Prelude.{◌≤◌, ◌≡◌, refl, true, List, [], ◌∷◌, arith}
use accensa_app.Prelude.Text.{codes}
use accensa_app.RateLimits.{
  no_hits, absent, failing, check_totp_rate_limit, allow_inventory_reservation,
}
use accensa_app.RateLimits.Window.{count, Reference}
use accensa_app.RateLimits.Histories.{
  Call, attempt, clear, Ordered, play, check_totp_rate_limit-count, check_totp_rate_limit-Reference,
}

abbrev calls : List Call
calls =
    attempt absent 7 0
    ∷ attempt failing 7 1
    ∷ attempt failing 8 1
    ∷ attempt absent 7 2
    ∷ attempt absent 7 3
    ∷ attempt absent 7 4
    ∷ attempt absent 7 5
    ∷ attempt absent 7 300001
    ∷ clear 8
    ∷ []

-- The sixth attempt fails, and passes once the first two are over.
passed-calls : (play 7 calls no_hits []).1 ≡ 300001 ∷ 4 ∷ 3 ∷ 2 ∷ 1 ∷ 0 ∷ []
unfolding play
passed-calls = refl

calls-Ordered : Ordered 0 calls 300002
calls-Ordered = (
  omega arith,
  (
    omega arith,
    (
      omega arith,
      (omega arith, (omega arith, (omega arith, (omega arith, (omega arith, omega arith))))),
    ),
  ),
)

reserved : (allow_inventory_reservation (λ t. t) absent 7 (codes "::1") 9 no_hits).0 ≡ true
unfolding allow_inventory_reservation
reserved = refl

check_totp_rate_limit-count_example : count 300000 300002 (play 7 calls no_hits []).1 ≤ 5
check_totp_rate_limit-count_example = check_totp_rate_limit-count 7 300002 calls calls-Ordered

check_totp_rate_limit-Reference_example :
    let (hits, passed) = play 7 calls no_hits [] in
    Reference 5 300000 300002 passed (check_totp_rate_limit failing 7 300002 hits).0
check_totp_rate_limit-Reference_example =
    check_totp_rate_limit-Reference 7 300002 calls calls-Ordered
