-- ===== src/Subscription/Tests.antt =====
-- A weekly plan, and the theorems at it.
use accensa_app.Prelude.{ℕ, ◌+◌, ◌*◌, ◌<◌, ◌≡◌, refl, false, List, [], ◌∷◌, none, arith}
use accensa_app.Subscription.{
  BillingInterval, weekly, monthly, annual, next_billing_date, active, expired, SubscriptionPlan,
  Subscription, PlanInput, ok, throw, amount_not_positive, name_required, create_subscription_plan,
  start_subscription, advance_period, cancel_at_period_end, apply_charge_result,
  expire_if_grace_elapsed,
}
use accensa_app.Subscription.Life.{
  IsSound, Change, advances, charges, graces, run, start_subscription-IsSound,
}
use accensa_app.Subscription.Rules.{cancel_at_period_end-run}

abbrev shift : ℕ → ℕ → ℕ
shift n t = t + n * 86400000

-- Every month has 30 days, and every year 365.
abbrev calendar : BillingInterval → ℕ → ℕ
calendar = next_billing_date shift (λ n. shift (30 * n)) (λ n. shift (365 * n))

calendar-lt : (i : BillingInterval) (t : ℕ) → t < calendar i t
calendar-lt weekly t = omega arith
calendar-lt monthly t = omega arith
calendar-lt annual t = omega arith

abbrev plan_input : PlanInput
plan_input = record {
  merchant_id = "m1";
  name = " Coffee ";
  amount = "4.50";
  asset = "USDC";
  billing_interval = weekly;
  trial_days = none;
  grace_days = none;
}

abbrev plan : SubscriptionPlan
plan = record {
  id = "p1";
  merchant_id = "m1";
  name = "Coffee";
  amount = "4.50";
  asset = "USDC";
  billing_interval = weekly;
  trial_days = 0;
  grace_days = 3;
  created_at = 1000;
}

plan_input-ok : create_subscription_plan plan_input "p1" 1000 ≡ ok plan
unfolding create_subscription_plan
plan_input-ok = refl

zero_amount :
    create_subscription_plan (record plan_input { amount = "0.00" }) "p1" 1000
    ≡ throw amount_not_positive
unfolding create_subscription_plan
zero_amount = refl

blank_name :
    create_subscription_plan (record plan_input { name = "  " }) "p1" 1000 ≡ throw name_required
unfolding create_subscription_plan
blank_name = refl

-- A renewal that fails to be paid, and an expiry after the three days of grace.
abbrev unpaid : List (ℕ × Change)
unpaid = (604800000, advances) ∷ (0, charges false) ∷ (259200000, graces) ∷ []

unpaid_status :
    (run calendar plan unpaid 1000 (start_subscription calendar plan "GA" "s1" 1000)).1.status
    ≡ expired
unfolding run start_subscription advance_period expire_if_grace_elapsed apply_charge_result
unpaid_status = refl

-- The next renewal makes the expired subscription active again.
revived_status :
    (run calendar plan
      ((604800000, advances) ∷ (0, charges false) ∷ (604800000, graces) ∷ (0, advances) ∷ [])
      1000
      (start_subscription calendar plan "GA" "s1" 1000)).1.status
    ≡ active
unfolding run start_subscription advance_period expire_if_grace_elapsed apply_charge_result
revived_status = refl

start_subscription-IsSound_example :
    let (later, t) =
      run calendar plan unpaid 1000 (start_subscription calendar plan "GA" "s1" 1000) in
    IsSound later t
start_subscription-IsSound_example =
    start_subscription-IsSound calendar plan calendar-lt "GA" "s1" 1000 unpaid

abbrev started : Subscription
started = record {
  id = "s1";
  plan_id = "p1";
  customer_address = "GA";
  status = active;
  current_start = 1000;
  current_end = 604801000;
  grace_ends_at = none;
  cancels = false;
  created_at = 1000;
}

cancel_at_period_end-run_example :
    let t = (run calendar plan unpaid 1000 (cancel_at_period_end started)).1 in
    (t.current_start ≡ 1000)
    × (t.current_end ≡ 604801000)
    × ((advance_period calendar t plan 604801000).status ≡ expired)
cancel_at_period_end-run_example =
    cancel_at_period_end-run calendar plan started unpaid 1000 604801000 refl refl (omega arith)
