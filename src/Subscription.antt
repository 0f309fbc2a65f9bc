-- ===== src/Subscription.antt =====
-- packages/sdk/src/subscription/index.ts.
pub mod Life
pub mod Rules
mod Tests
use accensa_app.Prelude.{
  ℕ, ◌+◌, ◌*◌, String, Bool, true, false, not, ◌&&◌, ◌||◌, List, [], ◌∷◌, Option, none, some,
  length, all, leb, ltb, ◌==◌, if◌then◌else◌,
}
use accensa_app.Prelude.Text.{codes, trim, is_empty, is_digit}

pub data BillingInterval : Type 0 where
  weekly monthly annual : BillingInterval

pub data Status : Type 0 where
  trialing active past_due canceled expired : Status

pub record SubscriptionPlan : Type 0 where
  pub id : String
  pub merchant_id : String
  pub name : String
  pub amount : String
  pub asset : String
  pub billing_interval : BillingInterval
  pub trial_days : ℕ
  pub grace_days : ℕ
  pub created_at : ℕ

-- `current_start` and `current_end` are `currentPeriodStart` and `currentPeriodEnd`, and `cancels` is
-- the flag `cancelAtPeriodEnd`.
pub record Subscription : Type 0 where
  pub id : String
  pub plan_id : String
  pub customer_address : String
  pub status : Status
  pub current_start : ℕ
  pub current_end : ℕ
  pub grace_ends_at : Option ℕ
  pub cancels : Bool
  pub created_at : ℕ

pub record PlanInput : Type 0 where
  pub merchant_id : String
  pub name : String
  pub amount : String
  pub asset : String
  pub billing_interval : BillingInterval
  pub trial_days : Option ℕ
  pub grace_days : Option ℕ

pub data SubscriptionError : Type 0 where
  amount_not_positive name_required already_ended : SubscriptionError

pub data Result (A : Type 0) : Type 0 where
  ok : A → Result A
  throw : SubscriptionError → Result A

-- The digits before the point, and those after it if there is one.
unfoldable pub split_point : List ℕ → List ℕ × Option (List ℕ)
split_point [] = ([], none)
split_point (c ∷ cs) =
    let (int, frac) = split_point cs in if c == b'.' then ([], some cs) else (c ∷ int, frac)

abbrev pub is_fraction : Option (List ℕ) → Bool
is_fraction none = true
is_fraction (some cs) = leb 1 (length cs) && leb (length cs) 7 && all is_digit cs

-- DECIMAL_AMOUNT
unfoldable pub is_decimal_amount : List ℕ → Bool
unfolding split_point
is_decimal_amount cs =
    let (int, frac) = split_point cs in leb 1 (length int) && all is_digit int && is_fraction frac

-- `Number(amount) <= 0` fails for such an amount where a digit is not 0.
unfoldable pub has_nonzero : List ℕ → Bool
has_nonzero [] = false
has_nonzero (c ∷ cs) = (leb b'1' c && leb c b'9') || has_nonzero cs

abbrev or_else : Option ℕ → ℕ → ℕ
or_else none d = d
or_else (some n) d = n

-- `createSubscriptionPlan`
unfoldable pub create_subscription_plan : PlanInput → String → ℕ → Result SubscriptionPlan
unfolding is_decimal_amount has_nonzero trim
create_subscription_plan input id now =
    if not (is_decimal_amount (codes input.amount)) || not (has_nonzero (codes input.amount))
    then throw amount_not_positive
    else (if is_empty (trim input.name)
        then throw name_required
        else ok (record {
          id = id;
          merchant_id = input.merchant_id;
          name = trim input.name;
          amount = input.amount;
          asset = input.asset;
          billing_interval = input.billing_interval;
          trial_days = or_else input.trial_days 0;
          grace_days = or_else input.grace_days 3;
          created_at = now;
        }))

abbrev pub days_ms : ℕ → ℕ
days_ms n = n * 24 * 60 * 60 * 1000

abbrev pub is_canceled : Status → Bool
is_canceled canceled = true
is_canceled _ = false

abbrev pub is_past_due : Status → Bool
is_past_due past_due = true
is_past_due _ = false

abbrev pub has_ended : Status → Bool
has_ended canceled = true
has_ended expired = true
has_ended _ = false

-- `applyChargeResult`
unfoldable pub apply_charge_result : Subscription → SubscriptionPlan → Bool → ℕ → Subscription
apply_charge_result s plan true now = record s { status = active; grace_ends_at = none }
apply_charge_result s plan false now = record s {
  status = past_due;
  grace_ends_at = some (now + days_ms plan.grace_days);
}

abbrev pub expire_at : Subscription → Option ℕ → ℕ → Subscription
expire_at s none now = s
expire_at s (some ends) now = if ltb now ends then s else record s { status = expired }

-- `expireIfGraceElapsed`
unfoldable pub expire_if_grace_elapsed : Subscription → ℕ → Subscription
expire_if_grace_elapsed s now =
    if not (is_past_due s.status) then s else expire_at s s.grace_ends_at now

-- `cancelAtPeriodEnd`
unfoldable pub cancel_at_period_end : Subscription → Subscription
cancel_at_period_end s = if has_ended s.status then s else record s { cancels = true }

-- `reactivate`
unfoldable pub reactivate : Subscription → Result Subscription
reactivate s = if has_ended s.status then throw already_ended else ok (record s { cancels = false })

-- `cancelImmediately`
unfoldable pub cancel_immediately : Subscription → ℕ → Subscription
cancel_immediately s now = record s { status = canceled; cancels = true; current_end = now }

-- `nextBillingDate`; the parameters add days, months and years to a UTC date.
abbrev pub next_billing_date : (ℕ → ℕ → ℕ) → (ℕ → ℕ → ℕ) → (ℕ → ℕ → ℕ) → BillingInterval → ℕ → ℕ
next_billing_date add_days add_months add_years weekly from = add_days 7 from
next_billing_date add_days add_months add_years monthly from = add_months 1 from
next_billing_date add_days add_months add_years annual from = add_years 1 from

-- `next_date` is `nextBillingDate`.
module _ (next_date : BillingInterval → ℕ → ℕ) where
  -- `startSubscription`
  unfoldable pub start_subscription : SubscriptionPlan → String → String → ℕ → Subscription
  start_subscription plan customer id now = record {
    id = id;
    plan_id = plan.id;
    customer_address = customer;
    status = if ltb 0 plan.trial_days then trialing else active;
    current_start = now;
    current_end =
        if ltb 0 plan.trial_days
        then now + days_ms plan.trial_days
        else next_date plan.billing_interval now;
    grace_ends_at = none;
    cancels = false;
    created_at = now;
  }

  -- `advancePeriod`
  unfoldable pub advance_period : Subscription → SubscriptionPlan → ℕ → Subscription
  advance_period s plan now =
      if ltb now s.current_end
      then s
      else (if s.cancels || is_canceled s.status then record s { status = expired } else record s {
        status = active;
        current_start = s.current_end;
        current_end = next_date plan.billing_interval s.current_end;
        grace_ends_at = none;
      })
