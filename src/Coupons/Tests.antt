-- ===== src/Coupons/Tests.antt =====
-- Coupons, and the theorems at them.
use accensa_app.Prelude.{ℕ, ◌≡◌, refl, false, [], Option, none, some, arith}
use accensa_app.Prelude.Text.{codes}
use accensa_app.Prelude.Int.{pos}
use accensa_app.Money.{Text, to_stroops, sum_amounts}
use accensa_app.Coupons.{
  percent, Coupon, expired, ValidationSuccess, ValidationContext, accepted, rejected, throw,
  unparseable_expiry, validate_coupon, price_breakdown,
}
use accensa_app.Coupons.Checks.{Redeemable}
use accensa_app.Coupons.Amounts.{AmountsFit, amounts_of}
use accensa_app.Coupons.Validation.{
  validate_coupon-Redeemable, Redeemable-accepted, price_breakdown-total,
}

-- A clock that reads every text as one instant.
abbrev noon : Text → Option ℕ
noon text = some 12

abbrev same_case : Text → Text
same_case text = text

abbrev spring : Coupon
spring = record {
  code = codes "SPRING20";
  discount = percent (codes "20");
  min_spend = some (codes "5");
  max_redemptions = some 3;
  redeemed_count = 2;
  expires_at = codes "2030";
  allows_stacking = false;
}

abbrev order : ValidationContext
order = record { order_amount = codes "9.99"; applied_codes = []; now = 11 }

abbrev saved : ValidationSuccess
saved = record {
  coupon = spring;
  discount_amount = codes "1.9980000";
  final_amount = codes "7.9920000";
}

validate-spring : validate_coupon noon same_case (some spring) order ≡ accepted saved
unfolding validate_coupon
validate-spring = refl

too_late :
    validate_coupon noon same_case (some spring) (record order { now = 12 })
    ≡ rejected expired (codes "This code has expired.")
unfolding validate_coupon
too_late = refl

no_date : validate_coupon (λ t. none) same_case (some spring) order ≡ throw unparseable_expiry
unfolding validate_coupon
no_date = refl

spring-Redeemable : Redeemable noon same_case spring order
unfolding to_stroops
spring-Redeemable = record {
  in_time = (12, refl, omega arith);
  left = omega arith;
  spent =
      (pos 50000000, refl, λ a e. let same : pos 99900000 ≡ a = cc in rw (← same) (omega arith));
  alone = tt;
}

validate_coupon-Redeemable_example :
    (some spring ≡ some spring)
    × Redeemable noon same_case spring order
    × AmountsFit (codes "9.99") saved
validate_coupon-Redeemable_example =
    validate_coupon-Redeemable noon same_case (some spring) order saved validate-spring

Redeemable-accepted_example :
    (s : ValidationSuccess) × (validate_coupon noon same_case (some spring) order ≡ accepted s)
unfolding to_stroops
Redeemable-accepted_example =
    Redeemable-accepted noon same_case spring order spring-Redeemable
      (pos 99900000, refl, omega arith) (pos 200000000, refl, omega arith)

price_breakdown-total_example :
    to_stroops (sum_amounts (amounts_of (price_breakdown (codes "9.99") saved).lines))
    ≡ to_stroops (price_breakdown (codes "9.99") saved).total
price_breakdown-total_example =
    price_breakdown-total noon same_case (some spring) order saved validate-spring
