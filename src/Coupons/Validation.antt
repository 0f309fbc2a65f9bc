-- ===== src/Coupons/Validation.antt =====
-- The whole validation of a coupon.
use accensa_app.Prelude.{
  ℕ, ◌≡◌, refl, sym, ◌∙◌, subst, false, Option, none, some, Bool-cases, inl, inr, arith, map,
}
use accensa_app.Prelude.Int.{ℤ, pos, ◌≤ℤ◌, ltb_ℤ, ◌*ℤ◌, ◌/ℤ◌}
use accensa_app.Money.{Text, to_stroops, from_stroops, sum_amounts}
use accensa_app.Coupons.{
  Discount, percent, fixed, Coupon, RejectionReason, ValidationSuccess, ValidationContext,
  CouponError, Outcome, accepted, rejected, throw, ◌>>=◌, bind_accepted, accepted_injective,
  amount_or, discount_stroops, at_most, compute_discount_amount, success, validate_coupon,
  check_expiry, check_redemptions, check_min_spend, check_stacking, normalize_coupon_code,
  price_breakdown,
}
use accensa_app.Coupons.Checks.{
  Redeemable, check_expiry-InTime, InTime-check_expiry, check_redemptions-Left,
  Left-check_redemptions, check_min_spend-Spent, Spent-check_min_spend, check_stacking-Alone,
  Alone-check_stacking,
}
use accensa_app.Coupons.Amounts.{
  AmountsFit, compute-Taken, success-AmountsFit, amounts_of, lines-total,
}

amount_or-nonneg :
    (e : CouponError) (o : Option ℤ) (z : ℤ) → o ≡ some z → pos 0 ≤ℤ z → amount_or e o ≡ accepted z
amount_or-nonneg e o z h k = let up : ltb_ℤ z (pos 0) ≡ false = ground arith in rw (h, up) refl

-- The value of a discount, as it is written.
abbrev pub written : Discount → Text
written (percent value) = value
written (fixed value) = value

-- A text that is read as an amount of at least 0.
abbrev pub IsAmount : Text → Type 0
IsAmount text = (z : ℤ) × (to_stroops text ≡ some z) × (pos 0 ≤ℤ z)

discount_stroops-accepted :
    (a : ℤ) (d : Discount) → IsAmount (written d) → (z : ℤ) × (discount_stroops a d ≡ accepted z)
discount_stroops-accepted a (fixed v) (z, read, up) =
    (z, amount_or-nonneg _ (to_stroops v) z read up)
discount_stroops-accepted a (percent v) (z, read, up) =
    (a *ℤ z /ℤ 1000000000, rw (amount_or-nonneg _ (to_stroops v) z read up) refl)

compute-accepted :
    (order : Text) (d : Discount)
    → IsAmount order
    → IsAmount (written d)
    → (t : Text) × (compute_discount_amount order d ≡ accepted t)
unfolding compute_discount_amount
compute-accepted order d (a, read, up) h =
    let (z, got) = discount_stroops-accepted a d h in
    (from_stroops (at_most a z), rw (amount_or-nonneg _ (to_stroops order) a read up, got) refl)

amount_or-not_rejected :
    (e : CouponError) (o : Option ℤ) (r : RejectionReason) (m : Text)
    → ¬ (amount_or e o ≡ rejected r m)
amount_or-not_rejected e none r m h = cc
amount_or-not_rejected e (some z) r m h = elim (Bool-cases (ltb_ℤ z (pos 0))) [
  | inl below ↦ let k = rw below at h in cc
  | inr above ↦ let k = rw above at h in cc
]

bind_rejected :
    {A B : Type 0} {r : RejectionReason} {m : Text} (o : Outcome A) (f : A → Outcome B)
    → ¬ (o ≡ rejected r m)
    → ((a : A) → ¬ (f a ≡ rejected r m))
    → ¬ ((o >>= f) ≡ rejected r m)
bind_rejected (accepted a) f h k = k a
bind_rejected {r} {m} (rejected s n) f h k =
    λ e. let reason : s ≡ r = cc in let message : n ≡ m = cc in h (rw (reason, message) refl)
bind_rejected (throw e) f h k = λ e. cc

discount_stroops-not_rejected :
    (a : ℤ) (d : Discount) (r : RejectionReason) (m : Text)
    → ¬ (discount_stroops a d ≡ rejected r m)
discount_stroops-not_rejected a (fixed v) r m = amount_or-not_rejected _ (to_stroops v) r m
discount_stroops-not_rejected a (percent v) r m =
    bind_rejected (amount_or _ (to_stroops v)) _ (amount_or-not_rejected _ (to_stroops v) r m)
      (λ p e. cc)

compute-not_rejected :
    (order : Text) (d : Discount) (r : RejectionReason) (m : Text)
    → ¬ (compute_discount_amount order d ≡ rejected r m)
unfolding compute_discount_amount
compute-not_rejected order d r m =
    bind_rejected (amount_or _ (to_stroops order)) _
      (amount_or-not_rejected _ (to_stroops order) r m)
      (λ a.
        bind_rejected (discount_stroops a d) _ (discount_stroops-not_rejected a d r m) (λ z e. cc))

module _ (date_parse : Text → Option ℕ) (to_upper_case : Text → Text) where
  -- A coupon is accepted only if it has not expired, has a redemption left, the order reaches its
  -- minimum spend and no other code is applied or it allows stacking; the discount and the
  -- final amount are then not negative and add up to the amount of the order.
  pub validate_coupon-Redeemable :
      (found : Option Coupon) (context : ValidationContext) (s : ValidationSuccess)
      → validate_coupon date_parse to_upper_case found context ≡ accepted s
      → (found ≡ some s.coupon)
        × Redeemable date_parse to_upper_case s.coupon context
        × AmountsFit context.order_amount s
  unfolding validate_coupon success
  validate_coupon-Redeemable none context s e = absurd (cc)
  validate_coupon-Redeemable (some c) context s e =
      let (_, in_time, e1) =
        bind_accepted (check_expiry date_parse to_upper_case c.expires_at context.now) _ e in
      let (_, left, e2) =
        bind_accepted
          (check_redemptions date_parse to_upper_case c.max_redemptions c.redeemed_count) _ e1 in
      let (_, spent, e3) =
        bind_accepted (check_min_spend date_parse to_upper_case c.min_spend context.order_amount) _
          e2 in
      let (_, alone, e4) =
        bind_accepted
          (check_stacking date_parse to_upper_case c.allows_stacking
            (map (normalize_coupon_code date_parse to_upper_case) context.applied_codes))
          _ e3 in
      let (t, taken, done) =
        bind_accepted (compute_discount_amount context.order_amount c.discount) _ e4 in
      subst
        (λ s.
          (some c ≡ some s.coupon)
          × Redeemable date_parse to_upper_case s.coupon context
          × AmountsFit context.order_amount s)
        (accepted_injective done)
        (
          refl,
          record {
            in_time = check_expiry-InTime date_parse to_upper_case c.expires_at context.now in_time;
            left =
                check_redemptions-Left date_parse to_upper_case c.max_redemptions c.redeemed_count
                  left;
            spent =
                check_min_spend-Spent date_parse to_upper_case c.min_spend context.order_amount
                  spent;
            alone =
                check_stacking-Alone date_parse to_upper_case c.allows_stacking
                  context.applied_codes alone;
          },
          success-AmountsFit c context.order_amount t
              (compute-Taken context.order_amount c.discount t taken),
        )

  Redeemable-computed :
      (c : Coupon) (context : ValidationContext)
      → Redeemable date_parse to_upper_case c context
      → validate_coupon date_parse to_upper_case (some c) context ≡ (
          compute_discount_amount context.order_amount c.discount
          >>= (λ t. accepted (success c context.order_amount t)))
  unfolding validate_coupon
  Redeemable-computed c context h =
      rw
        (
          InTime-check_expiry date_parse to_upper_case c.expires_at context.now h.in_time,
          Left-check_redemptions date_parse to_upper_case c.max_redemptions c.redeemed_count h.left,
          Spent-check_min_spend date_parse to_upper_case c.min_spend context.order_amount h.spent,
          Alone-check_stacking date_parse to_upper_case c.allows_stacking context.applied_codes
              h.alone,
        )
        refl

  -- A coupon that has not expired, has a redemption left, whose minimum spend the order reaches, and that
  -- stands alone or allows stacking is accepted, if its discount and the amount of the
  -- order are amounts of at least 0.
  pub Redeemable-accepted :
      (c : Coupon) (context : ValidationContext)
      → Redeemable date_parse to_upper_case c context
      → IsAmount context.order_amount
      → IsAmount (written c.discount)
      → (s : ValidationSuccess) × (validate_coupon date_parse to_upper_case (some c) context
          ≡ accepted s)
  Redeemable-accepted c context h readable value =
      let order = context.order_amount in
      let (t, got) = compute-accepted order c.discount readable value in
      (success c order t, rw (Redeemable-computed c context h, got) refl)

  -- A coupon that is rejected has expired, has no redemption left, wants a higher spend, or stands
  -- beside another code without allowing stacking.
  pub rejected-Redeemable :
      (c : Coupon) (context : ValidationContext) (reason : RejectionReason) (message : Text)
      → validate_coupon date_parse to_upper_case (some c) context ≡ rejected reason message
      → ¬ Redeemable date_parse to_upper_case c context
  rejected-Redeemable c context reason message e = λ h.
      bind_rejected (compute_discount_amount context.order_amount c.discount) _
        (compute-not_rejected context.order_amount c.discount reason message) (λ t k. cc)
        (sym (Redeemable-computed c context h) ∙ e)

  -- The lines that the checkout shows for an accepted coupon add up to the total that is authorized.
  pub price_breakdown-total :
      (found : Option Coupon) (context : ValidationContext) (s : ValidationSuccess)
      → validate_coupon date_parse to_upper_case found context ≡ accepted s
      → let b = price_breakdown context.order_amount s in
        to_stroops (sum_amounts (amounts_of b.lines)) ≡ to_stroops b.total
  price_breakdown-total found context s e =
      let (_, _, fit) = validate_coupon-Redeemable found context s e in
      lines-total context.order_amount s fit
