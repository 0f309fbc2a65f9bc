-- ===== src/Coupons.antt =====
-- apps/web/src/lib/discounts/couponService.ts. A missing `allowsStacking` is false, and a missing or
-- null expiry is the empty text, which the code treats alike.
pub mod Checks
pub mod Amounts
pub mod Validation
mod Tests
use accensa_app.Prelude.{
  ℕ, ◌≡◌, refl, String, Bool, true, false, not, ◌&&◌, List, [], ◌∷◌, ◌++◌, Option, none, some, map,
  leb, if◌then◌else◌,
}
use accensa_app.Prelude.Text.{codes, trim_codes}
use accensa_app.Prelude.Int.{ℤ, pos, ◌-ℤ◌, ◌*ℤ◌, ◌/ℤ◌, ltb_ℤ}
use accensa_app.Money.{Text, to_stroops, from_stroops}

pub data Discount : Type 0 where
  percent : Text → Discount
  fixed : Text → Discount

pub record Coupon : Type 0 where
  pub code : Text
  pub discount : Discount
  pub min_spend : Option Text
  pub max_redemptions : Option ℕ
  pub redeemed_count : ℕ
  pub expires_at : Text
  pub allows_stacking : Bool

pub data RejectionReason : Type 0 where
  not_found expired exhausted below_min_spend stacking_not_allowed : RejectionReason

pub record ValidationSuccess : Type 0 where
  pub coupon : Coupon
  pub discount_amount : Text
  pub final_amount : Text

pub data CouponError : Type 0 where
  invalid_order_amount invalid_fixed_discount invalid_percent_discount : CouponError
  unparseable_expiry invalid_min_spend : CouponError

-- What a validation answers, or what it throws.
pub data Outcome (A : Type 0) : Type 0 where
  accepted : A → Outcome A
  rejected : RejectionReason → Text → Outcome A
  throw : CouponError → Outcome A

infixl 5 ◌>>=◌
abbrev pub ◌>>=◌ : {A B : Type 0} → Outcome A → (A → Outcome B) → Outcome B
accepted a >>= f = f a
rejected reason message >>= f = rejected reason message
throw e >>= f = throw e

pub accepted_injective :
    {A : Type 0} {a b : A} → ◌≡◌ {A = Outcome A} (accepted a) (accepted b) → a ≡ b
accepted_injective e = cc

-- A chain that accepts has a first step that accepts.
pub bind_accepted :
    {A B : Type 0} {b : B} (r : Outcome A) (f : A → Outcome B)
    → (r >>= f) ≡ accepted b
    → (a : A) × (r ≡ accepted a) × (f a ≡ accepted b)
bind_accepted (accepted a) f e = (a, refl, e)
bind_accepted (rejected r m) f e = absurd (cc)
bind_accepted (throw x) f e = absurd (cc)

pub record ValidationContext : Type 0 where
  pub order_amount : Text
  pub applied_codes : List Text
  pub now : ℕ

abbrev negative_throws : CouponError → ℤ → Outcome ℤ
negative_throws e z = if ltb_ℤ z (pos 0) then throw e else accepted z

-- An amount that is read, or the error for one that is not or that is negative.
abbrev pub amount_or : CouponError → Option ℤ → Outcome ℤ
amount_or e none = throw e
amount_or e (some z) = negative_throws e z

abbrev pub at_most : ℤ → ℤ → ℤ
at_most limit z = if ltb_ℤ z limit then z else limit

abbrev pub discount_stroops : ℤ → Discount → Outcome ℤ
discount_stroops amount (fixed value) = amount_or invalid_fixed_discount (to_stroops value)
discount_stroops amount (percent value) = do
  p ← amount_or invalid_percent_discount (to_stroops value)
  accepted (amount *ℤ p /ℤ 1000000000)

-- `computeDiscountAmount`
unfoldable pub compute_discount_amount : Text → Discount → Outcome Text
unfolding to_stroops from_stroops ◌*ℤ◌ ◌/ℤ◌
compute_discount_amount order discount = do
  amount ← amount_or invalid_order_amount (to_stroops order)
  taken ← discount_stroops amount discount
  accepted (from_stroops (at_most amount taken))

abbrev pub or_zero : Option ℤ → ℤ
or_zero none = pos 0
or_zero (some z) = z

-- The number, or 0 if it is negative.
abbrev pub at_least_zero : ℤ → ℤ
at_least_zero z = if ltb_ℤ (pos 0) z then z else pos 0

-- What `validateCoupon` returns, once the discount is known.
unfoldable pub success : Coupon → Text → Text → ValidationSuccess
unfolding to_stroops from_stroops ◌-ℤ◌
success coupon order taken = record {
  coupon = coupon;
  discount_amount = taken;
  final_amount =
      from_stroops (at_least_zero (or_zero (to_stroops order) -ℤ or_zero (to_stroops taken)));
}

-- `priceBreakdown`
pub record PriceBreakdownLine : Type 0 where
  pub label : Text
  pub amount : Text

pub record PriceBreakdown : Type 0 where
  pub lines : List PriceBreakdownLine
  pub total : Text

unfoldable pub price_breakdown : Text → ValidationSuccess → PriceBreakdown
unfolding to_stroops from_stroops ◌-ℤ◌
price_breakdown order result = record {
  lines =
      record { label = codes "Subtotal"; amount = order }
      ∷ record {
        label = codes "Coupon " ++ result.coupon.code;
        amount = from_stroops (pos 0 -ℤ or_zero (to_stroops result.discount_amount));
      }
      ∷ [];
  total = result.final_amount;
}

-- The clock of a text, and upper case.
module _ (date_parse : Text → Option ℕ) (to_upper_case : Text → Text) where
  -- `normalizeCouponCode`
  unfoldable pub normalize_coupon_code : Text → Text
  unfolding trim_codes
  normalize_coupon_code code = to_upper_case (trim_codes code)

  abbrev not_after : Option ℕ → ℕ → Outcome Unit
  not_after none now = throw unparseable_expiry
  not_after (some expiry) now =
      if leb expiry now then rejected expired (codes "This code has expired.") else accepted tt

  abbrev pub check_expiry : Text → ℕ → Outcome Unit
  check_expiry [] now = accepted tt
  check_expiry (c ∷ cs) now = not_after (date_parse (c ∷ cs)) now

  abbrev pub check_redemptions : Option ℕ → ℕ → Outcome Unit
  check_redemptions none count = accepted tt
  check_redemptions (some most) count =
      if leb most count
      then rejected exhausted (codes "This code has reached its redemption limit.")
      else accepted tt

  abbrev enough : Text → Option ℤ → Option ℤ → Outcome Unit
  enough text none order = throw invalid_min_spend
  enough text (some least) none = accepted tt
  enough text (some least) (some order) =
      if ltb_ℤ order least
      then rejected below_min_spend
          (codes "This code needs an order of at least " ++ text ++ codes ".")
      else accepted tt

  abbrev pub check_min_spend : Option Text → Text → Outcome Unit
  check_min_spend none order = accepted tt
  check_min_spend (some text) order = enough text (to_stroops text) (to_stroops order)

  abbrev pub check_stacking : Bool → List Text → Outcome Unit
  check_stacking allowed [] = accepted tt
  check_stacking allowed (code ∷ codes_applied) =
      if allowed
      then accepted tt
      else rejected stacking_not_allowed (codes "This code cannot be combined with another code.")

  -- `validateCoupon`
  unfoldable pub validate_coupon : Option Coupon → ValidationContext → Outcome ValidationSuccess
  unfolding normalize_coupon_code compute_discount_amount success
  validate_coupon none context = rejected not_found (codes "That code is not valid.")
  validate_coupon (some coupon) context = do
    in_time ← check_expiry coupon.expires_at context.now
    left ← check_redemptions coupon.max_redemptions coupon.redeemed_count
    enough_spent ← check_min_spend coupon.min_spend context.order_amount
    alone ← check_stacking coupon.allows_stacking (map normalize_coupon_code context.applied_codes)
    taken ← compute_discount_amount context.order_amount coupon.discount
    accepted (success coupon context.order_amount taken)
