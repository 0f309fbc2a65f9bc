-- ===== src/Coupons/Amounts.antt =====
-- The amounts of an accepted coupon.
use accensa_app.Prelude.{
  ◌≡◌, refl, sym, ◌∙◌, subst, ap, List, [], Option, none, some, Bool-cases, inl, inr, arith, map,
}
use accensa_app.Prelude.Int.{
  ℤ, pos, negsuc, ◌+ℤ◌, ◌-ℤ◌, ◌*ℤ◌, ◌/ℤ◌, ◌≤ℤ◌, ltb_ℤ, int_laws, eq_of_parts,
}
use accensa_app.Money.{Text, to_stroops, sum_amounts}
use accensa_app.Money.RoundTrip.{to_stroops-from_stroops}
use accensa_app.Money.Totals.{total, sum_amounts-total}
use accensa_app.Coupons.{
  Discount, percent, fixed, Coupon, ValidationSuccess, CouponError, accepted, accepted_injective,
  bind_accepted, amount_or, at_most, discount_stroops, compute_discount_amount, at_least_zero,
  success, PriceBreakdownLine, price_breakdown, invalid_percent_discount, invalid_order_amount,
}

pub amount_or-accepted :
    (e : CouponError) (o : Option ℤ) (z : ℤ)
    → amount_or e o ≡ accepted z
    → (o ≡ some z) × (pos 0 ≤ℤ z)
amount_or-accepted e none z h = absurd (cc)
amount_or-accepted e (some y) z h = elim (Bool-cases (ltb_ℤ y (pos 0))) [
  | inl below ↦ let k = rw below at h in absurd (cc)
  | inr above ↦
      let same : y ≡ z = accepted_injective (rw above at h) in rw (← same) (refl, ground arith)
]

product_nonneg : (a p : ℤ) → pos 0 ≤ℤ a → pos 0 ≤ℤ p → pos 0 ≤ℤ a *ℤ p /ℤ 1000000000
unfolding ◌*ℤ◌ ◌/ℤ◌
product_nonneg (pos a) (pos p) h k = omega arith
product_nonneg (negsuc a) p h k = absurd (omega arith)
product_nonneg (pos a) (negsuc p) h k = absurd (omega arith)

discount_stroops-nonneg :
    (amount : ℤ) (d : Discount) (z : ℤ)
    → pos 0 ≤ℤ amount
    → discount_stroops amount d ≡ accepted z
    → pos 0 ≤ℤ z
discount_stroops-nonneg amount (fixed v) z h e = (amount_or-accepted _ (to_stroops v) z e).1
discount_stroops-nonneg amount (percent v) z h e =
    let (p, got, done) = bind_accepted (amount_or invalid_percent_discount (to_stroops v)) _ e in
    let (_, up) = amount_or-accepted _ (to_stroops v) p got in
    subst (λ z. pos 0 ≤ℤ z) (accepted_injective done) (product_nonneg amount p h up)

at_most_lem : (a z : ℤ) → pos 0 ≤ℤ a → pos 0 ≤ℤ z → (pos 0 ≤ℤ at_most a z) × (at_most a z ≤ℤ a)
at_most_lem a z h k = elim (Bool-cases (ltb_ℤ z a)) [
  | inl less ↦ rw less (k, ground arith)
  | inr more ↦ rw more (h, omega arith)
]

-- A discount that is printed from a number between 0 and the amount of the order.
abbrev pub Taken : Text → Text → Type 0
Taken order text =
    (a : ℤ) × (to_stroops order ≡ some a)
    × ((d : ℤ) × (to_stroops text ≡ some d) × (pos 0 ≤ℤ d) × (d ≤ℤ a))

pub compute-Taken :
    (order : Text) (d : Discount) (t : Text)
    → compute_discount_amount order d ≡ accepted t
    → Taken order t
unfolding compute_discount_amount
compute-Taken order d t e =
    let (a, got, rest) = bind_accepted (amount_or invalid_order_amount (to_stroops order)) _ e in
    let (read, up) = amount_or-accepted _ (to_stroops order) a got in
    let (z, value, done) = bind_accepted (discount_stroops a d) _ rest in
    let (low, high) = at_most_lem a z up (discount_stroops-nonneg a d z up value) in
    let printed =
      subst (λ u. to_stroops u ≡ some (at_most a z)) (accepted_injective done)
        (to_stroops-from_stroops (at_most a z)) in
    (a, read, (at_most a z, printed, low, high))

-- An order's amount is the discount and what remains, and neither is negative.
abbrev pub AmountsFit : Text → ValidationSuccess → Type 0
AmountsFit order s =
    (a d f : ℤ) × (to_stroops order ≡ some a)
    × (to_stroops s.discount_amount ≡ some d)
    × (to_stroops s.final_amount ≡ some f)
    × (pos 0 ≤ℤ d)
    × (pos 0 ≤ℤ f)
    × (d +ℤ f ≡ a)

at_least_zero_lem : (z : ℤ) → pos 0 ≤ℤ z → at_least_zero z ≡ z
at_least_zero_lem z h = elim (Bool-cases (ltb_ℤ (pos 0) z)) [
  | inl more ↦ rw more refl
  | inr nothing ↦ rw nothing (eq_of_parts (pos 0) z (ground arith))
]

pub success-AmountsFit :
    (c : Coupon) (order t : Text) → Taken order t → AmountsFit order (success c order t)
unfolding success
success-AmountsFit c order t (a, read, (d, taken, low, high)) =
    let rest : pos 0 ≤ℤ a -ℤ d = omega int_laws in
    (
      a,
      d,
      a -ℤ d,
      read,
      taken,
      rw (read, taken, at_least_zero_lem (a -ℤ d) rest) (to_stroops-from_stroops (a -ℤ d)),
      low,
      rest,
      omega int_laws,
    )

abbrev pub amounts_of : List PriceBreakdownLine → List Text
amounts_of lines = map (λ l. l.amount) lines

rest_of : (a d f : ℤ) → d +ℤ f ≡ a → a +ℤ (pos 0 -ℤ d +ℤ pos 0) ≡ f
rest_of a d f h = rw (← h) (omega int_laws)

pub lines-total :
    (order : Text) (s : ValidationSuccess)
    → AmountsFit order s
    → let b = price_breakdown order s in
      to_stroops (sum_amounts (amounts_of b.lines)) ≡ to_stroops b.total
unfolding price_breakdown total
lines-total order s (a, d, f, read, taken, left, low, high, sum) =
    let lines = amounts_of (price_breakdown order s).lines in
    let added : total lines ≡ f =
      rw (read, taken, to_stroops-from_stroops (pos 0 -ℤ d)) (rest_of a d f sum) in
    (sum_amounts-total lines []).0 ∙ ap some added ∙ sym left
