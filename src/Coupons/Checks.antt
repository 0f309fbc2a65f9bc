-- ===== src/Coupons/Checks.antt =====
-- The checks of a coupon, against the conditions that its fields state.
use accensa_app.Prelude.{
  ℕ, ◌<◌, ◌≡◌, refl, subst, Option-cases, Bool, true, false, List, [], ◌∷◌, Option, none, some,
  Bool-cases, inl, inr, arith, map, leb,
}
use accensa_app.Prelude.Int.{ℤ, ◌≤ℤ◌, ltb_ℤ}
use accensa_app.Money.{Text, to_stroops}
use accensa_app.Coupons.{
  Coupon, ValidationContext, accepted, check_expiry, check_redemptions, check_min_spend,
  check_stacking, normalize_coupon_code, enough,
}

module _ (date_parse : Text → Option ℕ) (to_upper_case : Text → Text) where
  abbrev pub InTime : Text → ℕ → Type 0
  InTime [] now = Unit
  InTime (c ∷ cs) now = (expiry : ℕ) × (date_parse (c ∷ cs) ≡ some expiry) × (now < expiry)

  abbrev pub Left : Option ℕ → ℕ → Type 0
  Left none count = Unit
  Left (some most) count = count < most

  abbrev pub Spent : Option Text → Text → Type 0
  Spent none order = Unit
  Spent (some text) order =
      (least : ℤ) × (to_stroops text ≡ some least)
      × ((a : ℤ) → to_stroops order ≡ some a → least ≤ℤ a)

  abbrev pub Alone : Bool → List Text → Type 0
  Alone allowed [] = Unit
  Alone allowed (code ∷ codes) = allowed ≡ true

  -- What the fields of a coupon ask for.
  pub record Redeemable (c : Coupon) (context : ValidationContext) : Type 0 where
    pub in_time : InTime c.expires_at context.now
    pub left : Left c.max_redemptions c.redeemed_count
    pub spent : Spent c.min_spend context.order_amount
    pub alone : Alone c.allows_stacking context.applied_codes

  pub check_expiry-InTime :
      (text : Text) (now : ℕ)
      → check_expiry date_parse to_upper_case text now ≡ accepted tt
      → InTime text now
  check_expiry-InTime [] now h = tt
  check_expiry-InTime (c ∷ cs) now h = elim (Option-cases (date_parse (c ∷ cs))) [
    | inl bad ↦ let k = rw bad at h in absurd (cc)
    | inr (expiry, got) ↦ elim (Bool-cases (leb expiry now)) [
      | inl late ↦ let k = rw (got, late) at h in absurd (cc)
      | inr early ↦ (expiry, got, ground arith)
    ]
  ]

  pub InTime-check_expiry :
      (text : Text) (now : ℕ)
      → InTime text now
      → check_expiry date_parse to_upper_case text now ≡ accepted tt
  InTime-check_expiry [] now h = refl
  InTime-check_expiry (c ∷ cs) now (expiry, got, early) =
      let due : leb expiry now ≡ false = ground arith in rw (got, due) refl

  pub check_redemptions-Left :
      (most : Option ℕ) (count : ℕ)
      → check_redemptions date_parse to_upper_case most count ≡ accepted tt
      → Left most count
  check_redemptions-Left none count h = tt
  check_redemptions-Left (some most) count h = elim (Bool-cases (leb most count)) [
    | inl full ↦ let k = rw full at h in absurd (cc)
    | inr free ↦ ground arith
  ]

  pub Left-check_redemptions :
      (most : Option ℕ) (count : ℕ)
      → Left most count
      → check_redemptions date_parse to_upper_case most count ≡ accepted tt
  Left-check_redemptions none count h = refl
  Left-check_redemptions (some most) count h =
      let free : leb most count ≡ false = ground arith in rw free refl

  enough-least :
      (text : Text) (o order : Option ℤ)
      → enough date_parse to_upper_case text o order ≡ accepted tt
      → (least : ℤ) × (o ≡ some least) × ((a : ℤ) → order ≡ some a → least ≤ℤ a)
  enough-least text none order h = absurd (cc)
  enough-least text (some least) none h = (least, refl, λ a e. absurd (cc))
  enough-least text (some least) (some z) h = elim (Bool-cases (ltb_ℤ z least)) [
    | inl low ↦ let k = rw low at h in absurd (cc)
    | inr met ↦
        let above : least ≤ℤ z = ground arith in
        (least, refl, λ a e. let same : z ≡ a = cc in subst (λ a. least ≤ℤ a) same above)
  ]

  least-enough :
      (text : Text) (least : ℤ) (order : Option ℤ)
      → ((a : ℤ) → order ≡ some a → least ≤ℤ a)
      → enough date_parse to_upper_case text (some least) order ≡ accepted tt
  least-enough text least none h = refl
  least-enough text least (some z) h =
      let above = h z refl in let met : ltb_ℤ z least ≡ false = ground arith in rw met refl

  pub check_min_spend-Spent :
      (wanted : Option Text) (order : Text)
      → check_min_spend date_parse to_upper_case wanted order ≡ accepted tt
      → Spent wanted order
  check_min_spend-Spent none order h = tt
  check_min_spend-Spent (some text) order h =
      enough-least text (to_stroops text) (to_stroops order) h

  pub Spent-check_min_spend :
      (wanted : Option Text) (order : Text)
      → Spent wanted order
      → check_min_spend date_parse to_upper_case wanted order ≡ accepted tt
  Spent-check_min_spend none order h = refl
  Spent-check_min_spend (some text) order (least, read, above) =
      rw read (least-enough text least (to_stroops order) above)

  pub check_stacking-Alone :
      (allowed : Bool) (codes : List Text)
      → check_stacking date_parse to_upper_case allowed
          (map (normalize_coupon_code date_parse to_upper_case) codes)
        ≡ accepted tt
      → Alone allowed codes
  check_stacking-Alone allowed [] h = tt
  check_stacking-Alone true (code ∷ codes) h = refl
  check_stacking-Alone false (code ∷ codes) h = absurd (cc)

  pub Alone-check_stacking :
      (allowed : Bool) (codes : List Text)
      → Alone allowed codes
      → check_stacking date_parse to_upper_case allowed
          (map (normalize_coupon_code date_parse to_upper_case) codes)
        ≡ accepted tt
  Alone-check_stacking allowed [] h = refl
  Alone-check_stacking allowed (code ∷ codes) h = rw h refl
