-- ===== src/Pricing/Engine.antt =====
-- engine.ts: `matches` and `price`.
use accensa_app.Prelude.{
  ℕ, Bool, true, false, ◌&&◌, List, [], ◌∷◌, ◌++◌, Option, none, some, ltb, leb, ◌==◌,
  if◌then◌else◌,
}
use accensa_app.Prelude.Int.{ℤ, pos, negsuc, ◌+ℤ◌, ◌*ℤ◌, ltb_ℤ, leb_ℤ}
use accensa_app.Money.{Text}
use accensa_app.Pricing.{
  GeoRegion, auto, na, eu, apac, latam, africa, other, HttpMethod, get, post, put, patch, delete,
  head, options, Effect, markup_pct, markup_fixed, surcharge_pct, surcharge_fixed, floor,
  PricingRule, PricingContext, PriceBreakdown, invalid_quantity, Result, ok, throw, ◌>>=◌,
  parse_decimal, format_decimal, multiply_pct,
}

abbrev pub same_geo : GeoRegion → GeoRegion → Bool
same_geo auto auto = true
same_geo na na = true
same_geo eu eu = true
same_geo apac apac = true
same_geo latam latam = true
same_geo africa africa = true
same_geo other other = true
same_geo _ _ = false

abbrev pub same_method : HttpMethod → HttpMethod → Bool
same_method get get = true
same_method post post = true
same_method put put = true
same_method patch patch = true
same_method delete delete = true
same_method head head = true
same_method options options = true
same_method _ _ = false

-- A condition that is absent, or that the context meets.
abbrev pub fits {ℓ} : {A : Type ℓ} → (A → A → Bool) → Option A → Option A → Bool
fits same none given = true
fits same (some wanted) none = false
fits same (some wanted) (some given) = same wanted given

unfoldable pub has_prefix : Text → Text → Bool
has_prefix [] text = true
has_prefix (c ∷ cs) [] = false
has_prefix (c ∷ cs) (d ∷ text) = c == d && has_prefix cs text

abbrev pub or_empty : Option Text → Text
or_empty none = []
or_empty (some t) = t

abbrev pub or_one : Option ℕ → ℕ
or_one none = 1
or_one (some n) = n

abbrev fits_prefix : Option Text → Option Text → Bool
fits_prefix none route = true
fits_prefix (some prefix) route = has_prefix prefix (or_empty route)

abbrev at_least : Option ℕ → ℕ → Bool
at_least none n = true
at_least (some low) n = leb low n

abbrev under : Option ℕ → ℕ → Bool
under none n = true
under (some high) n = ltb n high

abbrev base_at_least : Option Text → ℤ → Result Bool
base_at_least none base = ok true
base_at_least (some text) base = do low ← parse_decimal text; ok (leb_ℤ low base)

abbrev base_under : Option Text → ℤ → Result Bool
base_under none base = ok true
base_under (some text) base = do high ← parse_decimal text; ok (ltb_ℤ base high)

-- `matches`: what stands before a condition that fails is not evaluated.
unfoldable pub matches : PricingRule → PricingContext → ℤ → Result Bool
unfolding has_prefix parse_decimal
matches rule ctx base =
    let m = rule.conditions in
    if fits same_geo m.geo ctx.geo
      && fits same_method m.http_method ctx.http_method
      && fits_prefix m.route_prefix ctx.route
      && at_least m.min_quantity (or_one ctx.quantity)
      && under m.max_quantity (or_one ctx.quantity)
    then (do
      low ← base_at_least m.min_base base
      if low then base_under m.max_base base else ok false)
    else ok false

-- The rules by priority; rules of the same priority stay in their order.
unfoldable pub insert_rule : PricingRule → List PricingRule → List PricingRule
insert_rule r [] = r ∷ []
insert_rule r (s ∷ rules) =
    if leb_ℤ r.priority s.priority then r ∷ s ∷ rules else s ∷ insert_rule r rules

unfoldable pub sort_rules : List PricingRule → List PricingRule
unfolding insert_rule
sort_rules [] = []
sort_rules (r ∷ rules) = insert_rule r (sort_rules rules)

-- What the loop has found: `markupSeen` and `surchargeSeen` are that there is one.
pub record Found : Type 0 where
  pub markup : Option ℤ
  pub surcharge : Option ℤ
  pub floor_at : ℤ
  pub applied : List (Text × Effect)

abbrev pub nothing_found : Found
nothing_found = record { markup = none; surcharge = none; floor_at = negsuc 0; applied = [] }

abbrev pub is_markup : Effect → Bool
is_markup (markup_pct p) = true
is_markup (markup_fixed a) = true
is_markup _ = false

abbrev pub is_surcharge : Effect → Bool
is_surcharge (surcharge_pct p) = true
is_surcharge (surcharge_fixed a) = true
is_surcharge _ = false

-- What a markup or a surcharge adds.
unfoldable pub added : ℤ → ℕ → Effect → Result ℤ
unfolding multiply_pct parse_decimal ◌*ℤ◌
added base quantity (markup_pct percent) = multiply_pct base percent
added base quantity (markup_fixed amount) = do a ← parse_decimal amount; ok (a *ℤ pos quantity)
added base quantity (surcharge_pct percent) = multiply_pct base percent
added base quantity (surcharge_fixed amount) = do a ← parse_decimal amount; ok (a *ℤ pos quantity)
added base quantity (floor amount) = ok (pos 0)

abbrev pub max_ℤ : ℤ → ℤ → ℤ
max_ℤ a b = if ltb_ℤ b a then a else b

abbrev pub is_zero_text : Text → Bool
is_zero_text (c ∷ []) = c == b'0'
is_zero_text _ = false

abbrev pub raise_by : Bool → Text → Found → Result Found
raise_by true amount s = ok s
raise_by false amount s = do
  a ← parse_decimal amount
  ok (record s { floor_at = max_ℤ s.floor_at a })

abbrev pub take_markup : Option ℤ → ℤ → ℕ → PricingRule → Found → Result Found
take_markup (some seen) base quantity rule s = ok s
take_markup none base quantity rule s = do
  a ← added base quantity rule.effect
  ok (record s { markup = some a; applied = s.applied ++ (rule.name, rule.effect) ∷ [] })

abbrev pub take_surcharge : Option ℤ → ℤ → ℕ → PricingRule → Found → Result Found
take_surcharge (some seen) base quantity rule s = ok s
take_surcharge none base quantity rule s = do
  a ← added base quantity rule.effect
  ok (record s { surcharge = some a; applied = s.applied ++ (rule.name, rule.effect) ∷ [] })

-- The `switch` over the effect of a rule that matches.
unfoldable pub apply_effect : Effect → ℤ → ℕ → PricingRule → Found → Result Found
unfolding added parse_decimal
apply_effect (markup_pct percent) base quantity rule s = take_markup s.markup base quantity rule s
apply_effect (markup_fixed amount) base quantity rule s = take_markup s.markup base quantity rule s
apply_effect (surcharge_pct percent) base quantity rule s =
    take_surcharge s.surcharge base quantity rule s
apply_effect (surcharge_fixed amount) base quantity rule s =
    take_surcharge s.surcharge base quantity rule s
apply_effect (floor amount) base quantity rule s = raise_by (is_zero_text amount) amount s

abbrev pub apply_if : Bool → ℤ → ℕ → PricingRule → Found → Result Found
apply_if true base quantity rule s = apply_effect rule.effect base quantity rule s
apply_if false base quantity rule s = ok s

-- The loop over the ordered rules.
unfoldable pub apply_rules : PricingContext → ℤ → ℕ → List PricingRule → Found → Result Found
unfolding matches apply_effect
apply_rules ctx base quantity [] s = ok s
apply_rules ctx base quantity (rule ∷ rules) s = do
  hit ← matches rule ctx base
  next ← apply_if hit base quantity rule s
  apply_rules ctx base quantity rules next

abbrev pub or_zero : Option ℤ → ℤ
or_zero none = pos 0
or_zero (some z) = z

abbrev pub floored : ℤ → ℤ → ℤ
floored at total = if ltb_ℤ (pos 0) at && ltb_ℤ total at then at else total

-- The total of what the loop has found.
unfoldable pub total_of : ℤ → Found → ℤ
unfolding ◌+ℤ◌
total_of base s =
    max_ℤ (floored s.floor_at (base +ℤ (or_zero s.markup +ℤ or_zero s.surcharge))) (pos 0)

abbrev pub breakdown : ℤ → Found → PriceBreakdown
breakdown base s = record {
  base = format_decimal base;
  markup = format_decimal (or_zero s.markup);
  surcharge = format_decimal (or_zero s.surcharge);
  total = format_decimal (total_of base s);
  applied = s.applied;
}

-- `price`, once it is known whether the quantity is less than 1.
unfoldable pub price_by : Bool → List PricingRule → PricingContext → Text → Result PriceBreakdown
unfolding parse_decimal ◌*ℤ◌ sort_rules apply_rules format_decimal total_of
price_by true rules ctx base = throw invalid_quantity
price_by false rules ctx base = do
  unit ← parse_decimal base
  let minor = unit *ℤ pos (or_one ctx.quantity)
  s ← apply_rules ctx minor (or_one ctx.quantity) (sort_rules rules) nothing_found
  ok (breakdown minor s)

-- `price`
unfoldable pub price : List PricingRule → PricingContext → Text → Result PriceBreakdown
unfolding price_by
price rules ctx base = price_by (ltb (or_one ctx.quantity) 1) rules ctx base
