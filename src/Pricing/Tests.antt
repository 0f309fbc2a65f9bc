-- ===== src/Pricing/Tests.antt =====
-- Prices, and the theorems at them.
use accensa_app.Prelude.{◌≡◌, refl, List, [], ◌∷◌, none, some}
use accensa_app.Prelude.Text.{codes}
use accensa_app.Prelude.Int.{pos, negsuc}
use accensa_app.Pricing.{
  parse_decimal, format_decimal, Match, markup_pct, markup_fixed, surcharge_fixed, floor,
  PricingRule, PricingContext, PriceBreakdown, ok, throw, invalid_decimal, eu,
}
use accensa_app.Pricing.Decimals.{parse_decimal-format_decimal}
use accensa_app.Pricing.Engine.{price}

abbrev always : Match
always = record {
  geo = none;
  http_method = none;
  route_prefix = none;
  min_quantity = none;
  max_quantity = none;
  min_base = none;
  max_base = none;
}

abbrev rules : List PricingRule
rules =
    record {
      name = codes "late";
      priority = pos 5;
      conditions = always;
      effect = markup_fixed (codes "9");
    }
    ∷ record {
      name = codes "tier";
      priority = pos 1;
      conditions = record always { min_quantity = some 2 };
      effect = markup_pct (codes "-50");
    }
    ∷ record {
      name = codes "eu";
      priority = pos 1;
      conditions = record always { geo = some eu; max_base = some (codes "4") };
      effect = surcharge_fixed (codes "0.25");
    }
    ∷ record {
      name = codes "least";
      priority = pos 0;
      conditions = always;
      effect = floor (codes "2.5");
    }
    ∷ []

abbrev pair_in_eu : PricingContext
pair_in_eu = record {
  merchant = codes "G";
  route = none;
  http_method = none;
  quantity = some 2;
  geo = some eu;
}

abbrev paid : PriceBreakdown
paid = record {
  base = codes "3";
  markup = codes "-1.5";
  surcharge = codes "0.5";
  total = codes "2.5";
  applied =
      (codes "tier", markup_pct (codes "-50")) ∷ (codes "eu", surcharge_fixed (codes "0.25")) ∷ [];
}

price-paid : price rules pair_in_eu (codes "1.5") ≡ ok paid
unfolding price
price-paid = refl

no_decimal : price rules pair_in_eu (codes "1.") ≡ throw invalid_decimal
unfolding price
no_decimal = refl

parse_decimal-format_decimal_example :
    parse_decimal (format_decimal (negsuc 12500000)) ≡ ok (negsuc 12500000)
parse_decimal-format_decimal_example = parse_decimal-format_decimal (negsuc 12500000)
