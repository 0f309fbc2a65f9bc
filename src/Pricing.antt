-- ===== src/Pricing.antt =====
-- apps/web/src/lib/pricing/engine.ts: the types, and the decimals that it computes with.
pub mod Engine
pub mod Decimals
mod Tests
use accensa_app.Prelude.{
  ℕ, zero, suc, ◌+◌, ◌*◌, ◌/◌, ◌%◌, ◌^◌, ◌≡◌, refl, String, Bool, true, false, ◌&&◌, List, [], ◌∷◌,
  ◌++◌, Option, none, some, length, all, take, copies, ◌==◌, if◌then◌else◌,
}
use accensa_app.Prelude.Text.{is_digit}
use accensa_app.Prelude.Int.{ℤ, pos, with_sign, is_negative, abs, ◌*ℤ◌, ◌/ℤ◌}
use accensa_app.Prelude.Decimal.{number_from, to_digits, pad_start, span_digits}
use accensa_app.Money.{Text, sign_text, drop_zeros, point}

pub data GeoRegion : Type 0 where
  auto na eu apac latam africa other : GeoRegion

pub data HttpMethod : Type 0 where
  get post put patch delete head options : HttpMethod

pub data Effect : Type 0 where
  markup_pct : Text → Effect
  markup_fixed : Text → Effect
  surcharge_pct : Text → Effect
  surcharge_fixed : Text → Effect
  floor : Text → Effect

-- The conditions of a rule; all absent where the rule has no `match`.
pub record Match : Type 0 where
  pub geo : Option GeoRegion
  pub http_method : Option HttpMethod
  pub route_prefix : Option Text
  pub min_quantity : Option ℕ
  pub max_quantity : Option ℕ
  pub min_base : Option Text
  pub max_base : Option Text

pub record PricingRule : Type 0 where
  pub name : Text
  pub priority : ℤ
  pub conditions : Match
  pub effect : Effect

pub record PricingContext : Type 0 where
  pub merchant : Text
  pub route : Option Text
  pub http_method : Option HttpMethod
  pub quantity : Option ℕ
  pub geo : Option GeoRegion

-- An applied rule is its name and its effect, which the source prints as JSON.
pub record PriceBreakdown : Type 0 where
  pub base : Text
  pub markup : Text
  pub surcharge : Text
  pub total : Text
  pub applied : List (Text × Effect)

pub data PriceError : Type 0 where
  invalid_decimal invalid_quantity : PriceError

pub data Result (A : Type 0) : Type 0 where
  ok : A → Result A
  throw : PriceError → Result A

infixl 5 ◌>>=◌
abbrev pub ◌>>=◌ : {A B : Type 0} → Result A → (A → Result B) → Result B
ok a >>= f = f a
throw e >>= f = throw e

pub ok_injective : {A : Type 0} {a b : A} → ◌≡◌ {A = Result A} (ok a) (ok b) → a ≡ b
ok_injective e = cc

-- A chain that returns has a first step that returns.
pub bind_ok :
    {A B : Type 0} {b : B} (r : Result A) (f : A → Result B)
    → (r >>= f) ≡ ok b
    → (a : A) × (r ≡ ok a) × (f a ≡ ok b)
bind_ok (ok a) f e = (a, refl, e)
bind_ok (throw x) f e = absurd (cc)

abbrev pub price_scale : ℕ
price_scale = 7

-- The integer of the whole part and the padded fraction, one after the other.
unfoldable pub minor_units : Text → Text → ℕ
unfolding number_from
minor_units whole frac = number_from 0 (whole ++ take price_scale (frac ++ copies price_scale b'0'))

abbrev decimal_fraction : Bool → Text → Text → Result ℤ
decimal_fraction negative whole [] = ok (with_sign negative (minor_units whole []))
decimal_fraction negative whole (c ∷ []) = throw invalid_decimal
decimal_fraction negative whole (c ∷ d ∷ frac) =
    if c == b'.' && all is_digit (d ∷ frac)
    then ok (with_sign negative (minor_units whole (d ∷ frac)))
    else throw invalid_decimal

abbrev pub decimal_parts : Bool → Text × Text → Result ℤ
decimal_parts negative ([], rest) = throw invalid_decimal
decimal_parts negative (c ∷ whole, rest) = decimal_fraction negative (c ∷ whole) rest

-- `parseDecimal`
unfoldable pub parse_decimal : Text → Result ℤ
unfolding span_digits minor_units
parse_decimal [] = throw invalid_decimal
parse_decimal (c ∷ cs) =
    if c == b'-'
    then decimal_parts true (span_digits cs)
    else decimal_parts false (span_digits (c ∷ cs))

-- `formatDecimal`: the last seven digits of the padded text are those below 10 ^ 7, and the others, of
-- which there is at least one, those above.
unfoldable pub format_decimal : ℤ → Text
unfolding to_digits drop_zeros
format_decimal value =
    sign_text (is_negative value)
    ++ (to_digits (abs value / 10000000)
        ++ point (drop_zeros (pad_start price_scale (to_digits (abs value % 10000000)))))

-- `multiplyPct`
unfoldable pub multiply_pct : ℤ → Text → Result ℤ
unfolding parse_decimal ◌*ℤ◌ ◌/ℤ◌
multiply_pct base percent = do p ← parse_decimal percent; ok (base *ℤ p /ℤ 1000000000)
