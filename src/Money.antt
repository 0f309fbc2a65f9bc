-- ===== src/Money.antt =====
-- apps/web/src/lib/money.ts. A text is the list of its code points, and a bigint is an integer.
pub mod RoundTrip
pub mod Totals
pub mod Commas
pub mod Display
mod Tests
use accensa_app.Prelude.{
  ℕ, zero, suc, ◌+◌, ◌-◌, ◌*◌, ◌/◌, ◌%◌, Bool, true, false, ◌&&◌, List, [], ◌∷◌, ◌++◌, Option, none,
  some, length, all, take, copies, ◌==◌, if◌then◌else◌, ltb,
}
use accensa_app.Prelude.Text.{is_digit, trim_codes}
use accensa_app.Prelude.Int.{ℤ, pos, with_sign, is_negative, abs, ◌+ℤ◌}
use accensa_app.Prelude.Decimal.{number_from, to_digits, pad_start, span_digits}

abbrev pub Text : Type 0
Text = List ℕ

abbrev pub scale : ℕ
scale = 7

abbrev pub scale_factor : ℕ
scale_factor = 10000000

-- The groups `(\d+)(?:\.(\d*))?$` of a match: the whole part and the fraction.
abbrev match_fraction : Text → Text → Option (Text × Text)
match_fraction whole [] = some (whole, [])
match_fraction whole (c ∷ frac) =
    if c == b'.' && all is_digit frac then some (whole, frac) else none

abbrev match_parts : Text × Text → Option (Text × Text)
match_parts ([], rest) = none
match_parts (c ∷ whole, rest) = match_fraction (c ∷ whole) rest

-- The value of the groups in stroops.
unfoldable pub magnitude : Text × Text → ℕ
unfolding number_from
magnitude (whole, frac) =
    number_from 0 whole * scale_factor + number_from 0 (take scale (frac ++ copies scale b'0'))

abbrev pub signed_value : Bool → Option (Text × Text) → Option ℤ
signed_value negative none = none
signed_value negative (some groups) = some (with_sign negative (magnitude groups))

unfoldable pub parse_signed : Text → Option ℤ
unfolding span_digits magnitude
parse_signed [] = none
parse_signed (c ∷ cs) =
    if c == b'-'
    then signed_value true (match_parts (span_digits cs))
    else signed_value false (match_parts (span_digits (c ∷ cs)))

-- `toStroops`
unfoldable pub to_stroops : Text → Option ℤ
unfolding trim_codes parse_signed
to_stroops amount = parse_signed (trim_codes amount)

abbrev pub sign_text : Bool → Text
sign_text true = b'-' ∷ []
sign_text false = []

-- `fromStroops`
unfoldable pub from_stroops : ℤ → Text
unfolding to_digits
from_stroops stroops =
    sign_text (is_negative stroops)
    ++ (to_digits (abs stroops / scale_factor)
        ++ b'.' ∷ pad_start scale (to_digits (abs stroops % scale_factor)))

abbrev pub add_parsed : ℤ → Option ℤ → ℤ
add_parsed total none = total
add_parsed total (some stroops) = total +ℤ stroops

unfoldable pub sum_from : ℤ → List Text → ℤ
unfolding to_stroops ◌+ℤ◌
sum_from total [] = total
sum_from total (amount ∷ amounts) = sum_from (add_parsed total (to_stroops amount)) amounts

-- `sumAmounts`
unfoldable pub sum_amounts : List Text → Text
unfolding sum_from from_stroops
sum_amounts amounts = from_stroops (sum_from (pos 0) amounts)

-- `replace(/0+$/, '')`
abbrev drop_zero : ℕ → Text → Text
drop_zero c [] = if c == b'0' then [] else c ∷ []
drop_zero c (d ∷ cs) = c ∷ d ∷ cs

unfoldable pub drop_zeros : Text → Text
drop_zeros [] = []
drop_zeros (c ∷ cs) = drop_zero c (drop_zeros cs)

-- `padEnd(width, '0')`
abbrev pub pad_end : ℕ → Text → Text
pad_end width cs = cs ++ copies (width - length cs) b'0'

-- `replace(/\B(?=(\d{3})+(?!\d))/g, ',')` on digits: a comma wherever the digits after it are a
-- multiple of three, but for the start and the end.
unfoldable pub group_digits : Text → Text
group_digits [] = []
group_digits (c ∷ []) = c ∷ []
group_digits (c ∷ d ∷ cs) =
    let rest = group_digits (d ∷ cs) in
    if length (d ∷ cs) % 3 == 0 then c ∷ b',' ∷ rest else c ∷ rest

abbrev pub point : Text → Text
point [] = []
point (c ∷ cs) = b'.' ∷ c ∷ cs

-- The display of a sign, a whole part and a fraction.
unfoldable pub display : ℕ → Bool → Text → Text → Text
unfolding group_digits drop_zeros
display min_decimals negative whole frac =
    let trimmed = drop_zeros frac in
    sign_text negative
    ++ (group_digits whole
        ++ point
            (if ltb (length trimmed) min_decimals then pad_end min_decimals trimmed else trimmed))

-- `formatAmount`, with the parts that the split of `fixed` gives.
unfoldable pub format_amount : Text → ℕ → Text
unfolding to_stroops display to_digits
format_amount amount min_decimals = elim (to_stroops amount) [
  | none ↦ amount
  | some z ↦
      display min_decimals (is_negative z) (to_digits (abs z / scale_factor))
        (pad_start scale (to_digits (abs z % scale_factor)))
]
