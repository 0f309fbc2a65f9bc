-- ===== src/Money/Tests.antt =====
-- Amounts of money, and the theorems at them.
use accensa_app.Prelude.{◌≡◌, refl, List, [], ◌∷◌, ◌++◌, some, none}
use accensa_app.Prelude.Text.{codes}
use accensa_app.Prelude.Int.{negsuc, ◌+ℤ◌}
use accensa_app.Money.{Text, to_stroops, from_stroops, sum_amounts, format_amount}
use accensa_app.Money.RoundTrip.{to_stroops-from_stroops}
use accensa_app.Money.Totals.{total, sum_amounts-total}
use accensa_app.Money.Commas.{without_commas}
use accensa_app.Money.Display.{to_stroops-format_amount}

negative_amount : to_stroops (codes " -12.5") ≡ some (negsuc 124999999)
unfolding to_stroops
negative_amount = refl

no_amount : to_stroops (codes "1,5") ≡ none
unfolding to_stroops
no_amount = refl

shown_amount : format_amount (codes "-1234567.5") 2 ≡ codes "-1,234,567.50"
unfolding format_amount
shown_amount = refl

to_stroops-from_stroops_example : to_stroops (from_stroops (negsuc 4)) ≡ some (negsuc 4)
to_stroops-from_stroops_example = to_stroops-from_stroops (negsuc 4)

abbrev cart : List Text
cart = codes "1.5" ∷ codes "x" ∷ []

sum_amounts-total_example :
    (to_stroops (sum_amounts cart) ≡ some (total cart))
    × (to_stroops (sum_amounts (cart ++ cart)) ≡ some (total cart +ℤ total cart))
sum_amounts-total_example = sum_amounts-total cart cart

to_stroops-format_amount_example :
    to_stroops (without_commas (format_amount (codes " -12.5") 3)) ≡ some (negsuc 124999999)
to_stroops-format_amount_example =
    to_stroops-format_amount (codes " -12.5") 3 (negsuc 124999999) negative_amount
