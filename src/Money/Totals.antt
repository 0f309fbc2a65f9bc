-- ===== src/Money/Totals.antt =====
-- The sum of amounts, against the sum of what they are read as.
use accensa_app.Prelude.{◌≡◌, refl, sym, List, [], ◌∷◌, ◌++◌, Option, none, some}
use accensa_app.Prelude.Int.{ℤ, pos, ◌+ℤ◌, +ℤ_assoc, zero_add, int_laws}
use accensa_app.Money.{Text, add_parsed, to_stroops, sum_from, sum_amounts}
use accensa_app.Money.RoundTrip.{to_stroops-from_stroops}

-- What a text adds to a sum: nothing if it is not an amount.
abbrev pub value : Option ℤ → ℤ
value none = pos 0
value (some z) = z

unfoldable pub total : List Text → ℤ
total [] = pos 0
total (amount ∷ amounts) = value (to_stroops amount) +ℤ total amounts

add_parsed-value : (z : ℤ) (o : Option ℤ) → add_parsed z o ≡ z +ℤ value o
add_parsed-value z none = omega int_laws
add_parsed-value z (some y) = refl

sum_from-total : (z : ℤ) (amounts : List Text) → sum_from z amounts ≡ z +ℤ total amounts
unfolding sum_from total
sum_from-total z [] = omega int_laws
sum_from-total z (amount ∷ amounts) =
    rw
      (
        sum_from-total (add_parsed z (to_stroops amount)) amounts,
        add_parsed-value z (to_stroops amount),
      )
      (+ℤ_assoc z (value (to_stroops amount)) (total amounts))

total-append : (xs ys : List Text) → total (xs ++ ys) ≡ total xs +ℤ total ys
unfolding total
total-append [] ys = omega int_laws
total-append (x ∷ xs) ys =
    rw (total-append xs ys) (sym (+ℤ_assoc (value (to_stroops x)) (total xs) (total ys)))

-- `sumAmounts` prints a text that is read as the sum of the amounts that can be read, and the sums of
-- two lists add up to that of the lists put together.
pub sum_amounts-total :
    (xs ys : List Text)
    → (to_stroops (sum_amounts xs) ≡ some (total xs))
      × (to_stroops (sum_amounts (xs ++ ys)) ≡ some (total xs +ℤ total ys))
unfolding sum_amounts
sum_amounts-total xs ys = (
  rw (to_stroops-from_stroops (sum_from (pos 0) xs), sum_from-total (pos 0) xs, zero_add (total xs))
      refl,
  rw
      (
        to_stroops-from_stroops (sum_from (pos 0) (xs ++ ys)),
        sum_from-total (pos 0) (xs ++ ys),
        zero_add (total (xs ++ ys)),
        total-append xs ys,
      )
      refl,
)
