-- ===== src/Csv.antt =====
-- apps/web/src/lib/payments-csv.ts and export/csvFormatter.ts. A text is the list of its code points.
pub mod Reader
pub mod Formatter
pub mod Stream
mod Tests
use accensa_app.Prelude.{
  ℕ, ◌+◌, Bool, true, false, not, ◌&&◌, ◌||◌, List, [], ◌∷◌, ◌++◌, map, Option, none, some, ◌==◌,
  leb, if◌then◌else◌,
}
use accensa_app.Prelude.Text.{same_text, codes, trim_codes}
use accensa_app.Prelude.Decimal.{to_digits, pad_start}

abbrev pub Text : Type 0
Text = List ℕ

pub record CsvPayment : Type 0 where
  pub tx_hash : Text
  pub ledger : Option ℕ
  pub payer : Text
  pub amount : Text
  pub asset : Option Text
  pub ts : Text
  pub route : Option Text
  pub method : Option Text
  pub refunded : Bool

abbrev pub row_separator : Text
row_separator = 13 ∷ 10 ∷ []

abbrev pub csv_bom : Text
csv_bom = 0xfeff ∷ []

abbrev pub headers : List Text
headers =
    codes "Transaction Hash"
    ∷ codes "Timestamp"
    ∷ codes "Amount"
    ∷ codes "Asset"
    ∷ codes "Asset Identifier"
    ∷ codes "Payer"
    ∷ codes "Route"
    ∷ codes "Method"
    ∷ codes "Ledger"
    ∷ codes "Refunded"
    ∷ []

-- FORMULA_PREFIX
abbrev pub starts_formula : Text → Bool
starts_formula [] = false
starts_formula (c ∷ cs) = c == b'=' || c == b'+' || c == b'-' || c == b'@' || c == 9 || c == 13

-- `neutralizeFormula`
unfoldable pub neutralize_formula : Text → Text
neutralize_formula value = if starts_formula value then 39 ∷ value else value

-- A quote, a comma or a part of a line break.
abbrev pub is_special : ℕ → Bool
is_special c = c == 34 || c == b',' || c == 13 || c == 10

unfoldable pub has_special : Text → Bool
has_special [] = false
has_special (c ∷ cs) = is_special c || has_special cs

unfoldable pub double_quotes : Text → Text
double_quotes [] = []
double_quotes (c ∷ cs) = let rest = double_quotes cs in if c == 34 then 34 ∷ 34 ∷ rest else c ∷ rest

-- `escapeCsvField`
unfoldable pub escape_csv_field : Text → Text
unfolding has_special same_text trim_codes double_quotes
escape_csv_field value =
    if has_special value || not (same_text value (trim_codes value))
    then 34 ∷ (double_quotes value ++ 34 ∷ [])
    else value

-- `toCsvRow`
unfoldable pub to_csv_row : List Text → Text
unfolding escape_csv_field
to_csv_row [] = []
to_csv_row (cell ∷ []) = escape_csv_field cell
to_csv_row (cell ∷ next ∷ cells) = escape_csv_field cell ++ b',' ∷ to_csv_row (next ∷ cells)

abbrev pub or_text : Option Text → Text → Text
or_text none d = d
or_text (some t) d = t

-- `split(':')[0]`
unfoldable pub before_colon : Text → Text
before_colon [] = []
before_colon (c ∷ cs) = let rest = before_colon cs in if c == b':' then [] else c ∷ rest

abbrev label_of : Text → Text
label_of [] = codes "XLM"
label_of (c ∷ cs) =
    if same_text (c ∷ cs) (codes "native") then codes "XLM" else before_colon (c ∷ cs)

-- `assetLabel` of money.ts
unfoldable pub asset_label : Option Text → Text
unfolding same_text before_colon
asset_label none = codes "XLM"
asset_label (some asset) = label_of asset

abbrev pub ledger_text : Option ℕ → Text
ledger_text none = []
ledger_text (some n) = to_digits n

-- The cells of a payment.
unfoldable pub cells_of : CsvPayment → List Text
unfolding neutralize_formula asset_label to_digits
cells_of p =
    neutralize_formula p.tx_hash
    ∷ p.ts
    ∷ p.amount
    ∷ asset_label p.asset
    ∷ neutralize_formula (or_text p.asset (codes "native"))
    ∷ neutralize_formula p.payer
    ∷ neutralize_formula (or_text p.route [])
    ∷ neutralize_formula (or_text p.method [])
    ∷ ledger_text p.ledger
    ∷ (if p.refunded then codes "Yes" else [])
    ∷ []

-- Every row with its separator, which is the rows joined by it and one more at the end.
unfoldable pub join_rows : List Text → Text
join_rows [] = []
join_rows (row ∷ rows) = row ++ (13 ∷ 10 ∷ join_rows rows)

-- `paymentsToCsv`
unfoldable pub payments_to_csv : List CsvPayment → Text
unfolding join_rows to_csv_row cells_of
payments_to_csv payments =
    join_rows (to_csv_row headers ∷ map (λ p. to_csv_row (cells_of p)) payments)

-- `paymentsCsvFilename`, with the fields of the local date.
unfoldable pub payments_csv_filename : ℕ → ℕ → ℕ → Text
unfolding to_digits
payments_csv_filename year month day =
    codes "accensa_payments_"
    ++ (pad_start 4 (to_digits year)
        ++ (b'-'
            ∷ (pad_start 2 (to_digits (month + 1))
                ++ (b'-' ∷ (pad_start 2 (to_digits day) ++ codes ".csv")))))
