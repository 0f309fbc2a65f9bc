-- ===== src/Csv/Formatter.antt =====
-- export/csvFormatter.ts: its own header row, neutralizeFormula and formatCsvRow.
use accensa_app.Prelude.{Bool, false, ◌||◌, List, [], ◌∷◌, ◌≡◌, refl, ◌==◌, if◌then◌else◌}
use accensa_app.Prelude.Text.{codes}
use accensa_app.Prelude.Decimal.{to_digits}
use accensa_app.Csv.{
  Text, CsvPayment, headers, neutralize_formula, to_csv_row, asset_label, or_text, ledger_text,
  cells_of,
}

-- HEADERS
abbrev pub stream_headers : List Text
stream_headers =
    codes "Transaction Hash"
    ∷ codes "Timestamp"
    ∷ codes "Amount"
    ∷ codes "Asset"
    ∷ codes "Asset Identifier"
    ∷ codes "Payer"
    ∷ codes "Route"
    ∷ codes "Method"
    ∷ codes "Ledger"
    ∷ codes "Refunded"
    ∷ []

abbrev is_formula : Text → Bool
is_formula [] = false
is_formula (c ∷ cs) = c == b'=' || c == b'+' || c == b'-' || c == b'@' || c == 9 || c == 13

-- `neutralizeFormula`
unfoldable pub neutralize_cell : Text → Text
neutralize_cell value = if is_formula value then 39 ∷ value else value

-- `formatCsvRow`
unfoldable pub format_csv_row : CsvPayment → Text
unfolding to_csv_row neutralize_cell asset_label to_digits
format_csv_row p = to_csv_row (
    neutralize_cell p.tx_hash
    ∷ p.ts
    ∷ p.amount
    ∷ asset_label p.asset
    ∷ neutralize_cell (or_text p.asset (codes "native"))
    ∷ neutralize_cell p.payer
    ∷ neutralize_cell (or_text p.route [])
    ∷ neutralize_cell (or_text p.method [])
    ∷ ledger_text p.ledger
    ∷ (if p.refunded then codes "Yes" else [])
    ∷ [])

pub stream_headers-headers : to_csv_row stream_headers ≡ to_csv_row headers
stream_headers-headers = refl

neutralize_cell-neutralize_formula :
    (value : Text) → neutralize_cell value ≡ neutralize_formula value
unfolding neutralize_cell neutralize_formula
neutralize_cell-neutralize_formula [] = refl
neutralize_cell-neutralize_formula (c ∷ cs) = refl

-- The row of the stream is the row of the export in one piece.
pub format_csv_row-cells_of : (p : CsvPayment) → format_csv_row p ≡ to_csv_row (cells_of p)
unfolding format_csv_row cells_of
format_csv_row-cells_of p =
    rw
      (
        neutralize_cell-neutralize_formula p.tx_hash,
        neutralize_cell-neutralize_formula (or_text p.asset (codes "native")),
        neutralize_cell-neutralize_formula p.payer,
        neutralize_cell-neutralize_formula (or_text p.route []),
        neutralize_cell-neutralize_formula (or_text p.method []),
      )
      refl
