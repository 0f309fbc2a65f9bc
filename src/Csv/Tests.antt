-- ===== src/Csv/Tests.antt =====
-- Two payments in an export.
use accensa_app.Prelude.{◌≡◌, refl, true, false, [], ◌∷◌, ◌++◌, map, none, some, arith}
use accensa_app.Prelude.Text.{codes}
use accensa_app.Csv.{
  CsvPayment, csv_bom, headers, cells_of, escape_csv_field, payments_to_csv, asset_label,
  payments_csv_filename,
}
use accensa_app.Csv.Reader.{read_csv, read_csv-payments_to_csv}
use accensa_app.Csv.Stream.{chunks, concat, csv_stream, csv_stream-payments_to_csv}

abbrev plain_payment : CsvPayment
plain_payment = record {
  tx_hash = codes "ab";
  ledger = some 71;
  payer = codes "GA";
  amount = codes "-1.5";
  asset = some (codes "USDC:GB");
  ts = codes "2026-01-01";
  route = some (codes "=A1, or \"x\"");
  method = none;
  refunded = true;
}

abbrev bare_payment : CsvPayment
bare_payment = record plain_payment { route = none; asset = none; ledger = none; refunded = false }

quoted_field : escape_csv_field (codes "a,\"b\"") ≡ codes "\"a,\"\"b\"\"\""
unfolding escape_csv_field
quoted_field = refl

usdc_label : asset_label (some (codes "USDC:GB")) ≡ codes "USDC"
unfolding asset_label
usdc_label = refl

august_name : payments_csv_filename 2026 7 6 ≡ codes "accensa_payments_2026-08-06.csv"
unfolding payments_csv_filename
august_name = refl

read_csv-payments_to_csv_example :
    read_csv (payments_to_csv (plain_payment ∷ bare_payment ∷ []))
    ≡ headers ∷ map cells_of (plain_payment ∷ bare_payment ∷ [])
read_csv-payments_to_csv_example = read_csv-payments_to_csv (plain_payment ∷ bare_payment ∷ [])

csv_stream-payments_to_csv_example :
    csv_stream (some 3) (chunks ((plain_payment ∷ []) ∷ (bare_payment ∷ []) ∷ []))
    ≡ csv_bom ++ payments_to_csv (concat ((plain_payment ∷ []) ∷ (bare_payment ∷ []) ∷ []))
csv_stream-payments_to_csv_example =
    csv_stream-payments_to_csv (some 3) ((plain_payment ∷ []) ∷ (bare_payment ∷ []) ∷ [])
      (omega arith)
