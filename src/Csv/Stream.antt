-- ===== src/Csv/Stream.antt =====
-- export/csvFormatter.ts: the export as a stream, against the export in one piece.
use native.Mathlib.Nat.{zero-add}
use mathlib.Core.List.{append_assoc}
use accensa_app.Prelude.{
  ℕ, ◌+◌, ◌≤◌, ◌<◌, ◌≡◌, refl, sym, Bool, false, List, [], ◌∷◌, ◌++◌, map, Option, none, some,
  arith, leb, length, length-append, if◌then◌else◌, ap₂, subst,
}
use accensa_app.Prelude.Text.{codes}
use accensa_app.Prelude.Decimal.{to_digits}
use accensa_app.Csv.{Text, CsvPayment, csv_bom, to_csv_row, cells_of, join_rows, payments_to_csv}
use accensa_app.Csv.Formatter.{
  stream_headers, format_csv_row, stream_headers-headers, format_csv_row-cells_of,
}

-- What one call of the generator's `next` does.
pub data Next : Type 0 where
  chunk : List CsvPayment → Next
  done : Next
  fails : Next

abbrev pub is_capped : Option ℕ → ℕ → Bool
is_capped none written = false
is_capped (some cap) written = leb cap written

abbrev cap_text : Option ℕ → Text
cap_text none = []
cap_text (some cap) = to_digits cap

abbrev pub cap_row : Option ℕ → Text
cap_row cap = to_csv_row (codes "# EXPORT ROW CAP REACHED" ∷ cap_text cap ∷ []) ++ 13 ∷ 10 ∷ []

abbrev pub error_row : Text
error_row =
    to_csv_row (codes "# EXPORT ERROR" ∷ codes "The export could not be completed" ∷ [])
    ++ 13 ∷ 10 ∷ []

-- What the calls of `pull` put out, after so many rows; the stream closes when the generator is done,
-- fails, or the cap is reached, and waits where the calls stop.
unfoldable pub pull_all : Option ℕ → ℕ → List Next → Text
unfolding to_csv_row format_csv_row join_rows to_digits
pull_all cap written [] = []
pull_all cap written (done ∷ calls) = []
pull_all cap written (fails ∷ calls) = error_row
pull_all cap written (chunk payments ∷ calls) =
    let rest = pull_all cap (written + length payments) calls in
    join_rows (map format_csv_row payments)
    ++ (if is_capped cap (written + length payments) then cap_row cap else rest)

-- `createCsvStream`
unfoldable pub csv_stream : Option ℕ → List Next → Text
unfolding pull_all to_csv_row
csv_stream cap calls = csv_bom ++ (to_csv_row stream_headers ++ (13 ∷ 10 ∷ pull_all cap 0 calls))

abbrev pub chunks : List (List CsvPayment) → List Next
chunks [] = done ∷ []
chunks (payments ∷ rest) = chunk payments ∷ chunks rest

abbrev pub concat : List (List CsvPayment) → List CsvPayment
concat [] = []
concat (payments ∷ rest) = payments ++ concat rest

-- The cap is above the number.
abbrev pub IsBelow : Option ℕ → ℕ → Type 0
IsBelow none n = Unit
IsBelow (some cap) n = n < cap

-- The rows of a chunk, before those of the rest.
join_rows-append :
    (xs ys : List CsvPayment)
    → join_rows (map format_csv_row xs) ++ join_rows (map (λ p. to_csv_row (cells_of p)) ys)
      ≡ join_rows (map (λ p. to_csv_row (cells_of p)) (xs ++ ys))
unfolding join_rows
join_rows-append [] ys = refl
join_rows-append (x ∷ xs) ys =
    rw (← join_rows-append xs ys, format_csv_row-cells_of x)
      (append_assoc (to_csv_row (cells_of x)) (13 ∷ 10 ∷ join_rows (map format_csv_row xs))
        (join_rows (map (λ p. to_csv_row (cells_of p)) ys)))

IsBelow-capped : (cap : Option ℕ) (m n : ℕ) → m ≤ n → IsBelow cap n → is_capped cap m ≡ false
IsBelow-capped none m n h k = refl
IsBelow-capped (some cap) m n h k = ground arith

length-concat-le :
    (xs : List CsvPayment) (rest : List (List CsvPayment)) (w : ℕ)
    → w + length (concat (xs ∷ rest)) ≡ w + length xs + length (concat rest)
length-concat-le xs rest w = omega (arith, length-append xs (concat rest))

pull_all-chunks :
    (cap : Option ℕ) (written : ℕ) (parts : List (List CsvPayment))
    → IsBelow cap (written + length (concat parts))
    → pull_all cap written (chunks parts)
      ≡ join_rows (map (λ p. to_csv_row (cells_of p)) (concat parts))
unfolding pull_all
pull_all-chunks cap written [] h = refl
pull_all-chunks cap written (xs ∷ parts) h =
    let below = subst (IsBelow cap) (length-concat-le xs parts written) h in
    let open_ : is_capped cap (written + length xs) ≡ false =
      IsBelow-capped cap (written + length xs) _ (omega arith) below in
    rw (open_, pull_all-chunks cap (written + length xs) parts below)
      (join_rows-append xs (concat parts))

-- An export that is streamed in any chunks and stays under its cap, if it has one, is the byte order
-- mark and then the export in one piece.
pub csv_stream-payments_to_csv :
    (cap : Option ℕ) (parts : List (List CsvPayment))
    → IsBelow cap (length (concat parts))
    → csv_stream cap (chunks parts) ≡ csv_bom ++ payments_to_csv (concat parts)
unfolding csv_stream payments_to_csv join_rows
csv_stream-payments_to_csv cap parts h =
    ap₂ (λ h. λ t. csv_bom ++ (h ++ (13 ∷ 10 ∷ t))) stream_headers-headers
      (pull_all-chunks cap 0 parts (subst (IsBelow cap) (sym (zero-add (length (concat parts)))) h))
