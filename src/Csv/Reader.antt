-- ===== src/Csv/Reader.antt =====
-- A reader of CSV text as RFC 4180 has it, and what it reads of an export.
use mathlib.Core.List.{append_assoc, append-nil}
use accensa_app.Prelude.{
  ℕ, ◌≡◌, refl, ◌∙◌, true, false, not, ◌||◌, List, [], ◌∷◌, ◌++◌, map, arith, ◌==◌, if◌then◌else◌,
  Bool-cases, inl, inr, ap, subst, eq_of_==,
}
use accensa_app.Prelude.Text.{same_text, trim_codes}
use accensa_app.Csv.{
  Text, CsvPayment, headers, has_special, double_quotes, escape_csv_field, to_csv_row, cells_of,
  join_rows, payments_to_csv,
}

-- Where the reader stands: at the start of a field, in a bare one, in a quoted one, after a quote in
-- it, or after a carriage return.
pub data Mode : Type 0 where
  start bare quoted closing ending : Mode

-- The rows of a text, after those read: the mode, the field so far and the row so far.
unfoldable pub read_rows : Mode → Text → List Text → Text → List (List Text)
read_rows mode field row [] = []
read_rows quoted field row (c ∷ cs) =
    let close = read_rows closing field row cs in
    let more = read_rows quoted (field ++ c ∷ []) row cs in if c == 34 then close else more
read_rows ending field row (c ∷ cs) =
    let line = (row ++ field ∷ []) ∷ read_rows start [] [] cs in if c == 10 then line else []
read_rows closing field row (c ∷ cs) =
    let quote = read_rows quoted (field ++ 34 ∷ []) row cs in
    let cell = read_rows start [] (row ++ field ∷ []) cs in
    let line = read_rows ending field row cs in
    if c == 34 then quote else (if c == b',' then cell else (if c == 13 then line else []))
read_rows start field row (c ∷ cs) =
    let quote = read_rows quoted field row cs in
    let cell = read_rows start [] (row ++ field ∷ []) cs in
    let line = read_rows ending field row cs in
    let more = read_rows bare (field ++ c ∷ []) row cs in
    if c == 34 then quote else (if c == b',' then cell else (if c == 13 then line else more))
read_rows bare field row (c ∷ cs) =
    let cell = read_rows start [] (row ++ field ∷ []) cs in
    let line = read_rows ending field row cs in
    let more = read_rows bare (field ++ c ∷ []) row cs in
    if c == b',' then cell else (if c == 13 then line else more)

-- `RFC 4180`
pub read_csv : Text → List (List Text)
read_csv text = read_rows start [] [] text

read-quoted :
    (value field : Text) (row : List Text) (rest : Text)
    → read_rows quoted field row (double_quotes value ++ 34 ∷ rest)
      ≡ read_rows closing (field ++ value) row rest
unfolding read_rows double_quotes
read-quoted [] field row rest = rw (append-nil field) refl
read-quoted (c ∷ cs) field row rest =
    let next =
      read-quoted cs (field ++ c ∷ []) row rest
      ∙ ap (λ f. read_rows closing f row rest) (append_assoc field (c ∷ []) cs) in
    elim (Bool-cases (c == 34)) [
      | inl quote ↦ rw quote (
          subst
            (λ d.
              read_rows quoted (field ++ d ∷ []) row (double_quotes cs ++ 34 ∷ rest)
              ≡ read_rows closing (field ++ c ∷ cs) row rest)
            (eq_of_== c 34 quote) next)
      | inr plain ↦ rw (plain, plain) next
    ]

read-bare :
    (value field : Text) (row : List Text) (rest : Text)
    → has_special value ≡ false
    → read_rows bare field row (value ++ rest) ≡ read_rows bare (field ++ value) row rest
unfolding read_rows has_special
read-bare [] field row rest h = rw (append-nil field) refl
read-bare (c ∷ cs) field row rest h =
    let comma : (c == b',') ≡ false = ground arith in
    let line : (c == 13) ≡ false = ground arith in
    rw (comma, line)
      (read-bare cs (field ++ c ∷ []) row rest (ground arith)
        ∙ ap (λ f. read_rows bare f row rest) (append_assoc field (c ∷ []) cs))

read-bare_start :
    (value : Text) (row : List Text) (c : ℕ) (rest : Text)
    → has_special value ≡ false
    → (c == b',' || c == 13) ≡ true
    → read_rows start [] row (value ++ c ∷ rest) ≡ read_rows bare value row (c ∷ rest)
unfolding read_rows has_special
read-bare_start [] row c rest h k =
    let other : (c == 34) ≡ false = ground arith in rw other (ground arith)
read-bare_start (d ∷ cs) row c rest h k =
    let quote : (d == 34) ≡ false = ground arith in
    let comma : (d == b',') ≡ false = ground arith in
    let line : (d == 13) ≡ false = ground arith in
    rw (quote, comma, line) (read-bare cs (d ∷ []) row (c ∷ rest) (ground arith))

closing-bare :
    (field : Text) (row : List Text) (c : ℕ) (rest : Text)
    → (c == b',' || c == 13) ≡ true
    → read_rows closing field row (c ∷ rest) ≡ read_rows bare field row (c ∷ rest)
unfolding read_rows
closing-bare field row c rest k =
    let other : (c == 34) ≡ false = ground arith in rw other (ground arith)

read-escape_quoted :
    (value : Text) (row : List Text) (c : ℕ) (rest : Text)
    → (c == b',' || c == 13) ≡ true
    → read_rows start [] row ((34 ∷ (double_quotes value ++ 34 ∷ [])) ++ c ∷ rest)
      ≡ read_rows bare value row (c ∷ rest)
unfolding read_rows
read-escape_quoted value row c rest k =
    rw (append_assoc (double_quotes value) (34 ∷ []) (c ∷ rest))
      (read-quoted value [] row (c ∷ rest) ∙ closing-bare value row c rest k)

-- An escaped field is read as the field.
read-escape :
    (value : Text) (row : List Text) (c : ℕ) (rest : Text)
    → (c == b',' || c == 13) ≡ true
    → read_rows start [] row (escape_csv_field value ++ c ∷ rest)
      ≡ read_rows bare value row (c ∷ rest)
unfolding escape_csv_field
read-escape value row c rest k =
    elim (Bool-cases (has_special value || not (same_text value (trim_codes value)))) [
      | inl quotes ↦ rw quotes (read-escape_quoted value row c rest k)
      | inr plain ↦ rw plain (read-bare_start value row c rest (ground arith) k)
    ]

read-row :
    (cell : Text) (cells row : List Text) (rest : Text)
    → read_rows start [] row (to_csv_row (cell ∷ cells) ++ (13 ∷ 10 ∷ rest))
      ≡ (row ++ cell ∷ cells) ∷ read_csv rest
unfolding to_csv_row read_csv read_rows
read-row cell [] row rest = read-escape cell row 13 (10 ∷ rest) refl
read-row cell (next ∷ cells) row rest =
    rw (append_assoc (escape_csv_field cell) (b',' ∷ to_csv_row (next ∷ cells)) (13 ∷ 10 ∷ rest)) (
      read-escape cell row b',' (to_csv_row (next ∷ cells) ++ (13 ∷ 10 ∷ rest)) refl
      ∙ read-row next cells (row ++ cell ∷ []) rest
      ∙ ap (λ r. r ∷ read_csv rest) (append_assoc row (cell ∷ []) (next ∷ cells)))

read-payments :
    (payments : List CsvPayment)
    → read_csv (join_rows (map (λ p. to_csv_row (cells_of p)) payments)) ≡ map cells_of payments
unfolding read_csv join_rows cells_of read_rows
read-payments [] = refl
read-payments (p ∷ payments) =
    read-row _ _ [] (join_rows (map (λ p. to_csv_row (cells_of p)) payments))
    ∙ ap (λ rows. cells_of p ∷ rows) (read-payments payments)

-- A reader of RFC 4180 gets the header row and the cells of every payment out of an export, whatever
-- quotes, commas, spaces or line breaks the fields hold.
pub read_csv-payments_to_csv :
    (payments : List CsvPayment)
    → read_csv (payments_to_csv payments) ≡ headers ∷ map cells_of payments
unfolding payments_to_csv join_rows read_csv
read_csv-payments_to_csv payments =
    read-row _ _ [] (join_rows (map (λ p. to_csv_row (cells_of p)) payments))
    ∙ ap (λ rows. headers ∷ rows) (read-payments payments)
