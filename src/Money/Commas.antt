-- ===== src/Money/Commas.antt =====
-- Texts without the commas that group their digits.
use accensa_app.Prelude.{
  ◌%◌, ◌≡◌, refl, true, false, [], ◌∷◌, ◌++◌, arith, length, all, ◌==◌, if◌then◌else◌, Bool-cases,
  inl, inr, ap,
}
use accensa_app.Prelude.Text.{is_digit}
use accensa_app.Money.{Text, group_digits}

-- The text without its commas.
unfoldable pub without_commas : Text → Text
without_commas [] = []
without_commas (c ∷ cs) = let rest = without_commas cs in if c == b',' then rest else c ∷ rest

pub without_commas-append :
    (xs ys : Text) → without_commas (xs ++ ys) ≡ without_commas xs ++ without_commas ys
unfolding without_commas
without_commas-append [] ys = refl
without_commas-append (x ∷ xs) ys = elim (Bool-cases (x == b',')) [
  | inl comma ↦ rw comma (without_commas-append xs ys)
  | inr other ↦ rw other (ap (λ t. x ∷ t) (without_commas-append xs ys))
]

pub without_commas-digits : (cs : Text) → all is_digit cs ≡ true → without_commas cs ≡ cs
unfolding without_commas
without_commas-digits [] h = refl
without_commas-digits (c ∷ cs) h =
    let other : (c == b',') ≡ false = ground arith in
    rw other (ap (λ t. c ∷ t) (without_commas-digits cs (ground arith)))

pub without_commas-group :
    (cs : Text) → all is_digit cs ≡ true → without_commas (group_digits cs) ≡ cs
unfolding without_commas group_digits
without_commas-group [] h = refl
without_commas-group (c ∷ []) h = without_commas-digits (c ∷ []) h
without_commas-group (c ∷ d ∷ cs) h =
    let other : (c == b',') ≡ false = ground arith in
    let rest = without_commas-group (d ∷ cs) (ground arith) in
    elim (Bool-cases (length (d ∷ cs) % 3 == 0)) [
      | inl third ↦ rw (third, other) (ap (λ t. c ∷ t) rest)
      | inr between ↦ rw (between, other) (ap (λ t. c ∷ t) rest)
    ]
