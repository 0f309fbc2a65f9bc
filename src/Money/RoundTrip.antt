-- ===== src/Money/RoundTrip.antt =====
-- Printing stroops and reading them back.
use accensa_app.Prelude.{
  ℕ, zero, suc, ◌-◌, ◌/◌, ◌%◌, ◌≤◌, ◌<◌, ◌≡◌, refl, Bool, true, false, not, ◌||◌, [], ◌∷◌, ◌++◌,
  some, arith, length, all, take, copies, ◌==◌, all-append, all-copies, length-append,
  length-copies, ap,
}
use accensa_app.Prelude.Text.{is_digit, is_space, trim_codes-plain}
use accensa_app.Prelude.Int.{ℤ, with_sign, is_negative, abs, with_sign-abs}
use accensa_app.Prelude.Decimal.{
  number_from, to_digits, pad_start, number_from-append, number_from-zeros, number_from-digits,
  digits-all, length-digits-pos, length-digits, span_digits-append,
}
use accensa_app.Money.{
  Text, scale, scale_factor, magnitude, parse_signed, to_stroops, sign_text, from_stroops,
}

-- Digits, a sign and a point are no white space.
abbrev pub is_plain : ℕ → Bool
is_plain c = is_digit c || c == b'-' || c == b'.'

plain_range : (c : ℕ) → is_plain c ≡ true → (45 ≤ c) × (c ≤ 57)
plain_range c h = ground arith

range-not_space : (c : ℕ) → 45 ≤ c → c ≤ 57 → is_space c ≡ false
unfolding is_space
range-not_space c h k = ground arith

plain-not_space : (cs : Text) → all is_plain cs ≡ true → all (λ c. not (is_space c)) cs ≡ true
plain-not_space [] h = refl
plain-not_space (c ∷ cs) h =
    let (low, high) = plain_range c (ground arith) in
    rw (range-not_space c low high) (plain-not_space cs (ground arith))

pub digits-plain : (cs : Text) → all is_digit cs ≡ true → all is_plain cs ≡ true
digits-plain [] h = refl
digits-plain (c ∷ cs) h = ground (arith, digits-plain cs)

pub take-append : (n : ℕ) (xs ys : Text) → length xs ≡ n → take n (xs ++ ys) ≡ xs
take-append zero [] ys h = refl
take-append zero (x ∷ xs) ys h = absurd (omega arith)
take-append (suc n) [] ys h = absurd (omega arith)
take-append (suc n) (x ∷ xs) ys h = ap (λ t. x ∷ t) (take-append n xs ys (omega arith))

pub number_from-pad : (width n : ℕ) → number_from 0 (pad_start width (to_digits n)) ≡ n
number_from-pad width n =
    rw
      (
        number_from-append 0 (copies (width - length (to_digits n)) b'0') (to_digits n),
        number_from-zeros (width - length (to_digits n)),
      )
      (number_from-digits n)

pub length-pad : (n : ℕ) → n < scale_factor → length (pad_start scale (to_digits n)) ≡ scale
length-pad n h =
    let fits = length-digits n 6 (omega arith) in
    omega (
      arith,
      length-append (copies (scale - length (to_digits n)) b'0') (to_digits n),
      length-copies {A = ℕ} (scale - length (to_digits n)) b'0',
    )

pub pad-all : (width n : ℕ) → all is_digit (pad_start width (to_digits n)) ≡ true
pad-all width n =
    all-append is_digit (copies (width - length (to_digits n)) b'0') (to_digits n)
      (all-copies is_digit (width - length (to_digits n)) b'0' refl) (digits-all n)

-- What a whole part and a fraction are read as.
pub parse_signed-parts :
    (negative : Bool) (whole frac : Text)
    → all is_digit whole ≡ true
    → 1 ≤ length whole
    → all is_digit frac ≡ true
    → parse_signed (sign_text negative ++ (whole ++ b'.' ∷ frac))
      ≡ some (with_sign negative (magnitude (whole, frac)))
unfolding parse_signed
parse_signed-parts negative [] frac h k l = absurd (omega arith)
parse_signed-parts true (c ∷ whole) frac h k l =
    rw (span_digits-append (c ∷ whole) b'.' frac h refl, l) refl
parse_signed-parts false (c ∷ whole) frac h k l =
    let first : (c == b'-') ≡ false = ground arith in
    rw (first, span_digits-append (c ∷ whole) b'.' frac h refl, l) refl

-- A text of digits, a sign and a point is not trimmed.
pub to_stroops-plain : (cs : Text) → all is_plain cs ≡ true → to_stroops cs ≡ parse_signed cs
unfolding to_stroops
to_stroops-plain cs h = rw (trim_codes-plain cs (plain-not_space cs h)) refl

parts-plain :
    (negative : Bool) (whole frac : Text)
    → all is_digit whole ≡ true
    → all is_digit frac ≡ true
    → all is_plain (sign_text negative ++ (whole ++ b'.' ∷ frac)) ≡ true
parts-plain negative whole frac h k =
    all-append is_plain (sign_text negative) (whole ++ b'.' ∷ frac) (ground arith)
      (all-append is_plain whole (b'.' ∷ frac) (digits-plain whole h) (digits-plain frac k))

pub to_stroops-parts :
    (negative : Bool) (whole frac : Text)
    → all is_digit whole ≡ true
    → 1 ≤ length whole
    → all is_digit frac ≡ true
    → to_stroops (sign_text negative ++ (whole ++ b'.' ∷ frac))
      ≡ some (with_sign negative (magnitude (whole, frac)))
to_stroops-parts negative whole frac h k l =
    rw (to_stroops-plain _ (parts-plain negative whole frac h l))
      (parse_signed-parts negative whole frac h k l)

magnitude-digits :
    (n : ℕ)
    → magnitude (to_digits (n / scale_factor), pad_start scale (to_digits (n % scale_factor))) ≡ n
unfolding magnitude
magnitude-digits n =
    let frac = pad_start scale (to_digits (n % scale_factor)) in
    rw
      (
        number_from-digits (n / scale_factor),
        take-append scale frac (copies scale b'0') (length-pad (n % scale_factor) (omega arith)),
        number_from-pad scale (n % scale_factor),
      )
      (omega arith)

-- `toStroops` reads back what `fromStroops` prints.
pub to_stroops-from_stroops : (stroops : ℤ) → to_stroops (from_stroops stroops) ≡ some stroops
unfolding from_stroops
to_stroops-from_stroops stroops =
    let n = abs stroops in
    rw
      (
        to_stroops-parts (is_negative stroops) (to_digits (n / scale_factor))
            (pad_start scale (to_digits (n % scale_factor))) (digits-all (n / scale_factor))
            (length-digits-pos (n / scale_factor)) (pad-all scale (n % scale_factor)),
        magnitude-digits n,
        with_sign-abs stroops,
      )
      refl
