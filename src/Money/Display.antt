-- ===== src/Money/Display.antt =====
-- What a displayed amount is read as.
use mathlib.Core.List.{append_assoc, append-nil}
use accensa_app.Prelude.{
  ℕ, zero, suc, ◌+◌, ◌-◌, ◌/◌, ◌%◌, ◌≤◌, ◌≡◌, refl, sym, Bool, true, false, [], ◌∷◌, ◌++◌, some,
  arith, length, all, take, copies, ltb, ◌==◌, if◌then◌else◌, all-append, all-copies, length-append,
  Bool-cases, inl, inr, ap, ap₂, subst, ◌∙◌, length-copies,
}
use accensa_app.Prelude.Text.{is_digit}
use accensa_app.Prelude.Int.{ℤ, with_sign, is_negative, abs, with_sign-abs}
use accensa_app.Prelude.Decimal.{
  to_digits, pad_start, number_from-digits, digits-all, length-digits-pos, span_digits-all,
}
use accensa_app.Money.{
  Text, scale, scale_factor, magnitude, parse_signed, to_stroops, sign_text, drop_zeros, drop_zero,
  pad_end, group_digits, point, display, format_amount,
}
use accensa_app.Money.RoundTrip.{
  to_stroops-parts, to_stroops-plain, is_plain, digits-plain, number_from-pad, length-pad, pad-all,
  take-append,
}
use accensa_app.Money.Commas.{
  without_commas, without_commas-append, without_commas-digits, without_commas-group,
}

copies-append : (a b n : ℕ) → a + b ≡ n → copies a b'0' ++ copies b b'0' ≡ copies {A = ℕ} n b'0'
copies-append zero b n h = ap (λ k. copies {A = ℕ} k b'0') (omega (arith, h))
copies-append (suc a) b zero h = absurd (omega arith)
copies-append (suc a) b (suc n) h = ap (λ t. b'0' ∷ t) (copies-append a b n (omega arith))

drop_zero-copies :
    (c : ℕ) (cs rest : Text) (k : ℕ)
    → rest ≡ cs ++ copies k b'0'
    → (j : ℕ) × (c ∷ rest ≡ drop_zero c cs ++ copies j b'0')
drop_zero-copies c (d ∷ cs) rest k h = (k, ap (λ t. c ∷ t) h)
drop_zero-copies c [] rest k h = elim (Bool-cases (c == b'0')) [
  | inl nil ↦ (suc k, rw nil (ap₂ ◌∷◌ (ground arith) h))
  | inr other ↦ (k, rw other (ap (λ t. c ∷ t) h))
]

drop_zeros-copies : (cs : Text) → (k : ℕ) × (cs ≡ drop_zeros cs ++ copies k b'0')
unfolding drop_zeros
drop_zeros-copies [] = (0, refl)
drop_zeros-copies (c ∷ cs) =
    let (k, e) = drop_zeros-copies cs in drop_zero-copies c (drop_zeros cs) cs k e

-- Zeros more or less at the end of a fraction of seven digits.
take-zeros :
    (cs : Text) (k j : ℕ)
    → length (cs ++ copies k b'0') ≡ scale
    → take scale ((cs ++ copies j b'0') ++ copies scale b'0') ≡ cs ++ copies k b'0'
take-zeros cs k j h =
    let fits : k ≤ scale =
      omega (arith, h, length-append cs (copies k b'0'), length-copies {A = ℕ} k b'0') in
    let more = j + scale - k in
    let tail : copies j b'0' ++ copies scale b'0' ≡ copies k b'0' ++ copies {A = ℕ} more b'0' =
      copies-append j scale (j + scale) refl
      ∙ sym (copies-append k more (j + scale) (omega arith)) in
    rw
      (
        append_assoc cs (copies j b'0') (copies scale b'0'),
        tail,
        ← append_assoc cs (copies k b'0') (copies more b'0'),
      )
      (take-append scale (cs ++ copies k b'0') (copies more b'0') h)

unfoldable pub shown : ℕ → Text → Text
shown m g = if ltb (length g) m then pad_end m g else g

shown-copies : (m : ℕ) (g : Text) → (j : ℕ) × (shown m g ≡ g ++ copies j b'0')
unfolding shown
shown-copies m g = elim (Bool-cases (ltb (length g) m)) [
  | inl short ↦ (m - length g, rw short refl)
  | inr long ↦ (0, rw long (sym (append-nil g)))
]

all-append-left : (xs ys : Text) → all is_digit (xs ++ ys) ≡ true → all is_digit xs ≡ true
all-append-left [] ys h = refl
all-append-left (x ∷ xs) ys h = ground (arith, all-append-left xs ys)

-- The fraction as shown: digits that stand for the same number.
pub shown_lem :
    (m : ℕ) (frac : Text)
    → length frac ≡ scale
    → all is_digit frac ≡ true
    → (all is_digit (shown m (drop_zeros frac)) ≡ true)
      × (take scale (shown m (drop_zeros frac) ++ copies scale b'0') ≡ frac)
shown_lem m frac h k =
    let g = drop_zeros frac in
    let (n, e) = drop_zeros-copies frac in
    let (j, f) = shown-copies m g in
    (
      rw f (
          all-append is_digit g (copies j b'0')
            (all-append-left g (copies n b'0') (subst (λ t. all is_digit t ≡ true) e k))
            (all-copies is_digit j b'0' refl)),
      rw f (take-zeros g n j (subst (λ t. length t ≡ scale) e h) ∙ sym e),
    )

parse_signed-whole :
    (negative : Bool) (whole : Text)
    → all is_digit whole ≡ true
    → 1 ≤ length whole
    → parse_signed (sign_text negative ++ whole) ≡ some (with_sign negative (magnitude (whole, [])))
unfolding parse_signed
parse_signed-whole negative [] h k = absurd (omega arith)
parse_signed-whole true (c ∷ whole) h k = rw (span_digits-all (c ∷ whole) h) refl
parse_signed-whole false (c ∷ whole) h k =
    let first : (c == b'-') ≡ false = ground arith in rw (first, span_digits-all (c ∷ whole) h) refl

to_stroops-point :
    (negative : Bool) (whole frac : Text)
    → all is_digit whole ≡ true
    → 1 ≤ length whole
    → all is_digit frac ≡ true
    → to_stroops (sign_text negative ++ (whole ++ point frac))
      ≡ some (with_sign negative (magnitude (whole, frac)))
to_stroops-point negative whole [] h k l =
    rw
      (
        append-nil whole,
        to_stroops-plain (sign_text negative ++ whole)
            (all-append is_plain (sign_text negative) whole (ground arith) (digits-plain whole h)),
      )
      (parse_signed-whole negative whole h k)
to_stroops-point negative whole (c ∷ frac) h k l = to_stroops-parts negative whole (c ∷ frac) h k l

without_commas-point :
    (frac : Text) → all is_digit frac ≡ true → without_commas (point frac) ≡ point frac
unfolding without_commas
without_commas-point [] h = refl
without_commas-point (c ∷ frac) h = ap (λ t. b'.' ∷ t) (without_commas-digits (c ∷ frac) h)

without_commas-sign : (negative : Bool) → without_commas (sign_text negative) ≡ sign_text negative
unfolding without_commas
without_commas-sign true = refl
without_commas-sign false = refl

without_commas-display :
    (m : ℕ) (negative : Bool) (whole frac : Text)
    → all is_digit whole ≡ true
    → all is_digit (shown m (drop_zeros frac)) ≡ true
    → without_commas (display m negative whole frac)
      ≡ sign_text negative ++ (whole ++ point (shown m (drop_zeros frac)))
unfolding display shown
without_commas-display m negative whole frac h k =
    let tail = point (shown m (drop_zeros frac)) in
    rw
      (
        without_commas-append (sign_text negative) (group_digits whole ++ tail),
        without_commas-append (group_digits whole) tail,
        without_commas-sign negative,
        without_commas-group whole h,
        without_commas-point (shown m (drop_zeros frac)) k,
      )
      refl

magnitude-shown :
    (m n : ℕ)
    → let frac = pad_start scale (to_digits (n % scale_factor)) in
      (all is_digit (shown m (drop_zeros frac)) ≡ true)
      × (magnitude (to_digits (n / scale_factor), shown m (drop_zeros frac)) ≡ n)
unfolding magnitude
magnitude-shown m n =
    let frac = pad_start scale (to_digits (n % scale_factor)) in
    let (digits, same) =
      shown_lem m frac (length-pad (n % scale_factor) (omega arith))
        (pad-all scale (n % scale_factor)) in
    (
      digits,
      rw (number_from-digits (n / scale_factor), same, number_from-pad scale (n % scale_factor))
          (omega arith),
    )

format_amount-display :
    (amount : Text) (m : ℕ) (z : ℤ)
    → to_stroops amount ≡ some z
    → format_amount amount m
      ≡ display m
          (is_negative z)
          (to_digits (abs z / scale_factor))
          (pad_start scale (to_digits (abs z % scale_factor)))
unfolding format_amount
format_amount-display amount m z h = rw (format_amount, h) refl

-- Once its commas are taken out, a displayed amount is read as the same amount, whatever the number of
-- decimals that is asked for.
pub to_stroops-format_amount :
    (amount : Text) (min_decimals : ℕ) (z : ℤ)
    → to_stroops amount ≡ some z
    → to_stroops (without_commas (format_amount amount min_decimals)) ≡ some z
to_stroops-format_amount amount m z h =
    let n = abs z in
    let whole = to_digits (n / scale_factor) in
    let frac = pad_start scale (to_digits (n % scale_factor)) in
    let (digits, same) = magnitude-shown m n in
    rw
      (
        format_amount-display amount m z h,
        without_commas-display m (is_negative z) whole frac (digits-all (n / scale_factor)) digits,
        to_stroops-point (is_negative z) whole (shown m (drop_zeros frac))
            (digits-all (n / scale_factor)) (length-digits-pos (n / scale_factor)) digits,
        same,
        with_sign-abs z,
      )
      refl
