-- ===== src/Pricing/Decimals.antt =====
-- `parseDecimal` on the texts that `formatDecimal` prints.
use mathlib.Core.List.{append-nil}
use native.Mathlib.Nat.{pow-suc}
use accensa_app.Prelude.{
  ℕ, suc, ◌+◌, ◌*◌, ◌/◌, ◌%◌, ◌^◌, ◌≤◌, ◌≡◌, refl, sym, ◌∙◌, Bool, true, false, [], ◌∷◌, ◌++◌,
  arith, length, all, take, copies, ◌==◌, ap, subst, ltb, ◌-◌,
}
use accensa_app.Prelude.Text.{is_digit}
use accensa_app.Prelude.Int.{ℤ, with_sign, is_negative, abs, with_sign-abs}
use accensa_app.Prelude.Decimal.{
  number_from, number_from-append, to_digits, pad_start, span_digits, number_from-digits,
  digits-all, length-digits-pos, span_digits-all, span_digits-append,
}
use accensa_app.Money.{Text, sign_text, drop_zeros, point}
use accensa_app.Money.RoundTrip.{number_from-pad, length-pad, pad-all}
use accensa_app.Money.Display.{shown, shown_lem}
use accensa_app.Pricing.{ok, minor_units, decimal_parts, parse_decimal, format_decimal}

shift : (n d p q r : ℕ) → q ≡ 10 * p → (10 * n + d) * p + r ≡ n * q + ((10 * 0 + d) * p + r)
shift n d p q r h = rw h (grind arith)

-- A number that is read on after a prefix.
number_from-prefix : (n : ℕ) (cs : Text) → number_from n cs ≡ n * 10 ^ length cs + number_from 0 cs
unfolding number_from
number_from-prefix n [] = omega arith
number_from-prefix n (c ∷ cs) =
    let power : 10 ^ suc (length cs) ≡ 10 * 10 ^ length cs =
      omega (arith, pow-suc 10 (length cs)) in
    number_from-prefix (10 * n + (c - b'0')) cs
    ∙ shift n (c - b'0') (10 ^ length cs) (10 ^ suc (length cs)) (number_from 0 cs) power
    ∙ ap (λ k. n * 10 ^ suc (length cs) + k) (sym (number_from-prefix (10 * 0 + (c - b'0')) cs))

decimal_parts-point :
    (negative : Bool) (whole frac : Text)
    → all is_digit whole ≡ true
    → 1 ≤ length whole
    → all is_digit frac ≡ true
    → decimal_parts negative (span_digits (whole ++ point frac))
      ≡ ok (with_sign negative (minor_units whole frac))
unfolding minor_units
decimal_parts-point negative [] frac h k l = absurd (omega arith)
decimal_parts-point negative (c ∷ whole) [] h k l =
    rw (append-nil (c ∷ whole), span_digits-all (c ∷ whole) h) refl
decimal_parts-point negative (c ∷ whole) (d ∷ frac) h k l =
    rw (span_digits-append (c ∷ whole) b'.' (d ∷ frac) h refl, l) refl

parse_decimal-sign :
    (negative : Bool) (whole frac : Text)
    → all is_digit whole ≡ true
    → 1 ≤ length whole
    → all is_digit frac ≡ true
    → parse_decimal (sign_text negative ++ (whole ++ point frac))
      ≡ ok (with_sign negative (minor_units whole frac))
unfolding parse_decimal
parse_decimal-sign negative [] frac h k l = absurd (omega arith)
parse_decimal-sign true (c ∷ whole) frac h k l = decimal_parts-point true (c ∷ whole) frac h k l
parse_decimal-sign false (c ∷ whole) frac h k l =
    let first : (c == b'-') ≡ false = ground arith in
    rw first (decimal_parts-point false (c ∷ whole) frac h k l)

shown-zero : (g : Text) → shown 0 g ≡ g
unfolding shown
shown-zero g = let long : ltb (length g) 0 ≡ false = ground arith in rw long refl

minor_units-shown :
    (n : ℕ)
    → let frac = drop_zeros (pad_start 7 (to_digits (n % 10000000))) in
      (all is_digit frac ≡ true) × (minor_units (to_digits (n / 10000000)) frac ≡ n)
unfolding minor_units
minor_units-shown n =
    let m = n % 10000000 in
    let frac = pad_start 7 (to_digits m) in
    let (digits, same) = shown_lem 0 frac (length-pad m (omega arith)) (pad-all 7 m) in
    let plain = shown-zero (drop_zeros frac) in
    (
      subst (λ g. all is_digit g ≡ true) plain digits,
      rw
          (
            subst (λ g. take 7 (g ++ copies 7 b'0') ≡ frac) plain same,
            number_from-append 0 (to_digits (n / 10000000)) frac,
            number_from-digits (n / 10000000),
            number_from-prefix (n / 10000000) frac,
            number_from-pad 7 m,
            length-pad m (omega arith),
          )
          (omega arith),
    )

-- An amount that is printed is read back as the same number of minor units.
pub parse_decimal-format_decimal : (value : ℤ) → parse_decimal (format_decimal value) ≡ ok value
unfolding format_decimal
parse_decimal-format_decimal value =
    let n = abs value in
    let (digits, same) = minor_units-shown n in
    rw
      (
        parse_decimal-sign (is_negative value) (to_digits (n / 10000000))
            (drop_zeros (pad_start 7 (to_digits (n % 10000000)))) (digits-all (n / 10000000))
            (length-digits-pos (n / 10000000)) digits,
        same,
        with_sign-abs value,
      )
      refl
