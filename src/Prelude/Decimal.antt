-- ===== src/Prelude/Decimal.antt =====
-- Decimal digits: reading them as a number, and printing a number.
use Prim.Native.Nat.{ℕ, zero, suc, ◌+◌, ◌-◌, ◌*◌, ◌/◌, ◌%◌, ◌^◌, ◌≤◌, ◌<◌}
use native.Mathlib.Nat.{pow-suc}
use mathlib.Core.Path.{◌≡◌, refl}
use mathlib.Core.Logic.{inl, inr}
use mathlib.Core.Bool.{true, false}
use mathlib.Core.List.{List, [], ◌∷◌, ◌++◌}
use native.Mathlib.Omega.{arith}
use accensa_app.Prelude.Tests.{ltb, if◌then◌else◌, Bool-cases}
use accensa_app.Prelude.Lists.{length, all, copies, length-append, all-append}
use accensa_app.Prelude.Text.{is_digit}

-- The number that the digits after a prefix stand for, whose own number is `n`.
unfoldable pub number_from : ℕ → List ℕ → ℕ
number_from n [] = n
number_from n (c ∷ cs) = number_from (10 * n + (c - b'0')) cs

-- `toString` of a number, with a bound on its digits that suffices if it is above the number.
unfoldable pub digits_within : ℕ → ℕ → List ℕ
digits_within zero n = []
digits_within (suc fuel) n =
    let front = digits_within fuel (n / 10) in
    if ltb n 10 then (b'0' + n) ∷ [] else front ++ (b'0' + n % 10) ∷ []

unfoldable pub to_digits : ℕ → List ℕ
unfolding digits_within
to_digits n = digits_within (suc n) n

-- `padStart(width, '0')`
abbrev pub pad_start : ℕ → List ℕ → List ℕ
pad_start width cs = copies (width - length cs) b'0' ++ cs

-- The digits at the start, and the rest.
unfoldable pub span_digits : List ℕ → List ℕ × List ℕ
span_digits [] = ([], [])
span_digits (c ∷ cs) =
    let (ds, rest) = span_digits cs in if is_digit c then (c ∷ ds, rest) else ([], c ∷ cs)

pub number_from-append :
    (n : ℕ) (xs ys : List ℕ) → number_from n (xs ++ ys) ≡ number_from (number_from n xs) ys
unfolding number_from
number_from-append n [] ys = refl
number_from-append n (x ∷ xs) ys = number_from-append (10 * n + (x - b'0')) xs ys

pub number_from-zeros : (k : ℕ) → number_from 0 (copies k b'0') ≡ 0
unfolding number_from
number_from-zeros zero = refl
number_from-zeros (suc k) = number_from-zeros k

number_from-digits_within : (fuel n : ℕ) → n < fuel → number_from 0 (digits_within fuel n) ≡ n
unfolding number_from digits_within
number_from-digits_within zero n h = absurd (omega arith)
number_from-digits_within (suc fuel) n h = elim (Bool-cases (ltb n 10)) [
  | inl small ↦ rw small (omega arith)
  | inr large ↦
      rw
        (
          large,
          number_from-append 0 (digits_within fuel (n / 10)) ((b'0' + n % 10) ∷ []),
          number_from-digits_within fuel (n / 10) (ground arith),
        )
        (omega arith)
]

-- A printed number is read back.
pub number_from-digits : (n : ℕ) → number_from 0 (to_digits n) ≡ n
unfolding to_digits
number_from-digits n = number_from-digits_within (suc n) n (omega arith)

digits_within-all : (fuel n : ℕ) → all is_digit (digits_within fuel n) ≡ true
unfolding digits_within
digits_within-all zero n = refl
digits_within-all (suc fuel) n = elim (Bool-cases (ltb n 10)) [
  | inl small ↦ rw small (ground arith)
  | inr large ↦ rw large (
      all-append is_digit (digits_within fuel (n / 10)) _ (digits_within-all fuel (n / 10))
        (ground arith))
]

pub digits-all : (n : ℕ) → all is_digit (to_digits n) ≡ true
unfolding to_digits
digits-all n = digits_within-all (suc n) n

pub length-digits-pos : (n : ℕ) → 1 ≤ length (to_digits n)
unfolding to_digits digits_within
length-digits-pos n = elim (Bool-cases (ltb n 10)) [
  | inl small ↦ rw small (omega arith)
  | inr large ↦
      rw large (omega (arith, length-append (digits_within n (n / 10)) ((b'0' + n % 10) ∷ [])))
]

length-digits_within : (fuel n k : ℕ) → n < 10 ^ suc k → length (digits_within fuel n) ≤ suc k
unfolding digits_within
length-digits_within zero n k h = omega arith
length-digits_within (suc fuel) n zero h =
    let small : ltb n 10 ≡ true = ground (arith, pow-suc 10 0) in rw small (omega arith)
length-digits_within (suc fuel) n (suc k) h = elim (Bool-cases (ltb n 10)) [
  | inl small ↦ rw small (omega arith)
  | inr large ↦
      let tenth : n / 10 < 10 ^ suc k = omega (arith, pow-suc 10 (suc k)) in
      rw large (
        omega (
          arith,
          length-digits_within fuel (n / 10) k tenth,
          length-append (digits_within fuel (n / 10)) ((b'0' + n % 10) ∷ []),
        ))
]

pub length-digits : (n k : ℕ) → n < 10 ^ suc k → length (to_digits n) ≤ suc k
unfolding to_digits
length-digits n k h = length-digits_within (suc n) n k h

pub span_digits-append :
    (xs : List ℕ) (y : ℕ) (ys : List ℕ)
    → all is_digit xs ≡ true
    → is_digit y ≡ false
    → span_digits (xs ++ y ∷ ys) ≡ (xs, y ∷ ys)
unfolding span_digits
span_digits-append [] y ys h k = rw k refl
span_digits-append (x ∷ xs) y ys h k =
    let first : is_digit x ≡ true = ground arith in
    rw (first, span_digits-append xs y ys (ground arith) k) refl

pub span_digits-all : (xs : List ℕ) → all is_digit xs ≡ true → span_digits xs ≡ (xs, [])
unfolding span_digits
span_digits-all [] h = refl
span_digits-all (x ∷ xs) h =
    let first : is_digit x ≡ true = ground arith in
    rw (first, span_digits-all xs (ground arith)) refl
