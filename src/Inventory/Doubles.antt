-- ===== src/Inventory/Doubles.antt =====
-- The rounding of the sums that normalizedLines makes.
use native.Mathlib.Nat.{mod-lt}
use accensa_app.Prelude.{
  ℕ, zero, suc, true, ◌≡◌, ◌*◌, ◌-◌, ◌%◌, ◌^◌, ◌≤◌, ◌<◌, leb, Bool-cases, inl, inr, arith,
}
use accensa_app.Inventory.Lines.{spacing, round_by, nearest}

-- Sums of at most 2 ^ 53 are not rounded, and a sum is not rounded down to 0.
pub nearest-exact : (n : ℕ) → n ≤ 2 ^ 53 → nearest n ≡ n
unfolding nearest spacing
nearest-exact n h = let small : leb n (2 ^ 53 * 1) ≡ true = ground arith in rw small (ground arith)

spacing-le :
    (fuel unit n : ℕ) → 0 < unit → unit ≤ n → (0 < spacing fuel unit n) × (spacing fuel unit n ≤ n)
unfolding spacing
spacing-le zero unit n h k = (h, k)
spacing-le (suc fuel) unit n h k = elim (Bool-cases (leb n (2 ^ 53 * unit))) [
  | inl here ↦ rw here (h, k)
  | inr wider ↦ rw wider (spacing-le fuel (2 * unit) n (omega arith) (ground arith))
]

round_by-pos : (unit rest down : ℕ) → 0 < down → 0 < round_by unit rest down
round_by-pos unit rest down h = ground arith

pub nearest-pos : (n : ℕ) → 0 < n → 0 < nearest n
unfolding nearest
nearest-pos n h =
    let (some_unit, fits) = spacing-le 11 1 n (omega arith) h in
    let u = spacing 11 1 n in
    let less : n % u < u = mod-lt n some_unit in round_by-pos u (n % u) (n - n % u) (omega arith)
