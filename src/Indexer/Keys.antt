-- ===== src/Indexer/Keys.antt =====
-- The comparison of keys, either way round.
use accensa_app.Prelude.{
  ◌≡◌, sym, ◌∙◌, ap₂, ℕ, String, true, Bool-cases, inl, inr, arith, ◌==◌, str_eq, eq_iff,
}

str_eq-eq : (s t : String) → str_eq s t ≡ true → s ≡ t
str_eq-eq s t h = (eq_iff s t).0 h

pub str_eq_comm : (s t : String) → str_eq s t ≡ str_eq t s
str_eq_comm s t = elim (Bool-cases (str_eq s t)) [
  | inl same ↦ let e : s ≡ t = str_eq-eq s t same in ap₂ str_eq e (sym e)
  | inr other ↦ elim (Bool-cases (str_eq t s)) [
    | inl same ↦ let e : t ≡ s = str_eq-eq t s same in ap₂ str_eq (sym e) e
    | inr another ↦ other ∙ sym another
  ]
]

pub ==_comm : (m n : ℕ) → (m == n) ≡ (n == m)
==_comm m n = ground arith
