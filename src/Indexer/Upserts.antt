-- ===== src/Indexer/Upserts.antt =====
-- The upserts of Table: which payments are recorded, and the statement for several rows against the
-- rows one at a time.
use accensa_app.Prelude.{
  ◌≡◌, refl, ℕ, String, true, false, List, [], ◌∷◌, ◌++◌, ◌⊎◌, Option, none, some, Bool-cases, inl,
  inr, arith, eq_refl,
}
use accensa_app.Indexer.{PaymentRow, Payment}
use accensa_app.Indexer.Table.{
  has_key, is_none, inserted, upsert, add_returned, upsert_all, is_written, written_with,
  returned_with, insert_statement,
}

-- A table has a payment of the merchant for the transaction, with its ledger.
abbrev pub IsRecorded : ℕ → String → List Payment → Type 0
IsRecorded m hash [] = ⊥
IsRecorded m hash (p ∷ ps) =
    ((has_key m hash p ≡ true) × (is_none p.ledger ≡ false)) ⊎ IsRecorded m hash ps

abbrev pub AllRecorded : List PaymentRow → List Payment → Type 0
AllRecorded [] table = Unit
AllRecorded (r ∷ rs) table = IsRecorded r.merchant_id r.tx_hash table × AllRecorded rs table

own_key : (r : PaymentRow) → has_key r.merchant_id r.tx_hash (inserted r) ≡ true
own_key r = ground (arith, eq_refl r.tx_hash)

pub upsert-keeps :
    (m : ℕ) (hash : String) (r : PaymentRow) (table : List Payment)
    → IsRecorded m hash table
    → IsRecorded m hash (upsert r table).1
unfolding upsert
upsert-keeps m hash r [] h = elim h [ ]
upsert-keeps m hash r (p ∷ ps) h = elim (Bool-cases (has_key r.merchant_id r.tx_hash p)) [
  | inr other ↦
      rw other (elim h [ inl here ↦ inl here | inr later ↦ inr (upsert-keeps m hash r ps later) ])
  | inl mine ↦ elim (Bool-cases (is_none p.ledger)) [
    | inr full ↦ rw (mine, full) h
    | inl free ↦ rw (mine, free) (elim h [ inl (key, _) ↦ inl (key, refl) | inr later ↦ inr later ])
  ]
]

pub upsert-records :
    (r : PaymentRow) (table : List Payment) → IsRecorded r.merchant_id r.tx_hash (upsert r table).1
unfolding upsert
upsert-records r [] = inl (own_key r, refl)
upsert-records r (p ∷ ps) = elim (Bool-cases (has_key r.merchant_id r.tx_hash p)) [
  | inr other ↦ rw other (inr (upsert-records r ps))
  | inl mine ↦ elim (Bool-cases (is_none p.ledger)) [
    | inr full ↦ rw (mine, full) (inl (mine, full))
    | inl free ↦ rw (mine, free) (inl (mine, refl))
  ]
]

pub upsert_all-keeps :
    (m : ℕ) (hash : String) (rs : List PaymentRow) (table : List Payment)
    → IsRecorded m hash table
    → IsRecorded m hash (upsert_all rs table).1
unfolding upsert_all
upsert_all-keeps m hash [] table h = h
upsert_all-keeps m hash (r ∷ rs) table h =
    upsert_all-keeps m hash rs (upsert r table).1 (upsert-keeps m hash r table h)

pub upsert_all-AllRecorded :
    (rs : List PaymentRow) (table : List Payment) → AllRecorded rs (upsert_all rs table).1
unfolding upsert_all
upsert_all-AllRecorded [] table = tt
upsert_all-AllRecorded (r ∷ rs) table = (
  upsert_all-keeps r.merchant_id r.tx_hash rs (upsert r table).1 (upsert-records r table),
  upsert_all-AllRecorded rs (upsert r table).1,
)

add_returned-append :
    (out : Option Payment) (ps qs : List Payment)
    → add_returned out (ps ++ qs) ≡ add_returned out ps ++ qs
add_returned-append none ps qs = refl
add_returned-append (some p) ps qs = refl

pub upsert_all-append :
    (rs ss : List PaymentRow) (table : List Payment)
    → upsert_all (rs ++ ss) table ≡ (
      (upsert_all rs table).0 ++ (upsert_all ss (upsert_all rs table).1).0,
      (upsert_all ss (upsert_all rs table).1).1,
    )
unfolding upsert_all
upsert_all-append [] ss table = refl
upsert_all-append (r ∷ rs) ss table =
    rw
      (
        upsert_all-append rs ss (upsert r table).1,
        add_returned-append (upsert r table).0 (upsert_all rs (upsert r table).1).0
            (upsert_all ss (upsert_all rs (upsert r table).1).1).0,
      )
      refl

none-ne-some {ℓ} : {A : Type ℓ} {a : A} → none ≡ some a → ⊥
none-ne-some h = cc

returned_with_ok :
    (out : Option Payment) (r : Option (List Payment × List Payment))
    (x : List Payment × List Payment)
    → returned_with out r ≡ some x
    → (y : List Payment × List Payment) × ((r ≡ some y) × (x ≡ (add_returned out y.0, y.1)))
returned_with_ok out none x h = absurd (cc)
returned_with_ok out (some (ps, table)) x h = ((ps, table), (refl, (cc)))

-- A statement that succeeds has done what its rows do one at a time.
pub insert_statement-upsert_all :
    (written rs : List PaymentRow) (table : List Payment) (x : List Payment × List Payment)
    → insert_statement written rs table ≡ some x
    → x ≡ upsert_all rs table
unfolding insert_statement upsert_all
insert_statement-upsert_all written [] table x h = cc
insert_statement-upsert_all written (r ∷ rs) table x h = elim (Bool-cases (is_written r written)) [
  | inl twice ↦ absurd (none-ne-some (rw twice at h))
  | inr fresh ↦
      let (y, (got, same)) =
        returned_with_ok (upsert r table).0
          (insert_statement (written_with r (upsert r table).0 written) rs (upsert r table).1) x
          (rw fresh at h) in
      rw
        (
          same,
          insert_statement-upsert_all (written_with r (upsert r table).0 written) rs
              (upsert r table).1 y got,
        )
        refl
]
