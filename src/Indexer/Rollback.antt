-- ===== src/Indexer/Rollback.antt =====
-- rollbackSyncToLedger: what it purges and where it leaves the cursor.
use accensa_app.Prelude.{
  ◌≡◌, refl, sym, subst, ◌∙◌, ap, ℕ, ◌+◌, Bool, false, ◌&&◌, List, [], ◌∷◌, none, some, length,
  ◌==◌, Bool-cases, Option-cases, ◌⊎◌, inl, inr, arith, if◌then◌else◌,
}
use accensa_app.Indexer.{Payment, SyncState, Db}
use accensa_app.Indexer.Table.{delete_above, is_above, find_state, ledger_of, set_state}
use accensa_app.Indexer.Queries.{
  Query, query, purge, move_cursor, set_cursor, done, ◌>>◌, rollback_sync_to_ledger, ◌>>=◌,
}
use accensa_app.Indexer.Steps.{bind_ok, query_ok, transaction_ok, transaction-none}

-- The payments that a rollback to a ledger keeps: another merchant's, and those at or below it or
-- without one.
unfoldable pub kept : ℕ → ℕ → List Payment → List Payment
kept m n [] = []
kept m n (p ∷ ps) =
    let rest = kept m n ps in if p.merchant_id == m && is_above n p.ledger then rest else p ∷ rest

pub cursor-rewound :
    (m n now : ℕ) (ss : List SyncState)
    → ledger_of (find_state m (set_state false m n now ss)) ≡ some n
unfolding find_state set_state
cursor-rewound m n now [] = ground arith
cursor-rewound m n now (s ∷ ss) = elim (Bool-cases (s.merchant_id == m)) [
  | inl mine ↦ ground arith
  | inr other ↦ rw (other, other) (cursor-rewound m n now ss)
]

delete_above-kept : (m n : ℕ) (ps : List Payment) → (delete_above m n ps).1 ≡ kept m n ps
unfolding delete_above kept
delete_above-kept m n [] = refl
delete_above-kept m n (p ∷ ps) = elim (Bool-cases (p.merchant_id == m && is_above n p.ledger)) [
  | inl gone ↦ rw gone (delete_above-kept m n ps)
  | inr stays ↦ rw stays (ap (λ qs. p ∷ qs) (delete_above-kept m n ps))
]

delete_above-count :
    (m n : ℕ) (ps : List Payment) → (delete_above m n ps).0 + length (kept m n ps) ≡ length ps
unfolding delete_above kept
delete_above-count m n [] = refl
delete_above-count m n (p ∷ ps) = elim (Bool-cases (p.merchant_id == m && is_above n p.ledger)) [
  | inl gone ↦ rw gone (omega (arith, delete_above-count m n ps))
  | inr stays ↦ rw stays (omega (arith, delete_above-count m n ps))
]

abbrev with_cursor : ℕ → ℕ → ℕ → Db → Db
with_cursor m n now db = record db { sync_states = set_state false m n now db.sync_states }

pair-injective {ℓ κ} :
    {A : Type ℓ} {B : Type κ} {p q : A × B} → some p ≡ some q → (q.0 ≡ p.0) × (q.1 ≡ p.1)
pair-injective {p = p} {q} h =
    let same : p ≡ q = cc in (ap (λ r. r.0) (sym same), ap (λ r. r.1) (sym same))

module _ {N : Type 0} (down : N → Bool × N) (db_time : N → ℕ) where
  rewind_ok :
      (m n : ℕ) (w : Db × N) (u : Unit {0})
      → (set_cursor down db_time false m n w).0 ≡ some u
      → move_cursor false m n (db_time w.1) w.0
        ≡ some (u, (set_cursor down db_time false m n w).1.0)
  unfolding set_cursor
  rewind_ok m n (db, x) u h = query_ok down (move_cursor false m n (db_time x)) (db, x) u h

  pub rollback-none :
      (m n : ℕ) (w : Db × N)
      → (rollback_sync_to_ledger down db_time m n w).0 ≡ none
      → (rollback_sync_to_ledger down db_time m n w).1.0 ≡ w.0
  unfolding rollback_sync_to_ledger
  rollback-none m n w h =
      transaction-none down
        (query down (purge m n) >>= λ k. set_cursor down db_time false m n >> done k) w h

  -- A rollback that succeeds.
  pub rollback_ok :
      (m n purged : ℕ) (w : Db × N)
      → (rollback_sync_to_ledger down db_time m n w).0 ≡ some purged
      → (now : ℕ) × ((purged ≡ (delete_above m n w.0.payments).0)
          × ((rollback_sync_to_ledger down db_time m n w).1.0 ≡ record {
            payments = (delete_above m n w.0.payments).1;
            sync_states = set_state false m n now w.0.sync_states;
          }))
  unfolding rollback_sync_to_ledger
  rollback_ok m n purged (db, x) h =
      let rewind : Query N (Unit {0}) = set_cursor down db_time false m n in
      let rest : ℕ → Query N ℕ = λ k. rewind >> done k in
      let (x', (got, same)) =
        transaction_ok down (query down (purge m n) >>= rest) (db, x) purged h in
      let (k, (first, runs)) = bind_ok (query down (purge m n)) rest (db, x') purged got in
      let w = (query down (purge m n) (db, x')).1 in
      let deleted = pair-injective (query_ok down (purge m n) (db, x') k first) in
      let (u, (second, ends)) =
        bind_ok rewind (λ _. done k) w purged (subst (λ r. r.0 ≡ some purged) runs got) in
      let moved = pair-injective (rewind_ok m n w u second) in
      let result : some k ≡ some purged =
        sym (ap (λ r. r.0) ends) ∙ subst (λ r. r.0 ≡ some purged) runs got in
      let known : k ≡ purged = cc in
      (
        db_time w.1,
        (
          sym known ∙ deleted.0,
          same
              ∙ (ap (λ r. r.1.0) runs
                  ∙ (ap (λ r. r.1.0) ends
                      ∙ (moved.1 ∙ ap (with_cursor m n (db_time w.1)) deleted.1))),
        ),
      )

  -- A rollback either throws and leaves the database as it was, or takes away exactly the merchant's
  -- payments of ledgers above the one given, says how many they were, and sets the cursor there.
  pub rollback-kept :
      (m n : ℕ) (w : Db × N)
      → let r = rollback_sync_to_ledger down db_time m n w in
        ((r.0 ≡ none) × (r.1.0 ≡ w.0))
        ⊎ ((purged : ℕ) × ((r.0 ≡ some purged)
              × ((purged + length (kept m n w.0.payments) ≡ length w.0.payments)
                  × ((r.1.0.payments ≡ kept m n w.0.payments)
                      × (ledger_of (find_state m r.1.0.sync_states) ≡ some n)))))
  rollback-kept m n w =
      let r = rollback_sync_to_ledger down db_time m n w in
      elim (Option-cases r.0) [
        | inl none' ↦ inl (none', rollback-none m n w none')
        | inr (purged, got) ↦
            let (now, (count, after)) = rollback_ok m n purged w got in
            inr (
              purged,
              (
                got,
                (
                  rw count (delete_above-count m n w.0.payments),
                  (
                    ap (λ d. d.payments) after ∙ delete_above-kept m n w.0.payments,
                    ap (λ d. ledger_of (find_state m d.sync_states)) after
                        ∙ cursor-rewound m n now w.0.sync_states,
                  ),
                ),
              ),
            )
      ]
