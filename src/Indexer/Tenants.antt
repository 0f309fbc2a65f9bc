-- ===== src/Indexer/Tenants.antt =====
-- A sync of one merchant and the rows of another.
use accensa_app.Prelude.{
  ◌≡◌, refl, ◌∙◌, ◌≢◌, ℕ, Bool, true, false, ◌&&◌, ◌||◌, not, List, [], ◌∷◌, Option, none, some,
  Bool-cases, inl, inr, arith, ◌==◌, if◌then◌else◌, str_eq, ltb,
}
use accensa_app.Pager.{RawEvent}
use accensa_app.Indexer.{TransferEvent, PaymentRow, Payment, SyncState, Db, Merchant}
use accensa_app.Indexer.Decode.{add_event, decode_transfer_event, events_to_payment_rows}
use accensa_app.Indexer.Table.{
  has_key, is_none, upsert, upsert_all, delete_above, is_above, find_state, set_state,
}
use accensa_app.Indexer.Window.{Services}
use accensa_app.Indexer.Run.{run_sync}
use accensa_app.Indexer.Consumer.{rows_of}
use accensa_app.Indexer.Invariants.{run_sync-keep}

-- A merchant's payments.
unfoldable pub payments_of : ℕ → List Payment → List Payment
payments_of m [] = []
payments_of m (p ∷ ps) =
    let rest = payments_of m ps in if p.merchant_id == m then p ∷ rest else rest

has_key-merchant :
    (r : PaymentRow) (p : Payment)
    → has_key r.merchant_id r.tx_hash p ≡ true
    → p.merchant_id ≡ r.merchant_id
has_key-merchant r p h = ground arith

module _ (other m : ℕ) (different : m ≢ other) where
  skips : (n : ℕ) → n ≡ m → (n == other) ≡ false
  skips n same = ground arith

  upsert-others :
      (r : PaymentRow) (ps : List Payment)
      → r.merchant_id ≡ m
      → payments_of other (upsert r ps).1 ≡ payments_of other ps
  unfolding upsert payments_of
  upsert-others r [] mine = rw (skips r.merchant_id mine) refl
  upsert-others r (p ∷ ps) mine = elim (Bool-cases (has_key r.merchant_id r.tx_hash p)) [
    | inr another ↦ rw (another, upsert-others r ps mine) refl
    | inl key ↦
        let not_theirs = skips p.merchant_id (has_key-merchant r p key ∙ mine) in
        elim (Bool-cases (is_none p.ledger)) [
          | inr full ↦ rw (key, full) refl
          | inl free ↦ rw (key, free, not_theirs) refl
        ]
  ]

  abbrev OfMerchant : List PaymentRow → Type 0
  OfMerchant [] = Unit
  OfMerchant (r ∷ rs) = (r.merchant_id ≡ m) × OfMerchant rs

  upsert_all-others :
      (rs : List PaymentRow) (ps : List Payment)
      → OfMerchant rs
      → payments_of other (upsert_all rs ps).1 ≡ payments_of other ps
  unfolding upsert_all
  upsert_all-others [] ps mine = refl
  upsert_all-others (r ∷ rs) ps (first, rest) =
      upsert_all-others rs (upsert r ps).1 rest ∙ upsert-others r ps first

  delete_above-others :
      (n : ℕ) (ps : List Payment) → payments_of other (delete_above m n ps).1 ≡ payments_of other ps
  unfolding delete_above payments_of
  delete_above-others n [] = refl
  delete_above-others n (p ∷ ps) = elim (Bool-cases (p.merchant_id == m && is_above n p.ledger)) [
    | inr stays ↦ rw (stays, delete_above-others n ps) refl
    | inl gone ↦
        let mine : p.merchant_id ≡ m = ground arith in
        rw (gone, skips p.merchant_id mine) (delete_above-others n ps)
  ]

  set_state-others :
      (forward_only : Bool) (n now : ℕ) (ss : List SyncState)
      → find_state other (set_state forward_only m n now ss) ≡ find_state other ss
  unfolding find_state set_state
  set_state-others forward_only n now [] = rw (skips m refl) refl
  set_state-others forward_only n now (s ∷ ss) = elim (Bool-cases (s.merchant_id == m)) [
    | inr another ↦ rw (another, set_state-others forward_only n now ss) refl
    | inl key ↦
        let mine : s.merchant_id ≡ m = ground arith in
        elim (Bool-cases (not forward_only || ltb s.last_ledger n)) [
          | inl moves ↦ rw (key, moves, skips s.merchant_id mine) refl
          | inr stays ↦ rw (key, stays) refl
        ]
  ]

add_event-OfMerchant :
    (other : ℕ) (merchant : Merchant) (different : merchant.id ≢ other) (o : Option TransferEvent)
    (rest : List PaymentRow × ℕ)
    → OfMerchant other merchant.id different rest.0
    → OfMerchant other merchant.id different (add_event merchant o rest).0
add_event-OfMerchant other merchant different none (rows, n) h = h
add_event-OfMerchant other merchant different (some t) (rows, n) h =
    elim (Bool-cases (str_eq t.to merchant.address)) [
      | inl to ↦ rw to (refl, h)
      | inr elsewhere ↦ rw elsewhere h
    ]

module _ {N : Type 0} (S : Services N) (merchant : Merchant) (other : ℕ)
    (different : merchant.id ≢ other) where
  rows_of-OfMerchant :
      (es : List RawEvent) → OfMerchant other merchant.id different (rows_of S merchant es)
  unfolding events_to_payment_rows
  rows_of-OfMerchant [] = tt
  rows_of-OfMerchant (e ∷ es) =
      add_event-OfMerchant other merchant different (decode_transfer_event S.native_of e)
        (events_to_payment_rows S.native_of merchant es) (rows_of-OfMerchant es)

  -- A sync of one merchant leaves the payments and the cursor of every other as they were, however it
  -- ends and also if it rolls back.
  pub run_sync-others :
      (fuel cooldown_ms : ℕ) (w : Db × N)
      → let db = (run_sync S fuel merchant cooldown_ms w).1.0 in
        (payments_of other db.payments ≡ payments_of other w.0.payments)
        × (find_state other db.sync_states ≡ find_state other w.0.sync_states)
  run_sync-others fuel cooldown_ms w =
      run_sync-keep S merchant
        (λ db.
          (payments_of other db.payments ≡ payments_of other w.0.payments)
          × (find_state other db.sync_states ≡ find_state other w.0.sync_states))
        (λ es db (p, s). (
          upsert_all-others other merchant.id different (rows_of S merchant es) db.payments
                (rows_of-OfMerchant es)
              ∙ p,
          s,
        ))
        (λ forward_only n now db (p, s).
          (p, set_state-others other merchant.id different forward_only n now db.sync_states ∙ s))
        (λ n db (p, s). (delete_above-others other merchant.id different n db.payments ∙ p, s)) fuel
        cooldown_ms w (refl, refl)
