-- ===== src/Indexer/Always.antt =====
-- The ledgers behind a merchant's cursor over histories of syncs and reports.
use accensa_app.Prelude.{
  ◌≡◌, refl, sym, ◌∙◌, ap, subst, ◌≢◌, ℕ, String, ◌&&◌, List, [], ◌∷◌, ◌⊎◌, Bool-cases, inl, inr,
  arith, ◌==◌,
}
use accensa_app.Pager.{RawEvent, Request}
use accensa_app.Pager.Drain.{IsHonest}
use accensa_app.Indexer.{Payment, Db, Merchant}
use accensa_app.Indexer.Table.{
  has_key, Settlement, is_newer, update_reported, insert_reported, ledger_of,
}
use accensa_app.Indexer.Window.{Services}
use accensa_app.Indexer.Run.{run_sync}
use accensa_app.Indexer.Upserts.{IsRecorded}
use accensa_app.Indexer.Progress.{cursor_of}
use accensa_app.Indexer.Coverage.{Covers}
use accensa_app.Indexer.Sync.{HeadReaches, asked_at, run_sync-Covers}
use accensa_app.Indexer.Tenants.{payments_of, run_sync-others}
use accensa_app.Indexer.Histories.{Call, sync, report, run_call, run_calls, record_settlement-keep}

module _ (m : ℕ) (hash : String) where
  update_reported-IsRecorded :
      (s : Settlement) (ps : List Payment)
      → IsRecorded m hash ps
      → IsRecorded m hash (update_reported s ps).1
  unfolding update_reported
  update_reported-IsRecorded s [] h = h
  update_reported-IsRecorded s (p ∷ ps) h =
      let later : IsRecorded m hash ps → IsRecorded m hash (update_reported s ps).1 =
        update_reported-IsRecorded s ps in
      elim (Bool-cases
        (has_key s.merchant_id s.tx_hash p && is_newer s.reported_at p.hook_reported_at)) [
          | inl mine ↦ rw mine (elim h [ inl here ↦ inl here | inr rest ↦ inr (later rest) ])
          | inr other ↦ rw other (elim h [ inl here ↦ inl here | inr rest ↦ inr (later rest) ])
        ]

  insert_reported-IsRecorded :
      (s : Settlement) (ps : List Payment)
      → IsRecorded m hash ps
      → IsRecorded m hash (insert_reported s ps)
  unfolding insert_reported
  insert_reported-IsRecorded s [] h = elim h [ ]
  insert_reported-IsRecorded s (p ∷ ps) h = elim (Bool-cases (has_key s.merchant_id s.tx_hash p)) [
    | inr other ↦
        rw other
          (elim h [ inl here ↦ inl here | inr rest ↦ inr (insert_reported-IsRecorded s ps rest) ])
    | inl mine ↦ elim (Bool-cases (is_newer s.reported_at p.hook_reported_at)) [
      | inr old ↦ rw (mine, old) h
      | inl newer ↦ rw (mine, newer) (elim h [ inl here ↦ inl here | inr rest ↦ inr rest ])
    ]
  ]

  -- Only the merchant's own payments matter.
  IsRecorded-payments_of :
      (ps : List Payment) → IsRecorded m hash ps → IsRecorded m hash (payments_of m ps)
  unfolding payments_of
  IsRecorded-payments_of [] h = h
  IsRecorded-payments_of (p ∷ ps) h = elim (Bool-cases (p.merchant_id == m)) [
    | inl mine ↦
        rw mine (elim h [ inl here ↦ inl here | inr rest ↦ inr (IsRecorded-payments_of ps rest) ])
    | inr other ↦ rw other (elim h [
      | inl (key, full) ↦ absurd (ground arith)
      | inr rest ↦ IsRecorded-payments_of ps rest
    ])
  ]

  payments_of-IsRecorded :
      (ps : List Payment) → IsRecorded m hash (payments_of m ps) → IsRecorded m hash ps
  unfolding payments_of
  payments_of-IsRecorded [] h = h
  payments_of-IsRecorded (p ∷ ps) h = elim (Bool-cases (p.merchant_id == m)) [
    | inr other ↦ inr (payments_of-IsRecorded ps (rw other at h))
    | inl mine ↦
        let known : IsRecorded m hash (p ∷ payments_of m ps) = rw mine at h in
        elim known [ inl here ↦ inl here | inr rest ↦ inr (payments_of-IsRecorded ps rest) ]
  ]

module _ {N : Type 0} (S : Services N) (merchant : Merchant) (chain : ℕ → List RawEvent)
    (left : Request → List RawEvent) (honest : IsHonest S.get_events chain left)
    (wanted : ℕ → Type 0) where
  -- A database with the merchant's cursor and all that was recorded covers as much.
  Covers-keeps :
      (before db : Db)
      → ((hash : String)
          → IsRecorded merchant.id hash before.payments
          → IsRecorded merchant.id hash db.payments)
      → cursor_of merchant.id db ≡ cursor_of merchant.id before
      → Covers S.native_of merchant chain wanted before
      → Covers S.native_of merchant chain wanted db
  Covers-keeps before db keeps same covers c l e at want le has t decodes mine =
      keeps t.tx_hash (covers c l e (sym same ∙ at) want le has t decodes mine)

  report-Covers :
      (s : Settlement) (n : N) (db : Db)
      → Covers S.native_of merchant chain wanted db
      → Covers S.native_of merchant chain wanted (run_call S (report s n) db)
  report-Covers s n db covers =
      record_settlement-keep S (Covers S.native_of merchant chain wanted) s
        (λ d v.
          Covers-keeps d (record d { payments = (update_reported s d.payments).1 })
            (λ hash h. update_reported-IsRecorded merchant.id hash s d.payments h) refl v)
        (λ d v.
          Covers-keeps d (record d { payments = insert_reported s d.payments })
            (λ hash h. insert_reported-IsRecorded merchant.id hash s d.payments h) refl v)
        (db, n) covers

  other-Covers :
      (fuel cooldown_ms : ℕ) (another : Merchant) (n : N) (db : Db)
      → another.id ≢ merchant.id
      → Covers S.native_of merchant chain wanted db
      → Covers S.native_of merchant chain wanted (run_call S (sync fuel another cooldown_ms n) db)
  other-Covers fuel cooldown_ms another n db different covers =
      let (payments, states) =
        run_sync-others S another merchant.id different fuel cooldown_ms (db, n) in
      Covers-keeps db _
        (λ hash h. payments_of-IsRecorded merchant.id hash _ (
          subst (IsRecorded merchant.id hash) (sym payments)
            (IsRecorded-payments_of merchant.id hash db.payments h)))
        (ap ledger_of states) covers

  -- When a sync of the merchant in the history asks for the head, this is not below the cursor, and
  -- the sync starts before each of the wanted ledgers that the cursor is not past.
  abbrev pub Reaches : List (Call N) → Db → Type 0
  Reaches [] db = Unit
  Reaches (report s n ∷ cs) db = Reaches cs (run_call S (report s n) db)
  Reaches (sync fuel another cooldown_ms n ∷ cs) db =
      (((another ≡ merchant)
          × HeadReaches S wanted merchant db (asked_at S cooldown_ms merchant (db, n)))
        ⊎ (another.id ≢ merchant.id))
      × Reaches cs (run_call S (sync fuel another cooldown_ms n) db)

  -- If the event service serves whole windows, short pages end one, and a cursor leads to what its
  -- page lacks, then over any sequence of syncs of any merchants and of reports, whichever way each
  -- ends, the cursor of a merchant is never past a wanted ledger with a transfer to the merchant whose
  -- transaction has no row of the merchant with a ledger, if it was not at first and the head that
  -- each sync of the merchant finds is not below the cursor and has the sync start before the wanted
  -- ledgers that the cursor is not past.
  pub run_calls-Covers :
      (cs : List (Call N)) (db : Db)
      → Reaches cs db
      → Covers S.native_of merchant chain wanted db
      → Covers S.native_of merchant chain wanted (run_calls S cs db)
  unfolding run_calls
  run_calls-Covers [] db reaches covers = covers
  run_calls-Covers (report s n ∷ cs) db reaches covers =
      run_calls-Covers cs (run_call S (report s n) db) reaches (report-Covers s n db covers)
  run_calls-Covers (sync fuel another cooldown_ms n ∷ cs) db (first, rest) covers =
      run_calls-Covers cs (run_call S (sync fuel another cooldown_ms n) db) rest (elim first [
        | inr different ↦ other-Covers fuel cooldown_ms another n db different covers
        | inl (same, reached) ↦
            subst
              (λ m.
                Covers S.native_of merchant chain wanted
                  (run_sync S fuel m cooldown_ms (db, n)).1.0)
              (sym same)
              (run_sync-Covers S merchant chain left honest wanted fuel cooldown_ms (db, n) reached
                covers)
      ])
