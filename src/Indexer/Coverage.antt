-- ===== src/Indexer/Coverage.antt =====
-- What it means that the ledgers behind a merchant's cursor are covered, and the end of a sync.
use accensa_app.Prelude.{
  ◌≡◌, refl, sym, subst, ◌∙◌, ap, ◌≤◌, ℕ, String, true, List, ◌⊎◌, Option, none, some, Option-cases,
  inl, inr, arith,
}
use accensa_app.Pager.{RawEvent}
use accensa_app.Pager.Members.{IsIn}
use accensa_app.Indexer.{Payment, Db, Merchant}
use accensa_app.Indexer.Decode.{Native}
use accensa_app.Indexer.Table.{find_state, ledger_of, set_state}
use accensa_app.Indexer.Queries.{set_last_synced_ledger, query, move_cursor, set_cursor}
use accensa_app.Indexer.Window.{Services}
use accensa_app.Indexer.Run.{
  Outcome, synced, failed, cooldown, unfinished, window_failed, cursor_moved, start_ledger_of,
  Report,
}
use accensa_app.Indexer.Steps.{query_ok, query-none}
use accensa_app.Indexer.Consumer.{IsPaid}
use accensa_app.Indexer.Progress.{Progress, cursor_of}

-- The events of the wanted ledgers up to the merchant's cursor are paid.
abbrev pub Covers :
    (String → Option Native) → Merchant → (ℕ → List RawEvent) → (ℕ → Type 0) → Db → Type 0
Covers native_of merchant chain wanted db =
    (c l : ℕ) (e : RawEvent)
    → cursor_of merchant.id db ≡ some c
    → wanted l
    → l ≤ c
    → IsIn e (chain l)
    → IsPaid native_of merchant e db.payments

-- A ledger that a cursor is past, or that a sync to the latest one starts before.
abbrev pub IsReached : Option ℕ → ℕ → ℕ → Type 0
IsReached none latest l = start_ledger_of none latest ≤ l
IsReached (some c) latest l = (l ≤ c) ⊎ (start_ledger_of (some c) latest ≤ l)

-- The events of the ledgers that a sync reports are paid.
abbrev pub Reports :
    {N : Type 0}
    → (String → Option Native)
    → Merchant
    → (ℕ → List RawEvent)
    → Outcome × (Db × N)
    → Type 0
Reports native_of merchant chain (synced report, (db, n)) =
    (l : ℕ) (e : RawEvent)
    → report.start_ledger ≤ l
    → l ≤ report.synced_to
    → IsIn e (chain l)
    → IsPaid native_of merchant e db.payments
Reports native_of merchant chain (cooldown ms, w) = Unit
Reports native_of merchant chain (window_failed from to, w) = Unit
Reports native_of merchant chain (failed, w) = Unit
Reports native_of merchant chain (unfinished, w) = Unit

pub Progress-Covers :
    (native_of : String → Option Native) (merchant : Merchant) (chain : ℕ → List RawEvent)
    (wanted : ℕ → Type 0) (es : List RawEvent) (before db : Db)
    → Progress native_of merchant before es db
    → Covers native_of merchant chain wanted before
    → Covers native_of merchant chain wanted db
Progress-Covers native_of merchant chain wanted es before db p covers c l e at want le has t decodes
      mine =
    p.keeps merchant.id t.tx_hash (
      covers c l e (ap (λ ss. ledger_of (find_state merchant.id ss)) (sym p.cursors) ∙ at) want le
        has t decodes mine)

some_pair-injective {ℓ} : {A : Type ℓ} {p q : Unit {0} × A} → some p ≡ some q → q.1 ≡ p.1
some_pair-injective {p = p} {q} h = let same : p ≡ q = cc in ap (λ r. r.1) (sym same)

module _ {N : Type 0} (S : Services N) where
  -- The cursor's upsert has run, or not.
  pub set_last_synced_ledger_cases :
      (m n : ℕ) (w : Db × N)
      → ((set_last_synced_ledger S.down S.db_time m n w).1.0 ≡ w.0)
        ⊎ ((set_last_synced_ledger S.down S.db_time m n w).1.0
            ≡ record (w.0) { sync_states = set_state true m n (S.db_time w.1) w.0.sync_states })
  unfolding set_last_synced_ledger set_cursor
  set_last_synced_ledger_cases m n (db, w) =
      let move = move_cursor true m n (S.db_time w) in
      elim (Option-cases (query S.down move (db, w)).0) [
        | inl none' ↦ inl (query-none S.down move (db, w) none')
        | inr (x, got) ↦ inr (some_pair-injective (query_ok S.down move (db, w) x got))
      ]

pub cursor_moved_db :
    {N : Type 0} (report : Report) (r : Option (Unit {0}) × (Db × N))
    → (cursor_moved report r).1 ≡ r.1
cursor_moved_db report (none, w) = refl
cursor_moved_db report (some x, w) = refl

abbrev pub Good :
    {N : Type 0}
    → (String → Option Native)
    → Merchant
    → (ℕ → List RawEvent)
    → (ℕ → Type 0)
    → Outcome × (Db × N)
    → Type 0
Good native_of merchant chain wanted r =
    Covers native_of merchant chain wanted r.1.0 × Reports native_of merchant chain r

pub start_pos : (cursor : Option ℕ) (latest : ℕ) → 1 ≤ start_ledger_of cursor latest
start_pos none latest = omega arith
start_pos (some c) latest = omega arith

pub reached_cases :
    (cursor : Option ℕ) (latest l : ℕ)
    → IsReached cursor latest l
    → ((c : ℕ) × ((cursor ≡ some c) × (l ≤ c))) ⊎ (start_ledger_of cursor latest ≤ l)
reached_cases none latest l h = inr h
reached_cases (some c) latest l (inl below) = inl (c, (refl, below))
reached_cases (some c) latest l (inr from) = inr from

pub moved-Reports :
    {N : Type 0} (native_of : String → Option Native) (merchant : Merchant)
    (chain : ℕ → List RawEvent) (report : Report) (r : Option (Unit {0}) × (Db × N))
    (table : List Payment)
    → r.1.0.payments ≡ table
    → ((l : ℕ) (e : RawEvent)
        → report.start_ledger ≤ l
        → l ≤ report.synced_to
        → IsIn e (chain l)
        → IsPaid native_of merchant e table)
    → Reports native_of merchant chain (cursor_moved report r)
moved-Reports native_of merchant chain report (none, w) table same paid = tt
moved-Reports native_of merchant chain report (some x, (db, n)) table same paid =
    λ l e from to has. subst (λ t. IsPaid native_of merchant e t) (sym same) (paid l e from to has)
