-- ===== src/Indexer/Covered.antt =====
-- The sync from a start ledger on, against the events on the chain.
use accensa_app.Prelude.{
  ◌≡◌, sym, subst, ◌∙◌, ap, ◌≤◌, ◌-◌, ◌+◌, ℕ, true, List, ◌⊎◌, Option, some, Bool-cases, inl, inr,
  ltb, arith,
}
use accensa_app.Pager.{
  RawEvent, Request, Result, ok, window_fetch, consumer_failed, stuck, SweepResult,
}
use accensa_app.Pager.Members.{IsIn}
use accensa_app.Pager.Drain.{IsHonest}
use accensa_app.Pager.Coverage.{Sweeps, IsSwept}
use accensa_app.Pager.Consumed.{Keeps}
use accensa_app.Indexer.{Db, Merchant}
use accensa_app.Indexer.Table.{find_state, ledger_of}
use accensa_app.Indexer.Queries.{set_last_synced_ledger}
use accensa_app.Indexer.Window.{Services, World, sweep}
use accensa_app.Indexer.Run.{swept, sync_from, start_ledger_of, report_of, paging_budget_ms}
use accensa_app.Indexer.Consumer.{IsPaid}
use accensa_app.Indexer.Progress.{Progress, cursor_of, set_state-cursor, sweep-Sweeps, sweep-Keeps}
use accensa_app.Indexer.Coverage.{
  Covers, IsReached, Progress-Covers, set_last_synced_ledger_cases, cursor_moved_db, Good,
  start_pos, reached_cases, moved-Reports,
}

module _ {N : Type 0} (S : Services N) (merchant : Merchant) (chain : ℕ → List RawEvent)
    (left : Request → List RawEvent) (honest : IsHonest S.get_events chain left) where
  module _ (wanted : ℕ → Type 0) (latest : ℕ) (cursor : Option ℕ) (before : Db) (s : SweepResult)
      (w : World N) (at : cursor_of merchant.id before ≡ cursor)
      (reached : (l : ℕ) → wanted l → IsReached cursor latest l)
      (covers : Covers S.native_of merchant chain wanted before)
      (p : Progress S.native_of merchant before s.events w.db)
      (v : IsSwept chain (start_ledger_of cursor latest) latest s) where
    read-IsPaid :
        (l : ℕ) (e : RawEvent)
        → start_ledger_of cursor latest ≤ l
        → l ≤ s.next_ledger - 1
        → IsIn e (chain l)
        → IsPaid S.native_of merchant e w.db.payments
    read-IsPaid l e from to has =
        p.paid e (v.covers l e from (omega (arith, start_pos cursor latest)) has)

    kept-IsPaid :
        (c l : ℕ) (e : RawEvent)
        → cursor_of merchant.id before ≡ some c
        → wanted l
        → l ≤ c
        → IsIn e (chain l)
        → IsPaid S.native_of merchant e w.db.payments
    kept-IsPaid c l e at' want le has t decodes mine =
        p.keeps merchant.id t.tx_hash (covers c l e at' want le has t decodes mine)

    -- With the cursor where it was or at the end of the sweep.
    moved-Covers :
        (db : Db)
        → db.payments ≡ w.db.payments
        → ((c : ℕ)
            → cursor_of merchant.id db ≡ some c
            → (c ≡ s.next_ledger - 1) ⊎ (cursor_of merchant.id before ≡ some c))
        → Covers S.native_of merchant chain wanted db
    moved-Covers db same moves c l e at' want le has =
        subst (λ table. IsPaid S.native_of merchant e table) (sym same)
          (elim (moves c at') [
            | inr old ↦ kept-IsPaid c l e old want le has
            | inl new ↦ elim (reached_cases cursor latest l (reached l want)) [
              | inl (c', (is, below)) ↦ kept-IsPaid c' l e (at ∙ is) want below has
              | inr from ↦ read-IsPaid l e from (omega arith) has
            ]
          ])

    -- The end of a sync whose sweep has returned.
    moved-Good :
        (purged : Option ℕ)
        → Good S.native_of merchant chain wanted (swept S merchant latest cursor purged (ok s, w))
    moved-Good purged =
        let report = report_of latest cursor purged s w in
        let n = s.next_ledger - 1 in
        let q = set_last_synced_ledger S.down S.db_time merchant.id n (w.db, w.net) in
        let cursors : cursor_of merchant.id w.db ≡ cursor_of merchant.id before =
          ap (λ ss. ledger_of (find_state merchant.id ss)) p.cursors in
        let (table, moves) : (q.1.0.payments ≡ w.db.payments)
            × ((c : ℕ)
                → cursor_of merchant.id q.1.0 ≡ some c
                → (c ≡ n) ⊎ (cursor_of merchant.id before ≡ some c)) =
          elim (set_last_synced_ledger_cases S merchant.id n (w.db, w.net)) [
            | inl stays ↦ (
              ap (λ db. db.payments) stays,
              λ c at'. inr (sym cursors ∙ (ap (cursor_of merchant.id) (sym stays) ∙ at')),
            )
            | inr goes ↦ (
              ap (λ db. db.payments) goes,
              λ c at'.
                  elim (set_state-cursor true merchant.id n (S.db_time w.net) c w.db.sync_states
                    (ap (cursor_of merchant.id) (sym goes) ∙ at')) [
                      | inl is ↦ inl is
                      | inr old ↦ inr (sym cursors ∙ old)
                    ],
            )
          ] in
        (
          subst (Covers S.native_of merchant chain wanted)
              (sym (ap (λ r. r.0) (cursor_moved_db report q))) (moved-Covers q.1.0 table moves),
          moved-Reports S.native_of merchant chain report q w.db.payments table read-IsPaid,
        )

  swept-Good :
      (wanted : ℕ → Type 0) (latest : ℕ) (cursor purged : Option ℕ) (before : Db)
      (r : Result SweepResult × World N)
      → cursor_of merchant.id before ≡ cursor
      → ((l : ℕ) → wanted l → IsReached cursor latest l)
      → Covers S.native_of merchant chain wanted before
      → Keeps (λ es v. Progress S.native_of merchant before es v.db) r
      → Sweeps chain (start_ledger_of cursor latest) latest r.0
      → Good S.native_of merchant chain wanted (swept S merchant latest cursor purged r)
  swept-Good wanted latest cursor purged before (ok s, w) at reached covers p v =
      moved-Good wanted latest cursor before s w at reached covers p v purged
  swept-Good wanted latest cursor purged before (window_fetch a b, w) at reached covers (es, p) v =
      (Progress-Covers S.native_of merchant chain wanted es before w.db p covers, tt)
  swept-Good wanted latest cursor purged before (consumer_failed, w) at reached covers (es, p) v =
      (Progress-Covers S.native_of merchant chain wanted es before w.db p covers, tt)
  swept-Good wanted latest cursor purged before (stuck, w) at reached covers (es, p) v =
      (Progress-Covers S.native_of merchant chain wanted es before w.db p covers, tt)

  pub sync_from-Good :
      (wanted : ℕ → Type 0) (fuel latest : ℕ) (cursor purged : Option ℕ) (db : Db) (n : N)
      → cursor_of merchant.id db ≡ cursor
      → ((l : ℕ) → wanted l → IsReached cursor latest l)
      → Covers S.native_of merchant chain wanted db
      → Good S.native_of merchant chain wanted (sync_from S fuel merchant latest cursor purged db n)
  unfolding sync_from
  sync_from-Good wanted fuel latest cursor purged db n at reached covers =
      let start = start_ledger_of cursor latest in
      elim (Bool-cases (ltb latest start)) [
        | inl early ↦ rw early (covers, λ l e from to has. absurd (omega arith))
        | inr late ↦
            let w : World N = record { db = db; net = (S.clock n).1; decoded = 0; inserted = 0 } in
            rw late (
              swept-Good wanted latest cursor purged db
                (sweep S fuel merchant ((S.clock n).0 + paging_budget_ms) start latest w) at reached
                covers (sweep-Keeps S merchant fuel _ start latest w)
                (sweep-Sweeps S merchant chain left honest fuel _ start latest w))
      ]
