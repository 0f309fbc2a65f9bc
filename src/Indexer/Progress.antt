-- ===== src/Indexer/Progress.antt =====
-- The progress of a sync's sweep: the events that its consumer took, and the database.
use accensa_app.Prelude.{
  ◌≡◌, refl, sym, subst, ◌∙◌, ap, ◌-◌, ◌+◌, ℕ, String, Bool, List, [], ◌∷◌, ◌⊎◌, Option, none, some,
  Bool-cases, inl, inr, ltb, not, ◌||◌, ◌==◌, arith,
}
use accensa_app.Pager.{RawEvent, Request}
use accensa_app.Pager.Members.{IsIn, IsIn-split}
use accensa_app.Pager.Drain.{IsHonest}
use accensa_app.Pager.Coverage.{Sweeps, sweep_ledger_range-Sweeps}
use accensa_app.Pager.Batches.{parallel_sweep-Sweeps}
use accensa_app.Pager.Consumed.{IsKept, Keeps, sweep_ledger_range-Keeps, parallel_sweep-Keeps}
use accensa_app.Indexer.{SyncState, Db, Merchant}
use accensa_app.Indexer.Decode.{Native}
use accensa_app.Indexer.Table.{find_state, ledger_of, set_state}
use accensa_app.Indexer.Window.{
  Services, World, on_events, fetch_page, within_budget, sweep, parallel_sync_threshold,
}
use accensa_app.Indexer.Upserts.{IsRecorded}
use accensa_app.Indexer.Consumer.{
  IsPaid, on_events-true, on_events-false, on_events-IsPaid, on_events-keeps,
}

abbrev pub cursor_of : ℕ → Db → Option ℕ
cursor_of m db = ledger_of (find_state m db.sync_states)

-- A sync's progress from a database on: the events that were taken are paid, what was recorded stays
-- so, and the cursors have not moved.
pub record Progress (native_of : String → Option Native) (merchant : Merchant) (before : Db)
    (es : List RawEvent) (db : Db) : Type 0 where
  pub paid : (e : RawEvent) → IsIn e es → IsPaid native_of merchant e db.payments
  pub keeps :
      (m : ℕ) (hash : String) → IsRecorded m hash before.payments → IsRecorded m hash db.payments
  pub cursors : db.sync_states ≡ before.sync_states

-- The cursor after an upsert is the ledger given, or the one before.
pub set_state-cursor :
    (forward_only : Bool) (m n now c : ℕ) (ss : List SyncState)
    → ledger_of (find_state m (set_state forward_only m n now ss)) ≡ some c
    → (c ≡ n) ⊎ (ledger_of (find_state m ss) ≡ some c)
unfolding find_state set_state
set_state-cursor forward_only m n now c [] h = ground arith
set_state-cursor forward_only m n now c (s ∷ ss) h = elim (Bool-cases (s.merchant_id == m)) [
  | inr other ↦ rw other (set_state-cursor forward_only m n now c ss (rw (other, other) at h))
  | inl mine ↦ elim (Bool-cases (not forward_only || ltb s.last_ledger n)) [
    | inl moves ↦ ground arith
    | inr stays ↦ ground arith
  ]
]

module _ {N : Type 0} (S : Services N) (merchant : Merchant) where
  Progress-IsKept :
      (before : Db) (deadline : ℕ)
      → IsKept
          (fetch_page S)
          (within_budget S deadline)
          (on_events S merchant)
          (λ es w. Progress S.native_of merchant before es w.db)
  unfolding fetch_page within_budget
  Progress-IsKept before deadline = record {
    fetches = λ r es w p. p;
    asks = λ es w p. p;
    takes = λ es more w p h. record {
      paid = λ e has. elim (IsIn-split e es more has) [
        | inl old ↦ λ t decodes mine.
            on_events-keeps S merchant more w merchant.id t.tx_hash h (p.paid e old t decodes mine)
        | inr new ↦ on_events-IsPaid S merchant more w h e new
      ];
      keeps = λ m hash known. on_events-keeps S merchant more w m hash h (p.keeps m hash known);
      cursors = ap (λ db. db.sync_states) (on_events-true S merchant more w h) ∙ p.cursors;
    };
    throws = λ es more w p h.
        subst (λ db. Progress S.native_of merchant before es db)
          (sym (on_events-false S merchant more w h)) p;
  }

  module _ (chain : ℕ → List RawEvent) (left : Request → List RawEvent)
      (honest : IsHonest S.get_events chain left) where
    honest_page : IsHonest (fetch_page S) chain left
    unfolding fetch_page
    honest_page = record {
      windows = honest.windows;
      short = λ r w page got. honest.short r w.net page got;
      last = λ r w page got. honest.last r w.net page got;
      next = λ r w page cursor got. honest.next r w.net page cursor got;
    }

    pub sweep-Sweeps :
        (fuel deadline start_ledger latest : ℕ) (w : World N)
        → Sweeps chain start_ledger latest (sweep S fuel merchant deadline start_ledger latest w).0
    unfolding sweep
    sweep-Sweeps fuel deadline start_ledger latest w =
        elim (Bool-cases (ltb parallel_sync_threshold (latest - start_ledger + 1))) [
          | inl far ↦ rw far (
              parallel_sweep-Sweeps (fetch_page S) (within_budget S deadline) (on_events S merchant)
                chain left honest_page S.locale_le fuel start_ledger latest none none w)
          | inr near ↦ rw near (
              sweep_ledger_range-Sweeps (fetch_page S) (within_budget S deadline)
                (on_events S merchant) chain left honest_page S.locale_le fuel start_ledger latest
                none w)
        ]

  pub sweep-Keeps :
      (fuel deadline start_ledger latest : ℕ) (w : World N)
      → Keeps
          (λ es v. Progress S.native_of merchant w.db es v.db)
          (sweep S fuel merchant deadline start_ledger latest w)
  unfolding sweep
  sweep-Keeps fuel deadline start_ledger latest w =
      let kept = Progress-IsKept w.db deadline in
      let first : Progress S.native_of merchant w.db [] w.db = record {
        paid = λ e has. elim has [ ];
        keeps = λ m hash known. known;
        cursors = refl;
      } in
      elim (Bool-cases (ltb parallel_sync_threshold (latest - start_ledger + 1))) [
        | inl far ↦ rw far (
            parallel_sweep-Keeps (fetch_page S) (within_budget S deadline) (on_events S merchant) _
              kept S.locale_le fuel start_ledger latest none none w first)
        | inr near ↦ rw near (
            sweep_ledger_range-Keeps (fetch_page S) (within_budget S deadline)
              (on_events S merchant) _ kept S.locale_le fuel start_ledger latest none w first)
      ]
