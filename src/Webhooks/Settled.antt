-- ===== src/Webhooks/Settled.antt =====
-- The rows that a run of deliverDue claims, from the claim to the end of the run.
use accensa_app.Prelude.{
  ℕ, ◌+◌, ◌≡◌, refl, String, Bool, true, false, not, ◌||◌, List, [], ◌∷◌, Option, arith, All,
  Bool-cases, inl, inr, ◌==◌, leb,
}
use accensa_app.Webhooks.{delivering, is_pending, is_delivering, Delivery, Db, Outcome}
use accensa_app.Webhooks.Repository.{
  reset_stale, fetch_due, update_where, any_where, has_status, claim, requeue_unsent,
  persist_attempt,
}
use accensa_app.Webhooks.Deliver.{
  Turn, Counts, status_of, record_attempt, refused, deliver_row, deliver_rows, claim_rows,
  deliver_due,
}

abbrev pub is_among : ℕ → List Delivery → Bool
is_among id [] = false
is_among id (d ∷ ds) = d.id == id || is_among id ds

-- Only rows of the list are under way.
abbrev pub OnlyAmong : List Delivery → List Delivery → Type 0
OnlyAmong rows = All λ d. (not (is_delivering d.status) || is_among d.id rows) ≡ true

-- The statements that requeue a row or record its attempt succeed.
pub record Succeeds (turn : Turn) : Type 0 where
  pub requeued : turn.requeues ≡ true
  pub inserted : turn.inserts ≡ true
  pub updated : turn.updates ≡ true

-- No row is under way.
abbrev pub Settled : List Delivery → Type 0
Settled = All λ d. is_delivering d.status ≡ false

module _ (row : Delivery) (rows : List Delivery) (test : Delivery → Bool)
    (write : Delivery → Delivery) where
  -- An update that ends what is under way under its id.
  update_where-OnlyAmong :
      (ds : List Delivery)
      → ((d : Delivery) → is_delivering d.status ≡ true → test d ≡ true)
      → ((d : Delivery) → is_delivering (write d).status ≡ false)
      → OnlyAmong (row ∷ rows) ds
      → OnlyAmong rows (update_where row.id test write ds)
  unfolding update_where
  update_where-OnlyAmong [] f g v = tt
  update_where-OnlyAmong (d ∷ ds) f g (p, v) =
      (ground (arith, f d, g d), update_where-OnlyAmong ds f g v)

status_of-is_delivering : (code next : Option ℕ) → is_delivering (status_of code next) ≡ false
status_of-is_delivering code next = ground arith

module _ (date_parse : String → Option ℕ) (jitter : ℕ → ℕ) where
  record_attempt-OnlyAmong :
      (inserts updates : Bool) (row : Delivery) (rows : List Delivery) (number created now : ℕ)
      (o : Outcome) (db : Db)
      → inserts ≡ true
      → updates ≡ true
      → OnlyAmong (row ∷ rows) db.deliveries
      → OnlyAmong rows
          (record_attempt date_parse jitter inserts updates row.id number created now o
            db).1.deliveries
  unfolding record_attempt persist_attempt
  record_attempt-OnlyAmong false updates row rows number created now o db i u v = absurd (cc)
  record_attempt-OnlyAmong true false row rows number created now o db i u v = absurd (cc)
  record_attempt-OnlyAmong true true row rows number created now o db i u v =
      update_where-OnlyAmong row rows (λ d. true) _ db.deliveries (λ d _. refl)
        (λ d. status_of-is_delivering o.status_code _) v

  requeue_unsent-OnlyAmong :
      (requeues : Bool) (row : Delivery) (rows : List Delivery) (now : ℕ) (db : Db)
      → requeues ≡ true
      → OnlyAmong (row ∷ rows) db.deliveries
      → OnlyAmong rows (requeue_unsent requeues now row.id db).deliveries
  unfolding requeue_unsent
  requeue_unsent-OnlyAmong false row rows now db r v = absurd (cc)
  requeue_unsent-OnlyAmong true row rows now db r v =
      update_where-OnlyAmong row rows (has_status is_delivering) _ db.deliveries (λ d e. e)
        (λ d. refl) v

  deliver_row-OnlyAmong :
      (signed : Bool) (deadline : ℕ) (turn : Turn) (row : Delivery) (rows : List Delivery)
      (c : Counts) (db : Db)
      → Succeeds turn
      → OnlyAmong (row ∷ rows) db.deliveries
      → OnlyAmong rows (deliver_row date_parse jitter signed deadline turn row (c, db)).1.deliveries
  unfolding deliver_row
  deliver_row-OnlyAmong signed deadline turn row rows c db works v =
      let recorded = λ (o : Outcome).
        record_attempt-OnlyAmong turn.inserts turn.updates row rows (row.attempts + 1)
          row.created_at turn.recorded o db works.inserted works.updated v in
      elim (Bool-cases (leb deadline turn.checked)) [
        | inl late ↦
            rw late
              (requeue_unsent-OnlyAmong turn.requeues row rows turn.checked db works.requeued v)
        | inr soon ↦ elim (Bool-cases signed) [
          | inl key ↦ rw (soon, key) (recorded turn.outcome)
          | inr none' ↦ rw (soon, none') (recorded refused)
        ]
      ]

  deliver_rows-OnlyAmong :
      (signed : Bool) (deadline : ℕ) (turn : Delivery → Turn) (rows : List Delivery)
      (s : Counts × Db)
      → ((row : Delivery) → Succeeds (turn row))
      → OnlyAmong rows s.1.deliveries
      → OnlyAmong [] (deliver_rows date_parse jitter signed deadline turn rows s).1.deliveries
  unfolding deliver_rows
  deliver_rows-OnlyAmong signed deadline turn [] s works v = v
  deliver_rows-OnlyAmong signed deadline turn (row ∷ rows) (c, db) works v =
      deliver_rows-OnlyAmong signed deadline turn rows
        (deliver_row date_parse jitter signed deadline (turn row) row (c, db)) works
        (deliver_row-OnlyAmong signed deadline (turn row) row rows c db (works row) v)

OnlyAmong-Settled : (ds : List Delivery) → OnlyAmong [] ds → Settled ds
OnlyAmong-Settled [] v = tt
OnlyAmong-Settled (d ∷ ds) v = (ground arith, OnlyAmong-Settled ds v.1)

-- Only rows whose id passes the test are under way.
abbrev OnlyIf : (ℕ → Bool) → List Delivery → Type 0
OnlyIf p = All λ d. (not (is_delivering d.status) || p d.id) ≡ true

Settled-OnlyIf : (ds : List Delivery) → Settled ds → OnlyIf (λ _. false) ds
Settled-OnlyIf [] v = tt
Settled-OnlyIf (d ∷ ds) v = (ground arith, Settled-OnlyIf ds v.1)

OnlyIf-OnlyAmong :
    (rows ds : List Delivery) → OnlyIf (λ id. false || is_among id rows) ds → OnlyAmong rows ds
OnlyIf-OnlyAmong rows [] v = tt
OnlyIf-OnlyAmong rows (d ∷ ds) v = (v.0, OnlyIf-OnlyAmong rows ds v.1)

OnlyIf-none : (p : ℕ → Bool) (ds : List Delivery) → OnlyIf p ds → OnlyIf (λ id. p id || false) ds
OnlyIf-none p [] v = tt
OnlyIf-none p (d ∷ ds) v = (ground (arith, v.0), OnlyIf-none p ds v.1)

OnlyIf-assoc :
    (p : ℕ → Bool) (row : Delivery) (rows ds : List Delivery)
    → OnlyIf (λ id. (p id || row.id == id) || is_among id rows) ds
    → OnlyIf (λ id. p id || is_among id (row ∷ rows)) ds
OnlyIf-assoc p row rows [] v = tt
OnlyIf-assoc p row rows (d ∷ ds) v = (ground (arith, v.0), OnlyIf-assoc p row rows ds v.1)

module _ (p : ℕ → Bool) (now id : ℕ) where
  claimed_rows-OnlyIf :
      (ds : List Delivery)
      → OnlyIf p ds
      → OnlyIf
          (λ i. p i || id == i)
          (update_where id
            (has_status is_pending)
            (λ d. record d { status = delivering; updated_at = now })
            ds)
  unfolding update_where
  claimed_rows-OnlyIf [] v = tt
  claimed_rows-OnlyIf (d ∷ ds) v = (ground (arith, v.0), claimed_rows-OnlyIf ds v.1)

  lost_rows-OnlyIf :
      (ds : List Delivery)
      → any_where id (has_status is_pending) ds ≡ false
      → OnlyIf p ds
      → OnlyIf p (
          update_where id
            (has_status is_pending)
            (λ d. record d { status = delivering; updated_at = now })
            ds)
  unfolding update_where any_where
  lost_rows-OnlyIf [] e v = tt
  lost_rows-OnlyIf (d ∷ ds) e v = (ground (arith, v.0), lost_rows-OnlyIf ds (ground arith) v.1)

claim_rows-OnlyIf :
    (now : ℕ) (rows : List Delivery) (p : ℕ → Bool) (db : Db)
    → OnlyIf p db.deliveries
    → OnlyIf
        (λ id. p id || is_among id (claim_rows now rows db).0)
        (claim_rows now rows db).1.deliveries
unfolding claim_rows claim
claim_rows-OnlyIf now [] p db v = OnlyIf-none p db.deliveries v
claim_rows-OnlyIf now (row ∷ rows) p db v =
    elim (Bool-cases (any_where row.id (has_status is_pending) db.deliveries)) [
      | inl won ↦ rw won (
          OnlyIf-assoc p row _ _ (
            claim_rows-OnlyIf now rows (λ i. p i || row.id == i) (claim now row.id db).1
              (claimed_rows-OnlyIf p now row.id db.deliveries v)))
      | inr lost ↦ rw lost (
          claim_rows-OnlyIf now rows p (claim now row.id db).1
            (lost_rows-OnlyIf p now row.id db.deliveries lost v))
    ]

module _ (date_parse : String → Option ℕ) (jitter : ℕ → ℕ) where
  -- If no delivery is under way once the stale ones are reset, and no statement fails that requeues a
  -- row or records its attempt, then none is under way after `deliverDue` either: each that it claims
  -- is delivered, ended, or pending again.
  pub deliver_due-Settled :
      (signed : Bool) (now started budget : ℕ) (turn : Delivery → Turn) (db : Db)
      → ((row : Delivery) → Succeeds (turn row))
      → Settled (reset_stale started db).deliveries
      → Settled (deliver_due date_parse jitter signed now started budget turn db).1.deliveries
  unfolding deliver_due
  deliver_due-Settled signed now started budget turn db works v =
      let fresh = reset_stale started db in
      let rows = fetch_due now fresh in
      let taken =
        claim_rows-OnlyIf started rows (λ _. false) fresh (Settled-OnlyIf fresh.deliveries v) in
      OnlyAmong-Settled _ (
        deliver_rows-OnlyAmong date_parse jitter signed (started + budget) turn
          (claim_rows started rows fresh).0 _ works (OnlyIf-OnlyAmong _ _ taken))
