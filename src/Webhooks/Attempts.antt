-- ===== src/Webhooks/Attempts.antt =====
-- The attempts of a delivery over the runs of deliverDue.
use accensa_app.Prelude.{
  ℕ, zero, suc, ◌+◌, ◌≤◌, ◌<◌, ◌≡◌, String, Bool, true, false, not, ◌||◌, ◌&&◌, List, [], ◌∷◌, map,
  Option, some, arith, All, Bool-cases, Option-cases, inl, inr, ◌==◌, leb,
}
use accensa_app.Webhooks.{is_pending, is_delivering, max_attempts, Delivery, Db, Outcome}
use accensa_app.Webhooks.RetryPolicy.{should_retry}
use accensa_app.Webhooks.Repository.{
  retry_before, reset_row, reset_stale, is_due, insert_due, due_rows, take_rows, fetch_due,
  update_where, claim, requeue_unsent, attempted_row, persist_attempt,
}
use accensa_app.Webhooks.Deliver.{
  Turn, Counts, is_ok, next_attempt, status_of, record_attempt, refused, deliver_row, deliver_rows,
  claim_rows, deliver_due,
}
use accensa_app.Webhooks.Schedule.{next_retry_at-IsScheduled}

-- Tried at most eight times, and less than that while it is to be tried again.
abbrev pub Bounded : Delivery → Type 0
Bounded d =
    (d.attempts ≤ max_attempts)
    × ((is_pending d.status || is_delivering d.status) ≡ true → d.attempts < max_attempts)

abbrev pub AllBounded : List Delivery → Type 0
AllBounded = All Bounded

pub update_where-Bounded :
    (id : ℕ) (test : Delivery → Bool) (write : Delivery → Delivery) (ds : List Delivery)
    → ((d : Delivery) → test d ≡ true → Bounded d → Bounded (write d))
    → AllBounded ds
    → AllBounded (update_where id test write ds)
unfolding update_where
update_where-Bounded id test write [] f h = tt
update_where-Bounded id test write (d ∷ ds) f (p, h) = elim (Bool-cases (d.id == id && test d)) [
  | inl hit ↦ rw hit (f d (ground arith) p, update_where-Bounded id test write ds f h)
  | inr miss ↦ rw miss (p, update_where-Bounded id test write ds f h)
]

reset_stale-Bounded :
    (now : ℕ) (ds : List Delivery) → AllBounded ds → AllBounded (map (reset_row now) ds)
reset_stale-Bounded now [] h = tt
reset_stale-Bounded now (d ∷ ds) h = (ground arith, reset_stale-Bounded now ds h.1)

module _ (date_parse : String → Option ℕ) (jitter : ℕ → ℕ) where
  next_attempt-lt :
      (number created now : ℕ) (o : Outcome) (at : ℕ)
      → next_attempt date_parse jitter number created now o ≡ some at
      → number < max_attempts
  unfolding next_attempt
  next_attempt-lt number created now o at e =
      elim (Bool-cases
        (not (is_ok o.status_code) && should_retry o.status_code o.transport_error)) [
          | inl again ↦
              let s =
                next_retry_at-IsScheduled date_parse jitter number created now o.retry_after at
                  (rw again at e) in
              s.attempts_left
          | inr done ↦ absurd (ground arith)
        ]

  attempted_row-Bounded :
      (now number created : ℕ) (o : Outcome) (d : Delivery)
      → number ≤ max_attempts
      → let next = next_attempt date_parse jitter number created now o in
        Bounded
          (attempted_row now number o.status_code o.error (status_of o.status_code next) next d)
  attempted_row-Bounded now number created o d h =
      elim (Option-cases (next_attempt date_parse jitter number created now o)) [
        | inl none' ↦ rw none' (ground arith)
        | inr (at, e) ↦ (h, λ _. next_attempt-lt number created now o at e)
      ]

  record_attempt-Bounded :
      (inserts updates : Bool) (id number created now : ℕ) (o : Outcome) (db : Db)
      → number ≤ max_attempts
      → AllBounded db.deliveries
      → AllBounded
          (record_attempt date_parse jitter inserts updates id number created now o db).1.deliveries
  unfolding record_attempt persist_attempt
  record_attempt-Bounded false updates id number created now o db h v = v
  record_attempt-Bounded true false id number created now o db h v = v
  record_attempt-Bounded true true id number created now o db h v =
      update_where-Bounded id (λ d. true) _ db.deliveries
        (λ d _ _. attempted_row-Bounded now number created o d h) v

  requeue_unsent-Bounded :
      (requeues : Bool) (now id : ℕ) (db : Db)
      → AllBounded db.deliveries
      → AllBounded (requeue_unsent requeues now id db).deliveries
  unfolding requeue_unsent
  requeue_unsent-Bounded false now id db v = v
  requeue_unsent-Bounded true now id db v =
      update_where-Bounded id _ _ db.deliveries (λ d t b. ground arith) v

  deliver_row-Bounded :
      (signed : Bool) (deadline : ℕ) (turn : Turn) (row : Delivery) (c : Counts) (db : Db)
      → row.attempts < max_attempts
      → AllBounded db.deliveries
      → AllBounded (deliver_row date_parse jitter signed deadline turn row (c, db)).1.deliveries
  unfolding deliver_row
  deliver_row-Bounded signed deadline turn row c db h v =
      let recorded = λ (o : Outcome).
        record_attempt-Bounded turn.inserts turn.updates row.id (row.attempts + 1) row.created_at
          turn.recorded o db (omega arith) v in
      elim (Bool-cases (leb deadline turn.checked)) [
        | inl late ↦ rw late (requeue_unsent-Bounded turn.requeues turn.checked row.id db v)
        | inr soon ↦ elim (Bool-cases signed) [
          | inl key ↦ rw (soon, key) (recorded turn.outcome)
          | inr none' ↦ rw (soon, none') (recorded refused)
        ]
      ]

  deliver_rows-Bounded :
      (signed : Bool) (deadline : ℕ) (turn : Delivery → Turn) (rows : List Delivery)
      (s : Counts × Db)
      → All (λ r. r.attempts < max_attempts) rows
      → AllBounded s.1.deliveries
      → AllBounded (deliver_rows date_parse jitter signed deadline turn rows s).1.deliveries
  unfolding deliver_rows
  deliver_rows-Bounded signed deadline turn [] s h v = v
  deliver_rows-Bounded signed deadline turn (row ∷ rows) (c, db) (p, h) v =
      deliver_rows-Bounded signed deadline turn rows
        (deliver_row date_parse jitter signed deadline (turn row) row (c, db)) h
        (deliver_row-Bounded signed deadline (turn row) row c db p v)

-- The rows that are due have attempts left.
abbrev HasLeft : List Delivery → Type 0
HasLeft = All λ r. r.attempts < max_attempts

insert_due-HasLeft :
    (d : Delivery) (ds : List Delivery)
    → d.attempts < max_attempts
    → HasLeft ds
    → HasLeft (insert_due d ds)
unfolding insert_due
insert_due-HasLeft d [] h v = (h, tt)
insert_due-HasLeft d (e ∷ ds) h v = elim (Bool-cases (retry_before d e)) [
  | inl first ↦ rw first (h, v)
  | inr later ↦ rw later (v.0, insert_due-HasLeft d ds h v.1)
]

due_rows-HasLeft : (now : ℕ) (ds : List Delivery) → AllBounded ds → HasLeft (due_rows now ds)
unfolding due_rows
due_rows-HasLeft now [] v = tt
due_rows-HasLeft now (d ∷ ds) (b, v) = elim (Bool-cases (is_due now d)) [
  | inl due ↦
      rw due
        (insert_due-HasLeft d (due_rows now ds) (b.1 (ground arith)) (due_rows-HasLeft now ds v))
  | inr idle ↦ rw idle (due_rows-HasLeft now ds v)
]

take_rows-HasLeft : (n : ℕ) (ds : List Delivery) → HasLeft ds → HasLeft (take_rows n ds)
unfolding take_rows
take_rows-HasLeft n [] v = tt
take_rows-HasLeft zero (d ∷ ds) v = tt
take_rows-HasLeft (suc n) (d ∷ ds) (p, v) = (p, take_rows-HasLeft n ds v)

claim-Bounded :
    (now id : ℕ) (db : Db) → AllBounded db.deliveries → AllBounded (claim now id db).1.deliveries
unfolding claim
claim-Bounded now id db v = update_where-Bounded id _ _ db.deliveries (λ d t b. ground arith) v

claim_rows-Bounded :
    (now : ℕ) (rows : List Delivery) (db : Db)
    → HasLeft rows
    → AllBounded db.deliveries
    → HasLeft (claim_rows now rows db).0 × AllBounded (claim_rows now rows db).1.deliveries
unfolding claim_rows
claim_rows-Bounded now [] db h v = (tt, v)
claim_rows-Bounded now (row ∷ rows) db (p, h) v =
    let (rest, w) =
      claim_rows-Bounded now rows (claim now row.id db).1 h (claim-Bounded now row.id db v) in
    elim (Bool-cases (claim now row.id db).0) [
      | inl won ↦ rw won ((p, rest), w)
      | inr lost ↦ rw lost (rest, w)
    ]

module _ (date_parse : String → Option ℕ) (jitter : ℕ → ℕ) where
  pub deliver_due-Bounded :
      (signed : Bool) (now started budget : ℕ) (turn : Delivery → Turn) (db : Db)
      → AllBounded db.deliveries
      → AllBounded (deliver_due date_parse jitter signed now started budget turn db).1.deliveries
  unfolding deliver_due reset_stale fetch_due
  deliver_due-Bounded signed now started budget turn db v =
      let fresh = reset_stale started db in
      let w : AllBounded fresh.deliveries = reset_stale-Bounded started db.deliveries v in
      let (left, taken) =
        claim_rows-Bounded started (fetch_due now fresh) fresh
          (take_rows-HasLeft 50 _ (due_rows-HasLeft now fresh.deliveries w)) w in
      deliver_rows-Bounded date_parse jitter signed (started + budget) turn
        (claim_rows started (fetch_due now fresh) fresh).0 _ left taken
