-- ===== src/Webhooks/Counted.antt =====
-- What a run of `deliverDue` reports.
use accensa_app.Prelude.{
  ℕ, suc, ◌+◌, ◌≤◌, ◌≡◌, String, Bool, List, [], ◌∷◌, Option, none, some, arith, Bool-cases, inl,
  inr, leb, length,
}
use accensa_app.Webhooks.{
  DeliveryStatus, pending, delivering, delivered, failed, dead_letter, Delivery, Db,
}
use accensa_app.Webhooks.Repository.{reset_stale, fetch_due, take_rows, claim}
use accensa_app.Webhooks.Deliver.{
  Turn, Counts, record_attempt, count, count_recorded, deliver_row, deliver_rows, claim_rows,
  deliver_due,
}

abbrev sum : Counts → ℕ
sum c = c.delivered + c.failed + c.retried

count-sum : (status : DeliveryStatus) (c : Counts) → sum (count status c) ≡ sum c + 1
count-sum pending c = omega arith
count-sum delivering c = omega arith
count-sum delivered c = omega arith
count-sum failed c = omega arith
count-sum dead_letter c = omega arith

take_rows-le : (n : ℕ) (ds : List Delivery) → length (take_rows n ds) ≤ n
unfolding take_rows
take_rows-le n [] = omega arith
take_rows-le ℕ.zero (d ∷ ds) = omega arith
take_rows-le (suc n) (d ∷ ds) = omega (arith, take_rows-le n ds)

claim_rows-le :
    (now : ℕ) (rows : List Delivery) (db : Db) → length (claim_rows now rows db).0 ≤ length rows
unfolding claim_rows
claim_rows-le now [] db = omega arith
claim_rows-le now (row ∷ rows) db =
    let rest = claim_rows-le now rows (claim now row.id db).1 in
    elim (Bool-cases (claim now row.id db).0) [
      | inl won ↦ rw won (omega (arith, rest))
      | inr lost ↦ rw lost (omega (arith, rest))
    ]

count_recorded-sum :
    (status : Option DeliveryStatus) (c : Counts) → sum (count_recorded status c) ≤ sum c + 1
count_recorded-sum none c = omega arith
count_recorded-sum (some status) c = omega (arith, count-sum status c)

module _ (date_parse : String → Option ℕ) (jitter : ℕ → ℕ) where
  deliver_row-sum :
      (signed : Bool) (deadline : ℕ) (turn : Turn) (row : Delivery) (s : Counts × Db)
      → sum (deliver_row date_parse jitter signed deadline turn row s).0 ≤ sum s.0 + 1
  unfolding deliver_row
  deliver_row-sum signed deadline turn row (c, db) = elim (Bool-cases (leb deadline turn.checked)) [
    | inl late ↦ rw late (omega arith)
    | inr soon ↦ elim (Bool-cases signed) [
      | inl key ↦
          let status =
            (record_attempt date_parse jitter turn.inserts turn.updates row.id (row.attempts + 1)
              row.created_at turn.recorded turn.outcome db).0 in
          rw (soon, key) (omega (arith, count_recorded-sum status c))
      | inr none' ↦ rw (soon, none') (omega arith)
    ]
  ]

  deliver_rows-sum :
      (signed : Bool) (deadline : ℕ) (turn : Delivery → Turn) (rows : List Delivery)
      (s : Counts × Db)
      → sum (deliver_rows date_parse jitter signed deadline turn rows s).0 ≤ sum s.0 + length rows
  unfolding deliver_rows
  deliver_rows-sum signed deadline turn [] s = omega arith
  deliver_rows-sum signed deadline turn (row ∷ rows) s =
      let next = deliver_row date_parse jitter signed deadline (turn row) row s in
      omega (
        arith,
        deliver_rows-sum signed deadline turn rows next,
        deliver_row-sum signed deadline (turn row) row s,
      )

  -- `deliverDue` attempts at most fifty deliveries, and counts at most one result for each.
  pub deliver_due-sum :
      (signed : Bool) (now started budget : ℕ) (turn : Delivery → Turn) (db : Db)
      → let s = (deliver_due date_parse jitter signed now started budget turn db).0 in
        (s.delivered + s.failed + s.retried ≤ s.attempted) × (s.attempted ≤ 50)
  unfolding deliver_due fetch_due
  deliver_due-sum signed now started budget turn db =
      let fresh = reset_stale started db in
      let rows = fetch_due now fresh in
      let claimed = claim_rows started rows fresh in
      (
        omega (
          arith,
          deliver_rows-sum signed (started + budget) turn claimed.0
              (record { delivered = 0; failed = 0; retried = 0 }, claimed.1),
        ),
        omega (arith, claim_rows-le started rows fresh, take_rows-le 50 _),
      )
