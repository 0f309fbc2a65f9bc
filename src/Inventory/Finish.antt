-- ===== src/Inventory/Finish.antt =====
-- What `finish` answers for a live reservation, and how it ends one.
use accensa_app.Prelude.{
  ℕ, ◌+◌, ◌<◌, ◌≡◌, refl, ◌∙◌, String, Bool, true, false, ◌&&◌, ◌||◌, not, List, [], ◌∷◌, map, some,
  arith, str_eq, Bool-cases, Option-cases, inl, inr, All, if◌then◌else◌, ◌==◌,
}
use accensa_app.Inventory.{
  Status, committed, released, is_active, Reservation, Db, Item, ok, result_cases, Orders,
}
use accensa_app.Inventory.Lines.{sort}
use accensa_app.Inventory.Store.{
  quantity_of, lock_reservation, reservation_lines, set_status, update_status, transaction,
}
use accensa_app.Inventory.Manager.{
  is_merchant_id, is_reservation_id, Action, commit, release, decrement_lines, finish_row,
  finish_work, finish,
}
use accensa_app.Inventory.Sums.{quantity_of-sort, active_sum-end}
use accensa_app.Inventory.Stock.{stock_of, decrement_lines-ok, stock_of-decrement_lines}
use accensa_app.Inventory.Normal.{Positive, sort-Positive}
use accensa_app.Inventory.Oversell.{Inv}

abbrev pub is_finishable : ℕ → String → Bool
is_finishable m id = is_merchant_id m && is_reservation_id id

pub lock_reservation-set_status :
    (m : ℕ) (id : String) (s : Status) (rs : List Reservation) (r : Reservation)
    → lock_reservation m id rs ≡ some r
    → lock_reservation m id (map (set_status id s) rs) ≡ some (record r { status = s })
unfolding lock_reservation
lock_reservation-set_status m id s [] r e = cc
lock_reservation-set_status m id s (x ∷ rs) r e =
    ground (arith, lock_reservation-set_status m id s rs r)

lines_of_lock-Positive :
    (m : ℕ) (id : String) (rs : List Reservation) (r : Reservation)
    → All (λ x. Positive x.lines) rs
    → lock_reservation m id rs ≡ some r
    → Positive r.lines
unfolding lock_reservation
lines_of_lock-Positive m id [] r p e = absurd (cc)
lines_of_lock-Positive m id (x ∷ rs) r p e = elim (Bool-cases (x.merchant == m && str_eq x.id id)) [
  | inl here ↦ let same : x ≡ r = ground arith in rw (← same) p.0
  | inr later ↦ lines_of_lock-Positive m id rs r p.1 (ground arith)
]

pub finish-work :
    (o : Orders) (m : ℕ) (id : String) (a : Action) (now : ℕ) (db : Db)
    → is_finishable m id ≡ true
    → finish o m id a now db ≡ transaction (finish_work o m id a now) db
unfolding finish
finish-work o m id a now db h = ground arith

-- The invariant lets the lines of a live reservation be taken.
committable :
    (now : ℕ) (db : Db) (o : Orders) (m : ℕ) (id : String) (r : Reservation)
    → Inv now db
    → lock_reservation m id db.reservations ≡ some r
    → is_active r.status ≡ true
    → now < r.expires_at
    → (items : List Item) × (decrement_lines m (reservation_lines o r) db.items ≡ ok items)
unfolding reservation_lines
committable now db o m id r v found live soon =
    decrement_lines-ok m (sort o.collate_le r.lines) db.items
      (sort-Positive o.collate_le r.lines
        (lines_of_lock-Positive m id db.reservations r v.positive found))
      λ s. omega (
        arith,
        v.bounded m s,
        quantity_of-sort o.collate_le s r.lines,
        active_sum-end m s id committed now db.reservations r refl found live soon,
      )

committing :
    (now : ℕ) (db : Db) (o : Orders) (m : ℕ) (id : String) (r : Reservation) (items : List Item)
    → lock_reservation m id db.reservations ≡ some r
    → is_active r.status ≡ true
    → now < r.expires_at
    → decrement_lines m (reservation_lines o r) db.items ≡ ok items
    → transaction (finish_work o m id commit now) db
      ≡ (ok true, update_status id committed (record db { items = items }))
unfolding transaction finish_work finish_row
committing now db o m id r items found live soon e = ground arith

-- Where the active reservations fit into the stock, an active reservation that has not run out can
-- be committed: `finish` answers true, takes exactly its lines from the merchant's stock and
-- nothing from any other merchant's, and marks it committed. So it never meets the error that the
-- reserved stock has changed.
pub finish-commit :
    (now : ℕ) (db : Db) (o : Orders) (m : ℕ) (id : String) (r : Reservation)
    → Inv now db
    → is_finishable m id ≡ true
    → lock_reservation m id db.reservations ≡ some r
    → is_active r.status ≡ true
    → now < r.expires_at
    → (db' : Db) × (finish o m id commit now db ≡ (ok true, db'))
      × ((k : ℕ) (s : String)
          → stock_of k s db'.items + (if m == k then quantity_of s r.lines else 0)
            ≡ stock_of k s db.items)
      × (lock_reservation m id db'.reservations ≡ some (record r { status = committed }))
unfolding update_status reservation_lines
finish-commit now db o m id r v valid found live soon =
    let (items, e) = committable now db o m id r v found live soon in
    (
      update_status id committed (record db { items = items }),
      finish-work o m id commit now db valid ∙ committing now db o m id r items found live soon e,
      (λ k s. ground (
        arith,
        quantity_of-sort o.collate_le s r.lines,
        stock_of-decrement_lines m (sort o.collate_le r.lines) db.items items k s e,
      )),
      lock_reservation-set_status m id committed db.reservations r found,
    )

-- How `finish` ended a reservation.
pub record Ended (m : ℕ) (id : String) (db db' : Db) : Type 0 where
  pub row : Reservation
  pub status : Status
  pub found : lock_reservation m id db.reservations ≡ some row
  pub over : is_active status ≡ false
  pub marked : db'.reservations ≡ map (set_status id status) db.reservations

finish_row-Ended :
    (o : Orders) (m : ℕ) (id : String) (a : Action) (now : ℕ) (db db' : Db) (r : Reservation)
    → lock_reservation m id db.reservations ≡ some r
    → finish_row o m id a now r db ≡ ok (true, db')
    → Ended m id db db'
unfolding finish_row update_status
finish_row-Ended o m id release now db db' r found e = record {
  row = r;
  status = released;
  found = found;
  over = refl;
  marked = ground arith;
}
finish_row-Ended o m id commit now db db' r found e = record {
  row = r;
  status = committed;
  found = found;
  over = refl;
  marked = marked;
}
  where
    marked : db'.reservations ≡ map (set_status id committed) db.reservations
    marked = elim (result_cases (decrement_lines m (reservation_lines o r) db.items)) [
      | inl (items, f) ↦ ground arith
      | inr (y, f) ↦ ground arith
    ]

pub finish_work-Ended :
    (o : Orders) (m : ℕ) (id : String) (a : Action) (now : ℕ) (db db' : Db)
    → finish_work o m id a now db ≡ ok (true, db')
    → Ended m id db db'
unfolding finish_work
finish_work-Ended o m id a now db db' e =
    elim (Option-cases (lock_reservation m id db.reservations)) [
      | inl n ↦ absurd (ground arith)
      | inr (r, found) ↦ elim (Bool-cases (is_active r.status)) [
        | inl live ↦ finish_row-Ended o m id a now db db' r found (ground arith)
        | inr dead ↦ absurd (ground arith)
      ]
    ]

pub finish-true :
    (o : Orders) (m : ℕ) (id : String) (a : Action) (now : ℕ) (db db' : Db)
    → finish o m id a now db ≡ (ok true, db')
    → (finish_work o m id a now db ≡ ok (true, db')) × (is_finishable m id ≡ true)
unfolding finish transaction
finish-true o m id a now db db' e =
    elim (Bool-cases (not (is_merchant_id m) || not (is_reservation_id id))) [
      | inl bad ↦ absurd (ground arith)
      | inr good ↦ elim (result_cases (finish_work o m id a now db)) [
        | inl (x, f) ↦ (ground arith, ground arith)
        | inr (y, f) ↦ absurd (ground arith)
      ]
    ]
