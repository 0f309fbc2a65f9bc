-- ===== src/Inventory/Oversell/Finish.antt =====
-- `finish`, `setStockLevel` and `stockLevels` under the invariant.
use accensa_app.Prelude.{
  ℕ, not, leb, ltb, ◌||◌, ◌<◌, ◌≡◌, refl, String, Bool, true, false, List, Option, some, arith, ltb,
  eq_iff, Bool-cases, Option-cases, inl, inr,
}
use accensa_app.Inventory.{
  committed, released, expired, is_active, Reservation, Db, ok, result_cases, Orders, Item,
}
use accensa_app.Inventory.Lines.{sort, is_sku, is_safe}
use accensa_app.Prelude.Text.{trim, is_empty, utf16_length}
use accensa_app.Inventory.Store.{
  active_sum, active_quantity, lock_reservation, reservation_lines, ensure_stock_item, update_stock,
  update_status,
}
use accensa_app.Inventory.Manager.{
  is_merchant_id, is_reservation_id, Action, commit, release, decrement_lines, finish_row,
  finish_work, finish, stock_levels, set_stock_work, set_stock_level,
}
use accensa_app.Inventory.Sums.{quantity_of-sort, active_sum-set_status, active_sum-end}
use accensa_app.Inventory.Stock.{stock_of-ensure, stock_of-update, stock_of-decrement_lines}
use accensa_app.Inventory.Oversell.{
  set_status-Positive, outcome-Inv, transaction-Inv, Inv, expire-Inv, update_status-Inv,
}

decrement-Inv :
    {now : ℕ} {db : Db} {items : List Item} (o : Orders) (m : ℕ) (id : String) (r : Reservation)
    → Inv now db
    → lock_reservation m id db.reservations ≡ some r
    → is_active r.status ≡ true
    → now < r.expires_at
    → decrement_lines m (reservation_lines o r) db.items ≡ ok items
    → Inv now (update_status id committed (record db { items = items }))
unfolding update_status reservation_lines
decrement-Inv {now} {db} {items} o m id r v found live soon e = record {
  positive = set_status-Positive id committed db.reservations v.positive;
  bounded = λ k s. ground (
    arith,
    v.bounded k s,
    active_sum-set_status k s id committed now db.reservations,
    active_sum-end m s id committed now db.reservations r refl found live soon,
    quantity_of-sort o.collate_le s r.lines,
    stock_of-decrement_lines m (sort o.collate_le r.lines) db.items items k s e,
  );
}

finish_row-Inv :
    {now : ℕ} {db : Db} {x : Bool × Db} (o : Orders) (m : ℕ) (id : String) (action : Action)
    (r : Reservation)
    → Inv now db
    → lock_reservation m id db.reservations ≡ some r
    → is_active r.status ≡ true
    → finish_row o m id action now r db ≡ ok x
    → Inv now x.1
unfolding finish_row
finish_row-Inv {now} {db} {x} o m id release r v found live e =
    let same : ◌≡◌ {A = Bool × Db} (true, update_status id released db) x = cc in
    outcome-Inv same (update_status-Inv id released refl v)
finish_row-Inv {now} {db} {x} o m id commit r v found live e =
    elim (Bool-cases (leb r.expires_at now)) [
      | inl late ↦
          let same : ◌≡◌ {A = Bool × Db} (false, update_status id expired db) x = ground arith in
          outcome-Inv same (update_status-Inv id expired refl v)
      | inr soon ↦ elim (result_cases (decrement_lines m (reservation_lines o r) db.items)) [
        | inl (items, f) ↦
            let same : ◌≡◌ {A = Bool × Db}
                (true, update_status id committed (record db { items = items })) x =
              ground arith in
            outcome-Inv same (decrement-Inv o m id r v found live (ground arith) f)
        | inr (y, f) ↦ absurd (ground arith)
      ]
    ]

finish_work-Inv :
    {now : ℕ} {db : Db} {x : Bool × Db} (o : Orders) (m : ℕ) (id : String) (action : Action)
    → Inv now db
    → finish_work o m id action now db ≡ ok x
    → Inv now x.1
unfolding finish_work
finish_work-Inv {now} {db} {x} o m id action v e =
    let nothing = λ (same : ◌≡◌ {A = Bool × Db} (false, db) x). outcome-Inv same v in
    elim (Option-cases (lock_reservation m id db.reservations)) [
      | inl n ↦ nothing (ground arith)
      | inr (r, found) ↦ elim (Bool-cases (is_active r.status)) [
        | inl live ↦ finish_row-Inv {x = x} o m id action r v found live (ground arith)
        | inr dead ↦ nothing (ground arith)
      ]
    ]

-- Committing, releasing and failing to do either keep the reservations within the stock.
pub finish-Inv :
    {now : ℕ} {db : Db} (o : Orders) (m : ℕ) (id : String) (action : Action)
    → Inv now db
    → Inv now (finish o m id action now db).1
unfolding finish
finish-Inv {now} {db} o m id action v =
    elim (Bool-cases (not (is_merchant_id m) || not (is_reservation_id id))) [
      | inl bad ↦ rw bad v
      | inr good ↦ rw good (
          transaction-Inv now (finish_work o m id action now) db v
            λ x e. finish_work-Inv {x = x} o m id action v e)
    ]

set_stock_work-Inv :
    {now : ℕ} {db : Db} {x : Bool × Db} (m : ℕ) (sku name : String) (stock threshold : ℕ)
    → Inv now db
    → set_stock_work m sku name stock threshold now db ≡ ok x
    → Inv now x.1
unfolding set_stock_work active_quantity
set_stock_work-Inv {now} {db} {x} m sku name stock threshold v e =
    elim (Bool-cases (ltb stock (active_sum m sku now db.reservations))) [
      | inl short ↦
          let same : ◌≡◌ {A = Bool × Db} (false, record db { items = ensured }) x = ground arith in
          outcome-Inv same (record {
            positive = v.positive;
            bounded = λ k s. omega (arith, v.bounded k s, stock_of-ensure m k sku s name db.items);
          })
      | inr fits ↦
          let same : ◌≡◌ {A = Bool × Db}
              (true, record db { items = update_stock m sku name stock threshold ensured }) x =
            ground arith in
          outcome-Inv same (record {
            positive = v.positive;
            bounded = λ k s. ground (
              arith,
              v.bounded k s,
              stock_of-update m k sku s name stock threshold db.items,
              eq_iff sku s,
            );
          })
    ]
  where
    ensured : List Item
    ensured = ensure_stock_item m sku name db.items

-- A stock level is only accepted if it covers what is reserved.
pub set_stock_level-Inv :
    {now : ℕ} {db : Db} (m : ℕ) (sku name : String) (stock threshold : ℕ)
    → Inv now db
    → Inv now (set_stock_level m sku name stock threshold now db).1
unfolding set_stock_level
set_stock_level-Inv {now} {db} m sku name stock threshold v = elim (Bool-cases invalid) [
  | inl bad ↦ rw bad v
  | inr good ↦ rw good (
      transaction-Inv now (set_stock_work m sku (trim name) stock threshold now) db v
        λ x e. set_stock_work-Inv {x = x} m sku (trim name) stock threshold v e)
]
  where
    invalid : Bool
    invalid =
        not (is_merchant_id m)
        || not (is_sku sku)
        || is_empty (trim name)
        || ltb 160 (utf16_length name)
        || not (is_safe stock)
        || not (is_safe threshold)

pub stock_levels-Inv :
    {now : ℕ} {db : Db} (o : Orders) (m : ℕ) (skus : Option (List String))
    → Inv now db
    → Inv now (stock_levels o m skus now db).1
unfolding stock_levels
stock_levels-Inv o m skus v = expire-Inv m v
