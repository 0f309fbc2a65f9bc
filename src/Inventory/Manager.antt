-- ===== src/Inventory/Manager.antt =====
-- `InventoryReservationManager`. Each reading of the clock is an argument: a call of the clock may
-- answer a later time than the one before it. So is the identifier that `randomUUID` makes.
use accensa_app.Prelude.{
  ℕ, ◌+◌, ◌-◌, String, Bool, true, false, ◌&&◌, ◌||◌, not, List, [], ◌∷◌, Option, none, some, ltb,
  leb, ◌==◌, if◌then◌else◌,
}
use accensa_app.Prelude.Text.{matches_class, is_alnum, is_digit, is_empty, utf16_length, trim}
use accensa_app.Inventory.{
  ttl_ms, Line, active, committed, released, expired, is_active, Item, Reservation, Db,
  InventoryStock, Result, ok, throw, type_error, stock_changed, constraint, ◌>>=◌, Reason,
  out_of_stock, item_not_found, checkout_expired, checkout_conflict, ReserveResult, reserved,
  refused, Orders,
}
use accensa_app.Inventory.Lines.{is_safe, is_sku, normalized_lines, same_lines}
use accensa_app.Inventory.Store.{
  int_max, lock_stock, active_quantity, expire_reservations, find_by_checkout, lock_reservation,
  reservation_lines, create_reservation, ensure_stock_item, update_stock, decrement_stock,
  update_status, transaction, list_stock,
}

abbrev is_checkout_char : ℕ → Bool
is_checkout_char c = is_alnum c || c == b'_' || c == b'-'

unfoldable pub is_checkout_id : String → Bool
unfolding matches_class
is_checkout_id s = matches_class is_checkout_char 16 128 s

abbrev is_id_char : ℕ → Bool
is_id_char c = is_digit c || (leb b'a' c && leb c b'f') || (leb b'A' c && leb c b'F') || c == b'-'

unfoldable pub is_reservation_id : String → Bool
unfolding matches_class
is_reservation_id s = matches_class is_id_char 36 36 s

abbrev pub is_merchant_id : ℕ → Bool
is_merchant_id m = is_safe m && not (ltb m 1)

-- The branch of `reserve` for a checkout that has a reservation; `checked` is the time read there.
unfoldable pub replay : Orders → List Line → ℕ → Reservation → Db → ReserveResult × Db
unfolding same_lines reservation_lines update_status
replay o items checked previous db =
    if not (is_active previous.status) || leb previous.expires_at checked
    then (
      refused checkout_expired none none,
      if is_active previous.status then update_status previous.id expired db else db,
    )
    else (if same_lines (reservation_lines o previous) items
        then (reserved previous.id previous.expires_at [], db)
        else (refused checkout_conflict none none, db))

-- The outcome of the loop over the items: an early return, or the availability left.
pub data Checked : Type 0 where
  stop : Reason → Option String → Option ℕ → Checked
  enough : List (String × ℕ) → Checked

abbrev pub prepend : String × ℕ → Result Checked → Result Checked
prepend a (ok (enough rest)) = ok (enough (a ∷ rest))
prepend a r = r

-- One round of the loop, with the outcome of the rounds after it.
unfoldable pub check_item : Line → Item → ℕ → Result Checked → Result Checked
check_item item stock held rest =
    let available = stock.stock - held in
    if ltb available item.quantity
    then ok (stop out_of_stock (some item.sku) (some available))
    else prepend (item.sku, available - item.quantity) rest

unfoldable pub check_items : ℕ → ℕ → Db → List Line → Result Checked
unfolding lock_stock active_quantity check_item
check_items m now db [] = ok (enough [])
check_items m now db (item ∷ items) =
    let rest = check_items m now db items in
    elim (lock_stock m item.sku db.items) [
      | none ↦ ok (stop item_not_found (some item.sku) none)
      | some stock ↦ do
        held ← active_quantity m item.sku now db.reservations
        check_item item stock held rest
    ]

-- The row that `reserve` inserts.
abbrev pub new_reservation : ℕ → String → String → ℕ → List Line → Reservation
new_reservation m checkout id expires items = record {
  id = id;
  merchant = m;
  checkout = checkout;
  status = active;
  expires_at = expires;
  lines = items;
}

abbrev pub finish_reserve : Reservation → Db → Checked → Result (ReserveResult × Db)
finish_reserve r db (stop why sku available) = ok (refused why sku available, db)
finish_reserve r db (enough left) = do
  db' ← create_reservation r db
  ok (reserved r.id r.expires_at left, db')

-- The transaction of `reserve`.
unfoldable pub reserve_work : Orders → ℕ → ℕ → ℕ → Reservation → Db → Result (ReserveResult × Db)
unfolding expire_reservations find_by_checkout replay check_items create_reservation
reserve_work o m now checked r before =
    let db = expire_reservations m now before in
    elim (find_by_checkout m r.checkout db.reservations) [
      | some previous ↦ ok (replay o r.lines checked previous db)
      | none ↦ do outcome ← check_items m now db r.lines; finish_reserve r db outcome
    ]

abbrev pub reserve_lines :
    Orders → ℕ → String → String → ℕ → ℕ → ℕ → Db → Result (List Line) → Result ReserveResult × Db
reserve_lines o m checkout id now later checked db (throw e) = (throw e, db)
reserve_lines o m checkout id now later checked db (ok items) =
    transaction
      (reserve_work o m now checked (new_reservation m checkout id (later + ttl_ms) items)) db

-- `reserve`: `now`, `later` and `checked` are the three readings of the clock.
unfoldable pub reserve :
    Orders → ℕ → String → List Line → String → ℕ → ℕ → ℕ → Db → Result ReserveResult × Db
unfolding is_checkout_id normalized_lines transaction reserve_work
reserve o m checkout items id now later checked db =
    if not (is_merchant_id m) || not (is_checkout_id checkout)
    then (throw type_error, db)
    else reserve_lines o m checkout id now later checked db (normalized_lines o.locale_le items)

pub data Action : Type 0 where
  commit release : Action

abbrev pub is_commit : Action → Bool
is_commit commit = true
is_commit release = false

-- The loop of `finish` over the lines of the reservation.
unfoldable pub decrement_lines : ℕ → List Line → List Item → Result (List Item)
unfolding decrement_stock
decrement_lines m [] items = ok items
decrement_lines m (l ∷ ls) items = elim (decrement_stock m l.sku l.quantity items) [
  | none ↦ throw stock_changed
  | some items' ↦ decrement_lines m ls items'
]

-- The transaction of `finish` once the row is locked and active.
unfoldable pub finish_row : Orders → ℕ → String → Action → ℕ → Reservation → Db → Result (Bool × Db)
unfolding decrement_lines update_status reservation_lines
finish_row o m id release now r db = ok (true, update_status id released db)
finish_row o m id commit now r db =
    if leb r.expires_at now then ok (false, update_status id expired db) else do
      items ← decrement_lines m (reservation_lines o r) db.items
      ok (true, update_status id committed (record db { items = items }))

unfoldable pub finish_work : Orders → ℕ → String → Action → ℕ → Db → Result (Bool × Db)
unfolding lock_reservation finish_row
finish_work o m id action now db = elim (lock_reservation m id db.reservations) [
  | none ↦ ok (false, db)
  | some r ↦ if is_active r.status then finish_row o m id action now r db else ok (false, db)
]

-- `finish`
unfoldable pub finish : Orders → ℕ → String → Action → ℕ → Db → Result Bool × Db
unfolding is_reservation_id transaction finish_work
finish o m id action now db =
    if not (is_merchant_id m) || not (is_reservation_id id)
    then (throw type_error, db)
    else transaction (finish_work o m id action now) db

-- `stockLevels`
unfoldable pub stock_levels : Orders → ℕ → Option (List String) → ℕ → Db → List InventoryStock × Db
unfolding expire_reservations list_stock
stock_levels o m skus now db =
    let db' = expire_reservations m now db in
    (list_stock o m skus now db'.reservations db'.items, db')

-- The transaction of `setStockLevel`.
unfoldable pub set_stock_work : ℕ → String → String → ℕ → ℕ → ℕ → Db → Result (Bool × Db)
unfolding ensure_stock_item active_quantity update_stock
set_stock_work m sku name stock threshold now db =
    let items = ensure_stock_item m sku name db.items in
    do
      held ← active_quantity m sku now db.reservations
      if ltb stock held
          then ok (false, record db { items = items })
          else (if leb stock int_max && leb threshold int_max
              then ok (true, record db { items = update_stock m sku name stock threshold items })
              else throw constraint)

-- `setStockLevel`
unfoldable pub set_stock_level : ℕ → String → String → ℕ → ℕ → ℕ → Db → Result Bool × Db
unfolding trim utf16_length is_sku transaction set_stock_work
set_stock_level m sku name stock threshold now db =
    if not (is_merchant_id m)
      || not (is_sku sku)
      || is_empty (trim name)
      || ltb 160 (utf16_length name)
      || not (is_safe stock)
      || not (is_safe threshold)
    then (throw type_error, db)
    else transaction (set_stock_work m sku (trim name) stock threshold now) db
