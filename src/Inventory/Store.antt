-- ===== src/Inventory/Store.antt =====
-- `PostgresReservationTransaction` and `PostgresInventoryReservationStore`: what each statement
-- reads from the tables and writes to them. A row lock has no effect of its own here, since
-- transactions run one after another.
use accensa_app.Prelude.{
  ℕ, ◌+◌, ◌-◌, ◌^◌, String, Bool, true, false, ◌&&◌, ◌||◌, not, List, [], ◌∷◌, map, Option, none,
  some, ltb, leb, ◌==◌, if◌then◌else◌, str_eq,
}
use accensa_app.Inventory.{
  Line, Status, expired, is_active, Item, Reservation, Db, InventoryStock, Result, ok, throw,
  constraint, Orders,
}
use accensa_app.Inventory.Lines.{sort}

-- The largest value of a column of type INT.
abbrev pub int_max : ℕ
int_max = 2 ^ 31 - 1

abbrev pub is_item : ℕ → String → Item → Bool
is_item m sku i = i.merchant == m && str_eq i.sku sku

-- `lockStock`; the whole row.
unfoldable pub lock_stock : ℕ → String → List Item → Option Item
lock_stock m sku [] = none
lock_stock m sku (i ∷ is) = if is_item m sku i then some i else lock_stock m sku is

-- `SUM(quantity)` over the lines of one reservation with the sku.
unfoldable pub quantity_of : String → List Line → ℕ
quantity_of sku [] = 0
quantity_of sku (l ∷ ls) = (if str_eq l.sku sku then l.quantity else 0) + quantity_of sku ls

abbrev pub holds : ℕ → ℕ → Reservation → Bool
holds m now r = r.merchant == m && is_active r.status && ltb now r.expires_at

-- The sum that `activeQuantity` and `listStock` select.
unfoldable pub active_sum : ℕ → String → ℕ → List Reservation → ℕ
active_sum m sku now [] = 0
active_sum m sku now (r ∷ rs) =
    (if holds m now r then quantity_of sku r.lines else 0) + active_sum m sku now rs

-- `activeQuantity`, whose sum is cast to INT.
unfoldable pub active_quantity : ℕ → String → ℕ → List Reservation → Result ℕ
unfolding active_sum quantity_of
active_quantity m sku now rs =
    let n = active_sum m sku now rs in if leb n int_max then ok n else throw constraint

abbrev pub expire_row : ℕ → ℕ → Reservation → Reservation
expire_row m now r =
    if r.merchant == m && is_active r.status && leb r.expires_at now
    then record r { status = expired }
    else r

-- `expireReservations`
unfoldable pub expire_reservations : ℕ → ℕ → Db → Db
expire_reservations m now db = record db { reservations = map (expire_row m now) db.reservations }

-- `findByCheckout`
unfoldable pub find_by_checkout : ℕ → String → List Reservation → Option Reservation
find_by_checkout m checkout [] = none
find_by_checkout m checkout (r ∷ rs) =
    if r.merchant == m && str_eq r.checkout checkout then some r else find_by_checkout m checkout rs

-- `lockReservation`. The column is a UUID: an identifier is taken in the text that it is printed as.
unfoldable pub lock_reservation : ℕ → String → List Reservation → Option Reservation
lock_reservation m id [] = none
lock_reservation m id (r ∷ rs) =
    if r.merchant == m && str_eq r.id id then some r else lock_reservation m id rs

-- `reservationLines`
unfoldable pub reservation_lines : Orders → Reservation → List Line
unfolding sort
reservation_lines o r = sort o.collate_le r.lines

unfoldable pub id_taken : String → List Reservation → Bool
id_taken id [] = false
id_taken id (r ∷ rs) = str_eq r.id id || id_taken id rs

abbrev is_found : Option Item → Bool
is_found none = false
is_found (some i) = true

unfoldable pub sku_taken : String → List Line → Bool
sku_taken sku [] = false
sku_taken sku (l ∷ ls) = str_eq l.sku sku || sku_taken sku ls

-- The checks, the foreign key and the primary key of `inventory_reservation_items`.
unfoldable pub storable : ℕ → List Item → List Line → Bool
storable m items [] = true
storable m items (l ∷ ls) =
    (ltb 0 l.quantity
      && leb l.quantity int_max
      && is_found (lock_stock m l.sku items)
      && not (sku_taken l.sku ls))
    && storable m items ls

abbrev pub is_taken : Option Reservation → Bool
is_taken none = false
is_taken (some r) = true

-- `createReservation`
unfoldable pub create_reservation : Reservation → Db → Result Db
unfolding id_taken find_by_checkout storable lock_stock sku_taken
create_reservation r db =
    if id_taken r.id db.reservations
      || is_taken (find_by_checkout r.merchant r.checkout db.reservations)
      || not (storable r.merchant db.items r.lines)
    then throw constraint
    else ok (record db { reservations = r ∷ db.reservations })

-- `ensureStockItem`
unfoldable pub ensure_stock_item : ℕ → String → String → List Item → List Item
ensure_stock_item m sku name [] =
    record { merchant = m; sku = sku; name = name; stock = 0; threshold = 5 } ∷ []
ensure_stock_item m sku name (i ∷ is) =
    if is_item m sku i then i ∷ is else i ∷ ensure_stock_item m sku name is

-- `updateStock`
unfoldable pub update_stock : ℕ → String → String → ℕ → ℕ → List Item → List Item
update_stock m sku name stock threshold [] = []
update_stock m sku name stock threshold (i ∷ is) =
    if is_item m sku i
    then record i { name = name; stock = stock; threshold = threshold } ∷ is
    else i ∷ update_stock m sku name stock threshold is

-- Puts a row that has not changed back before the rows that have.
abbrev keep_row : Item → Option (List Item) → Option (List Item)
keep_row i none = none
keep_row i (some is) = some (i ∷ is)

-- `decrementStock`; `none` is the answer false, and then nothing changes.
unfoldable pub decrement_stock : ℕ → String → ℕ → List Item → Option (List Item)
decrement_stock m sku q [] = none
decrement_stock m sku q (i ∷ is) =
    if is_item m sku i
    then (if leb q i.stock then some (record i { stock = i.stock - q } ∷ is) else none)
    else keep_row i (decrement_stock m sku q is)

abbrev pub set_status : String → Status → Reservation → Reservation
set_status id s r = if str_eq r.id id then record r { status = s } else r

-- `updateReservationStatus`
unfoldable pub update_status : String → Status → Db → Db
update_status id s db = record db { reservations = map (set_status id s) db.reservations }

-- `transaction`: a throw rolls back every write.
unfoldable pub transaction {ℓ} : {A : Type ℓ} → (Db → Result (A × Db)) → Db → Result A × Db
transaction work db = elim (work db) [ ok (a, db') ↦ (ok a, db') | throw e ↦ (throw e, db) ]

abbrev pub contains : String → List String → Bool
contains s [] = false
contains s (x ∷ xs) = str_eq x s || contains s xs

abbrev pub is_listed : Option (List String) → String → Bool
is_listed none sku = true
is_listed (some skus) sku = contains sku skus

abbrev pub stock_row : ℕ → ℕ → List Reservation → Item → InventoryStock
stock_row m now rs i = record {
  sku = i.sku;
  name = i.name;
  stock_quantity = i.stock;
  low_stock_threshold = i.threshold;
  available = i.stock - active_sum m i.sku now rs;
}

unfoldable pub insert_row :
    (String → String → Bool) → InventoryStock → List InventoryStock → List InventoryStock
insert_row le x [] = x ∷ []
insert_row le x (y ∷ ys) = if le x.sku y.sku then x ∷ y ∷ ys else y ∷ insert_row le x ys

-- `listStock`
unfoldable pub list_stock :
    Orders → ℕ → Option (List String) → ℕ → List Reservation → List Item → List InventoryStock
list_stock o m skus now rs [] = []
list_stock o m skus now rs (i ∷ is) =
    let rest = list_stock o m skus now rs is in
    if i.merchant == m && is_listed skus i.sku
    then insert_row o.collate_le (stock_row m now rs i) rest
    else rest
