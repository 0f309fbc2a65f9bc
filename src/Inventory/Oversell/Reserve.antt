-- ===== src/Inventory/Oversell/Reserve.antt =====
-- `reserve` under the invariant.
use accensa_app.Prelude.{
  ℕ, not, ◌||◌, ◌+◌, ◌-◌, ◌≤◌, ◌<◌, ◌≡◌, refl, String, false, List, [], ◌∷◌, arith, ltb, str_eq,
  eq_iff, Bool-cases, Option-cases, inl, inr, subst,
}
use accensa_app.Inventory.{
  Line, expired, Reservation, Db, Result, ok, throw, result_cases, Orders, ReserveResult, reserved,
  refused, ttl_ms, Item,
}
use accensa_app.Inventory.Lines.{normalized_lines}
use accensa_app.Inventory.Store.{
  lock_stock, quantity_of, sku_taken, active_sum, active_quantity, expire_reservations,
  find_by_checkout, create_reservation,
}
use accensa_app.Inventory.Manager.{
  replay, Checked, stop, enough, prepend, check_item, check_items, new_reservation, finish_reserve,
  reserve_work, reserve, is_merchant_id, is_checkout_id,
}
use accensa_app.Inventory.Stock.{stock_of, stock_of-lock}
use accensa_app.Inventory.Normal.{Distinct, Positive, quantity_of-absent, normalized_lines-IsMerged}
use accensa_app.Inventory.Oversell.{transaction-Inv, Inv, expire-Inv, update_status-Inv}

replay-Inv :
    {t : ℕ} {db : Db} (o : Orders) (items : List Line) (checked : ℕ) (r : Reservation)
    → Inv t db
    → Inv t (replay o items checked r db).1
unfolding replay
replay-Inv o items checked r v = ground (arith, update_status-Inv r.id expired refl v)

prepend-enough :
    (a : String × ℕ) (r : Result Checked) (left : List (String × ℕ))
    → prepend a r ≡ ok (enough left)
    → (rest : List (String × ℕ)) × (r ≡ ok (enough rest))
prepend-enough a (ok (enough rest)) left e = (rest, refl)
prepend-enough a (ok (stop why sku free)) left e = absurd (cc)
prepend-enough a (throw x) left e = absurd (cc)

check_item-enough :
    (l : Line) (i : Item) (held : ℕ) (r : Result Checked) (left : List (String × ℕ))
    → 0 < l.quantity
    → check_item l i held r ≡ ok (enough left)
    → (l.quantity + held ≤ i.stock) × ((rest : List (String × ℕ)) × (r ≡ ok (enough rest)))
unfolding check_item
check_item-enough l i held r left p e = elim (Bool-cases (ltb (i.stock - held) l.quantity)) [
  | inl less ↦ absurd (ground arith)
  | inr fits ↦
      (ground arith, prepend-enough (l.sku, i.stock - held - l.quantity) r left (ground arith))
]

-- One round that passes.
check_items-cons :
    (m now : ℕ) (db : Db) (l : Line) (ls : List Line) (left : List (String × ℕ))
    → 0 < l.quantity
    → check_items m now db (l ∷ ls) ≡ ok (enough left)
    → (l.quantity + active_sum m l.sku now db.reservations ≤ stock_of m l.sku db.items)
      × ((rest : List (String × ℕ)) × (check_items m now db ls ≡ ok (enough rest)))
unfolding check_items active_quantity
check_items-cons m now db l ls left p e = elim (Option-cases (lock_stock m l.sku db.items)) [
  | inl n ↦ absurd (ground arith)
  | inr (i, f) ↦
      let held = active_sum m l.sku now db.reservations in
      let (fits, rest) =
        check_item-enough l i held (check_items m now db ls) left p (ground arith) in
      (omega (arith, fits, stock_of-lock m l.sku db.items i f), rest)
]

-- What passes the check fits into what is left of the stock.
check_items-fits :
    (m now : ℕ) (db : Db) (items : List Line) (left : List (String × ℕ)) (s : String)
    → Distinct items
    → Positive items
    → active_sum m s now db.reservations ≤ stock_of m s db.items
    → check_items m now db items ≡ ok (enough left)
    → quantity_of s items + active_sum m s now db.reservations ≤ stock_of m s db.items
unfolding quantity_of
check_items-fits m now db [] left s d p h e = omega arith
check_items-fits m now db (l ∷ ls) left s (fresh, d) (p, ps) h e =
    let (fits, (rest, f)) = check_items-cons m now db l ls left p e in
    let later = check_items-fits m now db ls rest s d ps h f in
    elim (Bool-cases (str_eq l.sku s)) [
      | inl same ↦
          let e' : l.sku ≡ s = (eq_iff l.sku s).0 same in
          let none_left : quantity_of s ls ≡ 0 =
            quantity_of-absent s ls (subst (λ x. sku_taken x ls ≡ false) e' fresh) in
          let fits' =
            subst (λ x. l.quantity + active_sum m x now db.reservations ≤ stock_of m x db.items) e'
              fits in
          rw same (omega (arith, fits', none_left))
      | inr other ↦ rw other (omega (arith, later))
    ]

create_reservation-Inv :
    {now : ℕ} {db db' : Db} (r : Reservation)
    → Inv now db
    → Positive r.lines
    → ((s : String)
        → quantity_of s r.lines + active_sum r.merchant s now db.reservations
          ≤ stock_of r.merchant s db.items)
    → create_reservation r db ≡ ok db'
    → Inv now db'
unfolding create_reservation
create_reservation-Inv {now} {db} {db'} r v p h e =
    let same : record db { reservations = r ∷ db.reservations } ≡ db' = ground arith in
    subst (Inv now) same (record { positive = (p, v.positive); bounded = added })
  where
    added : (m : ℕ) (s : String) → active_sum m s now (r ∷ db.reservations) ≤ stock_of m s db.items
    added m s = unfold active_sum in ground (arith, h s, v.bounded m s)

finish_reserve-Inv :
    {now : ℕ} {db : Db} {x : ReserveResult × Db} (r : Reservation) (c : Checked)
    → Inv now db
    → Distinct r.lines
    → Positive r.lines
    → check_items r.merchant now db r.lines ≡ ok c
    → finish_reserve r db c ≡ ok x
    → Inv now x.1
finish_reserve-Inv {now} {db} {x} r (stop why sku free) v d p e f =
    let same : ◌≡◌ {A = ReserveResult × Db} (refused why sku free, db) x = cc in
    subst (λ (y : ReserveResult × Db). Inv now y.1) same v
finish_reserve-Inv {now} {db} {x} r (enough left) v d p e f =
    elim (result_cases (create_reservation r db)) [
      | inl (db', g) ↦
          let same : ◌≡◌ {A = ReserveResult × Db} (reserved r.id r.expires_at left, db') x =
            ground arith in
          subst (λ (y : ReserveResult × Db). Inv now y.1) same
            (create_reservation-Inv r v p
              (λ s.
                check_items-fits r.merchant now db r.lines left s d p (v.bounded r.merchant s) e)
              g)
      | inr (y, g) ↦ absurd (ground arith)
    ]

reserve_work-Inv :
    {now : ℕ} {db : Db} {x : ReserveResult × Db} (o : Orders) (checked : ℕ) (r : Reservation)
    → Inv now db
    → Distinct r.lines
    → Positive r.lines
    → reserve_work o r.merchant now checked r db ≡ ok x
    → Inv now x.1
unfolding reserve_work
reserve_work-Inv {now} {db} {x} o checked r v d p e =
    elim (Option-cases (find_by_checkout r.merchant r.checkout db'.reservations)) [
      | inl n ↦ elim (result_cases (check_items r.merchant now db' r.lines)) [
        | inl (c, f) ↦ finish_reserve-Inv {x = x} r c v' d p f (ground arith)
        | inr (y, f) ↦ absurd (ground arith)
      ]
      | inr (old, f) ↦
          let same : replay o r.lines checked old db' ≡ x = ground arith in
          subst (λ (y : ReserveResult × Db). Inv now y.1) same (replay-Inv o r.lines checked old v')
    ]
  where
    db' : Db
    db' = expire_reservations r.merchant now db

    v' : Inv now db'
    v' = expire-Inv r.merchant v

-- Whatever the answer, the reservations fit into the stock afterwards, at the time `now`.
pub reserve-Inv :
    {now : ℕ} {db : Db} (o : Orders) (m : ℕ) (checkout : String) (items : List Line) (id : String)
    (later checked : ℕ)
    → Inv now db
    → Inv now (reserve o m checkout items id now later checked db).1
unfolding reserve
reserve-Inv {now} {db} o m checkout items id later checked v =
    elim (Bool-cases (not (is_merchant_id m) || not (is_checkout_id checkout))) [
      | inl bad ↦ rw bad v
      | inr good ↦ rw good (elim (result_cases (normalized_lines o.locale_le items)) [
        | inl (ls, e) ↦
            let merged = normalized_lines-IsMerged o.locale_le items ls e in
            let r = new_reservation m checkout id (later + ttl_ms) ls in
            rw e (
              transaction-Inv now (reserve_work o m now checked r) db v
                λ x f. reserve_work-Inv {x = x} o checked r v merged.distinct merged.positive f)
        | inr (y, e) ↦ rw e v
      ])
    ]
