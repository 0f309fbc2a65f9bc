-- ===== src/Inventory/Over.antt =====
-- A reservation that is not active any more, under the transactions of the manager.
use accensa_app.Prelude.{
  ℕ, ◌≡◌, refl, subst, String, Bool, true, false, ◌&&◌, not, List, [], ◌∷◌, map, none, some, arith,
  str_eq, eq_iff, Bool-cases, Option-cases, inl, inr, ltb, leb, if◌then◌else◌, ◌==◌,
}
use accensa_app.Inventory.{
  Line, Status, committed, released, expired, is_active, Reservation, Db, ReserveResult, reserved,
  refused, Result, ok, result_cases, Orders,
}
use accensa_app.Inventory.Store.{
  lock_reservation, reservation_lines, set_status, update_status, transaction, expire_row,
  expire_reservations, find_by_checkout, id_taken, create_reservation, active_quantity,
  ensure_stock_item, update_stock, int_max,
}
use accensa_app.Inventory.Manager.{
  Action, commit, release, decrement_lines, finish_row, finish_work, replay, check_items, Checked,
  enough, stop, finish_reserve, reserve_work, set_stock_work,
}

-- The reservation of the merchant under the identifier is there and not active.
unfoldable pub is_over : ℕ → String → List Reservation → Bool
is_over m id [] = false
is_over m id (r ∷ rs) =
    if r.merchant == m && str_eq r.id id then not (is_active r.status) else is_over m id rs

module _ (m : ℕ) (id : String) where
  pub is_over-lock :
      (rs : List Reservation) (r : Reservation)
      → lock_reservation m id rs ≡ some r
      → is_over m id rs ≡ not (is_active r.status)
  unfolding is_over lock_reservation
  is_over-lock [] r e = absurd (cc)
  is_over-lock (x ∷ rs) r e = ground (arith, is_over-lock rs r)

  pub is_over-none :
      (rs : List Reservation) → lock_reservation m id rs ≡ none → is_over m id rs ≡ false
  unfolding is_over lock_reservation
  is_over-none [] e = refl
  is_over-none (x ∷ rs) e = ground (arith, is_over-none rs)

  is_over-expire :
      (k now : ℕ) (rs : List Reservation)
      → is_over m id rs ≡ true
      → is_over m id (map (expire_row k now) rs) ≡ true
  unfolding is_over
  is_over-expire k now [] h = h
  is_over-expire k now (r ∷ rs) h = ground (arith, is_over-expire k now rs)

  is_over-set_status :
      (other : String) (s : Status) (rs : List Reservation)
      → is_active s ≡ false
      → is_over m id rs ≡ true
      → is_over m id (map (set_status other s) rs) ≡ true
  unfolding is_over
  is_over-set_status other s [] e h = h
  is_over-set_status other s (r ∷ rs) e h =
      let rest = is_over-set_status other s rs e in
      elim (Bool-cases (str_eq r.id other)) [
        | inl named ↦ rw named (elim (Bool-cases (r.merchant == m && str_eq r.id id)) [
          | inl mine ↦ rw (mine, e) refl
          | inr another ↦ rw another (rest (rw another at h))
        ])
        | inr unnamed ↦ rw unnamed (elim (Bool-cases (r.merchant == m && str_eq r.id id)) [
          | inl mine ↦ rw mine (rw mine at h)
          | inr another ↦ rw another (rest (rw another at h))
        ])
      ]

  is_over-taken : (rs : List Reservation) → is_over m id rs ≡ true → id_taken id rs ≡ true
  unfolding is_over id_taken
  is_over-taken [] h = absurd (cc)
  is_over-taken (r ∷ rs) h = ground (arith, is_over-taken rs)

  create_reservation-is_over :
      (r : Reservation) (db db' : Db)
      → create_reservation r db ≡ ok db'
      → is_over m id db.reservations ≡ true
      → is_over m id db'.reservations ≡ true
  unfolding is_over create_reservation
  create_reservation-is_over r db db' e h =
      ground (arith, is_over-taken db.reservations h, eq_iff r.id id)

  abbrev pub IsOver : Db → Type 0
  IsOver db = is_over m id db.reservations ≡ true

  IsOver-outcome : {A : Type 0} {x y : A × Db} → x ≡ y → IsOver x.1 → IsOver y.1
  IsOver-outcome same h = subst (λ z. IsOver z.1) same h

  pub transaction-IsOver :
      {A : Type 0} (work : Db → Result (A × Db)) (db : Db)
      → IsOver db
      → ((x : A × Db) → work db ≡ ok x → IsOver x.1)
      → IsOver (transaction work db).1
  unfolding transaction
  transaction-IsOver work db v h = elim (result_cases (work db)) [
    | inl (x, e) ↦ rw (e, transaction) (h x e)
    | inr (y, e) ↦ rw (e, transaction) v
  ]

  update_status-IsOver :
      (other : String) (s : Status) (db : Db)
      → is_active s ≡ false
      → IsOver db
      → IsOver (update_status other s db)
  unfolding update_status
  update_status-IsOver other s db e v = is_over-set_status other s db.reservations e v

  pub expire_reservations-IsOver :
      (k now : ℕ) (db : Db) → IsOver db → IsOver (expire_reservations k now db)
  unfolding expire_reservations
  expire_reservations-IsOver k now db v = is_over-expire k now db.reservations v

  finish_row-IsOver :
      (o : Orders) (k : ℕ) (other : String) (a : Action) (now : ℕ) (r : Reservation) (db : Db)
      (x : Bool × Db)
      → IsOver db
      → finish_row o k other a now r db ≡ ok x
      → IsOver x.1
  unfolding finish_row
  finish_row-IsOver o k other release now r db x v e =
      let same : ◌≡◌ {A = Bool × Db} (true, update_status other released db) x = cc in
      IsOver-outcome same (update_status-IsOver other released db refl v)
  finish_row-IsOver o k other commit now r db x v e = elim (Bool-cases (leb r.expires_at now)) [
    | inl late ↦
        let same : ◌≡◌ {A = Bool × Db} (false, update_status other expired db) x = ground arith in
        IsOver-outcome same (update_status-IsOver other expired db refl v)
    | inr soon ↦ elim (result_cases (decrement_lines k (reservation_lines o r) db.items)) [
      | inl (items, f) ↦
          let same : ◌≡◌ {A = Bool × Db}
              (true, update_status other committed (record db { items = items })) x =
            ground arith in
          IsOver-outcome same
            (update_status-IsOver other committed (record db { items = items }) refl v)
      | inr (y, f) ↦ absurd (ground arith)
    ]
  ]

  pub finish_work-IsOver :
      (o : Orders) (k : ℕ) (other : String) (a : Action) (now : ℕ) (db : Db) (x : Bool × Db)
      → IsOver db
      → finish_work o k other a now db ≡ ok x
      → IsOver x.1
  unfolding finish_work
  finish_work-IsOver o k other a now db x v e =
      let nothing = λ (same : ◌≡◌ {A = Bool × Db} (false, db) x). IsOver-outcome same v in
      elim (Option-cases (lock_reservation k other db.reservations)) [
        | inl n ↦ nothing (ground arith)
        | inr (r, found) ↦ elim (Bool-cases (is_active r.status)) [
          | inl live ↦ finish_row-IsOver o k other a now r db x v (ground arith)
          | inr dead ↦ nothing (ground arith)
        ]
      ]

  finish_reserve-IsOver :
      (r : Reservation) (db : Db) (c : Checked) (x : ReserveResult × Db)
      → IsOver db
      → finish_reserve r db c ≡ ok x
      → IsOver x.1
  finish_reserve-IsOver r db (stop why sku free) x v f =
      let same : ◌≡◌ {A = ReserveResult × Db} (refused why sku free, db) x = cc in
      IsOver-outcome same v
  finish_reserve-IsOver r db (enough left) x v f = elim (result_cases (create_reservation r db)) [
    | inl (db', g) ↦
        let same : ◌≡◌ {A = ReserveResult × Db} (reserved r.id r.expires_at left, db') x =
          ground arith in
        IsOver-outcome same (create_reservation-is_over r db db' g v)
    | inr (y, g) ↦ absurd (ground arith)
  ]

  replay-IsOver :
      (o : Orders) (items : List Line) (checked : ℕ) (r : Reservation) (db : Db)
      → IsOver db
      → IsOver (replay o items checked r db).1
  unfolding replay
  replay-IsOver o items checked r db v = ground (arith, update_status-IsOver r.id expired db refl v)

  pub reserve_work-IsOver :
      (o : Orders) (k now checked : ℕ) (r : Reservation) (db : Db) (x : ReserveResult × Db)
      → IsOver db
      → reserve_work o k now checked r db ≡ ok x
      → IsOver x.1
  unfolding reserve_work
  reserve_work-IsOver o k now checked r db x v e =
      let db' = expire_reservations k now db in
      let v' = expire_reservations-IsOver k now db v in
      elim (Option-cases (find_by_checkout k r.checkout db'.reservations)) [
        | inl n ↦ elim (result_cases (check_items k now db' r.lines)) [
          | inl (c, f) ↦ finish_reserve-IsOver r db' c x v' (ground arith)
          | inr (y, f) ↦ absurd (ground arith)
        ]
        | inr (old, f) ↦
            let same : replay o r.lines checked old db' ≡ x = ground arith in
            IsOver-outcome same (replay-IsOver o r.lines checked old db' v')
      ]

  pub set_stock_work-IsOver :
      (k : ℕ) (sku name : String) (stock threshold now : ℕ) (db : Db) (x : Bool × Db)
      → IsOver db
      → set_stock_work k sku name stock threshold now db ≡ ok x
      → IsOver x.1
  unfolding set_stock_work
  set_stock_work-IsOver k sku name stock threshold now db x v e =
      elim (result_cases (active_quantity k sku now db.reservations)) [
        | inr (y, f) ↦ absurd (ground arith)
        | inl (held, f) ↦ elim (Bool-cases (ltb stock held)) [
          | inl short ↦
              let same : ◌≡◌ {A = Bool × Db}
                  (false, record db { items = ensure_stock_item k sku name db.items }) x =
                ground arith in
              IsOver-outcome same v
          | inr fits ↦ elim (Bool-cases (leb stock int_max && leb threshold int_max)) [
            | inl small ↦
                let same : ◌≡◌ {A = Bool × Db}
                    (
                      true,
                      record db {
                        items =
                            update_stock k sku name stock threshold
                              (ensure_stock_item k sku name db.items);
                      },
                    )
                    x =
                  ground arith in
                IsOver-outcome same v
            | inr large ↦ absurd (ground arith)
          ]
        ]
      ]
