-- ===== src/Inventory/Ended.antt =====
-- A reservation that `finish` has ended, under all calls of the manager.
use accensa_app.Prelude.{
  ℕ, ◌≡◌, refl, sym, ◌∙◌, ap, String, true, false, ◌||◌, not, List, [], ◌∷◌, arith, Bool-cases,
  Option-cases, inl, inr, ltb,
}
use accensa_app.Prelude.Text.{trim, utf16_length, is_empty}
use accensa_app.Inventory.{Line, is_active, Db, Result, ok, throw, Orders}
use accensa_app.Inventory.Lines.{is_sku, is_safe}
use accensa_app.Inventory.Store.{lock_reservation, transaction}
use accensa_app.Inventory.Manager.{
  is_merchant_id, is_reservation_id, is_checkout_id, Action, finish_work, finish, reserve_work,
  reserve, reserve_lines, stock_levels, set_stock_work, set_stock_level,
}
use accensa_app.Inventory.Finish.{
  finish-work, Ended, finish_work-Ended, finish-true, lock_reservation-set_status,
}
use accensa_app.Inventory.Oversell.History.{Call, reserves, finishes, reads, sets, step, run}
use accensa_app.Inventory.Over.{
  IsOver, is_over-lock, is_over-none, transaction-IsOver, expire_reservations-IsOver,
  finish_work-IsOver, reserve_work-IsOver, set_stock_work-IsOver,
}

module _ (m : ℕ) (id : String) where
  reserve_lines-IsOver :
      (o : Orders) (k : ℕ) (checkout other : String) (now later checked : ℕ) (db : Db)
      (ls : Result (List Line))
      → IsOver m id db
      → IsOver m id (reserve_lines o k checkout other now later checked db ls).1
  reserve_lines-IsOver o k checkout other now later checked db (throw e) v = v
  reserve_lines-IsOver o k checkout other now later checked db (ok items) v =
      transaction-IsOver m id (reserve_work o k now checked _) db v
        (λ x f. reserve_work-IsOver m id o k now checked _ db x v f)

  reserve-IsOver :
      (o : Orders) (k : ℕ) (checkout : String) (items : List Line) (other : String)
      (now later checked : ℕ) (db : Db)
      → IsOver m id db
      → IsOver m id (reserve o k checkout items other now later checked db).1
  unfolding reserve
  reserve-IsOver o k checkout items other now later checked db v =
      elim (Bool-cases (not (is_merchant_id k) || not (is_checkout_id checkout))) [
        | inl bad ↦ rw bad v
        | inr good ↦ rw good (reserve_lines-IsOver o k checkout other now later checked db _ v)
      ]

  finish-IsOver :
      (o : Orders) (k : ℕ) (other : String) (a : Action) (now : ℕ) (db : Db)
      → IsOver m id db
      → IsOver m id (finish o k other a now db).1
  unfolding finish
  finish-IsOver o k other a now db v =
      elim (Bool-cases (not (is_merchant_id k) || not (is_reservation_id other))) [
        | inl bad ↦ rw bad v
        | inr good ↦ rw good (
            transaction-IsOver m id (finish_work o k other a now) db v
              (λ x e. finish_work-IsOver m id o k other a now db x v e))
      ]

  set_stock_level-IsOver :
      (k : ℕ) (sku name : String) (stock threshold now : ℕ) (db : Db)
      → IsOver m id db
      → IsOver m id (set_stock_level k sku name stock threshold now db).1
  unfolding set_stock_level
  set_stock_level-IsOver k sku name stock threshold now db v =
      elim (Bool-cases (
        not (is_merchant_id k)
        || not (is_sku sku)
        || is_empty (trim name)
        || ltb 160 (utf16_length name)
        || not (is_safe stock)
        || not (is_safe threshold))) [
          | inl bad ↦ rw bad v
          | inr good ↦ rw good (
              transaction-IsOver m id (set_stock_work k sku (trim name) stock threshold now) db v
                (λ x e. set_stock_work-IsOver m id k sku (trim name) stock threshold now db x v e))
        ]

  step-IsOver :
      (o : Orders) (now : ℕ) (c : Call) (db : Db) → IsOver m id db → IsOver m id (step o db now c)
  unfolding step stock_levels
  step-IsOver o now (reserves k checkout items other later checked) db v =
      reserve-IsOver o k checkout items other now later checked db v
  step-IsOver o now (finishes k other a) db v = finish-IsOver o k other a now db v
  step-IsOver o now (reads k skus) db v = expire_reservations-IsOver m id k now db v
  step-IsOver o now (sets k sku name stock threshold) db v =
      set_stock_level-IsOver k sku name stock threshold now db v

  run-IsOver :
      (o : Orders) (cs : List (ℕ × Call)) (db : Db) → IsOver m id db → IsOver m id (run o db cs)
  unfolding run
  run-IsOver o [] db v = v
  run-IsOver o ((now, c) ∷ cs) db v = run-IsOver o cs (step o db now c) (step-IsOver o now c db v)

  finish_work-over :
      (o : Orders) (a : Action) (now : ℕ) (db : Db)
      → IsOver m id db
      → finish_work o m id a now db ≡ ok (false, db)
  unfolding finish_work
  finish_work-over o a now db v = elim (Option-cases (lock_reservation m id db.reservations)) [
    | inl missing ↦
        let clash : true ≡ false = sym v ∙ is_over-none m id db.reservations missing in absurd (cc)
    | inr (r, found) ↦
        let known = is_over-lock m id db.reservations r found in
        let dead : is_active r.status ≡ false = ground arith in rw (finish_work, found, dead) refl
  ]

  Ended-IsOver : (db db' : Db) → Ended m id db db' → IsOver m id db'
  Ended-IsOver db db' h =
      let ended = lock_reservation-set_status m id h.status db.reservations h.row h.found in
      rw h.marked (is_over-lock m id _ _ ended ∙ ap not h.over)

-- Once a call of `finish` has ended a reservation, by either action, then after any sequence of calls of
-- any merchants a next call of `finish` for it, whichever its action and its time, answers false and
-- changes nothing.
pub finish_once :
    (o : Orders) (m : ℕ) (id : String) (a b : Action) (now later : ℕ) (db db' : Db)
    (cs : List (ℕ × Call))
    → finish o m id a now db ≡ (ok true, db')
    → finish o m id b later (run o db' cs) ≡ (ok false, run o db' cs)
unfolding transaction
finish_once o m id a b now later db db' cs e =
    let (done, valid) = finish-true o m id a now db db' e in
    let ended = Ended-IsOver m id db db' (finish_work-Ended o m id a now db db' done) in
    let over = finish_work-over m id o b later (run o db' cs) (run-IsOver m id o cs db' ended) in
    finish-work o m id b later (run o db' cs) valid ∙ rw (over, transaction)
