-- ===== src/Inventory/Oversell.antt =====
-- The invariant of the reservations, and the writes that keep it: time, expiry and the end of a hold.
pub mod Reserve
pub mod Finish
pub mod History
use accensa_app.Prelude.{
  ℕ, ◌+◌, ◌-◌, ◌≤◌, ◌<◌, ◌≡◌, refl, String, Bool, true, false, List, [], ◌∷◌, map, Option, none,
  some, arith, ltb, str_eq, eq_iff, Bool-cases, Option-cases, inl, inr, All, subst, if◌then◌else◌,
  ◌==◌, ◌&&◌,
}
use accensa_app.Inventory.{
  Line, Status, active, committed, released, expired, is_active, Reservation, Db, Result, ok, throw,
  result_cases, Orders, ReserveResult, reserved, ◌>>=◌, ttl_ms, Item,
}
use accensa_app.Inventory.Lines.{normalized_lines}
use accensa_app.Inventory.Store.{
  lock_stock, quantity_of, sku_taken, active_sum, active_quantity, expire_row, expire_reservations,
  find_by_checkout, lock_reservation, reservation_lines, create_reservation, ensure_stock_item,
  update_stock, set_status, update_status, transaction,
}
use accensa_app.Inventory.Manager.{
  replay, Checked, stop, enough, prepend, check_item, check_items, new_reservation, finish_reserve,
  reserve_work, reserve, reserve_lines, Action, commit, release, decrement_lines, finish_row,
  finish_work, finish, stock_levels, set_stock_work, set_stock_level,
}
use accensa_app.Inventory.Sums.{
  quantity_of-sort, active_sum_mono, active_sum-expire, active_sum-set_status, active_sum-end,
}
use accensa_app.Inventory.Stock.{
  stock_of, stock_of-lock, stock_of-ensure, stock_of-update, stock_of-decrement_lines,
}
use accensa_app.Inventory.Normal.{Distinct, Positive, quantity_of-absent, normalized_lines-IsMerged}

-- The reservations hold positive quantities, and at the time `t` at most the stock.
pub record Inv (t : ℕ) (db : Db) : Type 0 where
  pub positive : All (λ r. Positive r.lines) db.reservations
  pub bounded : (m : ℕ) (s : String) → active_sum m s t db.reservations ≤ stock_of m s db.items

pub Inv-weaken : {t u : ℕ} {db : Db} → t ≤ u → Inv t db → Inv u db
Inv-weaken {t} {u} {db} h v = record {
  positive = v.positive;
  bounded = λ m s. omega (arith, v.bounded m s, active_sum_mono m s t u db.reservations h);
}

expire-Positive :
    (m now : ℕ) (rs : List Reservation)
    → All (λ r. Positive r.lines) rs
    → All (λ r. Positive r.lines) (map (expire_row m now) rs)
expire-Positive m now [] p = tt
expire-Positive m now (r ∷ rs) p = ground (arith, expire-Positive m now rs p.1)

pub set_status-Positive :
    (id : String) (s : Status) (rs : List Reservation)
    → All (λ r. Positive r.lines) rs
    → All (λ r. Positive r.lines) (map (set_status id s) rs)
set_status-Positive id s [] p = tt
set_status-Positive id s (r ∷ rs) p = ground (arith, set_status-Positive id s rs p.1)

pub expire-Inv : {now : ℕ} {db : Db} (m : ℕ) → Inv now db → Inv now (expire_reservations m now db)
unfolding expire_reservations
expire-Inv {now} {db} m v = record {
  positive = expire-Positive m now db.reservations v.positive;
  bounded = λ k s.
      omega (arith, v.bounded k s, active_sum-expire k s m now now db.reservations (omega arith));
}

pub update_status-Inv :
    {t : ℕ} {db : Db} (id : String) (s : Status)
    → is_active s ≡ false
    → Inv t db
    → Inv t (update_status id s db)
unfolding update_status
update_status-Inv {t} {db} id s h v = record {
  positive = set_status-Positive id s db.reservations v.positive;
  bounded = λ k x. omega (arith, v.bounded k x, active_sum-set_status k x id s t db.reservations h);
}

-- The state of an outcome that is known.
pub outcome-Inv {ℓ} : {A : Type ℓ} {t : ℕ} {a x : A × Db} → a ≡ x → Inv t a.1 → Inv t x.1
outcome-Inv {A = A} {t} e v = subst (λ (y : A × Db). Inv t y.1) e v

pub transaction-Inv {ℓ} :
    {A : Type ℓ} (t : ℕ) (work : Db → Result (A × Db)) (db : Db)
    → Inv t db
    → ((x : A × Db) → work db ≡ ok x → Inv t x.1)
    → Inv t (transaction work db).1
unfolding transaction
transaction-Inv t work db v h = elim (result_cases (work db)) [
  | inl (x, e) ↦ rw (e, transaction) (h x e)
  | inr (y, e) ↦ rw (e, transaction) v
]
