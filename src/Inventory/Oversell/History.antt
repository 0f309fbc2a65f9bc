-- ===== src/Inventory/Oversell/History.antt =====
-- Histories of calls of the manager.
use accensa_app.Prelude.{ℕ, ◌≤◌, String, Option, List, [], ◌∷◌}
use accensa_app.Inventory.{Line, Db, Orders}
use accensa_app.Inventory.Manager.{Action, reserve, finish, stock_levels, set_stock_level}
use accensa_app.Inventory.Oversell.{Inv, Inv-weaken}
use accensa_app.Inventory.Oversell.Reserve.{reserve-Inv}
use accensa_app.Inventory.Oversell.Finish.{finish-Inv, set_stock_level-Inv, stock_levels-Inv}

-- A call with its arguments and what it reads from its surroundings: for a reservation the new
-- identifier and the second and third reading of the clock.
pub data Call : Type 0 where
  reserves : ℕ → String → List Line → String → ℕ → ℕ → Call
  finishes : ℕ → String → Action → Call
  reads : ℕ → Option (List String) → Call
  sets : ℕ → String → String → ℕ → ℕ → Call

-- The state after a call that first reads the clock at `now`.
unfoldable pub step : Orders → Db → ℕ → Call → Db
step o db now (reserves m checkout items id later checked) =
    (reserve o m checkout items id now later checked db).1
step o db now (finishes m id action) = (finish o m id action now db).1
step o db now (reads m skus) = (stock_levels o m skus now db).1
step o db now (sets m sku name stock threshold) =
    (set_stock_level m sku name stock threshold now db).1

unfoldable pub run : Orders → Db → List (ℕ × Call) → Db
run o db [] = db
run o db ((now, c) ∷ cs) = run o (step o db now c) cs

-- The clock does not go back from one call to the next.
abbrev pub InOrder : ℕ → List (ℕ × Call) → Type 0
InOrder t [] = Unit {0}
InOrder t ((now, c) ∷ cs) = (t ≤ now) × InOrder now cs

-- The time of the last call.
abbrev pub last_time : ℕ → List (ℕ × Call) → ℕ
last_time t [] = t
last_time t ((now, c) ∷ cs) = last_time now cs

step-Inv : {now : ℕ} {db : Db} (o : Orders) (c : Call) → Inv now db → Inv now (step o db now c)
unfolding step
step-Inv o (reserves m checkout items id later checked) v =
    reserve-Inv o m checkout items id later checked v
step-Inv o (finishes m id action) v = finish-Inv o m id action v
step-Inv o (reads m skus) v = stock_levels-Inv o m skus v
step-Inv o (sets m sku name stock threshold) v = set_stock_level-Inv m sku name stock threshold v

-- If the reservations that are active at a time `t` fit into the stock of every item, and hold
-- positive quantities, then so they do after any sequence of calls, of any merchants and with any
-- arguments, whose first readings of the clock never go back, at the time of the last call.
pub run-Inv :
    (t : ℕ) (db : Db) (o : Orders) (cs : List (ℕ × Call))
    → Inv t db
    → InOrder t cs
    → Inv (last_time t cs) (run o db cs)
unfolding run
run-Inv t db o [] v h = v
run-Inv t db o ((now, c) ∷ cs) v (le, h) =
    run-Inv now (step o db now c) o cs (step-Inv o c (Inv-weaken {t = t} le v)) h
