-- ===== src/Inventory/Tests.antt =====
-- Runs of the manager, and its theorems at a small shop.
use accensa_app.Prelude.{
  ℕ, ◌≡◌, ◌≤◌, ◌+◌, refl, String, true, false, List, [], ◌∷◌, some, arith, length, leb,
  if◌then◌else◌, ◌==◌,
}
use accensa_app.Prelude.Text.{codes}
use accensa_app.Inventory.{Line, active, committed, Item, Reservation, Db, ok, reserved, Orders}
use accensa_app.Inventory.Lines.{normalized_lines, nearest}
use accensa_app.Inventory.Store.{lock_reservation, active_sum, quantity_of}
use accensa_app.Inventory.Manager.{reserve, finish, is_reservation_id, commit, release}
use accensa_app.Inventory.Stock.{stock_of}
use accensa_app.Inventory.Normal.{IsMerged, normalized_lines-IsMerged}
use accensa_app.Inventory.Oversell.{Inv}
use accensa_app.Inventory.Oversell.History.{Call, reserves, finishes, sets, run, run-Inv}
use accensa_app.Inventory.Finish.{is_finishable, finish-commit}
use accensa_app.Inventory.Ended.{finish_once}

abbrev by_length : Orders
by_length = record {
  locale_le = λ a b. leb (length (codes a)) (length (codes b));
  collate_le = λ a b. leb (length (codes a)) (length (codes b));
}

abbrev mug : Item
mug = record { merchant = 1; sku = "mug"; name = "Mug"; stock = 5; threshold = 1 }

abbrev two_mugs : List Line
two_mugs = record { sku = "mug"; quantity = 2 } ∷ []

abbrev first_id : String
first_id = "00000000-0000-0000-0000-000000000001"

abbrev checkout : String
checkout = "checkout-0000-0001"

abbrev held : Reservation
held = record {
  id = first_id;
  merchant = 1;
  checkout = checkout;
  status = active;
  expires_at = 600100;
  lines = two_mugs;
}

abbrev shop : Db
shop = record { items = mug ∷ []; reservations = [] }

abbrev busy_shop : Db
busy_shop = record { items = mug ∷ []; reservations = held ∷ [] }

reserve_runs :
    reserve by_length 1 checkout two_mugs first_id 100 100 100 shop
    ≡ (ok (reserved first_id 600100 (("mug", 3) ∷ [])), busy_shop)
unfolding reserve
reserve_runs = refl

commit_runs : finish by_length 1 first_id commit 200 busy_shop ≡ (
  ok true,
  record {
    items = record mug { stock = 3 } ∷ [];
    reservations = record held { status = committed } ∷ [];
  },
)
unfolding finish
commit_runs = refl

shop-Inv : Inv 0 shop
shop-Inv = record { positive = tt; bounded = none_held }
  where
    none_held : (m : ℕ) (s : String) → active_sum m s 0 [] ≤ stock_of m s (mug ∷ [])
    none_held m s = unfold active_sum in omega arith

busy_shop-Inv : Inv 200 busy_shop
busy_shop-Inv = record { positive = omega arith; bounded = two_held }
  where
    two_held : (m : ℕ) (s : String) → active_sum m s 200 (held ∷ []) ≤ stock_of m s (mug ∷ [])
    two_held m s = unfold active_sum quantity_of in ground arith

abbrev calls : List (ℕ × Call)
calls =
    (100, reserves 1 checkout two_mugs first_id 100 100)
    ∷ (200, finishes 1 first_id commit)
    ∷ (300, sets 1 "mug" "Mug" 9 1)
    ∷ []

run-Inv_example : Inv 300 (run by_length shop calls)
run-Inv_example = run-Inv 0 shop by_length calls shop-Inv (omega arith)

found_held : lock_reservation 1 first_id busy_shop.reservations ≡ some held
unfolding lock_reservation
found_held = refl

valid_id : is_finishable 1 first_id ≡ true
unfolding is_reservation_id
valid_id = refl

finish-commit_example :
    (db' : Db) × (finish by_length 1 first_id commit 200 busy_shop ≡ (ok true, db'))
    × ((k : ℕ) (s : String)
        → stock_of k s db'.items + (if 1 == k then quantity_of s two_mugs else 0)
          ≡ stock_of k s (mug ∷ []))
    × (lock_reservation 1 first_id db'.reservations ≡ some (record held { status = committed }))
finish-commit_example =
    finish-commit 200 busy_shop by_length 1 first_id held busy_shop-Inv valid_id found_held refl
      (omega arith)

abbrev sold_shop : Db
sold_shop = record {
  items = record mug { stock = 3 } ∷ [];
  reservations = record held { status = committed } ∷ [];
}

abbrev later_calls : List (ℕ × Call)
later_calls =
    (300, reserves 1 "checkout-0000-0002" two_mugs "another" 300 300)
    ∷ (999999, finishes 1 first_id commit)
    ∷ []

finish_once_example :
    finish by_length 1 first_id release 999999 (run by_length sold_shop later_calls)
    ≡ (ok false, run by_length sold_shop later_calls)
finish_once_example =
    finish_once by_length 1 first_id commit release 200 999999 busy_shop sold_shop later_calls
      commit_runs

rounded_sum : nearest (9007199254740991 + 2) ≡ 9007199254740992
unfolding nearest
rounded_sum = refl

abbrev split_lines : List Line
split_lines =
    record { sku = "mug"; quantity = 1 }
    ∷ record { sku = "cup"; quantity = 3 }
    ∷ record { sku = "mug"; quantity = 4 }
    ∷ []

abbrev merged_lines : List Line
merged_lines = record { sku = "mug"; quantity = 5 } ∷ record { sku = "cup"; quantity = 3 } ∷ []

normalized_runs : normalized_lines by_length.locale_le split_lines ≡ ok merged_lines
unfolding normalized_lines
normalized_runs = refl

normalized_lines-IsMerged_example : IsMerged split_lines merged_lines
normalized_lines-IsMerged_example =
    normalized_lines-IsMerged by_length.locale_le split_lines merged_lines normalized_runs
