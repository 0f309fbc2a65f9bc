-- ===== src/Inventory.antt =====
-- apps/web/src/lib/inventory/reservationManager.ts: the types, and the three tables of
-- migrations that they are kept in.
pub mod Lines
pub mod Store
pub mod Manager
pub mod Sums
pub mod Stock
pub mod Doubles
pub mod Normal
pub mod Oversell
pub mod Finish
pub mod Over
pub mod Ended
mod Tests
use accensa_app.Prelude.{
  ℕ, ◌+◌, ◌*◌, ◌-◌, ◌^◌, String, Bool, true, false, List, Option, ◌≡◌, refl, ◌⊎◌, inl, inr,
}

abbrev pub ttl_ms : ℕ
ttl_ms = 10 * 60 * 1000

pub record Line : Type 0 where
  pub sku : String
  pub quantity : ℕ

pub data Status : Type 0 where
  active committed released expired : Status

abbrev pub is_active : Status → Bool
is_active active = true
is_active _ = false

-- A row of `inventory_items`.
pub record Item : Type 0 where
  pub merchant : ℕ
  pub sku : String
  pub name : String
  pub stock : ℕ
  pub threshold : ℕ

-- A row of `inventory_reservations` with its rows of `inventory_reservation_items`, which are
-- written together and never changed.
pub record Reservation : Type 0 where
  pub id : String
  pub merchant : ℕ
  pub checkout : String
  pub status : Status
  pub expires_at : ℕ
  pub lines : List Line

pub record Db : Type 0 where
  pub items : List Item
  pub reservations : List Reservation

pub record InventoryStock : Type 0 where
  pub sku : String
  pub name : String
  pub stock_quantity : ℕ
  pub low_stock_threshold : ℕ
  pub available : ℕ

-- `type_error` and `stock_changed` are the errors that the manager throws, `constraint` those of
-- the database: a key that is taken, a check, a missing item, or a number outside INT.
pub data Failure : Type 0 where
  type_error stock_changed constraint : Failure

pub data Result {ℓ} (A : Type ℓ) : Type ℓ where
  ok : A → Result A
  throw : Failure → Result A

infixl 5 ◌>>=◌
abbrev pub ◌>>=◌ {ℓ κ} : {A : Type ℓ} {B : Type κ} → Result A → (A → Result B) → Result B
ok a >>= f = f a
throw e >>= f = throw e

pub result_cases {ℓ} :
    {A : Type ℓ} (r : Result A) → ((a : A) × (r ≡ ok a)) ⊎ ((e : Failure) × (r ≡ throw e))
result_cases (ok a) = inl (a, refl)
result_cases (throw e) = inr (e, refl)

pub data Reason : Type 0 where
  out_of_stock item_not_found : Reason
  checkout_expired checkout_conflict : Reason

pub data ReserveResult : Type 0 where
  reserved : String → ℕ → List (String × ℕ) → ReserveResult
  refused : Reason → Option String → Option ℕ → ReserveResult

-- The two orders of texts: `localeCompare` of the JavaScript runtime, at most 0, and that of the
-- database's `ORDER BY sku`.
pub record Orders : Type 0 where
  pub locale_le : String → String → Bool
  pub collate_le : String → String → Bool
