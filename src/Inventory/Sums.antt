-- ===== src/Inventory/Sums.antt =====
-- What each write to the reservations does to the sum of the active ones.
use accensa_app.Prelude.{
  ℕ, ◌+◌, ◌≤◌, ◌<◌, ◌≡◌, refl, String, Bool, true, false, List, [], ◌∷◌, map, some, arith, str_eq,
  if◌then◌else◌,
}
use accensa_app.Inventory.{Line, Status, is_active, Reservation}
use accensa_app.Inventory.Lines.{insert, sort}
use accensa_app.Inventory.Store.{quantity_of, active_sum, expire_row, set_status, lock_reservation}

pub quantity_of-insert :
    (le : String → String → Bool) (sku : String) (l : Line) (ls : List Line)
    → quantity_of sku (insert le l ls)
      ≡ (if str_eq l.sku sku then l.quantity else 0) + quantity_of sku ls
unfolding quantity_of insert
quantity_of-insert le sku l [] = refl
quantity_of-insert le sku l (x ∷ xs) = ground (arith, quantity_of-insert le sku l xs)

pub quantity_of-sort :
    (le : String → String → Bool) (sku : String) (ls : List Line)
    → quantity_of sku (sort le ls) ≡ quantity_of sku ls
unfolding quantity_of sort
quantity_of-sort le sku [] = refl
quantity_of-sort le sku (l ∷ ls) =
    ground (arith, quantity_of-insert le sku l (sort le ls), quantity_of-sort le sku ls)

module _ (m : ℕ) (sku : String) where
  -- Time only ends holds.
  pub active_sum_mono :
      (t u : ℕ) (rs : List Reservation) → t ≤ u → active_sum m sku u rs ≤ active_sum m sku t rs
  unfolding active_sum
  active_sum_mono t u [] h = omega arith
  active_sum_mono t u (r ∷ rs) h = ground (arith, active_sum_mono t u rs h)

  -- Only holds that have run out are marked.
  pub active_sum-expire :
      (k now t : ℕ) (rs : List Reservation)
      → now ≤ t
      → active_sum m sku t (map (expire_row k now) rs) ≡ active_sum m sku t rs
  unfolding active_sum
  active_sum-expire k now t [] h = refl
  active_sum-expire k now t (r ∷ rs) h = ground (arith, active_sum-expire k now t rs h)

  pub active_sum-set_status :
      (id : String) (s : Status) (t : ℕ) (rs : List Reservation)
      → is_active s ≡ false
      → active_sum m sku t (map (set_status id s) rs) ≤ active_sum m sku t rs
  unfolding active_sum
  active_sum-set_status id s t [] h = omega arith
  active_sum-set_status id s t (r ∷ rs) h = ground (arith, active_sum-set_status id s t rs h)

  -- The end of a hold gives back at least its own lines.
  pub active_sum-end :
      (id : String) (s : Status) (t : ℕ) (rs : List Reservation) (r : Reservation)
      → is_active s ≡ false
      → lock_reservation m id rs ≡ some r
      → is_active r.status ≡ true
      → t < r.expires_at
      → active_sum m sku t (map (set_status id s) rs) + quantity_of sku r.lines
        ≤ active_sum m sku t rs
  unfolding active_sum lock_reservation
  active_sum-end id s t [] r h e a x = absurd (ground arith)
  active_sum-end id s t (y ∷ rs) r h e a x =
      ground (arith, active_sum-end id s t rs r h, active_sum-set_status id s t rs h)
