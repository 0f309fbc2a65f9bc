-- ===== src/Webhooks/Views.antt =====
-- repository.ts: what the dashboard reads of the delivery tables. `owned` says which payments are the
-- merchant's; a payment's hash is its key, so that the join repeats no row.
use accensa_app.Prelude.{
  ℕ, ◌+◌, ◌≡◌, String, Bool, true, false, ◌&&◌, ◌||◌, List, [], ◌∷◌, map, arith, ltb, leb, ◌==◌,
  if◌then◌else◌, Bool-cases, inl, inr,
}
use accensa_app.Webhooks.{
  DeliveryStatus, pending, delivering, delivered, failed, dead_letter, is_ended, Delivery, Attempt,
  Db,
}
use accensa_app.Webhooks.Repository.{take_rows}

abbrev same_status : DeliveryStatus → DeliveryStatus → Bool
same_status pending pending = true
same_status delivering delivering = true
same_status delivered delivered = true
same_status failed failed = true
same_status dead_letter dead_letter = true
same_status _ _ = false

unfoldable pub count_status : (String → Bool) → DeliveryStatus → List Delivery → ℕ
count_status owned status [] = 0
count_status owned status (d ∷ ds) =
    (if same_status d.status status && owned d.payment_tx_hash then 1 else 0)
    + count_status owned status ds

abbrev group : (String → Bool) → List Delivery → List DeliveryStatus → List (DeliveryStatus × ℕ)
group owned ds [] = []
group owned ds (status ∷ rest) =
    let groups = group owned ds rest in
    if ltb 0 (count_status owned status ds)
    then (status, count_status owned status ds) ∷ groups
    else groups

-- `fetchStatusCounts`; the database may give the groups in another order.
unfoldable pub fetch_status_counts : (String → Bool) → List Delivery → List (DeliveryStatus × ℕ)
unfolding count_status
fetch_status_counts owned ds =
    group owned ds (pending ∷ delivering ∷ delivered ∷ failed ∷ dead_letter ∷ [])

-- Sorted by an order that says which row stands first.
unfoldable pub insert_row : (Delivery → Delivery → Bool) → Delivery → List Delivery → List Delivery
insert_row before d [] = d ∷ []
insert_row before d (e ∷ ds) = if before d e then d ∷ e ∷ ds else e ∷ insert_row before d ds

unfoldable pub select_rows :
    (Delivery → Bool) → (Delivery → Delivery → Bool) → List Delivery → List Delivery
unfolding insert_row
select_rows test before [] = []
select_rows test before (d ∷ ds) =
    let rest = select_rows test before ds in if test d then insert_row before d rest else rest

-- `ORDER BY updated_at DESC`
abbrev is_newer : Delivery → Delivery → Bool
is_newer d e = leb e.updated_at d.updated_at

-- `ORDER BY updated_at DESC, id DESC`
abbrev is_latest : Delivery → Delivery → Bool
is_latest d e = ltb e.updated_at d.updated_at || (e.updated_at == d.updated_at && leb e.id d.id)

-- `fetchRecentFailures`
unfoldable pub fetch_recent_failures : (String → Bool) → List Delivery → List Delivery
unfolding select_rows take_rows
fetch_recent_failures owned ds =
    take_rows 20 (select_rows (λ d. is_ended d.status && owned d.payment_tx_hash) is_newer ds)

unfoldable pub insert_attempt : Attempt → List Attempt → List Attempt
insert_attempt a [] = a ∷ []
insert_attempt a (b ∷ rest) =
    if leb a.attempt_number b.attempt_number then a ∷ b ∷ rest else b ∷ insert_attempt a rest

-- The attempts of a delivery by their numbers.
unfoldable pub attempt_history : ℕ → List Attempt → List Attempt
unfolding insert_attempt
attempt_history id [] = []
attempt_history id (a ∷ rest) =
    let history = attempt_history id rest in
    if a.delivery_id == id then insert_attempt a history else history

-- `fetchRecentDeliveries`
unfoldable pub fetch_recent_deliveries : (String → Bool) → Db → List (Delivery × List Attempt)
unfolding select_rows take_rows attempt_history
fetch_recent_deliveries owned db =
    map (λ d. (d, attempt_history d.id db.attempts))
      (take_rows 50 (select_rows (λ d. owned d.payment_tx_hash) is_latest db.deliveries))

abbrev pub total : List (DeliveryStatus × ℕ) → ℕ
total [] = 0
total ((status, n) ∷ rest) = n + total rest

abbrev pub count_owned : (String → Bool) → List Delivery → ℕ
count_owned owned [] = 0
count_owned owned (d ∷ ds) = (if owned d.payment_tx_hash then 1 else 0) + count_owned owned ds

counts-owned :
    (owned : String → Bool) (ds : List Delivery)
    → count_status owned pending ds
        + count_status owned delivering ds
        + count_status owned delivered ds
        + count_status owned failed ds
        + count_status owned dead_letter ds
      ≡ count_owned owned ds
unfolding count_status
counts-owned owned [] = omega arith
counts-owned owned (d ∷ ds) = ground (arith, counts-owned owned ds)

group-total :
    (owned : String → Bool) (ds : List Delivery) (status : DeliveryStatus)
    (rest : List DeliveryStatus)
    → total (group owned ds (status ∷ rest))
      ≡ count_status owned status ds + total (group owned ds rest)
group-total owned ds status rest = elim (Bool-cases (ltb 0 (count_status owned status ds))) [
  | inl some' ↦ rw some' (omega arith)
  | inr none' ↦ rw none' (ground arith)
]

-- The counts by status add up to the number of the merchant's deliveries.
pub fetch_status_counts-total :
    (owned : String → Bool) (ds : List Delivery)
    → total (fetch_status_counts owned ds) ≡ count_owned owned ds
unfolding fetch_status_counts
fetch_status_counts-total owned ds = omega (
  arith,
  counts-owned owned ds,
  group-total owned ds pending (delivering ∷ delivered ∷ failed ∷ dead_letter ∷ []),
  group-total owned ds delivering (delivered ∷ failed ∷ dead_letter ∷ []),
  group-total owned ds delivered (failed ∷ dead_letter ∷ []),
  group-total owned ds failed (dead_letter ∷ []),
  group-total owned ds dead_letter [],
)
