-- ===== src/RateLimits.antt =====
-- apps/web/src/lib/auth/totp-rate-limit.ts and inventory/reservation-rate-limit.ts. A map of hits is a
-- function, with no hits at a missing key; what the shared limiter answers to a call is an argument.
pub mod Window
pub mod Histories
mod Tests
use accensa_app.Prelude.{
  ℕ, suc, ◌+◌, ◌-◌, Bool, true, false, List, [], ◌∷◌, ◌++◌, length, ltb, leb, if◌then◌else◌,
}
use accensa_app.Prelude.Text.{same_text}
use accensa_app.Prelude.Decimal.{to_digits}
use accensa_app.Money.{Text}

pub record Answer : Type 0 where
  pub success : Bool
  pub remaining : ℕ

abbrev pub Hits : Type 0
Hits = Text → List ℕ

abbrev pub no_hits : Hits
no_hits key = []

abbrev pub set : Text → List ℕ → Hits → Hits
set key times hits = λ k. if same_text key k then times else hits k

module _ (window : ℕ) where
  -- The times after the start of the window, which is `window` before now.
  unfoldable pub recent : ℕ → List ℕ → List ℕ
  recent now [] = []
  recent now (t ∷ times) =
      let rest = recent now times in if ltb now (t + window) then t ∷ rest else rest

module _ (limit window : ℕ) where
  abbrev pub decide : Bool → ℕ → Text → List ℕ → Hits → Answer × Hits
  decide true now key times hits = (record { success = false; remaining = 0 }, set key times hits)
  decide false now key times hits =
      let more = times ++ now ∷ [] in
      (record { success = true; remaining = limit - length more }, set key more hits)

  -- The body that both limiters share.
  unfoldable pub admit : ℕ → Text → Hits → Answer × Hits
  unfolding recent same_text
  admit now key hits =
      let times = recent window now (hits key) in
      decide (leb limit (length times)) now key times hits

-- The shared limiter: absent, failing, or answering.
pub data Remote : Type 0 where
  absent failing : Remote
  answering : Answer → Remote

abbrev pub totp_max_attempts : ℕ
totp_max_attempts = 5

abbrev pub totp_window_seconds : ℕ
totp_window_seconds = 300

-- `memoryLimit`
unfoldable pub memory_limit : ℕ → ℕ → Hits → Answer × Hits
unfolding admit to_digits
memory_limit merchant now hits = admit totp_max_attempts 300000 now (to_digits merchant) hits

-- `checkTotpRateLimit`
unfoldable pub check_totp_rate_limit : Remote → ℕ → ℕ → Hits → Answer × Hits
unfolding memory_limit
check_totp_rate_limit (answering answer) merchant now hits = (answer, hits)
check_totp_rate_limit absent merchant now hits = memory_limit merchant now hits
check_totp_rate_limit failing merchant now hits = memory_limit merchant now hits

-- `clearTotpAttempts`
unfoldable pub clear_totp_attempts : ℕ → Hits → Hits
unfolding to_digits same_text
clear_totp_attempts merchant hits = set (to_digits merchant) [] hits

abbrev pub max_reservations_per_minute : ℕ
max_reservations_per_minute = 12

abbrev success_of : Answer × Hits → Bool × Hits
success_of (answer, hits) = (answer.success, hits)

-- `allowInventoryReservation`, with the key that SHA-256 gives.
unfoldable pub allow_inventory_reservation :
    (Text → Text) → Remote → ℕ → Text → ℕ → Hits → Bool × Hits
unfolding admit to_digits
allow_inventory_reservation sha256_hex (answering answer) merchant ip now hits =
    (answer.success, hits)
allow_inventory_reservation sha256_hex absent merchant ip now hits = success_of (
    admit max_reservations_per_minute 60000 now (sha256_hex (to_digits merchant ++ b':' ∷ ip)) hits)
allow_inventory_reservation sha256_hex failing merchant ip now hits = success_of (
    admit max_reservations_per_minute 60000 now (sha256_hex (to_digits merchant ++ b':' ∷ ip)) hits)
