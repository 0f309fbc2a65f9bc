-- ===== src/Merkle/Hex.antt =====
-- Writing bytes in hex and reading them back, and the order of buffers.
use accensa_app.Prelude.{
  ℕ, zero, suc, ◌/◌, ◌%◌, ◌*◌, ◌<◌, ◌≡◌, refl, true, false, ◌&&◌, List, [], ◌∷◌, arith, ◌==◌,
  length, all, All, ap, ap₂, subst, eq_of_==, Bool-cases, inl, inr,
}
use mathlib.Core.Bool.{and-eq-true_iff}
use accensa_app.Merkle.{
  Result, throw, MerkleError, Bytes, ok, is_hex, nibble, hex_digit, from_hex, to_hex, decode_hash,
  bytes_le, bytes_eq, combine,
}

-- 32 bytes.
pub record IsHash (b : Bytes) : Type 0 where
  pub long : length b ≡ 32
  pub bytes : All (λ x. x < 256) b

length-to_hex : (b : Bytes) → length (to_hex b) ≡ 2 * length b
unfolding to_hex
length-to_hex [] = omega arith
length-to_hex (x ∷ b) = omega (arith, length-to_hex b)

is_hex-digit : (n : ℕ) → n < 16 → is_hex (hex_digit n) ≡ true
is_hex-digit n h = ground arith

nibble-digit : (n : ℕ) → n < 16 → nibble (hex_digit n) ≡ n
nibble-digit n h = ground arith

all-to_hex : (b : Bytes) → All (λ x. x < 256) b → all is_hex (to_hex b) ≡ true
unfolding to_hex
all-to_hex [] h = refl
all-to_hex (x ∷ b) (p, h) =
    rw (is_hex-digit (x / 16) (omega arith), is_hex-digit (x % 16) (omega arith)) (all-to_hex b h)

from_hex-to_hex : (b : Bytes) → All (λ x. x < 256) b → from_hex (to_hex b) ≡ b
unfolding from_hex to_hex
from_hex-to_hex [] h = refl
from_hex-to_hex (x ∷ b) (p, h) =
    rw (nibble-digit (x / 16) (omega arith), nibble-digit (x % 16) (omega arith))
      (ap₂ ◌∷◌ (omega arith) (from_hex-to_hex b h))

-- A hash that was written in hex is read back.
pub decode_hash-to_hex : (b : Bytes) → IsHash b → decode_hash (to_hex b) ≡ ok b
unfolding decode_hash
decode_hash-to_hex b h =
    let long : length (to_hex b) ≡ 64 = omega (arith, length-to_hex b, h.long) in
    rw (long, all-to_hex b h.bytes, from_hex-to_hex b h.bytes)

length-from_hex : (n : ℕ) (cs : List ℕ) → length cs ≡ 2 * n → length (from_hex cs) ≡ n
unfolding from_hex
length-from_hex n [] h = omega arith
length-from_hex n (a ∷ []) h = omega arith
length-from_hex zero (a ∷ b ∷ cs) h = omega arith
length-from_hex (suc n) (a ∷ b ∷ cs) h = ap suc (length-from_hex n cs (omega arith))

nibble-lt : (c : ℕ) → is_hex c ≡ true → nibble c < 16
nibble-lt c h = ground arith

from_hex-bytes : (cs : List ℕ) → all is_hex cs ≡ true → All (λ x. x < 256) (from_hex cs)
unfolding from_hex
from_hex-bytes [] h = tt
from_hex-bytes (a ∷ []) h = tt
from_hex-bytes (a ∷ b ∷ cs) h =
    let (p, r) = (and-eq-true_iff (is_hex a) _).0 h in
    let (q, k) = (and-eq-true_iff (is_hex b) _).0 r in
    (omega (arith, nibble-lt a p, nibble-lt b q), from_hex-bytes cs k)

ok-injective : {a b : Bytes} → ◌≡◌ {A = Result Bytes} (ok a) (ok b) → a ≡ b
ok-injective e = cc

throw-ne-ok : {x : MerkleError} {b : Bytes} → ◌≡◌ {A = Result Bytes} (throw x) (ok b) → ⊥
throw-ne-ok e = cc

pub decode_hash-from_hex : (cs : List ℕ) (b : Bytes) → decode_hash cs ≡ ok b → from_hex cs ≡ b
unfolding decode_hash
decode_hash-from_hex cs b e = elim (Bool-cases (length cs == 64 && all is_hex cs)) [
  | inl good ↦ ok-injective (rw good at e)
  | inr bad ↦ absurd (throw-ne-ok (rw bad at e))
]

-- What is read is a hash.
pub decode_hash-IsHash : (cs : List ℕ) (b : Bytes) → decode_hash cs ≡ ok b → IsHash b
unfolding decode_hash
decode_hash-IsHash cs b e = elim (Bool-cases (length cs == 64 && all is_hex cs)) [
  | inl good ↦
      let (long, hex) = (and-eq-true_iff (length cs == 64) _).0 good in
      let same : from_hex cs ≡ b = ok-injective (rw good at e) in
      subst IsHash same
        (record { long = length-from_hex 32 cs (eq_of_== _ _ long); bytes = from_hex-bytes cs hex })
  | inr bad ↦ absurd (throw-ne-ok (rw bad at e))
]

pub bytes_eq_refl : (b : Bytes) → bytes_eq b b ≡ true
unfolding bytes_eq
bytes_eq_refl [] = refl
bytes_eq_refl (x ∷ b) = ground (arith, bytes_eq_refl b)

pub bytes_eq_sound : (a b : Bytes) → bytes_eq a b ≡ true → a ≡ b
unfolding bytes_eq
bytes_eq_sound [] [] h = refl
bytes_eq_sound [] (y ∷ b) h = cc
bytes_eq_sound (x ∷ a) [] h = cc
bytes_eq_sound (x ∷ a) (y ∷ b) h = ground (arith, bytes_eq_sound a b)

bytes_le_total : (a b : Bytes) → bytes_le a b ≡ false → bytes_le b a ≡ true
unfolding bytes_le
bytes_le_total [] b h = cc
bytes_le_total (x ∷ a) [] h = refl
bytes_le_total (x ∷ a) (y ∷ b) h = ground (arith, bytes_le_total a b)

bytes_le_antisymm : (a b : Bytes) → bytes_le a b ≡ true → bytes_le b a ≡ true → a ≡ b
unfolding bytes_le
bytes_le_antisymm [] [] h k = refl
bytes_le_antisymm [] (y ∷ b) h k = cc
bytes_le_antisymm (x ∷ a) [] h k = cc
bytes_le_antisymm (x ∷ a) (y ∷ b) h k = ground (arith, bytes_le_antisymm a b)

-- The order of the two nodes does not matter.
pub combine_comm : (sha256 : Bytes → Bytes) (a b : Bytes) → combine sha256 a b ≡ combine sha256 b a
unfolding combine
combine_comm sha256 a b = elim (Bool-cases (bytes_le a b)) [
  | inl p ↦ elim (Bool-cases (bytes_le b a)) [
    | inl q ↦ rw (bytes_le_antisymm a b p q)
    | inr q ↦ rw (p, q)
  ]
  | inr p ↦ rw (p, bytes_le_total a b p)
]
