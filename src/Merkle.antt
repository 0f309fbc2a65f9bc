-- ===== src/Merkle.antt =====
-- packages/sdk/merkle.ts. A text is the list of its code points and a Buffer the list of its bytes;
-- SHA-256 is the parameter `sha256`.
pub mod Hex
pub mod Tree
pub mod Membership
pub mod Batch
mod Tests
use accensa_app.Prelude.{
  ℕ, zero, suc, ◌+◌, ◌-◌, ◌*◌, ◌/◌, ◌%◌, ◌≡◌, refl, ◌⊎◌, inl, inr, Bool, true, false, ◌&&◌, ◌||◌,
  not, List, [], ◌∷◌, ◌++◌, map, Option, none, some, leb, ltb, ◌==◌, if◌then◌else◌, length, all,
  get_elem?,
}
use accensa_app.Prelude.Text.{trim_codes}

pub data MerkleError : Type 0 where
  hash_decode empty_batch proof_too_long : MerkleError

pub data Result {ℓ} (A : Type ℓ) : Type ℓ where
  ok : A → Result A
  throw : MerkleError → Result A

infixl 5 ◌>>=◌
abbrev pub ◌>>=◌ {ℓ κ} : {A : Type ℓ} {B : Type κ} → Result A → (A → Result B) → Result B
ok a >>= f = f a
throw e >>= f = throw e

pub result_cases {ℓ} :
    {A : Type ℓ} (r : Result A) → ((a : A) × (r ≡ ok a)) ⊎ ((e : MerkleError) × (r ≡ throw e))
result_cases (ok a) = inl (a, refl)
result_cases (throw e) = inr (e, refl)

abbrev pub Bytes : Type 0
Bytes = List ℕ

abbrev pub max_proof_len : ℕ
max_proof_len = 32

-- `Buffer.compare(a, b) <= 0`
unfoldable pub bytes_le : Bytes → Bytes → Bool
bytes_le [] bs = true
bytes_le (a ∷ xs) [] = false
bytes_le (a ∷ xs) (b ∷ ys) = let rest = bytes_le xs ys in if a == b then rest else ltb a b

-- `a.equals(b)`
unfoldable pub bytes_eq : Bytes → Bytes → Bool
bytes_eq [] [] = true
bytes_eq (a ∷ xs) (b ∷ ys) = a == b && bytes_eq xs ys
bytes_eq _ _ = false

-- One character of `/[0-9a-fA-F]/`, and the number that it stands for.
abbrev pub is_hex : ℕ → Bool
is_hex c = (leb b'0' c && leb c b'9') || (leb b'a' c && leb c b'f') || (leb b'A' c && leb c b'F')

abbrev pub nibble : ℕ → ℕ
nibble c = if leb c b'9' then c - b'0' else (if leb c b'F' then c - 55 else c - 87)

-- `Buffer.from(value, 'hex')` of hex digits in pairs.
unfoldable pub from_hex : List ℕ → Bytes
from_hex [] = []
from_hex (a ∷ []) = []
from_hex (a ∷ b ∷ cs) = (nibble a * 16 + nibble b) ∷ from_hex cs

abbrev pub hex_digit : ℕ → ℕ
hex_digit n = if ltb n 10 then b'0' + n else 87 + n

-- `buffer.toString('hex')`
unfoldable pub to_hex : Bytes → List ℕ
to_hex [] = []
to_hex (b ∷ bs) = hex_digit (b / 16) ∷ hex_digit (b % 16) ∷ to_hex bs

-- `decodeHash`: the test is `/^[0-9a-fA-F]{64}$/`.
unfoldable pub decode_hash : List ℕ → Result Bytes
unfolding from_hex
decode_hash value =
    if length value == 64 && all is_hex value then ok (from_hex value) else throw hash_decode

-- `toLowerCase`, as far as hex digits go: no other letter becomes one of them.
abbrev pub lower : ℕ → ℕ
lower c = if leb b'A' c && leb c b'Z' then c + 32 else c

unfoldable pub proof_for : List (List Bytes) → ℕ → List Bytes
proof_for [] i = []
proof_for (level ∷ []) i = []
proof_for (level ∷ next ∷ levels) i =
    let sibling = if i % 2 == 0 then i + 1 else i - 1 in
    elim (get_elem? level sibling) [
      | none ↦ proof_for (next ∷ levels) (i / 2)
      | some s ↦ s ∷ proof_for (next ∷ levels) (i / 2)
    ]

-- `replace(/^0x/i, '')`
abbrev pub strip_prefix : List ℕ → List ℕ
strip_prefix [] = []
strip_prefix (a ∷ []) = a ∷ []
strip_prefix (a ∷ b ∷ cs) = if a == b'0' && (b == b'x' || b == b'X') then cs else a ∷ b ∷ cs

-- `receiptLeaf`
unfoldable pub receipt_leaf : (Bytes → Bytes) → List ℕ → Result (List ℕ)
unfolding trim_codes decode_hash to_hex
receipt_leaf sha256 tx_hash = do
  bytes ← decode_hash (map lower (strip_prefix (trim_codes tx_hash)))
  ok (to_hex (sha256 bytes))

-- Every leaf in order, tested and written in lower case.
unfoldable pub normalise : List (List ℕ) → Result (List (List ℕ))
unfolding trim_codes decode_hash
normalise [] = ok []
normalise (leaf ∷ leaves) = do
  let hex = map lower (trim_codes leaf)
  bytes ← decode_hash hex
  rest ← normalise leaves
  ok (hex ∷ rest)

pub record BatchInfo : Type 0 where
  pub root : List ℕ
  pub leaves : List (List ℕ)
  pub proofs : List (List ℕ × List (List ℕ))

-- `proofs[key] = value` of a record: the last value that was given to a key is read.
unfoldable pub lookup : List ℕ → List (List ℕ × List (List ℕ)) → Option (List (List ℕ))
unfolding bytes_eq
lookup key [] = none
lookup key ((k, v) ∷ entries) = if bytes_eq k key then some v else lookup key entries

-- The loop over the leaves that fills `proofs`; a later leaf overwrites an earlier one.
unfoldable pub proofs_from :
    List (List Bytes)
    → ℕ
    → List (List ℕ)
    → List (List ℕ × List (List ℕ))
    → List (List ℕ × List (List ℕ))
unfolding proof_for to_hex
proofs_from levels i [] entries = entries
proofs_from levels i (leaf ∷ leaves) entries =
    proofs_from levels (i + 1) leaves ((leaf, map to_hex (proof_for levels i)) ∷ entries)

-- The root is the first entry of the last level.
unfoldable pub root_of : List (List Bytes) → Bytes
root_of [] = []
root_of (level ∷ next ∷ levels) = root_of (next ∷ levels)
root_of ([] ∷ []) = []
root_of ((b ∷ bs) ∷ []) = b

module _ (sha256 : Bytes → Bytes) where
  -- `combine`
  unfoldable pub combine : Bytes → Bytes → Bytes
  unfolding bytes_le
  combine a b = if bytes_le a b then sha256 (a ++ b) else sha256 (b ++ a)

  -- The loop of `verifyReceipt` over the decoded siblings.
  unfoldable pub fold_proof : Bytes → List (List ℕ) → Result Bytes
  unfolding combine decode_hash
  fold_proof computed [] = ok computed
  fold_proof computed (hex ∷ proof) = do
    sibling ← decode_hash hex
    fold_proof (combine computed sibling) proof

  -- `verifyReceipt`
  unfoldable pub verify_receipt : List ℕ → List (List ℕ) → List ℕ → Result Bool
  unfolding fold_proof bytes_eq
  verify_receipt leaf proof root =
      if ltb max_proof_len (length proof) then throw proof_too_long else (do
        start ← decode_hash leaf
        computed ← fold_proof start proof
        expected ← decode_hash root
        ok (bytes_eq computed expected))

  -- The inner loop of `buildLevels`: an odd node at the end is promoted unchanged.
  unfoldable pub next_level : List Bytes → List Bytes
  unfolding combine
  next_level [] = []
  next_level (a ∷ []) = a ∷ []
  next_level (a ∷ b ∷ level) = combine a b ∷ next_level level

  -- The outer loop, with a number of rounds that suffices if it is at least the number of nodes.
  unfoldable pub levels_from : ℕ → List Bytes → List (List Bytes)
  unfolding next_level
  levels_from zero level = level ∷ []
  levels_from (suc fuel) level =
      let rest = levels_from fuel (next_level level) in
      if ltb 1 (length level) then level ∷ rest else level ∷ []

  -- `buildLevels`
  unfoldable pub build_levels : List Bytes → List (List Bytes)
  unfolding levels_from
  build_levels leaves = levels_from (length leaves) leaves

  -- What `buildBatch` returns for leaves that are normalised.
  abbrev pub batch_of : List (List ℕ) → BatchInfo
  batch_of normalised = record {
    root = to_hex (root_of (build_levels (map from_hex normalised)));
    leaves = normalised;
    proofs = proofs_from (build_levels (map from_hex normalised)) 0 normalised [];
  }

  -- `buildBatch`
  unfoldable pub build_batch : List (List ℕ) → Result BatchInfo
  unfolding normalise build_levels proofs_from root_of
  build_batch [] = throw empty_batch
  build_batch (leaf ∷ leaves) = do normalised ← normalise (leaf ∷ leaves); ok (batch_of normalised)
