-- ===== src/Merkle/Tests.antt =====
-- Runs of the tree, and its theorems at two leaves. The hash function adds up the bytes.
use accensa_app.Prelude.{
  ℕ, zero, suc, ◌+◌, ◌%◌, ◌<◌, ◌≡◌, refl, true, List, [], ◌∷◌, some, arith, All,
}
use accensa_app.Prelude.Text.{codes}
use accensa_app.Merkle.{
  Bytes, ok, throw, hash_decode, batch_of, lookup, verify_receipt, build_batch, build_levels,
  receipt_leaf,
}
use accensa_app.Merkle.Hex.{IsHash}
use accensa_app.Merkle.Tree.{Ends}
use accensa_app.Merkle.Batch.{build_batch-verify, build_levels-Ends}

abbrev total : Bytes → ℕ
total [] = 0
total (b ∷ bs) = b + total bs

abbrev copies : ℕ → ℕ → Bytes
copies zero b = []
copies (suc n) b = b ∷ copies n b

abbrev sum_hash : Bytes → Bytes
sum_hash b = copies 32 (total b % 256)

copies-small : (n b : ℕ) → b < 256 → All (λ x. x < 256) (copies n b)
copies-small zero b h = tt
copies-small (suc n) b h = (h, copies-small n b h)

sum_hash-IsHash : (b : Bytes) → IsHash (sum_hash b)
sum_hash-IsHash b = record {
  long = omega arith;
  bytes = copies-small 32 (total b % 256) (omega arith);
}

abbrev leaf_a : List ℕ
leaf_a = codes "00000000000000000000000000000000000000000000000000000000000000aa"

abbrev leaf_b : List ℕ
leaf_b = codes "000000000000000000000000000000000000000000000000000000000000bb01"

abbrev leaf_c : List ℕ
leaf_c = codes "cc00000000000000000000000000000000000000000000000000000000000000"

abbrev three_leaves : List (List ℕ)
three_leaves = leaf_a ∷ leaf_b ∷ leaf_c ∷ []

built : build_batch sum_hash three_leaves ≡ ok (batch_of sum_hash three_leaves)
unfolding build_batch
built = refl

bad_leaf : build_batch sum_hash (codes "0xaa" ∷ []) ≡ throw hash_decode
unfolding build_batch
bad_leaf = refl

build_batch-verify_example :
    (proof : List (List ℕ)) × (lookup leaf_b (batch_of sum_hash three_leaves).proofs ≡ some proof)
    × (verify_receipt sum_hash leaf_b proof (batch_of sum_hash three_leaves).root ≡ ok true)
build_batch-verify_example =
    build_batch-verify sum_hash three_leaves (batch_of sum_hash three_leaves) 1 leaf_b
      sum_hash-IsHash (omega arith) built refl

build_levels-Ends_example :
    Ends sum_hash (build_levels sum_hash ((1 ∷ []) ∷ (2 ∷ []) ∷ (3 ∷ []) ∷ []))
build_levels-Ends_example =
    build_levels-Ends sum_hash ((1 ∷ []) ∷ (2 ∷ []) ∷ (3 ∷ []) ∷ []) (omega arith)

-- The two leaf texts are the same hash.
receipt_leaf-prefix :
    receipt_leaf sum_hash
      (codes "0XAA00000000000000000000000000000000000000000000000000000000000000 ")
    ≡ receipt_leaf sum_hash
        (codes "aa00000000000000000000000000000000000000000000000000000000000000")
unfolding receipt_leaf
receipt_leaf-prefix = refl
