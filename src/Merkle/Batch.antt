-- ===== src/Merkle/Batch.antt =====
-- The proofs that `buildBatch` hands out, under `verifyReceipt`, and the loop of `buildLevels`.
use accensa_app.Merkle.Membership.{verify-proof_for}
use accensa_app.Prelude.{
  ℕ, zero, suc, ◌+◌, ◌^◌, ◌≤◌, ◌<◌, ◌≡◌, ◌≢◌, refl, ◌∙◌, sym, ap, subst, true, List, [], ◌∷◌, map,
  none, some, arith, length, All, get_elem?, Bool-cases, inl, inr, some_of_ne_none,
}
use accensa_app.Prelude.Text.{trim_codes}
use accensa_app.Merkle.{
  Bytes, Result, MerkleError, batch_of, ok, throw, result_cases, ◌>>=◌, BatchInfo, from_hex, to_hex,
  decode_hash, lower, lookup, bytes_eq, verify_receipt, build_levels, proof_for, root_of,
  proofs_from, normalise, build_batch,
}
use accensa_app.Merkle.Hex.{
  IsHash, decode_hash-from_hex, decode_hash-IsHash, bytes_eq_refl, bytes_eq_sound,
}
use accensa_app.Merkle.Tree.{Ends, levels_from-Ends}

-- What is normalised can be decoded.
abbrev IsNormal : List ℕ → Type 0
IsNormal hex = decode_hash hex ≡ ok (from_hex hex)

normalise-IsNormal :
    (leaves out : List (List ℕ))
    → normalise leaves ≡ ok out
    → All IsNormal out × (length out ≡ length leaves)
unfolding normalise
normalise-IsNormal [] out e = let same : [] ≡ out = cc in rw (← same) (tt, refl)
normalise-IsNormal (leaf ∷ leaves) out e =
    elim (result_cases (decode_hash (map lower (trim_codes leaf)))) [
      | inr (y, f) ↦ absurd (ground arith)
      | inl (b, f) ↦ elim (result_cases (normalise leaves)) [
        | inr (y, g) ↦ absurd (ground arith)
        | inl (rest, g) ↦
            let hex = map lower (trim_codes leaf) in
            let (normal, long) = normalise-IsNormal leaves rest g in
            let same : hex ∷ rest ≡ out = ground arith in
            let here : IsNormal hex = f ∙ ap ok (sym (decode_hash-from_hex hex b f)) in
            subst (λ o. All IsNormal o × (length o ≡ suc (length leaves))) same
              ((here, normal), ap suc long)
      ]
    ]

nodes-IsHash : (out : List (List ℕ)) → All IsNormal out → All IsHash (map from_hex out)
nodes-IsHash [] h = tt
nodes-IsHash (hex ∷ out) (p, h) = (decode_hash-IsHash hex (from_hex hex) p, nodes-IsHash out h)

get_elem?-nodes :
    (out : List (List ℕ)) (i : ℕ) (hex : List ℕ)
    → All IsNormal out
    → get_elem? out i ≡ some hex
    → (get_elem? (map from_hex out) i ≡ some (from_hex hex)) × IsNormal hex
get_elem?-nodes [] i hex h e = absurd (cc)
get_elem?-nodes (x ∷ out) zero hex h e =
    let same : x ≡ hex = cc in (ap (λ y. some (from_hex y)) same, subst IsNormal same h.0)
get_elem?-nodes (x ∷ out) (suc i) hex h e = get_elem?-nodes out i hex h.1 e

-- Entries of `proofs` that verify against a root.
module _ (Good : List ℕ → List (List ℕ) → Type 0) where
  abbrev AllGood : List (List ℕ × List (List ℕ)) → Type 0
  AllGood = All λ entry. Good entry.0 entry.1

  lookup-Good :
      (key : List ℕ) (entries : List (List ℕ × List (List ℕ))) (proof : List (List ℕ))
      → AllGood entries
      → lookup key entries ≡ some proof
      → Good key proof
  unfolding lookup
  lookup-Good key [] proof h e = absurd (cc)
  lookup-Good key ((k, v) ∷ entries) proof (p, h) e = elim (Bool-cases (bytes_eq k key)) [
    | inl hit ↦
        let same : v ≡ proof = ground arith in
        subst (λ x. Good x proof) (bytes_eq_sound k key hit) (subst (Good k) same p)
    | inr miss ↦ lookup-Good key entries proof h (ground arith)
  ]

  proofs_from-Good :
      (levels : List (List Bytes)) (i : ℕ) (leaves : List (List ℕ))
      (entries : List (List ℕ × List (List ℕ)))
      → AllGood entries
      → ((j : ℕ) (leaf : List ℕ)
          → get_elem? leaves j ≡ some leaf
          → Good leaf (map to_hex (proof_for levels (i + j))))
      → AllGood (proofs_from levels i leaves entries)
  unfolding proofs_from
  proofs_from-Good levels i [] entries h f = h
  proofs_from-Good levels i (leaf ∷ leaves) entries h f =
      proofs_from-Good levels (i + 1) leaves ((leaf, map to_hex (proof_for levels i)) ∷ entries)
        (subst (λ n. Good leaf (map to_hex (proof_for levels n))) (omega arith) (f 0 leaf refl), h)
        λ j l e. subst (λ n. Good l (map to_hex (proof_for levels n))) (omega arith) (f (suc j) l e)

-- A leaf that was given has an entry.
module _ (levels : List (List Bytes)) where
  lookup-proofs_from :
      (i : ℕ) (key : List ℕ) (leaves : List (List ℕ)) (entries : List (List ℕ × List (List ℕ)))
      → lookup key entries ≢ none
      → lookup key (proofs_from levels i leaves entries) ≢ none
  unfolding proofs_from
  lookup-proofs_from i key [] entries h = h
  lookup-proofs_from i key (leaf ∷ leaves) entries h =
      lookup-proofs_from (i + 1) key leaves ((leaf, map to_hex (proof_for levels i)) ∷ entries)
        (unfold lookup in ground arith)

  lookup_of_leaf :
      (i j : ℕ) (key : List ℕ) (leaves : List (List ℕ)) (entries : List (List ℕ × List (List ℕ)))
      → get_elem? leaves j ≡ some key
      → lookup key (proofs_from levels i leaves entries) ≢ none
  unfolding proofs_from
  lookup_of_leaf i j key [] entries e = absurd (cc)
  lookup_of_leaf i zero key (leaf ∷ leaves) entries e =
      let same : leaf ≡ key = cc in
      lookup-proofs_from (i + 1) key leaves ((leaf, map to_hex (proof_for levels i)) ∷ entries)
        (unfold lookup in ground (arith, bytes_eq_refl key, same))
  lookup_of_leaf i (suc j) key (leaf ∷ leaves) entries e =
      lookup_of_leaf (i + 1) j key leaves ((leaf, map to_hex (proof_for levels i)) ∷ entries) e

-- The batch has a proof for the leaf that is accepted.
abbrev Accepted : (Bytes → Bytes) → List ℕ → BatchInfo → Type 0
Accepted sha256 leaf info =
    (proof : List (List ℕ)) × (lookup leaf info.proofs ≡ some proof)
    × (verify_receipt sha256 leaf proof info.root ≡ ok true)

length-nodes : (out : List (List ℕ)) → length (map from_hex out) ≡ length out
length-nodes [] = refl
length-nodes (x ∷ out) = ap suc (length-nodes out)

ok-injective {ℓ} : {A : Type ℓ} {a b : A} → ◌≡◌ {A = Result A} (ok a) (ok b) → a ≡ b
ok-injective e = cc

throw-ne-ok {ℓ} : {A : Type ℓ} {x : MerkleError} {b : A} → ◌≡◌ {A = Result A} (throw x) (ok b) → ⊥
throw-ne-ok e = cc

build_batch-batch_of :
    (sha256 : Bytes → Bytes) (leaves : List (List ℕ)) (info : BatchInfo)
    → build_batch sha256 leaves ≡ ok info
    → (out : List (List ℕ)) × (normalise leaves ≡ ok out) × (batch_of sha256 out ≡ info)
unfolding build_batch
build_batch-batch_of sha256 [] info e = absurd (cc)
build_batch-batch_of sha256 (l ∷ ls) info e = elim (result_cases (normalise (l ∷ ls))) [
  | inr (y, f) ↦ absurd (throw-ne-ok (sym (ap (λ r. r >>= λ n. ok (batch_of sha256 n)) f) ∙ e))
  | inl (out, f) ↦ (out, f, ok-injective (sym (ap (λ r. r >>= λ n. ok (batch_of sha256 n)) f) ∙ e))
]

batch_of-verify :
    (sha256 : Bytes → Bytes) (out : List (List ℕ)) (i : ℕ) (leaf : List ℕ)
    → ((b : Bytes) → IsHash (sha256 b))
    → length out ≤ 2 ^ 32
    → All IsNormal out
    → get_elem? out i ≡ some leaf
    → (proof : List (List ℕ)) × (lookup leaf (batch_of sha256 out).proofs ≡ some proof)
      × (verify_receipt sha256 leaf proof (batch_of sha256 out).root ≡ ok true)
batch_of-verify sha256 out i leaf digest few normal at =
    let nodes = map from_hex out in
    let levels = build_levels sha256 nodes in
    let Good = λ (l : List ℕ) (p : List (List ℕ)).
      verify_receipt sha256 l p (to_hex (root_of levels)) ≡ ok true in
    let good = proofs_from-Good Good levels 0 out [] tt λ j l e.
      let (node, decoded) = get_elem?-nodes out j l normal e in
      subst (λ n. Good l (map to_hex (proof_for levels n))) (omega arith)
        (verify-proof_for sha256 digest nodes j l (from_hex l) (nodes-IsHash out normal)
          (omega (arith, length-nodes out)) node decoded) in
    let (proof, found) = some_of_ne_none _ (lookup_of_leaf levels 0 i leaf out [] at) in
    (proof, found, lookup-Good Good leaf (batch_of sha256 out).proofs proof good found)

-- If SHA-256 answers 32 bytes, and a batch of at most 2^32 leaves was built, then every leaf of it
-- has a proof in `proofs`, and `verifyReceipt` accepts that proof for the leaf and the root.
pub build_batch-verify :
    (sha256 : Bytes → Bytes) (leaves : List (List ℕ)) (info : BatchInfo) (i : ℕ) (leaf : List ℕ)
    → ((b : Bytes) → IsHash (sha256 b))
    → length leaves ≤ 2 ^ 32
    → build_batch sha256 leaves ≡ ok info
    → get_elem? info.leaves i ≡ some leaf
    → (proof : List (List ℕ)) × (lookup leaf info.proofs ≡ some proof)
      × (verify_receipt sha256 leaf proof info.root ≡ ok true)
build_batch-verify sha256 leaves info i leaf digest few e at =
    let (out, f, same) = build_batch-batch_of sha256 leaves info e in
    let (normal, long) = normalise-IsNormal leaves out f in
    subst (Accepted sha256 leaf) same (
      batch_of-verify sha256 out i leaf digest (omega arith) normal
        (subst (λ (b : BatchInfo). get_elem? b.leaves i ≡ some leaf) (sym same) at))

-- The tree of a batch that has a leaf ends with one node, the root.
pub build_levels-Ends :
    (sha256 : Bytes → Bytes) (nodes : List Bytes)
    → 0 < length nodes
    → Ends sha256 (build_levels sha256 nodes)
unfolding build_levels
build_levels-Ends sha256 nodes h = levels_from-Ends sha256 (length nodes) nodes h (omega arith)
