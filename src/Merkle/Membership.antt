-- ===== src/Merkle/Membership.antt =====
-- Single proofs of the tree under `verifyReceipt`.
use accensa_app.Prelude.{
  ℕ, zero, suc, ◌^◌, ◌/◌, ◌≤◌, ◌≡◌, refl, ap, subst, true, false, List, [], ◌∷◌, map, none, some,
  arith, ltb, length, All, get_elem?, get_elem?-All, Option-cases, Bool-cases, inl, inr,
}
use accensa_app.Merkle.{
  Bytes, ok, to_hex, decode_hash, bytes_le, combine, fold_proof, verify_receipt, next_level,
  levels_from, build_levels, proof_for, root_of, max_proof_len,
}
use accensa_app.Merkle.Hex.{IsHash, decode_hash-to_hex, decode_hash-IsHash, bytes_eq_refl}
use accensa_app.Merkle.Tree.{
  sibling, fold_combine, fold_combine-root, length-proof_for, proof_for-levels,
}

module _ (sha256 : Bytes → Bytes) (digest : (b : Bytes) → IsHash (sha256 b)) where
  combine-IsHash : (a b : Bytes) → IsHash (combine sha256 a b)
  unfolding combine
  combine-IsHash a b = elim (Bool-cases (bytes_le a b)) [
    | inl p ↦ rw p (digest _)
    | inr p ↦ rw p (digest _)
  ]

  next_level-IsHash : (xs : List Bytes) → All IsHash xs → All IsHash (next_level sha256 xs)
  unfolding next_level
  next_level-IsHash [] h = tt
  next_level-IsHash (a ∷ []) h = h
  next_level-IsHash (a ∷ b ∷ xs) (p, (q, h)) = (combine-IsHash a b, next_level-IsHash xs h)

  with_sibling-IsHash :
      (level : List Bytes) (i : ℕ) (proof : List Bytes)
      → All IsHash level
      → All IsHash proof
      → All IsHash (elim (get_elem? level i) [ none ↦ proof | some y ↦ y ∷ proof ])
  with_sibling-IsHash level i proof h k = elim (Option-cases (get_elem? level i)) [
    | inl n ↦ rw n k
    | inr (y, e) ↦ rw e (get_elem?-All IsHash level i y h e, k)
  ]

  -- The siblings of a proof, and the root, are hashes.
  proof_for-IsHash :
      (fuel : ℕ) (level : List Bytes) (i : ℕ)
      → All IsHash level
      → All IsHash (proof_for (levels_from sha256 fuel level) i)
  unfolding levels_from proof_for
  proof_for-IsHash zero level i h = tt
  proof_for-IsHash (suc fuel) level i h = elim (Bool-cases (ltb 1 (length level))) [
    | inr last ↦ rw last tt
    | inl more ↦
        rw (more, proof_for-levels sha256 level (next_level sha256 level) fuel i)
          (with_sibling-IsHash level (sibling i) _ h
            (proof_for-IsHash fuel (next_level sha256 level) (i / 2) (next_level-IsHash level h)))
  ]

  fold_proof-combine :
      (x : Bytes) (proof : List Bytes)
      → All IsHash proof
      → fold_proof sha256 x (map to_hex proof) ≡ ok (fold_combine sha256 x proof)
  unfolding fold_proof
  fold_proof-combine x [] h = refl
  fold_proof-combine x (s ∷ proof) (p, h) =
      rw (decode_hash-to_hex s p) (fold_proof-combine (combine sha256 x s) proof h)

  fold_combine-IsHash :
      (x : Bytes) (proof : List Bytes) → IsHash x → IsHash (fold_combine sha256 x proof)
  fold_combine-IsHash x [] h = h
  fold_combine-IsHash x (s ∷ proof) h =
      fold_combine-IsHash (combine sha256 x s) proof (combine-IsHash x s)

  length-map_hex : (proof : List Bytes) → length (map to_hex proof) ≡ length proof
  length-map_hex [] = refl
  length-map_hex (s ∷ proof) = ap suc (length-map_hex proof)

  short_proof :
      (proof : List Bytes)
      → length proof ≤ 32
      → ltb max_proof_len (length (map to_hex proof)) ≡ false
  short_proof proof h = ground (arith, length-map_hex proof)

  -- One leaf of a level of decoded leaves.
  pub verify-proof_for :
      (nodes : List Bytes) (i : ℕ) (hex : List ℕ) (x : Bytes)
      → All IsHash nodes
      → length nodes ≤ 2 ^ 32
      → get_elem? nodes i ≡ some x
      → decode_hash hex ≡ ok x
      → verify_receipt sha256 hex
          (map to_hex (proof_for (build_levels sha256 nodes) i))
          (to_hex (root_of (build_levels sha256 nodes)))
        ≡ ok true
  unfolding verify_receipt build_levels
  verify-proof_for nodes i hex x h k e d =
      let levels = levels_from sha256 (length nodes) nodes in
      let proof = proof_for levels i in
      let path = fold_combine-root sha256 (length nodes) nodes i x (omega arith) e in
      let hash : IsHash (root_of levels) =
        subst IsHash path (fold_combine-IsHash x proof (decode_hash-IsHash hex x d)) in
      let short : ltb max_proof_len (length (map to_hex proof)) ≡ false =
        short_proof proof (length-proof_for sha256 (length nodes) 32 nodes i k) in
      let folded = fold_proof-combine x proof (proof_for-IsHash (length nodes) nodes i h) in
      rw (short, d, folded, path, decode_hash-to_hex (root_of levels) hash)
        (ap ok (bytes_eq_refl (root_of levels)))
