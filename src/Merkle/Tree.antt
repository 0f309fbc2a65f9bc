-- ===== src/Merkle/Tree.antt =====
-- The levels of the tree and the paths through them.
use accensa_app.Prelude.{
  ℕ, zero, suc, ◌+◌, ◌-◌, ◌*◌, ◌^◌, ◌/◌, ◌%◌, ◌<◌, ◌≤◌, ◌≡◌, refl, List, [], ◌∷◌, Option, none,
  some, arith, ltb, ◌==◌, length, get_elem?, if◌then◌else◌, Bool-cases, inl, inr, ◌∙◌, sym, subst,
  ltb→lt,
}
use native.Mathlib.Nat.{pow-suc}
use accensa_app.Merkle.{Bytes, combine, next_level, levels_from, proof_for, root_of}
use accensa_app.Merkle.Hex.{combine_comm}

-- The index of the sibling of a node.
abbrev pub sibling : ℕ → ℕ
sibling i = if i % 2 == 0 then i + 1 else i - 1

module _ (sha256 : Bytes → Bytes) where
  -- A node and its sibling, if it has one, make the node above.
  abbrev pub above : Bytes → Option Bytes → Bytes
  above x none = x
  above x (some s) = combine sha256 x s

  get_elem?-next_level :
      (xs : List Bytes) (i : ℕ) (x : Bytes)
      → get_elem? xs i ≡ some x
      → get_elem? (next_level sha256 xs) (i / 2) ≡ some (above x (get_elem? xs (sibling i)))
  unfolding next_level
  get_elem?-next_level [] i x e = absurd (cc)
  get_elem?-next_level (a ∷ []) zero x e = ground arith
  get_elem?-next_level (a ∷ []) (suc i) x e = absurd (cc)
  get_elem?-next_level (a ∷ b ∷ xs) zero x e = ground arith
  get_elem?-next_level (a ∷ b ∷ xs) (suc zero) x e = ground (arith, combine_comm sha256 a b)
  get_elem?-next_level (a ∷ b ∷ xs) (suc (suc i)) x e =
      let half : suc (suc i) / 2 ≡ suc (i / 2) = omega arith in
      let over : sibling (suc (suc i)) ≡ suc (suc (sibling i)) = ground arith in
      rw (half, over) (get_elem?-next_level xs i x e)

  length-next_level-le : (xs : List Bytes) → length (next_level sha256 xs) ≤ length xs
  unfolding next_level
  length-next_level-le [] = omega arith
  length-next_level-le (a ∷ []) = omega arith
  length-next_level-le (a ∷ b ∷ xs) = omega (arith, length-next_level-le xs)

  length-next_level : (xs : List Bytes) → 1 < length xs → length (next_level sha256 xs) < length xs
  unfolding next_level
  length-next_level [] h = absurd (omega arith)
  length-next_level (a ∷ []) h = absurd (omega arith)
  length-next_level (a ∷ b ∷ xs) h = omega (arith, length-next_level-le xs)

  next_level_pos : (xs : List Bytes) → 0 < length xs → 0 < length (next_level sha256 xs)
  unfolding next_level
  next_level_pos [] h = absurd (omega arith)
  next_level_pos (a ∷ []) h = omega arith
  next_level_pos (a ∷ b ∷ xs) h = omega arith

  length-next_level_half : (xs : List Bytes) → 2 * length (next_level sha256 xs) ≤ length xs + 1
  unfolding next_level
  length-next_level_half [] = omega arith
  length-next_level_half (a ∷ []) = omega arith
  length-next_level_half (a ∷ b ∷ xs) = omega (arith, length-next_level_half xs)

  levels_from-cons :
      (fuel : ℕ) (level : List Bytes)
      → (rest : List (List Bytes)) × (levels_from sha256 fuel level ≡ level ∷ rest)
  unfolding levels_from
  levels_from-cons zero level = ([], refl)
  levels_from-cons (suc fuel) level = elim (Bool-cases (ltb 1 (length level))) [
    | inl more ↦ (levels_from sha256 fuel (next_level sha256 level), rw more)
    | inr last ↦ ([], rw last)
  ]

  -- A proof for a node, and the level above it.
  pub proof_for-levels :
      (level above' : List Bytes) (fuel i : ℕ)
      → proof_for (level ∷ levels_from sha256 fuel above') i ≡ elim (get_elem? level (sibling i)) [
        | none ↦ proof_for (levels_from sha256 fuel above') (i / 2)
        | some s ↦ s ∷ proof_for (levels_from sha256 fuel above') (i / 2)
      ]
  unfolding proof_for
  proof_for-levels level above' fuel i =
      let (rest, e) = levels_from-cons fuel above' in
      subst
        (λ ls. proof_for (level ∷ ls) i ≡ elim (get_elem? level (sibling i)) [
          | none ↦ proof_for ls (i / 2)
          | some s ↦ s ∷ proof_for ls (i / 2)
        ])
        (sym e) refl

  pub root_of-levels :
      (level above' : List Bytes) (fuel : ℕ)
      → root_of (level ∷ levels_from sha256 fuel above') ≡ root_of (levels_from sha256 fuel above')
  unfolding levels_from root_of
  root_of-levels level above' zero = refl
  root_of-levels level above' (suc fuel) = elim (Bool-cases (ltb 1 (length above'))) [
    | inl more ↦ rw more
    | inr last ↦ rw last
  ]

  -- What a proof computes to.
  abbrev pub fold_combine : Bytes → List Bytes → Bytes
  fold_combine x [] = x
  fold_combine x (s ∷ proof) = fold_combine (combine sha256 x s) proof

  fold_combine-above :
      (x : Bytes) (s : Option Bytes) (proof : List Bytes)
      → fold_combine x (elim s [ none ↦ proof | some y ↦ y ∷ proof ])
        ≡ fold_combine (above x s) proof
  fold_combine-above x none proof = refl
  fold_combine-above x (some y) proof = refl

  root_of_single :
      (level : List Bytes) (i : ℕ) (x : Bytes)
      → length level ≤ 1
      → get_elem? level i ≡ some x
      → x ≡ root_of (level ∷ [])
  unfolding root_of
  root_of_single [] i x h e = absurd (cc)
  root_of_single (a ∷ []) zero x h e = ground arith
  root_of_single (a ∷ []) (suc i) x h e = absurd (cc)
  root_of_single (a ∷ b ∷ level) i x h e = absurd (omega arith)

  proof_for_single : (level : List Bytes) (i : ℕ) → proof_for (level ∷ []) i ≡ []
  unfolding proof_for
  proof_for_single level i = refl

  -- With enough fuel every node of the first level leads to the root.
  pub fold_combine-root :
      (fuel : ℕ) (level : List Bytes) (i : ℕ) (x : Bytes)
      → length level ≤ suc fuel
      → get_elem? level i ≡ some x
      → fold_combine x (proof_for (levels_from sha256 fuel level) i)
        ≡ root_of (levels_from sha256 fuel level)
  unfolding levels_from
  fold_combine-root zero level i x h e =
      rw (proof_for_single level i) (root_of_single level i x h e)
  fold_combine-root (suc fuel) level i x h e = elim (Bool-cases (ltb 1 (length level))) [
    | inr last ↦ rw (last, proof_for_single level i) (root_of_single level i x (ground arith) e)
    | inl more ↦
        let up = next_level sha256 level in
        rw (more, proof_for-levels level up fuel i, root_of-levels level up fuel)
          (fold_combine-above x (get_elem? level (sibling i)) _
            ∙ fold_combine-root fuel up (i / 2) (above x (get_elem? level (sibling i)))
                (omega (arith, length-next_level level (ground arith)))
                (get_elem?-next_level level i x e))
  ]

  length-sibling :
      (s : Option Bytes) (proof : List Bytes)
      → length (elim s [ none ↦ proof | some y ↦ y ∷ proof ]) ≤ suc (length proof)
  length-sibling none proof = omega arith
  length-sibling (some y) proof = omega arith

  -- A level of at most 2^k nodes has proofs of at most k siblings.
  pub length-proof_for :
      (fuel k : ℕ) (level : List Bytes) (i : ℕ)
      → length level ≤ 2 ^ k
      → length (proof_for (levels_from sha256 fuel level) i) ≤ k
  unfolding levels_from
  length-proof_for zero k level i h = rw (proof_for_single level i) (omega arith)
  length-proof_for (suc fuel) k level i h = elim (Bool-cases (ltb 1 (length level))) [
    | inr last ↦ rw (last, proof_for_single level i) (omega arith)
    | inl more ↦
        rw (more, proof_for-levels level (next_level sha256 level) fuel i)
          (higher k h (ltb→lt 1 (length level) more)
            λ j. length-proof_for fuel j (next_level sha256 level) (i / 2))
  ]
    where
      rest : List Bytes
      rest = proof_for (levels_from sha256 fuel (next_level sha256 level)) (i / 2)

      higher :
          (j : ℕ)
          → length level ≤ 2 ^ j
          → 1 < length level
          → ((l : ℕ) → length (next_level sha256 level) ≤ 2 ^ l → length rest ≤ l)
          → length (elim (get_elem? level (sibling i)) [ none ↦ rest | some s ↦ s ∷ rest ]) ≤ j
      higher zero h more ih = absurd (omega arith)
      higher (suc j) h more ih = omega (
        arith,
        length-sibling (get_elem? level (sibling i)) rest,
        ih j (omega (arith, length-next_level_half level, pow-suc 2 j)),
      )

  -- The last level is one node.
  abbrev pub Ends : List (List Bytes) → Type 0
  Ends [] = ⊥
  Ends (level ∷ []) = length level ≡ 1
  Ends (level ∷ next ∷ levels) = Ends (next ∷ levels)

  Ends-cons :
      (level up : List Bytes) (fuel : ℕ)
      → Ends (levels_from sha256 fuel up)
      → Ends (level ∷ levels_from sha256 fuel up)
  Ends-cons level up fuel h =
      let (rest, e) = levels_from-cons fuel up in
      subst (λ ls. Ends (level ∷ ls)) (sym e) (subst Ends e h)

  -- With enough fuel the loop of `buildLevels` runs until one node is left.
  pub levels_from-Ends :
      (fuel : ℕ) (level : List Bytes)
      → 0 < length level
      → length level ≤ suc fuel
      → Ends (levels_from sha256 fuel level)
  unfolding levels_from
  levels_from-Ends zero level h k = omega arith
  levels_from-Ends (suc fuel) level h k = elim (Bool-cases (ltb 1 (length level))) [
    | inr last ↦ rw last (ground arith)
    | inl more ↦ rw more (
        Ends-cons level (next_level sha256 level) fuel (
          levels_from-Ends fuel (next_level sha256 level) (next_level_pos level h)
            (omega (arith, length-next_level level (ltb→lt 1 (length level) more)))))
  ]
