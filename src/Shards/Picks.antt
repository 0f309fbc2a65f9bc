-- ===== src/Shards/Picks.antt =====
-- The shard that is picked, against the first of the heaviest ones.
use accensa_app.Prelude.{
  ℕ, ◌<◌, ◌≤◌, ◌≡◌, refl, sym, ◌∙◌, subst, ap, ◌⊎◌, ◌↔◌, inl, inr, List, [], ◌∷◌, ltb, Bool-cases,
  arith, All,
}
use accensa_app.Money.{Text}
use accensa_app.Shards.{ShardConfig, pick_from, weight, pick_shard, ok}

module _ (weigh : Text → ℕ) where
  -- A shard of the list that is heavier than those before it and not lighter than those after it.
  unfoldable pub Heaviest : List ShardConfig → ShardConfig → Type 0
  Heaviest [] s = ⊥
  Heaviest (b ∷ shards) s =
      ((b ≡ s) × All (λ x. weigh x.id ≤ weigh s.id) shards)
      ⊎ ((weigh b.id < weigh s.id) × Heaviest shards s)

  Heaviest-first :
      (b : ShardConfig) (shards : List ShardConfig) (s : ShardConfig)
      → Heaviest (b ∷ shards) s
      → weigh b.id ≤ weigh s.id
  unfolding Heaviest
  Heaviest-first b shards s (inl (same, later)) = rw same (omega arith)
  Heaviest-first b shards s (inr (less, later)) = omega arith

  Heaviest-keeps :
      (b c : ShardConfig) (shards : List ShardConfig) (s : ShardConfig)
      → weigh c.id ≤ weigh b.id
      → Heaviest (b ∷ shards) s
      → Heaviest (b ∷ c ∷ shards) s
  unfolding Heaviest
  Heaviest-keeps b c shards s h (inl (same, later)) =
      inl (same, (subst (λ s. weigh c.id ≤ weigh s.id) same h, later))
  Heaviest-keeps b c shards s h (inr (less, later)) = inr (less, inr (omega arith, later))

  Heaviest-later :
      (b c : ShardConfig) (shards : List ShardConfig) (s : ShardConfig)
      → weigh b.id < weigh c.id
      → Heaviest (c ∷ shards) s
      → Heaviest (b ∷ c ∷ shards) s
  unfolding Heaviest
  Heaviest-later b c shards s h later = inr (omega (arith, Heaviest-first c shards s later), later)

  Heaviest-none : (s : ShardConfig) → ¬ Heaviest [] s
  unfolding Heaviest
  Heaviest-none s h = h

  Heaviest-only : (b : ShardConfig) → Heaviest (b ∷ []) b
  unfolding Heaviest
  Heaviest-only b = inl (refl, tt)

  pub pick_from-Heaviest :
      (b : ShardConfig) (shards : List ShardConfig)
      → Heaviest (b ∷ shards) (pick_from weigh b shards)
  unfolding pick_from
  pick_from-Heaviest b [] = Heaviest-only b
  pick_from-Heaviest b (c ∷ shards) = elim (Bool-cases (ltb (weigh b.id) (weigh c.id))) [
    | inl less ↦ rw less (Heaviest-later b c shards _ (ground arith) (pick_from-Heaviest c shards))
    | inr more ↦ rw more (Heaviest-keeps b c shards _ (ground arith) (pick_from-Heaviest b shards))
  ]

  Heaviest-All :
      (P : ShardConfig → Type 0) (shards : List ShardConfig) (s : ShardConfig)
      → Heaviest shards s
      → All P shards
      → P s
  unfolding Heaviest
  Heaviest-All P [] s h k = absurd h
  Heaviest-All P (b ∷ shards) s (inl (same, later)) (p, k) = subst P same p
  Heaviest-All P (b ∷ shards) s (inr (less, later)) (p, k) = Heaviest-All P shards s later k

  -- There is only one such shard.
  pub Heaviest-unique :
      (shards : List ShardConfig) (s t : ShardConfig)
      → Heaviest shards s
      → Heaviest shards t
      → s ≡ t
  unfolding Heaviest
  Heaviest-unique [] s t h k = absurd h
  Heaviest-unique (b ∷ shards) s t (inl (same, later)) (inl (same', later')) = sym same ∙ same'
  Heaviest-unique (b ∷ shards) s t (inl (same, later)) (inr (less, rest)) =
      let most = Heaviest-All (λ x. weigh x.id ≤ weigh s.id) shards t rest later in
      let equal : weigh b.id ≡ weigh s.id = ap (λ x. weigh x.id) same in absurd (omega arith)
  Heaviest-unique (b ∷ shards) s t (inr (less, rest)) (inl (same, later)) =
      let most = Heaviest-All (λ x. weigh x.id ≤ weigh t.id) shards s rest later in
      let equal : weigh b.id ≡ weigh t.id = ap (λ x. weigh x.id) same in absurd (omega arith)
  Heaviest-unique (b ∷ shards) s t (inr (less, rest)) (inr (less', rest')) =
      Heaviest-unique shards s t rest rest'

-- For a tenant that is named, the shard that is picked is the one that is heavier than those before it
-- and not lighter than those after it, and nothing else than an empty list keeps one from being
-- picked.
pub pick_shard-Heaviest :
    (sha256 : Text → List ℕ) (tenant : Text) (shards : List ShardConfig) (s : ShardConfig)
    → ¬ (tenant ≡ [])
    → (pick_shard sha256 tenant shards ≡ ok s) ↔ Heaviest (weight sha256 tenant) shards s
unfolding pick_shard
pick_shard-Heaviest sha256 [] shards s h = absurd (h refl)
pick_shard-Heaviest sha256 (c ∷ cs) [] s h =
    ((λ e. absurd (cc)), (λ k. absurd (Heaviest-none (weight sha256 (c ∷ cs)) s k)))
pick_shard-Heaviest sha256 (c ∷ cs) (b ∷ shards) s h =
    let weigh = weight sha256 (c ∷ cs) in
    let picked = pick_from-Heaviest weigh b shards in
    (
      (λ e.
          let same : pick_from weigh b shards ≡ s = cc in
          subst (λ t. Heaviest weigh (b ∷ shards) t) same picked),
      (λ k. ap ok (Heaviest-unique weigh (b ∷ shards) _ s picked k)),
    )

pub pick_shard-some :
    (sha256 : Text → List ℕ) (tenant : Text) (b : ShardConfig) (shards : List ShardConfig)
    → ¬ (tenant ≡ [])
    → (s : ShardConfig) × (pick_shard sha256 tenant (b ∷ shards) ≡ ok s)
unfolding pick_shard
pick_shard-some sha256 [] b shards h = absurd (h refl)
pick_shard-some sha256 (c ∷ cs) b shards h = (pick_from (weight sha256 (c ∷ cs)) b shards, refl)

pub pick_shard-named :
    (sha256 : Text → List ℕ) (tenant : Text) (shards : List ShardConfig) (s : ShardConfig)
    → pick_shard sha256 tenant shards ≡ ok s
    → ¬ (tenant ≡ [])
unfolding pick_shard
pick_shard-named sha256 [] shards s e = absurd (cc)
pick_shard-named sha256 (c ∷ cs) shards s e = cc
