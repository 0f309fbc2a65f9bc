-- ===== src/Shards/Changes.antt =====
-- What a shard that is added or removed changes.
use accensa_app.Prelude.{ℕ, ◌≡◌, sym, ◌⊎◌, inl, inr, List, [], ◌∷◌, ◌++◌, All}
use accensa_app.Money.{Text}
use accensa_app.Shards.{ShardConfig, weight, pick_shard, ok}
use accensa_app.Shards.Picks.{Heaviest, pick_shard-Heaviest}

module _ (weigh : Text → ℕ) (n : ShardConfig) where
  All-without :
      (P : ShardConfig → Type 0) (xs ys : List ShardConfig)
      → All P (xs ++ n ∷ ys)
      → All P (xs ++ ys)
  All-without P [] ys (p, h) = h
  All-without P (x ∷ xs) ys (p, h) = (p, All-without P xs ys h)

  Heaviest-without :
      (xs ys : List ShardConfig) (s : ShardConfig)
      → Heaviest weigh (xs ++ n ∷ ys) s
      → (s ≡ n) ⊎ Heaviest weigh (xs ++ ys) s
  unfolding Heaviest
  Heaviest-without [] ys s (inl (same, later)) = inl (sym same)
  Heaviest-without [] ys s (inr (less, later)) = inr later
  Heaviest-without (x ∷ xs) ys s (inl (same, later)) = inr (inl (same, All-without _ xs ys later))
  Heaviest-without (x ∷ xs) ys s (inr (less, later)) = elim (Heaviest-without xs ys s later) [
    | inl this ↦ inl this
    | inr rest ↦ inr (inr (less, rest))
  ]

module _ (sha256 : Text → List ℕ) (tenant : Text) where
  -- When a shard is removed, wherever it stands in the list, only a tenant that was on it moves.
  pub pick_shard-removed :
      (xs ys : List ShardConfig) (n s : ShardConfig)
      → ¬ (tenant ≡ [])
      → pick_shard sha256 tenant (xs ++ n ∷ ys) ≡ ok s
      → (s ≡ n) ⊎ (pick_shard sha256 tenant (xs ++ ys) ≡ ok s)
  pick_shard-removed xs ys n s h e =
      let weigh = weight sha256 tenant in
      let heaviest = (pick_shard-Heaviest sha256 tenant (xs ++ n ∷ ys) s h).0 e in
      elim (Heaviest-without weigh n xs ys s heaviest) [
        | inl this ↦ inl this
        | inr rest ↦ inr ((pick_shard-Heaviest sha256 tenant (xs ++ ys) s h).1 rest)
      ]
