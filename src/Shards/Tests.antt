-- ===== src/Shards/Tests.antt =====
-- Shards of a small topology, and the theorems at them.
use accensa_app.Prelude.{ℕ, ◌≡◌, refl, ◌⊎◌, ◌↔◌, List, [], ◌∷◌, ◌++◌, Option, none, some}
use accensa_app.Prelude.Text.{codes}
use accensa_app.Money.{Text}
use accensa_app.Shards.{
  ShardConfig, object, other, Parsed, array, Environment, ok, throw, invalid_entry, duplicate_id,
  weight, pick_shard, shards_from_env, resolve_shard,
}
use accensa_app.Shards.Picks.{Heaviest, pick_shard-Heaviest}
use accensa_app.Shards.Changes.{pick_shard-removed}
use accensa_app.Shards.Configured.{IsTopology, shards_from_env-IsTopology, resolve_shard-Heaviest}

-- A digest that starts with the last code points of the text.
abbrev last_code : Text → ℕ
last_code [] = 0
last_code (x ∷ []) = x
last_code (x ∷ y ∷ cs) = last_code (y ∷ cs)

abbrev digest : Text → List ℕ
digest text = last_code text ∷ 0 ∷ 0 ∷ 1 ∷ []

abbrev shard : Text → ShardConfig
shard id = record { id = id; connection_string = codes "postgres" }

abbrev a : ShardConfig
a = shard (codes "a")

abbrev b : ShardConfig
b = shard (codes "b")

abbrev c : ShardConfig
c = shard (codes "c")

abbrev tenant : Text
tenant = codes "7"

picks-c : pick_shard digest tenant (a ∷ c ∷ b ∷ []) ≡ ok c
unfolding pick_shard
picks-c = refl

abbrev two_entries : Text → Option Parsed
two_entries text = some (
    array (
      object (some (codes "a")) (some (codes "postgres"))
      ∷ object (some (codes "b")) (some (codes "postgres"))
      ∷ []))

abbrev env : Environment
env = record { database_shards = some (codes "[]"); database_url = none }

env-read : shards_from_env two_entries env ≡ ok (a ∷ b ∷ [])
unfolding shards_from_env
env-read = refl

twice_a :
    shards_from_env
      (λ text. some (
        array (
          object (some (codes "a")) (some (codes "x"))
          ∷ object (some (codes "a")) (some (codes "y"))
          ∷ [])))
      env
    ≡ throw (duplicate_id (codes "a"))
unfolding shards_from_env
twice_a = refl

no_entry : shards_from_env (λ text. some (array (other ∷ []))) env ≡ throw (invalid_entry 0)
unfolding shards_from_env
no_entry = refl

pick_shard-Heaviest_example :
    (pick_shard digest tenant (a ∷ c ∷ b ∷ []) ≡ ok c)
    ↔ Heaviest (weight digest tenant) (a ∷ c ∷ b ∷ []) c
pick_shard-Heaviest_example = pick_shard-Heaviest digest tenant (a ∷ c ∷ b ∷ []) c (cc)

pick_shard-removed_example : (c ≡ c) ⊎ (pick_shard digest tenant ((a ∷ []) ++ (b ∷ [])) ≡ ok c)
pick_shard-removed_example = pick_shard-removed digest tenant (a ∷ []) (b ∷ []) c c (cc) picks-c

shards_from_env-IsTopology_example : IsTopology (a ∷ b ∷ [])
shards_from_env-IsTopology_example =
    shards_from_env-IsTopology two_entries env (a ∷ b ∷ []) env-read

resolve_shard-Heaviest_example :
    (s : ShardConfig) × (resolve_shard digest two_entries tenant env ≡ ok s)
    × Heaviest (weight digest tenant) (a ∷ b ∷ []) s
resolve_shard-Heaviest_example =
    resolve_shard-Heaviest digest two_entries tenant env (a ∷ b ∷ []) (cc) env-read
