-- ===== src/Shards.antt =====
-- apps/web/src/lib/shard-router.ts. SHA-256 of a text and JSON.parse are parameters.
pub mod Picks
pub mod Changes
pub mod Configured
mod Tests
use accensa_app.Prelude.{
  ◌≡◌, refl, ℕ, suc, ◌+◌, ◌*◌, ◌++◌, Bool, true, false, List, [], ◌∷◌, Option, none, some, ltb,
  if◌then◌else◌,
}
use accensa_app.Prelude.Text.{codes, trim_codes, same_text}
use accensa_app.Money.{Text}

pub record ShardConfig : Type 0 where
  pub id : Text
  pub connection_string : Text

pub data ShardError : Type 0 where
  no_tenant no_shards not_configured invalid_json no_array : ShardError
  invalid_entry : ℕ → ShardError
  duplicate_id : Text → ShardError

pub data Result (A : Type 0) : Type 0 where
  ok : A → Result A
  throw : ShardError → Result A

infixl 5 ◌>>=◌
abbrev pub ◌>>=◌ : {A B : Type 0} → Result A → (A → Result B) → Result B
ok a >>= f = f a
throw e >>= f = throw e

pub ok_injective : {A : Type 0} {a b : A} → ◌≡◌ {A = Result A} (ok a) (ok b) → a ≡ b
ok_injective e = cc

-- A chain that returns has a first step that returns.
pub bind_ok :
    {A B : Type 0} {b : B} (r : Result A) (f : A → Result B)
    → (r >>= f) ≡ ok b
    → (a : A) × (r ≡ ok a) × (f a ≡ ok b)
bind_ok (ok a) f e = (a, refl, e)
bind_ok (throw x) f e = absurd (cc)

-- An entry of the array: the fields that are texts, or no object.
pub data Entry : Type 0 where
  object : Option Text → Option Text → Entry
  other : Entry

-- The value of a JSON text.
pub data Parsed : Type 0 where
  array : List Entry → Parsed
  no_array_value : Parsed

pub record Environment : Type 0 where
  pub database_shards : Option Text
  pub database_url : Option Text

module _ (weigh : Text → ℕ) where
  -- The better of two shards: the first, if they weigh the same.
  abbrev pub better : ShardConfig → ShardConfig → ShardConfig
  better best candidate = if ltb (weigh best.id) (weigh candidate.id) then candidate else best

  -- The loop of `pickShard`.
  unfoldable pub pick_from : ShardConfig → List ShardConfig → ShardConfig
  pick_from best [] = best
  pick_from best (candidate ∷ shards) = pick_from (better best candidate) shards

-- `readUInt32BE(0)`; a digest has 32 bytes.
abbrev read_uint32_be : List ℕ → ℕ
read_uint32_be (a ∷ b ∷ c ∷ d ∷ bytes) = ((a * 256 + b) * 256 + c) * 256 + d
read_uint32_be _ = 0

-- `weight`, with U+0000 between the two texts.
unfoldable pub weight : (Text → List ℕ) → Text → Text → ℕ
weight sha256 tenant id = read_uint32_be (sha256 (tenant ++ 0 ∷ id))

-- `pickShard`
unfoldable pub pick_shard : (Text → List ℕ) → Text → List ShardConfig → Result ShardConfig
unfolding pick_from weight
pick_shard sha256 [] shards = throw no_tenant
pick_shard sha256 (c ∷ cs) [] = throw no_shards
pick_shard sha256 (c ∷ cs) (shard ∷ shards) = ok (pick_from (weight sha256 (c ∷ cs)) shard shards)

-- A text that is there and not empty.
abbrev pub nonempty : Option Text → Option Text
nonempty (some (c ∷ cs)) = some (c ∷ cs)
nonempty _ = none

abbrev pub from_fields : ℕ → Option Text → Option Text → Result ShardConfig
from_fields i (some id) (some url) = ok (record { id = id; connection_string = url })
from_fields i _ _ = throw (invalid_entry i)

abbrev pub shard_of : ℕ → Entry → Result ShardConfig
shard_of i (object id url) = from_fields i (nonempty id) (nonempty url)
shard_of i other = throw (invalid_entry i)

-- The callback of `parsed.map`, from an index on.
unfoldable pub shards_of : ℕ → List Entry → Result (List ShardConfig)
shards_of i [] = ok []
shards_of i (entry ∷ entries) = do
  shard ← shard_of i entry
  shards ← shards_of (suc i) entries
  ok (shard ∷ shards)

unfoldable pub has_id : Text → List Text → Bool
unfolding same_text
has_id id [] = false
has_id id (known ∷ seen) = if same_text id known then true else has_id id seen

-- The loop that adds the identifiers to `seen`.
unfoldable pub no_duplicates : List Text → List ShardConfig → Result Unit
unfolding has_id
no_duplicates seen [] = ok tt
no_duplicates seen (shard ∷ shards) =
    let rest = no_duplicates (shard.id ∷ seen) shards in
    if has_id shard.id seen then throw (duplicate_id shard.id) else rest

abbrev pub checked : List Entry → Result (List ShardConfig)
checked [] = throw no_array
checked (entry ∷ entries) = do
  shards ← shards_of 0 (entry ∷ entries)
  unique ← no_duplicates [] shards
  ok shards

abbrev pub from_json : Option Parsed → Result (List ShardConfig)
from_json none = throw invalid_json
from_json (some no_array_value) = throw no_array
from_json (some (array entries)) = checked entries

abbrev pub only_shard : Option Text → Result (List ShardConfig)
only_shard (some (c ∷ cs)) = ok (record { id = codes "default"; connection_string = c ∷ cs } ∷ [])
only_shard _ = throw not_configured

abbrev pub is_blank : Text → Bool
is_blank [] = true
is_blank (c ∷ cs) = false

module _ (json_parse : Text → Option Parsed) where
  abbrev pub from_setting : Option Text → Option Text → Result (List ShardConfig)
  from_setting none url = only_shard url
  from_setting (some raw) url =
      if is_blank (trim_codes raw) then only_shard url else from_json (json_parse raw)

  -- `shardsFromEnv`
  unfoldable pub shards_from_env : Environment → Result (List ShardConfig)
  unfolding trim_codes shards_of no_duplicates
  shards_from_env env = from_setting env.database_shards env.database_url

-- `resolveShard`
unfoldable pub resolve_shard :
    (Text → List ℕ) → (Text → Option Parsed) → Text → Environment → Result ShardConfig
unfolding pick_shard shards_from_env
resolve_shard sha256 json_parse tenant env = do
  shards ← shards_from_env json_parse env
  pick_shard sha256 tenant shards
