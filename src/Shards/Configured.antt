-- ===== src/Shards/Configured.antt =====
-- The shards that the environment configures.
use accensa_app.Prelude.{
  ℕ, suc, ◌≡◌, refl, subst, inl, inr, false, List, [], ◌∷◌, Option, none, some, Bool-cases, All,
  All-map,
}
use accensa_app.Prelude.Text.{same_text, trim_codes}
use accensa_app.Money.{Text}
use accensa_app.Shards.{
  ShardConfig, Entry, object, other, Parsed, array, no_array_value, Environment, ok, ok_injective,
  bind_ok, nonempty, from_fields, shard_of, shards_of, has_id, no_duplicates, checked, from_json,
  only_shard, from_setting, is_blank, shards_from_env, resolve_shard, weight,
}
use accensa_app.Shards.Picks.{Heaviest, pick_shard-Heaviest, pick_shard-some}

abbrev IsGiven : Text → Type 0
IsGiven [] = ⊥
IsGiven (c ∷ cs) = Unit

-- A shard with an identifier and a database.
pub record IsShard (s : ShardConfig) : Type 0 where
  pub named : IsGiven s.id
  pub placed : IsGiven s.connection_string

-- No two shards have the same identifier.
abbrev pub Distinct : List ShardConfig → Type 0
Distinct [] = Unit
Distinct (s ∷ shards) = All (λ t. same_text t.id s.id ≡ false) shards × Distinct shards

nonempty-IsGiven : (o : Option Text) (t : Text) → nonempty o ≡ some t → IsGiven t
nonempty-IsGiven none t e = absurd (cc)
nonempty-IsGiven (some []) t e = absurd (cc)
nonempty-IsGiven (some (c ∷ cs)) t e = let same : (c ∷ cs) ≡ t = cc in subst IsGiven same tt

from_fields-IsShard :
    (i : ℕ) (id url : Option Text) (s : ShardConfig)
    → ((t : Text) → id ≡ some t → IsGiven t)
    → ((t : Text) → url ≡ some t → IsGiven t)
    → from_fields i id url ≡ ok s
    → IsShard s
from_fields-IsShard i none url s h k e = absurd (cc)
from_fields-IsShard i (some a) none s h k e = absurd (cc)
from_fields-IsShard i (some a) (some b) s h k e =
    subst IsShard (ok_injective e) (record { named = h a refl; placed = k b refl })

shard_of-IsShard : (i : ℕ) (entry : Entry) (s : ShardConfig) → shard_of i entry ≡ ok s → IsShard s
shard_of-IsShard i (object id url) s e =
    from_fields-IsShard i (nonempty id) (nonempty url) s (nonempty-IsGiven id)
      (nonempty-IsGiven url) e
shard_of-IsShard i other s e = absurd (cc)

shards_of-IsShard :
    (i : ℕ) (entries : List Entry) (shards : List ShardConfig)
    → shards_of i entries ≡ ok shards
    → All IsShard shards
unfolding shards_of
shards_of-IsShard i [] shards e = subst (All IsShard) (ok_injective e) tt
shards_of-IsShard i (entry ∷ entries) shards e =
    let (s, got, rest) = bind_ok (shard_of i entry) _ e in
    let (later, more, done) = bind_ok (shards_of (suc i) entries) _ rest in
    subst (All IsShard) (ok_injective done)
      (shard_of-IsShard i entry s got, shards_of-IsShard (suc i) entries later more)

abbrev Unseen : List Text → ShardConfig → Type 0
Unseen seen s = has_id s.id seen ≡ false

Unseen-first :
    (s : ShardConfig) (known : Text) (seen : List Text)
    → Unseen (known ∷ seen) s
    → (same_text s.id known ≡ false) × Unseen seen s
unfolding has_id
Unseen-first s known seen h = elim (Bool-cases (same_text s.id known)) [
  | inl same ↦ let k = rw same at h in absurd (cc)
  | inr differs ↦ (differs, rw differs at h)
]

no_duplicates-Distinct :
    (seen : List Text) (shards : List ShardConfig) (u : Unit)
    → no_duplicates seen shards ≡ ok u
    → All (Unseen seen) shards × Distinct shards
unfolding no_duplicates
no_duplicates-Distinct seen [] u e = (tt, tt)
no_duplicates-Distinct seen (s ∷ shards) u e = elim (Bool-cases (has_id s.id seen)) [
  | inl known ↦ let k = rw known at e in absurd (cc)
  | inr new ↦
      let k = rw new at e in
      let (unseen, distinct) = no_duplicates-Distinct (s.id ∷ seen) shards u k in
      (
        (new, All-map (λ x h. (Unseen-first x s.id seen h).1) shards unseen),
        (All-map (λ x h. (Unseen-first x s.id seen h).0) shards unseen, distinct),
      )
]

-- At least one shard, all with an identifier and a database, and no two with the same identifier.
pub record IsTopology (shards : List ShardConfig) : Type 0 where
  pub some_shard : ¬ (shards ≡ [])
  pub sound : All IsShard shards
  pub distinct : Distinct shards

shards_of-some :
    (i : ℕ) (entry : Entry) (entries : List Entry) (shards : List ShardConfig)
    → shards_of i (entry ∷ entries) ≡ ok shards
    → ¬ (shards ≡ [])
unfolding shards_of
shards_of-some i entry entries shards e =
    let (s, got, rest) = bind_ok (shard_of i entry) _ e in
    let (later, more, done) = bind_ok (shards_of (suc i) entries) _ rest in
    let same : (s ∷ later) ≡ shards = ok_injective done in cc

checked-IsTopology :
    (entries : List Entry) (shards : List ShardConfig)
    → checked entries ≡ ok shards
    → IsTopology shards
checked-IsTopology [] shards e = absurd (cc)
checked-IsTopology (entry ∷ entries) shards e =
    let (found, got, rest) = bind_ok (shards_of 0 (entry ∷ entries)) _ e in
    let (u, unique, done) = bind_ok (no_duplicates [] found) _ rest in
    subst IsTopology (ok_injective done) (record {
      some_shard = shards_of-some 0 entry entries found got;
      sound = shards_of-IsShard 0 (entry ∷ entries) found got;
      distinct = (no_duplicates-Distinct [] found u unique).1;
    })

from_json-IsTopology :
    (o : Option Parsed) (shards : List ShardConfig) → from_json o ≡ ok shards → IsTopology shards
from_json-IsTopology none shards e = absurd (cc)
from_json-IsTopology (some no_array_value) shards e = absurd (cc)
from_json-IsTopology (some (array entries)) shards e = checked-IsTopology entries shards e

only_shard-IsTopology :
    (url : Option Text) (shards : List ShardConfig) → only_shard url ≡ ok shards → IsTopology shards
only_shard-IsTopology none shards e = absurd (cc)
only_shard-IsTopology (some []) shards e = absurd (cc)
only_shard-IsTopology (some (c ∷ cs)) shards e = subst IsTopology (ok_injective e) (record {
  some_shard = cc;
  sound = (record { named = tt; placed = tt }, tt);
  distinct = (tt, tt);
})

from_setting-IsTopology :
    (json_parse : Text → Option Parsed) (raw url : Option Text) (shards : List ShardConfig)
    → from_setting json_parse raw url ≡ ok shards
    → IsTopology shards
from_setting-IsTopology json_parse none url shards e = only_shard-IsTopology url shards e
from_setting-IsTopology json_parse (some raw) url shards e =
    elim (Bool-cases (is_blank (trim_codes raw))) [
      | inl blank ↦ only_shard-IsTopology url shards (rw blank at e)
      | inr given ↦ from_json-IsTopology (json_parse raw) shards (rw given at e)
    ]

-- Whatever JSON.parse gives, the shards that are read from an environment are at least one, each has
-- an identifier and a database, and no two have the same identifier.
pub shards_from_env-IsTopology :
    (json_parse : Text → Option Parsed) (env : Environment) (shards : List ShardConfig)
    → shards_from_env json_parse env ≡ ok shards
    → IsTopology shards
unfolding shards_from_env
shards_from_env-IsTopology json_parse env shards e =
    from_setting-IsTopology json_parse env.database_shards env.database_url shards e

-- If the shards can be read from the environment, every tenant that is named has a shard, the heaviest
-- for it and the first of those.
pub resolve_shard-Heaviest :
    (sha256 : Text → List ℕ) (json_parse : Text → Option Parsed) (tenant : Text) (env : Environment)
    (shards : List ShardConfig)
    → ¬ (tenant ≡ [])
    → shards_from_env json_parse env ≡ ok shards
    → (s : ShardConfig) × (resolve_shard sha256 json_parse tenant env ≡ ok s)
      × Heaviest (weight sha256 tenant) shards s
unfolding resolve_shard
resolve_shard-Heaviest sha256 json_parse tenant env [] h e =
    absurd ((shards_from_env-IsTopology json_parse env [] e).some_shard refl)
resolve_shard-Heaviest sha256 json_parse tenant env (b ∷ shards) h e =
    let (s, picked) = pick_shard-some sha256 tenant b shards h in
    (s, rw e picked, (pick_shard-Heaviest sha256 tenant (b ∷ shards) s h).0 picked)
