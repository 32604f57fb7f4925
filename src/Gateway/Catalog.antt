-- ===== src/Gateway/Catalog.antt =====
-- src/opsassist/gateway/catalog.py: the catalogue of providers, models and routes.
pub mod Validate
pub mod Resolve
pub mod Laws
use novax_ai_assignment.Base.{
  ℕ, ◌+◌, ◌*◌, String, Bool, Option, none, some, List, [], ◌∷◌, if◌then◌else◌, ◌==◌, is_empty,
}

pub data ModelKind : Type 0 where
  chat embedding : ModelKind

abbrev pub same_kind : ModelKind → ModelKind → Bool
same_kind ModelKind.chat ModelKind.chat = Bool.true
same_kind ModelKind.embedding ModelKind.embedding = Bool.true
same_kind _ _ = Bool.false

pub data ProviderKind : Type 0 where
  openai_compatible ollama anthropic mock : ProviderKind

-- `timeout_s` is in the unit of the durations.
pub record ProviderConfig : Type 0 where
  pub kind : ProviderKind
  pub base_url : Option String
  pub base_url_env : Option String
  pub api_key_env : Option String
  pub send_input_type : Bool
  pub timeout_s : ℕ
  pub max_attempts : ℕ
  pub data_egress : Bool

-- A value of the environment that is unset or empty counts as absent.
abbrev env_value : (String → Option String) → Option String → Option String
env_value environ none = none
env_value environ (some name) = elim (environ name) [
  | none ↦ none
  | some value ↦ if is_empty value then none else some value
]

unfoldable pub resolved_base_url : (String → Option String) → ProviderConfig → Option String
resolved_base_url environ p = elim (env_value environ p.base_url_env) [
  | none ↦ p.base_url
  | some url ↦ some url
]

unfoldable pub api_key : (String → Option String) → ProviderConfig → Option String
api_key environ p = env_value environ p.api_key_env

-- Prices are in one unit of money per million tokens.
pub record ModelSpec : Type 0 where
  pub id : String
  pub provider : String
  pub provider_model : String
  pub kind : ModelKind
  pub context_window : Option ℕ
  pub dimensions : Option ℕ
  pub input_usd_per_mtok : ℕ
  pub output_usd_per_mtok : ℕ
  pub supports_temperature : Bool
  pub min_relevance : Option ℕ

-- The cost in millionths of the unit of the prices, so that nothing is rounded.
unfoldable pub estimate_cost_usd : ModelSpec → ℕ → ℕ → ℕ
estimate_cost_usd m prompt_tokens completion_tokens =
    m.input_usd_per_mtok * prompt_tokens + m.output_usd_per_mtok * completion_tokens

pub record Defaults : Type 0 where
  pub chat : String
  pub embedding : String

-- The dicts are association lists.
pub record Catalog : Type 0 where
  pub providers : List (String × ProviderConfig)
  pub models : List ModelSpec
  pub routes : List (String × List String)
  pub defaults : Defaults
  pub selectable : List String

-- `d.get(k)` of a dict kept as an association list
unfoldable pub get {ℓ} : {V : Type ℓ} → String → List (String × V) → Option V
get k [] = none
get k ((j, v) ∷ d) = if j == k then some v else get k d

-- The search of `model`; `none` is its `KeyError`.
unfoldable pub find_model : String → List ModelSpec → Option ModelSpec
find_model model_id [] = none
find_model model_id (m ∷ ms) = if m.id == model_id then some m else find_model model_id ms

unfoldable pub model : Catalog → String → Option ModelSpec
unfolding find_model
model c model_id = find_model model_id c.models
