-- ===== src/Routing.antt =====
-- src/service/routing.rs: the route of a model, the model catalog and the users' access lists, over the
-- rows of src/store/upstream.rs and src/store/access.rs. The JSON columns of a route and a provider, which
-- routing never reads, are left out.
pub mod Resolve
pub mod Cost
use llm_gateway.Prelude.{
  Option, none, some, Bool, true, false, ◌&&◌, ◌||◌, List, [], ◌∷◌, find, any, if◌then◌else◌,
}
use llm_gateway.Prelude.Eq.{◌==◌, List_Eq, ℕ_Eq, Option_Eq}
use llm_gateway.Prelude.Int.{ℤ, ℤ_Eq}
use llm_gateway.Prelude.Text.{Text, starts_with, strip_suffix}
use llm_gateway.Prelude.Map.{Map, lookup}

pub record ModelRoute : Type 0 where
  pub model_pattern : Text
  pub provider_id : ℤ
  pub fallback_ids : List ℤ
  pub upstream_model : Option Text

pub record Provider : Type 0 where
  pub id : ℤ
  pub name : Text
  pub api_type : Text
  pub base_url : Text
  pub supports_images : Bool

pub record UserAccessRule : Type 0 where
  pub user_id : ℤ
  pub provider_id : Option ℤ
  pub model_pattern : Option Text

unfoldable pub matches_pattern : Text → Text → Bool
matches_pattern pattern model = elim (strip_suffix b'*' pattern) [
  | some prefix ↦ starts_with model prefix
  | none ↦ pattern == model
]

abbrev or_else {ℓ} : {A : Type ℓ} → Option A → Option A → Option A
or_else (some a) b = some a
or_else none b = b

-- The routes come in the order of priority and id.
unfoldable pub resolve_route : List ModelRoute → Text → Option ModelRoute
resolve_route routes model =
    or_else (find (λ r. r.model_pattern == model) routes)
      (find (λ r. matches_pattern r.model_pattern model) routes)

contains_model : Text → Option (List Text) → Bool
contains_model model none = false
contains_model model (some models) = any (λ m. m == model) models

-- `disabled` is the catalog of `AppState`: the disabled models of each provider.
unfoldable pub model_disabled : Map ℤ (List Text) → ℤ → Text → Bool
unfolding contains_model
model_disabled disabled provider_id upstream_model =
    contains_model upstream_model (lookup provider_id disabled)

for_any_model : Text → Option Text → Bool
for_any_model model none = true
for_any_model model (some pattern) = matches_pattern pattern model

for_any_provider : ℤ → Option ℤ → Bool
for_any_provider id none = true
for_any_provider id (some p) = p == id

-- One rule of an access list allows the provider and the model.
unfoldable pub rule_allows : ℤ → Text → UserAccessRule → Bool
unfolding for_any_model for_any_provider
rule_allows provider_id model r =
    for_any_provider provider_id r.provider_id && for_any_model model r.model_pattern

list_allows : ℤ → Text → Option (List UserAccessRule) → Bool
list_allows provider_id model none = true
list_allows provider_id model (some []) = true
list_allows provider_id model (some (r ∷ rules)) = any (rule_allows provider_id model) (r ∷ rules)

unfoldable pub user_can_use : Map ℤ (List UserAccessRule) → ℤ → ℤ → Text → Bool
unfolding list_allows
user_can_use access user_id provider_id model =
    list_allows provider_id model (lookup user_id access)
