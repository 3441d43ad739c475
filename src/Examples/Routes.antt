-- ===== src/Examples/Routes.antt =====
-- Concrete routes, upstreams and prices (src/service/routing.rs and src/service/proxy.rs).
use llm_gateway.Prelude.{ℕ, ◌≡◌, ◌≢◌, refl, ◌⊎◌, none, some, true, false, [], ◌∷◌, All}
use llm_gateway.Prelude.Eq.{ℕ_Eq, List_Eq, list_beq}
use llm_gateway.Prelude.Int.{pos}
use llm_gateway.Prelude.Map.{Map, lookup}
use llm_gateway.Prelude.Text.{Text, codes}
use llm_gateway.Routing.{
  ModelRoute, Provider, matches_pattern, resolve_route, model_disabled, user_can_use,
}
use llm_gateway.Routing.Resolve.{IsFirst, resolve_route_lem}
use llm_gateway.Routing.Cost.{ModelPrice}
use llm_gateway.Proxy.Candidates.{
  Endpoint, Gateway, select_from, selected, resolve_candidates, outbound_model, pairing_unsupported,
}
use llm_gateway.Proxy.Candidates.Selected.{IsServing, IsDistinct, select_from-IsServing}

abbrev gpt : Text
gpt = codes "gpt-4o"

abbrev route : ModelRoute
route = record {
  model_pattern = codes "gpt-*";
  provider_id = pos 1;
  fallback_ids = [];
  upstream_model = none;
}

abbrev upstream : Provider
upstream = record {
  id = pos 1;
  name = codes "p";
  api_type = codes "openai";
  base_url = [];
  supports_images = true;
}

abbrev gateway : Gateway
gateway = record {
  routes = route ∷ [];
  providers = upstream ∷ [];
  disabled_models = [];
  user_access = [];
  admin_ids = [];
  message_templates = record { concurrency_text = []; model_denied_text = [] };
}

abbrev chat : Endpoint
chat = record { responses = false; anthropic = false }

resolve_route_lem_example :
    ((r : ModelRoute) × (resolve_route (route ∷ []) gpt ≡ some r)
      × IsFirst (λ b. list_beq b.model_pattern gpt) (route ∷ []) r)
    ⊎ (((r : ModelRoute) × (resolve_route (route ∷ []) gpt ≡ some r)
          × All (λ b. list_beq b.model_pattern gpt ≡ false) (route ∷ [])
          × IsFirst (λ b. matches_pattern b.model_pattern gpt) (route ∷ []) r)
        ⊎ ((resolve_route (route ∷ []) gpt ≡ none)
            × All (λ b. matches_pattern b.model_pattern gpt ≡ false) (route ∷ [])))
resolve_route_lem_example = resolve_route_lem (route ∷ []) gpt

one_selected : select_from gateway chat none gpt route ≡ selected (upstream ∷ [])
unfolding select_from resolve_candidates model_disabled outbound_model user_can_use
    pairing_unsupported lookup
one_selected = refl

select_from-IsServing_example :
    All (IsServing gateway chat none gpt route) (upstream ∷ [])
    × IsDistinct (upstream ∷ [])
    × (upstream ∷ [] ≢ [])
select_from-IsServing_example =
    select_from-IsServing gateway chat none gpt route (upstream ∷ []) one_selected

-- Here a price is its number of micro-dollars.
abbrev price : ModelPrice ℕ
price = record {
  model = gpt;
  input_price_per_m = some 2_500_000;
  output_price_per_m = none;
  cache_read_price_per_m = none;
  cache_write_price_per_m = none;
}

abbrev prices : Map Text (ModelPrice ℕ)
prices = (gpt, price) ∷ []
