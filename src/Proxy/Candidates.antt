-- ===== src/Proxy/Candidates.antt =====
-- src/service/proxy.rs: `proxy_authed` from the model's route to the list of upstreams to try, with
-- `resolve_candidates`, `pairing_unsupported` and the question that the loops ask of the breaker.
-- The wording of the refusals is left out, but for the configured one. The catalog, the access lists,
-- the routes and the providers are those in memory at the time of the request.
pub mod Selected
pub mod HalfOpen
use llm_gateway.Prelude.{
  ℕ, Option, none, some, Bool, true, false, not, ◌&&◌, ◌||◌, List, [], ◌∷◌, ◌++◌, find, any, filter,
  ltb, length, if◌then◌else◌,
}
use llm_gateway.Prelude.Eq.{◌==◌, List_Eq, ℕ_Eq}
use llm_gateway.Prelude.Int.{ℤ, ℤ_Eq}
use llm_gateway.Prelude.Text.{Text, codes, strip_suffix_text, eq_ignore_case}
use llm_gateway.Prelude.Map.{Map}
use llm_gateway.Messages.{MessageTemplates, model_denied}
use llm_gateway.Routing.{
  ModelRoute, Provider, UserAccessRule, resolve_route, model_disabled, user_can_use,
}
use llm_gateway.Breaker.{States, allow, filter_candidates}

pub record Endpoint : Type 0 where
  pub responses : Bool
  pub anthropic : Bool

-- What `AppState` holds for routing.
pub record Gateway : Type 0 where
  pub routes : List ModelRoute
  pub providers : List Provider
  pub disabled_models : Map ℤ (List Text)
  pub user_access : Map ℤ (List UserAccessRule)
  pub admin_ids : List ℤ
  pub message_templates : MessageTemplates

-- One round of the loop in `resolve_candidates`.
push_provider : List Provider → List Provider → ℤ → List Provider
push_provider providers list id = elim (find (λ p. p.id == id) providers) [
  | none ↦ list
  | some p ↦ if any (λ l. l.id == id) list then list else list ++ p ∷ []
]

push_all : List Provider → List Provider → List ℤ → List Provider
unfolding push_provider
push_all providers list [] = list
push_all providers list (id ∷ ids) = push_all providers (push_provider providers list id) ids

-- The primary provider of the route and then its fallbacks, each once, those that are enabled.
unfoldable pub resolve_candidates : List Provider → ModelRoute → List Provider
unfolding push_all
resolve_candidates providers route = push_all providers [] (route.provider_id ∷ route.fallback_ids)

abbrev native_responses : Provider → Bool
native_responses p = eq_ignore_case p.api_type (codes "openai-responses")

abbrev native_anthropic : Provider → Bool
native_anthropic p = eq_ignore_case p.api_type (codes "anthropic")

-- Whether the gateway cannot serve the client's dialect from the upstream's.
unfoldable pub pairing_unsupported : Endpoint → Provider → Bool
pairing_unsupported endpoint provider =
    if endpoint.anthropic
    then native_responses provider
    else if endpoint.responses
    then native_anthropic provider
    else native_responses provider || native_anthropic provider

or_model : Text → Option Text → Text
or_model model none = model
or_model model (some m) = m

-- The model's name at the upstream: the route's mapping, or the client's name without `[1m]`.
unfoldable pub outbound_model : ModelRoute → Text → Text
unfolding or_model
outbound_model route model =
    or_model (or_model model (strip_suffix_text (codes "[1m]") model)) route.upstream_model

pub data Refusal : Type 0 where
  not_routed no_provider model_is_disabled unsupported_pairing : Refusal
  forbidden : Text → Refusal

pub data Selection : Type 0 where
  selected : List Provider → Selection
  refused : Refusal → Selection

-- `if candidates.is_empty() { return Err(..) }`
require_some : Refusal → List Provider → (List Provider → Selection) → Selection
require_some r [] next = refused r
require_some r (p ∷ ps) next = next (p ∷ ps)

-- The access lists bind a known user who is no administrator.
abbrev pub may_use : Gateway → Option ℤ → Text → Provider → Bool
may_use g none model p = true
may_use g (some uid) model p =
    any (λ a. a == uid) g.admin_ids || user_can_use g.user_access uid p.id model

unfoldable pub select_from : Gateway → Endpoint → Option ℤ → Text → ModelRoute → Selection
unfolding require_some
select_from g endpoint user_id model route =
    require_some no_provider (resolve_candidates g.providers route) λ found.
      require_some model_is_disabled
        (filter (λ p. not (model_disabled g.disabled_models p.id (outbound_model route model)))
          found)
        λ enabled.
          require_some (forbidden (model_denied g.message_templates model))
            (filter (may_use g user_id model) enabled)
            λ allowed.
              require_some unsupported_pairing
                (filter (λ p. not (pairing_unsupported endpoint p)) allowed) selected

unfoldable select : Gateway → Endpoint → Option ℤ → Text → Selection
unfolding select_from
select g endpoint user_id model = elim (resolve_route g.routes model) [
  | none ↦ refused not_routed
  | some route ↦ select_from g endpoint user_id model route
]

-- The candidates to try, and whether the loop asks the breaker again for each of them.
pub record Chosen : Type 0 where
  pub candidates : List Provider
  pub check_breaker : Bool

chosen_of : List Provider → Option (List Provider) → Chosen
chosen_of supported none = record { candidates = supported; check_breaker = false }
chosen_of supported (some list) = record { candidates = list; check_breaker = ltb 1 (length list) }

unfoldable pub choose : ℕ → List Provider → States → Chosen × States
unfolding chosen_of
choose now supported states =
    let (allowed, states') = filter_candidates (λ p. p.id) now supported states in
    (chosen_of supported allowed, states')

-- `if check_breaker && !st.breaker.allow(provider.id) { continue; }`
unfoldable pub tries : Bool → ℕ → Provider → States → Bool × States
tries check_breaker now provider states =
    if check_breaker then allow now provider.id states else (true, states)
