-- ===== src/RateLimit/Rules.antt =====
-- src/service/ratelimit.rs: `matched_rules`, with the rule row of src/store/rules.rs.
-- An unknown scope is skipped (the warning it logs is not modelled).
pub mod Buckets
use llm_gateway.Prelude.{Bool, Option, none, some, List, [], ◌∷◌, ◌++◌, if◌then◌else◌}
use llm_gateway.Prelude.Eq.{◌==◌, List_Eq, ℕ_Eq, Option_Eq}
use llm_gateway.Prelude.Int.{ℤ, ℤ_Eq}
use llm_gateway.Prelude.Text.{Text, codes, show_ℤ}

pub record RateRule : Type 0 where
  pub scope : Text
  pub scope_id : Option ℤ
  pub model : Option Text
  pub concurrency : ℤ

-- Who makes the request: nobody knows the user of an unauthenticated one.
pub record Caller : Type 0 where
  pub user_id : Option ℤ
  pub key_id : Option ℤ

-- The arm `"user"`: a rule without an id is for each user.
user_bucket : Option ℤ → Option ℤ → Option Text
user_bucket scope_id none = none
user_bucket none (some uid) = some (codes "user:" ++ show_ℤ uid)
user_bucket (some sid) (some uid) = if uid == sid then some (codes "user:" ++ show_ℤ uid) else none

-- The arm `"api_key"`: the rule names the key.
key_bucket : Option ℤ → Option ℤ → Option Text
key_bucket scope_id none = none
key_bucket scope_id (some kid) =
    if some kid == scope_id then some (codes "key:" ++ show_ℤ kid) else none

scope_bucket : RateRule → Caller → Option Text
unfolding user_bucket key_bucket
scope_bucket rule caller =
    if rule.scope == codes "global"
    then some (codes "global")
    else if rule.scope == codes "user"
    then user_bucket rule.scope_id caller.user_id
    else if rule.scope == codes "api_key"
    then key_bucket rule.scope_id caller.key_id
    else none

-- The suffix of a rule that is limited to one model.
model_bucket : Option Text → Text → Text → Option Text
model_bucket none model bucket_key = some bucket_key
model_bucket (some rule_model) model bucket_key =
    if rule_model == model then some ((bucket_key ++ codes "|model:") ++ rule_model) else none

unfoldable pub bucket_of : RateRule → Caller → Text → Option Text
unfolding scope_bucket model_bucket
bucket_of rule caller model = elim (scope_bucket rule caller) [
  | none ↦ none
  | some bucket_key ↦ model_bucket rule.model model bucket_key
]

push_match : Option Text → ℤ → List (Text × ℤ) → List (Text × ℤ)
push_match none limit rest = rest
push_match (some bucket_key) limit rest = (bucket_key, limit) ∷ rest

unfoldable pub matched_rules : List RateRule → Caller → Text → List (Text × ℤ)
unfolding bucket_of push_match
matched_rules [] caller model = []
matched_rules (rule ∷ rules) caller model =
    push_match (bucket_of rule caller model) rule.concurrency (matched_rules rules caller model)
