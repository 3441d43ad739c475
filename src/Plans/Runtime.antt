-- ===== src/Plans/Runtime.antt =====
-- src/store/plans.rs: a user's plans in memory, `is_within_active_window` and `resolve_plan`.
-- The warning on several candidates is not modelled. A `NaiveTime` is its nanoseconds since midnight.
pub mod Resolve
use llm_gateway.Prelude.{
  ℕ, ◌≡◌, Option, none, some, Bool, true, false, ◌&&◌, ◌||◌, List, [], ◌∷◌, ltb, leb, if◌then◌else◌,
  filter,
}
use llm_gateway.Prelude.Int.{ℤ, ltb_ℤ, leb_ℤ, ℤ_Eq}
use llm_gateway.Prelude.Map.{Map, lookup}
use llm_gateway.Prelude.Text.{Text}
use llm_gateway.Plans.Scope.{ModelScope, scope_matches, scope_specificity}
use llm_gateway.Plans.Period.{Window}

-- `window` holds the fields period_type, period_hours, period_anchor_mode and member_since.
pub record PlanRuntime : Type 0 where
  pub plan_id : ℤ
  pub plan_name : Text
  pub group_name : Text
  pub token_limit : ℤ
  pub window : Window
  pub overage_action : Text
  pub downgrade_model : Option Text
  pub alert_channels : List Text
  pub webhook_url : Text
  pub priority : ℤ
  pub active_start : Option ℕ
  pub active_end : Option ℕ
  pub model_scope : Option ModelScope

unfoldable pub is_within_active_window : Option ℕ → Option ℕ → ℕ → Bool
is_within_active_window (some s) (some e) local_now =
    if ltb s e
    then leb s local_now && ltb local_now e
    else if ltb e s
    then leb s local_now || ltb local_now e
    else true
is_within_active_window _ _ local_now = true

scope_admits : Option ModelScope → Option Text → Bool
scope_admits (some scope) (some m) = scope_matches scope m
scope_admits _ _ = true

-- The two filters of `resolve_plan`.
pub is_candidate : ℕ → Option Text → PlanRuntime → Bool
unfolding scope_admits
is_candidate local_now model p =
    is_within_active_window p.active_start p.active_end local_now
    && scope_admits p.model_scope model

-- The key of `max_by_key`, and the order of such tuples.
pub plan_key : Option Text → PlanRuntime → ℕ × ℤ × ℤ
plan_key none p = (0, p.priority, p.plan_id)
plan_key (some m) p = (scope_specificity p.model_scope, p.priority, p.plan_id)

abbrev pub leb_key : ℕ × ℤ × ℤ → ℕ × ℤ × ℤ → Bool
leb_key (a, b, c) (x, y, z) = ltb a x || (leb a x && (ltb_ℤ b y || (leb_ℤ b y && leb_ℤ c z)))

-- `Iterator::max_by_key`: the last of the greatest.
pub max_from : Option Text → PlanRuntime → List PlanRuntime → PlanRuntime
unfolding plan_key
max_from model best [] = best
max_from model best (p ∷ ps) =
    max_from model (if leb_key (plan_key model best) (plan_key model p) then p else best) ps

pub max_by_key : Option Text → List PlanRuntime → Option PlanRuntime
unfolding max_from
max_by_key model [] = none
max_by_key model (p ∷ ps) = some (max_from model p ps)

pub resolve_among : ℕ → Option Text → Option (List PlanRuntime) → Option PlanRuntime
unfolding max_by_key is_candidate
resolve_among local_now model none = none
resolve_among local_now model (some ps) =
    max_by_key model (filter (is_candidate local_now model) ps)

unfoldable pub resolve_plan : Map ℤ (List PlanRuntime) → ℤ → ℕ → Option Text → Option PlanRuntime
unfolding resolve_among
resolve_plan plans user_id local_now model = resolve_among local_now model (lookup user_id plans)
