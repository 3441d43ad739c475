-- ===== src/Plans/Quota.antt =====
-- src/service/plans.rs: `check_plan`, which admits a request, moves it to another model or refuses it.
-- The clocks, the plans, the usage and the alerts seen are arguments; the alerts seen come back changed.
pub mod Outcomes
use llm_gateway.Prelude.{
  ℕ, ◌+◌, ◌-◌, ◌/◌, ◌≡◌, Option, none, some, Bool, true, false, not, List, [], ◌∷◌, ◌++◌, min, max,
  if◌then◌else◌, find,
}
use llm_gateway.Prelude.Eq.{◌==◌, List_Eq, ℕ_Eq}
use llm_gateway.Prelude.Int.{ℤ, ltb_ℤ, ℤ_Eq}
use llm_gateway.Prelude.Map.{Map, lookup}
use llm_gateway.Prelude.Text.{Text, codes, show_ℤ}
use llm_gateway.Plans.Period.{
  Calendar, PeriodType, hourly, daily, monthly, total, period_end, period_key, nanos,
}
use llm_gateway.Plans.Runtime.{PlanRuntime, resolve_plan}
use llm_gateway.Plans.Usage.{UsageCache, get_plan}
use llm_gateway.Plans.Alerts.{Alert, check_and_dispatch, crossed_level}
use mathlib.Core.Option

pub record PlanDecision : Type 0 where
  pub plan : Option PlanRuntime
  pub downgrade_to : Option Text

-- `Ok` of a decision, or `Err(AppError::PlanQuotaExceeded(message, retry_after))`.
pub data PlanVerdict : Type 0 where
  decided : PlanDecision → PlanVerdict
  quota_exceeded : Text → Option ℕ → PlanVerdict

period_label : PeriodType → Text
period_label hourly = codes "本时段"
period_label daily = codes "本日"
period_label monthly = codes "本月"
period_label total = codes "总量"

-- The difference is a number of whole seconds, at least 1 and at most a day.
abbrev pub wait_until : ℕ → ℕ → ℕ
wait_until now end_ts = min (max ((end_ts - now) / nanos) 1) 86_400

module _ (cal : Calendar) where
  unfoldable pub blocked : PlanRuntime → ℤ → ℕ → PlanVerdict
  unfolding period_label
  blocked plan used now =
      quota_exceeded
        (codes "Coding Plan「"
          ++ plan.plan_name
          ++ codes "」"
          ++ period_label plan.window.period_type
          ++ codes "配额已用尽（"
          ++ show_ℤ used
          ++ codes "/"
          ++ show_ℤ plan.token_limit
          ++ codes " tokens）")
        (Option.map (wait_until now) (period_end cal plan.window now))

  -- The arm `downgrade`.
  pub downgrade : PlanRuntime → ℤ → ℕ → Text → Option Text → PlanVerdict
  downgrade plan used now model none = blocked plan used now
  downgrade plan used now model (some target) =
      if not (target == model)
      then decided (record { plan = some plan; downgrade_to = some target })
      else blocked plan used now

  pub overage : PlanRuntime → ℤ → ℕ → Text → PlanVerdict
  unfolding downgrade
  overage plan used now model =
      if plan.overage_action == codes "downgrade"
      then downgrade plan used now model plan.downgrade_model
      else if plan.overage_action == codes "log"
      then decided (record { plan = some plan; downgrade_to = none })
      else blocked plan used now

  pub verdict_of : PlanRuntime → ℤ → ℕ → Text → PlanVerdict
  unfolding overage
  verdict_of plan used now model =
      if ltb_ℤ used plan.token_limit
      then decided (record { plan = some plan; downgrade_to = none })
      else overage plan used now model

  pub check_resolved :
      UsageCache
      → List Alert
      → ℤ
      → ℕ
      → Text
      → Option PlanRuntime
      → PlanVerdict × (List Alert × Option Alert)
  unfolding verdict_of
  check_resolved usage seen user_id now model none =
      (decided (record { plan = none; downgrade_to = none }), (seen, none))
  check_resolved usage seen user_id now model (some plan) =
      let used = get_plan usage user_id plan.plan_id (period_key cal plan.window now) in
      (
        verdict_of plan used now model,
        check_and_dispatch seen user_id plan used (period_key cal plan.window now),
      )

  -- `local_now` is the server's clock and `now` the time.
  unfoldable pub check_plan :
      Map ℤ (List PlanRuntime)
      → UsageCache
      → List Alert
      → ℤ
      → Text
      → ℕ
      → ℕ
      → PlanVerdict × (List Alert × Option Alert)
  unfolding check_resolved
  check_plan plans usage seen user_id model local_now now =
      check_resolved usage seen user_id now model
        (resolve_plan plans user_id local_now (some model))

find_plan : ℤ → Option (List PlanRuntime) → Option PlanRuntime
find_plan plan_id none = none
find_plan plan_id (some plans) = find (λ p. p.plan_id == plan_id) plans

alert_after : UsageCache → List Alert → ℤ → Text → Option PlanRuntime → List Alert × Option Alert
alert_after usage seen user_id period_key none = (seen, none)
alert_after usage seen user_id period_key (some plan) =
    let used = get_plan usage user_id plan.plan_id period_key in
    elim (crossed_level used plan.token_limit) [
      | none ↦ (seen, none)
      | some level ↦ check_and_dispatch seen user_id plan used period_key
    ]

-- After a bill has been counted, with the key of the window that it was counted in.
unfoldable after_usage_record_with_key :
    Map ℤ (List PlanRuntime) → UsageCache → List Alert → ℤ → ℤ → Text → List Alert × Option Alert
unfolding find_plan alert_after
after_usage_record_with_key plans usage seen user_id plan_id period_key =
    alert_after usage seen user_id period_key (find_plan plan_id (lookup user_id plans))
