-- ===== src/Examples/PlanRuns.antt =====
-- Concrete plans, clocks and bills (src/store/plans.rs, src/service/plans.rs, src/service/usage.rs).
-- The calendar of these runs has twelve months of 31 days.
use llm_gateway.Prelude.{
  ℕ, ◌≤◌, ◌≡◌, refl, ◌↔◌, ◌+◌, ◌-◌, ◌*◌, ◌/◌, ◌%◌, min, none, some, true, List, [], ◌∷◌, arith,
}
use llm_gateway.Prelude.Eq.{ℕ_Eq, List_Eq, Pair_Eq}
use llm_gateway.Prelude.Int.{ℤ, pos, ℤ_Eq}
use llm_gateway.Prelude.Map.{Map, lookup}
use llm_gateway.Prelude.Text.{codes, show_ℕ}
use llm_gateway.Prelude.Decimal.{show_ℕ-injective}
use llm_gateway.Plans.Period.{
  Calendar, Window, hourly, join, anchor_ts, timestamp, period_start, period_end, period_key, nanos,
  day,
}
use llm_gateway.Plans.Period.Windows.{EndsAfter, hourly_window_stable, period_key_iff}
use llm_gateway.Plans.Runtime.{PlanRuntime, is_candidate, resolve_plan, is_within_active_window}
use llm_gateway.Plans.Runtime.Resolve.{IsIn, IsTopCandidate, resolve_plan-IsTopCandidate}
use llm_gateway.Plans.Usage.{get_plan}
use llm_gateway.Plans.Usage.Counts.{Bill, bill_all, spent, get_plan-bill_all}
use llm_gateway.Plans.Alerts.{check_and_dispatch}
use llm_gateway.Plans.Alerts.Once.{check_and_dispatch_once}
use llm_gateway.Plans.Quota.{check_plan}
use llm_gateway.Plans.Quota.Outcomes.{Promises, check_plan-Promises}

day_text_iff : (s t : ℕ) → (show_ℕ (s / day) ≡ show_ℕ (t / day)) ↔ (s / day * day ≡ t / day * day)
day_text_iff s t =
    (λ h. ground (arith, show_ℕ-injective (s / day) (t / day) h), λ h. ground (arith, h))

abbrev calendar : Calendar
calendar = record {
  midnight = λ t. t / day * day;
  date_text = λ t. show_ℕ (t / day);
  year = λ t. t / (372 * day);
  month = λ t. t % (372 * day) / (31 * day) + 1;
  first_of_month = λ y m. y * (372 * day) + (m - 1) * (31 * day);
  midnight_le = λ t. omega arith;
  midnight_lt = λ t. omega arith;
  midnight_grid = λ t. omega arith;
  date_text_iff = day_text_iff;
  month_le = λ t. omega arith;
  month_lt = λ t h. omega arith;
  december_lt = λ t h. omega arith;
  month_range = λ t. (omega arith, omega arith);
}

abbrev window : Window
window = record {
  period_type = hourly;
  period_hours = 5;
  period_anchor_mode = join;
  member_since = 1_000 * nanos;
}

abbrev plan : PlanRuntime
plan = record {
  plan_id = pos 3;
  plan_name = codes "pro";
  group_name = [];
  token_limit = pos 100;
  window = window;
  overage_action = codes "block";
  downgrade_model = none;
  alert_channels = [];
  webhook_url = [];
  priority = pos 1;
  active_start = none;
  active_end = none;
  model_scope = none;
}

abbrev plans : Map ℤ (List PlanRuntime)
plans = (pos 7, plan ∷ []) ∷ []

anchored : anchor_ts window join ≤ timestamp (2_000 * nanos)
unfolding anchor_ts
anchored = omega arith

started : period_start calendar window (2_000 * nanos) ≤ 3_000 * nanos
unfolding period_start
started = omega arith

not_ended : EndsAfter (3_000 * nanos) (period_end calendar window (2_000 * nanos))
unfolding period_end
not_ended = omega arith

hourly_window_stable_example :
    period_start calendar window (3_000 * nanos) ≡ period_start calendar window (2_000 * nanos)
hourly_window_stable_example =
    hourly_window_stable calendar window (2_000 * nanos) (3_000 * nanos) refl anchored started
      not_ended

period_key_iff_example :
    (period_key calendar window 0 ≡ period_key calendar window day)
    ↔ (period_start calendar window 0 ≡ period_start calendar window day)
period_key_iff_example = period_key_iff calendar window 0 day λ e. ground (arith, e)

plans_found : lookup (pos 7) plans ≡ some (plan ∷ [])
unfolding lookup
plans_found = refl

resolved : resolve_plan plans (pos 7) 0 (some (codes "gpt-4o")) ≡ some plan
unfolding resolve_plan lookup is_within_active_window
resolved = refl

resolve_plan-IsTopCandidate_example :
    IsIn plan (plan ∷ [])
    × (is_candidate 0 (some (codes "gpt-4o")) plan ≡ true)
    × IsTopCandidate 0 (some (codes "gpt-4o")) plan (plan ∷ [])
resolve_plan-IsTopCandidate_example =
    resolve_plan-IsTopCandidate plans (pos 7) 0 (some (codes "gpt-4o")) (plan ∷ []) plan plans_found
      resolved

nothing_spent : get_plan [] (pos 7) (pos 3) (codes "t") ≡ pos 0
unfolding get_plan lookup
nothing_spent = refl

abbrev bills : List Bill
bills =
    record { user_id = pos 7; plan_id = pos 3; tokens = 40 }
    ∷ record { user_id = pos 8; plan_id = pos 3; tokens = 9 }
    ∷ record { user_id = pos 7; plan_id = pos 3; tokens = 45 }
    ∷ []

get_plan-bill_all_example :
    get_plan (bill_all [] (codes "t") bills) (pos 7) (pos 3) (codes "t")
    ≡ pos (min 9_223_372_036_854_775_807 (0 + spent (pos 7) (pos 3) bills))
get_plan-bill_all_example =
    get_plan-bill_all bills [] (pos 7) (pos 3) (codes "t") 0
      (omega arith, (omega arith, (omega arith, tt))) (omega arith) nothing_spent

check_and_dispatch_once_example :
    check_and_dispatch
      (check_and_dispatch [] (pos 7) plan (pos 85) (codes "t")).0
      (pos 7)
      plan
      (pos 85)
      (codes "t")
    ≡ ((check_and_dispatch [] (pos 7) plan (pos 85) (codes "t")).0, none)
check_and_dispatch_once_example = check_and_dispatch_once [] (pos 7) plan (pos 85) (codes "t")

check_plan-Promises_example :
    Promises calendar plan
      (get_plan [] (pos 7) (pos 3) (period_key calendar window 9))
      9
      (codes "gpt-4o")
      (check_plan calendar plans [] [] (pos 7) (codes "gpt-4o") 0 9).0
check_plan-Promises_example =
    check_plan-Promises calendar plans [] [] (pos 7) (codes "gpt-4o") 0 9 plan resolved
