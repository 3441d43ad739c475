-- ===== src/Plans/Alerts.antt =====
-- src/service/notify.rs: when a plan's usage raises an alert. The alert that is sent is the value
-- returned; its delivery (mail, web hook, database row) is not modelled, but a failed delivery is:
-- it takes the mark back.
pub mod Once
use llm_gateway.Prelude.{
  ℕ, ◌+◌, ◌-◌, ◌*◌, ◌%◌, ◌^◌, ◌≡◌, Option, none, some, Bool, true, false, not, ◌&&◌, ◌||◌, List, [],
  ◌∷◌, ltb, leb, if◌then◌else◌, filter, any,
}
use llm_gateway.Prelude.Eq.{◌==◌, List_Eq, ℕ_Eq}
use llm_gateway.Prelude.Int.{ℤ, pos, negsuc, ◌*ℤ◌, leb_ℤ, ℤ_Eq, beq_ℤ}
use llm_gateway.Prelude.Text.{Text}
use llm_gateway.Plans.Runtime.{PlanRuntime}

-- The 64-bit product of a build without overflow checks: it wraps.
pub residue : ℤ → ℕ
residue (pos n) = n % 2 ^ 64
residue (negsuc n) = 2 ^ 64 - 1 - n % 2 ^ 64

pub signed : ℕ → ℤ
signed n = if ltb n (2 ^ 63) then pos n else negsuc (2 ^ 64 - 1 - n)

unfoldable pub wrap_i64 : ℤ → ℤ
unfolding residue signed
wrap_i64 a = signed (residue a)

unfoldable pub crossed_level : ℤ → ℤ → Option ℕ
crossed_level used limit =
    if leb_ℤ limit (pos 0)
    then none
    else if leb_ℤ limit used
    then some 100
    else if leb_ℤ (wrap_i64 (pos 95 *ℤ limit)) (wrap_i64 (used *ℤ pos 100))
    then some 95
    else if leb_ℤ (wrap_i64 (pos 80 *ℤ limit)) (wrap_i64 (used *ℤ pos 100))
    then some 80
    else none

-- An entry of `plan_alerts_seen`.
pub record Alert : Type 0 where
  pub user_id : ℤ
  pub plan_id : ℤ
  pub period_key : Text
  pub level : ℕ

abbrev pub alert_beq : Alert → Alert → Bool
alert_beq a b =
    beq_ℤ a.user_id b.user_id
    && beq_ℤ a.plan_id b.plan_id
    && a.period_key == b.period_key
    && a.level == b.level

pub keeps : ℤ → ℤ → Text → Alert → Bool
keeps user_id plan_id period_key a =
    not (beq_ℤ a.user_id user_id) || not (beq_ℤ a.plan_id plan_id) || a.period_key == period_key

unfoldable pub prune_stale_periods : List Alert → ℤ → ℤ → Text → List Alert
unfolding keeps
prune_stale_periods seen user_id plan_id period_key = filter (keeps user_id plan_id period_key) seen

-- `HashSet::insert`, whose Boolean says that the entry is new.
pub add_alert : Alert → List Alert → Bool × List Alert
add_alert a seen = if any (alert_beq a) seen then (false, seen) else (true, a ∷ seen)

pub dispatch_new : Alert → Bool × List Alert → List Alert × Option Alert
dispatch_new a (true, seen) = (seen, some a)
dispatch_new a (false, seen) = (seen, none)

pub check_level : List Alert → ℤ → PlanRuntime → Text → Option ℕ → List Alert × Option Alert
unfolding add_alert dispatch_new
check_level seen user_id plan period_key none = (seen, none)
check_level seen user_id plan period_key (some level) =
    let a : Alert = record {
      user_id = user_id;
      plan_id = plan.plan_id;
      period_key = period_key;
      level = level;
    } in
    dispatch_new a (add_alert a (prune_stale_periods seen user_id plan.plan_id period_key))

unfoldable pub check_and_dispatch :
    List Alert → ℤ → PlanRuntime → ℤ → Text → List Alert × Option Alert
unfolding check_level
check_and_dispatch seen user_id plan used period_key =
    check_level seen user_id plan period_key (crossed_level used plan.token_limit)

-- The spawned task, on an error of the delivery.
unfoldable dispatch_failed : Alert → List Alert → List Alert
dispatch_failed a seen = filter (λ b. not (alert_beq a b)) seen
