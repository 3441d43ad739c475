-- ===== src/Plans/Quota/Outcomes.antt =====
-- src/service/plans.rs: what the outcome of `check_plan` says.
use llm_gateway.Prelude.{
  ℕ, ◌≤◌, ◌<◌, ◌+◌, ◌*◌, ◌≡◌, ◌≢◌, refl, sym, subst, ◌⊎◌, inl, inr, Option, none, some, false, not,
  List, arith, if_both,
}
use llm_gateway.Prelude.Eq.{◌==◌, List_Eq, ℕ_Eq, list_beq_iff}
use llm_gateway.Prelude.Int.{ℤ, ltb_ℤ, ◌<ℤ◌, ℤ_Eq, ltb_ℤ→lt}
use llm_gateway.Prelude.Map.{Map}
use llm_gateway.Prelude.Text.{Text, codes}
use llm_gateway.Plans.Period.{Calendar, period_end, period_key, nanos}
use llm_gateway.Plans.Runtime.{PlanRuntime, resolve_plan}
use llm_gateway.Plans.Usage.{UsageCache, get_plan}
use llm_gateway.Plans.Alerts.{Alert}
use llm_gateway.Plans.Quota.{
  PlanVerdict, decided, quota_exceeded, wait_until, blocked, downgrade, overage, verdict_of,
  check_resolved, check_plan,
}
use mathlib.Core.Option

-- The wait that is told for a window with that end: none for a window without an end; else from a
-- second to a day, at most a second or not past the end, and a day or with less than a second left to
-- the end.
abbrev pub Waits : ℕ → Option ℕ → Option ℕ → Type 0
Waits now none none = Unit
Waits now none (some r) = ⊥
Waits now (some end_ts) none = ⊥
Waits now (some end_ts) (some r) =
    (1 ≤ r)
    × (r ≤ 86_400)
    × ((r ≡ 1) ⊎ (now + r * nanos ≤ end_ts))
    × ((r ≡ 86_400) ⊎ (end_ts < now + (r + 1) * nanos))

module _ (cal : Calendar) where
  -- What a verdict on `plan` for a request of `model` promises.
  abbrev pub Promises : PlanRuntime → ℤ → ℕ → Text → PlanVerdict → Type 0
  Promises plan used now model (decided d) =
      (d.plan ≡ some plan)
      × ((d.downgrade_to ≡ none)
          ⊎ ((ltb_ℤ used plan.token_limit ≡ false)
              × (d.downgrade_to ≡ plan.downgrade_model)
              × (d.downgrade_to ≢ some model)))
      × ((used <ℤ plan.token_limit)
          ⊎ (plan.overage_action ≡ codes "downgrade")
          ⊎ (plan.overage_action ≡ codes "log"))
  Promises plan used now model (quota_exceeded message retry) =
      (ltb_ℤ used plan.token_limit ≡ false)
      × (plan.overage_action ≢ codes "log")
      × Waits now (period_end cal plan.window now) retry

  wait_until-Waits : (now : ℕ) (o : Option ℕ) → Waits now o (Option.map (wait_until now) o)
  wait_until-Waits now none = tt
  wait_until-Waits now (some t) = (omega arith, omega arith, omega arith, omega arith)

  blocked-Promises :
      (plan : PlanRuntime) (used : ℤ) (now : ℕ) (model : Text)
      → ltb_ℤ used plan.token_limit ≡ false
      → plan.overage_action ≢ codes "log"
      → Promises plan used now model (blocked cal plan used now)
  unfolding blocked
  blocked-Promises plan used now model h l =
      (h, l, wait_until-Waits now (period_end cal plan.window now))

  not_log : (t : Text) → t ≡ codes "downgrade" → t ≢ codes "log"
  not_log t d l = ground arith

  downgrade-Promises :
      (plan : PlanRuntime) (used : ℤ) (now : ℕ) (model : Text) (o : Option Text)
      → o ≡ plan.downgrade_model
      → ltb_ℤ used plan.token_limit ≡ false
      → plan.overage_action ≡ codes "downgrade"
      → Promises plan used now model (downgrade cal plan used now model o)
  unfolding downgrade
  downgrade-Promises plan used now model none e h d =
      blocked-Promises plan used now model h (not_log plan.overage_action d)
  downgrade-Promises plan used now model (some t) e h d =
      if_both (Promises plan used now model) (not (t == model)) _ _
        (λ b. (refl, inr (h, e, λ q. ground (arith, q, b, list_beq_iff t model)), inr (inl d)))
        (λ b. blocked-Promises plan used now model h (not_log plan.overage_action d))

  overage-Promises :
      (plan : PlanRuntime) (used : ℤ) (now : ℕ) (model : Text)
      → ltb_ℤ used plan.token_limit ≡ false
      → Promises plan used now model (overage cal plan used now model)
  unfolding overage
  overage-Promises plan used now model h =
      if_both (Promises plan used now model) (plan.overage_action == codes "downgrade") _ _
        (λ b.
          downgrade-Promises plan used now model plan.downgrade_model refl h
            ((list_beq_iff _ _).0 b))
        (λ b.
          if_both (Promises plan used now model) (plan.overage_action == codes "log") _ _
            (λ l. (refl, inl refl, inr (inr ((list_beq_iff _ _).0 l))))
            (λ l.
              blocked-Promises plan used now model h
                (λ q. ground (arith, q, l, list_beq_iff plan.overage_action (codes "log")))))

  verdict_of-Promises :
      (plan : PlanRuntime) (used : ℤ) (now : ℕ) (model : Text)
      → Promises plan used now model (verdict_of cal plan used now model)
  unfolding verdict_of
  verdict_of-Promises plan used now model =
      if_both (Promises plan used now model) (ltb_ℤ used plan.token_limit) _ _
        (λ b. (refl, inl refl, inl (ltb_ℤ→lt used plan.token_limit b)))
        (λ b. overage-Promises plan used now model b)

  resolved-Promises :
      (usage : UsageCache) (seen : List Alert) (user_id : ℤ) (model : Text) (now : ℕ)
      (plan : PlanRuntime)
      → Promises plan
          (get_plan usage user_id plan.plan_id (period_key cal plan.window now))
          now
          model
          (check_resolved cal usage seen user_id now model (some plan)).0
  unfolding check_resolved
  resolved-Promises usage seen user_id model now plan =
      verdict_of-Promises plan
        (get_plan usage user_id plan.plan_id (period_key cal plan.window now)) now model

  -- For a user whose plan is resolved: a request is admitted under that plan only while it has
  -- tokens left, or where its action on overage is to downgrade or to log; it is moved only to the
  -- plan's own target, once the tokens are spent, and never to the model that it asks for. A
  -- request is refused only when the tokens are spent and the action is not to log. The refusal
  -- carries a wait exactly if the window has an end; the wait is the whole seconds to that end, kept
  -- between a second and a day.
  pub check_plan-Promises :
      (plans : Map ℤ (List PlanRuntime)) (usage : UsageCache) (seen : List Alert) (user_id : ℤ)
      (model : Text) (local_now now : ℕ) (plan : PlanRuntime)
      → resolve_plan plans user_id local_now (some model) ≡ some plan
      → Promises plan
          (get_plan usage user_id plan.plan_id (period_key cal plan.window now))
          now
          model
          (check_plan cal plans usage seen user_id model local_now now).0
  unfolding check_plan
  check_plan-Promises plans usage seen user_id model local_now now plan e =
      subst
        (λ o.
          Promises plan (get_plan usage user_id plan.plan_id (period_key cal plan.window now)) now
            model (check_resolved cal usage seen user_id now model o).0)
        (sym e) (resolved-Promises usage seen user_id model now plan)
