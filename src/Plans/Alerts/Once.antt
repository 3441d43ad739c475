-- ===== src/Plans/Alerts/Once.antt =====
-- src/service/notify.rs: an alert goes out once in its window, and at the level its usage reaches.
use llm_gateway.Prelude.{
  ℕ, ◌*◌, ◌^◌, ◌≤◌, ◌<◌, ◌≡◌, refl, ◌↔◌, Option, none, some, Bool, true, List, [], ◌∷◌, arith,
  filter, any, Bool-cases, inl, inr,
}
use llm_gateway.Prelude.Eq.{List_Eq, ℕ_Eq, list_beq_refl}
use llm_gateway.Prelude.Int.{ℤ, pos, *ℤ_pos, ℤ_Eq, beq_ℤ_iff}
use llm_gateway.Prelude.Text.{Text}
use llm_gateway.Plans.Runtime.{PlanRuntime}
use llm_gateway.Plans.Alerts.{
  Alert, alert_beq, keeps, prune_stale_periods, add_alert, dispatch_new, check_level,
  check_and_dispatch, crossed_level, wrap_i64, residue, signed,
}

wrap_i64_small : (n : ℕ) → n < 2 ^ 63 → wrap_i64 (pos n) ≡ pos n
unfolding wrap_i64 residue signed
wrap_i64_small n h = ground arith

-- Where neither product overflows, the level is the greatest of 80, 95 and 100 per cent that the
-- usage reaches.
crossed_level_lem :
    (used limit : ℕ)
    → 0 < limit
    → used * 100 < 2 ^ 63
    → limit * 95 < 2 ^ 63
    → ((crossed_level (pos used) (pos limit) ≡ some 100) ↔ (limit ≤ used))
      × ((crossed_level (pos used) (pos limit) ≡ some 95)
          ↔ ((used < limit) × (95 * limit ≤ 100 * used)))
      × ((crossed_level (pos used) (pos limit) ≡ some 80)
          ↔ ((100 * used < 95 * limit) × (80 * limit ≤ 100 * used)))
      × ((crossed_level (pos used) (pos limit) ≡ none) ↔ (100 * used < 80 * limit))
unfolding crossed_level
crossed_level_lem used limit p h k = ground (
  arith,
  *ℤ_pos 95 limit,
  *ℤ_pos 80 limit,
  *ℤ_pos used 100,
  wrap_i64_small (95 * limit),
  wrap_i64_small (80 * limit),
  wrap_i64_small (used * 100),
)

alert_beq_refl : (a : Alert) → alert_beq a a ≡ true
alert_beq_refl a = ground (
  arith,
  beq_ℤ_iff a.user_id a.user_id,
  beq_ℤ_iff a.plan_id a.plan_id,
  list_beq_refl a.period_key,
)

keeps_own : (a : Alert) → keeps a.user_id a.plan_id a.period_key a ≡ true
unfolding keeps
keeps_own a = ground (arith, list_beq_refl a.period_key)

filter_twice : (f : Alert → Bool) (xs : List Alert) → filter f (filter f xs) ≡ filter f xs
filter_twice f [] = refl
filter_twice f (x ∷ xs) = elim (Bool-cases (f x)) [
  | inl h ↦ ground (arith, h, filter_twice f xs)
  | inr h ↦ ground (arith, h, filter_twice f xs)
]

-- The seen set after an alert has been added to it, however often it is pruned.
add_again :
    (f : Alert → Bool) (a : Alert) (xs : List Alert)
    → f a ≡ true
    → let next = (dispatch_new a (add_alert a (filter f xs))).0 in
      dispatch_new a (add_alert a (filter f next)) ≡ (next, none)
unfolding add_alert dispatch_new
add_again f a xs h = elim (Bool-cases (any (alert_beq a) (filter f xs))) [
  | inl e ↦ ground (arith, e, filter_twice f xs)
  | inr e ↦ ground (arith, e, h, filter_twice f xs, alert_beq_refl a)
]

check_level_again :
    (seen : List Alert) (user_id : ℤ) (plan : PlanRuntime) (k : Text) (o : Option ℕ)
    → check_level (check_level seen user_id plan k o).0 user_id plan k o
      ≡ ((check_level seen user_id plan k o).0, none)
unfolding check_level prune_stale_periods
check_level_again seen user_id plan k none = refl
check_level_again seen user_id plan k (some level) =
    let a : Alert = record {
      user_id = user_id;
      plan_id = plan.plan_id;
      period_key = k;
      level = level;
    } in
    add_again (keeps user_id plan.plan_id k) a seen (keeps_own a)

-- After a check, another of the same usage in the same window sends nothing and changes nothing.
pub check_and_dispatch_once :
    (seen : List Alert) (user_id : ℤ) (plan : PlanRuntime) (used : ℤ) (k : Text)
    → check_and_dispatch (check_and_dispatch seen user_id plan used k).0 user_id plan used k
      ≡ ((check_and_dispatch seen user_id plan used k).0, none)
unfolding check_and_dispatch
check_and_dispatch_once seen user_id plan used k =
    check_level_again seen user_id plan k (crossed_level used plan.token_limit)
