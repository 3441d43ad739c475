-- ===== src/Plans/Usage.antt =====
-- src/service/usage.rs: `UsageCache`, the tokens each user has spent on each plan in the current window.
-- The mutex makes each operation one step; the rows that `reload_from_db` reads are its argument.
pub mod Counts
use llm_gateway.Prelude.{
  ℕ, ◌≡◌, refl, ◌≢◌, Option, none, some, Bool, true, false, List, [], ◌∷◌, arith, if◌then◌else◌,
  ◌&&◌, Bool-cases, inl, inr,
}
use llm_gateway.Prelude.Eq.{
  Eq, ◌==◌, List_Eq, ℕ_Eq, Pair_Eq, beq_refl, pair_beq, pair_beq_iff, list_beq, list_beq_iff,
}
use llm_gateway.Prelude.Int.{
  ℤ, pos, negsuc, ℤ_Eq, ◌+ℤ◌, ◌≤ℤ◌, leb_ℤ, max_ℤ, min_ℤ, beq_ℤ, beq_ℤ_iff,
}
use llm_gateway.Prelude.Map.{Map, lookup, insert, lookup-insert}
use llm_gateway.Prelude.Text.{Text}

-- `i64::MAX` and `i64::MIN`
abbrev pub max_i64 : ℤ
max_i64 = pos 9_223_372_036_854_775_807

abbrev pub min_i64 : ℤ
min_i64 = negsuc 9_223_372_036_854_775_807

unfoldable pub saturating_add : ℤ → ℤ → ℤ
saturating_add a b = max_ℤ min_i64 (min_ℤ max_i64 (a +ℤ b))

-- (user_id, plan_id) → (period_key, tokens)
abbrev pub UsageCache : Type 0
UsageCache = Map (ℤ × ℤ) (Text × ℤ)

pub used_in : Text → Option (Text × ℤ) → ℤ
used_in period_key none = pos 0
used_in period_key (some (k, v)) = if k == period_key then v else pos 0

unfoldable pub get_plan : UsageCache → ℤ → ℤ → Text → ℤ
unfolding used_in
get_plan cache user_id plan_id period_key = used_in period_key (lookup (user_id, plan_id) cache)

-- What stands in the cache after `entry(..).or_insert(..)` and the branch on its key.
pub added : Text → ℤ → Option (Text × ℤ) → Text × ℤ
added period_key tokens none = (period_key, saturating_add (pos 0) tokens)
added period_key tokens (some (k, v)) =
    if k == period_key then (k, saturating_add v tokens) else (period_key, max_ℤ tokens (pos 0))

unfoldable pub incr_plan : UsageCache → ℤ → ℤ → Text → ℤ → UsageCache
unfolding added
incr_plan cache user_id plan_id period_key tokens =
    insert (user_id, plan_id) (added period_key tokens (lookup (user_id, plan_id) cache)) cache

pub record UsageSnapshot : Type 0 where
  pub user_id : ℤ
  pub plan_id : ℤ
  pub period_key : Text
  pub used : ℤ

is_ahead : UsageSnapshot → Option (Text × ℤ) → Bool
is_ahead s none = false
is_ahead s (some (k, v)) = k == s.period_key && leb_ℤ s.used v

reload_one : UsageCache → UsageSnapshot → UsageCache
unfolding is_ahead
reload_one cache s =
    if is_ahead s (lookup (s.user_id, s.plan_id) cache)
    then cache
    else insert (s.user_id, s.plan_id) (s.period_key, s.used) cache

unfoldable reload_from_db : UsageCache → List UsageSnapshot → UsageCache
unfolding reload_one
reload_from_db cache [] = cache
reload_from_db cache (s ∷ ss) = reload_from_db (reload_one cache s) ss
