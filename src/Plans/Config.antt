-- ===== src/Plans/Config.antt =====
-- src/store/plans.rs: the checks of a plan's window and active hours on writing. An error's message
-- is a constructor.
pub mod Accepted
use llm_gateway.Prelude.{
  ℕ, Option, none, some, Bool, true, false, not, ◌&&◌, ◌||◌, List, [], ◌∷◌, any, if◌then◌else◌,
  nat_eq,
}
use llm_gateway.Prelude.Eq.{◌==◌, List_Eq, ℕ_Eq}
use llm_gateway.Prelude.Int.{ℤ, pos, leb_ℤ}
use llm_gateway.Prelude.Text.{Text, codes}

pub data ConfigError : Type 0 where
  invalid_period_type invalid_anchor_mode hours_out_of_range : ConfigError
  half_a_window empty_window : ConfigError

abbrev max_period_hours : ℤ
max_period_hours = pos 168

abbrev pub valid_periods : List Text
valid_periods = codes "hourly" ∷ codes "daily" ∷ codes "monthly" ∷ codes "total" ∷ []

abbrev pub valid_anchor_modes : List Text
valid_anchor_modes = codes "fixed" ∷ codes "join" ∷ []

-- `none` is `Ok(())`.
unfoldable pub validate_period_config : Text → ℤ → Text → Option ConfigError
validate_period_config period_type period_hours anchor_mode =
    if not (any (λ p. p == period_type) valid_periods)
    then some invalid_period_type
    else if not (any (λ m. m == anchor_mode) valid_anchor_modes)
    then some invalid_anchor_mode
    else if period_type == codes "hourly"
        && not (leb_ℤ (pos 1) period_hours && leb_ℤ period_hours max_period_hours)
    then some hours_out_of_range
    else none

unfoldable pub normalize_period_hours : Text → ℤ → ℤ
normalize_period_hours period_type period_hours =
    if period_type == codes "hourly" then period_hours else pos 1

unfoldable pub validate_active_window : Option ℕ → Option ℕ → Option ConfigError
validate_active_window none none = none
validate_active_window (some s) (some e) = if nat_eq s e then some empty_window else none
validate_active_window _ _ = some half_a_window
