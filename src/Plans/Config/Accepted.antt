-- ===== src/Plans/Config/Accepted.antt =====
-- src/store/plans.rs: what the checks on writing guarantee of what is then used.
use llm_gateway.Prelude.{
  ℕ, ◌≡◌, refl, none, some, Bool, true, false, not, ◌&&◌, any, arith, if◌then◌else◌, if_both,
}
use llm_gateway.Prelude.Eq.{◌==◌, List_Eq, ℕ_Eq}
use llm_gateway.Prelude.Int.{ℤ, pos, leb_ℤ, ◌≤ℤ◌}
use llm_gateway.Prelude.Text.{Text, codes}
use llm_gateway.Plans.Config.{
  invalid_period_type, invalid_anchor_mode, hours_out_of_range, valid_periods, valid_anchor_modes,
  validate_period_config, normalize_period_hours, validate_active_window,
}
use llm_gateway.Plans.Runtime.{is_within_active_window}

-- Three checks of which none refuses.
last_check :
    {E : Type 0} (x y z : E) (a b c d : Bool)
    → (if not a then some x else if not b then some y else if c && not d then some z else none)
      ≡ none
    → c ≡ true
    → d ≡ true
last_check x y z a b c true h e = refl
last_check x y z true true true false h e = ground (arith, h)
last_check x y z true false c false h e = ground (arith, h)
last_check x y z false b c false h e = ground (arith, h)
last_check x y z true true false false h e = ground (arith, e)

both_bounds :
    (h : ℤ) → (leb_ℤ (pos 1) h && leb_ℤ h (pos 168)) ≡ true → (pos 1 ≤ℤ h) × (h ≤ℤ pos 168)
both_bounds h e = ground arith

-- The hours that are written for an accepted configuration are those of the table's check: from 1
-- to 168, of whatever type the period is.
normalized_in_range :
    (period_type : Text) (period_hours : ℤ) (anchor_mode : Text)
    → validate_period_config period_type period_hours anchor_mode ≡ none
    → (pos 1 ≤ℤ normalize_period_hours period_type period_hours)
      × (normalize_period_hours period_type period_hours ≤ℤ pos 168)
unfolding validate_period_config normalize_period_hours
normalized_in_range period_type period_hours anchor_mode h =
    if_both (λ n. (pos 1 ≤ℤ n) × (n ≤ℤ pos 168)) (period_type == codes "hourly") period_hours
      (pos 1)
      (λ e. both_bounds period_hours (
        last_check invalid_period_type invalid_anchor_mode hours_out_of_range
          (any (λ p. p == period_type) valid_periods)
          (any (λ m. m == anchor_mode) valid_anchor_modes) (period_type == codes "hourly")
          (leb_ℤ (pos 1) period_hours && leb_ℤ period_hours (pos 168)) h e))
      (λ e. (omega arith, omega arith))

-- Active hours that are accepted with a start and an end hold their start and not their end, also
-- where they go past midnight: a plan with active hours is neither always nor never active.
active_window_proper :
    (s e : ℕ)
    → validate_active_window (some s) (some e) ≡ none
    → (is_within_active_window (some s) (some e) s ≡ true)
      × (is_within_active_window (some s) (some e) e ≡ false)
unfolding validate_active_window is_within_active_window
active_window_proper s e h = ground (arith, h)
