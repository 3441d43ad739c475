-- ===== src/Plans/Period.antt =====
-- src/store/plans.rs: the statistics window of a plan. A `DateTime<Utc>` is its nanoseconds since the
-- epoch, and none lies before it. The calendar is chrono's, with what the code relies on.
pub mod Windows
use llm_gateway.Prelude.{
  ℕ, zero, suc, ◌+◌, ◌-◌, ◌*◌, ◌/◌, ◌%◌, ◌≤◌, ◌<◌, ◌≡◌, ◌↔◌, max, Option, none, some, Bool, List,
  [], ◌∷◌, ◌++◌, if◌then◌else◌, ltb,
}
use llm_gateway.Prelude.Eq.{◌==◌, List_Eq, ℕ_Eq}
use llm_gateway.Prelude.Text.{Text, codes, show_ℕ}

abbrev pub nanos : ℕ
nanos = 1_000_000_000

abbrev pub day : ℕ
day = 86_400 * nanos

-- chrono's view of a time: its date and its month, with their first moments.
pub record Calendar : Type 0 where
  pub midnight : ℕ → ℕ
  pub date_text : ℕ → Text
  pub year : ℕ → ℕ
  pub month : ℕ → ℕ
  pub first_of_month : ℕ → ℕ → ℕ
  pub midnight_le : (t : ℕ) → midnight t ≤ t
  pub midnight_lt : (t : ℕ) → t < midnight t + day
  pub midnight_grid : (t : ℕ) → midnight t % day ≡ 0
  pub date_text_iff : (s t : ℕ) → (date_text s ≡ date_text t) ↔ (midnight s ≡ midnight t)
  pub month_le : (t : ℕ) → first_of_month (year t) (month t) ≤ t
  pub month_lt : (t : ℕ) → month t < 12 → t < first_of_month (year t) (month t + 1)
  pub december_lt : (t : ℕ) → month t ≡ 12 → t < first_of_month (year t + 1) 1
  pub month_range : (t : ℕ) → (1 ≤ month t) × (month t ≤ 12)

pub data PeriodType : Type 0 where
  hourly daily monthly total : PeriodType

pub data AnchorMode : Type 0 where
  fixed join : AnchorMode

-- The part of `PlanRuntime` that its window depends on. The types and modes are texts in the source;
-- every text but the named ones acts as `total` and as `fixed`.
pub record Window : Type 0 where
  pub period_type : PeriodType
  pub period_hours : ℕ
  pub period_anchor_mode : AnchorMode
  pub member_since : ℕ

-- `DateTime::timestamp`
abbrev pub timestamp : ℕ → ℕ
timestamp t = t / nanos

unfoldable pub anchor_ts : Window → AnchorMode → ℕ
anchor_ts w join = timestamp w.member_since
anchor_ts w fixed = 0

abbrev pub step_secs : Window → ℕ
step_secs w = max w.period_hours 1 * 3600

-- `(now - anchor).max(0)` is the subtraction of ℕ, which stops at 0.
pub hourly_start : ℕ → ℕ → ℕ → ℕ
hourly_start anchor step now = (anchor + (timestamp now - anchor) / step * step) * nanos

module _ (cal : Calendar) where
  open cal use {midnight, date_text, year, month, first_of_month}

  pub start_by : PeriodType → Window → ℕ → ℕ
  unfolding hourly_start anchor_ts
  start_by daily w now = midnight now
  start_by monthly w now = first_of_month (year now) (month now)
  start_by hourly w now = hourly_start (anchor_ts w w.period_anchor_mode) (step_secs w) now
  start_by total w now = 0

  unfoldable pub period_start : Window → ℕ → ℕ
  unfolding start_by
  period_start w now = start_by w.period_type w now

  pub end_by : PeriodType → Window → ℕ → Option ℕ
  unfolding period_start
  end_by daily w now = some (period_start w now + day)
  end_by monthly w now = some (
      if month now == 12
      then first_of_month (year now + 1) 1
      else first_of_month (year now) (month now + 1))
  end_by hourly w now = some (period_start w now + step_secs w * nanos)
  end_by total w now = none

  unfoldable pub period_end : Window → ℕ → Option ℕ
  unfolding end_by
  period_end w now = end_by w.period_type w now

  -- `{:02}`
  two_digits : ℕ → Text
  two_digits n = if ltb n 10 then b'0' ∷ show_ℕ n else show_ℕ n

  pub key_by : PeriodType → Window → ℕ → Text
  unfolding two_digits period_start
  key_by hourly w now = codes "h:" ++ show_ℕ (timestamp (period_start w now))
  key_by daily w now = codes "d:" ++ date_text now
  key_by monthly w now = codes "m:" ++ show_ℕ (year now) ++ b'-' ∷ two_digits (month now)
  key_by total w now = codes "t"

  unfoldable pub period_key : Window → ℕ → Text
  unfolding key_by
  period_key w now = key_by w.period_type w now
