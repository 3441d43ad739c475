-- ===== src/RateLimit/Apply.antt =====
-- src/service/ratelimit.rs: `apply_concurrency_limits`, and the runs of the limiter over many requests.
pub mod Balance
pub mod Capacity
pub mod Seconds
pub mod Admission
use llm_gateway.Prelude.{
  ℕ, zero, suc, ◌+◌, ◌*◌, ◌-◌, ◌/◌, ◌%◌, ltb, Option, none, some, List, [], ◌∷◌, filter,
  if◌then◌else◌, min, max,
}
use llm_gateway.Prelude.Eq.{◌==◌, List_Eq, ℕ_Eq, Option_Eq}
use llm_gateway.Prelude.Int.{ℤ, ℤ_Eq}
use llm_gateway.Prelude.Text.{Text}
use llm_gateway.Messages.{MessageTemplates, concurrency}
use llm_gateway.RateLimit.Rules.{RateRule, Caller, matched_rules}
use llm_gateway.RateLimit.Limiter.{
  Counts, Guard, Acquired, ok, err, is_limited, dedup_min_limit, try_acquire, drop_guard,
}

-- The whole number next to `n / d`, and the even one of two that are as near: the rounding of IEEE 754.
unfoldable pub round_half_even : ℕ → ℕ → ℕ
round_half_even n d =
    let q = n / d in
    let r = n % d in if ltb (2 * r) d then q else if ltb d (2 * r) then q + 1 else q + q % 2

-- A half in units of `2 ^ -50`, which is the distance of the f64 values between 4 and 8.
abbrev pub half : ℕ
half = 562_949_953_421_312

-- The f64 sum `5.5 + gen_range(0.0..1.0)` as a fraction, for a random f64 `jitter / scale` below one:
-- the sum lies between 4 and 8, and is rounded to a multiple of `2 ^ -50`.
record Retry : Type 0 where
  numerator : ℕ
  denominator : ℕ

retry_of : ℕ → ℕ → Retry
retry_of scale jitter = record {
  numerator = 11 * half + round_half_even (jitter * (2 * half)) scale;
  denominator = 2 * half;
}

-- `retry.ceil().max(1.0).min(86400.0) as u64`
retry_secs_of : Retry → ℕ
retry_secs_of r = min (max ((r.numerator + r.denominator - 1) / r.denominator) 1) 86400

unfoldable pub retry_secs : ℕ → ℕ → ℕ
unfolding retry_of retry_secs_of round_half_even
retry_secs scale jitter = retry_secs_of (retry_of scale jitter)

-- A request that is refused gets the message and the seconds of its `Retry-After` header; the log
-- line is not modelled.
pub data Verdict : Type 0 where
  admitted : Guard → Counts → Verdict
  concurrent_limited : Text → ℕ → Verdict

abbrev pub limited : List RateRule → Caller → Text → List (Text × ℤ)
limited rules caller model = dedup_min_limit (filter is_limited (matched_rules rules caller model))

unfoldable pub apply_concurrency_limits :
    MessageTemplates → ℕ → ℕ → List RateRule → Caller → Text → Counts → Verdict
apply_concurrency_limits templates scale jitter rules caller model counts =
    elim (try_acquire counts (limited rules caller model)) [
      | ok guard counts' ↦ admitted guard counts'
      | err full ↦
          concurrent_limited (concurrency templates (retry_secs scale jitter))
            (retry_secs scale jitter)
    ]

-- All requests in flight, the last admitted first, with the table that they share.
pub record InFlight : Type 0 where
  pub counts : Counts
  pub guards : List Guard

abbrev pub idle : InFlight
idle = record { counts = []; guards = [] }

-- A request comes in with the rules of that moment, or the guard of a request is dropped, whichever
-- way its body ends.
pub data Event : Type 0 where
  arrive : List RateRule → Caller → Text → Event
  finish : ℕ → Event

unfoldable pub drop_at : ℕ → List Guard → Option (Guard × List Guard)
drop_at i [] = none
drop_at zero (g ∷ guards) = some (g, guards)
drop_at (suc i) (g ∷ guards) = elim (drop_at i guards) [
  | none ↦ none
  | some (h, rest) ↦ some (h, g ∷ rest)
]

after_admission : InFlight → Verdict → InFlight
after_admission s (admitted guard counts) = record { counts = counts; guards = guard ∷ s.guards }
after_admission s (concurrent_limited message secs) = s

after_finish : InFlight → Option (Guard × List Guard) → InFlight
after_finish s none = s
after_finish s (some (g, rest)) = record { counts = drop_guard s.counts g.keys; guards = rest }

module _ (templates : MessageTemplates) (scale jitter : ℕ) where
  unfoldable pub step : InFlight → Event → InFlight
  unfolding after_admission after_finish
  step s (arrive rules caller model) =
      after_admission s
        (apply_concurrency_limits templates scale jitter rules caller model s.counts)
  step s (finish i) = after_finish s (drop_at i s.guards)

  unfoldable pub run : InFlight → List Event → InFlight
  run s [] = s
  run s (e ∷ es) = run (step s e) es
