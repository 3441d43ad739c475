-- ===== src/Breaker.antt =====
-- src/service/breaker.rs: the circuit breaker of each upstream provider.
-- Every method holds the lock of the table for its whole body, so a call is one step. Times are in
-- nanoseconds of the monotonic clock, and a method reads the clock once (`now`); the source's two or
-- three readings inside one method follow each other within the lock. The error rate is a fraction
-- where the source divides two f64. Counters do not wrap: Breaker.Invariant bounds the u32 ones.
pub mod Invariant
pub mod Probe
pub mod Opening
pub mod Filter
use llm_gateway.Prelude.{
  ℕ, zero, suc, ◌+◌, ◌*◌, ◌-◌, Option, none, some, Bool, true, false, ◌&&◌, ◌||◌, List, [], ◌∷◌,
  ltb, leb, if◌then◌else◌,
}
use llm_gateway.Prelude.Eq.{Eq}
use llm_gateway.Prelude.Int.{ℤ, ℤ_Eq}
use llm_gateway.Prelude.Map.{Map, lookup, insert}

pub record BreakerConfig : Type 0 where
  pub failure_threshold : ℕ
  pub open_secs : ℕ
  pub rate_numerator : ℕ
  pub rate_denominator : ℕ
  pub min_requests : ℕ
  window_secs : ℕ
  pub success_threshold : ℕ

abbrev pub default_config : BreakerConfig
default_config = record {
  failure_threshold = 4;
  open_secs = 30;
  rate_numerator = 6;
  rate_denominator = 10;
  min_requests = 10;
  window_secs = 120;
  success_threshold = 2;
}

pub record ProviderBreaker : Type 0 where
  pub consec_failures : ℕ
  pub open_until : Option ℕ
  pub half_open_probe_in_flight : Bool
  pub half_open_successes : ℕ
  pub window_requests : ℕ
  pub window_failures : ℕ
  pub window_start : Option ℕ

abbrev pub closed : ProviderBreaker
closed = record {
  consec_failures = 0;
  open_until = none;
  half_open_probe_in_flight = false;
  half_open_successes = 0;
  window_requests = 0;
  window_failures = 0;
  window_start = none;
}

-- `Duration::from_secs`
abbrev pub secs : ℕ → ℕ
secs n = n * 1_000_000_000

-- The body of `allow` on the provider's entry.
unfoldable pub allow_entry : ℕ → ProviderBreaker → Bool × ProviderBreaker
allow_entry now pb = elim pb.open_until [
  | none ↦ (true, pb)
  | some until ↦
      if leb until now
      then if pb.half_open_probe_in_flight
        then (false, pb)
        else (true, record pb { half_open_probe_in_flight = true })
      else (false, pb)
]

module _ (cfg : BreakerConfig) (now : ℕ) where
  unfoldable pub decay_window : ProviderBreaker → ProviderBreaker
  decay_window pb = elim pb.window_start [
    | some start ↦
        if leb (secs cfg.window_secs) (now - start)
        then record pb { window_requests = 0; window_failures = 0; window_start = some now }
        else pb
    | none ↦ record pb { window_start = some now }
  ]

  -- One more request in the window.
  abbrev count_request : ProviderBreaker → ProviderBreaker
  count_request pb = record pb { window_requests = pb.window_requests + 1 }

  -- The body of `record_success` up to the window.
  settle_success : ProviderBreaker → ProviderBreaker
  settle_success pb =
      if pb.half_open_probe_in_flight
      then if leb cfg.success_threshold (pb.half_open_successes + 1)
        then record pb {
          consec_failures = 0;
          half_open_probe_in_flight = false;
          open_until = none;
          half_open_successes = 0;
        }
        else record pb {
          consec_failures = 0;
          half_open_probe_in_flight = false;
          half_open_successes = pb.half_open_successes + 1;
          open_until = some (now + secs cfg.open_secs);
        }
      else record pb { consec_failures = 0; open_until = none }

  unfoldable pub success_entry : ProviderBreaker → ProviderBreaker
  unfolding settle_success decay_window
  success_entry pb = count_request (decay_window (settle_success pb))

  -- The window's error rate has reached the threshold, over enough requests.
  abbrev rate_open : ProviderBreaker → Bool
  rate_open pb =
      leb cfg.min_requests pb.window_requests
      && leb (cfg.rate_numerator * pb.window_requests) (pb.window_failures * cfg.rate_denominator)

  abbrev count_failure : ProviderBreaker → ProviderBreaker
  count_failure pb = record pb {
    consec_failures = pb.consec_failures + 1;
    window_requests = pb.window_requests + 1;
    window_failures = pb.window_failures + 1;
  }

  unfoldable open_if_failing : ProviderBreaker → ProviderBreaker
  open_if_failing pb =
      if leb cfg.failure_threshold pb.consec_failures || rate_open pb
      then record pb {
        open_until = some (now + secs cfg.open_secs);
        consec_failures = 0;
        window_requests = 0;
        window_failures = 0;
        window_start = none;
      }
      else pb

  -- The body of `record_failure` on the provider's entry.
  unfoldable pub failure_entry : ProviderBreaker → ProviderBreaker
  unfolding open_if_failing decay_window
  failure_entry pb =
      if pb.half_open_probe_in_flight
      then record pb {
        half_open_probe_in_flight = false;
        half_open_successes = 0;
        open_until = some (now + secs cfg.open_secs);
        consec_failures = cfg.failure_threshold;
      }
      else open_if_failing (count_failure (decay_window pb))

abbrev pub States : Type 0
States = Map ℤ ProviderBreaker

abbrev or_closed : Option ProviderBreaker → ProviderBreaker
or_closed none = closed
or_closed (some pb) = pb

-- `states.entry(id).or_default()`
abbrev pub entry : ℤ → States → ProviderBreaker
entry id states = or_closed (lookup id states)

unfoldable pub allow : ℕ → ℤ → States → Bool × States
unfolding allow_entry
allow now id states =
    let (allowed, pb) = allow_entry now (entry id states) in (allowed, insert id pb states)

on_known : ℤ → (ProviderBreaker → ProviderBreaker) → Option ProviderBreaker → States → States
on_known id f none states = states
on_known id f (some pb) states = insert id (f pb) states

-- A provider that was never asked for has no entry, and a success gives it none.
unfoldable pub record_success : BreakerConfig → ℕ → ℤ → States → States
unfolding success_entry on_known
record_success cfg now id states = on_known id (success_entry cfg now) (lookup id states) states

unfoldable pub record_failure : BreakerConfig → ℕ → ℤ → States → States
unfolding failure_entry
record_failure cfg now id states = insert id (failure_entry cfg now (entry id states)) states

module _ {ℓ} {A : Type ℓ} (id_of : A → ℤ) (now : ℕ) where
  -- The closure of `filter` asks each candidate in turn, and each answer may take a probe's place.
  unfoldable pub allowed_of : List A → States → List A × States
  unfolding allow
  allowed_of [] states = ([], states)
  allowed_of (c ∷ cs) states =
      let (allowed, states') = allow now (id_of c) states in
      let (rest, states'') = allowed_of cs states' in
      ((if allowed then c ∷ rest else rest), states'')

  unless_empty : List A → Option (List A)
  unless_empty [] = none
  unless_empty (c ∷ cs) = some (c ∷ cs)

  unfoldable pub filter_candidates : List A → States → Option (List A) × States
  unfolding allowed_of unless_empty
  filter_candidates candidates states =
      let (allowed, states') = allowed_of candidates states in (unless_empty allowed, states')
