-- ===== src/Breaker/Invariant.antt =====
-- What holds of every provider's entry, whatever the calls and their times.
use llm_gateway.Prelude.{
  ℕ, ◌≤◌, ◌<◌, ◌≡◌, ◌≢◌, none, some, true, List, [], ◌∷◌, arith, ◌⊎◌, inl, inr, Bool-cases,
  Option-cases, if◌then◌else◌,
}
use llm_gateway.Prelude.Int.{ℤ, ℤ_Eq, beq_ℤ}
use llm_gateway.Prelude.Map.{lookup, insert, lookup-insert}
use llm_gateway.Breaker.{
  BreakerConfig, ProviderBreaker, closed, States, entry, allow, allow_entry, success_entry,
  failure_entry, record_success, record_failure, decay_window,
}

-- The counters stay within their thresholds, so the u32 ones never wrap; the window has no more
-- failures than requests; and a probe is in flight only while the breaker is open.
pub record IsSound (cfg : BreakerConfig) (pb : ProviderBreaker) : Type 0 where
  consec : pb.consec_failures ≤ cfg.failure_threshold
  pub window : pb.window_failures ≤ pb.window_requests
  successes : (pb.half_open_successes ≡ 0) ⊎ (pb.half_open_successes < cfg.success_threshold)
  pub probing : pb.half_open_probe_in_flight ≡ true → pb.open_until ≢ none

module _ (cfg : BreakerConfig) (now : ℕ) where
  closed-IsSound : IsSound cfg closed
  closed-IsSound = ground arith

  allow_entry-IsSound : (pb : ProviderBreaker) → IsSound cfg pb → IsSound cfg (allow_entry now pb).1
  unfolding allow_entry
  allow_entry-IsSound pb v = ground arith

  decay_window-IsSound :
      (pb : ProviderBreaker) → IsSound cfg pb → IsSound cfg (decay_window cfg now pb)
  unfolding decay_window
  decay_window-IsSound pb v = ground arith

  success_entry-IsSound :
      (pb : ProviderBreaker) → IsSound cfg pb → IsSound cfg (success_entry cfg now pb)
  unfolding success_entry
  success_entry-IsSound pb v = ground arith

  failure_entry-IsSound :
      (pb : ProviderBreaker) → IsSound cfg pb → IsSound cfg (failure_entry cfg now pb)
  unfolding failure_entry
  failure_entry-IsSound pb v = ground arith

-- A call of the breaker, by any of the requests in flight.
pub data Call : Type 0 where
  asks : ℤ → Call
  succeeds : ℤ → Call
  fails : ℤ → Call

unfoldable pub step : BreakerConfig → ℕ × Call → States → States
step cfg (now, asks id) states = (allow now id states).1
step cfg (now, succeeds id) states = record_success cfg now id states
step cfg (now, fails id) states = record_failure cfg now id states

unfoldable pub run : BreakerConfig → List (ℕ × Call) → States → States
run cfg [] states = states
run cfg (c ∷ cs) states = run cfg cs (step cfg c states)

pub entry-insert :
    (k id : ℤ) (pb : ProviderBreaker) (states : States)
    → entry id (insert k pb states) ≡ (if beq_ℤ k id then pb else entry id states)
entry-insert k id pb states = ground (arith, lookup-insert k id pb states)

abbrev AllSound : BreakerConfig → States → Type 0
AllSound cfg states = (id : ℤ) → IsSound cfg (entry id states)

insert-AllSound :
    (cfg : BreakerConfig) (k : ℤ) (pb : ProviderBreaker) (states : States)
    → IsSound cfg pb
    → AllSound cfg states
    → AllSound cfg (insert k pb states)
insert-AllSound cfg k pb states v all id = elim (Bool-cases (beq_ℤ k id)) [
  | inl hit ↦ rw (entry-insert k id pb states, hit) v
  | inr miss ↦ rw (entry-insert k id pb states, miss) (all id)
]

known-IsSound :
    (cfg : BreakerConfig) (id : ℤ) (pb : ProviderBreaker) (states : States)
    → AllSound cfg states
    → lookup id states ≡ some pb
    → IsSound cfg pb
known-IsSound cfg id pb states all e = let v = all id in rw e at v

step-AllSound :
    (cfg : BreakerConfig) (c : ℕ × Call) (states : States)
    → AllSound cfg states
    → AllSound cfg (step cfg c states)
unfolding step allow record_success record_failure
step-AllSound cfg (now, asks id) states all =
    insert-AllSound cfg id _ states (allow_entry-IsSound cfg now (entry id states) (all id)) all
step-AllSound cfg (now, succeeds id) states all = elim (Option-cases (lookup id states)) [
  | inl unknown ↦ rw (unknown, record_success) all
  | inr (pb, e) ↦
      rw (e, record_success)
        (insert-AllSound cfg id _ states
          (success_entry-IsSound cfg now pb (known-IsSound cfg id pb states all e)) all)
]
step-AllSound cfg (now, fails id) states all =
    insert-AllSound cfg id _ states (failure_entry-IsSound cfg now (entry id states) (all id)) all

run-AllSound :
    (cfg : BreakerConfig) (cs : List (ℕ × Call)) (states : States)
    → AllSound cfg states
    → AllSound cfg (run cfg cs states)
unfolding run
run-AllSound cfg [] states all = all
run-AllSound cfg (c ∷ cs) states all =
    run-AllSound cfg cs (step cfg c states) (step-AllSound cfg c states all)

-- After any calls at any times, from the empty table, every provider's entry is sound.
pub run-IsSound :
    (cfg : BreakerConfig) (cs : List (ℕ × Call)) (id : ℤ) → IsSound cfg (entry id (run cfg cs []))
run-IsSound cfg cs = run-AllSound cfg cs [] (λ k. unfold lookup in closed-IsSound cfg 0)
