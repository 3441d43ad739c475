-- ===== src/Examples/Breakers.antt =====
-- Concrete runs of the circuit breaker (src/service/breaker.rs).
use llm_gateway.Prelude.{◌≡◌, refl, inl, none, some, true, false, List, [], ◌∷◌, arith}
use llm_gateway.Prelude.Int.{ℤ, pos, ℤ_Eq}
use llm_gateway.Prelude.Map.{lookup, insert}
use llm_gateway.Prelude.Text.{codes}
use llm_gateway.Breaker.{
  default_config, ProviderBreaker, closed, States, entry, allow, allow_entry, success_entry,
  filter_candidates, allowed_of,
}
use llm_gateway.Breaker.Invariant.{asks, succeeds, fails, run, IsSound, run-IsSound}
use llm_gateway.Breaker.Probe.{single_probe}
use llm_gateway.Breaker.Opening.{fail_at, failures_in_a_row_open, late_success_keeps_count}
use llm_gateway.Breaker.Filter.{Stands, IsDue}
use llm_gateway.Routing.{Provider}
use llm_gateway.Proxy.Candidates.{choose, tries}
use llm_gateway.Proxy.Candidates.HalfOpen.{due_provider_skipped}

abbrev opened : ProviderBreaker
opened = record {
  consec_failures = 4;
  open_until = some 100;
  half_open_probe_in_flight = false;
  half_open_successes = 0;
  window_requests = 4;
  window_failures = 4;
  window_start = some 10;
}

abbrev states : States
states = (pos 1, opened) ∷ (pos 2, closed) ∷ []

open_until_100 : (entry (pos 1) states).open_until ≡ some 100
unfolding lookup
open_until_100 = refl

probe_goes : (allow 200 (pos 1) states).0 ≡ true
unfolding allow allow_entry lookup insert
probe_goes = refl

no_probe : (entry (pos 1) states).half_open_probe_in_flight ≡ false
unfolding lookup
no_probe = refl

abbrev provider : ℤ → Provider
provider i = record {
  id = i;
  name = codes "p";
  api_type = codes "openai";
  base_url = [];
  supports_images = true;
}

abbrev upstreams : List Provider
upstreams = provider (pos 1) ∷ provider (pos 2) ∷ []

single_probe_example :
    (allow 300
      (pos 1)
      (run default_config ((250, succeeds (pos 2)) ∷ []) (allow 200 (pos 1) states).1)).0
    ≡ false
single_probe_example =
    single_probe default_config (pos 1) states 200 300 100 ((250, succeeds (pos 2)) ∷ [])
      open_until_100 probe_goes (refl, tt)

failures_in_a_row_open_example :
    (allow_entry 20 (fail_at default_config (10 ∷ 11 ∷ 12 ∷ 13 ∷ []) closed)).0 ≡ false
failures_in_a_row_open_example =
    failures_in_a_row_open default_config 10 20 (10 ∷ 11 ∷ 12 ∷ 13 ∷ []) closed refl
      (omega arith, (omega arith, (omega arith, (omega arith, tt)))) (omega arith) (omega arith)
      (omega arith)

run-IsSound_example :
    IsSound default_config
      (entry (pos 1) (run default_config ((5, fails (pos 1)) ∷ (6, asks (pos 1)) ∷ []) []))
run-IsSound_example =
    run-IsSound default_config ((5, fails (pos 1)) ∷ (6, asks (pos 1)) ∷ []) (pos 1)

abbrev one_probe_done : ProviderBreaker
one_probe_done = record {
  consec_failures = 4;
  open_until = some 100;
  half_open_probe_in_flight = false;
  half_open_successes = 1;
  window_requests = 4;
  window_failures = 4;
  window_start = some 10;
}

late_success_keeps_count_example :
    ((success_entry default_config 110 one_probe_done).open_until ≡ none)
    × ((success_entry default_config 140
          (allow_entry 130 (
            fail_at default_config
              (120 ∷ [])
              (success_entry default_config 110 one_probe_done))).1).open_until
        ≡ none)
late_success_keeps_count_example =
    late_success_keeps_count default_config 110 130 140 (120 ∷ []) one_probe_done refl refl

due : IsDue 200 (pos 1) states
due = record { opened = (100, open_until_100, omega arith); calm = no_probe }

two_left : (choose 200 upstreams states).0.check_breaker ≡ true
unfolding choose filter_candidates allowed_of allow allow_entry lookup insert
two_left = refl

due_provider_skipped_example :
    Stands (λ (c : Provider). c.id) (pos 1) (choose 200 upstreams states).0.candidates
    × ((tries
          (choose 200 upstreams states).0.check_breaker
          300
          (provider (pos 1))
          (run default_config [] (choose 200 upstreams states).1)).0
        ≡ false)
due_provider_skipped_example =
    due_provider_skipped default_config 200 300 (provider (pos 1)) upstreams states [] (inl refl)
      due tt two_left
