-- ===== src/Proxy/Candidates/HalfOpen.antt =====
-- The breaker is asked twice for a request with several candidates: by the filter and by the loop.
use llm_gateway.Prelude.{ℕ, ◌≡◌, true, false, List, All}
use llm_gateway.Routing.{Provider}
use llm_gateway.Breaker.{BreakerConfig, States}
use llm_gateway.Breaker.Invariant.{Call, run}
use llm_gateway.Breaker.Probe.{LeavesOpen, run-IsProbing, allow_refused}
use llm_gateway.Breaker.Filter.{Stands, IsDue, filter_candidates-due}
use llm_gateway.Proxy.Candidates.{chosen_of, choose, tries}

-- If the filter leaves two candidates or more for a request, then a provider whose breaker is due for
-- its probe is among them, but the loop of that same request skips it: the filter has taken the place
-- of the probe. So it is also if the loop reaches the provider at a later time and other requests
-- have called the breaker since, as long as no outcome of that provider was reported.
pub due_provider_skipped :
    (cfg : BreakerConfig) (now later : ℕ) (p : Provider) (supported : List Provider)
    (states : States) (cs : List (ℕ × Call))
    → Stands (λ (c : Provider). c.id) p.id supported
    → IsDue now p.id states
    → All (LeavesOpen p.id) cs
    → let result = choose now supported states in
      result.0.check_breaker ≡ true
      → Stands (λ (c : Provider). c.id) p.id result.0.candidates
        × ((tries result.0.check_breaker later p (run cfg cs result.1)).0 ≡ false)
unfolding choose tries chosen_of
due_provider_skipped cfg now later p supported states cs s d between checked =
    let (list, found, stands, probing) =
      filter_candidates-due (λ (c : Provider). c.id) now p.id supported states s d in
    (
      rw found stands,
      rw checked (allow_refused later p.id _ (run-IsProbing cfg p.id cs _ between probing)),
    )
