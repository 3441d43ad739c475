-- ===== src/Breaker/Probe.antt =====
-- The half-open breaker lets one probe through.
use llm_gateway.Prelude.{
  ℕ, ◌≡◌, ◌≢◌, refl, none, some, true, false, List, [], ◌∷◌, arith, inl, inr, Bool-cases,
  Option-cases, All,
}
use llm_gateway.Prelude.Int.{ℤ, ℤ_Eq, beq_ℤ, beq_ℤ_iff}
use llm_gateway.Prelude.Map.{lookup, insert}
use llm_gateway.Breaker.{
  BreakerConfig, ProviderBreaker, States, entry, allow, allow_entry, success_entry, failure_entry,
  record_success, record_failure,
}
use llm_gateway.Breaker.Invariant.{Call, asks, succeeds, fails, step, run, entry-insert}

-- The provider's breaker is open, and its probe is on its way.
pub record IsProbing (pb : ProviderBreaker) : Type 0 where
  pub flagged : pb.half_open_probe_in_flight ≡ true
  pub opened : pb.open_until ≢ none

probing_refuses : (now : ℕ) (pb : ProviderBreaker) → IsProbing pb → allow_entry now pb ≡ (false, pb)
unfolding allow_entry
probing_refuses now pb v = ground arith

IsProbing-allow_entry :
    (now u : ℕ) (pb : ProviderBreaker)
    → pb.open_until ≡ some u
    → (allow_entry now pb).0 ≡ true
    → IsProbing (allow_entry now pb).1
unfolding allow_entry
IsProbing-allow_entry now u pb e h = ground arith

-- The call reports no outcome of the provider.
abbrev pub LeavesOpen : ℤ → ℕ × Call → Type 0
LeavesOpen id (now, asks k) = Unit {0}
LeavesOpen id (now, succeeds k) = beq_ℤ k id ≡ false
LeavesOpen id (now, fails k) = beq_ℤ k id ≡ false

-- Asking, for whomever, does not end a probe.
pub allow-IsProbing :
    (now : ℕ) (k id : ℤ) (states : States)
    → IsProbing (entry id states)
    → IsProbing (entry id (allow now k states).1)
unfolding allow
allow-IsProbing now k id states v = elim (Bool-cases (beq_ℤ k id)) [
  | inl hit ↦
      let same = (beq_ℤ_iff k id).0 hit in
      rw (entry-insert k id (allow_entry now (entry k states)).1 states, hit, same)
        (rw (probing_refuses now (entry id states) v) v)
  | inr miss ↦ rw (entry-insert k id (allow_entry now (entry k states)).1 states, miss) v
]

step-IsProbing :
    (cfg : BreakerConfig) (id : ℤ) (c : ℕ × Call) (states : States)
    → LeavesOpen id c
    → IsProbing (entry id states)
    → IsProbing (entry id (step cfg c states))
unfolding step allow record_success record_failure
step-IsProbing cfg id (now, asks k) states u v = allow-IsProbing now k id states v
step-IsProbing cfg id (now, succeeds k) states u v = elim (Option-cases (lookup k states)) [
  | inl unknown ↦ rw (unknown, record_success) v
  | inr (pb, e) ↦
      rw (e, record_success) (rw (entry-insert k id (success_entry cfg now pb) states, u) v)
]
step-IsProbing cfg id (now, fails k) states u v =
    rw (entry-insert k id (failure_entry cfg now (entry k states)) states, u) v

pub run-IsProbing :
    (cfg : BreakerConfig) (id : ℤ) (cs : List (ℕ × Call)) (states : States)
    → All (LeavesOpen id) cs
    → IsProbing (entry id states)
    → IsProbing (entry id (run cfg cs states))
unfolding run
run-IsProbing cfg id [] states u v = v
run-IsProbing cfg id (c ∷ cs) states u v =
    run-IsProbing cfg id cs (step cfg c states) u.1 (step-IsProbing cfg id c states u.0 v)

pub allow_refused :
    (now : ℕ) (id : ℤ) (states : States)
    → IsProbing (entry id states)
    → (allow now id states).0 ≡ false
unfolding allow
allow_refused now id states v = rw (probing_refuses now (entry id states) v)

-- Once an open breaker has let a request through, it lets no other through, at any later time and
-- whatever is asked or reported of other providers, until that provider's outcome is reported.
pub single_probe :
    (cfg : BreakerConfig) (id : ℤ) (states : States) (now later u : ℕ) (cs : List (ℕ × Call))
    → (entry id states).open_until ≡ some u
    → (allow now id states).0 ≡ true
    → All (LeavesOpen id) cs
    → (allow later id (run cfg cs (allow now id states).1)).0 ≡ false
unfolding allow
single_probe cfg id states now later u cs e h between = allow_refused later id _ (
    run-IsProbing cfg id cs (insert id (allow_entry now (entry id states)).1 states) between (
      rw (entry-insert id id (allow_entry now (entry id states)).1 states, (beq_ℤ_iff id id).1 refl)
        (IsProbing-allow_entry now u (entry id states) e h)))
