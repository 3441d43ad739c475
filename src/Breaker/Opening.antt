-- ===== src/Breaker/Opening.antt =====
-- When a breaker opens, how long it stays open and what closes it.
use llm_gateway.Prelude.{
  ℕ, suc, ◌+◌, ◌*◌, ◌≤◌, ◌<◌, ◌≡◌, ◌≢◌, refl, Option, none, some, Bool, false, List, [], ◌∷◌, arith,
  ◌⊎◌, inl, inr, Option-cases, leb, if◌then◌else◌, All, length, ◌||◌, ◌&&◌, ◌∙◌,
}
use llm_gateway.Breaker.{
  BreakerConfig, ProviderBreaker, allow_entry, success_entry, failure_entry, decay_window, secs,
}

-- The test of the error rate over the counts of a window.
abbrev pub rate_reached : BreakerConfig → ℕ → ℕ → Bool
rate_reached cfg requests failures =
    leb cfg.min_requests requests
    && leb (cfg.rate_numerator * requests) (failures * cfg.rate_denominator)

-- Open at least until the given time.
abbrev OpenUntil : ℕ → ProviderBreaker → Type 0
OpenUntil t pb = (u : ℕ) × (pb.open_until ≡ some u) × (t ≤ u)

module _ (cfg : BreakerConfig) where
  -- The failures reported at the given times, with nothing else in between.
  pub fail_at : List ℕ → ProviderBreaker → ProviderBreaker
  fail_at [] pb = pb
  fail_at (t ∷ ts) pb = fail_at ts (failure_entry cfg t pb)

  -- A failure that is no probe's either opens the breaker or adds to the count.
  failure_cases :
      (now : ℕ) (pb : ProviderBreaker)
      → pb.half_open_probe_in_flight ≡ false
      → ((failure_entry cfg now pb).half_open_probe_in_flight ≡ false)
        × ((failure_entry cfg now pb).half_open_successes ≡ pb.half_open_successes)
        × (((failure_entry cfg now pb).open_until ≡ some (now + secs cfg.open_secs))
            ⊎ (((failure_entry cfg now pb).open_until ≡ pb.open_until)
                × ((failure_entry cfg now pb).consec_failures ≡ pb.consec_failures + 1)
                × (pb.consec_failures + 1 < cfg.failure_threshold)))
  unfolding failure_entry
  failure_cases now pb h = ground arith

  still_open :
      (t : ℕ) (ts : List ℕ) (pb : ProviderBreaker)
      → All (λ s. t ≤ s) ts
      → pb.half_open_probe_in_flight ≡ false
      → OpenUntil (t + secs cfg.open_secs) pb
      → OpenUntil (t + secs cfg.open_secs) (fail_at ts pb)
  unfolding fail_at
  still_open t [] pb later h o = o
  still_open t (s ∷ ts) pb later h (u, e, le) =
      let (calm, kept, how) = failure_cases s pb h in
      elim how [
        | inl opened ↦
            still_open t ts (failure_entry cfg s pb) later.1 calm
              (s + secs cfg.open_secs, opened, omega arith)
        | inr (same, counted, few) ↦
            still_open t ts (failure_entry cfg s pb) later.1 calm (u, same ∙ e, le)
      ]

  opens_within :
      (t : ℕ) (ts : List ℕ) (pb : ProviderBreaker)
      → All (λ s. t ≤ s) ts
      → pb.half_open_probe_in_flight ≡ false
      → 0 < length ts
      → cfg.failure_threshold ≤ pb.consec_failures + length ts
      → OpenUntil (t + secs cfg.open_secs) (fail_at ts pb)
  unfolding fail_at
  opens_within t [] pb later h some_time enough = absurd (omega arith)
  opens_within t (s ∷ ts) pb later h some_time enough =
      let (calm, kept, how) = failure_cases s pb h in
      elim how [
        | inl opened ↦
            still_open t ts (failure_entry cfg s pb) later.1 calm
              (s + secs cfg.open_secs, opened, omega arith)
        | inr (same, counted, few) ↦
            opens_within t ts (failure_entry cfg s pb) later.1 calm (omega arith) (omega arith)
      ]

  refused_before :
      (now u : ℕ) (pb : ProviderBreaker) → OpenUntil u pb → now < u → (allow_entry now pb).0 ≡ false
  unfolding allow_entry
  refused_before now u pb (v, e, le) early = ground arith

  -- From any state in which no probe is in flight: after as many failures in a row as the threshold
  -- says, at least one, each reported at or after `t`, the provider is refused at every time before
  -- the end of a window that starts at `t`.
  pub failures_in_a_row_open :
      (t now : ℕ) (ts : List ℕ) (pb : ProviderBreaker)
      → pb.half_open_probe_in_flight ≡ false
      → All (λ s. t ≤ s) ts
      → 0 < length ts
      → cfg.failure_threshold ≤ length ts
      → now < t + secs cfg.open_secs
      → (allow_entry now (fail_at ts pb)).0 ≡ false
  failures_in_a_row_open t now ts pb h later some_time enough early =
      refused_before now (t + secs cfg.open_secs) (fail_at ts pb)
        (opens_within t ts pb later h some_time (omega arith)) early

  -- A failure leaves a closed breaker closed unless it completes the failures in a row or takes the
  -- window, with that failure counted and an expired window emptied first, to the error rate.
  failure_entry_lem :
      (now : ℕ) (pb : ProviderBreaker)
      → pb.half_open_probe_in_flight ≡ false
      → pb.open_until ≡ none
      → let window = decay_window cfg now pb in
        let reached = rate_reached cfg (window.window_requests + 1) (window.window_failures + 1) in
        (failure_entry cfg now pb).open_until ≡ (
          if leb cfg.failure_threshold (pb.consec_failures + 1) || reached
          then some (now + secs cfg.open_secs)
          else none)
  unfolding failure_entry
  failure_entry_lem now pb h e = ground arith

  -- The next probe goes out `wait` after the end of the window and succeeds `took` later.
  probe_at : ℕ × ℕ → Option ℕ → ProviderBreaker → ProviderBreaker
  probe_at (wait, took) none pb = pb
  probe_at (wait, took) (some u) pb =
      success_entry cfg (u + wait + took) (allow_entry (u + wait) pb).1

  pub probe_rounds : List (ℕ × ℕ) → ProviderBreaker → ProviderBreaker
  unfolding probe_at
  probe_rounds [] pb = pb
  probe_rounds (r ∷ rs) pb = probe_rounds rs (probe_at r pb.open_until pb)

  -- Waiting for a probe, with some successes counted already.
  pub record IsHalfOpen (n : ℕ) (pb : ProviderBreaker) : Type 0 where
    pub opened : pb.open_until ≢ none
    pub calm : pb.half_open_probe_in_flight ≡ false
    pub counted : pb.half_open_successes ≡ n

  probe_continues :
      (n u wait took : ℕ) (pb : ProviderBreaker)
      → pb.open_until ≡ some u
      → IsHalfOpen n pb
      → n + 1 < cfg.success_threshold
      → IsHalfOpen (n + 1) (probe_at (wait, took) pb.open_until pb)
  unfolding probe_at success_entry allow_entry
  probe_continues n u wait took pb e v more = ground arith

  probe_closes :
      (n u wait took : ℕ) (pb : ProviderBreaker)
      → pb.open_until ≡ some u
      → IsHalfOpen n pb
      → cfg.success_threshold ≤ n + 1
      → ((probe_at (wait, took) pb.open_until pb).open_until ≡ none)
        × ((probe_at (wait, took) pb.open_until pb).half_open_successes ≡ 0)
  unfolding probe_at success_entry allow_entry
  probe_closes n u wait took pb e v enough = ground arith

  until_of : (pb : ProviderBreaker) → pb.open_until ≢ none → (u : ℕ) × (pb.open_until ≡ some u)
  until_of pb h = elim (Option-cases pb.open_until) [ inl e ↦ absurd (h e) | inr found ↦ found ]

  -- Fewer probes that succeed than `success_threshold` leave the breaker half-open, with their count.
  probe_rounds-IsHalfOpen :
      (n : ℕ) (rs : List (ℕ × ℕ)) (pb : ProviderBreaker)
      → IsHalfOpen n pb
      → n + length rs < cfg.success_threshold
      → IsHalfOpen (n + length rs) (probe_rounds rs pb)
  unfolding probe_rounds
  probe_rounds-IsHalfOpen n [] pb v few = ground arith
  probe_rounds-IsHalfOpen n ((wait, took) ∷ rs) pb v few =
      let (u, e) = until_of pb v.opened in
      let sum : n + 1 + length rs ≡ n + suc (length rs) = omega arith in
      rw (← sum) (
        probe_rounds-IsHalfOpen (n + 1) rs (probe_at (wait, took) pb.open_until pb)
          (probe_continues n u wait took pb e v (omega arith)) (omega arith))

  -- The probe that completes `success_threshold` successes closes the breaker and clears the count,
  -- where the probes go out one after another and succeed.
  probe_rounds-close :
      (n : ℕ) (rs : List (ℕ × ℕ)) (pb : ProviderBreaker)
      → IsHalfOpen n pb
      → 0 < length rs
      → n + length rs ≡ cfg.success_threshold
      → ((probe_rounds rs pb).open_until ≡ none) × ((probe_rounds rs pb).half_open_successes ≡ 0)
  unfolding probe_rounds
  probe_rounds-close n [] pb v some_round e = absurd (omega arith)
  probe_rounds-close n ((wait, took) ∷ []) pb v some_round e =
      let (u, at) = until_of pb v.opened in probe_closes n u wait took pb at v (omega arith)
  probe_rounds-close n ((wait, took) ∷ r ∷ rs) pb v some_round e =
      let (u, at) = until_of pb v.opened in
      probe_rounds-close (n + 1) (r ∷ rs) (probe_at (wait, took) pb.open_until pb)
        (probe_continues n u wait took pb at v (omega arith)) (omega arith) (omega arith)

  last_probe :
      (sent done : ℕ) (pb : ProviderBreaker)
      → pb.half_open_probe_in_flight ≡ false
      → cfg.success_threshold ≤ pb.half_open_successes + 1
      → (success_entry cfg done (allow_entry sent pb).1).open_until ≡ none
  unfolding success_entry allow_entry
  last_probe sent done pb h enough = ground arith

  -- Failures that are no probe's do not touch the count of successful probes.
  fail_at_calm :
      (ts : List ℕ) (pb : ProviderBreaker)
      → pb.half_open_probe_in_flight ≡ false
      → ((fail_at ts pb).half_open_probe_in_flight ≡ false)
        × ((fail_at ts pb).half_open_successes ≡ pb.half_open_successes)
  unfolding fail_at
  fail_at_calm [] pb h = (h, refl)
  fail_at_calm (t ∷ ts) pb h =
      let (calm, kept, _) = failure_cases t pb h in
      let (calm', kept') = fail_at_calm ts (failure_entry cfg t pb) calm in (calm', kept' ∙ kept)

  late_success :
      (now : ℕ) (pb : ProviderBreaker)
      → pb.half_open_probe_in_flight ≡ false
      → ((success_entry cfg now pb).open_until ≡ none)
        × ((success_entry cfg now pb).half_open_probe_in_flight ≡ false)
        × ((success_entry cfg now pb).half_open_successes ≡ pb.half_open_successes)
  unfolding success_entry
  late_success now pb h = ground arith

  -- If one more successful probe is missing and a success comes in that is no probe's, it closes the
  -- breaker at once and keeps the count of the probes: after any failures from then on, which may
  -- open the breaker again, the first request that it is asked for closes it by its success.
  pub late_success_keeps_count :
      (now sent done : ℕ) (ts : List ℕ) (pb : ProviderBreaker)
      → pb.half_open_probe_in_flight ≡ false
      → pb.half_open_successes + 1 ≡ cfg.success_threshold
      → let reopened = fail_at ts (success_entry cfg now pb) in
        ((success_entry cfg now pb).open_until ≡ none)
        × ((success_entry cfg done (allow_entry sent reopened).1).open_until ≡ none)
  late_success_keeps_count now sent done ts pb h missing =
      let (closes, calm, kept) = late_success now pb h in
      let (calm', kept') = fail_at_calm ts (success_entry cfg now pb) calm in
      (closes, last_probe sent done (fail_at ts (success_entry cfg now pb)) calm' (omega arith))
