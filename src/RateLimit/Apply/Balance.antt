-- ===== src/RateLimit/Apply/Balance.antt =====
-- What the table of counts says of the requests in flight.
use llm_gateway.Prelude.{
  ℕ, zero, suc, ◌+◌, ◌-◌, ◌≡◌, ◌≢◌, refl, ◌∙◌, ap, inl, inr, Option, none, some, List, [], ◌∷◌,
  arith, ltb, if◌then◌else◌, Option-cases, map, filter,
}
use llm_gateway.Prelude.Eq.{List_Eq, ℕ_Eq, list_beq, list_beq_iff}
use llm_gateway.Prelude.Text.{Text}
use llm_gateway.Prelude.Int.{ℤ}
use llm_gateway.Prelude.Map.{
  lookup, insert, modify, IsMap, lookup-insert, lookup-modify, lookup-retain, insert-IsMap,
  modify-IsMap, retain-IsMap, lookup-ext-nil,
}
use llm_gateway.RateLimit.Limiter.{
  Counts, Guard, active_in, or_zero, is_limited, take_places, give_back, drop_guard, try_acquire,
  find_full,
}
use llm_gateway.Messages.{MessageTemplates}
use llm_gateway.RateLimit.Rules.{RateRule, Caller}
use llm_gateway.RateLimit.Apply.{
  InFlight, Event, arrive, finish, idle, drop_at, step, run, after_finish, limited,
  apply_concurrency_limits,
}

-- How often a bucket stands among the keys of a guard.
unfoldable pub places : Text → List Text → ℕ
places k [] = 0
places k (j ∷ js) = if list_beq j k then suc (places k js) else places k js

-- How many places of a bucket the requests in flight hold.
pub held : Text → List Guard → ℕ
held k [] = 0
held k (g ∷ gs) = places k g.keys + held k gs

pub active-take_places :
    (k : Text) (counts : Counts) (keys : List Text)
    → active_in (take_places counts keys) k ≡ active_in counts k + places k keys
unfolding take_places places
active-take_places k counts [] = omega arith
active-take_places k counts (j ∷ js) = ground (
  arith,
  active-take_places k (insert j (active_in counts j + 1) counts) js,
  lookup-insert j k (active_in counts j + 1) counts,
  list_beq_iff j k,
)

active-give_back :
    (k : Text) (counts : Counts) (keys : List Text)
    → active_in (give_back counts keys) k ≡ active_in counts k - places k keys
unfolding give_back places
active-give_back k counts [] = omega arith
active-give_back k counts (j ∷ js) = ground (
  arith,
  active-give_back k (modify j (λ c. c - 1) counts) js,
  lookup-modify j k (λ c. c - 1) counts,
)

pub take_places-IsMap :
    (counts : Counts) (keys : List Text) → IsMap counts → IsMap (take_places counts keys)
unfolding take_places
take_places-IsMap counts [] h = h
take_places-IsMap counts (j ∷ js) h =
    take_places-IsMap (insert j (active_in counts j + 1) counts) js (insert-IsMap j _ counts h)

give_back-IsMap :
    (counts : Counts) (keys : List Text) → IsMap counts → IsMap (give_back counts keys)
unfolding give_back
give_back-IsMap counts [] h = h
give_back-IsMap counts (j ∷ js) h =
    give_back-IsMap (modify j (λ c. c - 1) counts) js (modify-IsMap j _ counts h)

-- The table has one entry for each bucket, it counts the places held in each, and a bucket in which
-- none is held has no entry.
pub record IsBalanced (s : InFlight) : Type 0 where
  pub is_map : IsMap s.counts
  pub counted : (k : Text) → active_in s.counts k ≡ held k s.guards
  no_zero : (k : Text) → lookup k s.counts ≢ some 0

take_places-no_zero :
    (k : Text) (counts : Counts) (keys : List Text)
    → lookup k counts ≢ some 0
    → lookup k (take_places counts keys) ≢ some 0
unfolding take_places
take_places-no_zero k counts [] h = h
take_places-no_zero k counts (j ∷ js) h =
    take_places-no_zero k (insert j (active_in counts j + 1) counts) js
      (ground (arith, lookup-insert j k (active_in counts j + 1) counts))

drop_guard-IsMap :
    (counts : Counts) (keys : List Text) → IsMap counts → IsMap (drop_guard counts keys)
unfolding drop_guard
drop_guard-IsMap counts [] h = h
drop_guard-IsMap counts (j ∷ js) h = retain-IsMap _ _ (give_back-IsMap counts (j ∷ js) h)

pub active-drop_guard :
    (k : Text) (counts : Counts) (keys : List Text)
    → IsMap counts
    → active_in (drop_guard counts keys) k ≡ active_in counts k - places k keys
unfolding drop_guard
active-drop_guard k counts [] h = unfold places in omega arith
active-drop_guard k counts (j ∷ js) h = ground (
  arith,
  lookup-retain (λ c. ltb 0 c) k (give_back counts (j ∷ js)) (give_back-IsMap counts (j ∷ js) h),
  active-give_back k counts (j ∷ js),
)

drop_guard-no_zero :
    (k : Text) (counts : Counts) (keys : List Text)
    → IsMap counts
    → lookup k counts ≢ some 0
    → lookup k (drop_guard counts keys) ≢ some 0
unfolding drop_guard
drop_guard-no_zero k counts [] h z = z
drop_guard-no_zero k counts (j ∷ js) h z = ground (
  arith,
  lookup-retain (λ c. ltb 0 c) k (give_back counts (j ∷ js)) (give_back-IsMap counts (j ∷ js) h),
)

held-drop_at :
    (k : Text) (i : ℕ) (gs : List Guard) (g : Guard) (rest : List Guard)
    → drop_at i gs ≡ some (g, rest)
    → held k gs ≡ places k g.keys + held k rest
unfolding drop_at held
held-drop_at k i [] g rest e = cc
held-drop_at k zero (h ∷ gs) g rest e = ground arith
held-drop_at k (suc i) (h ∷ gs) g rest e = elim (Option-cases (drop_at i gs)) [
  | inl missing ↦ ground arith
  | inr ((g', rest'), found) ↦ ground (arith, held-drop_at k i gs g' rest' found)
]

abbrev pub guard_keys : List (Text × ℤ) → List Text
guard_keys rules = map (λ r. r.0) (filter is_limited rules)

-- The two outcomes of a request, in a form that a proof can take apart.
pub step_arrive_cases {ℓ} :
    (templates : MessageTemplates) (scale jitter : ℕ) (P : InFlight → Type ℓ) (s : InFlight)
    (rules : List RateRule) (caller : Caller) (model : Text)
    → P s
    → (find_full s.counts (limited rules caller model) ≡ none
        → P (record {
          counts = take_places s.counts (guard_keys (limited rules caller model));
          guards = record { keys = guard_keys (limited rules caller model) } ∷ s.guards;
        }))
    → P (step templates scale jitter s (arrive rules caller model))
unfolding step apply_concurrency_limits try_acquire
step_arrive_cases templates scale jitter P s rules caller model refused taken =
    elim (Option-cases (find_full s.counts (limited rules caller model))) [
      | inl free ↦ rw (free, apply_concurrency_limits, try_acquire) (taken free)
      | inr (full, e) ↦ rw (e, apply_concurrency_limits, try_acquire) refused
    ]

module _ (templates : MessageTemplates) (scale jitter : ℕ) where
  pub step-IsBalanced :
      (s : InFlight) (e : Event) → IsBalanced s → IsBalanced (step templates scale jitter s e)
  unfolding after_finish
  step-IsBalanced s (arrive rules caller model) b =
      step_arrive_cases templates scale jitter IsBalanced s rules caller model b λ free. record {
        is_map = take_places-IsMap s.counts _ b.is_map;
        counted = λ k.
            unfold held in
            ground (
              arith,
              b.counted k,
              active-take_places k s.counts (guard_keys (limited rules caller model)),
            );
        no_zero = λ k. take_places-no_zero k s.counts _ (b.no_zero k);
      }
  step-IsBalanced s (finish i) b = unfold step in finished (drop_at i s.guards) refl
    where
      finished :
          (o : Option (Guard × List Guard)) → drop_at i s.guards ≡ o → IsBalanced (after_finish s o)
      finished none e = b
      finished (some (g, rest)) e = record {
        is_map = drop_guard-IsMap s.counts g.keys b.is_map;
        counted = λ k. ground (
          arith,
          b.counted k,
          active-drop_guard k s.counts g.keys b.is_map,
          held-drop_at k i s.guards g rest e,
        );
        no_zero = λ k. drop_guard-no_zero k s.counts g.keys b.is_map (b.no_zero k);
      }

  run-IsBalanced :
      (s : InFlight) (es : List Event) → IsBalanced s → IsBalanced (run templates scale jitter s es)
  unfolding run
  run-IsBalanced s [] b = b
  run-IsBalanced s (e ∷ es) b =
      run-IsBalanced (step templates scale jitter s e) es (step-IsBalanced s e b)

  pub IsBalanced-idle : IsBalanced idle
  unfolding lookup held
  IsBalanced-idle = record { is_map = tt; counted = λ k. refl; no_zero = λ k h. cc }

  -- Whatever requests came in and ended, under whatever rules, the count of every bucket is the
  -- number of places that the requests in flight hold in it.
  pub run-idle-IsBalanced : (es : List Event) → IsBalanced (run templates scale jitter idle es)
  run-idle-IsBalanced es = run-IsBalanced idle es IsBalanced-idle

  -- Once no request is in flight the table is empty: it does not grow with the buckets seen.
  run-drained :
      (es : List Event)
      → (run templates scale jitter idle es).guards ≡ []
      → (run templates scale jitter idle es).counts ≡ []
  run-drained es none_left = lookup-ext-nil _ (λ k.
      let b = run-idle-IsBalanced es in
      let zero_held : held k (run templates scale jitter idle es).guards ≡ 0 =
        rw none_left (unfold held in refl) in
      no_entry (lookup k (run templates scale jitter idle es).counts) (b.counted k ∙ zero_held)
        (b.no_zero k))
    where
      no_entry : (o : Option ℕ) → or_zero o ≡ 0 → o ≢ some 0 → o ≡ none
      no_entry none h z = refl
      no_entry (some c) h z = absurd (z (ap some h))
