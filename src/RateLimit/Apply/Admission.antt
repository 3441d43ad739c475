-- ===== src/RateLimit/Apply/Admission.antt =====
-- When `apply_concurrency_limits` refuses a request, and what the refusal says.
use llm_gateway.Prelude.{
  ℕ, ◌+◌, ◌<◌, ◌≡◌, refl, inl, inr, ◌⊎◌, none, some, List, [], ◌∷◌, arith, Bool-cases, false, true,
  filter, Option-cases, if_both, ◌∙◌, sym, subst,
}
use llm_gateway.Prelude.Eq.{List_Eq, ℕ_Eq, list_beq, list_beq_iff}
use llm_gateway.Prelude.Int.{ℤ, pos, leb_ℤ, ltb_ℤ, ◌<ℤ◌, ◌≤ℤ◌}
use llm_gateway.Prelude.Text.{Text}
use llm_gateway.Messages.{MessageTemplates, concurrency}
use llm_gateway.RateLimit.Rules.{RateRule, Caller, matched_rules}
use llm_gateway.RateLimit.Limiter.{
  Counts, Acquired, Guard, ok, err, active_in, find_full, take_places, try_acquire, drop_guard,
  is_limited, dedup_min_limit,
}
use llm_gateway.RateLimit.Apply.{
  Verdict, admitted, concurrent_limited, apply_concurrency_limits, limited, retry_secs,
}
use llm_gateway.RateLimit.Apply.Balance.{
  guard_keys, places, active-take_places, active-drop_guard, take_places-IsMap,
}
use llm_gateway.RateLimit.Apply.Seconds.{retry_secs_lem}
use llm_gateway.Prelude.Map.{IsMap, lookup}
use llm_gateway.RateLimit.Limiter.Dedup.{
  IsSorted, with_rule, min_limit, lookup_below, dedup_min_limit_lem, dedup_min_limit-IsSorted,
}
use llm_gateway.RateLimit.Apply.Capacity.{Takes-one}

try_acquire-free :
    (counts : Counts) (rules : List (Text × ℤ))
    → find_full counts rules ≡ none
    → try_acquire counts rules
      ≡ ok (record { keys = guard_keys rules }) (take_places counts (guard_keys rules))
unfolding try_acquire
try_acquire-free counts rules free = rw (free, try_acquire)

try_acquire-full :
    (counts : Counts) (rules : List (Text × ℤ)) (full : Text × ℤ)
    → find_full counts rules ≡ some full
    → try_acquire counts rules ≡ err full
unfolding try_acquire
try_acquire-full counts rules full found = rw (found, try_acquire)

-- From a table with one entry for each bucket: dropping a guard right after it was taken gives every
-- count back.
pub drop_guard-try_acquire :
    (counts counts' : Counts) (rules : List (Text × ℤ)) (guard : Guard)
    → IsMap counts
    → try_acquire counts rules ≡ ok guard counts'
    → (k : Text) → active_in (drop_guard counts' guard.keys) k ≡ active_in counts k
drop_guard-try_acquire counts counts' rules guard m h k =
    elim (Option-cases (find_full counts rules)) [
      | inl free ↦ ground (
        arith,
        try_acquire-free counts rules free,
        active-drop_guard k (take_places counts (guard_keys rules)) (guard_keys rules)
            (take_places-IsMap counts (guard_keys rules) m),
        active-take_places k counts (guard_keys rules),
      )
      | inr (full, found) ↦ cc (h, try_acquire-full counts rules full found)
    ]

min_limit-limited :
    (k : Text) (rules : List (Text × ℤ)) (l : ℤ)
    → min_limit k (filter is_limited rules) ≡ some l
    → leb_ℤ l (pos 0) ≡ false
unfolding min_limit with_rule
min_limit-limited k [] l h = ground arith
min_limit-limited k ((j, x) ∷ rules) l h = elim (Bool-cases (ltb_ℤ (pos 0) x)) [
  | inl on ↦ elim (Option-cases (min_limit k (filter is_limited rules))) [
    | inl empty ↦ ground arith
    | inr (y, rest) ↦ let rec = min_limit-limited k rules y rest in ground arith
  ]
  | inr off ↦ ground (arith, min_limit-limited k rules l)
]

-- A bucket that is found full has the entry that the refusal names.
find_full-lookup :
    (counts : Counts) (m : List (Text × ℤ)) (k : Text) (l : ℤ)
    → IsSorted m
    → find_full counts m ≡ some (k, l)
    → (lookup k m ≡ some l) × (leb_ℤ l (pos (active_in counts k)) ≡ true)
unfolding find_full lookup
find_full-lookup counts [] k l s h = ground arith
find_full-lookup counts ((j, x) ∷ m) k l s h = elim (Bool-cases (list_beq j k)) [
  | inl hit ↦
      let rec = find_full-lookup counts m k l s.1 in
      ground (arith, rec, (list_beq_iff j k).0 hit, lookup_below j m s.0)
  | inr miss ↦ ground (arith, find_full-lookup counts m k l s.1, list_beq_iff j k)
]

-- What the verdict says of a bucket `k`, for the limits that the rules state. If the request is
-- admitted: it takes no place of a bucket that no rule limits, and one of a bucket that has one left
-- under the least limit stated for it. If it is refused: some bucket has none left under the least
-- limit stated for it, and the message is the configured one for the seconds of the header.
abbrev pub Answers : MessageTemplates → Counts → List (Text × ℤ) → Text → Verdict → Type 0
Answers templates counts stated k (admitted guard counts') =
    ((min_limit k stated ≡ none)
      × (places k guard.keys ≡ 0)
      × (active_in counts' k ≡ active_in counts k))
    ⊎ ((l : ℤ) × (min_limit k stated ≡ some l)
        × (pos (active_in counts k) <ℤ l)
        × (places k guard.keys ≡ 1)
        × (active_in counts' k ≡ active_in counts k + 1))
Answers templates counts stated k (concurrent_limited message secs) =
    ((full : Text) × (l : ℤ) × (min_limit full stated ≡ some l)
      × (l ≤ℤ pos (active_in counts full)))
    × (message ≡ concurrency templates secs)
    × ((secs ≡ 6) ⊎ (secs ≡ 7))

module _ (templates : MessageTemplates) (counts : Counts) (rules : List (Text × ℤ)) where
  -- The rules are those with a limit, once for each bucket.
  abbrev stated : List (Text × ℤ)
  stated = filter is_limited rules

  abbrev deduped : List (Text × ℤ)
  deduped = dedup_min_limit stated

  admitted-Answers :
      (k : Text)
      → find_full counts deduped ≡ none
      → Answers templates counts stated k (
          admitted (record { keys = guard_keys deduped }) (take_places counts (guard_keys deduped)))
  admitted-Answers k free =
      let least = (dedup_min_limit_lem stated).0 k in
      elim (Takes-one k counts deduped (dedup_min_limit-IsSorted stated) free) [
        | inl (none_taken, off) ↦ elim (Option-cases (min_limit k stated)) [
          | inl unlimited ↦ inl (
            unlimited,
            none_taken,
            ground (arith, active-take_places k counts (guard_keys deduped), none_taken),
          )
          | inr (l, at_k) ↦ ground (arith, off l (least ∙ at_k), min_limit-limited k rules l at_k)
        ]
        | inr (l, one, at_k, room) ↦ inr (
          l,
          sym least ∙ at_k,
          ground (arith, room),
          one,
          ground (arith, active-take_places k counts (guard_keys deduped), one),
        )
      ]

  refused-Answers :
      (k full : Text) (l : ℤ) (secs : ℕ)
      → find_full counts deduped ≡ some (full, l)
      → (secs ≡ 6) ⊎ (secs ≡ 7)
      → Answers templates counts stated k (concurrent_limited (concurrency templates secs) secs)
  refused-Answers k full l secs found wait =
      let (at_full, none_left) =
        find_full-lookup counts deduped full l (dedup_min_limit-IsSorted stated) found in
      (
        (full, l, sym ((dedup_min_limit_lem stated).0 full) ∙ at_full, ground (arith, none_left)),
        refl,
        wait,
      )

six_or_seven :
    (scale jitter : ℕ)
    → jitter < scale
    → (retry_secs scale jitter ≡ 6) ⊎ (retry_secs scale jitter ≡ 7)
six_or_seven scale jitter h =
    rw (retry_secs_lem scale jitter h)
      (if_both (λ n. (n ≡ 6) ⊎ (n ≡ 7)) _ 6 7 (λ _. inl refl) (λ _. inr refl))

-- A request is admitted only if each bucket that its rules limit has a place left under the least
-- limit stated for it, and then takes one place of each of these and none of the others, however
-- often the rules repeat a bucket. It is refused only if one of them has none left, with the
-- configured message for 6 or 7 seconds.
pub apply_concurrency_limits_lem :
    (templates : MessageTemplates) (scale jitter : ℕ) (rules : List RateRule) (caller : Caller)
    (model : Text) (counts : Counts) (k : Text)
    → jitter < scale
    → Answers templates counts
        (filter is_limited (matched_rules rules caller model))
        k
        (apply_concurrency_limits templates scale jitter rules caller model counts)
unfolding apply_concurrency_limits
apply_concurrency_limits_lem templates scale jitter rules caller model counts k h =
    let matched = matched_rules rules caller model in
    let secs = retry_secs scale jitter in
    let Said : Acquired → Type 0 = λ a.
      Answers templates counts (filter is_limited matched) k (elim a [
        | ok guard counts' ↦ admitted guard counts'
        | err full ↦ concurrent_limited (concurrency templates secs) secs
      ]) in
    elim (Option-cases (find_full counts (limited rules caller model))) [
      | inl free ↦
          subst Said (sym (try_acquire-free counts _ free))
            (admitted-Answers templates counts matched k free)
      | inr ((full, l), found) ↦ subst Said (sym (try_acquire-full counts _ (full, l) found)) (
          refused-Answers templates counts matched k full l secs found
            (six_or_seven scale jitter h))
    ]
