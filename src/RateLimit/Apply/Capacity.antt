-- ===== src/RateLimit/Apply/Capacity.antt =====
-- No interleaving of requests takes a bucket over its limit.
use llm_gateway.Prelude.{
  ℕ, ◌≤◌, ◌≡◌, refl, ◌∙◌, sym, inl, inr, ◌⊎◌, Option, none, some, List, [], ◌∷◌, arith, Bool-cases,
  filter, All, false, subst, true,
}
use llm_gateway.Prelude.Eq.{List_Eq, ℕ_Eq, list_beq, list_beq_iff}
use llm_gateway.Prelude.Int.{ℤ, pos, ◌≤ℤ◌, leb_ℤ}
use llm_gateway.Prelude.Text.{Text}
use llm_gateway.Prelude.TextOrder.{ltb_text_irrefl}
use llm_gateway.Prelude.Map.{lookup}
use llm_gateway.Messages.{MessageTemplates}
use llm_gateway.RateLimit.Rules.{matched_rules}
use llm_gateway.RateLimit.Limiter.{
  Counts, Guard, active_in, is_limited, find_full, take_places, dedup_min_limit,
}
use llm_gateway.RateLimit.Limiter.Dedup.{
  IsSorted, Above, min_limit, dedup_min_limit_lem, dedup_min_limit-IsSorted,
}
use llm_gateway.RateLimit.Apply.{
  InFlight, Event, arrive, finish, idle, drop_at, step, run, after_finish, limited,
}
use llm_gateway.RateLimit.Apply.Balance.{
  IsBalanced, IsBalanced-idle, step-IsBalanced, step_arrive_cases, guard_keys, places,
  active-take_places, active-drop_guard, held, run-idle-IsBalanced,
}

places-Above : (k : Text) (m : List (Text × ℤ)) → Above k m → places k (guard_keys m) ≡ 0
unfolding places
places-Above k [] a = refl
places-Above k ((j, l) ∷ m) a =
    ground (arith, places-Above k m a.1, list_beq_iff j k, ltb_text_irrefl k)

-- A request takes no place of a bucket, or one, and then the bucket had one to give.
abbrev pub Takes : Text → Counts → List (Text × ℤ) → Type 0
Takes k counts m =
    ((places k (guard_keys m) ≡ 0) × ((l : ℤ) → lookup k m ≡ some l → leb_ℤ l (pos 0) ≡ true))
    ⊎ ((l : ℤ) × (places k (guard_keys m) ≡ 1)
        × (lookup k m ≡ some l)
        × (leb_ℤ l (pos (active_in counts k)) ≡ false))

pub Takes-one :
    (k : Text) (counts : Counts) (m : List (Text × ℤ))
    → IsSorted m
    → find_full counts m ≡ none
    → Takes k counts m
unfolding places lookup find_full
Takes-one k counts [] s free = inl (refl, λ l h. ground arith)
Takes-one k counts ((j, l) ∷ m) s free = elim (Bool-cases (list_beq j k)) [
  | inl hit ↦
      let same = (list_beq_iff j k).0 hit in
      elim (Bool-cases (leb_ℤ l (pos 0))) [
        | inl off ↦ inl (ground (arith, places-Above j m s.0), λ x h. ground (arith, h, off))
        | inr on ↦ inr (l, ground (arith, places-Above j m s.0), ground arith, ground arith)
      ]
  | inr miss ↦ elim (Takes-one k counts m s.1 (ground arith)) [
    | inl (z, none_on) ↦ inl (ground arith, λ x h. none_on x (ground (arith, h)))
    | inr (x, one, at_k, room) ↦ inr (x, ground arith, ground arith, room)
  ]
]

-- The least limit that the matching rules of an arriving request state for the bucket is at most
-- `cap`, if any of them limits it.
abbrev pub Within : Text → ℕ → Event → Type 0
Within k cap (arrive rules caller model) =
    (l : ℤ)
    → min_limit k (filter is_limited (matched_rules rules caller model)) ≡ some l
    → l ≤ℤ pos cap
Within k cap (finish i) = Unit {0}

below_limit :
    (k : Text) (cap : ℕ) (counts : Counts) (rules : List (Text × ℤ))
    → Takes k counts (dedup_min_limit rules)
    → ((l : ℤ) → min_limit k rules ≡ some l → l ≤ℤ pos cap)
    → active_in counts k ≤ cap
    → active_in (take_places counts (guard_keys (dedup_min_limit rules))) k ≤ cap
below_limit k cap counts rules (inl (z, none_on)) w h =
    omega (arith, active-take_places k counts (guard_keys (dedup_min_limit rules)))
below_limit k cap counts rules (inr (l, one, at_k, room)) w h =
    let stated : min_limit k rules ≡ some l = sym ((dedup_min_limit_lem rules).0 k) ∙ at_k in
    let least : l ≤ℤ pos cap = w l stated in
    ground (arith, active-take_places k counts (guard_keys (dedup_min_limit rules)))

module _ (templates : MessageTemplates) (scale jitter : ℕ) (k : Text) (cap : ℕ) where
  step-le-cap :
      (s : InFlight) (e : Event)
      → IsBalanced s
      → Within k cap e
      → active_in s.counts k ≤ cap
      → active_in (step templates scale jitter s e).counts k ≤ cap
  unfolding after_finish
  step-le-cap s (arrive rules caller model) b w h =
      step_arrive_cases templates scale jitter (λ (t : InFlight). active_in t.counts k ≤ cap) s
        rules caller model h
        λ free.
          below_limit k cap s.counts (filter is_limited (matched_rules rules caller model))
            (Takes-one k s.counts (limited rules caller model) (dedup_min_limit-IsSorted _) free) w
            h
  step-le-cap s (finish i) b w h = unfold step in finished (drop_at i s.guards)
    where
      finished : (o : Option (Guard × List Guard)) → active_in (after_finish s o).counts k ≤ cap
      finished none = h
      finished (some (g, rest)) = omega (arith, active-drop_guard k s.counts g.keys b.is_map)

  run-le-cap :
      (s : InFlight) (es : List Event)
      → IsBalanced s
      → All (Within k cap) es
      → active_in s.counts k ≤ cap
      → active_in (run templates scale jitter s es).counts k ≤ cap
  unfolding run
  run-le-cap s [] b w h = h
  run-le-cap s (e ∷ es) b w h =
      run-le-cap (step templates scale jitter s e) es (step-IsBalanced templates scale jitter s e b)
        w.1 (step-le-cap s e b w.0 h)

  -- If every arriving request that is limited in a bucket is limited there to at most `cap`, then
  -- the guards of the requests in flight never hold more than `cap` places of that bucket together,
  -- and the table never counts more, in any order of arrivals and ends and also if the rules change,
  -- duplicate or overlap between them.
  pub in_flight-le-cap :
      (es : List Event)
      → All (Within k cap) es
      → let now = run templates scale jitter idle es in
        (held k now.guards ≤ cap) × (active_in now.counts k ≤ cap)
  unfolding lookup
  in_flight-le-cap es w =
      let bounded : active_in (run templates scale jitter idle es).counts k ≤ cap =
        run-le-cap idle es (IsBalanced-idle templates scale jitter) w (omega arith) in
      (
        subst (λ n. n ≤ cap) ((run-idle-IsBalanced templates scale jitter es).counted k) bounded,
        bounded,
      )
