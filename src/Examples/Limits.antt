-- ===== src/Examples/Limits.antt =====
-- Concrete rules and requests of the concurrency limiter (src/service/ratelimit.rs).
use llm_gateway.Prelude.{
  ◌≤◌, ◌≡◌, refl, none, some, List, [], ◌∷◌, if◌then◌else◌, leb, ◌*◌, ◌+◌, filter, arith,
}
use llm_gateway.Prelude.Int.{ℤ, pos}
use llm_gateway.Prelude.Eq.{ℕ_Eq, List_Eq}
use llm_gateway.Prelude.Map.{lookup, insert}
use llm_gateway.Prelude.Text.{Text, codes, show_ℤ}
use llm_gateway.Messages.{MessageTemplates}
use llm_gateway.RateLimit.Rules.{RateRule, Caller, bucket_of, matched_rules}
use llm_gateway.RateLimit.Rules.Buckets.{SameSubject, bucket_of-injective}
use llm_gateway.RateLimit.Limiter.{
  is_limited, ok, active_in, try_acquire, find_full, take_places, drop_guard, dedup_min_limit,
}
use llm_gateway.RateLimit.Limiter.Dedup.{
  dedup_min_limit_lem, dedup_min_limit-perm, min_limit, IsSorted,
}
use llm_gateway.RateLimit.Apply.{
  Event, arrive, finish, idle, run, half, round_half_even, retry_secs, apply_concurrency_limits,
}
use llm_gateway.RateLimit.Apply.Balance.{IsBalanced, run-idle-IsBalanced, held}
use llm_gateway.RateLimit.Apply.Capacity.{Within, in_flight-le-cap}
use llm_gateway.RateLimit.Apply.Admission.{
  Answers, drop_guard-try_acquire, apply_concurrency_limits_lem,
}
use llm_gateway.RateLimit.Apply.Seconds.{retry_secs_lem}
use mathlib.Core.List.{Permᴰ}

abbrev templates : MessageTemplates
templates = record { concurrency_text = []; model_denied_text = [] }

abbrev rule : RateRule
rule = record { scope = codes "user"; scope_id = none; model = none; concurrency = pos 2 }

abbrev caller : Caller
caller = record { user_id = some (pos 7); key_id = none }

abbrev gpt : Text
gpt = codes "gpt-4o"

abbrev key : Text
key = codes "user:7"

abbrev two_come : List Event
two_come =
    arrive (rule ∷ []) caller gpt
    ∷ arrive (rule ∷ []) caller gpt
    ∷ arrive (rule ∷ []) caller gpt
    ∷ []

abbrev come_and_go : List Event
come_and_go = arrive (rule ∷ []) caller gpt ∷ finish 0 ∷ []

abbrev rules : List (Text × ℤ)
rules = (key, pos 2) ∷ (codes "global", pos 5) ∷ (key, pos 1) ∷ []

limit_is_2 : Within key 2 (arrive (rule ∷ []) caller gpt)
unfolding matched_rules bucket_of min_limit show_ℤ
limit_is_2 l e = ground (arith, e)

in_flight-le-cap_example :
    (held key (run templates 100 30 idle two_come).guards ≤ 2)
    × (active_in (run templates 100 30 idle two_come).counts key ≤ 2)
in_flight-le-cap_example =
    in_flight-le-cap templates 100 30 key 2 two_come (limit_is_2, (limit_is_2, (limit_is_2, tt)))

run-idle-IsBalanced_example : IsBalanced (run templates 100 30 idle two_come)
run-idle-IsBalanced_example = run-idle-IsBalanced templates 100 30 two_come

bucket_is_key : bucket_of rule caller gpt ≡ some key
unfolding bucket_of show_ℤ
bucket_is_key = refl

bucket_of-injective_example :
    (rule.scope ≡ rule.scope) × (rule.model ≡ rule.model) × SameSubject rule caller caller
bucket_of-injective_example =
    bucket_of-injective rule rule caller caller gpt gpt key bucket_is_key bucket_is_key

dedup_min_limit_lem_example :
    ((k : Text) → lookup k (dedup_min_limit rules) ≡ min_limit k rules)
    × IsSorted (dedup_min_limit rules)
dedup_min_limit_lem_example = dedup_min_limit_lem rules

dedup_min_limit-perm_example :
    dedup_min_limit rules
    ≡ dedup_min_limit ((codes "global", pos 5) ∷ (key, pos 2) ∷ (key, pos 1) ∷ [])
dedup_min_limit-perm_example =
    dedup_min_limit-perm rules ((codes "global", pos 5) ∷ (key, pos 2) ∷ (key, pos 1) ∷ [])
      ∣ Permᴰ.swap refl refl ∣₁

apply_concurrency_limits_lem_example :
    Answers templates
      ((key, 2) ∷ [])
      (filter is_limited (matched_rules (rule ∷ []) caller gpt))
      key
      (apply_concurrency_limits templates 100 30 (rule ∷ []) caller gpt ((key, 2) ∷ []))
apply_concurrency_limits_lem_example =
    apply_concurrency_limits_lem templates 100 30 (rule ∷ []) caller gpt ((key, 2) ∷ []) key
      (omega arith)

acquired : try_acquire [] ((key, pos 2) ∷ []) ≡ ok (record { keys = key ∷ [] }) ((key, 1) ∷ [])
unfolding try_acquire find_full take_places lookup insert
acquired = refl

drop_guard-try_acquire_example :
    active_in (drop_guard ((key, 1) ∷ []) (key ∷ [])) key ≡ active_in [] key
drop_guard-try_acquire_example =
    drop_guard-try_acquire [] ((key, 1) ∷ []) ((key, pos 2) ∷ []) (record { keys = key ∷ [] }) tt
      acquired key

-- A jitter of `2 ^ -52` above a half is rounded to a half.
retry_secs_lem_example :
    retry_secs (8 * half) (4 * half + 1)
    ≡ (if leb (2 * ((4 * half + 1) * (2 * half))) (8 * half * (2 * half + 1)) then 6 else 7)
retry_secs_lem_example = retry_secs_lem (8 * half) (4 * half + 1) (omega arith)

rounded_down : retry_secs (8 * half) (4 * half + 1) ≡ 6
unfolding retry_secs round_half_even
rounded_down = refl
