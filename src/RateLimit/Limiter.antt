-- ===== src/RateLimit/Limiter.antt =====
-- src/service/ratelimit.rs: `dedup_min_limit`, `ConcurrencyLimiter` and the guard that gives its places
-- back when it is dropped. Both hold the table's lock for a whole call, so a call is one step.
-- A count is an i64 that no run can overflow or take below zero while it is kept, so it is an ℕ here:
-- a decrement that would go below zero stops at zero, and `retain` drops the entry in both cases.
pub mod Dedup
use llm_gateway.Prelude.{
  ℕ, ◌+◌, ◌-◌, Option, none, some, Bool, not, List, [], ◌∷◌, map, filter, ltb, if◌then◌else◌,
}
use llm_gateway.Prelude.Eq.{◌==◌, List_Eq, ℕ_Eq}
use llm_gateway.Prelude.Int.{ℤ, pos, ltb_ℤ, leb_ℤ}
use llm_gateway.Prelude.Text.{Text, ltb_text}
use llm_gateway.Prelude.Map.{Map, lookup, insert, modify, retain}

-- One round of the loop over a `BTreeMap`, whose entries stand in the order of their keys.
unfoldable pub upsert_min : Text → ℤ → List (Text × ℤ) → List (Text × ℤ)
upsert_min key limit [] = (key, limit) ∷ []
upsert_min key limit ((k, e) ∷ m) =
    if key == k
    then (k, (if ltb_ℤ limit e then limit else e)) ∷ m
    else if ltb_text key k
    then (key, limit) ∷ (k, e) ∷ m
    else (k, e) ∷ upsert_min key limit m

dedup_from : List (Text × ℤ) → List (Text × ℤ) → List (Text × ℤ)
dedup_from m [] = m
dedup_from m ((key, limit) ∷ rules) = dedup_from (upsert_min key limit m) rules

unfoldable pub dedup_min_limit : List (Text × ℤ) → List (Text × ℤ)
unfolding dedup_from
dedup_min_limit rules = dedup_from [] rules

abbrev pub Counts : Type 0
Counts = Map Text ℕ

-- `counts.get(key).copied().unwrap_or(0)`, which is also the method `active_in`.
abbrev pub or_zero : Option ℕ → ℕ
or_zero none = 0
or_zero (some c) = c

abbrev pub active_in : Counts → Text → ℕ
active_in counts key = or_zero (lookup key counts)

pub record Guard : Type 0 where
  pub keys : List Text

abbrev pub is_limited : Text × ℤ → Bool
is_limited (key, limit) = ltb_ℤ (pos 0) limit

-- The first loop of `try_acquire`: the first limited bucket that is full.
unfoldable pub find_full : Counts → List (Text × ℤ) → Option (Text × ℤ)
find_full counts [] = none
find_full counts ((key, limit) ∷ rules) =
    let rest = find_full counts rules in
    if leb_ℤ limit (pos 0)
    then rest
    else if leb_ℤ limit (pos (active_in counts key))
    then some (key, limit)
    else rest

unfoldable pub take_places : Counts → List Text → Counts
take_places counts [] = counts
take_places counts (key ∷ keys) = take_places (insert key (active_in counts key + 1) counts) keys

pub data Acquired : Type 0 where
  ok : Guard → Counts → Acquired
  err : Text × ℤ → Acquired

-- A refusal leaves the table as it was.
unfoldable pub try_acquire : Counts → List (Text × ℤ) → Acquired
try_acquire counts rules =
    let keys = map (λ r. r.0) (filter is_limited rules) in
    elim (find_full counts rules) [
      | some full ↦ err full
      | none ↦ ok (record { keys = keys }) (take_places counts keys)
    ]

unfoldable pub give_back : Counts → List Text → Counts
give_back counts [] = counts
give_back counts (key ∷ keys) = give_back (modify key (λ c. c - 1) counts) keys

-- `Drop for ConcurrencyGuard`
unfoldable pub drop_guard : Counts → List Text → Counts
drop_guard counts [] = counts
drop_guard counts (key ∷ keys) = retain (λ c. ltb 0 c) (give_back counts (key ∷ keys))
