-- ===== src/Proxy/Active.antt =====
-- src/service/proxy.rs: `UserActiveGuard`, which counts the requests in flight of each user and model.
pub mod Counted
use llm_gateway.Prelude.{ℕ, ◌+◌, ◌-◌, Option, none, some, List, [], ltb}
use llm_gateway.Prelude.Eq.{List_Eq, ℕ_Eq, Pair_Eq}
use llm_gateway.Prelude.Int.{ℤ, ℤ_Eq}
use llm_gateway.Prelude.Map.{Map, lookup, insert, modify, retain}
use llm_gateway.Prelude.Text.{Text}

-- (user_id, model) → the number of requests
abbrev pub ActiveByUser : Type 0
ActiveByUser = Map (ℤ × Text) ℕ

abbrev or_none_active : Option ℕ → ℕ
or_none_active none = 0
or_none_active (some n) = n

abbrev pub active_of : ActiveByUser → ℤ × Text → ℕ
active_of counts key = or_none_active (lookup key counts)

-- The key of a guard: a request without a model counts under the empty text.
abbrev pub guard_key : ℤ → Option Text → ℤ × Text
guard_key user_id none = (user_id, [])
guard_key user_id (some model) = (user_id, model)

-- `UserActiveGuard::enter`: the guard is its key.
unfoldable pub enter : ActiveByUser → ℤ → Option Text → (ℤ × Text) × ActiveByUser
enter counts user_id model =
    let key = guard_key user_id model in (key, insert key (active_of counts key + 1) counts)

-- `Drop for UserActiveGuard`
unfoldable pub leave : ActiveByUser → ℤ × Text → ActiveByUser
leave counts key = retain (λ c. ltb 0 c) (modify key (λ c. c - 1) counts)
