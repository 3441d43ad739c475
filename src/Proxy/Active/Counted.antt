-- ===== src/Proxy/Active/Counted.antt =====
-- src/service/proxy.rs: what the guards of `UserActiveGuard` count.
use llm_gateway.Prelude.{
  ℕ, ◌+◌, ◌-◌, ◌≡◌, refl, ◌∙◌, ap, Option, List, [], ◌∷◌, ltb, arith, if◌then◌else◌,
}
use llm_gateway.Prelude.Eq.{List_Eq, ℕ_Eq, Pair_Eq, pair_beq, pair_beq_iff}
use llm_gateway.Prelude.Int.{ℤ, ℤ_Eq}
use llm_gateway.Prelude.Map.{
  IsMap, modify, lookup-insert, lookup-modify, lookup-retain, insert-IsMap, modify-IsMap,
  retain-IsMap,
}
use llm_gateway.Prelude.Text.{Text}
use llm_gateway.Proxy.Active.{ActiveByUser, active_of, guard_key, enter, leave}

-- A request comes in for a user and a model, or the guard with a key is dropped.
pub data Visit : Type 0 where
  enters : ℤ → Option Text → Visit
  leaves : ℤ × Text → Visit

abbrev visit : ActiveByUser → Visit → ActiveByUser
visit counts (enters user_id model) = (enter counts user_id model).1
visit counts (leaves key) = leave counts key

abbrev pub visit_all : ActiveByUser → List Visit → ActiveByUser
visit_all counts [] = counts
visit_all counts (v ∷ vs) = visit_all (visit counts v) vs

-- How many are in after the visits, by counting only the visits of the key.
abbrev pub present : ℤ × Text → ℕ → List Visit → ℕ
present key n [] = n
present key n (enters user_id model ∷ vs) =
    present key (if pair_beq (guard_key user_id model) key then n + 1 else n) vs
present key n (leaves k ∷ vs) = present key (if pair_beq k key then n - 1 else n) vs

enter-IsMap :
    (counts : ActiveByUser) (user_id : ℤ) (model : Option Text)
    → IsMap counts
    → IsMap (enter counts user_id model).1
unfolding enter
enter-IsMap counts user_id model h = insert-IsMap (guard_key user_id model) _ counts h

leave-IsMap : (counts : ActiveByUser) (key : ℤ × Text) → IsMap counts → IsMap (leave counts key)
unfolding leave
leave-IsMap counts key h = retain-IsMap _ _ (modify-IsMap key _ counts h)

active_of-enter :
    (counts : ActiveByUser) (user_id : ℤ) (model : Option Text) (key : ℤ × Text)
    → active_of (enter counts user_id model).1 key ≡ (
        if pair_beq (guard_key user_id model) key
        then active_of counts key + 1
        else active_of counts key)
unfolding enter
active_of-enter counts user_id model key = ground (
  arith,
  lookup-insert (guard_key user_id model) key (active_of counts (guard_key user_id model) + 1)
      counts,
  pair_beq_iff (guard_key user_id model) key,
)

active_of-leave :
    (counts : ActiveByUser) (k key : ℤ × Text)
    → IsMap counts
    → active_of (leave counts k) key
      ≡ (if pair_beq k key then active_of counts key - 1 else active_of counts key)
unfolding leave
active_of-leave counts k key h = ground (
  arith,
  lookup-modify k key (λ c. c - 1) counts,
  lookup-retain (λ c. ltb 0 c) key (modify k (λ c. c - 1) counts) (modify-IsMap k _ counts h),
)

-- From a table with one entry for each key, whatever requests of whatever users come and go: each user and model is counted by its own: one
-- more for each that enters and one less for each guard that is dropped.
active_of-visit_all :
    (vs : List Visit) (counts : ActiveByUser) (key : ℤ × Text)
    → IsMap counts
    → active_of (visit_all counts vs) key ≡ present key (active_of counts key) vs
active_of-visit_all [] counts key h = refl
active_of-visit_all (enters user_id model ∷ vs) counts key h =
    active_of-visit_all vs (enter counts user_id model).1 key (enter-IsMap counts user_id model h)
    ∙ ap (λ n. present key n vs) (active_of-enter counts user_id model key)
active_of-visit_all (leaves k ∷ vs) counts key h =
    active_of-visit_all vs (leave counts k) key (leave-IsMap counts k h)
    ∙ ap (λ n. present key n vs) (active_of-leave counts k key h)
