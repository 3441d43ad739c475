-- ===== src/Plans/Usage/Counts.antt =====
-- src/service/usage.rs: what the cache says a plan has spent.
use llm_gateway.Prelude.{
  ℕ, ◌≡◌, Option, none, some, Bool, true, false, List, [], ◌∷◌, ◌+◌, ◌≤◌, min, arith, if◌then◌else◌,
  ◌&&◌, Bool-cases, inl, inr, All,
}
use llm_gateway.Prelude.Eq.{◌==◌, List_Eq, ℕ_Eq, Pair_Eq, list_beq, list_beq_iff, list_beq_refl}
use llm_gateway.Prelude.Int.{ℤ, pos, ℤ_Eq, ◌+ℤ◌, ◌≤ℤ◌, beq_ℤ, beq_ℤ_iff}
use llm_gateway.Prelude.Map.{lookup, lookup-insert}
use llm_gateway.Prelude.Text.{Text}
use llm_gateway.Plans.Usage.{
  UsageCache, saturating_add, used_in, added, get_plan, incr_plan, max_i64,
}

-- `plan_id` and `user_id` name one entry of the cache.
abbrev same_entry : ℤ → ℤ → ℤ → ℤ → Bool
same_entry user_id plan_id u p = beq_ℤ user_id u && beq_ℤ plan_id p

used_in-added :
    (o : Option (Text × ℤ)) (period_key k : Text) (t : ℤ)
    → pos 0 ≤ℤ t
    → t ≤ℤ max_i64
    → used_in k (some (added period_key t o))
      ≡ (if list_beq period_key k then saturating_add (used_in period_key o) t else pos 0)
unfolding used_in added saturating_add ◌+ℤ◌
used_in-added none period_key k t h l = ground arith
used_in-added (some (j, v)) period_key k t h l =
    ground (arith, list_beq_iff j period_key, list_beq_iff period_key k, list_beq_iff j k)

-- An increment adds to what its plan has spent in its window, and starts it anew on a new window;
-- no other plan and no other user's count moves.
get_plan-incr_plan :
    (cache : UsageCache) (user_id plan_id u p t : ℤ) (period_key k : Text)
    → pos 0 ≤ℤ t
    → t ≤ℤ max_i64
    → get_plan (incr_plan cache user_id plan_id period_key t) u p k ≡ (
        if same_entry user_id plan_id u p
        then if period_key == k
          then saturating_add (get_plan cache user_id plan_id period_key) t
          else pos 0
        else get_plan cache u p k)
unfolding get_plan incr_plan
get_plan-incr_plan cache user_id plan_id u p t period_key k h l =
    let e =
      lookup-insert (user_id, plan_id) (u, p) (added period_key t (lookup (user_id, plan_id) cache))
        cache in
    ground (arith, e, used_in-added (lookup (user_id, plan_id) cache) period_key k t h l)

-- A bill of the window `k`: whose, of which plan, and its tokens.
pub record Bill : Type 0 where
  pub user_id : ℤ
  pub plan_id : ℤ
  pub tokens : ℕ

abbrev pub bill_all : UsageCache → Text → List Bill → UsageCache
bill_all cache k [] = cache
bill_all cache k (b ∷ bs) = bill_all (incr_plan cache b.user_id b.plan_id k (pos b.tokens)) k bs

abbrev pub spent : ℤ → ℤ → List Bill → ℕ
spent u p [] = 0
spent u p (b ∷ bs) =
    if same_entry b.user_id b.plan_id u p then b.tokens + spent u p bs else spent u p bs

abbrev i64_limit : ℕ
i64_limit = 9_223_372_036_854_775_807

saturating_add_pos : (m n : ℕ) → saturating_add (pos m) (pos n) ≡ pos (min i64_limit (m + n))
unfolding saturating_add ◌+ℤ◌
saturating_add_pos m n = ground arith

bill_step :
    (b : Bill) (cache : UsageCache) (u p : ℤ) (k : Text) (n : ℕ)
    → b.tokens ≤ i64_limit
    → n ≤ i64_limit
    → get_plan cache u p k ≡ pos n
    → (same_entry b.user_id b.plan_id u p ≡ true
        → get_plan (incr_plan cache b.user_id b.plan_id k (pos b.tokens)) u p k
          ≡ pos (min i64_limit (n + b.tokens)))
      × (same_entry b.user_id b.plan_id u p ≡ false
          → get_plan (incr_plan cache b.user_id b.plan_id k (pos b.tokens)) u p k ≡ pos n)
bill_step b cache u p k n v l e =
    let i =
      get_plan-incr_plan cache b.user_id b.plan_id u p (pos b.tokens) k k (omega arith)
        (omega (arith, v)) in
    (
      λ s.
          let q : b.user_id ≡ u = (beq_ℤ_iff b.user_id u).0 (ground (arith, s)) in
          let r : b.plan_id ≡ p = (beq_ℤ_iff b.plan_id p).0 (ground (arith, s)) in
          let g : get_plan cache b.user_id b.plan_id k ≡ pos n = cc in
          ground (arith, i, s, g, list_beq_refl k, saturating_add_pos n b.tokens),
      λ s. ground (arith, i, s, e),
    )

-- Bills of one window, of whatever users and plans in whatever order and each of at most the
-- greatest 64-bit number, add up: a user's plan has then spent what it had spent before and its own
-- bills, up to the greatest 64-bit number.
pub get_plan-bill_all :
    (bs : List Bill) (cache : UsageCache) (u p : ℤ) (k : Text) (n : ℕ)
    → All (λ b. b.tokens ≤ i64_limit) bs
    → n ≤ i64_limit
    → get_plan cache u p k ≡ pos n
    → get_plan (bill_all cache k bs) u p k ≡ pos (min i64_limit (n + spent u p bs))
get_plan-bill_all [] cache u p k n v l e = ground (arith, e)
get_plan-bill_all (b ∷ bs) cache u p k n v l e =
    let next = bill_step b cache u p k n v.0 l e in
    let rest = get_plan-bill_all bs (incr_plan cache b.user_id b.plan_id k (pos b.tokens)) u p k in
    elim (Bool-cases (same_entry b.user_id b.plan_id u p)) [
      | inl s ↦ ground (arith, rest (min i64_limit (n + b.tokens)) v.1 (omega arith) (next.0 s), s)
      | inr s ↦ ground (arith, rest n v.1 l (next.1 s), s)
    ]
