-- ===== src/Plans/Runtime/Resolve.antt =====
-- src/store/plans.rs: `resolve_plan` picks a plan that stands now and covers the model, and none
-- that does so is above it.
use llm_gateway.Prelude.{
  ℕ, ◌≡◌, refl, ◌∙◌, subst, Option, none, some, Bool, true, false, List, [], ◌∷◌, arith,
  if◌then◌else◌, filter, ◌⊎◌, inl, inr, Bool-cases, All,
}
use llm_gateway.Prelude.Int.{ℤ, ℤ_Eq}
use llm_gateway.Prelude.Map.{Map, lookup}
use llm_gateway.Prelude.Text.{Text}
use llm_gateway.Plans.Runtime.{
  PlanRuntime, is_candidate, plan_key, leb_key, max_from, max_by_key, resolve_among, resolve_plan,
}

leb_key_refl : (a : ℕ × ℤ × ℤ) → leb_key a a ≡ true
leb_key_refl (a, b, c) = ground arith

leb_key_trans : (a b c : ℕ × ℤ × ℤ) → leb_key a b ≡ true → leb_key b c ≡ true → leb_key a c ≡ true
leb_key_trans (a, b, c) (x, y, z) (u, v, w) h k = ground arith

leb_key_total : (a b : ℕ × ℤ × ℤ) → leb_key a b ≡ false → leb_key b a ≡ true
leb_key_total (a, b, c) (x, y, z) h = ground arith

-- `p` stands in the list.
abbrev pub IsIn : PlanRuntime → List PlanRuntime → Type 0
IsIn p [] = ⊥
IsIn p (q ∷ qs) = (p ≡ q) ⊎ IsIn p qs

-- No plan of the list is above `p` in the order by scope, priority and id.
abbrev IsTop : Option Text → PlanRuntime → List PlanRuntime → Type 0
IsTop model p = All (λ q. leb_key (plan_key model q) (plan_key model p) ≡ true)

-- Of a list, the plans that are candidates.
abbrev pub IsTopCandidate : ℕ → Option Text → PlanRuntime → List PlanRuntime → Type 0
IsTopCandidate local_now model p = All (λ q.
    is_candidate local_now model q ≡ true → leb_key (plan_key model q) (plan_key model p) ≡ true)

-- What `max_from` promises of its result `r`.
abbrev IsMaxFrom : Option Text → PlanRuntime → List PlanRuntime → PlanRuntime → Type 0
IsMaxFrom model best ps r =
    (leb_key (plan_key model best) (plan_key model r) ≡ true)
    × IsTop model r ps
    × ((r ≡ best) ⊎ IsIn r ps)

IsMaxFrom-step :
    (model : Option Text) (best p next r : PlanRuntime) (ps : List PlanRuntime)
    → next ≡ (if leb_key (plan_key model best) (plan_key model p) then p else best)
    → IsMaxFrom model next ps r
    → IsMaxFrom model best (p ∷ ps) r
IsMaxFrom-step model best p next r ps e v =
    elim (Bool-cases (leb_key (plan_key model best) (plan_key model p))) [
      | inl h ↦
          let q : next ≡ p = cc in
          let t : leb_key (plan_key model p) (plan_key model r) ≡ true =
            subst (λ n. leb_key (plan_key model n) (plan_key model r) ≡ true) q v.0 in
          (
            leb_key_trans (plan_key model best) (plan_key model p) (plan_key model r) h t,
            (t, v.1),
            elim (v.2) [ inl i ↦ inr (inl (i ∙ q)) | inr i ↦ inr (inr i) ],
          )
      | inr h ↦
          let q : next ≡ best = cc in
          let t : leb_key (plan_key model best) (plan_key model r) ≡ true =
            subst (λ n. leb_key (plan_key model n) (plan_key model r) ≡ true) q v.0 in
          (
            t,
            (
              leb_key_trans (plan_key model p) (plan_key model best) (plan_key model r)
                  (leb_key_total (plan_key model best) (plan_key model p) h) t,
              v.1,
            ),
            elim (v.2) [ inl i ↦ inl (i ∙ q) | inr i ↦ inr (inr i) ],
          )
    ]

max_from_lem :
    (model : Option Text) (best : PlanRuntime) (ps : List PlanRuntime)
    → IsMaxFrom model best ps (max_from model best ps)
unfolding max_from
max_from_lem model best [] = (leb_key_refl (plan_key model best), tt, inl refl)
max_from_lem model best (p ∷ ps) =
    IsMaxFrom-step model best p _ _ ps refl
      (max_from_lem model (if leb_key (plan_key model best) (plan_key model p) then p else best) ps)

max_by_key_lem :
    (model : Option Text) (ps : List PlanRuntime) (r : PlanRuntime)
    → max_by_key model ps ≡ some r
    → IsIn r ps × IsTop model r ps
unfolding max_by_key
max_by_key_lem model [] r e = ground arith
max_by_key_lem model (p ∷ ps) r e =
    let v : IsMaxFrom model p ps r =
      subst (IsMaxFrom model p ps) (ground arith) (max_from_lem model p ps) in
    (elim (v.2) [ inl i ↦ inl i | inr i ↦ inr i ], (v.0, v.1))

IsIn-filter :
    (f : PlanRuntime → Bool) (r : PlanRuntime) (ps : List PlanRuntime)
    → IsIn r (filter f ps)
    → IsIn r ps × (f r ≡ true)
IsIn-filter f r [] i = absurd i
IsIn-filter f r (p ∷ ps) i = elim (Bool-cases (f p)) [
  | inl h ↦ ground (arith, h, i, IsIn-filter f r ps)
  | inr h ↦ ground (arith, h, i, IsIn-filter f r ps)
]

IsTop-filter :
    (now : ℕ) (model : Option Text) (r : PlanRuntime) (ps : List PlanRuntime)
    → IsTop model r (filter (is_candidate now model) ps)
    → IsTopCandidate now model r ps
IsTop-filter now model r [] i = tt
IsTop-filter now model r (p ∷ ps) i = elim (Bool-cases (is_candidate now model p)) [
  | inl h ↦ ground (arith, h, i, IsTop-filter now model r ps)
  | inr h ↦ ground (arith, h, i, IsTop-filter now model r ps)
]

filter-none :
    (now : ℕ) (model : Option Text) (ps : List PlanRuntime)
    → max_by_key model (filter (is_candidate now model) ps) ≡ none
    → All (λ q. is_candidate now model q ≡ false) ps
unfolding max_by_key
filter-none now model [] e = tt
filter-none now model (p ∷ ps) e = elim (Bool-cases (is_candidate now model p)) [
  | inl h ↦ ground (arith, h, e)
  | inr h ↦ ground (arith, h, e, filter-none now model ps)
]

resolve_among_lem :
    (now : ℕ) (model : Option Text) (ps : List PlanRuntime) (r : PlanRuntime)
    → resolve_among now model (some ps) ≡ some r
    → IsIn r ps × (is_candidate now model r ≡ true) × IsTopCandidate now model r ps
unfolding resolve_among
resolve_among_lem now model ps r e =
    let v = max_by_key_lem model (filter (is_candidate now model) ps) r e in
    let i = IsIn-filter (is_candidate now model) r ps v.0 in
    (i.0, i.1, IsTop-filter now model r ps v.1)

-- A plan that is resolved is one of the user's, stands now and covers the model, and no other that
-- does so is above it in the order by scope, priority and id.
pub resolve_plan-IsTopCandidate :
    (plans : Map ℤ (List PlanRuntime)) (user_id : ℤ) (now : ℕ) (model : Option Text)
    (ps : List PlanRuntime) (r : PlanRuntime)
    → lookup user_id plans ≡ some ps
    → resolve_plan plans user_id now model ≡ some r
    → IsIn r ps × (is_candidate now model r ≡ true) × IsTopCandidate now model r ps
unfolding resolve_plan resolve_among
resolve_plan-IsTopCandidate plans user_id now model ps r l e = resolve_among_lem now model ps r cc

-- No plan is resolved only where none of the user's stands now and covers the model.
resolve_plan-none :
    (plans : Map ℤ (List PlanRuntime)) (user_id : ℤ) (now : ℕ) (model : Option Text)
    (ps : List PlanRuntime)
    → lookup user_id plans ≡ some ps
    → resolve_plan plans user_id now model ≡ none
    → All (λ q. is_candidate now model q ≡ false) ps
unfolding resolve_plan resolve_among
resolve_plan-none plans user_id now model ps l e = filter-none now model ps cc
