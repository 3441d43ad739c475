-- ===== src/Proxy/Candidates/Selected.antt =====
-- What holds of every upstream that a request may be sent to.
use llm_gateway.Prelude.{
  ◌≡◌, ◌≢◌, refl, ◌⊎◌, inl, inr, Option, some, Bool, true, false, not, List, [], ◌∷◌, ◌++◌, All,
  All-append, All-mono, arith, any, find, filter, Bool-cases, Option-cases,
}
use llm_gateway.Prelude.Eq.{List_Eq, ℕ_Eq}
use llm_gateway.Prelude.Int.{ℤ, ℤ_Eq, beq_ℤ, beq_ℤ_iff}
use llm_gateway.Prelude.Text.{Text}
use llm_gateway.Routing.{ModelRoute, Provider, model_disabled}
use llm_gateway.Proxy.Candidates.{
  Endpoint, Gateway, push_provider, push_all, resolve_candidates, pairing_unsupported,
  outbound_model, Refusal, no_provider, model_is_disabled, unsupported_pairing, Selection, selected,
  require_some, may_use, select_from,
}

-- The ids of the list are different.
abbrev pub IsDistinct : List Provider → Type 0
IsDistinct [] = Unit {0}
IsDistinct (p ∷ ps) = All (λ q. q.id ≢ p.id) ps × IsDistinct ps

module _ (P : Provider → Type 0) where
  All-filter :
      (test : Provider → Bool) (ps : List Provider)
      → All P ps
      → All (λ p. P p × (test p ≡ true)) (filter test ps)
  All-filter test [] a = tt
  All-filter test (p ∷ ps) a = elim (Bool-cases (test p)) [
    | inl keep ↦ rw keep ((a.0, keep), All-filter test ps a.1)
    | inr skip ↦ rw skip (All-filter test ps a.1)
  ]

  All-filter_self :
      (test : Provider → Bool) (ps : List Provider) → All P ps → All P (filter test ps)
  All-filter_self test [] a = tt
  All-filter_self test (p ∷ ps) a = elim (Bool-cases (test p)) [
    | inl keep ↦ rw keep (a.0, All-filter_self test ps a.1)
    | inr skip ↦ rw skip (All-filter_self test ps a.1)
  ]

filter-IsDistinct :
    (test : Provider → Bool) (ps : List Provider) → IsDistinct ps → IsDistinct (filter test ps)
filter-IsDistinct test [] d = tt
filter-IsDistinct test (p ∷ ps) d = elim (Bool-cases (test p)) [
  | inl keep ↦ rw keep (All-filter_self _ test ps d.0, filter-IsDistinct test ps d.1)
  | inr skip ↦ rw skip (filter-IsDistinct test ps d.1)
]

append-IsDistinct :
    (ps : List Provider) (p : Provider)
    → IsDistinct ps
    → any (λ l. beq_ℤ l.id p.id) ps ≡ false
    → IsDistinct (ps ++ p ∷ [])
append-IsDistinct [] p d none_same = (tt, tt)
append-IsDistinct (q ∷ ps) p d none_same = (
  All-append _ ps (p ∷ []) d.0 ((λ e. ground (arith, beq_ℤ_iff q.id p.id)), tt),
  append-IsDistinct ps p d.1 (ground arith),
)

-- The provider is enabled, and the route names it.
abbrev HasId : ℤ → List ℤ → Type 0
HasId id [] = ⊥
HasId id (i ∷ ids) = (i ≡ id) ⊎ HasId id ids

abbrev IsListed : Provider → List Provider → Type 0
IsListed p [] = ⊥
IsListed p (q ∷ qs) = (q ≡ p) ⊎ IsListed p qs

find-IsListed :
    (id : ℤ) (providers : List Provider) (p : Provider)
    → find (λ q. beq_ℤ q.id id) providers ≡ some p
    → IsListed p providers × (p.id ≡ id)
find-IsListed id [] p e = cc
find-IsListed id (q ∷ qs) p e = elim (Bool-cases (beq_ℤ q.id id)) [
  | inl hit ↦ (inl (ground arith), ground (arith, beq_ℤ_iff q.id id))
  | inr miss ↦ let (listed, same) = find-IsListed id qs p (ground arith) in (inr listed, same)
]

module _ (providers : List Provider) (named : List ℤ) where
  abbrev IsCandidate : Provider → Type 0
  IsCandidate p = IsListed p providers × HasId p.id named

  push_provider-IsDistinct :
      (list : List Provider) (id : ℤ)
      → IsDistinct list
      → IsDistinct (push_provider providers list id)
  unfolding push_provider
  push_provider-IsDistinct list id d = elim (Option-cases (find (λ p. beq_ℤ p.id id) providers)) [
    | inl e ↦ rw (e, push_provider) d
    | inr (p, e) ↦
        let same = (find-IsListed id providers p e).1 in
        elim (Bool-cases (any (λ l. beq_ℤ l.id id) list)) [
          | inl dup ↦ rw (e, dup, push_provider) d
          | inr new ↦ rw (e, new, push_provider) (append-IsDistinct list p d (rw same new))
        ]
  ]

  push_provider-IsCandidate :
      (list : List Provider) (id : ℤ)
      → HasId id named
      → All IsCandidate list
      → All IsCandidate (push_provider providers list id)
  unfolding push_provider
  push_provider-IsCandidate list id n a =
      elim (Option-cases (find (λ p. beq_ℤ p.id id) providers)) [
        | inl e ↦ rw (e, push_provider) a
        | inr (p, e) ↦
            let (listed, same) = find-IsListed id providers p e in
            elim (Bool-cases (any (λ l. beq_ℤ l.id id) list)) [
              | inl dup ↦ rw (e, dup, push_provider) a
              | inr new ↦
                  rw (e, new, push_provider)
                    (All-append IsCandidate list (p ∷ []) a ((listed, rw same n), tt))
            ]
      ]

  push_all-IsDistinct :
      (list : List Provider) (ids : List ℤ)
      → IsDistinct list
      → IsDistinct (push_all providers list ids)
  unfolding push_all
  push_all-IsDistinct list [] d = d
  push_all-IsDistinct list (id ∷ ids) d =
      push_all-IsDistinct (push_provider providers list id) ids (push_provider-IsDistinct list id d)

  push_all-IsCandidate :
      (list : List Provider) (ids : List ℤ)
      → ((id : ℤ) → HasId id ids → HasId id named)
      → All IsCandidate list
      → All IsCandidate (push_all providers list ids)
  unfolding push_all
  push_all-IsCandidate list [] n a = a
  push_all-IsCandidate list (id ∷ ids) n a =
      push_all-IsCandidate (push_provider providers list id) ids (λ i h. n i (inr h))
        (push_provider-IsCandidate list id (n id (inl refl)) a)

-- What the steps from the route to the candidates have asked of an upstream.
pub record IsServing (g : Gateway) (endpoint : Endpoint) (user_id : Option ℤ) (model : Text)
    (route : ModelRoute) (p : Provider) : Type 0 where
  listed : IsListed p g.providers
  named : HasId p.id (route.provider_id ∷ route.fallback_ids)
  pub enabled : model_disabled g.disabled_models p.id (outbound_model route model) ≡ false
  pub allowed : may_use g user_id model p ≡ true
  paired : pairing_unsupported endpoint p ≡ false

-- `require_some` goes on only with a list that is not empty.
require_some-eq-selected :
    (r : Refusal) (ps qs : List Provider) (next : List Provider → Selection)
    → require_some r ps next ≡ selected qs
    → next ps ≡ selected qs
unfolding require_some
require_some-eq-selected r [] qs next h = cc
require_some-eq-selected r (p ∷ ps) qs next h = h

not-eq-true : (b : Bool) → not b ≡ true → b ≡ false
not-eq-true true h = cc
not-eq-true false h = refl

module _ (g : Gateway) (endpoint : Endpoint) (user_id : Option ℤ) (model : Text)
    (route : ModelRoute) where
  abbrev found : List Provider
  found = resolve_candidates g.providers route

  abbrev enabled_of : List Provider
  enabled_of =
      filter (λ p. not (model_disabled g.disabled_models p.id (outbound_model route model))) found

  abbrev allowed_of : List Provider
  allowed_of = filter (may_use g user_id model) enabled_of

  abbrev paired_of : List Provider
  paired_of = filter (λ p. not (pairing_unsupported endpoint p)) allowed_of

  IsServing-All : All (IsServing g endpoint user_id model route) paired_of
  unfolding resolve_candidates
  IsServing-All =
      let ids = route.provider_id ∷ route.fallback_ids in
      let a = push_all-IsCandidate g.providers ids [] ids (λ i h. h) tt in
      let b =
        All-filter _ (λ p. not (model_disabled g.disabled_models p.id (outbound_model route model)))
          found a in
      let c = All-filter _ (may_use g user_id model) enabled_of b in
      let d = All-filter _ (λ p. not (pairing_unsupported endpoint p)) allowed_of c in
      All-mono _ (IsServing g endpoint user_id model route)
        (λ p h. record {
          listed = h.0.0.0.0;
          named = h.0.0.0.1;
          enabled = not-eq-true _ h.0.0.1;
          allowed = h.0.1;
          paired = not-eq-true _ h.1;
        })
        paired_of d

  paired_of-IsDistinct : IsDistinct paired_of
  unfolding resolve_candidates
  paired_of-IsDistinct = filter-IsDistinct _ allowed_of (
      filter-IsDistinct _ enabled_of (
        filter-IsDistinct _ found (
          push_all-IsDistinct g.providers (route.provider_id ∷ route.fallback_ids) []
            (route.provider_id ∷ route.fallback_ids) tt)))

  selected-eq :
      (ps : List Provider)
      → select_from g endpoint user_id model route ≡ selected ps
      → (ps ≡ paired_of) × (ps ≢ [])
  unfolding select_from require_some
  selected-eq ps h =
      let a = require_some-eq-selected no_provider found ps _ h in
      let b = require_some-eq-selected model_is_disabled enabled_of ps _ a in
      let c = require_some-eq-selected _ allowed_of ps _ b in some_selected paired_of ps c
    where
      some_selected :
          (xs ys : List Provider)
          → require_some unsupported_pairing xs selected ≡ selected ys
          → (ys ≡ xs) × (ys ≢ [])
      some_selected [] ys e = cc
      some_selected (x ∷ xs) ys e = ground arith

  -- Every upstream that the route of a request selects is enabled, named by the route as its primary
  -- or a fallback, has the model enabled in its catalog, is allowed to the user and speaks a dialect
  -- that the gateway can serve; none is selected twice, and at least one is.
  pub select_from-IsServing :
      (ps : List Provider)
      → select_from g endpoint user_id model route ≡ selected ps
      → All (IsServing g endpoint user_id model route) ps × IsDistinct ps × (ps ≢ [])
  select_from-IsServing ps h =
      let (same, some_selected) = selected-eq ps h in
      (rw same IsServing-All, rw same paired_of-IsDistinct, some_selected)
