-- ===== src/Routing/Resolve.antt =====
-- Which route a model gets.
use llm_gateway.Prelude.{
  ℕ, ◌≡◌, refl, ◌⊎◌, inl, inr, none, some, Bool, true, false, List, [], ◌∷◌, ◌++◌, arith, find,
  Bool-cases, Option-cases, ◌∙◌, sym, ◌↔◌, All, subst, ap,
}
use llm_gateway.Prelude.Eq.{List_Eq, ℕ_Eq, list_beq, list_beq→eq, list_beq_iff}
use llm_gateway.Prelude.Text.{Text, starts_with, strip_suffix}
use llm_gateway.Routing.{ModelRoute, matches_pattern, resolve_route}

-- A text ends in the character that is stripped off it.
strip_suffix-eq-some : (c : ℕ) (s p : Text) → strip_suffix c s ≡ some p → s ≡ p ++ c ∷ []
strip_suffix-eq-some c [] p h = cc
strip_suffix-eq-some c (x ∷ []) p h = ground arith
strip_suffix-eq-some c (x ∷ y ∷ ys) p h = elim (Option-cases (strip_suffix c (y ∷ ys))) [
  | inl e ↦ ground arith
  | inr (q, e) ↦ let ih = strip_suffix-eq-some c (y ∷ ys) q e in ground arith
]

starts_with-append : (p s : Text) → starts_with (p ++ s) p ≡ true
starts_with-append [] [] = refl
starts_with-append [] (x ∷ s) = refl
starts_with-append (c ∷ p) s = ground (arith, starts_with-append p s)

starts_with-eq-true : (s p : Text) → starts_with s p ≡ true → (t : Text) × (s ≡ p ++ t)
starts_with-eq-true s [] h = (s, refl)
starts_with-eq-true [] (c ∷ p) h = cc
starts_with-eq-true (x ∷ s) (c ∷ p) h =
    let (t, e) = starts_with-eq-true s p (ground arith) in (t, ground arith)

strip_suffix-append : (c : ℕ) (p : Text) → strip_suffix c (p ++ c ∷ []) ≡ some p
strip_suffix-append c [] = ground arith
strip_suffix-append c (x ∷ []) = ground arith
strip_suffix-append c (x ∷ y ∷ p) = rw (strip_suffix-append c (y ∷ p))

abbrev Covers : Text → Text → Type 0
Covers pattern model =
    (pattern ≡ model) ⊎ ((p : Text) × (t : Text) × (pattern ≡ p ++ b'*' ∷ []) × (model ≡ p ++ t))

plain-Covers :
    (pattern model : Text)
    → strip_suffix b'*' pattern ≡ none
    → Covers pattern model
    → list_beq pattern model ≡ true
plain-Covers pattern model plain (inl e) = (list_beq_iff pattern model).1 e
plain-Covers pattern model plain (inr (p, t, e, _)) =
    cc (plain, ap (strip_suffix b'*') e, strip_suffix-append b'*' p)

star-Covers :
    (pattern model p : Text)
    → strip_suffix b'*' pattern ≡ some p
    → Covers pattern model
    → starts_with model p ≡ true
star-Covers pattern model p e (inl same) =
    let ends = strip_suffix-eq-some b'*' pattern p e in
    subst (λ m. starts_with m p ≡ true) (sym ends ∙ same) (starts_with-append p (b'*' ∷ []))
star-Covers pattern model p e (inr (q, t, ends, begins)) =
    let same : p ≡ q = cc (e, ap (strip_suffix b'*') ends, strip_suffix-append b'*' q) in
    subst (λ m. starts_with m p ≡ true) (sym (cc (same, begins))) (starts_with-append p t)

-- A pattern matches exactly the model of its own spelling and, if it ends in `*`, every model that
-- begins with what stands before the `*`.
matches_pattern_iff :
    (pattern model : Text)
    → (matches_pattern pattern model ≡ true) ↔ (
        (pattern ≡ model)
        ⊎ ((p : Text) × (t : Text) × (pattern ≡ p ++ b'*' ∷ []) × (model ≡ p ++ t)))
unfolding matches_pattern
matches_pattern_iff pattern model = elim (Option-cases (strip_suffix b'*' pattern)) [
  | inl plain ↦ (
    λ h. inl (list_beq→eq pattern model (rw (plain, matches_pattern) at h)),
    λ h. rw (plain, matches_pattern) (plain-Covers pattern model plain h),
  )
  | inr (p, e) ↦ (
    λ h.
        let (t, begins) = starts_with-eq-true model p (rw (e, matches_pattern) at h) in
        inr (p, t, strip_suffix-eq-some b'*' pattern p e, begins),
    λ h. rw (e, matches_pattern) (star-Covers pattern model p e h),
  )
]

-- The first entry of the list that passes the test.
abbrev pub IsFirst : (ModelRoute → Bool) → List ModelRoute → ModelRoute → Type 0
IsFirst test routes r =
    (before : List ModelRoute) × (after : List ModelRoute) × (routes ≡ before ++ r ∷ after)
    × All (λ b. test b ≡ false) before
    × (test r ≡ true)

find_cases :
    (test : ModelRoute → Bool) (routes : List ModelRoute)
    → ((find test routes ≡ none) × All (λ b. test b ≡ false) routes)
      ⊎ ((r : ModelRoute) × (find test routes ≡ some r) × IsFirst test routes r)
find_cases test [] = inl (refl, tt)
find_cases test (r ∷ routes) = elim (Bool-cases (test r)) [
  | inl hit ↦ inr (r, ground arith, ([], routes, refl, tt, hit))
  | inr miss ↦ elim (find_cases test routes) [
    | inl (e, none_hit) ↦ inl (ground arith, (miss, none_hit))
    | inr (s, e, (before, after, split, misses, hit)) ↦
        inr (s, ground arith, (r ∷ before, after, ap (λ l. r ∷ l) split, (miss, misses), hit))
  ]
]

-- The first route that spells the model out wins over every pattern; without one it is the first
-- route whose pattern matches; and a model that no pattern matches has no route.
pub resolve_route_lem :
    (routes : List ModelRoute) (model : Text)
    → ((r : ModelRoute) × (resolve_route routes model ≡ some r)
        × IsFirst (λ b. list_beq b.model_pattern model) routes r)
      ⊎ (((r : ModelRoute) × (resolve_route routes model ≡ some r)
            × All (λ b. list_beq b.model_pattern model ≡ false) routes
            × IsFirst (λ b. matches_pattern b.model_pattern model) routes r)
          ⊎ ((resolve_route routes model ≡ none)
              × All (λ b. matches_pattern b.model_pattern model ≡ false) routes))
unfolding resolve_route
resolve_route_lem routes model = elim (find_cases (λ b. list_beq b.model_pattern model) routes) [
  | inr (r, e, first) ↦ inl (r, rw (e, resolve_route), first)
  | inl (e, no_exact) ↦ elim (find_cases (λ b. matches_pattern b.model_pattern model) routes) [
    | inr (r, f, first) ↦ inr (inl (r, rw (e, f, resolve_route), no_exact, first))
    | inl (f, no_match) ↦ inr (inr (rw (e, f, resolve_route), no_match))
  ]
]
