-- ===== src/Outbound/Rectify/Raised.antt =====
-- src/service/rectify.rs: the thinking budget and the tokens of the answer after they are raised.
use llm_gateway.Prelude.{
  ℕ, ◌≤◌, ◌≡◌, ◌≢◌, refl, sym, ap, subst, ◌∙◌, ◌⊎◌, inl, inr, Option, none, some, true, false,
  if◌then◌else◌, if_both, arith, Bool-cases,
}
use llm_gateway.Prelude.Eq.{List_Eq, ℕ_Eq, list_beq}
use llm_gateway.Prelude.Text.{Text, codes}
use llm_gateway.Json.{Value, null, boolean, number, string, arr, obj, Fields, get, with_key}
use llm_gateway.Json.Laws.{get-with_key}
use llm_gateway.Outbound.Rectify.{thinking_enabled, enabled_in}
use llm_gateway.Outbound.Rectify.Budget.{
  below, max_tokens_of, budget_of, raise_budget, raise_max_tokens, raise_enabled,
  raise_thinking_budget,
}

-- A number is there, and is not less than the limit.
abbrev pub AtLeast : ℕ → Option ℕ → Type 0
AtLeast limit none = ⊥
AtLeast limit (some n) = limit ≤ n

below-AtLeast : (o : Option ℕ) (limit : ℕ) → below o limit ≡ false → AtLeast limit o
below-AtLeast none limit h = ground (arith, h)
below-AtLeast (some n) limit h = ground (arith, h)

module _ {N : Type 0} where
  -- A value that has a key is an object.
  keyed : (k : Text) (v : Value N) → get k v ≢ none → (fs : Fields N) × (v ≡ obj fs)
  unfolding get
  keyed k (obj fs) h = (fs, refl)
  keyed k null h = absurd (h refl)
  keyed k (boolean b) h = absurd (h refl)
  keyed k (number n) h = absurd (h refl)
  keyed k (string s) h = absurd (h refl)
  keyed k (arr vs) h = absurd (h refl)

  -- A request whose thinking is on is an object that holds one.
  abbrev Enabled : Value N → Type 0
  Enabled body =
      (fs : Fields N) × ((ts : Fields N) × ((body ≡ obj fs)
          × ((get (codes "thinking") body ≡ some (obj ts)) × (enabled_in (some (obj ts)) ≡ true))))

  typed : (t : Value N) → enabled_in (some t) ≡ true → get (codes "type") t ≢ none
  typed t h e = ground (arith, h, e)

  enabled_in-Enabled :
      (body : Value N) (o : Option (Value N))
      → get (codes "thinking") body ≡ o
      → enabled_in o ≡ true
      → Enabled body
  enabled_in-Enabled body none e h = ground (arith, h)
  enabled_in-Enabled body (some t) e h =
      let (ts, is_object) = keyed (codes "type") t (typed t h) in
      let (fs, is_request) = keyed (codes "thinking") body (λ n. ground (arith, e, n)) in
      (
        fs,
        (
          ts,
          (
            is_request,
            (e ∙ ap some is_object, subst (λ v. enabled_in (some v) ≡ true) is_object h),
          ),
        ),
      )

  thinking_enabled-Enabled : (body : Value N) → thinking_enabled body ≡ true → Enabled body
  unfolding thinking_enabled
  thinking_enabled-Enabled body h = enabled_in-Enabled body (get (codes "thinking") body) refl h

module _ {N : Type 0} (from_u64 : ℕ → N) (as_u64 : N → Option ℕ)
    (law : (n : ℕ) → as_u64 (from_u64 n) ≡ some n) where
  -- Nothing is below its limit.
  abbrev Compliant : Value N → Type 0
  Compliant body =
      (below (budget_of from_u64 as_u64 body) 32000 ≡ false)
      × (below (max_tokens_of from_u64 as_u64 body) 64000 ≡ false)

  -- What raising keeps.
  abbrev Framed : Value N → Value N → Type 0
  Framed body out =
      (thinking_enabled out ≡ thinking_enabled body)
      × ((j : Text)
          → list_beq (codes "thinking") j ≡ false
          → list_beq (codes "max_tokens") j ≡ false
          → get j out ≡ get j body)

  module _ (fs ts : Fields N) (e : get (codes "thinking") (obj fs) ≡ some (obj ts)) where
    budgeted : Value N
    budgeted =
        with_key (codes "thinking")
          (with_key (codes "budget_tokens") (number (from_u64 32000)) (obj ts)) (obj fs)

    get-budgeted :
        (j : Text)
        → get j budgeted ≡ (
            if list_beq (codes "thinking") j
            then some (with_key (codes "budget_tokens") (number (from_u64 32000)) (obj ts))
            else get j (obj fs))
    unfolding budgeted
    get-budgeted j = get-with_key (codes "thinking") j _ fs

    budgeted-enabled : thinking_enabled budgeted ≡ thinking_enabled (obj fs)
    unfolding thinking_enabled
    budgeted-enabled =
        rw
          (
            get-budgeted (codes "thinking"),
            e,
            get-with_key (codes "budget_tokens") (codes "type") (number (from_u64 32000)) ts,
          )
          refl

    budgeted-below : below (budget_of from_u64 as_u64 budgeted) 32000 ≡ false
    budgeted-below =
        rw
          (
            get-budgeted (codes "thinking"),
            get-with_key (codes "budget_tokens") (codes "budget_tokens") (number (from_u64 32000))
                ts,
            law 32000,
          )
          refl

  abbrev Budgeted : Value N → Value N → Type 0
  Budgeted body out =
      ((fs : Fields N) × (out ≡ obj fs))
      × ((thinking_enabled out ≡ thinking_enabled body)
          × ((below (budget_of from_u64 as_u64 out) 32000 ≡ false)
              × ((j : Text) → list_beq (codes "thinking") j ≡ false → get j out ≡ get j body)))

  raise_budget-Budgeted :
      (fs ts : Fields N)
      → get (codes "thinking") (obj fs) ≡ some (obj ts)
      → Budgeted (obj fs) (raise_budget from_u64 as_u64 (obj fs)).0
  unfolding raise_budget budgeted
  raise_budget-Budgeted fs ts e =
      elim (Bool-cases (below (budget_of from_u64 as_u64 (obj fs)) 32000)) [
        | inl c ↦
            rw (c, e)
              (
                (_, refl),
                (
                  budgeted-enabled fs ts e,
                  (budgeted-below fs ts e, λ j h. get-budgeted fs ts e j ∙ rw h refl),
                ),
              )
        | inr c ↦ rw c ((fs, refl), (refl, (c, λ j h. refl)))
      ]

  abbrev Tokened : Value N → Value N → Type 0
  Tokened body out =
      (below (max_tokens_of from_u64 as_u64 out) 64000 ≡ false)
      × ((j : Text) → list_beq (codes "max_tokens") j ≡ false → get j out ≡ get j body)

  raise_max_tokens-Tokened :
      (fs : Fields N) → Tokened (obj fs) (raise_max_tokens from_u64 as_u64 (obj fs)).0
  unfolding raise_max_tokens
  raise_max_tokens-Tokened fs =
      elim (Bool-cases (below (max_tokens_of from_u64 as_u64 (obj fs)) 64000)) [
        | inl c ↦ rw c (
          rw
              (
                get-with_key (codes "max_tokens") (codes "max_tokens") (number (from_u64 64000)) fs,
                law 64000,
              )
              refl,
          λ j h. get-with_key (codes "max_tokens") j (number (from_u64 64000)) fs ∙ rw h refl,
        )
        | inr c ↦ rw c (c, λ j h. refl)
      ]

  -- A request whose thinking is on has a budget of 32000 at least and 64000 tokens at least.
  abbrev pub Raised : Value N → Type 0
  Raised body = (thinking_enabled body ≡ false) ⊎ Compliant body

  tokens_step :
      (body : Value N)
      → (fs : Fields N) × (body ≡ obj fs)
      → Tokened body (raise_max_tokens from_u64 as_u64 body).0
  tokens_step body (fs, is_object) =
      subst (λ v. Tokened v (raise_max_tokens from_u64 as_u64 v).0) (sym is_object)
        (raise_max_tokens-Tokened fs)

  raise_object-Raised :
      (fs ts : Fields N)
      → get (codes "thinking") (obj fs) ≡ some (obj ts)
      → Framed (obj fs) (raise_enabled from_u64 as_u64 (obj fs)).0
        × Compliant (raise_enabled from_u64 as_u64 (obj fs)).0
  unfolding raise_enabled thinking_enabled
  raise_object-Raised fs ts e =
      let (is_object, (on, (enough, kept))) = raise_budget-Budgeted fs ts e in
      let (tokens, still) = tokens_step (raise_budget from_u64 as_u64 (obj fs)).0 is_object in
      let thinking = still (codes "thinking") refl in
      ((ap enabled_in thinking ∙ on, λ j h k. still j k ∙ kept j h), (rw thinking enough, tokens))

  raise_enabled-Raised :
      (body : Value N)
      → Enabled body
      → Framed body (raise_enabled from_u64 as_u64 body).0
        × Compliant (raise_enabled from_u64 as_u64 body).0
  raise_enabled-Raised body (fs, (ts, (is_request, (e, on)))) =
      subst
        (λ v.
          Framed v (raise_enabled from_u64 as_u64 v).0
          × Compliant (raise_enabled from_u64 as_u64 v).0)
        (sym is_request)
        (raise_object-Raised fs ts
          (subst (λ v. get (codes "thinking") v ≡ some (obj ts)) is_request e))

  pub raise_thinking_budget-Raised :
      (body : Value N)
      → Framed body (raise_thinking_budget from_u64 as_u64 body).0
        × Raised (raise_thinking_budget from_u64 as_u64 body).0
  unfolding raise_thinking_budget
  raise_thinking_budget-Raised body =
      if_both (λ r. Framed body r.0 × Raised r.0) (thinking_enabled body)
        (raise_enabled from_u64 as_u64 body) (body, false)
        (λ on.
          let (framed, compliant) = raise_enabled-Raised body (thinking_enabled-Enabled body on) in
          (framed, inr compliant))
        (λ off. ((refl, λ j h k. refl), inl off))

  raise_enabled-stays :
      (body : Value N) → Compliant body → raise_enabled from_u64 as_u64 body ≡ (body, false)
  unfolding raise_enabled raise_budget raise_max_tokens
  raise_enabled-stays body (b, m) = rw (b, m) refl

  pub Raised-stays :
      (body : Value N) → Raised body → raise_thinking_budget from_u64 as_u64 body ≡ (body, false)
  unfolding raise_thinking_budget
  Raised-stays body (inl off) = rw off refl
  Raised-stays body (inr c) =
      if_both (λ r. r ≡ (body, false)) (thinking_enabled body) (raise_enabled from_u64 as_u64 body)
        (body, false) (λ on. raise_enabled-stays body c) (λ off. refl)

  -- A request whose thinking is enabled keeps it, and has a thinking budget of at least 32000 and a
  -- limit of at least 64000 tokens after raising, given that a number that is written is read back.
  pub raise_thinking_budget-AtLeast :
      (body : Value N)
      → thinking_enabled body ≡ true
      → let out = (raise_thinking_budget from_u64 as_u64 body).0 in
        (thinking_enabled out ≡ true)
        × (AtLeast 32000 (budget_of from_u64 as_u64 out)
            × AtLeast 64000 (max_tokens_of from_u64 as_u64 out))
  unfolding raise_thinking_budget
  raise_thinking_budget-AtLeast body on =
      let (framed, (b, m)) = raise_enabled-Raised body (thinking_enabled-Enabled body on) in
      rw on (framed.0 ∙ on, (below-AtLeast _ 32000 b, below-AtLeast _ 64000 m))
