-- ===== src/ModelFamily/Forms.antt =====
-- src/service/model_family.rs: what the outgoing request holds after the thinking form and the effort
-- mode of its route.
use llm_gateway.Prelude.{
  ◌≡◌, ◌⊎◌, refl, inl, inr, sym, subst, ◌∙◌, Option, none, some, Bool, true, false, [], ◌∷◌,
  if◌then◌else◌, Bool-cases, String,
}
use llm_gateway.Prelude.Eq.{◌==◌, List_Eq, ℕ_Eq, list_beq, list_beq→eq, option_beq}
use llm_gateway.Prelude.Map.{Map, lookup, remove, lookup-remove}
use llm_gateway.Prelude.Text.{Text, codes, trim, unless_blank}
use llm_gateway.Json.{
  Value, string, boolean, obj, Fields, fields, object, and_then, get, insert_key,
}
use llm_gateway.Json.Laws.{get-object, lookup-insert_key}
use llm_gateway.ModelFamily.Apply.{
  strip_forms, write_form, apply_thinking_form, has_intent, insert_budget, form_fields,
}

abbrev is_key : String → Text → Bool
is_key s k = list_beq (codes s) k

abbrev when {ℓ} : {A : Type ℓ} → Bool → Option A → Option A
when true a = a
when false a = none

-- A key is one of those of the forms, or none of them.
abbrev Other : Text → Type 0
Other k =
    (is_key "thinking" k ≡ false)
    × ((is_key "reasoning_split" k ≡ false)
        × ((is_key "enable_thinking" k ≡ false) × (is_key "thinking_budget" k ≡ false)))

key-cases :
    (k : Text)
    → (codes "thinking" ≡ k)
      ⊎ ((codes "reasoning_split" ≡ k)
          ⊎ ((codes "enable_thinking" ≡ k) ⊎ ((codes "thinking_budget" ≡ k) ⊎ Other k)))
key-cases k = elim (Bool-cases (is_key "thinking" k)) [
  | inl a ↦ inl (list_beq→eq _ _ a)
  | inr a ↦ elim (Bool-cases (is_key "reasoning_split" k)) [
    | inl b ↦ inr (inl (list_beq→eq _ _ b))
    | inr b ↦ elim (Bool-cases (is_key "enable_thinking" k)) [
      | inl c ↦ inr (inr (inl (list_beq→eq _ _ c)))
      | inr c ↦ elim (Bool-cases (is_key "thinking_budget" k)) [
        | inl d ↦ inr (inr (inr (inl (list_beq→eq _ _ d))))
        | inr d ↦ inr (inr (inr (inr (a, (b, (c, d))))))
      ]
    ]
  ]
]

module _ {N : Type 0} where
  -- The form that the route asks for, of a request that asks for reasoning.
  abbrev pub wanted : Option Text → Map Text (Value N) → Option Text
  wanted form m = if has_intent m then and_then form (λ f. unless_blank (trim f)) else none

  -- What a key holds, by the form that is wanted.
  abbrev pub formed : Option Text → Map Text (Value N) → Text → Option (Value N)
  formed form m k =
      if is_key "thinking" k
      then when (option_beq form (some (codes "thinking_param")))
          (some (object ((codes "type", string (codes "enabled")) ∷ [])))
      else if is_key "reasoning_split" k
      then when (option_beq form (some (codes "reasoning_split"))) (some (boolean true))
      else if is_key "enable_thinking" k
      then when (option_beq form (some (codes "enable_thinking"))) (some (boolean true))
      else if is_key "thinking_budget" k
      then when (option_beq form (some (codes "enable_thinking"))) (lookup k m)
      else lookup k m

  -- To show an equation for every key, it is enough to show it for each of the four and for the others.
  by_key :
      (f g : Text → Option (Value N))
      → f (codes "thinking") ≡ g (codes "thinking")
      → f (codes "reasoning_split") ≡ g (codes "reasoning_split")
      → f (codes "enable_thinking") ≡ g (codes "enable_thinking")
      → f (codes "thinking_budget") ≡ g (codes "thinking_budget")
      → ((k : Text) → Other k → f k ≡ g k)
      → (k : Text) → f k ≡ g k
  by_key f g t r e b o k = elim (key-cases k) [
    | inl h ↦ subst (λ k'. f k' ≡ g k') h t
    | inr (inl h) ↦ subst (λ k'. f k' ≡ g k') h r
    | inr (inr (inl h)) ↦ subst (λ k'. f k' ≡ g k') h e
    | inr (inr (inr (inl h))) ↦ subst (λ k'. f k' ≡ g k') h b
    | inr (inr (inr (inr h))) ↦ o k h
  ]

  stripped : Map Text (Value N) → Text → Option (Value N)
  stripped m k =
      if is_key "reasoning_split" k
      then none
      else if is_key "thinking_budget" k
      then none
      else if is_key "enable_thinking" k
      then none
      else if is_key "thinking" k
      then none
      else lookup k m

  lookup-strip_forms : (m : Map Text (Value N)) (k : Text) → lookup k (strip_forms m) ≡ stripped m k
  unfolding strip_forms stripped
  lookup-strip_forms m k =
      rw
        (
          lookup-remove (codes "reasoning_split") k (
              remove (codes "thinking_budget")
                (remove (codes "enable_thinking") (remove (codes "thinking") m))),
          lookup-remove (codes "thinking_budget") k
              (remove (codes "enable_thinking") (remove (codes "thinking") m)),
          lookup-remove (codes "enable_thinking") k (remove (codes "thinking") m),
          lookup-remove (codes "thinking") k m,
        )
        refl

  strip_forms-formed :
      (m : Map Text (Value N)) (k : Text) → lookup k (strip_forms m) ≡ formed none m k
  unfolding stripped
  strip_forms-formed m k =
      lookup-strip_forms m k
      ∙ by_key (stripped m) (formed none m) refl refl refl refl
          (λ j h. rw (h.0, h.1.0, h.1.1.0, h.1.1.1) refl) k

  -- One key is written.
  one_key :
      (s : String) (v : Value N) (m : Map Text (Value N)) (form k : Text)
      → ((j : Text) → (if is_key s j then some v else stripped m j) ≡ formed (some form) m j)
      → lookup k (insert_key (codes s) v (strip_forms m)) ≡ formed (some form) m k
  one_key s v m form k e =
      lookup-insert_key (codes s) k v (strip_forms m) ∙ (rw (lookup-strip_forms m k) (e k))

  -- The budget of the request comes with the key that enables thinking.
  budget_key :
      (o : Option (Value N)) (m : Map Text (Value N)) (j : Text)
      → lookup j
          (insert_budget o (insert_key (codes "enable_thinking") (boolean true) (strip_forms m)))
        ≡ (if is_key "thinking_budget" j
            then o
            else if is_key "enable_thinking" j
            then some (boolean true)
            else stripped m j)
  unfolding insert_budget stripped
  budget_key none m j =
      lookup-insert_key (codes "enable_thinking") j (boolean true) (strip_forms m)
      ∙ (rw (lookup-strip_forms m j) (
          by_key (λ k. if is_key "enable_thinking" k then some (boolean true) else stripped m k)
            (λ k.
              if is_key "thinking_budget" k
              then none
              else if is_key "enable_thinking" k
              then some (boolean true)
              else stripped m k)
            refl refl refl refl (λ k h. rw (h.0, h.1.0, h.1.1.0, h.1.1.1) refl) j))
  budget_key (some b) m j =
      lookup-insert_key (codes "thinking_budget") j b
        (insert_key (codes "enable_thinking") (boolean true) (strip_forms m))
      ∙ rw
          (
            lookup-insert_key (codes "enable_thinking") j (boolean true) (strip_forms m),
            lookup-strip_forms m j,
          )
          refl

  abbrev WritesFormed : Map Text (Value N) → Text → Text → Type 0
  WritesFormed m k form =
      lookup k (write_form form (lookup (codes "thinking_budget") m) (strip_forms m))
      ≡ formed (some form) m k

  write_form-formed : (form : Text) (m : Map Text (Value N)) (k : Text) → WritesFormed m k form
  unfolding write_form stripped
  write_form-formed form m k = elim (Bool-cases (form == codes "thinking_param")) [
    | inl p ↦ subst (WritesFormed m k) (sym (list_beq→eq form (codes "thinking_param") p)) (
        one_key "thinking" (object ((codes "type", string (codes "enabled")) ∷ [])) m
          (codes "thinking_param") k
          (by_key _ (formed (some (codes "thinking_param")) m) refl refl refl refl
            (λ j h. rw (h.0, h.1.0, h.1.1.0, h.1.1.1) refl)))
    | inr p ↦ elim (Bool-cases (form == codes "reasoning_split")) [
      | inl r ↦ subst (WritesFormed m k) (sym (list_beq→eq form (codes "reasoning_split") r)) (
          one_key "reasoning_split" (boolean true) m (codes "reasoning_split") k (
            by_key _ (formed (some (codes "reasoning_split")) m) refl refl refl refl
              (λ j h. rw (h.0, h.1.0, h.1.1.0, h.1.1.1) refl)))
      | inr r ↦ elim (Bool-cases (form == codes "enable_thinking")) [
        | inl e ↦ subst (WritesFormed m k) (sym (list_beq→eq form (codes "enable_thinking") e)) (
            budget_key (lookup (codes "thinking_budget") m) m k
            ∙ by_key
                (λ j.
                  if is_key "thinking_budget" j
                  then lookup (codes "thinking_budget") m
                  else if is_key "enable_thinking" j
                  then some (boolean true)
                  else stripped m j)
                (formed (some (codes "enable_thinking")) m) refl refl refl refl
                (λ j h. rw (h.0, h.1.0, h.1.1.0, h.1.1.1) refl) k)
        | inr e ↦ rw (p, r, e) (strip_forms-formed m k)
      ]
    ]
  ]

  form_fields-formed :
      (form : Option Text) (m : Map Text (Value N)) (k : Text)
      → lookup k (form_fields form m) ≡ formed (if has_intent m then form else none) m k
  unfolding form_fields
  form_fields-formed none m k = elim (Bool-cases (has_intent m)) [
    | inl asks ↦ rw asks (strip_forms-formed m k)
    | inr quiet ↦ rw quiet (strip_forms-formed m k)
  ]
  form_fields-formed (some form) m k = elim (Bool-cases (has_intent m)) [
    | inl asks ↦ rw asks (write_form-formed form m k)
    | inr quiet ↦ rw quiet (strip_forms-formed m k)
  ]

  -- Of an outgoing request's keys, `thinking`, `reasoning_split` and `enable_thinking` are there just
  -- where the route's form is the one that writes them and the request asks for reasoning;
  -- `thinking_budget` keeps its value with `enable_thinking` and is gone otherwise; every other key
  -- keeps its value.
  pub apply_thinking_form-formed :
      (form : Option Text) (fs : Fields N) (k : Text)
      → get k (apply_thinking_form form (obj fs)) ≡ formed (wanted form (fields fs)) (fields fs) k
  unfolding apply_thinking_form
  apply_thinking_form-formed form fs k =
      get-object k (form_fields (and_then form (λ f. unless_blank (trim f))) (fields fs))
      ∙ form_fields-formed (and_then form (λ f. unless_blank (trim f))) (fields fs) k
