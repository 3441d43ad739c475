-- ===== src/ModelFamily/Apply.antt =====
-- src/service/model_family.rs: the route's effort mode and thinking form, applied to an outgoing
-- request. Each function takes the value and returns it changed.
use llm_gateway.Prelude.{
  Option, none, some, Bool, true, false, not, ◌||◌, List, [], ◌∷◌, if◌then◌else◌,
}
use llm_gateway.Prelude.Eq.{◌==◌, List_Eq, ℕ_Eq}
use llm_gateway.Prelude.Map.{Map, lookup, remove}
use llm_gateway.Prelude.Text.{Text, codes, trim, unless_blank}
use llm_gateway.Json.{
  Value, string, boolean, obj, fields, object, and_then, as_str, as_bool, insert_key,
}
use llm_gateway.ModelFamily.{effort_is_off, clamp_reasoning_effort_for, zen_effort_levels_for}

abbrev pub unwrap_or {ℓ} : {A : Type ℓ} → Option A → A → A
unwrap_or none d = d
unwrap_or (some a) d = a

unfoldable on_effort : Option Text → Bool
on_effort none = false
on_effort (some effort) = not (effort_is_off effort)

module _ {N : Type 0} where
  -- `{"effort": …}`
  abbrev effort_object : Text → Value N
  effort_object effort = object ((codes "effort", string effort) ∷ [])

  abbrev without_effort : Map Text (Value N) → Map Text (Value N)
  without_effort m = remove (codes "reasoning_effort") m

  unfoldable write_clamped : Text → Option Text → Map Text (Value N) → Map Text (Value N)
  write_clamped mode none m = without_effort m
  write_clamped mode (some clamped) m =
      if mode == codes "openrouter"
      then insert_key (codes "reasoning") (effort_object clamped) (without_effort m)
      else insert_key (codes "reasoning_effort") (string clamped) m

  -- The request has the effort `effort`; the mode is trimmed.
  unfoldable apply_effort :
      List (Text × List Text) → Text → Option Text → Text → Map Text (Value N) → Map Text (Value N)
  unfolding write_clamped
  apply_effort table mode gating_model effort m =
      if effort_is_off effort
      then if mode == codes "openrouter"
        then insert_key (codes "reasoning") (effort_object (codes "none")) (without_effort m)
        else without_effort m
      else if mode == [] || mode == codes "passthrough"
      then m
      else let levels =
          if mode == codes "zen" then zen_effort_levels_for table gating_model else none in
        write_clamped mode (clamp_reasoning_effort_for effort mode levels) m

  abbrev effort_of : Map Text (Value N) → Option Text
  effort_of m = and_then (lookup (codes "reasoning_effort") m) as_str

  unfoldable apply_mode :
      List (Text × List Text)
      → Text
      → Option Text
      → Option Text
      → Map Text (Value N)
      → Map Text (Value N)
  apply_mode table mode gating_model none m = m
  apply_mode table mode gating_model (some effort) m = apply_effort table mode gating_model effort m

  unfoldable apply_reasoning_effort_mode_for_model :
      List (Text × List Text) → Text → Option Text → Value N → Value N
  unfolding apply_mode
  apply_reasoning_effort_mode_for_model table mode gating_model (obj fs) =
      object (apply_mode table (trim mode) gating_model (effort_of (fields fs)) (fields fs))
  apply_reasoning_effort_mode_for_model table mode gating_model body = body

  -- Without the fields of every form.
  unfoldable pub strip_forms : Map Text (Value N) → Map Text (Value N)
  strip_forms m = remove (codes "reasoning_split") (
      remove (codes "thinking_budget")
        (remove (codes "enable_thinking") (remove (codes "thinking") m)))

  unfoldable pub insert_budget : Option (Value N) → Map Text (Value N) → Map Text (Value N)
  insert_budget none m = m
  insert_budget (some budget) m = insert_key (codes "thinking_budget") budget m

  unfoldable pub write_form : Text → Option (Value N) → Map Text (Value N) → Map Text (Value N)
  unfolding insert_budget
  write_form form budget m =
      if form == codes "thinking_param"
      then insert_key (codes "thinking") (object ((codes "type", string (codes "enabled")) ∷ [])) m
      else if form == codes "reasoning_split"
      then insert_key (codes "reasoning_split") (boolean true) m
      else if form == codes "enable_thinking"
      then insert_budget budget (insert_key (codes "enable_thinking") (boolean true) m)
      else m

  -- Whether the request asks for reasoning.
  unfoldable pub has_intent : Map Text (Value N) → Bool
  unfolding on_effort
  has_intent m =
      on_effort (effort_of m)
      || unwrap_or (and_then (lookup (codes "enable_thinking") m) as_bool) false

  unfoldable pub form_fields : Option Text → Map Text (Value N) → Map Text (Value N)
  form_fields none m = strip_forms m
  form_fields (some form) m =
      if has_intent m
      then write_form form (lookup (codes "thinking_budget") m) (strip_forms m)
      else strip_forms m

  unfoldable pub apply_thinking_form : Option Text → Value N → Value N
  unfolding form_fields
  apply_thinking_form form (obj fs) =
      object (form_fields (and_then form (λ f. unless_blank (trim f))) (fields fs))
  apply_thinking_form form body = body
