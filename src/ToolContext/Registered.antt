-- ===== src/ToolContext/Registered.antt =====
-- src/service/responses/tool_ctx.rs: a registered tool is found again by the name that stands for it.
use llm_gateway.Prelude.{
  ℕ, ◌≡◌, refl, ◌∙◌, Option, none, some, false, ◌||◌, List, [], if_both, arith, Bool-cases, inl,
  inr,
}
use llm_gateway.Prelude.Eq.{◌==◌, List_Eq, ℕ_Eq, Pair_Eq, list_beq_iff, pair_beq}
use llm_gateway.Prelude.Map.{Map, lookup, insert, lookup-insert}
use llm_gateway.Prelude.Text.{Text, codes, trim, unless_blank}
use llm_gateway.Json.{Value, string, arr, obj, Items, nil, cons, Fields, end, field, get, is_str}
use llm_gateway.ToolContext.{
  ToolSpec, ToolContext, empty_context, register_namespace, add_chat_tool, add_custom_tool,
  add_custom_of, add_tool_search_tool, flatten_namespace_tool_name, add_named, responses_tool_name,
  add_function_tool, add_children, add_children_of, add_namespace_tool, add_typed,
  add_response_tool, add_tools, add_tools_of, add_own, collect_tool_search_output_tools,
  collect_items, collect_fields, collect_input, from_request, is_known,
}

-- The tool of a namespace is registered under the chat name.
abbrev pub Registered : Text → Text → Text → Map Text ToolSpec → Type 0
Registered ns name chat specs =
    (spec : ToolSpec) × ((lookup chat specs ≡ some spec)
      × ((spec.name ≡ name) × (spec.namespace ≡ some ns)))

abbrev IsConsistent : ToolContext → Type 0
IsConsistent ctx =
    (ns name chat : Text)
    → lookup (ns, name) ctx.ns_lookup ≡ some chat
    → Registered ns name chat ctx.specs

-- What was registered stays, where the new chat name was free.
Registered-insert :
    (ns name chat new : Text) (spec : ToolSpec) (m : Map Text ToolSpec)
    → lookup new m ≡ none
    → Registered ns name chat m
    → Registered ns name chat (insert new spec m)
Registered-insert ns name chat new spec m free (old, (found, rest)) =
    (old, (ground (arith, lookup-insert new chat spec m, list_beq_iff new chat, free, found), rest))

IsConsistent-insert :
    (new : Text) (spec : ToolSpec) (ctx : ToolContext)
    → lookup new ctx.specs ≡ none
    → IsConsistent ctx
    → (o : Option Text) → spec.namespace ≡ o
    → IsConsistent (record ctx {
      specs = insert new spec ctx.specs;
      ns_lookup = register_namespace o spec.name new ctx.ns_lookup;
    })
unfolding register_namespace
IsConsistent-insert new spec ctx free h none e ns name chat found =
    Registered-insert ns name chat new spec ctx.specs free (h ns name chat found)
IsConsistent-insert new spec ctx free h (some s) e ns name chat found =
    elim (Bool-cases (pair_beq (s, spec.name) (ns, name))) [
      | inl c ↦
          let same : new ≡ chat =
            ground (arith, c, found, lookup-insert (s, spec.name) (ns, name) new ctx.ns_lookup) in
          (
            spec,
            (
              ground (arith, same, lookup-insert new chat spec ctx.specs, list_beq_iff new chat),
              (
                ground (arith, c, list_beq_iff spec.name name),
                e ∙ ground (arith, c, list_beq_iff s ns),
              ),
            ),
          )
      | inr c ↦ Registered-insert ns name chat new spec ctx.specs free (
          h ns name chat
            (ground (arith, c, found, lookup-insert (s, spec.name) (ns, name) new ctx.ns_lookup)))
    ]

known_or_free : (o : Option ToolSpec) → is_known o ≡ false → o ≡ none
unfolding is_known
known_or_free none h = refl
known_or_free (some s) h = ground (arith, h)

add_chat_tool-IsConsistent :
    (new : Text) (spec : ToolSpec) (ctx : ToolContext)
    → IsConsistent ctx
    → IsConsistent (add_chat_tool new spec ctx)
unfolding add_chat_tool
add_chat_tool-IsConsistent new spec ctx h =
    if_both IsConsistent (trim new == [] || is_known (lookup new ctx.specs)) ctx _ (λ c. h)
      (λ c.
        IsConsistent-insert new spec ctx (known_or_free (lookup new ctx.specs) (ground (arith, c)))
          h spec.namespace refl)

add_custom_of-IsConsistent :
    (o : Option Text) (ctx : ToolContext) → IsConsistent ctx → IsConsistent (add_custom_of o ctx)
unfolding add_custom_of add_custom_tool
add_custom_of-IsConsistent none ctx h = h
add_custom_of-IsConsistent (some name) ctx h = add_chat_tool-IsConsistent name _ ctx h

empty-IsConsistent : IsConsistent empty_context
unfolding lookup
empty-IsConsistent ns name chat h = ground (arith, h)

module _ (digest : Text → List ℕ) where
  add_named-IsConsistent :
      (o ns : Option Text) (ctx : ToolContext)
      → IsConsistent ctx
      → IsConsistent (add_named digest o ns ctx)
  unfolding add_named
  add_named-IsConsistent none ns ctx h = h
  add_named-IsConsistent (some name) none ctx h = add_chat_tool-IsConsistent name _ ctx h
  add_named-IsConsistent (some name) (some ns) ctx h =
      add_chat_tool-IsConsistent (flatten_namespace_tool_name digest ns name) _ ctx h

  module _ {N : Type 0} where
    add_children-IsConsistent :
        (ns : Text) (vs : Items N) (ctx : ToolContext)
        → IsConsistent ctx
        → IsConsistent (add_children digest ns vs ctx)
    unfolding add_children add_function_tool
    add_children-IsConsistent ns nil ctx h = h
    add_children-IsConsistent ns (cons v vs) ctx h = add_children-IsConsistent ns vs _ (
        if_both IsConsistent (is_str (codes "type") (codes "function") v) _ ctx
          (λ c. add_named-IsConsistent (responses_tool_name v) (some ns) ctx h) (λ c. h))

    add_children_of-IsConsistent :
        (ns : Option Text) (o : Option (Value N)) (ctx : ToolContext)
        → IsConsistent ctx
        → IsConsistent (add_children_of digest ns o ctx)
    unfolding add_children_of
    add_children_of-IsConsistent (some ns) (some (arr vs)) ctx h =
        add_children-IsConsistent ns vs ctx h
    add_children_of-IsConsistent ns o ctx h = h

    add_typed-IsConsistent :
        (tool : Value N) (ctx : ToolContext)
        → IsConsistent ctx
        → IsConsistent (add_typed digest tool ctx)
    unfolding add_typed add_function_tool add_tool_search_tool add_namespace_tool
    add_typed-IsConsistent tool ctx h =
        if_both IsConsistent (is_str (codes "type") (codes "function") tool) _ _
          (λ c. add_named-IsConsistent (responses_tool_name tool) none ctx h)
          (λ c.
            if_both IsConsistent (is_str (codes "type") (codes "custom") tool) _ _
              (λ d. add_custom_of-IsConsistent (responses_tool_name tool) ctx h)
              (λ d.
                if_both IsConsistent (is_str (codes "type") (codes "tool_search") tool) _ _
                  (λ e. add_chat_tool-IsConsistent _ _ ctx h)
                  (λ e.
                    if_both IsConsistent (is_str (codes "type") (codes "namespace") tool) _ _
                      (λ f. add_children_of-IsConsistent _ _ ctx h)
                      (λ f.
                        if_both IsConsistent (is_str (codes "type") (codes "web_search") tool) _ ctx
                          (λ g. h) (λ g. h)))))

    add_response_tool-IsConsistent :
        (tool : Value N) (ctx : ToolContext)
        → IsConsistent ctx
        → IsConsistent (add_response_tool digest tool ctx)
    unfolding add_response_tool
    add_response_tool-IsConsistent (string name) ctx h =
        add_custom_of-IsConsistent (unless_blank (trim name)) ctx h
    add_response_tool-IsConsistent (obj fs) ctx h = add_typed-IsConsistent (obj fs) ctx h
    add_response_tool-IsConsistent tool ctx h = h

    add_tools-IsConsistent :
        (vs : Items N) (ctx : ToolContext)
        → IsConsistent ctx
        → IsConsistent (add_tools digest vs ctx)
    unfolding add_tools
    add_tools-IsConsistent nil ctx h = h
    add_tools-IsConsistent (cons v vs) ctx h =
        add_tools-IsConsistent vs _ (add_response_tool-IsConsistent v ctx h)

    add_tools_of-IsConsistent :
        (o : Option (Value N)) (ctx : ToolContext)
        → IsConsistent ctx
        → IsConsistent (add_tools_of digest o ctx)
    unfolding add_tools_of
    add_tools_of-IsConsistent (some (arr vs)) ctx h = add_tools-IsConsistent vs ctx h
    add_tools_of-IsConsistent o ctx h = h

    add_own-IsConsistent :
        (v : Value N) (ctx : ToolContext) → IsConsistent ctx → IsConsistent (add_own digest v ctx)
    unfolding add_own
    add_own-IsConsistent v ctx h =
        if_both IsConsistent (is_str (codes "type") (codes "tool_search_output") v) _ ctx
          (λ c. add_tools_of-IsConsistent (get (codes "tools") v) ctx h) (λ c. h)

    mutual
      unfolding collect_tool_search_output_tools

      collect-IsConsistent :
          (v : Value N) (ctx : ToolContext)
          → IsConsistent ctx
          → IsConsistent (collect_tool_search_output_tools digest v ctx)
      collect-IsConsistent (arr vs) ctx h = collect_items-IsConsistent vs ctx h
      collect-IsConsistent (obj fs) ctx h =
          collect_fields-IsConsistent fs _ (add_own-IsConsistent (obj fs) ctx h)
      collect-IsConsistent v ctx h = h

      collect_items-IsConsistent :
          (vs : Items N) (ctx : ToolContext)
          → IsConsistent ctx
          → IsConsistent (collect_items digest vs ctx)
      collect_items-IsConsistent nil ctx h = h
      collect_items-IsConsistent (cons v vs) ctx h =
          collect_items-IsConsistent vs _ (collect-IsConsistent v ctx h)

      collect_fields-IsConsistent :
          (fs : Fields N) (ctx : ToolContext)
          → IsConsistent ctx
          → IsConsistent (collect_fields digest fs ctx)
      collect_fields-IsConsistent end ctx h = h
      collect_fields-IsConsistent (field k v fs) ctx h =
          collect_fields-IsConsistent fs _ (collect-IsConsistent v ctx h)

    collect_input-IsConsistent :
        (o : Option (Value N)) (ctx : ToolContext)
        → IsConsistent ctx
        → IsConsistent (collect_input digest o ctx)
    unfolding collect_input
    collect_input-IsConsistent none ctx h = h
    collect_input-IsConsistent (some v) ctx h = collect-IsConsistent v ctx h

    -- Of a request's tools, declared or loaded by a search at any depth of its input: the chat name that
    -- a name in a namespace was given leads back to that name and that namespace.
    pub from_request-Registered :
        (req : Value N) (ns name chat : Text)
        → lookup (ns, name) (from_request digest req).ns_lookup ≡ some chat
        → Registered ns name chat (from_request digest req).specs
    unfolding from_request
    from_request-Registered req =
        collect_input-IsConsistent (get (codes "input") req)
          (add_tools_of digest (get (codes "tools") req) empty_context)
          (add_tools_of-IsConsistent (get (codes "tools") req) empty_context empty-IsConsistent)
