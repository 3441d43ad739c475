-- ===== src/ToolContext.antt =====
-- src/service/responses/tool_ctx.rs: the tools of a request, by the names that the upstream sees. The
-- digest of SHA-256 is a parameter.
pub mod Names
pub mod Registered
use llm_gateway.Prelude.{
  ℕ, zero, suc, ◌+◌, ◌-◌, ◌/◌, ◌%◌, Option, none, some, Bool, true, false, ◌||◌, List, [], ◌∷◌,
  ◌++◌, ltb, leb, if◌then◌else◌,
}
use llm_gateway.Prelude.Eq.{◌==◌, List_Eq, ℕ_Eq, Pair_Eq}
use llm_gateway.Prelude.Map.{Map, lookup, insert}
use llm_gateway.Prelude.Text.{Text, codes, trim, utf8_len, byte_len, unless_blank}
use llm_gateway.Json.{
  Value, null, boolean, number, string, arr, obj, Items, nil, cons, Fields, end, field, and_then,
  as_array, as_str, get, get_str, is_str,
}

abbrev pub chat_tool_name_max_len : ℕ
chat_tool_name_max_len = 64

abbrev tool_search_proxy_name : Text
tool_search_proxy_name = codes "tool_search"

pub data ToolKind : Type 0 where
  function custom namespaced tool_search : ToolKind

pub record ToolSpec : Type 0 where
  kind : ToolKind
  pub name : Text
  pub namespace : Option Text

pub record ToolContext : Type 0 where
  pub specs : Map Text ToolSpec
  pub ns_lookup : Map (Text × Text) Text
  bridges_web_search : Bool

abbrev pub empty_context : ToolContext
empty_context = record { specs = []; ns_lookup = []; bridges_web_search = false }

abbrev pub hex_digit : ℕ → ℕ
hex_digit n = if ltb n 10 then b'0' + n else b'a' + (n - 10)

-- `{b:02x}` of the first bytes, as many as are counted.
unfoldable pub hex_bytes : ℕ → List ℕ → Text
hex_bytes zero bytes = []
hex_bytes (suc n) [] = []
hex_bytes (suc n) (b ∷ bytes) = hex_digit (b / 16 % 16) ∷ hex_digit (b % 16) ∷ hex_bytes n bytes

-- The characters that fit into the limit, where `used` bytes are taken.
unfoldable pub take_fitting : ℕ → ℕ → Text → Text
take_fitting limit used [] = []
take_fitting limit used (c ∷ cs) =
    let rest = take_fitting limit (used + utf8_len c) cs in
    if ltb limit (used + utf8_len c) then [] else c ∷ rest

abbrev or_value {ℓ} : {A : Type ℓ} → Option A → Option A → Option A
or_value none b = b
or_value (some a) b = some a

-- What a lookup found, or the default.
abbrev found_or {ℓ} : {A : Type ℓ} → Option A → A → A
found_or none d = d
found_or (some a) d = a

unfoldable pub is_known : Option ToolSpec → Bool
is_known none = false
is_known (some s) = true

unfoldable pub register_namespace :
    Option Text → Text → Text → Map (Text × Text) Text → Map (Text × Text) Text
register_namespace none name chat_name m = m
register_namespace (some ns) name chat_name m = insert (ns, name) chat_name m

unfoldable pub add_chat_tool : Text → ToolSpec → ToolContext → ToolContext
unfolding is_known
add_chat_tool chat_name spec ctx =
    if trim chat_name == [] || is_known (lookup chat_name ctx.specs) then ctx else record ctx {
      specs = insert chat_name spec ctx.specs;
      ns_lookup = register_namespace spec.namespace spec.name chat_name ctx.ns_lookup;
    }

unfoldable pub add_custom_tool : Text → ToolContext → ToolContext
add_custom_tool name ctx =
    add_chat_tool name (record { kind = custom; name = name; namespace = none }) ctx

unfoldable pub add_tool_search_tool : ToolContext → ToolContext
add_tool_search_tool ctx =
    add_chat_tool tool_search_proxy_name
      (record { kind = tool_search; name = tool_search_proxy_name; namespace = none }) ctx

unfoldable pub add_custom_of : Option Text → ToolContext → ToolContext
add_custom_of none ctx = ctx
add_custom_of (some name) ctx = add_custom_tool name ctx

module _ {N : Type 0} where
  unfoldable pub responses_tool_name : Value N → Option Text
  responses_tool_name tool =
      and_then
        (and_then
          (or_value (and_then (get (codes "function") tool) (get (codes "name")))
            (get (codes "name") tool))
          as_str)
        (λ s. unless_blank (trim s))

module _ (digest : Text → List ℕ) where
  unfoldable pub short_sha256_hex : Text → Text
  short_sha256_hex text = hex_bytes 8 (digest text)

  unfoldable pub flatten_namespace_tool_name : Text → Text → Text
  unfolding short_sha256_hex
  flatten_namespace_tool_name namespace name =
      let full_name = namespace ++ codes "__" ++ name in
      if leb (byte_len full_name) chat_tool_name_max_len
      then full_name
      else let suffix = codes "__" ++ short_sha256_hex full_name in
        take_fitting (chat_tool_name_max_len - byte_len suffix) 0 full_name ++ suffix

  unfoldable chat_name_for : Text → Option Text → ToolContext → Text
  chat_name_for name none ctx = name
  chat_name_for name (some []) ctx = name
  chat_name_for name (some (c ∷ cs)) ctx =
      found_or (lookup (c ∷ cs, name) ctx.ns_lookup) (flatten_namespace_tool_name (c ∷ cs) name)

  unfoldable pub add_named : Option Text → Option Text → ToolContext → ToolContext
  add_named none namespace ctx = ctx
  add_named (some name) none ctx =
      add_chat_tool name (record { kind = function; name = name; namespace = none }) ctx
  add_named (some name) (some ns) ctx =
      add_chat_tool (flatten_namespace_tool_name ns name)
        (record { kind = namespaced; name = name; namespace = some ns }) ctx

  module _ {N : Type 0} where
    unfoldable pub add_function_tool : Value N → Option Text → ToolContext → ToolContext
    unfolding add_named
    add_function_tool tool namespace ctx = add_named (responses_tool_name tool) namespace ctx

    unfoldable pub add_children : Text → Items N → ToolContext → ToolContext
    add_children ns nil ctx = ctx
    add_children ns (cons child rest) ctx = add_children ns rest (
        if is_str (codes "type") (codes "function") child
        then add_function_tool child (some ns) ctx
        else ctx)

    unfoldable pub add_children_of : Option Text → Option (Value N) → ToolContext → ToolContext
    add_children_of (some namespace) (some (arr children)) ctx = add_children namespace children ctx
    add_children_of namespace children ctx = ctx

    unfoldable pub add_namespace_tool : Value N → ToolContext → ToolContext
    unfolding add_children_of
    add_namespace_tool tool ctx =
        add_children_of (get_str (codes "name") tool)
          (or_value (get (codes "tools") tool) (get (codes "children") tool)) ctx

    -- The arms on the type of a tool.
    unfoldable pub add_typed : Value N → ToolContext → ToolContext
    unfolding add_custom_of
    add_typed tool ctx =
        if is_str (codes "type") (codes "function") tool
        then add_function_tool tool none ctx
        else if is_str (codes "type") (codes "custom") tool
        then add_custom_of (responses_tool_name tool) ctx
        else if is_str (codes "type") (codes "tool_search") tool
        then add_tool_search_tool ctx
        else if is_str (codes "type") (codes "namespace") tool
        then add_namespace_tool tool ctx
        else if is_str (codes "type") (codes "web_search") tool
        then record ctx { bridges_web_search = true }
        else ctx

    unfoldable pub add_response_tool : Value N → ToolContext → ToolContext
    unfolding add_custom_of add_typed
    add_response_tool (string name) ctx = add_custom_of (unless_blank (trim name)) ctx
    add_response_tool (obj fs) ctx = add_typed (obj fs) ctx
    add_response_tool tool ctx = ctx

    unfoldable pub add_tools : Items N → ToolContext → ToolContext
    add_tools nil ctx = ctx
    add_tools (cons tool rest) ctx = add_tools rest (add_response_tool tool ctx)

    unfoldable pub add_tools_of : Option (Value N) → ToolContext → ToolContext
    add_tools_of (some (arr tools)) ctx = add_tools tools ctx
    add_tools_of tools ctx = ctx

    -- What an object itself carries, before its members.
    unfoldable pub add_own : Value N → ToolContext → ToolContext
    add_own v ctx =
        if is_str (codes "type") (codes "tool_search_output") v
        then add_tools_of (get (codes "tools") v) ctx
        else ctx

    unfoldable mutual
      pub collect_tool_search_output_tools : Value N → ToolContext → ToolContext
      collect_tool_search_output_tools (arr vs) ctx = collect_items vs ctx
      collect_tool_search_output_tools (obj fs) ctx = collect_fields fs (add_own (obj fs) ctx)
      collect_tool_search_output_tools v ctx = ctx

      pub collect_items : Items N → ToolContext → ToolContext
      collect_items nil ctx = ctx
      collect_items (cons v vs) ctx = collect_items vs (collect_tool_search_output_tools v ctx)

      pub collect_fields : Fields N → ToolContext → ToolContext
      collect_fields end ctx = ctx
      collect_fields (field k v fs) ctx = collect_fields fs (collect_tool_search_output_tools v ctx)

    unfoldable pub collect_input : Option (Value N) → ToolContext → ToolContext
    collect_input none ctx = ctx
    collect_input (some input) ctx = collect_tool_search_output_tools input ctx

    unfoldable pub from_request : Value N → ToolContext
    unfolding collect_input
    from_request req =
        collect_input (get (codes "input") req)
          (add_tools_of (get (codes "tools") req) empty_context)
