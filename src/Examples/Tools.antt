-- ===== src/Examples/Tools.antt =====
-- Concrete tools of a request (src/service/responses/tool_ctx.rs).
use llm_gateway.Prelude.{ℕ, ◌≤◌, ◌≡◌, refl, some, List, [], ◌∷◌, String}
use llm_gateway.Prelude.Eq.{List_Eq, ℕ_Eq, Pair_Eq}
use llm_gateway.Prelude.Map.{lookup, insert}
use llm_gateway.Prelude.Text.{Text, codes, byte_len}
use llm_gateway.Json.{Value, string, array, object, get}
use llm_gateway.ToolContext.{
  flatten_namespace_tool_name, from_request, is_known, register_namespace, add_chat_tool, add_named,
  responses_tool_name, add_function_tool, add_children, add_children_of, add_namespace_tool,
  add_typed, add_response_tool, add_tools, add_tools_of, collect_input,
}
use llm_gateway.ToolContext.Names.{byte_len-flatten_namespace_tool_name}
use llm_gateway.ToolContext.Registered.{Registered, from_request-Registered}

abbrev bytes : Text → List ℕ
bytes t = 171 ∷ 205 ∷ []

abbrev long_name : Text
long_name = codes "a_name_of_a_tool_that_is_longer_than_the_sixty_four_bytes_of_a_chat_name"

byte_len-flatten_namespace_tool_name_example :
    byte_len (flatten_namespace_tool_name bytes (codes "crm") long_name) ≤ 64
byte_len-flatten_namespace_tool_name_example =
    byte_len-flatten_namespace_tool_name bytes (codes "crm") long_name

abbrev tool : String → String → Value ℕ
tool type name =
    object ((codes "name", string (codes name)) ∷ (codes "type", string (codes type)) ∷ [])

abbrev request : Value ℕ
request = object (
    (
      codes "tools",
      array (
          object (
            (codes "name", string (codes "crm"))
            ∷ (codes "tools", array (tool "function" "find" ∷ []))
            ∷ (codes "type", string (codes "namespace"))
            ∷ [])
          ∷ []),
    )
    ∷ [])

registered :
    lookup (codes "crm", codes "find") (from_request bytes request).ns_lookup
    ≡ some (codes "crm__find")
unfolding from_request collect_input add_tools_of add_tools add_response_tool add_typed
    add_namespace_tool add_children_of add_children add_function_tool add_named add_chat_tool
    register_namespace responses_tool_name is_known flatten_namespace_tool_name lookup insert get
registered = refl

from_request-Registered_example :
    Registered (codes "crm") (codes "find") (codes "crm__find") (from_request bytes request).specs
from_request-Registered_example =
    from_request-Registered bytes request (codes "crm") (codes "find") (codes "crm__find")
      registered
