-- ===== src/Chat/ToolKey.antt =====
-- src/service/responses/dto.rs: the key of a tool call's frame that carries no index.
use llm_gateway.Prelude.{Option, none, some, if◌then◌else◌}
use llm_gateway.Prelude.Int.{ℤ, pos, beq_ℤ, ◌+ℤ◌}
use llm_gateway.Prelude.Text.{Text}
use llm_gateway.Plans.Usage.{max_i64}
use llm_gateway.Chat.{or_else, unwrap_or, trimmed}

-- `k.checked_add(1).unwrap_or(k)`
unfoldable pub next_key : ℤ → ℤ
next_key k = if beq_ℤ k max_i64 then k else k +ℤ pos 1

unfoldable pub fresh_key : Option ℤ → ℤ
unfolding next_key
fresh_key none = pos 0
fresh_key (some k) = next_key k

unfoldable pub key_by : Option Text → Option ℤ → Option ℤ → Option ℤ → ℤ
unfolding fresh_key
key_by none key_for_id last_key max_key = unwrap_or (pos 0) last_key
key_by (some id) (some k) last_key max_key = k
key_by (some id) none last_key max_key = fresh_key (or_else max_key last_key)

unfoldable pub resolve_no_index_tool_key : Option Text → Option ℤ → Option ℤ → Option ℤ → ℤ
unfolding key_by
resolve_no_index_tool_key id key_for_id last_key max_key =
    key_by (trimmed id) key_for_id last_key max_key
