-- ===== src/AnthropicStream/Tools.antt =====
-- src/service/anthropic/stream.rs: the blocks of tool calls. The `BTreeMap` is a map sorted by its keys.
use llm_gateway.Prelude.{
  ℕ, suc, ◌+◌, Option, none, some, Bool, true, false, not, ◌&&◌, ◌||◌, List, [], ◌∷◌, ◌++◌, leb,
  if◌then◌else◌,
}
use llm_gateway.Prelude.Eq.{◌==◌, List_Eq, ℕ_Eq}
use llm_gateway.Prelude.Int.{ℤ, ℤ_Eq, ltb_ℤ}
use llm_gateway.Prelude.Map.{Map, lookup, modify}
use llm_gateway.Prelude.Text.{Text, codes, is_whitespace, show_ℤ}
use llm_gateway.Json.{and_then}
use llm_gateway.Chat.{ToolCallDelta, or_else, unwrap_or, unless_empty, trimmed}
use llm_gateway.Chat.ToolKey.{resolve_no_index_tool_key}
use llm_gateway.AnthropicStream.{
  ToolBlock, infinite_whitespace_threshold, ChatToAnthropicState, tool_use, input_json_delta, Event,
  content_block_start, content_block_delta, content_block_stop, extend, close_open_non_tool,
}

abbrev pub is_empty : Text → Bool
is_empty [] = true
is_empty (c ∷ cs) = false

-- `..Default::default()`
abbrev pub new_block : ℕ → ToolBlock
new_block i = record {
  anthropic_index = i;
  id = [];
  name = [];
  arguments = [];
  pending_args = [];
  started = false;
  stopped = false;
  consecutive_whitespace = 0;
  aborted = false;
}

-- `insert` of a key that is not there
unfoldable pub insert_tool : ℤ → ToolBlock → Map ℤ ToolBlock → Map ℤ ToolBlock
insert_tool k t [] = (k, t) ∷ []
insert_tool k t ((j, u) ∷ m) = if ltb_ℤ k j then (k, t) ∷ (j, u) ∷ m else (j, u) ∷ insert_tool k t m

-- `keys().copied().next_back()`
unfoldable pub max_key : Map ℤ ToolBlock → Option ℤ
max_key [] = none
max_key ((k, t) ∷ m) = or_else (max_key m) (some k)

-- `iter().find(|(_, b)| b.id == id)`
unfoldable pub key_of_id : Text → Map ℤ ToolBlock → Option ℤ
key_of_id id [] = none
key_of_id id ((k, t) ∷ m) = if t.id == id then some k else key_of_id id m

-- `input_json_delta_event` unless there is nothing to send
abbrev pub json_delta : ℕ → Text → List Event
json_delta i [] = []
json_delta i (c ∷ cs) = content_block_delta i (input_json_delta (c ∷ cs)) ∷ []

-- The id and the name of a frame, where it has them.
abbrev pub set_id : Option Text → ToolBlock → ToolBlock
set_id none t = t
set_id (some id) t = record t { id = id }

abbrev pub set_name : Option Text → ToolBlock → ToolBlock
set_name none t = t
set_name (some name) t = record t { name = name }

abbrev pub can_start : ToolBlock → Bool
can_start t = not t.started && not (is_empty t.id) && not (is_empty t.name)

-- The start of a block and what its buffer holds.
unfoldable pub start_block : ToolBlock → ToolBlock × List Event
start_block t = (
  record t { started = true; arguments = t.arguments ++ t.pending_args; pending_args = [] },
  content_block_start t.anthropic_index (tool_use t.id t.name)
      ∷ json_delta t.anthropic_index t.pending_args,
)

unfoldable pub start_if_known : ToolBlock → ToolBlock × List Event
unfolding start_block
start_if_known t = if can_start t then start_block t else (t, [])

-- The blanks at the end, behind those that were counted before.
pub count_whitespace : ℕ → Text → ℕ
count_whitespace n [] = n
count_whitespace n (c ∷ cs) = count_whitespace (if is_whitespace c then suc n else 0) cs

-- A delta of arguments, behind the count of its blanks.
unfoldable pub send_args : Text → ToolBlock → ToolBlock × List Event
send_args args t =
    if leb infinite_whitespace_threshold t.consecutive_whitespace
    then (record t { aborted = true }, [])
    else if t.started
    then (
      record t { arguments = t.arguments ++ args },
      content_block_delta t.anthropic_index (input_json_delta args) ∷ [],
    )
    else (record t { pending_args = t.pending_args ++ args }, [])

unfoldable pub feed_args : Option Text → ToolBlock → ToolBlock × List Event
unfolding count_whitespace send_args
feed_args none t = (t, [])
feed_args (some args) t =
    if t.aborted
    then (t, [])
    else send_args args
        (record t { consecutive_whitespace = count_whitespace t.consecutive_whitespace args })

-- What a frame does to its block.
unfoldable pub feed_block : ToolCallDelta → ToolBlock → ToolBlock × List Event
unfolding start_if_known feed_args
feed_block tc t =
    let named =
      set_name (trimmed (and_then tc.function (λ f. f.name))) (set_id (trimmed tc.id) t) in
    extend (start_if_known named)
      (feed_args (unless_empty (and_then tc.function (λ f. f.arguments))))

-- The branches of `close_open_blocks` on one block: whether it counts as dropped comes first.
abbrev pub has_payload : ToolBlock → Bool
has_payload t =
    not (is_empty t.id)
    || not (is_empty t.name)
    || not (is_empty t.pending_args)
    || not (is_empty t.arguments)

abbrev pub or_text : Text → Text → Text
or_text [] d = d
or_text (c ∷ cs) d = c ∷ cs

-- The id and the name that stand in for missing ones.
abbrev pub with_defaults : ℤ → ToolBlock → ToolBlock
with_defaults k t = record t {
  id = or_text t.id (codes "tool_call_" ++ show_ℤ k);
  name = or_text t.name (codes "unknown_tool");
}

unfoldable pub stop_block : ToolBlock → ToolBlock × List Event
stop_block t = (record t { stopped = true }, content_block_stop t.anthropic_index ∷ [])

-- Whether a block is dropped, having nothing to show.
abbrev is_dropped : ToolBlock → Bool
is_dropped t = not t.started && not (has_payload t)

-- Whether a block starts only now.
abbrev pub starts_late : ToolBlock → Bool
starts_late t = not t.started && has_payload t

unfoldable pub close_block : ℤ → ToolBlock → ToolBlock × List Event
unfolding start_block stop_block
close_block k t =
    if t.started
    then if t.stopped
      then (t, [])
      else stop_block (record t { id = or_text t.id (codes "tool_call_" ++ show_ℤ k) })
    else if has_payload t
    then extend (start_block (with_defaults k t)) stop_block
    else (t, [])

-- The loop of `close_open_blocks`: a round touches its own block only.
unfoldable pub close_entries : Map ℤ ToolBlock → Map ℤ ToolBlock × List Event
unfolding close_block
close_entries [] = ([], [])
close_entries ((k, t) ∷ m) =
    let (t', es) = close_block k t in let (m', fs) = close_entries m in ((k, t') ∷ m', es ++ fs)

-- What that loop adds to `dropped_tools`, and whether it sets `has_tool_use`.
unfoldable pub dropped_in : Map ℤ ToolBlock → ℕ
dropped_in [] = 0
dropped_in ((k, t) ∷ m) = if is_dropped t then suc (dropped_in m) else dropped_in m

unfoldable pub late_in : Map ℤ ToolBlock → Bool
late_in [] = false
late_in ((k, t) ∷ m) = starts_late t || late_in m

module _ {N : Type 0} where
  -- The key of a frame's block.
  unfoldable pub chat_index : ToolCallDelta → ChatToAnthropicState N → ℤ
  unfolding key_of_id max_key
  chat_index tc s =
      unwrap_or
        (resolve_no_index_tool_key tc.id (and_then (trimmed tc.id) (λ id. key_of_id id s.tools))
          s.last_tool_key (max_key s.tools))
        tc.index

  unfoldable pub add_block : ℤ → Option ToolBlock → ChatToAnthropicState N → ChatToAnthropicState N
  unfolding insert_tool
  add_block k (some t) s = record s { last_tool_key = some k }
  add_block k none s = record s {
    last_tool_key = some k;
    next_block_index = suc s.next_block_index;
    tools = insert_tool k (new_block s.next_block_index) s.tools;
  }

  -- The block is there, with an index of its own.
  unfoldable pub ensure_block : ℤ → ChatToAnthropicState N → ChatToAnthropicState N
  unfolding add_block
  ensure_block k s = add_block k (lookup k s.tools) s

  -- A frame on the block that stands under its key; the block is there (`expect`).
  unfoldable pub feed_at :
      ℤ
      → ToolCallDelta
      → Option ToolBlock
      → ChatToAnthropicState N
      → ChatToAnthropicState N × List Event
  unfolding feed_block
  feed_at k tc none s = (s, [])
  feed_at k tc (some t) s =
      let (t', es) = feed_block tc t in
      (
        record s {
          tools = modify k (λ u. t') s.tools;
          has_tool_use = s.has_tool_use || (not t.started && t'.started);
        },
        es,
      )

  -- A frame behind the close.
  unfoldable pub feed_tool :
      ToolCallDelta → ChatToAnthropicState N → ChatToAnthropicState N × List Event
  unfolding chat_index ensure_block feed_at
  feed_tool tc s =
      let k = chat_index tc s in let s1 = ensure_block k s in feed_at k tc (lookup k s1.tools) s1

  unfoldable pub append_tool_delta :
      ToolCallDelta → ChatToAnthropicState N → ChatToAnthropicState N × List Event
  unfolding feed_tool
  append_tool_delta tc s = extend (close_open_non_tool s) (feed_tool tc)

  -- The tools' blocks by their keys.
  unfoldable pub close_tools : ChatToAnthropicState N → ChatToAnthropicState N × List Event
  unfolding close_entries dropped_in late_in
  close_tools s =
      let (tools, es) = close_entries s.tools in
      (
        record s {
          tools = tools;
          has_tool_use = s.has_tool_use || late_in s.tools;
          dropped_tools = s.dropped_tools + dropped_in s.tools;
        },
        es,
      )

  -- Everything that is open: the block without a tool call first.
  unfoldable pub close_open_blocks : ChatToAnthropicState N → ChatToAnthropicState N × List Event
  unfolding close_tools
  close_open_blocks s = extend (close_open_non_tool s) close_tools
