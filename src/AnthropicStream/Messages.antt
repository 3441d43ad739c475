-- ===== src/AnthropicStream/Messages.antt =====
-- src/service/anthropic/stream.rs: the chunks of the chat stream and the end of the message. serde_json's
-- numbers are a parameter.
use llm_gateway.Prelude.{
  Option, none, some, Bool, true, false, not, ◌&&◌, ◌||◌, List, [], ◌∷◌, ◌++◌, ltb, any,
  if◌then◌else◌,
}
use llm_gateway.Prelude.Eq.{◌==◌, List_Eq, ℕ_Eq}
use llm_gateway.Prelude.Int.{pos}
use llm_gateway.Prelude.Text.{Text, codes, trim}
use llm_gateway.Json.{Value, string, obj, and_then, get, get_str}
use llm_gateway.InlineThink.{feed, flush}
use llm_gateway.Chat.{
  Numbers, ChatStreamChoice, ChatStreamChunk, Usage, or_else, unwrap_or, unless_empty, trimmed,
}
use llm_gateway.Chat.Lenient.{delta_content_text}
use llm_gateway.Chat.Tokens.{AnthropicUsage, anthropic_usage}
use llm_gateway.AnthropicStream.{
  ChatToAnthropicState, Event, message_start, message_delta, message_stop, error, extend,
  extend_each, append_thinking_delta, append_text_delta,
}
use llm_gateway.AnthropicStream.Tools.{is_empty, append_tool_delta, close_open_blocks}

unfoldable pub by_reason : Bool → Text
by_reason has_tool_use = if has_tool_use then codes "tool_use" else codes "end_turn"

pub is_length : Text → Bool
is_length r = r == codes "length" || r == codes "max_tokens" || r == codes "token_limit"

pub is_call_or_stop : Text → Bool
is_call_or_stop r = r == codes "stop" || r == codes "tool_calls" || r == codes "function_call"

-- A reason that is not known, and not empty, ends the turn.
unfoldable pub stop_reason_from_finish : Text → Bool → Text
unfolding by_reason is_length is_call_or_stop
stop_reason_from_finish finish_reason has_tool_use =
    let r = trim finish_reason in
    if is_call_or_stop r
    then by_reason has_tool_use
    else if is_length r
    then codes "max_tokens"
    else if is_empty r
    then by_reason has_tool_use
    else codes "end_turn"

-- The reason before the correction by the blocks that were sent.
abbrev pub early_stop_reason : Bool → Option Text → Bool → Text
early_stop_reason truncated pending used =
    unwrap_or (if truncated then codes "max_tokens" else by_reason used) pending

abbrev pub corrected : Bool → Text → Text
corrected used reason = if reason == codes "end_turn" && used then codes "tool_use" else reason

-- `events.clear()` before the error that stands for the whole message.
abbrev cleared : List Event → Event → List Event
cleared es e = e ∷ []

module _ {N : Type 0} where
  pub extract_stream_error_message : Value N → Text
  extract_stream_error_message (string s) = s
  extract_stream_error_message (obj fs) = unwrap_or (codes "upstream stream error") (
      or_else (and_then (get (codes "error") (obj fs)) (get_str (codes "message")))
        (or_else (get_str (codes "message") (obj fs)) (get_str (codes "detail") (obj fs))))
  extract_stream_error_message _ = codes "upstream stream error"

  unfoldable pub transport_error :
      Text → ChatToAnthropicState N → ChatToAnthropicState N × List Event
  transport_error message s = elim s.failed [
    | some m ↦ (s, [])
    | none ↦ (record s { failed = some message }, error message ∷ [])
  ]

  unfoldable pub has_failed : ChatToAnthropicState N → Bool
  has_failed s = elim s.failed [ none ↦ false | some m ↦ true ]

module _ {N : Type 0} (num : Numbers N) where
  -- The usage that a message tells, nothing at first.
  pub usage_told : Option (Usage N) → AnthropicUsage
  unfolding anthropic_usage
  usage_told none = record {
    input_tokens = pos 0;
    output_tokens = pos 0;
    cache_creation_input_tokens = pos 0;
    cache_read_input_tokens = pos 0;
  }
  usage_told (some u) = anthropic_usage num u

  pub message_start_event : ChatToAnthropicState N → Event
  unfolding usage_told
  message_start_event s = message_start (codes "msg_" ++ s.id) s.model (usage_told s.usage)

  -- `message_start`, unless it was sent.
  unfoldable pub start_message : ChatToAnthropicState N → ChatToAnthropicState N × List Event
  unfolding message_start_event
  start_message s =
      if s.sent_message_start
      then (s, [])
      else (record s { sent_message_start = true }, message_start_event s ∷ [])

  -- The reasoning and the text that the splitter hands on.
  unfoldable pub append_split :
      List Text × List Text → ChatToAnthropicState N → ChatToAnthropicState N × List Event
  unfolding append_thinking_delta append_text_delta
  append_split (think, text) s =
      extend (extend_each append_thinking_delta think s) (extend_each append_text_delta text)

  unfoldable pub append_reasoning :
      Option Text → ChatToAnthropicState N → ChatToAnthropicState N × List Event
  unfolding append_thinking_delta
  append_reasoning none s = (s, [])
  append_reasoning (some r) s = append_thinking_delta r s

  unfoldable pub append_content :
      Option Text → ChatToAnthropicState N → ChatToAnthropicState N × List Event
  unfolding append_split feed
  append_content none s = (s, [])
  append_content (some content) s =
      let (think_state, deltas) = feed s.inline_think content in
      append_split deltas (record s { inline_think = think_state })

  unfoldable pub append_refusal :
      Option Text → ChatToAnthropicState N → ChatToAnthropicState N × List Event
  unfolding append_text_delta
  append_refusal none s = (s, [])
  append_refusal (some r) s = append_text_delta r s

  unfoldable pub note_finish :
      Option Text → ChatToAnthropicState N → ChatToAnthropicState N × List Event
  unfolding stop_reason_from_finish
  note_finish none s = (s, [])
  note_finish (some fr) s =
      (record s { pending_stop_reason = some (stop_reason_from_finish fr s.has_tool_use) }, [])

  -- One round of the loop over the choices, from its end.
  unfoldable pub choice_calls :
      ChatStreamChoice N → ChatToAnthropicState N → ChatToAnthropicState N × List Event
  unfolding note_finish append_tool_delta
  choice_calls c s =
      extend (extend_each append_tool_delta c.delta.tool_calls s)
        (note_finish (trimmed c.finish_reason))

  unfoldable pub choice_refusal :
      ChatStreamChoice N → ChatToAnthropicState N → ChatToAnthropicState N × List Event
  unfolding append_refusal choice_calls
  choice_refusal c s = extend (append_refusal (trimmed c.delta.refusal) s) (choice_calls c)

  unfoldable pub choice_content :
      ChatStreamChoice N → ChatToAnthropicState N → ChatToAnthropicState N × List Event
  unfolding append_content choice_refusal delta_content_text
  choice_content c s =
      extend (append_content (unless_empty (and_then c.delta.content (delta_content_text num))) s)
        (choice_refusal c)

  unfoldable pub process_choice :
      ChatStreamChoice N → ChatToAnthropicState N → ChatToAnthropicState N × List Event
  unfolding append_reasoning choice_content
  process_choice c s =
      extend
        (append_reasoning (unless_empty (or_else c.delta.reasoning_content c.delta.reasoning)) s)
        (choice_content c)

  -- The id, the model and the usage that a chunk brings.
  abbrev unless_known : Text → Text → Text
  unless_known [] new = new
  unless_known (c ∷ cs) new = c ∷ cs

  unfoldable pub take_meta : ChatStreamChunk N → ChatToAnthropicState N → ChatToAnthropicState N
  take_meta chunk s = record s {
    id = unless_known s.id chunk.id;
    model = unless_known s.model chunk.model;
    usage = or_else chunk.usage s.usage;
  }

  unfoldable pub chunk_by :
      Option (Value N)
      → ChatStreamChunk N
      → ChatToAnthropicState N
      → ChatToAnthropicState N × List Event
  unfolding extract_stream_error_message take_meta start_message process_choice
  chunk_by (some err) chunk s = (
    record s { failed = some (extract_stream_error_message err) },
    error (extract_stream_error_message err) ∷ [],
  )
  chunk_by none chunk s =
      extend (start_message (take_meta chunk s)) (extend_each process_choice chunk.choices)

  unfoldable pub process_chunk :
      ChatStreamChunk N → ChatToAnthropicState N → ChatToAnthropicState N × List Event
  unfolding chunk_by
  process_chunk chunk s = elim s.failed [ some m ↦ (s, []) | none ↦ chunk_by chunk.error chunk s ]

  -- The reason for which the message stops.
  unfoldable pub final_stop_reason : Bool → ChatToAnthropicState N → Text
  unfolding by_reason
  final_stop_reason truncated s =
      corrected s.has_tool_use (early_stop_reason truncated s.pending_stop_reason s.has_tool_use)

  unfoldable pub message_delta_events :
      Bool → ChatToAnthropicState N → ChatToAnthropicState N × List Event
  unfolding final_stop_reason usage_told
  message_delta_events truncated s = if s.has_emitted_message_delta then (s, []) else (
    record s { has_emitted_message_delta = true },
    message_delta (final_stop_reason truncated s) (usage_told s.usage) ∷ [],
  )

  -- The rest of the splitter's buffer.
  unfoldable pub flush_think : ChatToAnthropicState N → ChatToAnthropicState N × List Event
  unfolding flush append_split
  flush_think s =
      let (think_state, deltas) = flush s.inline_think in
      append_split deltas (record s { inline_think = think_state })

  pub has_output : ChatToAnthropicState N → Bool
  has_output s = s.thinking_stopped || s.text_stopped || any (λ e. e.1.started) s.tools

  -- The end of the message, with its reason.
  unfoldable pub end_message : Bool → ChatToAnthropicState N → ChatToAnthropicState N × List Event
  unfolding message_delta_events
  end_message truncated s =
      extend (message_delta_events truncated s) (λ s1. (s1, message_stop ∷ []))

  -- Behind the blocks' ends: the end of the message, or one error in place of all events.
  unfoldable pub finish_message :
      Bool → ChatToAnthropicState N × List Event → ChatToAnthropicState N × List Event
  unfolding has_output end_message
  finish_message truncated r =
      if ltb 0 r.0.dropped_tools && not (has_output r.0)
      then (
        r.0,
        cleared r.1 (
            error (codes "upstream returned tool_calls without function name and no other output")),
      )
      else extend r (end_message truncated)

  unfoldable pub finalize_live : Bool → ChatToAnthropicState N → ChatToAnthropicState N × List Event
  unfolding start_message flush_think close_open_blocks finish_message
  finalize_live truncated s =
      if truncated && not s.sent_message_start
      then (s, error (codes "upstream stream ended before any output") ∷ [])
      else finish_message truncated
          (extend (extend (start_message s) flush_think) close_open_blocks)

  unfoldable pub finalize_inner :
      Bool → ChatToAnthropicState N → ChatToAnthropicState N × List Event
  unfolding finalize_live has_failed
  finalize_inner truncated s =
      if s.finalized
      then (s, [])
      else let s1 = record s { finalized = true } in
        if has_failed s then (s1, []) else finalize_live truncated s1

  unfoldable pub finalize : ChatToAnthropicState N → ChatToAnthropicState N × List Event
  unfolding finalize_inner
  finalize s = finalize_inner false s

  unfoldable pub finalize_truncated : ChatToAnthropicState N → ChatToAnthropicState N × List Event
  unfolding finalize_inner
  finalize_truncated s = finalize_inner true s
