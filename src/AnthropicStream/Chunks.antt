-- ===== src/AnthropicStream/Chunks.antt =====
-- src/service/anthropic/stream.rs: a chunk of the chat stream, as the client sees it.
use llm_gateway.Prelude.{
  ◌≡◌, refl, sym, ◌∙◌, Option, none, some, Bool, true, false, List, arith, if_both,
}
use llm_gateway.Prelude.Eq.{List_Eq, ℕ_Eq}
use llm_gateway.Prelude.Text.{Text, codes, trim}
use llm_gateway.Json.{and_then}
use llm_gateway.InlineThink.{feed, flush}
use llm_gateway.Chat.{Numbers, ChatStreamChoice, or_else, unless_empty, trimmed}
use llm_gateway.Chat.Lenient.{delta_content_text}
use llm_gateway.AnthropicStream.{
  ChatToAnthropicState, extend_each, append_thinking_delta, append_text_delta,
}
use llm_gateway.AnthropicStream.Tools.{is_empty, append_tool_delta}
use llm_gateway.AnthropicStream.Messages.{
  by_reason, is_length, is_call_or_stop, stop_reason_from_finish, append_split, append_reasoning,
  append_content, append_refusal, note_finish, choice_calls, choice_refusal, choice_content,
  process_choice, flush_think,
}
use llm_gateway.AnthropicStream.Client.{Takes}
use llm_gateway.AnthropicStream.Sound.{
  Statuses, Sound, Carries, extend-Carries, extend_each-Carries, silent,
}
use llm_gateway.AnthropicStream.Speaking.{append_thinking_delta-Carries, append_text_delta-Carries}
use llm_gateway.AnthropicStream.ToolSteps.{append_tool_delta-Carries}

by_reason-used : (used : Bool) → by_reason used ≡ codes "tool_use" → used ≡ true
unfolding by_reason
by_reason-used true e = refl
by_reason-used false e = absurd (ground arith)

-- A reason is about a tool only when one is in use.
stop_reason_from_finish-used :
    (fr : Text) (used : Bool) → stop_reason_from_finish fr used ≡ codes "tool_use" → used ≡ true
unfolding stop_reason_from_finish
stop_reason_from_finish-used fr used =
    if_both (λ r. r ≡ codes "tool_use" → used ≡ true) (is_call_or_stop (trim fr)) _ _
      (λ _. by_reason-used used)
      (λ _.
        if_both (λ r. r ≡ codes "tool_use" → used ≡ true) (is_length (trim fr)) _ _
          (λ _ e. absurd (ground arith))
          (λ _.
            if_both (λ r. r ≡ codes "tool_use" → used ≡ true) (is_empty (trim fr)) _ _
              (λ _. by_reason-used used) (λ _ e. absurd (ground arith))))

module _ {N : Type 0} (num : Numbers N) (fin : Bool) where
  append_split-Carries :
      (deltas : List Text × List Text) (s : ChatToAnthropicState N) (f : Statuses) (called : Bool)
      → Sound fin s f called
      → Carries fin (append_split num deltas s) f called
  unfolding append_split
  append_split-Carries (think, text) s f called v =
      extend-Carries fin (extend_each append_thinking_delta think s)
        (extend_each append_text_delta text) f called
        (extend_each-Carries fin append_thinking_delta (append_thinking_delta-Carries fin) think s f
          called v)
        (extend_each-Carries fin append_text_delta (append_text_delta-Carries fin) text
          (extend_each append_thinking_delta think s).0)

  append_reasoning-Carries :
      (o : Option Text) (s : ChatToAnthropicState N) (f : Statuses) (called : Bool)
      → Sound fin s f called
      → Carries fin (append_reasoning num o s) f called
  unfolding append_reasoning
  append_reasoning-Carries none s f called v = silent fin s f called v
  append_reasoning-Carries (some r) s f called v = append_thinking_delta-Carries fin r s f called v

  append_content-Carries :
      (o : Option Text) (s : ChatToAnthropicState N) (f : Statuses) (called : Bool)
      → Sound fin s f called
      → Carries fin (append_content num o s) f called
  unfolding append_content
  append_content-Carries none s f called v = silent fin s f called v
  append_content-Carries (some c) s f called v =
      append_split-Carries (feed s.inline_think c).1
        (record s { inline_think = (feed s.inline_think c).0 }) f called v

  append_refusal-Carries :
      (o : Option Text) (s : ChatToAnthropicState N) (f : Statuses) (called : Bool)
      → Sound fin s f called
      → Carries fin (append_refusal num o s) f called
  unfolding append_refusal
  append_refusal-Carries none s f called v = silent fin s f called v
  append_refusal-Carries (some r) s f called v = append_text_delta-Carries fin r s f called v

  note_finish-Carries :
      (o : Option Text) (s : ChatToAnthropicState N) (f : Statuses) (called : Bool)
      → Sound fin s f called
      → Carries fin (note_finish num o s) f called
  unfolding note_finish Takes
  note_finish-Carries none s f called v = silent fin s f called v
  note_finish-Carries (some fr) s f called (going, blocks, (used, reason)) = (
    f,
    called,
    refl,
    (
      going,
      blocks,
      (used, λ e. sym used ∙ stop_reason_from_finish-used fr s.has_tool_use (ground arith)),
    ),
  )

  choice_calls-Carries :
      (c : ChatStreamChoice N) (s : ChatToAnthropicState N) (f : Statuses) (called : Bool)
      → Sound fin s f called
      → Carries fin (choice_calls num c s) f called
  unfolding choice_calls
  choice_calls-Carries c s f called v =
      extend-Carries fin (extend_each append_tool_delta c.delta.tool_calls s)
        (note_finish num (trimmed c.finish_reason)) f called
        (extend_each-Carries fin append_tool_delta (append_tool_delta-Carries fin)
          c.delta.tool_calls s f called v)
        (note_finish-Carries (trimmed c.finish_reason)
          (extend_each append_tool_delta c.delta.tool_calls s).0)

  choice_refusal-Carries :
      (c : ChatStreamChoice N) (s : ChatToAnthropicState N) (f : Statuses) (called : Bool)
      → Sound fin s f called
      → Carries fin (choice_refusal num c s) f called
  unfolding choice_refusal
  choice_refusal-Carries c s f called v =
      let o = trimmed c.delta.refusal in
      extend-Carries fin (append_refusal num o s) (choice_calls num c) f called
        (append_refusal-Carries o s f called v) (choice_calls-Carries c (append_refusal num o s).0)

  choice_content-Carries :
      (c : ChatStreamChoice N) (s : ChatToAnthropicState N) (f : Statuses) (called : Bool)
      → Sound fin s f called
      → Carries fin (choice_content num c s) f called
  unfolding choice_content
  choice_content-Carries c s f called v =
      let o = unless_empty (and_then c.delta.content (delta_content_text num)) in
      extend-Carries fin (append_content num o s) (choice_refusal num c) f called
        (append_content-Carries o s f called v)
        (choice_refusal-Carries c (append_content num o s).0)

  pub process_choice-Carries :
      (c : ChatStreamChoice N) (s : ChatToAnthropicState N) (f : Statuses) (called : Bool)
      → Sound fin s f called
      → Carries fin (process_choice num c s) f called
  unfolding process_choice
  process_choice-Carries c s f called v =
      let o = unless_empty (or_else c.delta.reasoning_content c.delta.reasoning) in
      extend-Carries fin (append_reasoning num o s) (choice_content num c) f called
        (append_reasoning-Carries o s f called v)
        (choice_content-Carries c (append_reasoning num o s).0)

  pub flush_think-Carries :
      (s : ChatToAnthropicState N) (f : Statuses) (called : Bool)
      → Sound fin s f called
      → Carries fin (flush_think num s) f called
  unfolding flush_think
  flush_think-Carries s f called v =
      append_split-Carries (flush s.inline_think).1
        (record s { inline_think = (flush s.inline_think).0 }) f called v
