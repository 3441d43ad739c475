-- ===== src/AnthropicStream.antt =====
-- src/service/anthropic/stream.rs: the state of the conversion of a chat stream into an Anthropic
-- stream, the events, and the blocks that hold no tool call. The i64 that numbers the blocks grows by
-- one with a block and starts at 0, so it is a natural number.
pub mod Tools
pub mod Messages
pub mod Client
pub mod Sound
pub mod Speaking
pub mod ToolTable
pub mod ToolSteps
pub mod ToolKeys
pub mod Chunks
pub mod Closing
pub mod Ending
pub mod Session
pub mod Contents
pub mod Relay
use llm_gateway.Prelude.{
  ℕ, suc, Option, none, some, Bool, true, false, List, [], ◌∷◌, ◌++◌, if◌then◌else◌,
}
use llm_gateway.Prelude.Int.{ℤ}
use llm_gateway.Prelude.Map.{Map}
use llm_gateway.Prelude.Text.{Text}
use llm_gateway.InlineThink.{InlineThinkState}
use llm_gateway.Chat.{Usage}
use llm_gateway.Chat.Tokens.{AnthropicUsage}

pub record ToolBlock : Type 0 where
  pub anthropic_index : ℕ
  pub id : Text
  pub name : Text
  pub arguments : Text
  pub pending_args : Text
  pub started : Bool
  pub stopped : Bool
  pub consecutive_whitespace : ℕ
  pub aborted : Bool

pub data NonToolKind : Type 0 where
  thinking text : NonToolKind

pub record NonToolBlock : Type 0 where
  pub kind : NonToolKind
  pub index : ℕ

abbrev pub infinite_whitespace_threshold : ℕ
infinite_whitespace_threshold = 500

pub record ChatToAnthropicState (N : Type 0) : Type 0 where
  pub id : Text
  pub model : Text
  pub usage : Option (Usage N)
  pub failed : Option Text
  pub open_non_tool : Option NonToolBlock
  pub sent_message_start : Bool
  pub has_emitted_message_delta : Bool
  pub pending_stop_reason : Option Text
  pub has_tool_use : Bool
  pub dropped_tools : ℕ
  pub finalized : Bool
  pub next_block_index : ℕ
  pub thinking_block_index : ℕ
  pub thinking_started : Bool
  pub thinking_stopped : Bool
  pub text_block_index : ℕ
  pub text_started : Bool
  pub text_stopped : Bool
  pub non_tool_open_order : List NonToolKind
  pub tools : Map ℤ ToolBlock
  pub last_tool_key : Option ℤ
  pub inline_think : InlineThinkState

-- `content_block`
pub data ContentBlock : Type 0 where
  thinking_block text_block : ContentBlock
  tool_use : Text → Text → ContentBlock

-- `delta`
pub data BlockDelta : Type 0 where
  thinking_delta text_delta input_json_delta : Text → BlockDelta

-- What a frame of the stream says.
pub data Event : Type 0 where
  message_start : Text → Text → AnthropicUsage → Event
  content_block_start : ℕ → ContentBlock → Event
  content_block_delta : ℕ → BlockDelta → Event
  content_block_stop : ℕ → Event
  message_delta : Text → AnthropicUsage → Event
  message_stop : Event
  error : Text → Event

-- `events.extend(..)` with what a method of the new state returns.
abbrev pub extend : {S : Type 0} → S × List Event → (S → S × List Event) → S × List Event
extend (s, es) f = let (s', fs) = f s in (s', es ++ fs)

-- `for x in xs { events.extend(self.f(x)) }`
pub extend_each : {S A : Type 0} → (A → S → S × List Event) → List A → S → S × List Event
extend_each f [] s = (s, [])
extend_each f (x ∷ xs) s = extend (f x s) (extend_each f xs)

-- The index of the open block, if it is of the kind.
abbrev index_by : NonToolKind → NonToolKind → ℕ → Option ℕ
index_by thinking thinking i = some i
index_by text text i = some i
index_by _ _ i = none

open_index : NonToolKind → Option NonToolBlock → Option ℕ
open_index kind none = none
open_index kind (some block) = index_by kind block.kind block.index

module _ {N : Type 0} where
  abbrev pub new : Text → Text → ChatToAnthropicState N
  new id model = record {
    id = id;
    model = model;
    usage = none;
    failed = none;
    open_non_tool = none;
    sent_message_start = false;
    has_emitted_message_delta = false;
    pending_stop_reason = none;
    has_tool_use = false;
    dropped_tools = 0;
    finalized = false;
    next_block_index = 0;
    thinking_block_index = 0;
    thinking_started = false;
    thinking_stopped = false;
    text_block_index = 0;
    text_started = false;
    text_stopped = false;
    non_tool_open_order = [];
    tools = [];
    last_tool_key = none;
    inline_think = llm_gateway.InlineThink.new;
  }

  abbrev stopped_kind : NonToolKind → ChatToAnthropicState N → ChatToAnthropicState N
  stopped_kind thinking s = record s { thinking_stopped = true; thinking_started = false }
  stopped_kind text s = record s { text_stopped = true; text_started = false }

  closed_by : Option NonToolBlock → ChatToAnthropicState N → ChatToAnthropicState N × List Event
  closed_by none s = (s, [])
  closed_by (some block) s = (
    stopped_kind block.kind (record s { open_non_tool = none }),
    content_block_stop block.index ∷ [],
  )

  pub close_open_non_tool : ChatToAnthropicState N → ChatToAnthropicState N × List Event
  unfolding closed_by
  close_open_non_tool s = closed_by s.open_non_tool s

  -- The branch that opens a block of thinking, behind the close.
  abbrev open_thinking : ChatToAnthropicState N → ChatToAnthropicState N × List Event
  open_thinking s = (
    record s {
      next_block_index = suc s.next_block_index;
      open_non_tool = some (record { kind = thinking; index = s.next_block_index });
      thinking_block_index = s.next_block_index;
      thinking_started = true;
      non_tool_open_order = s.non_tool_open_order ++ thinking ∷ [];
    },
    content_block_start s.next_block_index thinking_block ∷ [],
  )

  -- That, and the first delta.
  abbrev start_thinking : Text → ChatToAnthropicState N → ChatToAnthropicState N × List Event
  start_thinking delta s =
      extend (open_thinking s)
        (λ s1. (s1, content_block_delta s.next_block_index (thinking_delta delta) ∷ []))

  thinking_by : Text → Option ℕ → ChatToAnthropicState N → ChatToAnthropicState N × List Event
  unfolding close_open_non_tool
  thinking_by delta (some i) s = (s, content_block_delta i (thinking_delta delta) ∷ [])
  thinking_by delta none s = extend (close_open_non_tool s) (start_thinking delta)

  pub append_thinking_delta : Text → ChatToAnthropicState N → ChatToAnthropicState N × List Event
  unfolding thinking_by open_index
  append_thinking_delta delta s = thinking_by delta (open_index thinking s.open_non_tool) s

  abbrev open_text : ChatToAnthropicState N → ChatToAnthropicState N × List Event
  open_text s = (
    record s {
      next_block_index = suc s.next_block_index;
      open_non_tool = some (record { kind = text; index = s.next_block_index });
      text_block_index = s.next_block_index;
      text_started = true;
      non_tool_open_order = s.non_tool_open_order ++ text ∷ [];
    },
    content_block_start s.next_block_index text_block ∷ [],
  )

  -- That, and the first delta.
  abbrev start_text : Text → ChatToAnthropicState N → ChatToAnthropicState N × List Event
  start_text delta s =
      extend (open_text s)
        (λ s1. (s1, content_block_delta s.next_block_index (text_delta delta) ∷ []))

  text_by : Text → Option ℕ → ChatToAnthropicState N → ChatToAnthropicState N × List Event
  unfolding close_open_non_tool
  text_by delta (some i) s = (s, content_block_delta i (text_delta delta) ∷ [])
  text_by delta none s = extend (close_open_non_tool s) (start_text delta)

  pub append_text_delta : Text → ChatToAnthropicState N → ChatToAnthropicState N × List Event
  unfolding text_by open_index
  append_text_delta delta s = text_by delta (open_index text s.open_non_tool) s
