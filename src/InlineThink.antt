-- ===== src/InlineThink.antt =====
-- src/service/inline_think.rs: the splitter of a stream whose text may open with a `<think>` block.
-- Both tags are ASCII, so that the source's cuts by bytes are cuts by characters here.
pub mod Prefixes
pub mod Reasoning
pub mod Opening
pub mod Stream
use llm_gateway.Prelude.{
  ℕ, Option, none, some, Bool, true, false, List, [], ◌∷◌, ◌++◌, if◌then◌else◌,
}
use llm_gateway.Prelude.Text.{Text, codes, starts_with, strip_prefix, split_first, trim_start}

abbrev pub think_open : Text
think_open = codes "<think>"

abbrev pub think_close : Text
think_close = codes "</think>"

pub data Mode : Type 0 where
  detecting reasoning text : Mode

pub record InlineThinkState : Type 0 where
  pub mode : Mode
  pub buffer : Text

abbrev pub new : InlineThinkState
new = record { mode = detecting; buffer = [] }

pub data PrefixDecision : Type 0 where
  need_more is_reasoning is_text : PrefixDecision

unfoldable pub decide_prefix : Text → PrefixDecision
decide_prefix [] = need_more
decide_prefix (c ∷ cs) =
    if starts_with think_open (c ∷ cs)
    then need_more
    else if starts_with (c ∷ cs) think_open
    then is_reasoning
    else is_text

unfoldable pub leading_think_prefix_decision : Text → PrefixDecision
unfolding decide_prefix
leading_think_prefix_decision buffer = decide_prefix (trim_start buffer)

-- The text in the first complete block, and what stands after it.
unfoldable pub split_leading_think : Text → Option (Text × Text)
split_leading_think buffer = elim (split_first think_open buffer) [
  | none ↦ none
  | some (start, after_open) ↦ split_first think_close after_open
]

-- A text cut before the longest suffix that begins the closing tag: `partial_close_suffix_len` is
-- the length of the second part.
unfoldable pub split_held : Text → Text × Text
split_held [] = ([], [])
split_held (c ∷ cs) =
    let (emit, held) = split_held cs in
    if starts_with think_close (c ∷ cs) then ([], c ∷ cs) else (c ∷ emit, held)

-- The `Vec` of a delta: an empty one is not sent.
abbrev pub unless_empty : Text → List Text
unless_empty [] = []
unless_empty (c ∷ cs) = (c ∷ cs) ∷ []

-- What a call hands on: reasoning and text.
abbrev pub Deltas : Type 0
Deltas = List Text × List Text

-- The state's buffer is the argument; the mode is `reasoning` before.
unfoldable pub emit_reasoning : Text → InlineThinkState × Deltas
emit_reasoning buffer = elim (split_first think_close buffer) [
  | some (before, answer) ↦
      (record { mode = text; buffer = [] }, (unless_empty before, unless_empty answer))
  | none ↦
      let (emit, held) = split_held buffer in
      (record { mode = reasoning; buffer = held }, (unless_empty emit, []))
]

unfoldable pub strip_open_tag : Text → Text
strip_open_tag buffer = elim (split_first think_open buffer) [
  | none ↦ buffer
  | some (start, rest) ↦ rest
]

detect : Text → PrefixDecision → InlineThinkState × Deltas
detect buffer need_more = (record { mode = detecting; buffer = buffer }, ([], []))
detect buffer is_reasoning = emit_reasoning (strip_open_tag buffer)
detect buffer is_text = (record { mode = text; buffer = [] }, ([], buffer ∷ []))

feed_by : Mode → Text → Text → InlineThinkState × Deltas
unfolding detect
feed_by text buffer delta = (record { mode = text; buffer = buffer }, ([], delta ∷ []))
feed_by detecting buffer delta =
    detect (buffer ++ delta) (leading_think_prefix_decision (buffer ++ delta))
feed_by reasoning buffer delta = emit_reasoning (buffer ++ delta)

unfoldable pub feed : InlineThinkState → Text → InlineThinkState × Deltas
unfolding feed_by
feed s delta = feed_by s.mode s.buffer delta

flush_by : Mode → Text → InlineThinkState × Deltas
flush_by text buffer = (record { mode = text; buffer = buffer }, ([], []))
flush_by detecting buffer = (record { mode = text; buffer = [] }, ([], unless_empty buffer))
flush_by reasoning buffer = (record { mode = text; buffer = [] }, (unless_empty buffer, []))

unfoldable pub flush : InlineThinkState → InlineThinkState × Deltas
unfolding flush_by
flush s = flush_by s.mode s.buffer
