-- ===== src/AnthropicStream/Contents.antt =====
-- src/service/anthropic/stream.rs with src/service/inline_think.rs: the thinking and the text that a
-- client is sent.
pub mod Sending
pub mod Answer
use llm_gateway.Prelude.{
  ℕ, ◌+◌, ◌≡◌, refl, sym, ap, ◌∙◌, subst, Option, none, some, Bool, true, false, List, [], ◌∷◌,
  ◌++◌, map, if_both, if◌then◌else◌,
}
use llm_gateway.Prelude.Int.{ℤ, pos}
use llm_gateway.Prelude.Map.{Map}
use llm_gateway.Prelude.Text.{Text}
use llm_gateway.Json.{string}
use llm_gateway.InlineThink.{InlineThinkState, feed, flush}
use llm_gateway.InlineThink.Reasoning.{joined, joined-append, whole, feed_all}
use llm_gateway.InlineThink.Stream.{feed_all-whole}
use llm_gateway.Chat.{Numbers, ChatStreamChunk}
use llm_gateway.Chat.Lenient.{delta_content_text}
use llm_gateway.AnthropicStream.{
  ToolBlock, NonToolKind, thinking, text, NonToolBlock, ChatToAnthropicState, BlockDelta,
  thinking_delta, text_delta, Event, message_start, content_block_start, content_block_delta,
  content_block_stop, message_delta, message_stop, error, extend, extend_each, new, stopped_kind,
  closed_by, close_open_non_tool, start_thinking, start_text, thinking_by, text_by, open_index,
  append_thinking_delta, append_text_delta,
}
use llm_gateway.AnthropicStream.Tools.{close_entries, dropped_in, close_tools, close_open_blocks}
use llm_gateway.AnthropicStream.Messages.{
  append_reasoning, append_refusal, choice_refusal, choice_calls, note_finish, start_message,
  append_split, append_content, choice_content, process_choice, take_meta, chunk_by, process_chunk,
  flush_think, message_delta_events, end_message, finish_message, finalize_live, finalize_inner,
  finalize, has_failed,
}
use llm_gateway.AnthropicStream.Session.{session, end_by, done}
use mathlib.Core.List.{append_assoc, append-nil}

-- Of the deltas of some events, what `p` reads in each.
abbrev pub sent : (BlockDelta → Text) → List Event → Text
sent p [] = []
sent p (content_block_delta i d ∷ es) = p d ++ sent p es
sent p (message_start id model u ∷ es) = sent p es
sent p (content_block_start i b ∷ es) = sent p es
sent p (content_block_stop i ∷ es) = sent p es
sent p (message_delta r u ∷ es) = sent p es
sent p (message_stop ∷ es) = sent p es
sent p (error m ∷ es) = sent p es

abbrev pub thought : BlockDelta → Text
thought (thinking_delta t) = t
thought _ = []

abbrev pub said : BlockDelta → Text
said (text_delta t) = t
said _ = []

-- A chunk whose delta has a content and nothing else.
abbrev pub content_chunk : {N : Type 0} → Text → ChatStreamChunk N
content_chunk t = record {
  id = [];
  model = [];
  created = none;
  choices =
      record {
        index = pos 0;
        delta = record {
          content = some (string t);
          reasoning_content = none;
          reasoning = none;
          tool_calls = [];
          refusal = none;
        };
        finish_reason = none;
      }
      ∷ [];
  usage = none;
  error = none;
}

-- The texts that are not empty.
abbrev pub kept : List Text → List Text
kept [] = []
kept ([] ∷ ts) = kept ts
kept ((c ∷ cs) ∷ ts) = (c ∷ cs) ∷ kept ts

pub joined-kept : (ts : List Text) → joined (kept ts) ≡ joined ts
joined-kept [] = refl
joined-kept ([] ∷ ts) = joined-kept ts
joined-kept ((c ∷ cs) ∷ ts) = ap (λ t. (c ∷ cs) ++ t) (joined-kept ts)

pub sent-append :
    (p : BlockDelta → Text) (es fs : List Event) → sent p (es ++ fs) ≡ sent p es ++ sent p fs
sent-append p [] fs = refl
sent-append p (content_block_delta i d ∷ es) fs = simp (sent-append p es fs, append_assoc)
sent-append p (message_start id model u ∷ es) fs = sent-append p es fs
sent-append p (content_block_start i b ∷ es) fs = sent-append p es fs
sent-append p (content_block_stop i ∷ es) fs = sent-append p es fs
sent-append p (message_delta r u ∷ es) fs = sent-append p es fs
sent-append p (message_stop ∷ es) fs = sent-append p es fs
sent-append p (error m ∷ es) fs = sent-append p es fs

-- What a stream of contents leaves as it is.
abbrev pub Core : Type 0
Core = (Map ℤ ToolBlock × ℕ) × (Option Text × Bool) × InlineThinkState

module _ {N : Type 0} where
  abbrev pub core : ChatToAnthropicState N → Core
  core s = ((s.tools, s.dropped_tools), (s.failed, s.finalized), s.inline_think)

  -- The state keeps its core, and `t` is what was sent.
  abbrev pub Sends :
      (BlockDelta → Text) → Core → ChatToAnthropicState N × List Event → Text → Type 0
  Sends p k r t = (core r.0 ≡ k) × (sent p r.1 ≡ t)

  pub extend-Sends :
      (p : BlockDelta → Text) (r : ChatToAnthropicState N × List Event)
      (next : ChatToAnthropicState N → ChatToAnthropicState N × List Event) (k l : Core)
      (t u : Text)
      → Sends p k r t
      → ((s : ChatToAnthropicState N) → core s ≡ k → Sends p l (next s) u)
      → Sends p l (extend r next) (t ++ u)
  extend-Sends p r next k l t u (kept_core, now) step =
      let (kept_core', later) = step r.0 kept_core in
      (
        kept_core',
        sent-append p r.1 (next r.0).1
            ∙ ap (λ x. x ++ sent p (next r.0).1) now
            ∙ ap (λ x. t ++ x) later,
      )

  stopped_kind-core :
      (k : NonToolKind) (s : ChatToAnthropicState N) → core (stopped_kind k s) ≡ core s
  stopped_kind-core thinking s = refl
  stopped_kind-core text s = refl

  closed_by-Sends :
      (p : BlockDelta → Text) (o : Option NonToolBlock) (s : ChatToAnthropicState N)
      → Sends p (core s) (closed_by o s) []
  unfolding closed_by
  closed_by-Sends p none s = (refl, refl)
  closed_by-Sends p (some b) s =
      (stopped_kind-core b.kind (record s { open_non_tool = none }), refl)

  pub close_open_non_tool-Sends :
      (p : BlockDelta → Text) (s : ChatToAnthropicState N)
      → Sends p (core s) (close_open_non_tool s) []
  unfolding close_open_non_tool
  close_open_non_tool-Sends p s = closed_by-Sends p s.open_non_tool s

  thinking_by-Sends :
      (p : BlockDelta → Text) (t : Text) (o : Option ℕ) (s : ChatToAnthropicState N)
      → Sends p (core s) (thinking_by t o s) (p (thinking_delta t) ++ [])
  unfolding thinking_by close_open_non_tool
  thinking_by-Sends p t (some i) s = (refl, refl)
  thinking_by-Sends p t none s =
      extend-Sends p (closed_by s.open_non_tool s) (start_thinking t) (core s) (core s) []
        (p (thinking_delta t) ++ []) (closed_by-Sends p s.open_non_tool s) (λ u e. (e, refl))

  text_by-Sends :
      (p : BlockDelta → Text) (t : Text) (o : Option ℕ) (s : ChatToAnthropicState N)
      → Sends p (core s) (text_by t o s) (p (text_delta t) ++ [])
  unfolding text_by close_open_non_tool
  text_by-Sends p t (some i) s = (refl, refl)
  text_by-Sends p t none s =
      extend-Sends p (closed_by s.open_non_tool s) (start_text t) (core s) (core s) []
        (p (text_delta t) ++ []) (closed_by-Sends p s.open_non_tool s) (λ u e. (e, refl))

  pub append_thinking-Sends :
      (p : BlockDelta → Text) (ts : List Text) (s : ChatToAnthropicState N) (k : Core)
      → core s ≡ k
      → Sends p k
          (extend_each append_thinking_delta ts s)
          (joined (map (λ t. p (thinking_delta t) ++ []) ts))
  unfolding extend_each append_thinking_delta
  append_thinking-Sends p [] s k e = (e, refl)
  append_thinking-Sends p (t ∷ ts) s k e =
      let (e', u) = thinking_by-Sends p t (open_index thinking s.open_non_tool) s in
      extend-Sends p (append_thinking_delta t s) (extend_each append_thinking_delta ts) k k _ _
        (e' ∙ e, u) (λ s1 e1. append_thinking-Sends p ts s1 k e1)

  pub append_text-Sends :
      (p : BlockDelta → Text) (ts : List Text) (s : ChatToAnthropicState N) (k : Core)
      → core s ≡ k
      → Sends p k
          (extend_each append_text_delta ts s)
          (joined (map (λ t. p (text_delta t) ++ []) ts))
  unfolding extend_each append_text_delta
  append_text-Sends p [] s k e = (e, refl)
  append_text-Sends p (t ∷ ts) s k e =
      let (e', u) = text_by-Sends p t (open_index text s.open_non_tool) s in
      extend-Sends p (append_text_delta t s) (extend_each append_text_delta ts) k k _ _ (e' ∙ e, u)
        (λ s1 e1. append_text-Sends p ts s1 k e1)

-- What `p` reads in the deltas that the splitter hands on.
abbrev pub parts : (BlockDelta → Text) → List Text × List Text → Text
parts p (think, texts) =
    joined (map (λ t. p (thinking_delta t) ++ []) think)
    ++ joined (map (λ t. p (text_delta t) ++ []) texts)

joined-same : (ts : List Text) → joined (map (λ t. t ++ []) ts) ≡ joined ts
joined-same [] = refl
joined-same (t ∷ ts) = simp (append-nil, joined-same ts)

joined-blank : (ts : List Text) → joined (map (λ t. [] ++ []) ts) ≡ []
joined-blank [] = refl
joined-blank (t ∷ ts) = joined-blank ts

pub parts-thought : (d : List Text × List Text) → parts thought d ≡ joined d.0
parts-thought (think, texts) =
    rw (joined-same think, joined-blank texts) (append-nil (joined think))

pub parts-said : (d : List Text × List Text) → parts said d ≡ joined d.1
parts-said (think, texts) = rw (joined-blank think) (joined-same texts)
