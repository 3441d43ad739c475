-- ===== src/AnthropicStream/Contents/Sending.antt =====
-- src/service/anthropic/stream.rs: what the chunks of an answer send, and the end of its message.
use llm_gateway.Prelude.{
  ℕ, ◌+◌, ◌≡◌, refl, sym, ap, ◌∙◌, subst, none, some, Bool, false, List, [], ◌∷◌, ◌++◌, map,
  if_both,
}
use llm_gateway.Prelude.Text.{Text}
use llm_gateway.InlineThink.{InlineThinkState, feed, flush}
use llm_gateway.Chat.{Numbers, ChatStreamChunk}
use llm_gateway.Chat.Lenient.{delta_content_text}
use llm_gateway.AnthropicStream.{
  ChatToAnthropicState, BlockDelta, Event, message_stop, extend, extend_each, close_open_non_tool,
  append_thinking_delta, append_text_delta,
}
use llm_gateway.AnthropicStream.Tools.{close_entries, dropped_in, close_tools, close_open_blocks}
use llm_gateway.AnthropicStream.Messages.{
  append_reasoning, append_refusal, choice_refusal, choice_calls, note_finish, start_message,
  append_split, append_content, choice_content, process_choice, take_meta, chunk_by, process_chunk,
  flush_think, message_delta_events, end_message, finish_message,
}
use mathlib.Core.List.{append-nil}
use llm_gateway.AnthropicStream.Contents.{
  sent, content_chunk, sent-append, Core, core, Sends, extend-Sends, close_open_non_tool-Sends,
  append_thinking-Sends, append_text-Sends, parts,
}

-- What the chunks send, and the splitter behind them.
unfoldable pub running : (BlockDelta → Text) → InlineThinkState → List Text → Text
running p it [] = []
running p it ([] ∷ ts) = running p it ts
running p it ((c ∷ cs) ∷ ts) = parts p (feed it (c ∷ cs)).1 ++ running p (feed it (c ∷ cs)).0 ts

unfoldable pub last_split : InlineThinkState → List Text → InlineThinkState
last_split it [] = it
last_split it ([] ∷ ts) = last_split it ts
last_split it ((c ∷ cs) ∷ ts) = last_split (feed it (c ∷ cs)).0 ts

abbrev pub flat : Bool → InlineThinkState → Core
flat fin it = (([], 0), (none, fin), it)

module _ {N : Type 0} (num : Numbers N) (p : BlockDelta → Text) where
  append_split-Sends :
      (d : List Text × List Text) (s : ChatToAnthropicState N) (k : Core)
      → core s ≡ k
      → Sends p k (append_split num d s) (parts p d)
  unfolding append_split
  append_split-Sends (think, texts) s k e =
      extend-Sends p (extend_each append_thinking_delta think s)
        (extend_each append_text_delta texts) k k _ _ (append_thinking-Sends p think s k e)
        (λ s1 e1. append_text-Sends p texts s1 k e1)

  append_content-Sends :
      (t : Text) (s : ChatToAnthropicState N) (fin : Bool) (it : InlineThinkState)
      → core s ≡ flat fin it
      → Sends p (flat fin (feed it t).0) (append_content num (some t) s) (parts p (feed it t).1)
  unfolding append_content
  append_content-Sends t s fin it e =
      let same : s.inline_think ≡ it = ap (λ k. k.2) e in
      subst
        (λ i.
          Sends p (flat fin (feed i t).0) (append_content num (some t) s) (parts p (feed i t).1))
        same
        (append_split-Sends (feed s.inline_think t).1
          (record s { inline_think = (feed s.inline_think t).0 })
          (flat fin (feed s.inline_think t).0) (ap (λ k. (k.0, k.1, (feed s.inline_think t).0)) e))

  pub start_message-Sends :
      (s : ChatToAnthropicState N) (k : Core) → core s ≡ k → Sends p k (start_message num s) []
  unfolding start_message
  start_message-Sends s k e =
      if_both (λ (r : ChatToAnthropicState N × List Event). Sends p k r []) s.sent_message_start _ _
        (λ _. (e, refl)) (λ _. (e, refl))

  -- A chunk without an error, on a state that has not failed.
  process_chunk-Sends :
      (chunk : ChatStreamChunk N) (s : ChatToAnthropicState N) (k : Core) (t : Text)
      → s.failed ≡ none
      → chunk.error ≡ none
      → Sends p k
          (extend
            (start_message num (take_meta num chunk s))
            (extend_each (process_choice num) chunk.choices))
          t
      → Sends p k (process_chunk num chunk s) t
  unfolding process_chunk chunk_by
  process_chunk-Sends chunk s k t ok fine v =
      subst
        (λ o.
          Sends {N = N} p k (elim o [ some m ↦ (s, []) | none ↦ chunk_by num chunk.error chunk s ])
            t)
        (sym ok) (subst (λ o. Sends p k (chunk_by num o chunk s) t) (sym fine) v)

  empty_chunk-Sends :
      (s : ChatToAnthropicState N) (it : InlineThinkState)
      → core s ≡ flat false it
      → Sends p (flat false it) (process_chunk num (content_chunk []) s) []
  unfolding extend_each process_choice append_reasoning append_content choice_content
      delta_content_text choice_refusal append_refusal choice_calls note_finish
  empty_chunk-Sends s it e =
      let ok : s.failed ≡ none = ap (λ k. k.1.0) e in
      process_chunk-Sends (content_chunk []) s (flat false it) [] ok refl (
        extend-Sends p (start_message num (take_meta num (content_chunk []) s))
          (extend_each (process_choice num) (content_chunk {N = N} []).choices) (flat false it)
          (flat false it) [] []
          (start_message-Sends (take_meta num (content_chunk []) s) (flat false it)
            (unfold take_meta in e))
          (λ s1 e1. (e1, refl)))

  -- A chunk with a content, that is not empty.
  content_chunk-Sends :
      (c : ℕ) (cs : Text) (s : ChatToAnthropicState N) (it : InlineThinkState)
      → core s ≡ flat false it
      → Sends p
          (flat false (feed it (c ∷ cs)).0)
          (process_chunk num (content_chunk (c ∷ cs)) s)
          (parts p (feed it (c ∷ cs)).1)
  unfolding extend_each process_choice append_reasoning choice_content delta_content_text
      choice_refusal append_refusal choice_calls note_finish
  content_chunk-Sends c cs s it e =
      let ok : s.failed ≡ none = ap (λ k. k.1.0) e in
      let t = c ∷ cs in
      process_chunk-Sends (content_chunk t) s (flat false (feed it t).0) (parts p (feed it t).1) ok
        refl
        (extend-Sends p (start_message num (take_meta num (content_chunk t) s))
          (extend_each (process_choice num) (content_chunk {N = N} t).choices) (flat false it)
          (flat false (feed it t).0) [] (parts p (feed it t).1)
          (start_message-Sends (take_meta num (content_chunk t) s) (flat false it)
            (unfold take_meta in e))
          (λ s1 e1.
            let (e2, sent2) = append_content-Sends t s1 false it e1 in
            (
              e2,
              ap (sent p) (
                    append-nil ((append_content num (some t) s1).1 ++ [])
                    ∙ append-nil (append_content num (some t) s1).1)
                  ∙ sent2,
            )))

  pub chunks-Sends :
      (ts : List Text) (s : ChatToAnthropicState N) (it : InlineThinkState)
      → core s ≡ flat false it
      → Sends p
          (flat false (last_split it ts))
          (extend_each (process_chunk num) (map content_chunk ts) s)
          (running p it ts)
  unfolding extend_each running last_split
  chunks-Sends [] s it e = (e, refl)
  chunks-Sends ([] ∷ ts) s it e =
      extend-Sends p (process_chunk num (content_chunk []) s)
        (extend_each (process_chunk num) (map content_chunk ts)) (flat false it)
        (flat false (last_split it ts)) [] (running p it ts) (empty_chunk-Sends s it e)
        (λ s1 e1. chunks-Sends ts s1 it e1)
  chunks-Sends ((c ∷ cs) ∷ ts) s it e =
      let next = (feed it (c ∷ cs)).0 in
      extend-Sends p (process_chunk num (content_chunk (c ∷ cs)) s)
        (extend_each (process_chunk num) (map content_chunk ts)) (flat false next)
        (flat false (last_split next ts)) (parts p (feed it (c ∷ cs)).1) (running p next ts)
        (content_chunk-Sends c cs s it e) (λ s1 e1. chunks-Sends ts s1 next e1)

  pub flush_think-Sends :
      (s : ChatToAnthropicState N) (fin : Bool) (it : InlineThinkState)
      → core s ≡ flat fin it
      → Sends p (flat fin (flush it).0) (flush_think num s) (parts p (flush it).1)
  unfolding flush_think
  flush_think-Sends s fin it e =
      let same : s.inline_think ≡ it = ap (λ k. k.2) e in
      subst (λ i. Sends p (flat fin (flush i).0) (flush_think num s) (parts p (flush i).1)) same
        (append_split-Sends (flush s.inline_think).1
          (record s { inline_think = (flush s.inline_think).0 }) (flat fin (flush s.inline_think).0)
          (ap (λ k. (k.0, k.1, (flush s.inline_think).0)) e))

  pub close_open_blocks-Sends :
      (s : ChatToAnthropicState N) (fin : Bool) (it : InlineThinkState)
      → core s ≡ flat fin it
      → Sends p (flat fin it) (close_open_blocks s) []
  unfolding close_open_blocks
  close_open_blocks-Sends s fin it e =
      let (e', now) = close_open_non_tool-Sends p s in
      extend-Sends p (close_open_non_tool s) close_tools (flat fin it) (flat fin it) [] []
        (e' ∙ e, now)
        (λ s1 e1.
          unfold close_tools close_entries dropped_in in
          (
            ap (λ k. (((close_entries k.0.0).0, k.0.1 + dropped_in k.0.0), k.1, k.2)) e1,
            ap (λ k. sent p (close_entries k.0.0).1) e1,
          ))

  pub finish_message-Sends :
      (r : ChatToAnthropicState N × List Event) (k : Core) (t : Text)
      → Sends p k r t
      → k.0.1 ≡ 0
      → sent p (finish_message num false r).1 ≡ t ++ []
  unfolding finish_message end_message message_delta_events
  finish_message-Sends r k t (e, now) none_dropped =
      let zero_dropped : r.0.dropped_tools ≡ 0 = ap (λ k. k.0.1) e ∙ none_dropped in
      rw zero_dropped (
        sent-append p r.1 _
        ∙ if_both
            (λ (x : ChatToAnthropicState N × List Event).
              sent p r.1 ++ sent p (extend x (λ s1. (s1, message_stop ∷ []))).1 ≡ t ++ [])
            r.0.has_emitted_message_delta _ _ (λ _. ap (λ x. x ++ []) now)
            (λ _. ap (λ x. x ++ []) now))
