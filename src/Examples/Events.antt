-- ===== src/Examples/Events.antt =====
-- Runs of the event streams, with a small JSON reader.
use llm_gateway.Prelude.{
  ◌≡◌, ◌≢◌, refl, Option, none, some, false, List, [], ◌∷◌, ◌++◌, arith, length, map, if◌then◌else◌,
}
use llm_gateway.Prelude.Eq.{◌==◌, List_Eq, ℕ_Eq}
use llm_gateway.Prelude.Int.{ℤ, pos, ◌+ℤ◌, ℤ_Eq}
use llm_gateway.Prelude.Map.{lookup}
use llm_gateway.Prelude.Text.{Text, codes, show_ℤ, split_first}
use llm_gateway.Json.{Value, number, string, object, array, get}
use llm_gateway.InlineThink.Reasoning.{joined, whole}
use llm_gateway.Plans.Usage.{max_i64}
use llm_gateway.Chat.{Numbers, ToolCallDelta, ChatStreamChunk, Usage}
use llm_gateway.Chat.Tokens.{
  input, cached_tokens, cache_write_tokens, anthropic_usage, anthropic_usage-total,
}
use llm_gateway.Sse.{Bytes, new_parser, cut_event, read_event, drain, push}
use llm_gateway.Sse.Draining.{Settled, drain-Settled}
use llm_gateway.Sse.Chunked.{NoReturn, with_events, push-append}
use llm_gateway.AnthropicStream.{ChatToAnthropicState, new}
use llm_gateway.AnthropicStream.Tools.{new_block, max_key, key_of_id, chat_index}
use llm_gateway.AnthropicStream.ToolKeys.{chat_index_fresh}
use llm_gateway.AnthropicStream.Client.{fresh_client}
use llm_gateway.AnthropicStream.Ending.{Ends}
use llm_gateway.AnthropicStream.Session.{session, done, session-Ends}
use llm_gateway.AnthropicStream.Contents.{sent, thought, said, content_chunk}
use llm_gateway.AnthropicStream.Contents.Answer.{session-whole}
use llm_gateway.AnthropicStream.Relay.{
  ConvertCtx, Item, ok, err, new_ctx, start_item, start_tail, relay, relay_part, drop,
}
use llm_gateway.AnthropicStream.Relay.Recorded.{kept, drop-records}
use llm_gateway.AnthropicStream.Relay.Whole.{NoLateEvents, relay-Ends}

abbrev num : Numbers ℤ
num = record { to_text = show_ℤ; as_i64 = λ n. some n; as_f64_i64 = λ n. some n }

abbrev tool_chunk : ChatStreamChunk ℤ
tool_chunk = record {
  id = codes "c1";
  model = codes "m";
  created = none;
  choices =
      record {
        index = pos 0;
        delta = record {
          content = none;
          reasoning_content = none;
          reasoning = none;
          tool_calls =
              record {
                index = none;
                id = some (codes "call");
                function = some (record { name = some (codes "f"); arguments = some (codes "{}") });
              }
              ∷ [];
          refusal = none;
        };
        finish_reason = some (codes "tool_calls");
      }
      ∷ [];
  usage = none;
  error = none;
}

abbrev chunks : List (ChatStreamChunk ℤ)
chunks = content_chunk (codes "<think>a</think>b") ∷ tool_chunk ∷ []

session-Ends_example : Ends (session num chunks done (new (codes "1") (codes "m"))).1 fresh_client
session-Ends_example = session-Ends num (codes "1") (codes "m") chunks done

abbrev answer : List Text
answer = codes "<thi" ∷ codes "nk>a</think>" ∷ codes "b" ∷ []

session-whole_example :
    (sent thought (session num (map content_chunk answer) done (new (codes "1") (codes "m"))).1
      ≡ (whole (joined answer)).0)
    × (sent said (session num (map content_chunk answer) done (new (codes "1") (codes "m"))).1
        ≡ (whole (joined answer)).1)
session-whole_example = session-whole num (codes "1") (codes "m") answer

-- Reads one text, a chunk with the content `hi`.
abbrev parse : Text → Option (Value ℤ)
parse t =
    if t == codes "hi"
    then some (
        object (
          (
            codes "choices",
            array (
                object ((codes "delta", object ((codes "content", string (codes "hi")) ∷ [])) ∷ [])
                ∷ []),
          )
          ∷ []))
    else none

abbrev show : Value ℤ → Text
show v = []

abbrev items : List Item
items = ok (codes "data: hi\n\n") ∷ err (codes "reset") ∷ []

items-NoLateEvents :
    NoLateEvents num parse show items (new_ctx num parse show (codes "1") (codes "m"))
items-NoLateEvents = ((λ e f. absurd (ground arith)), (tt, tt))

relay-Ends_example :
    Ends
      (relay num parse show items (new_ctx num parse show (codes "1") (codes "m"))).1
      fresh_client
relay-Ends_example = relay-Ends num parse show (codes "1") (codes "m") items items-NoLateEvents

abbrev parted : ConvertCtx ℤ
parted = (relay_part num parse show items (new_ctx num parse show (codes "1") (codes "m"))).0

drop-records_example :
    (length
        (drop num parse show false
          (relay num parse show items (new_ctx num parse show (codes "1") (codes "m"))).0).records
      ≡ 1)
    × (length (drop num parse show false parted).records ≡ 1)
    × (length (drop num parse show false (start_item num parse show (ok []) parted).0).records
        ≡ kept false (start_item num parse show (ok []) parted).0.awaiting)
    × (length (drop num parse show false (start_tail num parse show parted).0).records
        ≡ kept false (start_tail num parse show parted).0.awaiting)
drop-records_example = drop-records num parse show (codes "1") (codes "m") items (ok []) false

abbrev first_bytes : Bytes
first_bytes = codes "data: x\n\ndata"

abbrev more_bytes : Bytes
more_bytes = codes ": y\n\n"

first_bytes-NoReturn : NoReturn (new_parser.buf ++ first_bytes)
first_bytes-NoReturn = ground arith

first_bytes-live : (push first_bytes new_parser).2 ≡ false
unfolding push drain cut_event read_event split_first
first_bytes-live = refl

push-append_example :
    push (first_bytes ++ more_bytes) new_parser
    ≡ with_events (push first_bytes new_parser).1 (push more_bytes (push first_bytes new_parser).0)
push-append_example =
    push-append new_parser first_bytes more_bytes first_bytes-NoReturn (omega arith)
      first_bytes-live

drain-Settled_example : Settled (drain 20 first_bytes)
drain-Settled_example = drain-Settled 20 first_bytes (omega arith)

abbrev second_call : ToolCallDelta
second_call = record { index = none; id = some (codes "b"); function = none }

abbrev one_call : ChatToAnthropicState ℤ
one_call = record (new {N = ℤ} (codes "1") (codes "m")) {
  tools = (pos 3, record (new_block 0) { id = codes "a" }) ∷ [];
}

one_call-full : max_key one_call.tools ≢ some max_i64
unfolding max_key
one_call-full = ground arith

one_call-new : key_of_id (codes "b") one_call.tools ≡ none
unfolding key_of_id
one_call-new = refl

chat_index_fresh_example : lookup (chat_index second_call one_call) one_call.tools ≡ none
chat_index_fresh_example =
    chat_index_fresh second_call one_call (codes "b") (tt, tt) one_call-full refl refl one_call-new

abbrev usage : Usage ℤ
usage = record {
  prompt_tokens = some (pos 100);
  completion_tokens = some (pos 7);
  total_tokens = none;
  input_tokens = none;
  output_tokens = none;
  prompt_tokens_details = some (object ((codes "cached_tokens", number (pos 60)) ∷ []));
  completion_tokens_details = none;
  input_tokens_details = none;
  cache_read_input_tokens = none;
  cache_creation_input_tokens = some (pos 10);
  prompt_cache_hit_tokens = none;
}

usage-input : input num usage ≡ pos 100
unfolding input
usage-input = refl

usage-cached : cached_tokens num usage ≡ pos 60
unfolding cached_tokens get lookup
usage-cached = refl

usage-written : cache_write_tokens num usage ≡ pos 10
unfolding cache_write_tokens
usage-written = refl

anthropic_usage-total_example :
    (anthropic_usage num usage).input_tokens
      +ℤ (anthropic_usage num usage).cache_creation_input_tokens
      +ℤ (anthropic_usage num usage).cache_read_input_tokens
    ≡ input num usage
anthropic_usage-total_example =
    anthropic_usage-total num usage 100 60 10 usage-input usage-cached usage-written (omega arith)
      (omega arith) (omega arith)
