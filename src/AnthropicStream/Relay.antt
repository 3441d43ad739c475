-- ===== src/AnthropicStream/Relay.antt =====
-- src/service/anthropic/stream.rs: `wrap_chat_stream_to_anthropic`, from the upstream's bytes to the
-- client's events and the usage that is recorded. The locks make each item of the stream one step up
-- to the record of the usage, which the stream awaits outside the locks: the client may leave there. What
-- reads a JSON text, and writes one, is a parameter.
pub mod Recorded
pub mod Payloads
pub mod Whole
use llm_gateway.Prelude.{
  ℕ, Option, none, some, Bool, true, false, ◌||◌, ◌&&◌, List, [], ◌∷◌, ◌++◌, length, if◌then◌else◌,
}
use llm_gateway.Prelude.Eq.{option_beq, List_Eq, ℕ_Eq}
use llm_gateway.Prelude.Int.{ℤ}
use llm_gateway.Prelude.Text.{Text, codes}
use llm_gateway.Json.{Value, string, object, and_then}
use llm_gateway.Chat.{Numbers, ChatStreamChunk, Usage}
use llm_gateway.Chat.Lenient.{from_json_str}
use llm_gateway.Chat.Tokens.{input, output, cached_tokens, cache_write_tokens}
use llm_gateway.Sse.{Bytes, SseEvent, ChatSseParser, new_parser, push}
use llm_gateway.AnthropicStream.{ChatToAnthropicState, Event, extend, extend_each, new}
use llm_gateway.AnthropicStream.Messages.{
  transport_error, process_chunk, has_failed, finalize, finalize_truncated,
}

-- `store::usage::Usage`, with the counts that are set.
pub record BillingUsage : Type 0 where
  pub prompt_tokens : ℤ
  pub completion_tokens : ℤ
  pub cache_read_tokens : ℤ
  pub cache_write_tokens : ℤ

-- `ConvertCtx`, with the usage whose record is awaited and the usages that were recorded.
pub record ConvertCtx (N : Type 0) : Type 0 where
  pub parser : ChatSseParser
  pub state : ChatToAnthropicState N
  pub finished : Bool
  pub recorded : Bool
  pub awaiting : Option (Option BillingUsage)
  pub records : List (Option BillingUsage)

abbrev pub pending : Option (Option BillingUsage) → List (Option BillingUsage)
pending none = []
pending (some usage) = usage ∷ []

-- What the upstream's stream gives: bytes, or an error.
pub data Item : Type 0 where
  ok : Bytes → Item
  err : Text → Item

module _ {N : Type 0} (num : Numbers N) (parse : Text → Option (Value N))
    (show : Value N → Text) where
  pub billing_usage : ChatToAnthropicState N → Option BillingUsage
  unfolding input output cached_tokens cache_write_tokens
  billing_usage s = and_then s.usage (λ u. some (record {
    prompt_tokens = input num u;
    completion_tokens = output num u;
    cache_read_tokens = cached_tokens num u;
    cache_write_tokens = cache_write_tokens num u;
  }))

  -- An event with the name `error` is one, where its data do not say so.
  with_error : SseEvent → ChatStreamChunk N → ChatStreamChunk N
  with_error e cc = elim cc.error [
    | some v ↦ cc
    | none ↦
        if option_beq e.event (some (codes "error"))
        then record cc { error = some (object ((codes "message", string e.payload) ∷ [])) }
        else cc
  ]

  -- The chunk of an event, where its data are JSON.
  pub payload_chunk : SseEvent → Option (ChatStreamChunk N)
  unfolding from_json_str with_error
  payload_chunk e = and_then (from_json_str num show parse e.payload) (λ cc. some (with_error e cc))

  feed_by :
      Option (ChatStreamChunk N)
      → (ChatToAnthropicState N → ChatToAnthropicState N × List Event × Bool)
      → ChatToAnthropicState N
      → ChatToAnthropicState N × List Event × Bool
  unfolding process_chunk has_failed
  feed_by none rest s = rest s
  feed_by (some cc) rest s =
      let (s1, es) = process_chunk num cc s in
      let (s2, fs, failed) = rest s1 in (s2, es ++ fs, has_failed s1 || failed)

  -- The loop over the payloads, and whether one of them has failed.
  pub feed_payloads :
      List SseEvent → ChatToAnthropicState N → ChatToAnthropicState N × List Event × Bool
  unfolding payload_chunk feed_by
  feed_payloads [] s = (s, [], false)
  feed_payloads (e ∷ es) s = feed_by (payload_chunk e) (feed_payloads es) s

  -- `recorded.swap(true)`, and the call of `usage::record` by the first one, up to its await.
  pub record_once : ConvertCtx N → ConvertCtx N
  unfolding billing_usage
  record_once r =
      if r.recorded
      then r
      else record r { recorded = true; awaiting = some (billing_usage r.state) }

  -- An awaited `usage::record` comes back.
  pub settle : ConvertCtx N → ConvertCtx N
  settle r = record r { awaiting = none; records = r.records ++ pending r.awaiting }

  -- `finished.swap(true)`, and the end of the message by the first one.
  pub finish :
      (ChatToAnthropicState N → ChatToAnthropicState N × List Event)
      → ConvertCtx N
      → ConvertCtx N × List Event
  unfolding record_once
  finish end r =
      if r.finished
      then (r, [])
      else let (s, es) = end r.state in (record_once (record r { state = s; finished = true }), es)

  -- The closure on an item of the stream, up to the await.
  pub start_item : Item → ConvertCtx N → ConvertCtx N × List Event
  unfolding push feed_payloads finish finalize transport_error
  start_item (err message) r = finish (transport_error message) r
  start_item (ok chunk) r =
      let (parser, payloads, terminal) = push chunk r.parser in
      let (s, es, failed) = feed_payloads payloads r.state in
      let fed = record r { parser = parser; state = s } in
      if terminal || failed then extend (fed, es) (finish (finalize num)) else (fed, es)

  -- The closure to its end.
  pub on_item : Item → ConvertCtx N → ConvertCtx N × List Event
  unfolding start_item settle
  on_item x r = let (s, es) = start_item x r in (settle s, es)

  -- The closure behind the stream's end, up to the await, and to its end.
  pub start_tail : ConvertCtx N → ConvertCtx N × List Event
  unfolding finish finalize_truncated
  start_tail r = finish (finalize_truncated num) r

  pub on_tail : ConvertCtx N → ConvertCtx N × List Event
  unfolding start_tail settle
  on_tail r = let (s, es) = start_tail r in (settle s, es)

  abbrev pub new_ctx : Text → Text → ConvertCtx N
  new_ctx message_id model = record {
    parser = new_parser;
    state = new message_id model;
    finished = false;
    recorded = false;
    awaiting = none;
    records = [];
  }

  -- The stream to its end, and the items of a stream that the client leaves.
  pub relay : List Item → ConvertCtx N → ConvertCtx N × List Event
  unfolding on_item on_tail extend_each
  relay items r = extend (extend_each on_item items r) on_tail

  pub relay_part : List Item → ConvertCtx N → ConvertCtx N × List Event
  unfolding on_item extend_each
  relay_part items r = extend_each on_item items r

  -- An await that the client leaves is never taken up again; the database may have `written` the
  -- record by then.
  pub cancel : Bool → ConvertCtx N → ConvertCtx N
  cancel written r = record r {
    awaiting = none;
    records = if written then r.records ++ pending r.awaiting else r.records;
  }

  -- The drop of the stream, at its end or before, and then `BillingOnDrop`, whose record is a task
  -- that runs to its end.
  pub drop : Bool → ConvertCtx N → ConvertCtx N
  unfolding cancel record_once settle
  drop written r = settle (record_once (cancel written r))
