-- ===== src/Lib.antt =====
-- LLM gateway: the decisions that the gateway takes between a request and its upstream.
--
-- A request passes the limit on requests in flight, the quota of its user's plan, the route of its
-- model and the lists of who may use what; the circuit breaker then says which upstreams are tried,
-- and what the request cost is counted against the plan. Each part is modelled by pure functions on
-- an explicit state; what the source keeps behind a mutex is an argument and a result.
--
-- Parts and files (paths from the repository's root):
--   Messages: `MessageTemplates` of src/state.rs.
--   RateLimit: src/service/ratelimit.rs. Rules has `matched_rules`; Limiter has `dedup_min_limit`,
--     `ConcurrencyLimiter` and the drop of its guard; Apply has `apply_concurrency_limits` and the
--     runs in which requests arrive and end in any order.
--   Breaker: src/service/breaker.rs. `allow`, `record_success`, `record_failure` and
--     `filter_candidates` keep their names; what they do to one provider's entry is `allow_entry`,
--     `success_entry` and `failure_entry`.
--   Routing: src/service/routing.rs, with the rows of src/store/upstream.rs, src/store/access.rs
--     and src/store/rules.rs; Routing.Cost is `compute_cost`.
--   Proxy.Candidates: the part of `proxy_authed` in src/service/proxy.rs from the route to the
--     list of upstreams that the loops try, with the breaker's check in the loops; Proxy.Active is
--     `UserActiveGuard` of the same file.
--   Plans: Config, Scope, Period and Runtime are pure functions of src/store/plans.rs, Usage is
--     `UsageCache` of src/service/usage.rs, Alerts is src/service/notify.rs up to the delivery of an
--     alert, and Quota is `check_plan` and `after_usage_record_with_key` of src/service/plans.rs,
--     which put these together.
--   InlineThink: src/service/inline_think.rs, `feed` and `flush` on the state, and
--     `split_leading_think`.
--   Json: the values of serde_json; History: `ResponseHistoryStore` of
--     src/service/responses/history.rs and `enrich_request_with_history`.
--   ModelFamily: src/service/model_family.rs; Apply has the two functions that change a request.
--   Outbound: SystemHead is `collect_system_to_head` of src/service/system_head.rs, Rectify is
--     src/service/rectify.rs, with `rectify_outbound` in Messages and the budget in Budget.
--   ToolContext: src/service/responses/tool_ctx.rs.
--   Chat: the chunks of an upstream's stream, src/service/responses/dto.rs; Tokens has the counts of
--     a usage, ToolKey `resolve_no_index_tool_key`. Sse: `ChatSseParser` of
--     src/service/responses/stream.rs.
--   AnthropicStream: src/service/anthropic/stream.rs. The root has the state and the blocks of
--     thinking and text, Tools the blocks of tool calls, Messages `process_chunk` and `finalize`,
--     Relay `wrap_chat_stream_to_anthropic`, which joins them with Sse and InlineThink, up to the
--     await of each record of a usage, behind it, and where the client leaves in it. Client is
--     the protocol that a client of the Anthropic interface follows, written without the code.
--   Prelude: what the parts share; Examples: concrete runs.
--
-- Choices. Texts are lists of Unicode scalar values. A hash map is an association list, of which
-- every statement goes through `lookup`. Identifiers and limits are signed integers; a count of
-- requests is a natural number, which the source's i64 holds for every count that occurs. Where
-- the source saturates or wraps, the model does. A time is its nanoseconds since an origin before
-- it. A call of the breaker reads its clock once, where the source may read it up to three times.
-- The error rate of the breaker is a fraction of two numbers, the random part of the retry time an
-- f64 given as a numerator under a scale, whose sum is rounded as IEEE 754 does, and a price a type with its conversion to micro-dollars as a parameter.
-- A JSON object is its map sorted by keys, as serde_json's is without the feature preserve_order;
-- a number is a type with what the source asks of it, and the parser, the printer, the length of
-- the printed form and the lower case of Unicode are parameters. The calendar of Plans.Period is a
-- record of what chrono gives and of the laws that it keeps. An event of a converted stream is a
-- value, of which serde_json prints the frame. Every recursion is on a list or a JSON value, but for
-- the digits of a number, whose fuel is its successor, and the loop of the event parser, whose fuel
-- is the number of bytes in its buffer.
--
-- Not modelled: the HTTP handlers, the database and the LDAP directory, the delivery of alerts,
-- log lines, cryptography, the token bucket of src/service/ratelimit.rs (floating point), the
-- conversions between dialects in src/service/anthropic and src/service/responses apart from the
-- Anthropic stream, the history and the tool context, and the JSON columns, whose parsed value the models start from.
pub mod Prelude
pub mod Messages
pub mod RateLimit
pub mod Breaker
pub mod Routing
pub mod Proxy
pub mod Plans
pub mod InlineThink
pub mod Json
pub mod History
pub mod ModelFamily
pub mod Outbound
pub mod ToolContext
pub mod Chat
pub mod Sse
pub mod AnthropicStream
mod Examples
