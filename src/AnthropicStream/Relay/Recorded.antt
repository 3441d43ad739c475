-- ===== src/AnthropicStream/Relay/Recorded.antt =====
-- src/service/anthropic/stream.rs: how often the usage of a stream is recorded.
use llm_gateway.Prelude.{
  ℕ, ◌+◌, ◌≡◌, refl, ap, ◌∙◌, Bool, Option, none, some, true, false, ◌||◌, List, [], ◌∷◌, arith,
  length, length-append, if_both, if◌then◌else◌, ◌++◌, inl, inr, Bool-cases,
}
use llm_gateway.Prelude.Text.{Text}
use llm_gateway.Json.{Value}
use llm_gateway.Chat.{Numbers}
use llm_gateway.Sse.{push}
use llm_gateway.AnthropicStream.{ChatToAnthropicState, Event, extend_each}
use llm_gateway.AnthropicStream.Messages.{transport_error, finalize, finalize_truncated}
use llm_gateway.AnthropicStream.Relay.{
  BillingUsage, ConvertCtx, Item, ok, err, pending, billing_usage, feed_payloads, record_once,
  settle, finish, start_item, on_item, start_tail, on_tail, new_ctx, relay, relay_part, cancel,
  drop,
}

-- The records of a stream that the client leaves: none, if a record was awaited and the database has
-- not written it by then, and else one.
abbrev pub kept : Bool → Option (Option BillingUsage) → ℕ
kept true awaiting = 1
kept false none = 1
kept false (some usage) = 0

module _ {N : Type 0} (num : Numbers N) (parse : Text → Option (Value N))
    (show : Value N → Text) where
  -- One usage is recorded or awaited, where the flag is set, and else none.
  abbrev Counted : ConvertCtx N → Type 0
  Counted r = length r.records + length (pending r.awaiting) ≡ (if r.recorded then 1 else 0)

  -- Between two items no record is awaited.
  abbrev Settled : ConvertCtx N → Type 0
  Settled r = Counted r × (r.awaiting ≡ none)

  record_once-Counted : (r : ConvertCtx N) → Settled r → Counted (record_once num parse show r)
  unfolding record_once
  record_once-Counted r (h, e) =
      if_both Counted r.recorded _ _ (λ _. h) (λ fresh. ground (arith, h))

  settle-Settled : (r : ConvertCtx N) → Counted r → Settled (settle num parse show r)
  unfolding settle
  settle-Settled r h = (ground (arith, length-append r.records (pending r.awaiting)), refl)

  finish-Counted :
      (end : ChatToAnthropicState N → ChatToAnthropicState N × List Event) (r : ConvertCtx N)
      → Settled r
      → Counted (finish num parse show end r).0
  unfolding finish
  finish-Counted end r h =
      if_both (λ (x : ConvertCtx N × List Event). Counted x.0) r.finished _ _ (λ _. h.0)
        (λ _. record_once-Counted (record r { state = (end r.state).0; finished = true }) h)

  start_item-Counted :
      (x : Item) (r : ConvertCtx N) → Settled r → Counted (start_item num parse show x r).0
  unfolding start_item
  start_item-Counted (err m) r h = finish-Counted (transport_error m) r h
  start_item-Counted (ok chunk) r h =
      let pushed = push chunk r.parser in
      let fed = feed_payloads num parse show pushed.1 r.state in
      if_both (λ (x : ConvertCtx N × List Event). Counted x.0) (pushed.2 || fed.2) _ _
        (λ _. finish-Counted (finalize num) (record r { parser = pushed.0; state = fed.0 }) h)
        (λ _. h.0)

  items-Settled :
      (xs : List Item) (r : ConvertCtx N)
      → Settled r
      → Settled (extend_each (on_item num parse show) xs r).0
  unfolding extend_each on_item
  items-Settled [] r h = h
  items-Settled (x ∷ xs) r h =
      let started = (start_item num parse show x r).0 in
      items-Settled xs (settle num parse show started)
        (settle-Settled started (start_item-Counted x r h))

  kept_by :
      (written set : Bool) (n : ℕ) (o : Option (Option BillingUsage))
      → n + length (pending o) ≡ (if set then 1 else 0)
      → (if written then n + length (pending o) else n) + (if set then 0 else 1) ≡ kept written o
  kept_by true true n o h = omega (arith, h)
  kept_by true false n o h = omega (arith, h)
  kept_by false true n none h = omega (arith, h)
  kept_by false true n (some u) h = omega (arith, h)
  kept_by false false n none h = omega (arith, h)
  kept_by false false n (some u) h = omega (arith, h)

  settle_once :
      (c : ConvertCtx N)
      → c.awaiting ≡ none
      → length (settle num parse show (record_once num parse show c)).records
        ≡ length c.records + (if c.recorded then 0 else 1)
  unfolding settle record_once
  settle_once c e = elim (Bool-cases c.recorded) [
    | inl set ↦ rw (set, e) (ground (arith, length-append c.records []))
    | inr fresh ↦ rw fresh (length-append c.records (billing_usage num parse show c.state ∷ []))
  ]

  drop-kept :
      (written : Bool) (r : ConvertCtx N)
      → Counted r
      → length (drop num parse show written r).records ≡ kept written r.awaiting
  unfolding drop cancel record_once settle
  drop-kept written r h =
      settle_once (cancel num parse show written r) refl
      ∙ ap (λ n. n + (if r.recorded then 0 else 1)) (left written)
      ∙ kept_by written r.recorded (length r.records) r.awaiting h
    where
      left :
          (w : Bool)
          → length (if w then r.records ++ pending r.awaiting else r.records)
            ≡ (if w then length r.records + length (pending r.awaiting) else length r.records)
      left true = length-append r.records (pending r.awaiting)
      left false = refl

  drop-one :
      (written : Bool) (r : ConvertCtx N)
      → Settled r
      → length (drop num parse show written r).records ≡ 1
  drop-one written r (h, e) = drop-kept written r h ∙ settled written r.awaiting e
    where
      settled : (w : Bool) (o : Option (Option BillingUsage)) → o ≡ none → kept w o ≡ 1
      settled true o e = refl
      settled false o e = ap (kept false) e

  -- Whatever comes from the upstream: if the client reads the stream to its end, or leaves it between
  -- two items, then one usage has been recorded when the stream has been dropped. If it leaves while
  -- the next item, or the end of the stream, is worked on, then there is also one record, unless the
  -- stream awaits that record and the database has not written it by then: then there is none.
  pub drop-records :
      (id model : Text) (items : List Item) (next : Item) (written : Bool)
      → let start = new_ctx num parse show id model in
        let part = (relay_part num parse show items start).0 in
        let item = (start_item num parse show next part).0 in
        let tail = (start_tail num parse show part).0 in
        (length (drop num parse show written (relay num parse show items start).0).records ≡ 1)
        × (length (drop num parse show written part).records ≡ 1)
        × (length (drop num parse show written item).records ≡ kept written item.awaiting)
        × (length (drop num parse show written tail).records ≡ kept written tail.awaiting)
  unfolding relay relay_part on_tail start_tail
  drop-records id model items next written =
      let start = new_ctx num parse show id model in
      let part = (extend_each (on_item num parse show) items start).0 in
      let settled = items-Settled items start (refl, refl) in
      let tail = (start_tail num parse show part).0 in
      let tail_counted = finish-Counted (finalize_truncated num) part settled in
      (
        drop-one written (settle num parse show tail) (settle-Settled tail tail_counted),
        drop-one written part settled,
        drop-kept written (start_item num parse show next part).0
            (start_item-Counted next part settled),
        drop-kept written tail tail_counted,
      )
