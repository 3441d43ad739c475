-- ===== src/AnthropicStream/Relay/Whole.antt =====
-- src/service/anthropic/stream.rs: what the client is sent over the whole stream.
use llm_gateway.Prelude.{
  ◌≡◌, refl, sym, ap, subst, Option, none, some, Bool, true, false, ◌||◌, List, [], ◌∷◌, if_both,
  Option-cases, inl, inr, if◌then◌else◌,
}
use llm_gateway.Prelude.Text.{Text}
use llm_gateway.Json.{Value}
use llm_gateway.Chat.{Numbers}
use llm_gateway.Sse.{Bytes, push}
use llm_gateway.AnthropicStream.{ChatToAnthropicState, Event, extend, extend_each}
use llm_gateway.AnthropicStream.Messages.{transport_error, has_failed, finalize, finalize_truncated}
use llm_gateway.AnthropicStream.Client.{ended, Client, fresh_client, Takes, Takes-append}
use llm_gateway.AnthropicStream.Ending.{Ends}
use llm_gateway.AnthropicStream.Session.{
  Follows, idle, finalize_inner-Ends, transport_error-Ends, new-Idle,
}
use llm_gateway.AnthropicStream.Relay.{
  ConvertCtx, Item, ok, err, feed_payloads, record_once, finish, settle, start_item, on_item,
  start_tail, on_tail, new_ctx, relay,
}
use llm_gateway.AnthropicStream.Relay.Payloads.{feed_payloads-Lead, feed_payloads-failed}

module _ {N : Type 0} (num : Numbers N) (parse : Text → Option (Value N))
    (show : Value N → Text) where
  -- The client is in step until the message has ended; `finished` says that it has.
  data Tracks (r : ConvertCtx N) (c : Client) : Type 0 where
    open_still : r.finished ≡ false → Follows num r.state c → Tracks r c
    shut_now : r.finished ≡ true → c.phase ≡ ended → Tracks r c

  settle-Tracks : (r : ConvertCtx N) (c : Client) → Tracks r c → Tracks (settle num parse show r) c
  unfolding settle
  settle-Tracks r c (open_still e v) = open_still e v
  settle-Tracks r c (shut_now e h) = shut_now e h

  abbrev Carried : ConvertCtx N × List Event → Client → Type 0
  Carried r c = (d : Client) × Takes c r.1 d × Tracks r.0 d

  record_once-finished : (r : ConvertCtx N) → (record_once num parse show r).finished ≡ r.finished
  unfolding record_once
  record_once-finished r =
      if_both (λ (x : ConvertCtx N). x.finished ≡ r.finished) r.recorded _ _ (λ _. refl) (λ _. refl)

  abbrev Finishes : ConvertCtx N × List Event → Client → Type 0
  Finishes r c = (d : Client) × Takes c r.1 d × (d.phase ≡ ended) × (r.0.finished ≡ true)

  -- The end of the message, by the first call of `finish`.
  finish-Carried :
      (end : ChatToAnthropicState N → ChatToAnthropicState N × List Event) (r : ConvertCtx N)
      (c : Client)
      → ((s : ChatToAnthropicState N) (d : Client) → Follows num s d → Ends (end s).1 d)
      → Tracks r c
      → Finishes (finish num parse show end r) c
  unfolding finish Takes
  finish-Carried end r c ends (open_still e v) =
      let (d, taken, over) = ends r.state c v in
      let shut =
        record_once num parse show (record r { state = (end r.state).0; finished = true }) in
      subst (λ b. Finishes (if b then (r, []) else (shut, (end r.state).1)) c) (sym e)
        (d, taken, over, record_once-finished _)
  finish-Carried end r c ends (shut_now e h) =
      let shut =
        record_once num parse show (record r { state = (end r.state).0; finished = true }) in
      subst (λ b. Finishes (if b then (r, []) else (shut, (end r.state).1)) c) (sym e)
        (c, refl, h, e)

  -- Behind the end of a message that has not failed, the upstream's bytes hold no event.
  abbrev NoLateEvent : Item → ConvertCtx N → Type 0
  NoLateEvent (err m) r = Unit
  NoLateEvent (ok chunk) r =
      r.finished ≡ true → has_failed r.state ≡ false → (push chunk r.parser).1 ≡ []

  abbrev pub NoLateEvents : List Item → ConvertCtx N → Type 0
  NoLateEvents [] r = Unit
  NoLateEvents (x ∷ xs) r = NoLateEvent x r × NoLateEvents xs (on_item num parse show x r).0

  -- The end of an item, behind its payloads.
  item_end-Carried :
      (over : Bool) (r : ConvertCtx N) (es : List Event) (c d : Client)
      → Takes c es d
      → Tracks r d
      → Carried (if over then extend (r, es) (finish num parse show (finalize num)) else (r, es)) c
  unfolding finalize
  item_end-Carried over r es c d taken v =
      if_both (λ (x : ConvertCtx N × List Event). Carried x c) over _ _
        (λ _.
          let (e, taken', ends, shut) =
            finish-Carried (finalize num) r d (finalize_inner-Ends num false) v in
          (
            e,
            Takes-append c d e es (finish num parse show (finalize num) r).1 taken taken',
            shut_now shut ends,
          ))
        (λ _. (d, taken, v))

  -- Of a message that has ended, nothing more comes from bytes without late events.
  late-quiet :
      (chunk : Bytes) (r : ConvertCtx N)
      → r.finished ≡ true
      → NoLateEvent (ok chunk) r
      → (feed_payloads num parse show (push chunk r.parser).1 r.state).1 ≡ []
  unfolding has_failed
  late-quiet chunk r e quiet = elim (Option-cases r.state.failed) [
    | inl going ↦
        let none_come =
          quiet e (ap (λ (o : Option Text). elim o [ none ↦ false | some m ↦ true ]) going) in
        subst (λ es. (feed_payloads num parse show es r.state).1 ≡ []) (sym none_come)
          (unfold feed_payloads in refl)
    | inr (m, failed) ↦
        (feed_payloads-failed num parse show (push chunk r.parser).1 r.state m failed).1
  ]

  start_item-Carried :
      (x : Item) (r : ConvertCtx N) (c : Client)
      → NoLateEvent x r
      → Tracks r c
      → Carried (start_item num parse show x r) c
  unfolding start_item Takes
  start_item-Carried (err m) r c quiet v =
      let (d, taken, ends, shut) =
        finish-Carried (transport_error m) r c (transport_error-Ends num m) v in
      (d, taken, shut_now shut ends)
  start_item-Carried (ok chunk) r c quiet (open_still e v) =
      let pushed = push chunk r.parser in
      let fed = feed_payloads num parse show pushed.1 r.state in
      let (d, taken, w) = feed_payloads-Lead num parse show pushed.1 r.state c v in
      item_end-Carried (pushed.2 || fed.2) (record r { parser = pushed.0; state = fed.0 }) fed.1 c d
        taken (open_still e w)
  start_item-Carried (ok chunk) r c quiet (shut_now e h) =
      let pushed = push chunk r.parser in
      let fed = feed_payloads num parse show pushed.1 r.state in
      item_end-Carried (pushed.2 || fed.2) (record r { parser = pushed.0; state = fed.0 }) fed.1 c c
        (subst (λ es. Takes c es c) (sym (late-quiet chunk r e quiet)) refl) (shut_now e h)

  on_item-Carried :
      (x : Item) (r : ConvertCtx N) (c : Client)
      → NoLateEvent x r
      → Tracks r c
      → Carried (on_item num parse show x r) c
  unfolding on_item
  on_item-Carried x r c quiet v =
      let (d, taken, w) = start_item-Carried x r c quiet v in
      (d, taken, settle-Tracks (start_item num parse show x r).0 d w)

  items-Carried :
      (xs : List Item) (r : ConvertCtx N) (c : Client)
      → NoLateEvents xs r
      → Tracks r c
      → Carried (extend_each (on_item num parse show) xs r) c
  unfolding extend_each Takes
  items-Carried [] r c quiet v = (c, refl, v)
  items-Carried (x ∷ xs) r c (quiet, later) v =
      let (d, taken, w) = on_item-Carried x r c quiet v in
      let (e, taken', w') = items-Carried xs (on_item num parse show x r).0 d later w in
      (e, Takes-append c d e (on_item num parse show x r).1 _ taken taken', w')

  -- Whatever bytes and errors come from the upstream, as long as no event follows the end of a message
  -- that has not failed, a client of the Anthropic interface accepts all the events that it is sent,
  -- in the order of their protocol, and the last one ends the message.
  pub relay-Ends :
      (id model : Text) (items : List Item)
      → NoLateEvents items (new_ctx num parse show id model)
      → Ends (relay num parse show items (new_ctx num parse show id model)).1 fresh_client
  unfolding relay on_tail start_tail finalize_truncated
  relay-Ends id model items quiet =
      let start = new_ctx num parse show id model in
      let begun : Tracks start fresh_client = open_still refl (idle (new-Idle num id model) refl) in
      let (d, taken, v) = items-Carried items start fresh_client quiet begun in
      let r = extend_each (on_item num parse show) items start in
      let (e, taken', ends, shut) =
        finish-Carried (finalize_truncated num) r.0 d (finalize_inner-Ends num true) v in
      (e, Takes-append fresh_client d e r.1 _ taken taken', ends)
