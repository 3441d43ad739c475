-- ===== src/AnthropicStream/Relay/Payloads.antt =====
-- src/service/anthropic/stream.rs: what the client is sent for the payloads of one item.
use llm_gateway.Prelude.{◌≡◌, refl, ap, ◌∙◌, Option, none, some, Bool, List, [], ◌∷◌, ◌++◌}
use llm_gateway.Prelude.Text.{Text}
use llm_gateway.Json.{Value}
use llm_gateway.Chat.{Numbers, ChatStreamChunk}
use llm_gateway.Sse.{SseEvent}
use llm_gateway.AnthropicStream.{ChatToAnthropicState, Event}
use llm_gateway.AnthropicStream.Messages.{chunk_by, process_chunk}
use llm_gateway.AnthropicStream.Client.{Client, Takes, Takes-append}
use llm_gateway.AnthropicStream.Session.{Follows, Leads, process_chunk-Leads}
use llm_gateway.AnthropicStream.Relay.{payload_chunk, feed_by, feed_payloads}

module _ {N : Type 0} (num : Numbers N) (parse : Text → Option (Value N))
    (show : Value N → Text) where
  -- The payloads keep the client in step.
  abbrev pub PayloadsLead : ChatToAnthropicState N × List Event × Bool → Client → Type 0
  PayloadsLead r c = Leads num (r.0, r.1) c

  feed_by-Lead :
      (o : Option (ChatStreamChunk N))
      (rest : ChatToAnthropicState N → ChatToAnthropicState N × List Event × Bool)
      (s : ChatToAnthropicState N) (c : Client)
      → ((t : ChatToAnthropicState N) (d : Client) → Follows num t d → PayloadsLead (rest t) d)
      → Follows num s c
      → PayloadsLead (feed_by num parse show o rest s) c
  unfolding feed_by
  feed_by-Lead none rest s c lead v = lead s c v
  feed_by-Lead (some cc) rest s c lead v =
      let (d, taken, w) = process_chunk-Leads num cc s c v in
      let (e, taken', w') = lead (process_chunk num cc s).0 d w in
      (
        e,
        Takes-append c d e (process_chunk num cc s).1 (rest (process_chunk num cc s).0).1 taken
            taken',
        w',
      )

  pub feed_payloads-Lead :
      (es : List SseEvent) (s : ChatToAnthropicState N) (c : Client)
      → Follows num s c
      → PayloadsLead (feed_payloads num parse show es s) c
  unfolding feed_payloads Takes
  feed_payloads-Lead [] s c v = (c, refl, v)
  feed_payloads-Lead (e ∷ es) s c v =
      feed_by-Lead (payload_chunk num parse show e) (feed_payloads num parse show es) s c
        (λ t d w. feed_payloads-Lead es t d w) v

  still_failed :
      (cc : ChatStreamChunk N) (s : ChatToAnthropicState N) (m : Text)
      → s.failed ≡ some m
      → process_chunk num cc s ≡ (s, [])
  unfolding process_chunk
  still_failed cc s m e =
      ap (λ (o : Option Text). elim o [ some m ↦ (s, []) | none ↦ chunk_by num cc.error cc s ]) e

  -- A message that has failed says nothing more.
  feed_by-failed :
      (o : Option (ChatStreamChunk N))
      (rest : ChatToAnthropicState N → ChatToAnthropicState N × List Event × Bool)
      (s : ChatToAnthropicState N) (m : Text)
      → s.failed ≡ some m
      → ((rest s).0 ≡ s) × ((rest s).1 ≡ [])
      → ((feed_by num parse show o rest s).0 ≡ s) × ((feed_by num parse show o rest s).1 ≡ [])
  unfolding feed_by
  feed_by-failed none rest s m e h = h
  feed_by-failed (some cc) rest s m e (same, quiet) =
      let still : process_chunk num cc s ≡ (s, []) = still_failed cc s m e in
      (ap (λ r. (rest r.0).0) still ∙ same, ap (λ r. r.1 ++ (rest r.0).1) still ∙ quiet)

  pub feed_payloads-failed :
      (es : List SseEvent) (s : ChatToAnthropicState N) (m : Text)
      → s.failed ≡ some m
      → ((feed_payloads num parse show es s).0 ≡ s) × ((feed_payloads num parse show es s).1 ≡ [])
  unfolding feed_payloads
  feed_payloads-failed [] s m e = (refl, refl)
  feed_payloads-failed (x ∷ es) s m e =
      feed_by-failed (payload_chunk num parse show x) (feed_payloads num parse show es) s m e
        (feed_payloads-failed es s m e)
