-- ===== src/AnthropicStream/Session.antt =====
-- src/service/anthropic/stream.rs: a whole message, from the first chunk to the end of the stream.
use llm_gateway.Prelude.{
  ◌≡◌, ◌≢◌, refl, sym, ap, subst, ◌⊎◌, inl, inr, Option, none, some, Bool, true, false, not, ◌&&◌,
  List, [], ◌∷◌, arith, if_both, if◌then◌else◌,
}
use llm_gateway.Prelude.Text.{Text}
use llm_gateway.Json.{Value}
use llm_gateway.Chat.{Numbers, ChatStreamChunk}
use llm_gateway.AnthropicStream.{ChatToAnthropicState, Event, extend, extend_each, new}
use llm_gateway.AnthropicStream.Messages.{
  extract_stream_error_message, transport_error, start_message, message_start_event, take_meta,
  process_choice, chunk_by, process_chunk, has_failed, finalize_live, finalize_inner, finalize,
  finalize_truncated,
}
use llm_gateway.AnthropicStream.Client.{
  streaming, stopping, ended, unused, Client, fresh_client, Takes, Takes-append, speaking,
}
use llm_gateway.AnthropicStream.Sound.{
  Statuses, InStep, HasIndex, Blocks, CallsTold, Sound, Begins, extend-Begins, extend_each-Carries,
}
use llm_gateway.AnthropicStream.Chunks.{process_choice-Carries}
use llm_gateway.AnthropicStream.Ending.{Ends, error-Ends, finish-Ends}

-- How a stream ends: with its end mark, without it, or with an error of the transport.
pub data End : Type 0 where
  done cut : End
  broken : Text → End

module _ {N : Type 0} (num : Numbers N) where
  unfoldable pub end_by : End → ChatToAnthropicState N → ChatToAnthropicState N × List Event
  unfolding finalize finalize_truncated transport_error
  end_by done s = finalize num s
  end_by cut s = finalize_truncated num s
  end_by (broken m) s = transport_error m s

  -- The chunks of a stream, and its end.
  unfoldable pub session :
      List (ChatStreamChunk N) → End → ChatToAnthropicState N → ChatToAnthropicState N × List Event
  unfolding extend_each process_chunk end_by
  session chunks end s = extend (extend_each (process_chunk num) chunks s) (end_by end)

  -- No chunk has come.
  abbrev Idle : Bool → ChatToAnthropicState N → Type 0
  Idle fin s =
      ((s.failed ≡ none)
        × (s.finalized ≡ fin)
        × (s.sent_message_start ≡ false)
        × (s.has_emitted_message_delta ≡ false))
      × Blocks s.open_non_tool s.next_block_index s.tools (λ i. unused)
      × CallsTold s.has_tool_use s.pending_stop_reason false

  -- The client is where the state takes it to be.
  pub data Follows (s : ChatToAnthropicState N) (c : Client) : Type 0 where
    idle : Idle false s → c ≡ fresh_client → Follows s c
    going : (f : Statuses) (b : Bool) → Sound false s f b → c ≡ speaking f b → Follows s c
    over : (m : Text) → s.failed ≡ some m → s.finalized ≡ false → c.phase ≡ ended → Follows s c

  -- The client takes the events, and is where the state takes it to be.
  abbrev pub Leads : ChatToAnthropicState N × List Event → Client → Type 0
  Leads r c = (d : Client) × Takes c r.1 d × Follows r.0 d

  -- No chunk has come, or the message goes on.
  abbrev Goes : Bool → ChatToAnthropicState N → Client → Type 0
  Goes fin s c =
      (Idle fin s × (c ≡ fresh_client))
      ⊎ ((f : Statuses) × (b : Bool) × Sound fin s f b × (c ≡ speaking f b))

  -- The first chunk starts the message, and others leave it.
  start-Begins :
      (fin : Bool) (s : ChatToAnthropicState N) (c : Client)
      → Goes fin s c
      → Begins fin (start_message num s) c
  unfolding start_message Takes
  start-Begins fin s c (inl (((ok, at, unsent, once), blocks, calls), e)) =
      let started = record s { sent_message_start = true } in
      subst (λ b. Begins fin (if b then (s, []) else (started, message_start_event num s ∷ [])) c)
        (sym unsent)
        (
          (λ i. unused),
          false,
          (ap (λ (d : Client). d.phase) e, ap (λ (d : Client). record d { phase = streaming }) e),
          ((ok, at, refl, once), blocks, calls),
        )
  start-Begins fin s c (inr (f, b, ((ok, at, sent, once), blocks, calls), e)) =
      let started = record s { sent_message_start = true } in
      subst (λ b. Begins fin (if b then (s, []) else (started, message_start_event num s ∷ [])) c)
        (sym sent) (f, b, e, ((ok, at, sent, once), blocks, calls))

  chunk_by-Leads :
      (o : Option (Value N)) (chunk : ChatStreamChunk N) (s : ChatToAnthropicState N) (c : Client)
      → Goes false s c
      → s.finalized ≡ false
      → c.phase ≢ stopping
      → c.phase ≢ ended
      → Leads (chunk_by num o chunk s) c
  unfolding chunk_by
  chunk_by-Leads (some err) chunk s c v live a b =
      let (d, taken, e) = error-Ends (extract_stream_error_message err) c a b in
      (d, taken, over (extract_stream_error_message err) refl live e)
  chunk_by-Leads none chunk s c v live a b =
      let t = take_meta num chunk s in
      let (g, called, taken, w) =
        extend-Begins false (start_message num t) (extend_each (process_choice num) chunk.choices) c
          (unfold take_meta in start-Begins false t c v)
          (extend_each-Carries false (process_choice num) (process_choice-Carries num false)
            chunk.choices (start_message num t).0) in
      (speaking g called, taken, going g called w refl)

  pub process_chunk-Leads :
      (chunk : ChatStreamChunk N) (s : ChatToAnthropicState N) (c : Client)
      → Follows s c
      → Leads (process_chunk num chunk s) c
  unfolding process_chunk Takes
  process_chunk-Leads chunk s c (idle v e) =
      subst (λ o. Leads (elim o [ some m ↦ (s, []) | none ↦ chunk_by num chunk.error chunk s ]) c)
        (sym v.0.0)
        (chunk_by-Leads chunk.error chunk s c (inl (v, e)) v.0.1 (λ h. ground arith)
          (λ h. ground arith))
  process_chunk-Leads chunk s c (going f b v e) =
      subst (λ o. Leads (elim o [ some m ↦ (s, []) | none ↦ chunk_by num chunk.error chunk s ]) c)
        (sym v.0.0)
        (chunk_by-Leads chunk.error chunk s c (inr (f, b, v, e)) v.0.1 (λ h. ground arith)
          (λ h. ground arith))
  process_chunk-Leads chunk s c (over m failed live e) =
      subst (λ o. Leads (elim o [ some m ↦ (s, []) | none ↦ chunk_by num chunk.error chunk s ]) c)
        (sym failed) (c, refl, over m failed live e)

  chunks-Leads :
      (chunks : List (ChatStreamChunk N)) (s : ChatToAnthropicState N) (c : Client)
      → Follows s c
      → Leads (extend_each (process_chunk num) chunks s) c
  unfolding extend_each Takes
  chunks-Leads [] s c v = (c, refl, v)
  chunks-Leads (x ∷ xs) s c v =
      let (d, taken, w) = process_chunk-Leads x s c v in
      let (e, taken', w') = chunks-Leads xs (process_chunk num x s).0 d w in
      (e, Takes-append c d e (process_chunk num x s).1 _ taken taken', w')

  finalize_live-Ends :
      (truncated : Bool) (s : ChatToAnthropicState N) (c : Client)
      → Goes true s c
      → c.phase ≢ stopping
      → c.phase ≢ ended
      → Ends (finalize_live num truncated s).1 c
  unfolding finalize_live
  finalize_live-Ends truncated s c v a b =
      if_both (λ (r : ChatToAnthropicState N × List Event). Ends r.1 c)
        (truncated && not s.sent_message_start) _ _ (λ _. error-Ends _ c a b)
        (λ _. finish-Ends num true truncated s c a b (start-Begins true s c v))

  -- `finalize` on a state that has not failed
  live-Ends :
      (truncated : Bool) (s : ChatToAnthropicState N) (c : Client)
      → s.finalized ≡ false
      → s.failed ≡ none
      → Goes true (record s { finalized = true }) c
      → c.phase ≢ stopping
      → c.phase ≢ ended
      → Ends (finalize_inner num truncated s).1 c
  unfolding finalize_inner has_failed
  live-Ends truncated s c live ok v a b =
      let t = record s { finalized = true } in
      subst
        (λ fin.
          Ends
            (if fin
              then (s, [])
              else if has_failed s
              then (t, [])
              else finalize_live num truncated t).1
            c)
        (sym live)
        (subst
          (λ o.
            Ends
              (if elim o [ none ↦ false | some m ↦ true ]
                then (t, [])
                else finalize_live num truncated t).1
              c)
          (sym ok) (finalize_live-Ends truncated t c v a b))

  pub finalize_inner-Ends :
      (truncated : Bool) (s : ChatToAnthropicState N) (c : Client)
      → Follows s c
      → Ends (finalize_inner num truncated s).1 c
  unfolding finalize_inner has_failed Takes
  finalize_inner-Ends truncated s c (idle ((ok, live, unsent, once), blocks, calls) e) =
      live-Ends truncated s c live ok (inl (((ok, refl, unsent, once), blocks, calls), e))
        (λ h. ground arith) (λ h. ground arith)
  finalize_inner-Ends truncated s c (going f b ((ok, live, sent, once), blocks, calls) e) =
      live-Ends truncated s c live ok (inr (f, b, ((ok, refl, sent, once), blocks, calls), e))
        (λ h. ground arith) (λ h. ground arith)
  finalize_inner-Ends truncated s c (over m failed live e) =
      let t = record s { finalized = true } in
      subst
        (λ fin.
          Ends
            (if fin
              then (s, [])
              else if has_failed s
              then (t, [])
              else finalize_live num truncated t).1
            c)
        (sym live)
        (subst
          (λ o.
            Ends
              (if elim o [ none ↦ false | some m ↦ true ]
                then (t, [])
                else finalize_live num truncated t).1
              c)
          (sym failed) (c, refl, e))

  pub transport_error-Ends :
      (m : Text) (s : ChatToAnthropicState N) (c : Client)
      → Follows s c
      → Ends (transport_error m s).1 c
  unfolding transport_error Takes
  transport_error-Ends m s c (idle v e) =
      rw v.0.0 (error-Ends m c (λ h. ground arith) (λ h. ground arith))
  transport_error-Ends m s c (going f b v e) =
      rw v.0.0 (error-Ends m c (λ h. ground arith) (λ h. ground arith))
  transport_error-Ends m s c (over n failed live e) = rw failed (c, refl, e)

  end_by-Ends :
      (end : End) (s : ChatToAnthropicState N) (c : Client) → Follows s c → Ends (end_by end s).1 c
  unfolding end_by finalize finalize_truncated
  end_by-Ends done s c v = finalize_inner-Ends false s c v
  end_by-Ends cut s c v = finalize_inner-Ends true s c v
  end_by-Ends (broken m) s c v = transport_error-Ends m s c v

  pub new-Idle : (id model : Text) → Idle false (new id model)
  unfolding InStep HasIndex
  new-Idle id model = (
    (refl, refl, refl, refl),
    record {
      fresh = λ i h. refl;
      told = tt;
      single = λ i h. ground arith;
      in_step = tt;
      covered = λ i h. ground arith;
    },
    (refl, λ h. ground arith),
  )

  -- Whatever chunks come, and however the stream ends, a client of the Anthropic interface accepts all
  -- the events of the message, one after the other, and the last one ends it: the message starts once,
  -- a block starts under a new index while no block of thinking or text is open, a delta goes to an
  -- open block of its kind, every block is closed before the reason is told, the reason is about a tool
  -- only if one was called, and nothing follows an error or the end.
  pub session-Ends :
      (id model : Text) (chunks : List (ChatStreamChunk N)) (end : End)
      → Ends (session chunks end (new id model)).1 fresh_client
  unfolding session
  session-Ends id model chunks end =
      let s = new id model in
      let (d, taken, v) = chunks-Leads chunks s fresh_client (idle (new-Idle id model) refl) in
      let t = extend_each (process_chunk num) chunks s in
      let (e, taken', finished) = end_by-Ends end t.0 d v in
      (e, Takes-append fresh_client d e t.1 (end_by end t.0).1 taken taken', finished)
