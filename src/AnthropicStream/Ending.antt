-- ===== src/AnthropicStream/Ending.antt =====
-- src/service/anthropic/stream.rs: the last events of a message, as the client sees them.
use llm_gateway.Prelude.{
  ◌≡◌, ◌≢◌, refl, sym, ap, ◌∙◌, subst, Option, none, some, Bool, true, false, not, ◌&&◌, List, [],
  ◌∷◌, arith, if_both, Bool-cases, inl, inr, ltb, if◌then◌else◌,
}
use llm_gateway.Prelude.Eq.{◌==◌, List_Eq, ℕ_Eq, list_beq_iff}
use llm_gateway.Prelude.Text.{Text, codes}
use llm_gateway.Chat.{Numbers}
use llm_gateway.AnthropicStream.{
  ChatToAnthropicState, Event, message_delta, message_stop, error, extend,
}
use llm_gateway.AnthropicStream.Tools.{close_open_blocks}
use llm_gateway.AnthropicStream.Messages.{
  by_reason, early_stop_reason, corrected, final_stop_reason, usage_told, message_delta_events,
  has_output, end_message, finish_message, flush_think, start_message,
}
use llm_gateway.AnthropicStream.Client.{
  stopping, ended, Client, AllClosed, Takes, Takes-append, speaking,
}
use llm_gateway.AnthropicStream.Sound.{Statuses, CallsTold, Begins, extend-Begins}
use llm_gateway.AnthropicStream.Chunks.{flush_think-Carries}
use llm_gateway.AnthropicStream.Closing.{Shuts, close_open_blocks-Shuts}

early_stop_reason-used :
    (truncated used : Bool) (pending : Option Text)
    → (pending ≡ some (codes "tool_use") → used ≡ true)
    → early_stop_reason truncated pending used ≡ codes "tool_use"
    → used ≡ true
unfolding by_reason
early_stop_reason-used true used none known e = absurd (ground arith)
early_stop_reason-used false true none known e = refl
early_stop_reason-used false false none known e = absurd (ground arith)
early_stop_reason-used truncated used (some reason) known e = known (ap some e)

-- A corrected reason says of the calls what is the case.
corrected-told :
    (used : Bool) (reason : Text)
    → (reason ≡ codes "tool_use" → used ≡ true)
    → (corrected used reason ≡ codes "tool_use" → used ≡ true)
      × (corrected used reason ≡ codes "end_turn" → used ≡ false)
corrected-told true reason known = (
  λ _. refl,
  elim (Bool-cases (reason == codes "end_turn")) [
    | inl hit ↦ rw hit (λ e. absurd (ground arith))
    | inr miss ↦ rw miss (λ e. absurd (ground (arith, list_beq_iff reason (codes "end_turn"))))
  ],
)
corrected-told false reason known = elim (Bool-cases (reason == codes "end_turn")) [
  | inl hit ↦ rw hit (known, λ _. refl)
  | inr miss ↦ rw miss (known, λ _. refl)
]

-- The client takes the events, and the message has ended.
abbrev pub Ends : List Event → Client → Type 0
Ends es c = (d : Client) × Takes c es d × (d.phase ≡ ended)

-- An error ends a message that has not ended yet.
pub error-Ends :
    (m : Text) (c : Client) → c.phase ≢ stopping → c.phase ≢ ended → Ends (error m ∷ []) c
unfolding Takes
error-Ends m c a b = (record c { phase = ended }, ((a, b), refl), refl)

module _ {N : Type 0} (num : Numbers N) (fin : Bool) where
  end_message-Ends :
      (truncated : Bool) (s : ChatToAnthropicState N) (g : Statuses) (b : Bool)
      → AllClosed g
      → s.has_emitted_message_delta ≡ false
      → CallsTold s.has_tool_use s.pending_stop_reason b
      → Ends (end_message num truncated s).1 (speaking g b)
  unfolding end_message message_delta_events final_stop_reason Takes
  end_message-Ends truncated s g b shut once (used, reason) =
      let (calls, no_calls) =
        corrected-told s.has_tool_use
          (early_stop_reason truncated s.pending_stop_reason s.has_tool_use)
          (early_stop_reason-used truncated s.has_tool_use s.pending_stop_reason
            (λ h. used ∙ reason h)) in
      let told = message_delta (final_stop_reason num truncated s) (usage_told num s.usage) ∷ [] in
      subst
        (λ sent.
          Ends
            (extend
              (if sent then (s, []) else (record s { has_emitted_message_delta = true }, told))
              (λ s1. (s1, message_stop ∷ []))).1
            (speaking g b))
        (sym once)
        (
          record (speaking g b) { phase = ended },
          ((refl, shut, λ e. sym used ∙ calls e, λ e. sym used ∙ no_calls e), (refl, refl)),
          refl,
        )

  finish_message-Ends :
      (truncated : Bool) (r : ChatToAnthropicState N × List Event) (c : Client)
      → c.phase ≢ stopping
      → c.phase ≢ ended
      → Shuts fin r c
      → Ends (finish_message num truncated r).1 c
  unfolding finish_message
  finish_message-Ends truncated r c a b (g, called, taken, shut, going, calls) =
      if_both (λ (x : ChatToAnthropicState N × List Event). Ends x.1 c)
        (ltb 0 r.0.dropped_tools && not (has_output num r.0)) _ _ (λ _. error-Ends _ c a b)
        (λ _.
          let (d, taken', over) = end_message-Ends truncated r.0 g called shut going.3 calls in
          (d, Takes-append c (speaking g called) d r.1 _ taken taken', over))

  -- Behind the start of the message, `finalize` ends it.
  pub finish-Ends :
      (truncated : Bool) (s : ChatToAnthropicState N) (c : Client)
      → c.phase ≢ stopping
      → c.phase ≢ ended
      → Begins fin (start_message num s) c
      → Ends
          (finish_message num truncated
            (extend (extend (start_message num s) (flush_think num)) close_open_blocks)).1
          c
  finish-Ends truncated s c a b started =
      let r = extend (start_message num s) (flush_think num) in
      let (g, called, taken, v) =
        extend-Begins fin (start_message num s) (flush_think num) c started
          (λ g d w. flush_think-Carries num fin (start_message num s).0 g d w) in
      let (h, d, taken', shut, live, told) = close_open_blocks-Shuts fin r.0 g called v in
      finish_message-Ends truncated (extend r close_open_blocks) c a b (
        h,
        d,
        Takes-append c (speaking g called) (speaking h d) r.1 (close_open_blocks r.0).1 taken
            taken',
        shut,
        live,
        told,
      )
