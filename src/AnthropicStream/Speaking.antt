-- ===== src/AnthropicStream/Speaking.antt =====
-- src/service/anthropic/stream.rs: the blocks that hold no tool call, as the client sees them.
use llm_gateway.Prelude.{ℕ, ◌≡◌, refl, subst, Option, none, some, Bool, arith}
use llm_gateway.Prelude.Text.{Text}
use llm_gateway.AnthropicStream.{
  NonToolKind, thinking, text, NonToolBlock, ChatToAnthropicState, stopped_kind, closed_by,
  close_open_non_tool, start_thinking, start_text, thinking_by, text_by, index_by, open_index,
  append_thinking_delta, append_text_delta,
}
use llm_gateway.AnthropicStream.Client.{opened, closed, set_status, Takes}
use llm_gateway.AnthropicStream.Sound.{
  Statuses, kind_told, Blocks, Blocks-NoneSpeaks, open_slot, close_slot, Sound, Carries,
  extend-Carries, silent,
}

index_by-told :
    (k j : NonToolKind) (x i : ℕ) (f : Statuses)
    → index_by k j x ≡ some i
    → f x ≡ opened (kind_told j)
    → f i ≡ opened (kind_told k)
index_by-told thinking thinking x i f e told = ground arith
index_by-told thinking text x i f e told = absurd (ground arith)
index_by-told text thinking x i f e told = absurd (ground arith)
index_by-told text text x i f e told = ground arith

module _ {N : Type 0} (fin : Bool) where
  stopped_kind-Sound :
      (k : NonToolKind) (s : ChatToAnthropicState N) (f : Statuses) (called : Bool)
      → Sound fin s f called
      → Sound fin (stopped_kind k s) f called
  stopped_kind-Sound thinking s f called v = v
  stopped_kind-Sound text s f called v = v

  closed_by-Carries :
      (o : Option NonToolBlock) (s : ChatToAnthropicState N) (f : Statuses) (called : Bool)
      → s.open_non_tool ≡ o
      → Sound fin s f called
      → Carries fin (closed_by o s) f called
  unfolding closed_by Takes
  closed_by-Carries none s f called e v = silent fin s f called v
  closed_by-Carries (some b) s f called e (going, blocks, calls) =
      let v : Blocks (some b) s.next_block_index s.tools f =
        subst (λ o. Blocks o s.next_block_index s.tools f) e blocks in
      (
        set_status b.index closed f,
        called,
        ((refl, (kind_told b.kind, v.told)), refl),
        stopped_kind-Sound b.kind (record s { open_non_tool = none }) (set_status b.index closed f)
            called (going, close_slot b s.next_block_index s.tools f v, calls),
      )

  pub close_open_non_tool-Carries :
      (s : ChatToAnthropicState N) (f : Statuses) (called : Bool)
      → Sound fin s f called
      → Carries fin (close_open_non_tool s) f called
  unfolding close_open_non_tool
  close_open_non_tool-Carries s f called v = closed_by-Carries s.open_non_tool s f called refl v

  stopped_kind-slot :
      (k : NonToolKind) (s : ChatToAnthropicState N)
      → (stopped_kind k s).open_non_tool ≡ s.open_non_tool
  stopped_kind-slot thinking s = refl
  stopped_kind-slot text s = refl

  closed_by-none :
      (o : Option NonToolBlock) (s : ChatToAnthropicState N)
      → s.open_non_tool ≡ o
      → (closed_by o s).0.open_non_tool ≡ none
  unfolding closed_by
  closed_by-none none s e = e
  closed_by-none (some b) s e = stopped_kind-slot b.kind (record s { open_non_tool = none })

  pub close_open_non_tool-none :
      (s : ChatToAnthropicState N) → (close_open_non_tool s).0.open_non_tool ≡ none
  unfolding close_open_non_tool
  close_open_non_tool-none s = closed_by-none s.open_non_tool s refl

  -- Of a state whose slot is free, the blocks are those of a free slot.
  pub slot_free :
      (s : ChatToAnthropicState N) (f : Statuses)
      → s.open_non_tool ≡ none
      → Blocks s.open_non_tool s.next_block_index s.tools f
      → Blocks none s.next_block_index s.tools f
  slot_free s f e v = subst (λ o. Blocks o s.next_block_index s.tools f) e v

  -- A block of thinking opens, and its first delta follows.
  start_thinking-Carries :
      (delta : Text) (s : ChatToAnthropicState N) (f : Statuses) (called : Bool)
      → s.open_non_tool ≡ none
      → Sound fin s f called
      → Carries fin (start_thinking delta s) f called
  unfolding Takes
  start_thinking-Carries delta s f called e (going, blocks, calls) =
      let v = slot_free s f e blocks in
      let n = s.next_block_index in
      (
        set_status n (opened (kind_told thinking)) f,
        called,
        (
          (refl, v.fresh n (omega arith), Blocks-NoneSpeaks n s.tools f v),
          ((refl, ground arith), ground arith),
        ),
        (going, open_slot thinking n s.tools f v, calls),
      )

  start_text-Carries :
      (delta : Text) (s : ChatToAnthropicState N) (f : Statuses) (called : Bool)
      → s.open_non_tool ≡ none
      → Sound fin s f called
      → Carries fin (start_text delta s) f called
  unfolding Takes
  start_text-Carries delta s f called e (going, blocks, calls) =
      let v = slot_free s f e blocks in
      let n = s.next_block_index in
      (
        set_status n (opened (kind_told text)) f,
        called,
        (
          (refl, v.fresh n (omega arith), Blocks-NoneSpeaks n s.tools f v),
          ((refl, ground arith), ground arith),
        ),
        (going, open_slot text n s.tools f v, calls),
      )

  -- The block of the kind that is open is the one that the client knows.
  open_index-told :
      (k : NonToolKind) (o : Option NonToolBlock) (i n : ℕ) (s : ChatToAnthropicState N)
      (f : Statuses)
      → open_index k o ≡ some i
      → Blocks o n s.tools f
      → f i ≡ opened (kind_told k)
  unfolding open_index
  open_index-told thinking none i n s f e v = absurd (ground arith)
  open_index-told text none i n s f e v = absurd (ground arith)
  open_index-told k (some b) i n s f e v = index_by-told k b.kind b.index i f e v.told

  thinking_by-Carries :
      (delta : Text) (o : Option ℕ) (s : ChatToAnthropicState N) (f : Statuses) (called : Bool)
      → open_index thinking s.open_non_tool ≡ o
      → Sound fin s f called
      → Carries fin (thinking_by delta o s) f called
  unfolding thinking_by Takes
  thinking_by-Carries delta (some i) s f called e v =
      (f, called, ((refl, open_index-told thinking s.open_non_tool i _ s f e v.1), refl), v)
  thinking_by-Carries delta none s f called e v =
      extend-Carries fin (close_open_non_tool s) (start_thinking delta) f called
        (close_open_non_tool-Carries s f called v)
        (λ g c w.
          start_thinking-Carries delta (close_open_non_tool s).0 g c (close_open_non_tool-none s) w)

  pub append_thinking_delta-Carries :
      (delta : Text) (s : ChatToAnthropicState N) (f : Statuses) (called : Bool)
      → Sound fin s f called
      → Carries fin (append_thinking_delta delta s) f called
  unfolding append_thinking_delta
  append_thinking_delta-Carries delta s f called v =
      thinking_by-Carries delta (open_index thinking s.open_non_tool) s f called refl v

  text_by-Carries :
      (delta : Text) (o : Option ℕ) (s : ChatToAnthropicState N) (f : Statuses) (called : Bool)
      → open_index text s.open_non_tool ≡ o
      → Sound fin s f called
      → Carries fin (text_by delta o s) f called
  unfolding text_by Takes
  text_by-Carries delta (some i) s f called e v =
      (f, called, ((refl, open_index-told text s.open_non_tool i _ s f e v.1), refl), v)
  text_by-Carries delta none s f called e v =
      extend-Carries fin (close_open_non_tool s) (start_text delta) f called
        (close_open_non_tool-Carries s f called v)
        (λ g c w.
          start_text-Carries delta (close_open_non_tool s).0 g c (close_open_non_tool-none s) w)

  pub append_text_delta-Carries :
      (delta : Text) (s : ChatToAnthropicState N) (f : Statuses) (called : Bool)
      → Sound fin s f called
      → Carries fin (append_text_delta delta s) f called
  unfolding append_text_delta
  append_text_delta-Carries delta s f called v =
      text_by-Carries delta (open_index text s.open_non_tool) s f called refl v
