-- ===== src/AnthropicStream/ToolKeys.antt =====
-- src/service/anthropic/stream.rs and src/service/responses/dto.rs: the keys of the tools' blocks.
use llm_gateway.Prelude.{
  ◌≡◌, ◌≢◌, refl, ap, Option, none, some, [], ◌∷◌, arith, All, Option-cases, inl, inr,
}
use llm_gateway.Prelude.Int.{ℤ, ℤ_Eq, pos, ◌+ℤ◌, beq_ℤ_iff, ◌<ℤ◌}
use llm_gateway.Prelude.Map.{Map, lookup}
use llm_gateway.Prelude.Text.{Text}
use llm_gateway.Plans.Usage.{max_i64}
use llm_gateway.Chat.{ToolCallDelta, trimmed, or_else}
use llm_gateway.Chat.ToolKey.{next_key, fresh_key, key_by, resolve_no_index_tool_key}
use llm_gateway.AnthropicStream.{ToolBlock, ChatToAnthropicState}
use llm_gateway.AnthropicStream.Tools.{max_key, key_of_id, chat_index}

-- Keys in their order, as a `BTreeMap` holds them.
abbrev Below : ℤ → ℤ × ToolBlock → Type 0
Below k e = k <ℤ e.0

abbrev Sorted : Map ℤ ToolBlock → Type 0
Sorted [] = Unit
Sorted ((k, t) ∷ m) = All (Below k) m × Sorted m

max_key-Below : (i k : ℤ) (m : Map ℤ ToolBlock) → All (Below i) m → max_key m ≡ some k → i <ℤ k
unfolding max_key
max_key-Below i k [] a h = absurd (ground arith)
max_key-Below i k ((j, t) ∷ m) (here, rest) h = elim (Option-cases (max_key m)) [
  | inl gone ↦ ground (arith, gone)
  | inr (l, found) ↦ max_key-Below i k m rest (ground (arith, found))
]

max_key-none : (m : Map ℤ ToolBlock) → max_key m ≡ none → (j : ℤ) → lookup j m ≡ none
unfolding max_key lookup
max_key-none [] h j = refl
max_key-none ((i, t) ∷ m) h j = elim (Option-cases (max_key m)) [
  | inl gone ↦ absurd (ground (arith, gone))
  | inr (l, found) ↦ absurd (ground (arith, found))
]

-- A key above the last one is free.
max_key-absent :
    (k j : ℤ) (m : Map ℤ ToolBlock) → Sorted m → max_key m ≡ some k → k <ℤ j → lookup j m ≡ none
unfolding max_key lookup
max_key-absent k j [] v h above = refl
max_key-absent k j ((i, t) ∷ m) (below, v) h above = elim (Option-cases (max_key m)) [
  | inl gone ↦
      let here : i ≡ k = ground (arith, gone) in
      ground (arith, max_key-none m gone j, beq_ℤ_iff i j)
  | inr (l, found) ↦
      let last : l ≡ k = ground (arith, found) in
      ground (arith, beq_ℤ_iff i j, max_key-Below i l m below found, max_key-absent l j m v found)
]

next_key-above : (k : ℤ) → k ≢ max_i64 → k <ℤ next_key k
unfolding next_key ◌+ℤ◌
next_key-above k h = ground (arith, beq_ℤ_iff k max_i64)

fresh_by :
    (m : Map ℤ ToolBlock) (o last : Option ℤ)
    → Sorted m
    → max_key m ≡ o
    → o ≢ some max_i64
    → lookup (fresh_key (or_else o last)) m ≡ none
unfolding fresh_key
fresh_by m none none v h full = max_key-none m h (pos 0)
fresh_by m none (some l) v h full = max_key-none m h (next_key l)
fresh_by m (some k) last v h full =
    max_key-absent k (next_key k) m v h (next_key-above k (λ e. full (ap some e)))

module _ {N : Type 0} where
  -- A frame without an index, whose id no block has, opens a block of its own: its key is free, unless
  -- the largest number is a key already. The table's keys stand in their order.
  pub chat_index_fresh :
      (tc : ToolCallDelta) (s : ChatToAnthropicState N) (id : Text)
      → Sorted s.tools
      → max_key s.tools ≢ some max_i64
      → tc.index ≡ none
      → trimmed tc.id ≡ some id
      → key_of_id id s.tools ≡ none
      → lookup (chat_index tc s) s.tools ≡ none
  unfolding chat_index resolve_no_index_tool_key key_by
  chat_index_fresh tc s id v full no_index known new_id =
      rw (no_index, known, new_id) (fresh_by s.tools (max_key s.tools) s.last_tool_key v refl full)
