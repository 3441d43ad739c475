-- ===== src/AnthropicStream/ToolSteps.antt =====
-- src/service/anthropic/stream.rs: the frames of tool calls, as the client sees them.
use llm_gateway.Prelude.{
  ℕ, suc, ◌≡◌, ◌≢◌, refl, sym, ap, ◌∙◌, subst, Option, none, some, Bool, true, false, not, ◌&&◌,
  ◌||◌, List, [], ◌∷◌, arith, if_both, if◌then◌else◌, leb,
}
use llm_gateway.Prelude.Int.{ℤ, ℤ_Eq}
use llm_gateway.Prelude.Map.{lookup, modify}
use llm_gateway.Prelude.Text.{Text}
use llm_gateway.Json.{and_then}
use llm_gateway.Chat.{ToolCallDelta, trimmed, unless_empty}
use llm_gateway.AnthropicStream.{
  ToolBlock, ChatToAnthropicState, Event, extend, close_open_non_tool,
  infinite_whitespace_threshold,
}
use llm_gateway.AnthropicStream.Tools.{
  new_block, insert_tool, json_delta, set_id, set_name, can_start, start_block, start_if_known,
  count_whitespace, send_args, feed_args, feed_block, chat_index, add_block, ensure_block, feed_at,
  feed_tool, append_tool_delta,
}
use llm_gateway.AnthropicStream.Client.{
  calls, unused, opened, set_status, NoneSpeaks, Takes, Takes-append, speaking,
}
use llm_gateway.AnthropicStream.Sound.{
  Statuses, tool_status, Blocks, Blocks-NoneSpeaks, Sound, Carries, extend-Carries, silent,
}
use llm_gateway.AnthropicStream.Speaking.{
  close_open_non_tool-Carries, close_open_non_tool-none, slot_free,
}
use llm_gateway.AnthropicStream.ToolTable.{lookup-InStep, insert_tool-Blocks, modify-Blocks}

-- The same block, as far as the client knows.
abbrev Same : ToolBlock → ToolBlock → Type 0
Same t u =
    (u.anthropic_index ≡ t.anthropic_index) × (u.stopped ≡ t.stopped) × (u.started ≡ t.started)

set_id-Same : (o : Option Text) (t : ToolBlock) → Same t (set_id o t)
set_id-Same none t = (refl, refl, refl)
set_id-Same (some id) t = (refl, refl, refl)

set_name-Same : (o : Option Text) (t : ToolBlock) → Same t (set_name o t)
set_name-Same none t = (refl, refl, refl)
set_name-Same (some name) t = (refl, refl, refl)

-- The deltas of a block that the client has open.
json_delta-Takes :
    (i : ℕ) (args : Text) (g : Statuses) (c : Bool)
    → g i ≡ opened calls
    → Takes (speaking g c) (json_delta i args) (speaking g c)
unfolding Takes
json_delta-Takes i [] g c e = refl
json_delta-Takes i (x ∷ args) g c e = ((refl, e), refl)

-- The block stays what it is, and its events are deltas of an open block.
abbrev Fed : ToolBlock → ToolBlock × List Event → Type 0
Fed t r =
    Same t r.0
    × ((g : Statuses) (c : Bool)
        → g t.anthropic_index ≡ tool_status t
        → Takes (speaking g c) r.1 (speaking g c))

send_args-Fed : (args : Text) (t : ToolBlock) → Fed t (send_args args t)
unfolding send_args Takes
send_args-Fed args t =
    if_both (Fed t) (leb infinite_whitespace_threshold t.consecutive_whitespace) _ _
      (λ _. ((refl, refl, refl), λ g c told. refl))
      (λ _.
        if_both (Fed t) t.started _ _
          (λ going. (
            (refl, refl, refl),
            λ g c told. ((refl, told ∙ ap (λ b. if b then opened calls else unused) going), refl),
          ))
          (λ _. ((refl, refl, refl), λ g c told. refl)))

feed_args-Fed : (o : Option Text) (t : ToolBlock) → Fed t (feed_args o t)
unfolding feed_args Takes
feed_args-Fed none t = ((refl, refl, refl), λ g c told. refl)
feed_args-Fed (some args) t =
    if_both (Fed t) t.aborted _ _ (λ _. ((refl, refl, refl), λ g c told. refl))
      (λ _.
        send_args-Fed args
          (record t { consecutive_whitespace = count_whitespace t.consecutive_whitespace args }))

-- The client takes what a block sends, and knows of it then; it hears of a call when one starts.
abbrev Told : ToolBlock → ToolBlock × List Event → Statuses → Bool → Type 0
Told t r f called =
    (g : Statuses) × Takes (speaking f called) r.1
      (speaking g (called || (not t.started && r.0.started)))
    × (r.0.anthropic_index ≡ t.anthropic_index)
    × (r.0.stopped ≡ t.stopped)
    × (g t.anthropic_index ≡ tool_status r.0)
    × ((j : ℕ) → j ≢ t.anthropic_index → g j ≡ f j)

pub start_block-Told :
    (t : ToolBlock) (f : Statuses) (called : Bool)
    → NoneSpeaks f
    → t.started ≡ false
    → f t.anthropic_index ≡ unused
    → Told t (start_block t) f called
unfolding start_block Takes
start_block-Told t f called silence idle told = (
  set_status t.anthropic_index (opened calls) f,
  (
    (refl, told, silence),
    subst
        (λ b.
          Takes (speaking (set_status t.anthropic_index (opened calls) f) (called || true))
            (json_delta t.anthropic_index t.pending_args)
            (speaking (set_status t.anthropic_index (opened calls) f) (called || (not b && true))))
        (sym idle)
        (json_delta-Takes t.anthropic_index t.pending_args _ (called || true) (ground arith)),
  ),
  refl,
  refl,
  ground arith,
  λ j apart. ground arith,
)

start_if_known-Told :
    (t : ToolBlock) (f : Statuses) (called : Bool)
    → NoneSpeaks f
    → f t.anthropic_index ≡ tool_status t
    → Told t (start_if_known t) f called
unfolding start_if_known Takes
start_if_known-Told t f called silence told =
    if_both (λ r. Told t r f called) (can_start t) _ _
      (λ known.
        let idle : t.started ≡ false = ground arith in
        start_block-Told t f called silence idle (ground arith))
      (λ _. (f, ap (speaking f) (ground arith), refl, refl, told, λ j apart. refl))

feed_block-Told :
    (tc : ToolCallDelta) (t : ToolBlock) (f : Statuses) (called : Bool)
    → NoneSpeaks f
    → f t.anthropic_index ≡ tool_status t
    → Told t (feed_block tc t) f called
unfolding feed_block
feed_block-Told tc t f called silence told =
    let name = trimmed (and_then tc.function (λ f. f.name)) in
    let args = unless_empty (and_then tc.function (λ f. f.arguments)) in
    let u = set_id (trimmed tc.id) t in
    let v = set_name name u in
    let (i, st, go) = set_id-Same (trimmed tc.id) t in
    let (i', st', go') = set_name-Same name u in
    let index : v.anthropic_index ≡ t.anthropic_index = i' ∙ i in
    let going : v.started ≡ t.started = go' ∙ go in
    let known : f v.anthropic_index ≡ tool_status v =
      ap f index ∙ told ∙ ap (λ b. if b then opened calls else unused) (sym going) in
    let (g, taken, i2, st2, told2, same) = start_if_known-Told v f called silence known in
    let w = (start_if_known v).0 in
    let ((i3, st3, go3), fed) = feed_args-Fed args w in
    let now : g w.anthropic_index ≡ tool_status w = ap g i2 ∙ told2 in
    (
      g,
      subst
          (λ b.
            Takes (speaking f called) (extend (start_if_known v) (feed_args args)).1
              (speaking g (called || b)))
          (ground arith)
          (Takes-append (speaking f called) _ _ (start_if_known v).1 (feed_args args w).1 taken
            (fed g _ now)),
      i3 ∙ i2 ∙ index,
      st3 ∙ st2 ∙ st' ∙ st,
      ap g (sym index) ∙ told2 ∙ ap (λ b. if b then opened calls else unused) (sym go3),
      λ j apart. same j (λ h. apart (h ∙ index)),
    )

module _ {N : Type 0} (fin : Bool) where
  add_block-Sound :
      (k : ℤ) (o : Option ToolBlock) (s : ChatToAnthropicState N) (f : Statuses) (called : Bool)
      → s.open_non_tool ≡ none
      → Sound fin s f called
      → Sound fin (add_block k o s) f called
  unfolding add_block
  add_block-Sound k (some t) s f called e v = v
  add_block-Sound k none s f called e (going, blocks, told) = (
    going,
    subst
        (λ o.
          Blocks o (suc s.next_block_index) (insert_tool k (new_block s.next_block_index) s.tools)
            f)
        (sym e) (insert_tool-Blocks s.next_block_index f k s.tools (slot_free fin s f e blocks)),
    told,
  )

  add_block-slot :
      (k : ℤ) (o : Option ToolBlock) (s : ChatToAnthropicState N)
      → (add_block k o s).open_non_tool ≡ s.open_non_tool
  unfolding add_block
  add_block-slot k none s = refl
  add_block-slot k (some t) s = refl

  feed_at-Carries :
      (k : ℤ) (tc : ToolCallDelta) (o : Option ToolBlock) (s : ChatToAnthropicState N)
      (f : Statuses) (called : Bool)
      → lookup k s.tools ≡ o
      → s.open_non_tool ≡ none
      → Sound fin s f called
      → Carries fin (feed_at k tc o s) f called
  unfolding feed_at
  feed_at-Carries k tc none s f called here e v = silent fin s f called v
  feed_at-Carries k tc (some t) s f called here e (going, blocks, (used, reason)) =
      let free = slot_free fin s f e blocks in
      let n = s.next_block_index in
      let (below, live, told) = lookup-InStep n f k t s.tools free.in_step here in
      let (g, taken, index, stopped, now, same) =
        feed_block-Told tc t f called (Blocks-NoneSpeaks n s.tools f free) told in
      let u = (feed_block tc t).0 in
      (
        g,
        called || (not t.started && u.started),
        taken,
        (
          going,
          subst (λ o. Blocks o n (modify k (λ _. u) s.tools) g) (sym e)
              (modify-Blocks n f g k t u s.tools here index (stopped ∙ live) now same free),
          (
            ap (λ b. b || (not t.started && u.started)) used,
            λ h. ap (λ b. b || (not t.started && u.started)) (reason h),
          ),
        ),
      )

  feed_tool-Carries :
      (tc : ToolCallDelta) (s : ChatToAnthropicState N) (f : Statuses) (called : Bool)
      → s.open_non_tool ≡ none
      → Sound fin s f called
      → Carries fin (feed_tool tc s) f called
  unfolding feed_tool ensure_block
  feed_tool-Carries tc s f called e v =
      let k = chat_index tc s in
      let o = lookup k s.tools in
      feed_at-Carries k tc (lookup k (add_block k o s).tools) (add_block k o s) f called refl
        (add_block-slot k o s ∙ e) (add_block-Sound k o s f called e v)

  pub append_tool_delta-Carries :
      (tc : ToolCallDelta) (s : ChatToAnthropicState N) (f : Statuses) (called : Bool)
      → Sound fin s f called
      → Carries fin (append_tool_delta tc s) f called
  unfolding append_tool_delta
  append_tool_delta-Carries tc s f called v =
      extend-Carries fin (close_open_non_tool s) (feed_tool tc) f called
        (close_open_non_tool-Carries fin s f called v)
        (λ g c w.
          feed_tool-Carries tc (close_open_non_tool s).0 g c (close_open_non_tool-none fin s) w)
