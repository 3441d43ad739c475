-- ===== src/AnthropicStream/Closing.antt =====
-- src/service/anthropic/stream.rs: the end of the blocks and of the message, as the client sees them.
use llm_gateway.Prelude.{
  ℕ, ◌≡◌, ◌≢◌, refl, sym, ap, ◌∙◌, subst, none, Bool, true, false, not, ◌&&◌, ◌||◌, List, [], ◌∷◌,
  ◌++◌, arith, Bool-cases, inl, inr,
}
use llm_gateway.Prelude.Eq.{List_Eq, ℕ_Eq}
use llm_gateway.Prelude.Int.{ℤ}
use llm_gateway.Prelude.Map.{Map}
use llm_gateway.Prelude.Text.{codes, show_ℤ}
use llm_gateway.AnthropicStream.{
  ToolBlock, ChatToAnthropicState, Event, extend, close_open_non_tool,
}
use llm_gateway.AnthropicStream.Tools.{
  start_block, stop_block, close_block, close_entries, late_in, starts_late, has_payload,
  with_defaults, or_text, close_tools, close_open_blocks,
}
use llm_gateway.AnthropicStream.Client.{
  BlockKind, thinks, says, calls, unused, closed, opened, Client, set_status, NoneSpeaks, AllClosed,
  Takes, Takes-append, speaking,
}
use llm_gateway.AnthropicStream.Sound.{
  Statuses, tool_status, InStep, HasIndex, Blocks-NoneSpeaks, CallsTold, Going, Sound,
}
use llm_gateway.AnthropicStream.Speaking.{
  close_open_non_tool-Carries, close_open_non_tool-none, slot_free,
}
use llm_gateway.AnthropicStream.ToolSteps.{start_block-Told}
use llm_gateway.AnthropicStream.ToolTable.{InStep-others}

-- The client takes the end of a block: the block is not open, and no other one changes.
abbrev Shut : ToolBlock → List Event → Statuses → Bool → Bool → Type 0
Shut t es f called late =
    (g : Statuses) × Takes (speaking f called) es (speaking g (called || late))
    × ((k : BlockKind) → g t.anthropic_index ≢ opened k)
    × ((j : ℕ) → j ≢ t.anthropic_index → g j ≡ f j)

stop_block-Shut :
    (t : ToolBlock) (f : Statuses) (called : Bool)
    → f t.anthropic_index ≡ opened calls
    → Shut t (stop_block t).1 f called false
unfolding stop_block Takes
stop_block-Shut t f called e = (
  set_status t.anthropic_index closed f,
  ((refl, (calls, e)), ground arith),
  λ k h. ground arith,
  λ j apart. ground arith,
)

late-Shut :
    (k : ℤ) (t : ToolBlock) (f : Statuses) (called : Bool)
    → NoneSpeaks f
    → t.started ≡ false
    → f t.anthropic_index ≡ unused
    → Shut t (extend (start_block (with_defaults k t)) stop_block).1 f called true
unfolding start_block
late-Shut k t f called silence idle e =
    let u = with_defaults k t in
    let (g, taken, index, stopped, told, same) = start_block-Told u f called silence idle e in
    let (h, taken', shut, same') =
      stop_block-Shut (start_block u).0 g (called || (not t.started && true)) told in
    (
      h,
      subst
          (λ b.
            Takes (speaking f called) (extend (start_block u) stop_block).1
              (speaking h (called || b)))
          (ground arith)
          (Takes-append (speaking f called) _ (speaking h (called || (not t.started && true)))
            (start_block u).1 (stop_block (start_block u).0).1 taken
            (subst
              (λ b.
                Takes (speaking g (called || (not t.started && true)))
                  (stop_block (start_block u).0).1 (speaking h b))
              (ground arith) taken')),
      shut,
      λ j apart. same' j apart ∙ same j apart,
    )

close_block-Shut :
    (k : ℤ) (t : ToolBlock) (f : Statuses) (called : Bool)
    → NoneSpeaks f
    → t.stopped ≡ false
    → f t.anthropic_index ≡ tool_status t
    → Shut t (close_block k t).1 f called (starts_late t)
unfolding close_block
close_block-Shut k t f called silence live told = elim (Bool-cases t.started) [
  | inl going ↦
      rw (going, live)
        (stop_block-Shut (record t { id = or_text t.id (codes "tool_call_" ++ show_ℤ k) }) f called
          (ground arith))
  | inr idle ↦ elim (Bool-cases (has_payload t)) [
    | inl full ↦ rw (idle, full) (late-Shut k t f called silence idle (ground arith))
    | inr empty ↦
        rw (idle, empty) (unfold Takes in (f, ground arith, λ j h. ground arith, λ j apart. refl))
  ]
]

-- The client takes the end of a table: no block of it is open, and no other one opens.
abbrev AllShut : Map ℤ ToolBlock → List Event → Statuses → Bool → Bool → Type 0
AllShut m es f called late =
    (g : Statuses) × Takes (speaking f called) es (speaking g (called || late))
    × ((i : ℕ) (k : BlockKind) → g i ≡ opened k → (f i ≡ opened k) × ¬ (HasIndex i m))

-- Of the blocks that are open behind a block's end, each was open before and is another one.
Shut-stays :
    (t : ToolBlock) (f g : Statuses)
    → ((k : BlockKind) → g t.anthropic_index ≢ opened k)
    → ((j : ℕ) → j ≢ t.anthropic_index → g j ≡ f j)
    → (i : ℕ) (k : BlockKind) → g i ≡ opened k
    → (f i ≡ opened k) × (i ≢ t.anthropic_index)
Shut-stays t f g shut same i k h =
    let apart : i ≢ t.anthropic_index = λ e. shut k (subst (λ x. g x ≡ opened k) e h) in
    (sym (same i apart) ∙ h, apart)

quiet_after :
    (t : ToolBlock) (f g : Statuses)
    → ((k : BlockKind) → g t.anthropic_index ≢ opened k)
    → ((j : ℕ) → j ≢ t.anthropic_index → g j ≡ f j)
    → NoneSpeaks f
    → NoneSpeaks g
quiet_after t f g shut same silence i = (
  λ h. (silence i).0 (Shut-stays t f g shut same i thinks h).0,
  λ h. (silence i).1 (Shut-stays t f g shut same i says h).0,
)

-- The end of one block, and of the rest of the table behind it.
Shut-rest :
    (k : ℤ) (t : ToolBlock) (m : Map ℤ ToolBlock) (es fs : List Event) (f g : Statuses)
    (called b c : Bool)
    → Takes (speaking f called) es (speaking g (called || b))
    → ((k : BlockKind) → g t.anthropic_index ≢ opened k)
    → ((j : ℕ) → j ≢ t.anthropic_index → g j ≡ f j)
    → AllShut m fs g (called || b) c
    → AllShut ((k, t) ∷ m) (es ++ fs) f called (b || c)
unfolding HasIndex
Shut-rest k t m es fs f g called b c taken shut same (h, taken', all) = (
  h,
  subst (λ d. Takes (speaking f called) (es ++ fs) (speaking h d)) (ground arith)
      (Takes-append (speaking f called) (speaking g (called || b)) (speaking h ((called || b) || c))
        es fs taken taken'),
  λ i j o.
      let (now, absent) = all i j o in
      let (before, apart) = Shut-stays t f g shut same i j now in
      (before, λ x. elim x [ inl here ↦ apart (sym here) | inr there ↦ absent there ]),
)

close_entries-AllShut :
    (n : ℕ) (m : Map ℤ ToolBlock) (f : Statuses) (called : Bool)
    → NoneSpeaks f
    → InStep n f m
    → AllShut m (close_entries m).1 f called (late_in m)
unfolding InStep close_entries late_in
close_entries-AllShut n [] f called silence v =
    unfold Takes HasIndex in (f, ground arith, λ i k h. (h, λ b. b))
close_entries-AllShut n ((k, t) ∷ m) f called silence (below, live, told, others, v) =
    let (g, taken, shut, same) = close_block-Shut k t f called silence live told in
    Shut-rest k t m (close_block k t).1 (close_entries m).1 f g called (starts_late t) (late_in m)
      taken shut same
      (close_entries-AllShut n m g (called || starts_late t) (quiet_after t f g shut same silence)
        (InStep-others n t.anthropic_index f g m same others v))

module _ {N : Type 0} (fin : Bool) where
  -- The client takes the events, and no block is open behind them.
  abbrev pub Shuts : ChatToAnthropicState N × List Event → Client → Type 0
  Shuts r c =
      (g : Statuses) × (b : Bool) × Takes c r.1 (speaking g b)
      × AllClosed g
      × Going fin r.0
      × CallsTold r.0.has_tool_use r.0.pending_stop_reason b

  close_tools-Shuts :
      (s : ChatToAnthropicState N) (f : Statuses) (called : Bool)
      → s.open_non_tool ≡ none
      → Sound fin s f called
      → Shuts (close_tools s) (speaking f called)
  unfolding close_tools
  close_tools-Shuts s f called e (going, blocks, (used, reason)) =
      let free = slot_free fin s f e blocks in
      let silence = Blocks-NoneSpeaks s.next_block_index s.tools f free in
      let (g, taken, shut) =
        close_entries-AllShut s.next_block_index s.tools f called silence free.in_step in
      (
        g,
        called || late_in s.tools,
        taken,
        λ i k. elim k as (λ k. g i ≢ opened k) [
          | thinks ↦ λ h. (silence i).0 (shut i thinks h).0
          | says ↦ λ h. (silence i).1 (shut i says h).0
          | calls ↦ λ h. (shut i calls h).1 (free.covered i (shut i calls h).0)
        ],
        going,
        (ap (λ b. b || late_in s.tools) used, λ h. ap (λ b. b || late_in s.tools) (reason h)),
      )

  pub close_open_blocks-Shuts :
      (s : ChatToAnthropicState N) (f : Statuses) (called : Bool)
      → Sound fin s f called
      → Shuts (close_open_blocks s) (speaking f called)
  unfolding close_open_blocks
  close_open_blocks-Shuts s f called v =
      let (g, c, taken, w) = close_open_non_tool-Carries fin s f called v in
      let t = (close_open_non_tool s).0 in
      let (h, d, taken', shut, live, told) =
        close_tools-Shuts t g c (close_open_non_tool-none fin s) w in
      (
        h,
        d,
        Takes-append (speaking f called) (speaking g c) (speaking h d) (close_open_non_tool s).1
            (close_tools t).1 taken taken',
        shut,
        live,
        told,
      )
