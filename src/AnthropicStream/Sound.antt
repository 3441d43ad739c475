-- ===== src/AnthropicStream/Sound.antt =====
-- src/service/anthropic/stream.rs: what the state holds of the client, while a message goes on.
use llm_gateway.Prelude.{
  ℕ, suc, ◌≤◌, ◌<◌, ◌≡◌, ◌≢◌, refl, sym, ◌∙◌, subst, ◌⊎◌, inl, inr, Option, none, some, Bool, true,
  false, List, [], ◌∷◌, arith, nat_eq, nat_eq_iff, if◌then◌else◌, All, Bool-cases,
}
use llm_gateway.Prelude.Int.{ℤ}
use llm_gateway.Prelude.Map.{Map}
use llm_gateway.Prelude.Text.{Text, codes}
use llm_gateway.AnthropicStream.{
  ToolBlock, NonToolKind, thinking, text, NonToolBlock, ChatToAnthropicState, Event, extend,
  extend_each,
}
use llm_gateway.AnthropicStream.Client.{
  BlockKind, thinks, says, calls, Status, unused, closed, opened, set_status, NoneSpeaks, Client,
  speaking, Takes, Takes-append,
}

abbrev pub Statuses : Type 0
Statuses = ℕ → Status

abbrev pub kind_told : NonToolKind → BlockKind
kind_told thinking = thinks
kind_told text = says

abbrev pub tool_status : ToolBlock → Status
tool_status t = if t.started then opened calls else unused

abbrev pub OtherIndex : ℕ → ℤ × ToolBlock → Type 0
OtherIndex i e = e.1.anthropic_index ≢ i

-- The client knows of every tool's block what the table says, and no two blocks share an index.
unfoldable pub InStep : ℕ → Statuses → Map ℤ ToolBlock → Type 0
InStep n f [] = Unit
InStep n f ((k, t) ∷ m) =
    (t.anthropic_index < n)
    × (t.stopped ≡ false)
    × (f t.anthropic_index ≡ tool_status t)
    × All (OtherIndex t.anthropic_index) m
    × InStep n f m

unfoldable pub HasIndex : ℕ → Map ℤ ToolBlock → Type 0
HasIndex i [] = ⊥
HasIndex i ((k, t) ∷ m) = (t.anthropic_index ≡ i) ⊎ HasIndex i m

abbrev SlotTold : Statuses → Option NonToolBlock → Type 0
SlotTold f none = Unit
SlotTold f (some b) = f b.index ≡ opened (kind_told b.kind)

abbrev SlotAt : ℕ → Option NonToolBlock → Type 0
SlotAt i none = ⊥
SlotAt i (some b) = b.index ≡ i

-- The blocks, for the slot, the next index and the tools' table.
pub record Blocks (slot : Option NonToolBlock) (n : ℕ) (tools : Map ℤ ToolBlock) (f : Statuses)
    : Type 0 where
  pub fresh : (i : ℕ) → n ≤ i → f i ≡ unused
  pub told : SlotTold f slot
  pub single : (i : ℕ) → (f i ≡ opened thinks) ⊎ (f i ≡ opened says) → SlotAt i slot
  pub in_step : InStep n f tools
  pub covered : (i : ℕ) → f i ≡ opened calls → HasIndex i tools

pub InStep-frame :
    (n n' : ℕ) (f g : Statuses) (m : Map ℤ ToolBlock)
    → n ≤ n'
    → ((i : ℕ) → i < n → (f i ≡ unused) ⊎ (f i ≡ opened calls) → g i ≡ f i)
    → InStep n f m
    → InStep n' g m
unfolding InStep
InStep-frame n n' f g [] le same v = tt
InStep-frame n n' f g ((k, t) ∷ m) le same (below, going, told, others, rest) =
    let kept : g t.anthropic_index ≡ f t.anthropic_index =
      same t.anthropic_index below (ground arith) in
    (omega arith, going, kept ∙ told, others, InStep-frame n n' f g m le same rest)

pub Blocks-NoneSpeaks :
    (n : ℕ) (tools : Map ℤ ToolBlock) (f : Statuses) → Blocks none n tools f → NoneSpeaks f
Blocks-NoneSpeaks n tools f v i = (λ h. v.single i (inl h), λ h. v.single i (inr h))

-- A new block that speaks, under the next index.
pub open_slot :
    (k : NonToolKind) (n : ℕ) (tools : Map ℤ ToolBlock) (f : Statuses)
    → Blocks none n tools f
    → Blocks
        (some (record { kind = k; index = n }))
        (suc n)
        tools
        (set_status n (opened (kind_told k)) f)
open_slot k n tools f v = record {
  fresh = λ i h. ground (arith, v.fresh i);
  told = ground arith;
  single = λ i h. elim (Bool-cases (nat_eq i n)) [
    | inl hit ↦ sym ((nat_eq_iff i n).0 hit)
    | inr miss ↦ absurd (
        v.single i (
          subst
            (λ b.
              ((if b then opened (kind_told k) else f i) ≡ opened thinks)
              ⊎ ((if b then opened (kind_told k) else f i) ≡ opened says))
            miss h))
  ];
  in_step =
      InStep-frame n (suc n) f (set_status n (opened (kind_told k)) f) tools (omega arith)
        (λ i below s. ground arith) v.in_step;
  covered = λ i h. v.covered i (elim k [ thinking ↦ ground arith | text ↦ ground arith ]);
}

-- The block that spoke is closed.
pub close_slot :
    (b : NonToolBlock) (n : ℕ) (tools : Map ℤ ToolBlock) (f : Statuses)
    → Blocks (some b) n tools f
    → Blocks none n tools (set_status b.index closed f)
close_slot b n tools f v = record {
  fresh = λ i h. ground (arith, v.fresh i h, v.told);
  told = tt;
  single = λ i h. ground (arith, v.single i);
  in_step =
      InStep-frame n n f (set_status b.index closed f) tools (omega arith)
        (λ i below s. ground (arith, v.told)) v.in_step;
  covered = λ i h. v.covered i (ground arith);
}

-- What is known of the calls: the client knows of them, and a reason about a tool has one.
abbrev pub CallsTold : Bool → Option Text → Bool → Type 0
CallsTold used reason called = (used ≡ called) × (reason ≡ some (codes "tool_use") → called ≡ true)

module _ {N : Type 0} (fin : Bool) where
  -- The message has started, and has not ended.
  abbrev pub Going : ChatToAnthropicState N → Type 0
  Going s =
      (s.failed ≡ none)
      × (s.finalized ≡ fin)
      × (s.sent_message_start ≡ true)
      × (s.has_emitted_message_delta ≡ false)

  abbrev pub Sound : ChatToAnthropicState N → Statuses → Bool → Type 0
  Sound s f called =
      Going s
      × Blocks s.open_non_tool s.next_block_index s.tools f
      × CallsTold s.has_tool_use s.pending_stop_reason called

  -- The client takes the events, and the state that comes with them is sound.
  abbrev pub Carries : ChatToAnthropicState N × List Event → Statuses → Bool → Type 0
  Carries r f called =
      (g : Statuses) × (c : Bool) × Takes (speaking f called) r.1 (speaking g c) × Sound r.0 g c

  pub extend-Carries :
      (r : ChatToAnthropicState N × List Event)
      (next : ChatToAnthropicState N → ChatToAnthropicState N × List Event) (f : Statuses)
      (called : Bool)
      → Carries r f called
      → ((g : Statuses) (c : Bool) → Sound r.0 g c → Carries (next r.0) g c)
      → Carries (extend r next) f called
  extend-Carries r next f called (g, c, taken, v) step =
      let (h, d, taken', v') = step g c v in
      (
        h,
        d,
        Takes-append (speaking f called) (speaking g c) (speaking h d) r.1 (next r.0).1 taken
            taken',
        v',
      )

  -- Nothing is sent, and what the client knows stays true.
  pub silent :
      (s : ChatToAnthropicState N) (f : Statuses) (called : Bool)
      → Sound s f called
      → Carries (s, []) f called
  unfolding Takes
  silent s f called v = (f, called, refl, v)

  pub extend_each-Carries :
      {A : Type 0} (step : A → ChatToAnthropicState N → ChatToAnthropicState N × List Event)
      → ((x : A) (s : ChatToAnthropicState N) (f : Statuses) (called : Bool)
          → Sound s f called
          → Carries (step x s) f called)
      → (xs : List A) (s : ChatToAnthropicState N) (f : Statuses) (called : Bool) → Sound s f called
      → Carries (extend_each step xs s) f called
  unfolding extend_each
  extend_each-Carries step one [] s f called v = silent s f called v
  extend_each-Carries step one (x ∷ xs) s f called v =
      extend-Carries (step x s) (extend_each step xs) f called (one x s f called v)
        (λ g c v'. extend_each-Carries step one xs (step x s).0 g c v')

  -- The same for a client that need not have heard of the message.
  abbrev pub Begins : ChatToAnthropicState N × List Event → Client → Type 0
  Begins r c = (g : Statuses) × (b : Bool) × Takes c r.1 (speaking g b) × Sound r.0 g b

  pub extend-Begins :
      (r : ChatToAnthropicState N × List Event)
      (next : ChatToAnthropicState N → ChatToAnthropicState N × List Event) (c : Client)
      → Begins r c
      → ((g : Statuses) (b : Bool) → Sound r.0 g b → Carries (next r.0) g b)
      → Begins (extend r next) c
  extend-Begins r next c (g, b, taken, v) step =
      let (h, d, taken', v') = step g b v in
      (h, d, Takes-append c (speaking g b) (speaking h d) r.1 (next r.0).1 taken taken', v')
