-- ===== src/AnthropicStream/ToolTable.antt =====
-- src/service/anthropic/stream.rs: the table of the tools' blocks, when a block is added or written.
use llm_gateway.Prelude.{
  ℕ, suc, ◌<◌, ◌≡◌, ◌≢◌, refl, sym, ap, ◌∙◌, subst, inl, inr, none, some, false, [], ◌∷◌, arith,
  All, Bool-cases, if_both, nat_eq, nat_eq_iff,
}
use llm_gateway.Prelude.Int.{ℤ, ℤ_Eq, ltb_ℤ, beq_ℤ}
use llm_gateway.Prelude.Map.{Map, lookup, modify}
use llm_gateway.AnthropicStream.{ToolBlock}
use llm_gateway.AnthropicStream.Tools.{new_block, insert_tool}
use llm_gateway.AnthropicStream.Client.{unused}
use llm_gateway.AnthropicStream.Sound.{
  Statuses, tool_status, OtherIndex, InStep, HasIndex, Blocks, InStep-frame,
}

-- A block of the table, and what the client knows of it.
pub lookup-InStep :
    (n : ℕ) (f : Statuses) (k : ℤ) (t : ToolBlock) (m : Map ℤ ToolBlock)
    → InStep n f m
    → lookup k m ≡ some t
    → (t.anthropic_index < n) × (t.stopped ≡ false) × (f t.anthropic_index ≡ tool_status t)
unfolding InStep lookup
lookup-InStep n f k t [] v e = absurd (ground arith)
lookup-InStep n f k t ((j, u) ∷ m) (below, going, told, others, rest) e =
    elim (Bool-cases (beq_ℤ j k)) [
      | inl hit ↦ ground arith
      | inr miss ↦ lookup-InStep n f k t m rest (ground arith)
    ]

lookup-HasIndex :
    (k : ℤ) (t : ToolBlock) (m : Map ℤ ToolBlock)
    → lookup k m ≡ some t
    → HasIndex t.anthropic_index m
unfolding HasIndex lookup
lookup-HasIndex k t [] e = absurd (ground arith)
lookup-HasIndex k t ((j, u) ∷ m) e = elim (Bool-cases (beq_ℤ j k)) [
  | inl hit ↦ inl (ground arith)
  | inr miss ↦ inr (lookup-HasIndex k t m (ground arith))
]

lookup-Other :
    (i : ℕ) (k : ℤ) (t : ToolBlock) (m : Map ℤ ToolBlock)
    → All (OtherIndex i) m
    → lookup k m ≡ some t
    → t.anthropic_index ≢ i
unfolding lookup
lookup-Other i k t [] a e = absurd (ground arith)
lookup-Other i k t ((j, u) ∷ m) (here, rest) e = elim (Bool-cases (beq_ℤ j k)) [
  | inl hit ↦ ground arith
  | inr miss ↦ lookup-Other i k t m rest (ground arith)
]

modify-Other :
    (i : ℕ) (k : ℤ) (t : ToolBlock) (m : Map ℤ ToolBlock)
    → t.anthropic_index ≢ i
    → All (OtherIndex i) m
    → All (OtherIndex i) (modify k (λ u. t) m)
unfolding modify
modify-Other i k t [] e a = tt
modify-Other i k t ((j, u) ∷ m) e (here, rest) = elim (Bool-cases (beq_ℤ j k)) [
  | inl hit ↦ rw hit (e, rest)
  | inr miss ↦ rw miss (here, modify-Other i k t m e rest)
]

pub InStep-others :
    (n i : ℕ) (f g : Statuses) (m : Map ℤ ToolBlock)
    → ((j : ℕ) → j ≢ i → g j ≡ f j)
    → All (OtherIndex i) m
    → InStep n f m
    → InStep n g m
unfolding InStep
InStep-others n i f g [] same a v = tt
InStep-others n i f g ((k, t) ∷ m) same (here, rest) (below, going, told, others, v) =
    (below, going, same t.anthropic_index here ∙ told, others, InStep-others n i f g m same rest v)

-- A block takes the place of another one with its index.
modify-InStep :
    (n : ℕ) (f g : Statuses) (k : ℤ) (t u : ToolBlock) (m : Map ℤ ToolBlock)
    → lookup k m ≡ some t
    → u.anthropic_index ≡ t.anthropic_index
    → u.stopped ≡ false
    → g t.anthropic_index ≡ tool_status u
    → ((j : ℕ) → j ≢ t.anthropic_index → g j ≡ f j)
    → InStep n f m
    → InStep n g (modify k (λ _. u) m)
unfolding InStep lookup modify
modify-InStep n f g k t u [] e index going told same v = absurd (ground arith)
modify-InStep n f g k t u ((j, w) ∷ m) e index going told same (below, still, told', others, rest) =
    elim (Bool-cases (beq_ℤ j k)) [
      | inl hit ↦
          let same_block : w ≡ t = ground arith in
          rw hit (
            ground arith,
            going,
            ap g index ∙ told,
            subst (λ i. All (OtherIndex i) m) (ap (λ b. b.anthropic_index) same_block ∙ sym index)
                others,
            InStep-others n t.anthropic_index f g m same
                (subst (λ i. All (OtherIndex i) m) (ap (λ b. b.anthropic_index) same_block) others)
                rest,
          )
      | inr miss ↦
          let found : lookup k m ≡ some t = ground arith in
          let apart = lookup-Other w.anthropic_index k t m others found in
          rw miss (
            below,
            still,
            same w.anthropic_index (λ h. apart (sym h)) ∙ told',
            modify-Other w.anthropic_index k u m (λ h. apart (sym index ∙ h)) others,
            modify-InStep n f g k t u m found index going told same rest,
          )
    ]

modify-HasIndex :
    (i : ℕ) (k : ℤ) (t u : ToolBlock) (m : Map ℤ ToolBlock)
    → lookup k m ≡ some t
    → u.anthropic_index ≡ t.anthropic_index
    → HasIndex i m
    → HasIndex i (modify k (λ _. u) m)
unfolding HasIndex lookup modify
modify-HasIndex i k t u [] e index h = h
modify-HasIndex i k t u ((j, w) ∷ m) e index h = elim (Bool-cases (beq_ℤ j k)) [
  | inl hit ↦
      let same_block : w ≡ t = ground arith in
      rw hit (elim h [
        | inl here ↦ inl (index ∙ sym (ap (λ b. b.anthropic_index) same_block) ∙ here)
        | inr there ↦ inr there
      ])
  | inr miss ↦
      let found : lookup k m ≡ some t = ground arith in
      rw miss (elim h [
        | inl here ↦ inl here
        | inr there ↦ inr (modify-HasIndex i k t u m found index there)
      ])
]

insert_tool-Other :
    (i : ℕ) (k : ℤ) (t : ToolBlock) (m : Map ℤ ToolBlock)
    → t.anthropic_index ≢ i
    → All (OtherIndex i) m
    → All (OtherIndex i) (insert_tool k t m)
unfolding insert_tool
insert_tool-Other i k t [] e a = (e, tt)
insert_tool-Other i k t ((j, u) ∷ m) e (here, rest) =
    if_both (All (OtherIndex i)) (ltb_ℤ k j) _ _ (λ _. (e, (here, rest)))
      (λ _. (here, insert_tool-Other i k t m e rest))

-- Every index of the table is below the next one.
InStep-below : (n : ℕ) (f : Statuses) (m : Map ℤ ToolBlock) → InStep n f m → All (OtherIndex n) m
unfolding InStep
InStep-below n f [] v = tt
InStep-below n f ((k, t) ∷ m) (below, going, told, others, rest) =
    (omega arith, InStep-below n f m rest)

insert_tool-InStep :
    (n : ℕ) (f : Statuses) (k : ℤ) (m : Map ℤ ToolBlock)
    → f n ≡ unused
    → InStep n f m
    → InStep (suc n) f (insert_tool k (new_block n) m)
unfolding InStep insert_tool
insert_tool-InStep n f k [] e v = (omega arith, refl, e, tt, tt)
insert_tool-InStep n f k ((j, u) ∷ m) e v =
    if_both (InStep (suc n) f) (ltb_ℤ k j) _ _
      (λ _. (
        omega arith,
        refl,
        e,
        InStep-below n f ((j, u) ∷ m) v,
        InStep-frame n (suc n) f f ((j, u) ∷ m) (omega arith) (λ _ _ _. refl) v,
      ))
      (λ _.
        let (below, going, told, others, rest) = v in
        (
          omega arith,
          going,
          told,
          insert_tool-Other u.anthropic_index k (new_block n) m (omega arith) others,
          insert_tool-InStep n f k m e rest,
        ))

insert_tool-HasIndex :
    (i : ℕ) (k : ℤ) (t : ToolBlock) (m : Map ℤ ToolBlock)
    → HasIndex i m
    → HasIndex i (insert_tool k t m)
unfolding HasIndex insert_tool
insert_tool-HasIndex i k t [] h = absurd h
insert_tool-HasIndex i k t ((j, u) ∷ m) h =
    if_both (HasIndex i) (ltb_ℤ k j) _ _ (λ _. inr h)
      (λ _. elim h [ inl here ↦ inl here | inr there ↦ inr (insert_tool-HasIndex i k t m there) ])

-- A block that has not started joins the table under the next index.
pub insert_tool-Blocks :
    (n : ℕ) (f : Statuses) (k : ℤ) (m : Map ℤ ToolBlock)
    → Blocks none n m f
    → Blocks none (suc n) (insert_tool k (new_block n) m) f
insert_tool-Blocks n f k m v = record {
  fresh = λ i h. v.fresh i (omega arith);
  told = tt;
  single = v.single;
  in_step = insert_tool-InStep n f k m (v.fresh n (omega arith)) v.in_step;
  covered = λ i h. insert_tool-HasIndex i k (new_block n) m (v.covered i h);
}

-- A block of the table is written, and the client hears of it alone.
pub modify-Blocks :
    (n : ℕ) (f g : Statuses) (k : ℤ) (t u : ToolBlock) (m : Map ℤ ToolBlock)
    → lookup k m ≡ some t
    → u.anthropic_index ≡ t.anthropic_index
    → u.stopped ≡ false
    → g t.anthropic_index ≡ tool_status u
    → ((j : ℕ) → j ≢ t.anthropic_index → g j ≡ f j)
    → Blocks none n m f
    → Blocks none n (modify k (λ _. u) m) g
modify-Blocks n f g k t u m e index going told same v =
    let (below, _, _) = lookup-InStep n f k t m v.in_step e in
    record {
      fresh = λ i h. same i (omega arith) ∙ v.fresh i h;
      told = tt;
      single = λ i h. elim (Bool-cases (nat_eq i t.anthropic_index)) [
        | inl hit ↦ absurd (ground arith)
        | inr miss ↦ v.single i (ground (arith, same i))
      ];
      in_step = modify-InStep n f g k t u m e index going told same v.in_step;
      covered = λ i h. elim (Bool-cases (nat_eq i t.anthropic_index)) [
        | inl hit ↦ modify-HasIndex i k t u m e index (
            subst (λ j. HasIndex j m) (sym ((nat_eq_iff i t.anthropic_index).0 hit))
              (lookup-HasIndex k t m e))
        | inr miss ↦ modify-HasIndex i k t u m e index (v.covered i (ground (arith, same i)))
      ];
    }
