-- ===== src/InlineThink/Reasoning.antt =====
-- src/service/inline_think.rs: what is handed on while a block is open.
use llm_gateway.Prelude.{
  ℕ, ◌≡◌, refl, sym, ap, ◌∙◌, Option, none, some, true, false, List, [], ◌∷◌, ◌++◌, arith,
  Option-cases, Bool-cases, inl, inr,
}
use llm_gateway.Prelude.Text.{Text, starts_with, strip_prefix, split_first, trim_start}
use llm_gateway.InlineThink.{
  think_open, think_close, Mode, detecting, reasoning, text, InlineThinkState, need_more,
  leading_think_prefix_decision, split_held, unless_empty, Deltas, emit_reasoning, feed, flush,
}
use llm_gateway.InlineThink.Prefixes.{
  strip_prefix-append-none, split_first-miss, split_first-append, split_first-none,
}
use mathlib.Core.List.{append_assoc, append-nil}

-- All that is handed on, joined: `concat` of the reasoning and of the text.
abbrev pub joined : List Text → Text
joined [] = []
joined (t ∷ ts) = t ++ joined ts

-- The reasoning and the text of what follows an opening tag.
abbrev pub after_open : Text → Text × Text
after_open s = elim (split_first think_close s) [ none ↦ (s, []) | some r ↦ r ]

-- By what stands after an opening tag: an answer that is nothing but the tag is text.
abbrev pub opened : Text → Option Text → Text × Text
opened s none = ([], s)
opened s (some []) = ([], s)
opened s (some (c ∷ cs)) = after_open (c ∷ cs)

-- The reasoning and the text of a whole answer, which opens with a block, after blanks, or is text.
abbrev pub whole : Text → Text × Text
whole s = opened s (strip_prefix (trim_start s) think_open)

-- The deltas of one chunk after the other, and of the flush at the end.
unfoldable pub feed_all : InlineThinkState → List Text → Deltas
feed_all s [] = (flush s).1
feed_all s (c ∷ cs) =
    let (s', (r, t)) = feed s c in let (rs, ts) = feed_all s' cs in (r ++ rs, t ++ ts)

pub joined-unless_empty : (t : Text) → joined (unless_empty t) ≡ t
joined-unless_empty [] = refl
joined-unless_empty (c ∷ cs) = simp append-nil

pub joined-append : (xs ys : List Text) → joined (xs ++ ys) ≡ joined xs ++ joined ys
joined-append [] ys = refl
joined-append (x ∷ xs) ys = simp (joined-append xs ys, append_assoc)

-- More reasoning in front.
abbrev pub ahead : Text → Text × Text → Text × Text
ahead t r = (t ++ r.0, r.1)

pub after_open-miss :
    (c : ℕ) (cs : Text)
    → strip_prefix (c ∷ cs) think_close ≡ none
    → after_open (c ∷ cs) ≡ ahead (c ∷ []) (after_open cs)
after_open-miss c cs h = elim (Option-cases (split_first think_close cs)) [
  | inl gone ↦ ground (arith, split_first-miss think_close c cs h, gone)
  | inr (f, found) ↦ ground (arith, split_first-miss think_close c cs h, found)
]

pub split_held-held :
    (c : ℕ) (cs : Text)
    → starts_with think_close (c ∷ cs) ≡ true
    → split_held (c ∷ cs) ≡ ([], c ∷ cs)
unfolding split_held
split_held-held c cs h = rw (h, split_held)

pub split_held-free :
    (c : ℕ) (cs : Text)
    → starts_with think_close (c ∷ cs) ≡ false
    → split_held (c ∷ cs) ≡ (c ∷ (split_held cs).0, (split_held cs).1)
unfolding split_held
split_held-free c cs h = rw (h, split_held)

-- What is let go begins no closing tag, whatever follows.
pub after_open-held :
    (s w : Text)
    → split_first think_close s ≡ none
    → after_open (s ++ w) ≡ ahead (split_held s).0 (after_open ((split_held s).1 ++ w))
after_open-held [] w h = unfold split_held in refl
after_open-held (c ∷ cs) w h = elim (Bool-cases (starts_with think_close (c ∷ cs))) [
  | inl held ↦ rw (split_held-held c cs held)
  | inr free ↦
      let (miss, gone) = split_first-none think_close c cs h in
      rw (split_held-free c cs free) (
        after_open-miss c (cs ++ w) (strip_prefix-append-none (c ∷ cs) think_close w miss free)
        ∙ ap (ahead (c ∷ [])) (after_open-held cs w gone))
]

pub held_unclosed :
    (s : Text) → split_first think_close s ≡ none → split_first think_close (split_held s).1 ≡ none
held_unclosed [] h = unfold split_held in h
held_unclosed (c ∷ cs) h = elim (Bool-cases (starts_with think_close (c ∷ cs))) [
  | inl held ↦ rw (split_held-held c cs held) h
  | inr free ↦
      rw (split_held-free c cs free) (held_unclosed cs (split_first-none think_close c cs h).1)
]

-- What a state will have handed on when the rest of the stream is `w`.
unfoldable pub rest_by : Mode → Text → Text → Text × Text
rest_by text buffer w = ([], w)
rest_by detecting buffer w = whole (buffer ++ w)
rest_by reasoning buffer w = after_open (buffer ++ w)

-- What is buffered settles nothing yet.
abbrev pub Waits : Mode → Text → Type 0
Waits text buffer = Unit
Waits detecting buffer = leading_think_prefix_decision buffer ≡ need_more
Waits reasoning buffer = split_first think_close buffer ≡ none

-- The result of a call hands on its part of `all`, and its state the part that `w` is needed for.
abbrev pub HandsOn : Text → Text × Text → InlineThinkState × Deltas → Type 0
HandsOn w all (s, (r, t)) =
    (all.0 ≡ joined r ++ (rest_by s.mode s.buffer w).0)
    × (all.1 ≡ joined t ++ (rest_by s.mode s.buffer w).1)
    × Waits s.mode s.buffer

pub after_open-closed :
    (b w before answer : Text)
    → split_first think_close b ≡ some (before, answer)
    → after_open (b ++ w) ≡ (before, answer ++ w)
after_open-closed b w before answer h =
    rw (split_first-append think_close b w before answer h, after_open)

pub emit_reasoning-closed :
    (b before answer : Text)
    → split_first think_close b ≡ some (before, answer)
    → emit_reasoning b
      ≡ (record { mode = text; buffer = [] }, (unless_empty before, unless_empty answer))
unfolding emit_reasoning
emit_reasoning-closed b before answer h = rw (h, emit_reasoning)

pub emit_reasoning-open :
    (b : Text)
    → split_first think_close b ≡ none
    → emit_reasoning b ≡ (
      record { mode = reasoning; buffer = (split_held b).1 },
      (unless_empty (split_held b).0, []),
    )
unfolding emit_reasoning
emit_reasoning-open b h = rw (h, emit_reasoning)

pub emit_reasoning-HandsOn : (b w : Text) → HandsOn w (after_open (b ++ w)) (emit_reasoning b)
unfolding rest_by
emit_reasoning-HandsOn b w = elim (Option-cases (split_first think_close b)) [
  | inl open_yet ↦ rw (emit_reasoning-open b open_yet) (
    ap (λ p. p.0) (after_open-held b w open_yet)
        ∙ ap (λ t. t ++ (after_open ((split_held b).1 ++ w)).0)
            (sym (joined-unless_empty (split_held b).0)),
    ap (λ p. p.1) (after_open-held b w open_yet),
    held_unclosed b open_yet,
  )
  | inr ((before, answer), closed) ↦ rw (emit_reasoning-closed b before answer closed) (
    ap (λ p. p.0) (after_open-closed b w before answer closed)
        ∙ sym (append-nil _ ∙ joined-unless_empty before),
    ap (λ p. p.1) (after_open-closed b w before answer closed)
        ∙ ap (λ t. t ++ w) (sym (joined-unless_empty answer)),
    tt,
  )
]
