-- ===== src/InlineThink/Stream.antt =====
-- src/service/inline_think.rs: what the splitter hands on does not depend on where the stream is cut.
use llm_gateway.Prelude.{ℕ, ◌≡◌, refl, sym, ap, ◌∙◌, subst, some, List, [], ◌∷◌, ◌++◌}
use llm_gateway.Prelude.Text.{Text, strip_prefix, split_first, trim_start}
use llm_gateway.InlineThink.{
  think_open, think_close, Mode, detecting, reasoning, text, InlineThinkState, new, PrefixDecision,
  need_more, is_reasoning, is_text, decide_prefix, leading_think_prefix_decision,
  split_leading_think, detect, feed_by, feed, flush_by, flush,
}
use mathlib.Core.List.{append_assoc, append-nil}
use llm_gateway.InlineThink.Reasoning.{
  joined, after_open, opened, whole, feed_all, joined-unless_empty, joined-append, rest_by, Waits,
  HandsOn, emit_reasoning-HandsOn,
}
use llm_gateway.InlineThink.Opening.{strip_open_tag_lem, Settles, decide_prefix-Settles}

detect-HandsOn :
    (b w : Text) (d : PrefixDecision)
    → leading_think_prefix_decision b ≡ d
    → Settles d b
    → HandsOn w (whole (b ++ w)) (detect b d)
unfolding detect rest_by Settles
detect-HandsOn b w need_more e v = (refl, refl, e)
detect-HandsOn b w is_reasoning e v =
    let (rest, stripped, all) = v in rw (stripped, all w) (emit_reasoning-HandsOn rest w)
detect-HandsOn b w is_text e v =
    (ap (λ p. p.0) (v w), ap (λ p. p.1) (v w) ∙ ap (λ t. t ++ w) (sym (append-nil b)), tt)

feed_by-HandsOn :
    (m : Mode) (b d w : Text) → Waits m b → HandsOn w (rest_by m b (d ++ w)) (feed_by m b d)
unfolding rest_by feed_by
feed_by-HandsOn text b d w v = (refl, ap (λ t. t ++ w) (sym (append-nil d)), tt)
feed_by-HandsOn detecting b d w v = rw (← append_assoc) (
    detect-HandsOn (b ++ d) w (leading_think_prefix_decision (b ++ d)) refl (
      unfold leading_think_prefix_decision in
      decide_prefix-Settles (b ++ d) (trim_start (b ++ d)) refl))
feed_by-HandsOn reasoning b d w v = rw (← append_assoc) (emit_reasoning-HandsOn (b ++ d) w)

feed-HandsOn :
    (s : InlineThinkState) (d w : Text)
    → Waits s.mode s.buffer
    → HandsOn w (rest_by s.mode s.buffer (d ++ w)) (feed s d)
unfolding feed
feed-HandsOn s d w v = feed_by-HandsOn s.mode s.buffer d w v

flush_by-rest :
    (m : Mode) (b : Text)
    → Waits m b
    → (joined (flush_by m b).1.0 ≡ (rest_by m b []).0)
      × (joined (flush_by m b).1.1 ≡ (rest_by m b []).1)
unfolding flush_by rest_by Settles leading_think_prefix_decision
flush_by-rest text b v = (refl, refl)
flush_by-rest detecting b v =
    let plain : whole b ≡ ([], b) =
      subst (λ d. Settles d b) v (decide_prefix-Settles b (trim_start b) refl) in
    (
      rw append-nil (sym (ap (λ p. p.0) plain)),
      rw append-nil (joined-unless_empty b ∙ sym (ap (λ p. p.1) plain)),
    )
flush_by-rest reasoning b v =
    let unclosed : after_open b ≡ (b, []) = rw (v, after_open) in
    (
      rw append-nil (joined-unless_empty b ∙ sym (ap (λ p. p.0) unclosed)),
      rw append-nil (sym (ap (λ p. p.1) unclosed)),
    )

feed_all-rest :
    (s : InlineThinkState) (cs : List Text)
    → Waits s.mode s.buffer
    → (joined (feed_all s cs).0 ≡ (rest_by s.mode s.buffer (joined cs)).0)
      × (joined (feed_all s cs).1 ≡ (rest_by s.mode s.buffer (joined cs)).1)
unfolding feed_all
feed_all-rest s [] v = unfold flush in flush_by-rest s.mode s.buffer v
feed_all-rest s (c ∷ cs) v =
    let (r, t, v') = feed-HandsOn s c (joined cs) v in
    let (rs, ts) = feed_all-rest (feed s c).0 cs v' in
    (
      joined-append (feed s c).1.0 (feed_all (feed s c).0 cs).0
          ∙ ap (λ x. joined (feed s c).1.0 ++ x) rs
          ∙ sym r,
      joined-append (feed s c).1.1 (feed_all (feed s c).0 cs).1
          ∙ ap (λ x. joined (feed s c).1.1 ++ x) ts
          ∙ sym t,
    )

-- However an answer is cut into chunks, the reasoning and the text handed on are those of the whole
-- answer: what stands in the block that it opens with, and what stands after that block.
pub feed_all-whole :
    (cs : List Text)
    → (joined (feed_all new cs).0 ≡ (whole (joined cs)).0)
      × (joined (feed_all new cs).1 ≡ (whole (joined cs)).1)
unfolding rest_by leading_think_prefix_decision decide_prefix
feed_all-whole cs = feed_all-rest new cs refl

-- Of an answer that opens with a complete block, which is not empty behind its opening tag, the
-- splitter of whole answers gives the same reasoning and text as the splitter of streams.
split_leading_think-whole :
    (s rest : Text) (c : ℕ) (parts : Text × Text)
    → strip_prefix (trim_start s) think_open ≡ some (c ∷ rest)
    → split_first think_close (c ∷ rest) ≡ some parts
    → split_leading_think s ≡ some (whole s)
unfolding split_leading_think
split_leading_think-whole s rest c parts h k =
    let (blanks, found) = strip_open_tag_lem s (c ∷ rest) h in
    let all : whole s ≡ parts = ap (opened s) h ∙ rw (k, after_open) in
    rw (found, split_leading_think) (k ∙ ap some (sym all))
