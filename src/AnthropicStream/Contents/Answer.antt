-- ===== src/AnthropicStream/Contents/Answer.antt =====
-- src/service/anthropic/stream.rs with src/service/inline_think.rs: the thinking and the text of an
-- answer that comes as contents.
use llm_gateway.Prelude.{
  ◌≡◌, refl, sym, ap, ◌∙◌, Option, none, some, true, false, List, [], ◌∷◌, ◌++◌, map, if◌then◌else◌,
}
use llm_gateway.Prelude.Text.{Text}
use llm_gateway.InlineThink.{InlineThinkState, feed, flush}
use llm_gateway.InlineThink.Reasoning.{joined, joined-append, whole, feed_all}
use llm_gateway.InlineThink.Stream.{feed_all-whole}
use llm_gateway.Chat.{Numbers}
use llm_gateway.AnthropicStream.{ChatToAnthropicState, BlockDelta, extend, extend_each, new}
use llm_gateway.AnthropicStream.Tools.{close_open_blocks}
use llm_gateway.AnthropicStream.Messages.{
  start_message, process_chunk, flush_think, finalize_live, finalize_inner, finalize, has_failed,
}
use llm_gateway.AnthropicStream.Session.{session, end_by, done}
use mathlib.Core.List.{append_assoc, append-nil}
use llm_gateway.AnthropicStream.Contents.{
  sent, thought, said, content_chunk, kept, joined-kept, sent-append, core, extend-Sends, parts,
  parts-thought, parts-said,
}
use llm_gateway.AnthropicStream.Contents.Sending.{
  running, last_split, flat, start_message-Sends, chunks-Sends, flush_think-Sends,
  close_open_blocks-Sends, finish_message-Sends,
}

module _ {N : Type 0} (num : Numbers N) (p : BlockDelta → Text) where
  unfailed-end :
      (s t : ChatToAnthropicState N)
      → s.finalized ≡ false
      → s.failed ≡ none
      → sent p
          (if s.finalized
            then (s, [])
            else if has_failed s
            then (t, [])
            else finalize_live num false t).1
        ≡ sent p (finalize_live num false t).1
  unfolding has_failed
  unfailed-end s t live ok =
      ap
        (λ b.
          sent p
            (if b then (s, []) else if has_failed s then (t, []) else finalize_live num false t).1)
        live
      ∙ ap
          (λ (o : Option Text).
            sent p
              (if elim o [ none ↦ false | some m ↦ true ]
                then (t, [])
                else finalize_live num false t).1)
          ok

  end-Sends :
      (s : ChatToAnthropicState N) (it : InlineThinkState)
      → core s ≡ flat false it
      → sent p (finalize_inner num false s).1 ≡ parts p (flush it).1
  unfolding finalize_inner has_failed finalize_live
  end-Sends s it e =
      let t = record s { finalized = true } in
      let ready : core t ≡ flat true it = ap (λ k. (k.0, (k.1.0, true), k.2)) e in
      let r = extend (start_message num t) (flush_think num) in
      let flushed =
        extend-Sends p (start_message num t) (flush_think num) (flat true it)
          (flat true (flush it).0) [] (parts p (flush it).1) (start_message-Sends num p t _ ready)
          (λ s1 e1. flush_think-Sends num p s1 true it e1) in
      let closed =
        extend-Sends p r close_open_blocks (flat true (flush it).0) (flat true (flush it).0)
          (parts p (flush it).1) [] flushed
          (λ s1 e1. close_open_blocks-Sends num p s1 true (flush it).0 e1) in
      unfailed-end s t (ap (λ k. k.1.1) e) (ap (λ k. k.1.0) e)
      ∙ finish_message-Sends num p (extend r close_open_blocks) (flat true (flush it).0) _ closed
          refl
      ∙ append-nil (parts p (flush it).1 ++ [])
      ∙ append-nil (parts p (flush it).1)

-- The splitter's deltas, by what `p` reads in them.
running-feed_all :
    (p : BlockDelta → Text) (pick : List Text × List Text → List Text)
    → ((d : List Text × List Text) → parts p d ≡ joined (pick d))
    → ((d e : List Text × List Text) → pick (d.0 ++ e.0, d.1 ++ e.1) ≡ pick d ++ pick e)
    → (it : InlineThinkState) (ts : List Text)
    → running p it ts ++ parts p (flush (last_split it ts)).1
      ≡ joined (pick (feed_all it (kept ts)))
unfolding running last_split feed_all
running-feed_all p pick law both it [] = law (flush it).1
running-feed_all p pick law both it ([] ∷ ts) = running-feed_all p pick law both it ts
running-feed_all p pick law both it ((c ∷ cs) ∷ ts) =
    let d = (feed it (c ∷ cs)).1 in
    let rest = feed_all (feed it (c ∷ cs)).0 (kept ts) in
    append_assoc (parts p d) _ _
    ∙ ap (λ t. parts p d ++ t) (running-feed_all p pick law both (feed it (c ∷ cs)).0 ts)
    ∙ ap (λ t. t ++ joined (pick rest)) (law d)
    ∙ sym (joined-append (pick d) (pick rest))
    ∙ ap joined (sym (both d rest))

module _ {N : Type 0} (num : Numbers N) where
  session-sent :
      (p : BlockDelta → Text) (pick : List Text × List Text → List Text)
      → ((d : List Text × List Text) → parts p d ≡ joined (pick d))
      → ((d e : List Text × List Text) → pick (d.0 ++ e.0, d.1 ++ e.1) ≡ pick d ++ pick e)
      → (id model : Text) (ts : List Text)
      → sent p (session num (map content_chunk ts) done (new id model)).1
        ≡ joined (pick (feed_all llm_gateway.InlineThink.new (kept ts)))
  unfolding session end_by finalize
  session-sent p pick law both id model ts =
      let it = llm_gateway.InlineThink.new in
      let r = extend_each (process_chunk num) (map content_chunk ts) (new {N = N} id model) in
      let (e, now) = chunks-Sends num p ts (new id model) it refl in
      sent-append p r.1 _
      ∙ ap (λ t. t ++ sent p (finalize_inner num false r.0).1) now
      ∙ ap (λ t. running p it ts ++ t) (end-Sends num p r.0 (last_split it ts) e)
      ∙ running-feed_all p pick law both it ts

  -- Of an upstream that sends contents and then the end mark, the client is sent the thinking and the
  -- text of the whole answer, however the answer is cut into chunks: what stands in the block that it
  -- opens with, and what stands after that block.
  pub session-whole :
      (id model : Text) (ts : List Text)
      → (sent thought (session num (map content_chunk ts) done (new id model)).1
          ≡ (whole (joined ts)).0)
        × (sent said (session num (map content_chunk ts) done (new id model)).1
            ≡ (whole (joined ts)).1)
  session-whole id model ts =
      let (think, texts) = feed_all-whole (kept ts) in
      (
        session-sent thought (λ d. d.0) parts-thought (λ d e. refl) id model ts
            ∙ think
            ∙ ap (λ t. (whole t).0) (joined-kept ts),
        session-sent said (λ d. d.1) parts-said (λ d e. refl) id model ts
            ∙ texts
            ∙ ap (λ t. (whole t).1) (joined-kept ts),
      )
