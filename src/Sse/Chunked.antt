-- ===== src/Sse/Chunked.antt =====
-- src/service/responses/stream.rs: the events do not depend on where the bytes are cut into chunks.
use llm_gateway.Prelude.{
  ℕ, zero, suc, ◌≤◌, ◌≡◌, ◌≢◌, refl, sym, ap, ◌∙◌, subst, Option, none, some, Bool, false, List, [],
  ◌∷◌, ◌++◌, arith, length, Option-cases, Bool-cases, All, inl, inr,
}
use llm_gateway.Prelude.Eq.{◌==◌, List_Eq, ℕ_Eq}
use llm_gateway.Prelude.Text.{codes, strip_prefix, split_first}
use llm_gateway.InlineThink.Prefixes.{split_first-hit, split_first-miss, split_first-append}
use llm_gateway.Sse.{
  Bytes, SseEvent, ChatSseParser, lf_lf, crlf_crlf, cut_event, read_event, Drained, take_event,
  drain, buffer_limit, bounded, pushed, push,
}
use llm_gateway.Sse.Draining.{cut_event-shorter, drain-round, drain_enough}
use mathlib.Core.List.{append_assoc}

-- No carriage return.
abbrev pub NoReturn : Bytes → Type 0
NoReturn = All (λ b. b ≢ b'\r')

strip_prefix-NoReturn : (s p r : Bytes) → strip_prefix s p ≡ some r → NoReturn s → NoReturn r
strip_prefix-NoReturn s [] r h a = subst NoReturn (ground arith) a
strip_prefix-NoReturn [] (p ∷ ps) r h a = absurd (ground arith)
strip_prefix-NoReturn (c ∷ cs) (p ∷ ps) r h a = strip_prefix-NoReturn cs ps r (ground arith) a.1

split_first-NoReturn :
    (p s : Bytes) (r : Bytes × Bytes) → split_first p s ≡ some r → NoReturn s → NoReturn r.1
split_first-NoReturn p [] r h a = unfold split_first in absurd (ground arith)
split_first-NoReturn p (c ∷ cs) r h a = elim (Option-cases (strip_prefix (c ∷ cs) p)) [
  | inr (x, hit) ↦
      let rest : x ≡ r.1 = ground (arith, split_first-hit p c cs x hit) in
      subst NoReturn rest (strip_prefix-NoReturn (c ∷ cs) p x hit a)
  | inl miss ↦ elim (Option-cases (split_first p cs)) [
    | inl gone ↦ absurd (ground (arith, split_first-miss p c cs miss, gone))
    | inr (g, found) ↦
        let rest : g.1 ≡ r.1 = ground (arith, split_first-miss p c cs miss, found) in
        subst NoReturn rest (split_first-NoReturn p cs g found a.1)
  ]
]

no_crlf : (s : Bytes) → NoReturn s → split_first crlf_crlf s ≡ none
unfolding split_first
no_crlf [] a = refl
no_crlf (c ∷ cs) a = ground (arith, no_crlf cs a.1, a.0)

-- A cut stays the same when more bytes come.
cut_event-append :
    (s w : Bytes) (r : Bytes × Bytes)
    → NoReturn s
    → cut_event s ≡ some r
    → (cut_event (s ++ w) ≡ some (r.0, r.1 ++ w)) × NoReturn r.1
unfolding cut_event
cut_event-append s w r a h = elim (Option-cases (split_first lf_lf s)) [
  | inl gone ↦ absurd (ground (arith, gone, no_crlf s a))
  | inr ((before, after), found) ↦
      let rest : after ≡ r.1 = ground (arith, found) in
      (
        ground (arith, found, split_first-append lf_lf s w before after found),
        subst NoReturn rest (split_first-NoReturn lf_lf s (before, after) found a),
      )
]

-- Events in front of what a loop gives.
abbrev pub prepend : List SseEvent → Drained → Drained
prepend es (buf, events, done) = (buf, es ++ events, done)

take_event-live :
    (e : Option SseEvent) (rest : Bytes) (later : Drained)
    → (take_event e rest later).2 ≡ false
    → later.2 ≡ false
unfolding take_event
take_event-live none rest later h = h
take_event-live (some e) rest later h = elim (Bool-cases (e.payload == codes "[DONE]")) [
  | inl hit ↦ absurd (ground arith)
  | inr miss ↦ ground arith
]

-- A round whose later rounds go on over more bytes.
take_event-prepend :
    (e : Option SseEvent) (rest rest' : Bytes) (later more : Drained)
    → (take_event e rest later).2 ≡ false
    → take_event e rest' (prepend later.1 more) ≡ prepend (take_event e rest later).1 more
unfolding take_event
take_event-prepend none rest rest' later more h = refl
take_event-prepend (some e) rest rest' later more h =
    elim (Bool-cases (e.payload == codes "[DONE]")) [
      | inl hit ↦ absurd (ground arith)
      | inr miss ↦ rw miss refl
    ]

take_event-rest :
    (e : Option SseEvent) (rest : Bytes) (later : Drained)
    → (take_event e rest later).2 ≡ false
    → (take_event e rest later).0 ≡ later.0
unfolding take_event
take_event-rest none rest later h = refl
take_event-rest (some e) rest later h = elim (Bool-cases (e.payload == codes "[DONE]")) [
  | inl hit ↦ absurd (ground arith)
  | inr miss ↦ rw miss refl
]

abbrev drained : Bytes → Drained
drained buf = drain (length buf) buf

drained-cut :
    (buf event rest : Bytes)
    → cut_event buf ≡ some (event, rest)
    → drained buf ≡ take_event (read_event event) rest (drained rest)
drained-cut buf event rest found =
    let shorter = cut_event-shorter buf (event, rest) found in
    drain_enough (length buf) (suc (length buf)) buf (omega arith) (omega arith)
    ∙ drain-round (length buf) buf (some (event, rest)) found
    ∙ ap (take_event (read_event event) rest)
        (drain_enough (length buf) (length rest) rest (omega (arith, shorter)) (omega arith))

drained-none : (buf : Bytes) → cut_event buf ≡ none → drained buf ≡ (buf, [], false)
drained-none buf gone =
    drain_enough (length buf) (suc (length buf)) buf (omega arith) (omega arith)
    ∙ drain-round (length buf) buf none gone

-- The rounds behind a cut, over more bytes.
cut-append :
    (s w event rest : Bytes)
    → NoReturn s
    → (drained s).2 ≡ false
    → cut_event s ≡ some (event, rest)
    → ((drained rest).2 ≡ false
        → drained (rest ++ w) ≡ prepend (drained rest).1 (drained ((drained rest).0 ++ w)))
    → drained (s ++ w) ≡ prepend (drained s).1 (drained ((drained s).0 ++ w))
cut-append s w event rest a live found later =
    let e = read_event event in
    let (found', clean) = cut_event-append s w (event, rest) a found in
    let first = drained-cut s event rest found in
    let live' : (take_event e rest (drained rest)).2 ≡ false =
      subst (λ d. d.2 ≡ false) first live in
    subst (λ d. drained (s ++ w) ≡ prepend d.1 (drained (d.0 ++ w))) (sym first)
      (subst
        (λ b. drained (s ++ w) ≡ prepend (take_event e rest (drained rest)).1 (drained (b ++ w)))
        (sym (take_event-rest e rest (drained rest) live'))
        (drained-cut (s ++ w) event (rest ++ w) found'
          ∙ ap (take_event e (rest ++ w)) (later (take_event-live e rest (drained rest) live'))
          ∙ take_event-prepend e rest (rest ++ w) (drained rest) (drained ((drained rest).0 ++ w))
              live'))

-- The loop over some bytes and more is the loop over the bytes, and then over its rest and more.
drained-append :
    (n : ℕ) (s w : Bytes)
    → length s ≤ n
    → NoReturn s
    → (drained s).2 ≡ false
    → drained (s ++ w) ≡ prepend (drained s).1 (drained ((drained s).0 ++ w))
drained-append zero [] w h a live = unfold drain cut_event split_first in refl
drained-append zero (b ∷ s) w h a live = absurd (omega arith)
drained-append (suc n) s w h a live = elim (Option-cases (cut_event s)) [
  | inl gone ↦
      subst (λ d. drained (s ++ w) ≡ prepend d.1 (drained (d.0 ++ w))) (sym (drained-none s gone))
        refl
  | inr ((event, rest), found) ↦ cut-append s w event rest a live found (
      drained-append n rest w (omega (arith, cut_event-shorter s (event, rest) found))
        (cut_event-append s w (event, rest) a found).1)
]

-- The loop leaves no more bytes than it was given.
drained-length :
    (n : ℕ) (s : Bytes) → length s ≤ n → (drained s).2 ≡ false → length (drained s).0 ≤ length s
drained-length zero [] h live = unfold drain in omega arith
drained-length zero (b ∷ s) h live = absurd (omega arith)
drained-length (suc n) s h live = elim (Option-cases (cut_event s)) [
  | inl gone ↦ subst (λ d. length d.0 ≤ length s) (sym (drained-none s gone)) (omega arith)
  | inr ((event, rest), found) ↦
      let e = read_event event in
      let first = drained-cut s event rest found in
      let live' : (take_event e rest (drained rest)).2 ≡ false =
        subst (λ d. d.2 ≡ false) first live in
      let shorter = cut_event-shorter s (event, rest) found in
      let left =
        drained-length n rest (omega (arith, shorter))
          (take_event-live e rest (drained rest) live') in
      subst (λ d. length d.0 ≤ length s) (sym first)
        (subst (λ b. length b ≤ length s) (sym (take_event-rest e rest (drained rest) live'))
          (omega (arith, left, shorter)))
]

bounded_small : (s : Bytes) → length s ≤ buffer_limit → bounded s ≡ s
bounded_small s h = ground arith

-- Events in front of those of a chunk.
abbrev pub with_events :
    List SseEvent → ChatSseParser × List SseEvent × Bool → ChatSseParser × List SseEvent × Bool
with_events es (p, events, done) = (p, es ++ events, done)

-- Two chunks that come one after the other give the events, the rest and the end that they give as one
-- chunk, where the bytes up to the cut hold no carriage return, are not too many for the buffer, and do
-- not end the stream.
pub push-append :
    (p : ChatSseParser) (a b : Bytes)
    → NoReturn (p.buf ++ a)
    → length (p.buf ++ a) ≤ buffer_limit
    → (push a p).2 ≡ false
    → push (a ++ b) p ≡ with_events (push a p).1 (push b (push a p).0)
unfolding push
push-append p a b clean small live =
    let s = p.buf ++ a in
    let kept =
      bounded_small (drained s).0 (omega (arith, drained-length (length s) s (omega arith) live)) in
    subst
      (λ x.
        pushed (drained x)
        ≡ with_events (drained s).1 (pushed (drained (bounded (drained s).0 ++ b))))
      (append_assoc p.buf a b)
      (subst
        (λ r. pushed (drained (s ++ b)) ≡ with_events (drained s).1 (pushed (drained (r ++ b))))
        (sym kept) (ap pushed (drained-append (length s) s b (omega arith) clean live)))
