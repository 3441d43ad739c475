-- ===== src/Sse/Draining.antt =====
-- src/service/responses/stream.rs: the loop of `push` ends within the rounds it is given.
use llm_gateway.Prelude.{
  ℕ, zero, suc, ◌+◌, ◌≤◌, ◌<◌, ◌≡◌, refl, sym, ap, ◌∙◌, ◌⊎◌, inl, inr, Option, none, some, true,
  false, [], ◌∷◌, arith, length, Option-cases, Bool-cases,
}
use llm_gateway.Prelude.Eq.{◌==◌, List_Eq, ℕ_Eq}
use llm_gateway.Prelude.Text.{Text, codes, strip_prefix, split_first}
use llm_gateway.InlineThink.Prefixes.{split_first-hit, split_first-miss}
use llm_gateway.Sse.{
  Bytes, SseEvent, lf_lf, crlf_crlf, cut_event, read_event, Drained, take_event, drain,
}

strip_prefix-rest : (s p r : Text) → strip_prefix s p ≡ some r → length p + length r ≡ length s
strip_prefix-rest s [] r h = ground arith
strip_prefix-rest [] (p ∷ ps) r h = absurd (ground arith)
strip_prefix-rest (c ∷ cs) (p ∷ ps) r h = ground (arith, strip_prefix-rest cs ps r)

split_first-rest :
    (p s : Text) (r : Text × Text)
    → split_first p s ≡ some r
    → length r.0 + length p + length r.1 ≡ length s
split_first-rest p [] r h = unfold split_first in absurd (ground arith)
split_first-rest p (c ∷ cs) r h = elim (Option-cases (strip_prefix (c ∷ cs) p)) [
  | inr (a, hit) ↦ ground (arith, split_first-hit p c cs a hit, strip_prefix-rest (c ∷ cs) p a hit)
  | inl miss ↦ elim (Option-cases (split_first p cs)) [
    | inl gone ↦ absurd (ground (arith, split_first-miss p c cs miss, gone))
    | inr (g, found) ↦
        ground (arith, split_first-miss p c cs miss, found, split_first-rest p cs g found)
  ]
]

-- A cut takes bytes off.
pub cut_event-shorter :
    (buf : Bytes) (r : Bytes × Bytes) → cut_event buf ≡ some r → length r.1 < length buf
unfolding cut_event
cut_event-shorter buf r h = elim (Option-cases (split_first lf_lf buf)) [
  | inr (a, found) ↦ ground (arith, found, split_first-rest lf_lf buf a found)
  | inl gone ↦ elim (Option-cases (split_first crlf_crlf buf)) [
    | inr (a, found) ↦ ground (arith, gone, found, split_first-rest crlf_crlf buf a found)
    | inl gone' ↦ absurd (ground (arith, gone, gone'))
  ]
]

-- Where the loop stands at its end: at the end mark, or before an event that is not complete.
abbrev pub Settled : Drained → Type 0
Settled d = (d.2 ≡ true) ⊎ (cut_event d.0 ≡ none)

take_event-Settled :
    (e : Option SseEvent) (rest : Bytes) (later : Drained)
    → Settled later
    → Settled (take_event e rest later)
unfolding take_event
take_event-Settled none rest later h = h
take_event-Settled (some e) rest later h = elim (Bool-cases (e.payload == codes "[DONE]")) [
  | inl hit ↦ rw hit (inl refl)
  | inr miss ↦ rw miss h
]

-- What a round gives, by the cut.
abbrev pub round : ℕ → Bytes → Option (Bytes × Bytes) → Drained
round fuel buf none = (buf, [], false)
round fuel buf (some (event, rest)) = take_event (read_event event) rest (drain fuel rest)

pub drain-round :
    (fuel : ℕ) (buf : Bytes) (o : Option (Bytes × Bytes))
    → cut_event buf ≡ o
    → drain (suc fuel) buf ≡ round fuel buf o
unfolding drain
drain-round fuel buf none h = rw (drain, h) refl
drain-round fuel buf (some r) h = rw (drain, h) refl

-- As many rounds as the buffer has bytes are enough: the loop ends at the end mark, or because no
-- event is complete any more, and never for want of rounds.
pub drain-Settled : (fuel : ℕ) (buf : Bytes) → length buf ≤ fuel → Settled (drain fuel buf)
drain-Settled zero [] h = unfold drain cut_event split_first in inr refl
drain-Settled zero (b ∷ bs) h = absurd (omega arith)
drain-Settled (suc fuel) buf h = elim (Option-cases (cut_event buf)) [
  | inl gone ↦ rw (drain-round fuel buf none gone) (inr gone)
  | inr ((event, rest), found) ↦ rw (drain-round fuel buf (some (event, rest)) found) (
      take_event-Settled (read_event event) rest (drain fuel rest)
        (drain-Settled fuel rest (omega (arith, cut_event-shorter buf (event, rest) found))))
]

-- More rounds than enough change nothing.
pub drain_enough :
    (f g : ℕ) (buf : Bytes) → length buf ≤ f → length buf ≤ g → drain f buf ≡ drain g buf
drain_enough zero zero buf h k = refl
drain_enough zero (suc g) [] h k = unfold drain cut_event split_first in refl
drain_enough (suc f) zero [] h k = unfold drain cut_event split_first in refl
drain_enough zero (suc g) (b ∷ bs) h k = absurd (omega arith)
drain_enough (suc f) zero (b ∷ bs) h k = absurd (omega arith)
drain_enough (suc f) (suc g) buf h k = elim (Option-cases (cut_event buf)) [
  | inl gone ↦ drain-round f buf none gone ∙ sym (drain-round g buf none gone)
  | inr ((event, rest), found) ↦
      let shorter = cut_event-shorter buf (event, rest) found in
      drain-round f buf (some (event, rest)) found
      ∙ ap (take_event (read_event event) rest)
          (drain_enough f g rest (omega (arith, shorter)) (omega (arith, shorter)))
      ∙ sym (drain-round g buf (some (event, rest)) found)
]
