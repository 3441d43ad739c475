-- ===== src/InlineThink/Opening.antt =====
-- src/service/inline_think.rs: the decision on the beginning of a stream.
use llm_gateway.Prelude.{
  ℕ, ◌≡◌, ◌≢◌, refl, sym, ap, ◌∙◌, Option, none, some, true, false, [], ◌∷◌, ◌++◌, arith,
  if◌then◌else◌, Bool-cases, inl, inr, if_both,
}
use llm_gateway.Prelude.Text.{
  Text, starts_with, strip_prefix, split_first, trim_start, is_whitespace,
}
use llm_gateway.InlineThink.{
  think_open, PrefixDecision, need_more, is_reasoning, is_text, decide_prefix, strip_open_tag,
}
use llm_gateway.InlineThink.Prefixes.{
  strip_prefix-append-none, strip_prefix-append, strip_prefix-starts_with, strip_prefix-some,
  strip_prefix_exact, strip_prefix-length, starts_with-length, split_first-hit, split_first-miss,
}
use mathlib.Core.Option
use llm_gateway.InlineThink.Reasoning.{after_open, opened, whole}

-- Blanks in front of the tag.
pub trim_start-blank :
    (c : ℕ) (cs : Text) → is_whitespace c ≡ true → trim_start (c ∷ cs) ≡ trim_start cs
trim_start-blank c cs h = ap (λ b. if b then trim_start cs else c ∷ cs) h

pub trim_start-solid : (c : ℕ) (cs : Text) → is_whitespace c ≡ false → trim_start (c ∷ cs) ≡ c ∷ cs
trim_start-solid c cs h = ap (λ b. if b then trim_start cs else c ∷ cs) h

pub trim_start-append : (s w : Text) → trim_start s ≢ [] → trim_start (s ++ w) ≡ trim_start s ++ w
trim_start-append [] w h = absurd (h refl)
trim_start-append (c ∷ cs) w h = elim (Bool-cases (is_whitespace c)) [
  | inl blank ↦
      trim_start-blank c (cs ++ w) blank
      ∙ trim_start-append cs w (λ e. h (trim_start-blank c cs blank ∙ e))
      ∙ ap (λ t. t ++ w) (sym (trim_start-blank c cs blank))
  | inr solid ↦
      trim_start-solid c (cs ++ w) solid ∙ ap (λ t. t ++ w) (sym (trim_start-solid c cs solid))
]

pub blank_not_open :
    (c : ℕ) (cs : Text) → is_whitespace c ≡ true → strip_prefix (c ∷ cs) think_open ≡ none
blank_not_open c cs h = ground arith

pub strip_open_tag_lem :
    (b rest : Text)
    → strip_prefix (trim_start b) think_open ≡ some rest
    → (blanks : Text) × (split_first think_open b ≡ some (blanks, rest))
strip_open_tag_lem [] rest h = ground arith
strip_open_tag_lem (c ∷ cs) rest h = elim (Bool-cases (is_whitespace c)) [
  | inl blank ↦
      let (blanks, found) =
        strip_open_tag_lem cs rest
          (ap (λ t. strip_prefix t think_open) (sym (trim_start-blank c cs blank)) ∙ h) in
      (
        c ∷ blanks,
        split_first-miss think_open c cs (blank_not_open c cs blank)
            ∙ ap (Option.map (λ r. (c ∷ r.0, r.1))) found,
      )
  | inr solid ↦ (
    [],
    split_first-hit think_open c cs rest
        (ap (λ t. strip_prefix t think_open) (sym (trim_start-solid c cs solid)) ∙ h),
  )
]

pub strip_open_tag-eq :
    (b rest : Text) → strip_prefix (trim_start b) think_open ≡ some rest → strip_open_tag b ≡ rest
unfolding strip_open_tag
strip_open_tag-eq b rest h =
    let (blanks, found) = strip_open_tag_lem b rest h in rw (found, strip_open_tag)

-- What the first decision says of the stream, whatever follows.
unfoldable pub Settles : PrefixDecision → Text → Type 0
Settles need_more b = whole b ≡ ([], b)
Settles is_reasoning b =
    (rest : Text) × (strip_open_tag b ≡ rest)
    × ((w : Text) → whole (b ++ w) ≡ after_open (rest ++ w))
Settles is_text b = (w : Text) → whole (b ++ w) ≡ ([], b ++ w)

-- A text that begins the tag is the tag or does not open with it.
pub opened_short :
    (s t : Text) (o : Option Text)
    → strip_prefix t think_open ≡ o
    → starts_with think_open t ≡ true
    → opened s o ≡ ([], s)
opened_short s t none e h = refl
opened_short s t (some []) e h = refl
opened_short s t (some (c ∷ cs)) e h =
    absurd (
      omega (arith, strip_prefix-length t think_open (c ∷ cs) e, starts_with-length think_open t h))

pub whole-text :
    (b t w : Text)
    → trim_start b ≡ t
    → t ≢ []
    → starts_with think_open t ≡ false
    → starts_with t think_open ≡ false
    → whole (b ++ w) ≡ ([], b ++ w)
whole-text b t w e solid long miss =
    let trimmed : trim_start (b ++ w) ≡ t ++ w =
      trim_start-append b w (λ q. solid (sym e ∙ q)) ∙ ap (λ u. u ++ w) e in
    let apart =
      strip_prefix-append-none t think_open w (strip_prefix-starts_with t think_open miss) long in
    ap (opened (b ++ w)) (ap (λ u. strip_prefix u think_open) trimmed ∙ apart)

pub whole-think :
    (b t rest w : Text)
    → trim_start b ≡ t
    → t ≢ []
    → starts_with think_open t ≡ false
    → strip_prefix t think_open ≡ some rest
    → whole (b ++ w) ≡ after_open (rest ++ w)
whole-think b t [] w e solid long hit = cc (strip_prefix_exact t think_open hit, long)
whole-think b t (c ∷ cs) w e solid long hit =
    let trimmed : trim_start (b ++ w) ≡ t ++ w =
      trim_start-append b w (λ q. solid (sym e ∙ q)) ∙ ap (λ u. u ++ w) e in
    ap (opened (b ++ w)) (
      ap (λ u. strip_prefix u think_open) trimmed ∙ strip_prefix-append t think_open w (c ∷ cs) hit)

pub decide_prefix-Settles : (b t : Text) → trim_start b ≡ t → Settles (decide_prefix t) b
unfolding decide_prefix Settles
decide_prefix-Settles b [] e = ap (λ t. opened b (strip_prefix t think_open)) e
decide_prefix-Settles b (c ∷ cs) e =
    if_both (λ d. Settles d b) (starts_with think_open (c ∷ cs)) _ _
      (λ short.
        ap (λ t. opened b (strip_prefix t think_open)) e ∙ opened_short b (c ∷ cs) _ refl short)
      (λ long.
        if_both (λ d. Settles d b) (starts_with (c ∷ cs) think_open) _ _
          (λ hit.
            let (rest, found) = strip_prefix-some (c ∷ cs) think_open hit in
            (
              rest,
              strip_open_tag-eq b rest (ap (λ t. strip_prefix t think_open) e ∙ found),
              λ w. whole-think b (c ∷ cs) rest w e (λ q. cc) long found,
            ))
          (λ miss w. whole-text b (c ∷ cs) w e (λ q. cc) long miss))
