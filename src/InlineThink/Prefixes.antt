-- ===== src/InlineThink/Prefixes.antt =====
-- Prefixes and first occurrences in a text that grows at its end.
use llm_gateway.Prelude.{
  ℕ, ◌≡◌, refl, none, some, true, false, [], ◌∷◌, ◌++◌, arith, ◌+◌, length, ◌≤◌, ne_true→eq_false,
  Option-cases, inl, inr,
}
use llm_gateway.Prelude.Text.{Text, starts_with, strip_prefix, split_first}
use mathlib.Core.Option

pub starts_with-append : (s p w : Text) → starts_with s p ≡ true → starts_with (s ++ w) p ≡ true
starts_with-append s [] w h = refl
starts_with-append [] (p ∷ ps) w h = ground arith
starts_with-append (c ∷ cs) (p ∷ ps) w h = ground (arith, starts_with-append cs ps w)

-- Of a text and a pattern neither of which begins the other, no longer text begins with it.
pub strip_prefix-append-none :
    (s p w : Text)
    → strip_prefix s p ≡ none
    → starts_with p s ≡ false
    → strip_prefix (s ++ w) p ≡ none
strip_prefix-append-none s [] w h k = ground arith
strip_prefix-append-none [] (p ∷ ps) w h k = ground arith
strip_prefix-append-none (c ∷ cs) (p ∷ ps) w h k = ground (arith, strip_prefix-append-none cs ps w)

pub strip_prefix-append :
    (s p w r : Text) → strip_prefix s p ≡ some r → strip_prefix (s ++ w) p ≡ some (r ++ w)
strip_prefix-append s [] w r h = ground arith
strip_prefix-append [] (p ∷ ps) w r h = ground arith
strip_prefix-append (c ∷ cs) (p ∷ ps) w r h = ground (arith, strip_prefix-append cs ps w r)

pub strip_prefix-starts_with : (s p : Text) → starts_with s p ≡ false → strip_prefix s p ≡ none
strip_prefix-starts_with s [] h = ground arith
strip_prefix-starts_with [] (p ∷ ps) h = refl
strip_prefix-starts_with (c ∷ cs) (p ∷ ps) h = ground (arith, strip_prefix-starts_with cs ps)

pub strip_prefix-some :
    (s p : Text) → starts_with s p ≡ true → (r : Text) × (strip_prefix s p ≡ some r)
strip_prefix-some s [] h = (s, refl)
strip_prefix-some [] (p ∷ ps) h = absurd (ground arith)
strip_prefix-some (c ∷ cs) (p ∷ ps) h =
    let (r, e) = strip_prefix-some cs ps (ground arith) in (r, ground (arith, e))

pub strip_prefix-length :
    (s p r : Text) → strip_prefix s p ≡ some r → length s ≡ length p + length r
strip_prefix-length s [] r h = ground arith
strip_prefix-length [] (p ∷ ps) r h = ground arith
strip_prefix-length (c ∷ cs) (p ∷ ps) r h = ground (arith, strip_prefix-length cs ps r)

pub starts_with-length : (s p : Text) → starts_with s p ≡ true → length p ≤ length s
starts_with-length s [] h = omega arith
starts_with-length [] (p ∷ ps) h = ground arith
starts_with-length (c ∷ cs) (p ∷ ps) h = ground (arith, starts_with-length cs ps)

pub strip_prefix_exact : (t p : Text) → strip_prefix t p ≡ some [] → starts_with p t ≡ true
strip_prefix_exact [] [] h = refl
strip_prefix_exact (c ∷ cs) [] h = ground arith
strip_prefix_exact [] (p ∷ ps) h = ground arith
strip_prefix_exact (c ∷ cs) (p ∷ ps) h = ground (arith, strip_prefix_exact cs ps)

-- The two ways in which a text that is not empty can hold a pattern first.
pub split_first-hit :
    (p : Text) (c : ℕ) (cs r : Text)
    → strip_prefix (c ∷ cs) p ≡ some r
    → split_first p (c ∷ cs) ≡ some ([], r)
unfolding split_first
split_first-hit p c cs r h = rw (h, split_first)

pub split_first-miss :
    (p : Text) (c : ℕ) (cs : Text)
    → strip_prefix (c ∷ cs) p ≡ none
    → split_first p (c ∷ cs) ≡ Option.map (λ r. (c ∷ r.0, r.1)) (split_first p cs)
unfolding split_first
split_first-miss p c cs h = rw (h, split_first)

split_first-length : (p s : Text) (f : Text × Text) → split_first p s ≡ some f → length p ≤ length s
split_first-length p [] f h = unfold split_first in ground arith
split_first-length p (c ∷ cs) f h = elim (Option-cases (strip_prefix (c ∷ cs) p)) [
  | inr (r, hit) ↦ omega (arith, strip_prefix-length (c ∷ cs) p r hit)
  | inl miss ↦ elim (Option-cases (split_first p cs)) [
    | inl none_left ↦ ground (arith, split_first-miss p c cs miss)
    | inr (g, found) ↦ omega (arith, split_first-length p cs g found)
  ]
]

-- A first occurrence stays the first one.
pub split_first-append :
    (p s w b a : Text) → split_first p s ≡ some (b, a) → split_first p (s ++ w) ≡ some (b, a ++ w)
split_first-append p [] w b a h = unfold split_first in ground arith
split_first-append p (c ∷ cs) w b a h = elim (Option-cases (strip_prefix (c ∷ cs) p)) [
  | inr (r, hit) ↦ ground (
    arith,
    split_first-hit p c cs r hit,
    split_first-hit p c (cs ++ w) (r ++ w),
    strip_prefix-append (c ∷ cs) p w r hit,
  )
  | inl miss ↦ elim (Option-cases (split_first p cs)) [
    | inl none_left ↦ ground (arith, split_first-miss p c cs miss)
    | inr ((b', a'), found) ↦
        let long = split_first-length p cs (b', a') found in
        let apart : starts_with p (c ∷ cs) ≡ false =
          ne_true→eq_false _ (λ t. absurd (omega (arith, starts_with-length p (c ∷ cs) t))) in
        ground (
          arith,
          split_first-miss p c cs miss,
          found,
          split_first-miss p c (cs ++ w),
          strip_prefix-append-none (c ∷ cs) p w miss apart,
          split_first-append p cs w b' a' found,
        )
  ]
]

pub split_first-none :
    (p : Text) (c : ℕ) (cs : Text)
    → split_first p (c ∷ cs) ≡ none
    → (strip_prefix (c ∷ cs) p ≡ none) × (split_first p cs ≡ none)
split_first-none p c cs h = elim (Option-cases (strip_prefix (c ∷ cs) p)) [
  | inr (r, hit) ↦ absurd (ground (arith, split_first-hit p c cs r hit, h))
  | inl miss ↦ elim (Option-cases (split_first p cs)) [
    | inl gone ↦ (miss, gone)
    | inr (f, found) ↦ absurd (ground (arith, split_first-miss p c cs miss, h, found))
  ]
]
