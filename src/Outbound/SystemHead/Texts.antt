-- ===== src/Outbound/SystemHead/Texts.antt =====
-- src/service/system_head.rs: the texts that the system messages are merged from.
use llm_gateway.Prelude.{
  ◌≡◌, refl, sym, ap, ◌∙◌, inl, inr, Option, none, some, Bool, true, false, List, [], ◌∷◌, ◌++◌,
  map, filter, Bool-cases,
}
use llm_gateway.Prelude.Text.{Text, codes}
use llm_gateway.Json.{Value, null, boolean, number, string, arr, obj, items, get, get_str}
use llm_gateway.Outbound.SystemHead.{
  is_system, join_lines, unless_empty, part_texts, content_parts, system_texts,
}

abbrev pub is_text : Text → Bool
is_text [] = false
is_text (c ∷ cs) = true

abbrev pub present : List (Option Text) → List Text
present [] = []
present (none ∷ os) = present os
present (some t ∷ os) = t ∷ present os

unless_empty-filter :
    (t : Text) (ts : List Text) → filter is_text (t ∷ ts) ≡ unless_empty t ++ filter is_text ts
unfolding unless_empty
unless_empty-filter [] ts = refl
unless_empty-filter (c ∷ cs) ts = refl

present_step :
    (o : Option Text) (kept : List Text) (os : List (Option Text))
    → kept ≡ present os
    → (elim o [ none ↦ kept | some t ↦ t ∷ kept ]) ≡ present (o ∷ os)
present_step none kept os e = e
present_step (some t) kept os e = ap (λ ts. t ∷ ts) e

module _ {N : Type 0} where
  -- What a content says: a string itself, and an array the lines of its parts that have a text.
  abbrev pub said : Option (Value N) → Text
  said (some (string t)) = t
  said (some (arr parts)) = join_lines (present (map (get_str (codes "text")) (items parts)))
  said _ = []

  -- What the system messages say, in their order, without those that say nothing.
  abbrev pub instructions : List (Value N) → List Text
  instructions ms = filter is_text (map (λ m. said (get (codes "content") m)) (filter is_system ms))

  part_texts-present :
      (ps : List (Value N)) → part_texts ps ≡ present (map (get_str (codes "text")) ps)
  unfolding part_texts
  part_texts-present [] = refl
  part_texts-present (p ∷ ps) =
      present_step (get_str (codes "text") p) (part_texts ps) _ (part_texts-present ps)

  content_parts-said : (o : Option (Value N)) → content_parts o ≡ unless_empty (said o)
  unfolding content_parts unless_empty
  content_parts-said (some (string t)) = refl
  content_parts-said (some (arr parts)) =
      ap (λ ts. unless_empty (join_lines ts)) (part_texts-present (items parts))
  content_parts-said none = refl
  content_parts-said (some null) = refl
  content_parts-said (some (boolean b)) = refl
  content_parts-said (some (number n)) = refl
  content_parts-said (some (obj fs)) = refl

  pub system_texts-instructions : (ms : List (Value N)) → system_texts ms ≡ instructions ms
  unfolding system_texts
  system_texts-instructions [] = refl
  system_texts-instructions (m ∷ ms) = elim (Bool-cases (is_system m)) [
    | inl c ↦ rw c (
        ap (λ ts. content_parts (get (codes "content") m) ++ ts) (system_texts-instructions ms)
        ∙ ap (λ ts. ts ++ instructions ms) (content_parts-said (get (codes "content") m))
        ∙ sym (
            unless_empty-filter (said (get (codes "content") m))
              (map (λ x. said (get (codes "content") x)) (filter is_system ms))))
    | inr c ↦ rw c (system_texts-instructions ms)
  ]
