-- ===== src/Outbound/SystemHead/Gathered.antt =====
-- src/service/system_head.rs: where the messages stand after the system messages are gathered.
use llm_gateway.Prelude.{
  ℕ, zero, suc, ◌≤◌, ◌≡◌, refl, sym, ap, subst, ◌∙◌, ◌⊎◌, inl, inr, some, Bool, true, false, ◌&&◌,
  List, [], ◌∷◌, ◌++◌, ltb, filter, length, if◌then◌else◌, arith, Bool-cases,
}
use llm_gateway.Prelude.Text.{Text, codes}
use llm_gateway.Json.{Value, string, get}
use llm_gateway.Prelude.Map.{lookup}
use llm_gateway.Outbound.SystemHead.{
  is_system, is_other, position, move_first, system_texts, merged_head, collect_many, collect_by,
  collect_system_to_head, join_lines,
}
use llm_gateway.Outbound.SystemHead.Parts.{
  systems, others, others-all, length-zero, move_first-gathers, move_first-to_front,
  move_first-changed,
}
use llm_gateway.Outbound.SystemHead.Texts.{instructions, system_texts-instructions}
use mathlib.Core.List.{append-nil}

module _ {N : Type 0} where
  -- The head: one message with all the texts, where several are merged, and else the system messages.
  abbrev head_of : Bool → List (Value N) → List (Value N)
  head_of merge ms =
      if merge && ltb 1 (length (systems ms)) then merged_head (system_texts ms) else systems ms

  -- The head stands before the other messages, which keep their order; a list that is not reported as
  -- changed is the same.
  abbrev pub Gathered : Bool → List (Value N) → List (Value N) × Bool → Type 0
  Gathered merge ms r = (r.0 ≡ head_of merge ms ++ others ms) × ((r.1 ≡ true) ⊎ (r.0 ≡ ms))

  move_first-Gathered :
      (merge : Bool) (ms : List (Value N))
      → length (systems ms) ≡ 1
      → Gathered merge ms (move_first (position ms) ms)
  move_first-Gathered merge ms h =
      let (i, (found, moved)) = move_first-gathers ms h in
      (
        rw found
            (move_first-to_front i ms ∙ (moved ∙ ap (λ s. s ++ others ms) (ground (arith, h)))),
        move_first-changed (position ms) ms,
      )

  collect_by-Gathered :
      (n : ℕ) (merge : Bool) (ms : List (Value N))
      → length (systems ms) ≡ n
      → Gathered merge ms (collect_by n merge ms)
  unfolding collect_by collect_many
  collect_by-Gathered zero merge ms h =
      (ground (arith, h, length-zero (systems ms) h, others-all ms h), inr refl)
  collect_by-Gathered (suc zero) merge ms h = move_first-Gathered merge ms h
  collect_by-Gathered (suc (suc n)) true ms h = (ground (arith, h), inl refl)
  collect_by-Gathered (suc (suc n)) false ms h = (refl, inl refl)

  -- Gathering the system messages puts them, or the one message that they are merged into, before the
  -- other messages, and keeps the order of these. A list that is not reported as changed is the same.
  collect_system_to_head-Gathered :
      (merge : Bool) (ms : List (Value N)) → Gathered merge ms (collect_system_to_head merge ms)
  unfolding collect_system_to_head
  collect_system_to_head-Gathered merge ms = collect_by-Gathered (length (systems ms)) merge ms refl

  filter-append :
      (p : Value N → Bool) (xs ys : List (Value N))
      → filter p (xs ++ ys) ≡ filter p xs ++ filter p ys
  filter-append p [] ys = refl
  filter-append p (x ∷ xs) ys = elim (Bool-cases (p x)) [
    | inl c ↦ rw c (ap (λ r. x ∷ r) (filter-append p xs ys))
    | inr c ↦ rw c (filter-append p xs ys)
  ]

  systems-systems : (ms : List (Value N)) → systems (systems ms) ≡ systems ms
  systems-systems [] = refl
  systems-systems (m ∷ ms) = elim (Bool-cases (is_system m)) [
    | inl c ↦ rw (c, c) (ap (λ r. m ∷ r) (systems-systems ms))
    | inr c ↦ rw c (systems-systems ms)
  ]

  systems-others : (ms : List (Value N)) → systems (others ms) ≡ []
  systems-others [] = refl
  systems-others (m ∷ ms) = elim (Bool-cases (is_system m)) [
    | inl c ↦ rw c (systems-others ms)
    | inr c ↦ rw (c, c) (systems-others ms)
  ]

  others-systems : (ms : List (Value N)) → others (systems ms) ≡ []
  others-systems [] = refl
  others-systems (m ∷ ms) = elim (Bool-cases (is_system m)) [
    | inl c ↦ rw (c, c) (others-systems ms)
    | inr c ↦ rw c (others-systems ms)
  ]

  others-others : (ms : List (Value N)) → others (others ms) ≡ others ms
  others-others ms = others-all (others ms) (ap length (systems-others ms))

  merged_head-systems :
      (ts : List Text)
      → (systems (merged_head {N = N} ts) ≡ merged_head ts)
        × ((others (merged_head {N = N} ts) ≡ []) × (length (merged_head {N = N} ts) ≤ 1))
  unfolding merged_head get lookup
  merged_head-systems [] = (refl, (refl, omega arith))
  merged_head-systems (t ∷ ts) = (refl, (refl, omega arith))

  head_of-systems :
      (merge : Bool) (ms : List (Value N))
      → (systems (head_of merge ms) ≡ head_of merge ms)
        × ((others (head_of merge ms) ≡ []) × ((merge ≡ false) ⊎ (length (head_of merge ms) ≤ 1)))
  head_of-systems true ms = elim (Bool-cases (ltb 1 (length (systems ms)))) [
    | inl c ↦ let h = merged_head-systems (system_texts ms) in rw c (h.0, (h.1.0, inr h.1.1))
    | inr c ↦ rw c (systems-systems ms, (others-systems ms, inr (ground (arith, c))))
  ]
  head_of-systems false ms = (systems-systems ms, (others-systems ms, inl refl))

  module _ (h o : List (Value N)) (s : systems h ≡ h) (n : others h ≡ []) (e : systems o ≡ []) where
    systems-split : systems (h ++ o) ≡ h
    systems-split = filter-append is_system h o ∙ rw (s, e) (append-nil h)

    others-split : others (h ++ o) ≡ o
    others-split = filter-append is_other h o ∙ rw n (others-all o (ap length e))

  -- A head that is settled stays.
  head_of-settled :
      (merge : Bool) (out h : List (Value N))
      → systems out ≡ h
      → (merge ≡ false) ⊎ (length h ≤ 1)
      → head_of merge out ≡ h
  head_of-settled true out h s (inl c) = ground arith
  head_of-settled true out h s (inr c) = ground (arith, s, c)
  head_of-settled false out h s c = s

  -- The one message that several are merged into: of the role system and with the lines of all their
  -- instructions; none, where they say nothing.
  abbrev pub Merged : List Text → List (Value N) → Type 0
  Merged [] heads = heads ≡ []
  Merged (t ∷ ts) heads =
      (m : Value N) × (heads ≡ m ∷ [])
      × (is_system m ≡ true)
      × (get (codes "content") m ≡ some (string (join_lines (t ∷ ts))))

  abbrev pub Settled : Bool → List (Value N) → List (Value N) × Bool → Type 0
  Settled merge ms (out, changed) =
      (out ≡ systems out ++ others ms)
      × (others out ≡ others ms)
      × (if merge && ltb 1 (length (systems ms))
          then Merged (instructions ms) (systems out)
          else systems out ≡ systems ms)
      × ((changed ≡ true) ⊎ (out ≡ ms))
      × ((collect_system_to_head merge out).0 ≡ out)

  merged_head-Merged :
      (ts : List Text) (heads : List (Value N)) → heads ≡ merged_head ts → Merged ts heads
  unfolding merged_head get lookup
  merged_head-Merged [] heads e = e
  merged_head-Merged (t ∷ ts) heads e = (_, e, refl, refl)

  head_of-Heads :
      (merge several : Bool) (ms : List (Value N))
      → (if several
          then Merged
              (instructions ms)
              (if several then merged_head (system_texts ms) else systems ms)
          else (if several then merged_head (system_texts ms) else systems ms) ≡ systems ms)
  head_of-Heads merge true ms =
      subst (λ ts. Merged ts (merged_head (system_texts ms))) (system_texts-instructions ms)
        (merged_head-Merged (system_texts ms) _ refl)
  head_of-Heads merge false ms = refl

  split-Settled :
      (merge : Bool) (ms : List (Value N)) (changed : Bool)
      → (changed ≡ true) ⊎ (head_of merge ms ++ others ms ≡ ms)
      → Settled merge ms (head_of merge ms ++ others ms, changed)
  split-Settled merge ms changed c =
      let h = head_of merge ms in
      let (s, (n, few)) = head_of-systems merge ms in
      let sys : systems (h ++ others ms) ≡ h =
        systems-split h (others ms) s n (systems-others ms) in
      let oth = others-split h (others ms) s n (systems-others ms) in
      (
        ap (λ x. x ++ others ms) (sym sys),
        oth,
        subst
            (λ x.
              if merge && ltb 1 (length (systems ms))
              then Merged (instructions ms) x
              else x ≡ systems ms)
            (sym sys) (head_of-Heads merge (merge && ltb 1 (length (systems ms))) ms),
        c,
        (collect_system_to_head-Gathered merge (h ++ others ms)).0
            ∙ rw (oth, head_of-settled merge (h ++ others ms) h sys few) refl,
      )

  -- Gathering puts the system messages before the other messages, and both keep their order and are
  -- as they were; but with `merge` several system messages become one, whose content is the lines of
  -- all their instructions, in order, or none if they say nothing. A list that is not reported as
  -- changed is the same, and gathering again changes nothing.
  pub collect_system_to_head-settles :
      (merge : Bool) (ms : List (Value N)) → Settled merge ms (collect_system_to_head merge ms)
  collect_system_to_head-settles merge ms =
      let (where_all, told) = collect_system_to_head-Gathered merge ms in
      subst (λ x. Settled merge ms (x, (collect_system_to_head merge ms).1)) (sym where_all)
        (split-Settled merge ms (collect_system_to_head merge ms).1
          (subst (λ x. ((collect_system_to_head merge ms).1 ≡ true) ⊎ (x ≡ ms)) where_all told))
