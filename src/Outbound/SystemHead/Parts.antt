-- ===== src/Outbound/SystemHead/Parts.antt =====
-- src/service/system_head.rs: the system messages and the others, and a message that is moved.
use llm_gateway.Prelude.{
  ℕ, zero, suc, ◌≡◌, refl, ◌⊎◌, inl, inr, Option, none, some, true, List, [], ◌∷◌, ◌++◌, filter,
  length, arith, Bool-cases,
}
use llm_gateway.Json.{Value}
use llm_gateway.Outbound.SystemHead.{is_system, is_other, position, to_front, move_first}

module _ {N : Type 0} where
  abbrev pub systems : List (Value N) → List (Value N)
  systems ms = filter is_system ms

  abbrev pub others : List (Value N) → List (Value N)
  others ms = filter is_other ms

  pub others-all : (ms : List (Value N)) → length (systems ms) ≡ 0 → others ms ≡ ms
  others-all [] h = refl
  others-all (m ∷ ms) h = ground (arith, others-all ms, h)

  pub length-zero : (ms : List (Value N)) → length ms ≡ 0 → ms ≡ []
  length-zero [] h = refl
  length-zero (m ∷ ms) h = ground arith

  -- What stands behind a system message that is the only one.
  only_first :
      (m : Value N) (ms : List (Value N))
      → is_system m ≡ true
      → length (systems (m ∷ ms)) ≡ 1
      → m ∷ ms ≡ systems (m ∷ ms) ++ others (m ∷ ms)
  only_first m ms c h =
      let none_left : length (systems ms) ≡ 0 = ground (arith, c, h) in
      rw (c, length-zero (systems ms) none_left, others-all ms none_left) refl

  -- The one in front of which a message goes stays behind it.
  swap_first :
      (m : Value N) (ss rest : List (Value N))
      → length ss ≡ 1
      → (elim (ss ++ rest) [ [] ↦ m ∷ [] | ◌∷◌ first more ↦ first ∷ m ∷ more ]) ≡ ss ++ m ∷ rest
  swap_first m [] rest h = ground arith
  swap_first m (s ∷ []) rest h = refl
  swap_first m (s ∷ t ∷ ss) rest h = ground arith

  -- The only system message goes to the front.
  pub move_first-gathers :
      (ms : List (Value N))
      → length (systems ms) ≡ 1
      → (i : ℕ) × ((position ms ≡ some i) × (to_front i ms ≡ systems ms ++ others ms))
  unfolding to_front position
  move_first-gathers [] h = ground arith
  move_first-gathers (m ∷ ms) h = elim (Bool-cases (is_system m)) [
    | inl c ↦ (0, (rw c refl, only_first m ms c h))
    | inr c ↦
        let one : length (systems ms) ≡ 1 = ground (arith, c, h) in
        let (i, (found, moved)) = move_first-gathers ms one in
        (suc i, (rw (c, found) refl, rw (c, moved) (swap_first m (systems ms) (others ms) one)))
  ]

  pub move_first-to_front :
      (i : ℕ) (ms : List (Value N)) → (move_first (some i) ms).0 ≡ to_front i ms
  unfolding move_first to_front
  move_first-to_front zero [] = refl
  move_first-to_front zero (m ∷ ms) = refl
  move_first-to_front (suc i) ms = refl

  pub move_first-changed :
      (o : Option ℕ) (ms : List (Value N))
      → ((move_first o ms).1 ≡ true) ⊎ ((move_first o ms).0 ≡ ms)
  unfolding move_first
  move_first-changed none ms = inr refl
  move_first-changed (some zero) ms = inr refl
  move_first-changed (some (suc i)) ms = inl refl
