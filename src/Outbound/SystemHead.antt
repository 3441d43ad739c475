-- ===== src/Outbound/SystemHead.antt =====
-- src/service/system_head.rs: the system messages of a Chat request, gathered at its head.
pub mod Gathered
pub mod Parts
pub mod Texts
use mathlib.Core.Option
use llm_gateway.Prelude.{
  ℕ, zero, suc, Option, none, some, Bool, true, false, not, List, [], ◌∷◌, ◌++◌, filter, length,
  if◌then◌else◌,
}
use llm_gateway.Prelude.Eq.{◌==◌, List_Eq, ℕ_Eq, option_beq}
use llm_gateway.Prelude.Text.{Text, codes}
use llm_gateway.Json.{
  Value, null, boolean, number, string, arr, obj, items, object, and_then, get, get_str, is_str,
}

-- `join("\n")`
abbrev pub join_lines : List Text → Text
join_lines [] = []
join_lines (t ∷ []) = t
join_lines (t ∷ u ∷ ts) = t ++ codes "\n" ++ join_lines (u ∷ ts)

-- `if !text.is_empty() { parts.push(text) }`
pub unless_empty : Text → List Text
unless_empty [] = []
unless_empty (c ∷ cs) = (c ∷ cs) ∷ []

module _ {N : Type 0} where
  abbrev pub is_system : Value N → Bool
  is_system m = is_str (codes "role") (codes "system") m

  -- `position`
  unfoldable pub position : List (Value N) → Option ℕ
  position [] = none
  position (m ∷ ms) =
      let rest = Option.map suc (position ms) in if is_system m then some 0 else rest

  -- `remove(index)` and `insert(0, message)`
  unfoldable pub to_front : ℕ → List (Value N) → List (Value N)
  to_front i [] = []
  to_front zero (m ∷ ms) = m ∷ ms
  to_front (suc i) (m ∷ ms) = elim (to_front i ms) [
    | [] ↦ m ∷ []
    | ◌∷◌ first rest ↦ first ∷ m ∷ rest
  ]

  unfoldable pub move_first : Option ℕ → List (Value N) → List (Value N) × Bool
  move_first none ms = (ms, false)
  move_first (some zero) ms = (ms, false)
  move_first (some (suc i)) ms = (to_front (suc i) ms, true)

  -- The texts of the parts of a content that have one.
  pub part_texts : List (Value N) → List Text
  part_texts [] = []
  part_texts (p ∷ ps) = elim (get_str (codes "text") p) [
    | none ↦ part_texts ps
    | some t ↦ t ∷ part_texts ps
  ]

  pub content_parts : Option (Value N) → List Text
  content_parts (some (string t)) = unless_empty t
  content_parts (some (arr ps)) = unless_empty (join_lines (part_texts (items ps)))
  content_parts _ = []

  -- What the closure of `retain` pushes.
  unfoldable pub system_texts : List (Value N) → List Text
  unfolding content_parts part_texts unless_empty
  system_texts [] = []
  system_texts (m ∷ ms) =
      let rest = system_texts ms in
      if is_system m then content_parts (get (codes "content") m) ++ rest else rest

  unfoldable pub merged_head : List Text → List (Value N)
  merged_head [] = []
  merged_head (t ∷ ts) =
      object (
        (codes "content", string (join_lines (t ∷ ts)))
        ∷ (codes "role", string (codes "system"))
        ∷ [])
      ∷ []

  abbrev pub is_other : Value N → Bool
  is_other m = not (is_system m)

  unfoldable pub collect_many : Bool → List (Value N) → List (Value N)
  collect_many merge messages =
      if merge
      then merged_head (system_texts messages) ++ filter is_other messages
      else filter is_system messages ++ filter is_other messages

  unfoldable pub collect_by : ℕ → Bool → List (Value N) → List (Value N) × Bool
  unfolding collect_many
  collect_by zero merge messages = (messages, false)
  collect_by (suc zero) merge messages = move_first (position messages) messages
  collect_by (suc (suc n)) merge messages = (collect_many merge messages, true)

  unfoldable pub collect_system_to_head : Bool → List (Value N) → List (Value N) × Bool
  unfolding collect_by
  collect_system_to_head merge messages =
      collect_by (length (filter is_system messages)) merge messages
