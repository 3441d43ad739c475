-- ===== src/Outbound/Rectify.antt =====
-- src/service/rectify.rs: an outgoing request is changed after an upstream's refusal and sent once
-- more. serde_json's parser, printer and numbers, the lossy reading of UTF-8 and the lower case of
-- Unicode are parameters.
pub mod Messages
pub mod Arrays
pub mod Images
pub mod Once
pub mod Raised
pub mod Thinking
pub mod Budget
use llm_gateway.Prelude.{
  ℕ, zero, suc, ◌+◌, String, Option, none, some, Bool, true, false, not, ◌&&◌, ◌||◌, List, [], ◌∷◌,
  ◌++◌, ltb, nat_eq, if◌then◌else◌,
}
use llm_gateway.Prelude.Eq.{◌==◌, List_Eq, ℕ_Eq}
use llm_gateway.Prelude.Map.{Map, lookup, modify, remove}
use llm_gateway.Prelude.Text.{Text, codes}
use llm_gateway.Json.{
  Value, null, boolean, number, string, arr, obj, Fields, items, fields, object, array, and_then,
  as_array, as_str, get, get_str, is_str, with_key,
}

unfoldable pub is_rectifiable_status : ℕ → Bool
is_rectifiable_status status =
    nat_eq status 400 || nat_eq status 413 || nat_eq status 415 || nat_eq status 422

module _ {N : Type 0} where
  -- `get_mut(k).and_then(|v| v.as_array_mut())`, with a function on the array that counts its changes.
  unfoldable pub update_found :
      Text
      → Option (List (Value N))
      → (List (Value N) → List (Value N) × ℕ)
      → Fields N
      → Value N × ℕ
  update_found k none f fs = (obj fs, 0)
  update_found k (some vs) f fs = (object (modify k (λ v. array (f vs).0) (fields fs)), (f vs).1)

  unfoldable pub update_array : Text → (List (Value N) → List (Value N) × ℕ) → Value N → Value N × ℕ
  unfolding update_found
  update_array k f (obj fs) = update_found k (and_then (lookup k (fields fs)) as_array) f fs
  update_array k f v = (v, 0)

  -- A loop that rewrites each entry and counts.
  unfoldable pub map_count : (Value N → Value N × ℕ) → List (Value N) → List (Value N) × ℕ
  map_count f [] = ([], 0)
  map_count f (v ∷ vs) = let (v', m) = f v in let (vs', n) = map_count f vs in (v' ∷ vs', m + n)

  -- `if changed { *content = rewritten }`
  unfoldable pub when_changed :
      (List (Value N) → List (Value N) × ℕ) → List (Value N) → List (Value N) × ℕ
  when_changed f vs = if nat_eq (f vs).1 0 then (vs, 0) else f vs

  abbrev marker : Text → Value N
  marker type =
      object
        ((codes "text", string (codes "[Unsupported Image]")) ∷ (codes "type", string type) ∷ [])

  abbrev pub is_image : Value N → Bool
  is_image part =
      is_str (codes "type") (codes "image_url") part || is_str (codes "type") (codes "image") part

  abbrev pub is_input_image : Value N → Bool
  is_input_image item = is_str (codes "type") (codes "input_image") item

  unfoldable pub replace_part : Value N → Value N × ℕ
  replace_part part = if is_image part then (marker (codes "text"), 1) else (part, 0)

  unfoldable pub replace_item : Value N → Value N × ℕ
  replace_item item = if is_input_image item then (marker (codes "input_text"), 1) else (item, 0)

  unfoldable pub replace_image_parts : Value N → Value N × ℕ
  replace_image_parts body =
      let (chat, m) =
        update_array (codes "messages")
          (map_count (update_array (codes "content") (when_changed (map_count replace_part))))
          body in
      let (rewritten, n) =
        update_array (codes "input") (when_changed (map_count replace_item)) chat in
      (rewritten, m + n)

  abbrev pub is_thinking : Value N → Bool
  is_thinking block =
      is_str (codes "type") (codes "thinking") block
      || is_str (codes "type") (codes "redacted_thinking") block

  unfoldable pub strip_found : Option (Value N) → Fields N → Value N × ℕ
  strip_found none fs = (obj fs, 0)
  strip_found (some s) fs = (object (remove (codes "signature") (fields fs)), 1)

  -- A block without its signature.
  unfoldable pub strip_signature : Value N → Value N × ℕ
  unfolding strip_found
  strip_signature (obj fs) = strip_found (lookup (codes "signature") (fields fs)) fs
  strip_signature block = (block, 0)

  unfoldable pub strip_blocks : List (Value N) → List (Value N) × ℕ
  strip_blocks [] = ([], 0)
  strip_blocks (b ∷ bs) =
      let (bs', n) = strip_blocks bs in
      let (b', m) = strip_signature b in if is_thinking b then (bs', 1 + n) else (b' ∷ bs', m + n)

  unfoldable pub strip_thinking_blocks : Value N → Value N × ℕ
  strip_thinking_blocks body =
      update_array (codes "messages")
        (map_count (update_array (codes "content") (when_changed strip_blocks))) body

  abbrev pub enabled_in : Option (Value N) → Bool
  enabled_in none = false
  enabled_in (some t) = is_str (codes "type") (codes "enabled") t

  -- `thinking.type` is `enabled`.
  unfoldable pub thinking_enabled : Value N → Bool
  thinking_enabled body = enabled_in (get (codes "thinking") body)

  -- The last message of the assistant.
  unfoldable pub last_assistant : List (Value N) → Option (Value N)
  last_assistant [] = none
  last_assistant (m ∷ ms) = elim (last_assistant ms) [
    | some a ↦ some a
    | none ↦ if is_str (codes "role") (codes "assistant") m then some m else none
  ]

  first_is_thinking : Option (List (Value N)) → Bool
  first_is_thinking (some (b ∷ bs)) = is_thinking b
  first_is_thinking _ = false

  lacks_thinking : Option (Value N) → Bool
  unfolding first_is_thinking
  lacks_thinking none = false
  lacks_thinking (some m) = not (first_is_thinking (and_then (get (codes "content") m) as_array))

  unfoldable pub remove_top_level_thinking_if_broken : Value N → Bool
  unfolding lacks_thinking
  remove_top_level_thinking_if_broken body =
      thinking_enabled body
      && lacks_thinking (and_then (and_then (get (codes "messages") body) as_array) last_assistant)

  abbrev pub without_thinking : Value N → Value N
  without_thinking (obj fs) = object (remove (codes "thinking") (fields fs))
  without_thinking v = v
