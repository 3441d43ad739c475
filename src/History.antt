-- ===== src/History.antt =====
-- src/service/responses/history.rs: the bounded store of past answers and the request that refers to
-- one. The lock makes each operation one step; the length of a value's JSON form, which serde_json
-- gives, is a parameter, and `none` is its error.
pub mod Order
pub mod Newest
pub mod Kept
pub mod Enrich
use llm_gateway.Prelude.{
  ℕ, zero, suc, ◌+◌, ◌≤◌, ◌<◌, ◌*◌, Option, none, some, Bool, true, false, not, ◌&&◌, List, [], ◌∷◌,
  ◌++◌, ltb, leb, any, length, if◌then◌else◌,
}
use llm_gateway.Prelude.Eq.{◌==◌, List_Eq, ℕ_Eq}
use llm_gateway.Prelude.Map.{Map, lookup, insert, remove}
use llm_gateway.Prelude.Text.{Text, codes, starts_with, byte_len, trim, unless_blank}
use llm_gateway.Json.{
  Value, null, boolean, number, string, arr, obj, Items, nil, cons, as_array, as_object, array,
  object, get, get_str, with_key, insert_key, items, fields, of_fields, and_then,
}

abbrev pub max_entries : ℕ
max_entries = 512

abbrev max_entry_bytes : ℕ
max_entry_bytes = 2 * 1024 * 1024

unfoldable pub plausible_response_id : Text → Bool
plausible_response_id id =
    starts_with id (codes "resp_") && leb (5 + 8) (byte_len id) && leb (byte_len id) 128

-- `ResponseHistoryStore`: the identifiers, the least recently used first, and the items of each.
pub record HistoryInner (N : Type 0) : Type 0 where
  pub order : List Text
  pub map : Map Text (Value N)

abbrev pub has : Text → List Text → Bool
has id order = any (λ k. k == id) order

unfoldable pub drop_first : Text → List Text → List Text
drop_first id [] = []
drop_first id (k ∷ ks) = if k == id then ks else k ∷ drop_first id ks

-- `position`, `remove` and `push_back`
unfoldable pub touch : Text → List Text → List Text
touch id order = if has id order then drop_first id order ++ id ∷ [] else order

fits : Option ℕ → Bool
fits none = false
fits (some bytes) = not (ltb max_entry_bytes bytes)

-- `unknown_reference` is the refusal, with the identifier that its message names.
pub data Enriched (N : Type 0) : Type 0 where
  enriched : Value N → Enriched N
  unknown_reference : Text → Enriched N

module _ {N : Type 0} where
  abbrev pub empty_history : HistoryInner N
  empty_history = record { order = []; map = [] }

  -- `while order.len() > MAX_ENTRIES`
  unfoldable pub evict : List Text → Map Text (Value N) → HistoryInner N
  evict [] m = record { order = []; map = m }
  evict (k ∷ ks) m =
      let next = evict ks (remove k m) in
      if ltb max_entries (length (k ∷ ks)) then next else record { order = k ∷ ks; map = m }

  -- The branch on whether the identifier is known.
  store_items : Text → Value N → Option (Value N) → HistoryInner N → HistoryInner N
  store_items id v (some old) s = record { order = s.order; map = insert id v s.map }
  store_items id v none s = evict (s.order ++ id ∷ []) (insert id v s.map)

  -- Everything under the lock.
  unfoldable pub store : Text → Value N → HistoryInner N → HistoryInner N
  unfolding store_items
  store id v s =
      let stored = store_items id v (lookup id s.map) s in
      record stored { order = touch id stored.order }

  -- The items that are taken: an array that is not empty.
  is_taken : Option (List (Value N)) → Bool
  is_taken none = false
  is_taken (some []) = false
  is_taken (some (v ∷ vs)) = true

  unfoldable pub accepts : (Value N → Option ℕ) → Text → Value N → Bool
  unfolding is_taken fits
  accepts serialized id v = plausible_response_id id && is_taken (as_array v) && fits (serialized v)

  unfoldable pub record_items :
      (Value N → Option ℕ) → Text → Value N → HistoryInner N → HistoryInner N
  record_items serialized id v s = if accepts serialized id v then store id v s else s

  unfoldable pub restore : Text → HistoryInner N → Option (Value N) × HistoryInner N
  restore id s = (lookup id s.map, record s { order = touch id s.order })

  abbrev pub reference : Value N → Option Text
  reference json =
      and_then (get_str (codes "previous_response_id") json) (λ s. unless_blank (trim s))

  -- The message that a text stands for.
  abbrev user_message : Text → Value N
  user_message s = object (
      (
        codes "content",
        array (
            object ((codes "text", string s) ∷ (codes "type", string (codes "input_text")) ∷ [])
            ∷ []),
      )
      ∷ (codes "role", string (codes "user"))
      ∷ (codes "type", string (codes "message"))
      ∷ [])

  -- The `input` as a list of items, in each of its forms.
  unfoldable pub input_items : Option (Value N) → List (Value N)
  input_items none = []
  input_items (some (string s)) = user_message s ∷ []
  input_items (some (arr vs)) = items vs
  input_items (some v) = v ∷ []

  abbrev pub or_empty : Option (List (Value N)) → List (Value N)
  or_empty none = []
  or_empty (some vs) = vs

  abbrev without_key : Text → Value N → Value N
  without_key k (obj fs) = object (remove k (fields fs))
  without_key k v = v

  -- The request with the restored items before its own.
  unfoldable pub prepend : Value N → Value N → Value N
  unfolding input_items
  prepend restored json = without_key (codes "previous_response_id") (
      with_key (codes "input")
        (array (or_empty (as_array restored) ++ input_items (get (codes "input") json))) json)

  unfoldable pub enrich_with : Text → Value N → Option (Value N) → Enriched N
  enrich_with id json none = unknown_reference id
  enrich_with id json (some restored) = enriched (prepend restored json)

  unfoldable pub enrich_by : Value N → Option Text → HistoryInner N → Enriched N × HistoryInner N
  unfolding enrich_with
  enrich_by json none s = (enriched json, s)
  enrich_by json (some id) s = let (found, s') = restore id s in (enrich_with id json found, s')

  unfoldable pub enrich_request_with_history :
      Value N → HistoryInner N → Enriched N × HistoryInner N
  unfolding enrich_by
  enrich_request_with_history json s = enrich_by json (reference json) s
