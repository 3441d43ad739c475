-- ===== src/ModelFamily.antt =====
-- src/service/model_family.rs: which models take a reasoning effort, how the effort is brought into the
-- range of an upstream, and the form in which thinking is asked for. The lower case of Unicode is a
-- parameter, and the environment's table an argument.
pub mod Clamp
pub mod Apply
pub mod Forms
use mathlib.Core.Option
use llm_gateway.Prelude.{
  ℕ, ◌+◌, String, Option, none, some, Bool, true, false, not, ◌&&◌, ◌||◌, List, [], ◌∷◌, ltb, leb,
  nat_eq, any, filter, if◌then◌else◌, map,
}
use llm_gateway.Prelude.Eq.{◌==◌, List_Eq, ℕ_Eq}
use llm_gateway.Prelude.Map.{Map, lookup, remove}
use llm_gateway.Prelude.Text.{
  Text, codes, starts_with, strip_prefix, contains, split, split_once, last_piece, ascii_lowercase,
  trim, byte_len,
}
use llm_gateway.Json.{
  Value, string, boolean, obj, Fields, fields, object, and_then, as_str, as_bool, insert_key,
}

abbrev one_of : List String → Text → Bool
one_of [] t = false
one_of (s ∷ ss) t = t == codes s || one_of ss t

is_digit : ℕ → Bool
is_digit c = leb b'0' c && leb c b'9'

o_series : Text → Bool
unfolding is_digit
o_series (c ∷ d ∷ ds) = nat_eq c b'o' && is_digit d
o_series _ = false

unfoldable is_openai_o_series : Text → Bool
unfolding o_series
is_openai_o_series model = o_series (last_piece b'/' model)

-- The first character behind `gpt-` is a digit from 5 on.
from_five : Option Text → Bool
unfolding is_digit
from_five (some (c ∷ cs)) = is_digit c && leb b'5' c
from_five _ = false

module _ (to_lowercase : Text → Text) where
  unfoldable is_mini_max : Text → Bool
  is_mini_max model =
      let normalized = to_lowercase model in
      contains normalized (codes "minimax") || contains normalized (codes "abab")

  unfoldable supports_reasoning_effort : Text → Bool
  unfolding from_five
  supports_reasoning_effort model =
      let bare = last_piece b'/' (to_lowercase model) in
      is_openai_o_series bare
      || from_five (strip_prefix bare (codes "gpt-"))
      || bare == codes "grok-4.5"
      || starts_with bare (codes "grok-4.5-")
      || starts_with bare (codes "grok-build-")

-- `effort.trim().to_ascii_lowercase()`
abbrev normal : Text → Text
normal effort = ascii_lowercase (trim effort)

unfoldable pub effort_is_off : Text → Bool
effort_is_off effort = one_of ("none" ∷ "off" ∷ "disabled" ∷ []) (normal effort)

-- The place of a name in a list of names, from a number on.
rank_from : ℕ → List String → Text → Option ℕ
rank_from n [] t = none
rank_from n (s ∷ ss) t = let rest = rank_from (n + 1) ss t in if t == codes s then some n else rest

unfoldable pub zen_effort_rank : Text → Option ℕ
unfolding rank_from
zen_effort_rank effort =
    rank_from 0 ("minimal" ∷ "low" ∷ "medium" ∷ "high" ∷ "xhigh" ∷ "max" ∷ "ultra" ∷ [])
      (normal effort)

-- The levels that have a rank, with it.
unfoldable pub ranked : List Text → List (ℕ × Text)
ranked [] = []
ranked (l ∷ ls) = elim (zen_effort_rank l) [ none ↦ ranked ls | some rank ↦ (rank, l) ∷ ranked ls ]

module _ {ℓ} {A : Type ℓ} (key : A → ℕ) where
  -- `min_by_key`: the first of the least.
  unfoldable pub min_by_key : List A → Option A
  min_by_key [] = none
  min_by_key (x ∷ xs) = elim (min_by_key xs) [
    | none ↦ some x
    | some y ↦ if leb (key x) (key y) then some x else some y
  ]

  -- `max_by_key`: the last of the greatest.
  unfoldable pub max_by_key : List A → Option A
  max_by_key [] = none
  max_by_key (x ∷ xs) = elim (max_by_key xs) [
    | none ↦ some x
    | some y ↦ if ltb (key y) (key x) then some x else some y
  ]

-- `or_else`
abbrev pub or_else {ℓ} : {A : Type ℓ} → Option A → Option A → Option A
or_else none b = b
or_else (some a) b = some a

-- The least level from the requested rank on, or the greatest.
unfoldable pub zen_level : ℕ → List Text → Option Text
zen_level requested levels =
    let known = ranked levels in
    Option.map (λ r. r.1)
      (or_else (min_by_key (λ r. r.0) (filter (λ r. leb requested r.0) known))
        (max_by_key (λ r. r.0) known))

clamp_deepseek : Text → Option Text
clamp_deepseek effort =
    if one_of ("max" ∷ "xhigh" ∷ "ultra" ∷ []) effort
    then some (codes "max")
    else if one_of ("minimal" ∷ "low" ∷ "medium" ∷ "high" ∷ []) effort
    then some (codes "high")
    else none

clamp_low_high : Text → Option Text
clamp_low_high effort =
    if one_of ("minimal" ∷ "low" ∷ []) effort
    then some (codes "low")
    else if one_of ("medium" ∷ "high" ∷ "xhigh" ∷ "max" ∷ "ultra" ∷ []) effort
    then some (codes "high")
    else none

clamp_openrouter : Text → Option Text
clamp_openrouter effort =
    if one_of ("max" ∷ "xhigh" ∷ "ultra" ∷ []) effort
    then some (codes "xhigh")
    else if one_of ("high" ∷ "medium" ∷ "low" ∷ "minimal" ∷ []) effort
    then some effort
    else none

clamp_zen : Text → Option (List Text) → Option Text
clamp_zen effort levels =
    and_then levels (λ ls. and_then (zen_effort_rank effort) (λ requested. zen_level requested ls))

clamp_known : Text → Option Text
clamp_known effort =
    if one_of ("minimal" ∷ "low" ∷ "medium" ∷ "high" ∷ "xhigh" ∷ "max" ∷ "ultra" ∷ []) effort
    then some effort
    else none

-- The arms on the mode.
unfoldable pub clamp_by : Text → Text → Option (List Text) → Option Text
unfolding clamp_deepseek clamp_low_high clamp_openrouter clamp_zen clamp_known
clamp_by mode effort levels =
    if mode == codes "deepseek"
    then clamp_deepseek effort
    else if mode == codes "low_high"
    then clamp_low_high effort
    else if mode == codes "openrouter"
    then clamp_openrouter effort
    else if mode == codes "zen"
    then clamp_zen effort levels
    else clamp_known effort

unfoldable pub clamp_reasoning_effort_for : Text → Text → Option (List Text) → Option Text
clamp_reasoning_effort_for effort mode levels =
    if effort_is_off (normal effort) then none else clamp_by mode (normal effort) levels

is_blank : Text → Bool
is_blank t = trim t == []

-- One entry of the table, and none without `=` or without a level.
zen_entry : Text → Option (Text × List Text)
zen_entry entry = and_then (split_once b'=' entry) (λ r.
    let levels = filter (λ s. not (s == [])) (map trim (split b',' (r.1))) in
    if levels == [] then none else some (ascii_lowercase (trim (r.0)), levels))

filter_map : List (Option (Text × List Text)) → List (Text × List Text)
filter_map [] = []
filter_map (none ∷ es) = filter_map es
filter_map (some e ∷ es) = e ∷ filter_map es

-- The table of GATEWAY_ZEN_EFFORT_TABLE.
unfoldable zen_table : Text → List (Text × List Text)
unfolding zen_entry filter_map is_blank
zen_table env = filter_map (map zen_entry (filter (λ s. not (is_blank s)) (split b';' env)))

unfoldable pub zen_effort_levels_for : List (Text × List Text) → Option Text → Option (List Text)
zen_effort_levels_for table none = none
zen_effort_levels_for table (some model) =
    let lower = ascii_lowercase model in
    Option.map (λ r. r.1)
      (max_by_key (λ r. byte_len (r.0)) (filter (λ r. starts_with lower (r.0)) table))
