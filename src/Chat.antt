-- ===== src/Chat.antt =====
-- src/service/responses/dto.rs: the chunks of an upstream's chat stream, their usage, and what is read
-- of them. serde_json's numbers are a parameter, with what the code asks of them.
pub mod Lenient
pub mod Tokens
pub mod ToolKey
use llm_gateway.Prelude.{
  ℕ, zero, suc, ◌+◌, ◌-◌, ◌*◌, Option, none, some, Bool, true, false, List, [], ◌∷◌, ◌++◌, ◌||◌,
  ◌&&◌, leb, ltb, all, map, not, if◌then◌else◌,
}
use llm_gateway.Prelude.Eq.{◌==◌, List_Eq, ℕ_Eq}
use llm_gateway.Prelude.Int.{ℤ, pos, negsuc}
use llm_gateway.Prelude.Map.{lookup}
use llm_gateway.Prelude.Text.{Text, codes, trim, unless_blank}
use llm_gateway.Json.{
  Value, null, boolean, number, string, arr, obj, and_then, as_array, as_str, get, get_str, fields,
  items,
}

-- What the code asks of a number: `to_string`, `as_i64`, and `as_f64` cast to an i64.
pub record Numbers (N : Type 0) : Type 0 where
  pub to_text : N → Text
  pub as_i64 : N → Option ℤ
  pub as_f64_i64 : N → Option ℤ

pub record FunctionDelta : Type 0 where
  pub name : Option Text
  pub arguments : Option Text

-- Without `type`, which is parsed and never read.
pub record ToolCallDelta : Type 0 where
  pub index : Option ℤ
  pub id : Option Text
  pub function : Option FunctionDelta

-- Without `role`, which is parsed and never read.
pub record ChatStreamDelta (N : Type 0) : Type 0 where
  pub content : Option (Value N)
  pub reasoning_content : Option Text
  pub reasoning : Option Text
  pub tool_calls : List ToolCallDelta
  pub refusal : Option Text

pub record ChatStreamChoice (N : Type 0) : Type 0 where
  pub index : ℤ
  pub delta : ChatStreamDelta N
  pub finish_reason : Option Text

pub record Usage (N : Type 0) : Type 0 where
  pub prompt_tokens : Option ℤ
  pub completion_tokens : Option ℤ
  pub total_tokens : Option ℤ
  pub input_tokens : Option ℤ
  pub output_tokens : Option ℤ
  pub prompt_tokens_details : Option (Value N)
  pub completion_tokens_details : Option (Value N)
  pub input_tokens_details : Option (Value N)
  pub cache_read_input_tokens : Option ℤ
  pub cache_creation_input_tokens : Option ℤ
  pub prompt_cache_hit_tokens : Option ℤ

pub record ChatStreamChunk (N : Type 0) : Type 0 where
  pub id : Text
  pub model : Text
  pub created : Option ℤ
  pub choices : List (ChatStreamChoice N)
  pub usage : Option (Usage N)
  pub error : Option (Value N)

-- `or`
abbrev pub or_else {ℓ} : {A : Type ℓ} → Option A → Option A → Option A
or_else none b = b
or_else (some a) b = some a

-- `unwrap_or`
abbrev pub unwrap_or {ℓ} : {A : Type ℓ} → A → Option A → A
unwrap_or d none = d
unwrap_or d (some a) = a

-- `Option::filter`
abbrev pub only_if {ℓ} : {A : Type ℓ} → (A → Bool) → Option A → Option A
only_if p none = none
only_if p (some a) = if p a then some a else none

-- `filter(|s| !s.is_empty())`
abbrev pub unless_empty : Option Text → Option Text
unless_empty none = none
unless_empty (some []) = none
unless_empty (some (c ∷ cs)) = some (c ∷ cs)

-- `!s.trim().is_empty()`
abbrev pub is_not_blank : Text → Bool
is_not_blank s = not (trim s == [])

-- `map(str::trim).filter(|s| !s.is_empty())`
abbrev pub trimmed : Option Text → Option Text
trimmed o = and_then o (λ s. unless_blank (trim s))

-- `filter_map`
abbrev pub filter_map {ℓ κ} : {A : Type ℓ} {B : Type κ} → (A → Option B) → List A → List B
filter_map f [] = []
filter_map f (x ∷ xs) = elim (f x) [ none ↦ filter_map f xs | some b ↦ b ∷ filter_map f xs ]

-- `join`
abbrev pub join : Text → List Text → Text
join sep [] = []
join sep (t ∷ []) = t
join sep (t ∷ u ∷ us) = t ++ sep ++ join sep (u ∷ us)
