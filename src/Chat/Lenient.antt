-- ===== src/Chat/Lenient.antt =====
-- src/service/responses/dto.rs: the lenient reading of a chunk.
use llm_gateway.Prelude.{
  ℕ, zero, suc, ◌+◌, ◌-◌, ◌*◌, Option, none, some, Bool, true, false, List, [], ◌∷◌, ◌++◌, ◌||◌,
  ◌&&◌, leb, ltb, all, map, if◌then◌else◌,
}
use llm_gateway.Prelude.Eq.{◌==◌, List_Eq, ℕ_Eq}
use llm_gateway.Prelude.Int.{ℤ, pos, negsuc}
use llm_gateway.Prelude.Map.{lookup}
use llm_gateway.Prelude.Text.{Text, codes, trim}
use llm_gateway.Json.{
  Value, null, boolean, number, string, arr, obj, and_then, as_array, as_str, get, get_str, fields,
  items,
}
use llm_gateway.Chat.{
  Numbers, FunctionDelta, ToolCallDelta, ChatStreamDelta, ChatStreamChoice, Usage, ChatStreamChunk,
  or_else, unwrap_or, only_if, is_not_blank, filter_map, join,
}

-- `str::parse::<i64>`: an optional sign, then digits within the bounds.
is_digit : ℕ → Bool
is_digit c = leb b'0' c && leb c b'9'

decimal : ℕ → Text → ℕ
decimal acc [] = acc
decimal acc (c ∷ cs) = decimal (acc * 10 + (c - b'0')) cs

parse_digits : Text → Option ℕ
unfolding is_digit decimal
parse_digits [] = none
parse_digits (c ∷ cs) = if all is_digit (c ∷ cs) then some (decimal 0 (c ∷ cs)) else none

positive : ℕ → Option ℤ
positive n = if ltb n 9_223_372_036_854_775_808 then some (pos n) else none

negative : ℕ → Option ℤ
negative zero = some (pos 0)
negative (suc n) = if ltb n 9_223_372_036_854_775_808 then some (negsuc n) else none

unfoldable pub parse_i64 : Text → Option ℤ
unfolding parse_digits positive negative
parse_i64 [] = none
parse_i64 (c ∷ cs) =
    if c == b'-'
    then and_then (parse_digits cs) negative
    else if c == b'+'
    then and_then (parse_digits cs) positive
    else and_then (parse_digits (c ∷ cs)) positive

module _ {N : Type 0} (num : Numbers N) where
  lenient_text : Value N → Option Text
  lenient_text (string s) = some s
  lenient_text (number n) = some (num.to_text n)
  lenient_text (boolean true) = some (codes "true")
  lenient_text (boolean false) = some (codes "false")
  lenient_text (obj o) =
      and_then (or_else (lookup (codes "text") (fields o)) (lookup (codes "content") (fields o)))
        as_str
  lenient_text null = none
  lenient_text (arr vs) = none

  lenient_i64 : Value N → Option ℤ
  lenient_i64 (number n) = or_else (num.as_i64 n) (num.as_f64_i64 n)
  lenient_i64 (string s) = parse_i64 (trim s)
  lenient_i64 _ = none

  abbrev i64_at : Text → Value N → Option ℤ
  i64_at k v = and_then (get k v) lenient_i64

  abbrev text_at : Text → Value N → Option Text
  text_at k v = and_then (get k v) lenient_text

  -- `filter(|d| d.is_object())`
  abbrev object_at : Text → Value N → Option (Value N)
  object_at k v = and_then (get k v) (λ d. elim d [ obj o ↦ some (obj o) | _ ↦ none ])

  from_value_lenient : Value N → Usage N
  unfolding lenient_i64
  from_value_lenient v = record {
    prompt_tokens = i64_at (codes "prompt_tokens") v;
    completion_tokens = i64_at (codes "completion_tokens") v;
    total_tokens = i64_at (codes "total_tokens") v;
    input_tokens = i64_at (codes "input_tokens") v;
    output_tokens = i64_at (codes "output_tokens") v;
    prompt_tokens_details = object_at (codes "prompt_tokens_details") v;
    completion_tokens_details = object_at (codes "completion_tokens_details") v;
    input_tokens_details = object_at (codes "input_tokens_details") v;
    cache_read_input_tokens = i64_at (codes "cache_read_input_tokens") v;
    cache_creation_input_tokens = i64_at (codes "cache_creation_input_tokens") v;
    prompt_cache_hit_tokens = i64_at (codes "prompt_cache_hit_tokens") v;
  }

  -- The first text of a list that is not blank.
  abbrev first_not_blank : List (Option Text) → Option Text
  first_not_blank [] = none
  first_not_blank (o ∷ os) = or_else (only_if is_not_blank o) (first_not_blank os)

  reasoning_by : Value N → Option Text → Option Text
  reasoning_by v (some s) = only_if is_not_blank (some s)
  reasoning_by (obj o) none = first_not_blank (
      and_then (lookup (codes "content") (fields o)) as_str
      ∷ and_then (lookup (codes "text") (fields o)) as_str
      ∷ and_then (lookup (codes "summary") (fields o)) as_str
      ∷ [])
  reasoning_by v none = none

  abbrev joined_details : List Text → Option Text
  joined_details [] = none
  joined_details (t ∷ ts) = some (join (codes "\n") (t ∷ ts))

  details_text : Value N → Option Text
  details_text (string s) = only_if is_not_blank (some s)
  details_text (arr parts) =
      joined_details
        (filter_map (λ p. only_if is_not_blank (get_str (codes "text") p)) (items parts))
  details_text _ = none

  delta_reasoning_text : Value N → Option Text
  unfolding lenient_text reasoning_by details_text
  delta_reasoning_text d = or_else (only_if is_not_blank (text_at (codes "reasoning_content") d)) (
      or_else (and_then (get (codes "reasoning") d) (λ v. reasoning_by v (lenient_text v)))
        (and_then (get (codes "reasoning_details") d) details_text))

  is_text_type : Text → Bool
  is_text_type ty =
      ty == codes "text"
      || ty == codes "output_text"
      || ty == codes "input_text"
      || ty == codes "thinking"

  part_text : Value N → Text
  unfolding is_text_type
  part_text p =
      if is_text_type (unwrap_or (codes "text") (get_str (codes "type") p))
      then unwrap_or [] (get_str (codes "text") p)
      else []

  parts_text : List (Value N) → Text
  unfolding part_text
  parts_text [] = []
  parts_text (p ∷ ps) = part_text p ++ parts_text ps

  unfoldable pub delta_content_text : Value N → Option Text
  unfolding parts_text lenient_text
  delta_content_text null = none
  delta_content_text (string s) = some s
  delta_content_text (arr parts) = some (parts_text (items parts))
  delta_content_text v = lenient_text v

module _ {N : Type 0} (num : Numbers N) (show : Value N → Text) where
  arguments_text : Value N → Text
  arguments_text (string s) = s
  arguments_text null = []
  arguments_text v = show v

  -- `has_payload.then(..)`
  abbrev function_of : Option Text → Option Text → Option FunctionDelta
  function_of none none = none
  function_of name arguments = some (record { name = name; arguments = arguments })

  lenient_tool_call : Value N → ToolCallDelta
  unfolding lenient_text lenient_i64 arguments_text
  lenient_tool_call tc =
      let function = or_else (get (codes "function") tc) (get (codes "function_call") tc) in
      let name =
        or_else (and_then function (text_at num (codes "name"))) (text_at num (codes "name") tc) in
      let arguments =
        and_then
          (or_else (and_then function (get (codes "arguments"))) (get (codes "arguments") tc))
          (λ a. some (arguments_text a)) in
      record {
        index = i64_at num (codes "index") tc;
        id = text_at num (codes "id") tc;
        function = function_of name arguments;
      }

  unfoldable stream_delta : Value N → ChatStreamDelta N
  unfolding lenient_text delta_reasoning_text lenient_tool_call
  stream_delta d = record {
    content = get (codes "content") d;
    reasoning_content = delta_reasoning_text num d;
    reasoning = none;
    tool_calls = unwrap_or [] (
        and_then (and_then (get (codes "tool_calls") d) as_array)
          (λ calls. some (map lenient_tool_call calls)));
    refusal = text_at num (codes "refusal") d;
  }

  abbrev empty_delta : ChatStreamDelta N
  empty_delta = record {
    content = none;
    reasoning_content = none;
    reasoning = none;
    tool_calls = [];
    refusal = none;
  }

  unfoldable stream_choice : Value N → ChatStreamChoice N
  unfolding lenient_text lenient_i64 stream_delta
  stream_choice c = record {
    index = unwrap_or (pos 0) (i64_at num (codes "index") c);
    delta = unwrap_or empty_delta (
        and_then (or_else (get (codes "delta") c) (get (codes "message") c))
          (λ d. some (stream_delta d)));
    finish_reason = text_at num (codes "finish_reason") c;
  }

  -- `from_json_str` on the value that serde_json reads.
  from_value : Value N → ChatStreamChunk N
  unfolding lenient_text lenient_i64 stream_choice from_value_lenient
  from_value v = record {
    id = unwrap_or [] (text_at num (codes "id") v);
    model = unwrap_or [] (text_at num (codes "model") v);
    created = i64_at num (codes "created") v;
    choices = unwrap_or [] (
        and_then (and_then (get (codes "choices") v) as_array) (λ cs. some (map stream_choice cs)));
    usage = and_then (object_at num (codes "usage") v) (λ u. some (from_value_lenient num u));
    error = and_then (get (codes "error") v) (λ e. elim e [ null ↦ none | w ↦ some w ]);
  }

  -- `serde_json::from_str` is a parameter.
  unfoldable pub from_json_str : (Text → Option (Value N)) → Text → Option (ChatStreamChunk N)
  unfolding from_value
  from_json_str parse text = and_then (parse text) (λ v. some (from_value v))
