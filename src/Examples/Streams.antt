-- ===== src/Examples/Streams.antt =====
-- Concrete answers and requests (src/service/inline_think.rs, src/service/responses/history.rs,
-- src/service/model_family.rs, src/service/system_head.rs and src/service/rectify.rs).
use llm_gateway.Prelude.{List, ℕ, zero, ◌≡◌, refl, ◌⊎◌, Option, none, some, true, false, [], ◌∷◌}
use llm_gateway.Prelude.Eq.{ℕ_Eq, List_Eq}
use llm_gateway.Prelude.Text.{Text, codes}
use llm_gateway.Prelude.Map.{lookup, modify}
use llm_gateway.InlineThink.{new}
use llm_gateway.InlineThink.Reasoning.{joined, feed_all, whole}
use llm_gateway.InlineThink.Stream.{feed_all-whole}
use llm_gateway.Json.{
  Value, number, string, obj, Fields, fields, end, field, boolean, array, object, get,
}
use llm_gateway.History.{empty_history, accepts, record_items, enrich_request_with_history}
use llm_gateway.History.Kept.{
  IsHistory, Access, recorded, restored, access_all, access_all-IsHistory, record_items-kept,
  Recorded,
}
use llm_gateway.History.Enrich.{Outcome, enrich_request_with_history-Outcome}
use llm_gateway.ModelFamily.{zen_level}
use llm_gateway.ModelFamily.Clamp.{Nearest, zen_level-Nearest}
use llm_gateway.ModelFamily.Apply.{apply_thinking_form}
use llm_gateway.ModelFamily.Forms.{formed, wanted, apply_thinking_form-formed}
use llm_gateway.Outbound.SystemHead.{collect_system_to_head}
use llm_gateway.Outbound.SystemHead.Gathered.{Settled, collect_system_to_head-settles}
use llm_gateway.Outbound.Rectify.{
  thinking_enabled, is_rectifiable_status, replace_image_parts, update_array, update_found,
  map_count, when_changed, replace_part, replace_item, strip_thinking_blocks,
}
use llm_gateway.Outbound.Rectify.Budget.{raise_thinking_budget, budget_of, max_tokens_of}
use llm_gateway.Outbound.Rectify.Raised.{AtLeast, raise_thinking_budget-AtLeast}
use llm_gateway.Outbound.Rectify.Messages.{
  rectify_outbound, extract_error_text, text_of, rectify_body, rectify_images, rectify_thinking,
  rectify_budget, is_unsupported_image_error, is_thinking_error, is_thinking_budget_error, printed,
}

abbrev chunks : List Text
chunks = codes "<thi" ∷ codes "nk>plan</thi" ∷ codes "nk>answer" ∷ []

feed_all-whole_example :
    (joined (feed_all new chunks).0 ≡ (whole (joined chunks)).0)
    × (joined (feed_all new chunks).1 ≡ (whole (joined chunks)).1)
feed_all-whole_example = feed_all-whole chunks

abbrev id : Text
id = codes "resp_12345678"

abbrev said : Value ℕ
said = array (object ((codes "type", string (codes "message")) ∷ []) ∷ [])

abbrev size : Value ℕ → Option ℕ
size v = some 40

abbrev runs : List (Access ℕ)
runs = recorded id said ∷ restored id ∷ recorded (codes "other") said ∷ []

access_all-IsHistory_example : IsHistory (access_all size runs empty_history)
access_all-IsHistory_example = access_all-IsHistory size runs

empty_history-IsHistory : IsHistory {N = ℕ} empty_history
unfolding access_all
empty_history-IsHistory = access_all-IsHistory size []

record_items-kept_example :
    ((accepts size id said ≡ false) × (record_items size id said empty_history ≡ empty_history))
    ⊎ ((accepts size id said ≡ true)
        × Recorded id said empty_history (record_items size id said empty_history))
record_items-kept_example = record_items-kept size id said empty_history empty_history-IsHistory

abbrev referring : Value ℕ
referring =
    object
      ((codes "input", string (codes "go on")) ∷ (codes "previous_response_id", string id) ∷ [])

enrich_request_with_history-Outcome_example :
    Outcome referring
      (record_items size id said empty_history)
      (enrich_request_with_history referring (record_items size id said empty_history))
enrich_request_with_history-Outcome_example =
    enrich_request_with_history-Outcome referring (record_items size id said empty_history)

abbrev levels : List Text
levels = codes "low" ∷ codes " Max" ∷ codes "none" ∷ []

zen_level-Nearest_example : Nearest 3 levels (zen_level 3 levels)
zen_level-Nearest_example = zen_level-Nearest 3 levels

abbrev thinking_request : Fields ℕ
thinking_request =
    field (codes "enable_thinking") (boolean true) (field (codes "thinking_budget") (number 7) end)

apply_thinking_form-formed_example :
    get
      (codes "thinking")
      (apply_thinking_form (some (codes " thinking_param")) (obj thinking_request))
    ≡ formed
        (wanted (some (codes " thinking_param")) (fields thinking_request))
        (fields thinking_request)
        (codes "thinking")
apply_thinking_form-formed_example =
    apply_thinking_form-formed (some (codes " thinking_param")) thinking_request (codes "thinking")

abbrev message : Text → Text → Value ℕ
message role content = object ((codes "content", string content) ∷ (codes "role", string role) ∷ [])

abbrev dialog : List (Value ℕ)
dialog =
    message (codes "user") (codes "hi")
    ∷ message (codes "system") (codes "a")
    ∷ message (codes "system") (codes "b")
    ∷ []

collect_system_to_head-settles_example : Settled true dialog (collect_system_to_head true dialog)
collect_system_to_head-settles_example = collect_system_to_head-settles true dialog

abbrev same : ℕ → ℕ
same n = n

abbrev budgeted : Value ℕ
budgeted = object (
    (
      codes "thinking",
      object ((codes "budget_tokens", number 1024) ∷ (codes "type", string (codes "enabled")) ∷ []),
    )
    ∷ [])

raise_thinking_budget-AtLeast_example :
    let out = (raise_thinking_budget same some budgeted).0 in
    (thinking_enabled out ≡ true)
    × (AtLeast 32000 (budget_of same some out) × AtLeast 64000 (max_tokens_of same some out))
unfolding thinking_enabled get lookup
raise_thinking_budget-AtLeast_example =
    raise_thinking_budget-AtLeast same some (λ n. refl) budgeted refl

-- A request with an image in its input, and what writes and reads its text.
abbrev pictured : Value ℕ
pictured =
    object (
      (codes "input", array (object ((codes "type", string (codes "input_image")) ∷ []) ∷ [])) ∷ [])

abbrev to_vec : Value ℕ → Option Text
to_vec v = some (1 ∷ [])

abbrev parse : Text → Option (Value ℕ)
parse (zero ∷ []) = some pictured
parse s = none

abbrev refusal : Text
refusal = codes "this model only supports text"

-- The first refusal has the image replaced.
first_retry :
    rectify_outbound same some (λ s. s) parse to_vec (λ s. s) true (0 ∷ []) refusal 400
    ≡ some (1 ∷ [])
unfolding rectify_outbound is_rectifiable_status extract_error_text text_of rectify_body
    rectify_images rectify_thinking rectify_budget replace_image_parts update_array update_found
    map_count when_changed replace_part replace_item strip_thinking_blocks
    is_unsupported_image_error is_thinking_error is_thinking_budget_error printed get lookup modify
first_retry = refl
