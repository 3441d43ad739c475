-- ===== src/Outbound/Rectify/Messages.antt =====
-- src/service/rectify.rs: what an upstream's refusal says, and the request that is sent after it.
use llm_gateway.Prelude.{
  ℕ, String, Option, none, some, Bool, true, false, not, ◌&&◌, ◌||◌, List, [], ◌∷◌, nat_eq,
  if◌then◌else◌,
}
use llm_gateway.Prelude.Text.{Text, codes, contains, ascii_lowercase}
use llm_gateway.Json.{Value, and_then, get, get_str}
use llm_gateway.Outbound.Rectify.{
  is_rectifiable_status, replace_image_parts, strip_thinking_blocks,
  remove_top_level_thinking_if_broken, without_thinking,
}
use llm_gateway.Outbound.Rectify.Budget.{raise_thinking_budget}

-- `hints.iter().any(|h| message.contains(h))`
abbrev mentions : Text → List String → Bool
mentions m [] = false
mentions m (h ∷ hs) = contains m (codes h) || mentions m hs

unfoldable pub is_unsupported_image_error : Text → Bool
is_unsupported_image_error message =
    let m = ascii_lowercase message in
    mentions m ("only support text" ∷ "only supports text" ∷ [])
    || (mentions m (
          "image" ∷ "vision" ∷ "multimodal" ∷ "multi-modal" ∷ "modality" ∷ "modalities" ∷ "media"
          ∷ "attachment" ∷ [])
        && mentions m (
            "unsupported" ∷ "not supported" ∷ "does not support" ∷ "doesn't support"
            ∷ "do not support" ∷ "don't support" ∷ "text only" ∷ "text-only"
            ∷ "invalid content type" ∷ "invalid message content" ∷ "unknown variant"
            ∷ "unknown content type" ∷ "unrecognized content type" ∷ "cannot process"
            ∷ "cannot handle" ∷ "can't process" ∷ "can't handle" ∷ "unable to process" ∷ []))

unfoldable pub is_thinking_budget_error : Text → Bool
is_thinking_budget_error message =
    let m = ascii_lowercase message in
    mentions m ("budget_tokens" ∷ "thinking budget" ∷ "budget tokens" ∷ [])
    && mentions m
        ("must be" ∷ "greater than" ∷ "less than" ∷ "minimum" ∷ "invalid" ∷ "exceeds" ∷ [])

module _ (to_lowercase : Text → Text) where
  unfoldable pub is_thinking_error : Text → Bool
  is_thinking_error message =
      let has : String → Bool = λ h. contains (to_lowercase message) (codes h) in
      (has "invalid" && has "signature" && has "thinking" && has "block")
      || (has "thought signature" && (has "not valid" || has "invalid"))
      || has "must start with a thinking block"
      || (has "expected"
          && (has "thinking" || has "redacted_thinking")
          && has "found"
          && has "tool_use")
      || (has "signature" && has "field required")
      || (has "signature" && has "extra inputs are not permitted")
      || ((has "thinking" || has "redacted_thinking") && has "cannot be modified")
      || has "非法请求"
      || has "illegal request"
      || has "invalid request"

abbrev pub positive : ℕ → Bool
positive n = not (nat_eq n 0)

or_else : Option Text → Option Text → Option Text
or_else none b = b
or_else (some a) b = some a

unwrap_or : Option Text → Text → Text
unwrap_or none d = d
unwrap_or (some t) d = t

module _ {N : Type 0} (parse : Text → Option (Value N)) (lossy : Text → Text) where
  unfoldable pub text_of : Option (Value N) → Text → Text
  unfolding or_else unwrap_or
  text_of none raw = raw
  text_of (some v) raw =
      unwrap_or
        (or_else (and_then (get (codes "error") v) (get_str (codes "message")))
          (or_else (get_str (codes "message") v) (get_str (codes "detail") v)))
        raw

  unfoldable pub extract_error_text : Text → Text
  unfolding text_of
  extract_error_text body = text_of (parse (lossy body)) (lossy body)

module _ {N : Type 0} (from_u64 : ℕ → N) (as_u64 : N → Option ℕ) (to_lowercase : Text → Text) where
  unfoldable pub rectify_images : Text → Value N → Value N × Bool
  rectify_images message body =
      let (out, n) = replace_image_parts body in
      if is_unsupported_image_error message then (out, positive n) else (body, false)

  unfoldable pub rectify_thinking : Text → Bool → Value N → Value N × Bool
  rectify_thinking message anthropic_native body =
      let (out, n) = strip_thinking_blocks body in
      if is_thinking_error to_lowercase message && anthropic_native
      then if remove_top_level_thinking_if_broken out
        then (without_thinking out, true)
        else (out, positive n)
      else (body, false)

  unfoldable pub rectify_budget : Text → Bool → Value N → Value N × Bool
  rectify_budget message anthropic_native body =
      if anthropic_native && is_thinking_budget_error message
      then raise_thinking_budget from_u64 as_u64 body
      else (body, false)

  -- The three rectifications one after the other, and whether one of them changed the request.
  unfoldable pub rectify_body : Bool → Text → Value N → Value N × Bool
  unfolding rectify_images rectify_thinking rectify_budget
  rectify_body anthropic_native message body =
      let (b1, c1) = rectify_images message body in
      let (b2, c2) = rectify_thinking message anthropic_native b1 in
      let (b3, c3) = rectify_budget message anthropic_native b2 in (b3, c1 || c2 || c3)

  module _ (parse : Text → Option (Value N)) (to_vec : Value N → Option Text)
      (lossy : Text → Text) where
    unfoldable pub printed : Value N × Bool → Option Text
    printed (body, changed) = if changed then to_vec body else none

    unfoldable pub rectify_outbound : Bool → Text → Text → ℕ → Option Text
    unfolding printed
    rectify_outbound anthropic_native outbound error_body status =
        if is_rectifiable_status status
        then and_then (parse outbound) (λ body.
          printed (rectify_body anthropic_native (extract_error_text parse lossy error_body) body))
        else none

    printed_images : Value N × ℕ → Option Text
    printed_images (body, n) = if positive n then to_vec body else none

    unfoldable strip_media_outbound : Text → Option Text
    unfolding printed_images
    strip_media_outbound outbound =
        and_then (parse outbound) (λ body. printed_images (replace_image_parts body))
