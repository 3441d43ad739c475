-- ===== src/Outbound/Rectify/Once.antt =====
-- src/service/rectify.rs: the three steps on the value of a request, one after the other.
use llm_gateway.Prelude.{ℕ, ◌≡◌, ◌⊎◌, Option, some, Bool, false, ◌&&◌}
use llm_gateway.Prelude.Eq.{List_Eq, ℕ_Eq}
use llm_gateway.Prelude.Text.{Text}
use llm_gateway.Json.{Value}
use llm_gateway.Outbound.Rectify.{remove_top_level_thinking_if_broken}
use llm_gateway.Outbound.Rectify.Images.{NoImages}
use llm_gateway.Outbound.Rectify.Thinking.{NoThinking}
use llm_gateway.Outbound.Rectify.Raised.{Raised}
use llm_gateway.Outbound.Rectify.Messages.{
  is_unsupported_image_error, is_thinking_error, is_thinking_budget_error,
}

module _ {N : Type 0} where
  abbrev pub Whole : Value N → Type 0
  Whole body = remove_top_level_thinking_if_broken body ≡ false

module _ {N : Type 0} (from_u64 : ℕ → N) (as_u64 : N → Option ℕ)
    (law : (n : ℕ) → as_u64 (from_u64 n) ≡ some n) (to_lowercase : Text → Text) (native : Bool)
    (message : Text) where
  abbrev pub FreeOfImages : Value N → Type 0
  FreeOfImages body = (is_unsupported_image_error message ≡ false) ⊎ NoImages body

  abbrev pub FreeOfThinking : Value N → Type 0
  FreeOfThinking body =
      ((is_thinking_error to_lowercase message && native) ≡ false) ⊎ (NoThinking body × Whole body)

  abbrev pub Sufficient : Value N → Type 0
  Sufficient body =
      ((native && is_thinking_budget_error message) ≡ false) ⊎ Raised from_u64 as_u64 law body
