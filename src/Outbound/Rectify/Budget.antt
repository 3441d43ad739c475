-- ===== src/Outbound/Rectify/Budget.antt =====
-- src/service/rectify.rs: the thinking budget and the tokens of the answer, raised.
use llm_gateway.Prelude.{ℕ, Option, none, some, Bool, true, false, ◌||◌, ltb, if◌then◌else◌}
use llm_gateway.Prelude.Eq.{List_Eq, ℕ_Eq}
use llm_gateway.Prelude.Text.{codes}
use llm_gateway.Json.{Value, number, and_then, get, with_key}
use llm_gateway.Outbound.Rectify.{thinking_enabled}

abbrev pub below : Option ℕ → ℕ → Bool
below none limit = true
below (some b) limit = ltb b limit

module _ {N : Type 0} (from_u64 : ℕ → N) (as_u64 : N → Option ℕ) where
  -- `as_u64` of a value
  abbrev u64_of : Value N → Option ℕ
  u64_of (number n) = as_u64 n
  u64_of v = none

  abbrev pub max_tokens_of : Value N → Option ℕ
  max_tokens_of body = and_then (get (codes "max_tokens") body) u64_of

  abbrev pub budget_of : Value N → Option ℕ
  budget_of body =
      and_then (and_then (get (codes "thinking") body) (get (codes "budget_tokens"))) u64_of

  -- `body["thinking"]["budget_tokens"] = n`, where `thinking` is there.
  abbrev write_budget : Option (Value N) → ℕ → Value N → Value N
  write_budget none n body = body
  write_budget (some t) n body =
      with_key (codes "thinking") (with_key (codes "budget_tokens") (number (from_u64 n)) t) body

  unfoldable pub raise_budget : Value N → Value N × Bool
  raise_budget body =
      if below (budget_of body) 32000
      then (write_budget (get (codes "thinking") body) 32000 body, true)
      else (body, false)

  unfoldable pub raise_max_tokens : Value N → Value N × Bool
  raise_max_tokens body =
      if below (max_tokens_of body) 64000
      then (with_key (codes "max_tokens") (number (from_u64 64000)) body, true)
      else (body, false)

  unfoldable pub raise_enabled : Value N → Value N × Bool
  raise_enabled body =
      let (raised, b) = raise_budget body in let (out, m) = raise_max_tokens raised in (out, b || m)

  unfoldable pub raise_thinking_budget : Value N → Value N × Bool
  unfolding raise_enabled raise_budget raise_max_tokens
  raise_thinking_budget body = if thinking_enabled body then raise_enabled body else (body, false)
