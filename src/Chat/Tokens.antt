-- ===== src/Chat/Tokens.antt =====
-- src/service/responses/dto.rs and src/service/anthropic/convert_resp.rs: the counts of a usage. The
-- i64 sums and differences saturate.
use llm_gateway.Prelude.{ℕ, ◌+◌, ◌^◌, ◌≤◌, ◌<◌, ◌≡◌, refl, sym, ap, ◌∙◌, Option, none, arith}
use llm_gateway.Prelude.Int.{ℤ, pos, ◌+ℤ◌, ◌-ℤ◌, min_ℤ, max_ℤ}
use llm_gateway.Prelude.Text.{Text, codes}
use llm_gateway.Plans.Usage.{max_i64, min_i64, saturating_add}
use llm_gateway.Json.{Value, number, and_then, get}
use llm_gateway.Chat.{Numbers, Usage, or_else, unwrap_or}

saturating_sub : ℤ → ℤ → ℤ
saturating_sub a b = max_ℤ min_i64 (min_ℤ max_i64 (a -ℤ b))

-- What a client of the Anthropic interface is told.
pub record AnthropicUsage : Type 0 where
  pub input_tokens : ℤ
  pub output_tokens : ℤ
  pub cache_creation_input_tokens : ℤ
  pub cache_read_input_tokens : ℤ

module _ {N : Type 0} (num : Numbers N) where
  unfoldable pub input : Usage N → ℤ
  input u = unwrap_or (pos 0) (or_else u.prompt_tokens u.input_tokens)

  unfoldable pub output : Usage N → ℤ
  output u = unwrap_or (pos 0) (or_else u.completion_tokens u.output_tokens)

  pub total : Usage N → ℤ
  unfolding input output
  total u = unwrap_or (saturating_add (input u) (output u)) u.total_tokens

  -- `v.as_i64()` of a value
  as_i64_of : Value N → Option ℤ
  as_i64_of (number n) = num.as_i64 n
  as_i64_of _ = none

  details_i64 : Option (Value N) → Text → Option ℤ
  unfolding as_i64_of
  details_i64 details key = and_then (and_then details (get key)) as_i64_of

  unfoldable pub cached_tokens : Usage N → ℤ
  unfolding details_i64
  cached_tokens u = unwrap_or (pos 0) (
      or_else u.cache_read_input_tokens (
        or_else (details_i64 u.input_tokens_details (codes "cached_tokens")) (
          or_else (details_i64 u.prompt_tokens_details (codes "cached_tokens"))
            u.prompt_cache_hit_tokens)))

  unfoldable pub cache_write_tokens : Usage N → ℤ
  unfolding details_i64
  cache_write_tokens u = unwrap_or (pos 0) (
      or_else u.cache_creation_input_tokens (
        or_else (details_i64 u.input_tokens_details (codes "cache_write_tokens"))
          (details_i64 u.prompt_tokens_details (codes "cache_write_tokens"))))

  unfoldable pub anthropic_usage : Usage N → AnthropicUsage
  unfolding input output cached_tokens cache_write_tokens saturating_sub
  anthropic_usage u = record {
    input_tokens =
        saturating_sub (saturating_sub (input u) (cached_tokens u)) (cache_write_tokens u);
    output_tokens = output u;
    cache_creation_input_tokens = cache_write_tokens u;
    cache_read_input_tokens = cached_tokens u;
  }

saturating_sub_exact :
    (p c w : ℕ)
    → p < 2 ^ 63
    → c < 2 ^ 63
    → c + w ≤ p + 2 ^ 63
    → saturating_sub (saturating_sub (pos p) (pos c)) (pos w) +ℤ pos w +ℤ pos c ≡ pos p
unfolding saturating_sub ◌-ℤ◌ ◌+ℤ◌
saturating_sub_exact p c w hp hc h = ground arith

module _ {N : Type 0} (num : Numbers N) where
  -- The three counts of the input that a client is told add up to the upstream's count of the input,
  -- where the counts are no negative ones, the input and what was read from the cache are i64 values,
  -- and the cache's counts exceed the input by 2 ^ 63 at most.
  pub anthropic_usage-total :
      (u : Usage N) (p c w : ℕ)
      → input num u ≡ pos p
      → cached_tokens num u ≡ pos c
      → cache_write_tokens num u ≡ pos w
      → p < 2 ^ 63
      → c < 2 ^ 63
      → c + w ≤ p + 2 ^ 63
      → (anthropic_usage num u).input_tokens
          +ℤ (anthropic_usage num u).cache_creation_input_tokens
          +ℤ (anthropic_usage num u).cache_read_input_tokens
        ≡ input num u
  unfolding anthropic_usage
  anthropic_usage-total u p c w hp hc hw below_p below_c enough =
      ap (λ (x : ℤ × ℤ × ℤ). saturating_sub (saturating_sub x.0 x.1) x.2 +ℤ x.2 +ℤ x.1)
        (triple hp hc hw)
      ∙ saturating_sub_exact p c w below_p below_c enough
      ∙ sym hp
    where
      triple :
          {a b c : ℤ} {x y z : ℤ} → a ≡ x → b ≡ y → c ≡ z → Path (ℤ × ℤ × ℤ) (a, b, c) (x, y, z)
      triple e f g = rw (e, f, g) refl
