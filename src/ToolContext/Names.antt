-- ===== src/ToolContext/Names.antt =====
-- src/service/responses/tool_ctx.rs: the length of the names that the upstream sees.
use llm_gateway.Prelude.{
  ℕ, zero, suc, ◌+◌, ◌-◌, ◌*◌, ◌/◌, ◌%◌, ◌≤◌, ◌<◌, ◌≡◌, List, [], ◌∷◌, ◌++◌, ltb, leb, if_both,
  arith,
}
use llm_gateway.Prelude.Text.{Text, codes, utf8_len, byte_len}
use llm_gateway.ToolContext.{
  chat_tool_name_max_len, hex_digit, hex_bytes, take_fitting, short_sha256_hex,
  flatten_namespace_tool_name,
}

byte_len-append : (s t : Text) → byte_len (s ++ t) ≡ byte_len s + byte_len t
byte_len-append [] t = omega arith
byte_len-append (c ∷ cs) t = omega (arith, byte_len-append cs t)

utf8_len-hex_digit : (n : ℕ) → n < 16 → utf8_len (hex_digit n) ≡ 1
utf8_len-hex_digit n h = ground (arith, h)

byte_len-hex_bytes : (n : ℕ) (bytes : List ℕ) → byte_len (hex_bytes n bytes) ≤ 2 * n
unfolding hex_bytes
byte_len-hex_bytes zero bytes = omega arith
byte_len-hex_bytes (suc n) [] = omega arith
byte_len-hex_bytes (suc n) (b ∷ bytes) = omega (
  arith,
  byte_len-hex_bytes n bytes,
  utf8_len-hex_digit (b / 16 % 16) (omega arith),
  utf8_len-hex_digit (b % 16) (omega arith),
)

byte_len-take_fitting :
    (limit used : ℕ) (s : Text) → used ≤ limit → used + byte_len (take_fitting limit used s) ≤ limit
unfolding take_fitting
byte_len-take_fitting limit used [] h = omega arith
byte_len-take_fitting limit used (c ∷ cs) h =
    if_both (λ t. used + byte_len t ≤ limit) (ltb limit (used + utf8_len c)) [] _
      (λ over. omega arith)
      (λ fits.
        let room : used + utf8_len c ≤ limit = ground (arith, fits) in
        omega (arith, byte_len-take_fitting limit (used + utf8_len c) cs room))

module _ (digest : Text → List ℕ) where
  byte_len-short_sha256_hex : (s : Text) → byte_len (short_sha256_hex digest s) ≤ 16
  unfolding short_sha256_hex
  byte_len-short_sha256_hex s = omega (arith, byte_len-hex_bytes 8 (digest s))

  -- The chat name of a tool of a namespace has 64 bytes at most, whatever the names and the digest.
  pub byte_len-flatten_namespace_tool_name :
      (namespace name : Text)
      → byte_len (flatten_namespace_tool_name digest namespace name) ≤ chat_tool_name_max_len
  unfolding flatten_namespace_tool_name
  byte_len-flatten_namespace_tool_name namespace name =
      let full = namespace ++ codes "__" ++ name in
      let suffix = codes "__" ++ short_sha256_hex digest full in
      if_both (λ t. byte_len t ≤ 64) (leb (byte_len full) 64) full _
        (λ short. ground (arith, short))
        (λ long. omega (
          arith,
          byte_len-append (take_fitting (64 - byte_len suffix) 0 full) suffix,
          byte_len-take_fitting (64 - byte_len suffix) 0 full (omega arith),
          byte_len-append (codes "__") (short_sha256_hex digest full),
          byte_len-short_sha256_hex full,
        ))
