-- ===== src/Routing/Cost.antt =====
-- src/service/routing.rs: `compute_cost`, over the price rows of src/store/rules.rs. A price is an f64; the
-- model takes its type and the conversion `(p * 1e6).round() as i128` to micro-dollars as parameters,
-- and stops at the integer sum that the source at last divides by 1e6 into an f64. Token counts are
-- i64 and sums i128: only the operations that saturate in the source are clamped.
use llm_gateway.Prelude.{
  ℕ, suc, ◌+◌, ◌-◌, ◌*◌, ◌/◌, ◌^◌, ◌≤◌, ◌<◌, ◌≡◌, ◌∙◌, ap, Option, none, some, arith, if◌then◌else◌,
  leb, min,
}
use llm_gateway.Prelude.Eq.{List_Eq, ℕ_Eq}
use llm_gateway.Prelude.Int.{ℤ, pos, negsuc, ◌+ℤ◌, ◌-ℤ◌, ◌*ℤ◌, +ℤ_pos, min_ℤ, ltb_ℤ}
use llm_gateway.Prelude.Text.{Text}
use llm_gateway.Prelude.Map.{Map, lookup}
use llm_gateway.Routing.{or_else}
use mathlib.Core.Option

pub record ModelPrice (F : Type 0) : Type 0 where
  pub model : Text
  pub input_price_per_m : Option F
  pub output_price_per_m : Option F
  pub cache_read_price_per_m : Option F
  pub cache_write_price_per_m : Option F

-- A result outside `-2^(w-1) .. 2^(w-1) - 1` becomes the nearer bound.
saturate : ℕ → ℤ → ℤ
saturate w (pos n) = if leb (2 ^ (w - 1)) n then pos (2 ^ (w - 1) - 1) else pos n
saturate w (negsuc n) = if leb (2 ^ (w - 1)) n then negsuc (2 ^ (w - 1) - 1) else negsuc n

-- Integer division of Rust: towards zero.
quot : ℤ → ℕ → ℤ
unfolding ◌-ℤ◌
quot (pos n) d = pos (n / d)
quot (negsuc n) d = pos 0 -ℤ pos (suc n / d)

bucket : ℤ → ℤ → ℤ
unfolding saturate quot ◌*ℤ◌
bucket tokens p_micros = quot (saturate 128 (tokens *ℤ p_micros)) 1_000_000

abbrev or_zero_tokens : Option ℤ → ℤ
or_zero_tokens none = pos 0
or_zero_tokens (some t) = t

-- The three parts into which the input is priced.
pub record InputParts : Type 0 where
  pub fresh : ℤ
  read : ℤ
  write : ℤ

input_parts : ℤ → Option ℤ → Option ℤ → InputParts
unfolding saturate ◌-ℤ◌
input_parts t cache_read_tokens cache_write_tokens =
    let cache_read = min_ℤ (or_zero_tokens cache_read_tokens) t in
    let cache_write = min_ℤ (or_zero_tokens cache_write_tokens) (saturate 64 (t -ℤ cache_read)) in
    record { fresh = t -ℤ cache_read -ℤ cache_write; read = cache_read; write = cache_write }

module _ {F : Type 0} (micros : F → ℤ) where
  -- `if let Some(p) = price { cost += bucket(tokens, micros(p)) }`
  priced : Option F → ℤ → ℤ
  priced none tokens = pos 0
  priced (some p) tokens = bucket tokens (micros p)

  -- The same under `if tokens > 0`.
  priced_if_any : Option F → ℤ → ℤ
  priced_if_any price tokens = if ltb_ℤ (pos 0) tokens then priced price tokens else pos 0

  parts_cost : ModelPrice F → InputParts → ℤ
  parts_cost price parts =
      priced price.input_price_per_m parts.fresh
      +ℤ priced_if_any (or_else price.cache_read_price_per_m price.input_price_per_m) parts.read
      +ℤ priced_if_any (or_else price.cache_write_price_per_m price.input_price_per_m) parts.write

  input_cost : ModelPrice F → Option ℤ → Option ℤ → Option ℤ → ℤ
  input_cost price none cache_read_tokens cache_write_tokens = pos 0
  input_cost price (some t) cache_read_tokens cache_write_tokens =
      parts_cost price (input_parts t cache_read_tokens cache_write_tokens)

  output_cost : Option F → Option ℤ → ℤ
  output_cost price none = pos 0
  output_cost price (some t) = priced price t

  cost_of : Option (ModelPrice F) → Option ℤ → Option ℤ → Option ℤ → Option ℤ → ℤ
  cost_of none input output read write = pos 0
  cost_of (some price) input output read write =
      input_cost price input read write +ℤ output_cost price.output_price_per_m output

  pub compute_cost : Map Text (ModelPrice F) → Text → Option ℤ → Option ℤ → Option ℤ → Option ℤ → ℤ
  compute_cost prices model input output read write =
      cost_of (lookup model prices) input output read write

abbrev or_none : Option ℕ → ℕ
or_none none = 0
or_none (some n) = n

-- For counts that are not negative the tokens read from the cache come off the input first, then
-- those written to it, each at most as many as are left.
input_parts_lem :
    (t : ℕ) (read write : Option ℕ)
    → t < 2 ^ 63
    → let r = min (or_none read) t in
      let w = min (or_none write) (t - r) in
      input_parts (pos t) (Option.map pos read) (Option.map pos write)
      ≡ record { fresh = pos (t - r - w); read = pos r; write = pos w }
unfolding input_parts
input_parts_lem t none none lt = ground arith
input_parts_lem t none (some b) lt = ground arith
input_parts_lem t (some a) none lt = ground arith
input_parts_lem t (some a) (some b) lt = ground arith

-- 10^6 · (a/10^6 + b/10^6 + c/10^6) loses less than three units.
three_quotients :
    (a b c : ℕ)
    → (a / 1_000_000 + b / 1_000_000 + c / 1_000_000 ≤ (a + b + c) / 1_000_000)
      × ((a + b + c) / 1_000_000 ≤ a / 1_000_000 + b / 1_000_000 + c / 1_000_000 + 2)
three_quotients a b c = omega arith

split_quotients :
    (a b c t m : ℕ)
    → a + b + c ≡ t
    → (a * m / 1_000_000 + b * m / 1_000_000 + c * m / 1_000_000 ≤ t * m / 1_000_000)
      × (t * m / 1_000_000 ≤ a * m / 1_000_000 + b * m / 1_000_000 + c * m / 1_000_000 + 2)
split_quotients a b c t m e =
    omega (arith, three_quotients (a * m) (b * m) (c * m), ap (λ (x : ℕ). x * m) e)

product_bound : (n m : ℕ) → n < 2 ^ 63 → m < 2 ^ 64 → n * m < 2 ^ 127
product_bound n m hn hm = grind arith

bucket_pos : (n m : ℕ) → n * m < 2 ^ 127 → bucket (pos n) (pos m) ≡ pos (n * m / 1_000_000)
unfolding bucket
bucket_pos n m h = ground arith

module _ {F : Type 0} (micros : F → ℤ) (p : F) (m : ℕ) (rate : micros p ≡ pos m) where
  priced_pos : (n : ℕ) → n * m < 2 ^ 127 → priced micros (some p) (pos n) ≡ pos (n * m / 1_000_000)
  unfolding priced
  priced_pos n h = rw rate (bucket_pos n m h)

  priced_if_any_pos :
      (n : ℕ) → n * m < 2 ^ 127 → priced_if_any micros (some p) (pos n) ≡ pos (n * m / 1_000_000)
  unfolding priced_if_any
  priced_if_any_pos n h = ground (arith, priced_pos n h)

  three_pos : (a b c : ℕ) → pos a +ℤ pos b +ℤ pos c ≡ pos (a + b + c)
  three_pos a b c = rw (+ℤ_pos a b, +ℤ_pos (a + b) c)

  -- With no price for the cache every part is priced at the input price.
  parts_cost_fallback :
      (price : ModelPrice F) (fresh r w : ℕ)
      → price.input_price_per_m ≡ some p
      → price.cache_read_price_per_m ≡ none
      → price.cache_write_price_per_m ≡ none
      → fresh * m < 2 ^ 127
      → r * m < 2 ^ 127
      → w * m < 2 ^ 127
      → parts_cost micros price (record { fresh = pos fresh; read = pos r; write = pos w })
        ≡ pos (fresh * m / 1_000_000 + r * m / 1_000_000 + w * m / 1_000_000)
  unfolding parts_cost
  parts_cost_fallback price fresh r w hi hr hw bf br bw =
      simp (hi, hr, hw, priced_pos fresh bf, priced_if_any_pos r br, priced_if_any_pos w bw, +ℤ_pos)

  -- Prompt caching changes the bill by no more than rounding: where the model has an input price, a
  -- natural number of micro-dollars, and none for the cache, the input costs what all of its tokens
  -- cost at that price, or up to two micro-dollars less.
  compute_cost-fallback :
      (prices : Map Text (ModelPrice F)) (name : Text) (price : ModelPrice F) (t : ℕ)
      (read write : Option ℕ)
      → lookup name prices ≡ some price
      → price.input_price_per_m ≡ some p
      → price.cache_read_price_per_m ≡ none
      → price.cache_write_price_per_m ≡ none
      → t < 2 ^ 63
      → m < 2 ^ 64
      → (c : ℕ) × (compute_cost micros prices name
            (some (pos t))
            none
            (Option.map pos read)
            (Option.map pos write)
          ≡ pos c)
        × (c ≤ t * m / 1_000_000)
        × (t * m / 1_000_000 ≤ c + 2)
  compute_cost-fallback prices name price t read write known hi hr hw ht hm =
      let r = min (or_none read) t in
      let w = min (or_none write) (t - r) in
      let a = t - r - w in
      let cost =
        parts_cost_fallback price a r w hi hr hw (product_bound a m (omega arith) hm)
          (product_bound r m (omega arith) hm) (product_bound w m (omega arith) hm) in
      (
        a * m / 1_000_000 + r * m / 1_000_000 + w * m / 1_000_000,
        unfold compute_cost cost_of input_cost output_cost in
            rw (known, cost_of, input_parts_lem t read write ht, cost)
              (+ℤ_pos _ 0 ∙ ap pos (omega arith)),
        (split_quotients a r w t m (omega arith)).0,
        (split_quotients a r w t m (omega arith)).1,
      )
