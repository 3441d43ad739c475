-- ===== src/RateLimit/Apply/Seconds.antt =====
-- src/service/ratelimit.rs: the seconds of the `Retry-After` header of a request that is refused.
use llm_gateway.Prelude.{
  ℕ, ◌+◌, ◌*◌, ◌≤◌, ◌<◌, ◌≡◌, ◌/◌, ◌%◌, leb, ltb, if◌then◌else◌, refl, sym, subst, inl, inr, arith,
  Bool-cases,
}
use native.Mathlib.Nat.{mod-lt, div-add-mod}
use llm_gateway.RateLimit.Apply.{half, round_half_even, retry_secs}

mul_mono : (d a b : ℕ) → a ≤ b → d * a ≤ d * b
mul_mono d a b h = grind arith

-- A fraction of at most `u` and a half rounds to at most the even `u`, and a larger one to more.
round_low :
    (n d u q r : ℕ)
    → r < d
    → n ≡ d * q + r
    → u % 2 ≡ 0
    → 2 * n ≤ d * (2 * u + 1)
    → (if ltb (2 * r) d then q else if ltb d (2 * r) then q + 1 else q + q % 2) ≤ u
round_low n d u q r small e even low = elim (Bool-cases (ltb q u)) [
  | inl c ↦ grind arith
  | inr c ↦ elim (Bool-cases (ltb u q)) [
    | inl k ↦ grind (arith, mul_mono d (u + 1) q)
    | inr k ↦ grind arith
  ]
]

round_high :
    (n d u q r : ℕ)
    → r < d
    → n ≡ d * q + r
    → d * (2 * u + 1) < 2 * n
    → u < (if ltb (2 * r) d then q else if ltb d (2 * r) then q + 1 else q + q % 2)
round_high n d u q r small e high = elim (Bool-cases (ltb q u)) [
  | inl c ↦ grind (arith, mul_mono d (q + 1) u)
  | inr c ↦ elim (Bool-cases (ltb u q)) [
    | inl k ↦ ground arith
    | inr k ↦
        let same : u ≡ q = ground arith in
        let high_q : d * (2 * q + 1) < 2 * n = subst (λ v. d * (2 * v + 1) < 2 * n) same high in
        let above : d < 2 * r = grind arith in ground arith
  ]
]

-- The sum is at most 6 exactly if the jitter is at most a half and the half of a unit.
round_jitter :
    (scale jitter : ℕ)
    → jitter < scale
    → let sum = round_half_even (jitter * (2 * half)) scale in
      (sum ≤ 2 * half) × (leb (2 * (jitter * (2 * half))) (scale * (2 * half + 1)) ≡ leb sum half)
unfolding round_half_even
round_jitter scale jitter h =
    let n = jitter * (2 * half) in
    let small : n % scale < scale = mod-lt n (ground arith) in
    let split : n ≡ scale * (n / scale) + n % scale = sym (div-add-mod n scale) in
    (
      round_low n scale (2 * half) (n / scale) (n % scale) small split (omega arith) (grind arith),
      elim (Bool-cases (leb (2 * n) (scale * (2 * half + 1)))) [
        | inl low ↦
            let few =
              round_low n scale half (n / scale) (n % scale) small split refl (ground arith) in
            ground (arith, few)
        | inr high ↦
            let more = round_high n scale half (n / scale) (n % scale) small split (ground arith) in
            ground (arith, more)
      ],
    )

-- The seconds in `Retry-After` and in the message: 6 if the f64 sum is at most 6, that is if the
-- jitter is at most `2 ^ -51` above a half, and 7 if it is more.
pub retry_secs_lem :
    (scale jitter : ℕ)
    → jitter < scale
    → retry_secs scale jitter
      ≡ (if leb (2 * (jitter * (2 * half))) (scale * (2 * half + 1)) then 6 else 7)
unfolding retry_secs
retry_secs_lem scale jitter h =
    let (most, test) = round_jitter scale jitter h in rw test (ground (arith, most))
