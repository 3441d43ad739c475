-- ===== src/Plans/Period/Windows.antt =====
-- src/store/plans.rs: the window of a plan holds the time it is computed for, is the same for every
-- time of the window, and has a key of its own.
use llm_gateway.Prelude.{
  ℕ, suc, ◌+◌, ◌-◌, ◌*◌, ◌/◌, ◌≤◌, ◌<◌, ◌≡◌, refl, sym, subst, ap, ◌∙◌, ◌≢◌, ◌↔◌, Option, none,
  some, arith,
}
use llm_gateway.Plans.Period.{
  Calendar, PeriodType, Window, anchor_ts, step_secs, hourly_start, timestamp, start_by,
  period_start, end_by, period_end, key_by, period_key, hourly, daily, monthly, total, nanos, day,
}
use llm_gateway.Prelude.Decimal.{show_ℕ-injective}
use native.Mathlib.Nat.{div-mul-le_self, lt-div-mul-add, le-div_iff_mul-le, div-lt_iff_lt-mul}

-- The quotient is the only number that the remainder fits.
div_unique : (n d q : ℕ) → 0 < d → q * d ≤ n → n < q * d + d → n / d ≡ q
div_unique n d q p h k =
    let lo : q ≤ n / d = (le-div_iff_mul-le {k = d} {x = q} {y = n} p).1 h in
    let hi : n / d < suc q = (div-lt_iff_lt-mul {k = d} {x = n} {y = suc q} p).1 (omega arith) in
    omega arith

step_pos : (w : Window) → 0 < step_secs w
step_pos w = omega arith

-- The bucket's bounds, in seconds.
hourly_bounds :
    (anchor step now : ℕ)
    → 0 < step
    → anchor ≤ timestamp now
    → (hourly_start anchor step now ≤ now) × (now < hourly_start anchor step now + step * nanos)
unfolding hourly_start
hourly_bounds anchor step now p h =
    let e = timestamp now - anchor in
    let lo : e / step * step ≤ e = div-mul-le_self e step in
    let hi : e < e / step * step + step = lt-div-mul-add {a = e} {b = step} p in
    (omega arith, omega arith)

hourly_stable :
    (anchor step s t : ℕ)
    → 0 < step
    → anchor ≤ timestamp s
    → hourly_start anchor step s ≤ t
    → t < hourly_start anchor step s + step * nanos
    → hourly_start anchor step t ≡ hourly_start anchor step s
unfolding hourly_start
hourly_stable anchor step s t p h lo hi =
    let q = (timestamp s - anchor) / step in
    let e : (timestamp t - anchor) / step ≡ q =
      div_unique (timestamp t - anchor) step q p (omega arith) (omega arith) in
    ap (λ q. (anchor + q * step) * nanos) e

-- Before the end, where there is one.
abbrev pub EndsAfter : ℕ → Option ℕ → Type 0
EndsAfter now none = Unit
EndsAfter now (some e) = now < e

module _ (cal : Calendar) where
  start_by-le :
      (p : PeriodType) (w : Window) (now : ℕ)
      → anchor_ts w w.period_anchor_mode ≤ timestamp now
      → start_by cal p w now ≤ now
  unfolding start_by
  start_by-le hourly w now h =
      (hourly_bounds (anchor_ts w w.period_anchor_mode) (step_secs w) now (step_pos w) h).0
  start_by-le daily w now h = cal.midnight_le now
  start_by-le monthly w now h = cal.month_le now
  start_by-le total w now h = omega arith

  start_of :
      (p : PeriodType) (w : Window) (now : ℕ)
      → w.period_type ≡ p
      → period_start cal w now ≡ start_by cal p w now
  unfolding period_start
  start_of p w now q = ap (λ p. start_by cal p w now) q

  end_by-EndsAfter :
      (p : PeriodType) (w : Window) (now : ℕ)
      → w.period_type ≡ p
      → anchor_ts w w.period_anchor_mode ≤ timestamp now
      → EndsAfter now (end_by cal p w now)
  unfolding end_by
  end_by-EndsAfter hourly w now q h =
      let b =
        (hourly_bounds (anchor_ts w w.period_anchor_mode) (step_secs w) now (step_pos w) h).1 in
      subst (λ s. now < s + step_secs w * nanos) (sym (start_of hourly w now q)) b
  end_by-EndsAfter daily w now q h =
      subst (λ s. now < s + day) (sym (start_of daily w now q)) (cal.midnight_lt now)
  end_by-EndsAfter monthly w now q h =
      ground (arith, cal.month_lt now, cal.december_lt now, cal.month_range now)
  end_by-EndsAfter total w now q h = tt

  -- A time lies in the window that the plan computes for it: not before the start, and before the
  -- end where there is one. An hourly window needs that the plan's anchor is not in the future.
  period_contains :
      (w : Window) (now : ℕ)
      → anchor_ts w w.period_anchor_mode ≤ timestamp now
      → (period_start cal w now ≤ now) × EndsAfter now (period_end cal w now)
  unfolding period_start period_end
  period_contains w now h =
      (start_by-le w.period_type w now h, end_by-EndsAfter w.period_type w now refl h)

  start_text :
      (w : Window)
      → (now : ℕ)
      → hourly_start (anchor_ts w w.period_anchor_mode) (step_secs w) now / nanos * nanos
        ≡ hourly_start (anchor_ts w w.period_anchor_mode) (step_secs w) now
  unfolding hourly_start
  start_text w now = omega arith

  key_by-start_by :
      (p : PeriodType) (w : Window) (s t : ℕ)
      → w.period_type ≡ p
      → p ≢ monthly
      → (key_by cal p w s ≡ key_by cal p w t) ↔ (start_by cal p w s ≡ start_by cal p w t)
  unfolding key_by start_by period_start
  key_by-start_by hourly w s t e n =
      let a = hourly_start (anchor_ts w w.period_anchor_mode) (step_secs w) s in
      let b = hourly_start (anchor_ts w w.period_anchor_mode) (step_secs w) t in
      let es : period_start cal w s ≡ a = ap (λ p. start_by cal p w s) e in
      let et : period_start cal w t ≡ b = ap (λ p. start_by cal p w t) e in
      (
        λ h.
            let q : a / nanos ≡ b / nanos =
              show_ℕ-injective (a / nanos) (b / nanos) (ground (arith, h, es, et)) in
            ground (arith, start_text w s, start_text w t, q),
        λ h. ground (arith, h, es, et),
      )
  key_by-start_by daily w s t e n = (
    λ h. (cal.date_text_iff s t).0 (ground (arith, h)),
    λ h. ground (arith, (cal.date_text_iff s t).1 h),
  )
  key_by-start_by monthly w s t e n = absurd (n refl)
  key_by-start_by total w s t e n = (λ h. refl, λ h. refl)

  -- For an hourly plan whose anchor is not after `s`: every time of the window of `s` has that
  -- window.
  pub hourly_window_stable :
      (w : Window) (s t : ℕ)
      → w.period_type ≡ hourly
      → anchor_ts w w.period_anchor_mode ≤ timestamp s
      → period_start cal w s ≤ t
      → EndsAfter t (period_end cal w s)
      → period_start cal w t ≡ period_start cal w s
  unfolding period_start start_by period_end end_by
  hourly_window_stable w s t p h lo hi =
      let es : period_start cal w s
          ≡ hourly_start (anchor_ts w w.period_anchor_mode) (step_secs w) s =
        ap (λ p. start_by cal p w s) p in
      let et : period_start cal w t
          ≡ hourly_start (anchor_ts w w.period_anchor_mode) (step_secs w) t =
        ap (λ p. start_by cal p w t) p in
      let ee : period_end cal w s ≡ some (period_start cal w s + step_secs w * nanos) =
        ap (λ p. end_by cal p w s) p in
      let b =
        hourly_stable (anchor_ts w w.period_anchor_mode) (step_secs w) s t (step_pos w) h
          (ground (arith, lo, es)) (ground (arith, subst (EndsAfter t) ee hi, es)) in
      et ∙ b ∙ sym es

  -- Of a plan that is not monthly: two times have the same key exactly when their windows have the
  -- same start.
  pub period_key_iff :
      (w : Window) (s t : ℕ)
      → w.period_type ≢ monthly
      → (period_key cal w s ≡ period_key cal w t) ↔ (period_start cal w s ≡ period_start cal w t)
  unfolding period_key period_start
  period_key_iff w s t n = key_by-start_by w.period_type w s t refl n
