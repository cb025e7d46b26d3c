-- ===== src/Task/Time.antt =====
-- Quantized times are the multiples of the time precision around a time.
use native.Mathlib.Nat.{
  mul-mod_left, le-div_iff_mul-le, mod-eq_of_lt, mul-le-mul_right, div-add-mod', mod-lt,
  div-lt_iff_lt-mul,
}
use daphne.Common.{suc, false, ◌==◌, ℕ, ◌+◌, ◌-◌, ◌*◌, ◌/◌, ◌%◌, ◌≤◌, ◌<◌, ◌≡◌, arith}
use daphne.Errors.{ok}
use daphne.Task.{DapTaskConfig, quantized_time_lower_bound, quantized_time_upper_bound, u64_end}

module _ (p : ℕ) (pos : 0 < p) where
  -- The window of a time: it starts at the greatest multiple of `p` that is not later.
  pub window-eq : (time : ℕ) → time - time % p ≡ time / p * p
  window-eq time = omega (arith, div-add-mod' time p)

  pub window-mod : (k : ℕ) → k * p % p ≡ 0
  window-mod k = mul-mod_left k p

  pub window-le : (time : ℕ) → time / p * p ≤ time
  window-le time = omega (arith, div-add-mod' time p)

  pub lt-window_end : (time : ℕ) → time < time / p * p + p
  lt-window_end time = omega (arith, div-add-mod' time p, mod-lt time pos)

  pub window-greatest : (time k : ℕ) → k * p ≤ time → k ≤ time / p
  window-greatest time k h = (le-div_iff_mul-le pos).1 h

  pub window-least : (time k : ℕ) → time < k * p → time / p < k
  window-least time k h = (div-lt_iff_lt-mul pos).1 h

-- At a positive precision P and a time whose window ends before 2^64, the lower bound is the greatest
-- multiple of P that is at most the time, and the upper bound the least that is greater.
pub quantized_times :
    (t : DapTaskConfig) (time k : ℕ)
    → 0 < t.time_precision
    → time + t.time_precision < u64_end
    → (lower : ℕ) × (upper : ℕ) × (quantized_time_lower_bound t time ≡ ok lower)
      × (quantized_time_upper_bound t time ≡ ok upper)
      × (lower % t.time_precision ≡ 0)
      × (upper % t.time_precision ≡ 0)
      × (lower ≤ time)
      × (time < upper)
      × (k * t.time_precision ≤ time → k * t.time_precision ≤ lower)
      × (time < k * t.time_precision → upper ≤ k * t.time_precision)
unfolding quantized_time_lower_bound quantized_time_upper_bound
quantized_times t time k pos fits =
    let P = t.time_precision in
    let q = time / P in
    let nonzero : (P == 0) ≡ false = ground arith in
    let next : q * P + P ≡ suc q * P = omega arith in
    let small : (q * P + P) % u64_end ≡ q * P + P =
      mod-eq_of_lt (omega (arith, window-le P pos time)) in
    (
      q * P,
      suc q * P,
      rw (nonzero, window-eq P pos time),
      rw (nonzero, window-eq P pos time, small, next),
      window-mod P pos q,
      window-mod P pos (suc q),
      window-le P pos time,
      omega (arith, lt-window_end P pos time),
      λ h. mul-le-mul_right P (window-greatest P pos time k h),
      λ h. mul-le-mul_right P (window-least P pos time k h),
    )
