-- ===== src/Task/Span.antt =====
-- The batch span of a selector is exactly the buckets of the reports that match it.
use native.Mathlib.Decide.{dec_lt}
use native.Mathlib.Nat.{div-add-mod', mul-le-mul_right, mod-eq_of_lt, add-mul}
use daphne.Common.{
  ◌∙◌, sym, In, In-append_left, In-append_right, In-append_cases, ℕ, zero, suc, ◌+◌, ◌-◌, ◌*◌, ◌/◌,
  ◌%◌, ◌≤◌, ◌<◌, ◌≡◌, ◌↔◌, false, ◌==◌, List, inl, inr, ap, arith,
}
use daphne.Errors.{ok}
use daphne.Messages.Batch.{Interval, PartialBatchSelector, BatchSelector}
use daphne.Task.{
  DapTaskConfig, DapQueryConfig, DapBatchBucket, shard_buckets, window_buckets, batch_span_for_sel,
  bucket_for, u64_end,
}
use daphne.Task.Time.{window-eq, window-le, lt-window_end, window-greatest, window-least}

module _ (bucket : ℕ → DapBatchBucket) where
  pub shard_buckets_complete :
      (i k s : ℕ) → i ≤ s → s < i + k → In (bucket s) (shard_buckets bucket i k)
  unfolding shard_buckets
  shard_buckets_complete i zero s lo hi = absurd (omega arith)
  shard_buckets_complete i (suc k) s lo hi = elim (dec_lt i s) [
    | yes h ↦ inr (shard_buckets_complete (suc i) k s h (omega arith))
    | no h ↦ let e : s ≡ i = omega arith in inl (ap bucket e)
  ]

  shard_buckets_sound :
      (i k : ℕ) (b : DapBatchBucket)
      → In b (shard_buckets bucket i k)
      → (s : ℕ) × (b ≡ bucket s) × (s < i + k)
  unfolding shard_buckets
  shard_buckets_sound i zero b h = elim h [ ]
  shard_buckets_sound i (suc k) b (inl e) = (i, e, omega arith)
  shard_buckets_sound i (suc k) b (inr h) =
      let (s, e, lt) = shard_buckets_sound (suc i) k b h in (s, e, omega arith)

module _ (t : DapTaskConfig) (start : ℕ) where
  abbrev window : ℕ → ℕ
  window i = (start + i * t.time_precision) % u64_end

  window_buckets_complete :
      (i k j s : ℕ)
      → i ≤ j
      → j < i + k
      → s < t.num_agg_span_shards
      → In (DapBatchBucket.time_interval (window j) s) (window_buckets t start i k)
  unfolding window_buckets
  window_buckets_complete i zero j s lo hi hs = absurd (omega arith)
  window_buckets_complete i (suc k) j s lo hi hs = elim (dec_lt i j) [
    | yes h ↦
        In-append_right _
          (shard_buckets (DapBatchBucket.time_interval (window i)) 0 t.num_agg_span_shards) _
          (window_buckets_complete (suc i) k j s h (omega arith) hs)
    | no h ↦
        let e : j ≡ i = omega arith in
        rw e (
          In-append_left _ _ (window_buckets t start (suc i) k) (
            shard_buckets_complete (DapBatchBucket.time_interval (window i)) 0 t.num_agg_span_shards
              s (omega arith) (omega arith)))
  ]

  window_buckets_sound :
      (i k w s : ℕ)
      → In (DapBatchBucket.time_interval w s) (window_buckets t start i k)
      → (j : ℕ) × (j < i + k) × (w ≡ window j) × (s < t.num_agg_span_shards)
  unfolding window_buckets
  window_buckets_sound i zero w s h = elim h [ ]
  window_buckets_sound i (suc k) w s h =
      elim (In-append_cases _
        (shard_buckets (DapBatchBucket.time_interval (window i)) 0 t.num_agg_span_shards) _ h) [
          | inl a ↦
              let (s', e, lt) =
                shard_buckets_sound (DapBatchBucket.time_interval (window i)) 0
                  t.num_agg_span_shards _ a in
              (i, omega arith, ground (arith, e), ground (arith, e))
          | inr b ↦
              let (j, lt, e, hs) = window_buckets_sound (suc i) k w s b in (j, omega arith, e, hs)
        ]

module _ (P start duration : ℕ) (pos : 0 < P) (aligned : start % P ≡ 0)
    (whole : duration % P ≡ 0) where
  start-eq : start ≡ start / P * P
  start-eq = omega (arith, div-add-mod' start P)

  duration-eq : duration ≡ duration / P * P
  duration-eq = omega (arith, div-add-mod' duration P)

  -- The windows of the interval are those of the times in it.
  covered-lt :
      (time j : ℕ)
      → j < duration / P
      → time / P * P ≡ start + j * P
      → (start ≤ time) × (time < start + duration)
  covered-lt time j lt e =
      let round = mul-le-mul_right P lt in
      (
        omega (arith, window-le P pos time),
        omega (arith, lt-window_end P pos time, duration-eq, round),
      )

  covered-index :
      (time : ℕ)
      → start ≤ time
      → time < start + duration
      → (j : ℕ) × (j < duration / P) × (time / P * P ≡ start + j * P)
  covered-index time lo hi =
      let a = start / P in
      let k = duration / P in
      let q = time / P in
      let first = window-greatest P pos time a (omega (arith, start-eq)) in
      let last =
        window-least P pos time (a + k) (omega (arith, start-eq, duration-eq, add-mul a k P)) in
      let split : q ≡ a + (q - a) = omega arith in
      (
        q - a,
        omega arith,
        omega (arith, ap (λ (n : ℕ). n * P) split, add-mul a (q - a) P, start-eq),
      )

-- For a time-interval task and an interval that is aligned to the time precision and ends before
-- 2^64, the span is a set of buckets such that the bucket of a report at any time and shard is in it
-- exactly when the time lies in the interval and the shard is one of the task's.
pub batch_span-exact :
    (t : DapTaskConfig) (i : Interval) (time shard : ℕ)
    → t.query ≡ DapQueryConfig.time_interval
    → 0 < t.time_precision
    → i.start % t.time_precision ≡ 0
    → i.duration % t.time_precision ≡ 0
    → i.start + i.duration < u64_end
    → (span : List DapBatchBucket) × (bucket : DapBatchBucket) × (batch_span_for_sel t
          (BatchSelector.time_interval i)
        ≡ ok span)
      × (bucket_for t PartialBatchSelector.time_interval time shard ≡ ok bucket)
      × (In bucket span
          ↔ ((i.start ≤ time) × (time < i.start + i.duration) × (shard < t.num_agg_span_shards)))
unfolding batch_span_for_sel bucket_for
batch_span-exact t i time shard query pos aligned whole fits =
    let P = t.time_precision in
    let nonzero : (P == 0) ≡ false = ground arith in
    let k = i.duration / P in
    let small : (j : ℕ) → j < k → (i.start + j * P) % u64_end ≡ i.start + j * P = λ j lt.
      mod-eq_of_lt (
        omega (
          arith,
          duration-eq P i.start i.duration pos aligned whole,
          mul-le-mul_right P lt,
          fits,
        )) in
    (
      window_buckets t i.start 0 k,
      DapBatchBucket.time_interval (time / P * P) shard,
      rw (query, nonzero),
      rw (nonzero, window-eq P pos time),
      (
        λ h.
            let (j, lt, e, hs) = window_buckets_sound t i.start 0 k (time / P * P) shard h in
            let lt' : j < k = omega arith in
            let (lo, hi) =
              covered-lt P i.start i.duration pos aligned whole time j lt' (e ∙ small j lt') in
            (lo, hi, hs),
        λ h.
            let (j, lt, e) = covered-index P i.start i.duration pos aligned whole time h.0 h.1 in
            rw (e ∙ sym (small j lt))
              (window_buckets_complete t i.start 0 k j shard (omega arith) (omega arith) h.2),
      ),
    )
