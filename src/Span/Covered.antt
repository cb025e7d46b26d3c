-- ===== src/Span/Covered.antt =====
-- The span of a batch selector has the bucket of every report that matches the selector.
use native.Mathlib.Nat.{mod-lt}
use daphne.Common.{ℕ, ◌+◌, ◌%◌, ◌≤◌, ◌<◌, ◌≡◌, refl, true, List, In, arith}
use daphne.Codec.Base.{Bytes}
use daphne.Errors.{ok}
use daphne.Messages.Ids.{ReportId}
use daphne.Messages.Batch.{Interval, BatchSelector, part_batch_sel_of}
use daphne.Task.{
  DapTaskConfig, DapQueryConfig, DapBatchBucket, is_valid_batch_sel, batch_span_for_sel, bucket_for,
  shard_buckets, u64_end,
}
use daphne.Task.Span.{batch_span-exact, shard_buckets_complete}
use daphne.Span.{shard}

-- The intervals that a batch may have.
abbrev pub IsAligned : DapTaskConfig → BatchSelector → Type 0
IsAligned t (BatchSelector.time_interval i) =
    (0 < t.time_precision)
    × (i.start % t.time_precision ≡ 0)
    × (i.duration % t.time_precision ≡ 0)
    × (i.start + i.duration < u64_end)
IsAligned t (BatchSelector.fixed_size_by_batch_id batch_id) = Unit

-- The times of the reports that match a selector.
abbrev pub Matches : BatchSelector → ℕ → Type 0
Matches (BatchSelector.time_interval i) time = (i.start ≤ time) × (time < i.start + i.duration)
Matches (BatchSelector.fixed_size_by_batch_id batch_id) time = Unit

is_time_interval :
    (config : DapQueryConfig) (i : Interval)
    → is_valid_batch_sel config (BatchSelector.time_interval i) ≡ true
    → config ≡ DapQueryConfig.time_interval
unfolding is_valid_batch_sel
is_time_interval DapQueryConfig.time_interval i h = refl
is_time_interval (DapQueryConfig.fixed_size _) i h = cc

-- For a selector that fits the task, with an interval that is aligned to the time precision and ends
-- before 2^64 if it has one, a task with at least one shard, and a report whose time is in the
-- interval if there is one: the span of the selector is defined and has the bucket to which the
-- report is assigned, whatever the digest of its ID.
pub batch_span-covers :
    (t : DapTaskConfig) (sel : BatchSelector) (sha256 : Bytes → Bytes) (id : ReportId) (time : ℕ)
    → is_valid_batch_sel t.query sel ≡ true
    → IsAligned t sel
    → 0 < t.num_agg_span_shards
    → Matches sel time
    → (span : List DapBatchBucket) × (bucket : DapBatchBucket) × (batch_span_for_sel t sel
        ≡ ok span)
      × (bucket_for t (part_batch_sel_of sel) time (shard sha256 id t.num_agg_span_shards)
          ≡ ok bucket)
      × In bucket span
unfolding part_batch_sel_of shard batch_span_for_sel bucket_for
batch_span-covers t (BatchSelector.time_interval i) sha256 id time valid aligned some_shard inside =
    let number = shard sha256 id t.num_agg_span_shards in
    let (span, bucket, e, e', exact) =
      batch_span-exact t i time number (is_time_interval t.query i valid) aligned.0 aligned.1
        aligned.2 aligned.3 in
    (span, bucket, e, e', exact.1 (inside.0, inside.1, mod-lt _ some_shard))
batch_span-covers t (BatchSelector.fixed_size_by_batch_id batch_id) sha256 id time valid aligned
      some_shard inside =
    let number = shard sha256 id t.num_agg_span_shards in
    let below : number < t.num_agg_span_shards = mod-lt _ some_shard in
    (
      shard_buckets (DapBatchBucket.fixed_size batch_id) 0 t.num_agg_span_shards,
      DapBatchBucket.fixed_size batch_id number,
      rw valid,
      refl,
      shard_buckets_complete (DapBatchBucket.fixed_size batch_id) 0 t.num_agg_span_shards number
          (omega arith) (omega (arith, below)),
    )
