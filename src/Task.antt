-- ===== src/Task.antt =====
-- Task configurations, their queries and batch buckets (crates/daphne/src/lib.rs). `u64` arithmetic
-- wraps, as in a release build.
pub mod Time
pub mod Span
use daphne.Common.{
  ℕ, zero, suc, ◌+◌, ◌-◌, ◌*◌, ◌/◌, ◌%◌, ◌^◌, Bool, true, false, Option, none, some, List, [], ◌∷◌,
  ◌++◌, ◌==◌, ltb, leb, if◌then◌else◌,
}
use daphne.Codec.Base.{Bytes}
use daphne.Errors.{Outcome, ok, err, panic, fatal, abort, invalid_batch_size, ◌>>=◌}
use daphne.Messages.Ids.{BatchId}
use daphne.Messages.Hpke.{HpkeConfig}
use daphne.Messages.Batch.{Interval, PartialBatchSelector, BatchSelector}

abbrev pub u64_end : ℕ
u64_end = 2 ^ 64

pub data DapQueryConfig : Type 0 where
  time_interval : DapQueryConfig
  fixed_size : Option ℕ → DapQueryConfig

-- `VdafConfig` of crates/daphne/src/vdaf/mod.rs, without the parameters of each VDAF.
pub data VdafConfig : Type 0 where
  prio3 prio2 pine : VdafConfig

-- Every VDAF of the default build takes no aggregation parameter.
unfoldable pub is_valid_agg_param : VdafConfig → Bytes → Bool
is_valid_agg_param vdaf [] = true
is_valid_agg_param vdaf (b ∷ agg_param) = false

pub data DapVersion : Type 0 where
  draft09 latest : DapVersion

-- The fields of `DapGlobalConfig` that the code below reads.
pub record DapGlobalConfig : Type 0 where
  pub allow_taskprov : Bool
  pub max_batch_duration : ℕ
  pub min_batch_interval_start : ℕ
  pub max_batch_interval_end : ℕ

-- The fields of `DapTaskConfig` that the code below reads; `num_agg_span_shards` is not 0.
pub record DapTaskConfig : Type 0 where
  pub version : DapVersion
  pub time_precision : ℕ
  pub min_batch_size : ℕ
  pub query : DapQueryConfig
  pub not_before : ℕ
  pub not_after : ℕ
  pub method_is_taskprov : Bool
  pub vdaf : VdafConfig
  pub collector_hpke_config : HpkeConfig
  pub num_agg_span_shards : ℕ

pub data DapBatchBucket : Type 0 where
  fixed_size : BatchId → ℕ → DapBatchBucket
  time_interval : ℕ → ℕ → DapBatchBucket

unfoldable pub is_valid_part_batch_sel : DapQueryConfig → PartialBatchSelector → Bool
is_valid_part_batch_sel DapQueryConfig.time_interval PartialBatchSelector.time_interval = true
is_valid_part_batch_sel (DapQueryConfig.fixed_size _)
      (PartialBatchSelector.fixed_size_by_batch_id _) =
    true
is_valid_part_batch_sel _ _ = false

unfoldable pub is_valid_batch_sel : DapQueryConfig → BatchSelector → Bool
is_valid_batch_sel DapQueryConfig.time_interval (BatchSelector.time_interval _) = true
is_valid_batch_sel (DapQueryConfig.fixed_size _) (BatchSelector.fixed_size_by_batch_id _) = true
is_valid_batch_sel _ _ = false

-- `time % self.time_precision` panics at precision 0.
unfoldable pub quantized_time_lower_bound : DapTaskConfig → ℕ → Outcome ℕ
quantized_time_lower_bound t time =
    if t.time_precision == 0 then panic else ok (time - time % t.time_precision)

unfoldable pub quantized_time_upper_bound : DapTaskConfig → ℕ → Outcome ℕ
unfolding quantized_time_lower_bound
quantized_time_upper_bound t time = do
  lower ← quantized_time_lower_bound t time
  ok ((lower + t.time_precision) % u64_end)

-- `for shard in shard..shard + k`
unfoldable pub shard_buckets : (ℕ → DapBatchBucket) → ℕ → ℕ → List DapBatchBucket
shard_buckets bucket shard zero = []
shard_buckets bucket shard (suc k) = bucket shard ∷ shard_buckets bucket (suc shard) k

-- `for i in i..i + k`
window_buckets : DapTaskConfig → ℕ → ℕ → ℕ → List DapBatchBucket
unfolding shard_buckets
window_buckets t start i zero = []
window_buckets t start i (suc k) =
    shard_buckets (DapBatchBucket.time_interval ((start + i * t.time_precision) % u64_end)) 0
      t.num_agg_span_shards
    ++ window_buckets t start (suc i) k

span_of : DapTaskConfig → BatchSelector → Outcome (List DapBatchBucket)
unfolding window_buckets
span_of t (BatchSelector.time_interval i) =
    if t.time_precision == 0
    then panic
    else ok (window_buckets t i.start 0 (i.duration / t.time_precision))
span_of t (BatchSelector.fixed_size_by_batch_id batch_id) =
    ok (shard_buckets (DapBatchBucket.fixed_size batch_id) 0 t.num_agg_span_shards)

-- The set of buckets, in the order in which they are inserted. Memory for it is taken to suffice: a
-- `HashSet::with_capacity` beyond what can be allocated panics.
unfoldable pub batch_span_for_sel : DapTaskConfig → BatchSelector → Outcome (List DapBatchBucket)
unfolding span_of is_valid_batch_sel
batch_span_for_sel t sel = if is_valid_batch_sel t.query sel then span_of t sel else err fatal

-- The bucket of a report, as `add_out_share` computes it.
unfoldable pub bucket_for : DapTaskConfig → PartialBatchSelector → ℕ → ℕ → Outcome DapBatchBucket
unfolding quantized_time_lower_bound
bucket_for t PartialBatchSelector.time_interval time shard = do
  batch_window ← quantized_time_lower_bound t time
  ok (DapBatchBucket.time_interval batch_window shard)
bucket_for t (PartialBatchSelector.fixed_size_by_batch_id batch_id) time shard =
    ok (DapBatchBucket.fixed_size batch_id shard)

exceeds_max : DapQueryConfig → ℕ → Bool
exceeds_max (DapQueryConfig.fixed_size (some max_batch_size)) report_count =
    ltb max_batch_size report_count
exceeds_max (DapQueryConfig.fixed_size none) report_count = false
exceeds_max DapQueryConfig.time_interval report_count = false

unfoldable pub is_report_count_compatible : DapTaskConfig → ℕ → Outcome Bool
unfolding exceeds_max
is_report_count_compatible t report_count =
    if exceeds_max t.query report_count
    then err (abort invalid_batch_size)
    else ok (leb t.min_batch_size report_count)
