-- ===== src/Tests/Roles.antt =====
-- The theorems about `check_batch` at a concrete query.
use daphne.Common.{◌+◌, ◌≡◌, ◌↔◌, ◌≤◌, ◌<◌, refl, List, [], In, true, false, arith}
use daphne.Codec.Base.{Bytes}
use daphne.Errors.{ok}
use daphne.Messages.Batch.{PartialBatchSelector, BatchSelector, Query, into_batch_sel}
use daphne.Task.{
  DapGlobalConfig, DapQueryConfig, DapBatchBucket, batch_span_for_sel, bucket_for,
  is_valid_agg_param,
}
use daphne.Roles.{DapAggregator, check_batch}
use daphne.Roles.CheckBatch.{IsAcceptable, NoOverlap, check_batch_iff, check_batch-span}
use daphne.Tests.Task.{hourly, two_hours}

abbrev no_param : Bytes
no_param = []

abbrev pub nothing_collected : DapAggregator
nothing_collected = record {
  batch_exists = λ task_id batch_id. ok true;
  is_batch_overlapping = λ task_id batch_sel. ok false;
}

abbrev pub global : DapGlobalConfig
global = record {
  allow_taskprov = false;
  max_batch_duration = 86400;
  min_batch_interval_start = 20000;
  max_batch_interval_end = 20000;
}

check_batch_iff_example :
    (check_batch nothing_collected hourly global [] (Query.time_interval two_hours) no_param 9000
      ≡ ok tt)
    ↔ ((no_param ≡ [])
        × IsAcceptable nothing_collected hourly global [] hourly.query
            (Query.time_interval two_hours)
            9000
        × NoOverlap nothing_collected hourly global []
            (into_batch_sel (Query.time_interval two_hours)))
check_batch_iff_example =
    check_batch_iff nothing_collected hourly global [] (Query.time_interval two_hours) no_param 9000

two_hours_accepted :
    check_batch nothing_collected hourly global [] (Query.time_interval two_hours) no_param 9000
    ≡ ok tt
unfolding check_batch is_valid_agg_param into_batch_sel
two_hours_accepted = refl

check_batch-span_example :
    (hourly.query ≡ DapQueryConfig.time_interval)
    × (0 < 7200)
    × (nothing_collected.is_batch_overlapping [] (BatchSelector.time_interval two_hours) ≡ ok false)
    × ((span : List DapBatchBucket) × (bucket : DapBatchBucket) × (batch_span_for_sel hourly
            (BatchSelector.time_interval two_hours)
          ≡ ok span)
        × (bucket_for hourly PartialBatchSelector.time_interval 10000 1 ≡ ok bucket)
        × (In bucket span ↔ ((7200 ≤ 10000) × (10000 < 7200 + 7200) × (1 < 2))))
check_batch-span_example =
    check_batch-span nothing_collected hourly global [] two_hours no_param 9000 10000 1
      (omega arith) two_hours_accepted
