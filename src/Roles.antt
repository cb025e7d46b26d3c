-- ===== src/Roles.antt =====
-- The check of a queried batch (`check_batch` in crates/daphne/src/roles/mod.rs). The batches that
-- an Aggregator keeps are behind the trait `DapAggregator`, a parameter here.
pub mod CheckBatch
pub mod Calls
pub mod Tasks
pub mod Checks
use daphne.Common.{
  ℕ, ◌+◌, ◌-◌, ◌%◌, Bool, true, false, not, ◌||◌, Option, none, some, ◌==◌, ltb, if◌then◌else◌,
}
use daphne.Codec.Base.{Bytes}
use daphne.Errors.{
  Outcome, ok, err, panic, abort, bad_request, batch_invalid, batch_overlap, query_mismatch,
  invalid_message, ◌>>=◌, ◌>>◌,
}
use daphne.Messages.Ids.{TaskId, BatchId}
use daphne.Messages.Batch.{Interval, BatchSelector, Query, into_batch_sel}
use daphne.Task.{DapTaskConfig, DapGlobalConfig, DapQueryConfig, is_valid_agg_param, u64_end}

-- The methods of `DapAggregator` that `check_batch` calls.
pub record DapAggregator : Type 0 where
  pub batch_exists : TaskId → BatchId → Outcome Bool
  pub is_batch_overlapping : TaskId → BatchSelector → Outcome Bool

abbrev pub abs_diff : ℕ → ℕ → ℕ
abs_diff a b = (a - b) + (b - a)

-- `Interval::end`
unfoldable pub interval_end : Interval → ℕ
interval_end i = (i.start + i.duration) % u64_end

module _ (agg : DapAggregator) (t : DapTaskConfig) (g : DapGlobalConfig) (task_id : TaskId) where
  -- `%` panics at precision 0.
  unfoldable pub check_interval : Interval → ℕ → Outcome (Unit {0})
  unfolding interval_end
  check_interval i now =
      if t.time_precision == 0
      then panic
      else if not (i.start % t.time_precision == 0)
          || (not (i.duration % t.time_precision == 0) || ltb i.duration t.time_precision)
      then err (abort batch_invalid)
      else if ltb g.max_batch_duration i.duration
      then err (abort bad_request)
      else if ltb g.min_batch_interval_start (abs_diff now i.start)
      then err (abort bad_request)
      else if ltb g.max_batch_interval_end (abs_diff now (interval_end i))
      then err (abort bad_request)
      else ok tt

  unfoldable pub check_boundaries : DapQueryConfig → Query → ℕ → Outcome (Unit {0})
  unfolding check_interval
  check_boundaries DapQueryConfig.time_interval (Query.time_interval i) now = check_interval i now
  check_boundaries (DapQueryConfig.fixed_size _) Query.fixed_size_current_batch now = ok tt
  check_boundaries (DapQueryConfig.fixed_size _) (Query.fixed_size_by_batch_id batch_id) now = do
    exists ← agg.batch_exists task_id batch_id
    if exists then ok tt else err (abort batch_invalid)
  check_boundaries _ _ now = err (abort query_mismatch)

  unfoldable pub check_overlap : Option BatchSelector → Outcome (Unit {0})
  check_overlap none = ok tt
  check_overlap (some batch_sel) = do
    overlapping ← agg.is_batch_overlapping task_id batch_sel
    if overlapping then err (abort batch_overlap) else ok tt

  unfoldable pub check_batch : Query → Bytes → ℕ → Outcome (Unit {0})
  unfolding check_boundaries check_overlap
  check_batch query agg_param now =
      if is_valid_agg_param t.vdaf agg_param
      then check_boundaries t.query query now >> check_overlap (into_batch_sel query)
      else err (abort invalid_message)
