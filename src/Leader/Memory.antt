-- ===== src/Leader/Memory.antt =====
-- The Leader's state in memory (`InMemoryLeaderState` in
-- crates/daphne/src/roles/leader/in_memory_leader.rs). The join of a path to the Leader's URL, of the
-- crate `url`, is a parameter, and so is the batch ID that the random-number generator gives. A call
-- takes the state and returns the next one. After a panic the lock of the state is poisoned and no
-- call reads it again.
pub mod Keys
pub mod Jobs
pub mod Queued
pub mod Batches
pub mod Conserved
use daphne.Common.{
  ℕ, ◌+◌, Bool, true, false, not, Option, none, some, List, [], ◌∷◌, ◌++◌, ltb, if◌then◌else◌, take,
  drop, lookup, insert, remove, MapKey,
}
use daphne.Codec.Base.{Bytes}
use daphne.Errors.{Outcome, ok, err, panic, fatal, abort, bad_request, unrecognized_task, ◌>>=◌}
use daphne.Messages.Ids.{TaskId, BatchId, CollectionJobId}
use daphne.Messages.Batch.{PartialBatchSelector, BatchSelector, part_batch_sel_of}
use daphne.Messages.Report.{Report}
use daphne.Messages.Collection.{Collection}
use daphne.Task.{
  DapTaskConfig, DapQueryConfig, DapBatchBucket, quantized_time_lower_bound, batch_span_for_sel,
}
use daphne.Span.{bytes_eq, shard}
use daphne.Protocol.Init.{DapAggregationParam}
use Keys.{bytes_key, bucket_key}

-- `DapCollectionJob` of crates/daphne/src/lib.rs.
pub data DapCollectionJob : Type 0 where
  done : Collection → DapCollectionJob
  pending unknown : DapCollectionJob

-- `WorkItem` of crates/daphne/src/roles/leader/mod.rs.
pub data WorkItem : Type 0 where
  aggregation_job : TaskId → PartialBatchSelector → DapAggregationParam → List Report → WorkItem
  collection_job : TaskId → CollectionJobId → BatchSelector → DapAggregationParam → WorkItem

abbrev pub BatchQueue : Type 0
BatchQueue = List (BatchId × ℕ)

pub record MockLeaderMemoryPerTask : Type 0 where
  pub pending_reports : List (DapBatchBucket × List Report)
  pub coll_jobs : List (CollectionJobId × DapCollectionJob)
  pub batch_queue : BatchQueue

pub record InMemoryLeaderState : Type 0 where
  pub work_queue : List WorkItem
  pub per_task : List (TaskId × MockLeaderMemoryPerTask)

abbrev pub or_new : Option MockLeaderMemoryPerTask → MockLeaderMemoryPerTask
or_new none = record { pending_reports = []; coll_jobs = []; batch_queue = [] }
or_new (some m) = m

abbrev pub or_empty : Option (List Report) → List Report
or_empty none = []
or_empty (some reports) = reports

-- `self.per_task.entry(*task_id).or_default()`
abbrev pub task_of : TaskId → InMemoryLeaderState → MockLeaderMemoryPerTask
task_of task_id s = or_new (lookup task_id s.per_task)

abbrev pub with_task : TaskId → MockLeaderMemoryPerTask → InMemoryLeaderState → InMemoryLeaderState
with_task task_id m s = record { work_queue = s.work_queue; per_task = insert task_id m s.per_task }

abbrev keep_entry : BatchId × ℕ → BatchId × BatchQueue → BatchId × BatchQueue
keep_entry entry (batch_id, queue) = (batch_id, entry ∷ queue)

-- The first unsaturated batch, or a new one. The count stays below the minimum batch size, a `u64`.
unfoldable pub assign_batch : ℕ → BatchId → BatchQueue → BatchId × BatchQueue
assign_batch min_batch_size fresh [] = (fresh, (fresh, 1) ∷ [])
assign_batch min_batch_size fresh ((batch_id, report_count) ∷ queue) =
    let rest = assign_batch min_batch_size fresh queue in
    if ltb report_count min_batch_size
    then (batch_id, (batch_id, report_count + 1) ∷ queue)
    else keep_entry (batch_id, report_count) rest

module _ (sha256 : Bytes → Bytes) where
  assign_for :
      DapQueryConfig
      → DapTaskConfig
      → BatchId
      → Report
      → BatchQueue
      → Outcome (DapBatchBucket × BatchQueue)
  unfolding assign_batch shard quantized_time_lower_bound
  assign_for (DapQueryConfig.fixed_size _) t fresh report queue =
      let assigned = assign_batch t.min_batch_size fresh queue in
      ok (
        DapBatchBucket.fixed_size assigned.0 (shard sha256 report.report_metadata.id 1),
        assigned.1,
      )
  assign_for DapQueryConfig.time_interval t fresh report queue = do
    batch_window ← quantized_time_lower_bound t report.report_metadata.time
    ok (DapBatchBucket.time_interval batch_window (shard sha256 report.report_metadata.id 1), queue)

  unfoldable pub assign_report_to_bucket :
      DapTaskConfig → BatchId → Report → BatchQueue → Outcome (DapBatchBucket × BatchQueue)
  unfolding assign_for
  assign_report_to_bucket t fresh report queue = assign_for t.query t fresh report queue

  put_in :
      TaskId
      → Report
      → InMemoryLeaderState
      → Outcome (DapBatchBucket × BatchQueue)
      → Outcome (Unit {0}) × InMemoryLeaderState
  put_in task_id report s (ok (bucket, queue)) =
      let m = task_of task_id s in
      let reports = or_empty (lookup bucket m.pending_reports) ++ (report ∷ []) in
      (
        ok tt,
        with_task task_id
            (record m {
              pending_reports = insert bucket reports m.pending_reports;
              batch_queue = queue;
            })
            s,
      )
  put_in task_id report s (err e) = (err e, s)
  put_in task_id report s panic = (panic, s)

  unfoldable pub put_report :
      TaskId
      → DapTaskConfig
      → BatchId
      → Report
      → InMemoryLeaderState
      → Outcome (Unit {0}) × InMemoryLeaderState
  unfolding put_in assign_report_to_bucket
  put_report task_id t fresh report s =
      put_in task_id report s
        (assign_report_to_bucket t fresh report (task_of task_id s).batch_queue)

front_of : BatchQueue → Outcome BatchId
front_of [] = err (abort bad_request)
front_of ((batch_id, report_count) ∷ queue) = ok batch_id

current_of : DapQueryConfig → Option MockLeaderMemoryPerTask → Outcome BatchId
unfolding front_of
current_of DapQueryConfig.time_interval m = err (abort bad_request)
current_of (DapQueryConfig.fixed_size _) none = err (abort unrecognized_task)
current_of (DapQueryConfig.fixed_size _) (some m) = front_of m.batch_queue

unfoldable pub current_batch : TaskId → DapTaskConfig → InMemoryLeaderState → Outcome BatchId
unfolding current_of
current_batch task_id t s = current_of t.query (lookup task_id s.per_task)

unfoldable pub enqueue_work : List WorkItem → InMemoryLeaderState → InMemoryLeaderState
enqueue_work items s = record { work_queue = s.work_queue ++ items; per_task = s.per_task }

unfoldable pub dequeue_work : ℕ → InMemoryLeaderState → List WorkItem × InMemoryLeaderState
dequeue_work num_items s = (
  take num_items s.work_queue,
  record { work_queue = drop num_items s.work_queue; per_task = s.per_task },
)

-- `batch_queue.retain(…)`
unfoldable pub retain_others : BatchId → BatchQueue → BatchQueue
retain_others batch_id [] = []
retain_others batch_id ((queued, report_count) ∷ queue) =
    let rest = retain_others batch_id queue in
    if bytes_eq batch_id queued then rest else (queued, report_count) ∷ rest

leave_batch : DapBatchBucket → BatchQueue → BatchQueue
unfolding retain_others
leave_batch (DapBatchBucket.fixed_size batch_id _) queue = retain_others batch_id queue
leave_batch (DapBatchBucket.time_interval _ _) queue = queue

module _ (task_id : TaskId) (batch_sel : BatchSelector) (agg_param : DapAggregationParam) where
  job_for : Option (List Report) → List WorkItem
  job_for none = []
  job_for (some reports) =
      aggregation_job task_id (part_batch_sel_of batch_sel) agg_param reports ∷ []

  -- The loop over the buckets of the batch: what it appends to the work queue, and the state of the
  -- task behind it.
  unfoldable pub queue_buckets :
      List DapBatchBucket → MockLeaderMemoryPerTask → List WorkItem × MockLeaderMemoryPerTask
  unfolding job_for leave_batch
  queue_buckets [] m = ([], m)
  queue_buckets (bucket ∷ buckets) m =
      let r = queue_buckets buckets (record m {
        pending_reports = remove bucket m.pending_reports;
        batch_queue = leave_batch bucket m.batch_queue;
      }) in
      (job_for (lookup bucket m.pending_reports) ++ r.0, r.1)

module _ {Url : Type 0} (leader_url_join : DapTaskConfig → TaskId → CollectionJobId → Outcome Url)
    (task_id : TaskId) (t : DapTaskConfig) (coll_job_id : CollectionJobId)
    (batch_sel : BatchSelector) (agg_param : DapAggregationParam) where
  -- With the job stored as pending.
  fill_queue :
      Url
      → MockLeaderMemoryPerTask
      → InMemoryLeaderState
      → Outcome (List DapBatchBucket)
      → Outcome Url × InMemoryLeaderState
  unfolding queue_buckets
  fill_queue uri m s (ok buckets) =
      let r = queue_buckets task_id batch_sel agg_param buckets m in
      (
        ok uri,
        record {
          work_queue =
              s.work_queue
              ++ (r.0 ++ (collection_job task_id coll_job_id batch_sel agg_param ∷ []));
          per_task = insert task_id r.1 s.per_task;
        },
      )
  fill_queue uri m s (err e) = (err e, with_task task_id m s)
  fill_queue uri m s panic = (panic, with_task task_id m s)

  store_job :
      Url → InMemoryLeaderState → Option DapCollectionJob → Outcome Url × InMemoryLeaderState
  unfolding fill_queue
  store_job uri s (some job) = (err (abort bad_request), with_task task_id (task_of task_id s) s)
  store_job uri s none =
      let m = task_of task_id s in
      fill_queue uri (record m { coll_jobs = insert coll_job_id pending m.coll_jobs }) s
        (batch_span_for_sel t batch_sel)

  with_uri : InMemoryLeaderState → Outcome Url → Outcome Url × InMemoryLeaderState
  unfolding store_job
  with_uri s (ok uri) = store_job uri s (lookup coll_job_id (task_of task_id s).coll_jobs)
  with_uri s (err e) = (err e, with_task task_id (task_of task_id s) s)
  with_uri s panic = (panic, with_task task_id (task_of task_id s) s)

  unfoldable pub init_collect_job : InMemoryLeaderState → Outcome Url × InMemoryLeaderState
  unfolding with_uri
  init_collect_job s = with_uri s (leader_url_join t task_id coll_job_id)

abbrev pub or_unknown : Option DapCollectionJob → DapCollectionJob
or_unknown none = unknown
or_unknown (some job) = job

poll_in : CollectionJobId → Option MockLeaderMemoryPerTask → Outcome DapCollectionJob
poll_in coll_job_id none = err (abort unrecognized_task)
poll_in coll_job_id (some m) = ok (or_unknown (lookup coll_job_id m.coll_jobs))

unfoldable pub poll_collect_job :
    TaskId → CollectionJobId → InMemoryLeaderState → Outcome DapCollectionJob
unfolding poll_in
poll_collect_job task_id coll_job_id s = poll_in coll_job_id (lookup task_id s.per_task)

module _ (task_id : TaskId) (coll_job_id : CollectionJobId) (collection : Collection)
    (s : InMemoryLeaderState) where
  finish_job :
      MockLeaderMemoryPerTask → Option DapCollectionJob → Outcome (Unit {0}) × InMemoryLeaderState
  finish_job m (some pending) = (
    ok tt,
    with_task task_id (record m { coll_jobs = insert coll_job_id (done collection) m.coll_jobs }) s,
  )
  finish_job m (some (done _)) = (err fatal, s)
  finish_job m (some unknown) = (err fatal, s)
  finish_job m none = (err fatal, s)

  finish_in : Option MockLeaderMemoryPerTask → Outcome (Unit {0}) × InMemoryLeaderState
  unfolding finish_job
  finish_in none = (err fatal, s)
  finish_in (some m) = finish_job m (lookup coll_job_id m.coll_jobs)

  unfoldable pub finish_collect_job : Outcome (Unit {0}) × InMemoryLeaderState
  unfolding finish_in
  finish_collect_job = finish_in (lookup task_id s.per_task)

is_queued : BatchId → BatchQueue → Bool
is_queued batch_id [] = false
is_queued batch_id ((queued, report_count) ∷ queue) =
    if bytes_eq queued batch_id then true else is_queued batch_id queue

abbrev is_some : Option Bool → Bool
is_some none = false
is_some (some b) = true

queued_in : BatchId → Option MockLeaderMemoryPerTask → Option Bool
unfolding is_queued
queued_in batch_id none = none
queued_in batch_id (some m) = some (is_queued batch_id m.batch_queue)

-- `.map(…).is_some()`
unfoldable pub contains_queued_task_of_batch : TaskId → BatchId → InMemoryLeaderState → Bool
unfolding queued_in
contains_queued_task_of_batch task_id batch_id s =
    is_some (queued_in batch_id (lookup task_id s.per_task))

unfoldable pub delete_all : InMemoryLeaderState → InMemoryLeaderState
delete_all s = record { work_queue = []; per_task = [] }
