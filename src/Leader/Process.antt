-- ===== src/Leader/Process.antt =====
-- The Leader's processing loop (`process` in crates/daphne/src/roles/leader/mod.rs). The aggregation jobs
-- of a task are futures, which do nothing until they are joined, so they are kept as what they were
-- made from. The join (`try_join_all`, of the crate `futures`) and the order in which a `HashMap` is
-- iterated are parameters, and so are the methods of the deployment. The two jobs are those of
-- Leader/Run, for a task and its configuration.
pub mod Joined
use daphne.Common.{
  ℕ, ◌+◌, ◌%◌, Bool, true, false, Option, none, some, List, [], ◌∷◌, ◌++◌, map, ltb, length,
  if◌then◌else◌, lookup, insert,
}
use daphne.Errors.{Outcome, ok, err, panic}
use daphne.Messages.Ids.{TaskId, CollectionJobId}
use daphne.Messages.Batch.{PartialBatchSelector, BatchSelector}
use daphne.Messages.Report.{Report}
use daphne.Task.{DapTaskConfig, u64_end}
use daphne.Roles.Calls.{Call, ◌>>=◌, ◌>>◌, returns, lift, reads}
use daphne.Roles.Tasks.{or_unrecognized}
use daphne.Protocol.Init.{DapAggregationParam}
use daphne.Leader.Memory.{WorkItem, aggregation_job, collection_job}
use daphne.Leader.Memory.Keys.{bytes_key}

-- What a future of the loop has been made from.
pub record AggregationWork : Type 0 where
  pub task_id : TaskId
  pub part_batch_sel : PartialBatchSelector
  pub agg_param : DapAggregationParam
  pub reports : List Report

-- `HashMap<TaskId, Vec<_>>`
abbrev pub Waiting : Type 0
Waiting = List (TaskId × List AggregationWork)

-- `DapLeaderProcessTelemetry` of crates/daphne/src/lib.rs, in `u64`.
pub record DapLeaderProcessTelemetry : Type 0 where
  pub reports_collected : ℕ
  pub reports_aggregated : ℕ
  pub reports_processed : ℕ

-- The telemetry and the collection jobs that are still pending.
pub record Progress : Type 0 where
  pub telem : DapLeaderProcessTelemetry
  pub pending_coll_jobs : List WorkItem

pub record Worker (Store : Type 0) : Type 0 where
  pub get_task_config_for : TaskId → Store → Outcome (Option DapTaskConfig)
  pub run_agg_job :
      TaskId
      → DapTaskConfig
      → PartialBatchSelector
      → DapAggregationParam
      → List Report
      → Call Store ℕ
  pub run_coll_job :
      TaskId → DapTaskConfig → CollectionJobId → BatchSelector → DapAggregationParam → Call Store ℕ
  pub dequeue_work : ℕ → Call Store (List WorkItem)
  pub enqueue_work : List WorkItem → Call Store (Unit {0})
  pub try_join_all : List (Call Store ℕ) → Call Store (List ℕ)
  pub iteration_order : Waiting → Waiting

abbrev pub or_no_jobs : Option (List AggregationWork) → List AggregationWork
or_no_jobs none = []
or_no_jobs (some jobs) = jobs

-- `agg_jobs.entry(task_id).or_default().push(…)`
unfoldable pub push_job : AggregationWork → Waiting → Waiting
push_job work waiting =
    insert work.task_id (or_no_jobs (lookup work.task_id waiting) ++ (work ∷ [])) waiting

abbrev sum : List ℕ → ℕ
sum [] = 0
sum (n ∷ ns) = n + sum ns

unfoldable pub add_aggregated : List ℕ → Progress → Progress
add_aggregated counts progress = record {
  telem = record progress.telem {
    reports_aggregated = (progress.telem.reports_aggregated + sum counts) % u64_end;
  };
  pending_coll_jobs = progress.pending_coll_jobs;
}

unfoldable pub add_processed : List Report → Progress → Progress
add_processed reports progress = record {
  telem = record progress.telem {
    reports_processed = (progress.telem.reports_processed + length reports) % u64_end;
  };
  pending_coll_jobs = progress.pending_coll_jobs;
}

unfoldable pub add_collected : WorkItem → ℕ → Progress → Progress
add_collected item collected progress =
    if ltb 0 collected
    then record {
      telem = record progress.telem {
        reports_collected = (progress.telem.reports_collected + collected) % u64_end;
      };
      pending_coll_jobs = progress.pending_coll_jobs;
    }
    else record {
      telem = progress.telem;
      pending_coll_jobs = progress.pending_coll_jobs ++ (item ∷ []);
    }

-- `drain`, of the jobs of the task if it has any.
unfoldable pub drained : TaskId → Option (List AggregationWork) → Waiting → Waiting
drained task_id none waiting = waiting
drained task_id (some jobs) waiting = insert task_id [] waiting

module _ {Store : Type 0} (w : Worker Store) where
  unless_empty : DapTaskConfig → AggregationWork → List Report → Call Store ℕ
  unless_empty t work [] = returns 0
  unless_empty t work (report ∷ reports) =
      w.run_agg_job work.task_id t work.part_batch_sel work.agg_param (report ∷ reports)

  -- The body of a future.
  unfoldable pub agg_future : AggregationWork → Call Store ℕ
  unfolding unless_empty
  agg_future work = do
    found ← reads (w.get_task_config_for work.task_id)
    t ← lift (or_unrecognized found)
    unless_empty t work work.reports

  -- Before the `rest` of the loop: the jobs are joined, if the task has any.
  unfoldable pub join_jobs :
      Option (List AggregationWork)
      → (Progress → Call Store Progress)
      → Progress
      → Call Store Progress
  join_jobs none rest progress = rest progress
  join_jobs (some jobs) rest progress = do
    counts ← w.try_join_all (map agg_future jobs)
    rest (add_aggregated counts progress)

  unfoldable pub collect_job :
      TaskId
      → CollectionJobId
      → BatchSelector
      → DapAggregationParam
      → (Progress → Call Store Progress)
      → Progress
      → Call Store Progress
  unfolding add_collected
  collect_job task_id coll_job_id batch_sel agg_param rest progress = do
    found ← reads (w.get_task_config_for task_id)
    t ← lift (or_unrecognized found)
    collected ← w.run_coll_job task_id t coll_job_id batch_sel agg_param
    rest (add_collected (collection_job task_id coll_job_id batch_sel agg_param) collected progress)

  -- The jobs that are left behind the work items.
  unfoldable pub join_rest : Waiting → Progress → Call Store Progress
  unfolding join_jobs
  join_rest [] progress = returns progress
  join_rest ((task_id, jobs) ∷ waiting) progress =
      join_jobs (some jobs) (join_rest waiting) progress

  unfoldable pub process_items : List WorkItem → Waiting → Progress → Call Store Progress
  unfolding join_jobs collect_job drained join_rest push_job add_processed
  process_items [] waiting progress = join_rest (w.iteration_order waiting) progress
  process_items (aggregation_job task_id part_batch_sel agg_param reports ∷ items) waiting
        progress =
      process_items items
        (push_job
          (record {
            task_id = task_id;
            part_batch_sel = part_batch_sel;
            agg_param = agg_param;
            reports = reports;
          })
          waiting)
        (add_processed reports progress)
  process_items (collection_job task_id coll_job_id batch_sel agg_param ∷ items) waiting progress =
      let jobs = lookup task_id waiting in
      join_jobs jobs
        (collect_job task_id coll_job_id batch_sel agg_param
          (process_items items (drained task_id jobs waiting)))
        progress

  unfoldable pub process : ℕ → Call Store DapLeaderProcessTelemetry
  unfolding process_items
  process num_items = do
    items ← w.dequeue_work num_items
    progress ← process_items items [] (record {
      telem = record { reports_collected = 0; reports_aggregated = 0; reports_processed = 0 };
      pending_coll_jobs = [];
    })
    w.enqueue_work progress.pending_coll_jobs
    returns progress.telem
