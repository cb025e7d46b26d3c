-- ===== src/Tests/Process.antt =====
-- The theorem about the Leader's processing loop at concrete work items. The storage counts the
-- collection jobs that have been run.
use daphne.Common.{ℕ, suc, ◌≡◌, false, Option, some, List, [], ◌∷◌, ◌++◌, lookup, map, replicate}
use daphne.Errors.{ok}
use daphne.Messages.Ids.{TaskId}
use daphne.Messages.Batch.{BatchSelector}
use daphne.Span.{bytes_eq}
use daphne.Roles.Calls.{Call}
use daphne.Protocol.Init.{DapAggregationParam}
use daphne.Leader.Memory.{WorkItem, collection_job}
use daphne.Leader.Memory.Keys.{bytes_key}
use daphne.Leader.Process.{
  AggregationWork, Waiting, Progress, Worker, or_no_jobs, join_jobs, collect_job, process_items,
}
use daphne.Leader.Process.Joined.{item_of, jobs_of, all_processed, process_items-joined}
use daphne.Tests.Protocol.{by_time}
use daphne.Tests.Task.{hourly, two_hours}
use daphne.Tests.Memory.{id, job_id, noon_report}

abbrev one_by_one : List (Call ℕ ℕ) → Call ℕ (List ℕ)
one_by_one = λ jobs s. (ok (map (λ job. 1) jobs), s)

abbrev worker : Worker ℕ
worker = record {
  get_task_config_for = λ task_id s. ok (some hourly);
  run_agg_job = λ task_id t part_batch_sel agg_param reports s. (ok 1, s);
  run_coll_job = λ task_id t coll_job_id batch_sel agg_param s. (ok 2, suc s);
  dequeue_work = λ num_items s. (ok [], s);
  enqueue_work = λ items s. (ok tt, s);
  try_join_all = one_by_one;
  iteration_order = λ waiting. waiting;
}

abbrev work_for : TaskId → AggregationWork
work_for task_id = record {
  task_id = task_id;
  part_batch_sel = by_time;
  agg_param = DapAggregationParam.empty;
  reports = noon_report ∷ [];
}

abbrev works : List AggregationWork
works = work_for id ∷ work_for (replicate 32 8) ∷ work_for id ∷ []

abbrev collect : WorkItem
collect = collection_job id job_id (BatchSelector.time_interval two_hours) DapAggregationParam.empty

abbrev at_start : Progress
at_start = record {
  telem = record { reports_collected = 0; reports_aggregated = 0; reports_processed = 0 };
  pending_coll_jobs = [];
}

process_items-joined_example :
    (jobs : Option (List AggregationWork)) × (after : Waiting) × (or_no_jobs jobs
      ≡ or_no_jobs (lookup id []) ++ jobs_of id works)
    × (or_no_jobs (lookup id after) ≡ [])
    × ((other : TaskId)
        → bytes_eq id other ≡ false
        → or_no_jobs (lookup other after) ≡ or_no_jobs (lookup other []) ++ jobs_of other works)
    × (process_items worker (map item_of works ++ (collect ∷ [])) [] at_start
        ≡ join_jobs worker jobs
            (collect_job worker id job_id
              (BatchSelector.time_interval two_hours)
              DapAggregationParam.empty
              (process_items worker [] after))
            (all_processed works at_start))
process_items-joined_example =
    process_items-joined worker works id job_id (BatchSelector.time_interval two_hours)
      DapAggregationParam.empty [] [] at_start
