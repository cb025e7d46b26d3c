-- ===== src/Tests/Memory.antt =====
-- The theorems about the Leader's state in memory at concrete calls. Here the digest of a string is
-- the string, and the URL of a collection job is its ID.
use daphne.Common.{
  ℕ, ◌+◌, ◌≡◌, ◌⊎◌, ◌≤◌, refl, Bool, true, List, [], ◌∷◌, replicate, arith, count, none, some, inl,
}
use daphne.Codec.Base.{Bytes}
use daphne.Errors.{Outcome, ok, err, abort, unrecognized_task}
use daphne.Messages.Ids.{TaskId, BatchId, CollectionJobId}
use daphne.Messages.Batch.{BatchSelector, Interval}
use daphne.Messages.Report.{Report, HpkeCiphertext}
use daphne.Messages.Collection.{Collection}
use daphne.Task.{DapTaskConfig, DapQueryConfig}
use daphne.Protocol.Init.{DapAggregationParam}
use daphne.Leader.Memory.{
  InMemoryLeaderState, task_of, put_report, dequeue_work, init_collect_job, poll_collect_job,
  finish_collect_job, delete_all,
}
use daphne.Leader.Memory.Jobs as Jobs
use daphne.Leader.Memory.Jobs.{Advances, poll_collect_job-Advances}
use daphne.Leader.Memory.Batches as Batches
use daphne.Leader.Memory.Batches.{IsFilled, batch_queue-IsFilled}
use daphne.Leader.Memory.Queued.{QueuedBefore, put_report-QueuedBefore}
use daphne.Leader.Memory.Conserved as Conserved
use daphne.Leader.Memory.Conserved.{stored, stored_in, in_items, reports_conserved}
use daphne.Tests.Protocol.{at_noon, by_time}
use daphne.Tests.Task.{hourly}

abbrev pub same_bytes : Bytes → Bytes
same_bytes = λ bytes. bytes

abbrev pub url_of : DapTaskConfig → TaskId → CollectionJobId → Outcome Bytes
url_of = λ t task_id coll_job_id. ok coll_job_id

abbrev pub id : TaskId
id = replicate 32 9

abbrev pub job_id : CollectionJobId
job_id = replicate 16 5

abbrev pub batch_id : BatchId
batch_id = replicate 32 4

abbrev no_param : DapAggregationParam
no_param = DapAggregationParam.empty

abbrev ciphertext : HpkeCiphertext
ciphertext = record { config_id = 1; enc = []; payload = [] }

abbrev pub noon_report : Report
noon_report = record {
  report_metadata = at_noon;
  public_share = 6 ∷ [];
  leader_share = ciphertext;
  helper_share = ciphertext;
}

abbrev pub day : Interval
day = record { start = 0; duration = 86400 }

abbrev pub nothing : InMemoryLeaderState
nothing = record { work_queue = []; per_task = [] }

abbrev one_report : InMemoryLeaderState
one_report = (put_report same_bytes id hourly batch_id noon_report nothing).1

abbrev one_job : InMemoryLeaderState
one_job =
    (init_collect_job url_of id hourly job_id (BatchSelector.time_interval day) no_param
      one_report).1

abbrev no_sums : Collection
no_sums = record {
  part_batch_sel = by_time;
  report_count = 1;
  interval = day;
  leader_agg_share = ciphertext;
  helper_agg_share = ciphertext;
}

abbrev finished : InMemoryLeaderState
finished = (finish_collect_job id job_id no_sums (dequeue_work 5 one_job).1).1

poll_collect_job-Advances_example :
    Advances (poll_collect_job id job_id one_job) (poll_collect_job id job_id finished)
    × ((one_job ≡ one_job) ⊎ (poll_collect_job id job_id one_job ≡ err (abort unrecognized_task)))
poll_collect_job-Advances_example =
    poll_collect_job-Advances url_of same_bytes id job_id one_job one_job finished
      (Jobs.next (Jobs.next Jobs.here (Jobs.dequeues 5)) (Jobs.finishes id job_id no_sums))

abbrev always : Report → Bool
always = λ report. true

-- One report is deleted with the state, and one is handed out.
reports_conserved_example :
    stored always nothing + count always (noon_report ∷ noon_report ∷ []) + in_items always []
    ≡ stored always finished
      + in_items always (dequeue_work 5 one_job).0
      + stored_in always (one_report ∷ [])
unfolding dequeue_work put_report init_collect_job delete_all daphne.Common.lookup
    daphne.Common.insert daphne.Span.bytes_eq daphne.Task.batch_span_for_sel daphne.Span.bucket_eq
    daphne.Common.remove
reports_conserved_example =
    reports_conserved url_of same_bytes always nothing (noon_report ∷ noon_report ∷ []) []
      (dequeue_work 5 one_job).0 (one_report ∷ []) finished
      (Conserved.finishes id job_id no_sums (
        Conserved.dequeues 5 (
          Conserved.inits id hourly job_id (BatchSelector.time_interval day) no_param (
            Conserved.puts id hourly batch_id noon_report
              (Conserved.deletes_all
                (Conserved.puts id hourly batch_id noon_report Conserved.start refl))
              refl))))

abbrev pairs : DapTaskConfig
pairs = record hourly { min_batch_size = 2; query = DapQueryConfig.fixed_size none }

abbrev three_reports : InMemoryLeaderState
three_reports =
    (put_report same_bytes id pairs (replicate 32 6) noon_report
      (put_report same_bytes id pairs (replicate 32 5) noon_report
        (put_report same_bytes id pairs (replicate 32 4) noon_report nothing).1).1).1

batch_queue-IsFilled_example : IsFilled 2 (task_of id three_reports).batch_queue
batch_queue-IsFilled_example =
    batch_queue-IsFilled url_of same_bytes (λ task_id. pairs) three_reports id
      (Batches.puts id (replicate 32 6) noon_report (
        Batches.puts id (replicate 32 5) noon_report
          (Batches.puts id (replicate 32 4) noon_report Batches.empty)))

put_report-QueuedBefore_example :
    QueuedBefore id (BatchSelector.time_interval day) no_param job_id noon_report one_job.work_queue
unfolding init_collect_job put_report daphne.Common.lookup daphne.Common.insert daphne.Span.bytes_eq
    daphne.Task.batch_span_for_sel
put_report-QueuedBefore_example =
    put_report-QueuedBefore url_of same_bytes id hourly batch_id noon_report job_id day no_param
      nothing job_id refl (omega arith) (omega arith) refl refl (omega arith) (omega arith)
      (omega arith) refl
