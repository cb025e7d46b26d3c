-- ===== src/Helper.antt =====
-- The Helper (crates/daphne/src/roles/helper.rs). The aggregate storage of the deployment, behind the
-- trait `DapAggregator` (crates/daphne/src/roles/aggregator.rs), is a parameter; its calls take the
-- state of the storage and return the next one. Metrics, the audit log, taskprov, authorization
-- and the HTTP layer around the calls below are left out.
pub mod Committed
pub mod Rounds
pub mod Answers
pub mod AggShare
use daphne.Common.{ℕ, zero, suc, Bool, true, false, List, [], ◌∷◌, ◌++◌, map, if◌then◌else◌}
use daphne.Codec.Base.{Bytes}
use daphne.Codec.Prio.{Prio}
use daphne.Errors.{Outcome, ok, err, panic, DapError, abort, bad_request, query_mismatch, DapAbort}
use daphne.Messages.Ids.{TaskId, ReportId}
use daphne.Messages.Batch.{PartialBatchSelector}
use daphne.Messages.Aggregation.{
  TransitionFailure, report_replayed, batch_collected, AggregationJobResp,
}
use daphne.Task.{DapTaskConfig, DapBatchBucket, is_valid_part_batch_sel, is_valid_agg_param}
use daphne.Share.{Crypto}
use daphne.Span.{DapAggregateSpan}
use daphne.Protocol.Vdaf.{Vdaf}
use daphne.Protocol.Report.{EarlyReportStateInitialized}
use daphne.Protocol.Job.{
  ReportProcessedStatus, aggregated, rejected, ReportStatus, produce_agg_job_resp,
}

pub data MergeAggShareError : Type 0 where
  already_collected : MergeAggShareError
  replays_detected : List ReportId → MergeAggShareError
  other : DapError → MergeAggShareError

-- `Result<(), MergeAggShareError>`
pub data MergeResult : Type 0 where
  merged : MergeResult
  refused : MergeAggShareError → MergeResult

-- The results of the buckets with the IDs and times of their reports, in the order of the iteration.
abbrev pub MergeSpan : Type 0
MergeSpan = List (DapBatchBucket × MergeResult × List (ReportId × ℕ))

pub record AggregateStore (c : Crypto) : Type 1 where
  pub Store : Type 0
  pub try_put_agg_share_span :
      TaskId → DapTaskConfig → DapAggregateSpan c → Store → MergeSpan × Store

unfoldable pub check_part_batch : DapTaskConfig → PartialBatchSelector → Bytes → Outcome (Unit {0})
check_part_batch t part_batch_sel agg_param =
    if is_valid_part_batch_sel t.query part_batch_sel
    then if is_valid_agg_param t.vdaf agg_param then ok tt else err (abort DapAbort.invalid_message)
    else err (abort query_mismatch)

abbrev pub report_id_of : ReportId × ℕ → ReportId
report_id_of report = report.0

-- `report_status.extend`
unfoldable pub mark : ReportProcessedStatus → List ReportId → ReportStatus → ReportStatus
mark status [] report_status = report_status
mark status (id ∷ ids) report_status = mark status ids ((id, status) ∷ report_status)

-- The loop over the results, with whether `inc_restart_metric` has been called.
unfoldable pub record_results : MergeSpan → ReportStatus → Bool → Outcome (ReportStatus × Bool)
unfolding mark
record_results [] report_status restart = ok (report_status, restart)
record_results ((bucket, merged, reports) ∷ results) report_status restart =
    record_results results (mark aggregated (map report_id_of reports) report_status) restart
record_results ((bucket, refused (replays_detected replays), reports) ∷ results) report_status
      restart =
    record_results results (mark (rejected report_replayed) replays report_status) true
record_results ((bucket, refused already_collected, reports) ∷ results) report_status restart =
    record_results results
      (mark (rejected batch_collected) (map report_id_of reports) report_status) true
record_results ((bucket, refused (other e), reports) ∷ results) report_status restart = err e

abbrev pub retry_count : ℕ
retry_count = 3

module _ (p : Prio) {c : Crypto} (v : Vdaf c) (s : AggregateStore c) (task_id : TaskId)
    (t : DapTaskConfig) (part_batch_sel : PartialBatchSelector)
    (initialized_reports : List (EarlyReportStateInitialized v)) where
  abbrev pub Round : Type 0
  Round = Outcome AggregationJobResp × s.Store

  -- Behind the storage's answer: the response, or another round.
  pub end_of_round :
      AggregationJobResp → (ReportStatus → Round) → s.Store → Outcome (ReportStatus × Bool) → Round
  end_of_round resp again store (ok (report_status, false)) = (ok resp, store)
  end_of_round resp again store (ok (report_status, true)) = again report_status
  end_of_round resp again store (err e) = (err e, store)
  end_of_round resp again store panic = (panic, store)

  -- One round, before the `rest` of the rounds.
  pub one_round :
      ReportStatus
      → (ReportStatus → s.Store → Round)
      → s.Store
      → Outcome (DapAggregateSpan c × AggregationJobResp)
      → Round
  unfolding end_of_round record_results
  one_round report_status rest store (ok (agg_span, agg_job_resp)) =
      let (results, store') = s.try_put_agg_share_span task_id t agg_span store in
      end_of_round agg_job_resp (λ report_status'. rest report_status' store') store'
        (record_results results report_status false)
  one_round report_status rest store (err e) = (err e, store)
  one_round report_status rest store panic = (panic, store)

  -- The loop, with the rounds that are left.
  unfoldable pub rounds : ℕ → ReportStatus → s.Store → Round
  unfolding one_round
  rounds zero report_status store = (err (abort bad_request), store)
  rounds (suc n) report_status store =
      one_round report_status (rounds n) store
        (produce_agg_job_resp p v t part_batch_sel report_status initialized_reports)

  unfoldable pub finish_agg_job_and_aggregate : s.Store → Round
  unfolding rounds
  finish_agg_job_and_aggregate store = rounds retry_count [] store
