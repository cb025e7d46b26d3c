-- ===== src/Protocol/Job.antt =====
-- The response of an aggregation job (`produce_agg_job_resp` and `consume_agg_job_resp` in
-- crates/daphne/src/protocol/aggregator.rs). Metrics are left out.
pub mod Order
pub mod Justified
pub mod View
pub mod Step
pub mod Agreement
pub mod Total
use daphne.Common.{ℕ, Option, none, some, List, [], ◌∷◌, ◌==◌, if◌then◌else◌, length}
use daphne.Codec.Base as Codec
use daphne.Codec.Base.{Bytes}
use daphne.Codec.Prio.{Prio}
use daphne.Errors.{Outcome, ok, err, panic, DapAbort, fatal, abort, ◌>>=◌}
use daphne.Messages.Ids.{ReportId}
use daphne.Messages.Batch.{PartialBatchSelector}
use daphne.Messages.Report.{ReportMetadata}
use daphne.Messages.Aggregation.{
  TransitionFailure, vdaf_prep_error, TransitionVar, continued, failed, Transition,
  AggregationJobResp,
}
use daphne.Task.{DapTaskConfig}
use daphne.Share.{Crypto, VdafAggregateShare}
use daphne.Span.{bytes_eq, DapAggregateSpan, add_out_share}
use daphne.Protocol.Framing.{finish, decode_ping_pong_framed, encode_ping_pong_framed}
use daphne.Protocol.Vdaf.{Vdaf, VdafResult, codec, vdaf, dap}
use daphne.Protocol.Report.{encoding, EarlyReportStateInitialized, initialized_metadata}

pub data ReportProcessedStatus : Type 0 where
  aggregated : ReportProcessedStatus
  rejected : TransitionFailure → ReportProcessedStatus

-- The `HashMap` of the statuses; an insertion goes to the front.
abbrev pub ReportStatus : Type 0
ReportStatus = List (ReportId × ReportProcessedStatus)

unfoldable pub status_of : ReportStatus → ReportId → Option ReportProcessedStatus
unfolding bytes_eq
status_of [] report_id = none
status_of ((id, status) ∷ report_status) report_id =
    if bytes_eq id report_id then some status else status_of report_status report_id

module _ {c : Crypto} (v : Vdaf c) where
  pub record AggregationJobReportState : Type 0 where
    pub prep_state : v.VdafPrepState
    pub time : ℕ
    pub report_id : ReportId

  pub record DapAggregationJobState : Type 0 where
    pub seq : List AggregationJobReportState
    pub part_batch_sel : PartialBatchSelector

module _ (p : Prio) {c : Crypto} (v : Vdaf c) (t : DapTaskConfig) (sel : PartialBatchSelector) where
  -- The transition of a report, with the span.
  abbrev Var : Type 0
  Var = Outcome (DapAggregateSpan c × TransitionVar)

  -- `if status.is_none()`
  add_if_new :
      Option ReportProcessedStatus
      → ReportMetadata
      → VdafAggregateShare c
      → DapAggregateSpan c
      → Outcome (DapAggregateSpan c)
  add_if_new none metadata data' span = add_out_share t sel metadata.id metadata.time data' span
  add_if_new (some status) metadata data' span = ok span

  prep_finished :
      Option ReportProcessedStatus
      → ReportMetadata
      → VdafResult (VdafAggregateShare c × Bytes)
      → DapAggregateSpan c
      → Var
  unfolding add_if_new
  prep_finished status metadata (VdafResult.ok (data', prep_msg)) span = do
    span' ← add_if_new status metadata data' span
    outbound ← encoding (encode_ping_pong_framed p finish prep_msg)
    ok (span', continued outbound)
  prep_finished status metadata (VdafResult.err codec) span = ok (span, failed vdaf_prep_error)
  prep_finished status metadata (VdafResult.err vdaf) span = ok (span, failed vdaf_prep_error)
  prep_finished status metadata (VdafResult.err (dap e)) span = err e

  -- A report that has not been rejected.
  process_report :
      Option ReportProcessedStatus → EarlyReportStateInitialized v → DapAggregateSpan c → Var
  unfolding prep_finished
  process_report status
        (EarlyReportStateInitialized.ready metadata public_share
          (some leader_prep_share)
          helper_prep_share
          helper_prep_state)
        span =
      prep_finished status metadata
        (v.prep_finish_from_shares helper_prep_state helper_prep_share leader_prep_share) span
  process_report status
        (EarlyReportStateInitialized.ready metadata public_share none helper_prep_share
          helper_prep_state)
        span =
      err fatal
  process_report status (EarlyReportStateInitialized.rejected metadata failure) span =
      ok (span, failed failure)

  pub transition_var :
      Option ReportProcessedStatus → EarlyReportStateInitialized v → DapAggregateSpan c → Var
  unfolding process_report
  transition_var (some (rejected failure)) initialized_report span = ok (span, failed failure)
  transition_var (some aggregated) initialized_report span =
      process_report (some aggregated) initialized_report span
  transition_var none initialized_report span = process_report none initialized_report span

  -- The loop over the reports, from the span so far.
  unfoldable pub transitions_from :
      ReportStatus
      → List (EarlyReportStateInitialized v)
      → DapAggregateSpan c
      → Outcome (DapAggregateSpan c × List Transition)
  unfolding transition_var
  transitions_from report_status [] span = ok (span, [])
  transitions_from report_status (initialized_report ∷ rest) span = do
    let report_id = (initialized_metadata initialized_report).id
    (span', var) ← transition_var (status_of report_status report_id) initialized_report span
    (span'', transitions) ← transitions_from report_status rest span'
    ok (span'', record { report_id = report_id; var = var } ∷ transitions)

  unfoldable pub produce_agg_job_resp :
      ReportStatus
      → List (EarlyReportStateInitialized v)
      → Outcome (DapAggregateSpan c × AggregationJobResp)
  unfolding transitions_from
  produce_agg_job_resp report_status initialized_reports = do
    (agg_span, transitions) ← transitions_from report_status initialized_reports []
    ok (agg_span, record { transitions = transitions })

module _ (p : Prio) {c : Crypto} (v : Vdaf c) (t : DapTaskConfig) where
  leader_finished :
      PartialBatchSelector
      → AggregationJobReportState v
      → VdafResult (VdafAggregateShare c)
      → DapAggregateSpan c
      → Outcome (DapAggregateSpan c)
  leader_finished sel leader (VdafResult.ok data') span =
      add_out_share t sel leader.report_id leader.time data' span
  leader_finished sel leader (VdafResult.err codec) span = ok span
  leader_finished sel leader (VdafResult.err vdaf) span = ok span
  leader_finished sel leader (VdafResult.err (dap e)) span = err e

  -- Any error of the frame aborts the job.
  leader_frame :
      PartialBatchSelector
      → AggregationJobReportState v
      → Codec.Result Bytes
      → DapAggregateSpan c
      → Outcome (DapAggregateSpan c)
  unfolding leader_finished
  leader_frame sel leader (Codec.ok prep_msg) span =
      leader_finished sel leader (v.prep_finish leader.prep_state prep_msg) span
  leader_frame sel leader (Codec.err e) span = err (abort DapAbort.invalid_message)
  leader_frame sel leader Codec.panic span = panic

  pub leader_report :
      PartialBatchSelector
      → AggregationJobReportState v
      → TransitionVar
      → DapAggregateSpan c
      → Outcome (DapAggregateSpan c)
  unfolding leader_frame
  leader_report sel leader (continued inbound) span =
      leader_frame sel leader (decode_ping_pong_framed p inbound finish) span
  leader_report sel leader (failed failure) span = ok span

  -- The loop over the pairs of `zip`, from the span so far.
  unfoldable pub consume_from :
      PartialBatchSelector
      → List Transition
      → List (AggregationJobReportState v)
      → DapAggregateSpan c
      → Outcome (DapAggregateSpan c)
  unfolding leader_report bytes_eq
  consume_from sel (helper ∷ transitions) (leader ∷ seq) span =
      if bytes_eq helper.report_id leader.report_id
      then (do
        span' ← leader_report sel leader helper.var span
        consume_from sel transitions seq span')
      else err (abort DapAbort.invalid_message)
  consume_from sel [] seq span = ok span
  consume_from sel (helper ∷ transitions) [] span = ok span

  unfoldable pub consume_agg_job_resp :
      DapAggregationJobState v → AggregationJobResp → Outcome (DapAggregateSpan c)
  unfolding consume_from
  consume_agg_job_resp state agg_job_resp =
      if length agg_job_resp.transitions == length state.seq
      then consume_from state.part_batch_sel agg_job_resp.transitions state.seq []
      else err (abort DapAbort.invalid_message)
