-- ===== src/Protocol/Job/Justified.antt =====
-- Which transition a report gets by its status, and which reports the span of a response holds.
use daphne.Common.{◌≡◌, refl, Option, none, some, List, [], ◌∷◌, All}
use daphne.Codec.Base.{Bytes}
use daphne.Codec.Prio.{Prio}
use daphne.Errors.{ok, Returns, Returns-bind, Returns-any, Returns-ok}
use daphne.Messages.Ids.{ReportId}
use daphne.Messages.Batch.{PartialBatchSelector}
use daphne.Messages.Report.{ReportMetadata}
use daphne.Messages.Aggregation.{TransitionVar, continued, failed, Transition, AggregationJobResp}
use daphne.Task.{DapTaskConfig}
use daphne.Share.{Crypto, VdafAggregateShare}
use daphne.Span.{DapAggregateSpan, add_out_share}
use daphne.Span.Reports.{InSpan, Gained, add_out_share-Gained}
use daphne.Protocol.Framing.{finish, encode_ping_pong_framed}
use daphne.Protocol.Vdaf.{Vdaf, VdafResult, codec, vdaf, dap}
use daphne.Protocol.Report.{encoding, EarlyReportStateInitialized, initialized_metadata}
use daphne.Protocol.Job.{
  ReportProcessedStatus, aggregated, rejected, ReportStatus, status_of, add_if_new, prep_finished,
  process_report, transition_var, transitions_from, produce_agg_job_resp,
}

module _ {c : Crypto} where
  -- A rejected report has failed, for the reason of its status. A report without a status that
  -- continues is in the span.
  abbrev pub IsJustified :
      Option ReportProcessedStatus → ReportId → DapAggregateSpan c → TransitionVar → Type 0
  IsJustified (some (rejected failure)) id span var = var ≡ failed failure
  IsJustified (some aggregated) id span var = Unit
  IsJustified none id span (continued message) = InSpan id span
  IsJustified none id span (failed failure) = Unit

  abbrev Kept : DapAggregateSpan c → DapAggregateSpan c → Type 0
  Kept before after = (i : ReportId) → InSpan i before → InSpan i after

  IsJustified-later :
      (status : Option ReportProcessedStatus) (id : ReportId) (before after : DapAggregateSpan c)
      (var : TransitionVar)
      → Kept before after
      → IsJustified status id before var
      → IsJustified status id after var
  IsJustified-later (some (rejected failure)) id before after var k h = h
  IsJustified-later (some aggregated) id before after var k h = tt
  IsJustified-later none id before after (continued message) k h = k id h
  IsJustified-later none id before after (failed failure) k h = tt

  -- Every transition is justified by the status of its report.
  abbrev pub AllJustified : ReportStatus → DapAggregateSpan c → List Transition → Type 0
  AllJustified report_status span =
      All (λ x. IsJustified (status_of report_status x.report_id) x.report_id span x.var)

module _ (p : Prio) {c : Crypto} (v : Vdaf c) (t : DapTaskConfig) (sel : PartialBatchSelector) where
  abbrev Fine :
      Option ReportProcessedStatus
      → ReportId
      → DapAggregateSpan c
      → DapAggregateSpan c × TransitionVar
      → Type 0
  Fine status id before r = Kept before r.0 × IsJustified status id r.0 r.1

  prep_finished-Fine :
      (metadata : ReportMetadata) (r : VdafResult (VdafAggregateShare c × Bytes))
      (span : DapAggregateSpan c)
      → Returns (Fine none metadata.id span) (prep_finished p v t sel none metadata r span)
  unfolding prep_finished add_if_new
  prep_finished-Fine metadata (VdafResult.ok (data', msg)) span =
      Returns-bind (Gained metadata.id span) (Fine none metadata.id span)
        (add_out_share t sel metadata.id metadata.time data' span) _
        (add_out_share-Gained t sel metadata.id metadata.time data' span)
        (λ span' g.
          Returns-bind (λ _. Unit {0}) (Fine none metadata.id span)
            (encoding (encode_ping_pong_framed p finish msg)) _ (Returns-any _) (λ outbound _. g))
  prep_finished-Fine metadata (VdafResult.err codec) span = (λ i h. h, tt)
  prep_finished-Fine metadata (VdafResult.err vdaf) span = (λ i h. h, tt)
  prep_finished-Fine metadata (VdafResult.err (dap e)) span = tt

  prep_finished-Kept :
      (metadata : ReportMetadata) (r : VdafResult (VdafAggregateShare c × Bytes))
      (span : DapAggregateSpan c)
      → Returns
          (Fine (some aggregated) metadata.id span)
          (prep_finished p v t sel (some aggregated) metadata r span)
  unfolding prep_finished add_if_new
  prep_finished-Kept metadata (VdafResult.ok (data', msg)) span =
      Returns-bind (λ _. Unit {0}) (Fine (some aggregated) metadata.id span)
        (encoding (encode_ping_pong_framed p finish msg)) _ (Returns-any _)
        (λ outbound _. (λ i h. h, tt))
  prep_finished-Kept metadata (VdafResult.err codec) span = (λ i h. h, tt)
  prep_finished-Kept metadata (VdafResult.err vdaf) span = (λ i h. h, tt)
  prep_finished-Kept metadata (VdafResult.err (dap e)) span = tt

  transition_var-Fine :
      (status : Option ReportProcessedStatus) (r : EarlyReportStateInitialized v)
      (span : DapAggregateSpan c)
      → Returns
          (Fine status (initialized_metadata r).id span)
          (transition_var p v t sel status r span)
  unfolding transition_var process_report
  transition_var-Fine (some (rejected failure)) r span = (λ i h. h, refl)
  transition_var-Fine (some aggregated)
        (EarlyReportStateInitialized.ready m ps (some lp) share state) span =
      prep_finished-Kept m (v.prep_finish_from_shares state share lp) span
  transition_var-Fine (some aggregated) (EarlyReportStateInitialized.ready m ps none share state)
        span =
      tt
  transition_var-Fine (some aggregated) (EarlyReportStateInitialized.rejected m failure) span =
      (λ i h. h, tt)
  transition_var-Fine none (EarlyReportStateInitialized.ready m ps (some lp) share state) span =
      prep_finished-Fine m (v.prep_finish_from_shares state share lp) span
  transition_var-Fine none (EarlyReportStateInitialized.ready m ps none share state) span = tt
  transition_var-Fine none (EarlyReportStateInitialized.rejected m failure) span = (λ i h. h, tt)

  transitions_from-Justified :
      (report_status : ReportStatus) (reports : List (EarlyReportStateInitialized v))
      (span : DapAggregateSpan c)
      → Returns
          (λ r. Kept span r.0 × AllJustified report_status r.0 r.1)
          (transitions_from p v t sel report_status reports span)
  unfolding transitions_from
  transitions_from-Justified report_status [] span = (λ i h. h, tt)
  transitions_from-Justified report_status (r ∷ reports) span =
      let id = (initialized_metadata r).id in
      let status = status_of report_status id in
      let Good = λ (x : DapAggregateSpan c × List Transition).
        Kept span x.0 × AllJustified report_status x.0 x.1 in
      Returns-bind (Fine status id span) Good (transition_var p v t sel status r span) _
        (transition_var-Fine status r span)
        (λ a fine.
          Returns-bind
            (λ (x : DapAggregateSpan c × List Transition).
              Kept a.0 x.0 × AllJustified report_status x.0 x.1)
            Good (transitions_from p v t sel report_status reports a.0) _
            (transitions_from-Justified report_status reports a.0)
            (λ b rest. (
              λ i h. rest.0 i (fine.0 i h),
              (IsJustified-later status id a.0 b.0 a.1 rest.0 fine.1, rest.1),
            )))

  pub produce_agg_job_resp-AllJustified :
      (report_status : ReportStatus) (reports : List (EarlyReportStateInitialized v))
      → Returns
          (λ x. AllJustified report_status x.0 x.1.transitions)
          (produce_agg_job_resp p v t sel report_status reports)
  unfolding produce_agg_job_resp
  produce_agg_job_resp-AllJustified report_status reports =
      Returns-bind
        (λ (r : DapAggregateSpan c × List Transition).
          Kept [] r.0 × AllJustified report_status r.0 r.1)
        (λ (x : DapAggregateSpan c × AggregationJobResp).
          AllJustified report_status x.0 x.1.transitions)
        (transitions_from p v t sel report_status reports []) _
        (transitions_from-Justified report_status reports []) (λ r g. g.1)

  -- In every response that `produce_agg_job_resp` returns, the transition of a report whose status is
  -- rejected has failed for the reason of the status, and a report that has no status and
  -- continues is in the returned span.
  pub produce_agg_job_resp-IsJustified :
      (report_status : ReportStatus) (reports : List (EarlyReportStateInitialized v))
      (span : DapAggregateSpan c) (resp : AggregationJobResp)
      → produce_agg_job_resp p v t sel report_status reports ≡ ok (span, resp)
      → AllJustified report_status span resp.transitions
  produce_agg_job_resp-IsJustified report_status reports span resp =
      Returns-ok
        (λ (x : DapAggregateSpan c × AggregationJobResp).
          AllJustified report_status x.0 x.1.transitions)
        (produce_agg_job_resp-AllJustified report_status reports)
