-- ===== src/Protocol/Job/Total.antt =====
-- The Helper produces a response for honest reports, whatever their statuses are.
use daphne.Common.{
  ℕ, suc, ◌+◌, ◌<◌, ◌≤◌, ◌≡◌, refl, true, Option, none, some, List, [], ◌∷◌, ◌++◌, map, All, length,
  length-append, arith,
}
use daphne.Codec.Base.{Bytes}
use daphne.Codec.Prio.{Prio, PrioLaws}
use daphne.Codec.RoundTrip.{vector}
use daphne.Errors.{ok}
use daphne.Messages.Ids.{ReportId}
use daphne.Messages.Batch.{PartialBatchSelector}
use daphne.Messages.Report.{ReportMetadata}
use daphne.Messages.Aggregation.{
  AggregationJobResp, Transition, TransitionVar, continued, failed, vdaf_prep_error,
}
use daphne.Task.{DapTaskConfig, is_valid_part_batch_sel, u64_end}
use daphne.Share.{Field, Crypto, VdafAggregateShare}
use daphne.Share.Summary.{CryptoLaws}
use daphne.Span.{DapAggregateSpan, get}
use daphne.Protocol.Vdaf.{Vdaf, VdafResult, codec, vdaf, dap}
use daphne.Protocol.Report.{EarlyReportStateInitialized, initialized_metadata}
use daphne.Protocol.Job.{
  ReportProcessedStatus, aggregated, rejected, ReportStatus, status_of, transition_var,
  process_report, prep_finished, add_if_new, transitions_from, produce_agg_job_resp,
}
use daphne.Protocol.Job.Step.{
  Job, IsHonest, Finishes, Held, helper_of, aggregated_by, length-aggregated_by, frame_written,
  job-Step,
}

module _ {p : Prio} (codec_laws : PrioLaws p) {c : Crypto} (laws : CryptoLaws c) (v : Vdaf c)
    (f : Field) (n : ℕ) (t : DapTaskConfig) (sel : PartialBatchSelector)
    (valid : is_valid_part_batch_sel t.query sel ≡ true) (pos : 0 < t.time_precision) where
  abbrev HeldBy : DapAggregateSpan c → List (ReportId × ℕ) → Type 0
  HeldBy = Held codec_laws laws v f n t sel

  -- Adding nothing, for a report that the storage has already.
  again :
      (metadata : ReportMetadata) (state : v.VdafPrepState) (span : DapAggregateSpan c)
      (r : VdafResult (VdafAggregateShare c × Bytes))
      → Finishes codec_laws laws v f n t sel r state
      → (var : TransitionVar) × (prep_finished p v t sel (some aggregated) metadata r span
          ≡ ok (span, var))
  unfolding prep_finished add_if_new
  again metadata state span (VdafResult.ok (data', msg)) (hs, ls, out, size, short, fin, size2) =
      (continued (2 ∷ vector 4 msg), rw (frame_written codec_laws msg short))
  again metadata state span (VdafResult.err codec) h = (failed vdaf_prep_error, refl)
  again metadata state span (VdafResult.err vdaf) h = (failed vdaf_prep_error, refl)
  again metadata state span (VdafResult.err (dap e)) h = elim h [ ]

  abbrev Stepped :
      Option ReportProcessedStatus → Job v → DapAggregateSpan c → List (ReportId × ℕ) → Type 0
  Stepped status job span reports =
      (span' : DapAggregateSpan c) × (var : TransitionVar) × (reports' : List (ReportId × ℕ))
      × (transition_var p v t sel status job.0 span ≡ ok (span', var))
      × HeldBy span' reports'
      × (length reports' ≤ suc (length reports))

  status-Stepped :
      (status : Option ReportProcessedStatus) (job : Job v) (span : DapAggregateSpan c)
      (reports : List (ReportId × ℕ))
      → IsHonest codec_laws laws v f n t sel job
      → HeldBy span reports
      → suc (length reports) < u64_end
      → Stepped status job span reports
  unfolding transition_var process_report
  status-Stepped none job span reports h held fits =
      let (a, b, var, e, e', ha, hb) =
        job-Step codec_laws laws v f n t sel valid pos job span span reports h held held fits in
      (
        a,
        var,
        reports ++ aggregated_by v job,
        e,
        ha,
        omega (arith, length-append reports (aggregated_by v job), length-aggregated_by v job),
      )
  status-Stepped (some (rejected failure)) job span reports h held fits =
      (span, failed failure, reports, refl, held, omega arith)
  status-Stepped (some aggregated) (EarlyReportStateInitialized.ready m ps (some lp) share state, l)
        span reports h held fits =
      let (var, e) = again m l.prep_state span (v.prep_finish_from_shares state share lp) h.2 in
      (span, var, reports, e, held, omega arith)
  status-Stepped (some aggregated) (EarlyReportStateInitialized.ready m ps none share state, l) span
        reports h held fits =
      elim h [ ]
  status-Stepped (some aggregated) (EarlyReportStateInitialized.rejected m failure, l) span reports
        h held fits =
      (span, failed failure, reports, refl, held, omega arith)

  transitions_from-total :
      (report_status : ReportStatus) (jobs : List (Job v)) (span : DapAggregateSpan c)
      (reports : List (ReportId × ℕ))
      → All (IsHonest codec_laws laws v f n t sel) jobs
      → HeldBy span reports
      → length reports + length jobs < u64_end
      → (x : DapAggregateSpan c × List Transition) × (transitions_from p v t sel report_status
            (map (helper_of v) jobs)
            span
          ≡ ok x)
  unfolding transitions_from
  transitions_from-total report_status [] span reports h held fits = ((span, []), refl)
  transitions_from-total report_status (job ∷ jobs) span reports (h, hs) held fits =
      let id = (initialized_metadata job.0).id in
      let (span', var, reports', e, held', few) =
        status-Stepped (status_of report_status id) job span reports h held (omega (arith, fits)) in
      let (x, e') =
        transitions_from-total report_status jobs span' reports' hs held'
          (omega (arith, fits, few)) in
      ((x.0, record { report_id = id; var = var } ∷ x.1), rw (e, e'))

  pub produce_agg_job_resp-total :
      (report_status : ReportStatus) (jobs : List (Job v))
      → All (IsHonest codec_laws laws v f n t sel) jobs
      → length jobs < u64_end
      → (x : DapAggregateSpan c × AggregationJobResp) × (produce_agg_job_resp p v t sel
            report_status
            (map (helper_of v) jobs)
          ≡ ok x)
  unfolding produce_agg_job_resp get
  produce_agg_job_resp-total report_status jobs h fits =
      let (x, e) =
        transitions_from-total report_status jobs [] [] h ([], (λ k. refl), tt, refl)
          (omega (arith, fits)) in
      ((x.0, record { transitions = x.1 }), rw e)
