-- ===== src/Protocol/Job/Order.antt =====
-- The IDs of the reports and their order in the response of an aggregation job.
use daphne.Common.{
  List, [], ◌∷◌, ◌≡◌, refl, sym, ap, ◌∙◌, map, length, ◌==◌, ==_iff, Bool-cases, inl, inr, arith,
}
use daphne.Codec.Prio.{Prio}
use daphne.Errors.{bind_parts, Outcome, ok, err, panic}
use daphne.Messages.Ids.{ReportId}
use daphne.Messages.Batch.{PartialBatchSelector}
use daphne.Messages.Aggregation.{Transition, AggregationJobResp}
use daphne.Task.{DapTaskConfig}
use daphne.Share.{Crypto}
use daphne.Span.{DapAggregateSpan, bytes_eq}
use daphne.Span.Buckets.{bytes_eq_sound}
use daphne.Protocol.Vdaf.{Vdaf}
use daphne.Protocol.Report.{EarlyReportStateInitialized, initialized_metadata}
use daphne.Protocol.Job.{
  ReportStatus, status_of, transition_var, transitions_from, produce_agg_job_resp,
  AggregationJobReportState, DapAggregationJobState, consume_from, consume_agg_job_resp,
  leader_report,
}

resp_of : {A : Type 0} → Outcome (A × AggregationJobResp) → List Transition → List Transition
resp_of (ok (a, resp)) other = resp.transitions
resp_of (err e) other = other
resp_of panic other = other

abbrev pub transition_id : Transition → ReportId
transition_id x = x.report_id

module _ (p : Prio) {c : Crypto} (v : Vdaf c) (t : DapTaskConfig) where
  abbrev pub id_of : EarlyReportStateInitialized v → ReportId
  id_of r = (initialized_metadata r).id

  ids_of : Outcome (DapAggregateSpan c × List Transition) → List ReportId
  ids_of (ok (span, transitions)) = map transition_id transitions
  ids_of (err e) = []
  ids_of panic = []

  transitions_from-ids :
      (sel : PartialBatchSelector) (report_status : ReportStatus)
      (reports : List (EarlyReportStateInitialized v)) (span span' : DapAggregateSpan c)
      (transitions : List Transition)
      → transitions_from p v t sel report_status reports span ≡ ok (span', transitions)
      → map transition_id transitions ≡ map id_of reports
  unfolding transitions_from ids_of
  transitions_from-ids sel report_status [] span span' transitions h = sym (ap ids_of h)
  transitions_from-ids sel report_status (r ∷ rest) span span' transitions h =
      let (a, first, h') =
        bind_parts (transition_var p v t sel (status_of report_status (id_of r)) r span) _ _ h in
      let (b, tail, h'') = bind_parts (transitions_from p v t sel report_status rest a.0) _ _ h' in
      let ids = transitions_from-ids sel report_status rest a.0 b.0 b.1 tail in
      sym (ap ids_of h'') ∙ ap (id_of r ∷◌) ids

  -- Whenever `produce_agg_job_resp` returns, whatever statuses it was given, its response has one
  -- transition for each initialized report, with the IDs of the reports in their order.
  pub produce_agg_job_resp-ids :
      (sel : PartialBatchSelector) (report_status : ReportStatus)
      (reports : List (EarlyReportStateInitialized v)) (span : DapAggregateSpan c)
      (resp : AggregationJobResp)
      → produce_agg_job_resp p v t sel report_status reports ≡ ok (span, resp)
      → map transition_id resp.transitions ≡ map id_of reports
  unfolding produce_agg_job_resp resp_of
  produce_agg_job_resp-ids sel report_status reports span resp h =
      let (a, all, h') = bind_parts (transitions_from p v t sel report_status reports []) _ _ h in
      let same : a.1 ≡ resp.transitions = ap (λ o. resp_of o a.1) h' in
      ap (map transition_id) (sym same)
      ∙ transitions_from-ids sel report_status reports [] a.0 a.1 all

  abbrev pub state_id : AggregationJobReportState v → ReportId
  state_id x = x.report_id

  consume_from-ids :
      (sel : PartialBatchSelector) (transitions : List Transition)
      (seq : List (AggregationJobReportState v)) (span span' : DapAggregateSpan c)
      → length transitions ≡ length seq
      → consume_from p v t sel transitions seq span ≡ ok span'
      → map transition_id transitions ≡ map state_id seq
  unfolding consume_from
  consume_from-ids sel [] [] span span' len h = refl
  consume_from-ids sel [] (leader ∷ seq) span span' len h = absurd (omega (arith, len))
  consume_from-ids sel (helper ∷ transitions) [] span span' len h = absurd (omega (arith, len))
  consume_from-ids sel (helper ∷ transitions) (leader ∷ seq) span span' len h =
      elim (Bool-cases (bytes_eq helper.report_id leader.report_id)) [
        | inl same ↦
            let h' = rw same at h in
            let (next, first, tail) =
              bind_parts (leader_report p v t sel leader helper.var span) _ _ h' in
            rw (
              bytes_eq_sound helper.report_id leader.report_id same,
              consume_from-ids sel transitions seq next span' (omega (arith, len)) tail,
            )
        | inr other ↦ let h' = rw other at h in cc
      ]

  -- The Leader accepts a response only if it has exactly the reports of the Leader's state: if
  -- `consume_agg_job_resp` returns a span, then the IDs of the transitions are the IDs of the
  -- Leader's reports, in the same order.
  pub consume_agg_job_resp-ids :
      (state : DapAggregationJobState v) (resp : AggregationJobResp) (span : DapAggregateSpan c)
      → consume_agg_job_resp p v t state resp ≡ ok span
      → map transition_id resp.transitions ≡ map state_id state.seq
  unfolding consume_agg_job_resp
  consume_agg_job_resp-ids state resp span h =
      elim (Bool-cases (length resp.transitions == length state.seq)) [
        | inl same ↦
            let h' = rw same at h in
            consume_from-ids state.part_batch_sel resp.transitions state.seq [] span
              ((==_iff (length resp.transitions) (length state.seq)).0 same) h'
        | inr other ↦ let h' = rw other at h in cc
      ]
