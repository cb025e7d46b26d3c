-- ===== src/Protocol/Init.antt =====
-- The request of an aggregation job (`produce_agg_job_req_impl` and `consume_agg_job_req` in
-- crates/daphne/src/protocol/aggregator.rs). `DapReportInitializer::initialize_reports` belongs to
-- the deployment and is a parameter.
pub mod Distinct
pub mod Request
use daphne.Common.{
  ℕ, Bool, true, false, ◌&&◌, Option, none, some, List, [], ◌∷◌, ◌++◌, ◌==◌, if◌then◌else◌, length,
}
use daphne.Codec.Base as Codec
use daphne.Codec.Base.{Bytes, Writer, Reader, done, pure}
use daphne.Codec.Prio.{Prio}
use daphne.Errors.{Outcome, ok, err, panic, DapError, DapAbort, fatal, abort, ◌>>=◌, ◌>>◌}
use daphne.Messages.Ids.{TaskId, ReportId}
use daphne.Messages.Batch.{PartialBatchSelector}
use daphne.Messages.Report.{Report, ReportMetadata, HpkeCiphertext, ReportShare}
use daphne.Messages.Aggregation.{PrepareInit, AggregationJobInitReq}
use daphne.Task.{DapTaskConfig, VdafConfig, is_valid_agg_param}
use daphne.Share.{Crypto}
use daphne.Span.{bytes_eq}
use daphne.Protocol.Framing.{initialize, message_code}
use daphne.Protocol.Vdaf.{Vdaf}
use daphne.Protocol.Report.{
  encoding, EarlyReportStateConsumed, EarlyReportStateInitialized, TimeRange, HpkeDecrypter,
  consume,
}
use daphne.Protocol.Job.{AggregationJobReportState, DapAggregationJobState}

pub data ReplayProtection : Type 0 where
  enabled insecure_disabled : ReplayProtection

-- The default build has one parameter.
pub data DapAggregationParam : Type 0 where
  empty : DapAggregationParam

unfoldable pub encode_agg_param : DapAggregationParam → Writer
encode_agg_param empty = done

unfoldable pub decode_agg_param : VdafConfig → Reader DapAggregationParam
decode_agg_param vdaf = pure empty

-- `DapAbort::from_codec_error`
unfoldable pub decoded_param : Codec.Result DapAggregationParam → Outcome DapAggregationParam
decoded_param (Codec.ok agg_param) = ok agg_param
decoded_param (Codec.err e) = err (abort DapAbort.invalid_message)
decoded_param Codec.panic = panic

-- `DapReportInitializer`
pub record DapReportInitializer {c : Crypto} (v : Vdaf c) : Type 0 where
  pub valid_report_time_range : TimeRange
  pub initialize_reports :
      Bool
      → DapTaskConfig
      → DapAggregationParam
      → List EarlyReportStateConsumed
      → Outcome (List (EarlyReportStateInitialized v))

unfoldable pub is_processed : ReportId → List ReportId → Bool
unfolding bytes_eq
is_processed id [] = false
is_processed id (x ∷ xs) = if bytes_eq x id then true else is_processed id xs

-- Whether the ID is refused, where `processed` is a set only if replay protection is enabled.
abbrev pub is_replay : ReplayProtection → ReportId → List ReportId → Bool
unfolding is_processed
is_replay ReplayProtection.enabled id processed = is_processed id processed
is_replay ReplayProtection.insecure_disabled id processed = false

module _ (p : Prio) {c : Crypto} (v : Vdaf c) (hpke_decrypt : HpkeDecrypter)
    (initializer : DapReportInitializer v) (task_id : TaskId) (t : DapTaskConfig)
    (replay_protection : ReplayProtection) where
  abbrev leader_report_share : Report → ReportShare
  leader_report_share report = record {
    report_metadata = report.report_metadata;
    public_share = report.public_share;
    encrypted_input_share = report.leader_share;
  }

  -- The loop over the reports: what is consumed of each, and the Helper's ciphertext.
  unfoldable pub consume_reports :
      List ReportId → List Report → Outcome (List EarlyReportStateConsumed × List HpkeCiphertext)
  unfolding is_replay
  consume_reports processed [] = ok ([], [])
  consume_reports processed (report ∷ reports) =
      if is_replay replay_protection report.report_metadata.id processed then err fatal else (do
        consumed ←
            consume p hpke_decrypt initializer.valid_report_time_range true task_id t
              (leader_report_share report) none
        rest ← consume_reports (report.report_metadata.id ∷ processed) reports
        ok (consumed ∷ rest.0, report.helper_share ∷ rest.1))

  -- The payload of a report: the message type, and the preparation share as the only item.
  unfoldable pub init_payload : v.VdafPrepShare → Outcome Bytes
  init_payload prep_share = encoding (
      p.encode_items v.VdafPrepShare 4 v.encode_prep_share (prep_share ∷ [])
        (message_code initialize ∷ []))

  -- The loop over `zip`; a rejected report is skipped.
  unfoldable pub prepare_from :
      List (EarlyReportStateInitialized v)
      → List HpkeCiphertext
      → Outcome (List (AggregationJobReportState v) × List PrepareInit)
  unfolding init_payload
  prepare_from
        (EarlyReportStateInitialized.ready metadata public_share peer prep_share prep_state
          ∷ reports)
        (helper_share ∷ helper_shares) =
      do
        payload ← init_payload prep_share
        (states, prep_inits) ← prepare_from reports helper_shares
        ok (
          record { prep_state = prep_state; time = metadata.time; report_id = metadata.id }
              ∷ states,
          record {
            report_share = record {
              report_metadata = metadata;
              public_share = public_share;
              encrypted_input_share = helper_share;
            };
            payload = payload;
          }
              ∷ prep_inits,
        )
  prepare_from (EarlyReportStateInitialized.rejected metadata failure ∷ reports)
        (helper_share ∷ helper_shares) =
      prepare_from reports helper_shares
  prepare_from [] helper_shares = ok ([], [])
  prepare_from (report ∷ reports) [] = ok ([], [])

  -- `assert_eq` of the lengths, and the rest of the function.
  unfoldable pub finish_req :
      PartialBatchSelector
      → DapAggregationParam
      → List HpkeCiphertext
      → List (EarlyReportStateInitialized v)
      → Outcome (DapAggregationJobState v × AggregationJobInitReq)
  unfolding prepare_from
  finish_req part_batch_sel agg_param helper_shares initialized_reports =
      if length initialized_reports == length helper_shares
      then (do
        (states, prep_inits) ← prepare_from initialized_reports helper_shares
        encoded ← encoding (p.get_encoded (encode_agg_param agg_param))
        ok (
          record { seq = states; part_batch_sel = part_batch_sel },
          record { agg_param = encoded; part_batch_sel = part_batch_sel; prep_inits = prep_inits },
        ))
      else panic

  unfoldable pub produce_agg_job_req :
      PartialBatchSelector
      → DapAggregationParam
      → List Report
      → Outcome (DapAggregationJobState v × AggregationJobInitReq)
  unfolding consume_reports finish_req
  produce_agg_job_req part_batch_sel agg_param reports = do
    (consumed_reports, helper_shares) ← consume_reports [] reports
    initialized_reports ← initializer.initialize_reports true t agg_param consumed_reports
    finish_req part_batch_sel agg_param helper_shares initialized_reports

  unfoldable pub consume_prep_inits :
      List ReportId → List PrepareInit → Outcome (List EarlyReportStateConsumed)
  unfolding is_replay
  consume_prep_inits processed [] = ok []
  consume_prep_inits processed (prep_init ∷ prep_inits) =
      if is_replay replay_protection prep_init.report_share.report_metadata.id processed
      then err (abort DapAbort.invalid_message)
      else (do
        consumed ←
            consume p hpke_decrypt initializer.valid_report_time_range false task_id t
              prep_init.report_share (some prep_init.payload)
        rest ← consume_prep_inits (prep_init.report_share.report_metadata.id ∷ processed) prep_inits
        ok (consumed ∷ rest))

  unfoldable pub consume_agg_job_req :
      AggregationJobInitReq → Outcome (List (EarlyReportStateInitialized v))
  unfolding consume_prep_inits decode_agg_param decoded_param
  consume_agg_job_req agg_job_init_req = do
    consumed_reports ← consume_prep_inits [] agg_job_init_req.prep_inits
    agg_param ←
        decoded_param
          (p.get_decoded DapAggregationParam (decode_agg_param t.vdaf) agg_job_init_req.agg_param)
    initializer.initialize_reports false t agg_param consumed_reports
