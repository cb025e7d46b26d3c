-- ===== src/Leader/Run.antt =====
-- The jobs of the Leader (`run_agg_job` and `run_coll_job` in crates/daphne/src/roles/leader/mod.rs). The
-- advertisement of a task that Taskprov has configured (`resolve_taskprove_advertisement`) is a
-- parameter, and so is the aggregation-job ID that the random-number generator gives. Metrics are
-- left out.
pub mod Counted
pub mod Collected
use daphne.Common.{
  ℕ, ◌+◌, ◌-◌, Bool, true, false, Option, none, some, List, [], ◌∷◌, ◌==◌, ltb, length,
  if◌then◌else◌,
}
use daphne.Codec.Base.{Bytes, Writer}
use daphne.Codec.Prio.{Prio}
use daphne.Errors.{Outcome, ok, err, panic}
use daphne.Messages.Ids.{TaskId, AggregationJobId, CollectionJobId}
use daphne.Messages.Batch.{Interval, PartialBatchSelector, BatchSelector, part_batch_sel_of}
use daphne.Messages.Report.{Report, HpkeCiphertext}
use daphne.Messages.Aggregation.{AggregationJobResp, encode_agg_job_init_req, decode_agg_job_resp}
use daphne.Messages.Collection.{
  Collection, AggregateShareReq, AggregateShare, encode_agg_share_req, decode_agg_share,
}
use daphne.Task.{
  DapTaskConfig, quantized_time_lower_bound, quantized_time_upper_bound, is_report_count_compatible,
}
use daphne.Share.{Crypto, VdafAggregateShare, DapAggregateShare}
use daphne.Span.{DapAggregateSpan}
use daphne.Request.{DapMediaType, DapResource}
use daphne.Roles.Calls.{Call, ◌>>=◌, ◌>>◌, returns, lift, reads}
use daphne.Roles.Checks.{or_invalid_message}
use daphne.Protocol.Vdaf.{Vdaf}
use daphne.Protocol.Report.{encoding, HpkeDecrypter}
use daphne.Protocol.Job.{consume_agg_job_resp}
use daphne.Protocol.Init.{
  ReplayProtection, DapAggregationParam, DapReportInitializer, encode_agg_param,
  produce_agg_job_req,
}
use daphne.Protocol.AggShare.{HpkeEncrypter, produce_encrypted_agg_share}
use daphne.Helper.{MergeSpan, merged, refused, already_collected, replays_detected, other}
use daphne.Leader.Peer.{HelperPeer, post, put, leader_send_http_request}

-- `DapAggregateSpan::report_count` of crates/daphne/src/lib.rs.
unfoldable pub span_report_count : {c : Crypto} → DapAggregateSpan c → ℕ
span_report_count [] = 0
span_report_count ((bucket, (agg_share, reports)) ∷ span) = length reports + span_report_count span

-- The methods of the storage that the jobs call.
pub record JobStore (c : Crypto) (Store : Type 0) : Type 0 where
  pub try_put_agg_share_span :
      TaskId → DapTaskConfig → DapAggregateSpan c → Store → MergeSpan × Store
  pub get_agg_share : TaskId → BatchSelector → Call Store (DapAggregateShare c)
  pub finish_collect_job : TaskId → CollectionJobId → Collection → Call Store (Unit {0})
  pub mark_collected : TaskId → BatchSelector → Call Store (Unit {0})

-- The number of replayed reports and of collected buckets, up to the first unrecoverable error.
unfoldable pub count_refused : MergeSpan → ℕ → ℕ → Outcome (ℕ × ℕ)
count_refused [] replayed collected = ok (replayed, collected)
count_refused ((bucket, merged, reports) ∷ results) replayed collected =
    count_refused results replayed collected
count_refused ((bucket, refused already_collected, reports) ∷ results) replayed collected =
    count_refused results replayed (collected + 1)
count_refused ((bucket, refused (replays_detected replays), reports) ∷ results) replayed collected =
    count_refused results (replayed + length replays) collected
count_refused ((bucket, refused (other e), reports) ∷ results) replayed collected = err e

module _ {c : Crypto} {Store : Type 0} (s : JobStore c Store) (task_id : TaskId)
    (t : DapTaskConfig) where
  count_put : ℕ → MergeSpan × Store → Outcome ℕ × Store
  count_put out_shares_count (results, store) =
      (daphne.Errors.◌>>=◌ (count_refused results 0 0) (λ counts. ok out_shares_count), store)

  -- The end of `run_agg_job`, from the count of the output shares on.
  unfoldable pub put_agg_span : DapAggregateSpan c → Call Store ℕ
  unfolding span_report_count count_put count_refused
  put_agg_span agg_span store =
      let out_shares_count = span_report_count agg_span in
      if out_shares_count == 0
      then (ok 0, store)
      else count_put out_shares_count (s.try_put_agg_share_span task_id t agg_span store)

module _ (p : Prio) {c : Crypto} {S Store Url : Type 0} (s : JobStore c Store)
    (peer : HelperPeer S Store Url)
    (resolve_taskprove_advertisement : DapTaskConfig → Outcome (Option Bytes)) (task_id : TaskId)
    (t : DapTaskConfig) where
  unfoldable pub run_agg_job :
      (v : Vdaf c)
      → HpkeDecrypter
      → DapReportInitializer v
      → AggregationJobId
      → PartialBatchSelector
      → DapAggregationParam
      → List Report
      → Call Store ℕ
  unfolding put_agg_span
  run_agg_job v hpke_decrypt initializer agg_job_id part_batch_sel agg_param reports = do
    taskprov ← lift (resolve_taskprove_advertisement t)
    produced ← lift (
        produce_agg_job_req p v hpke_decrypt initializer task_id t ReplayProtection.enabled
          part_batch_sel agg_param reports)
    if length produced.0.seq == 0 then returns 0 else (do
      req_data ← lift (encoding (p.get_encoded (encode_agg_job_init_req p produced.1)))
      resp ←
          leader_send_http_request peer task_id t (peer.aggregation_job_url t task_id agg_job_id)
            DapMediaType.aggregation_job_init_req DapMediaType.aggregation_job_resp
            (DapResource.aggregation_job agg_job_id) req_data put taskprov
      agg_job_resp ← lift (
          or_invalid_message
            (p.get_decoded AggregationJobResp (decode_agg_job_resp p) resp.payload))
      agg_span ← lift (consume_agg_job_resp p v t produced.0 agg_job_resp)
      put_agg_span s task_id t agg_span)

-- The smallest quantized interval around the times of the reports.
unfoldable pub collection_interval : DapTaskConfig → ℕ → ℕ → Outcome Interval
collection_interval t min_time max_time =
    daphne.Errors.◌>>=◌ (quantized_time_lower_bound t min_time) λ low.
      daphne.Errors.◌>>=◌ (quantized_time_upper_bound t max_time) λ high.
        ok
          (record { start = low; duration = if ltb low high then high - low else t.time_precision })

abbrev pub collection_of :
    {c : Crypto}
    → BatchSelector
    → DapAggregateShare c
    → Interval
    → HpkeCiphertext
    → HpkeCiphertext
    → Collection
collection_of batch_sel agg_share interval leader_agg_share helper_agg_share = record {
  part_batch_sel = part_batch_sel_of batch_sel;
  report_count = agg_share.report_count;
  interval = interval;
  leader_agg_share = leader_agg_share;
  helper_agg_share = helper_agg_share;
}

module _ (p : Prio) {c : Crypto} (encode_agg_data : VdafAggregateShare c → Writer)
    (hpke_encrypt : HpkeEncrypter) {S Store Url : Type 0} (s : JobStore c Store)
    (peer : HelperPeer S Store Url)
    (resolve_taskprove_advertisement : DapTaskConfig → Outcome (Option Bytes)) (task_id : TaskId)
    (t : DapTaskConfig) (coll_job_id : CollectionJobId) (batch_sel : BatchSelector)
    (agg_param : DapAggregationParam) where
  -- `run_coll_job` for a batch that is large enough.
  unfoldable pub collect_batch : Option Bytes → DapAggregateShare c → Call Store ℕ
  unfolding collection_interval part_batch_sel_of
  collect_batch taskprov leader_agg_share = do
    leader_enc_agg_share ← lift (
        produce_encrypted_agg_share p encode_agg_data hpke_encrypt true t.collector_hpke_config
          task_id batch_sel agg_param leader_agg_share)
    encoded_param ← lift (encoding (p.get_encoded (encode_agg_param agg_param)))
    let agg_share_req : AggregateShareReq = record {
      batch_sel = batch_sel;
      agg_param = encoded_param;
      report_count = leader_agg_share.report_count;
      checksum = leader_agg_share.checksum;
    }
    req_data ← lift (encoding (p.get_encoded (encode_agg_share_req p agg_share_req)))
    resp ←
        leader_send_http_request peer task_id t (peer.aggregate_share_url t task_id)
          DapMediaType.aggregate_share_req DapMediaType.aggregate_share DapResource.undefined
          req_data post taskprov
    agg_share_resp ←
        lift (or_invalid_message (p.get_decoded AggregateShare (decode_agg_share p) resp.payload))
    interval ← lift (collection_interval t leader_agg_share.min_time leader_agg_share.max_time)
    s.finish_collect_job task_id coll_job_id (
        collection_of batch_sel leader_agg_share interval leader_enc_agg_share
          agg_share_resp.encrypted_agg_share)
    s.mark_collected task_id batch_sel
    returns leader_agg_share.report_count

  unfoldable pub run_coll_job : Call Store ℕ
  unfolding collect_batch
  run_coll_job = do
    leader_agg_share ← s.get_agg_share task_id batch_sel
    taskprov ← lift (resolve_taskprove_advertisement t)
    compatible ← lift (is_report_count_compatible t leader_agg_share.report_count)
    if compatible then collect_batch taskprov leader_agg_share else returns 0
