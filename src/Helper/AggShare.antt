-- ===== src/Helper/AggShare.antt =====
-- The aggregate-share request (`handle_agg_share_req` in crates/daphne/src/roles/helper.rs) from the
-- decoding of the request on. The methods of the trait `DapAggregator` that it calls belong to the
-- deployment. The metrics are left out.
pub mod Handler
pub mod Answered
pub mod Checked
use daphne.Common.{ℕ, Bool, true, false, not, ◌||◌, ◌==◌, if◌then◌else◌}
use daphne.Codec.Base as Codec
use daphne.Codec.Base.{Bytes, Writer}
use daphne.Codec.Prio.{Prio}
use daphne.Errors.{
  Outcome, ok, err, panic, DapAbort, abort, batch_mismatch, invalid_batch_size, ◌>>=◌, ◌>>◌,
}
use daphne.Messages.Ids.{TaskId}
use daphne.Messages.Batch.{BatchSelector, query_of}
use daphne.Messages.Compare.{constant_time_eq}
use daphne.Messages.Report.{HpkeCiphertext}
use daphne.Messages.Collection.{
  AggregateShareReq, AggregateShare, decode_agg_share_req, encode_agg_share,
}
use daphne.Task.{DapTaskConfig, DapGlobalConfig, is_report_count_compatible}
use daphne.Share.{Crypto, VdafAggregateShare, DapAggregateShare}
use daphne.Roles.{DapAggregator, check_batch}
use daphne.Protocol.Init.{DapAggregationParam, decode_agg_param, decoded_param}
use daphne.Protocol.Report.{encoding}
use daphne.Protocol.AggShare.{HpkeEncrypter, produce_encrypted_agg_share}

-- The methods of `DapAggregator` that the request calls, on the state of the storage.
pub record BatchStore (c : Crypto) : Type 1 where
  pub Store : Type 0
  pub batches : Store → DapAggregator
  pub get_agg_share : TaskId → BatchSelector → Store → Outcome (DapAggregateShare c)
  pub mark_collected : TaskId → BatchSelector → Store → Outcome (Unit {0}) × Store

-- `DapAbort::from_codec_error`
decoded_req : Codec.Result AggregateShareReq → Outcome AggregateShareReq
decoded_req (Codec.ok req) = ok req
decoded_req (Codec.err e) = err (abort DapAbort.invalid_message)
decoded_req Codec.panic = panic

-- `unwrap_or(false)`
or_false : Outcome Bool → Outcome Bool
or_false (ok b) = ok b
or_false (err e) = ok false
or_false panic = panic

module _ (p : Prio) {c : Crypto} (encode_agg_data : VdafAggregateShare c → Writer)
    (hpke_encrypt : HpkeEncrypter) (s : BatchStore c) (t : DapTaskConfig) (g : DapGlobalConfig)
    (task_id : TaskId) where
  -- The comparison with the Leader's count and checksum, and the check of the batch size.
  check_agg_share : AggregateShareReq → DapAggregateShare c → Outcome (Unit {0})
  unfolding or_false
  check_agg_share req agg_share =
      if not (req.report_count == agg_share.report_count)
        || not (constant_time_eq req.checksum agg_share.checksum)
      then err (abort batch_mismatch)
      else (do
        compatible ← or_false (is_report_count_compatible t agg_share.report_count)
        if compatible then ok tt else err (abort invalid_batch_size))

  -- The part that only reads the storage.
  unfoldable pub check_agg_share_req :
      Bytes → ℕ → s.Store → Outcome (AggregateShareReq × DapAggregationParam × DapAggregateShare c)
  unfolding check_agg_share decoded_req
  check_agg_share_req payload now store = do
    req ← decoded_req (p.get_decoded AggregateShareReq (decode_agg_share_req p) payload)
    agg_param ←
        decoded_param (p.get_decoded DapAggregationParam (decode_agg_param t.vdaf) req.agg_param)
    check_batch (s.batches store) t g task_id (query_of req.batch_sel) req.agg_param now
    agg_share ← s.get_agg_share task_id req.batch_sel store
    check_agg_share req agg_share
    ok (req, agg_param, agg_share)

  -- Behind `mark_collected`.
  agg_share_resp :
      AggregateShareReq
      → DapAggregationParam
      → DapAggregateShare c
      → Outcome (Unit {0}) × s.Store
      → Outcome Bytes × s.Store
  agg_share_resp req agg_param agg_share (marked, store) = (
    do
      marked
      encrypted_agg_share ←
          produce_encrypted_agg_share p encode_agg_data hpke_encrypt false t.collector_hpke_config
            task_id req.batch_sel agg_param agg_share
      encoding (
          p.get_encoded
            (encode_agg_share p (record { encrypted_agg_share = encrypted_agg_share }))),
    store,
  )

  mark_and_answer :
      s.Store
      → Outcome (AggregateShareReq × DapAggregationParam × DapAggregateShare c)
      → Outcome Bytes × s.Store
  unfolding agg_share_resp
  mark_and_answer store (ok (req, agg_param, agg_share)) =
      agg_share_resp req agg_param agg_share (s.mark_collected task_id req.batch_sel store)
  mark_and_answer store (err e) = (err e, store)
  mark_and_answer store panic = (panic, store)

  unfoldable pub answer_agg_share_req : Bytes → ℕ → s.Store → Outcome Bytes × s.Store
  unfolding mark_and_answer check_agg_share_req
  answer_agg_share_req payload now store =
      mark_and_answer store (check_agg_share_req payload now store)
