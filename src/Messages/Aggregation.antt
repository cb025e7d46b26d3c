-- ===== src/Messages/Aggregation.antt =====
-- The messages of the aggregation sub-protocol (crates/daphne/src/messages/mod.rs).
pub mod RoundTrip
use daphne.Common.{ℕ, List, ◌==◌, if◌then◌else◌}
use daphne.Codec.Base.{Bytes, Writer, Reader, unexpected_value, ◌>>◌, done, ◌>>=◌, pure, fail}
use daphne.Codec.Prio.{Prio}
use daphne.Codec.Lengths.{encode_u32_bytes, decode_u32_bytes}
use daphne.Messages.Ids.{ReportId, encode_id, decode_id}
use daphne.Messages.Report.{ReportShare, encode_report_share, decode_report_share}
use daphne.Messages.Batch.{PartialBatchSelector, encode_part_batch_sel, decode_part_batch_sel}

pub record PrepareInit : Type 0 where
  pub report_share : ReportShare
  pub payload : Bytes

pub record AggregationJobInitReq : Type 0 where
  pub agg_param : Bytes
  pub part_batch_sel : PartialBatchSelector
  pub prep_inits : List PrepareInit

pub data TransitionFailure : Type 0 where
  batch_collected report_replayed report_dropped hpke_unknown_config_id : TransitionFailure
  hpke_decrypt_error vdaf_prep_error batch_saturated task_expired : TransitionFailure
  invalid_message report_too_early : TransitionFailure

pub data TransitionVar : Type 0 where
  continued : Bytes → TransitionVar
  failed : TransitionFailure → TransitionVar

pub record Transition : Type 0 where
  pub report_id : ReportId
  pub var : TransitionVar

pub record AggregationJobResp : Type 0 where
  pub transitions : List Transition

-- `*self as u8`
unfoldable pub failure_code : TransitionFailure → ℕ
failure_code batch_collected = 0
failure_code report_replayed = 1
failure_code report_dropped = 2
failure_code hpke_unknown_config_id = 3
failure_code hpke_decrypt_error = 4
failure_code vdaf_prep_error = 5
failure_code batch_saturated = 6
failure_code task_expired = 7
failure_code invalid_message = 8
failure_code report_too_early = 9

-- `TryFrom<u8> for TransitionFailure`: the guards, in order.
unfoldable pub failure_try_from : ℕ → Reader TransitionFailure
unfolding failure_code
failure_try_from b =
    if b == failure_code batch_collected
    then pure batch_collected
    else if b == failure_code report_replayed
    then pure report_replayed
    else if b == failure_code report_dropped
    then pure report_dropped
    else if b == failure_code hpke_unknown_config_id
    then pure hpke_unknown_config_id
    else if b == failure_code hpke_decrypt_error
    then pure hpke_decrypt_error
    else if b == failure_code vdaf_prep_error
    then pure vdaf_prep_error
    else if b == failure_code batch_saturated
    then pure batch_saturated
    else if b == failure_code task_expired
    then pure task_expired
    else if b == failure_code invalid_message
    then pure invalid_message
    else if b == failure_code report_too_early
    then pure report_too_early
    else fail unexpected_value

module _ (p : Prio) where
  unfoldable pub encode_prepare_init : PrepareInit → Writer
  encode_prepare_init i = do
    encode_report_share p i.report_share
    encode_u32_bytes p i.payload
    done

  unfoldable pub decode_prepare_init : Reader PrepareInit
  decode_prepare_init = do
    report_share ← decode_report_share p
    payload ← decode_u32_bytes p
    pure (record { report_share = report_share; payload = payload })

  unfoldable pub encode_agg_job_init_req : AggregationJobInitReq → Writer
  encode_agg_job_init_req r = do
    encode_u32_bytes p r.agg_param
    encode_part_batch_sel p r.part_batch_sel
    p.encode_items PrepareInit 4 encode_prepare_init r.prep_inits
    done

  unfoldable pub decode_agg_job_init_req : Reader AggregationJobInitReq
  decode_agg_job_init_req = do
    agg_param ← decode_u32_bytes p
    part_batch_sel ← decode_part_batch_sel p
    prep_inits ← p.decode_items PrepareInit 4 decode_prepare_init
    pure
        (record { agg_param = agg_param; part_batch_sel = part_batch_sel; prep_inits = prep_inits })

  unfoldable pub encode_failure : TransitionFailure → Writer
  encode_failure f = p.encode_uint 1 (failure_code f)

  unfoldable pub decode_failure : Reader TransitionFailure
  decode_failure = do b ← p.decode_uint 1; failure_try_from b

  unfoldable pub encode_transition_var : TransitionVar → Writer
  encode_transition_var (continued vdaf_message) = do
    p.encode_uint 1 0
    encode_u32_bytes p vdaf_message
    done
  encode_transition_var (failed failure) = do p.encode_uint 1 2; encode_failure failure; done

  unfoldable pub decode_transition_var : Reader TransitionVar
  decode_transition_var = do
    typ ← p.decode_uint 1
    if typ == 0
        then (do vdaf_message ← decode_u32_bytes p; pure (continued vdaf_message))
        else if typ == 2
        then (do failure ← decode_failure; pure (failed failure))
        else fail unexpected_value

  unfoldable pub encode_transition : Transition → Writer
  encode_transition t = do encode_id t.report_id; encode_transition_var t.var; done

  unfoldable pub decode_transition : Reader Transition
  decode_transition = do
    report_id ← decode_id 16
    var ← decode_transition_var
    pure (record { report_id = report_id; var = var })

  unfoldable pub encode_agg_job_resp : AggregationJobResp → Writer
  encode_agg_job_resp r = p.encode_items Transition 4 encode_transition r.transitions

  unfoldable pub decode_agg_job_resp : Reader AggregationJobResp
  decode_agg_job_resp = do
    transitions ← p.decode_items Transition 4 decode_transition
    pure (record { transitions = transitions })
