-- ===== src/Tests/AggShare.antt =====
-- The theorems about the aggregate-share request at a concrete batch. Here encryption leaves the
-- plaintext as it is.
use daphne.Common.{ℕ, ◌≡◌, refl, Bool, true, false, Option, none, some, [], ◌∷◌, ◌++◌, replicate}
use daphne.Codec.Base as Codec
use daphne.Codec.Base.{Bytes, Writer, extend}
use daphne.Codec.Prio.{to_be_bytes}
use daphne.Errors.{Outcome, ok, err, abort, batch_mismatch, fatal}
use daphne.Messages.Ids.{TaskId}
use daphne.Request.{DapMediaType, DapResource, DapRequest, DapResponse}
use daphne.Roles.Tasks.{DapTasks}
use daphne.Messages.Batch.{BatchSelector}
use daphne.Messages.Collection.{AggregateShareReq}
use daphne.Task.{draft09, DapTaskConfig, DapGlobalConfig, DapQueryConfig}
use daphne.Share.{VdafAggregateShare, of_field32, of_field64, of_field128, DapAggregateShare}
use daphne.Protocol.Init.{DapAggregationParam, empty}
use daphne.Protocol.AggShare.{HpkeEncrypter}
use daphne.Helper.AggShare.{BatchStore, answer_agg_share_req}
use daphne.Helper.AggShare.Handler.{handle_agg_share_req}
use daphne.Helper.AggShare.Answered.{IsRead, IsMatching}
use daphne.Helper.AggShare.Checked.{
  IsAdmitted, MarksChecked, handle_agg_share_req-IsMatching, handle_agg_share_req-MarksChecked,
}
use daphne.Tests.Reference.{reference}
use daphne.Tests.Roles.{global}
use daphne.Tests.Shares.{toy}
use daphne.Tests.Task.{hourly, two_hours}

abbrev pub raw : VdafAggregateShare toy → Writer
raw (of_field32 s) = extend s
raw (of_field64 s) = extend s
raw (of_field128 s) = extend s

abbrev pub open_box : HpkeEncrypter
open_box = λ config info aad plaintext. ok (record { config_id = 7; enc = []; payload = plaintext })

abbrev pub helper_share : DapAggregateShare toy
helper_share = record {
  report_count = 12;
  min_time = 7200;
  max_time = 14000;
  checksum = replicate 32 3;
  agg_data = some (of_field64 (1 ∷ 0 ∷ []));
}

-- One batch, and whether it has been collected.
abbrev one_batch : BatchStore toy
one_batch = record {
  Store = Bool;
  batches = λ collected. record {
    batch_exists = λ task_id batch_id. ok true;
    is_batch_overlapping = λ task_id batch_sel. ok collected;
  };
  get_agg_share = λ task_id batch_sel collected. ok helper_share;
  mark_collected = λ task_id batch_sel collected. (ok tt, true);
}

abbrev req_with : ℕ → AggregateShareReq
req_with report_count = record {
  batch_sel = BatchSelector.time_interval two_hours;
  agg_param = [];
  report_count = report_count;
  checksum = replicate 32 3;
}

abbrev wire_with : ℕ → Bytes
wire_with report_count =
    1
    ∷ (to_be_bytes 8 7200
        ++ (to_be_bytes 8 7200
            ++ (to_be_bytes 4 0 ++ (to_be_bytes 8 report_count ++ replicate 32 3))))

-- One task on record.
abbrev tasks : DapTasks Bytes Bool
tasks = record {
  NeedsOptIn = DapTaskConfig;
  get_global_config = λ s. ok global;
  get_task_config_for = λ task_id s. ok (some hourly);
  taskprov_vdaf_verify_key_init = none;
  taskprov_collector_hpke_config = none;
  resolve_advertised_task_config = λ req key config task_id. ok none;
  taskprov_opt_in = λ task_id advertised g s. (ok advertised, s);
  taskprov_put = λ req t s. (ok tt, s);
}

abbrev all_authorized : DapTaskConfig → DapRequest Bytes → Bool → Outcome (Option Bytes)
all_authorized = λ t req s. ok none

abbrev leader_req : ℕ → DapRequest Bytes
leader_req report_count = record {
  version = draft09;
  media_type = some DapMediaType.aggregate_share_req;
  task_id = some [];
  resource = DapResource.undefined;
  payload = wire_with report_count;
  sender_auth = none;
  taskprov = none;
}

abbrev resp_12 : DapResponse
resp_12 = record {
  version = draft09;
  media_type = DapMediaType.aggregate_share;
  payload = 7 ∷ 0 ∷ 0 ∷ 0 ∷ 0 ∷ 0 ∷ 2 ∷ 1 ∷ 0 ∷ [];
}

answered_12 :
    handle_agg_share_req reference raw open_box one_batch tasks all_authorized 9000
      (leader_req 12)
      false
    ≡ (ok resp_12, true)
unfolding handle_agg_share_req answer_agg_share_req daphne.Roles.Calls.then_with
    daphne.Request.request_task_id daphne.Request.check_request_content_type
    daphne.Roles.Tasks.or_unrecognized daphne.Roles.Checks.unless_denied
    daphne.Roles.Checks.check_version daphne.Roles.Checks.version_eq daphne.Request.media_eq
    reference daphne.Messages.Collection.decode_agg_share_req daphne.Messages.Batch.decode_batch_sel
    daphne.Messages.Batch.decode_interval Codec.pure daphne.Codec.Lengths.decode_u32_bytes
    Codec.read_exact daphne.Protocol.Init.decoded_param daphne.Protocol.Init.decode_agg_param
    daphne.Roles.check_batch daphne.Task.is_valid_agg_param daphne.Messages.Batch.query_of
    daphne.Messages.Batch.into_batch_sel daphne.Messages.Compare.constant_time_eq
    daphne.Task.is_report_count_compatible daphne.Protocol.AggShare.produce_encrypted_agg_share
    extend Codec.done Codec.◌>>=◌ Codec.◌>>◌ daphne.Codec.Lengths.encode_prefixed
    daphne.Codec.Lengths.encode_u16_bytes daphne.Codec.Lengths.encode_u32_bytes
    daphne.Messages.Batch.encode_batch_sel daphne.Messages.Batch.encode_interval
    daphne.Messages.Collection.encode_agg_share daphne.Messages.Ids.encode_id
    daphne.Messages.Report.encode_ciphertext daphne.Protocol.Init.encode_agg_param
answered_12 = refl

handle_agg_share_req-IsMatching_example :
    (task_id : TaskId) × (g : DapGlobalConfig) × (t : DapTaskConfig) × (between : Bool)
    × (agg_share_req : AggregateShareReq) × (agg_param : DapAggregationParam)
    × (agg_share : DapAggregateShare toy) × IsAdmitted reference raw open_box one_batch tasks
        all_authorized 9000
        (leader_req 12)
        false
        true
        task_id
        g
        t
        between
    × IsRead reference raw open_box one_batch t g task_id
        (wire_with 12)
        9000
        between
        agg_share_req
        agg_param
        agg_share
    × IsMatching reference raw open_box one_batch t g task_id agg_share_req agg_share
    × (one_batch.mark_collected task_id agg_share_req.batch_sel between ≡ (ok tt, true))
handle_agg_share_req-IsMatching_example =
    handle_agg_share_req-IsMatching reference raw open_box one_batch tasks all_authorized 9000
      (leader_req 12) false true resp_12 answered_12

-- The Collector's configuration cannot be used, so that the batch is marked and no share given out.
abbrev no_encryption : HpkeEncrypter
no_encryption = λ config info aad plaintext. err fatal

marked_12 :
    handle_agg_share_req reference raw no_encryption one_batch tasks all_authorized 9000
      (leader_req 12)
      false
    ≡ (err fatal, true)
unfolding handle_agg_share_req answer_agg_share_req daphne.Roles.Calls.then_with
    daphne.Request.request_task_id daphne.Request.check_request_content_type
    daphne.Roles.Tasks.or_unrecognized daphne.Roles.Checks.unless_denied
    daphne.Roles.Checks.check_version daphne.Roles.Checks.version_eq daphne.Request.media_eq
    reference daphne.Messages.Collection.decode_agg_share_req daphne.Messages.Batch.decode_batch_sel
    daphne.Messages.Batch.decode_interval Codec.pure daphne.Codec.Lengths.decode_u32_bytes
    Codec.read_exact daphne.Protocol.Init.decoded_param daphne.Protocol.Init.decode_agg_param
    daphne.Roles.check_batch daphne.Task.is_valid_agg_param daphne.Messages.Batch.query_of
    daphne.Messages.Batch.into_batch_sel daphne.Messages.Compare.constant_time_eq
    daphne.Task.is_report_count_compatible daphne.Protocol.AggShare.produce_encrypted_agg_share
    extend Codec.done Codec.◌>>=◌ Codec.◌>>◌ daphne.Codec.Lengths.encode_prefixed
    daphne.Codec.Lengths.encode_u16_bytes daphne.Codec.Lengths.encode_u32_bytes
    daphne.Messages.Batch.encode_batch_sel daphne.Messages.Batch.encode_interval
    daphne.Messages.Collection.encode_agg_share daphne.Messages.Ids.encode_id
    daphne.Messages.Report.encode_ciphertext daphne.Protocol.Init.encode_agg_param
marked_12 = refl

-- The Leader's count is another one.
mismatched_11 :
    handle_agg_share_req reference raw open_box one_batch tasks all_authorized 9000
      (leader_req 11)
      false
    ≡ (err (abort batch_mismatch), false)
unfolding handle_agg_share_req answer_agg_share_req daphne.Roles.Calls.then_with
    daphne.Request.request_task_id daphne.Request.check_request_content_type
    daphne.Roles.Tasks.or_unrecognized daphne.Roles.Checks.unless_denied
    daphne.Roles.Checks.check_version daphne.Roles.Checks.version_eq daphne.Request.media_eq
    reference daphne.Messages.Collection.decode_agg_share_req daphne.Messages.Batch.decode_batch_sel
    daphne.Messages.Batch.decode_interval Codec.pure daphne.Codec.Lengths.decode_u32_bytes
    Codec.read_exact daphne.Protocol.Init.decoded_param daphne.Protocol.Init.decode_agg_param
    daphne.Roles.check_batch daphne.Task.is_valid_agg_param daphne.Messages.Batch.query_of
    daphne.Messages.Batch.into_batch_sel daphne.Messages.Compare.constant_time_eq
    daphne.Task.is_report_count_compatible daphne.Protocol.AggShare.produce_encrypted_agg_share
    extend Codec.done Codec.◌>>=◌ Codec.◌>>◌ daphne.Codec.Lengths.encode_prefixed
    daphne.Codec.Lengths.encode_u16_bytes daphne.Codec.Lengths.encode_u32_bytes
    daphne.Messages.Batch.encode_batch_sel daphne.Messages.Batch.encode_interval
    daphne.Messages.Collection.encode_agg_share daphne.Messages.Ids.encode_id
    daphne.Messages.Report.encode_ciphertext daphne.Protocol.Init.encode_agg_param
mismatched_11 = refl

handle_agg_share_req-MarksChecked_example :
    MarksChecked reference raw no_encryption one_batch tasks all_authorized 9000
      (leader_req 12)
      false
      true
handle_agg_share_req-MarksChecked_example =
    handle_agg_share_req-MarksChecked reference raw no_encryption one_batch tasks all_authorized
      9000 (leader_req 12) false true (err fatal) marked_12
