-- ===== src/Tests/Run.antt =====
-- The theorems about the Leader's jobs at a concrete batch. The Helper answers every request with the
-- same aggregate share.
use daphne.Common.{◌≡◌, ◌≤◌, refl, Bool, true, false, Option, none, [], ◌∷◌, replicate, arith}
use daphne.Codec.Base as Codec
use daphne.Codec.Base.{Bytes}
use daphne.Errors.{Outcome, ok}
use daphne.Messages.Batch.{BatchSelector}
use daphne.Task.{draft09, DapTaskConfig, DapBatchBucket}
use daphne.Share.{DapAggregateShare}
use daphne.Span.{DapAggregateSpan}
use daphne.Request.{DapMediaType, DapResponse}
use daphne.Protocol.Init.{DapAggregationParam}
use daphne.Helper.{refused, already_collected}
use daphne.Leader.Peer.{HelperPeer}
use daphne.Leader.Run.{span_report_count, JobStore, put_agg_span, run_coll_job}
use daphne.Leader.Run.Counted.{put_agg_span-refused}
use daphne.Leader.Run.Collected.{IsFinished, run_coll_job-IsFinished}
use daphne.Tests.Reference.{reference}
use daphne.Tests.Shares.{toy}
use daphne.Tests.AggShare.{raw, open_box, helper_share}
use daphne.Tests.Task.{hourly, two_hours}
use daphne.Tests.Memory.{id, job_id}

abbrev noon_bucket : DapBatchBucket
noon_bucket = DapBatchBucket.time_interval 43200 1

-- Every bucket has been collected, and whether the batch has been marked.
abbrev all_collected : JobStore toy Bool
all_collected = record {
  try_put_agg_share_span = λ task_id t span s.
      ((noon_bucket, refused already_collected, (replicate 16 1, 43200) ∷ []) ∷ [], s);
  get_agg_share = λ task_id batch_sel s. (ok helper_share, s);
  finish_collect_job = λ task_id coll_job_id collection s. (ok tt, s);
  mark_collected = λ task_id batch_sel s. (ok tt, true);
}

abbrev one_bucket : DapAggregateSpan toy
one_bucket = (noon_bucket, (helper_share, (replicate 16 1, 43200) ∷ [])) ∷ []

put_agg_span-refused_example :
    (put_agg_span all_collected id hourly one_bucket false).0 ≡ ok (span_report_count one_bucket)
put_agg_span-refused_example =
    put_agg_span-refused all_collected id hourly one_bucket false (refl, tt)

abbrev answer : DapResponse
answer = record {
  version = draft09;
  media_type = DapMediaType.aggregate_share;
  payload = 7 ∷ 0 ∷ 0 ∷ 0 ∷ 0 ∷ 0 ∷ 2 ∷ 1 ∷ 0 ∷ [];
}

abbrev always_answers : HelperPeer Bytes Bool Bytes
always_answers = record {
  aggregation_job_url = λ t task_id agg_job_id. ok agg_job_id;
  aggregate_share_url = λ t task_id. ok task_id;
  authorize = λ task_id t media_type payload s. ok [];
  send_http_post = λ req url s. (ok answer, s);
  send_http_put = λ req url s. (ok answer, s);
}

abbrev not_advertised : DapTaskConfig → Outcome (Option Bytes)
not_advertised = λ t. ok none

collected_12 :
    run_coll_job reference raw open_box all_collected always_answers not_advertised id hourly job_id
      (BatchSelector.time_interval two_hours)
      DapAggregationParam.empty
      false
    ≡ (ok 12, true)
unfolding run_coll_job daphne.Roles.Calls.then_with daphne.Task.is_report_count_compatible
    daphne.Protocol.AggShare.produce_encrypted_agg_share reference Codec.extend Codec.◌>>◌
    daphne.Messages.Ids.encode_id Codec.done daphne.Codec.Lengths.encode_prefixed
    daphne.Protocol.Init.encode_agg_param daphne.Messages.Batch.encode_batch_sel
    daphne.Messages.Batch.encode_interval daphne.Messages.Collection.encode_agg_share_req
    daphne.Codec.Lengths.encode_u32_bytes daphne.Leader.Peer.leader_send_http_request
    daphne.Roles.Checks.or_invalid_message Codec.pure Codec.read_exact
    daphne.Codec.Lengths.decode_u16_bytes daphne.Codec.Lengths.decode_u32_bytes
    daphne.Leader.Peer.check_response_content_type daphne.Messages.Batch.part_batch_sel_of
    daphne.Messages.Collection.decode_agg_share daphne.Messages.Report.decode_ciphertext
    daphne.Protocol.AggShare.agg_data_or daphne.Request.media_eq
    daphne.Task.quantized_time_lower_bound daphne.Task.quantized_time_upper_bound
    daphne.Leader.Run.collection_interval daphne.Leader.Run.collect_batch
collected_12 = refl

share_times :
    (agg_share : DapAggregateShare toy) (begin : Bool)
    → all_collected.get_agg_share id (BatchSelector.time_interval two_hours) false
      ≡ (ok agg_share, begin)
    → helper_share ≡ agg_share
share_times agg_share begin e = cc

run_coll_job-IsFinished_example :
    (agg_share : DapAggregateShare toy) × (begin : Bool) × (all_collected.get_agg_share id
        (BatchSelector.time_interval two_hours)
        false
      ≡ (ok agg_share, begin))
    × (12 ≡ agg_share.report_count)
    × (10 ≤ 12)
    × IsFinished reference raw open_box all_collected always_answers not_advertised id hourly job_id
        (BatchSelector.time_interval two_hours)
        DapAggregationParam.empty
        false
        true
        12
        agg_share
        true
run_coll_job-IsFinished_example =
    run_coll_job-IsFinished reference raw open_box all_collected always_answers not_advertised id
      hourly job_id (BatchSelector.time_interval two_hours) DapAggregationParam.empty false true 12
      (omega arith)
      (λ agg_share begin e. rw (← share_times agg_share begin e) (omega arith, omega arith))
      (omega arith) collected_12
