-- ===== src/Tests/Testing.antt =====
-- The theorems about the storage in memory at concrete buckets.
use daphne.Common.{
  inr, zip_xor, ◌≡◌, ◌≢◌, refl, inl, In, true, false, some, List, [], ◌∷◌, map, replicate,
}
use daphne.Errors.{ok}
use daphne.Messages.Ids.{ReportId}
use daphne.Messages.Batch.{BatchSelector, Interval}
use daphne.Task.{DapBatchBucket, batch_span_for_sel}
use daphne.Share.{DapAggregateShare, of_field64, reset}
use daphne.Protocol.Job.Step.{helper_of}
use daphne.Helper.{finish_agg_job_and_aggregate, refused, already_collected, replays_detected}
use daphne.Helper.Rounds.{AllCommitted}
use daphne.Testing.{AggregateStore, InMemoryAggregateStore, put_bucket, replayed_in}
use daphne.Testing.Laws.{in_memory, in_memory_laws, finish_agg_job_and_aggregate-InStore}
use daphne.Testing.Replays.{put_bucket-collected}
use daphne.Testing.Batches.{is_batch_overlapping, get_agg_share, mark_collected}
use daphne.Testing.Batches.Closed.{mark_collected-closes}
use daphne.Testing.Batches.Collected.{mark_collected-overlapping}
use daphne.Tests.Reference.{reference}
use daphne.Tests.Protocol.{toy_vdaf, by_time, jobs, resp}
use daphne.Tests.Shares.{toy, toy_digest}
use daphne.Tests.Task.{hourly, two_hours}

abbrev first_id : ReportId
first_id = replicate 16 1

abbrev stored_share : DapAggregateShare toy
stored_share = record {
  report_count = 1;
  min_time = 43200;
  max_time = 43200;
  checksum = zip_xor (replicate 32 0) (zip_xor (replicate 32 0) (toy_digest first_id));
  agg_data = some (of_field64 (1 ∷ 0 ∷ []));
}

-- What the Helper leaves in an empty storage.
abbrev stored : InMemoryAggregateStore toy
stored =
    (
      (replicate 32 9, DapBatchBucket.time_interval 43200 1),
      record { agg_share = stored_share; collected = false; reports = first_id ∷ [] },
    )
    ∷ []

stored_answer :
    finish_agg_job_and_aggregate reference toy_vdaf
      (in_memory toy)
      (replicate 32 9)
      hourly
      by_time
      (map (helper_of toy_vdaf) jobs)
      []
    ≡ (ok resp, stored)
unfolding finish_agg_job_and_aggregate daphne.Protocol.Job.produce_agg_job_resp
    daphne.Protocol.Job.status_of daphne.Span.add_out_share daphne.Task.is_valid_part_batch_sel
    daphne.Task.bucket_for daphne.Share.share_add_out_share reset
    daphne.Protocol.Framing.encode_ping_pong_framed daphne.Codec.Lengths.encode_u32_bytes
    daphne.Codec.Base.◌>>◌ reference daphne.Codec.Base.extend daphne.Codec.Base.done
    daphne.Testing.try_put_agg_share_span
stored_answer = refl

finish_agg_job_and_aggregate-InStore_example :
    AllCommitted reference toy_vdaf
      (in_memory_laws toy)
      (replicate 32 9)
      hourly
      by_time
      (map (helper_of toy_vdaf) jobs)
      stored
      resp.transitions
finish_agg_job_and_aggregate-InStore_example =
    finish_agg_job_and_aggregate-InStore reference toy_vdaf (replicate 32 9) hourly by_time
      (map (helper_of toy_vdaf) jobs) [] resp stored stored_answer

abbrev closed : AggregateStore toy
closed = record { agg_share = reset; collected = true; reports = first_id ∷ [] }

second_new : replayed_in (first_id ∷ []) (replicate 16 2 ∷ []) ≡ []
unfolding replayed_in
second_new = refl

put_bucket-collected_example :
    (after : AggregateStore toy) × (replayed : List ReportId) × (put_bucket reset
        (replicate 16 2 ∷ [])
        closed
      ≡ (refused already_collected, after))
    × (put_bucket reset (replicate 16 2 ∷ []) after ≡ (refused (replays_detected replayed), after))
    × In (replicate 16 2) replayed
put_bucket-collected_example =
    put_bucket-collected {c = toy} reset (replicate 16 2 ∷ []) closed (replicate 16 2) refl
      second_new (inl refl)

abbrev last_hour : Interval
last_hour = record { start = 10800; duration = 3600 }

abbrev two_hours_span : List DapBatchBucket
two_hours_span =
    DapBatchBucket.time_interval 7200 0
    ∷ DapBatchBucket.time_interval 7200 1
    ∷ DapBatchBucket.time_interval 10800 0
    ∷ DapBatchBucket.time_interval 10800 1
    ∷ []

span_of_two_hours :
    batch_span_for_sel hourly (BatchSelector.time_interval two_hours) ≡ ok two_hours_span
unfolding batch_span_for_sel
span_of_two_hours = refl

abbrev last_hour_span : List DapBatchBucket
last_hour_span = DapBatchBucket.time_interval 10800 0 ∷ DapBatchBucket.time_interval 10800 1 ∷ []

span_of_last_hour :
    batch_span_for_sel hourly (BatchSelector.time_interval last_hour) ≡ ok last_hour_span
unfolding batch_span_for_sel
span_of_last_hour = refl

mark_collected-overlapping_example :
    (is_batch_overlapping
      (replicate 32 9)
      hourly
      (BatchSelector.time_interval last_hour)
      (mark_collected (replicate 32 9) hourly (BatchSelector.time_interval two_hours) stored).1).0
    ≡ ok true
mark_collected-overlapping_example =
    mark_collected-overlapping (replicate 32 9) hourly (BatchSelector.time_interval two_hours)
      (BatchSelector.time_interval last_hour) (DapBatchBucket.time_interval 10800 0) two_hours_span
      last_hour_span stored span_of_two_hours span_of_last_hour (inr (inr (inl refl))) (inl refl)

abbrev noon : BatchSelector
noon = BatchSelector.time_interval (record { start = 43200; duration = 3600 })

abbrev noon_span : List DapBatchBucket
noon_span = DapBatchBucket.time_interval 43200 0 ∷ DapBatchBucket.time_interval 43200 1 ∷ []

span_of_noon : batch_span_for_sel hourly noon ≡ ok noon_span
unfolding batch_span_for_sel
span_of_noon = refl

-- The share of the batch before it is marked.
abbrev given : DapAggregateShare toy
given = record {
  report_count = 1;
  min_time = 43200;
  max_time = 43200;
  checksum = zip_xor (zip_xor (replicate 32 0) (replicate 32 0)) stored_share.checksum;
  agg_data = some (of_field64 (1 ∷ 0 ∷ []));
}

share_of_noon : (get_agg_share (replicate 32 9) hourly noon stored).0 ≡ ok given
unfolding get_agg_share batch_span_for_sel daphne.Testing.for_bucket daphne.Share.merge reset
share_of_noon = refl

mark_collected-closes_example :
    (get_agg_share
      (replicate 32 9)
      hourly
      noon
      (mark_collected (replicate 32 9) hourly noon stored).1).0
    ≢ ok given
mark_collected-closes_example =
    mark_collected-closes (replicate 32 9) hourly noon noon (DapBatchBucket.time_interval 43200 1)
      noon_span noon_span stored given span_of_noon span_of_noon (inr (inl refl)) (inr (inl refl))
