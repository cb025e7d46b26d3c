-- ===== src/Tests/Helper.antt =====
-- The theorems about the Helper at a concrete storage: a list of the IDs that it has committed, which
-- refuses nothing.
use daphne.Common.{
  Bool, true, false, if◌then◌else◌, arith, ◌≡◌, refl, inl, inr, In, In-append_left, In-append_right,
  List, [], ◌∷◌, ◌++◌, map, replicate,
}
use daphne.Errors.{ok}
use daphne.Messages.Ids.{ReportId}
use daphne.Task.{is_valid_part_batch_sel, DapBatchBucket}
use daphne.Span.{get, DapAggregateSpan}
use daphne.Span.Reports.{InSpan}
use daphne.Protocol.Job.Step.{helper_of}
use daphne.Helper.Answers.{
  AllMerged, NoFailures, finish_agg_job_and_aggregate-agreement,
  finish_agg_job_and_aggregate-answers,
}
use daphne.Share.{field64}
use daphne.Protocol.Job.{consume_agg_job_resp}
use daphne.Protocol.Job.View.{view}
use daphne.Messages.Aggregation.{AggregationJobResp}
use daphne.Helper.{
  refused, replays_detected, AggregateStore, MergeSpan, merged, report_id_of,
  finish_agg_job_and_aggregate,
}
use daphne.Helper.Committed.{StoreLaws, InResults, InMerged}
use daphne.Helper.Rounds.{AllCommitted, finish_agg_job_and_aggregate-committed}
use daphne.Tests.Reference.{reference, reference_laws}
use daphne.Tests.Protocol.{leader_state, jobs-IsHonest, toy_vdaf, by_time, jobs, resp}
use daphne.Tests.Shares.{toy, toy_laws}
use daphne.Tests.Task.{hourly}

abbrev all_merged : DapAggregateSpan toy → MergeSpan
all_merged [] = []
all_merged ((bucket, entry) ∷ span) = (bucket, merged, entry.1) ∷ all_merged span

abbrev ids_of : DapAggregateSpan toy → List ReportId
ids_of [] = []
ids_of ((bucket, entry) ∷ span) = map report_id_of entry.1 ++ ids_of span

abbrev kept_ids : AggregateStore toy
kept_ids = record {
  Store = List ReportId;
  try_put_agg_share_span = λ task_id t span store. (all_merged span, ids_of span ++ store);
}

all_merged-InResults :
    (span : DapAggregateSpan toy) (id : ReportId) → InSpan id span → InResults id (all_merged span)
all_merged-InResults [] id h = h
all_merged-InResults ((bucket, entry) ∷ span) id (inl h) = inl h
all_merged-InResults ((bucket, entry) ∷ span) id (inr h) = inr (all_merged-InResults span id h)

all_merged-In :
    (span : DapAggregateSpan toy) (id : ReportId)
    → InMerged id (all_merged span)
    → In id (ids_of span)
all_merged-In [] id h = h
all_merged-In ((bucket, entry) ∷ span) id (inl h) =
    In-append_left id (map report_id_of entry.1) (ids_of span) h
all_merged-In ((bucket, entry) ∷ span) id (inr h) =
    In-append_right id (map report_id_of entry.1) (ids_of span) (all_merged-In span id h)

kept_ids_laws : StoreLaws kept_ids
kept_ids_laws = record {
  IsCommitted = λ store id. In id store;
  covers = λ task_id t span store id h. all_merged-InResults span id h;
  commits =
      λ task_id t span store id h. In-append_left id (ids_of span) store (all_merged-In span id h);
  keeps = λ task_id t span store id h. In-append_right id (ids_of span) store h;
}

answered :
    finish_agg_job_and_aggregate reference toy_vdaf kept_ids
      (replicate 32 9)
      hourly
      by_time
      (map (helper_of toy_vdaf) jobs)
      []
    ≡ (ok resp, replicate 16 1 ∷ [])
unfolding finish_agg_job_and_aggregate daphne.Protocol.Job.produce_agg_job_resp
    daphne.Protocol.Job.status_of daphne.Span.add_out_share daphne.Task.is_valid_part_batch_sel
    daphne.Task.bucket_for daphne.Share.share_add_out_share daphne.Share.reset
    daphne.Protocol.Framing.encode_ping_pong_framed daphne.Codec.Lengths.encode_u32_bytes
    daphne.Codec.Base.◌>>◌ reference daphne.Codec.Base.extend daphne.Codec.Base.done
answered = refl

finish_agg_job_and_aggregate-committed_example :
    AllCommitted reference toy_vdaf kept_ids_laws
      (replicate 32 9)
      hourly
      by_time
      (map (helper_of toy_vdaf) jobs)
      (replicate 16 1 ∷ [])
      resp.transitions
finish_agg_job_and_aggregate-committed_example =
    finish_agg_job_and_aggregate-committed reference toy_vdaf kept_ids_laws (replicate 32 9) hourly
      by_time (map (helper_of toy_vdaf) jobs) [] resp (replicate 16 1 ∷ []) answered

all_merged-AllMerged : (span : DapAggregateSpan toy) → AllMerged (all_merged span)
all_merged-AllMerged [] = tt
all_merged-AllMerged ((bucket, entry) ∷ span) = (refl, all_merged-AllMerged span)

finish_agg_job_and_aggregate-agreement_example :
    (helper_span : DapAggregateSpan toy) × (leader_span : DapAggregateSpan toy)
    × (answer : AggregationJobResp) × (finish_agg_job_and_aggregate reference toy_vdaf kept_ids
          (replicate 32 9)
          hourly
          by_time
          (map (helper_of toy_vdaf) jobs)
          []
        ≡ (ok answer, (kept_ids.try_put_agg_share_span (replicate 32 9) hourly helper_span []).1))
    × (consume_agg_job_resp reference toy_vdaf hourly leader_state answer ≡ ok leader_span)
    × ((k : DapBatchBucket) → view (get helper_span k) ≡ view (get leader_span k))
unfolding is_valid_part_batch_sel
finish_agg_job_and_aggregate-agreement_example =
    finish_agg_job_and_aggregate-agreement reference_laws toy_laws toy_vdaf field64 2 hourly by_time
      kept_ids (replicate 32 9) refl (omega arith) jobs [] jobs-IsHonest (omega arith)
      all_merged-AllMerged

-- Everything is a replay.
abbrev all_replayed : DapAggregateSpan toy → MergeSpan
all_replayed [] = []
all_replayed ((bucket, entry) ∷ span) =
    (bucket, refused (replays_detected (map report_id_of entry.1)), entry.1) ∷ all_replayed span

-- The storage that has everything at first, and refuses nothing later.
abbrev had_all : AggregateStore toy
had_all = record {
  Store = Bool;
  try_put_agg_share_span =
      λ task_id t span first. (if first then all_replayed span else all_merged span, false);
}

all_replayed-NoFailures : (span : DapAggregateSpan toy) → NoFailures (all_replayed span)
all_replayed-NoFailures [] = tt
all_replayed-NoFailures ((bucket, entry) ∷ span) = (tt, all_replayed-NoFailures span)

finish_agg_job_and_aggregate-answers_example :
    (answer : AggregationJobResp) × (store : Bool) × (finish_agg_job_and_aggregate reference
        toy_vdaf had_all
        (replicate 32 9)
        hourly
        by_time
        (map (helper_of toy_vdaf) jobs)
        true
      ≡ (ok answer, store))
unfolding is_valid_part_batch_sel
finish_agg_job_and_aggregate-answers_example =
    finish_agg_job_and_aggregate-answers reference_laws toy_laws toy_vdaf field64 2 hourly by_time
      had_all (replicate 32 9) refl (omega arith) jobs true jobs-IsHonest (omega arith)
      all_replayed-NoFailures (λ span span'. all_merged-AllMerged span')
