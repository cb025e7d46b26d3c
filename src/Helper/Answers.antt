-- ===== src/Helper/Answers.antt =====
-- When the Helper answers: the storage refuses nothing, or only in the first round.
use daphne.Common.{
  Bool-cases, inl, inr, true, ℕ, ◌<◌, ◌≡◌, refl, sym, ◌∙◌, Bool, false, List, [], ◌∷◌, map, All,
  length,
}
use daphne.Codec.Prio.{Prio, PrioLaws}
use daphne.Errors.{ok}
use daphne.Messages.Ids.{TaskId}
use daphne.Messages.Batch.{PartialBatchSelector}
use daphne.Messages.Aggregation.{AggregationJobResp}
use daphne.Task.{DapTaskConfig, DapBatchBucket, is_valid_part_batch_sel, u64_end}
use daphne.Share.{Field, Crypto}
use daphne.Share.Summary.{CryptoLaws}
use daphne.Span.{DapAggregateSpan, get}
use daphne.Protocol.Vdaf.{Vdaf}
use daphne.Protocol.Job.{aggregated, ReportStatus, consume_agg_job_resp}
use daphne.Protocol.Job.View.{view}
use daphne.Protocol.Job.Step.{Job, IsHonest, helper_of, leader_of}
use daphne.Protocol.Job.Agreement.{agg_job-agreement}
use daphne.Protocol.Job.Total.{produce_agg_job_resp-total}
use daphne.Helper.{
  MergeResult, already_collected, replays_detected, other, merged, refused, MergeSpan,
  AggregateStore, report_id_of, mark, record_results, end_of_round, one_round, rounds,
  finish_agg_job_and_aggregate,
}

-- No bucket is refused.
abbrev pub AllMerged : MergeSpan → Type 0
AllMerged = All (λ r. r.1 ≡ merged)

record_results-AllMerged :
    (results : MergeSpan) (report_status : ReportStatus) (restart : Bool)
    → AllMerged results
    → (report_status' : ReportStatus) × (record_results results report_status restart
        ≡ ok (report_status', restart))
unfolding record_results
record_results-AllMerged [] report_status restart h = (report_status, refl)
record_results-AllMerged ((bucket, merged, reports) ∷ results) report_status restart h =
    record_results-AllMerged results (mark aggregated (map report_id_of reports) report_status)
      restart h.1
record_results-AllMerged ((bucket, refused e, reports) ∷ results) report_status restart h =
    let no_error = h.0 in cc

-- The storage has not failed in a way that stops the Helper.
abbrev NoFailure : MergeResult → Type 0
NoFailure merged = Unit
NoFailure (refused already_collected) = Unit
NoFailure (refused (replays_detected replays)) = Unit
NoFailure (refused (other e)) = ⊥

abbrev pub NoFailures : MergeSpan → Type 0
NoFailures = All (λ r. NoFailure r.1)

record_results-total :
    (results : MergeSpan) (report_status : ReportStatus) (restart : Bool)
    → NoFailures results
    → (status : ReportStatus) × (restart' : Bool) × (record_results results report_status restart
        ≡ ok (status, restart'))
unfolding record_results
record_results-total [] report_status restart h = (report_status, restart, refl)
record_results-total ((bucket, merged, reports) ∷ results) report_status restart h =
    record_results-total results _ restart h.1
record_results-total ((bucket, refused already_collected, reports) ∷ results) report_status restart
      h =
    record_results-total results _ true h.1
record_results-total ((bucket, refused (replays_detected replays), reports) ∷ results) report_status
      restart h =
    record_results-total results _ true h.1
record_results-total ((bucket, refused (other e), reports) ∷ results) report_status restart h =
    elim h.0 [ ]

module _ {p : Prio} (codec_laws : PrioLaws p) {c : Crypto} (laws : CryptoLaws c) (v : Vdaf c)
    (f : Field) (n : ℕ) (t : DapTaskConfig) (sel : PartialBatchSelector) (s : AggregateStore c)
    (task_id : TaskId) (valid : is_valid_part_batch_sel t.query sel ≡ true)
    (pos : 0 < t.time_precision) where
  -- For every codec with the laws of `PrioLaws` and shares with the laws of `CryptoLaws`, in a task
  -- with a positive time precision and a fitting batch selector, for less than 2^64 reports that are
  -- all honest, and a storage that refuses no bucket of any span: the Helper answers after one call of
  -- the storage, the Leader accepts the response, and for every batch bucket the span that the
  -- Helper has stored and the span of the Leader have the same report count, times, checksum and
  -- reports.
  pub finish_agg_job_and_aggregate-agreement :
      (jobs : List (Job v)) (store : s.Store)
      → All (IsHonest codec_laws laws v f n t sel) jobs
      → length jobs < u64_end
      → ((span : DapAggregateSpan c) → AllMerged (s.try_put_agg_share_span task_id t span store).0)
      → (helper_span : DapAggregateSpan c) × (leader_span : DapAggregateSpan c)
        × (resp : AggregationJobResp) × (finish_agg_job_and_aggregate p v s task_id t sel
              (map (helper_of v) jobs)
              store
            ≡ (ok resp, (s.try_put_agg_share_span task_id t helper_span store).1))
        × (consume_agg_job_resp p v t
              (record { seq = map (leader_of v) jobs; part_batch_sel = sel })
              resp
            ≡ ok leader_span)
        × ((k : DapBatchBucket) → view (get helper_span k) ≡ view (get leader_span k))
  unfolding finish_agg_job_and_aggregate rounds one_round end_of_round
  finish_agg_job_and_aggregate-agreement jobs store h fits accepts =
      let (helper_span, leader_span, resp, produced, consumed, same) =
        agg_job-agreement codec_laws laws v f n t sel valid pos jobs h fits in
      let put = s.try_put_agg_share_span task_id t helper_span store in
      let (report_status, recorded) =
        record_results-AllMerged put.0 [] false (accepts helper_span) in
      (
        helper_span,
        leader_span,
        resp,
        rw (produced, recorded) refl,
        consumed,
        λ k. let (a, b) = same k in a ∙ sym b,
      )

  -- For every codec with the laws of `PrioLaws` and shares with the laws of `CryptoLaws`, in a task
  -- with a positive time precision and a fitting batch selector, for less than 2^64 reports that are
  -- all honest, and a storage that, when it is called first, refuses buckets at most for replays or
  -- because they are collected, and refuses nothing when it is called next: the Helper answers.
  pub finish_agg_job_and_aggregate-answers :
      (jobs : List (Job v)) (store : s.Store)
      → All (IsHonest codec_laws laws v f n t sel) jobs
      → length jobs < u64_end
      → ((span : DapAggregateSpan c) → NoFailures (s.try_put_agg_share_span task_id t span store).0)
      → ((span span' : DapAggregateSpan c)
          → AllMerged
              (s.try_put_agg_share_span task_id t span'
                (s.try_put_agg_share_span task_id t span store).1).0)
      → (resp : AggregationJobResp) × (store' : s.Store) × (finish_agg_job_and_aggregate p v s
            task_id t sel
            (map (helper_of v) jobs)
            store
          ≡ (ok resp, store'))
  unfolding finish_agg_job_and_aggregate rounds one_round end_of_round
  finish_agg_job_and_aggregate-answers jobs store h fits first second =
      let (x, e) =
        produce_agg_job_resp-total codec_laws laws v f n t sel valid pos [] jobs h fits in
      let put = s.try_put_agg_share_span task_id t x.0 store in
      let (status, restart, recorded) = record_results-total put.0 [] false (first x.0) in
      elim (Bool-cases restart) [
        | inr done ↦ (x.1, put.1, rw (e, recorded, done) refl)
        | inl again ↦
            let (x', e') =
              produce_agg_job_resp-total codec_laws laws v f n t sel valid pos status jobs h fits in
            let put' = s.try_put_agg_share_span task_id t x'.0 put.1 in
            let (status', recorded') =
              record_results-AllMerged put'.0 status false (second x.0 x'.0) in
            (x'.1, put'.1, rw (e, recorded, again, e', recorded') refl)
      ]
