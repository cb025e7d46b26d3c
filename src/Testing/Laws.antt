-- ===== src/Testing/Laws.antt =====
-- The storage in memory behaves as the Helper expects of a storage.
use daphne.Common.{
  ℕ, ◌≡◌, refl, ◌⊎◌, inl, inr, Bool-cases, ◌&&◌, List, [], ◌∷◌, ◌++◌, map, In, In-append_left,
  In-append_right,
}
use daphne.Errors.{Outcome, ok, err, panic}
use daphne.Messages.Ids.{TaskId, ReportId}
use daphne.Task.{DapTaskConfig, DapBatchBucket}
use daphne.Share.{Crypto, DapAggregateShare, merge}
use daphne.Span.{bytes_eq, bucket_eq, DapAggregateSpan}
use daphne.Span.Reports.{InSpan}
use daphne.Helper as Helper
use daphne.Helper.{
  finish_agg_job_and_aggregate, MergeResult, merged, refused, MergeSpan, report_id_of,
}
use daphne.Helper.Committed.{StoreLaws, InResults, InMerged}
use daphne.Codec.Prio.{Prio}
use daphne.Messages.Batch.{PartialBatchSelector}
use daphne.Messages.Aggregation.{AggregationJobResp}
use daphne.Protocol.Vdaf.{Vdaf}
use daphne.Protocol.Report.{EarlyReportStateInitialized}
use daphne.Helper.Rounds.{AllCommitted, finish_agg_job_and_aggregate-committed}
use daphne.Testing.{
  put_unless, AggregateStore, InMemoryAggregateStore, new_store, for_bucket, replayed_in,
  merge_into, put_new, put_bucket, try_put_agg_share_span,
}

-- The storage in memory, as the Helper sees it.
abbrev pub in_memory : (c : Crypto) → Helper.AggregateStore c
in_memory c = record {
  Store = InMemoryAggregateStore c;
  try_put_agg_share_span = try_put_agg_share_span;
}

module _ {c : Crypto} where
  -- The report is in the set of some bucket.
  abbrev pub InStore : InMemoryAggregateStore c → ReportId → Type 0
  InStore [] id = ⊥
  InStore ((key, entry) ∷ store) id = In id entry.reports ⊎ InStore store id

  -- Nothing is forgotten, and if the bucket is merged, all its reports are in the set.
  abbrev Puts : List ReportId → AggregateStore c → MergeResult × AggregateStore c → Type 0
  Puts ids entry r =
      ((id : ReportId) → In id entry.reports → In id r.1.reports)
      × (r.0 ≡ merged → (id : ReportId) → In id ids → In id r.1.reports)

  merge_into-Puts :
      (ids : List ReportId) (entry extended : AggregateStore c) (m : Outcome (DapAggregateShare c))
      → extended.reports ≡ ids ++ entry.reports
      → Puts ids entry (merge_into extended m)
  unfolding merge_into
  merge_into-Puts ids entry extended (ok s) e = (
    λ id h. rw e (In-append_right id ids entry.reports h),
    λ ok' id h. rw e (In-append_left id ids entry.reports h),
  )
  merge_into-Puts ids entry extended (err x) e = (
    λ id h. rw e (In-append_right id ids entry.reports h),
    λ ok' id h. rw e (In-append_left id ids entry.reports h),
  )
  merge_into-Puts ids entry extended panic e = (
    λ id h. rw e (In-append_right id ids entry.reports h),
    λ ok' id h. rw e (In-append_left id ids entry.reports h),
  )

  put_new-Puts :
      (agg_share_delta : DapAggregateShare c) (ids : List ReportId) (entry : AggregateStore c)
      → Puts ids entry (put_new agg_share_delta ids entry)
  unfolding put_new
  put_new-Puts agg_share_delta ids entry = elim (Bool-cases entry.collected) [
    | inl h ↦ rw h (
      λ id h'. In-append_right id ids entry.reports h',
      λ ok' id h'. In-append_left id ids entry.reports h',
    )
    | inr h ↦ rw h (merge_into-Puts ids entry _ (merge entry.agg_share agg_share_delta) refl)
  ]

  put_unless-Puts :
      (agg_share_delta : DapAggregateShare c) (ids : List ReportId) (entry : AggregateStore c)
      (replayed : List ReportId)
      → Puts ids entry (put_unless agg_share_delta ids entry replayed)
  unfolding put_unless
  put_unless-Puts agg_share_delta ids entry [] = put_new-Puts agg_share_delta ids entry
  put_unless-Puts agg_share_delta ids entry (x ∷ replayed) = (λ id h. h, λ no_error id h. cc)

  put_bucket-Puts :
      (agg_share_delta : DapAggregateShare c) (ids : List ReportId) (entry : AggregateStore c)
      → Puts ids entry (put_bucket agg_share_delta ids entry)
  unfolding put_bucket
  put_bucket-Puts agg_share_delta ids entry =
      put_unless-Puts agg_share_delta ids entry (replayed_in entry.reports ids)

  for_bucket-Puts :
      (task_id : TaskId) (bucket : DapBatchBucket) (ids : List ReportId)
      (f : AggregateStore c → MergeResult × AggregateStore c) (store : InMemoryAggregateStore c)
      → ((entry : AggregateStore c) → Puts ids entry (f entry))
      → ((id : ReportId) → InStore store id → InStore (for_bucket task_id bucket f store).1 id)
        × ((for_bucket task_id bucket f store).0 ≡ merged
            → (id : ReportId) → In id ids
            → InStore (for_bucket task_id bucket f store).1 id)
  unfolding for_bucket
  for_bucket-Puts task_id bucket ids f [] h =
      (λ id h'. elim h' [ ], λ e id h'. inl ((h new_store).1 e id h'))
  for_bucket-Puts task_id bucket ids f ((key, entry) ∷ store) h =
      let (a, b) = for_bucket-Puts task_id bucket ids f store h in
      elim (Bool-cases (bytes_eq key.0 task_id && bucket_eq key.1 bucket)) [
        | inl same ↦ rw same (
          λ id h'. elim h' [ inl x ↦ inl ((h entry).0 id x) | inr y ↦ inr y ],
          λ e id h'. inl ((h entry).1 e id h'),
        )
        | inr other ↦
            rw other (
              λ id h'. elim h' [ inl x ↦ inl x | inr y ↦ inr (a id y) ],
              λ e id h'. inr (b e id h'),
            )
      ]

InMerged-cases :
    (id : ReportId) (bucket : DapBatchBucket) (r : MergeResult) (reports : List (ReportId × ℕ))
    (results : MergeSpan)
    → InMerged id ((bucket, r, reports) ∷ results)
    → ((r ≡ merged) × In id (map report_id_of reports)) ⊎ InMerged id results
InMerged-cases id bucket merged reports results (inl h) = inl (refl, h)
InMerged-cases id bucket merged reports results (inr h) = inr h
InMerged-cases id bucket (refused e) reports results h = inr h

module _ {c : Crypto} (task_id : TaskId) (t : DapTaskConfig) where
  put_keeps :
      (span : DapAggregateSpan c) (store : InMemoryAggregateStore c) (id : ReportId)
      → InStore store id
      → InStore (try_put_agg_share_span task_id t span store).1 id
  unfolding try_put_agg_share_span
  put_keeps [] store id h = h
  put_keeps ((bucket, (delta, reports)) ∷ span) store id h =
      let ids = map report_id_of reports in
      put_keeps span (for_bucket task_id bucket (put_bucket delta ids) store).1 id (
        (for_bucket-Puts task_id bucket ids (put_bucket delta ids) store
            (put_bucket-Puts delta ids)).0
          id h)

  put_covers :
      (span : DapAggregateSpan c) (store : InMemoryAggregateStore c) (id : ReportId)
      → InSpan id span
      → InResults id (try_put_agg_share_span task_id t span store).0
  unfolding try_put_agg_share_span
  put_covers [] store id h = h
  put_covers ((bucket, (delta, reports)) ∷ span) store id (inl h) = inl h
  put_covers ((bucket, (delta, reports)) ∷ span) store id (inr h) = inr (
      put_covers span
        (for_bucket task_id bucket (put_bucket delta (map report_id_of reports)) store).1 id h)

  put_commits :
      (span : DapAggregateSpan c) (store : InMemoryAggregateStore c) (id : ReportId)
      → InMerged id (try_put_agg_share_span task_id t span store).0
      → InStore (try_put_agg_share_span task_id t span store).1 id
  unfolding try_put_agg_share_span
  put_commits [] store id h = elim h [ ]
  put_commits ((bucket, (delta, reports)) ∷ span) store id h =
      let ids = map report_id_of reports in
      let r = for_bucket task_id bucket (put_bucket delta ids) store in
      elim (InMerged-cases id bucket r.0 reports (try_put_agg_share_span task_id t span r.1).0 h) [
        | inl (e, there) ↦ put_keeps span r.1 id (
            (for_bucket-Puts task_id bucket ids (put_bucket delta ids) store
                (put_bucket-Puts delta ids)).1
              e id there)
        | inr h' ↦ put_commits span r.1 id h'
      ]

-- The laws of `StoreLaws` hold, where a report is committed if it is in the set of a bucket.
pub in_memory_laws : (c : Crypto) → StoreLaws (in_memory c)
in_memory_laws c = record {
  IsCommitted = InStore;
  covers = put_covers;
  commits = put_commits;
  keeps = put_keeps;
}

-- Whenever the Helper, over the storage in memory, returns a response, every report that continues in
-- it is in the set of aggregated reports of some bucket of the storage that it leaves.
pub finish_agg_job_and_aggregate-InStore :
    (p : Prio) {c : Crypto} (v : Vdaf c) (task_id : TaskId) (t : DapTaskConfig)
    (sel : PartialBatchSelector) (reports : List (EarlyReportStateInitialized v))
    (store : InMemoryAggregateStore c) (resp : AggregationJobResp)
    (store' : InMemoryAggregateStore c)
    → finish_agg_job_and_aggregate p v (in_memory c) task_id t sel reports store ≡ (ok resp, store')
    → AllCommitted p v (in_memory_laws c) task_id t sel reports store' resp.transitions
finish_agg_job_and_aggregate-InStore p {c} v task_id t sel reports store resp store' h =
    finish_agg_job_and_aggregate-committed p v (in_memory_laws c) task_id t sel reports store resp
      store' h
