-- ===== src/Leader/Memory/Queued.antt =====
-- From the upload of a report to the aggregation job that it is queued in
-- (crates/daphne/src/roles/leader/in_memory_leader.rs).
use native.Mathlib.Nat.{mod-lt}
use daphne.Common.{
  ℕ, ◌+◌, ◌%◌, ◌≤◌, ◌<◌, ◌≡◌, refl, sym, ◌∙◌, inl, inr, true, false, Bool-cases, Option, none, some,
  List, [], ◌∷◌, ◌++◌, In, In-append_left, In-append_right, arith, lookup, insert, remove,
  lookup-insert_self, lookup-remove, append_assoc,
}
use daphne.Codec.Base.{Bytes}
use daphne.Errors.{Outcome, ok, err, panic, ◌>>=◌}
use daphne.Messages.Ids.{TaskId, BatchId, CollectionJobId}
use daphne.Messages.Batch.{Interval, BatchSelector, PartialBatchSelector, part_batch_sel_of}
use daphne.Messages.Report.{Report}
use daphne.Task.{
  DapTaskConfig, DapQueryConfig, DapBatchBucket, quantized_time_lower_bound, batch_span_for_sel,
  bucket_for, u64_end,
}
use daphne.Task.Span.{batch_span-exact}
use daphne.Span.{bucket_eq, shard}
use daphne.Span.Buckets.{bucket_eq_sound}
use daphne.Protocol.Init.{DapAggregationParam}
use daphne.Leader.Memory.{
  DapCollectionJob, pending, WorkItem, aggregation_job, collection_job, BatchQueue,
  MockLeaderMemoryPerTask, InMemoryLeaderState, or_empty, task_of, assign_for, put_in, put_report,
  job_for, leave_batch, queue_buckets, fill_queue, store_job, with_uri, init_collect_job,
}
use daphne.Leader.Memory.Keys.{bytes_key, bucket_key}

In-last : {A : Type 0} (x : A) (xs : List A) → In x (xs ++ (x ∷ []))
In-last x xs = In-append_right x xs (x ∷ []) (inl refl)

-- The report is pending in the bucket.
abbrev IsPending : DapBatchBucket → Report → MockLeaderMemoryPerTask → Type 0
IsPending bucket report m =
    (reports : List Report) × (lookup bucket m.pending_reports ≡ some reports) × In report reports

module _ (task_id : TaskId) (batch_sel : BatchSelector) (agg_param : DapAggregationParam) where
  -- The report is in an aggregation job of the list.
  abbrev pub IsQueued : Report → List WorkItem → Type 0
  IsQueued report items =
      (reports : List Report) × In
        (aggregation_job task_id (part_batch_sel_of batch_sel) agg_param reports) items
      × In report reports

  -- The work queue ends with the collection job, behind an aggregation job with the report.
  abbrev pub QueuedBefore : CollectionJobId → Report → List WorkItem → Type 0
  QueuedBefore coll_job_id report items =
      (front : List WorkItem) × (items
        ≡ front ++ (collection_job task_id coll_job_id batch_sel agg_param ∷ []))
      × IsQueued report front

  queue_buckets-IsQueued :
      (bucket : DapBatchBucket) (report : Report) (buckets : List DapBatchBucket)
      (m : MockLeaderMemoryPerTask)
      → In bucket buckets
      → IsPending bucket report m
      → IsQueued report (queue_buckets task_id batch_sel agg_param buckets m).0
  unfolding queue_buckets job_for
  queue_buckets-IsQueued bucket report [] m h there = elim h [ ]
  queue_buckets-IsQueued bucket report (b ∷ buckets) m h (reports, e, inside) =
      let job = aggregation_job task_id (part_batch_sel_of batch_sel) agg_param reports in
      let first = job_for task_id batch_sel agg_param (lookup b m.pending_reports) in
      let m' = record m {
        pending_reports = remove b m.pending_reports;
        batch_queue = leave_batch b m.batch_queue;
      } in
      elim (Bool-cases (bucket_eq b bucket)) [
        | inl x ↦ (
          reports,
          In-append_left job first _ (rw (bucket_eq_sound b bucket x, e) (inl refl)),
          inside,
        )
        | inr x ↦ elim h [
          | inl e' ↦
              let x' = rw e' at x in
              let both : true ≡ false = sym (bucket_key.key_eq_refl b) ∙ x' in cc
          | inr h' ↦
              let (reports', queued, inside') =
                queue_buckets-IsQueued bucket report buckets m' h'
                  (reports, lookup-remove b bucket m.pending_reports x ∙ e, inside) in
              (reports', In-append_right _ first _ queued, inside')
        ]
      ]

  module _ {Url : Type 0} (leader_url_join : DapTaskConfig → TaskId → CollectionJobId → Outcome Url)
      (t : DapTaskConfig) (coll_job_id : CollectionJobId) (s : InMemoryLeaderState)
      (report : Report) (bucket : DapBatchBucket) (buckets : List DapBatchBucket)
      (span : batch_span_for_sel t batch_sel ≡ ok buckets) (h : In bucket buckets)
      (there : IsPending bucket report (task_of task_id s)) where
    store_job-QueuedBefore :
        (url uri : Url) (job : Option DapCollectionJob)
        → (store_job leader_url_join task_id t coll_job_id batch_sel agg_param url s job).0 ≡ ok uri
        → QueuedBefore coll_job_id report
            (store_job leader_url_join task_id t coll_job_id batch_sel agg_param url s
              job).1.work_queue
    unfolding store_job fill_queue
    store_job-QueuedBefore url uri (some job) e = cc
    store_job-QueuedBefore url uri none e =
        let m = task_of task_id s in
        let m' = record m { coll_jobs = insert coll_job_id pending m.coll_jobs } in
        let items = (queue_buckets task_id batch_sel agg_param buckets m').0 in
        let (reports, queued, inside) = queue_buckets-IsQueued bucket report buckets m' h there in
        rw span (
          s.work_queue ++ items,
          sym (
              append_assoc s.work_queue items
                (collection_job task_id coll_job_id batch_sel agg_param ∷ [])),
          (reports, In-append_right _ s.work_queue items queued, inside),
        )

    with_uri-QueuedBefore :
        (url : Outcome Url) (uri : Url)
        → (with_uri leader_url_join task_id t coll_job_id batch_sel agg_param s url).0 ≡ ok uri
        → QueuedBefore coll_job_id report
            (with_uri leader_url_join task_id t coll_job_id batch_sel agg_param s url).1.work_queue
    unfolding with_uri
    with_uri-QueuedBefore (ok url) uri e =
        store_job-QueuedBefore url uri (lookup coll_job_id (task_of task_id s).coll_jobs) e
    with_uri-QueuedBefore (err x) uri e = cc
    with_uri-QueuedBefore panic uri e = cc

module _ (sha256 : Bytes → Bytes) (task_id : TaskId) (fresh : BatchId) (report : Report)
    (s : InMemoryLeaderState) (bucket : DapBatchBucket) where
  put_in-IsPending :
      (queue : BatchQueue)
      → IsPending bucket report
          (task_of task_id (put_in sha256 task_id report s (ok (bucket, queue))).1)
  unfolding put_in
  put_in-IsPending queue =
      let m = task_of task_id s in
      let old = or_empty (lookup bucket m.pending_reports) in
      let reports = old ++ (report ∷ []) in
      let m' = record m {
        pending_reports = insert bucket reports m.pending_reports;
        batch_queue = queue;
      } in
      rw (lookup-insert_self task_id m' s.per_task)
        (reports, lookup-insert_self bucket reports m.pending_reports, In-last report old)

  in_window :
      (window : Outcome ℕ) (number : ℕ) (queue : BatchQueue)
      → (window >>= λ batch_window. ok (DapBatchBucket.time_interval batch_window number))
        ≡ ok bucket
      → (◌>>=◌ {B = DapBatchBucket × BatchQueue} window
          λ batch_window. ok (DapBatchBucket.time_interval batch_window number, queue))
        ≡ ok (bucket, queue)
  in_window (ok window) number queue e = cc
  in_window (err x) number queue e = cc
  in_window panic number queue e = cc

  -- A report that has been put is pending in its bucket.
  put_report-IsPending :
      (t : DapTaskConfig)
      → t.query ≡ DapQueryConfig.time_interval
      → bucket_for t PartialBatchSelector.time_interval report.report_metadata.time
          (shard sha256 report.report_metadata.id 1)
        ≡ ok bucket
      → IsPending bucket report (task_of task_id (put_report sha256 task_id t fresh report s).1)
  unfolding put_report assign_for bucket_for
  put_report-IsPending t query e =
      let queue = (task_of task_id s).batch_queue in
      rw
        (
          query,
          in_window (quantized_time_lower_bound t report.report_metadata.time)
              (shard sha256 report.report_metadata.id 1) queue e,
        )
        (put_in-IsPending queue)

-- A report that has been put is queued for aggregation before the first collection of its batch. In a
-- time-interval task with a positive time precision and at least one shard: if a report is put, and a
-- collection job is then accepted for an interval that is aligned to the time precision, ends before
-- 2^64 and contains the time of the report, then the work queue ends with the collection job, and
-- before it has an aggregation job for the batch with the report in it.
pub put_report-QueuedBefore :
    {Url : Type 0} (leader_url_join : DapTaskConfig → TaskId → CollectionJobId → Outcome Url)
    (sha256 : Bytes → Bytes) (task_id : TaskId) (t : DapTaskConfig) (fresh : BatchId)
    (report : Report) (coll_job_id : CollectionJobId) (i : Interval)
    (agg_param : DapAggregationParam) (s : InMemoryLeaderState) (uri : Url)
    → t.query ≡ DapQueryConfig.time_interval
    → 0 < t.time_precision
    → 0 < t.num_agg_span_shards
    → i.start % t.time_precision ≡ 0
    → i.duration % t.time_precision ≡ 0
    → i.start + i.duration < u64_end
    → i.start ≤ report.report_metadata.time
    → report.report_metadata.time < i.start + i.duration
    → (init_collect_job leader_url_join task_id t coll_job_id
        (BatchSelector.time_interval i)
        agg_param
        (put_report sha256 task_id t fresh report s).1).0
      ≡ ok uri
    → QueuedBefore task_id
        (BatchSelector.time_interval i)
        agg_param
        coll_job_id
        report
        (init_collect_job leader_url_join task_id t coll_job_id
          (BatchSelector.time_interval i)
          agg_param
          (put_report sha256 task_id t fresh report s).1).1.work_queue
unfolding init_collect_job shard
put_report-QueuedBefore leader_url_join sha256 task_id t fresh report coll_job_id i agg_param s uri
      query pos shards aligned whole fits lo hi e =
    let number = shard sha256 report.report_metadata.id 1 in
    let (buckets, bucket, span, assigned, exact) =
      batch_span-exact t i report.report_metadata.time number query pos aligned whole fits in
    let one : 0 < 1 = omega arith in
    let first : number < 1 = mod-lt _ one in
    let below : number < t.num_agg_span_shards = omega arith in
    with_uri-QueuedBefore task_id (BatchSelector.time_interval i) agg_param leader_url_join t
      coll_job_id (put_report sha256 task_id t fresh report s).1 report bucket buckets span
      (exact.1 (lo, hi, below))
      (put_report-IsPending sha256 task_id fresh report s bucket t query assigned)
      (leader_url_join t task_id coll_job_id) uri e
