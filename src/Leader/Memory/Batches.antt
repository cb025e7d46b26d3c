-- ===== src/Leader/Memory/Batches.antt =====
-- The queue of batches of a fixed-size task (`batch_queue` in
-- crates/daphne/src/roles/leader/in_memory_leader.rs).
use daphne.Common.{
  ℕ, ◌≤◌, ◌≡◌, refl, ◌⊎◌, inl, inr, Bool-cases, Option, none, some, List, [], ◌∷◌, arith, ltb,
  lookup, insert, lookup-insert,
}
use daphne.Codec.Base.{Bytes}
use daphne.Errors.{Outcome, ok, err, panic, ◌>>=◌}
use daphne.Messages.Ids.{TaskId, BatchId, CollectionJobId}
use daphne.Messages.Batch.{BatchSelector}
use daphne.Messages.Report.{Report}
use daphne.Messages.Collection.{Collection}
use daphne.Task.{DapTaskConfig, DapQueryConfig, DapBatchBucket, quantized_time_lower_bound}
use daphne.Span.{bytes_eq, shard}
use daphne.Protocol.Init.{DapAggregationParam}
use daphne.Leader.Memory.{
  DapCollectionJob, done, pending, unknown, WorkItem, BatchQueue, MockLeaderMemoryPerTask,
  InMemoryLeaderState, task_of, assign_batch, assign_for, assign_report_to_bucket, put_in,
  put_report, enqueue_work, dequeue_work, retain_others, leave_batch, queue_buckets, fill_queue,
  store_job, with_uri, init_collect_job, finish_job, finish_in, finish_collect_job,
}
use daphne.Leader.Memory.Keys.{bytes_key}

-- Every batch has a report and at most as many as the minimum batch size, or just one; all but the
-- last have at least that many.
abbrev pub IsFilled : ℕ → BatchQueue → Type 0
IsFilled min_batch_size [] = Unit
IsFilled min_batch_size ((batch_id, report_count) ∷ queue) =
    (1 ≤ report_count)
    × ((report_count ≤ min_batch_size) ⊎ (report_count ≡ 1))
    × ((queue ≡ []) ⊎ (min_batch_size ≤ report_count))
    × IsFilled min_batch_size queue

assign_batch-IsFilled :
    (min_batch_size : ℕ) (fresh : BatchId) (queue : BatchQueue)
    → IsFilled min_batch_size queue
    → IsFilled min_batch_size (assign_batch min_batch_size fresh queue).1
unfolding assign_batch
assign_batch-IsFilled min_batch_size fresh [] h = (omega arith, inr refl, inl refl, tt)
assign_batch-IsFilled min_batch_size fresh ((batch_id, report_count) ∷ queue) h =
    elim (Bool-cases (ltb report_count min_batch_size)) [
      | inl x ↦ rw x (
        ground arith,
        inl (ground arith),
        elim h.2 [ inl e ↦ inl e | inr e ↦ absurd (ground arith) ],
        h.3,
      )
      | inr x ↦
          rw x (h.0, h.1, inr (ground arith), assign_batch-IsFilled min_batch_size fresh queue h.3)
    ]

retain_others-IsFilled :
    (min_batch_size : ℕ) (batch_id : BatchId) (queue : BatchQueue)
    → IsFilled min_batch_size queue
    → IsFilled min_batch_size (retain_others batch_id queue)
unfolding retain_others
retain_others-IsFilled min_batch_size batch_id [] h = tt
retain_others-IsFilled min_batch_size batch_id ((queued, report_count) ∷ queue) h =
    let rest = retain_others-IsFilled min_batch_size batch_id queue h.3 in
    elim (Bool-cases (bytes_eq batch_id queued)) [
      | inl x ↦ rw x rest
      | inr x ↦ rw x (h.0, h.1, elim h.2 [ inl e ↦ inl (rw e refl) | inr e ↦ inr e ], rest)
    ]

leave_batch-IsFilled :
    (min_batch_size : ℕ) (bucket : DapBatchBucket) (queue : BatchQueue)
    → IsFilled min_batch_size queue
    → IsFilled min_batch_size (leave_batch bucket queue)
unfolding leave_batch
leave_batch-IsFilled min_batch_size (DapBatchBucket.fixed_size batch_id _) queue h =
    retain_others-IsFilled min_batch_size batch_id queue h
leave_batch-IsFilled min_batch_size (DapBatchBucket.time_interval _ _) queue h = h

kept_in_window :
    (window : Outcome ℕ) (number : ℕ) (before : BatchQueue) (bucket : DapBatchBucket)
    (queue : BatchQueue)
    → (◌>>=◌ {B = DapBatchBucket × BatchQueue} window
        λ batch_window. ok (DapBatchBucket.time_interval batch_window number, before))
      ≡ ok (bucket, queue)
    → queue ≡ before
kept_in_window (ok window) number before bucket queue e = cc
kept_in_window (err x) number before bucket queue e = cc
kept_in_window panic number before bucket queue e = cc

assign_for-IsFilled :
    (sha256 : Bytes → Bytes) (min_batch_size : ℕ) (query : DapQueryConfig) (t : DapTaskConfig)
    (fresh : BatchId) (report : Report) (before : BatchQueue) (bucket : DapBatchBucket)
    (queue : BatchQueue)
    → t.min_batch_size ≡ min_batch_size
    → IsFilled min_batch_size before
    → assign_for sha256 query t fresh report before ≡ ok (bucket, queue)
    → IsFilled min_batch_size queue
unfolding assign_for
assign_for-IsFilled sha256 min_batch_size (DapQueryConfig.fixed_size _) t fresh report before bucket
      queue same h e =
    let e' : queue ≡ (assign_batch t.min_batch_size fresh before).1 = cc in
    rw (e', same) (assign_batch-IsFilled min_batch_size fresh before h)
assign_for-IsFilled sha256 min_batch_size DapQueryConfig.time_interval t fresh report before bucket
      queue same h e =
    rw
      (kept_in_window (quantized_time_lower_bound t report.report_metadata.time)
        (shard sha256 report.report_metadata.id 1) before bucket queue e)
      h

queue_buckets-IsFilled :
    (task_id : TaskId) (batch_sel : BatchSelector) (agg_param : DapAggregationParam)
    (min_batch_size : ℕ) (buckets : List DapBatchBucket) (m : MockLeaderMemoryPerTask)
    → IsFilled min_batch_size m.batch_queue
    → IsFilled min_batch_size (queue_buckets task_id batch_sel agg_param buckets m).1.batch_queue
unfolding queue_buckets
queue_buckets-IsFilled task_id batch_sel agg_param min_batch_size [] m h = h
queue_buckets-IsFilled task_id batch_sel agg_param min_batch_size (bucket ∷ buckets) m h =
    queue_buckets-IsFilled task_id batch_sel agg_param min_batch_size buckets _
      (leave_batch-IsFilled min_batch_size bucket m.batch_queue h)

module _ (config_of : TaskId → DapTaskConfig) where
  abbrev pub AreFilled : InMemoryLeaderState → Type 0
  AreFilled s =
      (task_id : TaskId)
      → IsFilled (config_of task_id).min_batch_size (task_of task_id s).batch_queue

  AreFilled-insert :
      (s : InMemoryLeaderState) (task_id : TaskId) (m : MockLeaderMemoryPerTask)
      (work_queue : List WorkItem)
      → AreFilled s
      → IsFilled (config_of task_id).min_batch_size m.batch_queue
      → AreFilled (record { work_queue = work_queue; per_task = insert task_id m s.per_task })
  AreFilled-insert s task_id m work_queue h h' other = elim (Bool-cases (bytes_eq task_id other)) [
    | inl x ↦
        rw (lookup-insert task_id other m s.per_task, x, ← bytes_key.key_eq_sound task_id other x)
          h'
    | inr x ↦ rw (lookup-insert task_id other m s.per_task, x) (h other)
  ]

  put_in-AreFilled :
      (sha256 : Bytes → Bytes) (task_id : TaskId) (report : Report) (s : InMemoryLeaderState)
      (assigned : Outcome (DapBatchBucket × BatchQueue))
      → AreFilled s
      → ((bucket : DapBatchBucket) (queue : BatchQueue)
          → assigned ≡ ok (bucket, queue)
          → IsFilled (config_of task_id).min_batch_size queue)
      → AreFilled (put_in sha256 task_id report s assigned).1
  unfolding put_in
  put_in-AreFilled sha256 task_id report s (ok (bucket, queue)) h h' =
      AreFilled-insert s task_id _ s.work_queue h (h' bucket queue refl)
  put_in-AreFilled sha256 task_id report s (err e) h h' = h
  put_in-AreFilled sha256 task_id report s panic h h' = h

  module _ {Url : Type 0} (leader_url_join : DapTaskConfig → TaskId → CollectionJobId → Outcome Url)
      (task_id : TaskId) (coll_job_id : CollectionJobId) (batch_sel : BatchSelector)
      (agg_param : DapAggregationParam) (s : InMemoryLeaderState) where
    fill_queue-AreFilled :
        (uri : Url) (m : MockLeaderMemoryPerTask) (buckets : Outcome (List DapBatchBucket))
        → AreFilled s
        → m.batch_queue ≡ (task_of task_id s).batch_queue
        → AreFilled
            (fill_queue leader_url_join task_id
              (config_of task_id)
              coll_job_id
              batch_sel
              agg_param
              uri
              m
              s
              buckets).1
    unfolding fill_queue
    fill_queue-AreFilled uri m (ok buckets) h e =
        AreFilled-insert s task_id _ s.work_queue h
          (queue_buckets-IsFilled task_id batch_sel agg_param _ buckets m (rw e (h task_id)))
    fill_queue-AreFilled uri m (err x) h e =
        AreFilled-insert s task_id m s.work_queue h (rw e (h task_id))
    fill_queue-AreFilled uri m panic h e =
        AreFilled-insert s task_id m s.work_queue h (rw e (h task_id))

    store_job-AreFilled :
        (uri : Url) (job : Option DapCollectionJob)
        → AreFilled s
        → AreFilled
            (store_job leader_url_join task_id
              (config_of task_id)
              coll_job_id
              batch_sel
              agg_param
              uri
              s
              job).1
    unfolding store_job
    store_job-AreFilled uri (some job) h =
        AreFilled-insert s task_id (task_of task_id s) s.work_queue h (h task_id)
    store_job-AreFilled uri none h = fill_queue-AreFilled uri _ _ h refl

    with_uri-AreFilled :
        (uri : Outcome Url)
        → AreFilled s
        → AreFilled
            (with_uri leader_url_join task_id
              (config_of task_id)
              coll_job_id
              batch_sel
              agg_param
              s
              uri).1
    unfolding with_uri
    with_uri-AreFilled (ok uri) h = store_job-AreFilled uri _ h
    with_uri-AreFilled (err x) h =
        AreFilled-insert s task_id (task_of task_id s) s.work_queue h (h task_id)
    with_uri-AreFilled panic h =
        AreFilled-insert s task_id (task_of task_id s) s.work_queue h (h task_id)

  module _ (task_id : TaskId) (coll_job_id : CollectionJobId) (collection : Collection)
      (s : InMemoryLeaderState) where
    finish_job-AreFilled :
        (m : MockLeaderMemoryPerTask) (job : Option DapCollectionJob)
        → lookup task_id s.per_task ≡ some m
        → AreFilled s
        → AreFilled (finish_job task_id coll_job_id collection s m job).1
    unfolding finish_job
    finish_job-AreFilled m none e h = h
    finish_job-AreFilled m (some unknown) e h = h
    finish_job-AreFilled m (some (done _)) e h = h
    finish_job-AreFilled m (some pending) e h =
        let h' = h task_id in AreFilled-insert s task_id _ s.work_queue h (rw e at h')

    finish_in-AreFilled :
        (m : Option MockLeaderMemoryPerTask)
        → lookup task_id s.per_task ≡ m
        → AreFilled s
        → AreFilled (finish_in task_id coll_job_id collection s m).1
    unfolding finish_in
    finish_in-AreFilled none e h = h
    finish_in-AreFilled (some m) e h = finish_job-AreFilled m (lookup coll_job_id m.coll_jobs) e h

module _ {Url : Type 0} (leader_url_join : DapTaskConfig → TaskId → CollectionJobId → Outcome Url)
    (sha256 : Bytes → Bytes) (config_of : TaskId → DapTaskConfig) where
  -- The states that the calls reach from an empty one, each task under one configuration.
  pub data Served : InMemoryLeaderState → Type 0 where
    empty : Served (record { work_queue = []; per_task = [] })
    puts :
        {s : InMemoryLeaderState} (task_id : TaskId) (fresh : BatchId) (report : Report)
        → Served s
        → Served (put_report sha256 task_id (config_of task_id) fresh report s).1
    enqueues :
        {s : InMemoryLeaderState} (items : List WorkItem) → Served s → Served (enqueue_work items s)
    dequeues :
        {s : InMemoryLeaderState} (num_items : ℕ) → Served s → Served (dequeue_work num_items s).1
    inits :
        {s : InMemoryLeaderState} (task_id : TaskId) (coll_job_id : CollectionJobId)
        (batch_sel : BatchSelector) (agg_param : DapAggregationParam)
        → Served s
        → Served
            (init_collect_job leader_url_join task_id
              (config_of task_id)
              coll_job_id
              batch_sel
              agg_param
              s).1
    finishes :
        {s : InMemoryLeaderState} (task_id : TaskId) (coll_job_id : CollectionJobId)
        (collection : Collection)
        → Served s
        → Served (finish_collect_job task_id coll_job_id collection s).1

  Served-AreFilled : {s : InMemoryLeaderState} → Served s → AreFilled config_of s
  unfolding put_report assign_report_to_bucket enqueue_work dequeue_work init_collect_job
      finish_collect_job lookup
  Served-AreFilled empty = λ task_id. tt
  Served-AreFilled (puts {s} other fresh report before) =
      let t = config_of other in
      let queue = (task_of other s).batch_queue in
      put_in-AreFilled config_of sha256 other report s
        (assign_for sha256 t.query t fresh report queue) (Served-AreFilled before)
        (λ bucket queue' e.
          assign_for-IsFilled sha256 t.min_batch_size t.query t fresh report queue bucket queue'
            refl (Served-AreFilled before other) e)
  Served-AreFilled (enqueues items before) = Served-AreFilled before
  Served-AreFilled (dequeues num_items before) = Served-AreFilled before
  Served-AreFilled (inits {s} other coll_job_id batch_sel agg_param before) =
      with_uri-AreFilled config_of leader_url_join other coll_job_id batch_sel agg_param s
        (leader_url_join (config_of other) other coll_job_id) (Served-AreFilled before)
  Served-AreFilled (finishes {s} other coll_job_id collection before) =
      finish_in-AreFilled config_of other coll_job_id collection s (lookup other s.per_task) refl
        (Served-AreFilled before)

  -- In every state that the calls reach from an empty one, if the configuration of a task does not
  -- change: every batch in the queue of a task has at least one report, it has at most as many as the
  -- minimum batch size or just one, and every batch but the last has at least that many.
  pub batch_queue-IsFilled :
      (s : InMemoryLeaderState) (task_id : TaskId)
      → Served s
      → IsFilled (config_of task_id).min_batch_size (task_of task_id s).batch_queue
  batch_queue-IsFilled s task_id served = Served-AreFilled served task_id
