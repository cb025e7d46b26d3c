-- ===== src/Leader/Memory/Jobs.antt =====
-- The states of a collection job, over any sequence of calls of the Leader's state
-- (crates/daphne/src/roles/leader/in_memory_leader.rs).
use mathlib.Core.Path.{subst}
use daphne.Common.{
  ℕ, ◌≡◌, refl, ◌⊎◌, inl, inr, Bool-cases, Option, none, some, List, [], ◌∷◌, lookup, insert,
  lookup-insert,
}
use daphne.Codec.Base.{Bytes}
use daphne.Errors.{Outcome, ok, err, panic, abort, unrecognized_task}
use daphne.Messages.Ids.{TaskId, BatchId, CollectionJobId}
use daphne.Messages.Batch.{BatchSelector}
use daphne.Messages.Report.{Report}
use daphne.Messages.Collection.{Collection}
use daphne.Task.{DapTaskConfig, DapBatchBucket, batch_span_for_sel}
use daphne.Protocol.Init.{DapAggregationParam}
use daphne.Leader.Memory.{
  DapCollectionJob, done, pending, unknown, WorkItem, BatchQueue, MockLeaderMemoryPerTask,
  InMemoryLeaderState, or_new, or_unknown, task_of, assign_report_to_bucket, put_in, put_report,
  enqueue_work, dequeue_work, delete_all, queue_buckets, fill_queue, store_job, with_uri,
  init_collect_job, poll_in, poll_collect_job, finish_job, finish_in, finish_collect_job,
}
use daphne.Leader.Memory.Keys.{bytes_key}

-- A job goes from unknown to pending to done, and keeps its collection. A task that is not known may
-- become known.
abbrev pub Advances : Outcome DapCollectionJob → Outcome DapCollectionJob → Type 0
Advances (ok (done collection)) after = after ≡ ok (done collection)
Advances (ok pending) after =
    (after ≡ ok pending) ⊎ ((collection : Collection) × (after ≡ ok (done collection)))
Advances (ok unknown) after = (job : DapCollectionJob) × (after ≡ ok job)
Advances (err e) after = Unit
Advances panic after = Unit

pub Advances-refl : (x : Outcome DapCollectionJob) → Advances x x
Advances-refl (ok (done collection)) = refl
Advances-refl (ok pending) = inl refl
Advances-refl (ok unknown) = (unknown, refl)
Advances-refl (err e) = tt
Advances-refl panic = tt

pub Advances-trans : (x y z : Outcome DapCollectionJob) → Advances x y → Advances y z → Advances x z
Advances-trans (ok (done collection)) y z h k = subst (λ y. Advances y z) h k
Advances-trans (ok pending) y z (inl h) k = subst (λ y. Advances y z) h k
Advances-trans (ok pending) y z (inr (collection, h)) k =
    inr (collection, subst (λ y. Advances y z) h k)
Advances-trans (ok unknown) y z (done collection, h) k =
    (done collection, subst (λ y. Advances y z) h k)
Advances-trans (ok unknown) y z (pending, h) k = elim (subst (λ y. Advances y z) h k) [
  | inl e ↦ (pending, e)
  | inr (collection, e) ↦ (done collection, e)
]
Advances-trans (ok unknown) y z (unknown, h) k = subst (λ y. Advances y z) h k
Advances-trans (err e) y z h k = tt
Advances-trans panic y z h k = tt

abbrev JobAdvances : Option DapCollectionJob → Option DapCollectionJob → Type 0
JobAdvances before after = Advances (ok (or_unknown before)) (ok (or_unknown after))

abbrev TaskAdvances :
    CollectionJobId → Option MockLeaderMemoryPerTask → MockLeaderMemoryPerTask → Type 0
TaskAdvances coll_job_id before m =
    JobAdvances (lookup coll_job_id (or_new before).coll_jobs) (lookup coll_job_id m.coll_jobs)

poll_in-Advances :
    (coll_job_id : CollectionJobId) (before : Option MockLeaderMemoryPerTask)
    (m : MockLeaderMemoryPerTask)
    → TaskAdvances coll_job_id before m
    → Advances (poll_in coll_job_id before) (poll_in coll_job_id (some m))
unfolding poll_in
poll_in-Advances coll_job_id none m h = tt
poll_in-Advances coll_job_id (some m') m h = h

module _ (task_id : TaskId) (coll_job_id : CollectionJobId) (s : InMemoryLeaderState) where
  -- A call that puts the state `m` for the task `changed`.
  poll-insert :
      (changed : TaskId) (m : MockLeaderMemoryPerTask) (work_queue : List WorkItem)
      → TaskAdvances coll_job_id (lookup changed s.per_task) m
      → Advances (poll_collect_job task_id coll_job_id s) (
          poll_collect_job task_id coll_job_id
            (record { work_queue = work_queue; per_task = insert changed m s.per_task }))
  unfolding poll_collect_job
  poll-insert changed m work_queue h = elim (Bool-cases (bytes_key.key_eq changed task_id)) [
    | inl x ↦
        rw
          (
            lookup-insert changed task_id m s.per_task,
            x,
            ← bytes_key.key_eq_sound changed task_id x,
          )
          (poll_in-Advances coll_job_id (lookup changed s.per_task) m h)
    | inr x ↦
        rw (lookup-insert changed task_id m s.per_task, x)
          (Advances-refl (poll_in coll_job_id (lookup task_id s.per_task)))
  ]

  put_in-Advances :
      (sha256 : Bytes → Bytes) (other : TaskId) (report : Report)
      (assigned : Outcome (DapBatchBucket × BatchQueue))
      → Advances
          (poll_collect_job task_id coll_job_id s)
          (poll_collect_job task_id coll_job_id (put_in sha256 other report s assigned).1)
  unfolding put_in
  put_in-Advances sha256 other report (ok (bucket, queue)) =
      poll-insert other _ s.work_queue
        (Advances-refl (ok (or_unknown (lookup coll_job_id (task_of other s).coll_jobs))))
  put_in-Advances sha256 other report (err e) =
      Advances-refl (poll_collect_job task_id coll_job_id s)
  put_in-Advances sha256 other report panic = Advances-refl (poll_collect_job task_id coll_job_id s)

queue_buckets-coll_jobs :
    (task_id : TaskId) (batch_sel : BatchSelector) (agg_param : DapAggregationParam)
    (buckets : List DapBatchBucket) (m : MockLeaderMemoryPerTask)
    → (queue_buckets task_id batch_sel agg_param buckets m).1.coll_jobs ≡ m.coll_jobs
unfolding queue_buckets
queue_buckets-coll_jobs task_id batch_sel agg_param [] m = refl
queue_buckets-coll_jobs task_id batch_sel agg_param (bucket ∷ buckets) m =
    queue_buckets-coll_jobs task_id batch_sel agg_param buckets _

-- The job that is inserted at `changed` is ahead of the one that was there.
JobAdvances-insert :
    (coll_job_id changed : CollectionJobId) (job : DapCollectionJob)
    (jobs : List (CollectionJobId × DapCollectionJob))
    → JobAdvances (lookup changed jobs) (some job)
    → JobAdvances (lookup coll_job_id jobs) (lookup coll_job_id (insert changed job jobs))
JobAdvances-insert coll_job_id changed job jobs h =
    elim (Bool-cases (bytes_key.key_eq changed coll_job_id)) [
      | inl x ↦
          rw
            (
              lookup-insert changed coll_job_id job jobs,
              x,
              ← bytes_key.key_eq_sound changed coll_job_id x,
            )
            h
      | inr x ↦
          rw (lookup-insert changed coll_job_id job jobs, x)
            (Advances-refl (ok (or_unknown (lookup coll_job_id jobs))))
    ]

module _ {Url : Type 0} (leader_url_join : DapTaskConfig → TaskId → CollectionJobId → Outcome Url)
    (task_id : TaskId) (coll_job_id : CollectionJobId) (s : InMemoryLeaderState) (other : TaskId)
    (t : DapTaskConfig) (new_id : CollectionJobId) (batch_sel : BatchSelector)
    (agg_param : DapAggregationParam) where
  abbrev job_after : InMemoryLeaderState → Outcome DapCollectionJob
  job_after s' = poll_collect_job task_id coll_job_id s'

  fill_queue-Advances :
      (uri : Url) (m : MockLeaderMemoryPerTask) (buckets : Outcome (List DapBatchBucket))
      → TaskAdvances coll_job_id (lookup other s.per_task) m
      → Advances (job_after s) (
          job_after
            (fill_queue leader_url_join other t new_id batch_sel agg_param uri m s buckets).1)
  unfolding fill_queue
  fill_queue-Advances uri m (ok buckets) h =
      poll-insert task_id coll_job_id s other _ _
        (rw (queue_buckets-coll_jobs other batch_sel agg_param buckets m) h)
  fill_queue-Advances uri m (err e) h = poll-insert task_id coll_job_id s other m s.work_queue h
  fill_queue-Advances uri m panic h = poll-insert task_id coll_job_id s other m s.work_queue h

  stored-Advances : Advances (job_after s) (
      job_after (record {
        work_queue = s.work_queue;
        per_task = insert other (task_of other s) s.per_task;
      }))
  stored-Advances =
      poll-insert task_id coll_job_id s other (task_of other s) s.work_queue
        (Advances-refl (ok (or_unknown (lookup coll_job_id (task_of other s).coll_jobs))))

  store_job-Advances :
      (uri : Url) (job : Option DapCollectionJob)
      → lookup new_id (task_of other s).coll_jobs ≡ job
      → Advances
          (job_after s)
          (job_after (store_job leader_url_join other t new_id batch_sel agg_param uri s job).1)
  unfolding store_job
  store_job-Advances uri (some job) e = stored-Advances
  store_job-Advances uri none e = fill_queue-Advances uri _ (batch_span_for_sel t batch_sel) (
      JobAdvances-insert coll_job_id new_id pending (task_of other s).coll_jobs
        (rw e (pending, refl)))

  with_uri-Advances :
      (uri : Outcome Url)
      → Advances
          (job_after s)
          (job_after (with_uri leader_url_join other t new_id batch_sel agg_param s uri).1)
  unfolding with_uri
  with_uri-Advances (ok uri) =
      store_job-Advances uri (lookup new_id (task_of other s).coll_jobs) refl
  with_uri-Advances (err e) = stored-Advances
  with_uri-Advances panic = stored-Advances

module _ (task_id : TaskId) (coll_job_id : CollectionJobId) (s : InMemoryLeaderState)
    (other : TaskId) (finished : CollectionJobId) (collection : Collection) where
  finish_job-Advances :
      (m : MockLeaderMemoryPerTask) (job : Option DapCollectionJob)
      → lookup other s.per_task ≡ some m
      → lookup finished m.coll_jobs ≡ job
      → Advances
          (poll_collect_job task_id coll_job_id s)
          (poll_collect_job task_id coll_job_id (finish_job other finished collection s m job).1)
  unfolding finish_job
  finish_job-Advances m none e e' = Advances-refl (poll_collect_job task_id coll_job_id s)
  finish_job-Advances m (some unknown) e e' = Advances-refl (poll_collect_job task_id coll_job_id s)
  finish_job-Advances m (some (done _)) e e' =
      Advances-refl (poll_collect_job task_id coll_job_id s)
  finish_job-Advances m (some pending) e e' =
      poll-insert task_id coll_job_id s other _ s.work_queue (
        rw e (
          JobAdvances-insert coll_job_id finished (done collection) m.coll_jobs
            (rw e' (inr (collection, refl)))))

  finish_in-Advances :
      (m : Option MockLeaderMemoryPerTask)
      → lookup other s.per_task ≡ m
      → Advances
          (poll_collect_job task_id coll_job_id s)
          (poll_collect_job task_id coll_job_id (finish_in other finished collection s m).1)
  unfolding finish_in
  finish_in-Advances none e = Advances-refl (poll_collect_job task_id coll_job_id s)
  finish_in-Advances (some m) e = finish_job-Advances m (lookup finished m.coll_jobs) e refl

module _ {Url : Type 0} (leader_url_join : DapTaskConfig → TaskId → CollectionJobId → Outcome Url)
    (sha256 : Bytes → Bytes) where
  -- A call of the Leader's state that does not delete all of it.
  pub data Step (s : InMemoryLeaderState) : InMemoryLeaderState → Type 0 where
    puts :
        (task_id : TaskId) (t : DapTaskConfig) (fresh : BatchId) (report : Report)
        → Step s (put_report sha256 task_id t fresh report s).1
    enqueues : (items : List WorkItem) → Step s (enqueue_work items s)
    dequeues : (num_items : ℕ) → Step s (dequeue_work num_items s).1
    inits :
        (task_id : TaskId) (t : DapTaskConfig) (coll_job_id : CollectionJobId)
        (batch_sel : BatchSelector) (agg_param : DapAggregationParam)
        → Step s (init_collect_job leader_url_join task_id t coll_job_id batch_sel agg_param s).1
    finishes :
        (task_id : TaskId) (coll_job_id : CollectionJobId) (collection : Collection)
        → Step s (finish_collect_job task_id coll_job_id collection s).1

  -- Any calls of the Leader's state, `delete_all` too. The first index is the state at the last
  -- `delete_all`, or at the beginning if there has been none.
  pub data Reach (s : InMemoryLeaderState)
      : InMemoryLeaderState → InMemoryLeaderState → Type 0 where
    here : Reach s s s
    next :
        {origin s' s'' : InMemoryLeaderState} → Reach s origin s' → Step s' s'' → Reach s origin s''
    deletes_all :
        {origin s' : InMemoryLeaderState}
        → Reach s origin s'
        → Reach s (delete_all s') (delete_all s')

  Step-Advances :
      (task_id : TaskId) (coll_job_id : CollectionJobId) {s s' : InMemoryLeaderState}
      → Step s s'
      → Advances (poll_collect_job task_id coll_job_id s) (poll_collect_job task_id coll_job_id s')
  unfolding put_report enqueue_work dequeue_work init_collect_job finish_collect_job
      poll_collect_job
  Step-Advances task_id coll_job_id {s} (puts other t fresh report) =
      put_in-Advances task_id coll_job_id s sha256 other report
        (assign_report_to_bucket sha256 t fresh report (task_of other s).batch_queue)
  Step-Advances task_id coll_job_id {s} (enqueues items) =
      Advances-refl (poll_collect_job task_id coll_job_id s)
  Step-Advances task_id coll_job_id {s} (dequeues num_items) =
      Advances-refl (poll_collect_job task_id coll_job_id s)
  Step-Advances task_id coll_job_id {s} (inits other t new_id batch_sel agg_param) =
      with_uri-Advances leader_url_join task_id coll_job_id s other t new_id batch_sel agg_param
        (leader_url_join t other new_id)
  Step-Advances task_id coll_job_id {s} (finishes other finished collection) =
      finish_in-Advances task_id coll_job_id s other finished collection (lookup other s.per_task)
        refl

  Reach-Advances :
      (task_id : TaskId) (coll_job_id : CollectionJobId) {s origin s' : InMemoryLeaderState}
      → Reach s origin s'
      → Advances
          (poll_collect_job task_id coll_job_id origin)
          (poll_collect_job task_id coll_job_id s')
  Reach-Advances task_id coll_job_id {s} here =
      Advances-refl (poll_collect_job task_id coll_job_id s)
  Reach-Advances task_id coll_job_id (next r step) =
      Advances-trans _ _ _ (Reach-Advances task_id coll_job_id r)
        (Step-Advances task_id coll_job_id step)
  Reach-Advances task_id coll_job_id (deletes_all {s'} r) =
      Advances-refl (poll_collect_job task_id coll_job_id (delete_all s'))

  Reach-origin :
      (task_id : TaskId) (coll_job_id : CollectionJobId) {s origin s' : InMemoryLeaderState}
      → Reach s origin s'
      → (origin ≡ s) ⊎ (poll_collect_job task_id coll_job_id origin ≡ err (abort unrecognized_task))
  unfolding delete_all poll_collect_job poll_in lookup
  Reach-origin task_id coll_job_id here = inl refl
  Reach-origin task_id coll_job_id (next r step) = Reach-origin task_id coll_job_id r
  Reach-origin task_id coll_job_id (deletes_all r) = inr refl

  pub poll_collect_job-Advances :
      (task_id : TaskId) (coll_job_id : CollectionJobId) (s origin s' : InMemoryLeaderState)
      → Reach s origin s'
      → Advances
          (poll_collect_job task_id coll_job_id origin)
          (poll_collect_job task_id coll_job_id s')
        × ((origin ≡ s)
            ⊎ (poll_collect_job task_id coll_job_id origin ≡ err (abort unrecognized_task)))
  poll_collect_job-Advances task_id coll_job_id s origin s' reach =
      (Reach-Advances task_id coll_job_id reach, Reach-origin task_id coll_job_id reach)
