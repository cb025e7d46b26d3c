-- ===== src/Leader/Memory/Conserved.antt =====
-- The reports that the Leader's state holds, as pending ones and in the work queue
-- (crates/daphne/src/roles/leader/in_memory_leader.rs).
use daphne.Common.{
  ℕ, ◌+◌, ◌≡◌, ◌≢◌, refl, Bool, Option, none, some, List, [], ◌∷◌, ◌++◌, arith, take, drop,
  take-append-drop, lookup, insert, remove, total, measure_of, total-insert, total-remove, count,
  count-append, if◌then◌else◌,
}
use daphne.Codec.Base.{Bytes}
use daphne.Errors.{Outcome, ok, err, panic}
use daphne.Messages.Ids.{TaskId, BatchId, CollectionJobId}
use daphne.Messages.Batch.{BatchSelector}
use daphne.Messages.Report.{Report}
use daphne.Messages.Collection.{Collection}
use daphne.Task.{DapTaskConfig, DapBatchBucket, batch_span_for_sel}
use daphne.Protocol.Init.{DapAggregationParam}
use daphne.Leader.Memory.{
  DapCollectionJob, done, pending, unknown, WorkItem, aggregation_job, collection_job, BatchQueue,
  MockLeaderMemoryPerTask, InMemoryLeaderState, or_new, or_empty, task_of, with_task,
  assign_report_to_bucket, put_in, put_report, enqueue_work, dequeue_work, delete_all, job_for,
  leave_batch, queue_buckets, fill_queue, store_job, with_uri, init_collect_job, finish_job,
  finish_in, finish_collect_job,
}
use daphne.Leader.Memory.Keys.{bytes_key, bucket_key}

module _ (test : Report → Bool) where
  abbrev pub in_item : WorkItem → ℕ
  in_item (aggregation_job task_id part_batch_sel agg_param reports) = count test reports
  in_item (collection_job task_id coll_job_id batch_sel agg_param) = 0

  abbrev pub in_items : List WorkItem → ℕ
  in_items [] = 0
  in_items (item ∷ items) = in_item item + in_items items

  -- The reports of a task that are pending.
  abbrev pub held : MockLeaderMemoryPerTask → ℕ
  held m = total (count test) m.pending_reports

  -- The number of reports in the state that pass the test.
  abbrev pub stored : InMemoryLeaderState → ℕ
  stored s = total held s.per_task + in_items s.work_queue

  -- The number of such reports in several states.
  abbrev pub stored_in : List InMemoryLeaderState → ℕ
  stored_in [] = 0
  stored_in (s ∷ states) = stored s + stored_in states

  in_items-append : (xs ys : List WorkItem) → in_items (xs ++ ys) ≡ in_items xs + in_items ys
  in_items-append [] ys = omega arith
  in_items-append (x ∷ xs) ys = omega (arith, in_items-append xs ys)

  count-or_empty :
      (reports : Option (List Report))
      → count test (or_empty reports) ≡ measure_of (count test) reports
  count-or_empty none = refl
  count-or_empty (some reports) = refl

  held-or_new : (m : Option MockLeaderMemoryPerTask) → held (or_new m) ≡ measure_of held m
  unfolding total
  held-or_new none = refl
  held-or_new (some m) = refl

  stored-with_task :
      (task_id : TaskId) (m : MockLeaderMemoryPerTask) (s : InMemoryLeaderState)
      → stored (with_task task_id m s) + held (task_of task_id s) ≡ held m + stored s
  stored-with_task task_id m s =
      omega (arith, total-insert held task_id m s.per_task, held-or_new (lookup task_id s.per_task))

  put_in-stored :
      (sha256 : Bytes → Bytes) (task_id : TaskId) (report : Report) (s : InMemoryLeaderState)
      (assigned : Outcome (DapBatchBucket × BatchQueue))
      → (put_in sha256 task_id report s assigned).0 ≡ ok tt
      → stored (put_in sha256 task_id report s assigned).1
        ≡ (if test report then 1 else 0) + stored s
  unfolding put_in
  put_in-stored sha256 task_id report s (ok (bucket, queue)) h =
      let m = task_of task_id s in
      let old = lookup bucket m.pending_reports in
      let reports = or_empty old ++ (report ∷ []) in
      omega (
        arith,
        stored-with_task task_id
            (record m {
              pending_reports = insert bucket reports m.pending_reports;
              batch_queue = queue;
            })
            s,
        total-insert (count test) bucket reports m.pending_reports,
        count-or_empty old,
        count-append test (or_empty old) (report ∷ []),
      )
  put_in-stored sha256 task_id report s (err e) h = cc
  put_in-stored sha256 task_id report s panic h = cc

  put_in-nothing :
      (sha256 : Bytes → Bytes) (task_id : TaskId) (report : Report) (s : InMemoryLeaderState)
      (assigned : Outcome (DapBatchBucket × BatchQueue))
      → (put_in sha256 task_id report s assigned).0 ≢ ok tt
      → stored (put_in sha256 task_id report s assigned).1 ≡ stored s
  unfolding put_in
  put_in-nothing sha256 task_id report s (ok (bucket, queue)) h = absurd (h refl)
  put_in-nothing sha256 task_id report s (err e) h = refl
  put_in-nothing sha256 task_id report s panic h = refl

  module _ (task_id : TaskId) (batch_sel : BatchSelector) (agg_param : DapAggregationParam) where
    in_items-job_for :
        (reports : Option (List Report))
        → in_items (job_for task_id batch_sel agg_param reports) ≡ measure_of (count test) reports
    unfolding job_for
    in_items-job_for none = refl
    in_items-job_for (some reports) = omega arith

    queue_buckets-held :
        (buckets : List DapBatchBucket) (m : MockLeaderMemoryPerTask)
        → in_items (queue_buckets task_id batch_sel agg_param buckets m).0
            + held (queue_buckets task_id batch_sel agg_param buckets m).1
          ≡ held m
    unfolding queue_buckets
    queue_buckets-held [] m = omega arith
    queue_buckets-held (bucket ∷ buckets) m =
        let m' = record m {
          pending_reports = remove bucket m.pending_reports;
          batch_queue = leave_batch bucket m.batch_queue;
        } in
        let r = queue_buckets task_id batch_sel agg_param buckets m' in
        let old = lookup bucket m.pending_reports in
        omega (
          arith,
          queue_buckets-held buckets m',
          total-remove (count test) bucket m.pending_reports,
          in_items-job_for old,
          in_items-append (job_for task_id batch_sel agg_param old) r.0,
        )

  module _ {Url : Type 0} (leader_url_join : DapTaskConfig → TaskId → CollectionJobId → Outcome Url)
      (task_id : TaskId) (t : DapTaskConfig) (coll_job_id : CollectionJobId)
      (batch_sel : BatchSelector) (agg_param : DapAggregationParam) (s : InMemoryLeaderState) where
    fill_queue-stored :
        (uri : Url) (m : MockLeaderMemoryPerTask) (buckets : Outcome (List DapBatchBucket))
        → held m ≡ held (task_of task_id s)
        → stored
            (fill_queue leader_url_join task_id t coll_job_id batch_sel agg_param uri m s buckets).1
          ≡ stored s
    unfolding fill_queue
    fill_queue-stored uri m (ok buckets) h =
        let r = queue_buckets task_id batch_sel agg_param buckets m in
        let last = collection_job task_id coll_job_id batch_sel agg_param ∷ [] in
        omega (
          arith,
          stored-with_task task_id r.1 s,
          queue_buckets-held task_id batch_sel agg_param buckets m,
          in_items-append s.work_queue (r.0 ++ last),
          in_items-append r.0 last,
        )
    fill_queue-stored uri m (err e) h = omega (arith, stored-with_task task_id m s)
    fill_queue-stored uri m panic h = omega (arith, stored-with_task task_id m s)

    store_job-stored :
        (uri : Url) (job : Option DapCollectionJob)
        → stored (store_job leader_url_join task_id t coll_job_id batch_sel agg_param uri s job).1
          ≡ stored s
    unfolding store_job
    store_job-stored uri (some job) = omega (arith, stored-with_task task_id (task_of task_id s) s)
    store_job-stored uri none =
        let m = task_of task_id s in
        fill_queue-stored uri (record m { coll_jobs = insert coll_job_id pending m.coll_jobs })
          (batch_span_for_sel t batch_sel) refl

    with_uri-stored :
        (uri : Outcome Url)
        → stored (with_uri leader_url_join task_id t coll_job_id batch_sel agg_param s uri).1
          ≡ stored s
    unfolding with_uri
    with_uri-stored (ok uri) =
        store_job-stored uri (lookup coll_job_id (task_of task_id s).coll_jobs)
    with_uri-stored (err e) = omega (arith, stored-with_task task_id (task_of task_id s) s)
    with_uri-stored panic = omega (arith, stored-with_task task_id (task_of task_id s) s)

  module _ (task_id : TaskId) (coll_job_id : CollectionJobId) (collection : Collection)
      (s : InMemoryLeaderState) where
    finish_job-stored :
        (m : MockLeaderMemoryPerTask) (job : Option DapCollectionJob)
        → lookup task_id s.per_task ≡ some m
        → stored (finish_job task_id coll_job_id collection s m job).1 ≡ stored s
    unfolding finish_job
    finish_job-stored m none e = refl
    finish_job-stored m (some unknown) e = refl
    finish_job-stored m (some (done _)) e = refl
    finish_job-stored m (some pending) e =
        let h =
          stored-with_task task_id
            (record m { coll_jobs = insert coll_job_id (done collection) m.coll_jobs }) s in
        let h' = rw e at h in omega arith

    finish_in-stored :
        (m : Option MockLeaderMemoryPerTask)
        → lookup task_id s.per_task ≡ m
        → stored (finish_in task_id coll_job_id collection s m).1 ≡ stored s
    unfolding finish_in
    finish_in-stored none e = refl
    finish_in-stored (some m) e = finish_job-stored m (lookup coll_job_id m.coll_jobs) e

module _ {Url : Type 0} (leader_url_join : DapTaskConfig → TaskId → CollectionJobId → Outcome Url)
    (sha256 : Bytes → Bytes) where
  -- Every call that changes the Leader's state: the reports that it accepts, the work items that it is
  -- given and that it hands out, and the states that have been deleted.
  pub data Traffic (s : InMemoryLeaderState)
      : List Report
        → List WorkItem
        → List WorkItem
        → List InMemoryLeaderState
        → InMemoryLeaderState
        → Type 0 where
    start : Traffic s [] [] [] [] s
    puts :
        {reports : List Report} {given handed_out : List WorkItem}
        {deleted : List InMemoryLeaderState} {s' : InMemoryLeaderState} (task_id : TaskId)
        (t : DapTaskConfig) (fresh : BatchId) (report : Report)
        → Traffic s reports given handed_out deleted s'
        → (put_report sha256 task_id t fresh report s').0 ≡ ok tt
        → Traffic s
            (report ∷ reports)
            given
            handed_out
            deleted
            (put_report sha256 task_id t fresh report s').1
    puts_nothing :
        {reports : List Report} {given handed_out : List WorkItem}
        {deleted : List InMemoryLeaderState} {s' : InMemoryLeaderState} (task_id : TaskId)
        (t : DapTaskConfig) (fresh : BatchId) (report : Report)
        → Traffic s reports given handed_out deleted s'
        → (put_report sha256 task_id t fresh report s').0 ≢ ok tt
        → Traffic s reports given handed_out deleted (put_report sha256 task_id t fresh report s').1
    enqueues :
        {reports : List Report} {given handed_out : List WorkItem}
        {deleted : List InMemoryLeaderState} {s' : InMemoryLeaderState} (items : List WorkItem)
        → Traffic s reports given handed_out deleted s'
        → Traffic s reports (items ++ given) handed_out deleted (enqueue_work items s')
    dequeues :
        {reports : List Report} {given handed_out : List WorkItem}
        {deleted : List InMemoryLeaderState} {s' : InMemoryLeaderState} (num_items : ℕ)
        → Traffic s reports given handed_out deleted s'
        → Traffic s reports given
            ((dequeue_work num_items s').0 ++ handed_out)
            deleted
            (dequeue_work num_items s').1
    inits :
        {reports : List Report} {given handed_out : List WorkItem}
        {deleted : List InMemoryLeaderState} {s' : InMemoryLeaderState} (task_id : TaskId)
        (t : DapTaskConfig) (coll_job_id : CollectionJobId) (batch_sel : BatchSelector)
        (agg_param : DapAggregationParam)
        → Traffic s reports given handed_out deleted s'
        → Traffic s reports given handed_out deleted
            (init_collect_job leader_url_join task_id t coll_job_id batch_sel agg_param s').1
    finishes :
        {reports : List Report} {given handed_out : List WorkItem}
        {deleted : List InMemoryLeaderState} {s' : InMemoryLeaderState} (task_id : TaskId)
        (coll_job_id : CollectionJobId) (collection : Collection)
        → Traffic s reports given handed_out deleted s'
        → Traffic s reports given handed_out deleted
            (finish_collect_job task_id coll_job_id collection s').1
    deletes_all :
        {reports : List Report} {given handed_out : List WorkItem}
        {deleted : List InMemoryLeaderState} {s' : InMemoryLeaderState}
        → Traffic s reports given handed_out deleted s'
        → Traffic s reports given handed_out (s' ∷ deleted) (delete_all s')

  -- No report is lost and none is held twice. Whatever calls the Leader's state gets, in whatever order
  -- and with whatever outcome, and whatever test one puts to reports: the reports that pass it among
  -- those held before, those accepted and those in the work items given are as many as among those
  -- held afterwards, those in the work items handed out and those in the states that `delete_all` has
  -- deleted.
  pub reports_conserved :
      (test : Report → Bool) (s : InMemoryLeaderState) (reports : List Report)
      (given handed_out : List WorkItem) (deleted : List InMemoryLeaderState)
      (s' : InMemoryLeaderState)
      → Traffic s reports given handed_out deleted s'
      → stored test s + count test reports + in_items test given
        ≡ stored test s' + in_items test handed_out + stored_in test deleted
  unfolding put_report enqueue_work dequeue_work init_collect_job finish_collect_job delete_all
      total
  reports_conserved test s reports given handed_out deleted s' start = omega arith
  reports_conserved test s _ given handed_out deleted _
        (puts {reports} {s'} task_id t fresh report before e) =
      omega (
        arith,
        reports_conserved test s reports given handed_out deleted s' before,
        put_in-stored test sha256 task_id report s'
            (assign_report_to_bucket sha256 t fresh report (task_of task_id s').batch_queue) e,
      )
  reports_conserved test s reports given handed_out deleted _
        (puts_nothing {s'} task_id t fresh report before e) =
      omega (
        arith,
        reports_conserved test s reports given handed_out deleted s' before,
        put_in-nothing test sha256 task_id report s'
            (assign_report_to_bucket sha256 t fresh report (task_of task_id s').batch_queue) e,
      )
  reports_conserved test s reports _ handed_out deleted _ (enqueues {given} {s'} items before) =
      omega (
        arith,
        reports_conserved test s reports given handed_out deleted s' before,
        in_items-append test items given,
        in_items-append test s'.work_queue items,
      )
  reports_conserved test s reports given _ deleted _ (dequeues {handed_out} {s'} num_items before) =
      let front = take num_items s'.work_queue in
      let rest = drop num_items s'.work_queue in
      let split = in_items-append test front rest in
      let split' = rw (take-append-drop num_items s'.work_queue) at split in
      omega (
        arith,
        reports_conserved test s reports given handed_out deleted s' before,
        in_items-append test front handed_out,
      )
  reports_conserved test s reports given handed_out deleted _
        (inits {s'} task_id t coll_job_id batch_sel agg_param before) =
      omega (
        arith,
        reports_conserved test s reports given handed_out deleted s' before,
        with_uri-stored test leader_url_join task_id t coll_job_id batch_sel agg_param s'
            (leader_url_join t task_id coll_job_id),
      )
  reports_conserved test s reports given handed_out deleted _
        (finishes {s'} task_id coll_job_id collection before) =
      omega (
        arith,
        reports_conserved test s reports given handed_out deleted s' before,
        finish_in-stored test task_id coll_job_id collection s' (lookup task_id s'.per_task) refl,
      )
  reports_conserved test s reports given handed_out _ _ (deletes_all {deleted} {s'} before) =
      omega (arith, reports_conserved test s reports given handed_out deleted s' before)
