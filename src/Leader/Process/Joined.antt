-- ===== src/Leader/Process/Joined.antt =====
-- Which aggregation jobs the processing loop has joined when it comes to a collection job.
use daphne.Common.{
  ◌≡◌, refl, sym, ◌∙◌, inl, inr, false, Bool-cases, Option, none, some, List, [], ◌∷◌, ◌++◌, map,
  if◌then◌else◌, lookup, lookup-insert, append_assoc, append-nil,
}
use daphne.Messages.Ids.{TaskId, CollectionJobId}
use daphne.Messages.Batch.{BatchSelector}
use daphne.Span.{bytes_eq}
use daphne.Protocol.Init.{DapAggregationParam}
use daphne.Leader.Memory.{WorkItem, aggregation_job, collection_job}
use daphne.Leader.Memory.Keys.{bytes_key}
use daphne.Leader.Process.{
  AggregationWork, Waiting, Progress, Worker, or_no_jobs, push_job, add_processed, join_jobs,
  collect_job, drained, process_items,
}

abbrev pub item_of : AggregationWork → WorkItem
item_of work = aggregation_job work.task_id work.part_batch_sel work.agg_param work.reports

-- The jobs of the task, in their order.
abbrev pub jobs_of : TaskId → List AggregationWork → List AggregationWork
jobs_of task_id [] = []
jobs_of task_id (work ∷ works) =
    if bytes_eq work.task_id task_id then work ∷ jobs_of task_id works else jobs_of task_id works

abbrev pub all_processed : List AggregationWork → Progress → Progress
all_processed [] progress = progress
all_processed (work ∷ works) progress = all_processed works (add_processed work.reports progress)

abbrev pub push_all : List AggregationWork → Waiting → Waiting
push_all [] waiting = waiting
push_all (work ∷ works) waiting = push_all works (push_job work waiting)

push_job-lookup :
    (task_id : TaskId) (work : AggregationWork) (waiting : Waiting)
    → or_no_jobs (lookup task_id (push_job work waiting))
      ≡ or_no_jobs (lookup task_id waiting) ++ jobs_of task_id (work ∷ [])
unfolding push_job
push_job-lookup task_id work waiting =
    let jobs = or_no_jobs (lookup work.task_id waiting) ++ (work ∷ []) in
    elim (Bool-cases (bytes_eq work.task_id task_id)) [
      | inl x ↦
          rw
            (
              lookup-insert work.task_id task_id jobs waiting,
              x,
              ← bytes_key.key_eq_sound work.task_id task_id x,
            )
            refl
      | inr x ↦
          rw
            (
              lookup-insert work.task_id task_id jobs waiting,
              x,
              append-nil (or_no_jobs (lookup task_id waiting)),
            )
            refl
    ]

jobs_of-cons :
    (task_id : TaskId) (work : AggregationWork) (works : List AggregationWork)
    → jobs_of task_id (work ∷ works) ≡ jobs_of task_id (work ∷ []) ++ jobs_of task_id works
jobs_of-cons task_id work works = elim (Bool-cases (bytes_eq work.task_id task_id)) [
  | inl x ↦ rw x refl
  | inr x ↦ rw x refl
]

push_all-lookup :
    (task_id : TaskId) (works : List AggregationWork) (waiting : Waiting)
    → or_no_jobs (lookup task_id (push_all works waiting))
      ≡ or_no_jobs (lookup task_id waiting) ++ jobs_of task_id works
push_all-lookup task_id [] waiting = sym (append-nil (or_no_jobs (lookup task_id waiting)))
push_all-lookup task_id (work ∷ works) waiting =
    rw
      (
        push_all-lookup task_id works (push_job work waiting),
        push_job-lookup task_id work waiting,
        jobs_of-cons task_id work works,
        append_assoc (or_no_jobs (lookup task_id waiting)) (jobs_of task_id (work ∷ []))
            (jobs_of task_id works),
      )
      refl

module _ (task_id : TaskId) where
  drained_empty :
      (jobs : Option (List AggregationWork)) (pushed : Waiting)
      → lookup task_id pushed ≡ jobs
      → or_no_jobs (lookup task_id (drained task_id jobs pushed)) ≡ []
  unfolding drained
  drained_empty none pushed e = rw e refl
  drained_empty (some jobs) pushed e =
      rw (lookup-insert task_id task_id [] pushed, bytes_key.key_eq_refl task_id) refl

  drained_others :
      (jobs : Option (List AggregationWork)) (pushed : Waiting) (other : TaskId)
      → bytes_eq task_id other ≡ false
      → or_no_jobs (lookup other (drained task_id jobs pushed)) ≡ or_no_jobs (lookup other pushed)
  unfolding drained
  drained_others none pushed other apart = refl
  drained_others (some jobs) pushed other apart =
      rw (lookup-insert task_id other [] pushed, apart) refl

module _ {Store : Type 0} (w : Worker Store) where
  process_items-push_all :
      (works : List AggregationWork) (items : List WorkItem) (waiting : Waiting)
      (progress : Progress)
      → process_items w (map item_of works ++ items) waiting progress
        ≡ process_items w items (push_all works waiting) (all_processed works progress)
  unfolding process_items
  process_items-push_all [] items waiting progress = refl
  process_items-push_all (work ∷ works) items waiting progress =
      process_items-push_all works items (push_job work waiting)
        (add_processed work.reports progress)

  -- Before a collection job the loop joins the aggregation jobs of its task. If the work items begin
  -- with aggregation jobs, of whatever tasks, and a collection job, then processing them is: to count
  -- the reports of those aggregation jobs as processed, to join the jobs of the collection job's task,
  -- those that were waiting and those among the items, all of them and in their order, then to run the
  -- collection job, and then to process the other items with no job of that task waiting and all jobs
  -- of the other tasks.
  pub process_items-joined :
      (works : List AggregationWork) (task_id : TaskId) (coll_job_id : CollectionJobId)
      (batch_sel : BatchSelector) (agg_param : DapAggregationParam) (items : List WorkItem)
      (before : Waiting) (progress : Progress)
      → (jobs : Option (List AggregationWork)) × (after : Waiting) × (or_no_jobs jobs
          ≡ or_no_jobs (lookup task_id before) ++ jobs_of task_id works)
        × (or_no_jobs (lookup task_id after) ≡ [])
        × ((other : TaskId)
            → bytes_eq task_id other ≡ false
            → or_no_jobs (lookup other after)
              ≡ or_no_jobs (lookup other before) ++ jobs_of other works)
        × (process_items w
              (map item_of works
                ++ (collection_job task_id coll_job_id batch_sel agg_param ∷ items))
              before
              progress
            ≡ join_jobs w jobs
                (collect_job w task_id coll_job_id batch_sel agg_param
                  (process_items w items after))
                (all_processed works progress))
  unfolding process_items
  process_items-joined works task_id coll_job_id batch_sel agg_param items before progress =
      let pushed = push_all works before in
      let jobs = lookup task_id pushed in
      (
        jobs,
        drained task_id jobs pushed,
        push_all-lookup task_id works before,
        drained_empty task_id jobs pushed refl,
        λ other apart.
            drained_others task_id jobs pushed other apart ∙ push_all-lookup other works before,
        process_items-push_all works _ before progress,
      )
