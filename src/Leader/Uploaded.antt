-- ===== src/Leader/Uploaded.antt =====
-- A report from its upload to the aggregation job that it is queued in: the handlers of
-- crates/daphne/src/roles/leader/mod.rs over the Leader's state in memory
-- (crates/daphne/src/roles/leader/in_memory_leader.rs), as the aggregator of
-- crates/daphne/src/testing/mod.rs joins them, in a deployment with one task.
use daphne.Common.{ℕ, ◌+◌, ◌%◌, ◌<◌, ◌≤◌, ◌≡◌, sym, ap, Bool, false, Option, some}
use daphne.Codec.Base as Codec
use daphne.Codec.Base.{Bytes}
use daphne.Codec.Prio.{Prio}
use daphne.Errors.{Outcome, ok}
use daphne.Messages.Ids.{TaskId, BatchId, CollectionJobId}
use daphne.Messages.Batch.{Interval, BatchSelector, Query}
use daphne.Messages.Report.{Report, decode_report}
use daphne.Messages.Collection.{CollectionReq, decode_collection_req}
use daphne.Task.{DapTaskConfig, DapGlobalConfig, DapQueryConfig, u64_end}
use daphne.Request.{DapRequest, DapResource, request_task_id}
use daphne.Roles.{DapAggregator}
use daphne.Roles.CheckBatch.{check_batch_iff}
use daphne.Roles.Tasks.{DapTasks, IsResolved}
use daphne.Protocol.Init.{DapAggregationParam}
use daphne.Leader.Memory.{InMemoryLeaderState, put_report, current_batch, init_collect_job}
use daphne.Leader.Memory.Queued.{QueuedBefore, put_report-QueuedBefore}
use daphne.Leader.Upload.{ReportStore, handle_upload_req}
use daphne.Leader.Upload.Accepted.{handle_upload_req-IsStored}
use daphne.Leader.CollJobReq.{CollectionStore, handle_coll_job_req}
use daphne.Leader.CollJobReq.Accepted.{handle_coll_job_req-IsBegun}

ok_unique : {A : Type 0} (m : Outcome A) (a b : A) → m ≡ ok a → m ≡ ok b → a ≡ b
ok_unique m a b e e' = cc

codec_unique : {A : Type 0} (m : Codec.Result A) (a b : A) → m ≡ Codec.ok a → m ≡ Codec.ok b → a ≡ b
codec_unique m a b e e' = cc

module _ {S : Type 0} (tasks : DapTasks S InMemoryLeaderState) (task_id : TaskId)
    (req : DapRequest S) where
  -- Without Taskprov the state is left as it is.
  resolved_in_place :
      (g : DapGlobalConfig) (store between : InMemoryLeaderState)
      → g.allow_taskprov ≡ false
      → IsResolved tasks task_id req g store between
      → between ≡ store
  resolved_in_place g store between off (_, e) =
      let e' = rw off at e in sym (ap (λ (x : Outcome Unit × InMemoryLeaderState). x.1) e')

module _ (p : Prio) {S Url : Type 0} (tasks : DapTasks S InMemoryLeaderState)
    (can_hpke_decrypt : TaskId → ℕ → InMemoryLeaderState → Outcome Bool)
    (unauthorized_reason : DapTaskConfig
      → DapRequest S
      → InMemoryLeaderState
      → Outcome (Option Bytes))
    (batches : InMemoryLeaderState → DapAggregator) (sha256 : Bytes → Bytes)
    (leader_url_join : DapTaskConfig → TaskId → CollectionJobId → Outcome Url) (t : DapTaskConfig)
    (fresh : BatchId) where
  abbrev pub reports_in_memory : ReportStore InMemoryLeaderState
  reports_in_memory = record {
    can_hpke_decrypt = can_hpke_decrypt;
    put_report = λ report task_id s. put_report sha256 task_id t fresh report s;
  }

  abbrev pub jobs_in_memory : CollectionStore S InMemoryLeaderState Url
  jobs_in_memory = record {
    unauthorized_reason = unauthorized_reason;
    batches = batches;
    current_batch = λ task_id s. current_batch task_id t s;
    init_collect_job = λ task_id coll_job_id batch_sel agg_param s.
        init_collect_job leader_url_join task_id t coll_job_id batch_sel agg_param s;
  }

  queued_in_between :
      (task_id : TaskId) (report : Report) (coll_job_id : CollectionJobId) (i : Interval)
      (agg_param : DapAggregationParam) (before between after : InMemoryLeaderState) (uri : Url)
      → t.query ≡ DapQueryConfig.time_interval
      → 0 < t.time_precision
      → 0 < t.num_agg_span_shards
      → i.start % t.time_precision ≡ 0
      → i.duration % t.time_precision ≡ 0
      → i.start + i.duration < u64_end
      → i.start ≤ report.report_metadata.time
      → report.report_metadata.time < i.start + i.duration
      → put_report sha256 task_id t fresh report before ≡ (ok tt, between)
      → init_collect_job leader_url_join task_id t coll_job_id
          (BatchSelector.time_interval i)
          agg_param
          between
        ≡ (ok uri, after)
      → QueuedBefore task_id
          (BatchSelector.time_interval i)
          agg_param
          coll_job_id
          report
          after.work_queue
  queued_in_between task_id report coll_job_id i agg_param before between after uri query pos shards
        aligned whole fits lo hi put init =
      let here : between ≡ (put_report sha256 task_id t fresh report before).1 =
        sym (ap (λ x. x.1) put) in
      let init' = rw here at init in
      let queued =
        put_report-QueuedBefore leader_url_join sha256 task_id t fresh report coll_job_id i
          agg_param before uri query pos shards aligned whole fits lo hi (ap (λ x. x.0) init') in
      rw (sym (ap (λ x. x.1) init')) queued

  -- An upload that is accepted is queued for aggregation before its batch is first collected. Over the
  -- Leader's state in memory, without Taskprov, with one configuration of the task, of time-interval
  -- queries and with at least one shard: if the upload of a report returns, and then the request of a
  -- collection job for an interval that ends before 2^64 and contains the time of the report returns,
  -- then the work queue ends with the collection job, and before it has an aggregation job for the
  -- batch with the report in it.
  pub handle_upload_req-QueuedBefore :
      (now : ℕ) (task_id : TaskId) (upload coll_job : DapRequest S) (report : Report)
      (coll_job_req : CollectionReq) (coll_job_id : CollectionJobId) (i : Interval)
      (before between after : InMemoryLeaderState) (uri : Url)
      → ((s : InMemoryLeaderState) (g : DapGlobalConfig)
          → tasks.get_global_config s ≡ ok g
          → g.allow_taskprov ≡ false)
      → ((s : InMemoryLeaderState) (t' : DapTaskConfig)
          → tasks.get_task_config_for task_id s ≡ ok (some t')
          → t' ≡ t)
      → t.query ≡ DapQueryConfig.time_interval
      → 0 < t.num_agg_span_shards
      → request_task_id upload ≡ ok task_id
      → request_task_id coll_job ≡ ok task_id
      → p.get_decoded Report (decode_report p) upload.payload ≡ Codec.ok report
      → p.get_decoded CollectionReq (decode_collection_req p) coll_job.payload
        ≡ Codec.ok coll_job_req
      → coll_job_req.query ≡ Query.time_interval i
      → coll_job.resource ≡ DapResource.collection_job coll_job_id
      → i.start + i.duration < u64_end
      → i.start ≤ report.report_metadata.time
      → report.report_metadata.time < i.start + i.duration
      → handle_upload_req p tasks reports_in_memory upload before ≡ (ok tt, between)
      → handle_coll_job_req p tasks jobs_in_memory now coll_job between ≡ (ok uri, after)
      → (agg_param : DapAggregationParam) × QueuedBefore task_id
          (BatchSelector.time_interval i)
          agg_param
          coll_job_id
          report
          after.work_queue
  handle_upload_req-QueuedBefore now task_id upload coll_job report coll_job_req coll_job_id i
        before between after uri off one query shards named named' decoded decoded' asked resource
        fits lo hi uploaded begun =
      let (id, t1, report', s1, stored) =
        handle_upload_req-IsStored p tasks reports_in_memory upload before between uploaded in
      let (named1, decoded1, (g1, resolved1), known1, _, _, _, _, put) = stored in
      let (id', g, t2, req', job', sel, agg_param, s2, begin) =
        handle_coll_job_req-IsBegun p tasks jobs_in_memory now coll_job between after uri begun in
      let (named2, resolved2, known2, _, decoded2, _, _, checked, resource2, selects, init) =
        begin in
      let same_id = ok_unique (request_task_id upload) id task_id named1 named in
      let same_id' = ok_unique (request_task_id coll_job) id' task_id named2 named' in
      let same_report = codec_unique _ report' report decoded1 decoded in
      let same_req = codec_unique _ req' coll_job_req decoded2 decoded' in
      let in_place =
        resolved_in_place tasks id upload g1 before s1 (off before g1 resolved1.0) resolved1 in
      let in_place' =
        resolved_in_place tasks id' coll_job g between s2 (off between g resolved2.0) resolved2 in
      let same_job : job' ≡ coll_job_id = cc in
      let same_sel = rw (same_req, asked) at selects in
      let known : tasks.get_task_config_for task_id s2 ≡ ok (some t2) = rw same_id' at known2 in
      let accepted =
        (check_batch_iff (batches s2) t2 g id' req'.query req'.agg_param now).0 checked in
      let acceptable = rw (one s2 t2 known, query, same_req, asked) at accepted.1 in
      let (pos, aligned, whole, _, _, _, _) = acceptable in
      (
        agg_param,
        queued_in_between task_id report coll_job_id i agg_param before between after uri query pos
            shards aligned whole fits lo hi (rw (same_id, same_report, in_place) at put)
            (rw (same_id', same_job, same_sel, in_place') at init),
      )
