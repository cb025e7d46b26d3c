-- ===== src/Leader/CollJobReq.antt =====
-- The request of a collection job (`handle_coll_job_req` in crates/daphne/src/roles/leader/mod.rs). The
-- methods of the traits `DapAggregator` and `DapLeader` that it calls belong to the deployment.
pub mod Accepted
use daphne.Common.{ℕ, Option, none, some, if◌then◌else◌}
use daphne.Codec.Base.{Bytes}
use daphne.Codec.Prio.{Prio}
use daphne.Errors.{Outcome, ok, err, abort, bad_request, unauthorized_request}
use daphne.Messages.Ids.{TaskId, BatchId, CollectionJobId}
use daphne.Messages.Batch.{BatchSelector, Query}
use daphne.Messages.Collection.{CollectionReq, decode_collection_req}
use daphne.Task.{DapTaskConfig, DapGlobalConfig}
use daphne.Request.{
  DapMediaType, DapResource, DapRequest, request_task_id, check_request_content_type,
}
use daphne.Roles.{DapAggregator, check_batch}
use daphne.Roles.Calls.{Call, ◌>>=◌, ◌>>◌, returns, lift, reads}
use daphne.Roles.Tasks.{DapTasks, or_unrecognized, resolve_taskprov}
use daphne.Roles.Checks.{check_version, or_invalid_message, unless_denied}
use daphne.Protocol.Init.{DapAggregationParam, decode_agg_param}

-- The methods that the request of a collection job calls; a reason is some text.
pub record CollectionStore (S Store Url : Type 0) : Type 0 where
  pub unauthorized_reason : DapTaskConfig → DapRequest S → Store → Outcome (Option Bytes)
  pub batches : Store → DapAggregator
  pub current_batch : TaskId → Store → Outcome BatchId
  pub init_collect_job :
      TaskId → CollectionJobId → BatchSelector → DapAggregationParam → Call Store Url

unfoldable pub coll_job_id_of : DapResource → Outcome CollectionJobId
coll_job_id_of (DapResource.collection_job coll_job_id) = ok coll_job_id
coll_job_id_of (DapResource.aggregation_job agg_job_id) = err (abort bad_request)
coll_job_id_of DapResource.undefined = err (abort bad_request)

module _ {S Store Url : Type 0} (jobs : CollectionStore S Store Url) (task_id : TaskId) where
  unfoldable pub batch_sel_for : Query → Store → Outcome BatchSelector
  batch_sel_for (Query.time_interval i) store = ok (BatchSelector.time_interval i)
  batch_sel_for (Query.fixed_size_by_batch_id batch_id) store =
      ok (BatchSelector.fixed_size_by_batch_id batch_id)
  batch_sel_for Query.fixed_size_current_batch store =
      daphne.Errors.◌>>=◌ (jobs.current_batch task_id store)
        λ batch_id. ok (BatchSelector.fixed_size_by_batch_id batch_id)

module _ (p : Prio) {S Store Url : Type 0} (tasks : DapTasks S Store)
    (jobs : CollectionStore S Store Url) (now : ℕ) where
  unfoldable pub handle_coll_job_req : DapRequest S → Call Store Url
  unfolding unless_denied coll_job_id_of batch_sel_for
  handle_coll_job_req req = do
    global_config ← reads tasks.get_global_config
    task_id ← lift (request_task_id req)
    lift (check_request_content_type req DapMediaType.collect_req)
    if global_config.allow_taskprov
        then resolve_taskprov tasks task_id req global_config
        else returns tt
    found ← reads (tasks.get_task_config_for task_id)
    t ← lift (or_unrecognized found)
    reason ← reads (jobs.unauthorized_reason t req)
    lift (unless_denied reason)
    coll_job_req ←
        lift
          (or_invalid_message (p.get_decoded CollectionReq (decode_collection_req p) req.payload))
    agg_param ← lift (
        or_invalid_message
          (p.get_decoded DapAggregationParam (decode_agg_param t.vdaf) coll_job_req.agg_param))
    lift (check_version t.version req.version)
    reads (λ store.
        check_batch (jobs.batches store) t global_config task_id coll_job_req.query
          coll_job_req.agg_param now)
    coll_job_id ← lift (coll_job_id_of req.resource)
    batch_sel ← reads (batch_sel_for jobs task_id coll_job_req.query)
    jobs.init_collect_job task_id coll_job_id batch_sel agg_param
