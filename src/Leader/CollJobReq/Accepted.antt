-- ===== src/Leader/CollJobReq/Accepted.antt =====
-- Which collection jobs are begun.
use daphne.Common.{ℕ, ◌≡◌, ◌∙◌, ap, none, some}
use daphne.Codec.Base as Codec
use daphne.Codec.Base.{Bytes}
use daphne.Codec.Prio.{Prio}
use daphne.Errors.{Outcome, ok, err, panic}
use daphne.Messages.Ids.{TaskId, CollectionJobId}
use daphne.Messages.Batch.{BatchSelector, Query}
use daphne.Messages.Collection.{CollectionReq, decode_collection_req}
use daphne.Task.{DapTaskConfig, DapGlobalConfig}
use daphne.Request.{
  DapMediaType, DapResource, DapRequest, request_task_id, check_request_content_type,
}
use daphne.Roles.{check_batch}
use daphne.Roles.Calls.{call_parts, lift_parts}
use daphne.Roles.Tasks.{DapTasks, or_unrecognized, IsResolved}
use daphne.Roles.Checks.{
  check_version, check_version_ok, or_invalid_message, or_invalid_message_ok, or_unrecognized-some,
  unless_denied, unless_denied-none,
}
use daphne.Protocol.Init.{DapAggregationParam, decode_agg_param}
use daphne.Leader.CollJobReq.{CollectionStore, coll_job_id_of, batch_sel_for, handle_coll_job_req}

coll_job_id_named :
    (resource : DapResource) (id : CollectionJobId)
    → coll_job_id_of resource ≡ ok id
    → resource ≡ DapResource.collection_job id
unfolding coll_job_id_of
coll_job_id_named (DapResource.collection_job other) id h = cc
coll_job_id_named (DapResource.aggregation_job other) id h = cc
coll_job_id_named DapResource.undefined id h = cc

module _ (p : Prio) {S Store Url : Type 0} (tasks : DapTasks S Store)
    (jobs : CollectionStore S Store Url) (now : ℕ) (req : DapRequest S) (store after : Store)
    (uri : Url) where
  -- The query selects the batch, by itself or as the current batch of the task.
  abbrev pub Selects : TaskId → Query → BatchSelector → Store → Type 0
  Selects task_id (Query.time_interval i) batch_sel between =
      batch_sel ≡ BatchSelector.time_interval i
  Selects task_id (Query.fixed_size_by_batch_id batch_id) batch_sel between =
      batch_sel ≡ BatchSelector.fixed_size_by_batch_id batch_id
  Selects task_id Query.fixed_size_current_batch batch_sel between =
      (batch_id : Bytes) × (jobs.current_batch task_id between ≡ ok batch_id)
      × (batch_sel ≡ BatchSelector.fixed_size_by_batch_id batch_id)

  Selects_lem :
      (task_id : TaskId) (query : Query) (batch_sel : BatchSelector) (between : Store)
      → batch_sel_for jobs task_id query between ≡ ok batch_sel
      → Selects task_id query batch_sel between
  unfolding batch_sel_for
  Selects_lem task_id (Query.time_interval i) batch_sel between h = cc
  Selects_lem task_id (Query.fixed_size_by_batch_id batch_id) batch_sel between h = cc
  Selects_lem task_id Query.fixed_size_current_batch batch_sel between h =
      let (batch_id, e, e') =
        daphne.Errors.bind_parts (jobs.current_batch task_id between) _ batch_sel h in
      (batch_id, e, cc)

  -- The request names the collection job, and the job has been begun for the batch.
  abbrev pub IsBegun :
      TaskId
      → DapGlobalConfig
      → DapTaskConfig
      → CollectionReq
      → CollectionJobId
      → BatchSelector
      → DapAggregationParam
      → Store
      → Type 0
  IsBegun task_id g t coll_job_req coll_job_id batch_sel agg_param between =
      (request_task_id req ≡ ok task_id)
      × IsResolved tasks task_id req g store between
      × (tasks.get_task_config_for task_id between ≡ ok (some t))
      × (jobs.unauthorized_reason t req between ≡ ok none)
      × (p.get_decoded CollectionReq (decode_collection_req p) req.payload ≡ Codec.ok coll_job_req)
      × (p.get_decoded DapAggregationParam (decode_agg_param t.vdaf) coll_job_req.agg_param
          ≡ Codec.ok agg_param)
      × (t.version ≡ req.version)
      × (check_batch (jobs.batches between) t g task_id coll_job_req.query coll_job_req.agg_param
            now
          ≡ ok tt)
      × (req.resource ≡ DapResource.collection_job coll_job_id)
      × Selects task_id coll_job_req.query batch_sel between
      × (jobs.init_collect_job task_id coll_job_id batch_sel agg_param between ≡ (ok uri, after))

  -- A collection job that the Leader begins has been authorized and checked. If handle_coll_job_req
  -- returns a URI, then the request names a task; in the state that the resolution of the task leaves,
  -- or in the first one if Taskprov is not allowed, the task is on record under the version of the
  -- request; the request is authorized for the task; its payload decodes to a collection request whose
  -- batch check_batch accepts and whose aggregation parameter decodes; its resource names a collection
  -- job; and the last call has begun that job for the batch that the query selects, with that parameter
  -- and that URI.
  pub handle_coll_job_req-IsBegun :
      handle_coll_job_req p tasks jobs now req store ≡ (ok uri, after)
      → (task_id : TaskId) × (g : DapGlobalConfig) × (t : DapTaskConfig)
        × (coll_job_req : CollectionReq) × (coll_job_id : CollectionJobId)
        × (batch_sel : BatchSelector) × (agg_param : DapAggregationParam) × (between : Store)
        × IsBegun task_id g t coll_job_req coll_job_id batch_sel agg_param between
  unfolding handle_coll_job_req
  handle_coll_job_req-IsBegun h =
      let (g, configured, h1) = lift_parts (tasks.get_global_config store) _ store uri after h in
      let (task_id, named, h2) = lift_parts (request_task_id req) _ store uri after h1 in
      let (_, _, h3) =
        lift_parts (check_request_content_type req DapMediaType.collect_req) _ store uri after h2 in
      let (_, between, resolved, h4) = call_parts _ _ uri after h3 in
      let (found, looked_up, h5) =
        lift_parts (tasks.get_task_config_for task_id between) _ between uri after h4 in
      let (t, known, h6) = lift_parts (or_unrecognized found) _ between uri after h5 in
      let (reason, asked, h7) =
        lift_parts (jobs.unauthorized_reason t req between) _ between uri after h6 in
      let (_, granted, h8) = lift_parts (unless_denied reason) _ between uri after h7 in
      let (coll_job_req, decoded, h9) = lift_parts (or_invalid_message _) _ between uri after h8 in
      let (agg_param, param, h10) = lift_parts (or_invalid_message _) _ between uri after h9 in
      let (_, version, h11) =
        lift_parts (check_version t.version req.version) _ between uri after h10 in
      let (_, checked, h12) =
        lift_parts
          (check_batch (jobs.batches between) t g task_id coll_job_req.query coll_job_req.agg_param
            now)
          _ between uri after h11 in
      let (coll_job_id, job, h13) =
        lift_parts (coll_job_id_of req.resource) _ between uri after h12 in
      let (batch_sel, selected, h14) =
        lift_parts (batch_sel_for jobs task_id coll_job_req.query between) _ between uri after
          h13 in
      (
        task_id,
        g,
        t,
        coll_job_req,
        coll_job_id,
        batch_sel,
        agg_param,
        between,
        (
          named,
          (configured, resolved),
          looked_up ∙ ap ok (or_unrecognized-some found t known),
          asked ∙ ap ok (unless_denied-none reason granted),
          or_invalid_message_ok _ coll_job_req decoded,
          or_invalid_message_ok _ agg_param param,
          check_version_ok t.version req.version version,
          checked,
          coll_job_id_named req.resource coll_job_id job,
          Selects_lem task_id coll_job_req.query batch_sel between selected,
          h14,
        ),
      )
