-- ===== src/Tests/Request.antt =====
-- The theorems about the requests that the Leader gets, at concrete ones. The storage is the Leader's
-- state in memory.
use daphne.Common.{
  ℕ, ◌+◌, ◌≡◌, ◌≢◌, ◌↔◌, refl, true, false, Option, none, some, [], ◌∷◌, ◌++◌, replicate, arith,
}
use daphne.Codec.Base as Codec
use daphne.Codec.Base.{Bytes}
use daphne.Codec.Prio.{to_be_bytes}
use daphne.Errors.{ok}
use daphne.Messages.Ids.{TaskId, CollectionJobId}
use daphne.Messages.Batch.{BatchSelector, Interval, Query}
use daphne.Messages.Report.{Report}
use daphne.Messages.Collection.{CollectionReq}
use daphne.Task.{latest, draft09, DapTaskConfig, DapGlobalConfig}
use daphne.Request.{DapMediaType, DapResource, DapRequest, request_sender}
use daphne.Request.Auth.{
  BearerToken, BearerTokenProvider, bearer_token_authorized, authorize_with_bearer_token,
}
use daphne.Request.Auth.Authorized.{IsSentBy, bearer_token_authorized_iff}
use daphne.Roles.Calls.{Call}
use daphne.Roles.Tasks.{DapTasks}
use daphne.Protocol.Init.{DapAggregationParam}
use daphne.Leader.Memory.{InMemoryLeaderState, put_report, current_batch, init_collect_job}
use daphne.Leader.Upload.{ReportStore, handle_upload_req}
use daphne.Leader.Upload.Accepted.{IsStored, handle_upload_req-IsStored, handle_upload_req-wraps}
use daphne.Leader.CollJobReq.{CollectionStore, handle_coll_job_req}
use daphne.Leader.CollJobReq.Accepted.{IsBegun, handle_coll_job_req-IsBegun}
use daphne.Leader.Memory.Queued.{QueuedBefore}
use daphne.Leader.Uploaded.{handle_upload_req-QueuedBefore}
use daphne.Tests.Reference.{reference}
use daphne.Tests.Roles.{global, nothing_collected}
use daphne.Tests.Task.{hourly, two_hours}
use daphne.Tests.Memory.{same_bytes, url_of, id, job_id, batch_id, noon_report, nothing}

abbrev tokens : BearerTokenProvider
tokens = record {
  get_leader_bearer_token_for = λ task_id t. ok (some (1 ∷ 2 ∷ []));
  get_collector_bearer_token_for = λ task_id t. ok none;
}

abbrev request_with : DapMediaType → DapResource → Bytes → DapRequest BearerToken
request_with media_type resource payload = record {
  version = draft09;
  media_type = some media_type;
  task_id = some id;
  resource = resource;
  payload = payload;
  sender_auth = some (1 ∷ 2 ∷ []);
  taskprov = none;
}

abbrev from_leader : DapRequest BearerToken
from_leader = request_with DapMediaType.aggregate_share_req DapResource.undefined []

bearer_token_authorized_iff_example :
    (bearer_token_authorized tokens hourly from_leader ≡ ok none) ↔ (
      (task_id : TaskId) × (some id ≡ some task_id)
      × IsSentBy tokens hourly task_id (some (1 ∷ 2 ∷ [])) (request_sender from_leader))
bearer_token_authorized_iff_example = bearer_token_authorized_iff tokens hourly from_leader

leader_authorized :
    authorize_with_bearer_token tokens hourly id DapMediaType.aggregate_share_req ≡ ok (1 ∷ 2 ∷ [])
unfolding authorize_with_bearer_token daphne.Request.media_sender
leader_authorized = refl

-- One task on record.
abbrev tasks_with : DapTaskConfig → DapTasks BearerToken InMemoryLeaderState
tasks_with t = record {
  NeedsOptIn = DapTaskConfig;
  get_global_config = λ s. ok global;
  get_task_config_for = λ task_id s. ok (some t);
  taskprov_vdaf_verify_key_init = none;
  taskprov_collector_hpke_config = none;
  resolve_advertised_task_config = λ req key config task_id. ok none;
  taskprov_opt_in = λ task_id advertised g s. (ok advertised, s);
  taskprov_put = λ req t s. (ok tt, s);
}

abbrev in_memory : ReportStore InMemoryLeaderState
in_memory = record {
  can_hpke_decrypt = λ task_id config_id s. ok true;
  put_report = λ report task_id s. put_report same_bytes task_id hourly batch_id report s;
}

abbrev no_share : Bytes
no_share = 1 ∷ 0 ∷ 0 ∷ 0 ∷ 0 ∷ 0 ∷ 0 ∷ []

abbrev report_wire : Bytes
report_wire =
    replicate 16 1 ++ (to_be_bytes 8 43200 ++ ((0 ∷ 0 ∷ 0 ∷ 1 ∷ 6 ∷ []) ++ (no_share ++ no_share)))

abbrev upload : DapRequest BearerToken
upload = request_with DapMediaType.report DapResource.undefined report_wire

abbrev uploaded : InMemoryLeaderState
uploaded = (put_report same_bytes id hourly batch_id noon_report nothing).1

upload_accepted :
    handle_upload_req reference (tasks_with hourly) in_memory upload nothing ≡ (ok tt, uploaded)
unfolding handle_upload_req daphne.Roles.Calls.then_with daphne.Request.request_task_id
    daphne.Request.check_request_content_type reference daphne.Messages.Report.decode_report
    daphne.Messages.Report.decode_metadata daphne.Messages.Ids.decode_id Codec.read_exact Codec.pure
    daphne.Codec.Lengths.decode_u32_bytes daphne.Messages.Report.decode_ciphertext
    daphne.Codec.Lengths.decode_u16_bytes daphne.Roles.Tasks.or_unrecognized put_report
upload_accepted = refl

handle_upload_req-IsStored_example :
    (task_id : TaskId) × (t : DapTaskConfig) × (report : Report) × (between : InMemoryLeaderState)
    × IsStored reference
        (tasks_with hourly)
        in_memory
        upload
        nothing
        uploaded
        task_id
        t
        report
        between
handle_upload_req-IsStored_example =
    handle_upload_req-IsStored reference (tasks_with hourly) in_memory upload nothing uploaded
      upload_accepted

abbrev from_epoch : DapTaskConfig
from_epoch = record hourly { not_before = 100 }

report_read :
    reference.get_decoded Report (daphne.Messages.Report.decode_report reference) report_wire
    ≡ Codec.ok noon_report
unfolding reference daphne.Messages.Report.decode_report daphne.Messages.Report.decode_metadata
    daphne.Messages.Ids.decode_id Codec.read_exact Codec.pure daphne.Codec.Lengths.decode_u32_bytes
    daphne.Messages.Report.decode_ciphertext daphne.Codec.Lengths.decode_u16_bytes
report_read = refl

one_config :
    (s : InMemoryLeaderState) (t : DapTaskConfig)
    → (tasks_with from_epoch).get_task_config_for id s ≡ ok (some t)
    → from_epoch ≡ t
one_config s t e = cc

handle_upload_req-wraps_example :
    handle_upload_req reference (tasks_with from_epoch) in_memory upload nothing ≢ (ok tt, uploaded)
unfolding daphne.Request.request_task_id
handle_upload_req-wraps_example =
    handle_upload_req-wraps reference (tasks_with from_epoch) in_memory upload nothing uploaded id
      noon_report refl report_read
      (λ s t e. rw (← one_config s t e) (omega arith, omega arith, omega arith))

abbrev collections : CollectionStore BearerToken InMemoryLeaderState Bytes
collections = record {
  unauthorized_reason = λ t req s. ok none;
  batches = λ s. nothing_collected;
  current_batch = λ task_id s. current_batch task_id hourly s;
  init_collect_job = λ task_id coll_job_id batch_sel agg_param s.
      init_collect_job url_of task_id hourly coll_job_id batch_sel agg_param s;
}

abbrev coll_job_for : ℕ → ℕ → DapRequest BearerToken
coll_job_for start duration =
    request_with DapMediaType.collect_req (DapResource.collection_job job_id)
      (1 ∷ (to_be_bytes 8 start ++ (to_be_bytes 8 duration ++ to_be_bytes 4 0)))

abbrev coll_job_req : DapRequest BearerToken
coll_job_req = coll_job_for 7200 7200

abbrev begun : InMemoryLeaderState
begun =
    (init_collect_job url_of id hourly job_id (BatchSelector.time_interval two_hours)
      DapAggregationParam.empty uploaded).1

coll_job_accepted :
    handle_coll_job_req reference (tasks_with hourly) collections 9000 coll_job_req uploaded
    ≡ (ok job_id, begun)
unfolding handle_coll_job_req daphne.Roles.Calls.then_with daphne.Request.request_task_id
    daphne.Request.check_request_content_type daphne.Roles.Tasks.or_unrecognized
    daphne.Roles.Checks.or_invalid_message reference
    daphne.Messages.Collection.decode_collection_req daphne.Messages.Batch.decode_query
    daphne.Messages.Batch.decode_interval Codec.pure daphne.Codec.Lengths.decode_u32_bytes
    Codec.read_exact daphne.Protocol.Init.decode_agg_param daphne.Roles.Checks.check_version
    daphne.Task.is_valid_agg_param daphne.Messages.Batch.into_batch_sel daphne.Roles.check_batch
    daphne.Leader.CollJobReq.batch_sel_for daphne.Leader.CollJobReq.coll_job_id_of
    daphne.Roles.Checks.unless_denied daphne.Roles.Checks.version_eq init_collect_job
    daphne.Common.lookup put_report daphne.Common.insert daphne.Span.bytes_eq
    daphne.Task.batch_span_for_sel
coll_job_accepted = refl

handle_coll_job_req-IsBegun_example :
    (task_id : TaskId) × (g : DapGlobalConfig) × (t : DapTaskConfig) × (req : CollectionReq)
    × (coll_job_id : CollectionJobId) × (batch_sel : BatchSelector)
    × (agg_param : DapAggregationParam) × (between : InMemoryLeaderState) × IsBegun reference
        (tasks_with hourly)
        collections
        9000
        coll_job_req
        uploaded
        begun
        job_id
        task_id
        g
        t
        req
        coll_job_id
        batch_sel
        agg_param
        between
handle_coll_job_req-IsBegun_example =
    handle_coll_job_req-IsBegun reference (tasks_with hourly) collections 9000 coll_job_req uploaded
      begun job_id coll_job_accepted

abbrev noon_hour : Interval
noon_hour = record { start = 43200; duration = 3600 }

abbrev noon_begun : InMemoryLeaderState
noon_begun =
    (init_collect_job url_of id hourly job_id (BatchSelector.time_interval noon_hour)
      DapAggregationParam.empty uploaded).1

noon_job_accepted :
    handle_coll_job_req reference
      (tasks_with hourly)
      collections
      43200
      (coll_job_for 43200 3600)
      uploaded
    ≡ (ok job_id, noon_begun)
unfolding handle_coll_job_req daphne.Roles.Calls.then_with daphne.Request.request_task_id
    daphne.Request.check_request_content_type daphne.Roles.Tasks.or_unrecognized
    daphne.Roles.Checks.or_invalid_message reference
    daphne.Messages.Collection.decode_collection_req daphne.Messages.Batch.decode_query
    daphne.Messages.Batch.decode_interval Codec.pure daphne.Codec.Lengths.decode_u32_bytes
    Codec.read_exact daphne.Protocol.Init.decode_agg_param daphne.Roles.Checks.check_version
    daphne.Task.is_valid_agg_param daphne.Messages.Batch.into_batch_sel daphne.Roles.check_batch
    daphne.Leader.CollJobReq.batch_sel_for daphne.Leader.CollJobReq.coll_job_id_of
    daphne.Roles.Checks.unless_denied daphne.Roles.Checks.version_eq init_collect_job
    daphne.Common.lookup put_report daphne.Common.insert daphne.Span.bytes_eq
    daphne.Task.batch_span_for_sel
noon_job_accepted = refl

noon_job_read :
    reference.get_decoded CollectionReq
      (daphne.Messages.Collection.decode_collection_req reference)
      (coll_job_for 43200 3600).payload
    ≡ Codec.ok (record { query = Query.time_interval noon_hour; agg_param = [] })
unfolding reference daphne.Messages.Collection.decode_collection_req
    daphne.Messages.Batch.decode_query daphne.Messages.Batch.decode_interval Codec.pure
    daphne.Codec.Lengths.decode_u32_bytes Codec.read_exact
noon_job_read = refl

not_allowed :
    (s : InMemoryLeaderState) (g : DapGlobalConfig)
    → (tasks_with hourly).get_global_config s ≡ ok g
    → g.allow_taskprov ≡ false
not_allowed s g e = let same : global ≡ g = cc in rw (← same) refl

always_hourly :
    (s : InMemoryLeaderState) (t : DapTaskConfig)
    → (tasks_with hourly).get_task_config_for id s ≡ ok (some t)
    → t ≡ hourly
always_hourly s t e = cc

handle_upload_req-QueuedBefore_example :
    (agg_param : DapAggregationParam) × QueuedBefore id
      (BatchSelector.time_interval noon_hour)
      agg_param
      job_id
      noon_report
      noon_begun.work_queue
unfolding daphne.Request.request_task_id
handle_upload_req-QueuedBefore_example =
    handle_upload_req-QueuedBefore reference (tasks_with hourly) in_memory.can_hpke_decrypt
      collections.unauthorized_reason collections.batches same_bytes url_of hourly batch_id 43200 id
      upload (coll_job_for 43200 3600) noon_report
      (record { query = Query.time_interval noon_hour; agg_param = [] }) job_id noon_hour nothing
      uploaded noon_begun job_id not_allowed always_hourly refl (omega arith) refl refl report_read
      noon_job_read refl refl (omega arith) (omega arith) (omega arith) upload_accepted
      noon_job_accepted
