-- ===== src/Helper/AggShare/Handler.antt =====
-- The whole handler of an aggregate-share request (`handle_agg_share_req` in
-- crates/daphne/src/roles/helper.rs). Its other calls of the deployment are those of Roles/Tasks and the
-- authorization of a request.
use daphne.Common.{ℕ, Option, if◌then◌else◌}
use daphne.Codec.Base.{Bytes, Writer}
use daphne.Codec.Prio.{Prio}
use daphne.Errors.{Outcome}
use daphne.Task.{DapTaskConfig}
use daphne.Share.{Crypto, VdafAggregateShare}
use daphne.Request.{
  DapMediaType, DapRequest, DapResponse, request_task_id, check_request_content_type,
}
use daphne.Roles.Calls.{Call, ◌>>=◌, ◌>>◌, returns, lift, reads}
use daphne.Roles.Tasks.{DapTasks, or_unrecognized, resolve_taskprov}
use daphne.Roles.Checks.{check_version, unless_denied}
use daphne.Protocol.AggShare.{HpkeEncrypter}
use daphne.Helper.AggShare.{BatchStore, answer_agg_share_req}

module _ (p : Prio) {c : Crypto} (encode_agg_data : VdafAggregateShare c → Writer)
    (hpke_encrypt : HpkeEncrypter) (s : BatchStore c) {S : Type 0} (tasks : DapTasks S s.Store)
    (unauthorized_reason : DapTaskConfig → DapRequest S → s.Store → Outcome (Option Bytes))
    (now : ℕ) where
  unfoldable pub handle_agg_share_req : DapRequest S → Call s.Store DapResponse
  unfolding answer_agg_share_req
  handle_agg_share_req req = do
    global_config ← reads tasks.get_global_config
    task_id ← lift (request_task_id req)
    lift (check_request_content_type req DapMediaType.aggregate_share_req)
    if global_config.allow_taskprov
        then resolve_taskprov tasks task_id req global_config
        else returns tt
    found ← reads (tasks.get_task_config_for task_id)
    t ← lift (or_unrecognized found)
    reason ← reads (unauthorized_reason t req)
    lift (unless_denied reason)
    lift (check_version t.version req.version)
    payload ←
        answer_agg_share_req p encode_agg_data hpke_encrypt s t global_config task_id req.payload
          now
    returns (record {
      version = req.version;
      media_type = DapMediaType.aggregate_share;
      payload = payload;
    })
