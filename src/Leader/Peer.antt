-- ===== src/Leader/Peer.antt =====
-- The Leader's requests to the Helper (`leader_send_http_request` in
-- crates/daphne/src/roles/leader/mod.rs). The transport, the authorization of a request and the URLs
-- belong to the deployment.
use daphne.Common.{Option, some, if◌then◌else◌}
use daphne.Codec.Base.{Bytes}
use daphne.Errors.{Outcome, ok, err, fatal}
use daphne.Messages.Ids.{TaskId, AggregationJobId}
use daphne.Task.{DapTaskConfig}
use daphne.Request.{DapMediaType, media_eq, DapResource, DapRequest, DapResponse}
use daphne.Roles.Calls.{Call, ◌>>=◌, ◌>>◌, returns, lift, reads}

pub data LeaderHttpRequestMethod : Type 0 where
  post put : LeaderHttpRequestMethod

-- The URLs are those of the Helper, joined with the paths of the two requests.
pub record HelperPeer (S Store Url : Type 0) : Type 0 where
  pub aggregation_job_url : DapTaskConfig → TaskId → AggregationJobId → Outcome Url
  pub aggregate_share_url : DapTaskConfig → TaskId → Outcome Url
  pub authorize : TaskId → DapTaskConfig → DapMediaType → Bytes → Store → Outcome S
  pub send_http_post : DapRequest S → Url → Call Store DapResponse
  pub send_http_put : DapRequest S → Url → Call Store DapResponse

unfoldable pub check_response_content_type : DapResponse → DapMediaType → Outcome (Unit {0})
unfolding media_eq
check_response_content_type resp expected =
    if media_eq resp.media_type expected then ok tt else err fatal

module _ {S Store Url : Type 0} (peer : HelperPeer S Store Url) where
  send_http : LeaderHttpRequestMethod → DapRequest S → Url → Call Store DapResponse
  send_http put req url = peer.send_http_put req url
  send_http post req url = peer.send_http_post req url

  unfoldable pub leader_send_http_request :
      TaskId
      → DapTaskConfig
      → Outcome Url
      → DapMediaType
      → DapMediaType
      → DapResource
      → Bytes
      → LeaderHttpRequestMethod
      → Option Bytes
      → Call Store DapResponse
  unfolding send_http check_response_content_type
  leader_send_http_request task_id t helper_url req_media_type resp_media_type resource req_data
        method taskprov =
      do
        url ← lift helper_url
        sender_auth ← reads (peer.authorize task_id t req_media_type req_data)
        let req : DapRequest S = record {
          version = t.version;
          media_type = some req_media_type;
          task_id = some task_id;
          resource = resource;
          payload = req_data;
          sender_auth = some sender_auth;
          taskprov = taskprov;
        }
        resp ← send_http method req url
        lift (check_response_content_type resp resp_media_type)
        returns resp
