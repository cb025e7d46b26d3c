-- ===== src/Request.antt =====
-- Requests and responses (`DapRequest`, `DapResource` and `DapResponse` of crates/daphne/src/lib.rs) and
-- their media types (crates/daphne/src/constants.rs). A request carries a sender authorization of the
-- deployment's type, such as a bearer token.
pub mod Auth
use daphne.Common.{ℕ, Bool, true, false, Option, none, some, ◌==◌, if◌then◌else◌}
use daphne.Codec.Base.{Bytes}
use daphne.Errors.{Outcome, ok, err, abort, bad_request}
use daphne.Messages.Ids.{TaskId, AggregationJobId, CollectionJobId}
use daphne.Task.{DapVersion}

pub data DapMediaType : Type 0 where
  aggregation_job_init_req aggregation_job_resp aggregate_share_req : DapMediaType
  aggregate_share collect_req collection hpke_config_list report : DapMediaType

pub data DapSender : Type 0 where
  client collector helper leader : DapSender

unfoldable pub media_sender : DapMediaType → DapSender
media_sender aggregation_job_init_req = leader
media_sender aggregate_share_req = leader
media_sender collection = leader
media_sender hpke_config_list = leader
media_sender aggregation_job_resp = helper
media_sender aggregate_share = helper
media_sender report = client
media_sender collect_req = collector

-- The derived `PartialEq` compares the discriminants.
abbrev discriminant : DapMediaType → ℕ
discriminant aggregation_job_init_req = 0
discriminant aggregation_job_resp = 1
discriminant aggregate_share_req = 2
discriminant aggregate_share = 3
discriminant collect_req = 4
discriminant collection = 5
discriminant hpke_config_list = 6
discriminant report = 7

unfoldable pub media_eq : DapMediaType → DapMediaType → Bool
media_eq a b = discriminant a == discriminant b

pub data DapResource : Type 0 where
  aggregation_job : AggregationJobId → DapResource
  collection_job : CollectionJobId → DapResource
  undefined : DapResource

pub record DapRequest (S : Type 0) : Type 0 where
  pub version : DapVersion
  pub media_type : Option DapMediaType
  pub task_id : Option TaskId
  pub resource : DapResource
  pub payload : Bytes
  pub sender_auth : Option S
  pub taskprov : Option Bytes

pub record DapResponse : Type 0 where
  pub version : DapVersion
  pub media_type : DapMediaType
  pub payload : Bytes

task_id_or : Option TaskId → Outcome TaskId
task_id_or (some id) = ok id
task_id_or none = err (abort bad_request)

has_media_type : Option DapMediaType → DapMediaType → Bool
unfolding media_eq
has_media_type none expected = false
has_media_type (some media_type) expected = media_eq media_type expected

sender_of : Option DapMediaType → Option DapSender
unfolding media_sender
sender_of none = none
sender_of (some media_type) = some (media_sender media_type)

module _ {S : Type 0} where
  unfoldable pub request_task_id : DapRequest S → Outcome TaskId
  unfolding task_id_or
  request_task_id req = task_id_or req.task_id

  unfoldable pub request_sender : DapRequest S → Option DapSender
  unfolding sender_of
  request_sender req = sender_of req.media_type

  -- `check_request_content_type` of crates/daphne/src/roles/mod.rs.
  unfoldable pub check_request_content_type : DapRequest S → DapMediaType → Outcome (Unit {0})
  unfolding has_media_type
  check_request_content_type req expected =
      if has_media_type req.media_type expected then ok tt else err (abort bad_request)
