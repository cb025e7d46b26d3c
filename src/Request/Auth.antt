-- ===== src/Request/Auth.antt =====
-- Bearer tokens (crates/daphne/src/auth.rs). The look-up of a token is the deployment's
-- (`BearerTokenProvider`), and the texts of the reasons are named.
pub mod Authorized
use daphne.Common.{Bool, Option, none, some, if◌then◌else◌}
use daphne.Codec.Base.{Bytes}
use daphne.Errors.{Outcome, ok, err, panic, fatal, ◌>>=◌}
use daphne.Messages.Ids.{TaskId}
use daphne.Messages.Compare.{constant_time_eq}
use daphne.Task.{DapTaskConfig}
use daphne.Request.{
  DapMediaType, media_sender, DapSender, client, collector, helper, leader, DapRequest,
  request_sender,
}

abbrev pub BearerToken : Type 0
BearerToken = Bytes

pub record BearerTokenProvider : Type 0 where
  pub get_leader_bearer_token_for : TaskId → DapTaskConfig → Outcome (Option BearerToken)
  pub get_collector_bearer_token_for : TaskId → DapTaskConfig → Outcome (Option BearerToken)

pub data Denial : Type 0 where
  missing_task_id incorrect_for_leader incorrect_for_collector unresolved_sender : Denial

-- The token of the request against the one that is expected, if there is one.
compare_token : Denial → BearerToken → Option BearerToken → Outcome (Option Denial)
compare_token denial got (some expected) =
    if constant_time_eq got expected then ok none else ok (some denial)
compare_token denial got none = ok (some unresolved_sender)

check_token : Denial → Option BearerToken → Outcome (Option BearerToken) → Outcome (Option Denial)
unfolding compare_token
check_token denial (some got) expected = do token ← expected; compare_token denial got token
check_token denial none expected = ok (some unresolved_sender)

or_unknown_task : Option BearerToken → Outcome BearerToken
or_unknown_task (some token) = ok token
or_unknown_task none = err fatal

module _ (tokens : BearerTokenProvider) (t : DapTaskConfig) where
  authorize_from : TaskId → DapSender → Outcome BearerToken
  unfolding or_unknown_task
  authorize_from task_id leader = do
    token ← tokens.get_leader_bearer_token_for task_id t
    or_unknown_task token
  authorize_from task_id client = err fatal
  authorize_from task_id collector = err fatal
  authorize_from task_id helper = err fatal

  unfoldable pub authorize_with_bearer_token : TaskId → DapMediaType → Outcome BearerToken
  unfolding authorize_from
  authorize_with_bearer_token task_id media_type = authorize_from task_id (media_sender media_type)

  authorize_sender : TaskId → Option BearerToken → Option DapSender → Outcome (Option Denial)
  unfolding check_token
  authorize_sender task_id sender_auth (some leader) =
      check_token incorrect_for_leader sender_auth (tokens.get_leader_bearer_token_for task_id t)
  authorize_sender task_id sender_auth (some collector) =
      check_token incorrect_for_collector sender_auth
        (tokens.get_collector_bearer_token_for task_id t)
  authorize_sender task_id sender_auth (some client) = ok (some unresolved_sender)
  authorize_sender task_id sender_auth (some helper) = ok (some unresolved_sender)
  authorize_sender task_id sender_auth none = ok (some unresolved_sender)

  authorize_for : Option TaskId → Option BearerToken → Option DapSender → Outcome (Option Denial)
  unfolding authorize_sender
  authorize_for none sender_auth sender = ok (some missing_task_id)
  authorize_for (some task_id) sender_auth sender = authorize_sender task_id sender_auth sender

  unfoldable pub bearer_token_authorized : DapRequest BearerToken → Outcome (Option Denial)
  unfolding authorize_for
  bearer_token_authorized req = authorize_for req.task_id req.sender_auth (request_sender req)
