-- ===== src/Leader/Upload.antt =====
-- The upload of a report (`handle_upload_req` in crates/daphne/src/roles/leader/mod.rs). The methods of
-- the traits `DapAggregator` and `DapLeader` that it calls belong to the deployment. A report has two
-- encrypted input shares by its type, so the check of their number is left out.
pub mod Accepted
use daphne.Common.{ℕ, ◌+◌, ◌-◌, ◌%◌, ◌^◌, Bool, true, false, leb, ltb, if◌then◌else◌, ◌==◌}
use daphne.Codec.Base as Codec
use daphne.Codec.Prio.{Prio}
use daphne.Errors.{
  Outcome, ok, err, panic, DapAbort, abort, bad_request, report_rejected, report_too_late,
}
use daphne.Messages.Ids.{TaskId}
use daphne.Messages.Report.{Report, decode_report}
use daphne.Task.{DapVersion, draft09, latest, DapTaskConfig, u64_end}
use daphne.Request.{DapMediaType, DapRequest, request_task_id, check_request_content_type}
use daphne.Roles.Calls.{Call, ◌>>=◌, ◌>>◌, returns, lift, reads}
use daphne.Roles.Tasks.{DapTasks, or_unrecognized, resolve_taskprov}
use daphne.Roles.Checks.{check_version, or_invalid_message}

-- The methods that only the upload calls.
pub record ReportStore (Store : Type 0) : Type 0 where
  pub can_hpke_decrypt : TaskId → ℕ → Store → Outcome Bool
  pub put_report : Report → TaskId → Call Store (Unit {0})

-- `not_before - time_precision` in `u64`.
unfoldable pub validity_start : DapTaskConfig → ℕ
validity_start t = (t.not_before + u64_end - t.time_precision) % u64_end

-- The checks of the configuration ID and the time.
unfoldable pub check_upload : DapTaskConfig → Report → Bool → Outcome (Unit {0})
unfolding validity_start
check_upload t report decrypts =
    if decrypts
    then if leb t.not_after report.report_metadata.time
      then err (abort report_too_late)
      else if ltb report.report_metadata.time (validity_start t)
      then err (abort report_rejected)
      else ok tt
    else err (abort report_rejected)

module _ (p : Prio) {S Store : Type 0} (tasks : DapTasks S Store)
    (reports : ReportStore Store) where
  unfoldable pub handle_upload_req : DapRequest S → Call Store (Unit {0})
  unfolding check_upload check_version or_invalid_message
  handle_upload_req req = do
    global_config ← reads tasks.get_global_config
    task_id ← lift (request_task_id req)
    lift (check_request_content_type req DapMediaType.report)
    report ← lift (or_invalid_message (p.get_decoded Report (decode_report p) req.payload))
    if global_config.allow_taskprov
        then resolve_taskprov tasks task_id req global_config
        else returns tt
    found ← reads (tasks.get_task_config_for task_id)
    t ← lift (or_unrecognized found)
    lift (check_version t.version req.version)
    decrypts ← reads (reports.can_hpke_decrypt task_id report.leader_share.config_id)
    lift (check_upload t report decrypts)
    reports.put_report report task_id
