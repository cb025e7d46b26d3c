-- ===== src/Leader/Upload/Accepted.antt =====
-- Which uploads are stored.
use daphne.Common.{ℕ, ◌+◌, ◌-◌, ◌≤◌, ◌<◌, ◌≡◌, ◌↔◌, ◌∙◌, ap, Bool, true, false, some, arith, ◌≢◌}
use daphne.Codec.Base as Codec
use daphne.Codec.Prio.{Prio}
use daphne.Errors.{ok}
use daphne.Messages.Ids.{TaskId}
use daphne.Messages.Report.{Report, decode_report}
use daphne.Task.{DapTaskConfig, DapGlobalConfig, u64_end}
use daphne.Request.{DapMediaType, DapRequest, request_task_id, check_request_content_type}
use daphne.Roles.Calls.{call_parts, lift_parts}
use daphne.Roles.Tasks.{DapTasks, IsResolved, or_unrecognized}
use daphne.Roles.Checks.{
  check_version, check_version_ok, or_invalid_message, or_invalid_message_ok, or_unrecognized-some,
}
use daphne.Leader.Upload.{ReportStore, validity_start, check_upload, handle_upload_req}

-- The report's configuration ID is known to the Leader, and its time is in the task's validity
-- window as the code computes it.
abbrev pub IsCurrent : DapTaskConfig → Report → Bool → Type 0
IsCurrent t report decrypts =
    (decrypts ≡ true)
    × (report.report_metadata.time < t.not_after)
    × (validity_start t ≤ report.report_metadata.time)

check_upload_iff :
    (t : DapTaskConfig) (report : Report) (decrypts : Bool)
    → (check_upload t report decrypts ≡ ok tt) ↔ IsCurrent t report decrypts
unfolding check_upload
check_upload_iff t report true = ground arith
check_upload_iff t report false = (λ h. cc, λ h. let e = h.0 in cc)

-- In a task that begins within one time precision of the epoch the subtraction wraps.
validity_start_wraps :
    (t : DapTaskConfig) (time : ℕ)
    → t.not_before < t.time_precision
    → t.time_precision < u64_end
    → time < u64_end + t.not_before - t.time_precision
    → ¬ (validity_start t ≤ time)
unfolding validity_start
validity_start_wraps t time early small before h = omega arith

module _ (p : Prio) {S Store : Type 0} (tasks : DapTasks S Store) (reports : ReportStore Store)
    (req : DapRequest S) (store after : Store) where
  -- The upload of the report has been stored, for a task that is on record with the configuration.
  abbrev pub IsStored : TaskId → DapTaskConfig → Report → Store → Type 0
  IsStored task_id t report between =
      (request_task_id req ≡ ok task_id)
      × (p.get_decoded Report (decode_report p) req.payload ≡ Codec.ok report)
      × ((g : DapGlobalConfig) × IsResolved tasks task_id req g store between)
      × (tasks.get_task_config_for task_id between ≡ ok (some t))
      × (t.version ≡ req.version)
      × (reports.can_hpke_decrypt task_id report.leader_share.config_id between ≡ ok true)
      × (report.report_metadata.time < t.not_after)
      × (validity_start t ≤ report.report_metadata.time)
      × (reports.put_report report task_id between ≡ (ok tt, after))

  -- An upload that the Leader accepts has been checked and stored. If handle_upload_req returns, then
  -- the request names a task and its payload decodes to a report; in the state that the resolution of
  -- the task leaves, or in the first one if Taskprov is not allowed, the task is on record under the
  -- version of the request; the Leader knows the HPKE configuration of its input share; the time of the
  -- report is before the end of the task and not before the start of its validity window; and the last
  -- call has stored the report for the task.
  pub handle_upload_req-IsStored :
      handle_upload_req p tasks reports req store ≡ (ok tt, after)
      → (task_id : TaskId) × (t : DapTaskConfig) × (report : Report) × (between : Store) × IsStored
          task_id t report between
  unfolding handle_upload_req
  handle_upload_req-IsStored h =
      let (g, configured, h1) = lift_parts (tasks.get_global_config store) _ store tt after h in
      let (task_id, named, h2) = lift_parts (request_task_id req) _ store tt after h1 in
      let (_, _, h3) =
        lift_parts (check_request_content_type req DapMediaType.report) _ store tt after h2 in
      let (report, decoded, h4) = lift_parts (or_invalid_message _) _ store tt after h3 in
      let (_, between, resolved, h5) = call_parts _ _ tt after h4 in
      let (found, looked_up, h6) =
        lift_parts (tasks.get_task_config_for task_id between) _ between tt after h5 in
      let (t, known, h7) = lift_parts (or_unrecognized found) _ between tt after h6 in
      let (_, version, h8) =
        lift_parts (check_version t.version req.version) _ between tt after h7 in
      let (decrypts, can, h9) =
        lift_parts (reports.can_hpke_decrypt task_id report.leader_share.config_id between) _
          between tt after h8 in
      let (_, checked, h10) = lift_parts (check_upload t report decrypts) _ between tt after h9 in
      let (can_decrypt, before_end, after_start) = (check_upload_iff t report decrypts).0 checked in
      (
        task_id,
        t,
        report,
        between,
        (
          named,
          or_invalid_message_ok _ report decoded,
          (g, (configured, resolved)),
          looked_up ∙ ap ok (or_unrecognized-some found t known),
          check_version_ok t.version req.version version,
          can ∙ ap ok can_decrypt,
          before_end,
          after_start,
          h10,
        ),
      )

  -- In a task that begins within one time precision of the epoch no upload is stored. If every
  -- configuration that is on record for the task of the request has a start below its time precision,
  -- and the time of the report is below 2^64 less that difference, then handle_upload_req does not
  -- return: the subtraction of the time precision from the start of the task wraps around.
  pub handle_upload_req-wraps :
      (task_id : TaskId) (report : Report)
      → request_task_id req ≡ ok task_id
      → p.get_decoded Report (decode_report p) req.payload ≡ Codec.ok report
      → ((s : Store) (t : DapTaskConfig)
          → tasks.get_task_config_for task_id s ≡ ok (some t)
          → (t.not_before < t.time_precision)
            × (t.time_precision < u64_end)
            × (report.report_metadata.time < u64_end + t.not_before - t.time_precision))
      → handle_upload_req p tasks reports req store ≢ (ok tt, after)
  handle_upload_req-wraps task_id report named decoded early h =
      let (task_id', t, report', between, stored) = handle_upload_req-IsStored h in
      let (named', decoded', _, known, _, _, _, after_start, _) = stored in
      let same_task : task_id' ≡ task_id = cc in
      let same_report : report' ≡ report = cc in
      let (begins, small, before) = early between t (rw same_task at known) in
      validity_start_wraps t report.report_metadata.time begins small before
        (rw same_report at after_start)
