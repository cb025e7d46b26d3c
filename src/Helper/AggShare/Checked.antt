-- ===== src/Helper/AggShare/Checked.antt =====
-- What the Helper has checked when it marks a batch as collected, and when it gives out its aggregate
-- share.
use daphne.Common.{ℕ, ◌≡◌, sym, ap, ◌∙◌, ◌⊎◌, inl, inr, Option, none, some, if◌then◌else◌}
use daphne.Codec.Base.{Bytes, Writer}
use daphne.Codec.Prio.{Prio}
use daphne.Errors.{Outcome, ok}
use daphne.Messages.Ids.{TaskId}
use daphne.Messages.Collection.{AggregateShareReq}
use daphne.Task.{DapTaskConfig, DapGlobalConfig}
use daphne.Share.{Crypto, VdafAggregateShare, DapAggregateShare}
use daphne.Request.{
  DapMediaType, DapRequest, DapResponse, request_task_id, check_request_content_type,
}
use daphne.Roles.Calls.{returns, call_parts, lift_parts, call_cases, lift_cases}
use daphne.Roles.Tasks.{DapTasks, IsResolved, or_unrecognized, resolve_taskprov}
use daphne.Roles.Checks.{
  check_version, check_version_ok, unless_denied, unless_denied-none, or_unrecognized-some,
}
use daphne.Protocol.Init.{DapAggregationParam}
use daphne.Protocol.AggShare.{HpkeEncrypter}
use daphne.Helper.AggShare.{BatchStore, answer_agg_share_req}
use daphne.Helper.AggShare.Answered.{
  IsMatching, IsRead, answer_agg_share_req-IsMatching, answer_agg_share_req-cases,
}
use daphne.Helper.AggShare.Handler.{handle_agg_share_req}

module _ (p : Prio) {c : Crypto} (encode_agg_data : VdafAggregateShare c → Writer)
    (hpke_encrypt : HpkeEncrypter) (s : BatchStore c) {S : Type 0} (tasks : DapTasks S s.Store)
    (unauthorized_reason : DapTaskConfig → DapRequest S → s.Store → Outcome (Option Bytes))
    (now : ℕ) (req : DapRequest S) (store after : s.Store) where
  -- The request names a task that is on record under its version, in the state `between` that the
  -- resolution of the task leaves, and is authorized for it.
  abbrev pub IsAdmitted : TaskId → DapGlobalConfig → DapTaskConfig → s.Store → Type 0
  IsAdmitted task_id g t between =
      (request_task_id req ≡ ok task_id)
      × (check_request_content_type req DapMediaType.aggregate_share_req ≡ ok tt)
      × IsResolved tasks task_id req g store between
      × (tasks.get_task_config_for task_id between ≡ ok (some t))
      × (unauthorized_reason t req between ≡ ok none)
      × (t.version ≡ req.version)

  -- If the Helper gives out an aggregate share, then the request is an aggregate-share request by its
  -- media type and names a task; in the state that the resolution of the task leaves, or in the first
  -- one if Taskprov is not allowed, the task is on record under the version of the request, and the
  -- request is authorized for it; its payload is a request that passes check_batch; the report count
  -- and the checksum of that are those of the Helper's share; the count fits the task; and the storage
  -- that the Helper leaves is what mark_collected has made of the batch.
  pub handle_agg_share_req-IsMatching :
      (resp : DapResponse)
      → handle_agg_share_req p encode_agg_data hpke_encrypt s tasks unauthorized_reason now req
          store
        ≡ (ok resp, after)
      → (task_id : TaskId) × (g : DapGlobalConfig) × (t : DapTaskConfig) × (between : s.Store)
        × (agg_share_req : AggregateShareReq) × (agg_param : DapAggregationParam)
        × (agg_share : DapAggregateShare c) × IsAdmitted task_id g t between
        × IsRead p encode_agg_data hpke_encrypt s t g task_id req.payload now between agg_share_req
            agg_param agg_share
        × IsMatching p encode_agg_data hpke_encrypt s t g task_id agg_share_req agg_share
        × (s.mark_collected task_id agg_share_req.batch_sel between ≡ (ok tt, after))
  unfolding handle_agg_share_req
  handle_agg_share_req-IsMatching resp h =
      let (g, configured, h1) = lift_parts (tasks.get_global_config store) _ store resp after h in
      let (task_id, named, h2) = lift_parts (request_task_id req) _ store resp after h1 in
      let (_, typed, h3) =
        lift_parts (check_request_content_type req DapMediaType.aggregate_share_req) _ store resp
          after h2 in
      let (_, between, resolved, h4) = call_parts _ _ resp after h3 in
      let (found, looked_up, h5) =
        lift_parts (tasks.get_task_config_for task_id between) _ between resp after h4 in
      let (t, known, h6) = lift_parts (or_unrecognized found) _ between resp after h5 in
      let (reason, asked, h7) =
        lift_parts (unauthorized_reason t req between) _ between resp after h6 in
      let (_, granted, h8) = lift_parts (unless_denied reason) _ between resp after h7 in
      let (_, version, h9) =
        lift_parts (check_version t.version req.version) _ between resp after h8 in
      let (answer, end, answered, h10) = call_parts _ _ resp after h9 in
      let (agg_share_req, agg_param, agg_share, read, matching, marked) =
        answer_agg_share_req-IsMatching p encode_agg_data hpke_encrypt s t g task_id req.payload now
          between answer end answered in
      (
        task_id,
        g,
        t,
        between,
        agg_share_req,
        agg_param,
        agg_share,
        (
          named,
          typed,
          (configured, resolved),
          looked_up ∙ ap ok (or_unrecognized-some found t known),
          asked ∙ ap ok (unless_denied-none reason granted),
          check_version_ok t.version req.version version,
        ),
        read,
        matching,
        marked ∙ ap (λ x. (ok tt, x)) (ap (λ x. x.1) h10),
      )

  -- The state is the one that the resolution of the task leaves, with whatever outcome.
  abbrev pub IsLeft : Type 0
  IsLeft =
      (task_id : TaskId) × (g : DapGlobalConfig) × (request_task_id req ≡ ok task_id)
      × (tasks.get_global_config store ≡ ok g)
      × (((if g.allow_taskprov then resolve_taskprov tasks task_id req g else returns tt) store).1
          ≡ after)

  -- The state is what marking a batch has left, behind all checks.
  abbrev pub IsMarked : Type 0
  IsMarked =
      (task_id : TaskId) × (g : DapGlobalConfig) × (t : DapTaskConfig) × (between : s.Store)
      × (agg_share_req : AggregateShareReq) × (agg_param : DapAggregationParam)
      × (agg_share : DapAggregateShare c) × IsAdmitted task_id g t between
      × IsRead p encode_agg_data hpke_encrypt s t g task_id req.payload now between agg_share_req
          agg_param agg_share
      × IsMatching p encode_agg_data hpke_encrypt s t g task_id agg_share_req agg_share
      × ((s.mark_collected task_id agg_share_req.batch_sel between).1 ≡ after)

  abbrev pub MarksChecked : Type 0
  MarksChecked = (after ≡ store) ⊎ (IsLeft ⊎ IsMarked)

  answered-MarksChecked :
      (task_id : TaskId) (g : DapGlobalConfig) (t : DapTaskConfig) (between : s.Store)
      → IsAdmitted task_id g t between
      → (between ≡ after → IsLeft)
      → (answer_agg_share_req p encode_agg_data hpke_encrypt s t g task_id req.payload now
          between).1
        ≡ after
      → MarksChecked
  answered-MarksChecked task_id g t between admitted left e =
      elim (answer_agg_share_req-cases p encode_agg_data hpke_encrypt s t g task_id req.payload now
        between after e) [
          | inl same ↦ inr (inl (left same))
          | inr (agg_share_req, agg_param, agg_share, read, matching, marked) ↦ inr (
              inr (
                task_id, g, t, between, agg_share_req, agg_param, agg_share, admitted, read,
                matching, marked,
              ))
        ]

  -- The Helper marks a batch as collected only behind all of its checks, whatever it answers. The
  -- storage that handle_agg_share_req leaves, with an answer, an error or a panic, is the one that it
  -- has found, or the one that the resolution of the task of the request leaves, or the one that
  -- mark_collected leaves for the batch of the request; and in the last case the request is an
  -- aggregate-share request by its media type, the task is on record under the version of the request,
  -- the request is authorized for it, its payload is a request that passes check_batch, the report
  -- count and the checksum of that are those of the Helper's share, and the count fits the task.
  pub handle_agg_share_req-MarksChecked :
      (result : Outcome DapResponse)
      → handle_agg_share_req p encode_agg_data hpke_encrypt s tasks unauthorized_reason now req
          store
        ≡ (result, after)
      → MarksChecked
  unfolding handle_agg_share_req
  handle_agg_share_req-MarksChecked result h =
      lift_cases MarksChecked (tasks.get_global_config store) _ store result after h stopped
        λ g configured h1.
          lift_cases MarksChecked (request_task_id req) _ store result after h1 stopped
            λ task_id named h2.
              lift_cases MarksChecked
                (check_request_content_type req DapMediaType.aggregate_share_req) _ store result
                after h2 stopped
                λ _ typed h3.
                  call_cases MarksChecked _ _ result after h3
                    (λ e. inr (inl (task_id, g, named, configured, e)))
                    λ _ between resolved h4.
                      let left : between ≡ after → IsLeft =
                        λ e. (task_id, g, named, configured, ap (λ x. x.1) resolved ∙ e) in
                      let later : between ≡ after → MarksChecked = λ e. inr (inl (left e)) in
                      lift_cases MarksChecked (tasks.get_task_config_for task_id between) _ between
                        result after h4 later
                        λ found looked_up h5.
                          lift_cases MarksChecked (or_unrecognized found) _ between result after h5
                            later
                            λ t known h6.
                              lift_cases MarksChecked (unauthorized_reason t req between) _ between
                                result after h6 later
                                λ reason asked h7.
                                  lift_cases MarksChecked (unless_denied reason) _ between result
                                    after h7 later
                                    λ _ granted h8.
                                      lift_cases MarksChecked (check_version t.version req.version)
                                        _ between result after h8 later
                                        λ _ version h9.
                                          let admitted : IsAdmitted task_id g t between = (
                                            named,
                                            typed,
                                            (configured, resolved),
                                            looked_up ∙ ap ok (or_unrecognized-some found t known),
                                            asked ∙ ap ok (unless_denied-none reason granted),
                                            check_version_ok t.version req.version version,
                                          ) in
                                          call_cases MarksChecked _ _ result after h9
                                            (answered-MarksChecked task_id g t between admitted
                                              left)
                                            λ answer end answered h10.
                                              answered-MarksChecked task_id g t between admitted
                                                left (ap (λ x. x.1) answered ∙ ap (λ x. x.1) h10)
    where
      stopped : store ≡ after → MarksChecked
      stopped e = inl (sym e)
