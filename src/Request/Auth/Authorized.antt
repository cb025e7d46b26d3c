-- ===== src/Request/Auth/Authorized.antt =====
-- Which requests a bearer token authorizes.
use daphne.Common.{◌≡◌, ◌↔◌, ◌⊎◌, inl, inr, refl, ap, ◌∙◌, Bool-cases, Option, none, some}
use daphne.Errors.{Outcome, ok, err, panic, bind_parts}
use daphne.Messages.Ids.{TaskId}
use daphne.Messages.Compare.{constant_time_eq, constant_time_eq_iff}
use daphne.Task.{DapTaskConfig}
use daphne.Request.{
  DapMediaType, media_sender, DapSender, client, collector, helper, leader, DapRequest,
  request_sender,
}
use daphne.Request.Auth.{
  BearerToken, BearerTokenProvider, Denial, compare_token, check_token, authorize_sender,
  authorize_for, bearer_token_authorized, or_unknown_task, authorize_from,
  authorize_with_bearer_token,
}

-- The request carries the token that is expected.
abbrev pub Carries : Option BearerToken → Outcome (Option BearerToken) → Type 0
Carries sender_auth expected =
    (token : BearerToken) × (sender_auth ≡ some token) × (expected ≡ ok (some token))

check_token_iff :
    (denial : Denial) (sender_auth : Option BearerToken) (expected : Outcome (Option BearerToken))
    → (check_token denial sender_auth expected ≡ ok none) ↔ Carries sender_auth expected
unfolding check_token compare_token
check_token_iff denial none expected = (λ h. cc, λ h. let (token, e, e') = h in cc)
check_token_iff denial (some got) (ok (some token)) =
    elim (Bool-cases (constant_time_eq got token)) [
      | inl x ↦
          let same = (constant_time_eq_iff got token).0 x in
          rw x (λ h. (token, rw same refl, refl), λ h. refl)
      | inr x ↦ rw x (
        λ h. cc,
        λ h.
            let (other, e, e') = h in
            let same : got ≡ token = cc in let x' = (constant_time_eq_iff got token).1 same in cc,
      )
    ]
check_token_iff denial (some got) (ok none) = (λ h. cc, λ h. let (token, e, e') = h in cc)
check_token_iff denial (some got) (err x) = (λ h. cc, λ h. let (token, e, e') = h in cc)
check_token_iff denial (some got) panic = (λ h. cc, λ h. let (token, e, e') = h in cc)

module _ (tokens : BearerTokenProvider) (t : DapTaskConfig) where
  abbrev pub IsSentBy : TaskId → Option BearerToken → Option DapSender → Type 0
  IsSentBy task_id sender_auth sender =
      ((sender ≡ some leader) × Carries sender_auth (tokens.get_leader_bearer_token_for task_id t))
      ⊎ ((sender ≡ some collector)
          × Carries sender_auth (tokens.get_collector_bearer_token_for task_id t))

  authorize_sender_iff :
      (task_id : TaskId) (sender_auth : Option BearerToken) (sender : Option DapSender)
      → (authorize_sender tokens t task_id sender_auth sender ≡ ok none)
        ↔ IsSentBy task_id sender_auth sender
  unfolding authorize_sender
  authorize_sender_iff task_id sender_auth (some leader) =
      let (to, from) =
        check_token_iff _ sender_auth (tokens.get_leader_bearer_token_for task_id t) in
      (λ h. inl (refl, to h), λ h. elim h [ inl a ↦ from a.1 | inr a ↦ let e = a.0 in cc ])
  authorize_sender_iff task_id sender_auth (some collector) =
      let (to, from) =
        check_token_iff _ sender_auth (tokens.get_collector_bearer_token_for task_id t) in
      (λ h. inr (refl, to h), λ h. elim h [ inl a ↦ let e = a.0 in cc | inr a ↦ from a.1 ])
  authorize_sender_iff task_id sender_auth (some client) =
      (λ h. cc, λ h. elim h [ inl a ↦ let e = a.0 in cc | inr a ↦ let e = a.0 in cc ])
  authorize_sender_iff task_id sender_auth (some helper) =
      (λ h. cc, λ h. elim h [ inl a ↦ let e = a.0 in cc | inr a ↦ let e = a.0 in cc ])
  authorize_sender_iff task_id sender_auth none =
      (λ h. cc, λ h. elim h [ inl a ↦ let e = a.0 in cc | inr a ↦ let e = a.0 in cc ])

  authorize_for_iff :
      (id : Option TaskId) (sender_auth : Option BearerToken) (sender : Option DapSender)
      → (authorize_for tokens t id sender_auth sender ≡ ok none)
        ↔ ((task_id : TaskId) × (id ≡ some task_id) × IsSentBy task_id sender_auth sender)
  unfolding authorize_for
  authorize_for_iff none sender_auth sender = (λ h. cc, λ h. let (task_id, e, a) = h in cc)
  authorize_for_iff (some task_id) sender_auth sender =
      let (to, from) = authorize_sender_iff task_id sender_auth sender in
      (
        λ h. (task_id, refl, to h),
        λ h. let (other, e, a) = h in let same : other ≡ task_id = cc in from (rw same at a),
      )

  -- A bearer token authorizes a request exactly when the request names a task and carries a token,
  -- and either its media type is one that the Leader sends and the token is the one on record for the
  -- Leader of the task, or its media type is one that the Collector sends and the token is the one on
  -- record for the Collector of the task.
  pub bearer_token_authorized_iff :
      (req : DapRequest BearerToken)
      → (bearer_token_authorized tokens t req ≡ ok none) ↔ (
          (task_id : TaskId) × (req.task_id ≡ some task_id)
          × IsSentBy task_id req.sender_auth (request_sender req))
  unfolding bearer_token_authorized
  bearer_token_authorized_iff req =
      authorize_for_iff req.task_id req.sender_auth (request_sender req)

  known_token :
      (found : Option BearerToken) (token : BearerToken)
      → or_unknown_task found ≡ ok token
      → found ≡ some token
  unfolding or_unknown_task
  known_token none token h = cc
  known_token (some found) token h = cc

  authorize_from-leader :
      (task_id : TaskId) (sender : DapSender) (token : BearerToken)
      → authorize_from tokens t task_id sender ≡ ok token
      → (sender ≡ leader) × (tokens.get_leader_bearer_token_for task_id t ≡ ok (some token))
  unfolding authorize_from
  authorize_from-leader task_id leader token h =
      let (found, e, e') = bind_parts (tokens.get_leader_bearer_token_for task_id t) _ token h in
      (refl, e ∙ ap ok (known_token found token e'))
  authorize_from-leader task_id client token h = cc
  authorize_from-leader task_id collector token h = cc
  authorize_from-leader task_id helper token h = cc

  -- What the Leader authorizes, its peer accepts. If the Leader gets a token for a task and a media
  -- type, and a request of that task and media type carries the token, then the token authorizes the
  -- request, under the same record of tokens.
  pub authorize_with_bearer_token-authorized :
      (task_id : TaskId) (media_type : DapMediaType) (token : BearerToken)
      (req : DapRequest BearerToken)
      → authorize_with_bearer_token tokens t task_id media_type ≡ ok token
      → req.task_id ≡ some task_id
      → req.media_type ≡ some media_type
      → req.sender_auth ≡ some token
      → bearer_token_authorized tokens t req ≡ ok none
  unfolding authorize_with_bearer_token request_sender
  authorize_with_bearer_token-authorized task_id media_type token req h named typed carried =
      let (from_leader, e) = authorize_from-leader task_id (media_sender media_type) token h in
      (bearer_token_authorized_iff req).1
        (task_id, named, inl (rw typed (ap some from_leader), (token, carried, e)))
