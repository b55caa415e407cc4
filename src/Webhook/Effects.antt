-- ===== src/Webhook/Effects.antt =====
-- What the webhook handlers of src/webhook do to the cluster.
use mogenius_renovate_operat.Prelude.{
  ◌≡◌, ◌≢◌, refl, sym, ◌⊎◌, ◌↔◌, inl, inr, not, ◌&&◌, Bool, true, false, Bool-cases, Option, some,
  [], arith,
}
use mogenius_renovate_operat.Prelude.Text.{Text, text, ◌==◌}
use mogenius_renovate_operat.Kube.{Result, ok, err, panic, Client}
use mogenius_renovate_operat.Manager.{RenovateJobIdentifier, update_project_status}
use mogenius_renovate_operat.Http.{
  Request, value_of, Reply, answered, panicked, status_accepted, status_ok, status_bad_request,
  status_internal_server_error,
}
use mogenius_renovate_operat.Webhook.Events.{
  GitHubEvent, GitLabEvent, ForgejoEvent, is_valid_github_event, is_valid_gitlab_event,
  is_valid_forgejo_event,
}
use mogenius_renovate_operat.Webhook.Handlers.{
  webhook_update, reply_to, schedule_if_valid, github_payload, gitlab_payload, forgejo_payload,
  github_webhook, gitlab_webhook, forgejo_webhook,
}

-- The job that the query names.
abbrev pub queried_job : Request → RenovateJobIdentifier
queried_job r = record {
  name = value_of (text "job") r.query;
  namespace = value_of (text "namespace") r.query;
}

abbrev pub scheduled_reply : Reply
scheduled_reply = answered status_accepted (text "renovate job scheduled")

-- A handler that answers `success` has made the update `u`, which succeeded. Any other answer comes
-- with the world as it was, or as a failed `u` left it. A handler that is `due` answers `success` when
-- `u` does.
pub record Triggers {W : Type 0} (success : Reply) (due : Bool) (u : Result (Unit {0}) × W) (w : W)
    (out : Reply × W) : Type 0 where
  pub done : out.0 ≡ success → (due ≡ true) × (u.0 ≡ ok tt) × (out.1 ≡ u.1)
  pub not_done : out.0 ≢ success → (out.1 ≡ w) ⊎ ((u.0 ≢ ok tt) × (out.1 ≡ u.1))
  pub made : due ≡ true → u.0 ≡ ok tt → out.0 ≡ success

-- The query names a job and a namespace.
abbrev pub names_job : Request → Bool
names_job r =
    not (value_of (text "namespace") r.query == []) && not (value_of (text "job") r.query == [])

reply_to-success :
    (u : Result (Unit {0})) (success : Reply) (failure : Text)
    → success ≢ panicked
    → success ≢ answered status_internal_server_error failure
    → (reply_to success failure u ≡ success) ↔ (u ≡ ok tt)
unfolding reply_to
reply_to-success (ok a) success failure n m = (λ _. refl, λ _. refl)
reply_to-success (err panic) success failure n m = (λ h. absurd (n (sym h)), λ h. cc)
reply_to-success (err e) success failure n m = (λ h. absurd (m (sym h)), λ h. cc)

module _ {W : Type 0} (success : Reply) (u : Result (Unit {0}) × W) (w : W) where
  idle-Triggers : (other : Reply) → other ≢ success → Triggers success false u w (other, w)
  idle-Triggers other n = record {
    done = λ h. absurd (n h);
    not_done = λ h. inl refl;
    made = λ h. cc;
  }

  called-Triggers :
      (failure : Text)
      → success ≢ panicked
      → success ≢ answered status_internal_server_error failure
      → Triggers success true u w (reply_to success failure u.0, u.1)
  called-Triggers failure n m =
      let s = reply_to-success u.0 success failure n m in
      record {
        done = λ h. (refl, s.0 h, refl);
        not_done = λ h. inr (λ e. h (s.1 e), refl);
        made = λ d e. s.1 e;
      }

module _ {W : Type 0} (c : Client W) where
  abbrev pub webhook_call : Text → Request → W → Result (Unit {0}) × W
  webhook_call project r w = update_project_status c project (queried_job r) webhook_update w

  schedule-Triggers :
      (v : Bool) (reason project : Text) (r : Request) (w : W)
      → Triggers scheduled_reply
          (v && names_job r)
          (webhook_call project r w)
          w
          (schedule_if_valid c (v, reason) project r w)
  unfolding schedule_if_valid
  schedule-Triggers false reason project r w =
      idle-Triggers scheduled_reply (webhook_call project r w) w (answered status_ok reason)
        (λ h. ground arith)
  schedule-Triggers true reason project r w =
      let u = webhook_call project r w in
      let missing = text "missing namespace or job query parameter" in
      let idle =
        idle-Triggers scheduled_reply u w (answered status_bad_request missing)
          (λ h. ground arith) in
      elim (Bool-cases (value_of (text "namespace") r.query == [])) [
        | inl n ↦ rw n idle
        | inr n ↦ elim (Bool-cases (value_of (text "job") r.query == [])) [
          | inl j ↦ rw (n, j) idle
          | inr j ↦
              rw (n, j)
                (called-Triggers scheduled_reply u w (text "failed to process webhook") (λ h. cc)
                  (λ h. ground arith))
        ]
      ]

  -- A GitHub webhook with a payload answers that a run is scheduled exactly when the payload passes
  -- the test, the query names a job, and the update that schedules the payload's repository with priority 1 has
  -- succeeded; otherwise the cluster is as before, or as a failed update left it.
  pub github_webhook-Triggers :
      (decode : Option Text → Option GitHubEvent) (r : Request) (w : W) (payload : GitHubEvent)
      → decode r.body ≡ some payload
      → Triggers scheduled_reply
          ((is_valid_github_event payload).0 && names_job r)
          (webhook_call payload.repository.full_name r w)
          w
          (github_webhook c decode r w)
  unfolding github_webhook
  github_webhook-Triggers decode r w payload d =
      let v = is_valid_github_event payload in
      rw (d, github_payload) (schedule-Triggers v.0 v.1 payload.repository.full_name r w)

  -- A GitLab webhook with a payload answers that a run is scheduled exactly when the payload passes the
  -- test, the query names a job, and the update that schedules the payload's project with priority 1
  -- has succeeded; otherwise the cluster is as before, or as a failed update left it.
  pub gitlab_webhook-Triggers :
      (decode : Option Text → Option GitLabEvent) (r : Request) (w : W) (payload : GitLabEvent)
      → decode r.body ≡ some payload
      → Triggers scheduled_reply
          ((is_valid_gitlab_event payload).0 && names_job r)
          (webhook_call payload.project.path_with_namespace r w)
          w
          (gitlab_webhook c decode r w)
  unfolding gitlab_webhook
  gitlab_webhook-Triggers decode r w payload d =
      let v = is_valid_gitlab_event payload in
      rw (d, gitlab_payload) (schedule-Triggers v.0 v.1 payload.project.path_with_namespace r w)

  -- A Forgejo webhook with a payload answers that a run is scheduled exactly when the header gives the
  -- type of the event, the payload passes the test for it, the query names a job, and the update that
  -- schedules the payload's repository with priority 1 has succeeded; otherwise the cluster is as
  -- before, or as a failed update left it.
  pub forgejo_webhook-Triggers :
      (decode : Option Text → Option ForgejoEvent) (r : Request) (w : W) (payload : ForgejoEvent)
      → decode r.body ≡ some payload
      → let event = value_of (text "X-Forgejo-Event") r.headers in
        Triggers scheduled_reply
          (not (event == []) && ((is_valid_forgejo_event event payload).0 && names_job r))
          (webhook_call payload.repository.full_name r w)
          w
          (forgejo_webhook c decode r w)
  unfolding forgejo_webhook
  forgejo_webhook-Triggers decode r w payload d =
      let event = value_of (text "X-Forgejo-Event") r.headers in
      let v = is_valid_forgejo_event event payload in
      elim (Bool-cases (event == [])) [
        | inl e ↦ rw e (
            idle-Triggers scheduled_reply (webhook_call payload.repository.full_name r w) w
              (answered status_bad_request (text "missing X-Forgejo-Event header"))
              (λ h. ground arith))
        | inr e ↦
            rw (e, d, forgejo_payload) (schedule-Triggers v.0 v.1 payload.repository.full_name r w)
      ]
