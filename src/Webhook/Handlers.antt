-- ===== src/Webhook/Handlers.antt =====
-- The handlers of the webhook server: runRenovate of src/webhook/server.go, and the handlers of
-- github.go, gitlab.go and forgejo.go. `decode` is encoding/json on the type of the payload.
use mogenius_renovate_operat.Prelude.{true, false, ◌||◌, Option, none, some, [], if◌then◌else◌}
use mogenius_renovate_operat.Prelude.Text.{Text, text, ◌==◌}
use mogenius_renovate_operat.Prelude.Int.{pos}
use mogenius_renovate_operat.Api.{scheduled, RenovateStatusUpdate}
use mogenius_renovate_operat.Kube.{Result, ok, err, Client}
use mogenius_renovate_operat.Manager.{update_project_status}
use mogenius_renovate_operat.Http.{
  Request, value_of, Reply, answered, failed_with, status_ok, status_accepted, status_bad_request,
  status_internal_server_error,
}
use mogenius_renovate_operat.Webhook.Events.{
  Verdict, GitHubEvent, GitLabEvent, ForgejoEvent, is_valid_github_event, is_valid_gitlab_event,
  is_valid_forgejo_event,
}

-- The update that every webhook asks for.
abbrev pub webhook_update : RenovateStatusUpdate
webhook_update = record {
  status = scheduled;
  priority = pos 1;
  renovate_result_status = none;
  last_run = none;
  duration = none;
}

unfoldable pub reply_to : Reply → Text → Result (Unit {0}) → Reply
reply_to success failure (ok u) = success
reply_to success failure (err e) = failed_with status_internal_server_error failure e

module _ {W : Type 0} (c : Client W) where
  unfoldable pub run_renovate : Request → W → Reply × W
  unfolding reply_to
  run_renovate r w =
      let namespace = value_of (text "namespace") r.query in
      let job = value_of (text "job") r.query in
      let project = value_of (text "project") r.query in
      if namespace == []
      then (answered status_bad_request (text "missing namespace query parameter"), w)
      else if job == []
      then (answered status_bad_request (text "missing job query parameter"), w)
      else if project == []
      then (answered status_bad_request (text "missing project query parameter"), w)
      else let (result, w') =
          update_project_status c project (record { name = job; namespace = namespace })
            webhook_update w in
        (reply_to (answered status_ok []) (text "failed to run renovate for project") result, w')

  -- The part behind a payload's test, the same in the three handlers: `project` is the name of the
  -- repository in the payload.
  unfoldable pub schedule_if_valid : Verdict → Text → Request → W → Reply × W
  unfolding reply_to
  schedule_if_valid (false, reason) project r w = (answered status_ok reason, w)
  schedule_if_valid (true, reason) project r w =
      let namespace = value_of (text "namespace") r.query in
      let job = value_of (text "job") r.query in
      if (namespace == []) || (job == [])
      then (answered status_bad_request (text "missing namespace or job query parameter"), w)
      else let (result, w') =
          update_project_status c project (record { name = job; namespace = namespace })
            webhook_update w in
        (
          reply_to (answered status_accepted (text "renovate job scheduled"))
              (text "failed to process webhook") result,
          w',
        )

  unfoldable pub github_payload : Option GitHubEvent → Request → W → Reply × W
  unfolding schedule_if_valid
  github_payload none r w = (answered status_bad_request (text "failed to decode payload"), w)
  github_payload (some payload) r w =
      schedule_if_valid (is_valid_github_event payload) payload.repository.full_name r w

  unfoldable pub github_webhook : (Option Text → Option GitHubEvent) → Request → W → Reply × W
  unfolding github_payload
  github_webhook decode r w = github_payload (decode r.body) r w

  unfoldable pub gitlab_payload : Option GitLabEvent → Request → W → Reply × W
  unfolding schedule_if_valid
  gitlab_payload none r w = (answered status_bad_request (text "failed to decode payload"), w)
  gitlab_payload (some payload) r w =
      schedule_if_valid (is_valid_gitlab_event payload) payload.project.path_with_namespace r w

  unfoldable pub gitlab_webhook : (Option Text → Option GitLabEvent) → Request → W → Reply × W
  unfolding gitlab_payload
  gitlab_webhook decode r w = gitlab_payload (decode r.body) r w

  unfoldable pub forgejo_payload : Text → Option ForgejoEvent → Request → W → Reply × W
  unfolding schedule_if_valid
  forgejo_payload event none r w =
      (answered status_bad_request (text "failed to decode payload"), w)
  forgejo_payload event (some payload) r w =
      schedule_if_valid (is_valid_forgejo_event event payload) payload.repository.full_name r w

  unfoldable pub forgejo_webhook : (Option Text → Option ForgejoEvent) → Request → W → Reply × W
  unfolding forgejo_payload
  forgejo_webhook decode r w =
      let event = value_of (text "X-Forgejo-Event") r.headers in
      if event == []
      then (answered status_bad_request (text "missing X-Forgejo-Event header"), w)
      else forgejo_payload event (decode r.body) r w
