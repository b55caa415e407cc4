-- ===== src/Examples/Hooks.antt =====
-- Runs of the webhook server on the small cluster.
use mogenius_renovate_operat.Prelude.{◌≡◌, refl, ◌&&◌, if◌then◌else◌, some, none, ◌∷◌, [], ◌++◌}
use mogenius_renovate_operat.Prelude.Text.{Text, text, ◌==◌, has_infix}
use mogenius_renovate_operat.Prelude.Assoc.{lookup}
use mogenius_renovate_operat.Manager.{update_project_status}
use mogenius_renovate_operat.Kube.{Error}
use mogenius_renovate_operat.Http.{Request, value_of}
use mogenius_renovate_operat.Webhook.Checkbox.{verify_renovate_description_change}
use mogenius_renovate_operat.Webhook.Events.{
  GitHubEvent, GitLabEvent, ForgejoEvent, is_valid_github_event, is_valid_gitlab_event,
  is_valid_forgejo_event,
}
use mogenius_renovate_operat.Webhook.Server.{auth_middleware}
use mogenius_renovate_operat.Webhook.Handlers.{github_webhook, gitlab_webhook, forgejo_webhook}
use mogenius_renovate_operat.Webhook.Valid.{
  is_valid_forgejo_event_iff, issue_accepted, pull_request_accepted,
}
use mogenius_renovate_operat.Manager.Tokens.Panics.{NilReference}
use mogenius_renovate_operat.Webhook.Effects.{queried_job}
use mogenius_renovate_operat.Webhook.Guard.{MayPass, Gate, auth_middleware-Gate}
use mogenius_renovate_operat.Webhook.Scheduled.{
  Scheduled, github_webhook-Scheduled, gitlab_webhook-Scheduled, forgejo_webhook-Scheduled,
}
use mogenius_renovate_operat.Examples.{Cluster, cluster_client, cluster_laws, cluster-NeverPanics}
use mogenius_renovate_operat.Examples.Data.{demo}

-- A request that carries a token of the job's secret.
abbrev request : Request
request = record {
  query = (text "namespace", text "ops") ∷ (text "job", text "demo") ∷ [];
  headers =
      (text "Authorization", text "Bearer blue") ∷ (text "X-Forgejo-Event", text "issues") ∷ [];
  body = some (text "{}");
}

abbrev checked_body : Text
checked_body = text "<!-- rebase-check -->\n- [x] rebase"

abbrev github_event : GitHubEvent
github_event = record {
  action = text "edited";
  pull_request = some (record { body = checked_body });
  issue = none;
  repository = record { name = text "web"; full_name = text "org/web" };
}

abbrev gitlab_event : GitLabEvent
gitlab_event = record {
  object_kind = text "merge_request";
  event_type = text "merge_request";
  project = record {
    name = text "web";
    namespace = text "org";
    path_with_namespace = text "org/web";
  };
  object_attributes = record { action = text "update" };
  changes = record { description = record { previous = []; current = checked_body } };
}

abbrev forgejo_event : ForgejoEvent
forgejo_event = record {
  action = text "edited";
  pull_request = none;
  issue = some (record { title = text "Dependency Dashboard"; body = checked_body });
  repository = record { name = text "web"; full_name = text "org/web" };
}

abbrev error_text : Error → Text
error_text e = text "error"

abbrev toy_hmac : Text → Text → Text
toy_hmac message key = key ++ message

auth_middleware-Gate_example :
    Gate {W = Cluster} request
      (MayPass cluster_client toy_hmac request demo)
      (NilReference cluster_client
        (queried_job request)
        (cluster_client.get (queried_job request).name (queried_job request).namespace demo).1)
      (λ next. auth_middleware cluster_client error_text toy_hmac next request demo)
auth_middleware-Gate_example =
    auth_middleware-Gate cluster_client cluster-NeverPanics error_text toy_hmac request demo

is_valid_forgejo_event_iff_example : (is_valid_forgejo_event (text "issues") forgejo_event).0 ≡ (
    if text "issues" == text "issues"
    then issue_accepted forgejo_event
    else (text "issues" == text "pull_request") && pull_request_accepted forgejo_event)
is_valid_forgejo_event_iff_example = is_valid_forgejo_event_iff (text "issues") forgejo_event

github_webhook-Scheduled_example :
    Scheduled cluster_laws request
      (text "org/web")
      demo
      (github_webhook cluster_client (λ b. some github_event) request demo).1
unfolding cluster_client github_webhook is_valid_github_event ◌==◌
    verify_renovate_description_change has_infix value_of lookup update_project_status
github_webhook-Scheduled_example =
    github_webhook-Scheduled cluster_laws request demo (λ b. some github_event) github_event refl
      refl

gitlab_webhook-Scheduled_example :
    Scheduled cluster_laws request
      (text "org/web")
      demo
      (gitlab_webhook cluster_client (λ b. some gitlab_event) request demo).1
unfolding cluster_client gitlab_webhook is_valid_gitlab_event ◌==◌
    verify_renovate_description_change has_infix value_of lookup update_project_status
gitlab_webhook-Scheduled_example =
    gitlab_webhook-Scheduled cluster_laws request demo (λ b. some gitlab_event) gitlab_event refl
      refl

forgejo_webhook-Scheduled_example :
    Scheduled cluster_laws request
      (text "org/web")
      demo
      (forgejo_webhook cluster_client (λ b. some forgejo_event) request demo).1
unfolding cluster_client forgejo_webhook is_valid_forgejo_event ◌==◌
    verify_renovate_description_change has_infix value_of lookup update_project_status
forgejo_webhook-Scheduled_example =
    forgejo_webhook-Scheduled cluster_laws request demo (λ b. some forgejo_event) forgejo_event refl
      refl
