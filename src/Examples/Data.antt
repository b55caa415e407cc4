-- ===== src/Examples/Data.antt =====
-- The job, its projects and the requests that the examples share.
use mogenius_renovate_operat.Prelude.{ℕ, true, false, none, some, [], ◌∷◌}
use mogenius_renovate_operat.Prelude.Text.{text}
use mogenius_renovate_operat.Prelude.Int.{pos}
use mogenius_renovate_operat.Api.{
  scheduled, running, ProjectStatus, RenovateJob, RenovateStatusUpdate,
}
use mogenius_renovate_operat.Pod.{JobSpec}
use mogenius_renovate_operat.Definitions.{default_pod_security_context}
use mogenius_renovate_operat.Manager.{RenovateJobIdentifier}
use mogenius_renovate_operat.Examples.{Cluster}

-- The spec of a Kubernetes job that nobody looks at.
abbrev pub demo_spec : JobSpec
demo_spec = record {
  active_deadline_seconds = none;
  backoff_limit = none;
  ttl_seconds_after_finished = none;
  template_labels = [];
  template_annotations = [];
  template_spec = record {
    service_account_name = [];
    image_pull_secrets = [];
    termination_grace_period_seconds = none;
    containers = [];
    security_context = default_pod_security_context;
    automount_service_account_token = none;
    restart_policy = text "Never";
    dns_policy = [];
    node_selector = [];
    affinity = none;
    tolerations = [];
    topology_spread_constraints = [];
    volumes = [];
  };
}

abbrev pub api_project : ProjectStatus
api_project = record {
  name = text "org/api";
  last_run = 5;
  duration = none;
  status = running;
  priority = pos 0;
  renovate_result_status = none;
}

abbrev pub web_project : ProjectStatus
web_project = record {
  name = text "org/web";
  last_run = 7;
  duration = some (text "1m");
  status = scheduled;
  priority = pos 1;
  renovate_result_status = none;
}

abbrev pub demo_id : RenovateJobIdentifier
demo_id = record { name = text "demo"; namespace = text "ops" }

-- A job with an authenticated webhook and one allowed group.
abbrev pub demo_job : RenovateJob
demo_job = record {
  meta = record {
    name = text "demo";
    namespace = text "ops";
    resource_version = 3;
    annotations = [];
  };
  spec = record {
    schedule = text "0 * * * *";
    image = text "renovate";
    provider = none;
    discovery_filter = [];
    discover_topics = [];
    skip_forks = false;
    secret_ref = text "renovate-env";
    extra_env = [];
    extra_env_from = [];
    parallelism = pos 2;
    resources = text "{}";
    node_selector = [];
    affinity = none;
    tolerations = [];
    topology_spread_constraints = [];
    service_account = none;
    metadata = none;
    security_context = none;
    webhook = some (record {
      enabled = true;
      authentication = some (record {
        enabled = true;
        secret_ref = some (record { name = text "tokens"; key = text "webhook" });
      });
      forgejo = none;
    });
    extra_volumes = [];
    extra_volume_mounts = [];
    image_pull_secrets = [];
    dns_policy = [];
    allowed_groups = text "Devs" ∷ [];
  };
  status = record { projects = api_project ∷ web_project ∷ []; execution_options = none };
}

abbrev pub demo : Cluster
demo = record { job = demo_job; secret = (text "webhook", text "red,blue") ∷ [] }

abbrev pub schedule_now : RenovateStatusUpdate
schedule_now = record {
  status = scheduled;
  priority = pos 2;
  renovate_result_status = none;
  last_run = none;
  duration = none;
}

-- An ASCII stand-in for the case table of package unicode.
abbrev pub same_rune : ℕ → ℕ
same_rune c = c
