-- ===== src/Definitions.antt =====
-- The Kubernetes jobs that the operator creates: src/internal/renovate/jobDefinitions.go. `setting` is
-- config.GetValue, `parse_int` strconv.ParseInt in base 10 with the given number of bits, `none` for an
-- error, `parse_references` json.Unmarshal into a list of references by name, and the two names of a job
-- are those of Names. A job that is not created yet has no name, no status and no times.
pub mod Env
pub mod Labels
use mogenius_renovate_operat.Prelude.{
  ℕ, Bool, true, false, not, ◌||◌, Option, none, some, List, [], ◌∷◌, ◌++◌, if◌then◌else◌, any,
  select,
}
use mogenius_renovate_operat.Prelude.Text.{Text, text, ◌==◌}
use mogenius_renovate_operat.Prelude.Int.{ℤ, pos}
use mogenius_renovate_operat.Prelude.Assoc.{Assoc, insert}
use mogenius_renovate_operat.Pod.{
  EnvVar, EnvFromSource, secret_source, empty_dir, Volume, VolumeMount, PodSecurityContext,
  SecurityContext, Container, PodSpec, JobSpec,
}
use mogenius_renovate_operat.Api.{
  RenovateExecutionOptions, RenovateJobServiceAccount, RenovateJobMetadata,
  RenovateJobSecurityContext, RenovateJobSpec, RenovateProvider, RenovateJob,
}
use mogenius_renovate_operat.Names.{get_platform_and_endpoint}
use mogenius_renovate_operat.Jobs.{
  JobType, discovery_job_type, executor_job_type, job_type_text, job_label_type, job_label_name,
  KubeJob,
}

abbrev pub literal : Text → Text → EnvVar
literal name value = record { name = name; value = value; value_from = none }

provider_env_vars : Option RenovateProvider → List EnvVar
provider_env_vars none = []
provider_env_vars (some provider) =
    let (platform, endpoint) = get_platform_and_endpoint (some provider) in
    literal (text "RENOVATE_ENDPOINT") endpoint ∷ literal (text "RENOVATE_PLATFORM") platform ∷ []

debug_env_vars : Option RenovateExecutionOptions → List EnvVar
debug_env_vars none = []
debug_env_vars (some options) =
    if options.debug then literal (text "LOG_LEVEL") (text "debug") ∷ [] else []

unfoldable pub get_default_env_vars : RenovateJob → List EnvVar
unfolding provider_env_vars debug_env_vars
get_default_env_vars job =
    literal (text "LOG_FORMAT") (text "json")
    ∷ literal (text "NODE_NO_WARNINGS") (text "1")
    ∷ (provider_env_vars job.spec.provider ++ debug_env_vars job.status.execution_options)

-- `extraNames[name]`
unfoldable pub extra_names : Text → List EnvVar → Bool
extra_names name = any (λ (env : EnvVar). env.name == name)

unfoldable pub merge_env_vars : List EnvVar → List EnvVar → List EnvVar
unfolding extra_names
merge_env_vars extra_env predefined_env =
    extra_env ++ select (λ (env : EnvVar). not (extra_names env.name extra_env)) predefined_env

unfoldable pub default_pod_security_context : PodSecurityContext
default_pod_security_context = record {
  run_as_user = some (pos 12021);
  run_as_group = some (pos 12021);
  fs_group = some (pos 12021);
  run_as_non_root = some true;
  seccomp_profile = some (text "RuntimeDefault");
  options = none;
}

unfoldable pub get_pod_security_context : Option RenovateJobSecurityContext → PodSecurityContext
unfolding default_pod_security_context
get_pod_security_context none = default_pod_security_context
get_pod_security_context (some contexts) = elim contexts.pod [
  | none ↦ default_pod_security_context
  | some context ↦ context
]

default_security_context : SecurityContext
default_security_context = record {
  run_as_user = some (pos 12021);
  run_as_group = some (pos 12021);
  run_as_non_root = some true;
  seccomp_profile = some (text "RuntimeDefault");
  read_only_root_filesystem = some false;
  privileged = some false;
  allow_privilege_escalation = some false;
  drop_capabilities = text "ALL" ∷ [];
  options = none;
}

unfoldable pub get_container_security_context : Option RenovateJobSecurityContext → SecurityContext
unfolding default_security_context
get_container_security_context none = default_security_context
get_container_security_context (some contexts) = elim contexts.container [
  | none ↦ default_security_context
  | some context ↦ context
]

unfoldable pub get_auto_mount_service_account_token : Option RenovateJobServiceAccount → Option Bool
get_auto_mount_service_account_token none = some false
get_auto_mount_service_account_token (some account) = elim account.automount_service_account_token [
  | none ↦ some false
  | some automount ↦ some automount
]

unfoldable pub get_service_account_name : Option RenovateJobServiceAccount → Text
get_service_account_name none = []
get_service_account_name (some account) = account.name

unfoldable pub get_dns_policy : Text → Text
get_dns_policy policy = if policy == [] then text "ClusterFirst" else policy

-- maps.Copy
unfoldable pub copy_labels : Assoc Text → Assoc Text → Assoc Text
copy_labels labels [] = labels
copy_labels labels ((key, value) ∷ entries) = insert key value (copy_labels labels entries)

unfoldable pub get_job_labels : Option RenovateJobMetadata → JobType → Text → Assoc Text
unfolding copy_labels
get_job_labels none job_type job_name =
    (job_label_type, job_type_text job_type) ∷ (job_label_name, job_name) ∷ []
get_job_labels (some metadata) job_type job_name =
    copy_labels ((job_label_type, job_type_text job_type) ∷ (job_label_name, job_name) ∷ [])
      metadata.labels

unfoldable pub get_env_from : RenovateJobSpec → List EnvFromSource
get_env_from spec =
    (if spec.secret_ref == [] then [] else secret_source spec.secret_ref ∷ [])
    ++ spec.extra_env_from

metadata_annotations : Option RenovateJobMetadata → Assoc Text
metadata_annotations none = []
metadata_annotations (some metadata) = metadata.annotations

-- What the package reads from outside.
pub record DefinitionsConfig : Type 0 where
  pub setting : Text → Text
  pub parse_int : ℕ → Text → Option ℤ
  pub parse_references : Text → Option (List Text)
  pub discovery_name : RenovateJob → Text
  pub executor_name : RenovateJob → Text → Text

or_default : ℤ → Option ℤ → Option ℤ
or_default default none = some default
or_default default (some val) = some val

or_nil : Option (List Text) → List Text
or_nil none = []
or_nil (some secrets) = secrets

module _ (x : DefinitionsConfig) where
  unfoldable pub get_job_timeout_seconds : Option ℤ
  unfolding or_default
  get_job_timeout_seconds =
      or_default (pos 1800) (x.parse_int 64 (x.setting (text "JOB_TIMEOUT_SECONDS")))

  unfoldable pub get_job_back_off_limit : Option ℤ
  unfolding or_default
  get_job_back_off_limit =
      or_default (pos 1800) (x.parse_int 32 (x.setting (text "JOB_BACKOFF_LIMIT")))

  unfoldable pub get_job_ttl_seconds_after_finished : Option ℤ
  get_job_ttl_seconds_after_finished =
      let timeout_string = x.setting (text "JOB_TTL_SECONDS_AFTER_FINISHED") in
      if timeout_string == text "-1" then none else x.parse_int 32 timeout_string

  unfoldable pub get_default_image_pull_secrets : List Text
  unfolding or_nil
  get_default_image_pull_secrets =
      let raw = x.setting (text "IMAGE_PULL_SECRETS") in
      if (raw == []) || (raw == text "[]") then [] else or_nil (x.parse_references raw)

  -- What both jobs have in common. The source writes it out twice.
  unfoldable pub batch_job :
      RenovateJob → JobType → Text → Text → List Text → List Text → List EnvVar → KubeJob
  unfolding get_env_from get_pod_security_context get_container_security_context
      get_auto_mount_service_account_token get_service_account_name get_dns_policy get_job_labels
      metadata_annotations merge_env_vars get_job_timeout_seconds get_job_back_off_limit
      get_job_ttl_seconds_after_finished get_default_image_pull_secrets
  batch_job job job_type job_name container command args predefined_env =
      let spec = job.spec in
      let labels = get_job_labels spec.metadata job_type job_name in
      let annotations = metadata_annotations spec.metadata in
      let container : Container = record {
        name = container;
        command = command;
        args = args;
        image = spec.image;
        env = merge_env_vars spec.extra_env predefined_env;
        env_from = get_env_from spec;
        resources = spec.resources;
        volume_mounts =
            record { name = text "tmp"; mount_path = text "/tmp"; options = none }
            ∷ spec.extra_volume_mounts;
        security_context = get_container_security_context spec.security_context;
      } in
      let pod : PodSpec = record {
        service_account_name = get_service_account_name spec.service_account;
        image_pull_secrets = spec.image_pull_secrets ++ get_default_image_pull_secrets;
        termination_grace_period_seconds = some (pos 0);
        containers = container ∷ [];
        security_context = get_pod_security_context spec.security_context;
        automount_service_account_token = get_auto_mount_service_account_token spec.service_account;
        restart_policy = text "Never";
        dns_policy = get_dns_policy spec.dns_policy;
        node_selector = spec.node_selector;
        affinity = spec.affinity;
        tolerations = spec.tolerations;
        topology_spread_constraints = spec.topology_spread_constraints;
        volumes = record { name = text "tmp"; source = empty_dir } ∷ spec.extra_volumes;
      } in
      record {
        name = [];
        generate_name = job_name;
        namespace = job.namespace;
        labels = labels;
        annotations = annotations;
        spec = record {
          active_deadline_seconds = get_job_timeout_seconds;
          backoff_limit = get_job_back_off_limit;
          ttl_seconds_after_finished = get_job_ttl_seconds_after_finished;
          template_labels = labels;
          template_annotations = annotations;
          template_spec = pod;
        };
        failed = 0;
        succeeded = 0;
        conditions = [];
        start_time = none;
        completion_time = none;
      }

  discovery_env_vars : RenovateJobSpec → List EnvVar
  discovery_env_vars spec =
      (if spec.discovery_filter == []
        then []
        else literal (text "RENOVATE_AUTODISCOVER_FILTER") spec.discovery_filter ∷ [])
      ++ (if spec.discover_topics == []
          then []
          else literal (text "RENOVATE_AUTODISCOVER_TOPICS") spec.discover_topics ∷ [])

  unfoldable pub new_discovery_job : RenovateJob → KubeJob
  unfolding get_default_env_vars discovery_env_vars batch_job
  new_discovery_job job =
      batch_job job discovery_job_type (x.discovery_name job) (text "discovery")
        (text "/bin/sh" ∷ text "-c" ∷ [])
        (text
            "renovate --autodiscover --write-discovered-repos /tmp/repos.json >> /tmp/logs.json 2>&1 && cat /tmp/repos.json || cat /tmp/logs.json"
          ∷ [])
        (get_default_env_vars job ++ discovery_env_vars job.spec)

  unfoldable pub new_renovate_job : RenovateJob → Text → KubeJob
  unfolding get_default_env_vars batch_job
  new_renovate_job job project =
      batch_job job executor_job_type (x.executor_name job project) (text "renovate")
        (text "renovate" ∷ []) (text "--base-dir" ∷ text "/tmp" ∷ project ∷ [])
        (get_default_env_vars job)
