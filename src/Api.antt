-- ===== src/Api.antt =====
-- The RenovateJob resource: src/api/v1alpha1/renovatejob_types.go, and the status update of
-- src/internal/types/renovateStatusUpdate.go. `meta` is the part of ObjectMeta that the
-- operator reads; `resource_version` is what the API server compares on a write.
use mogenius_renovate_operat.Prelude.{ℕ, ◌++◌, Bool, true, false, Option, List}
use mogenius_renovate_operat.Prelude.Text.{Text, text, ◌==◌}
use mogenius_renovate_operat.Prelude.Int.{ℤ}
use mogenius_renovate_operat.Prelude.Assoc.{Assoc}
use mogenius_renovate_operat.Pod.{
  Manifest, EnvVar, EnvFromSource, Volume, VolumeMount, PodSecurityContext, SecurityContext,
}

-- A point in time; 0 is the zero value of time.Time.
abbrev pub Time : Type 0
Time = ℕ

abbrev pub zero_time : Time
zero_time = 0

-- The Go type is a string with four named values; `other` is any other string.
pub data RenovateProjectStatus : Type 0 where
  scheduled running completed failed : RenovateProjectStatus
  other : Text → RenovateProjectStatus

-- `a == b` on statuses; `other` stands for no named value.
abbrev pub status_eq : RenovateProjectStatus → RenovateProjectStatus → Bool
status_eq scheduled scheduled = true
status_eq running running = true
status_eq completed completed = true
status_eq failed failed = true
status_eq (other s) (other t) = s == t
status_eq _ _ = false

pub record ProjectStatus : Type 0 where
  pub name : Text
  pub last_run : Time
  pub duration : Option Text
  pub status : RenovateProjectStatus
  pub priority : ℤ  -- int32
  pub renovate_result_status : Option Text

pub record RenovateExecutionOptions : Type 0 where
  pub debug : Bool

pub record RenovateJobStatus : Type 0 where
  pub projects : List ProjectStatus
  pub execution_options : Option RenovateExecutionOptions

pub record RenovateSecretKeyReference : Type 0 where
  pub name : Text
  pub key : Text

pub record RenovateWebhookAuth : Type 0 where
  pub enabled : Bool
  pub secret_ref : Option RenovateSecretKeyReference

pub record RenovateWebhookForgejoSync : Type 0 where
  pub enabled : Bool
  pub webhook_url : Text
  pub topic : Text
  pub events : List Text
  pub token_secret_ref : Option RenovateSecretKeyReference
  pub auth_token_secret_ref : Option RenovateSecretKeyReference

pub record RenovateWebhookForgejo : Type 0 where
  pub sync : Option RenovateWebhookForgejoSync

pub record RenovateWebhook : Type 0 where
  pub enabled : Bool
  pub authentication : Option RenovateWebhookAuth
  pub forgejo : Option RenovateWebhookForgejo

pub record RenovateProvider : Type 0 where
  pub name : Text
  pub endpoint : Text

pub record RenovateJobServiceAccount : Type 0 where
  pub automount_service_account_token : Option Bool
  pub name : Text

pub record RenovateJobMetadata : Type 0 where
  pub labels : Assoc Text
  pub annotations : Assoc Text

pub record RenovateJobSecurityContext : Type 0 where
  pub pod : Option PodSecurityContext
  pub container : Option SecurityContext

pub record RenovateJobSpec : Type 0 where
  pub schedule : Text
  pub image : Text
  pub provider : Option RenovateProvider
  pub discovery_filter : Text
  pub discover_topics : Text
  pub skip_forks : Bool
  pub secret_ref : Text
  pub extra_env : List EnvVar
  pub extra_env_from : List EnvFromSource
  pub parallelism : ℤ  -- int32
  pub resources : Manifest
  pub node_selector : Assoc Text
  pub affinity : Option Manifest
  pub tolerations : List Manifest
  pub topology_spread_constraints : List Manifest
  pub service_account : Option RenovateJobServiceAccount
  pub metadata : Option RenovateJobMetadata
  pub security_context : Option RenovateJobSecurityContext
  pub webhook : Option RenovateWebhook
  pub extra_volumes : List Volume
  pub extra_volume_mounts : List VolumeMount
  pub image_pull_secrets : List Text
  pub dns_policy : Text
  pub allowed_groups : List Text

pub record ObjectMeta : Type 0 where
  pub name : Text
  pub namespace : Text
  pub resource_version : ℕ
  pub annotations : Assoc Text

pub record RenovateJob : Type 0 where
  pub meta : ObjectMeta
  pub open meta use {name, namespace}
  pub spec : RenovateJobSpec
  pub status : RenovateJobStatus

-- RenovateJob.Fullname
unfoldable pub fullname : RenovateJob → Text
fullname in_job = in_job.name ++ (text "-" ++ in_job.namespace)

-- types.RenovateStatusUpdate
pub record RenovateStatusUpdate : Type 0 where
  pub status : RenovateProjectStatus
  pub priority : ℤ  -- int32
  pub renovate_result_status : Option Text
  pub last_run : Option Time
  pub duration : Option Text
