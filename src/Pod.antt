-- ===== src/Pod.antt =====
-- The types of Kubernetes that the job definitions fill, from k8s.io/api, as far as the operator writes
-- or reads their fields. None of them stands in this repository. What the operator only hands on is a
-- Manifest: the JSON text of the Kubernetes object.
use mogenius_renovate_operat.Prelude.{Bool, Option, List}
use mogenius_renovate_operat.Prelude.Text.{Text}
use mogenius_renovate_operat.Prelude.Int.{ℤ}
use mogenius_renovate_operat.Prelude.Assoc.{Assoc}

abbrev pub Manifest : Type 0
Manifest = Text

-- value_from is any source of the value other than a literal.
pub record EnvVar : Type 0 where
  pub name : Text
  pub value : Text
  pub value_from : Option Manifest

-- The secret of a name, or any other source.
pub data EnvFromSource : Type 0 where
  secret_source : Text → EnvFromSource
  other_source : Manifest → EnvFromSource

-- An empty directory, or any other volume.
pub data VolumeSource : Type 0 where
  empty_dir : VolumeSource
  other_volume : Manifest → VolumeSource

pub record Volume : Type 0 where
  pub name : Text
  pub source : VolumeSource

-- `options` are the fields that the operator never sets; `none` if they are all empty.
pub record VolumeMount : Type 0 where
  pub name : Text
  pub mount_path : Text
  pub options : Option Manifest

pub record PodSecurityContext : Type 0 where
  pub run_as_user : Option ℤ
  pub run_as_group : Option ℤ
  pub fs_group : Option ℤ
  pub run_as_non_root : Option Bool
  pub seccomp_profile : Option Text
  pub options : Option Manifest

pub record SecurityContext : Type 0 where
  pub run_as_user : Option ℤ
  pub run_as_group : Option ℤ
  pub run_as_non_root : Option Bool
  pub seccomp_profile : Option Text
  pub read_only_root_filesystem : Option Bool
  pub privileged : Option Bool
  pub allow_privilege_escalation : Option Bool
  pub drop_capabilities : List Text
  pub options : Option Manifest

pub record Container : Type 0 where
  pub name : Text
  pub command : List Text
  pub args : List Text
  pub image : Text
  pub env : List EnvVar
  pub env_from : List EnvFromSource
  pub resources : Manifest
  pub volume_mounts : List VolumeMount
  pub security_context : SecurityContext

pub record PodSpec : Type 0 where
  pub service_account_name : Text
  pub image_pull_secrets : List Text
  pub termination_grace_period_seconds : Option ℤ
  pub containers : List Container
  pub security_context : PodSecurityContext
  pub automount_service_account_token : Option Bool
  pub restart_policy : Text
  pub dns_policy : Text
  pub node_selector : Assoc Text
  pub affinity : Option Manifest
  pub tolerations : List Manifest
  pub topology_spread_constraints : List Manifest
  pub volumes : List Volume

pub record JobSpec : Type 0 where
  pub active_deadline_seconds : Option ℤ
  pub backoff_limit : Option ℤ
  pub ttl_seconds_after_finished : Option ℤ
  pub template_labels : Assoc Text
  pub template_annotations : Assoc Text
  pub template_spec : PodSpec
