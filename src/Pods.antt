-- ===== src/Pods.antt =====
-- The logs of a job's pods: GetLastJobLog of src/internal/crdManager/jobManager.go and
-- getLatestSuccessfulPodLog of src/internal/renovate/podLogs.go. A pod is what the operator reads of it.
-- PodsClient is the API server's, `sort_slice` is sort.Slice, whose order of equals is not documented.
pub mod Newest
use mogenius_renovate_operat.Prelude.{
  Bool, true, false, ◌&&◌, Option, none, some, List, [], ◌∷◌, ltb, select, is_some,
}
use mogenius_renovate_operat.Prelude.Text.{Text, text}
use mogenius_renovate_operat.Prelude.Assoc.{Assoc}
use mogenius_renovate_operat.Api.{Time}
use mogenius_renovate_operat.Kube.{panic, other_error, Result, ok, err, Io, ◌>>=◌, raise}
use mogenius_renovate_operat.Jobs.{KubeJob}

-- `succeeded` says whether the phase is Succeeded.
pub record JobPod : Type 0 where
  pub name : Text
  pub namespace : Text
  pub creation_time : Time
  pub start_time : Option Time
  pub succeeded : Bool
  pub containers : List Text

pub record PodsClient (W : Type 0) : Type 0 where
  -- the list of the pods that the selector of the job's spec matches
  pub of_job : KubeJob → Io W (List JobPod)
  -- the list of the pods of a namespace that have the labels
  pub list : Text → Assoc Text → Io W (List JobPod)
  -- the log of a pod, by namespace and name, of a container or of the only one
  pub get_logs : Text → Text → Option Text → Io W Text
  pub sort_slice : (JobPod → JobPod → Bool) → List JobPod → List JobPod

unfoldable pub last_of : List JobPod → Option JobPod
last_of [] = none
last_of (pod ∷ []) = some pod
last_of (pod ∷ next ∷ pods) = last_of (next ∷ pods)

abbrev pub first_of : List JobPod → Option JobPod
first_of [] = none
first_of (pod ∷ pods) = some pod

-- a.CreationTimestamp.Before(b.CreationTimestamp)
abbrev pub created_before : JobPod → JobPod → Bool
created_before a b = ltb a.creation_time b.creation_time

abbrev pub started : Option Time → Time
started none = 0
started (some time) = time

-- a.Status.StartTime.After(b.Status.StartTime), of pods that have one
abbrev pub started_after : JobPod → JobPod → Bool
started_after a b = ltb (started b.start_time) (started a.start_time)

module _ {W : Type 0} (c : PodsClient W) where
  -- GetLogs from the first container; a pod without one is out of range
  unfoldable pub log_of_first : Text → JobPod → Io W Text
  log_of_first namespace pod = elim pod.containers [
    | [] ↦ raise panic
    | container ∷ containers ↦ c.get_logs namespace pod.name (some container)
  ]

  -- what is done with the sorted list, if there is any pod
  unfoldable pub last_log : Text → List JobPod → Io W Text
  unfolding last_of log_of_first
  last_log namespace pods = elim (last_of pods) [
    | none ↦ raise (other_error (text "no pods found"))
    | some pod ↦ log_of_first namespace pod
  ]

  unfoldable pub get_last_job_log : KubeJob → Io W Text
  unfolding last_log
  get_last_job_log job = do
    pods ← c.of_job job
    last_log job.namespace (c.sort_slice created_before pods)

  unfoldable pub first_log : List JobPod → Io W Text
  first_log pods = elim (first_of pods) [
    | none ↦ raise (other_error (text "no successful pods found"))
    | some pod ↦ c.get_logs pod.namespace pod.name none
  ]

  -- `succeededPods`
  abbrev pub is_successful : JobPod → Bool
  is_successful pod = pod.succeeded && is_some pod.start_time

  unfoldable pub get_latest_successful_pod_log : KubeJob → Io W Text
  unfolding first_log
  get_latest_successful_pod_log job = do
    pods ← c.list job.namespace ((text "job-name", job.name) ∷ [])
    first_log (c.sort_slice started_after (select is_successful pods))
