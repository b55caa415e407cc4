-- ===== src/Manager.antt =====
-- The manager of the RenovateJob resources: src/internal/crdManager/renovateJobManager.go, with
-- loadRenovateJob.go and updateRenovateJob.go. The manager's own lock is not modelled: every method
-- takes it whole, and what others write between two calls of the API server is in the world's hands.
pub mod Lists
pub mod Reads
pub mod Tokens
pub mod Edit
pub mod Atomic
pub mod Outcomes
pub mod Reconcile
use mogenius_renovate_operat.Prelude.{Bool, Option, none, some, List, [], ◌∷◌, if◌then◌else◌}
use mogenius_renovate_operat.Prelude.Text.{Text, ◌==◌}
use mogenius_renovate_operat.Prelude.Assoc.{Assoc, lookup}
use mogenius_renovate_operat.Api.{
  Time, ProjectStatus, RenovateExecutionOptions, RenovateJob, RenovateStatusUpdate,
}
use mogenius_renovate_operat.Kube.{Result, ok, Io, Client, ◌>>=◌, ◌>>◌, pure}
use mogenius_renovate_operat.Metrics.{delete_project_metrics}
use mogenius_renovate_operat.Manager.Lists.{
  set_project_status, set_matching, crd_project_set, is_listed, reconciled, set_config_status,
}

pub record RenovateJobIdentifier : Type 0 where
  pub name : Text
  pub namespace : Text

module _ {W : Type 0} (c : Client W) where
  unfoldable pub load_renovate_job : Text → Text → Io W RenovateJob
  load_renovate_job name namespace = c.get name namespace

  unfoldable pub reload_renovate_job : RenovateJob → Io W RenovateJob
  unfolding load_renovate_job
  reload_renovate_job j = load_renovate_job j.name j.namespace

  -- A reload that fails reports an error although the status was written.
  unfoldable pub update_renovate_job_status : RenovateJob → Io W RenovateJob
  unfolding reload_renovate_job
  update_renovate_job_status j = do c.status_update j; reload_renovate_job j

  -- v1.Now(), read once for each attempt.
  clock : Io W Time
  clock w = (ok (c.now w), w)

  unfoldable pub update_project_status :
      Text → RenovateJobIdentifier → RenovateStatusUpdate → Io W (Unit {0})
  unfolding load_renovate_job clock update_renovate_job_status
  update_project_status project job status = c.retry_on_conflict (do
    j ← load_renovate_job job.name job.namespace
    now ← clock
    let projects = set_project_status now project status j.status.projects
    _ ← update_renovate_job_status (record j { status = record j.status { projects = projects } })
    pure tt)

  unfoldable pub update_project_status_batched :
      (ProjectStatus → Bool) → RenovateJobIdentifier → RenovateStatusUpdate → Io W (Unit {0})
  unfolding load_renovate_job clock update_renovate_job_status
  update_project_status_batched fn job status = c.retry_on_conflict (do
    j ← load_renovate_job job.name job.namespace
    now ← clock
    let projects = set_matching now fn status j.status.projects
    _ ← update_renovate_job_status (record j { status = record j.status { projects = projects } })
    pure tt)

  -- The loop over the names of `crdProjectSet`.
  delete_removed : RenovateJobIdentifier → List Text → Assoc ProjectStatus → W → W
  delete_removed job projects [] w = w
  delete_removed job projects ((name, p) ∷ rest) w = delete_removed job projects rest (
      if is_listed name projects then w else delete_project_metrics c job.namespace job.name name w)

  delete_removed_metrics : RenovateJobIdentifier → List Text → Assoc ProjectStatus → Io W (Unit {0})
  unfolding delete_removed
  delete_removed_metrics job projects set w = (ok tt, delete_removed job projects set w)

  unfoldable pub reconcile_projects : RenovateJobIdentifier → List Text → Io W (Unit {0})
  unfolding load_renovate_job clock delete_removed_metrics update_renovate_job_status
  reconcile_projects job projects = c.retry_on_conflict (do
    j ← load_renovate_job job.name job.namespace
    let set = crd_project_set j.status.projects
    delete_removed_metrics job projects set
    now ← clock
    let new_projects = reconciled now set projects
    _ ←
        update_renovate_job_status
          (record j { status = record j.status { projects = new_projects } })
    pure tt)

  -- Writes only if the project is there.
  write_config_status : RenovateJob → Option (List ProjectStatus) → Io W (Unit {0})
  unfolding update_renovate_job_status
  write_config_status j none = pure tt
  write_config_status j (some projects) = do
    _ ← update_renovate_job_status (record j { status = record j.status { projects = projects } })
    pure tt

  unfoldable pub update_project_config_status :
      Text → RenovateJobIdentifier → Option Text → Io W (Unit {0})
  unfolding load_renovate_job write_config_status
  update_project_config_status project job status = c.retry_on_conflict (do
    j ← load_renovate_job job.name job.namespace
    write_config_status j (set_config_status project status j.status.projects))

  unfoldable pub update_execution_options :
      RenovateJobIdentifier → Option RenovateExecutionOptions → Io W (Unit {0})
  unfolding load_renovate_job update_renovate_job_status
  update_execution_options job options = c.retry_on_conflict (do
    j ← load_renovate_job job.name job.namespace
    _ ←
        update_renovate_job_status
          (record j { status = record j.status { execution_options = options } })
    pure tt)
