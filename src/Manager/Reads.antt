-- ===== src/Manager/Reads.antt =====
-- The readers of src/internal/crdManager/renovateJobManager.go.
use mogenius_renovate_operat.Prelude.{
  ◌≡◌, refl, Option, List, [], ◌∷◌, arith, select, if◌then◌else◌,
}
use mogenius_renovate_operat.Prelude.Text.{Text}
use mogenius_renovate_operat.Prelude.Int.{ℤ}
use mogenius_renovate_operat.Api.{
  Time, RenovateProjectStatus, status_eq, ProjectStatus, RenovateJob,
}
use mogenius_renovate_operat.Kube.{Io, Client, ◌>>=◌, pure}
use mogenius_renovate_operat.Manager.{RenovateJobIdentifier, load_renovate_job}

-- RenovateProjectStatus of this package: what the API shows of a project.
pub record ProjectInfo : Type 0 where
  pub name : Text
  pub status : RenovateProjectStatus
  pub last_run : Time
  pub priority : ℤ
  pub renovate_result_status : Option Text
  pub duration : Option Text

unfoldable pub project_info : ProjectStatus → ProjectInfo
project_info p = record {
  name = p.name;
  status = p.status;
  last_run = p.last_run;
  priority = p.priority;
  renovate_result_status = p.renovate_result_status;
  duration = p.duration;
}

-- the loop of GetProjectsByStatus
unfoldable pub infos_with_status : RenovateProjectStatus → List ProjectStatus → List ProjectInfo
unfolding project_info
infos_with_status status [] = []
infos_with_status status (p ∷ ps) =
    let rest = infos_with_status status ps in
    if status_eq p.status status then project_info p ∷ rest else rest

-- the loop of GetProjectsForRenovateJob
unfoldable pub infos : List ProjectStatus → List ProjectInfo
unfolding project_info
infos [] = []
infos (p ∷ ps) = project_info p ∷ infos ps

-- the loop of ListRenovateJobs
unfoldable pub identifiers : List RenovateJob → List RenovateJobIdentifier
identifiers [] = []
identifiers (j ∷ js) = record { name = j.name; namespace = j.namespace } ∷ identifiers js

module _ {W : Type 0} (c : Client W) where
  unfoldable pub get_projects_by_status :
      RenovateJobIdentifier → RenovateProjectStatus → Io W (List ProjectInfo)
  unfolding load_renovate_job infos_with_status
  get_projects_by_status job status = do
    j ← load_renovate_job c job.name job.namespace
    pure (infos_with_status status j.status.projects)

  unfoldable pub get_projects_for_renovate_job : RenovateJobIdentifier → Io W (List ProjectInfo)
  unfolding load_renovate_job infos
  get_projects_for_renovate_job job = do
    j ← load_renovate_job c job.name job.namespace
    pure (infos j.status.projects)

  unfoldable pub list_renovate_jobs : Io W (List RenovateJobIdentifier)
  unfolding identifiers
  list_renovate_jobs = do js ← c.list; pure (identifiers js)

  unfoldable pub list_renovate_jobs_full : Io W (List RenovateJob)
  list_renovate_jobs_full = do js ← c.list; pure js

  unfoldable pub get_renovate_job : Text → Text → Io W RenovateJob
  unfolding load_renovate_job
  get_renovate_job name namespace = load_renovate_job c name namespace

-- GetProjectsByStatus lists, of what GetProjectsForRenovateJob lists, those with the status, in order.
pub infos_with_status-select :
    (status : RenovateProjectStatus) (ps : List ProjectStatus)
    → infos_with_status status ps ≡ select (λ i. status_eq i.status status) (infos ps)
unfolding infos_with_status infos
infos_with_status-select status [] = refl
infos_with_status-select status (p ∷ ps) = ground (arith, infos_with_status-select status ps)
