-- ===== src/Examples/KubeJobs.antt =====
-- Runs of the naming, the lookup and the cleanup of Kubernetes jobs, on a list of jobs as the world.
use mogenius_renovate_operat.Prelude.{
  ◌≡◌, refl, ◌≤◌, ◌∷◌, [], some, none, Option, List, select, length,
}
use mogenius_renovate_operat.Prelude.Text.{Text, text}
use mogenius_renovate_operat.Prelude.Int.{ℤ, pos}
use mogenius_renovate_operat.Kube.{ok}
use mogenius_renovate_operat.Names.{Bytes, executor_job_name, discovery_job_name}
use mogenius_renovate_operat.Names.Bounds.{job_names_bounded}
use mogenius_renovate_operat.Jobs.{
  KubeJob, JobsClient, JobSelector, executor_job_type, job_label_generation, get_job_by_label,
  cleanup_old_generations,
}
use mogenius_renovate_operat.Jobs.Newest.{IsNewest, get_job_by_label-IsNewest}
use mogenius_renovate_operat.Jobs.Cleanup.{delete_all, is_stale, cleanup_old_generations-select}
use mogenius_renovate_operat.Examples.Data.{demo_spec, demo_job}

abbrev lower : Bytes → Bytes
lower s = s

abbrev digits : Bytes → Bytes
digits s = text "0a1b2c3d"

job_names_bounded_example :
    (length (executor_job_name lower digits demo_job (text "org/web")) ≤ 63)
    × (length (discovery_job_name lower digits demo_job) ≤ 63)
job_names_bounded_example = job_names_bounded lower digits demo_job (text "org/web") (λ s. refl)

-- A server that gives every job, and deletes the first one.
delete_first : List KubeJob → List KubeJob
delete_first [] = []
delete_first (job ∷ jobs) = jobs

unfoldable jobs_client : JobsClient (List KubeJob)
unfolding delete_first
jobs_client = record {
  list = λ namespace labels w. (ok w, w);
  delete = λ job w. (ok tt, delete_first w);
  create = λ job w. (ok tt, job ∷ w);
  unix = λ w. pos 100;
}

abbrev parse_one : Text → Option ℤ
parse_one (c ∷ []) = some (pos c)
parse_one _ = none

abbrev format_one : ℤ → Text
format_one n = text "9"

abbrev job_of : Text → KubeJob
job_of generation = record {
  name = text "demo";
  generate_name = [];
  namespace = text "ops";
  annotations = [];
  spec = demo_spec;
  failed = 0;
  succeeded = 0;
  labels = (job_label_generation, generation) ∷ [];
  conditions = [];
  start_time = none;
  completion_time = none;
}

abbrev selector : JobSelector
selector = record {
  job_name = text "demo-org-web";
  job_type = executor_job_type;
  namespace = text "ops";
  generation = none;
}

abbrev two_jobs : List KubeJob
two_jobs = job_of (text "3") ∷ job_of (text "8") ∷ []

get_job_by_label-IsNewest_example :
    (job : KubeJob) × (get_job_by_label jobs_client parse_one selector two_jobs
      ≡ (ok job, two_jobs))
    × IsNewest parse_one job two_jobs
unfolding jobs_client
get_job_by_label-IsNewest_example =
    (get_job_by_label-IsNewest parse_one jobs_client selector two_jobs).0 (job_of (text "3"))
      (job_of (text "8") ∷ []) refl

cleanup_old_generations-select_example :
    cleanup_old_generations jobs_client selector (text "8") two_jobs
    ≡ (ok tt, delete_all jobs_client (select (is_stale (text "8")) two_jobs) two_jobs)
unfolding jobs_client
cleanup_old_generations-select_example =
    (cleanup_old_generations-select jobs_client selector (text "8") two_jobs).0 two_jobs refl
