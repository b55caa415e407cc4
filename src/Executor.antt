-- ===== src/Executor.antt =====
-- One round of the executor for a job: reconcileProjects of src/internal/renovate/executor.go, with
-- getJobStatus of jobHelper.go. `duration_text` is humanDuration of the time between two times, and the
-- names of the jobs are part of what the definitions read.
pub mod Slots
pub mod Priority
use mogenius_renovate_operat.Prelude.{
  ℕ, suc, ◌-◌, Bool, true, false, not, ◌&&◌, ◌||◌, Option, none, some, List, [], ◌∷◌, if◌then◌else◌,
}
use mogenius_renovate_operat.Prelude.Text.{Text, text, ◌==◌}
use mogenius_renovate_operat.Prelude.Int.{ℤ, pos, ltb_ℤ}
use mogenius_renovate_operat.Api.{
  Time, RenovateProjectStatus, scheduled, running, completed, failed, other, status_eq,
  ProjectStatus, RenovateJob, RenovateStatusUpdate,
}
use mogenius_renovate_operat.Kube.{
  Error, not_found, Result, ok, err, Io, Client, ◌>>=◌, ◌>>◌, pure, raise,
}
use mogenius_renovate_operat.Metrics.{
  capture_renovate_project_execution, set_run_failed, set_dependency_issues,
}
use mogenius_renovate_operat.Manager.{RenovateJobIdentifier, update_project_status}
use mogenius_renovate_operat.Definitions.{DefinitionsConfig, new_renovate_job}
use mogenius_renovate_operat.Logs.{LogParseResult, LogJson, no_result, parse_renovate_logs}
use mogenius_renovate_operat.Pods.{PodsClient, get_last_job_log}
use mogenius_renovate_operat.Jobs.{
  JobConditionType, job_complete, job_failed, KubeJob, JobsClient, JobSelector, executor_job_type,
  get_job_by_label, delete_job, create_job_with_generation,
}

-- What the executor calls: the clients, the job definitions and the parser of logs with what they read,
-- SetControllerReference, the start of a goroutine, and the functions named above. The configuration
-- does not change.
pub record ExecutorClient (W : Type 0) : Type 0 where
  pub client : Client W
  pub jobs : JobsClient W
  pub pods : PodsClient W
  pub definitions : DefinitionsConfig
  pub json : LogJson
  pub set_controller_reference : RenovateJob → KubeJob → Result KubeJob
  pub spawn : (W → W) → W → W
  pub format_int : ℤ → Text
  pub duration_text : Time → Time → Text

-- the loop over the conditions
unfoldable pub condition_status : List (JobConditionType × Bool) → RenovateProjectStatus
condition_status [] = running
condition_status ((job_complete, true) ∷ conditions) = completed
condition_status ((job_failed, true) ∷ conditions) = failed
condition_status (condition ∷ conditions) = condition_status conditions

module _ (duration_text : Time → Time → Text) where
  duration_from : Option Time → Option Time → Time → Text
  duration_from none completion_time now = []
  duration_from (some start) none now = duration_text start now
  duration_from (some start) (some end') now = duration_text start end'

  unfoldable pub get_job_status : Option KubeJob → Time → RenovateProjectStatus × Text
  unfolding condition_status duration_from
  get_job_status none now = (failed, [])
  get_job_status (some job) now =
      (condition_status job.conditions, duration_from job.start_time job.completion_time now)

-- sort.SliceStable by priority, the highest first.
unfoldable pub insert_by_priority : ProjectStatus → List ProjectStatus → List ProjectStatus
insert_by_priority p [] = p ∷ []
insert_by_priority p (q ∷ qs) =
    let rest = insert_by_priority p qs in
    if ltb_ℤ p.priority q.priority then q ∷ rest else p ∷ q ∷ qs

unfoldable pub sort_by_priority : List ProjectStatus → List ProjectStatus
unfolding insert_by_priority
sort_by_priority [] = []
sort_by_priority (p ∷ ps) = insert_by_priority p (sort_by_priority ps)

-- `runningProjects`
unfoldable pub count_running : List ProjectStatus → ℕ
count_running [] = 0
count_running (p ∷ ps) = let n = count_running ps in if status_eq p.status running then suc n else n

status_text : RenovateProjectStatus → Text
status_text scheduled = text "scheduled"
status_text running = text "running"
status_text completed = text "completed"
status_text failed = text "failed"
status_text (other s) = s

abbrev pub start_update : RenovateStatusUpdate
start_update = record {
  status = running;
  priority = pos 0;
  renovate_result_status = none;
  last_run = none;
  duration = none;
}

module _ {W : Type 0} (x : ExecutorClient W) (renovate_job : RenovateJob) where
  abbrev pub job_id : RenovateJobIdentifier
  job_id = record { name = renovate_job.name; namespace = renovate_job.namespace }

  abbrev pub selector_of : Text → JobSelector
  selector_of project = record {
    job_name = x.definitions.executor_name renovate_job project;
    job_type = executor_job_type;
    namespace = renovate_job.namespace;
    generation = none;
  }

  -- the result of the logs; an error is only logged
  parsed : Result Text → LogParseResult
  unfolding parse_renovate_logs
  parsed (ok logs) = parse_renovate_logs x.json logs
  parsed (err e) = no_result

  parse_result : Option KubeJob → W → LogParseResult × W
  unfolding parsed get_last_job_log
  parse_result none w = (no_result, w)
  parse_result (some job) w = let (r, w') = get_last_job_log x.pods job w in (parsed r, w')

  delete_if : Bool → Option KubeJob → Io W (Unit {0})
  delete_if wanted none w = (ok tt, w)
  delete_if wanted (some job) w = if wanted then delete_job x.jobs job w else (ok tt, w)

  -- what is done for a project whose job has ended with `status`
  unfoldable pub report :
      ProjectStatus → Option KubeJob → RenovateProjectStatus → Text → Io W (Unit {0})
  unfolding parse_result delete_if status_text capture_renovate_project_execution set_run_failed
      set_dependency_issues
  report p job status duration w =
      let (result, w1) = parse_result job w in
      let update : RenovateStatusUpdate = record {
        status = status;
        priority = pos 0;
        renovate_result_status = result.renovate_result_status;
        last_run = none;
        duration = some duration;
      } in
      let w2 =
        set_run_failed x.client renovate_job.namespace renovate_job.name p.name
          (status_eq status failed) w1 in
      let w3 =
        set_dependency_issues x.client renovate_job.namespace renovate_job.name p.name
          result.has_issues w2 in
      let w4 =
        capture_renovate_project_execution x.client renovate_job.namespace renovate_job.name p.name
          (status_text status) w3 in
      (update_project_status x.client p.name job_id update
          >> delete_if
              (status_eq status completed
                && (x.definitions.setting (text "DELETE_SUCCESSFUL_JOBS") == text "true"))
              job)
        w4

  -- The number of running projects after a project's job has the status.
  settle : ℕ → ProjectStatus → Option KubeJob → RenovateProjectStatus × Text → Io W ℕ
  unfolding report
  settle n p job (status, duration) =
      if status_eq status running then pure n else (report p job status duration >> pure (n - 1))

  -- the body of the first loop for a running project
  check_result : ℕ → ProjectStatus → Result KubeJob → Io W ℕ
  unfolding settle get_job_status
  check_result n p (err not_found) w = settle n p none (failed, []) w
  check_result n p (err e) w = (err e, w)
  check_result n p (ok job) w =
      settle n p (some job) (get_job_status x.duration_text (some job) (x.client.now w)) w

  unfoldable pub check_running : ℕ → ProjectStatus → Io W ℕ
  unfolding check_result
  check_running n p w =
      let (found, w') =
        get_job_by_label x.jobs (x.definitions.parse_int 64) (selector_of p.name) w in
      check_result n p found w'

  -- Pass 1
  unfoldable pub finish_loop : ℕ → List ProjectStatus → Io W ℕ
  unfolding check_running
  finish_loop n [] = pure n
  finish_loop n (p ∷ ps) =
      if status_eq p.status running
      then (check_running n p >>= λ m. finish_loop m ps)
      else finish_loop n ps

  controlled : Result KubeJob → Io W KubeJob
  controlled r w = (r, w)

  -- Creates the job of a project and marks the project as running.
  unfoldable pub start_project : ProjectStatus → Io W (Unit {0})
  unfolding controlled new_renovate_job
  start_project p = do
    job ← controlled (
        x.set_controller_reference renovate_job
          (new_renovate_job x.definitions renovate_job p.name))
    created ← create_job_with_generation x.jobs x.format_int job (selector_of p.name)
    λ w. update_project_status x.client p.name job_id start_update (x.spawn created.1 w)

  -- Pass 2
  unfoldable pub start_loop : ℕ → List ProjectStatus → Io W (Unit {0})
  unfolding start_project
  start_loop n [] = pure tt
  start_loop n (p ∷ ps) =
      let next = start_loop (suc n) ps in
      let rest = start_loop n ps in
      if not (status_eq p.status scheduled)
      then rest
      else if ltb_ℤ (pos n) renovate_job.spec.parallelism
      then (start_project p >> next)
      else rest

  unfoldable pub execute_reconcile : Io W (Unit {0})
  unfolding finish_loop count_running sort_by_priority start_loop
  execute_reconcile = do
    n ← finish_loop (count_running renovate_job.status.projects) renovate_job.status.projects
    start_loop n (sort_by_priority renovate_job.status.projects)
