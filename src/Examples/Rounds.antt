-- ===== src/Examples/Rounds.antt =====
-- A round of the executor on the small cluster, where every Kubernetes job still runs.
use mogenius_renovate_operat.Prelude.{◌≡◌, refl, ◌≤◌, ◌∷◌, [], some, none, select, take, length}
use mogenius_renovate_operat.Prelude.Text.{text}
use mogenius_renovate_operat.Prelude.Int.{ℤ, pos}
use mogenius_renovate_operat.Prelude.Assoc.{lookup}
use mogenius_renovate_operat.Kube.{ok}
use mogenius_renovate_operat.Jobs.{KubeJob, JobsClient, generation_of, get_job_by_label}
use mogenius_renovate_operat.Definitions.{DefinitionsConfig}
use mogenius_renovate_operat.Logs.{LogJson}
use mogenius_renovate_operat.Pods.{PodsClient}
use mogenius_renovate_operat.Executor.{
  ExecutorClient, sort_by_priority, count_running, finish_loop, execute_reconcile,
}
use mogenius_renovate_operat.Executor.Slots.{
  free_slots, is_scheduled, start_each, execute_reconcile-start_each,
}
use mogenius_renovate_operat.Executor.Priority.{
  IsOrdered, same_priority, sort_by_priority-IsOrdered,
}
use mogenius_renovate_operat.Examples.{Cluster, cluster_client}
use mogenius_renovate_operat.Examples.Data.{demo_spec, demo, demo_job, api_project, web_project}

abbrev running_job : KubeJob
running_job = record {
  name = text "demo-org-api";
  generate_name = [];
  namespace = text "ops";
  annotations = [];
  spec = demo_spec;
  failed = 0;
  succeeded = 0;
  labels = [];
  conditions = [];
  start_time = some 1;
  completion_time = none;
}

abbrev busy_jobs : JobsClient Cluster
busy_jobs = record {
  list = λ namespace labels w. (ok (running_job ∷ []), w);
  delete = λ job w. (ok tt, w);
  create = λ job w. (ok tt, w);
  unix = λ w. pos 100;
}

abbrev pub no_pods : PodsClient Cluster
no_pods = record {
  of_job = λ job w. (ok [], w);
  list = λ namespace labels w. (ok [], w);
  get_logs = λ namespace name container w. (ok [], w);
  sort_slice = λ less pods. pods;
}

abbrev pub plain_definitions : DefinitionsConfig
plain_definitions = record {
  setting = λ key. [];
  parse_int = λ bits s. none;
  parse_references = λ s. none;
  discovery_name = λ j. j.name;
  executor_name = λ j project. project;
}

abbrev no_json : LogJson
no_json = record { log_entry = λ line. none; finished_result = λ line. none }

unfoldable executor_client : ExecutorClient Cluster
executor_client = record {
  client = cluster_client;
  jobs = busy_jobs;
  pods = no_pods;
  definitions = plain_definitions;
  json = no_json;
  set_controller_reference = λ j job. ok job;
  spawn = λ task w. w;
  format_int = λ n. text "9";
  duration_text = λ start end'. text "1s";
}

execute_reconcile-start_each_example :
    let chosen =
      take
        (free_slots (pos 2) 1)
        (select is_scheduled (sort_by_priority demo_job.status.projects)) in
    (execute_reconcile executor_client demo_job demo
      ≡ start_each executor_client demo_job chosen demo)
    × (length chosen ≤ free_slots (pos 2) 1)
    × (1 ≤ count_running demo_job.status.projects)
unfolding executor_client finish_loop count_running get_job_by_label generation_of lookup
execute_reconcile-start_each_example =
    (execute_reconcile-start_each executor_client demo_job demo).0 1 refl

sort_by_priority-IsOrdered_example :
    IsOrdered (sort_by_priority (api_project ∷ web_project ∷ []))
    × ((k : ℤ)
        → select (same_priority k) (sort_by_priority (api_project ∷ web_project ∷ []))
          ≡ select (same_priority k) (api_project ∷ web_project ∷ []))
sort_by_priority-IsOrdered_example = sort_by_priority-IsOrdered (api_project ∷ web_project ∷ [])
