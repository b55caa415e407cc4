-- ===== src/Examples/Discoveries.antt =====
-- Runs of discovery. The world is a number that each wait advances; from 5 on the discovery job is done.
use mogenius_renovate_operat.Prelude.{
  ℕ, ◌+◌, ◌≡◌, ◌≤◌, refl, true, none, some, List, [], ◌∷◌, ltb, if◌then◌else◌,
}
use mathlib.Core.Path.{subst}
use mogenius_renovate_operat.Prelude.Text.{Text, text, trim_space}
use mogenius_renovate_operat.Prelude.Assoc.{lookup}
use mogenius_renovate_operat.Prelude.Int.{pos}
use mogenius_renovate_operat.Api.{completed}
use mogenius_renovate_operat.Kube.{ok}
use mogenius_renovate_operat.Jobs.{KubeJob, get_job_by_label, generation_of}
use mogenius_renovate_operat.Pods.{JobPod, get_latest_successful_pod_log}
use mogenius_renovate_operat.Discovery.{
  DiscoveryClient, parse_line_for_discovered_projects, parse_discovered_projects,
  get_discovered_projects_from_job_logs, get_discovery_job_status, poll, wait_for_discovery_job,
}
use mogenius_renovate_operat.Discovery.Parse.{
  JsonLaws, Strings, next, done, of_string, IsSorted, occurrences,
  parse_line_for_discovered_projects-elements, get_discovered_projects_from_job_logs-IsSorted,
}
use mogenius_renovate_operat.Discovery.Lookup.{get_discovery_job_status-verdict}
use mogenius_renovate_operat.Discovery.Wait.{over, later, answer, wait_for_discovery_job-Ends}
use mogenius_renovate_operat.Examples.Data.{demo_job, demo_spec}
use mogenius_renovate_operat.Examples.Rounds.{plain_definitions}

-- The discovery job in a world.
abbrev job_in : ℕ → KubeJob
job_in w = record {
  name = text "demo-discovery";
  generate_name = [];
  namespace = text "ops";
  labels = [];
  annotations = [];
  spec = demo_spec;
  failed = 0;
  succeeded = if ltb w 5 then 0 else 1;
  conditions = [];
  start_time = none;
  completion_time = none;
}

abbrev pod : JobPod
pod = record {
  name = text "pod";
  namespace = text "ops";
  creation_time = 3;
  start_time = some 4;
  succeeded = true;
  containers = text "discovery" ∷ [];
}

unfoldable timed_client : DiscoveryClient ℕ
timed_client = record {
  jobs = record {
    list = λ namespace labels w. (ok (job_in w ∷ []), w);
    delete = λ job w. (ok tt, w);
    create = λ job w. (ok tt, w);
    unix = λ w. pos w;
  };
  pods = record {
    of_job = λ job w. (ok (pod ∷ []), w);
    list = λ namespace labels w. (ok (pod ∷ []), w);
    get_logs = λ namespace name container w. (ok (text "[org/web"), w);
    sort_slice = λ less pods. pods;
  };
  definitions = plain_definitions;
  json = record {
    string_array = λ s. some (s ∷ []);
    raw_array = λ s. some (s ∷ []);
    string_value = λ s. some s;
    repository = λ s. none;
  };
  set_controller_reference = λ j job. ok job;
  spawn = λ task w. w;
  format_int = λ n. text "9";
  sleep = λ seconds w. w + seconds;
}

first_inj : {a : Text} {ss : List Text} → some (a ∷ []) ≡ some ss → a ∷ [] ≡ ss
first_inj h = cc

string_laws : JsonLaws timed_client.json
unfolding timed_client JsonLaws Strings
string_laws line ss h =
    (line ∷ [], refl, subst (Strings timed_client.json (line ∷ [])) (first_inj h) (refl, tt))

wait_for_discovery_job-Ends_example :
    (n : ℕ) × ((m : ℕ)
      → n ≤ m
      → wait_for_discovery_job timed_client demo_job (text "9") m 0
        ≡ some (answer timed_client demo_job (text "9") (ok tt) 5))
unfolding timed_client poll get_discovery_job_status get_job_by_label generation_of lookup
wait_for_discovery_job-Ends_example =
    (wait_for_discovery_job-Ends timed_client demo_job (text "9") 0).0 (ok tt) 5
      (later refl (over refl))

get_discovery_job_status-verdict_example :
    get_discovery_job_status timed_client demo_job (text "9") 5 ≡ (ok completed, 5)
unfolding timed_client get_discovery_job_status get_job_by_label generation_of lookup
get_discovery_job_status-verdict_example =
    (get_discovery_job_status-verdict timed_client demo_job (text "9") 5).0 (job_in 5) refl

parse_line_for_discovered_projects-elements_example :
    parse_line_for_discovered_projects timed_client.json (text "[org/web")
    ≡ some (text "[org/web" ∷ [])
unfolding timed_client trim_space
parse_line_for_discovered_projects-elements_example =
    (parse_line_for_discovered_projects-elements timed_client.json string_laws (text "[org/web")
        (text "[org/web" ∷ [])).1
      (record {
        rest = text "org/web";
        raw = text "[org/web" ∷ [];
        opens = refl;
        is_array = refl;
        elements = next (of_string refl) done;
      })

get_discovered_projects_from_job_logs-IsSorted_example :
    (logs : Text) × ((get_latest_successful_pod_log timed_client.pods (job_in 5) 5).0 ≡ ok logs)
    × (parsed : List Text) × (parse_discovered_projects timed_client.json logs ≡ some parsed)
    × IsSorted (text "[org/web" ∷ [])
    × ((u : Text) → occurrences u (text "[org/web" ∷ []) ≡ occurrences u parsed)
unfolding timed_client get_discovered_projects_from_job_logs trim_space
get_discovered_projects_from_job_logs-IsSorted_example =
    get_discovered_projects_from_job_logs-IsSorted timed_client (job_in 5) 5 refl
