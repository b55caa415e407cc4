-- ===== src/Discovery.antt =====
-- Discovery: src/internal/renovate/discoveryAgent.go, with parseDiscoveredProjects and
-- getDiscoveredProjectsFromJobLogs of podLogs.go. The fields of DiscoveryJson are json.Unmarshal of a text
-- into a list of strings, a list of raw elements, a string, and an object with a repository; `none` is
-- an error. `sleep` waits some seconds. A wait without a limit is a loop on fuel.
pub mod Parse
pub mod Lookup
pub mod Wait
use mogenius_renovate_operat.Prelude.{
  ℕ, zero, suc, ◌<◌, Bool, true, false, not, Option, none, some, List, [], ◌∷◌, if◌then◌else◌, ltb,
  nat_eq,
}
use mogenius_renovate_operat.Prelude.Text.{Text, text, ◌==◌, trim_space}
use mogenius_renovate_operat.Prelude.Lines.{scan_lines}
use mogenius_renovate_operat.Prelude.Int.{ℤ}
use mogenius_renovate_operat.Api.{
  RenovateProjectStatus, scheduled, running, completed, failed, other, RenovateJob,
}
use mogenius_renovate_operat.Kube.{
  Error, not_found, panic, other_error, Result, ok, err, Io, ◌>>=◌, pure, raise,
}
use mogenius_renovate_operat.Jobs.{
  KubeJob, JobsClient, JobSelector, discovery_job_type, get_job_by_label,
  create_job_with_generation,
}
use mogenius_renovate_operat.Definitions.{DefinitionsConfig, new_discovery_job}
use mogenius_renovate_operat.Pods.{PodsClient, get_latest_successful_pod_log}

pub record DiscoveryJson : Type 0 where
  pub string_array : Text → Option (List Text)
  pub raw_array : Text → Option (List Text)
  pub string_value : Text → Option Text
  pub repository : Text → Option Text

pub record DiscoveryClient (W : Type 0) : Type 0 where
  pub jobs : JobsClient W
  pub pods : PodsClient W
  pub definitions : DefinitionsConfig
  pub json : DiscoveryJson
  pub set_controller_reference : RenovateJob → KubeJob → Result KubeJob
  pub spawn : (W → W) → W → W
  pub format_int : ℤ → Text
  pub sleep : ℕ → W → W

-- a < b on strings
unfoldable pub text_ltb : Text → Text → Bool
text_ltb s [] = false
text_ltb [] (d ∷ t) = true
text_ltb (c ∷ s) (d ∷ t) =
    let rest = text_ltb s t in if ltb c d then true else if nat_eq c d then rest else false

unfoldable pub insert_text : Text → List Text → List Text
unfolding text_ltb
insert_text s [] = s ∷ []
insert_text s (t ∷ ts) =
    let rest = insert_text s ts in if text_ltb t s then t ∷ rest else s ∷ t ∷ ts

-- sort.Strings
unfoldable pub sort_texts : List Text → List Text
unfolding insert_text
sort_texts [] = []
sort_texts (s ∷ ss) = insert_text s (sort_texts ss)

both : Option Text → Option (List Text) → Option (List Text)
both (some name) (some names) = some (name ∷ names)
both _ _ = none

module _ (json : DiscoveryJson) where
  -- the repository of an object, if it is not empty
  repository_of : Text → Option Text
  repository_of elem' = elim (json.repository elem') [
    | none ↦ none
    | some repository ↦ if repository == [] then none else some repository
  ]

  unfoldable pub element_name : Text → Option Text
  unfolding repository_of
  element_name elem' = elim (json.string_value elem') [
    | none ↦ repository_of elem'
    | some s ↦ some s
  ]

  -- the loop over the raw elements
  unfoldable pub collect : List Text → Option (List Text)
  unfolding element_name both
  collect [] = some []
  collect (elem' ∷ raw) = both (element_name elem') (collect raw)

  mixed : Option (List Text) → Option (List Text)
  unfolding collect
  mixed none = none
  mixed (some raw) = collect raw

  -- the fast path, and the elements one by one
  parse_array : Text → Option (List Text)
  unfolding mixed
  parse_array line = elim (json.string_array line) [
    | none ↦ mixed (json.raw_array line)
    | some discovered ↦ some discovered
  ]

  starts_array : Text → Bool
  starts_array [] = false
  starts_array (c ∷ line) = nat_eq c b'['

  unfoldable pub parse_line_for_discovered_projects : Text → Option (List Text)
  unfolding parse_array starts_array
  parse_line_for_discovered_projects line =
      let line = trim_space line in if starts_array line then parse_array line else none

  -- the loop over the lines
  unfoldable pub first_parsed : List Text → Option (List Text)
  unfolding parse_line_for_discovered_projects
  first_parsed [] = none
  first_parsed (line ∷ lines) = elim (parse_line_for_discovered_projects line) [
    | none ↦ first_parsed lines
    | some discovered ↦ some discovered
  ]

  unfoldable pub parse_discovered_projects : Text → Option (List Text)
  unfolding first_parsed
  parse_discovered_projects logs = elim (parse_line_for_discovered_projects logs) [
    | none ↦ first_parsed (scan_lines 65536 logs)
    | some discovered ↦ some discovered
  ]

abbrev pub generation_selector : DefinitionsConfig → RenovateJob → Option Text → JobSelector
generation_selector definitions job generation = record {
  job_name = definitions.discovery_name job;
  job_type = discovery_job_type;
  namespace = job.namespace;
  generation = generation;
}

-- the status of the job that was found
unfoldable pub discovery_status : KubeJob → RenovateProjectStatus
discovery_status job =
    if ltb 0 job.failed then failed else if ltb 0 job.succeeded then completed else running

module _ {W : Type 0} (x : DiscoveryClient W) where
  sorted_projects : Option (List Text) → Io W (List Text)
  unfolding sort_texts
  sorted_projects none = raise (other_error (text "failed to parse discovered projects from logs"))
  sorted_projects (some discovered) = pure (sort_texts discovered)

  unfoldable pub get_discovered_projects_from_job_logs : KubeJob → Io W (List Text)
  unfolding get_latest_successful_pod_log parse_discovered_projects sorted_projects
  get_discovered_projects_from_job_logs job = do
    logs ← get_latest_successful_pod_log x.pods job
    sorted_projects (parse_discovered_projects x.json logs)

  owned_job : Result KubeJob → Io W KubeJob
  owned_job r w = (r, w)

  unfoldable pub create_discovery_job : RenovateJob → Io W Text
  unfolding owned_job new_discovery_job create_job_with_generation
  create_discovery_job renovate_job = do
    job ←
        owned_job
          (x.set_controller_reference renovate_job (new_discovery_job x.definitions renovate_job))
    created ←
        create_job_with_generation x.jobs x.format_int job
          (generation_selector x.definitions renovate_job none)
    λ w. (ok created.0, x.spawn created.1 w)

  -- the lookup of the job of a generation
  unfoldable pub look_up : RenovateJob → Text → Io W KubeJob
  unfolding get_job_by_label
  look_up job generation =
      get_job_by_label x.jobs (x.definitions.parse_int 64)
        (generation_selector x.definitions job (some generation))

  -- The loop that looks again, `n` times at most. It ends on any other error, too, and what follows
  -- reads the status of a job that is nil.
  unfoldable pub retry_lookup : RenovateJob → Text → ℕ → Result KubeJob → Io W RenovateProjectStatus
  unfolding look_up discovery_status
  retry_lookup job generation n (ok found) w = (ok (discovery_status found), w)
  retry_lookup job generation zero (err not_found) w = (err not_found, w)
  retry_lookup job generation (suc n) (err not_found) w =
      let (r, w') = look_up job generation w in retry_lookup job generation n r w'
  retry_lookup job generation n (err e) w = (err panic, w)

  -- what is done with the answer of the first lookup
  first_look : RenovateJob → Text → Result KubeJob → Io W RenovateProjectStatus
  unfolding retry_lookup
  first_look job generation (ok found) w = (ok (discovery_status found), w)
  first_look job generation (err not_found) w =
      retry_lookup job generation 4 (err not_found) (x.sleep 1 w)
  first_look job generation (err e) w = (err e, w)

  unfoldable pub get_discovery_job_status : RenovateJob → Text → Io W RenovateProjectStatus
  unfolding first_look
  get_discovery_job_status job generation w =
      let (r, w') = look_up job generation w in first_look job generation r w'

  -- the body of the loop: whether the wait is over
  wait_on : Result RenovateProjectStatus → Io W Bool
  wait_on (err e) w = (err e, w)
  wait_on (ok running) w = (ok false, x.sleep 5 w)
  wait_on (ok completed) w = (ok true, w)
  wait_on (ok failed) w = (err (other_error (text "discovery job failed")), w)
  wait_on (ok scheduled) w = (ok false, w)
  wait_on (ok (other s)) w = (ok false, w)

  unfoldable pub poll : RenovateJob → Text → Io W Bool
  unfolding wait_on
  poll job generation w =
      let (status, w') = get_discovery_job_status job generation w in wait_on status w'

  -- the end of the loop, or its next turn
  unfoldable pub looped :
      Result Bool × W → (W → Option (Result (Unit {0}) × W)) → Option (Result (Unit {0}) × W)
  looped (ok true, w) next = some (ok tt, w)
  looped (ok false, w) next = next w
  looped (err e, w) next = some (err e, w)

  -- The loop; `none` when the fuel is out.
  unfoldable pub wait_loop : RenovateJob → Text → ℕ → W → Option (Result (Unit {0}) × W)
  unfolding poll looped
  wait_loop job generation zero w = none
  wait_loop job generation (suc n) w = looped (poll job generation w) (wait_loop job generation n)

  -- What follows the loop.
  unfoldable pub read_projects : RenovateJob → Io W (List Text)
  unfolding get_discovered_projects_from_job_logs
  read_projects job = do
    found ←
        get_job_by_label x.jobs (x.definitions.parse_int 64)
          (generation_selector x.definitions job none)
    get_discovered_projects_from_job_logs found

  after_wait : RenovateJob → Option (Result (Unit {0}) × W) → Option (Result (List Text) × W)
  unfolding read_projects
  after_wait job none = none
  after_wait job (some (ok tt, w)) = some (read_projects job w)
  after_wait job (some (err e, w)) = some (err e, w)

  unfoldable pub wait_for_discovery_job :
      RenovateJob → Text → ℕ → W → Option (Result (List Text) × W)
  unfolding wait_loop after_wait
  wait_for_discovery_job job generation fuel w = after_wait job (wait_loop job generation fuel w)

  discover_after : RenovateJob → ℕ → Result Text × W → Option (Result (List Text) × W)
  unfolding wait_for_discovery_job
  discover_after job fuel (ok generation, w) = wait_for_discovery_job job generation fuel w
  discover_after job fuel (err e, w) = some (err e, w)

  unfoldable pub discover : RenovateJob → ℕ → W → Option (Result (List Text) × W)
  unfolding create_discovery_job discover_after
  discover job fuel w = discover_after job fuel (create_discovery_job job w)
