-- ===== src/Ui/Handlers.antt =====
-- The handlers of src/ui/renovateController.go that change the state of a job. `decode_json` and
-- `parse_form` are encoding/json and ParseForm on the body; handlers take the session that the
-- request's context holds.
pub mod Written
pub mod Authorized
pub mod Unguarded
use mogenius_renovate_operat.Prelude.{
  ℕ, Bool, true, false, not, ◌&&◌, ◌||◌, Option, none, some, List, [], if◌then◌else◌,
}
use mogenius_renovate_operat.Prelude.Text.{Text, text, ◌==◌}
use mogenius_renovate_operat.Prelude.Int.{pos}
use mogenius_renovate_operat.Api.{
  scheduled, running, status_eq, ProjectStatus, RenovateExecutionOptions, RenovateJob,
  RenovateStatusUpdate,
}
use mogenius_renovate_operat.Kube.{Error, Result, ok, err, Client}
use mogenius_renovate_operat.Manager.{
  RenovateJobIdentifier, update_project_status, update_project_status_batched,
  update_execution_options,
}
use mogenius_renovate_operat.Http.{
  Request, value_of, Reply, answered, failed_with, status_ok, status_bad_request, status_forbidden,
  status_internal_server_error,
}
use mogenius_renovate_operat.Ui.Access.{SessionData, authorize_and_get_job}

-- What a request's body names; the last field is `debug` of updateExecutionOptions.
pub record Params : Type 0 where
  pub name : Text
  pub namespace : Text
  pub project : Text

pub record OptionParams : Type 0 where
  pub renovate_job : Text
  pub namespace : Text
  pub debug : Bool

-- The Server of src/ui/server.go, as far as the handlers read it.
pub record Server : Type 0 where
  pub auth_enabled : Bool
  pub default_allowed_groups : List Text

-- The update that the interface asks for.
abbrev pub ui_update : RenovateStatusUpdate
ui_update = record {
  status = scheduled;
  priority = pos 2;
  renovate_result_status = none;
  last_run = none;
  duration = none;
}

abbrev pub success : Text → Reply
success message = answered status_ok message

pub reply_with : Text → Text → Result (Unit {0}) → Reply
reply_with message failure (ok u) = success message
reply_with message failure (err e) = failed_with status_internal_server_error failure e

unfoldable pub get_renovate_json_body :
    (Option Text → Option Params) → (Request → Option Params) → Request → Option Params
unfolding value_of
get_renovate_json_body decode_json parse_form r =
    if value_of (text "Content-Type") r.headers == text "application/json"
    then decode_json r.body
    else parse_form r

abbrev pub is_granted : Option RenovateJob → Bool
is_granted none = false
is_granted (some job) = true

-- The projects that runRenovateForAllProjects triggers.
unfoldable pub is_idle : ProjectStatus → Bool
is_idle p = not (status_eq p.status running) && not (status_eq p.status scheduled)

module _ (unicode_lower : ℕ → ℕ) {W : Type 0} (c : Client W) (s : Server) where
  unfoldable pub authorize_job_access : Option SessionData → Text → Text → W → Bool × W
  unfolding authorize_and_get_job
  authorize_job_access session namespace name w =
      let (job, w') =
        authorize_and_get_job unicode_lower s.default_allowed_groups c s.auth_enabled session
          namespace name w in
      (is_granted job, w')

  -- the part of runRenovateForProject behind the body
  unfoldable pub run_for_project : Option SessionData → Option Params → W → Reply × W
  unfolding authorize_job_access reply_with
  run_for_project session none w =
      (answered status_bad_request (text "failed to parse request body"), w)
  run_for_project session (some params) w =
      if (params.name == []) || (params.namespace == []) || (params.project == [])
      then (answered status_bad_request (text "Missing parameters"), w)
      else let (granted, w') = authorize_job_access session params.namespace params.name w in
        if not granted
        then (answered status_forbidden (text "forbidden"), w')
        else let (result, w'') =
            update_project_status c params.project
              (record { name = params.name; namespace = params.namespace }) ui_update w' in
          (
            reply_with (text "Renovate job triggered for project")
                (text "failed to run Renovate for project") result,
            w'',
          )

  unfoldable pub run_renovate_for_project :
      (Option Text → Option Params)
      → (Request → Option Params)
      → Option SessionData
      → Request
      → W
      → Reply × W
  unfolding get_renovate_json_body run_for_project
  run_renovate_for_project decode_json parse_form session r w =
      run_for_project session (get_renovate_json_body decode_json parse_form r) w

  -- the part of runRenovateForAllProjects behind the body; it asks for no authorization
  unfoldable pub run_for_all_projects : Option SessionData → Option Params → W → Reply × W
  unfolding is_idle reply_with
  run_for_all_projects session none w =
      (answered status_bad_request (text "failed to parse request body"), w)
  run_for_all_projects session (some params) w =
      if (params.name == []) || (params.namespace == [])
      then (answered status_bad_request (text "Missing parameters"), w)
      else let (result, w') =
          update_project_status_batched c is_idle
            (record { name = params.name; namespace = params.namespace }) ui_update w in
        (
          reply_with (text "All projects triggered") (text "failed to trigger all projects") result,
          w',
        )

  unfoldable pub run_renovate_for_all_projects :
      (Option Text → Option Params)
      → (Request → Option Params)
      → Option SessionData
      → Request
      → W
      → Reply × W
  unfolding get_renovate_json_body run_for_all_projects
  run_renovate_for_all_projects decode_json parse_form session r w =
      run_for_all_projects session (get_renovate_json_body decode_json parse_form r) w

  unfoldable pub set_options : Option SessionData → Option OptionParams → W → Reply × W
  unfolding reply_with
  set_options session none w =
      (answered status_bad_request (text "failed to parse request body"), w)
  set_options session (some params) w =
      if (params.renovate_job == []) || (params.namespace == [])
      then (answered status_bad_request (text "missing parameters"), w)
      else let (result, w') =
          update_execution_options c
            (record { name = params.renovate_job; namespace = params.namespace })
            (some (record { debug = params.debug })) w in
        (
          reply_with (text "execution options updated") (text "failed to update execution options")
              result,
          w',
        )

  -- updateExecutionOptions; it asks for no authorization
  unfoldable pub set_execution_options :
      (Option Text → Option OptionParams) → Option SessionData → Request → W → Reply × W
  unfolding set_options
  set_execution_options decode_json session r w = set_options session (decode_json r.body) w
