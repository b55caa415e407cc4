-- ===== src/Examples/Interface.antt =====
-- Runs of the user interface's authorization on the small cluster.
use mogenius_renovate_operat.Prelude.{
  ◌≡◌, refl, ◌&&◌, not, if◌then◌else◌, some, none, ◌∷◌, [], true, List, All, any, take,
}
use mogenius_renovate_operat.Prelude.Int.{pos}
use mogenius_renovate_operat.Prelude.Text.{Text, text, ◌==◌, contains}
use mogenius_renovate_operat.Prelude.Assoc.{lookup}
use mogenius_renovate_operat.Http.{Request}
use mogenius_renovate_operat.Ui.Groups.{
  GroupFilterConfig, max_groups_per_user, validate_and_normalize_groups,
}
use mogenius_renovate_operat.Ui.Groups.Members.{
  allowed, normal_form, contains-validate_and_normalize_groups,
}
use mogenius_renovate_operat.Ui.Groups.Shape.{
  IsSessionGroup, validate_and_normalize_groups-IsSessionGroup,
}
use mogenius_renovate_operat.Ui.Access.{SessionData, authorize_and_get_job}
use mogenius_renovate_operat.Ui.Access.Visible.{is_shown, authorize_and_get_job-is_shown}
use mogenius_renovate_operat.Ui.Handlers.{
  Params, OptionParams, Server, get_renovate_json_body, run_renovate_for_project,
  run_renovate_for_all_projects, set_execution_options,
}
use mogenius_renovate_operat.Manager.Outcomes.{SetsMatching, SetsOptions}
use mogenius_renovate_operat.Ui.Handlers.Written.{request_to_run}
use mogenius_renovate_operat.Ui.Handlers.Authorized.{Guarded, run_renovate_for_project-Guarded}
use mogenius_renovate_operat.Ui.Handlers.Unguarded.{
  Ungated, is_at_rest, run_renovate_for_all_projects-unguarded, set_execution_options-unguarded,
}
use mogenius_renovate_operat.Examples.{cluster_client, cluster_laws}
use mogenius_renovate_operat.Examples.Data.{demo, demo_job, same_rune}

abbrev claim : List Text
claim = text " Devs " ∷ text "ops" ∷ text "devs" ∷ text "no slash/" ∷ []

abbrev policy : GroupFilterConfig
policy = record { allowed_prefix = text "d"; allowed_pattern = none }

abbrev dev_session : SessionData
dev_session = record {
  email = text "dev@example.org";
  name = text "Dev";
  expiry = pos 1000;
  access_token = [];
  groups = text "devs" ∷ [];
}

abbrev server : Server
server = record { auth_enabled = true; default_allowed_groups = [] }

abbrev request : Request
request = record {
  query = [];
  headers = (text "Content-Type", text "application/json") ∷ [];
  body = some (text "{}");
}

abbrev params : Params
params = record { name = text "demo"; namespace = text "ops"; project = text "org/web" }

abbrev options : OptionParams
options = record { renovate_job = text "demo"; namespace = text "ops"; debug = true }

contains-validate_and_normalize_groups_example :
    contains (validate_and_normalize_groups same_rune claim policy) (text "devs") ≡ (
      (any (normal_form same_rune (text "devs")) (take max_groups_per_user claim)
        && not (text "devs" == []))
      && allowed policy (text "devs"))
contains-validate_and_normalize_groups_example =
    contains-validate_and_normalize_groups same_rune claim policy (text "devs")

validate_and_normalize_groups-IsSessionGroup_example :
    All IsSessionGroup (validate_and_normalize_groups same_rune claim policy)
validate_and_normalize_groups-IsSessionGroup_example =
    validate_and_normalize_groups-IsSessionGroup same_rune claim policy

authorize_and_get_job-is_shown_example :
    (authorize_and_get_job same_rune [] cluster_client true
      (some dev_session)
      (text "ops")
      (text "demo")
      demo).0
    ≡ (if is_shown same_rune [] true (some dev_session) demo_job then some demo_job else none)
unfolding cluster_client ◌==◌
authorize_and_get_job-is_shown_example =
    (authorize_and_get_job-is_shown same_rune [] cluster_client true (some dev_session) (text "ops")
        (text "demo") demo).0
      demo_job refl

run_renovate_for_project-Guarded_example :
    Guarded same_rune cluster_laws server (some dev_session) demo params (
      run_renovate_for_project same_rune cluster_client server
        (λ b. some params)
        (λ r. none)
        (some dev_session)
        request
        demo)
unfolding get_renovate_json_body ◌==◌ lookup
run_renovate_for_project-Guarded_example =
    run_renovate_for_project-Guarded same_rune cluster_laws server (some dev_session) demo
      (λ b. some params) (λ r. none) request params refl

run_renovate_for_all_projects-unguarded_example :
    Ungated same_rune cluster_laws server none demo
      (text "demo")
      (text "ops")
      (SetsMatching is_at_rest request_to_run)
      (text "All projects triggered")
      (λ any.
        run_renovate_for_all_projects same_rune cluster_client server
          (λ b. some params)
          (λ r. none)
          any
          request
          demo)
unfolding get_renovate_json_body ◌==◌ lookup
run_renovate_for_all_projects-unguarded_example =
    run_renovate_for_all_projects-unguarded same_rune cluster_laws server none demo
      (λ b. some params) (λ r. none) request params refl

set_execution_options-unguarded_example :
    Ungated same_rune cluster_laws server none demo
      (text "demo")
      (text "ops")
      (SetsOptions (some (record { debug = true })))
      (text "execution options updated")
      (λ any.
        set_execution_options same_rune cluster_client server (λ b. some options) any request demo)
set_execution_options-unguarded_example =
    set_execution_options-unguarded same_rune cluster_laws server none demo (λ b. some options)
      request options refl
