-- ===== src/Manager/Lists.antt =====
-- What the manager's writers do to the list of projects, in the loops of
-- src/internal/crdManager/renovateJobManager.go.
use mogenius_renovate_operat.Prelude.{
  ℕ, zero, suc, Bool, true, false, Option, none, some, List, [], ◌∷◌, ◌++◌, if◌then◌else◌,
}
use mogenius_renovate_operat.Prelude.Text.{Text, ◌==◌}
use mogenius_renovate_operat.Prelude.Int.{pos}
use mogenius_renovate_operat.Prelude.Assoc.{Assoc, lookup, insert}
use mogenius_renovate_operat.Api.{Time, zero_time, scheduled, ProjectStatus, RenovateStatusUpdate}
use mogenius_renovate_operat.Project.{get_update_status_for_project}

-- The search for the first project of a name: `index`, with `none` for -1.
unfoldable pub index_of : Text → List ProjectStatus → Option ℕ
index_of project [] = none
index_of project (p ∷ ps) =
    let rest = index_of project ps in
    if p.name == project then some 0 else elim rest [ none ↦ none | some i ↦ some (suc i) ]

unfoldable pub modify_at :
    ℕ → (ProjectStatus → ProjectStatus) → List ProjectStatus → List ProjectStatus
modify_at i f [] = []
modify_at zero f (p ∷ ps) = f p ∷ ps
modify_at (suc i) f (p ∷ ps) = p ∷ modify_at i f ps

-- A project that UpdateProjectStatus appends.
abbrev pub appended : Text → RenovateStatusUpdate → ProjectStatus
appended project update = record {
  name = project;
  last_run = zero_time;
  duration = none;
  status = update.status;
  priority = update.priority;
  renovate_result_status = none;
}

-- UpdateProjectStatus
unfoldable pub set_project_status :
    Time → Text → RenovateStatusUpdate → List ProjectStatus → List ProjectStatus
unfolding index_of modify_at
set_project_status now project update projects = elim (index_of project projects) [
  | none ↦ projects ++ appended project update ∷ []
  | some i ↦ modify_at i (λ p. get_update_status_for_project now p update) projects
]

-- UpdateProjectStatusBatched
unfoldable pub set_matching :
    Time → (ProjectStatus → Bool) → RenovateStatusUpdate → List ProjectStatus → List ProjectStatus
set_matching now fn update [] = []
set_matching now fn update (p ∷ ps) =
    (if fn p then get_update_status_for_project now p update else p) ∷ set_matching now fn update ps

-- `crdProjectSet`: the last project of a name wins.
unfoldable pub add_projects : Assoc ProjectStatus → List ProjectStatus → Assoc ProjectStatus
add_projects set [] = set
add_projects set (p ∷ ps) = add_projects (insert p.name p set) ps

unfoldable pub crd_project_set : List ProjectStatus → Assoc ProjectStatus
unfolding add_projects
crd_project_set projects = add_projects [] projects

-- Membership in `newProjectSet`.
unfoldable pub is_listed : Text → List Text → Bool
is_listed name [] = false
is_listed name (project ∷ projects) = if project == name then true else is_listed name projects

-- A project that ReconcileProjects adds.
abbrev pub discovered : Time → Text → ProjectStatus
discovered now project = record {
  name = project;
  last_run = now;
  duration = none;
  status = scheduled;
  priority = pos 0;
  renovate_result_status = none;
}

abbrev pub kept_or_new : Time → Text → Option ProjectStatus → ProjectStatus
kept_or_new now project none = discovered now project
kept_or_new now project (some p) = p

-- `newProjects`
unfoldable pub reconciled : Time → Assoc ProjectStatus → List Text → List ProjectStatus
reconciled now set [] = []
reconciled now set (project ∷ projects) =
    kept_or_new now project (lookup project set) ∷ reconciled now set projects

-- UpdateProjectConfigStatus; `none` if there is no such project.
unfoldable pub set_config_status :
    Text → Option Text → List ProjectStatus → Option (List ProjectStatus)
set_config_status project status [] = none
set_config_status project status (p ∷ ps) =
    let rest = set_config_status project status ps in
    if p.name == project
    then some (record p { renovate_result_status = status } ∷ ps)
    else elim rest [ none ↦ none | some qs ↦ some (p ∷ qs) ]
