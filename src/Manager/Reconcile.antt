-- ===== src/Manager/Reconcile.antt =====
-- What ReconcileProjects and UpdateProjectStatus of
-- src/internal/crdManager/renovateJobManager.go do to the list of projects.
use mogenius_renovate_operat.Prelude.{
  ◌≡◌, refl, inl, inr, Bool, Option, none, some, List, [], ◌∷◌, map, arith, if◌then◌else◌,
  Bool-cases, Option-cases, All,
}
use mogenius_renovate_operat.Prelude.Text.{Text, ◌==◌, eq_iff}
use mogenius_renovate_operat.Prelude.Assoc.{Assoc, lookup, insert, lookup-insert}
use mogenius_renovate_operat.Prelude.Int.{pos}
use mogenius_renovate_operat.Api.{
  Time, zero_time, scheduled, running, ProjectStatus, RenovateStatusUpdate,
}
use mogenius_renovate_operat.Project.{get_update_status_for_project}
use mogenius_renovate_operat.Project.Updates.{IsSettled, update-IsSettled, name-update}
use mogenius_renovate_operat.Manager.Lists.{
  set_project_status, set_matching, add_projects, crd_project_set, kept_or_new, reconciled,
}

-- The last project of a name, as a loop over the list sees it.
abbrev pub last_named : Text → List ProjectStatus → Option ProjectStatus
last_named name [] = none
last_named name (p ∷ ps) = elim (last_named name ps) [
  | some q ↦ some q
  | none ↦ if p.name == name then some p else none
]

-- The first project of a name.
abbrev pub find_named : Text → List ProjectStatus → Option ProjectStatus
find_named name [] = none
find_named name (p ∷ ps) = if p.name == name then some p else find_named name ps

abbrev or_else : Option ProjectStatus → Option ProjectStatus → Option ProjectStatus
or_else (some q) o = some q
or_else none o = o

lookup-add_projects :
    (name : Text) (set : Assoc ProjectStatus) (ps : List ProjectStatus)
    → lookup name (add_projects set ps) ≡ or_else (last_named name ps) (lookup name set)
unfolding add_projects
lookup-add_projects name set [] = refl
lookup-add_projects name set (p ∷ ps) =
    ground
      (arith, lookup-add_projects name (insert p.name p set) ps, lookup-insert p.name name p set)

abbrev pub project_names : List ProjectStatus → List Text
project_names ps = map (λ p. p.name) ps

-- A project after a discovery: as it was, or new and scheduled at the present without priority.
abbrev pub kept_or_scheduled : Time → Text → Option ProjectStatus → ProjectStatus
kept_or_scheduled now project (some p) = p
kept_or_scheduled now project none = record {
  name = project;
  last_run = now;
  duration = none;
  status = scheduled;
  priority = pos 0;
  renovate_result_status = none;
}

kept_or_new-lem :
    (now : Time) (project : Text) (o : Option ProjectStatus)
    → kept_or_new now project o ≡ kept_or_scheduled now project o
kept_or_new-lem now project none = refl
kept_or_new-lem now project (some p) = refl

-- ReconcileProjects leaves exactly the discovered projects, in their order: each is the project that
-- had the name before (the last one of the name), unchanged, or a new one, scheduled at the present.
pub reconciled-map :
    (now : Time) (projects : List Text) (old : List ProjectStatus)
    → reconciled now (crd_project_set old) projects
      ≡ map (λ project. kept_or_scheduled now project (last_named project old)) projects
unfolding reconciled crd_project_set lookup
reconciled-map now [] old = refl
reconciled-map now (project ∷ projects) old = ground (
  arith,
  lookup-add_projects project [] old,
  kept_or_new-lem now project (lookup project (crd_project_set old)),
  reconciled-map now projects old,
)

last_named-name :
    (name : Text) (ps : List ProjectStatus) {p : ProjectStatus}
    → last_named name ps ≡ some p
    → p.name ≡ name
last_named-name name [] h = cc
last_named-name name (q ∷ ps) {p} h =
    ground (arith, eq_iff q.name name, last_named-name name ps {p = p})

kept_or_scheduled-name :
    (now : Time) (project : Text) (old : List ProjectStatus)
    → (kept_or_scheduled now project (last_named project old)).name ≡ project
kept_or_scheduled-name now project old = elim (Option-cases (last_named project old)) [
  | inl h ↦ rw h
  | inr (p, h) ↦ rw h (last_named-name project old h)
]

-- After ReconcileProjects the names of the projects are the discovered ones, in their order.
pub project_names-reconciled :
    (now : Time) (projects : List Text) (old : List ProjectStatus)
    → project_names (reconciled now (crd_project_set old) projects) ≡ projects
project_names-reconciled now projects old = rw reconciled-map (names projects)
  where
    names :
        (l : List Text)
        → project_names (map (λ project. kept_or_scheduled now project (last_named project old)) l)
          ≡ l
    names [] = refl
    names (x ∷ l) = cc (kept_or_scheduled-name now x old, names l)

-- A project that is not there yet, with the status and the priority of the update.
abbrev pub new_project : Text → RenovateStatusUpdate → ProjectStatus
new_project project update = record {
  name = project;
  last_run = zero_time;
  duration = none;
  status = update.status;
  priority = update.priority;
  renovate_result_status = none;
}

-- One pass over the list.
abbrev pub upsert : Time → Text → RenovateStatusUpdate → List ProjectStatus → List ProjectStatus
upsert now project update [] = new_project project update ∷ []
upsert now project update (p ∷ ps) =
    if p.name == project
    then get_update_status_for_project now p update ∷ ps
    else p ∷ upsert now project update ps

-- What UpdateProjectStatus does to the list by searching an index and writing there is one pass that
-- updates the first project of the name, and appends a new one if there is none.
pub set_project_status-upsert :
    (now : Time) (project : Text) (update : RenovateStatusUpdate) (ps : List ProjectStatus)
    → set_project_status now project update ps ≡ upsert now project update ps
unfolding set_project_status
set_project_status-upsert now project update [] = refl
set_project_status-upsert now project update (p ∷ ps) =
    ground (arith, set_project_status-upsert now project update ps)

abbrev pub updated_or_appended :
    Time → Text → RenovateStatusUpdate → Option ProjectStatus → ProjectStatus
updated_or_appended now project update none = new_project project update
updated_or_appended now project update (some p) = get_update_status_for_project now p update

pub find_named-upsert :
    (now : Time) (project name : Text) (update : RenovateStatusUpdate) (ps : List ProjectStatus)
    → find_named name (upsert now project update ps) ≡ (
        if project == name
        then some (updated_or_appended now project update (find_named project ps))
        else find_named name ps)
find_named-upsert now project name update [] = ground arith
find_named-upsert now project name update (p ∷ ps) = ground (
  arith,
  eq_iff p.name project,
  eq_iff project name,
  eq_iff p.name name,
  name-update now p update,
  eq_iff (get_update_status_for_project now p update).name name,
  find_named-upsert now project name update ps,
)

-- After UpdateProjectStatus the named project is the updated one, or a new one if it was not there,
-- and every other name is found as before.
pub find_named-set_project_status :
    (now : Time) (project name : Text) (update : RenovateStatusUpdate) (ps : List ProjectStatus)
    → find_named name (set_project_status now project update ps) ≡ (
        if project == name
        then some (updated_or_appended now project update (find_named project ps))
        else find_named name ps)
find_named-set_project_status now project name update ps =
    rw set_project_status-upsert (find_named-upsert now project name update ps)

upsert-IsSettled :
    (now : Time) (project : Text) (update : RenovateStatusUpdate) (ps : List ProjectStatus)
    → (update.status ≡ running → update.priority ≡ pos 0)
    → All IsSettled ps
    → All IsSettled (upsert now project update ps)
upsert-IsSettled now project update [] h s = (h, tt)
upsert-IsSettled now project update (p ∷ ps) h s = elim (Bool-cases (p.name == project)) [
  | inl e ↦ rw e (update-IsSettled now p update s.0, s.1)
  | inr e ↦ rw e (s.0, upsert-IsSettled now project update ps h s.1)
]

-- UpdateProjectStatusBatched changes the projects that pass its test, each by the state machine, and no
-- other.
pub set_matching-map :
    (now : Time) (fn : ProjectStatus → Bool) (update : RenovateStatusUpdate)
    (ps : List ProjectStatus)
    → set_matching now fn update ps
      ≡ map (λ p. if fn p then get_update_status_for_project now p update else p) ps
unfolding set_matching
set_matching-map now fn update [] = refl
set_matching-map now fn update (p ∷ ps) = rw (set_matching-map now fn update ps) refl

set_matching-IsSettled :
    (now : Time) (fn : ProjectStatus → Bool) (update : RenovateStatusUpdate)
    (ps : List ProjectStatus)
    → All IsSettled ps
    → All IsSettled (set_matching now fn update ps)
unfolding set_matching
set_matching-IsSettled now fn update [] s = tt
set_matching-IsSettled now fn update (p ∷ ps) s = elim (Bool-cases (fn p)) [
  | inl e ↦ rw e (update-IsSettled now p update s.0, set_matching-IsSettled now fn update ps s.1)
  | inr e ↦ rw e (s.0, set_matching-IsSettled now fn update ps s.1)
]

last_named-IsSettled :
    (name : Text) (ps : List ProjectStatus) (p : ProjectStatus)
    → All IsSettled ps
    → last_named name ps ≡ some p
    → IsSettled p
last_named-IsSettled name [] p s h = cc
last_named-IsSettled name (q ∷ ps) p s h = ground (arith, last_named-IsSettled name ps p s.1)

reconciled-IsSettled :
    (now : Time) (projects : List Text) (old : List ProjectStatus)
    → All IsSettled old
    → All IsSettled (reconciled now (crd_project_set old) projects)
reconciled-IsSettled now projects old s = rw reconciled-map (settled projects)
  where
    settled :
        (l : List Text)
        → All IsSettled (map (λ project. kept_or_scheduled now project (last_named project old)) l)
    settled [] = tt
    settled (x ∷ l) = (
      elim (Option-cases (last_named x old)) [
        | inl e ↦ rw e (λ r. cc)
        | inr (p, e) ↦ rw e (last_named-IsSettled x old p s e)
      ],
      settled l,
    )

-- A running project never has a priority left: every list that a writer makes from such a list is one
-- again. For UpdateProjectStatus the update may not itself start a project with a priority.
pub writers-IsSettled :
    (now : Time) (old : List ProjectStatus)
    → All IsSettled old
    → ((project : Text) (update : RenovateStatusUpdate)
        → (update.status ≡ running → update.priority ≡ pos 0)
        → All IsSettled (set_project_status now project update old))
      × ((fn : ProjectStatus → Bool) (update : RenovateStatusUpdate)
          → All IsSettled (set_matching now fn update old))
      × ((projects : List Text) → All IsSettled (reconciled now (crd_project_set old) projects))
writers-IsSettled now old s = (
  λ project update h. rw set_project_status-upsert (upsert-IsSettled now project update old h s),
  λ fn update. set_matching-IsSettled now fn update old s,
  λ projects. reconciled-IsSettled now projects old s,
)
