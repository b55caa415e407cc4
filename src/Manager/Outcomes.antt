-- ===== src/Manager/Outcomes.antt =====
-- The writers of src/internal/crdManager/renovateJobManager.go, each as one atomic change of the status
-- that the store holds when the change is made.
use mogenius_renovate_operat.Prelude.{
  ◌≡◌, refl, ap, map, if◌then◌else◌, Bool, Bool-cases, inl, inr, Option, none, some, List, [], ◌∷◌,
}
use mathlib.Core.Option
use mathlib.Core.Path.{subst, sym, fun_ext}
use mogenius_renovate_operat.Prelude.Assoc.{Assoc}
use mogenius_renovate_operat.Metrics.{delete_project_metrics}
use mogenius_renovate_operat.Prelude.Text.{Text}
use mogenius_renovate_operat.Api.{
  Time, ProjectStatus, RenovateExecutionOptions, RenovateJobStatus, RenovateJob,
  RenovateStatusUpdate,
}
use mogenius_renovate_operat.Kube.{Client, ◌>>=◌}
use mogenius_renovate_operat.Kube.Laws.{ClientLaws}
use mogenius_renovate_operat.Manager.{
  RenovateJobIdentifier, update_project_status, update_project_status_batched, reconcile_projects,
  update_project_config_status, update_execution_options, delete_removed, write_config_status,
}
use mogenius_renovate_operat.Manager.Lists.{
  set_project_status, set_matching, crd_project_set, reconciled, set_config_status, is_listed,
}
use mogenius_renovate_operat.Project.{get_update_status_for_project}
use mogenius_renovate_operat.Manager.Reconcile.{
  upsert, set_project_status-upsert, set_matching-map, last_named, kept_or_scheduled,
  reconciled-map,
}
use mogenius_renovate_operat.Manager.Edit.{Outcome, write, edit}
use mogenius_renovate_operat.Manager.Atomic.{retry_edit-Outcome}

abbrev pub with_projects : RenovateJob → List ProjectStatus → RenovateJobStatus
with_projects j projects = record j.status { projects = projects }

-- The status that UpdateProjectStatus writes, from the job that the store holds.
abbrev pub SetsProject :
    Text → RenovateStatusUpdate → RenovateJob → Option RenovateJobStatus → Type 0
SetsProject project update j o =
    (now : Time) × (o ≡ some (with_projects j (upsert now project update j.status.projects)))

abbrev pub SetsMatching :
    (ProjectStatus → Bool) → RenovateStatusUpdate → RenovateJob → Option RenovateJobStatus → Type 0
SetsMatching fn update j o =
    (now : Time) × (o
      ≡ some (
          with_projects j (
            map (λ p. if fn p then get_update_status_for_project now p update else p)
              j.status.projects)))

abbrev pub Reconciles : List Text → RenovateJob → Option RenovateJobStatus → Type 0
Reconciles projects j o =
    (now : Time) × (o
      ≡ some (
          with_projects j (
            map (λ project. kept_or_scheduled now project (last_named project j.status.projects))
              projects)))

abbrev pub SetsConfig : Text → Option Text → RenovateJob → Option RenovateJobStatus → Type 0
SetsConfig project status j o =
    o ≡ Option.map (with_projects j) (set_config_status project status j.status.projects)

abbrev pub SetsOptions :
    Option RenovateExecutionOptions → RenovateJob → Option RenovateJobStatus → Type 0
SetsOptions options j o = o ≡ some (record j.status { execution_options = options })

written_projects :
    (j : RenovateJob) {ps qs : List ProjectStatus}
    → ps ≡ qs
    → some (with_projects j ps) ≡ some (with_projects j qs)
written_projects j e = ap (λ ps. some (with_projects j ps)) e

module _ {W : Type 0} {c : Client W} (laws : ClientLaws c) (job : RenovateJobIdentifier) where
  -- UpdateProjectStatus updates the project atomically: whatever others write meanwhile and however
  -- often the write conflicts, the update is applied at most once, to the status that the store holds
  -- at that moment. A success has applied it; a conflict has not; after another error it may be applied.
  pub update_project_status-Outcome :
      (project : Text) (update : RenovateStatusUpdate) (w : W)
      → let f = update_project_status c project job update w in
        Outcome laws job.name job.namespace (SetsProject project update) f.0 w f.1
  unfolding update_project_status edit
  update_project_status-Outcome project update w =
      retry_edit-Outcome laws job.name job.namespace (SetsProject project update)
        (λ j v. (
          some (with_projects j (set_project_status (c.now v) project update j.status.projects)),
          v,
        ))
        (λ j v. (
          c.now v,
          written_projects j (set_project_status-upsert (c.now v) project update j.status.projects),
        ))
        (λ j v. laws.Others-refl v) w

  -- UpdateProjectStatusBatched updates all the projects that pass its test in one atomic write: whatever
  -- others write meanwhile, the update is applied at most once, to the status that the store holds at
  -- that moment. A success has applied it; a conflict has not; after another error it may be applied.
  pub update_project_status_batched-Outcome :
      (fn : ProjectStatus → Bool) (update : RenovateStatusUpdate) (w : W)
      → let f = update_project_status_batched c fn job update w in
        Outcome laws job.name job.namespace (SetsMatching fn update) f.0 w f.1
  unfolding update_project_status_batched edit
  update_project_status_batched-Outcome fn update w =
      retry_edit-Outcome laws job.name job.namespace (SetsMatching fn update)
        (λ j v. (some (with_projects j (set_matching (c.now v) fn update j.status.projects)), v))
        (λ j v.
          (c.now v, written_projects j (set_matching-map (c.now v) fn update j.status.projects)))
        (λ j v. laws.Others-refl v) w

  delete_project_metrics_others :
      (namespace name project : Text) (w : W)
      → laws.Others w (delete_project_metrics c namespace name project w)
  unfolding delete_project_metrics
  delete_project_metrics_others namespace name project w =
      laws.Others-trans (laws.metrics_others _ _ _) (
        laws.Others-trans (laws.metrics_others _ _ _)
          (laws.Others-trans (laws.metrics_others _ _ _) (laws.metrics_others _ _ _)))

  delete_removed_others :
      (projects : List Text) (set : Assoc ProjectStatus) (w : W)
      → laws.Others w (delete_removed c job projects set w)
  unfolding delete_removed
  delete_removed_others projects [] w = laws.Others-refl w
  delete_removed_others projects ((name, p) ∷ rest) w =
      elim (Bool-cases (is_listed name projects)) [
        | inl h ↦ rw h (delete_removed_others projects rest w)
        | inr h ↦ rw h (
            laws.Others-trans (delete_project_metrics_others job.namespace job.name name w)
              (delete_removed_others projects rest _))
      ]

  -- ReconcileProjects replaces the list of projects by the reconciled one in one atomic write, made from
  -- the list that the store holds at that moment, whatever others write meanwhile and however often the
  -- metrics of the removed projects are deleted: the discovered projects in their order, each as it was
  -- stored or new and scheduled. A success has written; a conflict has not; another error may have.
  pub reconcile_projects-Outcome :
      (projects : List Text) (w : W)
      → let f = reconcile_projects c job projects w in
        Outcome laws job.name job.namespace (Reconciles projects) f.0 w f.1
  unfolding reconcile_projects edit
  reconcile_projects-Outcome projects w =
      retry_edit-Outcome laws job.name job.namespace (Reconciles projects)
        (λ j v.
          let set = crd_project_set j.status.projects in
          let v' = delete_removed c job projects set v in
          (some (with_projects j (reconciled (c.now v') set projects)), v'))
        (λ j v.
          let now = c.now (delete_removed c job projects (crd_project_set j.status.projects) v) in
          (now, written_projects j (reconciled-map now projects j.status.projects)))
        (λ j v. delete_removed_others projects (crd_project_set j.status.projects) v) w

  config_write :
      (j : RenovateJob) (o : Option (List ProjectStatus))
      → write_config_status c j o ≡ write c j (Option.map (with_projects j) o)
  unfolding write_config_status write
  config_write j none = refl
  config_write j (some projects) = refl

  -- UpdateProjectConfigStatus sets the result of the first project of the name in one atomic write, made
  -- from the list that the store holds at that moment, and writes nothing if there is none. A conflict
  -- has written nothing; another error may have.
  pub update_project_config_status-Outcome :
      (project : Text) (status : Option Text) (w : W)
      → let f = update_project_config_status c project job status w in
        Outcome laws job.name job.namespace (SetsConfig project status) f.0 w f.1
  unfolding update_project_config_status edit
  update_project_config_status-Outcome project status w =
      let new = λ (j : RenovateJob). set_config_status project status j.status.projects in
      subst
        (λ k.
          Outcome laws job.name job.namespace (SetsConfig project status)
            (c.retry_on_conflict (c.get job.name job.namespace >>= k) w).0 w
            (c.retry_on_conflict (c.get job.name job.namespace >>= k) w).1)
        (sym (fun_ext λ j. config_write j (new j)))
        (retry_edit-Outcome laws job.name job.namespace (SetsConfig project status)
          (λ j v. (Option.map (with_projects j) (new j), v)) (λ j v. refl)
          (λ j v. laws.Others-refl v) w)

  -- UpdateExecutionOptions replaces the execution options in one atomic write that keeps the projects
  -- which the store holds at that moment. A success has written; a conflict has not; another error may
  -- have.
  pub update_execution_options-Outcome :
      (options : Option RenovateExecutionOptions) (w : W)
      → let f = update_execution_options c job options w in
        Outcome laws job.name job.namespace (SetsOptions options) f.0 w f.1
  unfolding update_execution_options edit
  update_execution_options-Outcome options w =
      retry_edit-Outcome laws job.name job.namespace (SetsOptions options)
        (λ j v. (some (record j.status { execution_options = options }), v)) (λ j v. refl)
        (λ j v. laws.Others-refl v) w
