-- ===== src/Examples/Projects.antt =====
-- Runs of the status updates and of the loops over the list of projects.
use mogenius_renovate_operat.Prelude.{◌≡◌, refl, ◌∷◌, [], map, All}
use mogenius_renovate_operat.Prelude.Text.{text}
use mogenius_renovate_operat.Project.{get_update_status_for_project}
use mogenius_renovate_operat.Project.Machine.{◌⟶◌, update_exact}
use mogenius_renovate_operat.Project.Updates.{IsSettled}
use mogenius_renovate_operat.Manager.Lists.{set_project_status, crd_project_set, reconciled}
use mogenius_renovate_operat.Manager.Reconcile.{
  last_named, kept_or_scheduled, reconciled-map, writers-IsSettled,
}
use mogenius_renovate_operat.Examples.Data.{api_project, web_project, schedule_now}

update_exact_example :
    (web_project.status ⟶ schedule_now.status
      → (get_update_status_for_project 9 web_project schedule_now).status ≡ schedule_now.status)
    × (¬ (web_project.status ⟶ schedule_now.status)
        → (get_update_status_for_project 9 web_project schedule_now).status ≡ web_project.status)
update_exact_example = update_exact 9 web_project schedule_now

reconciled-map_example :
    reconciled 9 (crd_project_set (api_project ∷ [])) (text "new" ∷ text "org/api" ∷ [])
    ≡ map
        (λ project. kept_or_scheduled 9 project (last_named project (api_project ∷ [])))
        (text "new" ∷ text "org/api" ∷ [])
reconciled-map_example = reconciled-map 9 (text "new" ∷ text "org/api" ∷ []) (api_project ∷ [])

writers-IsSettled_example :
    All IsSettled (set_project_status 9 (text "org/web") schedule_now (api_project ∷ []))
writers-IsSettled_example =
    (writers-IsSettled 9 (api_project ∷ []) ((λ h. refl), tt)).0 (text "org/web") schedule_now
      (λ h. cc)
