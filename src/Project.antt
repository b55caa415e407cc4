-- ===== src/Project.antt =====
-- The life of one project: src/internal/utils/projectStatus.go. The functions of the source write
-- through the pointer that they are given and return it; here they return the new value. `now` is
-- what v1.Now() returns during the call.
pub mod Machine
pub mod Updates
use mogenius_renovate_operat.Prelude.{Bool, not, Option, none, some, if◌then◌else◌}
use mogenius_renovate_operat.Prelude.Text.{Text}
use mogenius_renovate_operat.Prelude.Int.{pos, ltb_ℤ}
use mogenius_renovate_operat.Api.{
  Time, RenovateProjectStatus, scheduled, running, completed, failed, other, status_eq,
  ProjectStatus, RenovateStatusUpdate,
}

update_renovate_result_status : ProjectStatus → Option Text → ProjectStatus
update_renovate_result_status p none = p
update_renovate_result_status p (some s) = record p { renovate_result_status = some s }

validate_project_status_scheduled : ProjectStatus → RenovateStatusUpdate → ProjectStatus
unfolding update_renovate_result_status
validate_project_status_scheduled p desired =
    update_renovate_result_status
      (if not (status_eq p.status running)
        then record p {
          status = scheduled;
          priority = if ltb_ℤ p.priority desired.priority then desired.priority else p.priority;
        }
        else p)
      desired.renovate_result_status

validate_project_status_running : ProjectStatus → RenovateStatusUpdate → ProjectStatus
unfolding update_renovate_result_status
validate_project_status_running p desired =
    let p' : ProjectStatus =
      if status_eq p.status scheduled then record p { status = running; priority = pos 0 } else p in
    update_renovate_result_status (record p' { duration = none }) desired.renovate_result_status

validate_project_status_completed : Time → ProjectStatus → RenovateStatusUpdate → ProjectStatus
unfolding update_renovate_result_status
validate_project_status_completed now p desired =
    let p' : ProjectStatus =
      if status_eq p.status running
      then record p { status = completed; priority = pos 0; last_run = now }
      else p in
    update_renovate_result_status (record p' { duration = desired.duration })
      desired.renovate_result_status

validate_project_status_failed : Time → ProjectStatus → RenovateStatusUpdate → ProjectStatus
unfolding update_renovate_result_status
validate_project_status_failed now p desired =
    let p' : ProjectStatus =
      if status_eq p.status running
      then record p { status = failed; priority = pos 0; last_run = now }
      else p in
    update_renovate_result_status (record p' { duration = desired.duration })
      desired.renovate_result_status

-- the `switch` on the desired status
dispatch : RenovateProjectStatus → Time → ProjectStatus → RenovateStatusUpdate → ProjectStatus
unfolding validate_project_status_scheduled validate_project_status_running
    validate_project_status_completed validate_project_status_failed
dispatch scheduled now p desired = validate_project_status_scheduled p desired
dispatch running now p desired = validate_project_status_running p desired
dispatch completed now p desired = validate_project_status_completed now p desired
dispatch failed now p desired = validate_project_status_failed now p desired
dispatch (other s) now p desired = p

unfoldable pub get_update_status_for_project :
    Time → ProjectStatus → RenovateStatusUpdate → ProjectStatus
unfolding dispatch
get_update_status_for_project now p desired = dispatch desired.status now p desired
