-- ===== src/Project/Updates.antt =====
-- What a status update of src/internal/utils/projectStatus.go does to the other fields of a project.
use mogenius_renovate_operat.Prelude.{◌≡◌, ◌≢◌, ◌⊎◌, arith}
use mogenius_renovate_operat.Prelude.Int.{pos, ◌≤ℤ◌}
use mogenius_renovate_operat.Api.{Time, scheduled, running, ProjectStatus, RenovateStatusUpdate}
use mogenius_renovate_operat.Project.{get_update_status_for_project}

-- Applying one update twice, at whatever times, is the same as applying it once.
pub update_idem :
    (now later : Time) (p : ProjectStatus) (u : RenovateStatusUpdate)
    → get_update_status_for_project later (get_update_status_for_project now p u) u
      ≡ get_update_status_for_project now p u
unfolding get_update_status_for_project
update_idem now later p u = ground arith

-- No update changes a project's name.
pub name-update :
    (now : Time) (p : ProjectStatus) (u : RenovateStatusUpdate)
    → (get_update_status_for_project now p u).name ≡ p.name
unfolding get_update_status_for_project
name-update now p u = ground arith

-- The time of the last run is set, and to the present, exactly when a running project ends;
-- otherwise it is kept.
pub last_run-update :
    (now : Time) (p : ProjectStatus) (u : RenovateStatusUpdate)
    → let p' = get_update_status_for_project now p u in
      ((p.status ≡ running) × (p'.status ≢ running) × (p'.last_run ≡ now))
      ⊎ (((p.status ≢ running) ⊎ (p'.status ≡ running)) × (p'.last_run ≡ p.last_run))
unfolding get_update_status_for_project
last_run-update now p u = ground arith

-- A request to schedule a project that is not running lowers neither its own priority nor the
-- priority that the project had; on a running project it leaves status and priority alone.
pub schedule_priority :
    (now : Time) (p : ProjectStatus) (u : RenovateStatusUpdate)
    → u.status ≡ scheduled
    → let p' = get_update_status_for_project now p u in
      (p.status ≢ running
        → (p'.status ≡ scheduled) × (p.priority ≤ℤ p'.priority) × (u.priority ≤ℤ p'.priority))
      × (p.status ≡ running → (p'.status ≡ running) × (p'.priority ≡ p.priority))
unfolding get_update_status_for_project
schedule_priority now p u h = ground arith

-- A running project has no priority left.
abbrev pub IsSettled : ProjectStatus → Type 0
IsSettled p = p.status ≡ running → p.priority ≡ pos 0

pub update-IsSettled :
    (now : Time) (p : ProjectStatus) (u : RenovateStatusUpdate)
    → IsSettled p
    → IsSettled (get_update_status_for_project now p u)
unfolding get_update_status_for_project
update-IsSettled now p u h = ground arith
