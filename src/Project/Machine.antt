-- ===== src/Project/Machine.antt =====
-- The state machine that the status updates of src/internal/utils/projectStatus.go implement.
use mogenius_renovate_operat.Prelude.{◌≡◌, ◌≢◌, arith}
use mogenius_renovate_operat.Api.{
  Time, RenovateProjectStatus, scheduled, running, completed, failed, ProjectStatus,
  RenovateStatusUpdate,
}
use mogenius_renovate_operat.Project.{get_update_status_for_project}

-- One move of a project: to be scheduled unless it runs, to be started, to end, or to stay.
infix 40 ◌⟶◌
pub data ◌⟶◌ (s t : RenovateProjectStatus) : Type 0 where
  stay : s ≡ t → s ⟶ t
  enqueue : s ≢ running → t ≡ scheduled → s ⟶ t
  start : s ≡ scheduled → t ≡ running → s ⟶ t
  complete : s ≡ running → t ≡ completed → s ⟶ t
  fail : s ≡ running → t ≡ failed → s ⟶ t

ruleset moves = (stay, enqueue, start, complete, fail)

-- Whatever update is asked for, the status moves along an edge of the diagram.
pub update-⟶ :
    (now : Time) (p : ProjectStatus) (u : RenovateStatusUpdate)
    → p.status ⟶ (get_update_status_for_project now p u).status
unfolding get_update_status_for_project
update-⟶ now p u = grind (arith, moves)

update_along :
    (now : Time) (p : ProjectStatus) (u : RenovateStatusUpdate)
    → p.status ⟶ u.status
    → (get_update_status_for_project now p u).status ≡ u.status
unfolding get_update_status_for_project
update_along now p u (stay h) = ground arith
update_along now p u (enqueue h k) = ground arith
update_along now p u (start h k) = ground arith
update_along now p u (complete h k) = ground arith
update_along now p u (fail h k) = ground arith

update_against :
    (now : Time) (p : ProjectStatus) (u : RenovateStatusUpdate)
    → ¬ (p.status ⟶ u.status)
    → (get_update_status_for_project now p u).status ≡ p.status
unfolding get_update_status_for_project
update_against now p u h = grind (arith, moves)

-- An update reaches the status that it asks for exactly if that is one move away: a project that does
-- not run may be scheduled, a scheduled one started, a running one may complete or fail, and any may
-- stay. Any other update leaves the status alone.
pub update_exact :
    (now : Time) (p : ProjectStatus) (u : RenovateStatusUpdate)
    → (p.status ⟶ u.status → (get_update_status_for_project now p u).status ≡ u.status)
      × (¬ (p.status ⟶ u.status) → (get_update_status_for_project now p u).status ≡ p.status)
update_exact now p u = (update_along now p u, update_against now p u)
