-- ===== src/Ui/Handlers/Written.antt =====
-- The write behind a handler of src/ui/renovateController.go, and what its answer says of it.
use mogenius_renovate_operat.Prelude.{
  ◌≡◌, refl, ◌⊎◌, inl, inr, true, false, Option, none, some, arith,
}
use mogenius_renovate_operat.Prelude.Text.{Text}
use mogenius_renovate_operat.Prelude.Int.{pos, ◌≤ℤ◌}
use mogenius_renovate_operat.Api.{
  Time, scheduled, running, ProjectStatus, RenovateJob, RenovateJobStatus, RenovateStatusUpdate,
}
use mogenius_renovate_operat.Kube.{not_found, conflict, panic, other_error, Result, ok, err, Client}
use mogenius_renovate_operat.Kube.Laws.{ClientLaws}
use mogenius_renovate_operat.Project.{get_update_status_for_project}
use mogenius_renovate_operat.Project.Updates.{schedule_priority}
use mogenius_renovate_operat.Manager.{RenovateJobIdentifier}
use mogenius_renovate_operat.Manager.Edit.{Committed, Outcome, wrote, skipped, refused}
use mogenius_renovate_operat.Manager.Reconcile.{updated_or_appended}
use mogenius_renovate_operat.Http.{answered}
use mogenius_renovate_operat.Webhook.Scheduled.{running_or_not}
use mogenius_renovate_operat.Ui.Handlers.{reply_with}

-- The job that the parameters name.
abbrev pub named_job : Text → Text → RenovateJobIdentifier
named_job name namespace = record { name = name; namespace = namespace }

-- The update that the interface is to ask for.
abbrev pub request_to_run : RenovateStatusUpdate
request_to_run = record {
  status = scheduled;
  priority = pos 2;
  renovate_result_status = none;
  last_run = none;
  duration = none;
}

pub true_not_false : true ≡ false → ⊥
true_not_false h = cc

pub reply_with-success :
    (message failure : Text) (r : Result (Unit {0}))
    → reply_with message failure r ≡ answered 200 message
    → r ≡ ok tt
unfolding reply_with
reply_with-success message failure (ok u) h = refl
reply_with-success message failure (err panic) h = cc
reply_with-success message failure (err not_found) h = ground arith
reply_with-success message failure (err conflict) h = ground arith
reply_with-success message failure (err (other_error m)) h = ground arith

-- A project that runs, or is to run with the priority of the interface.
abbrev pub IsTriggered : ProjectStatus → Type 0
IsTriggered p = (p.status ≡ running) ⊎ ((p.status ≡ scheduled) × (pos 2 ≤ℤ p.priority))

updated-IsTriggered :
    (now : Time) (p : ProjectStatus)
    → IsTriggered (get_update_status_for_project now p request_to_run)
updated-IsTriggered now p =
    let s = schedule_priority now p request_to_run refl in
    elim (running_or_not p.status) [ inl h ↦ inl (s.1 h).0 | inr h ↦ inr ((s.0 h).0, (s.0 h).2) ]

pub updated_or_appended-IsTriggered :
    (now : Time) (project : Text) (o : Option ProjectStatus)
    → IsTriggered (updated_or_appended now project request_to_run o)
updated_or_appended-IsTriggered now project none = inr (refl, ground arith)
updated_or_appended-IsTriggered now project (some p) = updated-IsTriggered now p

module _ {W : Type 0} {c : Client W} (laws : ClientLaws c) (name namespace : Text)
    (Spec : RenovateJob → Option RenovateJobStatus → Type 0)
    (always : (j : RenovateJob) → Spec j none → ⊥) where
  pub Outcome-success :
      {r : Result (Unit {0})} {w w' : W}
      → Outcome laws name namespace Spec r w w'
      → r ≡ ok tt
      → Committed laws name namespace Spec w w'
  Outcome-success (wrote n k) e = k
  Outcome-success (skipped n k) e = absurd (always k.job k.by_spec)
  Outcome-success (refused n k) e = absurd (n e)

  pub Outcome-frame :
      {r : Result (Unit {0})} {w w' : W}
      → Outcome laws name namespace Spec r w w'
      → laws.Others w w' ⊎ Committed laws name namespace Spec w w'
  Outcome-frame (wrote n k) = inr k
  Outcome-frame (skipped n k) = absurd (always k.job k.by_spec)
  Outcome-frame (refused n k) = inl k
