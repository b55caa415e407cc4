-- ===== src/Webhook/Scheduled.antt =====
-- What an accepted webhook of src/webhook has done to the stored job, through the manager and the state
-- machine of a project.
use mathlib.Core.Path.{subst}
use mogenius_renovate_operat.Prelude.{
  ◌≡◌, ◌≢◌, refl, sym, ap, ◌∙◌, ◌⊎◌, inl, inr, Bool, Option, none, some, arith,
}
use mogenius_renovate_operat.Prelude.Text.{Text, eq_refl}
use mogenius_renovate_operat.Prelude.Int.{pos, ◌≤ℤ◌}
use mogenius_renovate_operat.Api.{
  Time, scheduled, running, completed, failed, other, ProjectStatus, RenovateJobStatus,
  RenovateProjectStatus,
}
use mogenius_renovate_operat.Kube.{Result, ok, Client}
use mogenius_renovate_operat.Kube.Laws.{ClientLaws}
use mogenius_renovate_operat.Project.{get_update_status_for_project}
use mogenius_renovate_operat.Project.Updates.{schedule_priority}
use mogenius_renovate_operat.Manager.Edit.{Committed, Outcome, wrote, skipped, refused}
use mogenius_renovate_operat.Manager.Outcomes.{SetsProject, update_project_status-Outcome}
use mogenius_renovate_operat.Manager.Reconcile.{find_named, updated_or_appended, find_named-upsert}
use mogenius_renovate_operat.Http.{Request, Reply}
use mogenius_renovate_operat.Webhook.Events.{GitHubEvent, GitLabEvent, ForgejoEvent}
use mogenius_renovate_operat.Webhook.Handlers.{
  webhook_update, github_webhook, gitlab_webhook, forgejo_webhook,
}
use mogenius_renovate_operat.Webhook.Effects.{
  Triggers, queried_job, scheduled_reply, webhook_call, github_webhook-Triggers,
  gitlab_webhook-Triggers, forgejo_webhook-Triggers,
}

-- A project that the executor is to run, or that runs already.
abbrev pub IsDue : ProjectStatus → Type 0
IsDue p = (p.status ≡ running) ⊎ ((p.status ≡ scheduled) × (pos 1 ≤ℤ p.priority))

pub running_or_not : (s : RenovateProjectStatus) → (s ≡ running) ⊎ (s ≢ running)
running_or_not scheduled = inr (λ h. cc)
running_or_not running = inl refl
running_or_not completed = inr (λ h. cc)
running_or_not failed = inr (λ h. cc)
running_or_not (other s) = inr (λ h. cc)

pub written_projects : (s t : RenovateJobStatus) → some s ≡ some t → s.projects ≡ t.projects
written_projects s t h = let q : s ≡ t = cc in ap (λ (z : RenovateJobStatus). z.projects) q

pub nothing_written : {A : Type 0} {t : A} → none ≡ some t → ⊥
nothing_written h = cc

updated-IsDue :
    (now : Time) (p : ProjectStatus) → IsDue (get_update_status_for_project now p webhook_update)
updated-IsDue now p =
    let s = schedule_priority now p webhook_update refl in
    elim (running_or_not p.status) [ inl h ↦ inl (s.1 h).0 | inr h ↦ inr ((s.0 h).0, (s.0 h).2) ]

updated_or_appended-IsDue :
    (now : Time) (project : Text) (o : Option ProjectStatus)
    → IsDue (updated_or_appended now project webhook_update o)
updated_or_appended-IsDue now project none = inr (refl, ground arith)
updated_or_appended-IsDue now project (some p) = updated-IsDue now p

module _ {W : Type 0} {c : Client W} (laws : ClientLaws c) (r : Request) (project : Text) where
  -- From `w` to `w'` the status of the job that the query names was written once, from the very state
  -- that the store had then, and the project is due in what was written.
  pub record Scheduled (w w' : W) : Type 0 where
    pub commit :
        Committed laws
          (queried_job r).name
          (queried_job r).namespace
          (SetsProject project webhook_update)
          w
          w'
    pub entry : ProjectStatus
    pub found : find_named project commit.status.projects ≡ some entry
    pub is_due : IsDue entry

  Committed-Scheduled :
      (w w' : W)
      → Committed laws
          (queried_job r).name
          (queried_job r).namespace
          (SetsProject project webhook_update)
          w
          w'
      → Scheduled w w'
  Committed-Scheduled w w' k =
      let (now, e) = k.by_spec in
      let old = k.job.status.projects in
      record {
        commit = k;
        entry = updated_or_appended now project webhook_update (find_named project old);
        found =
            ap (find_named project) (written_projects _ _ e)
            ∙ (find_named-upsert now project project webhook_update old
                ∙ rw (eq_refl project) refl);
        is_due = updated_or_appended-IsDue now project (find_named project old);
      }

  Outcome-Scheduled :
      (w w' : W) (u : Result (Unit {0}))
      → u ≡ ok tt
      → Outcome laws
          (queried_job r).name
          (queried_job r).namespace
          (SetsProject project webhook_update)
          u
          w
          w'
      → Scheduled w w'
  Outcome-Scheduled w w' u e (wrote n k) = Committed-Scheduled w w' k
  Outcome-Scheduled w w' u e (skipped n k) = absurd (nothing_written k.by_spec.1)
  Outcome-Scheduled w w' u e (refused n k) = absurd (n e)

  Triggers-Scheduled :
      (due : Bool) (w : W) (out : Reply × W)
      → Triggers scheduled_reply due (webhook_call c project r w) w out
      → out.0 ≡ scheduled_reply
      → Scheduled w out.1
  Triggers-Scheduled due w out t h =
      let (d, done, e) = t.done h in
      subst (λ v. Scheduled w v) (sym e)
        (Outcome-Scheduled w (webhook_call c project r w).1 (webhook_call c project r w).0 done
          (update_project_status-Outcome laws (queried_job r) project webhook_update w))

module _ {W : Type 0} {c : Client W} (laws : ClientLaws c) (r : Request) (w : W) where
  -- When the GitHub handler answers that a run is scheduled, the status of the job that the query names
  -- has been written once since the request came, from the state that the store had at that moment, and
  -- in what was written the payload's repository runs or is scheduled with a priority of at least 1.
  pub github_webhook-Scheduled :
      (decode : Option Text → Option GitHubEvent) (payload : GitHubEvent)
      → decode r.body ≡ some payload
      → (github_webhook c decode r w).0 ≡ scheduled_reply
      → Scheduled laws r payload.repository.full_name w (github_webhook c decode r w).1
  github_webhook-Scheduled decode payload d h =
      Triggers-Scheduled laws r payload.repository.full_name _ w (github_webhook c decode r w)
        (github_webhook-Triggers c decode r w payload d) h

  -- When the GitLab handler answers that a run is scheduled, the status of the job that the query names
  -- has been written once since the request came, from the state that the store had at that moment, and
  -- in what was written the payload's project runs or is scheduled with a priority of at least 1.
  pub gitlab_webhook-Scheduled :
      (decode : Option Text → Option GitLabEvent) (payload : GitLabEvent)
      → decode r.body ≡ some payload
      → (gitlab_webhook c decode r w).0 ≡ scheduled_reply
      → Scheduled laws r payload.project.path_with_namespace w (gitlab_webhook c decode r w).1
  gitlab_webhook-Scheduled decode payload d h =
      Triggers-Scheduled laws r payload.project.path_with_namespace _ w
        (gitlab_webhook c decode r w) (gitlab_webhook-Triggers c decode r w payload d) h

  -- When the Forgejo handler answers that a run is scheduled, the status of the job that the query names
  -- has been written once since the request came, from the state that the store had at that moment, and
  -- in what was written the payload's repository runs or is scheduled with a priority of at least 1.
  pub forgejo_webhook-Scheduled :
      (decode : Option Text → Option ForgejoEvent) (payload : ForgejoEvent)
      → decode r.body ≡ some payload
      → (forgejo_webhook c decode r w).0 ≡ scheduled_reply
      → Scheduled laws r payload.repository.full_name w (forgejo_webhook c decode r w).1
  forgejo_webhook-Scheduled decode payload d h =
      Triggers-Scheduled laws r payload.repository.full_name _ w (forgejo_webhook c decode r w)
        (forgejo_webhook-Triggers c decode r w payload d) h
