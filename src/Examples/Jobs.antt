-- ===== src/Examples/Jobs.antt =====
-- Runs of the manager's writers on the small cluster.
use mogenius_renovate_operat.Prelude.{◌≡◌, refl, ◌∷◌, [], true, ◌++◌, map}
use mogenius_renovate_operat.Prelude.Text.{text, ◌==◌, contains, split}
use mogenius_renovate_operat.Prelude.Assoc.{lookup}
use mogenius_renovate_operat.Manager.{
  update_project_status, update_project_status_batched, reconcile_projects,
}
use mogenius_renovate_operat.Manager.Edit.{Outcome}
use mogenius_renovate_operat.Manager.Outcomes.{
  SetsProject, SetsMatching, Reconciles, update_project_status-Outcome,
  update_project_status_batched-Outcome, reconcile_projects-Outcome,
}
use mogenius_renovate_operat.Manager.Tokens.{compute_hmac256, any_signs, is_webhook_signature_valid}
use mogenius_renovate_operat.Manager.Tokens.Valid.{
  Accepted, signature-Accepted, trailing_comma_signs,
}
use mogenius_renovate_operat.Examples.{cluster_client, cluster_laws}
use mogenius_renovate_operat.Examples.Data.{demo, demo_id, schedule_now}

update_project_status-Outcome_example :
    let f = update_project_status cluster_client (text "org/web") demo_id schedule_now demo in
    Outcome cluster_laws
      (text "demo")
      (text "ops")
      (SetsProject (text "org/web") schedule_now)
      f.0
      demo
      f.1
update_project_status-Outcome_example =
    update_project_status-Outcome cluster_laws demo_id (text "org/web") schedule_now demo

update_project_status_batched-Outcome_example :
    let f = update_project_status_batched cluster_client (λ p. true) demo_id schedule_now demo in
    Outcome cluster_laws
      (text "demo")
      (text "ops")
      (SetsMatching (λ p. true) schedule_now)
      f.0
      demo
      f.1
update_project_status_batched-Outcome_example =
    update_project_status_batched-Outcome cluster_laws demo_id (λ p. true) schedule_now demo

reconcile_projects-Outcome_example :
    let f = reconcile_projects cluster_client demo_id (text "new" ∷ []) demo in
    Outcome cluster_laws (text "demo") (text "ops") (Reconciles (text "new" ∷ [])) f.0 demo f.1
reconcile_projects-Outcome_example =
    reconcile_projects-Outcome cluster_laws demo_id (text "new" ∷ []) demo

signature-Accepted_example :
    Accepted cluster_client demo_id
      (λ tokens.
        contains
          (map (λ token. text "sha256=" ++ (token ++ text "body")) tokens)
          (text "sha256=redbody"))
      demo
unfolding cluster_client is_webhook_signature_valid split contains compute_hmac256 ◌==◌ lookup
signature-Accepted_example =
    signature-Accepted cluster_client demo_id demo (λ m k. k ++ m) (text "sha256=redbody")
      (text "body") refl

trailing_comma_signs_example :
    any_signs
      (λ m k. k ++ m)
      (compute_hmac256 (λ m k. k ++ m) (text "body") [])
      (text "body")
      (split b',' (text "red" ++ b',' ∷ []))
    ≡ true
trailing_comma_signs_example = trailing_comma_signs (λ m k. k ++ m) (text "body") (text "red")
