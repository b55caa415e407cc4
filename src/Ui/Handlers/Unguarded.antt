-- ===== src/Ui/Handlers/Unguarded.antt =====
-- The handlers of src/ui/renovateController.go that change a job without asking for access.
use mogenius_renovate_operat.Prelude.{
  ℕ, ◌≡◌, refl, ◌⊎◌, inl, inr, Bool, not, ◌&&◌, ◌||◌, Option, none, some, [], arith, Bool-cases,
}
use mogenius_renovate_operat.Prelude.Text.{Text, text, ◌==◌}
use mogenius_renovate_operat.Api.{
  status_eq, scheduled, running, ProjectStatus, RenovateJob, RenovateJobStatus,
}
use mogenius_renovate_operat.Kube.{Result, Client}
use mogenius_renovate_operat.Kube.Laws.{ClientLaws}
use mogenius_renovate_operat.Manager.Edit.{Committed, Outcome}
use mogenius_renovate_operat.Manager.Outcomes.{
  SetsMatching, SetsOptions, update_project_status_batched-Outcome,
  update_execution_options-Outcome,
}
use mogenius_renovate_operat.Http.{Request, Reply, answered, status_bad_request}
use mogenius_renovate_operat.Webhook.Scheduled.{nothing_written}
use mogenius_renovate_operat.Ui.Access.{SessionData}
use mogenius_renovate_operat.Ui.Handlers.{
  Params, OptionParams, Server, get_renovate_json_body, reply_with, is_idle, run_for_all_projects,
  run_renovate_for_all_projects, set_options, set_execution_options,
}
use mogenius_renovate_operat.Ui.Handlers.Written.{
  named_job, request_to_run, reply_with-success, Outcome-success, Outcome-frame,
}

-- A project that neither runs nor is to run.
abbrev pub is_at_rest : ProjectStatus → Bool
is_at_rest p = not (status_eq p.status running) && not (status_eq p.status scheduled)

module _ (unicode_lower : ℕ → ℕ) {W : Type 0} {c : Client W} (laws : ClientLaws c) (s : Server)
    (session : Option SessionData) (w : W) where
  -- What a handler leaves that makes one write under any session: nothing, or the write, which an answer
  -- of success has made.
  pub record Ungated (name namespace : Text)
      (Spec : RenovateJob → Option RenovateJobStatus → Type 0) (message : Text)
      (out : Option SessionData → Reply × W) : Type 0 where
    pub frame : laws.Others w (out session).1 ⊎ Committed laws name namespace Spec w (out session).1
    pub success :
        (out session).0 ≡ answered 200 message
        → Committed laws name namespace Spec w (out session).1
    pub any_session : (other_session : Option SessionData) → out other_session ≡ out session

  written-Ungated :
      (name namespace message failure : Text)
      (Spec : RenovateJob → Option RenovateJobStatus → Type 0)
      → ((j : RenovateJob) → Spec j none → ⊥)
      → (r : Result (Unit {0})) (w' : W) → Outcome laws name namespace Spec r w w'
      → Ungated name namespace Spec message (λ any. (reply_with message failure r, w'))
  written-Ungated name namespace message failure Spec never r w' outcome = record {
    frame = Outcome-frame laws name namespace Spec never outcome;
    success = λ h.
        Outcome-success laws name namespace Spec never outcome
          (reply_with-success message failure r h);
    any_session = λ any. refl;
  }

  ignored-Ungated :
      (name namespace message refusal : Text)
      (Spec : RenovateJob → Option RenovateJobStatus → Type 0)
      → Ungated name namespace Spec message (λ any. (answered status_bad_request refusal, w))
  ignored-Ungated name namespace message refusal Spec = record {
    frame = inl (laws.Others-refl w);
    success = λ h. ground (arith, h);
    any_session = λ any. refl;
  }

  run_for_all_projects-Ungated :
      (params : Params)
      → Ungated params.name params.namespace
          (SetsMatching is_at_rest request_to_run)
          (text "All projects triggered")
          (λ any. run_for_all_projects unicode_lower c s any (some params) w)
  unfolding run_for_all_projects is_idle
  run_for_all_projects-Ungated params =
      elim (Bool-cases ((params.name == []) || (params.namespace == []))) [
        | inl e ↦ rw e (
            ignored-Ungated params.name params.namespace (text "All projects triggered")
              (text "Missing parameters") (SetsMatching is_at_rest request_to_run))
        | inr e ↦ rw e (
            written-Ungated params.name params.namespace (text "All projects triggered")
              (text "failed to trigger all projects") (SetsMatching is_at_rest request_to_run)
              (λ j h. nothing_written h.1) _ _
              (update_project_status_batched-Outcome laws (named_job params.name params.namespace)
                is_idle request_to_run w))
      ]

  -- runRenovateForAllProjects asks for no access: it does the same for every session, and for none. It
  -- changes nothing, or one write has given, through the state machine, the update to scheduled with
  -- priority 2 to all projects at rest of the job that the body names, from the state that the store had
  -- then, and to no other project; an answer of success has made it.
  pub run_renovate_for_all_projects-unguarded :
      (decode_json : Option Text → Option Params) (parse_form : Request → Option Params)
      (r : Request) (params : Params)
      → get_renovate_json_body decode_json parse_form r ≡ some params
      → Ungated params.name params.namespace
          (SetsMatching is_at_rest request_to_run)
          (text "All projects triggered")
          (λ any. run_renovate_for_all_projects unicode_lower c s decode_json parse_form any r w)
  unfolding run_renovate_for_all_projects
  run_renovate_for_all_projects-unguarded decode_json parse_form r params h =
      rw h (run_for_all_projects-Ungated params)

  set_options-Ungated :
      (params : OptionParams)
      → Ungated params.renovate_job params.namespace
          (SetsOptions (some (record { debug = params.debug })))
          (text "execution options updated")
          (λ any. set_options unicode_lower c s any (some params) w)
  unfolding set_options
  set_options-Ungated params =
      let Spec = SetsOptions (some (record { debug = params.debug })) in
      elim (Bool-cases ((params.renovate_job == []) || (params.namespace == []))) [
        | inl e ↦ rw e (
            ignored-Ungated params.renovate_job params.namespace (text "execution options updated")
              (text "missing parameters") Spec)
        | inr e ↦ rw e (
            written-Ungated params.renovate_job params.namespace (text "execution options updated")
              (text "failed to update execution options") Spec (λ j h. nothing_written h) _ _
              (update_execution_options-Outcome laws
                (named_job params.renovate_job params.namespace)
                (some (record { debug = params.debug })) w))
      ]

  -- updateExecutionOptions asks for no access: it does the same for every session, and for none. It
  -- changes nothing, or one write has set the execution options of the job that the body names to those
  -- of the body, keeping the projects that the store had then; an answer of success has made it.
  pub set_execution_options-unguarded :
      (decode_json : Option Text → Option OptionParams) (r : Request) (params : OptionParams)
      → decode_json r.body ≡ some params
      → Ungated params.renovate_job params.namespace
          (SetsOptions (some (record { debug = params.debug })))
          (text "execution options updated")
          (λ any. set_execution_options unicode_lower c s decode_json any r w)
  unfolding set_execution_options
  set_execution_options-unguarded decode_json r params h = rw h (set_options-Ungated params)
