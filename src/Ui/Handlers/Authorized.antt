-- ===== src/Ui/Handlers/Authorized.antt =====
-- How runRenovateForProject of src/ui/renovateController.go respects the groups of a job.
use mogenius_renovate_operat.Prelude.{
  ℕ, ◌≡◌, refl, sym, ap, ◌∙◌, ◌⊎◌, inl, inr, Bool, true, false, not, ◌&&◌, Option, none, some, List,
  [], arith, if◌then◌else◌, Bool-cases,
}
use mogenius_renovate_operat.Prelude.Text.{Text, text, ◌==◌, eq_refl}
use mogenius_renovate_operat.Api.{ProjectStatus, RenovateJob}
use mogenius_renovate_operat.Kube.{Error, ok, err, Client}
use mogenius_renovate_operat.Kube.Laws.{ClientLaws}
use mogenius_renovate_operat.Manager.{update_project_status}
use mogenius_renovate_operat.Manager.Edit.{Committed}
use mogenius_renovate_operat.Manager.Atomic.{Result-cases, Committed-later}
use mogenius_renovate_operat.Manager.Reconcile.{find_named, updated_or_appended, find_named-upsert}
use mogenius_renovate_operat.Manager.Outcomes.{SetsProject, update_project_status-Outcome}
use mogenius_renovate_operat.Http.{Request, Reply, answered, status_bad_request, status_forbidden}
use mogenius_renovate_operat.Webhook.Scheduled.{written_projects, nothing_written}
use mogenius_renovate_operat.Ui.Access.{SessionData, authorize_and_get_job}
use mogenius_renovate_operat.Ui.Access.Visible.{is_shown, authorize_and_get_job-is_shown}
use mogenius_renovate_operat.Ui.Handlers.{
  Params, Server, authorize_job_access, get_renovate_json_body, run_for_project,
  run_renovate_for_project, is_granted, reply_with,
}
use mogenius_renovate_operat.Ui.Handlers.Written.{
  named_job, request_to_run, true_not_false, reply_with-success, IsTriggered,
  updated_or_appended-IsTriggered, Outcome-success, Outcome-frame,
}

-- The parameters of runRenovateForProject that may not be empty.
abbrev pub is_complete : Params → Bool
is_complete params =
    not (params.name == []) && (not (params.namespace == []) && not (params.project == []))

module _ (unicode_lower : ℕ → ℕ) {W : Type 0} (c : Client W) (s : Server)
    (session : Option SessionData) (w : W) where
  -- The answer of the authorization, and the world that it leaves.
  abbrev access : Params → Bool × W
  access params = authorize_job_access unicode_lower c s session params.namespace params.name w

  run_for_project-incomplete :
      (params : Params)
      → is_complete params ≡ false
      → run_for_project unicode_lower c s session (some params) w
        ≡ (answered status_bad_request (text "Missing parameters"), w)
  unfolding run_for_project
  run_for_project-incomplete params e = ground arith

  run_for_project-denied :
      (params : Params)
      → is_complete params ≡ true
      → (access params).0 ≡ false
      → run_for_project unicode_lower c s session (some params) w
        ≡ (answered status_forbidden (text "forbidden"), (access params).1)
  unfolding run_for_project
  run_for_project-denied params e a = ground arith

  run_for_project-performed :
      (params : Params)
      → is_complete params ≡ true
      → (access params).0 ≡ true
      → let u =
          update_project_status c params.project
            (named_job params.name params.namespace)
            request_to_run
            (access params).1 in
        run_for_project unicode_lower c s session (some params) w ≡ (
          reply_with
              (text "Renovate job triggered for project")
              (text "failed to run Renovate for project")
              u.0,
          u.1,
        )
  unfolding run_for_project
  run_for_project-performed params e a = ground arith

module _ (unicode_lower : ℕ → ℕ) {W : Type 0} {c : Client W} (laws : ClientLaws c) (s : Server)
    (session : Option SessionData) (w : W) where
  authorize_others :
      (groups : List Text) (auth_enabled : Bool) (session : Option SessionData)
      (namespace name : Text)
      → laws.Others w
          (authorize_and_get_job unicode_lower groups c auth_enabled session namespace name w).1
  unfolding authorize_and_get_job
  authorize_others groups false session namespace name = laws.get_others name namespace w
  authorize_others groups true none namespace name = laws.Others-refl w
  authorize_others groups true (some session) namespace name = laws.get_others name namespace w

  access_others : (params : Params) → laws.Others w (access unicode_lower c s session w params).1
  unfolding authorize_job_access
  access_others params =
      authorize_others s.default_allowed_groups s.auth_enabled session params.namespace params.name

  -- The job that the parameters name was read and is shown to the session, and from `w` to `w'` its
  -- status was written once, from the very state that the store had then; in what was written the
  -- project runs or is scheduled with a priority of at least 2.
  pub record Ran (params : Params) (w' : W) : Type 0 where
    pub job : RenovateJob
    pub read : (c.get params.name params.namespace w).0 ≡ ok job
    pub shown : is_shown unicode_lower s.default_allowed_groups s.auth_enabled session job ≡ true
    pub commit :
        Committed laws params.name params.namespace (SetsProject params.project request_to_run) w w'
    pub entry : ProjectStatus
    pub found : find_named params.project commit.status.projects ≡ some entry
    pub is_triggered : IsTriggered entry

  granted_if :
      (b : Bool) (job : RenovateJob) (o : Option RenovateJob)
      → o ≡ (if b then some job else none)
      → is_granted o ≡ b
  granted_if true job o e = ap is_granted e
  granted_if false job o e = ap is_granted e

  -- The answer of the authorization is that of the list of jobs.
  access-shown :
      (params : Params) (job : RenovateJob)
      → (c.get params.name params.namespace w).0 ≡ ok job
      → (access unicode_lower c s session w params).0
        ≡ is_shown unicode_lower s.default_allowed_groups s.auth_enabled session job
  unfolding authorize_job_access
  access-shown params job h =
      granted_if (is_shown unicode_lower s.default_allowed_groups s.auth_enabled session job) job _
        ((authorize_and_get_job-is_shown unicode_lower s.default_allowed_groups c s.auth_enabled
            session params.namespace params.name w).0
          job h)

  access-unread :
      (params : Params) (e : Error)
      → (c.get params.name params.namespace w).0 ≡ err e
      → (access unicode_lower c s session w params).0 ≡ false
  unfolding authorize_job_access
  access-unread params e h = ap is_granted (
      (authorize_and_get_job-is_shown unicode_lower s.default_allowed_groups c s.auth_enabled
          session params.namespace params.name w).1
        e h)

  access-granted :
      (params : Params)
      → (access unicode_lower c s session w params).0 ≡ true
      → (job : RenovateJob) × ((c.get params.name params.namespace w).0 ≡ ok job)
        × (is_shown unicode_lower s.default_allowed_groups s.auth_enabled session job ≡ true)
  access-granted params h = elim (Result-cases (c.get params.name params.namespace w).0) [
    | inl (job, e) ↦ (job, e, sym (access-shown params job e) ∙ h)
    | inr (e, k) ↦ absurd (true_not_false (sym h ∙ access-unread params e k))
  ]

  access-hidden :
      (params : Params)
      → ((job : RenovateJob)
          → (c.get params.name params.namespace w).0 ≡ ok job
          → is_shown unicode_lower s.default_allowed_groups s.auth_enabled session job ≡ false)
      → (access unicode_lower c s session w params).0 ≡ false
  access-hidden params h = elim (Result-cases (c.get params.name params.namespace w).0) [
    | inl (job, e) ↦ access-shown params job e ∙ h job e
    | inr (e, k) ↦ access-unread params e k
  ]

  Committed-Ran :
      (params : Params) (w' : W)
      → (access unicode_lower c s session w params).0 ≡ true
      → Committed laws params.name params.namespace (SetsProject params.project request_to_run) w w'
      → Ran params w'
  Committed-Ran params w' granted k =
      let (job, read, shown) = access-granted params granted in
      let (now, e) = k.by_spec in
      let old = k.job.status.projects in
      record {
        job = job;
        read = read;
        shown = shown;
        commit = k;
        entry =
            updated_or_appended now params.project request_to_run (find_named params.project old);
        found =
            ap (find_named params.project) (written_projects _ _ e)
            ∙ (find_named-upsert now params.project params.project request_to_run old
                ∙ rw (eq_refl params.project) refl);
        is_triggered =
            updated_or_appended-IsTriggered now params.project (find_named params.project old);
      }

  -- What runRenovateForProject may do with the parameters.
  pub record Guarded (params : Params) (out : Reply × W) : Type 0 where
    pub frame : laws.Others w out.1 ⊎ Ran params out.1
    pub success :
        out.0 ≡ answered 200 (text "Renovate job triggered for project") → Ran params out.1
    pub denied :
        is_complete params ≡ true
        → ((job : RenovateJob)
            → (c.get params.name params.namespace w).0 ≡ ok job
            → is_shown unicode_lower s.default_allowed_groups s.auth_enabled session job ≡ false)
        → out.0 ≡ answered status_forbidden (text "forbidden")

  performed-Guarded :
      (params : Params)
      → is_complete params ≡ true
      → (access unicode_lower c s session w params).0 ≡ true
      → Guarded params (run_for_project unicode_lower c s session (some params) w)
  performed-Guarded params e a =
      let start = (access unicode_lower c s session w params).1 in
      let job = named_job params.name params.namespace in
      let outcome = update_project_status-Outcome laws job params.project request_to_run start in
      let Spec = SetsProject params.project request_to_run in
      let never = λ (j : RenovateJob) (h : Spec j none). nothing_written h.1 in
      let from_w = Committed-later laws params.name params.namespace Spec (access_others params) in
      rw (run_for_project-performed unicode_lower c s session w params e a) (record {
        frame = elim (Outcome-frame laws params.name params.namespace Spec never outcome) [
          | inl o ↦ inl (laws.Others-trans (access_others params) o)
          | inr k ↦ inr (Committed-Ran params _ a (from_w k))
        ];
        success = λ h. Committed-Ran params _ a (
            from_w (
              Outcome-success laws params.name params.namespace Spec never outcome
                (reply_with-success _ _ _ h)));
        denied = λ complete hidden. absurd (true_not_false (sym a ∙ access-hidden params hidden));
      })

  run_for_project-Guarded :
      (params : Params) → Guarded params (run_for_project unicode_lower c s session (some params) w)
  run_for_project-Guarded params = elim (Bool-cases (is_complete params)) [
    | inr e ↦ rw (run_for_project-incomplete unicode_lower c s session w params e) (record {
      frame = inl (laws.Others-refl w);
      success = λ h. ground (arith, h);
      denied = λ complete hidden. absurd (true_not_false (sym complete ∙ e));
    })
    | inl e ↦ elim (Bool-cases (access unicode_lower c s session w params).0) [
      | inr a ↦ rw (run_for_project-denied unicode_lower c s session w params e a) (record {
        frame = inl (access_others params);
        success = λ h. ground (arith, h);
        denied = λ complete hidden. refl;
      })
      | inl a ↦ performed-Guarded params e a
    ]
  ]

  -- runRenovateForProject changes nothing, or it has run the project: the job that the body names was
  -- read and is shown to the session, and its status was written once, from the state that the store had
  -- then, and in what was written the project runs or is scheduled with a priority of at least 2. A
  -- request that is answered as triggered has run it, and one that names a job, its namespace and a
  -- project is answered 403 if no job is read that is shown to the session.
  pub run_renovate_for_project-Guarded :
      (decode_json : Option Text → Option Params) (parse_form : Request → Option Params)
      (r : Request) (params : Params)
      → get_renovate_json_body decode_json parse_form r ≡ some params
      → Guarded params
          (run_renovate_for_project unicode_lower c s decode_json parse_form session r w)
  unfolding run_renovate_for_project
  run_renovate_for_project-Guarded decode_json parse_form r params h =
      rw h (run_for_project-Guarded params)
