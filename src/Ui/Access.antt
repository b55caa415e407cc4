-- ===== src/Ui/Access.antt =====
-- Who may see a job: the authorization of src/ui/renovateController.go. `auth_enabled` is
-- `s.auth != nil`, and `session` is what the request's context holds.
pub mod Visible
use mogenius_renovate_operat.Prelude.{
  ℕ, Bool, true, false, not, ◌||◌, Option, none, some, List, [], ◌∷◌, if◌then◌else◌, ltb, nat_eq,
  length,
}
use mogenius_renovate_operat.Prelude.Text.{Text, contains}
use mogenius_renovate_operat.Prelude.Int.{ℤ}
use mogenius_renovate_operat.Api.{RenovateJob}
use mogenius_renovate_operat.Kube.{Result, ok, err, Client}
use mogenius_renovate_operat.Manager.Reads.{get_renovate_job}
use mogenius_renovate_operat.Ui.Groups.{normalize_groups}

-- sessionData of src/ui/auth.go
pub record SessionData : Type 0 where
  pub email : Text
  pub name : Text
  pub expiry : ℤ
  pub access_token : Text
  pub groups : List Text

-- the loop over the longer list: whether one of its items is in the set
unfoldable pub some_in : List Text → List Text → Bool
some_in set [] = false
some_in set (item ∷ items) = if contains set item then true else some_in set items

-- The set is built from the shorter list.
unfoldable pub has_intersection : List Text → List Text → Bool
unfolding some_in
has_intersection a b =
    if nat_eq (length a) 0 || nat_eq (length b) 0
    then false
    else if ltb (length b) (length a)
    then some_in b a
    else some_in a b

module _ (unicode_lower : ℕ → ℕ) (default_allowed_groups : List Text) where
  unfoldable pub effective_allowed_groups : RenovateJob → List Text
  effective_allowed_groups job =
      let own = normalize_groups unicode_lower job.spec.allowed_groups in
      if nat_eq (length own) 0 then default_allowed_groups else own

  -- the loop of filterRenovateJobsByGroups
  unfoldable pub filter_loop : List Text → List RenovateJob → List RenovateJob
  unfolding effective_allowed_groups
  filter_loop user_groups [] = []
  filter_loop user_groups (job ∷ jobs) =
      let allowed_groups = effective_allowed_groups job in
      let rest = filter_loop user_groups jobs in
      if nat_eq (length allowed_groups) 0
      then job ∷ rest
      else if has_intersection user_groups allowed_groups
      then job ∷ rest
      else rest

  filter_for_session : List RenovateJob → Option SessionData → List RenovateJob
  unfolding filter_loop
  filter_for_session jobs none = []
  filter_for_session jobs (some session) = filter_loop session.groups jobs

  unfoldable pub filter_renovate_jobs_by_groups :
      List RenovateJob → Bool → Option SessionData → List RenovateJob
  unfolding filter_for_session
  filter_renovate_jobs_by_groups jobs auth_enabled session =
      if not auth_enabled then jobs else filter_for_session jobs session

  -- `none` for (nil, false)
  unfoldable pub found_job : Result RenovateJob → Option RenovateJob
  found_job (ok job) = some job
  found_job (err e) = none

  check_groups : List Text → Option RenovateJob → Option RenovateJob
  unfolding effective_allowed_groups
  check_groups user_groups none = none
  check_groups user_groups (some job) =
      let allowed_groups = effective_allowed_groups job in
      if nat_eq (length allowed_groups) 0
      then some job
      else if has_intersection user_groups allowed_groups
      then some job
      else none

  module _ {W : Type 0} (c : Client W) where
    authorize_session : Option SessionData → Text → Text → W → Option RenovateJob × W
    unfolding check_groups found_job get_renovate_job
    authorize_session none namespace job_name w = (none, w)
    authorize_session (some session) namespace job_name w =
        let (found, w') = get_renovate_job c job_name namespace w in
        (check_groups session.groups (found_job found), w')

    unfoldable pub authorize_and_get_job :
        Bool → Option SessionData → Text → Text → W → Option RenovateJob × W
    unfolding authorize_session
    authorize_and_get_job auth_enabled session namespace job_name w =
        if not auth_enabled
        then (let (found, w') = get_renovate_job c job_name namespace w in (found_job found, w'))
        else authorize_session session namespace job_name w
