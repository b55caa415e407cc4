-- ===== src/Ui/Access/Visible.antt =====
-- The list of jobs and the access to one job in src/ui/renovateController.go agree.
use mogenius_renovate_operat.Prelude.{
  ℕ, ◌≡◌, refl, Bool, true, false, ◌||◌, Option, none, some, List, [], ◌∷◌, if◌then◌else◌, nat_eq,
  length, arith, any,
}
use mogenius_renovate_operat.Prelude.Text.{Text, eq_iff, contains}
use mogenius_renovate_operat.Api.{RenovateJob}
use mogenius_renovate_operat.Kube.{Error, ok, err, Client}
use mogenius_renovate_operat.Ui.Access.{
  SessionData, some_in, has_intersection, effective_allowed_groups, authorize_and_get_job,
}

some_in-any : (set items : List Text) → some_in set items ≡ any (contains set) items
unfolding some_in
some_in-any set [] = refl
some_in-any set (x ∷ items) = ground (arith, some_in-any set items)

any_none : (items : List Text) → any (contains []) items ≡ false
unfolding contains
any_none [] = refl
any_none (x ∷ items) = any_none items

any-cons :
    (x : Text) (set items : List Text)
    → any (contains (x ∷ set)) items ≡ (contains items x || any (contains set) items)
unfolding contains
any-cons x set [] = refl
any-cons x set (y ∷ items) = ground (arith, any-cons x set items, eq_iff x y, eq_iff y x)

-- It does not matter from which of the two lists the set is built.
any_comm : (a b : List Text) → any (contains a) b ≡ any (contains b) a
any_comm [] b = any_none b
any_comm (x ∷ a) b = ground (arith, any-cons x a b, any_comm a b)

-- hasIntersection finds out whether the two lists have a group in common.
pub has_intersection-any : (a b : List Text) → has_intersection a b ≡ any (contains b) a
unfolding has_intersection
has_intersection-any [] b = ground arith
has_intersection-any (x ∷ a) [] = ground (arith, any_none (x ∷ a))
has_intersection-any (x ∷ a) (y ∷ b) =
    ground
      (arith, some_in-any (x ∷ a) (y ∷ b), some_in-any (y ∷ b) (x ∷ a), any_comm (x ∷ a) (y ∷ b))

module _ (unicode_lower : ℕ → ℕ) (default_allowed_groups : List Text) where
  -- Whether a session may see a job: the job has no groups, or one of them is the session's.
  abbrev pub is_visible : SessionData → RenovateJob → Bool
  is_visible session job =
      let allowed_groups = effective_allowed_groups unicode_lower default_allowed_groups job in
      nat_eq (length allowed_groups) 0 || any (contains allowed_groups) session.groups

  -- Whether the interface shows a job: always without authentication, never without a session.
  abbrev pub is_shown : Bool → Option SessionData → RenovateJob → Bool
  is_shown false session job = true
  is_shown true none job = false
  is_shown true (some session) job = is_visible session job

  module _ {W : Type 0} (c : Client W) where
    -- Access to a single job is granted exactly for the jobs that the list would show: with a stored
    -- job the answer is that job if it is shown and nothing if not, and without one it is nothing.
    pub authorize_and_get_job-is_shown :
        (auth_enabled : Bool) (session : Option SessionData) (namespace name : Text) (w : W)
        → ((job : RenovateJob)
            → (c.get name namespace w).0 ≡ ok job
            → (authorize_and_get_job unicode_lower default_allowed_groups c auth_enabled session
                namespace name w).0
              ≡ (if is_shown auth_enabled session job then some job else none))
          × ((e : Error)
              → (c.get name namespace w).0 ≡ err e
              → (authorize_and_get_job unicode_lower default_allowed_groups c auth_enabled session
                  namespace name w).0
                ≡ none)
    unfolding authorize_and_get_job
    authorize_and_get_job-is_shown false session namespace name w = (λ job h. rw (h), λ e h. rw (h))
    authorize_and_get_job-is_shown true none namespace name w = (λ job h. refl, λ e h. refl)
    authorize_and_get_job-is_shown true (some session) namespace name w = (
      λ job h. ground (
        arith,
        has_intersection-any session.groups
            (effective_allowed_groups unicode_lower default_allowed_groups job),
      ),
      λ e h. ground arith,
    )
