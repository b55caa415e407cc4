-- ===== src/Webhook/Valid.antt =====
-- Which payloads the tests of src/webhook/github.go, gitlab.go and forgejo.go let through.
use mogenius_renovate_operat.Prelude.{
  ◌≡◌, refl, Bool, true, false, ◌||◌, ◌&&◌, Option, none, some, [], arith, if◌then◌else◌,
}
use mogenius_renovate_operat.Prelude.Text.{Text, text, ◌==◌, eq_refl}
use mogenius_renovate_operat.Webhook.Checkbox.{
  is_renovate_content, has_checkbox_been_checked, verify_renovate_description_change,
}
use mogenius_renovate_operat.Webhook.Events.{
  pull_request_body, issue_body, current_body, GitHubEvent, GitHubPullRequest, GitHubIssue,
  is_valid_github_event, GitLabEvent, is_valid_gitlab_event, ForgejoEvent, ForgejoIssue,
  ForgejoPullRequest, is_valid_issue, is_valid_pull_request, is_valid_forgejo_event,
}

verify-empty : (s : Text) → (s == []) ≡ true → verify_renovate_description_change s ≡ false
unfolding verify_renovate_description_change
verify-empty s h = rw (h, is_renovate_content)

valid_github :
    (action : Text) (pull : Option GitHubPullRequest) (issue : Option GitHubIssue) (e : GitHubEvent)
    → e.action ≡ action
    → e.pull_request ≡ pull
    → e.issue ≡ issue
    → (is_valid_github_event e).0 ≡ (
        (action == text "edited")
        && verify_renovate_description_change
            (current_body (pull_request_body pull) (issue_body issue)))
unfolding is_valid_github_event
valid_github action none none e a p i = ground (arith, verify-empty [], eq_refl [])
valid_github action none (some issue) e a p i = ground (arith, verify-empty issue.body)
valid_github action (some pull) none e a p i = ground (arith, verify-empty pull.body)
valid_github action (some pull) (some issue) e a p i = ground (arith, verify-empty pull.body)

-- A GitHub event is acted on exactly if its action is "edited" and its current body (the pull
-- request's, without one the issue's) is Renovate's and has a checked box.
pub is_valid_github_event_iff :
    (e : GitHubEvent)
    → (is_valid_github_event e).0 ≡ (
        (e.action == text "edited")
        && verify_renovate_description_change
            (current_body (pull_request_body e.pull_request) (issue_body e.issue)))
is_valid_github_event_iff e = valid_github e.action e.pull_request e.issue e refl refl refl

-- A GitLab event is acted on exactly if it updates a merge request or an issue whose new description
-- is Renovate's and has a checked box.
pub is_valid_gitlab_event_iff :
    (e : GitLabEvent)
    → (is_valid_gitlab_event e).0 ≡ (
        ((e.object_kind == text "merge_request") || (e.object_kind == text "issue"))
        && ((e.object_attributes.action == text "update")
            && verify_renovate_description_change e.changes.description.current))
unfolding is_valid_gitlab_event
is_valid_gitlab_event_iff e = ground (arith, verify-empty e.changes.description.current)

-- Whether a Forgejo issue event is acted on: an edit of an issue whose body is Renovate's and has a
-- checked box.
abbrev pub issue_accepted : ForgejoEvent → Bool
issue_accepted e = elim e.issue [
  | none ↦ false
  | some i ↦ (e.action == text "edited") && verify_renovate_description_change i.body
]

-- Whether a Forgejo pull request event is acted on: Renovate's pull request was closed or reopened, or
-- edited with a checked box.
abbrev pub pull_request_accepted : ForgejoEvent → Bool
pull_request_accepted e = elim e.pull_request [
  | none ↦ false
  | some p ↦
      is_renovate_content p.body
      && ((e.action == text "closed")
          || (e.action == text "reopened")
          || ((e.action == text "edited") && has_checkbox_been_checked p.body))
]

content-empty : (s : Text) → (s == []) ≡ true → is_renovate_content s ≡ false
unfolding is_renovate_content
content-empty s h = rw h

valid_issue :
    (issue : Option ForgejoIssue) (e : ForgejoEvent)
    → e.issue ≡ issue
    → (is_valid_issue e.action e.issue).0 ≡ issue_accepted e
unfolding is_valid_issue
valid_issue none e h = ground arith
valid_issue (some i) e h = ground (arith, verify-empty i.body)

valid_pull_request :
    (pull : Option ForgejoPullRequest) (e : ForgejoEvent)
    → e.pull_request ≡ pull
    → (is_valid_pull_request e.action e.pull_request).0 ≡ pull_request_accepted e
unfolding is_valid_pull_request
valid_pull_request none e h = ground arith
valid_pull_request (some p) e h = ground (arith, content-empty p.body)

-- A Forgejo event is acted on exactly if its type is "issues" and it edits an issue whose body is
-- Renovate's with a checked box, or its type is "pull_request" and it closes or reopens Renovate's pull
-- request, or edits it with a checked box.
pub is_valid_forgejo_event_iff :
    (event : Text) (e : ForgejoEvent)
    → (is_valid_forgejo_event event e).0 ≡ (
        if event == text "issues"
        then issue_accepted e
        else (event == text "pull_request") && pull_request_accepted e)
unfolding is_valid_forgejo_event
is_valid_forgejo_event_iff event e =
    ground (arith, valid_issue e.issue e refl, valid_pull_request e.pull_request e refl)
