-- ===== src/Webhook/Events.antt =====
-- The payloads of the forges and which of them are acted on: the types and the tests of
-- src/webhook/github.go, gitlab.go and forgejo.go. Numeric ids are left out. A test returns the reason
-- for which it refuses, as the source does.
use mogenius_renovate_operat.Prelude.{
  Bool, true, false, not, ◌&&◌, ◌||◌, Option, none, some, [], ◌++◌, if◌then◌else◌, is_some,
}
use mogenius_renovate_operat.Prelude.Text.{Text, text, ◌==◌}
use mogenius_renovate_operat.Webhook.Checkbox.{
  is_renovate_content, has_checkbox_been_checked, verify_renovate_description_change,
}

abbrev pub Verdict : Type 0
Verdict = Bool × Text

abbrev pub accept : Verdict
accept = (true, [])

pub record GitHubPullRequest : Type 0 where
  pub body : Text

pub record GitHubIssue : Type 0 where
  pub body : Text

pub record GitHubRepository : Type 0 where
  pub name : Text
  pub full_name : Text

pub record GitHubEvent : Type 0 where
  pub action : Text
  pub pull_request : Option GitHubPullRequest
  pub issue : Option GitHubIssue
  pub repository : GitHubRepository

abbrev pub no_body : Option Text → Bool
no_body none = true
no_body (some body) = body == []

abbrev pub pull_request_body : Option GitHubPullRequest → Option Text
pull_request_body none = none
pull_request_body (some p) = some p.body

abbrev pub issue_body : Option GitHubIssue → Option Text
issue_body none = none
issue_body (some i) = some i.body

-- `currentBody`: the pull request's, else the issue's
abbrev pub current_body : Option Text → Option Text → Text
current_body (some body) issue = body
current_body none (some body) = body
current_body none none = []

unfoldable pub is_valid_github_event : GitHubEvent → Verdict
is_valid_github_event payload =
    let pull = pull_request_body payload.pull_request in
    let issue = issue_body payload.issue in
    if not (payload.action == text "edited")
    then (false, text "event action is not edited")
    else if not (is_some pull) && not (is_some issue)
    then (false, text "event is neither pull request nor issue")
    else if no_body pull && no_body issue
    then (false, text "no body change detected")
    else if not (verify_renovate_description_change (current_body pull issue))
    then (false, text "not a valid renovate checkbox change")
    else accept

pub record Project : Type 0 where
  pub name : Text
  pub namespace : Text
  pub path_with_namespace : Text

pub record ObjectAttributes : Type 0 where
  pub action : Text

pub record ChangeDescription : Type 0 where
  pub previous : Text
  pub current : Text

pub record Changes : Type 0 where
  pub description : ChangeDescription

pub record GitLabEvent : Type 0 where
  pub object_kind : Text
  pub event_type : Text
  pub project : Project
  pub object_attributes : ObjectAttributes
  pub changes : Changes

unfoldable pub is_valid_gitlab_event : GitLabEvent → Verdict
is_valid_gitlab_event payload =
    let description = payload.changes.description in
    if not (payload.object_kind == text "merge_request")
      && not (payload.object_kind == text "issue")
    then (false, text "object kind is not merge_request or issue")
    else if not (payload.object_attributes.action == text "update")
    then (false, text "event action is not update")
    else if (description.current == []) && (description.previous == [])
    then (false, text "no description change detected")
    else if not (verify_renovate_description_change description.current)
    then (false, text "not a valid renovate checkbox change")
    else accept

pub record ForgejoPullRequest : Type 0 where
  pub body : Text
  pub user : Option Text

pub record ForgejoIssue : Type 0 where
  pub title : Text
  pub body : Text

pub record ForgejoRepository : Type 0 where
  pub name : Text
  pub full_name : Text

pub record ForgejoEvent : Type 0 where
  pub action : Text
  pub pull_request : Option ForgejoPullRequest
  pub issue : Option ForgejoIssue
  pub repository : ForgejoRepository

-- the case "issues"
unfoldable pub is_valid_issue : Text → Option ForgejoIssue → Verdict
is_valid_issue action issue =
    if not (action == text "edited")
    then (false, text "issue action is not edited")
    else elim issue [
      | none ↦ (false, text "no issue body")
      | some i ↦
          if i.body == []
          then (false, text "no issue body")
          else if not (verify_renovate_description_change i.body)
          then (false, text "not a valid renovate checkbox change")
          else accept
    ]

-- the case "pull_request"
unfoldable pub is_valid_pull_request : Text → Option ForgejoPullRequest → Verdict
is_valid_pull_request action none = (false, text "no pull request in payload")
is_valid_pull_request action (some p) =
    if p.body == []
    then (false, text "no pull request body")
    else if not (is_renovate_content p.body)
    then (false, text "not a Renovate pull request")
    else if (action == text "closed") || (action == text "reopened")
    then accept
    else if action == text "edited"
    then (if not (has_checkbox_been_checked p.body)
        then (false, text "no checked checkbox")
        else accept)
    else (false, text "pull request action is not edited, closed, or reopened")

unfoldable pub is_valid_forgejo_event : Text → ForgejoEvent → Verdict
unfolding is_valid_issue is_valid_pull_request
is_valid_forgejo_event event payload =
    if event == text "issues"
    then is_valid_issue payload.action payload.issue
    else if event == text "pull_request"
    then is_valid_pull_request payload.action payload.pull_request
    else (false, text "unsupported event type: " ++ event)
