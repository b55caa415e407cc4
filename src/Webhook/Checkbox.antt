-- ===== src/Webhook/Checkbox.antt =====
-- Which descriptions are Renovate's, and which have a checked box: src/webhook/renovateCheckbox.go.
use mogenius_renovate_operat.Prelude.{Bool, true, false, ◌||◌, List, [], ◌∷◌, if◌then◌else◌}
use mogenius_renovate_operat.Prelude.Text.{Text, text, ◌==◌, has_infix}

abbrev pub pattern_list : List Text
pattern_list =
    text "## Detected Dependencies"
    ∷ text "<!-- rebase-check -->"
    ∷ text "<!--renovate-debug:"
    ∷ text "<!-- rebase-all-open-prs -->"
    ∷ text "<!-- rebase-branch="
    ∷ text "<!-- approve-all-pending-prs -->"
    ∷ text "<!-- approvePr-branch="
    ∷ text "<!-- approve-branch="
    ∷ text "<!-- recreate-branch="
    ∷ text "<!-- unschedule-branch="
    ∷ text "<!-- create-config-migration-pr -->"
    ∷ text "<!-- create-all-awaiting-schedule-prs -->"
    ∷ text "<!-- create-all-rate-limited-prs -->"
    ∷ text "<!-- unlimit-branch="
    ∷ text "<!-- manual job -->"
    ∷ []

-- the loop over the patterns
unfoldable pub contains_any : Text → List Text → Bool
contains_any description [] = false
contains_any description (pattern' ∷ patterns) =
    if has_infix description pattern' then true else contains_any description patterns

unfoldable pub is_renovate_content : Text → Bool
unfolding contains_any
is_renovate_content description =
    if description == [] then false else contains_any description pattern_list

unfoldable pub has_checkbox_been_checked : Text → Bool
has_checkbox_been_checked current =
    if current == []
    then false
    else has_infix current (text "- [x]") || has_infix current (text "- [X]")

unfoldable pub verify_renovate_description_change : Text → Bool
unfolding is_renovate_content has_checkbox_been_checked
verify_renovate_description_change current =
    if is_renovate_content current then has_checkbox_been_checked current else false
