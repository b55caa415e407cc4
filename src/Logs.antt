-- ===== src/Logs.antt =====
-- The verdict on a run of Renovate: ParseRenovateLogs of src/internal/parser/logParser.go. The two fields
-- of LogJson are json.Unmarshal of a line into the source's two types, `none` for an error: the level and
-- the message, and the result.
pub mod Verdict
use mogenius_renovate_operat.Prelude.{
  ℕ, Bool, true, false, not, Option, none, some, List, [], ◌∷◌, if◌then◌else◌,
}
use mogenius_renovate_operat.Prelude.Text.{Text, text, ◌==◌}
use mogenius_renovate_operat.Prelude.Lines.{scan_lines}
use mogenius_renovate_operat.Prelude.Int.{ℤ, pos, ltb_ℤ}

pub record LogParseResult : Type 0 where
  pub has_issues : Bool
  pub renovate_result_status : Option Text

pub record LogEntry : Type 0 where
  pub level : ℤ
  pub msg : Text

pub record LogJson : Type 0 where
  pub log_entry : Text → Option LogEntry
  pub finished_result : Text → Option Text

-- scanner.Buffer: 1 MB
abbrev pub max_line : ℕ
max_line = 1048576

abbrev pub no_result : LogParseResult
no_result = record { has_issues = false; renovate_result_status = none }

-- the switch over the result
unfoldable pub result_status : Text → Text
result_status result =
    if result == text "disabled-by-config"
    then text "Disabled"
    else if result == text "disabled-closed-onboarding"
    then text "Onboarding Closed"
    else if result == text "disabled-no-config"
    then text "No Config"
    else if result == []
    then text "Unknown"
    else result

with_finished : LogParseResult → Option Text → LogParseResult
unfolding result_status
with_finished result none = result
with_finished result (some finished) = record result {
  renovate_result_status = some (result_status finished);
}

module _ (json : LogJson) where
  with_entry : LogParseResult → Text → LogEntry → LogParseResult
  unfolding with_finished
  with_entry result line entry =
      let marked =
        if not (ltb_ℤ entry.level (pos 40)) then record result { has_issues = true } else result in
      if entry.msg == text "Repository finished"
      then with_finished marked (json.finished_result line)
      else marked

  -- the body of the loop
  unfoldable pub parse_line : LogParseResult → Text → LogParseResult
  unfolding with_entry
  parse_line result [] = result
  parse_line result (c ∷ line) = elim (json.log_entry (c ∷ line)) [
    | none ↦ result
    | some entry ↦ with_entry result (c ∷ line) entry
  ]

  unfoldable pub parse_lines : LogParseResult → List Text → LogParseResult
  unfolding parse_line
  parse_lines result [] = result
  parse_lines result (line ∷ lines) = parse_lines (parse_line result line) lines

  unfoldable pub parse_renovate_logs : Text → LogParseResult
  unfolding parse_lines scan_lines
  parse_renovate_logs logs =
      if logs == [] then no_result else parse_lines no_result (scan_lines max_line logs)
