-- ===== src/Logs/Verdict.antt =====
-- What ParseRenovateLogs of src/internal/parser/logParser.go says of a log, line by line.
use mogenius_renovate_operat.Prelude.{
  Bool, true, false, not, ◌||◌, Option, none, some, List, [], ◌∷◌, ◌++◌, ◌≡◌, refl, ◌≤◌,
  if◌then◌else◌, arith, any, Option-cases, inl, inr, ap, ◌∙◌,
}
use mogenius_renovate_operat.Prelude.Text.{Text, text, ◌==◌, byte_len}
use mogenius_renovate_operat.Prelude.Lines.{scan_lines, is_line, scan_lines-nil, scan_lines-long}
use mogenius_renovate_operat.Prelude.Int.{pos, ltb_ℤ}
use mogenius_renovate_operat.Logs.{
  LogParseResult, with_finished, with_entry, LogEntry, LogJson, max_line, no_result, result_status,
  parse_line, parse_lines, parse_renovate_logs,
}

finished_status : Option Text → Option Text
unfolding result_status
finished_status none = none
finished_status (some result) = some (result_status result)

newer : Option Text → Option Text → Option Text
newer none status = status
newer (some latest) status = some latest

module _ (json : LogJson) where
  -- Whether a line is an entry of level 40 or more.
  unfoldable pub is_issue : Text → Bool
  is_issue [] = false
  is_issue (c ∷ line) = elim (json.log_entry (c ∷ line)) [
    | none ↦ false
    | some entry ↦ not (ltb_ℤ entry.level (pos 40))
  ]

  -- The status that a line gives: that of the result, if it is the entry of the end of the run.
  unfoldable pub status_of_line : Text → Option Text
  unfolding finished_status
  status_of_line [] = none
  status_of_line (c ∷ line) = elim (json.log_entry (c ∷ line)) [
    | none ↦ none
    | some entry ↦
        if entry.msg == text "Repository finished"
        then finished_status (json.finished_result (c ∷ line))
        else none
  ]

  -- The status of the last line that gives one, and `status` if none does.
  unfoldable pub last_status : Option Text → List Text → Option Text
  unfolding newer status_of_line
  last_status status [] = status
  last_status status (line ∷ lines) = last_status (newer (status_of_line line) status) lines

  with_entry-lem :
      (result : LogParseResult) (line : Text) (entry : LogEntry)
      → let out = with_entry json result line entry in
        (out.has_issues ≡ (result.has_issues || not (ltb_ℤ entry.level (pos 40))))
        × (out.renovate_result_status
            ≡ newer
                (if entry.msg == text "Repository finished"
                  then finished_status (json.finished_result line)
                  else none)
                result.renovate_result_status)
  unfolding with_entry with_finished newer finished_status
  with_entry-lem result line entry = ground arith

  parse_line-lem :
      (result : LogParseResult) (line : Text)
      → let out = parse_line json result line in
        (out.has_issues ≡ (result.has_issues || is_issue line))
        × (out.renovate_result_status ≡ newer (status_of_line line) result.renovate_result_status)
  unfolding parse_line is_issue status_of_line newer
  parse_line-lem result [] = ground arith
  parse_line-lem result (c ∷ line) = elim (Option-cases (json.log_entry (c ∷ line))) [
    | inl e ↦ rw (e, parse_line, is_issue, status_of_line) (ground arith)
    | inr (entry, e) ↦
        rw (e, parse_line, is_issue, status_of_line) (with_entry-lem result (c ∷ line) entry)
  ]

  parse_lines-summary :
      (result : LogParseResult) (lines : List Text)
      → let out = parse_lines json result lines in
        (out.has_issues ≡ (result.has_issues || any is_issue lines))
        × (out.renovate_result_status ≡ last_status result.renovate_result_status lines)
  unfolding parse_lines last_status
  parse_lines-summary result [] = ground arith
  parse_lines-summary result (line ∷ lines) =
      let (issues, status) = parse_line-lem result line in
      let (more_issues, more_status) = parse_lines-summary (parse_line json result line) lines in
      (ground (arith, issues, more_issues), more_status ∙ ap (λ s. last_status s lines) status)

  -- The verdict on a log is that of its lines up to the first one of a megabyte: there are issues exactly
  -- if one of them is an entry of level 40 or more, and the status is that of the last one that says
  -- that the repository is finished, none without one. Lines that are no entries count for nothing.
  pub parse_renovate_logs-verdict :
      (logs : Text)
      → let lines = scan_lines max_line logs in
        let verdict = parse_renovate_logs json logs in
        (verdict.has_issues ≡ any is_issue lines)
        × (verdict.renovate_result_status ≡ last_status none lines)
  unfolding parse_renovate_logs ◌==◌ last_status
  parse_renovate_logs-verdict [] = rw (scan_lines-nil max_line) (refl, refl)
  parse_renovate_logs-verdict (c ∷ logs) =
      parse_lines-summary no_result (scan_lines max_line (c ∷ logs))

  -- A line of a megabyte or more hides itself and every line after it: whatever they are, the verdict is
  -- that of the lines before it.
  pub parse_renovate_logs-long_line :
      (before long rest : Text)
      → is_line long ≡ true
      → max_line ≤ byte_len long
      → parse_renovate_logs json (before ++ (b'\n' ∷ (long ++ (b'\n' ∷ rest))))
        ≡ parse_renovate_logs json (before ++ (b'\n' ∷ []))
  unfolding parse_renovate_logs ◌==◌
  parse_renovate_logs-long_line [] long rest line h =
      ap (parse_lines json no_result) (scan_lines-long max_line [] long rest line h)
  parse_renovate_logs-long_line (c ∷ before) long rest line h =
      ap (parse_lines json no_result) (scan_lines-long max_line (c ∷ before) long rest line h)
