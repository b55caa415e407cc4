-- ===== src/Examples/Definitions.antt =====
-- Runs of the job definitions and of the parsing of logs.
use mogenius_renovate_operat.Prelude.{
  ℕ, zero, suc, ◌≡◌, ◌≤◌, refl, true, ◌&&◌, none, some, List, [], ◌∷◌, ◌++◌, arith, any,
  if◌then◌else◌,
}
use mogenius_renovate_operat.Prelude.Text.{Text, text, byte_len}
use mogenius_renovate_operat.Prelude.Lines.{scan_lines, is_line}
use mogenius_renovate_operat.Prelude.Int.{pos}
use mogenius_renovate_operat.Pod.{EnvVar}
use mogenius_renovate_operat.Jobs.{
  executor_job_type, discovery_job_type, job_label_name, job_label_type, matcher, labelled,
}
use mogenius_renovate_operat.Definitions.{
  literal, merge_env_vars, extra_names, new_renovate_job, new_discovery_job,
}
use mogenius_renovate_operat.Definitions.Env.{visible, visible-merge_env_vars}
use mogenius_renovate_operat.Definitions.Labels.{has_labels, keeps, created_jobs-Selected}
use mogenius_renovate_operat.Logs.{LogJson, max_line, parse_renovate_logs}
use mogenius_renovate_operat.Logs.Verdict.{
  is_issue, last_status, parse_renovate_logs-verdict, parse_renovate_logs-long_line,
}
use mogenius_renovate_operat.Examples.Data.{demo_job}
use mogenius_renovate_operat.Examples.Rounds.{plain_definitions}

abbrev own_env : List EnvVar
own_env = literal (text "LOG_LEVEL") (text "trace") ∷ []

abbrev operator_env : List EnvVar
operator_env =
    literal (text "LOG_FORMAT") (text "json") ∷ literal (text "LOG_LEVEL") (text "debug") ∷ []

visible-merge_env_vars_example :
    visible (text "LOG_LEVEL") (merge_env_vars own_env operator_env) ≡ (
      if extra_names (text "LOG_LEVEL") own_env
      then visible (text "LOG_LEVEL") own_env
      else visible (text "LOG_LEVEL") operator_env)
visible-merge_env_vars_example = visible-merge_env_vars (text "LOG_LEVEL") own_env operator_env

created_jobs-Selected_example :
    (has_labels
        (matcher record {
          job_name = text "org/web";
          job_type = executor_job_type;
          namespace = text "ops";
          generation = none;
        })
        (labelled (text "9") (new_renovate_job plain_definitions demo_job (text "org/web"))).labels
      ≡ (keeps demo_job.spec.metadata job_label_name (text "org/web")
          && keeps demo_job.spec.metadata job_label_type (text "executor")))
    × (has_labels
          (matcher record {
            job_name = text "demo";
            job_type = discovery_job_type;
            namespace = text "ops";
            generation = some (text "9");
          })
          (labelled (text "9") (new_discovery_job plain_definitions demo_job)).labels
        ≡ (keeps demo_job.spec.metadata job_label_name (text "demo")
            && keeps demo_job.spec.metadata job_label_type (text "discovery")))
created_jobs-Selected_example =
    created_jobs-Selected plain_definitions demo_job (text "org/web") (text "9")

-- Every line is a warning that the repository is finished.
abbrev warnings : LogJson
warnings = record {
  log_entry = λ line. some (record { level = pos 40; msg = text "Repository finished" });
  finished_result = λ line. some line;
}

abbrev two_lines : Text
two_lines = text "done" ++ (b'\n' ∷ text "disabled-by-config")

parse_renovate_logs-verdict_example :
    let lines = scan_lines max_line two_lines in
    let verdict = parse_renovate_logs warnings two_lines in
    (verdict.has_issues ≡ any (is_issue warnings) lines)
    × (verdict.renovate_result_status ≡ last_status warnings none lines)
parse_renovate_logs-verdict_example = parse_renovate_logs-verdict warnings two_lines

-- A line of so many letters.
letters : ℕ → Text
letters zero = []
letters (suc n) = b'a' ∷ letters n

letters-lem : (n : ℕ) → (is_line (letters n) ≡ true) × (n ≤ byte_len (letters n))
unfolding letters byte_len
letters-lem zero = (refl, omega arith)
letters-lem (suc n) = let (line, long) = letters-lem n in (line, omega (arith, long))

parse_renovate_logs-long_line_example :
    parse_renovate_logs warnings
      (text "done" ++ (b'\n' ∷ (letters max_line ++ (b'\n' ∷ text "disabled-by-config"))))
    ≡ parse_renovate_logs warnings (text "done" ++ (b'\n' ∷ []))
parse_renovate_logs-long_line_example =
    parse_renovate_logs-long_line warnings (text "done") (letters max_line)
      (text "disabled-by-config") (letters-lem max_line).0 (letters-lem max_line).1
