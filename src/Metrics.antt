-- ===== src/Metrics.antt =====
-- src/metricStore/metrics.go. The vectors are Prometheus's; a gauge is set to 1 for `true`, else to 0.
use mogenius_renovate_operat.Prelude.{Bool, [], ◌∷◌}
use mogenius_renovate_operat.Prelude.Text.{Text, text}
use mogenius_renovate_operat.Kube.{Client, project_runs, run_failed, dependency_issues}

module _ {W : Type 0} (c : Client W) where
  -- DeleteProjectMetrics
  unfoldable pub delete_project_metrics : Text → Text → Text → W → W
  delete_project_metrics namespace job project w =
      let labels = namespace ∷ job ∷ project ∷ [] in
      let w1 = c.delete_label_values run_failed labels w in
      let w2 = c.delete_label_values dependency_issues labels w1 in
      let w3 =
        c.delete_label_values project_runs (namespace ∷ job ∷ project ∷ text "completed" ∷ []) w2 in
      c.delete_label_values project_runs (namespace ∷ job ∷ project ∷ text "failed" ∷ []) w3

  unfoldable pub capture_renovate_project_execution : Text → Text → Text → Text → W → W
  capture_renovate_project_execution namespace job project status =
      c.inc_counter project_runs (namespace ∷ job ∷ project ∷ status ∷ [])

  unfoldable pub set_run_failed : Text → Text → Text → Bool → W → W
  set_run_failed namespace job project failed =
      c.set_gauge run_failed (namespace ∷ job ∷ project ∷ []) failed

  unfoldable pub set_dependency_issues : Text → Text → Text → Bool → W → W
  set_dependency_issues namespace job project has_issues =
      c.set_gauge dependency_issues (namespace ∷ job ∷ project ∷ []) has_issues
