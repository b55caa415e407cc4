-- ===== src/Scheduler/Laws.antt =====
-- What the cron library promises: which entries are active, by their ids, and under which expression.
use mogenius_renovate_operat.Prelude.{ℕ, Option, none, some, ◌≡◌, ◌≢◌}
use mogenius_renovate_operat.Prelude.Text.{Text}
use mogenius_renovate_operat.Kube.{Error, ok, err}
use mogenius_renovate_operat.Scheduler.{Scheduler, Cron}

pub record CronLaws {W : Type 0} (cron : Cron W) : Type 0 where
  pub active : W → ℕ → Option Text
  -- A new entry has an id that no active entry has, and changes no other entry.
  pub add_fresh :
      (expr : Text) (fn : Scheduler W → Scheduler W) (w : W) (id : ℕ)
      → (cron.add_func expr fn w).0 ≡ ok id
      → active w id ≡ none
  pub add_new :
      (expr : Text) (fn : Scheduler W → Scheduler W) (w : W) (id : ℕ)
      → (cron.add_func expr fn w).0 ≡ ok id
      → active (cron.add_func expr fn w).1 id ≡ some expr
  pub add_others :
      (expr : Text) (fn : Scheduler W → Scheduler W) (w : W) (id other : ℕ)
      → (cron.add_func expr fn w).0 ≡ ok id
      → id ≢ other
      → active (cron.add_func expr fn w).1 other ≡ active w other
  -- A refused expression changes nothing.
  pub add_err :
      (expr : Text) (fn : Scheduler W → Scheduler W) (w : W) (e : Error)
      → (cron.add_func expr fn w).0 ≡ err e
      → (other : ℕ) → active (cron.add_func expr fn w).1 other ≡ active w other
  pub remove_same : (id : ℕ) (w : W) → active (cron.remove id w) id ≡ none
  pub remove_others :
      (id other : ℕ) (w : W) → id ≢ other → active (cron.remove id w) other ≡ active w other
