-- ===== src/Health.antt =====
-- The health record: src/health/health.go. A Go map is an association list, and the copies that
-- GetHealth makes are the values themselves. `now` is time.Now() of the call.
use mogenius_renovate_operat.Prelude.{Bool, false, [], ◌∷◌}
use mogenius_renovate_operat.Prelude.Text.{Text}
use mogenius_renovate_operat.Prelude.Assoc.{Assoc}
use mogenius_renovate_operat.Api.{Time}

pub record SingleSchedulerHealth : Type 0 where
  pub name : Text
  pub next_run : Time
  pub schedule : Text
  pub last_update : Time
  pub is_running : Bool

pub record SchedulerHealth : Type 0 where
  pub running : Bool
  pub scheduler : Assoc SingleSchedulerHealth

pub record SingleExecutorHealth : Type 0 where
  pub is_running : Bool
  pub last_update : Time

pub record ExecutorHealth : Type 0 where
  pub running : Bool
  pub executor : Assoc SingleExecutorHealth

pub record ApplicationHealth : Type 0 where
  pub scheduler : SchedulerHealth
  pub executor : ExecutorHealth
  pub healthy : Bool

unfoldable pub new_health_check : ApplicationHealth
new_health_check = record {
  scheduler = record { running = false; scheduler = [] };
  executor = record { running = false; executor = [] };
  healthy = false;
}

-- the loops that set LastUpdate of every entry
unfoldable pub touch_schedules : Time → Assoc SingleSchedulerHealth → Assoc SingleSchedulerHealth
touch_schedules now [] = []
touch_schedules now ((key, s) ∷ m) = (key, record s { last_update = now }) ∷ touch_schedules now m

unfoldable pub touch_executors : Time → Assoc SingleExecutorHealth → Assoc SingleExecutorHealth
touch_executors now [] = []
touch_executors now ((key, s) ∷ m) = (key, record s { last_update = now }) ∷ touch_executors now m

unfoldable pub set_scheduler_health :
    Time → (SchedulerHealth → SchedulerHealth) → ApplicationHealth → ApplicationHealth
unfolding touch_schedules
set_scheduler_health now fn health =
    let e = fn health.scheduler in
    record health { scheduler = record e { scheduler = touch_schedules now e.scheduler } }

unfoldable pub set_executor_health :
    Time → (ExecutorHealth → ExecutorHealth) → ApplicationHealth → ApplicationHealth
unfolding touch_executors
set_executor_health now fn health =
    let e = fn health.executor in
    record health { executor = record e { executor = touch_executors now e.executor } }
