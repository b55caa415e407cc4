-- ===== src/Scheduler.antt =====
-- The scheduler: src/scheduler/scheduler.go. The cron library is the record Cron of functions over an
-- unknown world; CronLaws (Scheduler/Laws) says what it promises. A scheduled function may change
-- everything, the scheduler's own state included. The mutex is held over each operation.
pub mod Laws
pub mod Consistent
pub mod Replace
use mogenius_renovate_operat.Prelude.{
  ℕ, Bool, true, false, Option, none, some, List, [], ◌∷◌, if◌then◌else◌,
}
use mogenius_renovate_operat.Prelude.Text.{Text, ◌==◌}
use mogenius_renovate_operat.Prelude.Assoc.{Assoc, lookup, insert, delete}
use mogenius_renovate_operat.Api.{Time, zero_time}
use mogenius_renovate_operat.Kube.{Result, ok, err, Io}
use mogenius_renovate_operat.Health.{
  SingleSchedulerHealth, SchedulerHealth, ApplicationHealth, new_health_check, set_scheduler_health,
}

pub record SchedulerEntry : Type 0 where
  pub entry_id : ℕ
  pub schedule : Text

-- The scheduler's map, the health record that it shares, and all else.
pub record Scheduler (W : Type 0) : Type 0 where
  pub entries : Assoc SchedulerEntry
  pub health : ApplicationHealth
  pub world : W

pub record Cron (W : Type 0) : Type 0 where
  -- AddFunc: the id of the new entry, or an error for a bad expression
  pub add_func : Text → (Scheduler W → Scheduler W) → Io W ℕ
  pub remove : ℕ → W → W
  pub start : W → W
  pub stop : W → W
  -- Parse with the parser of five fields and descriptors, and Next of the present
  pub next : Text → W → Option Time
  -- time.Now()
  pub now : W → Time

or_zero_time : Option Time → Time
or_zero_time none = zero_time
or_zero_time (some time) = time

abbrev pub new_scheduler : {W : Type 0} → W → Scheduler W
new_scheduler w = record { entries = []; health = new_health_check; world = w }

module _ {W : Type 0} (cron : Cron W) where
  unfoldable pub get_next_run_on_schedule : Text → W → Time
  unfolding or_zero_time
  get_next_run_on_schedule schedule w = or_zero_time (cron.next schedule w)

  -- SetSchedulerHealth, at the present
  set_health : (SchedulerHealth → SchedulerHealth) → Scheduler W → Scheduler W
  unfolding set_scheduler_health
  set_health fn s = record s { health = set_scheduler_health (cron.now s.world) fn s.health }

  unfoldable pub start_scheduler : Scheduler W → Scheduler W
  unfolding set_health
  start_scheduler s =
      set_health (λ e. record e { running = true }) (record s { world = cron.start s.world })

  unfoldable pub stop_scheduler : Scheduler W → Scheduler W
  unfolding set_health
  stop_scheduler s =
      set_health (λ e. record e { running = false }) (record s { world = cron.stop s.world })

  -- Writes the health of one schedule.
  mark : Text → Text → Bool → Scheduler W → Scheduler W
  unfolding set_health get_next_run_on_schedule
  mark name schedule running s =
      set_health
        (λ e. record e {
          scheduler =
              insert name
                (record {
                  name = name;
                  next_run = get_next_run_on_schedule schedule s.world;
                  schedule = schedule;
                  last_update = zero_time;
                  is_running = running;
                })
                e.scheduler;
        })
        s

  unfoldable pub execute : Text → Text → (Scheduler W → Scheduler W) → Scheduler W → Scheduler W
  unfolding mark
  execute key schedule fn s = mark key schedule false (fn (mark key schedule true s))

  added : Text → Text → Result ℕ × W → Scheduler W → Result (Unit {0}) × Scheduler W
  unfolding mark
  added expr name (err e, w) s = (err e, record s { world = w })
  added expr name (ok id, w) s = (
    ok tt,
    mark name expr true (record s {
      entries = insert name (record { entry_id = id; schedule = expr }) s.entries;
      world = w;
    }),
  )

  unfoldable pub add_schedule :
      Text → Text → (Scheduler W → Scheduler W) → Scheduler W → Result (Unit {0}) × Scheduler W
  unfolding execute added
  add_schedule expr name fn s =
      added expr name (cron.add_func expr (execute name expr fn) s.world) s

  removed : Text → Option SchedulerEntry → Scheduler W → Scheduler W
  removed name none s = s
  removed name (some entry) s = record s {
    entries = delete name s.entries;
    world = cron.remove entry.entry_id s.world;
  }

  unfoldable pub remove_schedule : Text → Scheduler W → Scheduler W
  unfolding removed set_health
  remove_schedule name s =
      set_health (λ e. record e { scheduler = delete name e.scheduler })
        (removed name (lookup name s.entries) s)

  replace_existing :
      Option SchedulerEntry
      → Text
      → Text
      → (Scheduler W → Scheduler W)
      → Scheduler W
      → Result (Unit {0}) × Scheduler W
  unfolding add_schedule remove_schedule
  replace_existing none expr name fn s = add_schedule expr name fn s
  replace_existing (some entry) expr name fn s =
      if entry.schedule == expr
      then (ok tt, s)
      else add_schedule expr name fn (remove_schedule name s)

  unfoldable pub add_schedule_replace_existing :
      Text → Text → (Scheduler W → Scheduler W) → Scheduler W → Result (Unit {0}) × Scheduler W
  unfolding replace_existing
  add_schedule_replace_existing expr name fn s =
      replace_existing (lookup name s.entries) expr name fn s
