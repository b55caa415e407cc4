-- ===== src/Scheduler/Replace.antt =====
-- What an added, replaced or removed schedule leaves behind: src/scheduler/scheduler.go.
use mogenius_renovate_operat.Prelude.{
  ℕ, true, Option, none, some, [], ◌∷◌, ◌≡◌, refl, sym, ap, ◌∙◌, if◌then◌else◌, arith, is_some,
  Bool-cases, inl, inr,
}
use mogenius_renovate_operat.Prelude.Text.{Text, ◌==◌, eq→≡, eq_refl}
use mogenius_renovate_operat.Prelude.Assoc.{
  Assoc, lookup, insert, delete, lookup-insert, lookup-delete,
}
use mogenius_renovate_operat.Api.{Time}
use mogenius_renovate_operat.Kube.{Result, ok, err}
use mogenius_renovate_operat.Health.{SingleSchedulerHealth, touch_schedules, set_scheduler_health}
use mogenius_renovate_operat.Scheduler.{
  SchedulerEntry, Scheduler, Cron, get_next_run_on_schedule, set_health, mark, added, removed,
  replace_existing, execute, add_schedule, remove_schedule, add_schedule_replace_existing,
}
use mogenius_renovate_operat.Scheduler.Laws.{CronLaws}
use mogenius_renovate_operat.Scheduler.Consistent.{Runs, removed-Runs, refused-Runs, added-Runs}

schedule_in : Option SchedulerEntry → Option Text
schedule_in none = none
schedule_in (some entry) = some entry.schedule

-- The expression under which a name is scheduled.
unfoldable pub schedule_of : Text → Assoc SchedulerEntry → Option Text
unfolding schedule_in
schedule_of name entries = schedule_in (lookup name entries)

schedule_of-insert :
    (name n : Text) (entry : SchedulerEntry) (entries : Assoc SchedulerEntry)
    → schedule_of n (insert name entry entries)
      ≡ (if name == n then some entry.schedule else schedule_of n entries)
unfolding schedule_of schedule_in
schedule_of-insert name n entry entries =
    ap schedule_in (lookup-insert name n entry entries) ∙ ground arith

schedule_of-delete :
    (name n : Text) (entries : Assoc SchedulerEntry)
    → schedule_of n (delete name entries) ≡ (if name == n then none else schedule_of n entries)
unfolding schedule_of schedule_in
schedule_of-delete name n entries = ap schedule_in (lookup-delete name n entries) ∙ ground arith

schedule_of-absent :
    (name n : Text) (entries : Assoc SchedulerEntry)
    → lookup name entries ≡ none
    → schedule_of n entries ≡ (if name == n then none else schedule_of n entries)
unfolding schedule_of schedule_in
schedule_of-absent name n entries absent = elim (Bool-cases (name == n)) [
  | inl t ↦
      let gone : lookup n entries ≡ none =
        ap (λ k. lookup k entries) (sym (eq→≡ name n t)) ∙ absent in
      ground (arith, gone, t)
  | inr t ↦ ground (arith, t)
]

lookup-touch :
    (now : Time) (n : Text) (m : Assoc SingleSchedulerHealth)
    → is_some (lookup n (touch_schedules now m)) ≡ is_some (lookup n m)
unfolding touch_schedules lookup
lookup-touch now n [] = refl
lookup-touch now n (e ∷ m) = ground (arith, lookup-touch now n m)

module _ {W : Type 0} where
  -- The health record lists the names that are scheduled.
  unfoldable pub Listed : Scheduler W → Type 0
  Listed s =
      (n : Text) → is_some (lookup n s.health.scheduler.scheduler) ≡ is_some (lookup n s.entries)

  -- What an attempt to schedule a name leaves for every name: on success the name has the new
  -- expression, on an error none, and all else is as before.
  pub Left : Text → Text → Scheduler W → Result (Unit {0}) → Scheduler W → Type 0
  Left name expr s (ok done) t =
      (n : Text)
      → schedule_of n t.entries ≡ (if name == n then some expr else schedule_of n s.entries)
  Left name expr s (err e) t =
      (n : Text) → schedule_of n t.entries ≡ (if name == n then none else schedule_of n s.entries)

listed-insert :
    (now : Time) (name n : Text) (new : SchedulerEntry) (shown : SingleSchedulerHealth)
    (entries : Assoc SchedulerEntry) (health : Assoc SingleSchedulerHealth)
    → is_some (lookup n health) ≡ is_some (lookup n entries)
    → is_some (lookup n (touch_schedules now (insert name shown health)))
      ≡ is_some (lookup n (insert name new entries))
listed-insert now name n new shown entries health h = ground (
  arith,
  h,
  lookup-touch now n (insert name shown health),
  lookup-insert name n shown health,
  lookup-insert name n new entries,
)

listed-delete :
    (now : Time) (name n : Text) (entries : Assoc SchedulerEntry)
    (health : Assoc SingleSchedulerHealth)
    → is_some (lookup n health) ≡ is_some (lookup n entries)
    → is_some (lookup n (touch_schedules now (delete name health)))
      ≡ is_some (lookup n (delete name entries))
listed-delete now name n entries health h = ground (
  arith,
  h,
  lookup-touch now n (delete name health),
  lookup-delete name n health,
  lookup-delete name n entries,
)

listed-absent :
    (now : Time) (name n : Text) (entries : Assoc SchedulerEntry)
    (health : Assoc SingleSchedulerHealth)
    → lookup name entries ≡ none
    → is_some (lookup n health) ≡ is_some (lookup n entries)
    → is_some (lookup n (touch_schedules now (delete name health))) ≡ is_some (lookup n entries)
listed-absent now name n entries health absent h = elim (Bool-cases (name == n)) [
  | inl t ↦
      let gone : lookup n entries ≡ none =
        ap (λ k. lookup k entries) (sym (eq→≡ name n t)) ∙ absent in
      ground (arith, gone, t, lookup-touch now n (delete name health), lookup-delete name n health)
  | inr t ↦
      ground (arith, h, t, lookup-touch now n (delete name health), lookup-delete name n health)
]

module _ {W : Type 0} (cron : Cron W) where
  removed_by-Listed :
      (name : Text) (s : Scheduler W) (found : Option SchedulerEntry)
      → lookup name s.entries ≡ found
      → Listed s
      → Listed (
          set_health cron
            (λ e. record e { scheduler = delete name e.scheduler })
            (removed cron name found s))
  unfolding Listed set_health set_scheduler_health removed
  removed_by-Listed name s none h l n =
      listed-absent (cron.now s.world) name n s.entries s.health.scheduler.scheduler h (l n)
  removed_by-Listed name s (some entry) h l n =
      listed-delete (cron.now (cron.remove entry.entry_id s.world)) name n s.entries
        s.health.scheduler.scheduler (l n)

  marked-Listed :
      (name expr : Text) (id : ℕ) (w : W) (s : Scheduler W)
      → Listed s
      → Listed (
          mark cron name expr true (record s {
            entries = insert name (record { entry_id = id; schedule = expr }) s.entries;
            world = w;
          }))
  unfolding Listed mark set_health set_scheduler_health get_next_run_on_schedule
  marked-Listed name expr id w s l n =
      listed-insert (cron.now w) name n (record { entry_id = id; schedule = expr }) _ s.entries
        s.health.scheduler.scheduler (l n)

module _ {W : Type 0} {cron : Cron W} (laws : CronLaws cron) where
  -- The map, the cron library and the health record agree.
  unfoldable pub IsConsistent : Scheduler W → Type 0
  unfolding Listed
  IsConsistent s = Runs laws s.entries s.world × Listed s

  added-Left :
      (name expr : Text) (fn : Scheduler W → Scheduler W) (s : Scheduler W) (r : Result ℕ)
      → (cron.add_func expr fn s.world).0 ≡ r
      → lookup name s.entries ≡ none
      → IsConsistent s
      → let out = added cron expr name (r, (cron.add_func expr fn s.world).1) s in
        IsConsistent out.1 × Left name expr s out.0 out.1
  unfolding IsConsistent added mark set_health Left Listed
  added-Left name expr fn s (ok id) h absent (r, l) = (
    (
      added-Runs laws name expr fn s.entries s.world id absent h r,
      marked-Listed cron name expr id (cron.add_func expr fn s.world).1 s l,
    ),
    λ n. schedule_of-insert name n (record { entry_id = id; schedule = expr }) s.entries,
  )
  added-Left name expr fn s (err e) h absent (r, l) = (
    (refused-Runs laws s.entries s.world _ (laws.add_err expr fn s.world e h) r, l),
    λ n. schedule_of-absent name n s.entries absent,
  )

  removed-IsConsistent :
      (name : Text) (s : Scheduler W) (found : Option SchedulerEntry)
      → lookup name s.entries ≡ found
      → IsConsistent s
      → let t =
          set_health cron
            (λ e. record e { scheduler = delete name e.scheduler })
            (removed cron name found s) in
        IsConsistent t
        × (lookup name t.entries ≡ none)
        × ((n : Text)
            → schedule_of n t.entries ≡ (if name == n then none else schedule_of n s.entries))
  unfolding IsConsistent set_health removed
  removed-IsConsistent name s none h (r, l) =
      ((r, removed_by-Listed cron name s none h l), h, λ n. schedule_of-absent name n s.entries h)
  removed-IsConsistent name s (some entry) h (r, l) = (
    (
      removed-Runs laws name entry s.entries s.world h r,
      removed_by-Listed cron name s (some entry) h l,
    ),
    lookup-delete name name s.entries
        ∙ ap (λ b. if b then none else lookup name s.entries) (eq_refl name),
    λ n. schedule_of-delete name n s.entries,
  )

  -- Removing a schedule ends it and no other, and keeps the map, the cron library and the health record
  -- in agreement.
  pub remove_schedule-IsConsistent :
      (name : Text) (s : Scheduler W)
      → IsConsistent s
      → let t = remove_schedule cron name s in
        IsConsistent t
        × ((n : Text)
            → schedule_of n t.entries ≡ (if name == n then none else schedule_of n s.entries))
  unfolding remove_schedule
  remove_schedule-IsConsistent name s c =
      let (d, absent, left) = removed-IsConsistent name s (lookup name s.entries) refl c in
      (d, left)

  Left-removed :
      (name expr : Text) (s t : Scheduler W) (r : Result (Unit {0})) (u : Scheduler W)
      → ((n : Text)
          → schedule_of n t.entries ≡ (if name == n then none else schedule_of n s.entries))
      → Left name expr t r u
      → Left name expr s r u
  unfolding Left
  Left-removed name expr s t (ok done) u gone h = λ n. h n ∙ ground (arith, gone n)
  Left-removed name expr s t (err e) u gone h = λ n. h n ∙ ground (arith, gone n)

  Left-same :
      (name expr : Text) (entry : SchedulerEntry) (s : Scheduler W)
      → lookup name s.entries ≡ some entry
      → (entry.schedule == expr) ≡ true
      → Left name expr s (ok tt) s
  unfolding Left schedule_of schedule_in
  Left-same name expr entry s h e n = elim (Bool-cases (name == n)) [
    | inl t ↦
        let found : schedule_of n s.entries ≡ some expr =
          ap (λ k. schedule_in (lookup k s.entries)) (sym (eq→≡ name n t))
          ∙ (ap schedule_in h ∙ ap some (eq→≡ entry.schedule expr e)) in
        found ∙ ground (arith, t)
    | inr t ↦ ground (arith, t)
  ]

  replaced-IsConsistent :
      (name expr : Text) (fn : Scheduler W → Scheduler W) (s : Scheduler W)
      (found : Option SchedulerEntry)
      → lookup name s.entries ≡ found
      → IsConsistent s
      → let out = replace_existing cron found expr name fn s in
        IsConsistent out.1 × Left name expr s out.0 out.1
  unfolding replace_existing add_schedule remove_schedule
  replaced-IsConsistent name expr fn s none h c =
      added-Left name expr (execute cron name expr fn) s _ refl h c
  replaced-IsConsistent name expr fn s (some entry) h c =
      let t = remove_schedule cron name s in
      let (d, absent, left) = removed-IsConsistent name s (lookup name s.entries) refl c in
      let (k, after) = added-Left name expr (execute cron name expr fn) t _ refl absent d in
      elim (Bool-cases (entry.schedule == expr)) [
        | inl e ↦ rw e (c, Left-same name expr entry s h e)
        | inr e ↦ rw e (k, Left-removed name expr s t _ _ left after)
      ]

  -- Replacing a schedule keeps the map, the cron library and the health record in agreement, and touches
  -- no other name. On success the name runs under the new expression and under no other. If the new
  -- expression is refused the name has no schedule any more, not even its old one.
  pub add_schedule_replace_existing-IsConsistent :
      (name expr : Text) (fn : Scheduler W → Scheduler W) (s : Scheduler W)
      → IsConsistent s
      → let out = add_schedule_replace_existing cron expr name fn s in
        IsConsistent out.1 × Left name expr s out.0 out.1
  unfolding add_schedule_replace_existing
  add_schedule_replace_existing-IsConsistent name expr fn s c =
      replaced-IsConsistent name expr fn s (lookup name s.entries) refl c
