-- ===== src/Executor/Slots.antt =====
-- Which projects a round of src/internal/renovate/executor.go starts.
use mogenius_renovate_operat.Prelude.{
  ℕ, zero, suc, ◌-◌, ◌≤◌, ◌≡◌, refl, sym, ap, ◌∙◌, inl, inr, Bool, true, false, Option, some, none,
  List, [], ◌∷◌, arith, if◌then◌else◌, take, select, Bool-cases, length, length-take-le,
}
use mogenius_renovate_operat.Prelude.Text.{Text}
use mogenius_renovate_operat.Prelude.Int.{ℤ, pos, negsuc, pos_part, ltb_ℤ}
use mogenius_renovate_operat.Api.{
  RenovateProjectStatus, scheduled, failed, running, status_eq, ProjectStatus, RenovateJob,
}
use mogenius_renovate_operat.Kube.{
  Error, not_found, conflict, panic, other_error, Result, ok, err, Io, ◌>>=◌, ◌>>◌, pure,
}
use mogenius_renovate_operat.Kube.Laws.{continue-ok}
use mogenius_renovate_operat.Jobs.{KubeJob, get_job_by_label}
use mogenius_renovate_operat.Executor.{
  ExecutorClient, sort_by_priority, count_running, selector_of, report, settle, check_result,
  check_running, finish_loop, start_project, start_loop, execute_reconcile,
}

abbrev pub is_scheduled : ProjectStatus → Bool
is_scheduled p = status_eq p.status scheduled

-- How many projects may still be started when `n` run.
abbrev pub free_slots : ℤ → ℕ → ℕ
free_slots parallelism n = pos_part parallelism - n

slot_free :
    (parallelism : ℤ) (n : ℕ)
    → ltb_ℤ (pos n) parallelism ≡ true
    → free_slots parallelism n ≡ suc (free_slots parallelism (suc n))
slot_free (pos k) n h = ground arith
slot_free (negsuc k) n h = ground arith

no_slot :
    (parallelism : ℤ) (n : ℕ) → ltb_ℤ (pos n) parallelism ≡ false → free_slots parallelism n ≡ 0
no_slot (pos k) n h = ground arith
no_slot (negsuc k) n h = ground arith

take_nothing : (n : ℕ) → take {A = ProjectStatus} n [] ≡ []
take_nothing zero = refl
take_nothing (suc n) = refl

module _ {W : Type 0} (x : ExecutorClient W) (renovate_job : RenovateJob) where
  -- Starts all the projects of a list, in order, until one fails.
  abbrev pub start_each : List ProjectStatus → Io W (Unit {0})
  start_each [] = pure tt
  start_each (p ∷ ps) = start_project x renovate_job p >> start_each ps

  -- With `n` projects running, the second pass of a round is to start, in their order and until one
  -- start fails, the scheduled projects of its list, but no more than the parallelism less `n`.
  pub start_loop-start_each :
      (n : ℕ) (ps : List ProjectStatus)
      → start_loop x renovate_job n ps
        ≡ start_each (take (free_slots renovate_job.spec.parallelism n) (select is_scheduled ps))
  unfolding start_loop
  start_loop-start_each n [] = sym (ap start_each (take_nothing _))
  start_loop-start_each n (p ∷ ps) =
      let parallelism = renovate_job.spec.parallelism in
      elim (Bool-cases (status_eq p.status scheduled)) [
        | inr h ↦ rw h (start_loop-start_each n ps)
        | inl h ↦ elim (Bool-cases (ltb_ℤ (pos n) parallelism)) [
          | inl l ↦
              rw (h, l)
                (ap (λ (k : Io W (Unit {0})). start_project x renovate_job p >> k)
                    (start_loop-start_each (suc n) ps)
                  ∙ ap (λ m. start_each (take m (p ∷ select is_scheduled ps)))
                      (sym (slot_free parallelism n l)))
          | inr l ↦
              rw (h, l)
                (start_loop-start_each n ps
                  ∙ (ap (λ m. start_each (take m (select is_scheduled ps)))
                        (no_slot parallelism n l)
                      ∙ sym (
                          ap (λ m. start_each (take m (p ∷ select is_scheduled ps)))
                            (no_slot parallelism n l))))
        ]
      ]

  settled-le :
      (b : Bool) (n : ℕ) (r : Io W (Unit {0})) (w : W) {m : ℕ}
      → ((if b then pure n else (r >> pure (n - 1))) w).0 ≡ ok m
      → m ≤ n
  settled-le true n r w {m} h = let e : n ≡ m = cc in omega (arith, e)
  settled-le false n r w {m} h =
      let (a, l, k) = continue-ok (r w).0 (λ (_ : Unit {0}). pure (n - 1)) (r w).1 h in
      let e : n - 1 ≡ m = cc in omega (arith, e)

  settle-le :
      (n : ℕ) (p : ProjectStatus) (job : Option KubeJob) (s : RenovateProjectStatus × Text) (w : W)
      {m : ℕ}
      → (settle x renovate_job n p job s w).0 ≡ ok m
      → m ≤ n
  unfolding settle
  settle-le n p job (status, duration) w h =
      settled-le (status_eq status running) n (report x renovate_job p job status duration) w h

  check_result-le :
      (n : ℕ) (p : ProjectStatus) (found : Result KubeJob) (w : W) {m : ℕ}
      → (check_result x renovate_job n p found w).0 ≡ ok m
      → m ≤ n
  unfolding check_result
  check_result-le n p (ok job) w h = settle-le n p (some job) _ w h
  check_result-le n p (err not_found) w h = settle-le n p none (failed, []) w h
  check_result-le n p (err conflict) w h = cc
  check_result-le n p (err panic) w h = cc
  check_result-le n p (err (other_error m)) w h = cc

  check_running-le :
      (n : ℕ) (p : ProjectStatus) (w : W) {m : ℕ}
      → (check_running x renovate_job n p w).0 ≡ ok m
      → m ≤ n
  unfolding check_running
  check_running-le n p w h =
      let found =
        get_job_by_label x.jobs (x.definitions.parse_int 64) (selector_of x renovate_job p.name)
          w in
      check_result-le n p found.0 found.1 h

  looped-le :
      (b : Bool) (n : ℕ) (p : ProjectStatus) (rest : ℕ → Io W ℕ) (w : W) {m : ℕ}
      → ((k : ℕ) (v : W) → (rest k v).0 ≡ ok m → m ≤ k)
      → ((if b then (check_running x renovate_job n p >>= rest) else rest n) w).0 ≡ ok m
      → m ≤ n
  looped-le false n p rest w le h = le n w h
  looped-le true n p rest w le h =
      let f = check_running x renovate_job n p w in
      let (k, got, more) = continue-ok f.0 rest f.1 h in
      omega (arith, le k f.1 more, check_running-le n p w got)

  finish_loop-le :
      (n : ℕ) (ps : List ProjectStatus) (w : W) {m : ℕ}
      → (finish_loop x renovate_job n ps w).0 ≡ ok m
      → m ≤ n
  unfolding finish_loop
  finish_loop-le n [] w h = ground arith
  finish_loop-le n (p ∷ ps) w h =
      looped-le (status_eq p.status running) n p (λ k. finish_loop x renovate_job k ps) w
        (λ k v. finish_loop-le k ps v) h

  -- A round that gets through its first pass with `n` projects left running then starts, in the order of
  -- the priorities and until one start fails, exactly the first scheduled projects for which the
  -- parallelism leaves a slot: no more than the parallelism less `n`, and `n` is at most the number of
  -- projects that ran before. If the first pass fails, it starts none and returns that error.
  pub execute_reconcile-start_each :
      (w : W)
      → let projects = renovate_job.status.projects in
        let first = finish_loop x renovate_job (count_running projects) projects w in
        ((n : ℕ)
          → first.0 ≡ ok n
          → let chosen =
              take
                (free_slots renovate_job.spec.parallelism n)
                (select is_scheduled (sort_by_priority projects)) in
            (execute_reconcile x renovate_job w ≡ start_each chosen first.1)
            × (length chosen ≤ free_slots renovate_job.spec.parallelism n)
            × (n ≤ count_running projects))
        × ((e : Error) → first.0 ≡ err e → execute_reconcile x renovate_job w ≡ (err e, first.1))
  unfolding execute_reconcile
  execute_reconcile-start_each w = (
    λ n h. (
      rw h (
          ap
            (λ (m : Io W (Unit {0})).
              m
                (finish_loop x renovate_job (count_running renovate_job.status.projects)
                  renovate_job.status.projects w).1)
            (start_loop-start_each n (sort_by_priority renovate_job.status.projects))),
      length-take-le (free_slots renovate_job.spec.parallelism n)
          (select is_scheduled (sort_by_priority renovate_job.status.projects)),
      finish_loop-le (count_running renovate_job.status.projects) renovate_job.status.projects w h,
    ),
    λ e h. rw h,
  )
