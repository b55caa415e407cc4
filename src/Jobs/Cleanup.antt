-- ===== src/Jobs/Cleanup.antt =====
-- Which jobs the cleanup of src/internal/crdManager/jobManager.go deletes.
use mogenius_renovate_operat.Prelude.{
  ◌≡◌, refl, ◌∙◌, Bool, true, not, none, ap, inl, inr, false, some, List, [], ◌∷◌, arith, select,
  Bool-cases,
}
use mogenius_renovate_operat.Prelude.Text.{Text, text, ◌==◌, eq_refl}
use mogenius_renovate_operat.Prelude.Int.{ℤ}
use mogenius_renovate_operat.Prelude.Assoc.{lookup, lookup-insert}
use mogenius_renovate_operat.Kube.{Error, ok, err}
use mogenius_renovate_operat.Jobs.{
  KubeJob, JobsClient, JobSelector, job_label_generation, matcher, get_jobs_by_label, delete_job,
  is_old, cleanup_loop, cleanup_old_generations, labelled, create_job_with_generation,
}

-- Whether the job has the generation label with another value than the current one, or not at all.
abbrev pub is_stale : Text → KubeJob → Bool
is_stale current_gen job =
    elim (lookup (text "renovate-operator.mogenius.com/generation") job.labels) [
      | none ↦ true
      | some gen ↦ not (gen == current_gen)
    ]

is_old-is_stale :
    (current_gen : Text) (job : KubeJob) → is_old current_gen job ≡ is_stale current_gen job
unfolding is_old
is_old-is_stale current_gen job = ground arith

module _ {W : Type 0} (c : JobsClient W) where
  -- The world after the jobs were asked to be deleted one after the other, whatever each deletion says.
  abbrev pub delete_all : List KubeJob → W → W
  delete_all [] w = w
  delete_all (job ∷ jobs) w = delete_all jobs (c.delete job w).1

  cleanup_loop-delete_all :
      (current_gen : Text) (jobs : List KubeJob) (w : W)
      → cleanup_loop c current_gen jobs w ≡ delete_all (select (is_stale current_gen) jobs) w
  unfolding cleanup_loop delete_job
  cleanup_loop-delete_all current_gen [] w = refl
  cleanup_loop-delete_all current_gen (job ∷ jobs) w =
      elim (Bool-cases (is_stale current_gen job)) [
        | inl h ↦
            rw (is_old-is_stale current_gen job ∙ h)
              (cleanup_loop-delete_all current_gen jobs (c.delete job w).1)
        | inr h ↦
            rw (is_old-is_stale current_gen job ∙ h) (cleanup_loop-delete_all current_gen jobs w)
      ]

  -- The cleanup lists the jobs that the selector matches and asks to delete exactly those whose
  -- generation is missing or not the current one, each once and in order, also when a deletion fails.
  -- If the listing fails it deletes nothing and returns that error.
  pub cleanup_old_generations-select :
      (selector : JobSelector) (current_gen : Text) (w : W)
      → let l = c.list selector.namespace (matcher selector) w in
        ((jobs : List KubeJob)
          → l.0 ≡ ok jobs
          → cleanup_old_generations c selector current_gen w
            ≡ (ok tt, delete_all (select (is_stale current_gen) jobs) l.1))
        × ((e : Error)
            → l.0 ≡ err e
            → cleanup_old_generations c selector current_gen w ≡ (err e, l.1))
  unfolding cleanup_old_generations get_jobs_by_label
  cleanup_old_generations-select selector current_gen w = (
    λ jobs h. rw h (ap (λ (v : W). (ok tt, v)) (cleanup_loop-delete_all current_gen jobs _)),
    λ e h. rw h,
  )

  new_is_kept :
      (generation : Text) (job : KubeJob) → is_old generation (labelled generation job) ≡ false
  unfolding is_old labelled
  new_is_kept generation job = ground (
    arith,
    lookup-insert job_label_generation job_label_generation generation job.labels,
    eq_refl job_label_generation,
    eq_refl generation,
  )

  created :
      (format_int : ℤ → Text) (job : KubeJob) (selector : JobSelector) (w : W)
      → let generation = format_int (c.unix w) in
        (c.create (labelled generation job) w).0 ≡ ok tt
        → create_job_with_generation c format_int job selector w ≡ (
          ok (generation, λ v. (cleanup_old_generations c selector generation v).1),
          (c.create (labelled generation job) w).1,
        )
  unfolding create_job_with_generation
  created format_int job selector w h = rw h

  -- If the API server creates the job, CreateJobWithGeneration returns the generation that it wrote into
  -- the job's label, from the time of the call, and starts a cleanup for it, which whenever it runs does
  -- not count the new job among the old ones. If the creation fails it returns that error and starts
  -- none.
  pub create_job_with_generation-keeps :
      (format_int : ℤ → Text) (job : KubeJob) (selector : JobSelector) (w : W)
      → let generation = format_int (c.unix w) in
        let job' = labelled generation job in
        let out = create_job_with_generation c format_int job selector w in
        ((c.create job' w).0 ≡ ok tt
          → (lookup job_label_generation job'.labels ≡ some generation)
            × (is_old generation job' ≡ false)
            × (out ≡ (
              ok (generation, λ v. (cleanup_old_generations c selector generation v).1),
              (c.create job' w).1,
            )))
        × ((e : Error) → (c.create job' w).0 ≡ err e → out ≡ (err e, (c.create job' w).1))
  unfolding labelled create_job_with_generation
  create_job_with_generation-keeps format_int job selector w = (
    λ h. (
      ground (
        arith,
        lookup-insert job_label_generation job_label_generation (format_int (c.unix w)) job.labels,
        eq_refl job_label_generation,
      ),
      new_is_kept (format_int (c.unix w)) job,
      created format_int job selector w h,
    ),
    λ e h. rw h,
  )
