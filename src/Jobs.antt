-- ===== src/Jobs.antt =====
-- The Kubernetes jobs of the operator: src/internal/crdManager/jobManager.go. The Job type and the
-- client are Kubernetes's: a job is what the operator reads of it, and JobsClient what it asks of the
-- API server. `parse_int` is strconv.ParseInt in base 10 with 64 bits, `none` for an error, and
-- `format_int` the verb %d. An error that is wrapped keeps its kind.
pub mod Newest
pub mod Cleanup
use mogenius_renovate_operat.Prelude.{
  ℕ, Bool, true, false, not, ◌||◌, Option, none, some, List, [], ◌∷◌, if◌then◌else◌, is_some,
  nat_eq, length,
}
use mogenius_renovate_operat.Prelude.Text.{Text, text, ◌==◌}
use mogenius_renovate_operat.Prelude.Int.{ℤ, pos, negsuc, ltb_ℤ}
use mogenius_renovate_operat.Prelude.Assoc.{Assoc, lookup, insert}
use mogenius_renovate_operat.Pod.{JobSpec}
use mogenius_renovate_operat.Api.{Time}
use mogenius_renovate_operat.Kube.{Result, ok, err, not_found, Io, ◌>>=◌, pure, raise}

-- A condition of a job: its type, and whether its status is True.
pub data JobConditionType : Type 0 where
  job_complete job_failed other_condition : JobConditionType

-- `failed` and `succeeded` count the pods of the job's status.
pub record KubeJob : Type 0 where
  pub name : Text
  pub generate_name : Text
  pub namespace : Text
  pub labels : Assoc Text
  pub annotations : Assoc Text
  pub spec : JobSpec
  pub failed : ℕ
  pub succeeded : ℕ
  pub conditions : List (JobConditionType × Bool)
  pub start_time : Option Time
  pub completion_time : Option Time

pub record JobsClient (W : Type 0) : Type 0 where
  -- client.List in a namespace, of the jobs that have all the labels
  pub list : Text → Assoc Text → Io W (List KubeJob)
  -- client.Delete with background propagation
  pub delete : KubeJob → Io W (Unit {0})
  -- client.Create
  pub create : KubeJob → Io W (Unit {0})
  -- time.Now().Unix()
  pub unix : W → ℤ

abbrev pub job_label_type : Text
job_label_type = text "renovate-operator.mogenius.com/job-type"

abbrev pub job_label_name : Text
job_label_name = text "renovate-operator.mogenius.com/job-name"

abbrev pub job_label_generation : Text
job_label_generation = text "renovate-operator.mogenius.com/generation"

pub data JobType : Type 0 where
  discovery_job_type executor_job_type : JobType

abbrev pub job_type_text : JobType → Text
job_type_text discovery_job_type = text "discovery"
job_type_text executor_job_type = text "executor"

pub record JobSelector : Type 0 where
  pub job_name : Text
  pub job_type : JobType
  pub namespace : Text
  pub generation : Option Text

-- The labels that a selector asks for; an empty generation is none.
unfoldable pub with_generation_label : Option Text → Assoc Text → Assoc Text
with_generation_label none labels = labels
with_generation_label (some generation) labels =
    if generation == [] then labels else insert job_label_generation generation labels

unfoldable pub matcher : JobSelector → Assoc Text
unfolding with_generation_label
matcher selector =
    with_generation_label selector.generation
      ((job_label_name, selector.job_name) ∷ (job_label_type, job_type_text selector.job_type) ∷ [])

module _ (parse_int : Text → Option ℤ) where
  number_or_zero : Option ℤ → ℤ
  number_or_zero none = pos 0
  number_or_zero (some gen) = gen

  number_of : Option Text → ℤ
  unfolding number_or_zero
  number_of none = pos 0
  number_of (some gen_str) = number_or_zero (parse_int gen_str)

  -- The generation of a job, 0 if its label is missing or no number.
  unfoldable pub generation_of : KubeJob → ℤ
  unfolding number_of
  generation_of job = number_of (lookup job_label_generation job.labels)

  -- the loop over the jobs, with `currentJob` and `maxGen`
  unfoldable pub newest : Option KubeJob → ℤ → List KubeJob → Option KubeJob
  newest current max_gen [] = current
  newest current max_gen (job ∷ jobs) =
      let gen = generation_of job in
      let take_it = newest (some job) gen jobs in
      let leave_it = newest current max_gen jobs in
      if ltb_ℤ max_gen gen || not (is_some current) then take_it else leave_it

-- Whether cleanupOldGenerations deletes a job: it has no generation or another one.
unfoldable pub is_old : Text → KubeJob → Bool
is_old current_gen job = elim (lookup job_label_generation job.labels) [
  | none ↦ true
  | some gen ↦ not (gen == current_gen)
]

-- The label that CreateJobWithGeneration writes.
unfoldable pub labelled : Text → KubeJob → KubeJob
labelled generation job = record job { labels = insert job_label_generation generation job.labels }

module _ {W : Type 0} (c : JobsClient W) where
  unfoldable pub get_jobs_by_label : JobSelector → Io W (List KubeJob)
  unfolding matcher
  get_jobs_by_label selector = c.list selector.namespace (matcher selector)

  found_or_error : Option KubeJob → Io W KubeJob
  found_or_error none = raise not_found
  found_or_error (some job) = pure job

  unfoldable pub get_job_by_label : (Text → Option ℤ) → JobSelector → Io W KubeJob
  unfolding get_jobs_by_label newest found_or_error
  get_job_by_label parse_int selector = do
    all_jobs ← get_jobs_by_label selector
    found_or_error
        (if nat_eq (length all_jobs) 0 then none else newest parse_int none (negsuc 0) all_jobs)

  ignore_not_found : Result (Unit {0}) → Result (Unit {0})
  ignore_not_found (err not_found) = ok tt
  ignore_not_found r = r

  unfoldable pub delete_job : KubeJob → Io W (Unit {0})
  unfolding ignore_not_found
  delete_job job w = let (r, w') = c.delete job w in (ignore_not_found r, w')

  -- the loop of cleanupOldGenerations; what a deletion returns is ignored
  unfoldable pub cleanup_loop : Text → List KubeJob → W → W
  unfolding is_old delete_job
  cleanup_loop current_gen [] w = w
  cleanup_loop current_gen (job ∷ jobs) w =
      let w' = if is_old current_gen job then (delete_job job w).1 else w in
      cleanup_loop current_gen jobs w'

  unfoldable pub cleanup_old_generations : JobSelector → Text → Io W (Unit {0})
  unfolding get_jobs_by_label cleanup_loop
  cleanup_old_generations selector current_gen = do
    all_jobs ← get_jobs_by_label selector
    λ w. (ok tt, cleanup_loop current_gen all_jobs w)

  -- A success also gives the goroutine that it starts, which runs at any later time.
  unfoldable pub create_job_with_generation :
      (ℤ → Text) → KubeJob → JobSelector → Io W (Text × (W → W))
  unfolding cleanup_old_generations labelled
  create_job_with_generation format_int job selector w =
      let generation = format_int (c.unix w) in
      (c.create (labelled generation job) >>= λ _.
      pure (generation, λ v. (cleanup_old_generations selector generation v).1))
        w
