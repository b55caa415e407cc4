-- ===== src/Definitions/Labels.antt =====
-- Whether the operator finds the jobs that it creates: getJobLabels of
-- src/internal/renovate/jobDefinitions.go against the labels that matcher of
-- src/internal/crdManager/jobManager.go asks for.
use mogenius_renovate_operat.Prelude.{
  Bool, true, false, ◌&&◌, Option, none, some, [], ◌∷◌, ◌≡◌, refl, arith, ap, ◌∙◌,
}
use mogenius_renovate_operat.Prelude.Text.{Text, text, ◌==◌, eq_refl}
use mogenius_renovate_operat.Prelude.Assoc.{Assoc, lookup, insert, lookup-insert}
use mogenius_renovate_operat.Api.{RenovateJobMetadata, RenovateJob}
use mogenius_renovate_operat.Jobs.{
  JobType, discovery_job_type, executor_job_type, job_type_text, job_label_type, job_label_name,
  job_label_generation, matcher, with_generation_label, labelled,
}
use mogenius_renovate_operat.Definitions.{
  copy_labels, get_job_labels, DefinitionsConfig, batch_job, new_discovery_job, new_renovate_job,
}

has_value : Option Text → Text → Bool
has_value none value = false
has_value (some found) value = found == value

-- Whether labels have all the required ones, as Kubernetes matches them.
unfoldable pub has_labels : Assoc Text → Assoc Text → Bool
unfolding has_value
has_labels [] labels = true
has_labels ((key, value) ∷ required) labels =
    has_value (lookup key labels) value && has_labels required labels

keeps_value : Option Text → Text → Bool
keeps_value none value = true
keeps_value (some other) value = other == value

-- Whether the metadata of a RenovateJob leaves a label at the value.
unfoldable pub keeps : Option RenovateJobMetadata → Text → Text → Bool
unfolding keeps_value
keeps none key value = true
keeps (some metadata) key value = keeps_value (lookup key metadata.labels) value

or_else : Option Text → Option Text → Option Text
or_else none o = o
or_else (some v) o = some v

lookup-copy_labels :
    (key : Text) (labels entries : Assoc Text)
    → lookup key (copy_labels labels entries) ≡ or_else (lookup key entries) (lookup key labels)
unfolding copy_labels lookup or_else
lookup-copy_labels key labels [] = refl
lookup-copy_labels key labels (e ∷ entries) = ground (
  arith,
  lookup-copy_labels key labels entries,
  lookup-insert e.0 key e.1 (copy_labels labels entries),
)

has_value-or_else :
    (o : Option Text) (value : Text)
    → has_value (or_else o (some value)) value ≡ keeps_value o value
unfolding has_value keeps_value or_else
has_value-or_else none value = eq_refl value
has_value-or_else (some other) value = refl

has_value-labels :
    (metadata : Option RenovateJobMetadata) (job_type : JobType) (job_name : Text)
    → (has_value
          (lookup job_label_type (get_job_labels metadata job_type job_name))
          (job_type_text job_type)
        ≡ keeps metadata job_label_type (job_type_text job_type))
      × (has_value (lookup job_label_name (get_job_labels metadata job_type job_name)) job_name
          ≡ keeps metadata job_label_name job_name)
unfolding has_value keeps get_job_labels lookup ◌==◌
has_value-labels none job_type job_name = (eq_refl (job_type_text job_type), eq_refl job_name)
has_value-labels (some metadata) job_type job_name =
    let base : Assoc Text =
      (job_label_type, job_type_text job_type) ∷ (job_label_name, job_name) ∷ [] in
    (
      ap (λ o. has_value o (job_type_text job_type))
            (lookup-copy_labels job_label_type base metadata.labels)
          ∙ has_value-or_else (lookup job_label_type metadata.labels) (job_type_text job_type),
      ap (λ o. has_value o job_name) (lookup-copy_labels job_label_name base metadata.labels)
          ∙ has_value-or_else (lookup job_label_name metadata.labels) job_name,
    )

lookup-labelled :
    (generation : Text) (labels : Assoc Text)
    → let written = insert job_label_generation generation labels in
      (lookup job_label_generation written ≡ some generation)
      × (lookup job_label_type written ≡ lookup job_label_type labels)
      × (lookup job_label_name written ≡ lookup job_label_name labels)
unfolding ◌==◌
lookup-labelled generation labels = (
  lookup-insert job_label_generation job_label_generation generation labels,
  lookup-insert job_label_generation job_label_type generation labels,
  lookup-insert job_label_generation job_label_name generation labels,
)

has_labels-labelled :
    (metadata : Option RenovateJobMetadata) (job_type : JobType) (job_name generation : Text)
    → let written =
        insert job_label_generation generation (get_job_labels metadata job_type job_name) in
      let asked : Assoc Text =
        (job_label_name, job_name) ∷ (job_label_type, job_type_text job_type) ∷ [] in
      let kept =
        keeps metadata job_label_name job_name
        && keeps metadata job_label_type (job_type_text job_type) in
      (has_labels asked written ≡ kept)
      × (has_labels (insert job_label_generation generation asked) written ≡ kept)
unfolding has_labels has_value insert ◌==◌
has_labels-labelled metadata job_type job_name generation =
    let labels = get_job_labels metadata job_type job_name in
    let (g, t, n) = lookup-labelled generation labels in
    let (ht, hn) = has_value-labels metadata job_type job_name in
    let found : has_value
          (lookup job_label_generation (insert job_label_generation generation labels)) generation
        ≡ true =
      ap (λ o. has_value o generation) g ∙ eq_refl generation in
    let found_type = ap (λ o. has_value o (job_type_text job_type)) t ∙ ht in
    let found_name = ap (λ o. has_value o job_name) n ∙ hn in
    ground (arith, found, found_type, found_name)

has_labels-with_generation_label :
    (generation : Text) (asked labels : Assoc Text) {kept : Bool}
    → has_labels asked labels ≡ kept
    → has_labels (insert job_label_generation generation asked) labels ≡ kept
    → has_labels (with_generation_label (some generation) asked) labels ≡ kept
unfolding with_generation_label ◌==◌
has_labels-with_generation_label [] asked labels h k = h
has_labels-with_generation_label (c ∷ generation) asked labels h k = k

-- The executor's lookup of a project's job, and discovery's lookup of the job of a generation, match the
-- job that was created for them exactly if the metadata of the RenovateJob does not set the
-- operator's own two labels to other values: the labels of the metadata win over the operator's.
pub created_jobs-Selected :
    (x : DefinitionsConfig) (job : RenovateJob) (project generation : Text)
    → (has_labels
          (matcher record {
            job_name = x.executor_name job project;
            job_type = executor_job_type;
            namespace = job.namespace;
            generation = none;
          })
          (labelled generation (new_renovate_job x job project)).labels
        ≡ (keeps job.spec.metadata job_label_name (x.executor_name job project)
            && keeps job.spec.metadata job_label_type (text "executor")))
      × (has_labels
            (matcher record {
              job_name = x.discovery_name job;
              job_type = discovery_job_type;
              namespace = job.namespace;
              generation = some generation;
            })
            (labelled generation (new_discovery_job x job)).labels
          ≡ (keeps job.spec.metadata job_label_name (x.discovery_name job)
              && keeps job.spec.metadata job_label_type (text "discovery")))
unfolding matcher labelled new_renovate_job new_discovery_job batch_job with_generation_label
created_jobs-Selected x job project generation =
    let found =
      has_labels-labelled job.spec.metadata discovery_job_type (x.discovery_name job) generation in
    (
      (has_labels-labelled job.spec.metadata executor_job_type (x.executor_name job project)
          generation).0,
      has_labels-with_generation_label generation _ _ found.0 found.1,
    )
