-- ===== src/Jobs/Newest.antt =====
-- Which job GetJobByLabel of src/internal/crdManager/jobManager.go picks.
use mogenius_renovate_operat.Prelude.{
  ℕ, suc, nat_eq, length, ◌≡◌, refl, ap, ◌∙◌, ◌⊎◌, inl, inr, Bool, true, false, ◌||◌, Option, none,
  some, List, [], ◌∷◌, ◌++◌, arith, All, Bool-cases, if◌then◌else◌,
}
use mogenius_renovate_operat.Prelude.Text.{Text}
use mogenius_renovate_operat.Prelude.Int.{ℤ, negsuc, ltb_ℤ}
use mogenius_renovate_operat.Kube.{Error, not_found, ok, err}
use mogenius_renovate_operat.Jobs.{
  KubeJob, JobsClient, JobSelector, matcher, generation_of, newest, found_or_error,
  get_jobs_by_label, get_job_by_label,
}

lt_trans : (a b c : ℤ) → ltb_ℤ a b ≡ true → ltb_ℤ b c ≡ true → ltb_ℤ a c ≡ true
lt_trans a b c h k = ground arith

le_lt_trans : (a b c : ℤ) → ltb_ℤ b a ≡ false → ltb_ℤ b c ≡ true → ltb_ℤ a c ≡ true
le_lt_trans a b c h k = ground arith

le_trans : (a b c : ℤ) → ltb_ℤ b a ≡ false → ltb_ℤ c b ≡ false → ltb_ℤ c a ≡ false
le_trans a b c h k = ground arith

either_way : (b : Bool) (x y : Option KubeJob) → (if b || true then x else y) ≡ x
either_way true x y = refl
either_way false x y = refl

module _ (parse_int : Text → Option ℤ) where
  -- `a` has a lower generation than `b`.
  abbrev pub IsOlder : KubeJob → KubeJob → Type 0
  IsOlder a b = ltb_ℤ (generation_of parse_int a) (generation_of parse_int b) ≡ true

  -- `a` does not have a higher generation than `b`.
  abbrev pub IsNotNewer : KubeJob → KubeJob → Type 0
  IsNotNewer a b = ltb_ℤ (generation_of parse_int b) (generation_of parse_int a) ≡ false

  -- The job is in the list, no job has a higher generation, and those before it have lower ones.
  pub record IsNewest (job : KubeJob) (jobs : List KubeJob) : Type 0 where
    pub before : List KubeJob
    pub after : List KubeJob
    pub place : jobs ≡ before ++ job ∷ after
    pub older : All (λ j. IsOlder j job) before
    pub not_newer : All (λ j. IsNotNewer j job) after

  Kept : KubeJob → List KubeJob → Option KubeJob → Type 0
  Kept current jobs out =
      ((out ≡ some current) × All (λ j. IsNotNewer j current) jobs)
      ⊎ ((job : KubeJob) × (out ≡ some job) × IsOlder current job × IsNewest job jobs)

  newest-Kept :
      (current : KubeJob) (jobs : List KubeJob)
      → Kept current jobs (newest parse_int (some current) (generation_of parse_int current) jobs)
  unfolding newest Kept
  newest-Kept current [] = inl (refl, tt)
  newest-Kept current (k ∷ jobs) =
      elim (Bool-cases (ltb_ℤ (generation_of parse_int current) (generation_of parse_int k))) [
        | inl h ↦ rw h (elim (newest-Kept k jobs) [
          | inl (e, l) ↦ inr (
            k,
            e,
            h,
            record { before = []; after = jobs; place = refl; older = tt; not_newer = l },
          )
          | inr (job, e, o, n) ↦ inr (
            job,
            e,
            lt_trans (generation_of parse_int current) (generation_of parse_int k)
                (generation_of parse_int job) h o,
            record {
              before = k ∷ n.before;
              after = n.after;
              place = ap (λ (l : List KubeJob). k ∷ l) n.place;
              older = (o, n.older);
              not_newer = n.not_newer;
            },
          )
        ])
        | inr h ↦ rw h (elim (newest-Kept current jobs) [
          | inl (e, l) ↦ inl (e, (refl, l))
          | inr (job, e, o, n) ↦ inr (
            job,
            e,
            o,
            record {
              before = k ∷ n.before;
              after = n.after;
              place = ap (λ (l : List KubeJob). k ∷ l) n.place;
              older = (
                le_lt_trans (generation_of parse_int k) (generation_of parse_int current)
                    (generation_of parse_int job) h o,
                n.older,
              );
              not_newer = n.not_newer;
            },
          )
        ])
      ]

  newest-IsNewest :
      (k : KubeJob) (jobs : List KubeJob)
      → (job : KubeJob) × (newest parse_int none (negsuc 0) (k ∷ jobs) ≡ some job)
        × IsNewest job (k ∷ jobs)
  unfolding newest Kept
  newest-IsNewest k jobs = elim (newest-Kept k jobs) [
    | inl (e, l) ↦ (
      k,
      either_way _ _ _ ∙ e,
      record { before = []; after = jobs; place = refl; older = tt; not_newer = l },
    )
    | inr (job, e, o, n) ↦ (
      job,
      either_way _ _ _ ∙ e,
      record {
        before = k ∷ n.before;
        after = n.after;
        place = ap (λ (l : List KubeJob). k ∷ l) n.place;
        older = (o, n.older);
        not_newer = n.not_newer;
      },
    )
  ]

  module _ {W : Type 0} (c : JobsClient W) where
    picked :
        (o : Option KubeJob) {job : KubeJob} (n : ℕ) (v : W)
        → o ≡ some job
        → found_or_error c (if nat_eq (suc n) 0 then none else o) v ≡ (ok job, v)
    unfolding found_or_error
    picked o n v h = rw h (ground arith)

    -- GetJobByLabel lists the jobs that the selector matches. With any it succeeds and returns the job of
    -- the highest generation, the first in the list among equals; with none it returns NotFound, and if
    -- the listing fails that error.
    pub get_job_by_label-IsNewest :
        (selector : JobSelector) (w : W)
        → let l = c.list selector.namespace (matcher selector) w in
          let out = get_job_by_label c parse_int selector w in
          ((k : KubeJob) (jobs : List KubeJob)
            → l.0 ≡ ok (k ∷ jobs)
            → (job : KubeJob) × (out ≡ (ok job, l.1)) × IsNewest job (k ∷ jobs))
          × (l.0 ≡ ok [] → out ≡ (err not_found, l.1))
          × ((e : Error) → l.0 ≡ err e → out ≡ (err e, l.1))
    unfolding get_job_by_label get_jobs_by_label
    get_job_by_label-IsNewest selector w = (
      λ k jobs h.
          let (job, e, n) = newest-IsNewest k jobs in
          (
            job,
            rw h (
                picked (newest parse_int none (negsuc 0) (k ∷ jobs)) (length jobs)
                  (c.list selector.namespace (matcher selector) w).1 e),
            n,
          ),
      λ h. rw h,
      λ e h. rw h,
    )
