-- ===== src/Pods/Newest.antt =====
-- Which pod's log is read: src/internal/crdManager/jobManager.go and src/internal/renovate/podLogs.go.
use mogenius_renovate_operat.Prelude.{
  ℕ, Bool, true, none, some, List, [], ◌∷◌, ◌≡◌, refl, ◌↔◌, ◌⊎◌, inl, inr, ◌≤◌, arith, ltb, select,
  All, Bool-cases,
}
use mogenius_renovate_operat.Prelude.Text.{Text, text}
use mogenius_renovate_operat.Kube.{Error, other_error, ok, err}
use mogenius_renovate_operat.Jobs.{KubeJob}
use mogenius_renovate_operat.Pods.{
  JobPod, PodsClient, last_of, first_of, created_before, started, started_after, log_of_first,
  last_log, get_last_job_log, first_log, is_successful, get_latest_successful_pod_log,
}

-- Each of a list's neighbours and later elements follows it in the relation.
pub Follows : (JobPod → JobPod → Type 0) → List JobPod → Type 0
Follows R [] = Unit
Follows R (pod ∷ pods) = All (R pod) pods × Follows R pods

-- What sort.Slice promises: the elements of the list, and none less than one before it.
pub record SortLaws (sort_slice : (JobPod → JobPod → Bool) → List JobPod → List JobPod)
    : Type 1 where
  pub same_members :
      (less : JobPod → JobPod → Bool) (P : JobPod → Type 0) (pods : List JobPod)
      → All P (sort_slice less pods) ↔ All P pods
  pub ascending :
      (key : JobPod → ℕ) (pods : List JobPod)
      → Follows (λ a b. key a ≤ key b) (sort_slice (λ a b. ltb (key a) (key b)) pods)
  pub descending :
      (key : JobPod → ℕ) (pods : List JobPod)
      → Follows (λ a b. key b ≤ key a) (sort_slice (λ a b. ltb (key b) (key a)) pods)

pub Among : JobPod → List JobPod → Type 0
Among pod [] = ⊥
Among pod (p ∷ ps) = (pod ≡ p) ⊎ Among pod ps

All-map :
    (P Q : JobPod → Type 0) (pods : List JobPod)
    → ((pod : JobPod) → P pod → Q pod)
    → All P pods
    → All Q pods
All-map P Q [] f h = tt
All-map P Q (pod ∷ pods) f h = (f pod h.0, All-map P Q pods f h.1)

All-Among : (pods : List JobPod) → All (λ pod. Among pod pods) pods
unfolding Among
All-Among [] = tt
All-Among (pod ∷ pods) = (
  inl refl,
  All-map (λ p. Among p pods) (λ p. Among p (pod ∷ pods)) pods (λ p. inr) (All-Among pods),
)

last_of-Follows :
    (key : JobPod → ℕ) (pod : JobPod) (pods : List JobPod)
    → Follows (λ a b. key a ≤ key b) (pod ∷ pods)
    → (last : JobPod) × (last_of (pod ∷ pods) ≡ some last)
      × All (λ a. key a ≤ key last) (pod ∷ pods)
      × ((P : JobPod → Type 0) → All P (pod ∷ pods) → P last)
unfolding last_of Follows
last_of-Follows key pod [] h = (pod, refl, (omega arith, tt), λ P k. k.0)
last_of-Follows key pod (next ∷ pods) h =
    let (last, e, l, holds) = last_of-Follows key next pods h.1 in
    (last, e, (holds (λ b. key pod ≤ key b) h.0, l), λ P k. holds P k.1)

abbrev SameMembers : List JobPod → List JobPod → Type 1
SameMembers sorted pods = (P : JobPod → Type 0) → All P sorted ↔ All P pods

last_of-sorted :
    (key : JobPod → ℕ) (sorted : List JobPod) (pod : JobPod) (pods : List JobPod)
    → SameMembers sorted (pod ∷ pods)
    → Follows (λ a b. key a ≤ key b) sorted
    → (last : JobPod) × (last_of sorted ≡ some last)
      × Among last (pod ∷ pods)
      × All (λ a. key a ≤ key last) (pod ∷ pods)
last_of-sorted key [] pod pods same h = absurd ((same (λ p. ⊥)).0 tt).0
last_of-sorted key (s ∷ sorted) pod pods same h =
    let (last, e, l, holds) = last_of-Follows key s sorted h in
    (
      last,
      e,
      holds (λ a. Among a (pod ∷ pods))
          ((same (λ a. Among a (pod ∷ pods))).1 (All-Among (pod ∷ pods))),
      (same (λ a. key a ≤ key last)).0 l,
    )

first_of-sorted :
    (key : JobPod → ℕ) (sorted : List JobPod) (pod : JobPod) (pods : List JobPod)
    → SameMembers sorted (pod ∷ pods)
    → Follows (λ a b. key b ≤ key a) sorted
    → (first : JobPod) × (first_of sorted ≡ some first)
      × Among first (pod ∷ pods)
      × All (λ a. key a ≤ key first) (pod ∷ pods)
unfolding Follows
first_of-sorted key [] pod pods same h = absurd ((same (λ p. ⊥)).0 tt).0
first_of-sorted key (s ∷ sorted) pod pods same h = (
  s,
  refl,
  ((same (λ a. Among a (pod ∷ pods))).1 (All-Among (pod ∷ pods))).0,
  (same (λ a. key a ≤ key s)).0 (omega arith, h.0),
)

sorted-nil : (sorted : List JobPod) → SameMembers sorted [] → sorted ≡ []
sorted-nil [] same = refl
sorted-nil (s ∷ sorted) same = absurd ((same (λ p. ⊥)).1 tt).0

All-select : (p : JobPod → Bool) (pods : List JobPod) → All (λ pod. p pod ≡ true) (select p pods)
All-select p [] = tt
All-select p (pod ∷ pods) = elim (Bool-cases (p pod)) [
  | inl e ↦ rw e (e, All-select p pods)
  | inr e ↦ rw e (All-select p pods)
]

module _ {W : Type 0} (c : PodsClient W) (sorting : SortLaws c.sort_slice) (job : KubeJob) where
  last_log-some :
      (namespace : Text) (sorted : List JobPod) (pod : JobPod) (w : W)
      → last_of sorted ≡ some pod
      → last_log c namespace sorted w ≡ log_of_first c namespace pod w
  unfolding last_log
  last_log-some namespace sorted pod w e = rw (e, last_log) refl

  first_log-some :
      (sorted : List JobPod) (pod : JobPod) (w : W)
      → first_of sorted ≡ some pod
      → first_log c sorted w ≡ c.get_logs pod.namespace pod.name none w
  unfolding first_log
  first_log-some (s ∷ sorted) pod w e = ground arith
  first_log-some [] pod w e = ground arith

  -- The log of a job is that of the first container of its newest pod: of a pod that no other pod of the
  -- job is younger than. Without a pod there is an error, and a failed listing is returned.
  pub get_last_job_log-newest :
      (w : W)
      → let l = c.of_job job w in
        ((p : JobPod) (ps : List JobPod)
          → l.0 ≡ ok (p ∷ ps)
          → (pod : JobPod) × Among pod (p ∷ ps)
            × All (λ q. q.creation_time ≤ pod.creation_time) (p ∷ ps)
            × (get_last_job_log c job w ≡ log_of_first c job.namespace pod l.1))
        × (l.0 ≡ ok [] → get_last_job_log c job w ≡ (err (other_error (text "no pods found")), l.1))
        × ((e : Error) → l.0 ≡ err e → get_last_job_log c job w ≡ (err e, l.1))
  unfolding get_last_job_log last_log
  get_last_job_log-newest w = (
    λ p ps h.
        let (pod, e, among, newest) =
          last_of-sorted (λ q. q.creation_time) (c.sort_slice created_before (p ∷ ps)) p ps
            (λ P. sorting.same_members created_before P (p ∷ ps))
            (sorting.ascending (λ q. q.creation_time) (p ∷ ps)) in
        (
          pod,
          among,
          newest,
          rw h (last_log-some job.namespace (c.sort_slice created_before (p ∷ ps)) pod _ e),
        ),
    λ h.
        let e : c.sort_slice created_before [] ≡ [] =
          sorted-nil _ (λ P. sorting.same_members created_before P []) in
        rw (h, e) refl,
    λ e h. rw h refl,
  )

  -- Discovery reads the log of the successful pod of its job that started last. Without one there is an
  -- error, and a failed listing is returned.
  pub get_latest_successful_pod_log-latest :
      (w : W)
      → let l = c.list job.namespace ((text "job-name", job.name) ∷ []) w in
        ((pods : List JobPod) (p : JobPod) (ps : List JobPod)
          → l.0 ≡ ok pods
          → select (is_successful c) pods ≡ p ∷ ps
          → (pod : JobPod) × Among pod (p ∷ ps)
            × All (λ q. started q.start_time ≤ started pod.start_time) (p ∷ ps)
            × (get_latest_successful_pod_log c job w ≡ c.get_logs pod.namespace pod.name none l.1))
        × ((pods : List JobPod)
            → l.0 ≡ ok pods
            → select (is_successful c) pods ≡ []
            → get_latest_successful_pod_log c job w
              ≡ (err (other_error (text "no successful pods found")), l.1))
        × ((e : Error) → l.0 ≡ err e → get_latest_successful_pod_log c job w ≡ (err e, l.1))
  unfolding get_latest_successful_pod_log first_log
  get_latest_successful_pod_log-latest w = (
    λ pods p ps h s.
        let (pod, e, among, latest) =
          first_of-sorted (λ q. started q.start_time) (c.sort_slice started_after (p ∷ ps)) p ps
            (λ P. sorting.same_members started_after P (p ∷ ps))
            (sorting.descending (λ q. started q.start_time) (p ∷ ps)) in
        (pod, among, latest, rw (h, s) (first_log-some _ pod _ e)),
    λ pods h s.
        let e : c.sort_slice started_after [] ≡ [] =
          sorted-nil _ (λ P. sorting.same_members started_after P []) in
        rw (h, s, e) refl,
    λ e h. rw h refl,
  )
