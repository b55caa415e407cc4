-- ===== src/Examples.antt =====
-- A small cluster that the examples run on: one job, one secret, and nobody else who writes. It shows
-- that the documented behaviour in Kube/Laws can hold.
pub mod Data
pub mod Projects
pub mod Jobs
pub mod Hooks
pub mod Interface
pub mod KubeJobs
pub mod Rounds
pub mod Definitions
pub mod Schedules
pub mod Discoveries
pub mod Logins
pub mod Syncs
use mathlib.Core.Path.{subst, fun_ext}
use mogenius_renovate_operat.Prelude.{
  ℕ, zero, suc, ◌+◌, ◌≡◌, ◌≢◌, refl, sym, ap, ◌∙◌, inl, inr, Bool, true, false, ◌&&◌, Option, none,
  some, List, [], ◌∷◌, arith, if◌then◌else◌, nat_eq, Bool-cases,
}
use mogenius_renovate_operat.Prelude.Text.{Text, text, ◌==◌, eq_iff, eq_refl}
use mogenius_renovate_operat.Prelude.Int.{pos}
use mogenius_renovate_operat.Prelude.Assoc.{Assoc}
use mogenius_renovate_operat.Api.{
  scheduled, running, ProjectStatus, RenovateJob, RenovateJobStatus, RenovateSecretKeyReference,
  RenovateStatusUpdate,
}
use mogenius_renovate_operat.Kube.{
  Error, not_found, conflict, panic, other_error, Result, ok, err, Io, Client,
}
use mogenius_renovate_operat.Manager.Tokens.Panics.{NeverPanics}
use mogenius_renovate_operat.Kube.Laws.{
  Stored, with_status, put, Retried, last, spent, again, ClientLaws,
}
use mogenius_renovate_operat.Manager.{RenovateJobIdentifier}

pub record Cluster : Type 0 where
  pub job : RenovateJob
  pub secret : Assoc Text

is_named : RenovateJob → Text → Text → Bool
is_named j name namespace = (j.name == name) && (j.namespace == namespace)

abbrev read : RenovateJob → Text → Text → Result RenovateJob
read j name namespace =
    if (j.name == name) && (j.namespace == namespace) then ok j else err not_found

abbrev written : RenovateJob → Cluster → Result (Unit {0}) × Cluster
written j w =
    if (w.job.name == j.name) && (w.job.namespace == j.namespace)
    then if nat_eq w.job.meta.resource_version j.meta.resource_version
      then (ok tt, record w { job = with_status w.job j.status (suc w.job.meta.resource_version) })
      else (err conflict, w)
    else (err not_found, w)

abbrev is_conflict : Result (Unit {0}) → Bool
is_conflict (err conflict) = true
is_conflict _ = false

-- Up to `suc n` attempts.
retry : ℕ → Io Cluster (Unit {0}) → Io Cluster (Unit {0})
retry zero f w = f w
retry (suc n) f w =
    let out = f w in let next = retry n f out.1 in if is_conflict out.0 then next else out

unfoldable pub cluster_client : Client Cluster
unfolding retry
cluster_client = record {
  get = λ name namespace w. (read w.job name namespace, w);
  list = λ w. (ok (w.job ∷ []), w);
  status_update = written;
  get_secret =
      λ name namespace w. if name == text "tokens" then (ok w.secret, w) else (err not_found, w);
  retry_on_conflict = retry 4;
  now = λ w. 100 + w.job.meta.resource_version;
  delete_label_values = λ v labels w. w;
  set_gauge = λ v labels b w. w;
  inc_counter = λ v labels w. w;
}

no_conflict : (r : Result (Unit {0})) → is_conflict r ≡ false → r ≢ err conflict
no_conflict (ok u) h k = cc
no_conflict (err conflict) h k = cc
no_conflict (err not_found) h k = cc
no_conflict (err panic) h k = cc
no_conflict (err (other_error m)) h k = cc

a_conflict : (r : Result (Unit {0})) → is_conflict r ≡ true → r ≡ err conflict
a_conflict (ok u) h = cc
a_conflict (err conflict) h = refl
a_conflict (err not_found) h = cc
a_conflict (err panic) h = cc
a_conflict (err (other_error m)) h = cc

abbrev Same : Cluster → Cluster → Type 0
Same v w = v ≡ w

retry-Retried :
    (n : ℕ) (f : Io Cluster (Unit {0})) (w : Cluster)
    → Retried Same f (suc n) w (retry n f w).0 (retry n f w).1
unfolding retry
retry-Retried zero f w = elim (Bool-cases (is_conflict (f w).0)) [
  | inl h ↦
      let e = a_conflict (f w).0 h in
      subst (λ r. Retried Same f 1 w r (f w).1) (sym e) (spent (ap (λ r. (r, (f w).1)) e))
  | inr h ↦ last refl (no_conflict (f w).0 h)
]
retry-Retried (suc n) f w = elim (Bool-cases (is_conflict (f w).0)) [
  | inl h ↦
      rw h (again (ap (λ r. (r, (f w).1)) (a_conflict (f w).0 h)) refl (retry-Retried n f (f w).1))
  | inr h ↦ rw h (last refl (no_conflict (f w).0 h))
]

abbrev stored_in : Cluster → Stored
stored_in w name namespace =
    if (w.job.name == name) && (w.job.namespace == namespace) then some w.job else none

job_if :
    (t : Bool) (j : RenovateJob) {a : RenovateJob} → (if t then some j else none) ≡ some a → j ≡ a
job_if true j h = cc
job_if false j h = cc

stored_job :
    (w : Cluster) (name namespace : Text) {a : RenovateJob}
    → stored_in w name namespace ≡ some a
    → w.job ≡ a
stored_job w name namespace h =
    job_if ((w.job.name == name) && (w.job.namespace == namespace)) w.job h

names_of :
    (j : RenovateJob) (name namespace : Text)
    → ((j.name == name) && (j.namespace == namespace)) ≡ true
    → (j.name ≡ name) × (j.namespace ≡ namespace)
names_of j name namespace h = ground (arith, eq_iff j.name name, eq_iff j.namespace namespace)

read_if :
    (t : Bool) (stored : RenovateJob) (name namespace : Text) {j : RenovateJob}
    → ((stored.name == name) && (stored.namespace == namespace)) ≡ t
    → (if t then ok stored else err not_found) ≡ ok j
    → ((if t then some stored else none) ≡ some j) × (j.name ≡ name) × (j.namespace ≡ namespace)
read_if true stored name namespace {j} e h =
    let same : stored ≡ j = cc in
    let (n, ns) = names_of stored name namespace e in
    (
      ap some same,
      subst (λ (x : RenovateJob). x.name ≡ name) same n,
      subst (λ (x : RenovateJob). x.namespace ≡ namespace) same ns,
    )
read_if false stored name namespace e h = cc

no_read_conflict :
    (t : Bool) (stored : RenovateJob) → (if t then ok stored else err not_found) ≢ err conflict
no_read_conflict true stored h = cc
no_read_conflict false stored h = cc

ok_or_error : {r : Result (Unit {0})} {e : Error} → r ≡ ok tt → r ≡ err e → ⊥
ok_or_error k h = cc

refused_write :
    (t u : Bool) (w w' : Cluster)
    → let out : Result (Unit {0}) × Cluster =
        if t then if u then (ok tt, w') else (err conflict, w) else (err not_found, w) in
      out.0 ≢ ok tt → w ≡ out.1
refused_write true true w w' h = absurd (h refl)
refused_write true false w w' h = refl
refused_write false u w w' h = refl

accepted_write :
    (t u : Bool) (w w' : Cluster)
    → let out : Result (Unit {0}) × Cluster =
        if t then if u then (ok tt, w') else (err conflict, w) else (err not_found, w) in
      out.0 ≡ ok tt → (t ≡ true) × (u ≡ true) × (out.1 ≡ w')
accepted_write true true w w' h = (refl, refl, refl)
accepted_write true false w w' h = cc
accepted_write false u w w' h = cc

same_number : (m n : ℕ) → nat_eq m n ≡ true → m ≡ n
same_number m n h = ground arith

some_if : {t : Bool} {j : RenovateJob} → t ≡ true → (if t then some j else none) ≡ some j
some_if {t} {j} h = rw h

put_if :
    (t : Bool) (a b : RenovateJob)
    → (if t then some b else none) ≡ (if t then some b else if t then some a else none)
put_if true a b = refl
put_if false a b = refl

put_job :
    (w : Cluster) (status : RenovateJobStatus) (v : ℕ)
    → stored_in (record w { job = with_status w.job status v })
      ≡ put (stored_in w) (with_status w.job status v)
put_job w status v = fun_ext λ name. fun_ext λ namespace.
    put_if ((w.job.name == name) && (w.job.namespace == namespace)) w.job
      (with_status w.job status v)

no_panic : {A : Type 0} (t : Bool) (a : A) → (if t then ok a else err not_found) ≢ err panic
no_panic true a h = cc
no_panic false a h = cc

secret_if :
    {A : Type 0} (t : Bool) (a : A) (w : Cluster)
    → (let out : Result A × Cluster = if t then (ok a, w) else (err not_found, w) in out.0)
      ≢ err panic
secret_if true a w h = cc
secret_if false a w h = cc

pub cluster-NeverPanics : NeverPanics cluster_client
unfolding cluster_client
cluster-NeverPanics = record {
  get = λ name namespace w. no_panic ((w.job.name == name) && (w.job.namespace == namespace)) w.job;
  get_secret = λ name namespace w. secret_if (name == text "tokens") w.secret w;
}

pub cluster_laws : ClientLaws cluster_client
unfolding cluster_client
cluster_laws = record {
  stored = stored_in;
  Others = Same;
  Others-refl = λ w. refl;
  Others-trans = λ e f. e ∙ f;
  optimistic = λ v w name namespace a b o e f k.
      sym (stored_job v name namespace e)
      ∙ (ap (λ (x : Cluster). x.job) o ∙ stored_job w name namespace f);
  get_others = λ name namespace w. refl;
  get_ok = λ name namespace w j h. read_if _ w.job name namespace refl h;
  get_no_conflict = λ name namespace w h. no_read_conflict _ w.job h;
  update_conflict = λ j w h. refused_write _ _ w _ (λ k. ok_or_error k h);
  update_unknown = λ j w e h. inl (refused_write _ _ w _ (λ k. ok_or_error k h));
  update_ok = λ j w h.
      let v = suc w.job.meta.resource_version in
      let (t, u, e) = accepted_write _ _ w (record w { job = with_status w.job j.status v }) h in
      (w, refl, w.job, some_if t, same_number _ _ u, v, ap stored_in e ∙ put_job w j.status v);
  metrics_others = λ v labels w. refl;
  retry_lem = λ f w. retry-Retried 4 f w;
}
