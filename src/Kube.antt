-- ===== src/Kube.antt =====
-- What the operator asks of the Kubernetes API server through controller-runtime's client, of
-- client-go's retry package and of the Prometheus vectors. None of it stands in this repository: it
-- is a record of functions over an unknown `W`, the state of the cluster and of all that the operator
-- does not control. The child `Laws` says what their documentation promises.
pub mod Laws
use mogenius_renovate_operat.Prelude.{Bool, List}
use mogenius_renovate_operat.Prelude.Text.{Text}
use mogenius_renovate_operat.Prelude.Assoc.{Assoc}
use mogenius_renovate_operat.Api.{RenovateJob, Time}

-- Errors as far as the operator tells them apart: errors.IsNotFound, errors.IsConflict. `panic` is a
-- run-time panic, which no caller handles.
pub data Error : Type 0 where
  not_found conflict panic : Error
  other_error : Text → Error

pub data Result {ℓ} (A : Type ℓ) : Type ℓ where
  ok : A → Result A
  err : Error → Result A

-- An action on the world that may fail. What was done before an error stays done.
abbrev pub Io : Type 0 → Type 0 → Type 0
Io W A = W → Result A × W

module _ {W A B : Type 0} where
  abbrev pub continue : Result A → (A → Io W B) → Io W B
  continue (ok a) f w = f a w
  continue (err e) f w = (err e, w)

  infixl 5 ◌>>=◌
  abbrev pub ◌>>=◌ : Io W A → (A → Io W B) → Io W B
  ◌>>=◌ m f w = let (r, w') = m w in continue r f w'

module _ {W : Type 0} {B : Type 0} where
  infixl 5 ◌>>◌
  abbrev pub ◌>>◌ : Io W (Unit {0}) → Io W B → Io W B
  m >> k = m >>= λ _. k

module _ {W A : Type 0} where
  abbrev pub pure : A → Io W A
  pure a w = (ok a, w)

  abbrev pub raise : Error → Io W A
  raise e w = (err e, w)

-- The label vectors of src/metricStore/metrics.go.
pub data Vector : Type 0 where
  project_runs run_failed dependency_issues : Vector

pub record Client (W : Type 0) : Type 0 where
  -- client.Get of a RenovateJob, by name and namespace
  pub get : Text → Text → Io W RenovateJob
  -- client.List of the RenovateJobs
  pub list : Io W (List RenovateJob)
  -- client.Status().Update
  pub status_update : RenovateJob → Io W (Unit {0})
  -- client.Get of a Secret: its data
  pub get_secret : Text → Text → Io W (Assoc Text)
  -- retry.RetryOnConflict(retry.DefaultRetry, fn)
  pub retry_on_conflict : Io W (Unit {0}) → Io W (Unit {0})
  -- v1.Now()
  pub now : W → Time
  -- DeleteLabelValues of a vector
  pub delete_label_values : Vector → List Text → W → W
  -- WithLabelValues of a vector, and Set of the gauge or Inc of the counter
  pub set_gauge : Vector → List Text → Bool → W → W
  pub inc_counter : Vector → List Text → W → W
