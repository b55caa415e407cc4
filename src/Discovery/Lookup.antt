-- ===== src/Discovery/Lookup.antt =====
-- How the status of a discovery job is found: getDiscoveryJobStatusInternal of
-- src/internal/renovate/discoveryAgent.go.
use mogenius_renovate_operat.Prelude.{ℕ, zero, suc, ◌≡◌, ◌≢◌, refl}
use mogenius_renovate_operat.Prelude.Text.{Text}
use mogenius_renovate_operat.Api.{RenovateProjectStatus, RenovateJob}
use mogenius_renovate_operat.Kube.{
  Error, not_found, conflict, panic, other_error, Result, ok, err, Io,
}
use mogenius_renovate_operat.Jobs.{KubeJob}
use mogenius_renovate_operat.Discovery.{
  DiscoveryClient, discovery_status, look_up, retry_lookup, first_look, get_discovery_job_status,
}

module _ {W : Type 0} (x : DiscoveryClient W) (job : RenovateJob) (generation : Text) where
  again_if_missing : Result KubeJob × W → Io W KubeJob → Result KubeJob × W
  again_if_missing (err not_found, w) next = next w
  again_if_missing (r, w) next = (r, w)

  -- The answer of the first of at most `n` lookups that is not NotFound.
  unfoldable pub looks : ℕ → Io W KubeJob
  unfolding again_if_missing
  looks zero w = (err not_found, w)
  looks (suc n) w = again_if_missing (look_up x job generation w) (looks n)

  -- What the code makes of the answer of the repeated lookups.
  abbrev pub verdict : Result KubeJob × W → Result RenovateProjectStatus × W
  verdict (ok found, w) = (ok (discovery_status found), w)
  verdict (err not_found, w) = (err not_found, w)
  verdict (err conflict, w) = (err panic, w)
  verdict (err panic, w) = (err panic, w)
  verdict (err (other_error m), w) = (err panic, w)

  other_first :
      (e : Error) (w : W) → e ≢ not_found → first_look x job generation (err e) w ≡ (err e, w)
  unfolding first_look
  other_first not_found w h = absurd (h refl)
  other_first conflict w h = refl
  other_first panic w h = refl
  other_first (other_error m) w h = refl

  retried :
      (n : ℕ) (out : Result KubeJob × W)
      → ((w : W) → retry_lookup x job generation n (err not_found) w ≡ verdict (looks n w))
      → retry_lookup x job generation n out.0 out.1 ≡ verdict (again_if_missing out (looks n))
  unfolding retry_lookup again_if_missing
  retried n (ok found, w) ih = refl
  retried n (err not_found, w) ih = ih w
  retried zero (err conflict, w) ih = refl
  retried (suc n) (err conflict, w) ih = refl
  retried zero (err panic, w) ih = refl
  retried (suc n) (err panic, w) ih = refl
  retried zero (err (other_error m), w) ih = refl
  retried (suc n) (err (other_error m), w) ih = refl

  retry-verdict :
      (n : ℕ) (w : W) → retry_lookup x job generation n (err not_found) w ≡ verdict (looks n w)
  unfolding retry_lookup looks
  retry-verdict zero w = refl
  retry-verdict (suc n) w = retried n (look_up x job generation w) (retry-verdict n)

  -- The status of a discovery job is that of the job that the first lookup finds, and an error other than
  -- NotFound is returned. On NotFound the code waits a second and looks up to four times more. The first
  -- other answer decides: a job gives its status, but an error is not checked and crashes the caller.
  -- Five times NotFound is returned as NotFound.
  pub get_discovery_job_status-verdict :
      (w : W)
      → let first = look_up x job generation w in
        ((found : KubeJob)
          → first.0 ≡ ok found
          → get_discovery_job_status x job generation w ≡ (ok (discovery_status found), first.1))
        × (first.0 ≡ err not_found
            → get_discovery_job_status x job generation w ≡ verdict (looks 4 (x.sleep 1 first.1)))
        × ((e : Error)
            → e ≢ not_found
            → first.0 ≡ err e
            → get_discovery_job_status x job generation w ≡ (err e, first.1))
  unfolding get_discovery_job_status first_look
  get_discovery_job_status-verdict w = (
    λ found h. rw h refl,
    λ h. rw h (retry-verdict 4 (x.sleep 1 (look_up x job generation w).1)),
    λ e ne h. rw h (other_first e _ ne),
  )
