-- ===== src/Manager/Edit.antt =====
-- Every writer of src/internal/crdManager/renovateJobManager.go is one loop: load the job, compute a
-- new status, write it and reload. `edit` is one round of it, and `Outcome` is what a round, or the
-- whole loop, may do to the store when others write in between.
use mogenius_renovate_operat.Prelude.{ℕ, ◌≡◌, ◌≢◌, Option, none, some}
use mogenius_renovate_operat.Prelude.Text.{Text}
use mogenius_renovate_operat.Api.{RenovateJob, RenovateJobStatus}
use mogenius_renovate_operat.Kube.{Result, ok, err, conflict, Io, Client, ◌>>=◌, pure}
use mogenius_renovate_operat.Manager.{update_renovate_job_status}
use mogenius_renovate_operat.Kube.Laws.{ClientLaws, put, with_status}

module _ {W : Type 0} (c : Client W) where
  unfoldable pub save : RenovateJob → Io W (Unit {0})
  unfolding update_renovate_job_status
  save j = do _ ← update_renovate_job_status c j; pure tt

  unfoldable pub write : RenovateJob → Option RenovateJobStatus → Io W (Unit {0})
  unfolding save
  write j none = pure tt
  write j (some status) = save (record j { status = status })

  unfoldable pub act_and_write :
      (RenovateJob → W → Option RenovateJobStatus × W) → RenovateJob → Io W (Unit {0})
  unfolding write
  act_and_write act j w = let (o, w') = act j w in write j o w'

  unfoldable pub edit :
      Text → Text → (RenovateJob → W → Option RenovateJobStatus × W) → Io W (Unit {0})
  unfolding act_and_write
  edit name namespace act = c.get name namespace >>= act_and_write act

module _ {W : Type 0} {c : Client W} (laws : ClientLaws c) (name namespace : Text) where
  -- From `w` to `w'` the status of the job was written once, from the very state that the store had
  -- at that moment, and nothing else was written but by others.
  pub record Committed (Spec : RenovateJob → Option RenovateJobStatus → Type 0) (w w' : W)
      : Type 0 where
    pub before : W
    pub job : RenovateJob
    pub status : RenovateJobStatus
    pub version : ℕ
    pub after : W
    pub others_before : laws.Others w before
    pub found : laws.stored before name namespace ≡ some job
    pub by_spec : Spec job (some status)
    pub written : laws.stored after ≡ put (laws.stored before) (with_status job status version)
    pub others_after : laws.Others after w'

  -- The job was read, and the operation had nothing to write.
  pub record Skipped (Spec : RenovateJob → Option RenovateJobStatus → Type 0) (w w' : W)
      : Type 0 where
    pub at : W
    pub job : RenovateJob
    pub others : laws.Others w w'
    pub found : laws.stored at name namespace ≡ some job
    pub by_spec : Spec job none

  -- A success has written or had nothing to write. An error has written nothing, or it is no conflict
  -- and comes from the write itself or from the reload after it.
  pub data Outcome (Spec : RenovateJob → Option RenovateJobStatus → Type 0) (r : Result (Unit {0}))
      (w w' : W) : Type 0 where
    wrote : r ≢ err conflict → Committed Spec w w' → Outcome Spec r w w'
    skipped : r ≡ ok tt → Skipped Spec w w' → Outcome Spec r w w'
    refused : r ≢ ok tt → laws.Others w w' → Outcome Spec r w w'
