-- ===== src/Kube/Laws.antt =====
-- What the documentation of the API server and of client-go promises of a `Client`: reads return what
-- is stored, a status write happens only on the version that was read, and RetryOnConflict runs its
-- function at most five times and again only after a conflict. `Others w w'` says that from `w` to `w'`
-- only others have written. After any other error than a conflict, such as a timeout, it is unknown
-- whether the write was made.
use mogenius_renovate_operat.Prelude.{
  ℕ, zero, suc, refl, ◌≡◌, ◌≢◌, ◌&&◌, ◌⊎◌, Option, some, List, if◌then◌else◌,
}
use mogenius_renovate_operat.Prelude.Text.{Text, ◌==◌}
use mogenius_renovate_operat.Api.{RenovateJob, RenovateJobStatus}
use mogenius_renovate_operat.Kube.{Error, continue, Result, ok, err, conflict, Io, Client, Vector}

-- A success of two actions in a row is one of both.
pub continue-ok :
    {W A B : Type 0} (r : Result A) (f : A → Io W B) (w : W) {b : B}
    → (continue r f w).0 ≡ ok b
    → (a : A) × (r ≡ ok a) × ((f a w).0 ≡ ok b)
continue-ok (ok a) f w h = (a, refl, h)
continue-ok (err e) f w h = cc

-- What the API server stores under a name and a namespace.
abbrev pub Stored : Type 0
Stored = Text → Text → Option RenovateJob

-- The store after a status write of `status` to the object `c`, which gets the version `v`.
abbrev pub with_status : RenovateJob → RenovateJobStatus → ℕ → RenovateJob
with_status c status v = record c { meta = record c.meta { resource_version = v }; status = status }

abbrev pub put : Stored → RenovateJob → Stored
put st j name namespace =
    if (j.name == name) && (j.namespace == namespace) then some j else st name namespace

module _ {W : Type 0} (Others : W → W → Type 0) (f : Io W (Unit {0})) where
  -- A run of `f` under RetryOnConflict with `n` attempts left, from `w`, with its result.
  pub data Retried : ℕ → W → Result (Unit {0}) → W → Type 0 where
    last :
        {n : ℕ} {w : W} {r : Result (Unit {0})} {w' : W}
        → f w ≡ (r, w')
        → r ≢ err conflict
        → Retried (suc n) w r w'
    spent : {w w' : W} → f w ≡ (err conflict, w') → Retried (suc zero) w (err conflict) w'
    again :
        {n : ℕ} {w w' v v' : W} {r : Result (Unit {0})}
        → f w ≡ (err conflict, w')
        → Others w' v
        → Retried n v r v'
        → Retried (suc n) w r v'

-- A status write of `j` from `w` to `w'`, on the version that `j` has, among writes of others.
abbrev pub Write : {W : Type 0} → (W → Stored) → (W → W → Type 0) → RenovateJob → W → W → Type 0
Write {W} stored Others j w w' =
    (m : W) × Others w m
    × (cur : RenovateJob) × (stored m j.name j.namespace ≡ some cur)
    × (cur.meta.resource_version ≡ j.meta.resource_version)
    × (v : ℕ) × (stored w' ≡ put (stored m) (with_status cur j.status v))

pub record ClientLaws {W : Type 0} (c : Client W) : Type 1 where
  pub stored : W → Stored
  pub Others : W → W → Type 0
  pub Others-refl : (w : W) → Others w w
  pub Others-trans : {u v w : W} → Others u v → Others v w → Others u w
  -- Versions tell the states of one object apart.
  pub optimistic :
      (v w : W) (name namespace : Text) (a b : RenovateJob)
      → Others v w
      → stored v name namespace ≡ some a
      → stored w name namespace ≡ some b
      → a.meta.resource_version ≡ b.meta.resource_version
      → a ≡ b
  -- A read changes nothing, returns what is stored, under its own name, and meets no conflict.
  pub get_others : (name namespace : Text) (w : W) → Others w (c.get name namespace w).1
  pub get_ok :
      (name namespace : Text) (w : W) (j : RenovateJob)
      → (c.get name namespace w).0 ≡ ok j
      → (stored (c.get name namespace w).1 name namespace ≡ some j)
        × (j.name ≡ name)
        × (j.namespace ≡ namespace)
  pub get_no_conflict : (name namespace : Text) (w : W) → (c.get name namespace w).0 ≢ err conflict
  -- A write that is refused for its version changes nothing.
  pub update_conflict :
      (j : RenovateJob) (w : W)
      → (c.status_update j w).0 ≡ err conflict
      → Others w (c.status_update j w).1
  -- Whether a write was made that ends in another error is unknown.
  pub update_unknown :
      (j : RenovateJob) (w : W) (e : Error)
      → (c.status_update j w).0 ≡ err e
      → Others w (c.status_update j w).1 ⊎ Write stored Others j w (c.status_update j w).1
  -- A write that succeeds replaces the status of the version that its argument has.
  pub update_ok :
      (j : RenovateJob) (w : W)
      → (c.status_update j w).0 ≡ ok tt
      → Write stored Others j w (c.status_update j w).1
  pub metrics_others :
      (v : Vector) (labels : List Text) (w : W) → Others w (c.delete_label_values v labels w)
  pub retry_lem :
      (f : Io W (Unit {0})) (w : W)
      → Retried Others f 5 w (c.retry_on_conflict f w).0 (c.retry_on_conflict f w).1
