-- ===== src/Manager/Atomic.antt =====
-- The read-modify-write loops of src/internal/crdManager/renovateJobManager.go are atomic: under the
-- laws of the API server and of RetryOnConflict a round, and so the loop, has an `Outcome`.
use mogenius_renovate_operat.Prelude.{ℕ, ◌≡◌, refl, sym, ap, ◌∙◌, ◌⊎◌, inl, inr, Option, none, some}
use mathlib.Core.Path.{subst}
use mogenius_renovate_operat.Prelude.Text.{Text}
use mogenius_renovate_operat.Api.{RenovateJob, RenovateJobStatus}
use mogenius_renovate_operat.Kube.{Error, Result, ok, err, conflict, Client}
use mogenius_renovate_operat.Kube.Laws.{ClientLaws, Write, Retried, last, spent, again}
use mogenius_renovate_operat.Manager.Edit.{
  save, write, edit, Committed, Skipped, Outcome, wrote, skipped, refused,
}

pub Result-cases {ℓ} :
    {A : Type ℓ} (r : Result A) → ((a : A) × (r ≡ ok a)) ⊎ ((e : _) × (r ≡ err e))
Result-cases (ok a) = inl (a, refl)
Result-cases (err e) = inr (e, refl)

module _ {W : Type 0} {c : Client W} (laws : ClientLaws c) (name namespace : Text)
    (Spec : RenovateJob → Option RenovateJobStatus → Type 0) where
  pub Committed-later :
      {u v w : W}
      → laws.Others u v
      → Committed laws name namespace Spec v w
      → Committed laws name namespace Spec u w
  Committed-later o k = record {
    before = k.before;
    job = k.job;
    status = k.status;
    version = k.version;
    after = k.after;
    others_before = laws.Others-trans o k.others_before;
    found = k.found;
    by_spec = k.by_spec;
    written = k.written;
    others_after = k.others_after;
  }

  Skipped-later :
      {u v w : W}
      → laws.Others u v
      → Skipped laws name namespace Spec v w
      → Skipped laws name namespace Spec u w
  Skipped-later o k = record {
    at = k.at;
    job = k.job;
    others = laws.Others-trans o k.others;
    found = k.found;
    by_spec = k.by_spec;
  }

  -- Others may write before an outcome.
  later :
      {u v w : W} {r : Result (Unit {0})}
      → laws.Others u v
      → Outcome laws name namespace Spec r v w
      → Outcome laws name namespace Spec r u w
  later o (wrote n k) = wrote n (Committed-later o k)
  later o (skipped e k) = skipped e (Skipped-later o k)
  later o (refused n k) = refused n (laws.Others-trans o k)

  -- A write of a job that was read at `v` commits it.
  update-Committed :
      (j : RenovateJob) (status : RenovateJobStatus) (v w w' : W)
      → j.name ≡ name
      → j.namespace ≡ namespace
      → laws.stored v name namespace ≡ some j
      → laws.Others v w
      → Spec j (some status)
      → (u : W) → Write laws.stored laws.Others (record j { status = status }) w u
      → laws.Others u w'
      → Committed laws name namespace Spec w w'
  update-Committed j status v w w' en es st o sp u (m, om, cur, found, same, version, written)
        after =
      let found' : laws.stored m name namespace ≡ some cur = rw (← en, ← es) found in
      let is_cur : j ≡ cur =
        laws.optimistic v m name namespace j cur (laws.Others-trans o om) st found' (sym same) in
      record {
        before = m;
        job = cur;
        status = status;
        version = version;
        after = u;
        others_before = om;
        found = found';
        by_spec = subst (λ x. Spec x (some status)) is_cur sp;
        written = written;
        others_after = after;
      }

  -- The end of a write that answers an error.
  failed-Outcome :
      (e : Error) (w w' : W)
      → (e ≡ conflict → laws.Others w w')
      → laws.Others w w' ⊎ Committed laws name namespace Spec w w'
      → Outcome laws name namespace Spec (err e) w w'
  failed-Outcome e w w' h (inl o) = refused (λ q. cc) o
  failed-Outcome conflict w w' h (inr k) = refused (λ q. cc) (h refl)
  failed-Outcome e w w' h (inr k) = wrote (λ q. cc) k

  -- The write of a job that was read at `v`.
  save-Outcome :
      (j : RenovateJob) (status : RenovateJobStatus) (v w : W)
      → j.name ≡ name
      → j.namespace ≡ namespace
      → laws.stored v name namespace ≡ some j
      → laws.Others v w
      → Spec j (some status)
      → let f = save c (record j { status = status }) w in
        Outcome laws name namespace Spec f.0 w f.1
  unfolding save
  save-Outcome j status v w en es st o sp =
      let u = c.status_update (record j { status = status }) w in
      let g = c.get j.name j.namespace u.1 in
      elim (Result-cases u.0) [
        | inr (e, p) ↦ rw p (
            failed-Outcome e w u.1
              (λ q. laws.update_conflict (record j { status = status }) w (p ∙ ap err q))
              (elim (laws.update_unknown (record j { status = status }) w e p) [
                | inl same ↦ inl same
                | inr made ↦ inr (
                    update-Committed j status v w u.1 en es st o sp u.1 made (laws.Others-refl u.1))
              ]))
        | inl (a, p) ↦ elim (Result-cases g.0) [
          | inr (e, q) ↦
              rw (p, q)
                (wrote (λ z. laws.get_no_conflict j.name j.namespace u.1 (cc))
                  (update-Committed j status v w g.1 en es st o sp u.1
                    (laws.update_ok (record j { status = status }) w p)
                    (laws.get_others j.name j.namespace u.1)))
          | inl (b, q) ↦
              rw (p, q)
                (wrote (λ z. cc)
                  (update-Committed j status v w g.1 en es st o sp u.1
                    (laws.update_ok (record j { status = status }) w p)
                    (laws.get_others j.name j.namespace u.1)))
        ]
      ]

  write-Outcome :
      (j : RenovateJob) (s : Option RenovateJobStatus) (v w : W)
      → j.name ≡ name
      → j.namespace ≡ namespace
      → laws.stored v name namespace ≡ some j
      → laws.Others v w
      → Spec j s
      → let f = write c j s w in Outcome laws name namespace Spec f.0 w f.1
  unfolding write
  write-Outcome j none v w en es st o sp =
      skipped refl
        (record { at = v; job = j; others = laws.Others-refl w; found = st; by_spec = sp })
  write-Outcome j (some status) v w en es st o sp = save-Outcome j status v w en es st o sp

  module _ (act : RenovateJob → W → Option RenovateJobStatus × W)
      (act_spec : (j : RenovateJob) (w : W) → Spec j (act j w).0)
      (act_others : (j : RenovateJob) (w : W) → laws.Others w (act j w).1) where
    edit-Outcome :
        (w : W) → let f = edit c name namespace act w in Outcome laws name namespace Spec f.0 w f.1
    unfolding edit
    edit-Outcome w =
        let g = c.get name namespace w in
        elim (Result-cases g.0) [
          | inr (e, p) ↦ rw p (refused (λ q. cc) (laws.get_others name namespace w))
          | inl (j, p) ↦ rw p (
              let (st, en, es) = laws.get_ok name namespace w j p in
              let a = act j g.1 in
              later (laws.Others-trans (laws.get_others name namespace w) (act_others j g.1))
                (write-Outcome j a.0 g.1 a.1 en es st (act_others j g.1) (act_spec j g.1)))
        ]

    conflict_others :
        {w w' : W} → Outcome laws name namespace Spec (err conflict) w w' → laws.Others w w'
    conflict_others (wrote n k) = absurd (n refl)
    conflict_others (skipped e k) = cc
    conflict_others (refused n o) = o

    retried-Outcome :
        {n : ℕ} {w : W} {r : Result (Unit {0})} {w' : W}
        → Retried laws.Others (edit c name namespace act) n w r w'
        → Outcome laws name namespace Spec r w w'
    retried-Outcome (last {w = w} p n) =
        subst (λ x. Outcome laws name namespace Spec x.0 w x.1) p (edit-Outcome w)
    retried-Outcome (spent {w = w} p) =
        subst (λ x. Outcome laws name namespace Spec x.0 w x.1) p (edit-Outcome w)
    retried-Outcome (again {w = w} p o rest) =
        later
          (laws.Others-trans
            (conflict_others
              (subst (λ x. Outcome laws name namespace Spec x.0 w x.1) p (edit-Outcome w)))
            o)
          (retried-Outcome rest)

    -- The whole loop of a writer.
    pub retry_edit-Outcome :
        (w : W)
        → let f = c.retry_on_conflict (edit c name namespace act) w in
          Outcome laws name namespace Spec f.0 w f.1
    retry_edit-Outcome w = retried-Outcome (laws.retry_lem (edit c name namespace act) w)
