-- ===== src/Scheduler/Consistent.antt =====
-- The scheduler's map, the cron library and the health record agree: src/scheduler/scheduler.go.
use mogenius_renovate_operat.Prelude.{
  ℕ, Bool, true, false, Option, none, some, ◌≡◌, ◌≢◌, ◌⊎◌, refl, sym, ap, ◌∙◌, if◌then◌else◌, arith,
  Bool-cases, inl, inr, nat_eq,
}
use mathlib.Core.Path.{subst}
use mogenius_renovate_operat.Prelude.Text.{Text, ◌==◌, eq→≡, ≡→eq, eq_refl}
use mogenius_renovate_operat.Prelude.Assoc.{
  Assoc, lookup, insert, delete, lookup-insert, lookup-delete,
}
use mogenius_renovate_operat.Kube.{ok}
use mogenius_renovate_operat.Scheduler.{SchedulerEntry, Scheduler, Cron}
use mogenius_renovate_operat.Scheduler.Laws.{CronLaws}

kept_if :
    {A : Type 0} (t : Bool) {o : Option A} {a : A}
    → (if t then none else o) ≡ some a
    → (t ≡ false) × (o ≡ some a)
kept_if true h = cc
kept_if false h = (refl, h)

true_is_not_false : false ≢ true
true_is_not_false h = cc

none_is_not_some : {A : Type 0} {a : A} → none ≢ some a
none_is_not_some h = cc

some_inj : {A : Type 0} {a b : A} → some a ≡ some b → a ≡ b
some_inj h = cc

same_id : (a b : ℕ) → nat_eq a b ≡ true → a ≡ b
same_id a b h = ground arith

other_id : (a b : ℕ) → nat_eq a b ≡ false → a ≢ b
other_id a b h = ground arith

module _ {W : Type 0} {cron : Cron W} (laws : CronLaws cron) where
  -- The entries of the map are exactly the active ones of the cron library, one for each name.
  pub record Runs (entries : Assoc SchedulerEntry) (w : W) : Type 0 where
    pub runs :
        (name : Text) (entry : SchedulerEntry)
        → lookup name entries ≡ some entry
        → laws.active w entry.entry_id ≡ some entry.schedule
    pub owned :
        (id : ℕ) (expr : Text)
        → laws.active w id ≡ some expr
        → (name : Text) × (entry : SchedulerEntry) × (lookup name entries ≡ some entry)
          × (entry.entry_id ≡ id)
    pub apart :
        (a b : Text) (e f : SchedulerEntry)
        → lookup a entries ≡ some e
        → lookup b entries ≡ some f
        → e.entry_id ≡ f.entry_id
        → a ≡ b

  pub removed-Runs :
      (name : Text) (entry : SchedulerEntry) (entries : Assoc SchedulerEntry) (w : W)
      → lookup name entries ≡ some entry
      → Runs entries w
      → Runs (delete name entries) (cron.remove entry.entry_id w)
  removed-Runs name entry entries w here r =
      let kept : (n : Text) (e : SchedulerEntry)
          → lookup n (delete name entries) ≡ some e
          → ((name == n) ≡ false) × (lookup n entries ≡ some e) =
        λ n e h. kept_if (name == n) (sym (lookup-delete name n entries) ∙ h) in
      record {
        runs = λ n e h.
            let (ne, l) = kept n e h in
            laws.remove_others entry.entry_id e.entry_id w (λ same.
              true_is_not_false (sym ne ∙ ≡→eq name n (r.apart name n entry e here l same)))
            ∙ r.runs n e l;
        owned = λ id expr h. elim (Bool-cases (nat_eq entry.entry_id id)) [
          | inl e ↦ absurd (
              none_is_not_some (
                sym (laws.remove_same entry.entry_id w)
                ∙ (ap (laws.active (cron.remove entry.entry_id w)) (same_id entry.entry_id id e)
                    ∙ h)))
          | inr e ↦
              let (n, f, l, i) =
                r.owned id expr (
                  sym (laws.remove_others entry.entry_id id w (other_id entry.entry_id id e))
                  ∙ h) in
              elim (Bool-cases (name == n)) [
                | inl t ↦
                    let same : entry ≡ f =
                      some_inj (sym here ∙ (ap (λ k. lookup k entries) (eq→≡ name n t) ∙ l)) in
                    absurd (
                      other_id entry.entry_id id e
                        (ap (λ (z : SchedulerEntry). z.entry_id) same ∙ i))
                | inr t ↦ (
                  n,
                  f,
                  lookup-delete name n entries
                      ∙ (ap (λ b. if b then none else lookup n entries) t ∙ l),
                  i,
                )
              ]
        ];
        apart = λ a b e f h k same. r.apart a b e f (kept a e h).1 (kept b f k).1 same;
      }

  pub refused-Runs :
      (entries : Assoc SchedulerEntry) (v w : W)
      → ((id : ℕ) → laws.active w id ≡ laws.active v id)
      → Runs entries v
      → Runs entries w
  refused-Runs entries v w same r = record {
    runs = λ name entry h. same entry.entry_id ∙ r.runs name entry h;
    owned = λ id expr h. r.owned id expr (sym (same id) ∙ h);
    apart = r.apart;
  }

  -- An entry of the map after an insertion is the new one or one from before.
  Inserted : Text → SchedulerEntry → Assoc SchedulerEntry → Text → SchedulerEntry → Type 0
  Inserted name new entries n e =
      ((name ≡ n) × (new ≡ e)) ⊎ (((name == n) ≡ false) × (lookup n entries ≡ some e))

  inserted :
      (name : Text) (new : SchedulerEntry) (entries : Assoc SchedulerEntry) (n : Text)
      (e : SchedulerEntry)
      → lookup n (insert name new entries) ≡ some e
      → Inserted name new entries n e
  unfolding Inserted
  inserted name new entries n e h =
      let k = sym (lookup-insert name n new entries) ∙ h in
      elim (Bool-cases (name == n)) [
        | inl t ↦ inl (
          eq→≡ name n t,
          some_inj (sym (ap (λ b. if b then some new else lookup n entries) t) ∙ k),
        )
        | inr t ↦ inr (t, sym (ap (λ b. if b then some new else lookup n entries) t) ∙ k)
      ]

  pub added-Runs :
      (name expr : Text) (fn : Scheduler W → Scheduler W) (entries : Assoc SchedulerEntry) (w : W)
      (id : ℕ)
      → lookup name entries ≡ none
      → (cron.add_func expr fn w).0 ≡ ok id
      → Runs entries w
      → Runs
          (insert name (record { entry_id = id; schedule = expr }) entries)
          (cron.add_func expr fn w).1
  unfolding Inserted
  added-Runs name expr fn entries w id absent added r =
      let new : SchedulerEntry = record { entry_id = id; schedule = expr } in
      let fresh : (n : Text) (e : SchedulerEntry) → lookup n entries ≡ some e → id ≢ e.entry_id =
        λ n e l same.
          none_is_not_some
            (sym (laws.add_fresh expr fn w id added) ∙ (ap (laws.active w) same ∙ r.runs n e l)) in
      record {
        runs = λ n e h. elim (inserted name new entries n e h) [
          | inl (t, same) ↦
              subst
                (λ (z : SchedulerEntry).
                  laws.active (cron.add_func expr fn w).1 z.entry_id ≡ some z.schedule)
                same (laws.add_new expr fn w id added)
          | inr (t, l) ↦ laws.add_others expr fn w id e.entry_id added (fresh n e l) ∙ r.runs n e l
        ];
        owned = λ i expr' h. elim (Bool-cases (nat_eq id i)) [
          | inl e ↦ (
            name,
            new,
            lookup-insert name name new entries
                ∙ ap (λ b. if b then some new else lookup name entries) (eq_refl name),
            same_id id i e,
          )
          | inr e ↦
              let (n, f, l, j) =
                r.owned i expr'
                  (sym (laws.add_others expr fn w id i added (other_id id i e)) ∙ h) in
              elim (Bool-cases (name == n)) [
                | inl t ↦ absurd (
                    none_is_not_some
                      (sym absent ∙ (ap (λ k. lookup k entries) (eq→≡ name n t) ∙ l)))
                | inr t ↦ (
                  n,
                  f,
                  lookup-insert name n new entries
                      ∙ (ap (λ b. if b then some new else lookup n entries) t ∙ l),
                  j,
                )
              ]
        ];
        apart = λ a b e f h k same. elim (inserted name new entries a e h) [
          | inl (s, p) ↦ elim (inserted name new entries b f k) [
            | inl (t, q) ↦ sym s ∙ t
            | inr (t, l) ↦ absurd (fresh b f l (ap (λ (z : SchedulerEntry). z.entry_id) p ∙ same))
          ]
          | inr (s, l) ↦ elim (inserted name new entries b f k) [
            | inl (t, q) ↦
                absurd (fresh a e l (ap (λ (z : SchedulerEntry). z.entry_id) q ∙ sym same))
            | inr (t, m) ↦ r.apart a b e f l m same
          ]
        ];
      }
