-- ===== src/Examples/Schedules.antt =====
-- Runs of the scheduler, with a list of expressions as the cron library: the id of an entry is its place.
use mogenius_renovate_operat.Prelude.{
  ℕ, zero, suc, ◌≡◌, ◌≢◌, refl, sym, ap, ◌∙◌, Bool, true, false, Option, none, some, List, [], ◌∷◌,
  if◌then◌else◌, length,
}
use mathlib.Core.Path.{subst}
use mogenius_renovate_operat.Prelude.Text.{Text, text, ◌==◌}
use mogenius_renovate_operat.Prelude.Assoc.{lookup}
use mogenius_renovate_operat.Kube.{Error, other_error, Result, ok, err}
use mogenius_renovate_operat.Health.{new_health_check}
use mogenius_renovate_operat.Scheduler.{
  Scheduler, Cron, new_scheduler, add_schedule_replace_existing, remove_schedule,
}
use mogenius_renovate_operat.Scheduler.Laws.{CronLaws}
use mogenius_renovate_operat.Scheduler.Replace.{
  IsConsistent, Left, Listed, schedule_of, add_schedule_replace_existing-IsConsistent,
  remove_schedule-IsConsistent,
}

abbrev Table : Type 0
Table = List (Option Text)

at_place : Table → ℕ → Option Text
at_place [] id = none
at_place (e ∷ w) zero = e
at_place (e ∷ w) (suc id) = at_place w id

append : Text → Table → Table
append expr [] = some expr ∷ []
append expr (e ∷ w) = e ∷ append expr w

clear : ℕ → Table → Table
clear id [] = []
clear zero (e ∷ w) = none ∷ w
clear (suc id) (e ∷ w) = e ∷ clear id w

add_if : Bool → Text → Table → Result ℕ × Table
unfolding append
add_if true expr w = (err (other_error (text "bad expression")), w)
add_if false expr w = (ok (length w), append expr w)

unfoldable table_cron : Cron Table
unfolding add_if clear
table_cron = record {
  add_func = λ expr fn w. add_if (expr == text "bad") expr w;
  remove = clear;
  start = λ w. w;
  stop = λ w. w;
  next = λ expr w. some 60;
  now = λ w. 7;
}

at_place-end : (w : Table) → at_place w (length w) ≡ none
unfolding at_place
at_place-end [] = refl
at_place-end (e ∷ w) = at_place-end w

at_place-append : (expr : Text) (w : Table) → at_place (append expr w) (length w) ≡ some expr
unfolding at_place append
at_place-append expr [] = refl
at_place-append expr (e ∷ w) = at_place-append expr w

at_place-append_others :
    (expr : Text) (w : Table) (other : ℕ)
    → length w ≢ other
    → at_place (append expr w) other ≡ at_place w other
unfolding at_place append
at_place-append_others expr [] zero h = absurd (h refl)
at_place-append_others expr [] (suc other) h = refl
at_place-append_others expr (e ∷ w) zero h = refl
at_place-append_others expr (e ∷ w) (suc other) h =
    at_place-append_others expr w other (λ k. h (ap suc k))

at_place-clear : (id : ℕ) (w : Table) → at_place (clear id w) id ≡ none
unfolding at_place clear
at_place-clear id [] = refl
at_place-clear zero (e ∷ w) = refl
at_place-clear (suc id) (e ∷ w) = at_place-clear id w

at_place-clear_others :
    (id other : ℕ) (w : Table) → id ≢ other → at_place (clear id w) other ≡ at_place w other
unfolding at_place clear
at_place-clear_others id other [] h = refl
at_place-clear_others zero zero (e ∷ w) h = absurd (h refl)
at_place-clear_others zero (suc other) (e ∷ w) h = refl
at_place-clear_others (suc id) zero (e ∷ w) h = refl
at_place-clear_others (suc id) (suc other) (e ∷ w) h =
    at_place-clear_others id other w (λ k. h (ap suc k))

added_at :
    (b : Bool) (expr : Text) (w : Table) (id : ℕ)
    → (add_if b expr w).0 ≡ ok id
    → (length w ≡ id) × ((add_if b expr w).1 ≡ append expr w)
unfolding add_if
added_at true expr w id h = cc
added_at false expr w id h = (cc, refl)

refused_at :
    (b : Bool) (expr : Text) (w : Table) (e : Error)
    → (add_if b expr w).0 ≡ err e
    → (add_if b expr w).1 ≡ w
unfolding add_if
refused_at true expr w e h = refl
refused_at false expr w e h = cc

table_laws : CronLaws table_cron
unfolding table_cron
table_laws = record {
  active = at_place;
  add_fresh = λ expr fn w id h.
      let (same, made) = added_at _ expr w id h in
      subst (λ i. at_place w i ≡ none) same (at_place-end w);
  add_new = λ expr fn w id h.
      let (same, made) = added_at _ expr w id h in
      ap (λ v. at_place v id) made
      ∙ subst (λ i. at_place (append expr w) i ≡ some expr) same (at_place-append expr w);
  add_others = λ expr fn w id other h ne.
      let (same, made) = added_at _ expr w id h in
      ap (λ v. at_place v other) made
      ∙ at_place-append_others expr w other (λ k. ne (sym same ∙ k));
  add_err = λ expr fn w e h other. ap (λ v. at_place v other) (refused_at _ expr w e h);
  remove_same = at_place-clear;
  remove_others = at_place-clear_others;
}

-- A scheduler that has just started, with an empty table.
abbrev fresh : Scheduler Table
fresh = new_scheduler []

fresh-IsConsistent : IsConsistent table_laws fresh
unfolding IsConsistent table_laws at_place lookup Listed new_health_check
fresh-IsConsistent = (
  record { runs = λ name entry h. cc; owned = λ id expr h. cc; apart = λ a b e f h k same. cc },
  λ n. refl,
)

add_schedule_replace_existing-IsConsistent_example :
    let out =
      add_schedule_replace_existing table_cron
        (text "0 * * * *")
        (text "demo-ops")
        (λ s. s)
        fresh in
    IsConsistent table_laws out.1 × Left (text "demo-ops") (text "0 * * * *") fresh out.0 out.1
add_schedule_replace_existing-IsConsistent_example =
    add_schedule_replace_existing-IsConsistent table_laws (text "demo-ops") (text "0 * * * *")
      (λ s. s) fresh fresh-IsConsistent

remove_schedule-IsConsistent_example :
    let t = remove_schedule table_cron (text "demo-ops") fresh in
    IsConsistent table_laws t
    × ((n : Text)
        → schedule_of n t.entries
          ≡ (if text "demo-ops" == n then none else schedule_of n fresh.entries))
remove_schedule-IsConsistent_example =
    remove_schedule-IsConsistent table_laws (text "demo-ops") fresh fresh-IsConsistent
