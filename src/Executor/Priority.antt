-- ===== src/Executor/Priority.antt =====
-- The order in which a round of src/internal/renovate/executor.go tries its projects.
use mogenius_renovate_operat.Prelude.{
  ◌≡◌, refl, ◌∙◌, inl, inr, Bool, not, ◌&&◌, List, [], ◌∷◌, arith, select, All, Bool-cases,
}
use mogenius_renovate_operat.Prelude.Int.{ℤ, ◌≤ℤ◌, ltb_ℤ, ≤ℤ_of_not_ltb, ≤ℤ_of_ltb}
use mogenius_renovate_operat.Api.{ProjectStatus}
use mogenius_renovate_operat.Executor.{insert_by_priority, sort_by_priority}

≤ℤ_trans : (a b c : ℤ) → a ≤ℤ b → b ≤ℤ c → a ≤ℤ c
≤ℤ_trans a b c h k = omega (arith, h, k)

-- No project has a lower priority than a later one.
abbrev pub IsOrdered : List ProjectStatus → Type 0
IsOrdered [] = Unit
IsOrdered (p ∷ ps) = All (λ q. q.priority ≤ℤ p.priority) ps × IsOrdered ps

-- Whether two priorities are equal.
abbrev pub same_priority : ℤ → ProjectStatus → Bool
same_priority k p = not (ltb_ℤ k p.priority) && not (ltb_ℤ p.priority k)

All-insert :
    (P : ProjectStatus → Type 0) (p : ProjectStatus) (ps : List ProjectStatus)
    → P p
    → All P ps
    → All P (insert_by_priority p ps)
unfolding insert_by_priority
All-insert P p [] h hs = (h, tt)
All-insert P p (q ∷ ps) h hs = elim (Bool-cases (ltb_ℤ p.priority q.priority)) [
  | inl e ↦ rw e (hs.0, All-insert P p ps h hs.1)
  | inr e ↦ rw e (h, hs)
]

All-below :
    (k l : ℤ) (ps : List ProjectStatus)
    → k ≤ℤ l
    → All (λ q. q.priority ≤ℤ k) ps
    → All (λ q. q.priority ≤ℤ l) ps
All-below k l [] h hs = tt
All-below k l (q ∷ ps) h hs = (≤ℤ_trans q.priority k l hs.0 h, All-below k l ps h hs.1)

insert-IsOrdered :
    (p : ProjectStatus) (ps : List ProjectStatus)
    → IsOrdered ps
    → IsOrdered (insert_by_priority p ps)
unfolding insert_by_priority
insert-IsOrdered p [] h = (tt, tt)
insert-IsOrdered p (q ∷ ps) h = elim (Bool-cases (ltb_ℤ p.priority q.priority)) [
  | inl e ↦ rw e (
    All-insert (λ r. r.priority ≤ℤ q.priority) p ps (≤ℤ_of_ltb p.priority q.priority e) h.0,
    insert-IsOrdered p ps h.1,
  )
  | inr e ↦
      let le = ≤ℤ_of_not_ltb p.priority q.priority e in
      rw e ((le, All-below q.priority p.priority ps le h.0), h)
]

select-insert :
    (k : ℤ) (p : ProjectStatus) (ps : List ProjectStatus)
    → select (same_priority k) (insert_by_priority p ps) ≡ select (same_priority k) (p ∷ ps)
unfolding insert_by_priority
select-insert k p [] = refl
select-insert k p (q ∷ ps) = ground (arith, select-insert k p ps)

sort-IsOrdered : (ps : List ProjectStatus) → IsOrdered (sort_by_priority ps)
unfolding sort_by_priority
sort-IsOrdered [] = tt
sort-IsOrdered (p ∷ ps) = insert-IsOrdered p (sort_by_priority ps) (sort-IsOrdered ps)

select-sort :
    (k : ℤ) (ps : List ProjectStatus)
    → select (same_priority k) (sort_by_priority ps) ≡ select (same_priority k) ps
unfolding sort_by_priority
select-sort k [] = refl
select-sort k (p ∷ ps) = select-insert k p (sort_by_priority ps) ∙ ground (arith, select-sort k ps)

-- A round tries the projects in the order of their priorities, the highest first, and keeps for each
-- priority exactly the projects that have it, in the order of the status.
pub sort_by_priority-IsOrdered :
    (ps : List ProjectStatus)
    → IsOrdered (sort_by_priority ps)
      × ((k : ℤ) → select (same_priority k) (sort_by_priority ps) ≡ select (same_priority k) ps)
sort_by_priority-IsOrdered ps = (sort-IsOrdered ps, λ k. select-sort k ps)
