-- ===== src/Discovery/Wait.antt =====
-- When the wait for a discovery job ends: WaitForDiscoveryJob of src/internal/renovate/discoveryAgent.go,
-- whose loop has no limit.
use mogenius_renovate_operat.Prelude.{
  ℕ, zero, suc, ◌≤◌, Bool, true, false, Option, none, some, List, ◌≡◌, refl, ap, ◌∙◌, arith,
}
use mathlib.Core.Path.{subst}
use mogenius_renovate_operat.Prelude.Text.{Text, text}
use mogenius_renovate_operat.Api.{
  RenovateProjectStatus, scheduled, running, completed, failed, other, RenovateJob,
}
use mogenius_renovate_operat.Kube.{Error, other_error, Result, ok, err, Io}
use mogenius_renovate_operat.Discovery.{
  DiscoveryClient, wait_on, get_discovery_job_status, poll, looped, wait_loop, read_projects,
  after_wait, wait_for_discovery_job,
}

abbrev pub is_idle : RenovateProjectStatus → Bool
is_idle scheduled = true
is_idle (other s) = true
is_idle _ = false

module _ {W : Type 0} (x : DiscoveryClient W) (job : RenovateJob) (generation : Text) where
  -- The status of the job, asked for in a world.
  abbrev pub status_at : Io W RenovateProjectStatus
  status_at = get_discovery_job_status x job generation

  -- The wait from a world ends with a result in a world, after some questions for the status: when the job
  -- is completed, has failed, or cannot be asked for. While it runs the next question comes five
  -- seconds later, and at once if the status is any other.
  pub data Ends : W → Result (Unit {0}) → W → Type 0 where
    over : {v w : W} → status_at v ≡ (ok completed, w) → Ends v (ok tt) w
    failing :
        {v w : W}
        → status_at v ≡ (ok failed, w)
        → Ends v (err (other_error (text "discovery job failed"))) w
    unknown : {v w : W} {e : Error} → status_at v ≡ (err e, w) → Ends v (err e) w
    later :
        {v u w : W} {r : Result (Unit {0})}
        → status_at v ≡ (ok running, u)
        → Ends (x.sleep 5 u) r w
        → Ends v r w
    at_once :
        {v u w : W} {r : Result (Unit {0})} (s : RenovateProjectStatus)
        → is_idle s ≡ true
        → status_at v ≡ (ok s, u)
        → Ends u r w
        → Ends v r w

  -- A turn of the loop after an answer.
  turn :
      (W → Option (Result (Unit {0}) × W))
      → Result RenovateProjectStatus × W
      → Option (Result (Unit {0}) × W)
  turn next answered = looped x (wait_on x answered.0 answered.1) next

  turn-idle :
      (s : RenovateProjectStatus) (next : W → Option (Result (Unit {0}) × W)) (u : W)
      → is_idle s ≡ true
      → turn next (ok s, u) ≡ next u
  unfolding turn wait_on looped
  turn-idle scheduled next u h = refl
  turn-idle (other s) next u h = refl
  turn-idle running next u h = ground (arith, h)
  turn-idle completed next u h = ground (arith, h)
  turn-idle failed next u h = ground (arith, h)

  Ends→wait_loop :
      {v w : W} {r : Result (Unit {0})}
      → Ends v r w
      → (n : ℕ) × (wait_loop x job generation n v ≡ some (r, w))
  unfolding wait_loop poll turn wait_on looped
  Ends→wait_loop (over h) = (1, ap (turn (wait_loop x job generation 0)) h)
  Ends→wait_loop (failing h) = (1, ap (turn (wait_loop x job generation 0)) h)
  Ends→wait_loop (unknown h) = (1, ap (turn (wait_loop x job generation 0)) h)
  Ends→wait_loop (later h rest) =
      let (n, e) = Ends→wait_loop rest in (suc n, ap (turn (wait_loop x job generation n)) h ∙ e)
  Ends→wait_loop (at_once s idle h rest) =
      let (n, e) = Ends→wait_loop rest in
      (
        suc n,
        ap (turn (wait_loop x job generation n)) h
            ∙ (turn-idle s (wait_loop x job generation n) _ idle ∙ e),
      )

  looped-more :
      (polled : Result Bool × W) (next more : W → Option (Result (Unit {0}) × W))
      {out : Result (Unit {0}) × W}
      → ((u : W) → next u ≡ some out → more u ≡ some out)
      → looped x polled next ≡ some out
      → looped x polled more ≡ some out
  unfolding looped
  looped-more (ok true, u) next more le h = h
  looped-more (ok false, u) next more le h = le u h
  looped-more (err e, u) next more le h = h

  wait_loop-more :
      (n m : ℕ) (v : W) {out : Result (Unit {0}) × W}
      → n ≤ m
      → wait_loop x job generation n v ≡ some out
      → wait_loop x job generation m v ≡ some out
  unfolding wait_loop
  wait_loop-more zero m v le h = cc
  wait_loop-more (suc n) zero v le h = ground arith
  wait_loop-more (suc n) (suc m) v le h =
      looped-more (poll x job generation v) (wait_loop x job generation n)
        (wait_loop x job generation m) (λ u. wait_loop-more n m u (omega (arith, le))) h

  abbrev gives : Result (Unit {0}) → W → Option (Result (Unit {0}) × W)
  gives r w = some (r, w)

  ended :
      {a r : Result (Unit {0})} {u w : W} (v : W) → Ends v a u → gives a u ≡ gives r w → Ends v r w
  ended {a} {r} {u} {w} v ends e =
      let same_world : u ≡ w = cc in
      let same_result : a ≡ r = cc in
      subst (λ z. Ends v z w) same_result (subst (λ z. Ends v a z) same_world ends)

  turn-Ends :
      (n : ℕ) (v : W) (answered : Result RenovateProjectStatus × W) {w : W} {r : Result (Unit {0})}
      → status_at v ≡ answered
      → ((u : W) → wait_loop x job generation n u ≡ some (r, w) → Ends u r w)
      → turn (wait_loop x job generation n) answered ≡ some (r, w)
      → Ends v r w
  unfolding turn wait_on looped
  turn-Ends n v (ok completed, u) h ends e = ended v (over h) e
  turn-Ends n v (ok failed, u) h ends e = ended v (failing h) e
  turn-Ends n v (err error, u) h ends e = ended v (unknown h) e
  turn-Ends n v (ok running, u) h ends e = later h (ends (x.sleep 5 u) e)
  turn-Ends n v (ok scheduled, u) h ends e = at_once scheduled refl h (ends u e)
  turn-Ends n v (ok (other s), u) h ends e = at_once (other s) refl h (ends u e)

  wait_loop→Ends :
      (n : ℕ) (v : W) {w : W} {r : Result (Unit {0})}
      → wait_loop x job generation n v ≡ some (r, w)
      → Ends v r w
  unfolding wait_loop poll turn
  wait_loop→Ends zero v h = cc
  wait_loop→Ends (suc n) v h = turn-Ends n v (status_at v) refl (λ u. wait_loop→Ends n u) h

  -- What the wait answers once its loop has ended.
  abbrev pub answer : Result (Unit {0}) → W → Result (List Text) × W
  answer (ok tt) w = read_projects x job w
  answer (err e) w = (err e, w)

  answered-ok :
      (v : W) (loop : Option (Result (Unit {0}) × W)) {projects : List Text} {w : W}
      → ((r : Result (Unit {0})) (u : W) → loop ≡ some (r, u) → Ends v r u)
      → after_wait x job loop ≡ some (ok projects, w)
      → (u : W) × Ends v (ok tt) u × (read_projects x job u ≡ (ok projects, w))
  unfolding after_wait
  answered-ok v none ends h = cc
  answered-ok v (some (ok tt, u)) ends h = (u, ends (ok tt) u refl, cc)
  answered-ok v (some (err e, u)) ends h = cc

  answer-lem : (r : Result (Unit {0})) (u : W) → after_wait x job (some (r, u)) ≡ some (answer r u)
  unfolding after_wait
  answer-lem (ok tt) u = refl
  answer-lem (err e) u = refl

  -- The wait for a discovery job ends, with any fuel from some number on, if at some question the job is
  -- completed, has failed, or cannot be asked for: with the projects that are then read, or with that
  -- failure. It gives projects only if a question found the job completed, and then those that are read
  -- after it.
  pub wait_for_discovery_job-Ends :
      (v : W)
      → ((r : Result (Unit {0})) (u : W)
          → Ends v r u
          → (n : ℕ) × ((m : ℕ)
              → n ≤ m
              → wait_for_discovery_job x job generation m v ≡ some (answer r u)))
        × ((n : ℕ) (projects : List Text) (w : W)
            → wait_for_discovery_job x job generation n v ≡ some (ok projects, w)
            → (u : W) × Ends v (ok tt) u × (read_projects x job u ≡ (ok projects, w)))
  unfolding wait_for_discovery_job after_wait
  wait_for_discovery_job-Ends v = (
    λ r u ends.
        let (n, e) = Ends→wait_loop ends in
        (n, λ m le. ap (after_wait x job) (wait_loop-more n m v le e) ∙ answer-lem r u),
    λ n projects w h. answered-ok v (wait_loop x job generation n v) (λ r u. wait_loop→Ends n v) h,
  )
