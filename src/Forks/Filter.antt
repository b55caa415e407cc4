-- ===== src/Forks/Filter.antt =====
-- What the fork filter keeps, and what it needs: src/internal/gitprovider/client.go.
use mogenius_renovate_operat.Prelude.{Bool, false, not, List, [], ◌∷◌, ◌≡◌, refl, select}
use mogenius_renovate_operat.Prelude.Text.{Text}
use mogenius_renovate_operat.Kube.{Result, ok, err}
use mogenius_renovate_operat.Forks.{
  GitProviderClient, ForkApi, is_kept, filter_results, filter_forks,
}

-- Whether an answer says that a project is a fork; an error does not.
abbrev pub says_fork : Result Bool → Bool
says_fork (ok is_fork) = is_fork
says_fork (err e) = false

is_kept-not : (r : Result Bool) → is_kept r ≡ not (says_fork r)
unfolding is_kept
is_kept-not (ok is_fork) = refl
is_kept-not (err e) = refl

filter_results-select :
    (answer : Text → Result Bool) (projects : List Text)
    → filter_results answer projects ≡ select (λ p. not (says_fork (answer p))) projects
unfolding filter_results
filter_results-select answer [] = refl
filter_results-select answer (project ∷ projects) =
    rw (is_kept-not (answer project)) (rw (filter_results-select answer projects) refl)

-- The filter keeps, in their order, exactly the projects of which the platform does not say that they are
-- forks: a project that it cannot be asked about stays.
pub filter_forks-select :
    {W : Type 0} (api : ForkApi W) (client : GitProviderClient W) (projects : List Text) (w : W)
    → (filter_forks api client projects w).0
      ≡ select (λ p. not (says_fork ((api.answers client projects w).0 p))) projects
unfolding filter_forks
filter_forks-select api client [] w = refl
filter_forks-select api client (project ∷ projects) w =
    filter_results-select (api.answers client (project ∷ projects) w).0 (project ∷ projects)
