-- ===== src/Definitions/Env.antt =====
-- Which value an environment variable of a job's container has: mergeEnvVars and getDefaultEnvVars of
-- src/internal/renovate/jobDefinitions.go. Of two variables of one name Kubernetes takes the last.
use mogenius_renovate_operat.Prelude.{
  not, Option, none, some, List, [], ◌∷◌, ◌++◌, ◌≡◌, refl, if◌then◌else◌, arith, select, is_some,
}
use mogenius_renovate_operat.Prelude.Text.{Text, ◌==◌, eq_iff}
use mogenius_renovate_operat.Pod.{EnvVar}
use mogenius_renovate_operat.Definitions.{extra_names, merge_env_vars}

-- The variable of a name that the container sees.
unfoldable pub visible : Text → List EnvVar → Option EnvVar
visible name [] = none
visible name (env ∷ envs) =
    let rest = visible name envs in
    if is_some rest then rest else if env.name == name then some env else none

visible-++ :
    (name : Text) (xs ys : List EnvVar)
    → visible name (xs ++ ys)
      ≡ (if is_some (visible name ys) then visible name ys else visible name xs)
unfolding visible
visible-++ name [] ys = ground arith
visible-++ name (env ∷ xs) ys = ground (arith, visible-++ name xs ys)

is_some-visible : (name : Text) (xs : List EnvVar) → is_some (visible name xs) ≡ extra_names name xs
unfolding visible extra_names
is_some-visible name [] = refl
is_some-visible name (env ∷ xs) = ground (arith, is_some-visible name xs)

visible-select :
    (name : Text) (extra xs : List EnvVar)
    → visible name (select (λ (env : EnvVar). not (extra_names env.name extra)) xs)
      ≡ (if extra_names name extra then none else visible name xs)
unfolding visible
visible-select name extra [] = ground arith
visible-select name extra (env ∷ xs) = ground (
  arith,
  visible-select name extra xs,
  eq_iff env.name name,
  extra_names name extra,
  extra_names env.name extra,
)

-- A variable of the container has the value that the extra variables give it, and the operator's own
-- value exactly if they do not name it.
pub visible-merge_env_vars :
    (name : Text) (extra predefined : List EnvVar)
    → visible name (merge_env_vars extra predefined)
      ≡ (if extra_names name extra then visible name extra else visible name predefined)
unfolding merge_env_vars
visible-merge_env_vars name extra predefined = ground (
  arith,
  visible-++ name extra (select (λ (env : EnvVar). not (extra_names env.name extra)) predefined),
  visible-select name extra predefined,
  is_some-visible name extra,
)
