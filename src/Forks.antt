-- ===== src/Forks.antt =====
-- The filter of forks: FilterForks and readToken of src/internal/gitprovider/client.go. The questions of
-- FilterForks run at the same time; `answers` of a client gives what they answer, one for each project,
-- and the world after them. The platform clients are HTTP requests.
pub mod Filter
use mogenius_renovate_operat.Prelude.{
  Bool, true, false, not, ◌&&◌, ◌||◌, Option, none, some, List, [], ◌∷◌, if◌then◌else◌,
}
use mogenius_renovate_operat.Prelude.Text.{Text, text, ◌==◌}
use mogenius_renovate_operat.Prelude.Assoc.{Assoc, lookup}
use mogenius_renovate_operat.Api.{RenovateJob}
use mogenius_renovate_operat.Kube.{other_error, Result, ok, err, Io, Client, ◌>>=◌, pure, raise}
use mogenius_renovate_operat.Names.{get_platform_and_endpoint}

-- The platforms that have a client.
pub data Platform : Type 0 where
  github gitlab gitea bitbucket : Platform

pub record GitProviderClient (W : Type 0) : Type 0 where
  pub platform : Platform
  pub endpoint : Text
  pub token : Text

-- What IsFork of a client answers for each of the projects, and the world after all of them.
pub record ForkApi (W : Type 0) : Type 0 where
  pub answers : GitProviderClient W → (projects : List Text) → W → (Text → Result Bool) × W

is_kept : Result Bool → Bool
is_kept (err e) = true
is_kept (ok is_fork) = not is_fork

-- the loop over the results
filter_results : (Text → Result Bool) → List Text → List Text
unfolding is_kept
filter_results answer [] = []
filter_results answer (project ∷ projects) =
    let rest = filter_results answer projects in
    if is_kept (answer project) then project ∷ rest else rest

abbrev pub token_keys : List Text
token_keys =
    text "RENOVATE_TOKEN"
    ∷ text "GITHUB_COM_TOKEN"
    ∷ text "GITLAB_TOKEN"
    ∷ text "BITBUCKET_TOKEN"
    ∷ text "GITEA_TOKEN"
    ∷ text "FORGEJO_TOKEN"
    ∷ []

nonempty : Option Text → Option Text
nonempty none = none
nonempty (some []) = none
nonempty (some (c ∷ s)) = some (c ∷ s)

-- the loop over the keys
first_token : Assoc Text → List Text → Option Text
unfolding nonempty
first_token secret [] = none
first_token secret (key ∷ keys) = elim (nonempty (lookup key secret)) [
  | some token ↦ some token
  | none ↦ first_token secret keys
]

module _ {W : Type 0} (c : Client W) where
  found_token : Option Text → Io W Text
  found_token none = raise (other_error (text "no platform token found in secret"))
  found_token (some token) = pure token

  unfoldable pub read_token : RenovateJob → Io W Text
  unfolding first_token found_token
  read_token job w =
      if job.spec.secret_ref == []
      then (err (other_error (text "secretRef must be set when skipForks is enabled")), w)
      else (c.get_secret job.spec.secret_ref job.namespace >>= λ secret.
            found_token (first_token secret token_keys))
          w

  -- the switch over the platform
  platform_of : Text → Option Platform
  platform_of name =
      if name == text "github"
      then some github
      else if name == text "gitlab"
      then some gitlab
      else if (name == text "gitea") || (name == text "forgejo")
      then some gitea
      else if name == text "bitbucket"
      then some bitbucket
      else none

  client_for : Option Platform → Text → Text → Io W (GitProviderClient W)
  client_for none endpoint token =
      raise (other_error (text "skipForks is not supported for the platform"))
  client_for (some platform) endpoint token =
      pure (record { platform = platform; endpoint = endpoint; token = token })

  -- the function that NewClientFactory returns
  unfoldable pub new_client : RenovateJob → Io W (GitProviderClient W)
  unfolding read_token platform_of client_for
  new_client job w =
      let (platform, endpoint) = get_platform_and_endpoint job.spec.provider in
      if platform == []
      then (err (other_error (text "skipForks requires a provider to be configured")), w)
      else (read_token job >>= λ token. client_for (platform_of platform) endpoint token) w

unfoldable pub filter_forks :
    {W : Type 0} → ForkApi W → GitProviderClient W → List Text → W → List Text × W
unfolding filter_results
filter_forks api client [] w = ([], w)
filter_forks api client (project ∷ projects) w =
    let (answer, w') = api.answers client (project ∷ projects) w in
    (filter_results answer (project ∷ projects), w')
