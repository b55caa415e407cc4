-- ===== src/Names.antt =====
-- The names of the Kubernetes jobs: src/internal/utils/jobNames.go, and the default endpoints of
-- src/internal/utils/platformEndpoints.go. Strings are the lists of their bytes here, since the source
-- cuts them at bytes. `to_lower` is strings.ToLower on them, and `hash8` the first four bytes of the
-- SHA-256 of a string in eight hexadecimal digits.
pub mod Bounds
use mogenius_renovate_operat.Prelude.{
  ℕ, Option, none, some, List, [], ◌∷◌, ◌++◌, map, if◌then◌else◌, ltb, nat_eq, length, take,
}
use mogenius_renovate_operat.Prelude.Text.{Text, text, ◌==◌}
use mogenius_renovate_operat.Api.{RenovateProvider, RenovateJob}

abbrev pub Bytes : Type 0
Bytes = List ℕ

-- strings.ReplaceAll for two characters of one byte
unfoldable pub replace_all : ℕ → ℕ → Bytes → Bytes
replace_all old new [] = []
replace_all old new (b ∷ s) = (if nat_eq b old then new else b) ∷ replace_all old new s

-- the truncation `s[:n]` of a string that is longer
unfoldable pub cut : ℕ → Bytes → Bytes
cut n s = if ltb n (length s) then take n s else s

module _ (to_lower : Bytes → Bytes) where
  unfoldable pub kubernetes_compatible_name : Bytes → Bytes
  unfolding replace_all
  kubernetes_compatible_name name = to_lower (
      replace_all b'~' b'-'
        (replace_all b'.' b'-' (replace_all b'_' b'-' (replace_all b'/' b'-' name))))

  module _ (hash8 : Bytes → Bytes) where
    unfoldable pub executor_job_name : RenovateJob → Bytes → Bytes
    unfolding kubernetes_compatible_name cut
    executor_job_name in_job project =
        let full_name = kubernetes_compatible_name (in_job.name ++ (text "-" ++ project)) in
        cut 54 full_name ++ (text "-" ++ hash8 full_name)

    unfoldable pub discovery_job_name : RenovateJob → Bytes
    unfolding kubernetes_compatible_name cut
    discovery_job_name in_job =
        let base_name = kubernetes_compatible_name in_job.name in
        let full_name = base_name ++ text "-discovery" in
        cut 44 base_name ++ (text "-discovery-" ++ hash8 full_name)

  unfoldable pub legacy_executor_job_name : RenovateJob → Bytes → Bytes
  unfolding replace_all
  legacy_executor_job_name in_job project = to_lower (
      replace_all b'.' b'-'
        (replace_all b'_' b'-' (replace_all b'/' b'-' (in_job.name ++ (text "-" ++ project)))))

unfoldable pub legacy_discovery_job_name : RenovateJob → Bytes
legacy_discovery_job_name in_job = in_job.name ++ text "-discovery"

-- The platform and the endpoint of a provider.
unfoldable pub get_platform_and_endpoint : Option RenovateProvider → Text × Text
get_platform_and_endpoint none = ([], [])
get_platform_and_endpoint (some provider) = (
  provider.name,
  if provider.endpoint == []
      then if provider.name == text "github"
        then text "https://api.github.com"
        else if provider.name == text "gitlab"
        then text "https://gitlab.com/api/v4"
        else []
      else provider.endpoint,
)
