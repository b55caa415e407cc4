-- ===== src/Examples/Syncs.antt =====
-- A round of the sync and of the fork filter, on a forge whose world counts the hooks that it made.
use mogenius_renovate_operat.Prelude.{ℕ, suc, ◌≡◌, refl, Bool, true, false, some, List, [], ◌∷◌}
use mogenius_renovate_operat.Prelude.Text.{Text, text, ◌==◌}
use mogenius_renovate_operat.Prelude.Assoc.{lookup, insert, delete}
use mogenius_renovate_operat.Kube.{ok}
use mogenius_renovate_operat.Forgejo.{
  Repository, ForgejoClient, WebhookSyncer, new_webhook_syncer, run_once,
}
use mogenius_renovate_operat.Forks.{GitProviderClient, ForkApi, github, filter_forks}
use mogenius_renovate_operat.Forks.Filter.{filter_forks-select}

abbrev repository : Text → Bool → Repository
repository full_name admin = record {
  id = 1;
  full_name = full_name;
  owner = text "team";
  name = text "repo";
  permissions = some (record { admin = admin; push = true; pull = true });
}

abbrev repositories : List Repository
repositories = repository (text "team/one") true ∷ repository (text "team/two") false ∷ []

abbrev forge : ForgejoClient ℕ
forge = record {
  search_repos_by_topic = λ topic w. (ok repositories, w);
  list_repo_webhooks = λ owner repo w. (ok [], w);
  create_repo_webhook = λ owner repo options w. (
    ok (record {
      id = suc w;
      hook_type = options.hook_type;
      config = options.config;
      events = options.events;
      active = options.active;
    }),
    suc w,
  );
  delete_repo_webhook = λ owner repo id w. (ok tt, w);
}

abbrev syncer : WebhookSyncer ℕ
syncer = new_webhook_syncer forge (text "https://hooks") (text "secret") (text "renovate") []

-- The hook of the first repository is made, the second is forgotten, and the third is unhooked.
round_lem :
    (run_once syncer ((text "team/two", 8) ∷ (text "team/old", 9) ∷ [], 0)).1.0
    ≡ (text "team/one", 1) ∷ []
unfolding run_once new_webhook_syncer insert ◌==◌ lookup delete
round_lem = refl

abbrev forks : ForkApi ℕ
forks = record { answers = λ client projects w. (λ p. ok (p == text "fork"), suc w) }

abbrev github_client : GitProviderClient ℕ
github_client = record { platform = github; endpoint = text "https://api"; token = text "t" }

filter_forks-select_example :
    (filter_forks forks github_client (text "own" ∷ text "fork" ∷ []) 0).0 ≡ text "own" ∷ []
unfolding ◌==◌
filter_forks-select_example =
    filter_forks-select forks github_client (text "own" ∷ text "fork" ∷ []) 0
