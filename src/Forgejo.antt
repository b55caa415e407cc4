-- ===== src/Forgejo.antt =====
-- The sync of webhooks to a Forgejo server: src/internal/forgejo/sync.go, with the interface Client of
-- client.go as a record. An id of a hook is a number. The source walks its maps in any order; here they
-- are walked in the order of their keys. The lock of the syncer guards single reads and writes of the
-- map, and only RunOnce changes it.
pub mod Listed
pub mod Ensured
pub mod Removed
pub mod Synced
use mogenius_renovate_operat.Prelude.{
  ℕ, Bool, true, false, Option, none, some, List, [], ◌∷◌, ◌++◌, if◌then◌else◌, nat_eq, is_some,
  map, length,
}
use mogenius_renovate_operat.Prelude.Text.{Text, text, ◌==◌, contains}
use mogenius_renovate_operat.Prelude.Assoc.{Assoc, lookup, insert, delete}
use mogenius_renovate_operat.Kube.{Result, ok, err, Io, ◌>>=◌, pure}

pub record RepositoryPermissions : Type 0 where
  pub admin : Bool
  pub push : Bool
  pub pull : Bool

pub record Repository : Type 0 where
  pub id : ℕ
  pub full_name : Text
  pub owner : Text
  pub name : Text
  pub permissions : Option RepositoryPermissions

pub record WebhookConfig : Type 0 where
  pub url : Text
  pub content_type : Text
  pub authorization_header : Text

pub record Webhook : Type 0 where
  pub id : ℕ
  pub hook_type : Text
  pub config : WebhookConfig
  pub events : List Text
  pub active : Bool

pub record CreateWebhookOptions : Type 0 where
  pub hook_type : Text
  pub config : WebhookConfig
  pub events : List Text
  pub active : Bool

pub record ForgejoClient (W : Type 0) : Type 0 where
  pub search_repos_by_topic : Text → Io W (List Repository)
  pub list_repo_webhooks : Text → Text → Io W (List Webhook)
  pub create_repo_webhook : Text → Text → CreateWebhookOptions → Io W Webhook
  pub delete_repo_webhook : Text → Text → ℕ → Io W (Unit {0})

-- The configuration of a WebhookSyncer; its managed repositories are passed along.
pub record WebhookSyncer (W : Type 0) : Type 0 where
  pub client : ForgejoClient W
  pub webhook_url : Text
  pub auth_token : Text
  pub events : List Text
  pub topic : Text

unfoldable pub new_webhook_syncer :
    {W : Type 0} → ForgejoClient W → Text → Text → Text → List Text → WebhookSyncer W
new_webhook_syncer client webhook_url auth_token topic events = record {
  client = client;
  webhook_url = webhook_url;
  auth_token = auth_token;
  events = if nat_eq (length events) 0 then text "issues" ∷ text "pull_request" ∷ [] else events;
  topic = topic;
}

before_slash : Text → Text × Option Text
before_slash [] = ([], none)
before_slash (c ∷ s) =
    let (owner, rest) = before_slash s in if nat_eq c b'/' then ([], some s) else (c ∷ owner, rest)

two_parts : Text × Option Text → Option (Text × Text)
two_parts (owner, none) = none
two_parts (owner, some repo) = some (owner, repo)

-- strings.SplitN(fullName, "/", 2), if it has two parts
unfoldable pub owner_and_repo : Text → Option (Text × Text)
unfolding before_slash two_parts
owner_and_repo full_name = two_parts (before_slash full_name)

abbrev pub is_admin_repo : Repository → Bool
is_admin_repo repo = elim repo.permissions [ none ↦ false | some p ↦ p.admin ]

-- `topicRepos`, from what it holds already
unfoldable pub topic_repos : Assoc Bool → List Repository → Assoc Bool
topic_repos set [] = set
topic_repos set (repo ∷ repos) = topic_repos (insert repo.full_name true set) repos

-- `adminRepos`, from what it holds already
unfoldable pub admin_repos : Assoc Repository → List Repository → Assoc Repository
admin_repos set [] = set
admin_repos set (repo ∷ repos) =
    admin_repos (if is_admin_repo repo then insert repo.full_name repo set else set) repos

unfoldable pub keys_of : {V : Type 0} → Assoc V → List Text
keys_of [] = []
keys_of ((key, value) ∷ entries) = key ∷ keys_of entries

find_hook : Text → List Webhook → Option ℕ
find_hook url [] = none
find_hook url (hook ∷ hooks) =
    let rest = find_hook url hooks in if hook.config.url == url then some hook.id else rest

module _ {W : Type 0} (s : WebhookSyncer W) where
  abbrev pub webhook_options : CreateWebhookOptions
  webhook_options = record {
    hook_type = text "forgejo";
    config = record {
      url = s.webhook_url;
      content_type = text "json";
      authorization_header = if s.auth_token == [] then [] else text "Bearer " ++ s.auth_token;
    };
    events = s.events;
    active = true;
  }

  created_id : Text → Text → Io W ℕ
  created_id owner repo = do
    hook ← s.client.create_repo_webhook owner repo webhook_options
    pure hook.id

  existing_or_created : Text → Text → Option ℕ → Io W ℕ
  unfolding created_id
  existing_or_created owner repo (some id) = pure id
  existing_or_created owner repo none = created_id owner repo

  -- The id that ensureWebhook writes down.
  unfoldable pub hook_id : Text → Text → Io W ℕ
  unfolding find_hook existing_or_created
  hook_id owner repo = do
    hooks ← s.client.list_repo_webhooks owner repo
    existing_or_created owner repo (find_hook s.webhook_url hooks)

  set_managed : Text → Result ℕ × W → Assoc ℕ → Assoc ℕ × W
  set_managed full_name (ok id, w) managed = (insert full_name id managed, w)
  set_managed full_name (err e, w) managed = (managed, w)

  -- the body of step 3
  ensure_webhook : Text → Option (Text × Text) → Assoc ℕ × W → Assoc ℕ × W
  unfolding hook_id set_managed
  ensure_webhook full_name none (managed, w) = (managed, w)
  ensure_webhook full_name (some (owner, repo)) (managed, w) =
      set_managed full_name (hook_id owner repo w) managed

  unfoldable pub ensure_webhooks : List Text → Assoc ℕ × W → Assoc ℕ × W
  unfolding owner_and_repo ensure_webhook
  ensure_webhooks [] state = state
  ensure_webhooks (full_name ∷ names) state =
      ensure_webhooks names (ensure_webhook full_name (owner_and_repo full_name) state)

  taken_out : Text → Result (Unit {0}) × W → Assoc ℕ → Assoc ℕ × W
  taken_out full_name (ok done, w) managed = (delete full_name managed, w)
  taken_out full_name (err e, w) managed = (managed, w)

  remove_webhook : Text → ℕ → Option (Text × Text) → Assoc ℕ × W → Assoc ℕ × W
  unfolding taken_out
  remove_webhook full_name id none (managed, w) = (managed, w)
  remove_webhook full_name id (some (owner, repo)) (managed, w) =
      taken_out full_name (s.client.delete_repo_webhook owner repo id w) managed

  -- the body of step 4; the first two arguments say whether the repository is among the admin
  -- repositories, and whether it has the topic
  remove_one : Bool → Bool → Text → ℕ → Assoc ℕ × W → Assoc ℕ × W
  unfolding owner_and_repo remove_webhook
  remove_one true has_topic full_name id state = state
  remove_one false true full_name id (managed, w) = (delete full_name managed, w)
  remove_one false false full_name id state =
      remove_webhook full_name id (owner_and_repo full_name) state

  unfoldable pub remove_webhooks :
      (Text → Bool) → (Text → Bool) → Assoc ℕ → Assoc ℕ × W → Assoc ℕ × W
  unfolding remove_one
  remove_webhooks is_admin has_topic [] state = state
  remove_webhooks is_admin has_topic ((full_name, id) ∷ pending) state =
      remove_webhooks is_admin has_topic pending
        (remove_one (is_admin full_name) (has_topic full_name) full_name id state)

  -- steps 3 and 4
  unfoldable pub synced : List Repository → Assoc ℕ × W → Assoc ℕ × W
  unfolding topic_repos admin_repos keys_of ensure_webhooks remove_webhooks
  synced repos state =
      let ensured = ensure_webhooks (keys_of (admin_repos [] repos)) state in
      remove_webhooks (λ n. is_some (lookup n (admin_repos [] repos)))
        (λ n. is_some (lookup n (topic_repos [] repos))) ensured.0 ensured

  after_search : Result (List Repository) × W → Assoc ℕ → Result (Assoc ℕ) × (Assoc ℕ × W)
  unfolding synced
  after_search (err e, w) managed = (err e, (managed, w))
  after_search (ok repos, w) managed = let state = synced repos (managed, w) in (ok state.0, state)

  -- RunOnce, with the managed repositories before and after
  unfoldable pub run_once : Assoc ℕ × W → Result (Assoc ℕ) × (Assoc ℕ × W)
  unfolding after_search
  run_once (managed, w) = after_search (s.client.search_repos_by_topic s.topic w) managed
