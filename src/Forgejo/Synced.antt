-- ===== src/Forgejo/Synced.antt =====
-- What a round of the sync leaves managed: RunOnce of src/internal/forgejo/sync.go.
use mogenius_renovate_operat.Prelude.{ℕ, Bool, true, false, none, List, [], ◌≡◌, ◌⊎◌, is_some}
use mogenius_renovate_operat.Prelude.Text.{Text}
use mogenius_renovate_operat.Prelude.Assoc.{Assoc, lookup}
use mogenius_renovate_operat.Forgejo.{
  Repository, WebhookSyncer, topic_repos, admin_repos, keys_of, ensure_webhooks,
}
use mogenius_renovate_operat.Forgejo.Listed.{has_topic_named, is_admin_named}
use mogenius_renovate_operat.Forgejo.Ensured.{Hooked, Missed}
use mogenius_renovate_operat.Forgejo.Removed.{Unhooked, Kept}

module _ {W : Type 0} (s : WebhookSyncer W) where
  -- Whether the round has a name among the admin repositories, and among those of the topic.
  abbrev pub in_admin : List Repository → Text → Bool
  in_admin repos k = is_some (lookup k (admin_repos [] repos))

  abbrev pub in_topic : List Repository → Text → Bool
  in_topic repos k = is_some (lookup k (topic_repos [] repos))

  -- What is managed, and the world, when the hooks of the admin repositories have been ensured.
  abbrev pub ensured_in : List Repository → Assoc ℕ × W → Assoc ℕ × W
  ensured_in repos state = ensure_webhooks s (keys_of (admin_repos [] repos)) state

  -- What a round leaves for a name, for what the forge lists.
  unfoldable pub Round : List Repository → Assoc ℕ → W → Assoc ℕ → Text → Type 0
  Round repos managed w after n =
      (is_admin_named n repos ≡ true
        → Hooked s n after ⊎ (Missed s (managed, w) n × (lookup n after ≡ lookup n managed)))
      × (is_admin_named n repos ≡ false → has_topic_named n repos ≡ true → lookup n after ≡ none)
      × (is_admin_named n repos ≡ false
          → has_topic_named n repos ≡ false
          → Unhooked s n managed after
            ⊎ ((lookup n managed ≡ none
                  ⊎ Kept s (in_admin repos) (in_topic repos) (ensured_in repos (managed, w)) n
                      managed)
                × (lookup n after ≡ lookup n managed)))
