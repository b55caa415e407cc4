-- ===== src/Forgejo/Ensured.antt =====
-- The hooks that a round finds or creates: ensureWebhook of src/internal/forgejo/sync.go.
use mogenius_renovate_operat.Prelude.{
  ℕ, true, false, Option, none, some, List, [], ◌∷◌, ◌≡◌, refl, sym, ap, ◌∙◌, ◌⊎◌, inl, inr, arith,
  if◌then◌else◌, Bool-cases,
}
use mathlib.Core.Path.{subst}
use mogenius_renovate_operat.Prelude.Text.{Text, ◌==◌, contains, eq→≡, eq_refl}
use mogenius_renovate_operat.Prelude.Assoc.{Assoc, lookup, lookup-insert}
use mogenius_renovate_operat.Kube.{Error, Result, ok, err}
use mogenius_renovate_operat.Forgejo.{
  WebhookSyncer, owner_and_repo, hook_id, set_managed, ensure_webhook, ensure_webhooks,
}
use mogenius_renovate_operat.Forgejo.Listed.{Held, Held-insert, neither}

module _ {W : Type 0} (s : WebhookSyncer W) where
  -- The hook of a repository was found or created, and has the id.
  pub record Hooked (n : Text) (managed : Assoc ℕ) : Type 0 where
    pub owner : Text
    pub repo : Text
    pub parts : owner_and_repo n ≡ some (owner, repo)
    pub id : ℕ
    pub at : W
    pub answer : (hook_id s owner repo at).0 ≡ ok id
    pub managed_id : lookup n managed ≡ some id

  set_managed-Hooked :
      (n full owner repo : Text) (res : Result ℕ × W) (managed : Assoc ℕ) (w : W)
      → owner_and_repo full ≡ some (owner, repo)
      → hook_id s owner repo w ≡ res
      → Hooked n (set_managed s full res managed).0
        ⊎ (lookup n (set_managed s full res managed).0 ≡ lookup n managed)
  unfolding set_managed
  set_managed-Hooked n full owner repo (err e, v) managed w p h = inr refl
  set_managed-Hooked n full owner repo (ok id, v) managed w p h =
      let at_n = lookup-insert full n id managed in
      elim (Bool-cases (full == n)) [
        | inl t ↦ inl (record {
          owner = owner;
          repo = repo;
          parts = ap owner_and_repo (sym (eq→≡ full n t)) ∙ p;
          id = id;
          at = w;
          answer = ap (λ (z : Result ℕ × W). z.0) h;
          managed_id = at_n ∙ ap (λ b. if b then some id else lookup n managed) t;
        })
        | inr t ↦ inr (at_n ∙ ap (λ b. if b then some id else lookup n managed) t)
      ]

  ensure_webhook-Hooked :
      (n full : Text) (parts : Option (Text × Text)) (state : Assoc ℕ × W)
      → owner_and_repo full ≡ parts
      → Hooked n (ensure_webhook s full parts state).0
        ⊎ (lookup n (ensure_webhook s full parts state).0 ≡ lookup n state.0)
  unfolding ensure_webhook
  ensure_webhook-Hooked n full none state p = inr refl
  ensure_webhook-Hooked n full (some (owner, repo)) (managed, w) p =
      set_managed-Hooked n full owner repo (hook_id s owner repo w) managed w p refl

  pub rehooked : {n : Text} {a b : Assoc ℕ} → Hooked n a → lookup n b ≡ lookup n a → Hooked n b
  rehooked h e = record {
    owner = h.owner;
    repo = h.repo;
    parts = h.parts;
    id = h.id;
    at = h.at;
    answer = h.answer;
    managed_id = e ∙ h.managed_id;
  }

  pub ensure_webhooks-Hooked :
      (n : Text) (names : List Text) (state : Assoc ℕ × W)
      → Hooked n (ensure_webhooks s names state).0
        ⊎ (lookup n (ensure_webhooks s names state).0 ≡ lookup n state.0)
  unfolding ensure_webhooks
  ensure_webhooks-Hooked n [] state = inr refl
  ensure_webhooks-Hooked n (full ∷ names) state =
      let next = ensure_webhook s full (owner_and_repo full) state in
      elim (ensure_webhooks-Hooked n names next) [
        | inl h ↦ inl h
        | inr same ↦ elim (ensure_webhook-Hooked n full (owner_and_repo full) state refl) [
          | inl h ↦ inl (rehooked h same)
          | inr e ↦ inr (same ∙ e)
        ]
      ]

  set_managed-other :
      (n full : Text) (res : Result ℕ × W) (managed : Assoc ℕ)
      → (full == n) ≡ false
      → (lookup n (set_managed s full res managed).0 ≡ lookup n managed)
        × ((id : ℕ) → Held n id (set_managed s full res managed).0 → Held n id managed)
  unfolding set_managed
  set_managed-other n full (err e, v) managed ne = (refl, λ id h. h)
  set_managed-other n full (ok i, v) managed ne = (
    lookup-insert full n i managed ∙ ap (λ b. if b then some i else lookup n managed) ne,
    λ id. Held-insert n full id i managed ne,
  )

  ensure_webhook-other :
      (n full : Text) (parts : Option (Text × Text)) (state : Assoc ℕ × W)
      → (full == n) ≡ false
      → let after = (ensure_webhook s full parts state).0 in
        (lookup n after ≡ lookup n state.0) × ((id : ℕ) → Held n id after → Held n id state.0)
  unfolding ensure_webhook
  ensure_webhook-other n full none state ne = (refl, λ id h. h)
  ensure_webhook-other n full (some (owner, repo)) (managed, w) ne =
      set_managed-other n full (hook_id s owner repo w) managed ne

  pub ensure_webhooks-other :
      (n : Text) (names : List Text) (state : Assoc ℕ × W)
      → contains names n ≡ false
      → let after = (ensure_webhooks s names state).0 in
        (lookup n after ≡ lookup n state.0) × ((id : ℕ) → Held n id after → Held n id state.0)
  unfolding ensure_webhooks contains
  ensure_webhooks-other n [] state h = (refl, λ id k. k)
  ensure_webhooks-other n (full ∷ names) state h =
      let (ne, rest) = neither (full == n) (contains names n) h in
      let next = ensure_webhook s full (owner_and_repo full) state in
      let (same, held) = ensure_webhook-other n full (owner_and_repo full) state ne in
      let (same', held') = ensure_webhooks-other n names next rest in
      (same' ∙ same, λ id k. held id (held' id k))

  -- In the world `at` the hook of a repository can not be looked for, or is neither found nor created.
  pub data Missing (n : Text) (at : W) : Type 0 where
    no_owner : owner_and_repo n ≡ none → Missing n at
    no_hook :
        (owner repo : Text) (e : Error)
        → owner_and_repo n ≡ some (owner, repo)
        → (hook_id s owner repo at).0 ≡ err e
        → Missing n at

  -- So it is when the turn comes to it, after the repositories before it.
  pub record Missed (start : Assoc ℕ × W) (n : Text) : Type 0 where
    pub before : List Text
    pub missing : Missing n (ensure_webhooks s before start).1

  Missed-cons :
      (full : Text) {n : Text} {start : Assoc ℕ × W}
      → Missed (ensure_webhook s full (owner_and_repo full) start) n
      → Missed start n
  unfolding ensure_webhooks
  Missed-cons full h = record { before = full ∷ h.before; missing = h.missing }

  set_managed-met :
      (n owner repo : Text) (res : Result ℕ × W) (managed : Assoc ℕ) (w : W)
      → owner_and_repo n ≡ some (owner, repo)
      → hook_id s owner repo w ≡ res
      → Hooked n (set_managed s n res managed).0 ⊎ Missing n w
  unfolding set_managed
  set_managed-met n owner repo (err e, v) managed w p h =
      inr (no_hook owner repo e p (ap (λ (z : Result ℕ × W). z.0) h))
  set_managed-met n owner repo (ok id, v) managed w p h = inl (record {
    owner = owner;
    repo = repo;
    parts = p;
    id = id;
    at = w;
    answer = ap (λ (z : Result ℕ × W). z.0) h;
    managed_id =
        lookup-insert n n id managed
        ∙ ap (λ b. if b then some id else lookup n managed) (eq_refl n);
  })

  ensure_webhook-met :
      (n : Text) (parts : Option (Text × Text)) (state : Assoc ℕ × W)
      → owner_and_repo n ≡ parts
      → Hooked n (ensure_webhook s n parts state).0 ⊎ Missing n state.1
  unfolding ensure_webhook
  ensure_webhook-met n none state p = inr (no_owner p)
  ensure_webhook-met n (some (owner, repo)) (managed, w) p =
      set_managed-met n owner repo (hook_id s owner repo w) managed w p refl

  pub ensure_webhooks-met :
      (n : Text) (names : List Text) (state : Assoc ℕ × W)
      → contains names n ≡ true
      → Hooked n (ensure_webhooks s names state).0 ⊎ Missed state n
  unfolding ensure_webhooks contains
  ensure_webhooks-met n [] state h = ground arith
  ensure_webhooks-met n (full ∷ names) state h =
      let next = ensure_webhook s full (owner_and_repo full) state in
      elim (Bool-cases (full == n)) [
        | inl t ↦ elim (ensure_webhooks-Hooked n names next) [
          | inl hooked ↦ inl hooked
          | inr same ↦
              elim (subst (λ k. Hooked k next.0 ⊎ Missing k state.1) (eq→≡ full n t)
                (ensure_webhook-met full (owner_and_repo full) state refl)) [
                  | inl hooked ↦ inl (rehooked hooked same)
                  | inr missing ↦ inr (record { before = []; missing = missing })
                ]
        ]
        | inr t ↦ elim (ensure_webhooks-met n names next (ground (arith, h, t))) [
          | inl hooked ↦ inl hooked
          | inr missed ↦ inr (Missed-cons full missed)
        ]
      ]
