-- ===== src/Forgejo/Removed.antt =====
-- The hooks that a round removes: step 4 of RunOnce of src/internal/forgejo/sync.go.
use mogenius_renovate_operat.Prelude.{
  ℕ, Bool, true, false, Option, none, some, [], ◌∷◌, ◌≡◌, refl, sym, ap, ◌∙◌, ◌⊎◌, inl, inr,
  if◌then◌else◌, Bool-cases,
}
use mathlib.Core.Path.{subst}
use mogenius_renovate_operat.Prelude.Text.{Text, ◌==◌, eq→≡, eq_refl}
use mogenius_renovate_operat.Prelude.Assoc.{Assoc, lookup, lookup-delete}
use mogenius_renovate_operat.Kube.{Error, Result, ok, err}
use mogenius_renovate_operat.Forgejo.{
  WebhookSyncer, owner_and_repo, taken_out, remove_webhook, remove_one, remove_webhooks,
}
use mogenius_renovate_operat.Forgejo.Listed.{Held, other_name}

module _ {W : Type 0} (s : WebhookSyncer W) where
  -- The hook of a repository was deleted, under the id that was managed.
  pub record Unhooked (n : Text) (pending managed : Assoc ℕ) : Type 0 where
    pub owner : Text
    pub repo : Text
    pub parts : owner_and_repo n ≡ some (owner, repo)
    pub id : ℕ
    pub was : Held n id pending
    pub at : W
    pub answer : (s.client.delete_repo_webhook owner repo id at).0 ≡ ok tt
    pub forgotten : lookup n managed ≡ none

  -- In the world `at` the hook of a repository can not be deleted, or its deletion is refused.
  pub data Undeletable (n : Text) (id : ℕ) (at : W) : Type 0 where
    no_owner : owner_and_repo n ≡ none → Undeletable n id at
    no_deletion :
        (owner repo : Text) (e : Error)
        → owner_and_repo n ≡ some (owner, repo)
        → (s.client.delete_repo_webhook owner repo id at).0 ≡ err e
        → Undeletable n id at

  -- So it is for a hook that was managed, when the turn comes to it, after the entries before it.
  pub record Kept (is_admin has_topic : Text → Bool) (start : Assoc ℕ × W) (n : Text)
      (pending : Assoc ℕ) : Type 0 where
    pub id : ℕ
    pub was : Held n id pending
    pub before : Assoc ℕ
    pub undeletable : Undeletable n id (remove_webhooks s is_admin has_topic before start).1

  pub Kept-Held :
      {is_admin has_topic : Text → Bool} {start : Assoc ℕ × W} {n : Text} {a b : Assoc ℕ}
      → ((id : ℕ) → Held n id a → Held n id b)
      → Kept is_admin has_topic start n a
      → Kept is_admin has_topic start n b
  Kept-Held f h = record {
    id = h.id;
    was = f h.id h.was;
    before = h.before;
    undeletable = h.undeletable;
  }

  Kept-cons :
      {is_admin has_topic : Text → Bool} {start : Assoc ℕ × W} {n : Text} (full : Text) (id : ℕ)
      {pending : Assoc ℕ}
      → Kept is_admin has_topic
          (remove_one s (is_admin full) (has_topic full) full id start)
          n
          pending
      → Kept is_admin has_topic start n ((full, id) ∷ pending)
  unfolding remove_webhooks Held
  Kept-cons full id h = record {
    id = h.id;
    was = inr h.was;
    before = (full, id) ∷ h.before;
    undeletable = h.undeletable;
  }

  taken_out-Unhooked :
      (n full owner repo : Text) (id : ℕ) (res : Result (Unit {0}) × W) (managed pending : Assoc ℕ)
      (w : W)
      → owner_and_repo full ≡ some (owner, repo)
      → s.client.delete_repo_webhook owner repo id w ≡ res
      → Unhooked n ((full, id) ∷ pending) (taken_out s full res managed).0
        ⊎ (lookup n (taken_out s full res managed).0 ≡ lookup n managed)
  unfolding taken_out Held
  taken_out-Unhooked n full owner repo id (err e, v) managed pending w p h = inr refl
  taken_out-Unhooked n full owner repo id (ok done, v) managed pending w p h =
      let at_n = lookup-delete full n managed in
      elim (Bool-cases (full == n)) [
        | inl t ↦ inl (record {
          owner = owner;
          repo = repo;
          parts = ap owner_and_repo (sym (eq→≡ full n t)) ∙ p;
          id = id;
          was = inl (eq→≡ full n t, refl);
          at = w;
          answer = ap (λ (z : Result (Unit {0}) × W). z.0) h;
          forgotten = at_n ∙ ap (λ b. if b then none else lookup n managed) t;
        })
        | inr t ↦ inr (at_n ∙ ap (λ b. if b then none else lookup n managed) t)
      ]

  remove_webhook-Unhooked :
      (n full : Text) (id : ℕ) (parts : Option (Text × Text)) (state : Assoc ℕ × W)
      (pending : Assoc ℕ)
      → owner_and_repo full ≡ parts
      → Unhooked n ((full, id) ∷ pending) (remove_webhook s full id parts state).0
        ⊎ (lookup n (remove_webhook s full id parts state).0 ≡ lookup n state.0)
  unfolding remove_webhook
  remove_webhook-Unhooked n full id none state pending p = inr refl
  remove_webhook-Unhooked n full id (some (owner, repo)) (managed, w) pending p =
      taken_out-Unhooked n full owner repo id (s.client.delete_repo_webhook owner repo id w) managed
        pending w p refl

  moved :
      {n : Text} {pending a b : Assoc ℕ}
      → Unhooked n pending a
      → lookup n b ≡ lookup n a
      → Unhooked n pending b
  moved h e = record {
    owner = h.owner;
    repo = h.repo;
    parts = h.parts;
    id = h.id;
    was = h.was;
    at = h.at;
    answer = h.answer;
    forgotten = e ∙ h.forgotten;
  }

  -- An entry is gone once its hook is, also after entries of other names.
  still_gone :
      {n k : Text} {v : ℕ} {pending a b : Assoc ℕ}
      → Unhooked n pending a
      → lookup n b ≡ lookup n a
      → Unhooked n ((k, v) ∷ pending) b
  unfolding Held
  still_gone h e = record {
    owner = h.owner;
    repo = h.repo;
    parts = h.parts;
    id = h.id;
    was = inr h.was;
    at = h.at;
    answer = h.answer;
    forgotten = e ∙ h.forgotten;
  }

  taken_out-other :
      (n full : Text) (res : Result (Unit {0}) × W) (managed : Assoc ℕ)
      → (full == n) ≡ false
      → lookup n (taken_out s full res managed).0 ≡ lookup n managed
  unfolding taken_out
  taken_out-other n full (err e, v) managed ne = refl
  taken_out-other n full (ok done, v) managed ne =
      lookup-delete full n managed ∙ ap (λ b. if b then none else lookup n managed) ne

  remove_webhook-other :
      (n full : Text) (id : ℕ) (parts : Option (Text × Text)) (state : Assoc ℕ × W)
      → (full == n) ≡ false
      → lookup n (remove_webhook s full id parts state).0 ≡ lookup n state.0
  unfolding remove_webhook
  remove_webhook-other n full id none state ne = refl
  remove_webhook-other n full id (some (owner, repo)) (managed, w) ne =
      taken_out-other n full (s.client.delete_repo_webhook owner repo id w) managed ne

  remove_one-other :
      (n full : Text) (id : ℕ) (a t : Bool) (state : Assoc ℕ × W)
      → (full == n) ≡ false
      → lookup n (remove_one s a t full id state).0 ≡ lookup n state.0
  unfolding remove_one
  remove_one-other n full id true t state ne = refl
  remove_one-other n full id false true (managed, w) ne =
      lookup-delete full n managed ∙ ap (λ b. if b then none else lookup n managed) ne
  remove_one-other n full id false false state ne =
      remove_webhook-other n full id (owner_and_repo full) state ne

  remove_one-none :
      (n full : Text) (id : ℕ) (state : Assoc ℕ × W)
      → (full == n) ≡ true
      → lookup n (remove_one s false true full id state).0 ≡ none
  unfolding remove_one
  remove_one-none n full id (managed, w) e =
      lookup-delete full n managed ∙ ap (λ b. if b then none else lookup n managed) e

  taken_out-met :
      (n owner repo : Text) (id : ℕ) (res : Result (Unit {0}) × W) (managed pending : Assoc ℕ)
      (w : W)
      → owner_and_repo n ≡ some (owner, repo)
      → s.client.delete_repo_webhook owner repo id w ≡ res
      → Unhooked n ((n, id) ∷ pending) (taken_out s n res managed).0 ⊎ Undeletable n id w
  unfolding taken_out Held
  taken_out-met n owner repo id (err e, v) managed pending w p h =
      inr (no_deletion owner repo e p (ap (λ (z : Result (Unit {0}) × W). z.0) h))
  taken_out-met n owner repo id (ok done, v) managed pending w p h = inl (record {
    owner = owner;
    repo = repo;
    parts = p;
    id = id;
    was = inl (refl, refl);
    at = w;
    answer = ap (λ (z : Result (Unit {0}) × W). z.0) h;
    forgotten =
        lookup-delete n n managed ∙ ap (λ b. if b then none else lookup n managed) (eq_refl n);
  })

  remove_webhook-met :
      (n : Text) (id : ℕ) (parts : Option (Text × Text)) (state : Assoc ℕ × W) (pending : Assoc ℕ)
      → owner_and_repo n ≡ parts
      → Unhooked n ((n, id) ∷ pending) (remove_webhook s n id parts state).0
        ⊎ Undeletable n id state.1
  unfolding remove_webhook
  remove_webhook-met n id none state pending p = inr (no_owner p)
  remove_webhook-met n id (some (owner, repo)) (managed, w) pending p =
      taken_out-met n owner repo id (s.client.delete_repo_webhook owner repo id w) managed pending w
        p refl

  module _ (is_admin has_topic : Text → Bool) (n : Text) where
    -- One step, with what the tests say of the name.
    step_at :
        (a t : Bool)
        → is_admin n ≡ a
        → has_topic n ≡ t
        → (full : Text) (id : ℕ) (state : Assoc ℕ × W) → (full == n) ≡ true
        → remove_one s (is_admin full) (has_topic full) full id state
          ≡ remove_one s a t full id state
    step_at a t ha ht full id state e =
        let same = eq→≡ full n e in
        ap (λ b. remove_one s b (has_topic full) full id state) (ap is_admin same ∙ ha)
        ∙ ap (λ b. remove_one s a b full id state) (ap has_topic same ∙ ht)

    pub remove_webhooks-admin :
        is_admin n ≡ true
        → (pending : Assoc ℕ) (state : Assoc ℕ × W)
        → lookup n (remove_webhooks s is_admin has_topic pending state).0 ≡ lookup n state.0
    unfolding remove_webhooks remove_one
    remove_webhooks-admin a [] state = refl
    remove_webhooks-admin a ((full, id) ∷ pending) state =
        remove_webhooks-admin a pending
          (remove_one s (is_admin full) (has_topic full) full id state)
        ∙ elim (Bool-cases (full == n)) [
          | inl e ↦
              ap (λ (z : Assoc ℕ × W). lookup n z.0)
                (step_at true (has_topic n) a refl full id state e)
          | inr e ↦ remove_one-other n full id (is_admin full) (has_topic full) state e
        ]

    remove_webhooks-none :
        (pending : Assoc ℕ) (state : Assoc ℕ × W)
        → lookup n state.0 ≡ none
        → is_admin n ≡ false
        → has_topic n ≡ true
        → lookup n (remove_webhooks s is_admin has_topic pending state).0 ≡ none
    unfolding remove_webhooks
    remove_webhooks-none [] state h a t = h
    remove_webhooks-none ((full, id) ∷ pending) state h a t =
        remove_webhooks-none pending (remove_one s (is_admin full) (has_topic full) full id state)
          (elim (Bool-cases (full == n)) [
            | inl e ↦
                ap (λ (z : Assoc ℕ × W). lookup n z.0) (step_at false true a t full id state e)
                ∙ remove_one-none n full id state e
            | inr e ↦ remove_one-other n full id (is_admin full) (has_topic full) state e ∙ h
          ])
          a t

    pub remove_webhooks-lost :
        is_admin n ≡ false
        → has_topic n ≡ true
        → (pending : Assoc ℕ) (state : Assoc ℕ × W) → lookup n state.0 ≡ lookup n pending
        → lookup n (remove_webhooks s is_admin has_topic pending state).0 ≡ none
    unfolding remove_webhooks lookup
    remove_webhooks-lost a t [] state h = h
    remove_webhooks-lost a t ((full, id) ∷ pending) state h = elim (Bool-cases (full == n)) [
      | inl e ↦
          remove_webhooks-none pending (remove_one s (is_admin full) (has_topic full) full id state)
            (ap (λ (z : Assoc ℕ × W). lookup n z.0) (step_at false true a t full id state e)
              ∙ remove_one-none n full id state e)
            a t
      | inr e ↦
          remove_webhooks-lost a t pending
            (remove_one s (is_admin full) (has_topic full) full id state)
            (remove_one-other n full id (is_admin full) (has_topic full) state e
              ∙ (h ∙ ap (λ b. if b then some id else lookup n pending) e))
    ]

    pub remove_webhooks-Unhooked :
        is_admin n ≡ false
        → has_topic n ≡ false
        → (pending : Assoc ℕ) (state : Assoc ℕ × W)
        → Unhooked n pending (remove_webhooks s is_admin has_topic pending state).0
          ⊎ (lookup n (remove_webhooks s is_admin has_topic pending state).0 ≡ lookup n state.0)
    unfolding remove_webhooks remove_one
    remove_webhooks-Unhooked a t [] state = inr refl
    remove_webhooks-Unhooked a t ((full, id) ∷ pending) state =
        let next = remove_one s (is_admin full) (has_topic full) full id state in
        elim (remove_webhooks-Unhooked a t pending next) [
          | inl h ↦ inl (still_gone h refl)
          | inr same ↦ elim (Bool-cases (full == n)) [
            | inl e ↦
                let now_at =
                  same
                  ∙ ap (λ (z : Assoc ℕ × W). lookup n z.0)
                      (step_at false false a t full id state e) in
                elim (remove_webhook-Unhooked n full id (owner_and_repo full) state pending refl) [
                  | inl h ↦ inl (moved h now_at)
                  | inr k ↦ inr (now_at ∙ k)
                ]
            | inr e ↦
                inr (same ∙ remove_one-other n full id (is_admin full) (has_topic full) state e)
          ]
        ]

    pub remove_webhooks-met :
        is_admin n ≡ false
        → has_topic n ≡ false
        → (pending : Assoc ℕ) (state : Assoc ℕ × W) (held : ℕ) → Held n held pending
        → Unhooked n pending (remove_webhooks s is_admin has_topic pending state).0
          ⊎ Kept is_admin has_topic state n pending
    unfolding remove_webhooks remove_one Held
    remove_webhooks-met a t [] state held h = elim h [ ]
    remove_webhooks-met a t ((full, id) ∷ pending) state held h =
        let next = remove_one s (is_admin full) (has_topic full) full id state in
        elim (Bool-cases (full == n)) [
          | inl e ↦ elim (remove_webhooks-Unhooked a t pending next) [
            | inl gone ↦ inl (still_gone gone refl)
            | inr same ↦
                elim (subst
                  (λ k.
                    Unhooked k ((full, id) ∷ pending)
                      (remove_webhook s full id (owner_and_repo full) state).0
                    ⊎ Undeletable k id state.1)
                  (eq→≡ full n e)
                  (remove_webhook-met full id (owner_and_repo full) state pending refl)) [
                    | inl gone ↦ inl (
                        moved gone (
                          same
                          ∙ ap (λ (z : Assoc ℕ × W). lookup n z.0)
                              (step_at false false a t full id state e)))
                    | inr stuck ↦ inr (record {
                      id = id;
                      was = inl (eq→≡ full n e, refl);
                      before = [];
                      undeletable = stuck;
                    })
                  ]
          ]
          | inr e ↦ elim h [
            | inl (q, same) ↦ absurd (other_name n full e q)
            | inr later ↦ elim (remove_webhooks-met a t pending next held later) [
              | inl gone ↦ inl (still_gone gone refl)
              | inr kept ↦ inr (Kept-cons full id kept)
            ]
          ]
        ]
