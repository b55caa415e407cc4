-- ===== src/Forgejo/Listed.antt =====
-- What a search and the managed repositories hold: src/internal/forgejo/sync.go.
use mogenius_renovate_operat.Prelude.{
  ℕ, Bool, true, false, ◌&&◌, ◌||◌, some, List, [], ◌∷◌, ◌≡◌, refl, ◌⊎◌, inl, inr, arith,
  if◌then◌else◌, is_some, any, Bool-cases,
}
use mogenius_renovate_operat.Prelude.Text.{Text, ◌==◌, contains, eq→≡, eq_iff}
use mogenius_renovate_operat.Prelude.Assoc.{Assoc, lookup, insert, lookup-insert}
use mogenius_renovate_operat.Forgejo.{Repository, is_admin_repo, topic_repos, admin_repos, keys_of}

-- Whether the forge lists a repository of the name with the topic, and with admin permission.
abbrev pub has_topic_named : Text → List Repository → Bool
has_topic_named n = any (λ (repo : Repository). repo.full_name == n)

abbrev pub is_admin_named : Text → List Repository → Bool
is_admin_named n = any (λ (repo : Repository). (repo.full_name == n) && is_admin_repo repo)

pub lookup-topic_repos :
    (n : Text) (set : Assoc Bool) (repos : List Repository)
    → is_some (lookup n (topic_repos set repos))
      ≡ (is_some (lookup n set) || has_topic_named n repos)
unfolding topic_repos
lookup-topic_repos n set [] = ground arith
lookup-topic_repos n set (repo ∷ repos) = ground (
  arith,
  lookup-topic_repos n (insert repo.full_name true set) repos,
  lookup-insert repo.full_name n true set,
)

pub lookup-admin_repos :
    (n : Text) (set : Assoc Repository) (repos : List Repository)
    → is_some (lookup n (admin_repos set repos))
      ≡ (is_some (lookup n set) || is_admin_named n repos)
unfolding admin_repos
lookup-admin_repos n set [] = ground arith
lookup-admin_repos n set (repo ∷ repos) = elim (Bool-cases (is_admin_repo repo)) [
  | inl e ↦ rw e (
      ground (
        arith,
        lookup-admin_repos n (insert repo.full_name repo set) repos,
        lookup-insert repo.full_name n repo set,
      ))
  | inr e ↦ rw e (ground (arith, lookup-admin_repos n set repos))
]

-- An entry of the managed repositories.
unfoldable pub Held : Text → ℕ → Assoc ℕ → Type 0
Held n id [] = ⊥
Held n id ((k, v) ∷ entries) = ((k ≡ n) × (v ≡ id)) ⊎ Held n id entries

pub other_name : (n k : Text) → (k == n) ≡ false → k ≡ n → ⊥
other_name n k ne e = ground (arith, ne, eq_iff k n, e)

pub lookup-Held : (n : Text) (m : Assoc ℕ) (id : ℕ) → lookup n m ≡ some id → Held n id m
unfolding Held lookup
lookup-Held n [] id h = ground arith
lookup-Held n ((k, v) ∷ m) id h = elim (Bool-cases (k == n)) [
  | inl e ↦ inl (eq→≡ k n e, ground (arith, h, e))
  | inr e ↦ inr (lookup-Held n m id (ground (arith, h, e)))
]

Held-insert_if :
    (n k j : Text) (id v u : ℕ) (m : Assoc ℕ) (b : Bool)
    → (k == n) ≡ false
    → (Held n id (insert k v m) → Held n id m)
    → Held n id (if b then (k, v) ∷ m else (j, u) ∷ insert k v m)
    → Held n id ((j, u) ∷ m)
unfolding Held
Held-insert_if n k j id v u m true ne rest (inl (e, f)) = absurd (other_name n k ne e)
Held-insert_if n k j id v u m true ne rest (inr h) = inr h
Held-insert_if n k j id v u m false ne rest (inl h) = inl h
Held-insert_if n k j id v u m false ne rest (inr h) = inr (rest h)

pub Held-insert :
    (n k : Text) (id v : ℕ) (m : Assoc ℕ)
    → (k == n) ≡ false
    → Held n id (insert k v m)
    → Held n id m
unfolding Held insert
Held-insert n k id v [] ne (inl (e, f)) = absurd (other_name n k ne e)
Held-insert n k id v [] ne (inr h) = h
Held-insert n k id v ((j, u) ∷ m) ne h =
    Held-insert_if n k j id v u m (j == k) ne (Held-insert n k id v m ne) h

pub contains-keys_of :
    {V : Type 0} (n : Text) (m : Assoc V) → contains (keys_of m) n ≡ is_some (lookup n m)
unfolding contains keys_of lookup
contains-keys_of n [] = refl
contains-keys_of n ((k, v) ∷ m) = ground (arith, contains-keys_of n m)

pub neither : (a b : Bool) → (a || b) ≡ false → (a ≡ false) × (b ≡ false)
neither false false h = (refl, refl)
neither true b h = ground (arith, h)
neither false true h = ground (arith, h)
