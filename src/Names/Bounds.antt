-- ===== src/Names/Bounds.antt =====
-- What Kubernetes asks of the names in src/internal/utils/jobNames.go.
use mogenius_renovate_operat.Prelude.{
  ℕ, zero, suc, ◌+◌, ◌≤◌, ◌≡◌, refl, Bool, true, not, ◌&&◌, [], ◌∷◌, ◌++◌, arith, nat_eq, length,
  take, length-take-le, all,
}
use mogenius_renovate_operat.Prelude.Text.{text}
use mogenius_renovate_operat.Api.{RenovateJob}
use mogenius_renovate_operat.Names.{
  Bytes, replace_all, kubernetes_compatible_name, cut, executor_job_name, discovery_job_name,
}

length-append : (s t : Bytes) → length (s ++ t) ≡ length s + length t
length-append [] t = omega arith
length-append (b ∷ s) t = omega (arith, length-append s t)

length-cut-le : (n : ℕ) (s : Bytes) → length (cut n s) ≤ n
unfolding cut
length-cut-le n s = ground (arith, length-take-le n s)

-- A byte that is none of the four that kubernetesCompatibleName replaces.
abbrev pub is_plain : ℕ → Bool
is_plain b =
    not (nat_eq b b'/') && (not (nat_eq b b'_') && (not (nat_eq b b'.') && not (nat_eq b b'~')))

abbrev pub Plain : Bytes → Type 0
Plain s = all is_plain s ≡ true

Plain-append : (s t : Bytes) → Plain s → Plain t → Plain (s ++ t)
Plain-append [] t h k = k
Plain-append (b ∷ s) t h k = ground (arith, Plain-append s t)

Plain-take : (n : ℕ) (s : Bytes) → Plain s → Plain (take n s)
Plain-take zero s h = refl
Plain-take (suc n) [] h = refl
Plain-take (suc n) (b ∷ s) h = ground (arith, Plain-take n s)

Plain-cut : (n : ℕ) (s : Bytes) → Plain s → Plain (cut n s)
unfolding cut
Plain-cut n s h = ground (arith, Plain-take n s h)

-- The four replacements leave none of the four bytes.
replaced-Plain :
    (s : Bytes)
    → Plain (
        replace_all b'~' b'-'
          (replace_all b'.' b'-' (replace_all b'_' b'-' (replace_all b'/' b'-' s))))
unfolding replace_all
replaced-Plain [] = refl
replaced-Plain (b ∷ s) = ground (arith, replaced-Plain s)

named_bound :
    (m n : ℕ) (s separator digits : Bytes)
    → length digits ≡ 8
    → n + length separator ≡ m
    → length (cut n s ++ (separator ++ digits)) ≤ m + 8
named_bound m n s separator digits h e = omega (
  arith,
  length-append (cut n s) (separator ++ digits),
  length-append separator digits,
  length-cut-le n s,
)

named-Plain :
    (n : ℕ) (s separator digits : Bytes)
    → Plain s
    → Plain separator
    → Plain digits
    → Plain (cut n s ++ (separator ++ digits))
named-Plain n s separator digits h k l =
    Plain-append (cut n s) (separator ++ digits) (Plain-cut n s h)
      (Plain-append separator digits k l)

module _ (to_lower hash8 : Bytes → Bytes) (in_job : RenovateJob) where
  -- With a hash of eight digits the names of the executor's and of the discovery's job have at most 63
  -- bytes, which is what Kubernetes allows, however long the names of the job and the project are.
  pub job_names_bounded :
      (project : Bytes)
      → ((s : Bytes) → length (hash8 s) ≡ 8)
      → (length (executor_job_name to_lower hash8 in_job project) ≤ 63)
        × (length (discovery_job_name to_lower hash8 in_job) ≤ 63)
  unfolding executor_job_name discovery_job_name
  job_names_bounded project h =
      let full_name = kubernetes_compatible_name to_lower (in_job.name ++ (text "-" ++ project)) in
      let base_name = kubernetes_compatible_name to_lower in_job.name in
      (
        named_bound 55 54 full_name (text "-") (hash8 full_name) (h full_name) refl,
        named_bound 55 44 base_name (text "-discovery-") (hash8 (base_name ++ text "-discovery"))
            (h (base_name ++ text "-discovery")) refl,
      )

  compatible-Plain :
      (name : Bytes)
      → ((s : Bytes) → Plain s → Plain (to_lower s))
      → Plain (kubernetes_compatible_name to_lower name)
  unfolding kubernetes_compatible_name
  compatible-Plain name low = low _ (replaced-Plain name)

  -- If lower-casing and the hash bring in no slash, underscore, dot or tilde, neither name has one,
  -- whatever the names of the job and the project are.
  pub job_names-Plain :
      (project : Bytes)
      → ((s : Bytes) → Plain s → Plain (to_lower s))
      → ((s : Bytes) → Plain (hash8 s))
      → Plain (executor_job_name to_lower hash8 in_job project)
        × Plain (discovery_job_name to_lower hash8 in_job)
  unfolding executor_job_name discovery_job_name
  job_names-Plain project low hash =
      let full_name = kubernetes_compatible_name to_lower (in_job.name ++ (text "-" ++ project)) in
      let base_name = kubernetes_compatible_name to_lower in_job.name in
      (
        named-Plain 54 full_name (text "-") (hash8 full_name)
            (compatible-Plain (in_job.name ++ (text "-" ++ project)) low) refl (hash full_name),
        named-Plain 44 base_name (text "-discovery-") (hash8 (base_name ++ text "-discovery"))
            (compatible-Plain in_job.name low) refl (hash (base_name ++ text "-discovery")),
      )
