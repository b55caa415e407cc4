-- ===== src/Ui/Groups/Members.antt =====
-- Which groups the validation of src/ui/group_validation.go lets through.
use mogenius_renovate_operat.Prelude.{
  ℕ, zero, suc, ◌≤◌, ◌≡◌, refl, Bool, true, false, not, ◌&&◌, ◌||◌, List, [], ◌∷◌, arith,
  if◌then◌else◌, length, take, is_some, ltb, length-take-le, any, Bool-cases, inl, inr, ap,
}
use mogenius_renovate_operat.Prelude.Text.{
  Text, ◌==◌, eq_iff, eq_refl, contains, has_prefix, trim_space, to_lower,
}
use mogenius_renovate_operat.Ui.Groups.{
  max_groups_per_user, validate_group_name, sanitize_loop, sanitize_groups, normalize_groups,
  deduplicate, normalize_and_validate_groups, GroupFilterConfig, passes_pattern, policy_loop,
  filter_groups_by_policy, validate_and_normalize_groups,
}

-- No text stands twice in the list.
abbrev pub Distinct : List Text → Type 0
Distinct [] = Unit
Distinct (x ∷ xs) = (contains xs x ≡ false) × Distinct xs

contains-deduplicate :
    (g : Text) (seen groups : List Text)
    → contains (deduplicate seen groups) g
      ≡ (contains groups g && (not (g == []) && not (contains seen g)))
unfolding deduplicate contains
contains-deduplicate g seen [] = refl
contains-deduplicate g seen (x ∷ groups) = ground (
  arith,
  contains-deduplicate g seen groups,
  contains-deduplicate g (x ∷ seen) groups,
  eq_iff x g,
  eq_iff x [],
  eq_iff g [],
)

take_all : (n : ℕ) (xs : List Text) → ltb n (length xs) ≡ false → take n xs ≡ xs
take_all zero [] h = refl
take_all zero (x ∷ xs) h = ground arith
take_all (suc n) [] h = refl
take_all (suc n) (x ∷ xs) h = ap (λ (l : List Text). x ∷ l) (take_all n xs (ground arith))

contains_self : (x : Text) (seen : List Text) → contains (x ∷ seen) x ≡ true
unfolding contains
contains_self x seen = ground (arith, eq_refl x)

deduplicate-Distinct : (seen groups : List Text) → Distinct (deduplicate seen groups)
unfolding deduplicate
deduplicate-Distinct seen [] = tt
deduplicate-Distinct seen (x ∷ groups) = elim (Bool-cases (x == [])) [
  | inl e ↦ rw e (deduplicate-Distinct seen groups)
  | inr e ↦ elim (Bool-cases (contains seen x)) [
    | inl d ↦ rw (e, d) (deduplicate-Distinct seen groups)
    | inr d ↦
        rw (e, d)
          (
            rw (contains-deduplicate x (x ∷ seen) groups) (ground (arith, contains_self x seen)),
            deduplicate-Distinct (x ∷ seen) groups,
          )
  ]
]

-- Whether the policy lets a group through.
abbrev pub allowed : GroupFilterConfig → Text → Bool
allowed config g =
    ((config.allowed_prefix == []) || has_prefix g config.allowed_prefix)
    && passes_pattern config.allowed_pattern g

contains-policy_loop :
    (config : GroupFilterConfig) (g : Text) (groups : List Text)
    → contains (policy_loop config groups) g ≡ (contains groups g && allowed config g)
unfolding policy_loop contains
contains-policy_loop config g [] = refl
contains-policy_loop config g (x ∷ groups) =
    ground (arith, contains-policy_loop config g groups, eq_iff x g)

policy_loop-Distinct :
    (config : GroupFilterConfig) (groups : List Text)
    → Distinct groups
    → Distinct (policy_loop config groups)
unfolding policy_loop
policy_loop-Distinct config [] d = tt
policy_loop-Distinct config (x ∷ groups) d =
    let rest = policy_loop-Distinct config groups d.1 in
    elim (Bool-cases
      (not (config.allowed_prefix == []) && not (has_prefix x config.allowed_prefix))) [
        | inl e ↦ rw e rest
        | inr e ↦ elim (Bool-cases (passes_pattern config.allowed_pattern x)) [
          | inl m ↦ rw (e, m) (ground (arith, contains-policy_loop config x groups, d.0), rest)
          | inr m ↦ rw (e, m) rest
        ]
      ]

no_policy :
    (config : GroupFilterConfig) (groups : List Text)
    → (config.allowed_prefix == []) ≡ true
    → is_some config.allowed_pattern ≡ false
    → policy_loop config groups ≡ groups
unfolding policy_loop passes_pattern
no_policy config [] h k = refl
no_policy config (x ∷ groups) h k = ground (arith, no_policy config groups h k)

-- Without a policy the early return gives what the loop would.
pub filter-policy_loop :
    (config : GroupFilterConfig) (groups : List Text)
    → filter_groups_by_policy groups config ≡ policy_loop config groups
unfolding filter_groups_by_policy
filter-policy_loop config groups = ground (arith, no_policy config groups)

truncate :
    (n : ℕ) (groups : List Text)
    → (if ltb n (length groups) then take n groups else groups) ≡ take n groups
truncate n groups = elim (Bool-cases (ltb n (length groups))) [
  | inl e ↦ rw e
  | inr e ↦ rw (e, take_all n groups e)
]

sanitize-take :
    (groups : List Text) → sanitize_groups groups ≡ sanitize_loop (take max_groups_per_user groups)
unfolding sanitize_groups
sanitize-take groups = ap sanitize_loop (truncate max_groups_per_user groups)

any-sanitize_loop :
    (q : Text → Bool) (groups : List Text)
    → any q (sanitize_loop groups)
      ≡ any (λ x. not (is_some (validate_group_name (trim_space x))) && q (trim_space x)) groups
unfolding sanitize_loop
any-sanitize_loop q [] = refl
any-sanitize_loop q (x ∷ groups) = ground (arith, any-sanitize_loop q groups)

contains-normalize_groups :
    (unicode_lower : ℕ → ℕ) (g : Text) (groups : List Text)
    → contains (normalize_groups unicode_lower groups) g
      ≡ any (λ x. to_lower unicode_lower (trim_space x) == g) groups
unfolding normalize_groups contains
contains-normalize_groups u g [] = refl
contains-normalize_groups u g (x ∷ groups) = ground (arith, contains-normalize_groups u g groups)

-- Whether the raw group `x` is well formed and its normal form is `g`.
abbrev pub normal_form : (ℕ → ℕ) → Text → Text → Bool
normal_form unicode_lower g x =
    not (is_some (validate_group_name (trim_space x)))
    && (to_lower unicode_lower (trim_space (trim_space x)) == g)

unseen : (g : Text) → (not (g == []) && not (contains [] g)) ≡ not (g == [])
unfolding contains
unseen g = ground arith

-- The groups of a session are exactly the normal forms of the well-formed ones among the first 100
-- groups of the claim, if they are not empty and the policy allows them.
pub contains-validate_and_normalize_groups :
    (unicode_lower : ℕ → ℕ) (groups : List Text) (config : GroupFilterConfig) (g : Text)
    → contains (validate_and_normalize_groups unicode_lower groups config) g ≡ (
        (any (normal_form unicode_lower g) (take max_groups_per_user groups) && not (g == []))
        && allowed config g)
unfolding validate_and_normalize_groups normalize_and_validate_groups
contains-validate_and_normalize_groups u groups config g =
    let gs = take max_groups_per_user groups in
    rw (filter-policy_loop, sanitize-take)
      (rw (contains-policy_loop config g) (
        rw (contains-deduplicate g []) (
          rw (contains-normalize_groups u g) (
            rw (any-sanitize_loop (λ x. to_lower u (trim_space x) == g) gs) (
              ap (λ (z : Bool). (any (normal_form u g) gs && z) && allowed config g) (unseen g))))))

length-policy_loop-le :
    (config : GroupFilterConfig) (groups : List Text)
    → length (policy_loop config groups) ≤ length groups
unfolding policy_loop
length-policy_loop-le config [] = omega arith
length-policy_loop-le config (x ∷ groups) = ground (arith, length-policy_loop-le config groups)

length-deduplicate-le : (seen groups : List Text) → length (deduplicate seen groups) ≤ length groups
unfolding deduplicate
length-deduplicate-le seen [] = omega arith
length-deduplicate-le seen (x ∷ groups) =
    ground (arith, length-deduplicate-le seen groups, length-deduplicate-le (x ∷ seen) groups)

length-normalize_groups :
    (u : ℕ → ℕ) (groups : List Text) → length (normalize_groups u groups) ≡ length groups
unfolding normalize_groups
length-normalize_groups u [] = refl
length-normalize_groups u (x ∷ groups) = ap suc (length-normalize_groups u groups)

length-sanitize_loop-le : (groups : List Text) → length (sanitize_loop groups) ≤ length groups
unfolding sanitize_loop
length-sanitize_loop-le [] = omega arith
length-sanitize_loop-le (x ∷ groups) = ground (arith, length-sanitize_loop-le groups)

-- No group of a session stands twice, and there are at most 100.
pub validate_and_normalize_groups_bounded :
    (unicode_lower : ℕ → ℕ) (groups : List Text) (config : GroupFilterConfig)
    → let out = validate_and_normalize_groups unicode_lower groups config in
      Distinct out × (length out ≤ max_groups_per_user)
unfolding validate_and_normalize_groups normalize_and_validate_groups
validate_and_normalize_groups_bounded u groups config =
    rw (filter-policy_loop, sanitize-take)
      (policy_loop-Distinct config _ (deduplicate-Distinct [] _), at_most max_groups_per_user)
  where
    at_most :
        (n : ℕ)
        → length (
            policy_loop config
              (deduplicate [] (normalize_groups u (sanitize_loop (take n groups)))))
          ≤ n
    at_most n =
        let sanitized = sanitize_loop (take n groups) in
        let normal = normalize_groups u sanitized in
        omega (
          arith,
          length-policy_loop-le config (deduplicate [] normal),
          length-deduplicate-le [] normal,
          length-normalize_groups u sanitized,
          length-sanitize_loop-le (take n groups),
          length-take-le n groups,
        )
