-- ===== src/Ui/Groups/Shape.antt =====
-- The shape of the groups that the validation of src/ui/group_validation.go puts into a session.
use mathlib.Core.List.{reverse, reverse_aux}
use mogenius_renovate_operat.Prelude.{
  ℕ, ◌+◌, ◌≤◌, ◌≡◌, refl, Bool, true, false, not, ◌&&◌, List, [], ◌∷◌, arith, if◌then◌else◌, leb,
  is_some, all, All, All-if, Bool-cases, inl, inr,
}
use mogenius_renovate_operat.Prelude.Text.{
  Text, ◌==◌, contains, has_prefix, trim_left, trim_space, lower_rune, to_lower, rune_len, byte_len,
}
use mogenius_renovate_operat.Ui.Groups.Members.{filter-policy_loop}
use mogenius_renovate_operat.Ui.Groups.{
  max_group_name_length, is_group_rune, valid_group_name_pattern, validate_group_name,
  sanitize_loop, sanitize_groups, normalize_groups, deduplicate, normalize_and_validate_groups,
  GroupFilterConfig, passes_pattern, policy_loop, validate_and_normalize_groups,
}

-- A property of the runes of a text, closed under the text functions below.
abbrev Runes : (ℕ → Bool) → Text → Type 0
Runes p s = all p s ≡ true

module _ (p : ℕ → Bool) where
  all-trim_left : (s : Text) → Runes p s → Runes p (trim_left s)
  unfolding trim_left
  all-trim_left [] h = refl
  all-trim_left (c ∷ s) h = ground (arith, all-trim_left s)

  all-reverse_aux : (s t : Text) → Runes p s → Runes p t → Runes p (reverse_aux s t)
  all-reverse_aux [] t h k = k
  all-reverse_aux (c ∷ s) t h k = all-reverse_aux s (c ∷ t) (ground arith) (ground arith)

  all-trim_space : (s : Text) → Runes p s → Runes p (trim_space s)
  unfolding trim_space
  all-trim_space s h =
      all-reverse_aux (trim_left (reverse (trim_left s))) []
        (all-trim_left (reverse (trim_left s))
          (all-reverse_aux (trim_left s) [] (all-trim_left s h) refl))
        refl

byte_len-trim_left : (s : Text) → byte_len (trim_left s) ≤ byte_len s
unfolding trim_left byte_len
byte_len-trim_left [] = omega arith
byte_len-trim_left (c ∷ s) = ground (arith, byte_len-trim_left s)

byte_len-reverse_aux : (s t : Text) → byte_len (reverse_aux s t) ≡ byte_len s + byte_len t
unfolding byte_len
byte_len-reverse_aux [] t = omega arith
byte_len-reverse_aux (c ∷ s) t = omega (arith, byte_len-reverse_aux s (c ∷ t))

byte_len-reverse : (s : Text) → byte_len (reverse s) ≡ byte_len s
unfolding byte_len
byte_len-reverse s = omega (arith, byte_len-reverse_aux s [])

byte_len-trim_space : (s : Text) → byte_len (trim_space s) ≤ byte_len s
unfolding trim_space
byte_len-trim_space s =
    let t = trim_left s in
    omega (
      arith,
      byte_len-reverse (trim_left (reverse t)),
      byte_len-trim_left (reverse t),
      byte_len-reverse t,
      byte_len-trim_left s,
    )

and_left : (a b : Bool) → (a && b) ≡ true → a ≡ true
and_left a b h = ground arith

and_right : (a b : Bool) → (a && b) ≡ true → b ≡ true
and_right a b h = ground arith

-- A rune of the class that is no capital letter.
abbrev pub is_session_rune : ℕ → Bool
is_session_rune c = is_group_rune c && not (leb b'A' c && leb c b'Z')

lower_rune_group :
    (u : ℕ → ℕ) (c : ℕ)
    → is_group_rune c ≡ true
    → (is_session_rune (lower_rune u c) ≡ true) × (rune_len (lower_rune u c) ≡ rune_len c)
unfolding is_group_rune lower_rune rune_len
lower_rune_group u c h = ground arith

to_lower_group :
    (u : ℕ → ℕ) (s : Text)
    → Runes is_group_rune s
    → Runes is_session_rune (to_lower u s) × (byte_len (to_lower u s) ≡ byte_len s)
unfolding to_lower byte_len
to_lower_group u [] h = (refl, refl)
to_lower_group u (c ∷ s) h =
    let (head, same) = lower_rune_group u c (and_left _ _ h) in
    let (rest, len) = to_lower_group u s (and_right (is_group_rune c) _ h) in
    (rw head rest, omega (arith, same, len))

-- A group that passed the validation: class runes without capitals, at most 256 bytes, not empty.
pub record IsSessionGroup (g : Text) : Type 0 where
  pub runes : all is_session_rune g ≡ true
  pub short : byte_len g ≤ max_group_name_length
  pub nonempty : (g == []) ≡ false

abbrev IsValidName : Text → Type 0
IsValidName s = Runes is_group_rune s × (byte_len s ≤ max_group_name_length)

validate_group_name-IsValidName :
    (s : Text) → is_some (validate_group_name s) ≡ false → IsValidName s
unfolding validate_group_name valid_group_name_pattern
validate_group_name-IsValidName [] h = (refl, unfold byte_len in omega arith)
validate_group_name-IsValidName (c ∷ s) h = ground arith

sanitize_loop-IsValidName : (groups : List Text) → All IsValidName (sanitize_loop groups)
unfolding sanitize_loop
sanitize_loop-IsValidName [] = tt
sanitize_loop-IsValidName (x ∷ groups) =
    elim (Bool-cases (is_some (validate_group_name (trim_space x)))) [
      | inl e ↦ rw e (sanitize_loop-IsValidName groups)
      | inr e ↦
          rw e (validate_group_name-IsValidName (trim_space x) e, sanitize_loop-IsValidName groups)
    ]

abbrev IsNormal : Text → Type 0
IsNormal s = Runes is_session_rune s × (byte_len s ≤ max_group_name_length)

normalize_groups-IsNormal :
    (u : ℕ → ℕ) (groups : List Text)
    → All IsValidName groups
    → All IsNormal (normalize_groups u groups)
unfolding normalize_groups
normalize_groups-IsNormal u [] h = tt
normalize_groups-IsNormal u (x ∷ groups) h =
    let (runes, len) = to_lower_group u (trim_space x) (all-trim_space is_group_rune x h.0.0) in
    (
      (runes, omega (arith, len, byte_len-trim_space x, h.0.1)),
      normalize_groups-IsNormal u groups h.1,
    )

deduplicate-IsSessionGroup :
    (seen groups : List Text) → All IsNormal groups → All IsSessionGroup (deduplicate seen groups)
unfolding deduplicate
deduplicate-IsSessionGroup seen [] h = tt
deduplicate-IsSessionGroup seen (x ∷ groups) h = elim (Bool-cases (x == [])) [
  | inl e ↦ rw e (deduplicate-IsSessionGroup seen groups h.1)
  | inr e ↦ elim (Bool-cases (contains seen x)) [
    | inl d ↦ rw (e, d) (deduplicate-IsSessionGroup seen groups h.1)
    | inr d ↦
        rw (e, d)
          (
            record { runes = h.0.0; short = h.0.1; nonempty = e },
            deduplicate-IsSessionGroup (x ∷ seen) groups h.1,
          )
  ]
]

policy_loop-All :
    (P : Text → Type 0) (config : GroupFilterConfig) (groups : List Text)
    → All P groups
    → All P (policy_loop config groups)
unfolding policy_loop
policy_loop-All P config [] h = tt
policy_loop-All P config (x ∷ groups) h =
    let rest = policy_loop-All P config groups h.1 in
    All-if P (not (config.allowed_prefix == []) && not (has_prefix x config.allowed_prefix))
      (policy_loop config groups)
      (if not (passes_pattern config.allowed_pattern x)
        then policy_loop config groups
        else x ∷ policy_loop config groups)
      rest
      (All-if P (not (passes_pattern config.allowed_pattern x)) (policy_loop config groups)
        (x ∷ policy_loop config groups) rest (h.0, rest))

-- Every group of a session has only the characters of the class, no capitals, at most 256 bytes and
-- at least one character, whatever the claim was.
pub validate_and_normalize_groups-IsSessionGroup :
    (unicode_lower : ℕ → ℕ) (groups : List Text) (config : GroupFilterConfig)
    → All IsSessionGroup (validate_and_normalize_groups unicode_lower groups config)
unfolding validate_and_normalize_groups normalize_and_validate_groups sanitize_groups
validate_and_normalize_groups-IsSessionGroup u groups config = rw filter-policy_loop (
    policy_loop-All IsSessionGroup config _ (
      deduplicate-IsSessionGroup [] _
        (normalize_groups-IsNormal u _ (sanitize_loop-IsValidName _))))
