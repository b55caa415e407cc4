-- ===== src/Ui/Groups.antt =====
-- The three layers of group validation: src/ui/group_validation.go. What is logged is left out.
-- `unicode_lower` is the table of package unicode, and a compiled pattern is its MatchString.
pub mod Members
pub mod Shape
use mogenius_renovate_operat.Prelude.{
  ℕ, Bool, true, false, not, ◌&&◌, ◌||◌, Option, none, some, List, [], ◌∷◌, if◌then◌else◌, ltb, leb,
  nat_eq, length, take, all, is_some,
}
use mogenius_renovate_operat.Prelude.Text.{
  Text, text, ◌==◌, contains, has_prefix, trim_space, to_lower, byte_len,
}

abbrev pub max_group_name_length : ℕ
max_group_name_length = 256

abbrev pub max_groups_per_user : ℕ
max_groups_per_user = 100

-- The class [a-zA-Z0-9._@/,= -].
unfoldable pub is_group_rune : ℕ → Bool
is_group_rune c =
    (leb b'a' c && leb c b'z')
    || (leb b'A' c && leb c b'Z')
    || (leb b'0' c && leb c b'9')
    || nat_eq c b'.'
    || nat_eq c b'_'
    || nat_eq c b'@'
    || nat_eq c b'/'
    || nat_eq c b','
    || nat_eq c b'='
    || nat_eq c b' '
    || nat_eq c b'-'

-- MatchString of validGroupNamePattern
unfoldable pub valid_group_name_pattern : Text → Bool
valid_group_name_pattern [] = false
valid_group_name_pattern (c ∷ s) = all is_group_rune (c ∷ s)

pub data GroupNameError : Type 0 where
  empty_name : GroupNameError
  too_long : ℕ → GroupNameError
  invalid_characters : GroupNameError

-- `none` for nil
unfoldable pub validate_group_name : Text → Option GroupNameError
validate_group_name name =
    if nat_eq (byte_len name) 0
    then some empty_name
    else if ltb max_group_name_length (byte_len name)
    then some (too_long (byte_len name))
    else if not (valid_group_name_pattern name)
    then some invalid_characters
    else none

-- the loop of sanitizeGroups
unfoldable pub sanitize_loop : List Text → List Text
sanitize_loop [] = []
sanitize_loop (group ∷ groups) =
    let rest = sanitize_loop groups in
    if is_some (validate_group_name (trim_space group)) then rest else trim_space group ∷ rest

unfoldable pub sanitize_groups : List Text → List Text
unfolding sanitize_loop
sanitize_groups groups =
    sanitize_loop
      (if ltb max_groups_per_user (length groups) then take max_groups_per_user groups else groups)

module _ (unicode_lower : ℕ → ℕ) where
  unfoldable pub normalize_groups : List Text → List Text
  normalize_groups [] = []
  normalize_groups (group ∷ groups) =
      to_lower unicode_lower (trim_space group) ∷ normalize_groups groups

-- the loop of normalizeAndValidateGroups
unfoldable pub deduplicate : List Text → List Text → List Text
deduplicate seen [] = []
deduplicate seen (group ∷ groups) =
    let skip = deduplicate seen groups in
    let keep = deduplicate (group ∷ seen) groups in
    if group == [] then skip else if contains seen group then skip else group ∷ keep

module _ (unicode_lower : ℕ → ℕ) where
  unfoldable pub normalize_and_validate_groups : List Text → List Text
  unfolding normalize_groups deduplicate
  normalize_and_validate_groups groups = deduplicate [] (normalize_groups unicode_lower groups)

pub record GroupFilterConfig : Type 0 where
  pub allowed_prefix : Text
  pub allowed_pattern : Option (Text → Bool)

-- the body of the loop of filterGroupsByPolicy: whether it keeps the group
unfoldable pub passes_pattern : Option (Text → Bool) → Text → Bool
passes_pattern none group = true
passes_pattern (some match_string) group = match_string group

-- the loop of filterGroupsByPolicy
unfoldable pub policy_loop : GroupFilterConfig → List Text → List Text
unfolding passes_pattern
policy_loop config [] = []
policy_loop config (group ∷ groups) =
    let rest = policy_loop config groups in
    if not (config.allowed_prefix == []) && not (has_prefix group config.allowed_prefix)
    then rest
    else if not (passes_pattern config.allowed_pattern group)
    then rest
    else group ∷ rest

unfoldable pub filter_groups_by_policy : List Text → GroupFilterConfig → List Text
unfolding policy_loop
filter_groups_by_policy groups config =
    if (config.allowed_prefix == []) && not (is_some config.allowed_pattern)
    then groups
    else policy_loop config groups

module _ (unicode_lower : ℕ → ℕ) where
  unfoldable pub validate_and_normalize_groups : List Text → GroupFilterConfig → List Text
  unfolding sanitize_groups normalize_and_validate_groups filter_groups_by_policy
  validate_and_normalize_groups groups config =
      filter_groups_by_policy (normalize_and_validate_groups unicode_lower (sanitize_groups groups))
        config
