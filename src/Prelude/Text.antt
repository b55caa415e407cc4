-- ===== src/Prelude/Text.antt =====
-- Go strings as the lists of their code points, with the parts of package strings that the program
-- uses. `unicode_lower` is the table of package unicode above the ASCII range.
use Prim.Native.Char.{code}
use Prim.Native.String.{String}
use Prim.Native.Nat.{ℕ, ◌+◌}
use mathlib.Core.Path.{◌≡◌, refl}
use mathlib.Core.Bool.{Bool, true, false, ◌&&◌, ◌||◌}
use mathlib.Core.Logic.{◌↔◌}
use mathlib.Core.List.{List, [], ◌∷◌, map, reverse}
use native.Mathlib.Omega.{arith}
use mogenius_renovate_operat.Prelude.Tests.{ltb, leb, nat_eq, if◌then◌else◌}

abbrev pub Text : Type 0
Text = List ℕ

-- A text literal.
abbrev pub text : String → Text
text String.[] = []
text (String.◌∷◌ c s) = code c ∷ text s

infix 50 ◌==◌
unfoldable pub ◌==◌ : Text → Text → Bool
[] == [] = true
[] == (d ∷ t) = false
(c ∷ s) == [] = false
(c ∷ s) == (d ∷ t) = nat_eq c d && (s == t)

pub eq→≡ : (s t : Text) → (s == t) ≡ true → s ≡ t
unfolding ◌==◌
eq→≡ [] [] h = refl
eq→≡ [] (d ∷ t) h = ground arith
eq→≡ (c ∷ s) [] h = ground arith
eq→≡ (c ∷ s) (d ∷ t) h = ground (arith, eq→≡ s t)

pub eq_refl : (s : Text) → (s == s) ≡ true
unfolding ◌==◌
eq_refl [] = refl
eq_refl (c ∷ s) = ground (arith, eq_refl s)

pub ≡→eq : (s t : Text) → s ≡ t → (s == t) ≡ true
≡→eq s t h = ground (arith, eq_refl s)

pub eq_iff : (s t : Text) → ((s == t) ≡ true) ↔ (s ≡ t)
eq_iff s t = (eq→≡ s t, ≡→eq s t)

-- slices.Contains
unfoldable pub contains : List Text → Text → Bool
contains [] s = false
contains (t ∷ ts) s = (t == s) || contains ts s

-- strings.HasPrefix s p
unfoldable pub has_prefix : Text → Text → Bool
has_prefix s [] = true
has_prefix [] (d ∷ p) = false
has_prefix (c ∷ s) (d ∷ p) = nat_eq c d && has_prefix s p

-- strings.Contains s p
unfoldable pub has_infix : Text → Text → Bool
unfolding has_prefix
has_infix [] p = has_prefix [] p
has_infix (c ∷ s) p = has_prefix (c ∷ s) p || has_infix s p

-- unicode.IsSpace
unfoldable pub is_space : ℕ → Bool
is_space c =
    (leb 9 c && leb c 13)
    || nat_eq c 32
    || nat_eq c 0x85
    || nat_eq c 0xa0
    || nat_eq c 0x1680
    || (leb 0x2000 c && leb c 0x200a)
    || nat_eq c 0x2028
    || nat_eq c 0x2029
    || nat_eq c 0x202f
    || nat_eq c 0x205f
    || nat_eq c 0x3000

unfoldable pub trim_left : Text → Text
unfolding is_space
trim_left [] = []
trim_left (c ∷ s) = let rest = trim_left s in if is_space c then rest else c ∷ s

-- strings.TrimSpace
unfoldable pub trim_space : Text → Text
unfolding trim_left
trim_space s = reverse (trim_left (reverse (trim_left s)))

-- unicode.ToLower, with the table for what is not ASCII
unfoldable pub lower_rune : (ℕ → ℕ) → ℕ → ℕ
lower_rune unicode_lower c =
    if ltb c 128 then (if leb b'A' c && leb c b'Z' then c + 32 else c) else unicode_lower c

-- strings.ToLower
unfoldable pub to_lower : (ℕ → ℕ) → Text → Text
unfolding lower_rune
to_lower unicode_lower = map (lower_rune unicode_lower)

-- The bytes of a code point in UTF-8.
unfoldable pub rune_len : ℕ → ℕ
rune_len c = if ltb c 0x80 then 1 else if ltb c 0x800 then 2 else if ltb c 0x10000 then 3 else 4

-- len(s)
unfoldable pub byte_len : Text → ℕ
unfolding rune_len
byte_len [] = 0
byte_len (c ∷ s) = rune_len c + byte_len s

-- The first piece of a split at the code point `sep`, and the others.
unfoldable pub split_at : ℕ → Text → Text × List Text
split_at sep [] = ([], [])
split_at sep (c ∷ s) =
    let (piece, pieces) = split_at sep s in
    if nat_eq c sep then ([], piece ∷ pieces) else (c ∷ piece, pieces)

-- strings.Split s sep, for a separator of one code point
unfoldable pub split : ℕ → Text → List Text
unfolding split_at
split sep s = let (piece, pieces) = split_at sep s in piece ∷ pieces
