-- ===== src/Prelude/Lines.antt =====
-- The lines that a bufio.Scanner gives: the text is cut at the newlines, a final empty piece is no line, a
-- carriage return at the end of a line is dropped, and a line that has `max` bytes or more ends the scan.
use Prim.Native.Nat.{ℕ, ◌≤◌}
use mathlib.Core.Path.{◌≡◌, refl, sym, ap, ◌∙◌}
use mathlib.Core.Bool.{Bool, true, not, ◌||◌}
use mathlib.Core.List.{List, [], ◌∷◌, ◌++◌}
use native.Mathlib.Omega.{arith}
use mogenius_renovate_operat.Prelude.Tests.{leb, nat_eq, if◌then◌else◌}
use mogenius_renovate_operat.Prelude.Lists.{all}
use mogenius_renovate_operat.Prelude.Text.{Text, ◌==◌, byte_len, split_at, split}

drop_cr : Text → Text
drop_cr [] = []
drop_cr (c ∷ []) = if nat_eq c b'\r' then [] else c ∷ []
drop_cr (c ∷ d ∷ s) = c ∷ drop_cr (d ∷ s)

-- The lines among the pieces between newlines.
lines_of : ℕ → List Text → List Text
unfolding drop_cr
lines_of max [] = []
lines_of max (piece ∷ []) =
    if (piece == []) || leb max (byte_len piece) then [] else drop_cr piece ∷ []
lines_of max (piece ∷ next ∷ pieces) =
    let rest = lines_of max (next ∷ pieces) in
    if leb max (byte_len piece) then [] else drop_cr piece ∷ rest

unfoldable pub scan_lines : ℕ → Text → List Text
unfolding lines_of
scan_lines max s = lines_of max (split b'\n' s)

pub split-++ : (sep : ℕ) (s t : Text) → split sep (s ++ (sep ∷ t)) ≡ split sep s ++ split sep t
unfolding split split_at
split-++ sep [] t = ground arith
split-++ sep (c ∷ s) t = ground (arith, split-++ sep s t)

long-pieces :
    (max : ℕ) (pieces : List Text) (long : Text) (others : List Text)
    → max ≤ byte_len long
    → lines_of max (pieces ++ (long ∷ others)) ≡ lines_of max (pieces ++ ([] ∷ []))
unfolding lines_of ◌==◌
long-pieces max [] long [] h = ground arith
long-pieces max [] long (o ∷ others) h = ground arith
long-pieces max (p ∷ []) long others h = ground (arith, long-pieces max [] long others h)
long-pieces max (p ∷ q ∷ pieces) long others h =
    ground (arith, long-pieces max (q ∷ pieces) long others h)

-- Whether a text is one line.
abbrev pub is_line : Text → Bool
is_line s = all (λ c. not (nat_eq c b'\n')) s

split-line : (s : Text) → is_line s ≡ true → split b'\n' s ≡ s ∷ []
unfolding split split_at
split-line [] h = refl
split-line (c ∷ s) h = ground (arith, split-line s)

-- A line that is too long hides itself and all that follows it.
pub scan_lines-long :
    (max : ℕ) (before long rest : Text)
    → is_line long ≡ true
    → max ≤ byte_len long
    → scan_lines max (before ++ (b'\n' ∷ (long ++ (b'\n' ∷ rest))))
      ≡ scan_lines max (before ++ (b'\n' ∷ []))
unfolding scan_lines split
scan_lines-long max before long rest line h =
    let nl : ℕ = b'\n' in
    ap (lines_of max) (
      split-++ nl before (long ++ (nl ∷ rest))
      ∙ ap (λ ps. split nl before ++ ps)
          (split-++ nl long rest ∙ ap (λ ps. ps ++ split nl rest) (split-line long line)))
    ∙ (long-pieces max (split nl before) long (split nl rest) h
        ∙ ap (lines_of max) (sym (split-++ nl before [])))

pub scan_lines-nil : (max : ℕ) → scan_lines max [] ≡ []
unfolding scan_lines split split_at ◌==◌
scan_lines-nil max = refl
