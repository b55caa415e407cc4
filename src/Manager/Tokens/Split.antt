-- ===== src/Manager/Tokens/Split.antt =====
-- What strings.Split gives for a separator of one character, as the token lists of
-- src/internal/crdManager/renovateJobManager.go use it.
use mogenius_renovate_operat.Prelude.{
  ℕ, ◌≡◌, refl, ap, ◌∙◌, Bool, true, false, List, [], ◌∷◌, ◌++◌, ◌||◌, arith, All, nat_eq,
}
use mogenius_renovate_operat.Prelude.Text.{Text, ◌==◌, contains, split_at, split}

abbrev pub has_rune : ℕ → Text → Bool
has_rune sep [] = false
has_rune sep (c ∷ s) = nat_eq c sep || has_rune sep s

-- The pieces with the separator between them.
abbrev pub join : ℕ → Text → List Text → Text
join sep piece [] = piece
join sep piece (next ∷ pieces) = piece ++ sep ∷ join sep next pieces

abbrev pub Lacks : ℕ → Text → Type 0
Lacks sep piece = has_rune sep piece ≡ false

split_at-Lacks :
    (sep : ℕ) (s : Text) → Lacks sep (split_at sep s).0 × All (Lacks sep) (split_at sep s).1
unfolding split_at
split_at-Lacks sep [] = (refl, tt)
split_at-Lacks sep (c ∷ s) = ground (arith, split_at-Lacks sep s)

join-cons :
    (sep c : ℕ) (piece : Text) (pieces : List Text)
    → join sep (c ∷ piece) pieces ≡ c ∷ join sep piece pieces
join-cons sep c piece [] = refl
join-cons sep c piece (next ∷ pieces) = refl

join-split_at : (sep : ℕ) (s : Text) → join sep (split_at sep s).0 (split_at sep s).1 ≡ s
unfolding split_at
join-split_at sep [] = refl
join-split_at sep (c ∷ s) =
    ground (arith, join-split_at sep s, join-cons sep c (split_at sep s).0 (split_at sep s).1)

-- Splitting gives pieces that have no separator and that joined again give the text.
pub join-split :
    (sep : ℕ) (s : Text)
    → (piece : Text) × (pieces : List Text) × (split sep s ≡ piece ∷ pieces)
      × Lacks sep piece
      × All (Lacks sep) pieces
      × (join sep piece pieces ≡ s)
unfolding split
join-split sep s = (
  (split_at sep s).0,
  (split_at sep s).1,
  refl,
  (split_at-Lacks sep s).0,
  (split_at-Lacks sep s).1,
  join-split_at sep s,
)

ends_at : (sep : ℕ) (s : Text) → contains (split_at sep (s ++ sep ∷ [])).1 [] ≡ true
unfolding split_at contains ◌==◌
ends_at sep [] = ground arith
ends_at sep (c ∷ s) = ground (arith, ends_at sep s)

-- The last piece of a text that ends in the separator is empty.
pub ends : (sep : ℕ) (s : Text) → contains (split sep (s ++ sep ∷ [])) [] ≡ true
unfolding split contains
ends sep s = ground (arith, ends_at sep s)

split_at-piece :
    (sep : ℕ) (piece s : Text)
    → Lacks sep piece
    → split_at sep (piece ++ sep ∷ s) ≡ (piece, (split_at sep s).0 ∷ (split_at sep s).1)
unfolding split_at
split_at-piece sep [] s h = ground arith
split_at-piece sep (c ∷ piece) s h = ground (arith, split_at-piece sep piece s)

split_at-last : (sep : ℕ) (piece : Text) → Lacks sep piece → split_at sep piece ≡ (piece, [])
unfolding split_at
split_at-last sep [] h = refl
split_at-last sep (c ∷ piece) h = ground (arith, split_at-last sep piece)

split_at-join :
    (sep : ℕ) (piece : Text) (pieces : List Text)
    → Lacks sep piece
    → All (Lacks sep) pieces
    → split_at sep (join sep piece pieces) ≡ (piece, pieces)
split_at-join sep piece [] h hs = split_at-last sep piece h
split_at-join sep piece (next ∷ pieces) h hs =
    split_at-piece sep piece (join sep next pieces) h
    ∙ ap (λ (x : Text × List Text). (piece, x.0 ∷ x.1)) (split_at-join sep next pieces hs.0 hs.1)

-- Splitting what was joined gives the pieces back, if none has the separator.
pub split-join :
    (sep : ℕ) (piece : Text) (pieces : List Text)
    → Lacks sep piece
    → All (Lacks sep) pieces
    → split sep (join sep piece pieces) ≡ piece ∷ pieces
unfolding split
split-join sep piece pieces h hs =
    ap (λ (x : Text × List Text). x.0 ∷ x.1) (split_at-join sep piece pieces h hs)
