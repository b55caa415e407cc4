-- ===== src/Prelude/Lists.antt =====
-- Lists measured by native numbers under the library's names, Boolean filters and tests, and the
-- predicates on lists that the components share.
use Prim.Native.Nat.{ℕ, zero, suc, ◌≤◌}
use mathlib.Core.Bool.{Bool, true, false, ◌||◌, ◌&&◌}
use mathlib.Core.Path.{◌≡◌, refl, ap}
use mathlib.Core.List.{List, [], ◌∷◌, ◌++◌}
use native.Mathlib.Omega.{arith}
use mogenius_renovate_operat.Prelude.Tests.{if◌then◌else◌}

module _ {ℓ} {A : Type ℓ} where
  abbrev pub length : List A → ℕ
  length [] = 0
  length (x ∷ xs) = suc (length xs)

  abbrev pub take : ℕ → List A → List A
  take zero xs = []
  take (suc n) [] = []
  take (suc n) (x ∷ xs) = x ∷ take n xs

  abbrev pub dropped : ℕ → List A → List A
  dropped zero xs = xs
  dropped (suc n) [] = []
  dropped (suc n) (x ∷ xs) = dropped n xs

  -- The elements that pass a Boolean test, in order.
  abbrev pub select : (A → Bool) → List A → List A
  select p [] = []
  select p (x ∷ xs) = let rest = select p xs in if p x then x ∷ rest else rest

  -- How many elements pass a Boolean test.
  abbrev pub count_of : (A → Bool) → List A → ℕ
  count_of p [] = 0
  count_of p (x ∷ xs) = let rest = count_of p xs in if p x then suc rest else rest

  abbrev pub any : (A → Bool) → List A → Bool
  any p [] = false
  any p (x ∷ xs) = p x || any p xs

  abbrev pub all : (A → Bool) → List A → Bool
  all p [] = true
  all p (x ∷ xs) = p x && all p xs

  abbrev pub All {κ} : (A → Type κ) → List A → Type κ
  All P [] = Unit
  All P (x ∷ xs) = P x × All P xs

module _ {ℓ} {A : Type ℓ} where
  pub length-take-le : (n : ℕ) (xs : List A) → length (take n xs) ≤ n
  length-take-le zero xs = omega arith
  length-take-le (suc n) [] = omega arith
  length-take-le (suc n) (x ∷ xs) = omega (arith, length-take-le n xs)

  pub All-if {κ} :
      (P : A → Type κ) (b : Bool) (xs ys : List A)
      → All P xs
      → All P ys
      → All P (if b then xs else ys)
  All-if P true xs ys hx hy = hx
  All-if P false xs ys hx hy = hy

  pub take-++ : (xs ys : List A) → take (length xs) (xs ++ ys) ≡ xs
  take-++ [] ys = refl
  take-++ (x ∷ xs) ys = ap (λ zs. x ∷ zs) (take-++ xs ys)

  pub dropped-++ : (xs ys : List A) → dropped (length xs) (xs ++ ys) ≡ ys
  dropped-++ [] ys = refl
  dropped-++ (x ∷ xs) ys = dropped-++ xs ys

  pub length-++-le : (xs ys : List A) → length xs ≤ length (xs ++ ys)
  length-++-le [] ys = omega arith
  length-++-le (x ∷ xs) ys = omega (arith, length-++-le xs ys)
