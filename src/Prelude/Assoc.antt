-- ===== src/Prelude/Assoc.antt =====
-- Go maps with text keys as association lists. The program never depends on the order in which a map
-- is walked, beyond what a theorem says.
use mathlib.Core.Path.{◌≡◌, refl}
use mathlib.Core.Option.{Option, none, some}
use mathlib.Core.List.{List, [], ◌∷◌}
use native.Mathlib.Omega.{arith}
use mogenius_renovate_operat.Prelude.Tests.{if◌then◌else◌}
use mogenius_renovate_operat.Prelude.Text.{Text, ◌==◌, eq_iff}

abbrev pub Assoc {ℓ} : Type ℓ → Type ℓ
Assoc V = List (Text × V)

module _ {ℓ} {V : Type ℓ} where
  -- m[k], with the flag of `v, ok := m[k]`
  unfoldable pub lookup : Text → Assoc V → Option V
  lookup k [] = none
  lookup k ((j, v) ∷ m) = if j == k then some v else lookup k m

  -- m[k] = v
  unfoldable pub insert : Text → V → Assoc V → Assoc V
  insert k v [] = (k, v) ∷ []
  insert k v ((j, w) ∷ m) = if j == k then (k, v) ∷ m else (j, w) ∷ insert k v m

  pub lookup-insert :
      (key other : Text) (value : V) (entries : Assoc V)
      → lookup other (insert key value entries)
        ≡ (if key == other then some value else lookup other entries)
  unfolding insert lookup
  lookup-insert key other value [] = refl
  lookup-insert key other value (e ∷ entries) = ground (
    arith,
    lookup-insert key other value entries,
    eq_iff e.0 other,
    eq_iff e.0 key,
    eq_iff key other,
  )

  -- delete(m, k)
  unfoldable pub delete : Text → Assoc V → Assoc V
  delete k [] = []
  delete k ((j, v) ∷ m) = let rest = delete k m in if j == k then rest else (j, v) ∷ rest

  pub lookup-delete :
      (key other : Text) (entries : Assoc V)
      → lookup other (delete key entries) ≡ (if key == other then none else lookup other entries)
  unfolding delete lookup
  lookup-delete key other [] = ground arith
  lookup-delete key other (e ∷ entries) =
      ground
        (arith, lookup-delete key other entries, eq_iff e.0 other, eq_iff e.0 key, eq_iff key other)
