-- ===== src/Prelude/Dict.antt =====
-- Go's map[string]V as an association list. The program never relies on the order of a map.
use mathlib.Core.Path.{◌≡◌}
use mathlib.Core.Option.{Option, none, some}
use mathlib.Core.List.{List, [], ◌∷◌}
use native.Mathlib.Omega.{arith}
use cache.Prelude.Tests.{if◌then◌else◌}
use cache.Prelude.Text.{Bytes, equal, equal_iff}

abbrev pub Map {ℓ} : Type ℓ → Type ℓ
Map V = List (Bytes × V)

module _ {ℓ} {V : Type ℓ} where
  -- v, ok := m[k]
  unfoldable pub lookup : Bytes → Map V → Option V
  lookup k [] = none
  lookup k ((j, v) ∷ m) = if equal j k then some v else lookup k m

  -- delete(m, k)
  unfoldable pub without : Bytes → Map V → Map V
  without k [] = []
  without k ((j, v) ∷ m) = let rest = without k m in if equal j k then rest else (j, v) ∷ rest

  -- m[k] = v
  unfoldable pub put : Bytes → V → Map V → Map V
  unfolding without
  put k v m = (k, v) ∷ without k m

  pub lookup-without :
      (k j : Bytes) (m : Map V) → lookup j (without k m) ≡ (if equal k j then none else lookup j m)
  unfolding lookup without
  lookup-without k j [] = ground arith
  lookup-without k j ((i, v) ∷ m) =
      ground (arith, lookup-without k j m, equal_iff i k, equal_iff i j, equal_iff k j)

  pub lookup-put :
      (k j : Bytes) (v : V) (m : Map V)
      → lookup j (put k v m) ≡ (if equal k j then some v else lookup j m)
  unfolding lookup put
  lookup-put k j v m = ground (arith, lookup-without k j m)
