-- ===== src/Prelude/Maps.antt =====
-- Go maps with string keys, as association lists. Go leaves the order of a map's iteration open;
-- a list fixes one, and the statements that depend on it speak of membership only.
use mathlib.Core.Logic.{inl, inr}
use mathlib.Core.Path.{◌≡◌}
use mathlib.Core.Bool.{true}
use Prim.Native.Nat.{◌≤◌, ◌<◌}
use mathlib.Core.List.{List, [], ◌∷◌}
use mathlib.Core.Option.{Option, none, some}
use native.Mathlib.Omega.{arith}
use mathlib.Core.List.{Memᴰ}
use Prim.Native.String.{String}
use text.Mathlib.Text.{◌==◌}
use text.Mathlib.TextEquality.{eq_iff}
use deepwork_browser.Prelude.Lists.{length}
use deepwork_browser.Prelude.Tests.{is_some, Bool-cases, if◌then◌else◌}

abbrev pub Map {ℓ} : Type ℓ → Type ℓ
Map V = List (String × V)

module _ {ℓ} {V : Type ℓ} where
  unfoldable pub lookup : String → Map V → Option V
  lookup k [] = none
  lookup k ((j, v) ∷ m) = if j == k then some v else lookup k m

  unfoldable pub delete : String → Map V → Map V
  delete k [] = []
  delete k ((j, v) ∷ m) = if j == k then delete k m else (j, v) ∷ delete k m

  unfoldable pub insert : String → V → Map V → Map V
  unfolding delete
  insert k v m = (k, v) ∷ delete k m

  unfoldable pub values : Map V → List V
  values [] = []
  values ((j, v) ∷ m) = v ∷ values m

  pub lookup-delete :
      (k j : String) (m : Map V) → lookup j (delete k m) ≡ (if k == j then none else lookup j m)
  unfolding lookup delete
  lookup-delete k j [] = ground arith
  lookup-delete k j ((i, w) ∷ m) =
      ground (arith, eq_iff k j, eq_iff i k, eq_iff i j, lookup-delete k j m)

  pub lookup-insert :
      (k j : String) (v : V) (m : Map V)
      → lookup j (insert k v m) ≡ (if k == j then some v else lookup j m)
  unfolding lookup insert
  lookup-insert k j v m = ground (arith, eq_iff k j, lookup-delete k j m)

  pub length-delete : (k : String) (m : Map V) → length (delete k m) ≤ length m
  unfolding delete
  length-delete k [] = omega arith
  length-delete k ((j, v) ∷ m) = ground (arith, length-delete k m)

  pub length-delete_lt :
      (k : String) (m : Map V) → is_some (lookup k m) ≡ true → length (delete k m) < length m
  unfolding lookup delete
  length-delete_lt k [] h = ground arith
  length-delete_lt k ((j, v) ∷ m) h = ground (arith, length-delete k m, length-delete_lt k m)

  pub Mem-values : (k : String) (m : Map V) (v : V) → lookup k m ≡ some v → Memᴰ v (values m)
  unfolding lookup values
  Mem-values k [] v e = cc
  Mem-values k ((j, w) ∷ m) v e = elim (Bool-cases (j == k)) [
    | inl same ↦ Memᴰ.head (ground arith)
    | inr other ↦ Memᴰ.tail (Mem-values k m v (ground arith))
  ]

pub ruleset map_laws = (lookup-insert, lookup-delete)
