-- ===== src/Prelude/Entries.antt =====
-- What holds of every entry of a map.
use Prim.Native.String.{String}
use mathlib.Core.Path.{◌≡◌, subst}
use mathlib.Core.Logic.{inl, inr}
use mathlib.Core.List.{[], ◌∷◌}
use mathlib.Core.Option.{some}
use native.Mathlib.Omega.{arith}
use text.Mathlib.Text.{◌==◌}
use text.Mathlib.TextEquality.{eq_iff}
use deepwork_browser.Prelude.Tests.{Bool-cases, if_cases_dep}
use deepwork_browser.Prelude.Lists.{All}
use deepwork_browser.Prelude.Maps.{Map, lookup, delete}

module _ {V : Type 0} (P : String × V → Type 0) where
  pub All-delete : (k : String) (m : Map V) → All P m → All P (delete k m)
  unfolding delete
  All-delete k [] h = tt
  All-delete k ((j, v) ∷ m) (p, h) =
      if_cases_dep (All P) (j == k) _ _ (λ _. All-delete k m h) (λ _. (p, All-delete k m h))

  pub All-lookup : (k : String) (i : V) (m : Map V) → All P m → lookup k m ≡ some i → P (k, i)
  unfolding lookup
  All-lookup k i [] h e = cc
  All-lookup k i ((j, v) ∷ m) (p, h) e = elim (Bool-cases (j == k)) [
    | inl same ↦ subst P (ground (arith, eq_iff j k)) p
    | inr other ↦ All-lookup k i m h (ground arith)
  ]
