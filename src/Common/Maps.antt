-- ===== src/Common/Maps.antt =====
-- A Go map with string keys as an association list. Storing a key removes its old entry first, so a
-- key has at most one entry when every entry came in by `insert`.
use Prim.Native.String.{String}
use mathlib.Core.Path.{◌≡◌}
use mathlib.Core.List.{List, [], ◌∷◌}
use mathlib.Core.Option.{Option, none, some}
use native.Mathlib.Omega.{arith}
use text.Mathlib.Text.{◌==◌}
use text.Mathlib.TextEquality.{eq_iff}
use public_pkg.Common.Tests.{if◌then◌else◌}

module _ {ℓ} {V : Type ℓ} where
  unfoldable pub delete : String → List (String × V) → List (String × V)
  delete key [] = []
  delete key ((name, x) ∷ es) =
      let rest = delete key es in if name == key then rest else (name, x) ∷ rest

  unfoldable pub insert : String → V → List (String × V) → List (String × V)
  insert key x es = (key, x) ∷ delete key es

  unfoldable pub lookup : String → List (String × V) → Option V
  lookup key [] = none
  lookup key ((name, x) ∷ es) = let rest = lookup key es in if name == key then some x else rest

  pub lookup-delete :
      (key other : String) (es : List (String × V))
      → lookup other (delete key es) ≡ (if key == other then none else lookup other es)
  unfolding delete lookup
  lookup-delete key other [] = ground (arith, eq_iff key other)
  lookup-delete key other ((name, x) ∷ es) =
      ground
        (arith, lookup-delete key other es, eq_iff name key, eq_iff name other, eq_iff key other)

  pub lookup-insert :
      (key other : String) (x : V) (es : List (String × V))
      → lookup other (insert key x es) ≡ (if key == other then some x else lookup other es)
  unfolding insert lookup
  lookup-insert key other x es = ground (arith, lookup-delete key other es)
