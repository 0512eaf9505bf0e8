-- ===== src/Prelude/Dict.antt =====
-- Go's `map[string]V` as an association list. An iteration over a map takes any order: it is the
-- order of the list, and a theorem for every list is one for every order.
use Prim.Native.String.{String}
use mathlib.Core.Path.{◌≡◌, refl}
use mathlib.Core.Option.{Option, none, some}
use mathlib.Core.List.{List, [], ◌∷◌}
use native.Mathlib.Omega.{arith}
use text.Mathlib.Text.{◌==◌}
use text.Mathlib.TextEquality.{eq_iff}
use ozone.Prelude.Tests.{if◌then◌else◌}

abbrev pub Dict {ℓ} : Type ℓ → Type ℓ
Dict V = List (String × V)

module _ {ℓ} {V : Type ℓ} where
  -- The value of m[k], and whether there is one
  unfoldable pub lookup : String → Dict V → Option V
  lookup k [] = none
  lookup k ((key, found) ∷ rest) = if key == k then some found else lookup k rest

  -- m[k] = v
  unfoldable pub insert : String → V → Dict V → Dict V
  insert k new [] = (k, new) ∷ []
  insert k new ((key, old) ∷ rest) =
      if key == k then (k, new) ∷ rest else (key, old) ∷ insert k new rest

  -- delete(m, k)
  unfoldable pub delete : String → Dict V → Dict V
  delete k [] = []
  delete k ((j, v) ∷ m) = let rest = delete k m in if j == k then rest else (j, v) ∷ rest

  pub lookup-insert :
      (k j : String) (new : V) (dict : Dict V)
      → lookup j (insert k new dict) ≡ (if k == j then some new else lookup j dict)
  unfolding lookup insert
  lookup-insert k j new [] = refl
  lookup-insert k j new ((key, old) ∷ rest) =
      ground (arith, lookup-insert k j new rest, eq_iff key k, eq_iff key j, eq_iff k j)

  pub lookup-delete :
      (k j : String) (m : Dict V) → lookup j (delete k m) ≡ (if k == j then none else lookup j m)
  unfolding lookup delete
  lookup-delete k j [] = ground arith
  lookup-delete k j ((i, v) ∷ m) =
      ground (arith, lookup-delete k j m, eq_iff i k, eq_iff i j, eq_iff k j)

  abbrev pub keys : Dict V → List String
  keys [] = []
  keys ((k, v) ∷ m) = k ∷ keys m

  -- No key stands there twice, as in a map.
  abbrev pub IsMap : Dict V → Type ℓ
  IsMap [] = Unit
  IsMap ((k, v) ∷ m) = (lookup k m ≡ none) × IsMap m
