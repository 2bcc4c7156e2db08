-- ===== src/Base/Assoc.antt =====
-- A Python dict with text keys: insertion keeps the place of an old key, and adds a new one last.
use mathlib.Core.Path.{◌≡◌, refl}
use mathlib.Core.List.{List, [], ◌∷◌}
use mathlib.Core.Option.{Option, none, some}
use Prim.Native.String.{String}
use native.Mathlib.Omega.{arith}
use text.Mathlib.Text.{◌==◌}
use text.Mathlib.TextEquality.{eq_iff}
use park_smart_harness.Base.Tests.{if◌then◌else◌}

module _ {ℓ} {V : Type ℓ} where
  -- `d.get(key)`
  unfoldable pub lookup : (key : String) (d : List (String × V)) → Option V
  lookup key [] = none
  lookup key ((other, x) ∷ d) = let found = lookup key d in if key == other then some x else found

  -- `d[key] = new`
  unfoldable pub insert : (key : String) (new : V) (d : List (String × V)) → List (String × V)
  insert key new [] = (key, new) ∷ []
  insert key new ((other, x) ∷ d) =
      let later = insert key new d in if key == other then (other, new) ∷ d else (other, x) ∷ later

  -- `d.pop(key, None)`, for the dict
  unfoldable pub remove : (key : String) (d : List (String × V)) → List (String × V)
  remove key [] = []
  remove key ((other, x) ∷ d) =
      let later = remove key d in if key == other then later else (other, x) ∷ later

  pub lookup-insert :
      (key : String) (new : V) (d : List (String × V)) (asked : String)
      → lookup asked (insert key new d) ≡ (if asked == key then some new else lookup asked d)
  unfolding lookup insert
  lookup-insert key new [] asked = refl
  lookup-insert key new ((other, x) ∷ d) asked =
      ground (
        arith,
        lookup-insert key new d asked,
        eq_iff key other,
        eq_iff asked other,
        eq_iff asked key,
      )

  pub lookup-remove :
      (key : String) (d : List (String × V)) (asked : String)
      → lookup asked (remove key d) ≡ (if asked == key then none else lookup asked d)
  unfolding lookup remove
  lookup-remove key [] asked = ground arith
  lookup-remove key ((other, x) ∷ d) asked =
      ground
        (arith, lookup-remove key d asked, eq_iff key other, eq_iff asked other, eq_iff asked key)
