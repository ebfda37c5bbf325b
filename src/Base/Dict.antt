-- ===== src/Base/Dict.antt =====
-- A JavaScript `Map` with text keys, as the list of its entries in the order of insertion.
use mathlib.Core.Path.{◌≡◌, refl}
use mathlib.Core.Bool.{false}
use mathlib.Core.List.{List, [], ◌∷◌}
use mathlib.Core.Option.{Option, none, some}
use Prim.Native.String.{String}
use text.Mathlib.Text.{◌==◌ as str_eq}
use text.Mathlib.TextEquality.{eq_iff}
use native.Mathlib.Omega.{arith}
use myne.Base.Tests.{if◌then◌else◌}

module _ {ℓ} {V : Type ℓ} where
  -- `map.get(key)`
  unfoldable pub lookup : String → List (String × V) → Option V
  lookup key [] = none
  lookup key ((k, v) ∷ entries) =
      let rest = lookup key entries in if str_eq k key then some v else rest

  -- `map.set(key, value)`: a key that is there keeps its place.
  unfoldable pub put : String → V → List (String × V) → List (String × V)
  put key value [] = (key, value) ∷ []
  put key value ((k, v) ∷ entries) =
      let rest = put key value entries in
      if str_eq k key then (k, value) ∷ entries else (k, v) ∷ rest

  pub lookup-put_other :
      (other key : String) (value : V) (entries : List (String × V))
      → str_eq key other ≡ false
      → lookup other (put key value entries) ≡ lookup other entries
  unfolding lookup put
  lookup-put_other other key value [] apart = rw apart refl
  lookup-put_other other key value ((k, v) ∷ entries) apart =
      let ih = lookup-put_other other key value entries apart in ground (arith, eq_iff k key)

  pub lookup-put :
      (key : String) (value : V) (entries : List (String × V))
      → lookup key (put key value entries) ≡ some value
  unfolding lookup put
  lookup-put key value [] = ground (arith, eq_iff key key)
  lookup-put key value ((k, v) ∷ entries) =
      let ih = lookup-put key value entries in ground (arith, eq_iff k key)
