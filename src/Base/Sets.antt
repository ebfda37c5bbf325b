-- ===== src/Base/Sets.antt =====
-- A JavaScript `Set` of texts, as a list without repetition.
use mathlib.Core.Path.{◌≡◌}
use text.Mathlib.Text.{◌==◌ as str_eq}
use text.Mathlib.TextEquality.{eq_iff}
use Prim.Native.String.{String}
use mathlib.Core.List.{List, [], ◌∷◌}
use mathlib.Core.Bool.{Bool, true, false, not, ◌&&◌, ◌||◌}
use mathlib.Core.Logic.{inl, inr}
use native.Mathlib.Omega.{arith}
use Prim.Native.Nat.{suc, ◌≤◌}
use myne.Base.Tests.{if◌then◌else◌, Bool-cases}
use myne.Base.Lists.{length}

-- `set.has(s)`
unfoldable pub has : List String → String → Bool
has [] s = false
has (t ∷ ts) s = str_eq t s || has ts s

-- `set.add(s)`
unfoldable pub add : List String → String → List String
add ts s = if has ts s then ts else s ∷ ts

unfoldable pub distinct : List String → Bool
distinct [] = true
distinct (t ∷ ts) = not (has ts t) && distinct ts

pub has-add : (ts : List String) (s k : String) → has (add ts s) k ≡ (str_eq s k || has ts k)
unfolding has add
has-add ts s k = ground (arith, eq_iff s k)

pub distinct-add : (ts : List String) (s : String) → distinct ts ≡ true → distinct (add ts s) ≡ true
unfolding distinct add
distinct-add ts s d = ground arith

abbrev pub IsSubset : List String → List String → Type 0
IsSubset ts us = (k : String) → has ts k ≡ true → has us k ≡ true

remove : String → List String → List String
remove k [] = []
remove k (t ∷ ts) = if str_eq t k then ts else t ∷ remove k ts

length-remove :
    (k : String) (ts : List String) → has ts k ≡ true → suc (length (remove k ts)) ≡ length ts
unfolding remove has
length-remove k [] h = cc
length-remove k (t ∷ ts) h = ground (arith, length-remove k ts)

has-remove :
    (k j : String) (ts : List String)
    → str_eq k j ≡ false
    → has ts j ≡ true
    → has (remove k ts) j ≡ true
unfolding remove has
has-remove k j [] ne h = h
has-remove k j (t ∷ ts) ne h =
    ground (arith, has-remove k j ts ne, eq_iff t k, eq_iff t j, eq_iff k j)

length-le_of_subset :
    (ts us : List String) → distinct ts ≡ true → IsSubset ts us → length ts ≤ length us
unfolding distinct has
length-le_of_subset [] us d sub = omega arith
length-le_of_subset (t ∷ ts) us d sub =
    let here : has us t ≡ true = sub t (ground (arith, eq_iff t t)) in
    let ih =
      length-le_of_subset ts (remove t us) (ground arith)
        (λ k h. has-remove t k us (ground (arith, eq_iff t k)) (sub k (ground arith))) in
    omega (arith, length-remove t us here)

-- A set that lies in another and is no smaller is all of it.
pub subset_all :
    (ts us : List String)
    → distinct ts ≡ true
    → IsSubset ts us
    → length us ≤ length ts
    → IsSubset us ts
unfolding distinct has
subset_all ts us d sub small k h = elim (Bool-cases (has ts k)) [
  | inl inside ↦ inside
  | inr outside ↦
      let longer =
        length-le_of_subset (k ∷ ts) us (ground arith) (λ j g. ground (arith, eq_iff k j, sub j)) in
      absurd (omega arith)
]
