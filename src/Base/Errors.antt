-- ===== src/Base/Errors.antt =====
-- Code that throws returns a `Result`. An error is known by its class: messages are not modelled.
use mathlib.Core.Path.{◌≡◌, refl, subst}
use mathlib.Core.Bool.{Bool, true, false}
use mathlib.Core.List.{List, [], ◌∷◌}
use mathlib.Core.Logic.{◌⊎◌, inl, inr}

-- `AssertionError` of node:assert, `TypeError`, `RangeError`, `SyntaxError`, and `Error` itself.
pub data Thrown : Type 0 where
  assertion type_error range_error syntax_error plain_error : Thrown

pub data Result {ℓ} (A : Type ℓ) : Type ℓ where
  ok : A → Result A
  err : Thrown → Result A

-- `if (!b) throw e`
abbrev pub guard : Bool → Thrown → Result (Unit {0})
guard true e = ok tt
guard false e = err e

-- An error ends a chain of steps.
infixl 5 ◌>>=◌
abbrev pub ◌>>=◌ {ℓ κ} : {A : Type ℓ} {B : Type κ} → Result A → (A → Result B) → Result B
err thrown >>= next = err thrown
ok value >>= next = next value

-- `try { … return b } catch { return false }`
abbrev pub or_false : Result Bool → Bool
or_false (ok b) = b
or_false (err e) = false

-- `assert.ok(b)`
abbrev pub assert : Bool → Result (Unit {0})
assert b = guard b assertion

-- A check before what follows.
infixl 5 ◌>>◌
abbrev pub ◌>>◌ {ℓ} : {B : Type ℓ} → Result (Unit {0}) → Result B → Result B
check >> rest = check >>= λ _. rest

-- A `map` whose callback may throw: the first error ends it.
unfoldable pub map_result {ℓ κ} :
    {A : Type ℓ} {B : Type κ} → (A → Result B) → List A → Result (List B)
map_result f [] = ok []
map_result f (x ∷ xs) = let rest = map_result f xs in f x >>= λ y. rest >>= λ ys. ok (y ∷ ys)

pub ok_injective {ℓ} : {A : Type ℓ} {a b : A} → ok a ≡ ok b → a ≡ b
ok_injective e = cc

-- A loop whose body may throw.
unfoldable pub fold_result {ℓ κ} :
    {S : Type ℓ} {A : Type κ} → (S → A → Result S) → S → List A → Result S
fold_result f s [] = ok s
fold_result f s (x ∷ xs) = f s x >>= λ s'. fold_result f s' xs

-- A chain that ends well went well at its first step.
pub >>=-eq-ok {ℓ κ} :
    {Before : Type ℓ} {After : Type κ} (step : Result Before) (next : Before → Result After)
    {after : After}
    → (step >>= next) ≡ ok after
    → (before : Before) × (step ≡ ok before) × (next before ≡ ok after)
>>=-eq-ok (err thrown) next ended = cc
>>=-eq-ok (ok before) next ended = (before, refl, ended)

-- The same, for what follows from the step's result.
pub after_step {ℓ κ μ} :
    {Before : Type ℓ} {After : Type κ} {P : Type μ} (step : Result Before)
    (next : Before → Result After) {after : After}
    → (step >>= next) ≡ ok after
    → ((before : Before) → step ≡ ok before → next before ≡ ok after → P)
    → P
after_step step next ended k =
    let (before, done, rest) = >>=-eq-ok step next ended in k before done rest

pub guard-eq-ok {ℓ} :
    {A : Type ℓ} (b : Bool) (e : Thrown) (k : Result A) {a : A}
    → (guard b e >> k) ≡ ok a
    → (b ≡ true) × (k ≡ ok a)
guard-eq-ok true e k h = (refl, h)
guard-eq-ok false e k h = cc

pub Result-cases {ℓ} :
    {A : Type ℓ} (m : Result A) → ((a : A) × (m ≡ ok a)) ⊎ ((e : Thrown) × (m ≡ err e))
Result-cases (ok a) = inl (a, refl)
Result-cases (err e) = inr (e, refl)

-- An invariant that each step of a loop keeps.
pub fold_result-inv {ℓ κ μ} :
    {S : Type ℓ} {A : Type κ} (P : S → Type μ) (f : S → A → Result S)
    → ((s s' : S) (x : A) → P s → f s x ≡ ok s' → P s')
    → (s r : S) (xs : List A) → P s
    → fold_result f s xs ≡ ok r
    → P r
unfolding fold_result
fold_result-inv P f step s r [] p e = subst P (ok_injective e) p
fold_result-inv P f step s r (x ∷ xs) p e =
    let (s', one, rest) = >>=-eq-ok (f s x) (λ t. fold_result f t xs) e in
    fold_result-inv P f step s' r xs (step s s' x p one) rest
