-- ===== src/LifecycleQueue/Oldest.antt =====
-- `nextHistoricalLifecycleCursor`.
use myne.Js.{Value}
use myne.LifecycleQueue.{round_id, oldest_from, next_historical_lifecycle_cursor}
use myne.Base.Int.{ltb_ℤ, ◌≤ℤ◌, ℤ}
use myne.Base.{
  refl, >>=-eq-ok, ◌∷◌, some, none, if◌then◌else◌, inr, Result-cases, Option, inl, ◌⊎◌, [], ok,
  arith, ◌≡◌, List,
}

module _ {R : Type 0} (id_of : R → Value) where
  -- The id is at most the id of every row.
  pub BelowAll : ℤ → List R → Type 0
  BelowAll z [] = Unit
  BelowAll z (row ∷ rows) = ((id : ℤ) → round_id (id_of row) ≡ ok id → z ≤ℤ id) × BelowAll z rows

  -- The id is that of a row.
  pub Among : ℤ → List R → Type 0
  Among z [] = ⊥
  Among z (row ∷ rows) = (round_id (id_of row) ≡ ok z) ⊎ Among z rows

  BelowAll-trans : (y z : ℤ) (rows : List R) → y ≤ℤ z → BelowAll z rows → BelowAll y rows
  unfolding BelowAll
  BelowAll-trans y z [] h b = tt
  BelowAll-trans y z (row ∷ rows) h b =
      (λ id e. omega (arith, b.0 id e), BelowAll-trans y z rows h b.1)

  oldest_from-least :
      (oldest : ℤ) (rows : List R) (z : ℤ)
      → oldest_from id_of oldest rows ≡ ok z
      → (z ≤ℤ oldest) × BelowAll z rows × ((z ≡ oldest) ⊎ Among z rows)
  unfolding oldest_from BelowAll Among
  oldest_from-least oldest [] z e = (ground arith, tt, inl (ground arith))
  oldest_from-least oldest (row ∷ rows) z e = elim (Result-cases (round_id (id_of row))) [
    | inr (x, bad) ↦ absurd (ground (arith))
    | inl (current, good) ↦
        let best = if ltb_ℤ current oldest then current else oldest in
        let (low, below, from) = oldest_from-least best rows z (rw good at e) in
        (
          ground arith,
          (λ id same. ground arith, below),
          elim from [ inl best_is ↦ ground arith | inr later ↦ inr (inr later) ],
        )
  ]

  first_or :
      (z first : ℤ) (row : R) (rows : List R)
      → round_id (id_of row) ≡ ok first
      → (z ≡ first) ⊎ Among z (row ∷ rows)
      → Among z (row ∷ rows)
  unfolding Among
  first_or z first row rows good (inl same) = inl (ground arith)
  first_or z first row rows good (inr later) = later

  -- With rows, a cursor that is computed is the id of one of them and at most the id of each; with
  -- no row there is none, so the walk starts again.
  pub next_historical_lifecycle_cursor-least :
      (rows : List R) (cursor : Option ℤ)
      → next_historical_lifecycle_cursor id_of rows ≡ ok cursor
      → ((rows ≡ []) × (cursor ≡ none))
        ⊎ ((z : ℤ) × (cursor ≡ some z) × BelowAll z rows × Among z rows)
  unfolding next_historical_lifecycle_cursor
  next_historical_lifecycle_cursor-least [] cursor e = inl (refl, ground arith)
  next_historical_lifecycle_cursor-least (row ∷ rows) cursor e =
      let (first, good, e1) = >>=-eq-ok (round_id (id_of row)) _ e in
      let (z, found, e2) = >>=-eq-ok (oldest_from id_of first (row ∷ rows)) _ e1 in
      let (low, below, from) = oldest_from-least first (row ∷ rows) z found in
      inr (z, ground arith, below, first_or z first row rows good from)
