-- ===== src/Frontend/Rewards/Shares.antt =====
-- The shares of a pool never add up to more than the pool.
use native.Mathlib.Nat.{le_of_mul-le-mul_right, div-mul-le_self}
use myne.Base.{
  sym, inr, inl, if◌then◌else◌, Bool-cases, ℕ, ◌+◌, ◌*◌, ◌≡◌, ◌<◌, ◌≤◌, List, [], ◌∷◌, sum, arith,
  refl, Option,
}
use myne.Base.Int.{eqb_ℤ, ℤ, pos, pos_part, ◌≤ℤ◌, ◌+ℤ◌, ◌-ℤ◌, -ℤ_parts, +ℤ_parts, eq_of_parts}
use myne.Frontend.Rewards.{
  quotient, mining_share_value, Miner, MiningPool, Breakdown, clamped, cached_basis,
  effective_unclaimed_myne, mining_reward_breakdown,
}

-- What each of several holders of shares is shown.
pub share_values : ℕ → ℕ → List ℕ → ℕ
share_values assets shares [] = 0
share_values assets shares (owned ∷ others) =
    pos_part (mining_share_value (pos assets) (pos shares) (pos owned))
    + share_values assets shares others

share_bound :
    (assets shares owned : ℕ)
    → 0 < shares
    → pos_part (mining_share_value (pos assets) (pos shares) (pos owned)) * shares ≤ owned * assets
unfolding mining_share_value quotient
share_bound assets shares owned s = ground (arith, div-mul-le_self (owned * assets) shares)

share_values-bound :
    (assets shares : ℕ) (owners : List ℕ)
    → 0 < shares
    → share_values assets shares owners * shares ≤ sum owners * assets
unfolding share_values
share_values-bound assets shares [] s = omega arith
share_values-bound assets shares (owned ∷ others) s =
    grind (arith, share_bound assets shares owned s, share_values-bound assets shares others s)

-- The values shown to holders whose shares add up to at most the supply of shares add up to at
-- most the assets of the ledger.
pub share_values-le_assets :
    (assets shares : ℕ) (owners : List ℕ)
    → 0 < shares
    → sum owners ≤ shares
    → share_values assets shares owners ≤ assets
share_values-le_assets assets shares owners s h =
    le_of_mul-le-mul_right (grind (arith, share_values-bound assets shares owners s)) s

split_total : (basis total : ℤ) → clamped basis total +ℤ (total -ℤ clamped basis total) ≡ total
split_total basis total =
    let mined = clamped basis total in
    eq_of_parts _ _ (omega (arith, -ℤ_parts total mined, +ℤ_parts mined (total -ℤ mined)))

clamped-between :
    (basis total : ℤ)
    → pos 0 ≤ℤ total
    → (pos 0 ≤ℤ clamped basis total) × (clamped basis total ≤ℤ total)
unfolding clamped
clamped-between basis total h = ground arith

breakdown_of : ℤ → ℤ → Breakdown
breakdown_of basis total =
    if eqb_ℤ total (pos 0)
    then record { total = pos 0; mined = pos 0; passive = pos 0 }
    else record {
      total = total;
      mined = clamped basis total;
      passive = total -ℤ clamped basis total;
    }

nothing : pos 0 ≡ pos 0 +ℤ pos 0
unfolding ◌+ℤ◌
nothing = refl

split_parts :
    (basis total : ℤ)
    → let b = breakdown_of basis total in
      pos 0 ≤ℤ b.total
      → (b.total ≡ b.mined +ℤ b.passive) × (pos 0 ≤ℤ b.mined) × (pos 0 ≤ℤ b.passive)
unfolding breakdown_of
split_parts basis total = elim (Bool-cases (eqb_ℤ total (pos 0))) [
  | inl none_owned ↦ rw none_owned (λ h. (nothing, omega arith, omega arith))
  | inr some_owned ↦ rw some_owned (λ h.
      let (low, high) = clamped-between basis total h in
      (sym (split_total basis total), low, omega (arith, -ℤ_parts total (clamped basis total))))
]

-- The total that a miner is shown is the mined part and the passive part.
pub mining_reward_breakdown-split :
    (m : Option Miner) (pool : Option MiningPool)
    → let b = mining_reward_breakdown m pool in
      pos 0 ≤ℤ b.total
      → (b.total ≡ b.mined +ℤ b.passive) × (pos 0 ≤ℤ b.mined) × (pos 0 ≤ℤ b.passive)
unfolding mining_reward_breakdown breakdown_of
mining_reward_breakdown-split m pool =
    split_parts (cached_basis m) (effective_unclaimed_myne m pool)
