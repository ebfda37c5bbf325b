-- ===== src/Frontend/Rewards/Partition.antt =====
-- The intervals of a round share out a pool exactly.
use native.Mathlib.Nat.{div-add-mod}
use myne.Base.{◌∙◌, ap, ℕ, ◌+◌, ◌*◌, ◌/◌, ◌≡◌, ◌<◌, ◌≤◌, List, [], ◌∷◌, sum, arith, All}
use myne.Base.Int.{ℤ, pos, ◌+ℤ◌, ◌-ℤ◌, -ℤ_parts, +ℤ_parts, eq_of_parts}
use myne.Frontend.Rewards.{interval_reward, quotient}

-- The rewards of deployments that follow one another, from a cumulative start on.
pub interval_rewards : ℤ → ℕ → List ℕ → ℕ → ℤ
interval_rewards pool start [] total = pos 0
interval_rewards pool start (size ∷ sizes) total =
    interval_reward pool (pos start) (pos size) (pos total)
    +ℤ interval_rewards pool (start + size) sizes total

abbrev pub IsPositive : ℕ → Type 0
IsPositive n = 0 < n

interval_reward-difference :
    (pool start size total : ℕ)
    → 0 < pool
    → 0 < size
    → 0 < total
    → start + size ≤ total
    → interval_reward (pos pool) (pos start) (pos size) (pos total)
      ≡ pos (pool * (start + size) / total) -ℤ pos (pool * start / total)
unfolding interval_reward quotient ◌+ℤ◌
interval_reward-difference pool start size total p s t h = ground arith

share : ℕ → ℕ → ℕ → ℤ
share pool upto total = pos (pool * upto / total)

telescopes : (a b c : ℤ) → (b -ℤ a) +ℤ (c -ℤ b) ≡ c -ℤ a
telescopes a b c =
    eq_of_parts _ _
      (omega (arith, -ℤ_parts b a, -ℤ_parts c b, +ℤ_parts (b -ℤ a) (c -ℤ b), -ℤ_parts c a))

self_difference : (a : ℤ) → pos 0 ≡ a -ℤ a
self_difference a = eq_of_parts _ _ (omega (arith, -ℤ_parts a a))

interval_rewards-sum :
    (pool start : ℕ) (sizes : List ℕ) (total : ℕ)
    → 0 < pool
    → 0 < total
    → All IsPositive sizes
    → start + sum sizes ≤ total
    → interval_rewards (pos pool) start sizes total
      ≡ pos (pool * (start + sum sizes) / total) -ℤ pos (pool * start / total)
unfolding interval_rewards
interval_rewards-sum pool start [] total p t v h =
    let none_left : start + 0 ≡ start = omega arith in
    rw none_left (self_difference (pos (pool * start / total)))
interval_rewards-sum pool start (size ∷ sizes) total p t (s, v) h =
    let regrouped : start + size + sum sizes ≡ start + (size + sum sizes) = omega arith in
    let ih = interval_rewards-sum pool (start + size) sizes total p t v (omega arith) in
    ap (λ x. x +ℤ interval_rewards (pos pool) (start + size) sizes total)
      (interval_reward-difference pool start size total p s t (omega arith))
    ∙ ap (λ x. (pos (pool * (start + size) / total) -ℤ pos (pool * start / total)) +ℤ x) ih
    ∙ telescopes _ _ _
    ∙ ap (λ x. pos (pool * x / total) -ℤ pos (pool * start / total)) regrouped

exact_share : (pool total : ℕ) → 0 < total → pool * (0 + total) / total ≡ pool
exact_share pool total t = grind (arith, div-add-mod (pool * total) total)

none_before : (pool total : ℕ) → 0 < total → pool * 0 / total ≡ 0
none_before pool total t = grind (arith, div-add-mod 0 total)

-- When positive deployments fill a round's total, the rewards of their intervals add up to the
-- whole pool: nothing is lost to rounding.
pub interval_rewards-whole_pool :
    (pool : ℕ) (sizes : List ℕ)
    → 0 < pool
    → 0 < sum sizes
    → All IsPositive sizes
    → interval_rewards (pos pool) 0 sizes (sum sizes) ≡ pos pool
interval_rewards-whole_pool pool sizes p t v =
    interval_rewards-sum pool 0 sizes (sum sizes) p t v (omega arith)
    ∙ eq_of_parts _ _ (
        omega (
          arith,
          exact_share pool (sum sizes) t,
          none_before pool (sum sizes) t,
          -ℤ_parts (pos (pool * (0 + sum sizes) / sum sizes)) (pos (pool * 0 / sum sizes)),
        ))
