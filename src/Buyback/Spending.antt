-- ===== src/Buyback/Spending.antt =====
-- What a buyback spends.
use myne.Buyback.{calculate_spend}
use myne.Base.{arith, false, true, ◌≡◌}
use myne.Base.Int.{+ℤ_parts, -ℤ_parts, -ℤ_parts, ◌+ℤ◌, ◌≤ℤ◌, ◌<ℤ◌, pos, ℤ}

-- With a minimum above zero, a spend that is not skipped is at least the minimum, at most the
-- maximum, and leaves the reserve in the balance; a skipped one is below the minimum.
pub calculate_spend_bounds :
    (balance reserve max_spend minimum : ℤ)
    → pos 0 <ℤ minimum
    → let s = calculate_spend balance reserve max_spend minimum in
      (s.spend_lamports ≤ℤ max_spend)
      × (s.skipped ≡ false
          → (minimum ≤ℤ s.spend_lamports) × (s.spend_lamports +ℤ reserve ≤ℤ balance))
      × (s.skipped ≡ true → s.spend_lamports <ℤ minimum)
unfolding calculate_spend
calculate_spend_bounds balance reserve max_spend minimum h =
    let facts = -ℤ_parts balance reserve in
    let sum = +ℤ_parts (calculate_spend balance reserve max_spend minimum).spend_lamports reserve in
    (
      ground (arith, facts),
      λ e. (ground (arith, facts), ground (arith, facts, sum)),
      λ e. ground (arith, facts),
    )
