-- ===== src/AutoPlan/Funding.antt =====
-- The funding ceiling of auto-plan-policy.mjs.
use myne.Js.{Value}
use myne.AutoPlan.{as_amount, max_auto_plan_funding_lamports}
use myne.Base.{leb, if◌then◌else◌, arith, ◌/◌, ◌+◌, ◌≤◌, ◌*◌, ◌-◌, ok, ◌≡◌, ◌<◌, ℕ}

ninety_percent : (b r : ℕ) → r < b → (b - r) * 9000 / 10000 * 10 ≤ (b - r) * 9
ninety_percent b r h = omega arith

-- Of two amounts the funding leaves the fee reserve in the wallet, is at most nine tenths of the
-- rest, and is within one lamport of nine tenths.
pub max_auto_plan_funding_lamports_bounds :
    (balance_lamports reserve_lamports : Value) (b r : ℕ)
    → as_amount balance_lamports ≡ ok b
    → as_amount reserve_lamports ≡ ok r
    → (f : ℕ) × (max_auto_plan_funding_lamports balance_lamports reserve_lamports ≡ ok f)
      × (f ≤ b)
      × (f * 10 ≤ (b - r) * 9)
      × ((b - r) * 9 < f * 10 + 10)
unfolding max_auto_plan_funding_lamports
max_auto_plan_funding_lamports_bounds balance_lamports reserve_lamports b r eb er = (
  if leb b r then 0 else (b - r) * 9000 / 10000,
  rw (eb, er),
  ground arith,
  ground arith,
  ground arith,
)
