-- ===== src/Frontend/Autocommit.antt =====
-- Frontend/src/chain/autocommit.js: the settings of a prepaid plan and what a wallet can afford. Amounts
-- are BigInts; the fee parameters are those that `readFeeParams` returns.
pub mod Affordable
use myne.Base.{
  ℕ, zero, suc, ◌+◌, ◌-◌, ◌*◌, ◌/◌, ◌%◌, ◌==◌, String, str_eq, Bool, true, false, not, List, [],
  ◌∷◌, replicate, if◌then◌else◌,
}
use myne.Base.Int.{ℤ, pos, pos_part, leb_ℤ, ltb_ℤ, ◌+ℤ◌, ◌-ℤ◌}

-- The shares of 10,000 basis points, the last with the remainder.
unfoldable pub with_remainder : ℕ → List ℕ → List ℕ
with_remainder rest [] = []
with_remainder rest (v ∷ []) = (v + rest) ∷ []
with_remainder rest (v ∷ w ∷ vs) = v ∷ with_remainder rest (w ∷ vs)

unfoldable pub even_allocation : ℕ → List ℕ
even_allocation zero = []
even_allocation (suc n) =
    let base = 10000 / suc n in with_remainder (10000 - base * suc n) (replicate (suc n) base)

unfoldable pub flag : Bool → ℕ → ℕ
flag b value = if b then value else 0

-- The two flags of a plan: burn the reward (1), and reinvest the SOL (2).
unfoldable pub encode_auto_plan_reward_mode : String → Bool → ℕ
encode_auto_plan_reward_mode mode auto_claim = flag (str_eq mode "burn") 1 + flag auto_claim 2

pub record RewardMode : Type 0 where
  pub auto_claim : Bool
  pub reward_mode : String

unfoldable pub decode_auto_plan_reward_mode : ℕ → RewardMode
decode_auto_plan_reward_mode code = record {
  auto_claim = code / 2 % 2 == 1;
  reward_mode = if code % 2 == 1 then "burn" else "accumulate";
}

pub record FeeParams : Type 0 where
  pub account_deposit : ℤ
  pub max_fee : ℤ
  pub auto_plan_rent : ℤ
  pub miner_rent : ℤ
  pub stake_position_rent : ℤ
  pub transaction_fee_reserve : ℤ

unfoldable pub unless : Bool → ℤ → ℤ
unless b cost = if b then pos 0 else cost

unfoldable pub manual_deployment_required_balance : ℤ → Bool → FeeParams → ℤ
manual_deployment_required_balance amount has_miner f =
    amount
    +ℤ f.max_fee
    +ℤ f.transaction_fee_reserve
    +ℤ unless has_miner (f.miner_rent +ℤ f.stake_position_rent)

unfoldable pub auto_plan_setup_reserve : Bool → Bool → FeeParams → ℤ
auto_plan_setup_reserve has_miner has_plan f =
    f.transaction_fee_reserve
    +ℤ unless has_plan f.auto_plan_rent
    +ℤ unless has_miner (f.miner_rent +ℤ f.stake_position_rent)

-- Nine tenths of what is left of the balance after the reserve.
unfoldable pub max_auto_plan_funding_lamports : ℤ → ℤ → ℕ
max_auto_plan_funding_lamports balance reserve =
    if leb_ℤ balance reserve then 0 else pos_part (balance -ℤ reserve) * 9000 / 10000

unfoldable pub affordable_auto_plan_rounds : ℤ → ℤ → ℤ → ℤ → ℕ
affordable_auto_plan_rounds wallet_balance amount_per_play max_fee setup_reserve =
    let per_round = amount_per_play +ℤ max_fee in
    if ltb_ℤ (pos 0) per_round
    then max_auto_plan_funding_lamports wallet_balance setup_reserve / pos_part per_round
    else 0
