-- ===== src/Frontend/Rewards.antt =====
-- Frontend/src/chain/round-rewards.js and mining-shares.js: what the pools of a round and the
-- ledger of unclaimed MYNE pay to one miner. Amounts are BigInts.
pub mod Partition
pub mod Shares
use myne.Js.{Value, bigint}
use myne.Base.{
  suc, ℕ, ◌+◌, ◌-◌, ◌*◌, ◌/◌, ltb, leb, Bool, true, false, ◌&&◌, ◌||◌, ◌==◌, Option, none, some,
  if◌then◌else◌,
}
use myne.Base.Int.{negsuc, ℤ, pos, pos_part, ltb_ℤ, leb_ℤ, eqb_ℤ, ◌+ℤ◌, ◌-ℤ◌}

-- `a * b / c` of BigInts, where `b` is not negative and `c` is positive: division truncates.
unfoldable pub quotient : ℤ → ℤ → ℤ → ℤ
quotient (pos a) b c = pos (a * pos_part b / pos_part c)
quotient (negsuc a) b c = pos 0 -ℤ pos (suc a * pos_part b / pos_part c)

unfoldable pub settled_sol_reward : ℤ → ℤ → ℤ → ℤ
settled_sol_reward prize stake total =
    if ltb_ℤ (pos 0) stake && ltb_ℤ (pos 0) total then quotient prize stake total else pos 0

unfoldable pub winning_tile_share_bps : ℤ → ℤ → ℤ
winning_tile_share_bps stake total =
    if ltb_ℤ (pos 0) stake && ltb_ℤ (pos 0) total then quotient stake (pos 10000) total else pos 0

-- Mirrors the program's allocation by intervals of the cumulative deployment.
unfoldable pub interval_reward : ℤ → ℤ → ℤ → ℤ → ℤ
interval_reward pool start size total =
    let none_left = leb_ℤ pool (pos 0) || leb_ℤ size (pos 0) || leb_ℤ total (pos 0) in
    if none_left || ltb_ℤ start (pos 0) || ltb_ℤ total (start +ℤ size)
    then pos 0
    else quotient pool (start +ℤ size) total -ℤ quotient pool start total

unfoldable pub shared_round_reward : ℤ → ℤ → ℤ → ℤ
shared_round_reward pool mine total =
    if ltb_ℤ (pos 0) pool && ltb_ℤ (pos 0) mine && ltb_ℤ (pos 0) total
    then quotient pool mine total
    else pos 0

-- With the pending part of the Motherlode, 2 % of the gross, until the round is settled.
unfoldable pub displayed_motherlode_sol : ℤ → ℤ → Bool → ℤ
displayed_motherlode_sol stored gross settled =
    stored +ℤ (if settled then pos 0 else quotient gross (pos 200) (pos 10000))

-- `miningShareValue`
unfoldable pub mining_share_value : ℤ → ℤ → ℤ → ℤ
mining_share_value assets shares owned =
    let none_owned = eqb_ℤ owned (pos 0) in
    let refused = leb_ℤ assets (pos 0) || leb_ℤ shares (pos 0) || ltb_ℤ shares owned in
    if none_owned || refused then pos 0 else quotient owned assets shares

pub record MiningPool : Type 0 where
  pub total_unclaimed : ℤ
  pub reward_per_unclaimed : ℤ

pub record Miner : Type 0 where
  pub passive_reward_debt : ℤ
  pub unclaimed_myne : ℤ

unfoldable pub effective_unclaimed_myne : Option Miner → Option MiningPool → ℤ
effective_unclaimed_myne none pool = pos 0
effective_unclaimed_myne (some m) none = pos 0
effective_unclaimed_myne (some m) (some pool) =
    mining_share_value pool.total_unclaimed pool.reward_per_unclaimed m.passive_reward_debt

pub record Breakdown : Type 0 where
  pub total : ℤ
  pub mined : ℤ
  pub passive : ℤ

unfoldable pub cached_basis : Option Miner → ℤ
cached_basis none = pos 0
cached_basis (some m) = m.unclaimed_myne

unfoldable pub clamped : ℤ → ℤ → ℤ
clamped basis total =
    if ltb_ℤ basis (pos 0) then pos 0 else if ltb_ℤ total basis then total else basis

unfoldable pub mining_reward_breakdown : Option Miner → Option MiningPool → Breakdown
mining_reward_breakdown m pool =
    let total = effective_unclaimed_myne m pool in
    let mined = clamped (cached_basis m) total in
    if eqb_ℤ total (pos 0)
    then record { total = pos 0; mined = pos 0; passive = pos 0 }
    else record { total = total; mined = mined; passive = total -ℤ mined }
