-- ===== src/Examples/Site.antt =====
-- The site's computations at concrete inputs.
use myne.Frontend.Autocommit.{even_allocation, affordable_auto_plan_rounds}
use myne.Frontend.Autocommit.Affordable.{
  even_allocation-whole, affordable_auto_plan_rounds-greatest,
}
use myne.Base.{
  ◌+◌, ◌*◌, length, ℕ, ◌≡◌, ◌≤◌, ◌<◌, refl, true, false, List, [], ◌∷◌, some, none, String, Bool,
  sum, All, arith,
}
use myne.Base.Int.{◌<ℤ◌, ◌-ℤ◌, ◌+ℤ◌, pos_part, ℤ, pos}
use myne.Js.{number, boolean}
use myne.Frontend.Staking.{Row, Summary}
use myne.Frontend.Staking.Select.{SelectOptions, select_latest_complete_staking_reward_window}
use myne.Frontend.Staking.Select.Found.{Found, select_latest_complete_staking_reward_window-Found}
use myne.Frontend.Rewards.Partition.{interval_rewards, interval_rewards-whole_pool}
use myne.Frontend.Rewards.Shares.{share_values, share_values-le_assets}
use myne.Frontend.Miners.{Receipt, aggregate_miners}
use myne.Frontend.Miners.Conserved.{roster_total, receipts_total, aggregate_miners-conserved}

abbrev settled_row : ℕ → ℕ → ℕ → Row
settled_row id at reward = record {
  round_id = number (pos id);
  settles_at = some (pos at);
  staking_net_lamports = number (pos reward);
  resolved = boolean true;
}

-- Round 9 is not resolved, so the newest window of two minutes ends with round 8.
abbrev index_rows : List Row
index_rows =
    settled_row 6 1000 5
    ∷ settled_row 7 1065 0
    ∷ settled_row 8 1130 7
    ∷ record (settled_row 9 1195 1) { resolved = boolean false }
    ∷ []

abbrev two_minutes : SelectOptions
two_minutes = record {
  window_seconds = pos 120;
  round_cadence_seconds = pos 65;
  observed_at = pos 1200;
  max_rows = 100;
}

abbrev rounds_7_and_8 : Summary
rounds_7_and_8 = record {
  complete = true;
  window_seconds = pos 120;
  reward_lamports = 7;
  rounds = 2;
  first_settles_at = some (pos 1065);
  last_settles_at = some (pos 1130);
}

index_rows-selected :
    select_latest_complete_staking_reward_window index_rows two_minutes ≡ some rounds_7_and_8
unfolding myne.Frontend.Staking.accept_row myne.Frontend.Staking.Select.at_least
    myne.Frontend.Staking.before_time myne.Frontend.Staking.Select.candidate
    myne.Frontend.Staking.covered myne.Frontend.Staking.follows
    myne.Frontend.Staking.incomplete_window myne.Frontend.Staking.is_positive
    myne.Frontend.Staking.is_true myne.Frontend.Staking.last_at
    myne.Frontend.Staking.Select.max_safe_integer myne.Frontend.Staking.no_totals
    myne.Frontend.Staking.Select.observed_end myne.Frontend.Staking.options_valid
    myne.Frontend.Staking.or_first myne.Frontend.Staking.read_row myne.Frontend.Staking.readings
    myne.Frontend.Staking.Select.rows_since myne.Frontend.Staking.safe_time
    myne.Frontend.Staking.same_time myne.Frontend.Staking.Select.select_ending
    myne.Frontend.Staking.Select.select_latest_complete_staking_reward_window
    myne.Frontend.Staking.Select.select_valid myne.Frontend.Staking.sum_rows
    myne.Frontend.Staking.summarise_staking_reward_window myne.Frontend.Staking.summary_of
    myne.Frontend.Staking.unsigned_integer myne.Frontend.Staking.Select.window_ending
    myne.Js.Pattern.is_canonical_numeric myne.Js.Pattern.is_digit myne.Js.bigint_of myne.Js.codes
    myne.Js.is_safe_int myne.Base.Int.◌-ℤ◌ myne.Base.Int.◌+ℤ◌
index_rows-selected = refl

select_latest_complete_staking_reward_window-Found_example :
    Found two_minutes index_rows rounds_7_and_8
select_latest_complete_staking_reward_window-Found_example =
    select_latest_complete_staking_reward_window-Found index_rows two_minutes rounds_7_and_8
      index_rows-selected

interval_rewards-whole_pool_example :
    interval_rewards (pos 100) 0 (1 ∷ 2 ∷ 4 ∷ []) (sum (1 ∷ 2 ∷ 4 ∷ [])) ≡ pos 100
interval_rewards-whole_pool_example =
    interval_rewards-whole_pool 100 (1 ∷ 2 ∷ 4 ∷ []) (omega arith) (omega arith)
      (omega arith, (omega arith, (omega arith, tt)))

share_values-le_assets_example : share_values 100 7 (1 ∷ 2 ∷ 4 ∷ []) ≤ 100
share_values-le_assets_example =
    share_values-le_assets 100 7 (1 ∷ 2 ∷ 4 ∷ []) (omega arith) (omega arith)

abbrev receipt : String → ℕ → Bool → Receipt
receipt authority lamports refunded = record {
  refunded = refunded;
  authority = authority;
  amounts = lamports ∷ [];
  total_lamports = lamports;
  claimed = false;
  reward_mode = 1;
}

abbrev receipts : List Receipt
receipts = receipt "a" 5 false ∷ receipt "b" 9 false ∷ receipt "a" 3 false ∷ receipt "c" 1 true ∷ []

abbrev never_after : String → String → Bool
never_after a b = false

receipts-deployed : roster_total (aggregate_miners never_after receipts) ≡ (17, 3)
unfolding myne.Base.Dict.lookup myne.Base.Dict.put myne.Frontend.Miners.add_bets
    myne.Frontend.Miners.aggregate_miners myne.Frontend.Miners.group_receipt
    myne.Frontend.Miners.group_receipts myne.Frontend.Miners.insert_miner
    myne.Frontend.Miners.known_or_new myne.Frontend.Miners.new_miner
    myne.Frontend.Miners.ranks_behind myne.Frontend.Miners.roster myne.Frontend.Miners.sort_miners
    myne.Frontend.Miners.tiles_of myne.Frontend.Miners.with_mode myne.Frontend.Miners.with_receipt
    roster_total
receipts-deployed = refl

aggregate_miners-conserved_example :
    ((roster_total (aggregate_miners never_after receipts)).0 ≡ (receipts_total receipts).0)
    × ((roster_total (aggregate_miners never_after receipts)).1 ≡ (receipts_total receipts).1)
aggregate_miners-conserved_example = aggregate_miners-conserved never_after receipts

even_allocation-whole_example :
    (length (even_allocation 3) ≡ 3) × (0 < 3 → sum (even_allocation 3) ≡ 10000)
even_allocation-whole_example = even_allocation-whole 3

affordable_auto_plan_rounds-greatest_example :
    let rounds = affordable_auto_plan_rounds (pos 1000) (pos 70) (pos 5) (pos 100) in
    let cost = pos_part (pos 70 +ℤ pos 5) in
    let spendable = pos_part (pos 1000 -ℤ pos 100) in
    (rounds * cost * 10 ≤ spendable * 9)
    × (pos 0 <ℤ pos 70 +ℤ pos 5 → spendable * 9 < (rounds + 1) * cost * 10)
affordable_auto_plan_rounds-greatest_example =
    affordable_auto_plan_rounds-greatest (pos 1000) (pos 70) (pos 5) (pos 100)
