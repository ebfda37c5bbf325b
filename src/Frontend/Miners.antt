-- ===== src/Frontend/Miners.antt =====
-- Frontend/src/chain/miner-aggregation.js: the roster of miners of a round, from its receipts.
-- The fields of a receipt are those of the decoded account, and its authority is the address that
-- `toBase58` prints. The order of `localeCompare` is a parameter.
pub mod Conserved
use myne.Base.{
  ℕ, zero, suc, ◌+◌, ◌==◌, ltb, String, Bool, true, false, not, ◌&&◌, Option, none, some, List, [],
  ◌∷◌, length, replicate, if◌then◌else◌,
}
use myne.Base.Dict.{lookup, put}

pub record Receipt : Type 0 where
  pub refunded : Bool
  pub authority : String
  pub amounts : List ℕ
  pub total_lamports : ℕ
  pub claimed : Bool
  pub reward_mode : ℕ

pub data AutoMode : Type 0 where
  accumulate burn : AutoMode

pub record Miner : Type 0 where
  pub address : String
  pub tile_bets : List ℕ
  pub deployed : ℕ
  pub receipt_count : ℕ
  pub claimed : Bool
  pub auto_round : Bool
  pub auto_burn : Bool
  pub auto_mode : AutoMode

abbrev pub grid : ℕ
grid = 25

unfoldable pub new_miner : String → Miner
new_miner address = record {
  address = address;
  tile_bets = replicate grid 0;
  deployed = 0;
  receipt_count = 0;
  claimed = true;
  auto_round = false;
  auto_burn = false;
  auto_mode = accumulate;
}

-- A receipt has as many amounts as the grid has tiles.
unfoldable pub add_bets : List ℕ → List ℕ → List ℕ
add_bets (b ∷ bets) (a ∷ amounts) = (b + a) ∷ add_bets bets amounts
add_bets bets [] = bets
add_bets [] (a ∷ amounts) = []

unfoldable pub with_mode : ℕ → Miner → Miner
with_mode mode m =
    if mode == 1 then record (m) { auto_round = true; auto_burn = true; auto_mode = burn } else m

unfoldable pub with_receipt : Receipt → Miner → Miner
with_receipt r m = with_mode r.reward_mode (record (m) {
  tile_bets = add_bets m.tile_bets r.amounts;
  deployed = m.deployed + r.total_lamports;
  receipt_count = m.receipt_count + 1;
  claimed = m.claimed && r.claimed;
})

unfoldable pub known_or_new : String → List (String × Miner) → Miner
known_or_new address grouped = elim (lookup address grouped) [
  | none ↦ new_miner address
  | some m ↦ m
]

unfoldable pub group_receipt : List (String × Miner) → Receipt → List (String × Miner)
group_receipt grouped r =
    let next = put r.authority (with_receipt r (known_or_new r.authority grouped)) grouped in
    if r.refunded then grouped else next

unfoldable pub group_receipts : List (String × Miner) → List Receipt → List (String × Miner)
group_receipts grouped [] = grouped
group_receipts grouped (r ∷ rows) = group_receipts (group_receipt grouped r) rows

-- `miner.tileBets.filter((amount) => amount > 0n).length`
unfoldable pub tiles_of : List ℕ → ℕ
tiles_of [] = 0
tiles_of (b ∷ bets) = let rest = tiles_of bets in if ltb 0 b then suc rest else rest

unfoldable pub roster : List (String × Miner) → List (Miner × ℕ)
roster [] = []
roster ((address, m) ∷ rest) = (m, tiles_of m.tile_bets) ∷ roster rest

module _ (is_after : String → String → Bool) where
  -- Whether the first miner is listed behind the second: the larger deployment comes first.
  unfoldable pub ranks_behind : Miner → Miner → Bool
  ranks_behind a b =
      if a.deployed == b.deployed then is_after a.address b.address else ltb a.deployed b.deployed

  unfoldable pub insert_miner : Miner × ℕ → List (Miner × ℕ) → List (Miner × ℕ)
  insert_miner m [] = m ∷ []
  insert_miner m (n ∷ ns) =
      let rest = insert_miner m ns in if ranks_behind m.0 n.0 then n ∷ rest else m ∷ (n ∷ ns)

  unfoldable pub sort_miners : List (Miner × ℕ) → List (Miner × ℕ)
  sort_miners [] = []
  sort_miners (m ∷ ms) = insert_miner m (sort_miners ms)

  unfoldable pub aggregate_miners : List Receipt → List (Miner × ℕ)
  aggregate_miners rows = sort_miners (roster (group_receipts [] rows))
