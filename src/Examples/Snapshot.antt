-- ===== src/Examples/Snapshot.antt =====
-- The projection of a settled snapshot of version 2.
use myne.Js.{Value, number, text, null, boolean, undefined}
use myne.Base.Int.{pos}
use myne.Archive.{FeeColumns, FeeAudit, require_round_fee_audit}
use myne.Archive.Proof.{ArchiveProof, require_round_randomness_proof}
use myne.Reconcile.Snapshot.{RoundColumns, Snapshot, RoundProjection, Timing, Tail, in_order}
use myne.Reconcile.Snapshot.Project.{archived_snapshot_round_projection, no_proof}
use myne.Reconcile.Snapshot.Sound.{archived_snapshot_round_projection_sound, SettledSound}
use myne.Base.{some, replicate, refl, false, ◌≡◌, true, none, String, List, ok, ℕ}

abbrev all_ones : String
all_ones = "1111111111111111111111111111111111111111111111111111111111111111"

abbrev all_ones_value : String
all_ones_value = "7719472615821079694904732333912527190217998977709370935963838933860875309329"

abbrev fees : FeeColumns
fees = record {
  total_fee_lamports = text "10";
  staking_gross_lamports = text "5";
  staking_admin_lamports = text "1";
  staking_net_lamports = text "4";
  buyback_lamports = text "2";
  motherlode_fee_lamports = text "1";
  mining_admin_lamports = text "2";
  admin_total_lamports = text "3";
  admin_fee_wallet = text "wallet";
}

abbrev round : RoundColumns
round = record {
  round_id = text "7";
  rent_payer = text "payer";
  opened_at = text "100";
  betting_ends_at = text "150";
  settles_at = text "160";
  refund_at = text "900";
  resolved = boolean true;
  winning_square = number (pos 3);
  jackpot_hit = boolean false;
  single_miner_round = boolean false;
  winner = null;
  total_wager_wei = text "100";
  winner_total_wei = text "50";
  pot_for_winners_wei = text "90";
  bullion_for_winners_wei = text "1";
  payout_mul_wad = text "1800000000000000000";
  fees = fees;
  randomness_id = text "account";
  randomness_value = text all_ones_value;
  randomness_hex = text all_ones;
  randomness_commit_slot = text "12";
  solo_sample = text "0";
  total_receipts = text "2";
  processed_receipts = text "2";
  settlement_signature = text "settled";
  settlement_slot = text "20";
}

abbrev snapshot : Snapshot
snapshot = record {
  version = number (pos 2);
  program = text "myne";
  round = round;
  randomness_proof = none;
}

abbrev projected : RoundProjection
projected = record {
  timing = record {
    round_id = "7";
    rent_payer = "payer";
    opened_at = "100";
    betting_ends_at = "150";
    settles_at = "160";
    refund_at = "900";
  };
  outcome = record {
    resolved = true;
    winning_square = some 3;
    jackpot_hit = false;
    single_miner_round = false;
    winner = none;
    total_wager_wei = "100";
    winner_total_wei = "50";
    pot_for_winners_wei = "90";
    bullion_for_winners_wei = "1";
    payout_mul_wad = "1800000000000000000";
  };
  fees = record {
    total_fee_lamports = some "10";
    staking_gross_lamports = some "5";
    staking_admin_lamports = some "1";
    staking_net_lamports = some "4";
    buyback_lamports = some "2";
    motherlode_fee_lamports = some "1";
    mining_admin_lamports = some "2";
    admin_total_lamports = some "3";
    admin_fee_wallet = some "wallet";
  };
  tail = record {
    randomness_id = some "account";
    randomness_value = some all_ones_value;
    randomness_hex = some all_ones;
    randomness_commit_slot = some "12";
    solo_sample = "0";
    total_receipts = "2";
    processed_receipts = "2";
    settlement_signature = some "settled";
    settlement_slot = some "20";
  };
  proof = no_proof;
}

abbrev bytes : List ℕ
bytes = replicate 32 1

abbrev no_double : ℕ → String
no_double n = ""

abbrev no_hash : List (List ℕ) → String
no_hash parts = ""

snapshot-projected :
    archived_snapshot_round_projection no_double no_hash snapshot "myne" "7" bytes bytes
    ≡ ok projected
unfolding myne.Archive.Proof.bytes_32 myne.Archive.Proof.bytes_le
    myne.Archive.Proof.check_server_proof myne.Archive.Proof.expected_commitment
    myne.Archive.Proof.expected_output myne.Archive.Proof.in_u64
    myne.Archive.Proof.read_server_proof myne.Archive.Proof.require_round_randomness_proof
    myne.Archive.Proof.required_hex_32 myne.Archive.Proof.required_u64
    myne.Archive.Proof.switchboard_proof myne.Archive.Proof.u64_le
    myne.Archive.canonical_randomness_value myne.Archive.conserves_fees myne.Archive.fee_field
    myne.Archive.randomness_text myne.Archive.require_round_fee_audit myne.Archive.some_text
    myne.Js.Pattern.is_canonical_numeric myne.Js.Pattern.is_digit myne.Js.Pattern.is_hex_32
    myne.Js.Pattern.is_scientific myne.Js.bigint_of myne.Js.codes myne.Js.hex_bytes
    myne.Js.is_missing myne.Js.is_nullish myne.Js.parse_hex_32 myne.Js.to_string
    myne.Reconcile.Digest.is_number
    myne.Reconcile.Snapshot.Project.archived_snapshot_round_projection
    myne.Reconcile.Snapshot.Project.check_columns myne.Reconcile.Snapshot.Project.check_payout
    myne.Reconcile.Snapshot.Project.check_settled myne.Reconcile.Snapshot.Project.fee_columns
    myne.Reconcile.Snapshot.Project.finish_projection myne.Reconcile.Snapshot.Project.is_exactly
    myne.Reconcile.Snapshot.Project.proof_columns myne.Reconcile.Snapshot.Project.read_provider
    myne.Reconcile.Snapshot.Project.read_server_columns myne.Reconcile.Snapshot.amount
    myne.Reconcile.Snapshot.filled_text myne.Reconcile.Snapshot.flag myne.Reconcile.Snapshot.hex
    myne.Reconcile.Snapshot.in_order myne.Reconcile.Snapshot.is_blank
    myne.Reconcile.Snapshot.is_none myne.Reconcile.Snapshot.is_zero
    myne.Reconcile.Snapshot.none_or_zero myne.Reconcile.Snapshot.nullable
    myne.Reconcile.Snapshot.numeric myne.Reconcile.Snapshot.read_fee_texts
    myne.Reconcile.Snapshot.read_first myne.Reconcile.Snapshot.read_outcome
    myne.Reconcile.Snapshot.read_tail myne.Reconcile.Snapshot.read_timing
    myne.Reconcile.Snapshot.same_randomness myne.Reconcile.Snapshot.square
    myne.Reconcile.Snapshot.value_of
snapshot-projected = refl

archived_snapshot_round_projection_sound_example :
    (in_order projected.timing ≡ true)
    × (projected.tail.processed_receipts ≡ projected.tail.total_receipts)
    × (projected.outcome.resolved ≡ true → SettledSound no_double no_hash bytes bytes projected)
archived_snapshot_round_projection_sound_example =
    archived_snapshot_round_projection_sound no_double no_hash snapshot "myne" "7" bytes bytes
      projected snapshot-projected
