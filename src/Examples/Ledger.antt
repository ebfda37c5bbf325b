-- ===== src/Examples/Ledger.antt =====
-- Bets, settlements and archives at concrete inputs.
use myne.Js.{number, text, null}
use myne.Base.Int.{pos}
use myne.Reconcile.Rows.{Bet, Settlement}
use myne.Reconcile.Digest.{DigestInput, DigestOutput, archived_snapshot_projection_digest}
use myne.Reconcile.Digest.Tiles.{digest-conserves, total_amount, amount_on}
use myne.Reconcile.Digest.{bounded_count}
use myne.Reconcile.Digest.Receipts.{digest-settles_all, has_bet, has_settlement, HasStatus}
use myne.Archive.{FeeColumns, FeeAudit, require_round_fee_audit}
use mathlib.Core.List.{flatten}
use myne.Archive.Proof.{ServerProof, ProofColumns, server, require_round_randomness_proof}
use myne.Archive.Bytes.{Collision}
use myne.Archive.Binding.{SameRound, SameEntropy, require_round_randomness_proof-binds}
use myne.Reconcile.Stale.{
  SettlementRow, Evidence, repaired_rows, require_settlement_evidence_row, AllStale, IsPick,
  repaired_rows-Sound,
}
use myne.Reconcile.Gaps.{visited, gap_batch-visits_all}
use myne.Reconcile.Digest.{bounded_count}
use myne.Base.{
  map_result, length, suc, ◌≤◌, arith, ◌⊎◌, arith, ◌≤◌, ◌<◌, suc, map_result, Option, ◌↔◌, ◌+◌,
  true, List, get_or, sum, refl, ◌≡◌, replicate, length, String, ok, ℕ, false, ◌∷◌, [],
}

abbrev bet : String → ℕ → ℕ → Bet
bet receipt square amount = record {
  round_id = text "7";
  receipt = text receipt;
  square = number (pos square);
  amount_wei = number (pos amount);
}

abbrev settlement : String → String → Settlement
settlement receipt status = record {
  round_id = text "7";
  receipt = text receipt;
  status = text status;
  sol_lamports = null;
  myne_base_units = null;
  motherlode_base_units = null;
}

abbrev two_bets : DigestInput
two_bets = record {
  version = number (pos 2);
  program = text "myne";
  has_randomness_proof = false;
  round_id = text "7";
  total_receipts = text "2";
  processed_receipts = text "2";
  bets = bet "a" 0 5 ∷ bet "b" 1 6 ∷ [];
  settlements = settlement "a" "claimed" ∷ settlement "b" "refunded" ∷ [];
}

abbrev two_bets_digest : DigestOutput
two_bets_digest = record {
  round_id = "7";
  indexed_total_receipts = 2;
  indexed_processed_receipts = 2;
  indexed_tile_lamports = 5 ∷ 6 ∷ replicate 23 0;
  indexed_tile_receipts = 1 ∷ 1 ∷ replicate 23 0;
}

two_bets-digest :
    archived_snapshot_projection_digest two_bets (number (pos 100)) ≡ ok two_bets_digest
unfolding myne.Base.add myne.Base.fold_result myne.Base.has myne.Js.Pattern.is_canonical_numeric
    myne.Js.Pattern.is_digit myne.Js.as_bigint myne.Js.bigint_of myne.Js.codes myne.Js.integer_of
    myne.Js.is_missing myne.Js.is_nullish myne.Js.non_negative myne.Js.required_non_negative_bigint
    myne.Js.text_or_empty myne.Js.to_string myne.Reconcile.Digest.add_bet
    myne.Reconcile.Digest.add_settlement myne.Reconcile.Digest.agrees
    myne.Reconcile.Digest.archived_snapshot_projection_digest myne.Reconcile.Digest.bet_key
    myne.Reconcile.Digest.bounded_count myne.Reconcile.Digest.check_snapshot
    myne.Reconcile.Digest.finish_digest myne.Reconcile.Digest.is_filled_text
    myne.Reconcile.Digest.is_final_status myne.Reconcile.Digest.is_number
    myne.Reconcile.Digest.read_bet myne.Reconcile.Digest.read_settlement
    myne.Reconcile.Digest.square_of myne.Reconcile.Digest.status_of myne.Reconcile.Digest.tally_bet
two_bets-digest = refl

digest-conserves_example :
    (length two_bets_digest.indexed_tile_lamports ≡ 25)
    × (sum two_bets_digest.indexed_tile_lamports ≡ total_amount two_bets.bets)
    × ((square : ℕ)
        → get_or two_bets_digest.indexed_tile_lamports square 0 ≡ amount_on square two_bets.bets)
digest-conserves_example =
    digest-conserves two_bets (number (pos 100)) two_bets_digest two_bets-digest

digest-settles_all_example :
    (two_bets_digest.indexed_total_receipts ≡ two_bets_digest.indexed_processed_receipts)
    × ((k : String)
        → (has_bet two_bets.bets k ≡ true) ↔ (has_settlement two_bets.settlements k ≡ true))
    × ((f : String → Option String) × HasStatus f two_bets.settlements)
digest-settles_all_example =
    digest-settles_all two_bets (number (pos 100)) two_bets_digest two_bets-digest

abbrev small_fees : FeeColumns
small_fees = record {
  total_fee_lamports = text "10";
  staking_gross_lamports = text "5";
  staking_admin_lamports = text "1";
  staking_net_lamports = text "4";
  buyback_lamports = text "2";
  motherlode_fee_lamports = text "1";
  mining_admin_lamports = text "2";
  admin_total_lamports = text "3";
  admin_fee_wallet = text "wallet";
}

abbrev small_audit : FeeAudit
small_audit = record {
  total_fee_lamports = 10;
  staking_gross_lamports = 5;
  staking_admin_lamports = 1;
  staking_net_lamports = 4;
  buyback_lamports = 2;
  motherlode_fee_lamports = 1;
  mining_admin_lamports = 2;
  admin_total_lamports = 3;
  admin_fee_wallet = "wallet";
}

small_fees-audit : require_round_fee_audit small_fees ≡ ok small_audit
unfolding myne.Archive.conserves_fees myne.Archive.fee_field myne.Archive.require_round_fee_audit
    myne.Archive.some_text myne.Js.bigint_of myne.Js.codes myne.Js.is_missing myne.Js.is_nullish
    myne.Js.to_string
small_fees-audit = refl

abbrev zeros_64 : String
zeros_64 = "0000000000000000000000000000000000000000000000000000000000000000"

abbrev plain_hash : List ℕ → String
plain_hash bytes = zeros_64

abbrev program_bytes : List ℕ
program_bytes = replicate 32 1

abbrev mint_bytes : List ℕ
mint_bytes = replicate 32 2

abbrev server_columns : ProofColumns
server_columns = record {
  round_id = text "3";
  provider_kind = text "server_commit_reveal";
  randomness_hex = text zeros_64;
  randomness_id = null;
  randomness_commit_slot = null;
  commitment_hex = text zeros_64;
  reveal_hex = text zeros_64;
  target_slot = text "5";
  entropy_slot = text "6";
  entropy_hash_hex = text zeros_64;
  commitment_signature = text "commit";
  commitment_tx_slot = text "1";
  lock_signature = text "lock";
  lock_tx_slot = text "2";
  reveal_signature = text "reveal";
  reveal_tx_slot = text "7";
  settlement_signature = text "reveal";
  settlement_slot = text "7";
}

abbrev server_proof : ServerProof
server_proof = record {
  target_slot = 5;
  entropy_slot = 6;
  commitment_tx_slot = 1;
  lock_tx_slot = 2;
  reveal_tx_slot = 7;
  settlement_slot = 7;
  reveal_signature = "reveal";
  settlement_signature = "reveal";
  commitment_hex = zeros_64;
  randomness_hex = zeros_64;
  reveal_hex = zeros_64;
  entropy_hash_hex = zeros_64;
  commitment_signature = "commit";
  lock_signature = "lock";
}

abbrev next_columns : ProofColumns
next_columns = record server_columns { round_id = text "4" }

server_columns-accepted :
    require_round_randomness_proof
      (λ parts. plain_hash (flatten parts))
      server_columns
      program_bytes
      mint_bytes
    ≡ ok (server server_proof)
unfolding require_round_randomness_proof myne.Archive.some_text myne.Js.is_nullish myne.Js.to_string
    myne.Archive.Proof.required_hex_32 myne.Js.Pattern.is_hex_32
    myne.Archive.Proof.read_server_proof myne.Archive.Proof.required_u64 myne.Js.is_missing
    myne.Js.bigint_of myne.Archive.Proof.in_u64 myne.Archive.Proof.check_server_proof
    myne.Archive.Proof.bytes_32 myne.Archive.Proof.expected_commitment
    myne.Archive.Proof.expected_output
server_columns-accepted = refl

next_columns-accepted :
    require_round_randomness_proof
      (λ parts. plain_hash (flatten parts))
      next_columns
      program_bytes
      mint_bytes
    ≡ ok (server server_proof)
unfolding require_round_randomness_proof myne.Archive.some_text myne.Js.is_nullish myne.Js.to_string
    myne.Archive.Proof.required_hex_32 myne.Js.Pattern.is_hex_32
    myne.Archive.Proof.read_server_proof myne.Archive.Proof.required_u64 myne.Js.is_missing
    myne.Js.bigint_of myne.Archive.Proof.in_u64 myne.Archive.Proof.check_server_proof
    myne.Archive.Proof.bytes_32 myne.Archive.Proof.expected_commitment
    myne.Archive.Proof.expected_output
next_columns-accepted = refl

require_round_randomness_proof-binds_example :
    (server_proof.commitment_hex ≡ server_proof.commitment_hex
      → ((program_bytes ≡ program_bytes)
          × (mint_bytes ≡ mint_bytes)
          × SameRound server_columns next_columns server_proof server_proof)
        ⊎ Collision plain_hash)
    × (server_proof.randomness_hex ≡ server_proof.randomness_hex
        → ((program_bytes ≡ program_bytes)
            × (mint_bytes ≡ mint_bytes)
            × SameRound server_columns next_columns server_proof server_proof
            × SameEntropy server_proof server_proof)
          ⊎ Collision plain_hash)
require_round_randomness_proof-binds_example =
    require_round_randomness_proof-binds plain_hash server_columns next_columns program_bytes
      mint_bytes program_bytes mint_bytes server_proof server_proof server_columns-accepted
      next_columns-accepted

abbrev evidence_row : String → SettlementRow
evidence_row status = record {
  round_id = number (pos 7);
  receipt = text "a";
  status = text status;
  signature = text "s";
  slot = number (pos 9);
}

abbrev claimed : Evidence
claimed = record { receipt = "a"; status = "claimed"; signature = "s"; slot = 9 }

stale_repair :
    repaired_rows "7"
      (evidence_row "closed" ∷ evidence_row "claimed" ∷ [])
      (evidence_row "claimed" ∷ [])
      (number (pos 100))
      (number (pos 10))
    ≡ ok (evidence_row "closed" ∷ [])
unfolding myne.Base.map_result myne.Js.Pattern.is_canonical_numeric myne.Js.Pattern.is_digit
    myne.Js.as_bigint myne.Js.bigint_of myne.Js.codes myne.Js.is_missing myne.Js.is_nullish
    myne.Js.non_negative myne.Js.required_non_negative_bigint myne.Js.text_or_blank
    myne.Js.to_string myne.Js.truthy myne.Reconcile.Digest.bounded_count
    myne.Reconcile.Stale.is_settlement_status myne.Reconcile.Stale.is_stale
    myne.Reconcile.Stale.repaired_rows myne.Reconcile.Stale.require_settlement_evidence_row
    myne.Reconcile.Stale.same_status myne.Reconcile.Stale.same_transaction
    myne.Reconcile.Stale.stale_from
stale_repair = refl

repaired_rows-Sound_example :
    (evidence : List Evidence) × (bound : ℕ) × (map_result
        (require_settlement_evidence_row "7")
        (evidence_row "claimed" ∷ [])
      ≡ ok evidence)
    × (bounded_count 250_000 (number (pos 10)) ≡ ok bound)
    × AllStale "7" evidence (evidence_row "closed" ∷ [])
    × IsPick (evidence_row "closed" ∷ []) (evidence_row "closed" ∷ evidence_row "claimed" ∷ [])
    × (length (evidence_row "closed" ∷ []) ≤ bound)
repaired_rows-Sound_example =
    repaired_rows-Sound "7" (evidence_row "closed" ∷ evidence_row "claimed" ∷ [])
      (evidence_row "claimed" ∷ []) (number (pos 100)) (number (pos 10))
      (evidence_row "closed" ∷ []) stale_repair

gap_batch-visits_all_example : visited (20 + 1) (suc 7) 20 0 13 ≡ true
gap_batch-visits_all_example = gap_batch-visits_all 7 20 13 (omega arith)
