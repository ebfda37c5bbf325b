-- ===== src/Examples/Chain.antt =====
-- A round on the chain and its projection at concrete values.
use myne.Js.{Value, number, text, null, boolean, undefined, truthy, as_bigint}
use myne.Base.Int.{pos}
use myne.Reconcile.Chain.{
  ChainRound, Projection, IndexedRound, round_participant_projection_matches_chain,
  round_projection_matches_chain, participant_matches, same_count, round_needs_canonical_replay,
  has_server_flag, complete_server_proof,
}
use myne.Reconcile.Chain.Matches.{Agrees, SameCount, round_projection_matches_chain_iff}
use myne.Base.{replicate, ◌⊎◌, ◌∷◌, refl, ◌↔◌, List, ◌≡◌, true, some, false, Option, ok, ℕ}

abbrev tiles : Option (List Value)
tiles = some (number (pos 5) ∷ replicate 24 (number (pos 0)))

abbrev chain_round : ChainRound
chain_round = record {
  id = number (pos 7);
  settled = boolean true;
  refund_at = number (pos 900);
  total_receipts = number (pos 1);
  processed_receipts = number (pos 1);
  closed_receipts = number (pos 0);
  gross_deployed_lamports = number (pos 5);
  prize_lamports = number (pos 5);
  randomness_commit_slot = number (pos 12);
  tile_lamports = tiles;
  tile_receipts = tiles;
}

abbrev projection : Projection
projection = record {
  indexed_total_receipts = text "1";
  indexed_processed_receipts = text "1";
  indexed_closed_receipts = text "0";
  indexed_tile_lamports = tiles;
  indexed_tile_receipts = tiles;
}

round_projection_matches_chain_iff_example :
    (round_projection_matches_chain (some chain_round) (some projection) ≡ ok true) ↔ (
      Agrees chain_round projection
      × SameCount chain_round.processed_receipts projection.indexed_processed_receipts
      × SameCount chain_round.closed_receipts projection.indexed_closed_receipts)
round_projection_matches_chain_iff_example =
    round_projection_matches_chain_iff chain_round projection

abbrev indexed_round : IndexedRound
indexed_round = record {
  resolved = boolean true;
  archive_verified = boolean false;
  closed_signature = null;
  settlement_signature = text "settled";
  randomness_commitment_hex = null;
  randomness_reveal_hex = null;
  randomness_target_slot = null;
  randomness_entropy_slot = null;
  randomness_entropy_hash_hex = null;
  randomness_commitment_signature = null;
  randomness_lock_signature = null;
  randomness_reveal_signature = null;
}

abbrev open_indexed : IndexedRound
open_indexed = record indexed_round { resolved = boolean false }

-- The round before its result: one receipt of two is processed.
abbrev open_round : ChainRound
open_round = record chain_round { settled = boolean false; total_receipts = number (pos 2) }

open_matched : participant_matches open_round projection ≡ ok false
unfolding myne.Base.map_result myne.Js.as_bigint myne.Js.bigint_of myne.Js.codes
    myne.Reconcile.Chain.compare_vectors myne.Reconcile.Chain.decide_vectors
    myne.Reconcile.Chain.equal_vectors myne.Reconcile.Chain.participant_matches
    myne.Reconcile.Chain.projection_vector myne.Reconcile.Chain.read_vectors
    myne.Reconcile.Chain.same_count myne.Reconcile.Chain.vectors_of_25
open_matched = refl

open_waits : same_count open_round.processed_receipts open_round.total_receipts ≡ ok false
unfolding myne.Js.as_bigint myne.Js.bigint_of myne.Js.codes myne.Reconcile.Chain.same_count
open_waits = refl

open_processed :
    same_count projection.indexed_processed_receipts open_round.processed_receipts ≡ ok true
unfolding myne.Js.as_bigint myne.Js.bigint_of myne.Js.codes myne.Reconcile.Chain.same_count
open_processed = refl

open_closed : same_count projection.indexed_closed_receipts open_round.closed_receipts ≡ ok true
unfolding myne.Js.as_bigint myne.Js.bigint_of myne.Js.codes myne.Reconcile.Chain.same_count
open_closed = refl

open_unsettled : truthy open_round.settled ≡ false
unfolding myne.Js.truthy
open_unsettled = refl

open_both : truthy open_indexed.resolved ≡ truthy open_round.settled
unfolding myne.Js.truthy
open_both = refl

settled_both : truthy indexed_round.resolved ≡ truthy chain_round.settled
unfolding myne.Js.truthy
settled_both = refl

chain_settled : truthy chain_round.settled ≡ true
unfolding myne.Js.truthy
chain_settled = refl

chain_matched : round_projection_matches_chain (some chain_round) (some projection) ≡ ok true
unfolding myne.Base.map_result myne.Js.as_bigint myne.Js.bigint_of myne.Js.codes
    myne.Reconcile.Chain.compare_vectors myne.Reconcile.Chain.decide_vectors
    myne.Reconcile.Chain.equal_vectors myne.Reconcile.Chain.lifecycle_matches
    myne.Reconcile.Chain.participant_matches myne.Reconcile.Chain.projection_vector
    myne.Reconcile.Chain.read_vectors myne.Reconcile.Chain.round_projection_matches_chain
    myne.Reconcile.Chain.same_count myne.Reconcile.Chain.vectors_of_25
chain_matched = refl

chain_slot : as_bigint chain_round.randomness_commit_slot ≡ ok (pos 12)
unfolding myne.Js.as_bigint myne.Js.bigint_of myne.Js.codes
chain_slot = refl
