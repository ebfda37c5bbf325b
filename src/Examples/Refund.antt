-- ===== src/Examples/Refund.antt =====
-- A refunded round with one receipt.
use myne.Js.{Value, number, text, null, boolean}
use myne.Base.Int.{pos}
use myne.Reconcile.Rows.{Bet, Settlement}
use myne.Reconcile.Chain.{ChainRound, Projection}
use myne.Reconcile.Refund.{Ledger, refunded_ledger, refunded_round_projection_matches_chain}
use myne.Reconcile.Refund.Amounts.{bet_receipt, refund_receipt}
use myne.Reconcile.Refund.Exact.{IsExactRefund, refunded_round_projection_matches_chain-exact}
use myne.Base.{
  ◌↔◌, has, map, All, refl, distinct, true, length, [], ◌≡◌, ◌∷◌, replicate, String, some, false,
  Option, List, ok, ℕ,
}

abbrev zeros : Option (List Value)
zeros = some (replicate 25 (number (pos 0)))

abbrev one_receipt : Option (List Value)
one_receipt = some (number (pos 1) ∷ replicate 24 (number (pos 0)))

abbrev five_lamports : Option (List Value)
five_lamports = some (number (pos 5) ∷ replicate 24 (number (pos 0)))

abbrev refunded_round : ChainRound
refunded_round = record {
  id = number (pos 7);
  settled = boolean false;
  refund_at = number (pos 900);
  total_receipts = number (pos 1);
  processed_receipts = number (pos 1);
  closed_receipts = number (pos 0);
  gross_deployed_lamports = number (pos 0);
  prize_lamports = number (pos 0);
  randomness_commit_slot = number (pos 0);
  tile_lamports = zeros;
  tile_receipts = one_receipt;
}

abbrev refunded_projection : Projection
refunded_projection = record {
  indexed_total_receipts = text "1";
  indexed_processed_receipts = text "1";
  indexed_closed_receipts = text "0";
  indexed_tile_lamports = five_lamports;
  indexed_tile_receipts = one_receipt;
}

abbrev bets : List Bet
bets =
    record {
      round_id = text "7";
      receipt = text "a";
      square = number (pos 0);
      amount_wei = text "5";
    }
    ∷ []

abbrev refunds : List Settlement
refunds =
    record {
      round_id = text "7";
      receipt = text "a";
      status = text "refunded";
      sol_lamports = text "5";
      myne_base_units = text "0";
      motherlode_base_units = text "0";
    }
    ∷ []

accepted :
    refunded_round_projection_matches_chain
      (some refunded_round)
      (some refunded_projection)
      bets
      refunds
      (number (pos 900))
    ≡ true
unfolding myne.Base.add myne.Base.fold_result myne.Base.has myne.Base.map_result myne.Js.as_bigint
    myne.Js.bigint_of myne.Js.codes myne.Js.integer_of myne.Js.is_missing myne.Js.is_nullish
    myne.Js.non_negative myne.Js.required_non_negative_bigint myne.Js.text_or_blank
    myne.Js.to_string myne.Js.truthy myne.Reconcile.Chain.projection_vector
    myne.Reconcile.Refund.add_amount myne.Reconcile.Refund.add_refund
    myne.Reconcile.Refund.add_refund_bet myne.Reconcile.Refund.all_zero
    myne.Reconcile.Refund.amount_for myne.Reconcile.Refund.check_refunded
    myne.Reconcile.Refund.check_refunded_tiles myne.Reconcile.Refund.equal_amounts
    myne.Reconcile.Refund.has_bet_key myne.Reconcile.Refund.is_refunded
    myne.Reconcile.Refund.refunded_ledger
    myne.Reconcile.Refund.refunded_round_projection_matches_chain myne.Reconcile.Refund.same_amount
    myne.Reconcile.Refund.tile_of
accepted = refl

refunded_round_projection_matches_chain-exact_example :
    All (IsExactRefund bets) refunds
    × (distinct (map refund_receipt refunds) ≡ true)
    × ((k : String)
        → (has (map bet_receipt bets) k ≡ true) ↔ (has (map refund_receipt refunds) k ≡ true))
refunded_round_projection_matches_chain-exact_example =
    refunded_round_projection_matches_chain-exact refunded_round refunded_projection bets refunds
      (number (pos 900)) accepted
