-- ===== src/Reconcile/Refund.antt =====
-- `refundedRoundProjectionMatchesChain` of round-reconciliation-policy.mjs: a fully refunded round
-- is proved from its bets and its refund events.
pub mod Amounts
pub mod Exact
use myne.Js.{
  bigint, text, Value, as_bigint, truthy, to_string, text_or_blank, required_non_negative_bigint,
  integer_of,
}
use myne.Reconcile.Rows.{Bet, Settlement}
use myne.Reconcile.Chain.{ChainRound, Projection, projection_vector}
use myne.Base.{
  refl, sym, add, ok_injective, get_or, err, >>=-eq-ok, ◌||◌, subst, set, map, ltb, leb,
  guard-eq-ok, arith, ==_iff, ◌==◌, ◌+◌, ◌&&◌, plain_error, or_false, not, length, has, ap, true,
  str_eq, some, ok, if◌then◌else◌, guard, ◌≡◌, ◌∷◌, ◌>>◌, ◌>>=◌, replicate, none, false, distinct,
  fold_result, [], String, Result, Option, List, Bool, ℕ,
}
use myne.Base.Int.{pos, eqb_ℤ, ℤ}

-- The amounts by receipt, the amounts and the receipts of the tiles, and the keys of the bets.
pub record Ledger : Type 0 where
  pub amounts : List (String × ℕ)
  pub tile_amounts : List ℕ
  pub tile_receipts : List (List String)
  pub keys : List (String × ℕ)

abbrev pub empty_ledger : Ledger
empty_ledger = record {
  amounts = [];
  tile_amounts = replicate 25 0;
  tile_receipts = replicate 25 [];
  keys = [];
}

-- `betAmountsByReceipt.get(receipt)`
unfoldable pub amount_for : List (String × ℕ) → String → Option ℕ
amount_for [] receipt = none
amount_for ((r, n) ∷ rest) receipt = if str_eq r receipt then some n else amount_for rest receipt

-- `betAmountsByReceipt.set(receipt, (get(receipt) || 0n) + amount)`
unfoldable pub add_amount : List (String × ℕ) → String → ℕ → List (String × ℕ)
add_amount [] receipt amount = (receipt, amount) ∷ []
add_amount ((r, n) ∷ rest) receipt amount =
    let others = add_amount rest receipt amount in
    if str_eq r receipt then (r, n + amount) ∷ rest else (r, n) ∷ others

unfoldable pub has_bet_key : List (String × ℕ) → String → ℕ → Bool
has_bet_key [] receipt square = false
has_bet_key ((r, s) ∷ rest) receipt square =
    (str_eq r receipt && s == square) || has_bet_key rest receipt square

-- A `return false` inside the function is an error of its own here: both give false.
unfoldable pub tile_of : Option ℤ → Result ℕ
tile_of (some (pos n)) = if ltb n 25 then ok n else err plain_error
tile_of _ = err plain_error

unfoldable pub add_refund_bet : String → Ledger → Bet → Result Ledger
add_refund_bet round_id l bet = do
  guard (str_eq (to_string bet.round_id) round_id) plain_error
  amount ← required_non_negative_bigint bet.amount_wei
  guard (not (str_eq (text_or_blank bet.receipt) "")) plain_error
  square ← tile_of (integer_of bet.square)
  guard (not (amount == 0)) plain_error
  guard (not (has_bet_key l.keys (text_or_blank bet.receipt) square)) plain_error
  ok (record {
    amounts = add_amount l.amounts (text_or_blank bet.receipt) amount;
    tile_amounts = set l.tile_amounts square (get_or l.tile_amounts square 0 + amount);
    tile_receipts =
        set l.tile_receipts square
          (add (get_or l.tile_receipts square []) (text_or_blank bet.receipt));
    keys = (text_or_blank bet.receipt, square) ∷ l.keys;
  })

unfoldable pub same_amount : Option ℕ → ℕ → Bool
same_amount none n = false
same_amount (some m) n = m == n

unfoldable pub is_refunded : Value → Bool
is_refunded (text s) = str_eq s "refunded"
is_refunded _ = false

-- The refund of a receipt: its whole amount, and nothing else.
unfoldable pub add_refund :
    String → List (String × ℕ) → List String → Settlement → Result (List String)
add_refund round_id amounts refunded row = do
  guard (str_eq (to_string row.round_id) round_id && is_refunded row.status) plain_error
  guard (not (str_eq (text_or_blank row.receipt) "")) plain_error
  guard (not (has refunded (text_or_blank row.receipt))) plain_error
  lamports ← required_non_negative_bigint row.sol_lamports
  guard (same_amount (amount_for amounts (text_or_blank row.receipt)) lamports) plain_error
  myne ← required_non_negative_bigint row.myne_base_units
  motherlode ← required_non_negative_bigint row.motherlode_base_units
  guard (myne == 0 && motherlode == 0) plain_error
  ok (text_or_blank row.receipt ∷ refunded)

unfoldable pub all_zero : List ℤ → Bool
all_zero [] = true
all_zero (z ∷ zs) = eqb_ℤ z (pos 0) && all_zero zs

unfoldable pub equal_amounts : List ℤ → List ℕ → Bool
equal_amounts [] [] = true
equal_amounts (z ∷ zs) (n ∷ ns) = eqb_ℤ z (pos n) && equal_amounts zs ns
equal_amounts _ _ = false

-- The checks of the round itself, before its rows; the number of receipts.
unfoldable pub check_refunded : ChainRound → Projection → Value → Result ℤ
check_refunded c p finalized_chain_time = do
  guard (not (truthy c.settled)) plain_error
  now ← required_non_negative_bigint finalized_chain_time
  refund_at ← required_non_negative_bigint c.refund_at
  guard (leb refund_at now) plain_error
  total ← as_bigint c.total_receipts
  processed ← as_bigint c.processed_receipts
  closed ← as_bigint c.closed_receipts
  gross ← as_bigint c.gross_deployed_lamports
  prize ← as_bigint c.prize_lamports
  guard (eqb_ℤ processed total && all_zero (closed ∷ gross ∷ prize ∷ [])) plain_error
  indexed_total ← as_bigint p.indexed_total_receipts
  indexed_processed ← as_bigint p.indexed_processed_receipts
  indexed_closed ← as_bigint p.indexed_closed_receipts
  guard (eqb_ℤ indexed_total total && eqb_ℤ indexed_processed total && eqb_ℤ indexed_closed (pos 0))
      plain_error
  ok total

-- The tiles of the chain and of the index against those of the bets.
unfoldable pub check_refunded_tiles : ChainRound → Projection → Ledger → Result (Unit {0})
check_refunded_tiles c p l = do
  chain_lamports ← projection_vector c.tile_lamports
  chain_receipts ← projection_vector c.tile_receipts
  indexed_lamports ← projection_vector p.indexed_tile_lamports
  indexed_receipts ← projection_vector p.indexed_tile_receipts
  guard (length chain_lamports == 25 && all_zero chain_lamports) plain_error
  guard (equal_amounts indexed_lamports l.tile_amounts) plain_error
  guard (equal_amounts indexed_receipts (map length l.tile_receipts)) plain_error
  guard (equal_amounts chain_receipts (map length l.tile_receipts)) plain_error
  ok tt

unfoldable pub refunded_ledger :
    ChainRound → Projection → List Bet → List Settlement → Value → Result (Ledger × List String)
refunded_ledger c p bets settlements finalized_chain_time = do
  total ← check_refunded c p finalized_chain_time
  id ← as_bigint c.id
  l ← fold_result (add_refund_bet (to_string (bigint id))) empty_ledger bets
  guard (eqb_ℤ (pos (length l.amounts)) total) plain_error
  check_refunded_tiles c p l
  refunded ← fold_result (add_refund (to_string (bigint id)) l.amounts) [] settlements
  guard (eqb_ℤ (pos (length refunded)) total) plain_error
  ok (l, refunded)

unfoldable pub refunded_round_projection_matches_chain :
    Option ChainRound → Option Projection → List Bet → List Settlement → Value → Bool
refunded_round_projection_matches_chain (some c) (some p) bets settlements finalized_chain_time =
    or_false (refunded_ledger c p bets settlements finalized_chain_time >>= λ _. ok true)
refunded_round_projection_matches_chain _ _ bets settlements finalized_chain_time = false
