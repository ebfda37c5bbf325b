-- ===== src/Reconcile/Digest.antt =====
-- `archivedSnapshotProjectionDigest` of round-reconciliation-policy.mjs.
pub mod Steps
pub mod Tiles
pub mod Receipts
use Prim.Native.String.{◌++◌ as append}
use myne.Js.{
  text, Value, text_or_empty, integer_of, required_non_negative_bigint, to_string, number,
}
use myne.Js.Pattern.{is_canonical_numeric}
use myne.Reconcile.Rows.{Bet, Settlement}
use myne.Base.{
  map, length, has, fold_result, assert, ◌∷◌, ◌>>◌, ◌>>=◌, assertion, leb, err, ◌+◌, ◌&&◌, ok, ltb,
  get_or, false, ◌||◌, ◌==◌, some, set, not, if◌then◌else◌, true, str_eq, replicate, none, add, ℕ,
  [], String, Result, Option, List, Bool,
}
use myne.Base.Int.{ℤ, pos}

-- What the first loop collects. `lamports` and `tiles` have one entry for each of the 25 squares.
pub record Tally : Type 0 where
  pub receipts : List String
  pub keys : List String
  pub lamports : List ℕ
  pub tiles : List (List String)

abbrev pub empty_tally : Tally
empty_tally = record {
  receipts = [];
  keys = [];
  lamports = replicate 25 0;
  tiles = replicate 25 [];
}

-- `Number.isInteger(square) && square >= 0 && square < 25`
unfoldable pub square_of : Option ℤ → Result ℕ
square_of (some (pos n)) = if ltb n 25 then ok n else err assertion
square_of _ = err assertion

-- The checks on one bet: its receipt, square and amount.
unfoldable pub read_bet : String → Bet → Result (String × ℕ × ℕ)
unfolding square_of
read_bet round_id bet = do
  assert (str_eq (text_or_empty bet.round_id) round_id)
  assert (not (str_eq (text_or_empty bet.receipt) ""))
  square ← square_of (integer_of bet.square)
  amount ← required_non_negative_bigint bet.amount_wei
  assert (ltb 0 amount)
  ok (text_or_empty bet.receipt, square, amount)

-- `${receipt}:${square}`
unfoldable pub bet_key : String → ℕ → String
bet_key receipt square = append receipt (append ":" (to_string (number (pos square))))

unfoldable pub tally_bet : Tally → String → ℕ → ℕ → Tally
tally_bet t receipt square amount = record {
  receipts = add t.receipts receipt;
  keys = add t.keys (bet_key receipt square);
  lamports = set t.lamports square (get_or t.lamports square 0 + amount);
  tiles = set t.tiles square (add (get_or t.tiles square []) receipt);
}

unfoldable pub add_bet : String → Tally → Bet → Result Tally
add_bet round_id t bet = do
  (receipt, square, amount) ← read_bet round_id bet
  assert (not (has t.keys (bet_key receipt square)))
  ok (tally_bet t receipt square amount)

-- What the second loop collects; `statuses` is the map from a receipt to its status.
pub record Processed : Type 0 where
  pub receipts : List String
  pub keys : List String
  pub statuses : List (String × String)

unfoldable pub status_of : List (String × String) → String → Option String
status_of [] receipt = none
status_of ((r, s) ∷ rest) receipt = if str_eq r receipt then some s else status_of rest receipt

unfoldable pub agrees : Option String → String → Bool
agrees none status = true
agrees (some previous) status = str_eq previous status

-- `ARCHIVE_SETTLEMENT_STATUSES.has(status)`
unfoldable pub is_final_status : String → Bool
is_final_status s = str_eq s "claimed" || str_eq s "accrued" || str_eq s "refunded"

unfoldable pub read_settlement : String → List String → Settlement → Result (String × String)
read_settlement round_id participants row = do
  assert (str_eq (text_or_empty row.round_id) round_id)
  assert (not (str_eq (text_or_empty row.receipt) ""))
  assert (has participants (text_or_empty row.receipt))
  assert (is_final_status (text_or_empty row.status))
  ok (text_or_empty row.receipt, text_or_empty row.status)

unfoldable pub add_settlement : String → List String → Processed → Settlement → Result Processed
add_settlement round_id participants p row = do
  (receipt, status) ← read_settlement round_id participants row
  assert (agrees (status_of p.statuses receipt) status)
  let key = append receipt (append ":" status)
  assert (not (has p.keys key))
  ok (record {
    receipts = add p.receipts receipt;
    keys = add p.keys key;
    statuses = (receipt, status) ∷ p.statuses;
  })

-- The parts of a snapshot that the digest reads. A snapshot of version 2 has no server proof, and
-- one of version 3 has one.
pub record DigestInput : Type 0 where
  pub version : Value
  pub program : Value
  pub has_randomness_proof : Bool
  pub round_id : Value
  pub total_receipts : Value
  pub processed_receipts : Value
  pub bets : List Bet
  pub settlements : List Settlement

pub record DigestOutput : Type 0 where
  pub round_id : String
  pub indexed_total_receipts : ℕ
  pub indexed_processed_receipts : ℕ
  pub indexed_tile_lamports : List ℕ
  pub indexed_tile_receipts : List ℕ

unfoldable pub is_number : Value → ℕ → Bool
is_number (number (pos m)) n = m == n
is_number _ n = false

unfoldable pub is_filled_text : Value → Bool
is_filled_text (text s) = not (str_eq s "")
is_filled_text _ = false

-- `Number.isInteger(value) && value > 0 && value <= bound`
unfoldable pub bounded_count : ℕ → Value → Result ℕ
bounded_count bound (number (pos n)) = if ltb 0 n && leb n bound then ok n else err assertion
bounded_count bound _ = err assertion

-- The checks before the loops; the round's id.
unfoldable pub check_snapshot : DigestInput → Value → Result String
check_snapshot s max_rows = do
  assert (is_number s.version 2 || is_number s.version 3)
  assert (is_filled_text s.program)
  bound ← bounded_count 250_000 max_rows
  assert (leb (length s.bets + length s.settlements) bound)
  assert (if is_number s.version 2 then not s.has_randomness_proof else s.has_randomness_proof)
  assert (is_canonical_numeric (text_or_empty s.round_id))
  ok (text_or_empty s.round_id)

abbrev pub empty_processed : Processed
empty_processed = record { receipts = []; keys = []; statuses = [] }

-- The counts that the round claims are those of the rows, and every receipt was processed.
unfoldable pub finish_digest : DigestInput → String → Tally → Processed → Result DigestOutput
finish_digest s round_id t p = do
  total ← required_non_negative_bigint s.total_receipts
  assert (total == length t.receipts)
  processed ← required_non_negative_bigint s.processed_receipts
  assert (processed == length p.receipts)
  assert (length p.receipts == length t.receipts)
  ok (record {
    round_id = round_id;
    indexed_total_receipts = length t.receipts;
    indexed_processed_receipts = length p.receipts;
    indexed_tile_lamports = t.lamports;
    indexed_tile_receipts = map length t.tiles;
  })

unfoldable pub archived_snapshot_projection_digest : DigestInput → Value → Result DigestOutput
archived_snapshot_projection_digest s max_rows = do
  round_id ← check_snapshot s max_rows
  t ← fold_result (add_bet round_id) empty_tally s.bets
  p ← fold_result (add_settlement round_id t.receipts) empty_processed s.settlements
  finish_digest s round_id t p
