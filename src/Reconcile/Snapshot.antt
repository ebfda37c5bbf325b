-- ===== src/Reconcile/Snapshot.antt =====
-- `archivedSnapshotRoundProjection` of round-reconciliation-policy.mjs: the validation of a
-- snapshot's round. The projection is kept in groups of columns.
-- `double_text` and `hash_hex` are the parameters of Archive and Archive/Proof.
pub mod Project
pub mod Sound
use myne.Js.{bigint, text, number, null, boolean, Value, to_string, bigint_of, parse_hex_32}
use myne.Js.Pattern.{is_canonical_numeric, is_hex_32}
use myne.Archive.{FeeColumns, FeeAudit, canonical_randomness_value, require_round_fee_audit}
use myne.Archive.Proof.{
  ProofColumns, require_round_randomness_proof, switchboard_provider_kind, server_provider_kind,
}
use myne.Reconcile.Digest.{is_number}
use myne.Base.{
  ltb, if◌then◌else◌, false, assertion, assert, ◌>>◌, ◌&&◌, some, none, err, ◌>>=◌, true, str_eq,
  ok, not, leb, ℕ, String, Result, Option, Bool,
}
use myne.Base.Int.{pos}

-- The columns of `snapshot.round`.
pub record RoundColumns : Type 0 where
  pub round_id : Value
  pub rent_payer : Value
  pub opened_at : Value
  pub betting_ends_at : Value
  pub settles_at : Value
  pub refund_at : Value
  pub resolved : Value
  pub winning_square : Value
  pub jackpot_hit : Value
  pub single_miner_round : Value
  pub winner : Value
  pub total_wager_wei : Value
  pub winner_total_wei : Value
  pub pot_for_winners_wei : Value
  pub bullion_for_winners_wei : Value
  pub payout_mul_wad : Value
  pub fees : FeeColumns
  pub randomness_id : Value
  pub randomness_value : Value
  pub randomness_hex : Value
  pub randomness_commit_slot : Value
  pub solo_sample : Value
  pub total_receipts : Value
  pub processed_receipts : Value
  pub settlement_signature : Value
  pub settlement_slot : Value

-- The server proof of a snapshot of version 3, with the fields of `snapshot.randomness_proof`.
pub record Snapshot : Type 0 where
  pub version : Value
  pub program : Value
  pub round : RoundColumns
  pub randomness_proof : Option ProofColumns

unfoldable pub numeric : Value → Result String
numeric (text s) = do assert (is_canonical_numeric s); ok s
numeric _ = err assertion

unfoldable pub filled_text : Value → Result String
filled_text (text s) = do assert (not (str_eq s "")); ok s
filled_text _ = err assertion

unfoldable pub hex : Value → Result String
hex (text s) = do assert (is_hex_32 s); ok s
hex _ = err assertion

unfoldable pub flag : Value → Result Bool
flag (boolean b) = ok b
flag _ = err assertion

-- `{ nullable }`: a null is kept where it is allowed.
unfoldable pub nullable : Bool → (Value → Result String) → Value → Result (Option String)
nullable true read null = ok none
nullable allowed read v = read v >>= λ s. ok (some s)

unfoldable pub square : Bool → Value → Result (Option ℕ)
square true (number (pos n)) = if ltb n 25 then ok (some n) else err assertion
square true _ = err assertion
square false null = ok none
square false _ = err assertion

-- `BigInt(text)` of canonical digits.
unfoldable pub amount : String → ℕ
amount s = elim (bigint_of (text s)) [ ok (pos n) ↦ n | _ ↦ 0 ]

pub record Timing : Type 0 where
  pub round_id : String
  pub rent_payer : String
  pub opened_at : String
  pub betting_ends_at : String
  pub settles_at : String
  pub refund_at : String

pub record Outcome : Type 0 where
  pub resolved : Bool
  pub winning_square : Option ℕ
  pub jackpot_hit : Bool
  pub single_miner_round : Bool
  pub winner : Option String
  pub total_wager_wei : String
  pub winner_total_wei : String
  pub pot_for_winners_wei : String
  pub bullion_for_winners_wei : String
  pub payout_mul_wad : String

pub record FeeTexts : Type 0 where
  pub total_fee_lamports : Option String
  pub staking_gross_lamports : Option String
  pub staking_admin_lamports : Option String
  pub staking_net_lamports : Option String
  pub buyback_lamports : Option String
  pub motherlode_fee_lamports : Option String
  pub mining_admin_lamports : Option String
  pub admin_total_lamports : Option String
  pub admin_fee_wallet : Option String

pub record Tail : Type 0 where
  pub randomness_id : Option String
  pub randomness_value : Option String
  pub randomness_hex : Option String
  pub randomness_commit_slot : Option String
  pub solo_sample : String
  pub total_receipts : String
  pub processed_receipts : String
  pub settlement_signature : Option String
  pub settlement_slot : Option String

pub record ProofTexts : Type 0 where
  pub provider_kind : String
  pub commitment_hex : Option String
  pub reveal_hex : Option String
  pub target_slot : Option String
  pub entropy_slot : Option String
  pub entropy_hash_hex : Option String
  pub commitment_signature : Option String
  pub commitment_tx_slot : Option String
  pub lock_signature : Option String
  pub lock_tx_slot : Option String
  pub reveal_signature : Option String
  pub reveal_tx_slot : Option String

-- `buyback_completed` is `outcome.resolved`.
pub record RoundProjection : Type 0 where
  pub timing : Timing
  pub outcome : Outcome
  pub fees : FeeTexts
  pub tail : Tail
  pub proof : ProofTexts

unfoldable pub read_timing : RoundColumns → String → Result Timing
read_timing r expected_round_id = do
  round_id ← numeric r.round_id
  assert (str_eq round_id expected_round_id)
  rent_payer ← filled_text r.rent_payer
  opened_at ← numeric r.opened_at
  betting_ends_at ← numeric r.betting_ends_at
  settles_at ← numeric r.settles_at
  refund_at ← numeric r.refund_at
  ok (record {
    round_id = round_id;
    rent_payer = rent_payer;
    opened_at = opened_at;
    betting_ends_at = betting_ends_at;
    settles_at = settles_at;
    refund_at = refund_at;
  })

unfoldable pub read_outcome : RoundColumns → Result Outcome
read_outcome r = do
  resolved ← flag r.resolved
  winning_square ← square resolved r.winning_square
  jackpot_hit ← flag r.jackpot_hit
  single_miner_round ← flag r.single_miner_round
  winner ← nullable true filled_text r.winner
  total_wager_wei ← numeric r.total_wager_wei
  winner_total_wei ← numeric r.winner_total_wei
  pot_for_winners_wei ← numeric r.pot_for_winners_wei
  bullion_for_winners_wei ← numeric r.bullion_for_winners_wei
  payout_mul_wad ← numeric r.payout_mul_wad
  ok (record {
    resolved = resolved;
    winning_square = winning_square;
    jackpot_hit = jackpot_hit;
    single_miner_round = single_miner_round;
    winner = winner;
    total_wager_wei = total_wager_wei;
    winner_total_wei = winner_total_wei;
    pot_for_winners_wei = pot_for_winners_wei;
    bullion_for_winners_wei = bullion_for_winners_wei;
    payout_mul_wad = payout_mul_wad;
  })

unfoldable pub read_fee_texts : FeeColumns → Bool → Result FeeTexts
read_fee_texts f open_round = do
  total ← nullable open_round numeric f.total_fee_lamports
  staking_gross ← nullable open_round numeric f.staking_gross_lamports
  staking_admin ← nullable open_round numeric f.staking_admin_lamports
  staking_net ← nullable open_round numeric f.staking_net_lamports
  buyback ← nullable open_round numeric f.buyback_lamports
  motherlode ← nullable open_round numeric f.motherlode_fee_lamports
  mining_admin ← nullable open_round numeric f.mining_admin_lamports
  admin_total ← nullable open_round numeric f.admin_total_lamports
  wallet ← nullable open_round filled_text f.admin_fee_wallet
  ok (record {
    total_fee_lamports = total;
    staking_gross_lamports = staking_gross;
    staking_admin_lamports = staking_admin;
    staking_net_lamports = staking_net;
    buyback_lamports = buyback;
    motherlode_fee_lamports = motherlode;
    mining_admin_lamports = mining_admin;
    admin_total_lamports = admin_total;
    admin_fee_wallet = wallet;
  })

-- What is read before the other columns: a wrong randomness output throws `Error`, all else an
-- assertion.
unfoldable pub read_first : (ℕ → String) → RoundColumns → String → Result (Option String)
read_first double_text r expected_round_id = do
  round_id ← numeric r.round_id
  assert (str_eq round_id expected_round_id)
  resolved ← flag r.resolved
  randomness_hex ← nullable true hex r.randomness_hex
  canonical_randomness_value double_text r.randomness_value r.randomness_hex

unfoldable pub read_tail : (ℕ → String) → RoundColumns → Bool → Result Tail
read_tail double_text r open_round = do
  randomness_hex ← nullable true hex r.randomness_hex
  randomness_value ← canonical_randomness_value double_text r.randomness_value r.randomness_hex
  randomness_id ← nullable true filled_text r.randomness_id
  randomness_commit_slot ← nullable true numeric r.randomness_commit_slot
  solo_sample ← numeric r.solo_sample
  total_receipts ← numeric r.total_receipts
  processed_receipts ← numeric r.processed_receipts
  settlement_signature ← nullable open_round filled_text r.settlement_signature
  settlement_slot ← nullable open_round numeric r.settlement_slot
  ok (record {
    randomness_id = randomness_id;
    randomness_value = randomness_value;
    randomness_hex = randomness_hex;
    randomness_commit_slot = randomness_commit_slot;
    solo_sample = solo_sample;
    total_receipts = total_receipts;
    processed_receipts = processed_receipts;
    settlement_signature = settlement_signature;
    settlement_slot = settlement_slot;
  })

-- A text column as a value, null where there is none.
unfoldable pub value_of : Option String → Value
value_of none = null
value_of (some s) = text s

unfoldable pub same_option : Option String → Option String → Bool
same_option none none = true
same_option (some s) (some t) = str_eq s t
same_option _ _ = false

-- Both randomness outputs or none, and the same number.
unfoldable pub same_randomness : Option String → Option String → Bool
same_randomness none none = true
same_randomness (some h) (some v) = str_eq (to_string (bigint (pos (parse_hex_32 h)))) v
same_randomness _ _ = false

unfoldable pub in_order : Timing → Bool
in_order t =
    leb (amount t.opened_at) (amount t.betting_ends_at)
    && leb (amount t.betting_ends_at) (amount t.settles_at)
    && leb (amount t.settles_at) (amount t.refund_at)

unfoldable pub is_zero : String → Bool
is_zero s = str_eq s "0"

unfoldable pub none_or_zero : Option String → Bool
none_or_zero none = true
none_or_zero (some s) = is_zero s

unfoldable pub is_none : Option String → Bool
is_none none = true
is_none (some s) = false

-- A round without a result records none of its parts.
unfoldable pub is_blank : Outcome → FeeTexts → Tail → Bool
is_blank o f t =
    not o.jackpot_hit
    && not o.single_miner_round
    && is_none o.winner
    && is_zero o.total_wager_wei
    && is_zero o.winner_total_wei
    && is_zero o.pot_for_winners_wei
    && is_zero o.bullion_for_winners_wei
    && is_zero o.payout_mul_wad
    && is_zero t.solo_sample
    && none_or_zero f.total_fee_lamports
    && none_or_zero f.staking_gross_lamports
    && none_or_zero f.staking_admin_lamports
    && none_or_zero f.staking_net_lamports
    && none_or_zero f.buyback_lamports
    && none_or_zero f.motherlode_fee_lamports
    && none_or_zero f.mining_admin_lamports
    && none_or_zero f.admin_total_lamports
    && is_none f.admin_fee_wallet
    && is_none t.randomness_hex
    && is_none t.randomness_value
