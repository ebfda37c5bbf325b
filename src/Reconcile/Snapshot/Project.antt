-- ===== src/Reconcile/Snapshot/Project.antt =====
-- The provider's columns of a snapshot's projection, the checks of a settled round, and
-- `archivedSnapshotRoundProjection` itself.
use myne.Js.{null, text, Value}
use myne.Archive.{FeeColumns, FeeAudit, require_round_fee_audit}
use myne.Archive.Proof.{
  ProofColumns, require_round_randomness_proof, switchboard_provider_kind, server_provider_kind,
}
use myne.Reconcile.Digest.{is_number}
use myne.Reconcile.Snapshot.{
  Snapshot, Timing, Outcome, FeeTexts, Tail, ProofTexts, RoundProjection, numeric, read_first,
  filled_text, hex, nullable, amount, read_timing, read_outcome, read_fee_texts, read_tail,
  value_of, same_randomness, in_order, is_blank,
}
use myne.Base.{
  ◌/◌, ◌*◌, ◌-◌, ltb, if◌then◌else◌, ◌==◌, not, false, assertion, ◌||◌, ◌>>=◌, str_eq, leb, err,
  true, some, assert, List, ◌>>◌, ok, String, ℕ, none, Result, Option, Bool,
}

abbrev pub no_proof : ProofTexts
no_proof = record {
  provider_kind = switchboard_provider_kind;
  commitment_hex = none;
  reveal_hex = none;
  target_slot = none;
  entropy_slot = none;
  entropy_hash_hex = none;
  commitment_signature = none;
  commitment_tx_slot = none;
  lock_signature = none;
  lock_tx_slot = none;
  reveal_signature = none;
  reveal_tx_slot = none;
}

-- `value === expected` of a text or null.
unfoldable pub is_exactly : Value → Option String → Bool
is_exactly null none = true
is_exactly (text s) (some t) = str_eq s t
is_exactly _ _ = false

-- The proof's copies of the round's output and settlement are compared as they stand.
unfoldable pub read_server_columns : ProofColumns → Tail → Bool → Result ProofTexts
read_server_columns p t open_round = do
  assert (is_exactly p.provider_kind (some server_provider_kind))
  commitment ← nullable open_round hex p.commitment_hex
  reveal ← nullable open_round hex p.reveal_hex
  target ← nullable open_round numeric p.target_slot
  entropy ← nullable open_round numeric p.entropy_slot
  entropy_hash ← nullable open_round hex p.entropy_hash_hex
  commitment_signature ← nullable open_round filled_text p.commitment_signature
  commitment_tx ← nullable open_round numeric p.commitment_tx_slot
  lock_signature ← nullable open_round filled_text p.lock_signature
  lock_tx ← nullable open_round numeric p.lock_tx_slot
  reveal_signature ← nullable open_round filled_text p.reveal_signature
  reveal_tx ← nullable open_round numeric p.reveal_tx_slot
  assert (is_exactly p.randomness_hex t.randomness_hex)
  assert (is_exactly p.settlement_signature t.settlement_signature)
  assert (is_exactly p.settlement_slot t.settlement_slot)
  ok (record {
    provider_kind = server_provider_kind;
    commitment_hex = commitment;
    reveal_hex = reveal;
    target_slot = target;
    entropy_slot = entropy;
    entropy_hash_hex = entropy_hash;
    commitment_signature = commitment_signature;
    commitment_tx_slot = commitment_tx;
    lock_signature = lock_signature;
    lock_tx_slot = lock_tx;
    reveal_signature = reveal_signature;
    reveal_tx_slot = reveal_tx;
  })

-- A version 3 snapshot clears the account and the commit slot of the other provider.
unfoldable pub read_provider : Bool → Option ProofColumns → Tail → Bool → Result (ProofTexts × Tail)
read_provider true none t open_round = ok (no_proof, t)
read_provider true (some p) t open_round = err assertion
read_provider false none t open_round = err assertion
read_provider false (some p) t open_round = do
  proof ← read_server_columns p t open_round
  ok (proof, record t { randomness_id = none; randomness_commit_slot = none })

-- The projection's columns, as the two audits of Archive read them.
unfoldable pub fee_columns : FeeTexts → FeeColumns
fee_columns f = record {
  total_fee_lamports = value_of f.total_fee_lamports;
  staking_gross_lamports = value_of f.staking_gross_lamports;
  staking_admin_lamports = value_of f.staking_admin_lamports;
  staking_net_lamports = value_of f.staking_net_lamports;
  buyback_lamports = value_of f.buyback_lamports;
  motherlode_fee_lamports = value_of f.motherlode_fee_lamports;
  mining_admin_lamports = value_of f.mining_admin_lamports;
  admin_total_lamports = value_of f.admin_total_lamports;
  admin_fee_wallet = value_of f.admin_fee_wallet;
}

unfoldable pub proof_columns : RoundProjection → ProofColumns
proof_columns r = record {
  round_id = text r.timing.round_id;
  provider_kind = text r.proof.provider_kind;
  randomness_hex = value_of r.tail.randomness_hex;
  randomness_id = value_of r.tail.randomness_id;
  randomness_commit_slot = value_of r.tail.randomness_commit_slot;
  commitment_hex = value_of r.proof.commitment_hex;
  reveal_hex = value_of r.proof.reveal_hex;
  target_slot = value_of r.proof.target_slot;
  entropy_slot = value_of r.proof.entropy_slot;
  entropy_hash_hex = value_of r.proof.entropy_hash_hex;
  commitment_signature = value_of r.proof.commitment_signature;
  commitment_tx_slot = value_of r.proof.commitment_tx_slot;
  lock_signature = value_of r.proof.lock_signature;
  lock_tx_slot = value_of r.proof.lock_tx_slot;
  reveal_signature = value_of r.proof.reveal_signature;
  reveal_tx_slot = value_of r.proof.reveal_tx_slot;
  settlement_signature = value_of r.tail.settlement_signature;
  settlement_slot = value_of r.tail.settlement_slot;
}

-- The prize and the payout multiplier of a settled round.
unfoldable pub check_payout : Outcome → FeeAudit → Result (Unit {0})
check_payout o fees = do
  let gross = amount o.total_wager_wei
  let winning = amount o.winner_total_wei
  let prize = amount o.pot_for_winners_wei
  assert (leb winning gross)
  assert (leb fees.total_fee_lamports gross)
  assert (prize == (if ltb 0 winning then gross - fees.total_fee_lamports else 0))
  assert (
      amount o.payout_mul_wad
      == (if ltb 0 winning then prize * 1_000_000_000_000_000_000 / winning else 0))
  ok tt

module _ (double_text : ℕ → String) (hash_hex : List (List ℕ) → String) where
  unfoldable pub check_settled : RoundProjection → List ℕ → List ℕ → Result (Unit {0})
  check_settled r program_bytes mint_bytes = do
    fees ← require_round_fee_audit (fee_columns r.fees)
    check_payout r.outcome fees
    proof ← require_round_randomness_proof hash_hex (proof_columns r) program_bytes mint_bytes
    ok tt

  -- The checks between the columns and the provider.
  unfoldable pub check_columns : Timing → Outcome → FeeTexts → Tail → Result (Unit {0})
  check_columns timing o f t = do
    assert (in_order timing)
    assert (str_eq t.processed_receipts t.total_receipts)
    assert (same_randomness t.randomness_hex t.randomness_value)
    assert (o.resolved || is_blank o f t)
    ok tt

  unfoldable pub finish_projection : List ℕ → List ℕ → RoundProjection → Result RoundProjection
  finish_projection program_bytes mint_bytes r =
      let settled = check_settled r program_bytes mint_bytes >> ok r in
      if r.outcome.resolved then settled else ok r

  unfoldable pub archived_snapshot_round_projection :
      Snapshot → String → String → List ℕ → List ℕ → Result RoundProjection
  archived_snapshot_round_projection s program_id expected_round_id program_bytes mint_bytes = do
    assert (is_number s.version 2 || is_number s.version 3)
    assert (is_exactly s.program (some program_id))
    first ← read_first double_text s.round expected_round_id
    timing ← read_timing s.round expected_round_id
    outcome ← read_outcome s.round
    fees ← read_fee_texts s.round.fees (not outcome.resolved)
    tail ← read_tail double_text s.round (not outcome.resolved)
    check_columns timing outcome fees tail
    (proof, tail') ←
        read_provider (is_number s.version 2) s.randomness_proof tail (not outcome.resolved)
    finish_projection program_bytes mint_bytes
        (record { timing = timing; outcome = outcome; fees = fees; tail = tail'; proof = proof })
