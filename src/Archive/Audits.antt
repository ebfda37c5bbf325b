-- ===== src/Archive/Audits.antt =====
-- What an accepted server proof guarantees.
use myne.Archive.Proof.{
  ServerProof, expected_commitment, expected_output, check_server_proof, bytes_32,
}
use myne.Base.{eq_iff, ◌<◌, length, arith, ◌≤◌, ◌↔◌, String, ℕ, ok, ◌≡◌, List}

-- For every hash function, a server proof is accepted exactly when the program and the mint have
-- 32 bytes, the target slot is not 0 and at most the entropy slot, the three transactions are in
-- order, the reveal is the settlement's transaction, and the commitment and the output are the
-- digests of the revealed data; it is accepted as it is.
pub check_server_proof_iff :
    (hash_hex : List (List ℕ) → String) (program mint : List ℕ) (round_id : ℕ) (p : ServerProof)
    → (check_server_proof hash_hex program mint round_id p ≡ ok p) ↔ (
        (length program ≡ 32)
        × (length mint ≡ 32)
        × (0 < p.target_slot)
        × (p.target_slot ≤ p.entropy_slot)
        × (p.commitment_tx_slot ≤ p.lock_tx_slot)
        × (p.lock_tx_slot ≤ p.reveal_tx_slot)
        × (p.reveal_signature ≡ p.settlement_signature)
        × (p.reveal_tx_slot ≡ p.settlement_slot)
        × (p.commitment_hex ≡ expected_commitment hash_hex program mint round_id p.reveal_hex)
        × (p.randomness_hex ≡ expected_output hash_hex program mint round_id p))
unfolding check_server_proof bytes_32
check_server_proof_iff hash_hex program mint round_id p = ground (
  arith,
  eq_iff p.reveal_signature p.settlement_signature,
  eq_iff p.commitment_hex (expected_commitment hash_hex program mint round_id p.reveal_hex),
  eq_iff p.randomness_hex (expected_output hash_hex program mint round_id p),
)
