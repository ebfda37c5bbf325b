-- ===== src/Archive/Proof.antt =====
-- `requireRoundRandomnessProof` of round-archive-policy.mjs. SHA-256 is a parameter: the digest of
-- a list of byte strings, in hexadecimal.
use myne.Js.{Value, bigint_of, is_missing, is_nullish, hex_bytes, codes}
use myne.Js.Pattern.{is_hex_32}
use myne.Archive.{some_text}
use myne.Base.{
  zero, leb, ◌^◌, ◌==◌, ◌/◌, ◌&&◌, ◌%◌, str_eq, plain_error, ltb, length, suc, if◌then◌else◌, guard,
  err, ◌∷◌, ◌>>◌, ◌>>=◌, ok, [], ℕ, String, Result, List,
}
use myne.Base.Int.{negsuc, pos, ℤ}

abbrev pub switchboard_provider_kind : String
switchboard_provider_kind = "switchboard"

abbrev pub server_provider_kind : String
server_provider_kind = "server_commit_reveal"

-- The columns of a round that the proof reads.
pub record ProofColumns : Type 0 where
  pub round_id : Value
  pub provider_kind : Value
  pub randomness_hex : Value
  pub randomness_id : Value
  pub randomness_commit_slot : Value
  pub commitment_hex : Value
  pub reveal_hex : Value
  pub target_slot : Value
  pub entropy_slot : Value
  pub entropy_hash_hex : Value
  pub commitment_signature : Value
  pub commitment_tx_slot : Value
  pub lock_signature : Value
  pub lock_tx_slot : Value
  pub reveal_signature : Value
  pub reveal_tx_slot : Value
  pub settlement_signature : Value
  pub settlement_slot : Value

pub record SwitchboardProof : Type 0 where
  pub randomness_account : String
  pub randomness_commit_slot : ℕ
  pub randomness_hex : String
  pub settlement_signature : String

pub record ServerProof : Type 0 where
  pub commitment_hex : String
  pub reveal_hex : String
  pub target_slot : ℕ
  pub entropy_slot : ℕ
  pub entropy_hash_hex : String
  pub randomness_hex : String
  pub commitment_signature : String
  pub commitment_tx_slot : ℕ
  pub lock_signature : String
  pub lock_tx_slot : ℕ
  pub reveal_signature : String
  pub reveal_tx_slot : ℕ
  pub settlement_signature : String
  pub settlement_slot : ℕ

pub data ArchiveProof : Type 0 where
  switchboard : SwitchboardProof → ArchiveProof
  server : ServerProof → ArchiveProof

unfoldable pub required_hex_32 : Value → Result String
required_hex_32 v = do s ← some_text v; guard (is_hex_32 s) plain_error; ok s

unfoldable pub in_u64 : ℤ → Result ℕ
in_u64 (pos n) = if ltb n (2 ^ 64) then ok n else err plain_error
in_u64 (negsuc n) = err plain_error

unfoldable pub required_u64 : Value → Result ℕ
required_u64 v =
    let parsed : Result ℕ = elim (bigint_of v) [ ok z ↦ in_u64 z | err e ↦ err plain_error ] in
    if is_missing v then err plain_error else parsed

-- The eight bytes of a u64, the lowest first.
unfoldable pub bytes_le : ℕ → ℕ → List ℕ
bytes_le zero n = []
bytes_le (suc k) n = (n % 256) ∷ bytes_le k (n / 256)

unfoldable pub u64_le : ℕ → List ℕ
u64_le n = bytes_le 8 n

abbrev pub server_commit_domain : List ℕ
server_commit_domain = codes "MYNE_SERVER_COMMIT_V1"

abbrev pub server_output_domain : List ℕ
server_output_domain = codes "MYNE_SERVER_OUTPUT_V1"

unfoldable pub bytes_32 : List ℕ → Result (List ℕ)
bytes_32 bytes = do guard (length bytes == 32) plain_error; ok bytes

unfoldable pub switchboard_proof : ProofColumns → String → String → Result ArchiveProof
switchboard_proof c output_hex settlement_signature = do
  account ← some_text c.randomness_id
  slot ← required_u64 c.randomness_commit_slot
  guard (ltb 0 slot && ltb slot (2 ^ 63)) plain_error
  ok (
      switchboard (record {
        randomness_account = account;
        randomness_commit_slot = slot;
        randomness_hex = output_hex;
        settlement_signature = settlement_signature;
      }))

-- The fields of a server proof, before they are compared.
unfoldable pub read_server_proof : ProofColumns → String → String → Result (ℕ × ServerProof)
read_server_proof c output_hex settlement_signature = do
  guard (is_nullish c.randomness_id) plain_error
  guard (is_nullish c.randomness_commit_slot) plain_error
  commitment ← required_hex_32 c.commitment_hex
  reveal ← required_hex_32 c.reveal_hex
  target ← required_u64 c.target_slot
  entropy ← required_u64 c.entropy_slot
  entropy_hash ← required_hex_32 c.entropy_hash_hex
  commitment_signature ← some_text c.commitment_signature
  commitment_tx ← required_u64 c.commitment_tx_slot
  lock_signature ← some_text c.lock_signature
  lock_tx ← required_u64 c.lock_tx_slot
  reveal_signature ← some_text c.reveal_signature
  reveal_tx ← required_u64 c.reveal_tx_slot
  settlement ← required_u64 c.settlement_slot
  round_id ← required_u64 c.round_id
  ok (
    round_id,
    record {
      commitment_hex = commitment;
      reveal_hex = reveal;
      target_slot = target;
      entropy_slot = entropy;
      entropy_hash_hex = entropy_hash;
      randomness_hex = output_hex;
      commitment_signature = commitment_signature;
      commitment_tx_slot = commitment_tx;
      lock_signature = lock_signature;
      lock_tx_slot = lock_tx;
      reveal_signature = reveal_signature;
      reveal_tx_slot = reveal_tx;
      settlement_signature = settlement_signature;
      settlement_slot = settlement;
    },
  )

module _ (hash_hex : List (List ℕ) → String) where
  unfoldable pub expected_commitment : List ℕ → List ℕ → ℕ → String → String
  expected_commitment program mint round_id reveal_hex =
      hash_hex (server_commit_domain ∷ program ∷ mint ∷ u64_le round_id ∷ hex_bytes reveal_hex ∷ [])

  unfoldable pub expected_output : List ℕ → List ℕ → ℕ → ServerProof → String
  expected_output program mint round_id p = hash_hex (
      server_output_domain
      ∷ program
      ∷ mint
      ∷ u64_le round_id
      ∷ hex_bytes p.reveal_hex
      ∷ u64_le p.entropy_slot
      ∷ hex_bytes p.entropy_hash_hex
      ∷ [])

  -- The order of the slots, the atomic reveal, and the two digests.
  unfoldable pub check_server_proof : List ℕ → List ℕ → ℕ → ServerProof → Result ServerProof
  check_server_proof program_bytes mint_bytes round_id p = do
    guard (ltb 0 p.target_slot && leb p.target_slot p.entropy_slot) plain_error
    guard (leb p.commitment_tx_slot p.lock_tx_slot && leb p.lock_tx_slot p.reveal_tx_slot)
        plain_error
    guard
        (str_eq p.reveal_signature p.settlement_signature && p.reveal_tx_slot == p.settlement_slot)
        plain_error
    program ← bytes_32 program_bytes
    mint ← bytes_32 mint_bytes
    guard (str_eq p.commitment_hex (expected_commitment program mint round_id p.reveal_hex))
        plain_error
    guard (str_eq p.randomness_hex (expected_output program mint round_id p)) plain_error
    ok p

  unfoldable pub require_round_randomness_proof :
      ProofColumns → List ℕ → List ℕ → Result ArchiveProof
  require_round_randomness_proof c program_bytes mint_bytes = do
    kind ← some_text c.provider_kind
    output_hex ← required_hex_32 c.randomness_hex
    settlement_signature ← some_text c.settlement_signature
    let by_server = do
      (round_id, p) ← read_server_proof c output_hex settlement_signature
      checked ← check_server_proof program_bytes mint_bytes round_id p
      ok (server checked)
    let by_switchboard = switchboard_proof c output_hex settlement_signature
    if str_eq kind switchboard_provider_kind
        then by_switchboard
        else if str_eq kind server_provider_kind
        then by_server
        else err plain_error
