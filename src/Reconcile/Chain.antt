-- ===== src/Reconcile/Chain.antt =====
-- The comparison of the participant projection with a live Round account, and the decision to
-- replay a round, of round-reconciliation-policy.mjs.
pub mod Matches
pub mod Replays
use myne.Js.{Value, as_bigint, truthy, is_nullish}
use myne.Base.{
  ◌∷◌, ◌%◌, none, ◌||◌, ◌^◌, true, map_result, ◌==◌, ◌/◌, some, not, if◌then◌else◌, [], ◌>>=◌, ◌&&◌,
  ok, length, false, Result, Option, List, Bool,
}
use myne.Base.Int.{negsuc, eqb_ℤ, pos, ℤ}

-- A vector field is `none` where it is no array.
pub record ChainRound : Type 0 where
  pub id : Value
  pub settled : Value
  pub refund_at : Value
  pub total_receipts : Value
  pub processed_receipts : Value
  pub closed_receipts : Value
  pub gross_deployed_lamports : Value
  pub prize_lamports : Value
  pub randomness_commit_slot : Value
  pub tile_lamports : Option (List Value)
  pub tile_receipts : Option (List Value)

pub record Projection : Type 0 where
  pub indexed_total_receipts : Value
  pub indexed_processed_receipts : Value
  pub indexed_closed_receipts : Value
  pub indexed_tile_lamports : Option (List Value)
  pub indexed_tile_receipts : Option (List Value)

-- `Array.isArray(value) ? value.map(asBigInt) : []`
unfoldable pub projection_vector : Option (List Value) → Result (List ℤ)
projection_vector none = ok []
projection_vector (some vs) = map_result as_bigint vs

unfoldable pub equal_vectors : List ℤ → List ℤ → Bool
equal_vectors [] [] = true
equal_vectors (a ∷ as') (b ∷ bs) = eqb_ℤ a b && equal_vectors as' bs
equal_vectors _ _ = false

-- `asBigInt(a) === asBigInt(b)`
unfoldable pub same_count : Value → Value → Result Bool
same_count a b = do x ← as_bigint a; y ← as_bigint b; ok (eqb_ℤ x y)

-- The vectors of the chain and of the index, read before any is compared.
unfoldable pub read_vectors : ChainRound → Projection → Result (List ℤ × List ℤ × List ℤ × List ℤ)
read_vectors c p = do
  chain_lamports ← projection_vector c.tile_lamports
  chain_receipts ← projection_vector c.tile_receipts
  indexed_lamports ← projection_vector p.indexed_tile_lamports
  indexed_receipts ← projection_vector p.indexed_tile_receipts
  ok (chain_lamports, chain_receipts, indexed_lamports, indexed_receipts)

unfoldable pub vectors_of_25 : List ℤ × List ℤ × List ℤ × List ℤ → Bool
vectors_of_25 (a, b, c, d) = length a == 25 && length b == 25 && length c == 25 && length d == 25

unfoldable pub compare_vectors : List ℤ × List ℤ × List ℤ × List ℤ → Bool
compare_vectors (chain_lamports, chain_receipts, indexed_lamports, indexed_receipts) =
    equal_vectors indexed_lamports chain_lamports && equal_vectors indexed_receipts chain_receipts

unfoldable pub decide_vectors :
    ChainRound → Projection → List ℤ × List ℤ × List ℤ × List ℤ → Result Bool
decide_vectors c p vectors =
    let compared = same_count p.indexed_total_receipts c.total_receipts >>= λ same.
    ok (same && compare_vectors vectors) in
    if vectors_of_25 vectors then compared else ok false

unfoldable pub participant_matches : ChainRound → Projection → Result Bool
participant_matches c p = do vectors ← read_vectors c p; decide_vectors c p vectors

unfoldable pub round_participant_projection_matches_chain :
    Option ChainRound → Option Projection → Result Bool
round_participant_projection_matches_chain (some c) (some p) = participant_matches c p
round_participant_projection_matches_chain _ _ = ok false

unfoldable pub lifecycle_matches : ChainRound → Projection → Result Bool
lifecycle_matches c p = do
  processed ← same_count p.indexed_processed_receipts c.processed_receipts
  let closed = same_count p.indexed_closed_receipts c.closed_receipts
  if processed then closed else ok false

unfoldable pub round_projection_matches_chain : Option ChainRound → Option Projection → Result Bool
round_projection_matches_chain (some c) (some p) = do
  participants ← participant_matches c p
  if participants then lifecycle_matches c p else ok false
round_projection_matches_chain _ _ = ok false

-- The columns of an indexed round that the replay decision reads.
pub record IndexedRound : Type 0 where
  pub resolved : Value
  pub archive_verified : Value
  pub closed_signature : Value
  pub settlement_signature : Value
  pub randomness_commitment_hex : Value
  pub randomness_reveal_hex : Value
  pub randomness_target_slot : Value
  pub randomness_entropy_slot : Value
  pub randomness_entropy_hash_hex : Value
  pub randomness_commitment_signature : Value
  pub randomness_lock_signature : Value
  pub randomness_reveal_signature : Value

unfoldable pub complete_server_proof : IndexedRound → Bool
complete_server_proof r =
    truthy r.randomness_commitment_hex
    && truthy r.randomness_reveal_hex
    && not (is_nullish r.randomness_target_slot)
    && not (is_nullish r.randomness_entropy_slot)
    && truthy r.randomness_entropy_hash_hex
    && truthy r.randomness_commitment_signature
    && truthy r.randomness_lock_signature
    && truthy r.randomness_reveal_signature
    && truthy r.settlement_signature

-- `(encodedSlot & (1n << 63n)) !== 0n`, in two's complement.
unfoldable pub has_server_flag : ℤ → Bool
has_server_flag (pos n) = n / 2 ^ 63 % 2 == 1
has_server_flag (negsuc n) = n / 2 ^ 63 % 2 == 0

-- `archive_verified === true && (!closed_signature || !projectionMatchesProof)`
unfoldable pub closed_round_needs_canonical_replay : Option IndexedRound → Value → Bool
closed_round_needs_canonical_replay none matches = false
closed_round_needs_canonical_replay (some r) matches =
    is_true r.archive_verified && (not (truthy r.closed_signature) || not (truthy matches))
  where
    is_true : Value → Bool
    is_true (Value.boolean true) = true
    is_true _ = false

-- A settled round lacks its settlement, or its proof where the slot marks server randomness.
unfoldable pub server_proof_missing : IndexedRound → ChainRound → Result Bool
server_proof_missing r c =
    let read = as_bigint c.randomness_commit_slot >>= λ slot.
    ok (has_server_flag slot && not (complete_server_proof r)) in
    if truthy r.settlement_signature then read else ok true

-- What is decided once the participants match.
unfoldable pub settled_needs_replay : IndexedRound → ChainRound → Projection → Result Bool
settled_needs_replay r c p = do
  processed ← same_count p.indexed_processed_receipts c.processed_receipts
  closed ← if processed then same_count p.indexed_closed_receipts c.closed_receipts else ok true
  let mismatch = not processed || not closed
  all ← if mismatch then same_count c.processed_receipts c.total_receipts else ok false
  if all then ok true else if not (truthy c.settled) then ok false else server_proof_missing r c

-- A participant vector that differs is repaired once the round has a result or a full refund.
unfoldable pub mismatch_needs_replay : ChainRound → Result Bool
mismatch_needs_replay c =
    if truthy c.settled then ok true else same_count c.processed_receipts c.total_receipts

unfoldable pub projection_needs_replay : IndexedRound → ChainRound → Option Projection → Result Bool
unfolding settled_needs_replay mismatch_needs_replay
projection_needs_replay r c none = mismatch_needs_replay c
projection_needs_replay r c (some p) = do
  participants ← participant_matches c p
  if participants then settled_needs_replay r c p else mismatch_needs_replay c

-- `a !== b`
abbrev pub differ : Bool → Bool → Bool
differ true b = not b
differ false b = b

unfoldable pub round_needs_canonical_replay :
    Option IndexedRound → Option ChainRound → Option Projection → Result Bool
unfolding projection_needs_replay
round_needs_canonical_replay r none p = ok false
round_needs_canonical_replay none (some c) p = ok (truthy c.settled)
round_needs_canonical_replay (some r) (some c) p =
    if differ (truthy r.resolved) (truthy c.settled) then ok true else projection_needs_replay r c p
