-- ===== src/Reconcile/Chain/Replays.antt =====
-- When a round is replayed from its canonical history.
use myne.Js.{truthy, as_bigint}
use myne.Reconcile.Chain.{
  ChainRound, Projection, IndexedRound, same_count, participant_matches, lifecycle_matches,
  round_needs_canonical_replay, round_projection_matches_chain, server_proof_missing,
  complete_server_proof, has_server_flag,
}
use myne.Base.{◌⊎◌, ◌↔◌, arith, some, ok, Bool, true, false, ◌≡◌}
use myne.Base.Int.{ℤ}

module _ (r : IndexedRound) (c : ChainRound) (p : Projection)
    (open_resolved : truthy r.resolved ≡ truthy c.settled) where
  -- A round that is open on the chain and in the index is not replayed before all its receipts are
  -- processed, whatever its projection.
  pub replay_waits_for_result :
      truthy c.settled ≡ false
      → (matched : Bool) → participant_matches c p ≡ ok matched
      → same_count c.processed_receipts c.total_receipts ≡ ok false
      → same_count p.indexed_processed_receipts c.processed_receipts ≡ ok true
      → same_count p.indexed_closed_receipts c.closed_receipts ≡ ok true
      → round_needs_canonical_replay (some r) (some c) (some p) ≡ ok false
  unfolding round_needs_canonical_replay
  replay_waits_for_result unsettled matched participants partial processed closed = ground arith

  -- A settled round whose participants match the chain and whose processed and closed counts match is replayed exactly
  -- when its settlement is missing, or its slot marks server randomness and its proof has a gap.
  pub settled_replay_iff :
      truthy c.settled ≡ true
      → round_projection_matches_chain (some c) (some p) ≡ ok true
      → (slot : ℤ) → as_bigint c.randomness_commit_slot ≡ ok slot
      → (round_needs_canonical_replay (some r) (some c) (some p) ≡ ok true) ↔ (
          (truthy r.settlement_signature ≡ false)
          ⊎ ((has_server_flag slot ≡ true) × (complete_server_proof r ≡ false)))
  unfolding round_needs_canonical_replay round_projection_matches_chain lifecycle_matches
      server_proof_missing
  settled_replay_iff settled matches slot read = ground arith

  -- A settled round whose participants differ from the chain is replayed.
  pub settled_mismatch_replays :
      truthy c.settled ≡ true
      → participant_matches c p ≡ ok false
      → round_needs_canonical_replay (some r) (some c) (some p) ≡ ok true
  unfolding round_needs_canonical_replay
  settled_mismatch_replays settled differs = ground arith
