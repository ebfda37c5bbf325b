-- ===== src/Reconcile/Snapshot/Sound.antt =====
-- What the projection of a settled snapshot guarantees.
use native.Mathlib.Nat.{div-add-mod}
use myne.Archive.{FeeAudit, require_round_fee_audit}
use myne.Archive.Proof.{require_round_randomness_proof, ArchiveProof, ProofColumns}
use myne.Reconcile.Digest.{is_number}
use myne.Reconcile.Snapshot.{
  Snapshot, RoundProjection, Outcome, Timing, Tail, FeeTexts, amount, in_order, read_timing,
  read_first, read_outcome, read_fee_texts, read_tail, ProofTexts,
}
use myne.Reconcile.Snapshot.Project.{
  check_payout, check_settled, check_columns, fee_columns, read_provider,
  archived_snapshot_round_projection, proof_columns, finish_projection, read_server_columns,
  is_exactly,
}
use myne.Base.{
  refl, ◌>>◌, Result, none, ok_injective, not, false, subst, some, Option, ◌||◌, eq_iff, Bool,
  >>=-eq-ok, ltb→lt, inl, inr, err, ==_iff, leb→le, Bool-cases, ◌==◌, ◌-◌, true, arith, ◌/◌, ltb,
  assertion, List, ◌<◌, leb, if◌then◌else◌, String, ℕ, guard-eq-ok, ◌*◌, ◌≤◌, ◌+◌, ok, ◌≡◌,
}

div-mul-le : (a b : ℕ) → 0 < b → a / b * b ≤ a
div-mul-le a b h = grind (arith, div-add-mod a b)

payout_math :
    (gross winning prize fee mul : ℕ)
    → fee ≤ gross
    → prize ≡ (if ltb 0 winning then gross - fee else 0)
    → mul ≡ (if ltb 0 winning then prize * 1_000_000_000_000_000_000 / winning else 0)
    → (prize + fee ≤ gross) × (mul * winning ≤ prize * 1_000_000_000_000_000_000)
payout_math gross winning prize fee mul h p m = elim (Bool-cases (ltb 0 winning)) [
  | inr none_won ↦ (ground arith, ground arith)
  | inl won ↦
      let mul_is : mul ≡ prize * 1_000_000_000_000_000_000 / winning = ground arith in
      (
        ground arith,
        rw mul_is (div-mul-le (prize * 1_000_000_000_000_000_000) winning (ltb→lt _ _ won)),
      )
]

-- The prize and the fee stay within the wager, and the multiplier pays out at most the prize and
-- leaves less than one unit of the winners' stake.
check_payout_bounds :
    (o : Outcome) (f : FeeAudit)
    → check_payout o f ≡ ok tt
    → (amount o.pot_for_winners_wei + f.total_fee_lamports ≤ amount o.total_wager_wei)
      × (amount o.payout_mul_wad * amount o.winner_total_wei
          ≤ amount o.pot_for_winners_wei * 1_000_000_000_000_000_000)
unfolding check_payout
check_payout_bounds o f e =
    let gross = amount o.total_wager_wei in
    let winning = amount o.winner_total_wei in
    let prize = amount o.pot_for_winners_wei in
    let (_, e1) = guard-eq-ok (leb winning gross) assertion _ e in
    let (fee_inside, e2) = guard-eq-ok (leb f.total_fee_lamports gross) assertion _ e1 in
    let (prize_is, e3) = guard-eq-ok (prize == _) assertion _ e2 in
    let (pays, _) = guard-eq-ok (amount o.payout_mul_wad == _) assertion _ e3 in
    payout_math gross winning prize f.total_fee_lamports (amount o.payout_mul_wad)
      (leb→le _ _ fee_inside) ((==_iff _ _).0 prize_is) ((==_iff _ _).0 pays)

read_provider_counts :
    (v2 : Bool) (p : Option ProofColumns) (t : Tail) (open_round : Bool) (proof : ProofTexts)
    (t' : Tail)
    → read_provider v2 p t open_round ≡ ok (proof, t')
    → (t'.processed_receipts ≡ t.processed_receipts) × (t'.total_receipts ≡ t.total_receipts)
unfolding read_provider
read_provider_counts true none t open_round proof t' e = ground arith
read_provider_counts true (some p) t open_round proof t' e = cc
read_provider_counts false none t open_round proof t' e = cc
read_provider_counts false (some p) t open_round proof t' e =
    let (texts, _, same) = >>=-eq-ok (read_server_columns p t open_round) _ e in ground arith

finish_choice :
    (b : Bool) (check : Result (Unit {0})) (q r : RoundProjection)
    → (if b then (check >> ok q) else ok q) ≡ ok r
    → (q ≡ r) × (b ≡ true → check ≡ ok tt)
finish_choice true (ok tt) q r e = (ok_injective e, λ _. refl)
finish_choice true (err t) q r e = ground arith
finish_choice false check q r e = (ok_injective e, λ h. ground arith)

module _ (double_text : ℕ → String) (hash_hex : List (List ℕ) → String) where
  check_columns_order :
      (timing : Timing) (o : Outcome) (f : FeeTexts) (t : Tail)
      → check_columns double_text hash_hex timing o f t ≡ ok tt
      → (in_order timing ≡ true) × (t.processed_receipts ≡ t.total_receipts)
  unfolding check_columns
  check_columns_order timing o f t e = ground (arith, eq_iff t.processed_receipts t.total_receipts)

  settled_inv :
      (program_bytes mint_bytes : List ℕ) (r : RoundProjection)
      → check_settled double_text hash_hex r program_bytes mint_bytes ≡ ok tt
      → ((f : FeeAudit) × (require_round_fee_audit (fee_columns r.fees) ≡ ok f)
          × (amount r.outcome.pot_for_winners_wei + f.total_fee_lamports
              ≤ amount r.outcome.total_wager_wei)
          × (amount r.outcome.payout_mul_wad * amount r.outcome.winner_total_wei
              ≤ amount r.outcome.pot_for_winners_wei * 1_000_000_000_000_000_000))
        × ((proof : ArchiveProof) × (require_round_randomness_proof hash_hex
                (proof_columns r)
                program_bytes
                mint_bytes
              ≡ ok proof))
  unfolding check_settled
  settled_inv program_bytes mint_bytes r e =
      let (f, audited, e1) = >>=-eq-ok (require_round_fee_audit (fee_columns r.fees)) _ e in
      let (u, paid, e2) = >>=-eq-ok (check_payout r.outcome f) _ e1 in
      let (proof, proved, e3) =
        >>=-eq-ok
          (require_round_randomness_proof hash_hex (proof_columns r) program_bytes mint_bytes) _
          e2 in
      let (inside, pays) = check_payout_bounds r.outcome f paid in
      ((f, audited, inside, pays), (proof, proved))

  finish_projection_inv :
      (program_bytes mint_bytes : List ℕ) (q r : RoundProjection)
      → finish_projection double_text hash_hex program_bytes mint_bytes q ≡ ok r
      → (q ≡ r)
        × (q.outcome.resolved ≡ true
            → check_settled double_text hash_hex q program_bytes mint_bytes ≡ ok tt)
  unfolding finish_projection
  finish_projection_inv program_bytes mint_bytes q r =
      finish_choice q.outcome.resolved
        (check_settled double_text hash_hex q program_bytes mint_bytes) q r

  -- What the sound projection of a settled round says of it.
  unfoldable pub SettledSound : List ℕ → List ℕ → RoundProjection → Type 0
  SettledSound program_bytes mint_bytes r =
      ((f : FeeAudit) × (require_round_fee_audit (fee_columns r.fees) ≡ ok f)
        × (amount r.outcome.pot_for_winners_wei + f.total_fee_lamports
            ≤ amount r.outcome.total_wager_wei)
        × (amount r.outcome.payout_mul_wad * amount r.outcome.winner_total_wei
            ≤ amount r.outcome.pot_for_winners_wei * 1_000_000_000_000_000_000))
      × ((proof : ArchiveProof) × (require_round_randomness_proof hash_hex (proof_columns r)
              program_bytes mint_bytes
            ≡ ok proof))

  finished :
      (program_bytes mint_bytes : List ℕ) (timing : Timing) (o : Outcome) (fees : FeeTexts)
      (t t' : Tail) (proof : ProofTexts) (r : RoundProjection)
      → (in_order timing ≡ true) × (t.processed_receipts ≡ t.total_receipts)
      → (t'.processed_receipts ≡ t.processed_receipts) × (t'.total_receipts ≡ t.total_receipts)
      → finish_projection double_text hash_hex program_bytes mint_bytes
          (record { timing = timing; outcome = o; fees = fees; tail = t'; proof = proof })
        ≡ ok r
      → (in_order r.timing ≡ true)
        × (r.tail.processed_receipts ≡ r.tail.total_receipts)
        × (r.outcome.resolved ≡ true → SettledSound program_bytes mint_bytes r)
  unfolding SettledSound
  finished program_bytes mint_bytes timing o fees t t' proof r (ordered, full) (same1, same2) e =
      let (same, settled) = finish_projection_inv program_bytes mint_bytes _ r e in
      subst
        (λ r.
          (in_order r.timing ≡ true)
          × (r.tail.processed_receipts ≡ r.tail.total_receipts)
          × (r.outcome.resolved ≡ true → SettledSound program_bytes mint_bytes r))
        same (ordered, cc, λ h. settled_inv program_bytes mint_bytes _ (settled h))

  -- A snapshot whose projection is computed has ordered times and all its receipts processed. If
  -- it is settled, its fees pass the audit, the winners' prize and the fee stay within the wager,
  -- the payout multiplier pays out at most the prize, and the provider's proof is accepted.
  pub archived_snapshot_round_projection_sound :
      (s : Snapshot) (program_id round_id : String) (program_bytes mint_bytes : List ℕ)
      (r : RoundProjection)
      → archived_snapshot_round_projection double_text hash_hex s program_id round_id program_bytes
          mint_bytes
        ≡ ok r
      → (in_order r.timing ≡ true)
        × (r.tail.processed_receipts ≡ r.tail.total_receipts)
        × (r.outcome.resolved ≡ true → SettledSound program_bytes mint_bytes r)
  unfolding archived_snapshot_round_projection
  archived_snapshot_round_projection_sound s program_id round_id program_bytes mint_bytes r e =
      let (_, e1) = guard-eq-ok (is_number s.version 2 || is_number s.version 3) assertion _ e in
      let (_, e2) = guard-eq-ok (is_exactly s.program (some program_id)) assertion _ e1 in
      let (_, _, e2') = >>=-eq-ok (read_first double_text s.round round_id) _ e2 in
      let (timing, _, e3) = >>=-eq-ok (read_timing s.round round_id) _ e2' in
      let (outcome, _, e4) = >>=-eq-ok (read_outcome s.round) _ e3 in
      let (fees, _, e5) = >>=-eq-ok (read_fee_texts s.round.fees (not outcome.resolved)) _ e4 in
      let (tail, _, e6) = >>=-eq-ok (read_tail double_text s.round (not outcome.resolved)) _ e5 in
      let (_, checked, e7) =
        >>=-eq-ok (check_columns double_text hash_hex timing outcome fees tail) _ e6 in
      let ((proof, tail'), provider, e8) =
        >>=-eq-ok
          (read_provider (is_number s.version 2) s.randomness_proof tail (not outcome.resolved)) _
          e7 in
      finished program_bytes mint_bytes timing outcome fees tail tail' proof r
        (check_columns_order timing outcome fees tail checked)
        (read_provider_counts (is_number s.version 2) s.randomness_proof tail (not outcome.resolved)
          proof tail' provider)
        e8
