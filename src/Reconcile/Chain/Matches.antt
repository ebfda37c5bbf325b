-- ===== src/Reconcile/Chain/Matches.antt =====
-- The comparison accepts exactly the projections that equal the account's aggregates.
use myne.Js.{Value, as_bigint}
use myne.Reconcile.Chain.{
  round_projection_matches_chain, lifecycle_matches, vectors_of_25, compare_vectors, read_vectors,
  round_participant_projection_matches_chain, participant_matches, ChainRound, Projection,
  projection_vector, equal_vectors, decide_vectors, same_count,
}
use myne.Base.{
  ap, ◌∙◌, ◌↔◌, some, refl, [], ◌∷◌, length, arith, >>=-eq-ok, true, ok, ◌≡◌, Option, List,
}
use myne.Base.Int.{eq_of_parts, ℤ}

equal_vectors_eq : (xs ys : List ℤ) → equal_vectors xs ys ≡ true → xs ≡ ys
unfolding equal_vectors
equal_vectors_eq [] [] e = refl
equal_vectors_eq [] (y ∷ ys) e = cc
equal_vectors_eq (x ∷ xs) [] e = cc
equal_vectors_eq (x ∷ xs) (y ∷ ys) e = ground (arith, equal_vectors_eq xs ys, eq_of_parts x y)

equal_vectors_refl : (xs : List ℤ) → equal_vectors xs xs ≡ true
unfolding equal_vectors
equal_vectors_refl [] = refl
equal_vectors_refl (x ∷ xs) = ground (arith, equal_vectors_refl xs)

-- Both values are the same integer.
abbrev pub SameCount : Value → Value → Type 0
SameCount a b = (n : ℤ) × (as_bigint a ≡ ok n) × (as_bigint b ≡ ok n)

-- The arrays hold the same 25 integers.
abbrev pub SameTiles : Option (List Value) → Option (List Value) → Type 0
SameTiles a b =
    (xs : List ℤ) × (projection_vector a ≡ ok xs) × (projection_vector b ≡ ok xs) × (length xs ≡ 25)

pub record Agrees (c : ChainRound) (p : Projection) : Type 0 where
  pub lamports : SameTiles c.tile_lamports p.indexed_tile_lamports
  pub receipts : SameTiles c.tile_receipts p.indexed_tile_receipts
  pub total : SameCount c.total_receipts p.indexed_total_receipts

same_count-SameCount : (a b : Value) → same_count a b ≡ ok true → SameCount b a
unfolding same_count
same_count-SameCount a b e =
    let (x, first, e1) = >>=-eq-ok (as_bigint a) _ e in
    let (y, second, e2) = >>=-eq-ok (as_bigint b) _ e1 in
    (x, rw second (ground (arith, eq_of_parts x y)), first)

SameCount-same_count : (a b : Value) → SameCount b a → same_count a b ≡ ok true
unfolding same_count
SameCount-same_count a b (n, e, e') = rw (e', e) (ground arith)

read_vectors_inv :
    (c : ChainRound) (p : Projection) (a b d e : List ℤ)
    → read_vectors c p ≡ ok (a, b, d, e)
    → (projection_vector c.tile_lamports ≡ ok a)
      × (projection_vector c.tile_receipts ≡ ok b)
      × (projection_vector p.indexed_tile_lamports ≡ ok d)
      × (projection_vector p.indexed_tile_receipts ≡ ok e)
unfolding read_vectors
read_vectors_inv c p a b d e h = ground arith

decide_vectors_inv :
    (c : ChainRound) (p : Projection) (a b d e : List ℤ)
    → decide_vectors c p (a, b, d, e) ≡ ok true
    → (same_count p.indexed_total_receipts c.total_receipts ≡ ok true)
      × (length a ≡ 25)
      × (length b ≡ 25)
      × (d ≡ a)
      × (e ≡ b)
unfolding decide_vectors vectors_of_25 compare_vectors
decide_vectors_inv c p a b d e h = ground (arith, equal_vectors_eq d a, equal_vectors_eq e b)

Agrees-of :
    (c : ChainRound) (p : Projection) (a b d e : List ℤ)
    → read_vectors c p ≡ ok (a, b, d, e)
    → decide_vectors c p (a, b, d, e) ≡ ok true
    → Agrees c p
Agrees-of c p a b d e read decided =
    let (r1, r2, r3, r4) = read_vectors_inv c p a b d e read in
    let (count, long, long', same, same') = decide_vectors_inv c p a b d e decided in
    record {
      lamports = (a, r1, r3 ∙ ap ok same, long);
      receipts = (b, r2, r4 ∙ ap ok same', long');
      total = same_count-SameCount p.indexed_total_receipts c.total_receipts count;
    }

participant_matches_inv :
    (c : ChainRound) (p : Projection) → participant_matches c p ≡ ok true → Agrees c p
unfolding participant_matches
participant_matches_inv c p e =
    let ((a, b, d, d'), read, decided) = >>=-eq-ok (read_vectors c p) (decide_vectors c p) e in
    Agrees-of c p a b d d' read decided

participant_matches_of :
    (c : ChainRound) (p : Projection) → Agrees c p → participant_matches c p ≡ ok true
unfolding participant_matches read_vectors decide_vectors vectors_of_25 compare_vectors
participant_matches_of c p v =
    let (a, r1, r3, long) = v.lamports in
    let (b, r2, r4, long') = v.receipts in
    rw (r1, r2, r3, r4)
      (ground (
        arith,
        SameCount-same_count p.indexed_total_receipts c.total_receipts v.total,
        equal_vectors_refl a,
        equal_vectors_refl b,
      ))

lifecycle_matches_inv :
    (c : ChainRound) (p : Projection)
    → lifecycle_matches c p ≡ ok true
    → SameCount c.processed_receipts p.indexed_processed_receipts
      × SameCount c.closed_receipts p.indexed_closed_receipts
unfolding lifecycle_matches
lifecycle_matches_inv c p e =
    (same_count-SameCount _ _ (ground arith), same_count-SameCount _ _ (ground arith))

lifecycle_matches_of :
    (c : ChainRound) (p : Projection)
    → SameCount c.processed_receipts p.indexed_processed_receipts
    → SameCount c.closed_receipts p.indexed_closed_receipts
    → lifecycle_matches c p ≡ ok true
unfolding lifecycle_matches
lifecycle_matches_of c p processed closed =
    rw (SameCount-same_count p.indexed_processed_receipts c.processed_receipts processed)
      (SameCount-same_count p.indexed_closed_receipts c.closed_receipts closed)

both_match :
    (c : ChainRound) (p : Projection)
    → round_projection_matches_chain (some c) (some p) ≡ ok true
    → (participant_matches c p ≡ ok true) × (lifecycle_matches c p ≡ ok true)
unfolding round_projection_matches_chain
both_match c p e = ground arith

-- The participant projection is accepted exactly when both sides have the same 25 tile amounts,
-- the same 25 tile counts and the same number of receipts.
pub round_participant_projection_matches_chain_iff :
    (c : ChainRound) (p : Projection)
    → (round_participant_projection_matches_chain (some c) (some p) ≡ ok true) ↔ Agrees c p
unfolding round_participant_projection_matches_chain
round_participant_projection_matches_chain_iff c p =
    (participant_matches_inv c p, participant_matches_of c p)

-- The whole projection is accepted exactly when the participants agree and so do the numbers of
-- processed and of closed receipts.
pub round_projection_matches_chain_iff :
    (c : ChainRound) (p : Projection)
    → (round_projection_matches_chain (some c) (some p) ≡ ok true) ↔ (
        Agrees c p
        × SameCount c.processed_receipts p.indexed_processed_receipts
        × SameCount c.closed_receipts p.indexed_closed_receipts)
unfolding round_projection_matches_chain
round_projection_matches_chain_iff c p = (
  λ e.
      let (participants, counts) = both_match c p e in
      let (processed, closed) = lifecycle_matches_inv c p counts in
      (participant_matches_inv c p participants, processed, closed),
  λ v. rw (participant_matches_of c p v.0) (lifecycle_matches_of c p v.1 v.2),
)
