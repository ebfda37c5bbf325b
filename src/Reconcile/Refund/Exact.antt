-- ===== src/Reconcile/Refund/Exact.antt =====
-- What an accepted refunded round guarantees.
use myne.Reconcile.Refund.{
  Ledger, empty_ledger, amount_for, add_refund_bet, same_amount, is_refunded, add_refund,
  check_refunded, check_refunded_tiles, refunded_ledger, refunded_round_projection_matches_chain,
}
use myne.Js.{bigint, Value, as_bigint, to_string, text_or_blank, required_non_negative_bigint}
use myne.Reconcile.Rows.{Bet, Settlement}
use myne.Reconcile.Chain.{ChainRound, Projection}
use myne.Base.{
  subset_all, ◌↔◌, eq_iff, ◌||◌, suc, map, All, refl, sym, ok_injective, err, >>=-eq-ok, subst,
  guard-eq-ok, arith, ==_iff, ◌==◌, ◌+◌, ◌&&◌, plain_error, or_false, not, length, has, ap, true,
  str_eq, some, ok, ◌≡◌, ◌∷◌, ◌>>=◌, none, false, distinct, fold_result, [], String, Result, Option,
  List, ℕ,
}
use myne.Base.Int.{pos, eqb_ℤ, ℤ}
use myne.Reconcile.Refund.Amounts.{
  bets_total, bet_receipt, refund_receipt, or_zero, names, length-names, has-names, bets_amounts,
}

-- A refund pays in SOL what the bets of its receipt add up to, and no token.
unfoldable pub IsExactRefund : List Bet → Settlement → Type 0
IsExactRefund bets row =
    (required_non_negative_bigint row.sol_lamports ≡ ok (bets_total bets (refund_receipt row)))
    × (required_non_negative_bigint row.myne_base_units ≡ ok 0)
    × (required_non_negative_bigint row.motherlode_base_units ≡ ok 0)

same_amount-eq : (o : Option ℕ) (n : ℕ) → same_amount o n ≡ true → o ≡ some n
unfolding same_amount
same_amount-eq none n e = absurd (cc)
same_amount-eq (some m) n e = ap some ((==_iff _ _).0 e)

exact_parts :
    (m q : Result ℕ) (myne motherlode : ℕ)
    → m ≡ ok myne
    → q ≡ ok motherlode
    → (myne == 0 && motherlode == 0) ≡ true
    → (m ≡ ok 0) × (q ≡ ok 0)
exact_parts m q myne motherlode a b e = ground arith

-- What one accepted refund checks.
add_refund_inv :
    (round_id : String) (amounts : List (String × ℕ)) (refunded refunded' : List String)
    (row : Settlement)
    → add_refund round_id amounts refunded row ≡ ok refunded'
    → (lamports : ℕ) × (required_non_negative_bigint row.sol_lamports ≡ ok lamports)
      × (amount_for amounts (refund_receipt row) ≡ some lamports)
      × (required_non_negative_bigint row.myne_base_units ≡ ok 0)
      × (required_non_negative_bigint row.motherlode_base_units ≡ ok 0)
      × (refunded' ≡ refund_receipt row ∷ refunded)
      × (has refunded (refund_receipt row) ≡ false)
unfolding add_refund
add_refund_inv round_id amounts refunded refunded' row e =
    let (_, e1) =
      guard-eq-ok (str_eq (to_string row.round_id) round_id && is_refunded row.status) plain_error _
        e in
    let (_, e2) = guard-eq-ok (not (str_eq (text_or_blank row.receipt) "")) plain_error _ e1 in
    let (fresh, e3) =
      guard-eq-ok (not (has refunded (text_or_blank row.receipt))) plain_error _ e2 in
    let (lamports, r1, e4) = >>=-eq-ok (required_non_negative_bigint row.sol_lamports) _ e3 in
    let (same, e5) =
      guard-eq-ok (same_amount (amount_for amounts (text_or_blank row.receipt)) lamports)
        plain_error _ e4 in
    let (myne, r2, e6) = >>=-eq-ok (required_non_negative_bigint row.myne_base_units) _ e5 in
    let (motherlode, r3, e7) =
      >>=-eq-ok (required_non_negative_bigint row.motherlode_base_units) _ e6 in
    let (zeros, e8) = guard-eq-ok (myne == 0 && motherlode == 0) plain_error _ e7 in
    let (no_myne, no_motherlode) = exact_parts _ _ myne motherlode r2 r3 zeros in
    (
      lamports,
      r1,
      same_amount-eq _ lamports same,
      no_myne,
      no_motherlode,
      sym (ok_injective e8),
      ground arith,
    )

exact_total : (o : Option ℕ) (n total : ℕ) → o ≡ some n → or_zero o ≡ total → n ≡ total
unfolding or_zero
exact_total o n total e h = ground arith

refunds-exact :
    (round_id : String) (amounts : List (String × ℕ)) (bets : List Bet)
    (refunded result : List String) (rows : List Settlement)
    → ((k : String) → or_zero (amount_for amounts k) ≡ bets_total bets k)
    → fold_result (add_refund round_id amounts) refunded rows ≡ ok result
    → All (IsExactRefund bets) rows
      × (length result ≡ length refunded + length rows)
      × (distinct (map refund_receipt rows) ≡ true)
      × ((k : String)
          → has (map refund_receipt rows) k ≡ true
          → (has refunded k ≡ false) × (has (names amounts) k ≡ true))
unfolding fold_result distinct has
refunds-exact round_id amounts bets refunded result [] held e = (
  tt,
  subst (λ r. length r ≡ length refunded + 0) (ok_injective e) (omega arith),
  refl,
  λ k h. absurd (cc),
)
refunds-exact round_id amounts bets refunded result (row ∷ rows) held e =
    let (next, one, rest) = >>=-eq-ok (add_refund round_id amounts refunded row) _ e in
    let (lamports, paid, held_, no_myne, no_motherlode, grown, fresh) =
      add_refund_inv round_id amounts refunded next row one in
    let (others, count, once, apart) =
      refunds-exact round_id amounts bets next result rows held rest in
    let total : lamports ≡ bets_total bets (refund_receipt row) =
      exact_total _ lamports _ held_ (held (refund_receipt row)) in
    let r = refund_receipt row in
    let in_next : (k : String) → has next k ≡ (str_eq r k || has refunded k) =
      λ k. ap (λ rs. has rs k) grown in
    let known = has-names amounts r lamports held_ in
    (
      (unfold IsExactRefund in (rw (← total) paid, no_myne, no_motherlode), others),
      rw (count, grown) (omega arith),
      ground (arith, apart r, in_next r, eq_iff r r),
      λ k h. ground (arith, apart k, in_next k, eq_iff r k),
    )

same_total : (a b : ℕ) (total : ℤ) → eqb_ℤ (pos a) total ≡ true → eqb_ℤ (pos b) total ≡ true → a ≡ b
same_total a b total e f = ground arith

refunded_ledger_inv :
    (c : ChainRound) (p : Projection) (bets : List Bet) (settlements : List Settlement)
    (now : Value) (r : Ledger × List String)
    → refunded_ledger c p bets settlements now ≡ ok r
    → (id : String) × (fold_result (add_refund_bet id) empty_ledger bets ≡ ok r.0)
      × (fold_result (add_refund id r.0.amounts) [] settlements ≡ ok r.1)
      × (length r.1 ≡ length r.0.amounts)
unfolding refunded_ledger
refunded_ledger_inv c p bets settlements now r e =
    let (total, _, e1) = >>=-eq-ok (check_refunded c p now) _ e in
    let (id, _, e2) = >>=-eq-ok (as_bigint c.id) _ e1 in
    let (l, read, e3) =
      >>=-eq-ok (fold_result (add_refund_bet (to_string (bigint id))) empty_ledger bets) _ e2 in
    let (counted, e4) = guard-eq-ok (eqb_ℤ (pos (length l.amounts)) total) plain_error _ e3 in
    let (_, _, e5) = >>=-eq-ok (check_refunded_tiles c p l) _ e4 in
    let (refunded, folded, e6) =
      >>=-eq-ok (fold_result (add_refund (to_string (bigint id)) l.amounts) [] settlements) _ e5 in
    let (all_of, e7) = guard-eq-ok (eqb_ℤ (pos (length refunded)) total) plain_error _ e6 in
    subst
      (λ (q : Ledger × List String).
        (i : String) × (fold_result (add_refund_bet i) empty_ledger bets ≡ ok q.0)
        × (fold_result (add_refund i q.0.amounts) [] settlements ≡ ok q.1)
        × (length q.1 ≡ length q.0.amounts))
      (ok_injective e7) (to_string (bigint id), read, folded, same_total _ _ total all_of counted)

length-map : (rows : List Settlement) → length (map refund_receipt rows) ≡ length rows
length-map [] = refl
length-map (row ∷ rows) = ap suc (length-map rows)

or_false-true :
    {A : Type 0} (m : Result A) → or_false (m >>= λ _. ok true) ≡ true → (a : A) × (m ≡ ok a)
or_false-true (ok a) e = (a, refl)
or_false-true (err t) e = absurd (cc)

-- In an accepted refunded round each refund pays in SOL the sum of the amounts of the bets that name
-- its receipt, and no token; no receipt is refunded twice; and the receipts that are refunded are
-- exactly those that a bet names.
pub refunded_round_projection_matches_chain-exact :
    (c : ChainRound) (p : Projection) (bets : List Bet) (settlements : List Settlement)
    (now : Value)
    → refunded_round_projection_matches_chain (some c) (some p) bets settlements now ≡ true
    → All (IsExactRefund bets) settlements
      × (distinct (map refund_receipt settlements) ≡ true)
      × ((k : String)
          → (has (map bet_receipt bets) k ≡ true) ↔ (has (map refund_receipt settlements) k ≡ true))
unfolding refunded_round_projection_matches_chain names has
refunded_round_projection_matches_chain-exact c p bets settlements now e =
    let ((l, refunded), read) = or_false-true (refunded_ledger c p bets settlements now) e in
    let (id, added, folded, even) =
      refunded_ledger_inv c p bets settlements now (l, refunded) read in
    let at = bets_amounts id empty_ledger l bets added in
    let held : (k : String) → or_zero (amount_for l.amounts k) ≡ bets_total bets k =
      λ k. unfold amount_for or_zero in (omega (arith, (at k).0)) in
    let (exact, count, once, apart) =
      refunds-exact id l.amounts bets [] refunded settlements held folded in
    let all_named =
      subset_all (map refund_receipt settlements) (names l.amounts) once (λ k h. (apart k h).1)
        (omega (arith, length-names l.amounts, length-map settlements)) in
    (
      exact,
      once,
      λ k. (
        λ h. all_named k (ground (arith, (at k).1)),
        λ h. ground (arith, (at k).1, (apart k h).1),
      ),
    )
